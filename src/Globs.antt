-- ===== src/Globs.antt =====
-- src/ctxfs/store.py: glob patterns over paths. `fnmatchcase` is fnmatch.fnmatchcase of the standard
-- library, which matches one component against one pattern.
pub mod Tests
use ctxd.Prelude.{
  ℕ, ◌≡◌, refl, sym, subst, ap, ◌∙◌, Bool, true, false, not, ◌&&◌, ◌||◌, List, [], ◌∷◌, ◌++◌, ◌↔◌,
  ◌⊎◌, inl, inr, ◌==◌, if◌then◌else◌, nat_eq, list_eq, any, is_empty, Text, codes, split,
  starts_with, ends_with, Bool-cases, arith, eq_iff, Result, ok, err, value_error, ◌>>=◌, ◌>>◌,
  guard,
}

-- _has_unclosed_character_class: the flag is `in_class`
abbrev unclosed_from : Bool → Text → Bool
unclosed_from in_class [] = in_class
unclosed_from in_class (c ∷ s) = unclosed_from (c == b'[' || (in_class && not (c == b']'))) s

unfoldable pub has_unclosed_character_class : Text → Bool
has_unclosed_character_class pattern = unclosed_from false pattern

-- part in s
abbrev contains : Text → Text → Bool
contains part [] = part == []
contains part (c ∷ s) = starts_with (c ∷ s) part || contains part s

unfoldable pub validate_glob_pattern : Text → Result (List Text)
validate_glob_pattern pattern = do
  guard (not (pattern == [] || ends_with pattern (codes "/"))) value_error
  guard (not (has_unclosed_character_class pattern)) value_error
  let parts = split b'/' pattern
  guard (not (any is_empty parts)) value_error
  guard (not (any (λ part. contains (codes "**") part && not (part == codes "**")) parts))
      value_error
  ok parts

-- path_parts[0:], path_parts[1:], ..., []
abbrev suffixes : List Text → List (List Text)
suffixes [] = [] ∷ []
suffixes (part ∷ parts) = (part ∷ parts) ∷ suffixes parts

module _ (fnmatchcase : Text → Text → Bool) where
  -- A component pattern takes the first component.
  abbrev one_component : Text → (List Text → Bool) → List Text → Bool
  one_component head rest [] = false
  one_component head rest (part ∷ parts) = fnmatchcase part head && rest parts

  unfoldable pub glob_matches : List Text → List Text → Bool
  glob_matches [] path = is_empty path
  glob_matches (head ∷ tail) path =
      let deeper = any (glob_matches tail) (suffixes path) in
      if head == codes "**" then deeper else one_component head (glob_matches tail) path

  -- What a pattern means: `**` stands for any number of components, and any other part for one.
  pub data Matches : List Text → List Text → Type 0 where
    nothing : Matches [] []
    component :
        (head part : Text) (tail parts : List Text)
        → (head == codes "**") ≡ false
        → fnmatchcase part head ≡ true
        → Matches tail parts
        → Matches (head ∷ tail) (part ∷ parts)
    deep :
        (head : Text) (tail skipped parts : List Text)
        → (head == codes "**") ≡ true
        → Matches tail parts
        → Matches (head ∷ tail) (skipped ++ parts)

  any_suffix :
      (test : List Text → Bool) (path : List Text)
      → any test (suffixes path) ≡ true
      → (skipped : List Text) × (parts : List Text) × (path ≡ skipped ++ parts)
        × (test parts ≡ true)
  any_suffix test [] h = ([], [], refl, ground (arith, h))
  any_suffix test (x ∷ path) h = elim (Bool-cases (test (x ∷ path))) [
    | inl e ↦ ([], x ∷ path, refl, e)
    | inr e ↦
        let (skipped, parts, same, t) = any_suffix test path (ground (arith, e, h)) in
        (x ∷ skipped, parts, ap (λ p. x ∷ p) same, t)
  ]

  suffix_any :
      (test : List Text → Bool) (skipped parts : List Text)
      → test parts ≡ true
      → any test (suffixes (skipped ++ parts)) ≡ true
  suffix_any test [] [] h = ground (arith, h)
  suffix_any test [] (x ∷ parts) h = ground (arith, h)
  suffix_any test (x ∷ skipped) parts h = ground (arith, suffix_any test skipped parts h)

  component-Matches :
      (head : Text) (tail path : List Text)
      → (head == codes "**") ≡ false
      → ((parts : List Text) → glob_matches tail parts ≡ true → Matches tail parts)
      → one_component head (glob_matches tail) path ≡ true
      → Matches (head ∷ tail) path
  component-Matches head tail [] e rest h = absurd (ground (arith, h))
  component-Matches head tail (part ∷ parts) e rest h =
      component head part tail parts e (ground (arith, h)) (rest parts (ground (arith, h)))

  glob_matches-Matches :
      (pattern path : List Text) → glob_matches pattern path ≡ true → Matches pattern path
  unfolding glob_matches
  glob_matches-Matches [] [] h = nothing
  glob_matches-Matches [] (x ∷ path) h = absurd (ground (arith, h))
  glob_matches-Matches (head ∷ tail) path h = elim (Bool-cases (head == codes "**")) [
    | inl e ↦
        let (skipped, parts, same, t) = any_suffix (glob_matches tail) path (rw e at h) in
        subst (Matches (head ∷ tail)) (sym same)
          (deep head tail skipped parts e (glob_matches-Matches tail parts t))
    | inr e ↦ component-Matches head tail path e (glob_matches-Matches tail) (rw e at h)
  ]

  Matches-glob_matches :
      (pattern path : List Text) → Matches pattern path → glob_matches pattern path ≡ true
  unfolding glob_matches
  Matches-glob_matches pattern path nothing = refl
  Matches-glob_matches pattern path (component head part tail parts e f m) =
      rw (e, f) (Matches-glob_matches tail parts m)
  Matches-glob_matches pattern path (deep head tail skipped parts e m) =
      rw e (suffix_any (glob_matches tail) skipped parts (Matches-glob_matches tail parts m))

  -- The matcher decides what a pattern means: `**` stands for any number of path components, none
  -- included, and any other part for exactly one component that fnmatch accepts.
  pub glob_matches_iff :
      (pattern path : List Text) → (glob_matches pattern path ≡ true) ↔ Matches pattern path
  glob_matches_iff pattern path =
      (glob_matches-Matches pattern path, Matches-glob_matches pattern path)
