-- ===== src/Paths/Canonical.antt =====
-- The paths that `_normalize_path` of src/ctxfs/store.py accepts.
use ctxd.Prelude.{
  ◌≡◌, refl, Bool, false, not, ◌||◌, ◌↔◌, List, [], ◌∷◌, ◌==◌, nat_eq, list_eq, list_beq, any,
  filter, Text, codes, starts_with, has_control_character, arith, split, ok, err, value_error,
  join-split, split-ne-nil, Result-cases, ◌⊎◌, inl, inr,
}
use ctxd.Paths.{slash, is_dots, has_drive_prefix, posix_root, posix_parts, normalize_path}

-- A path that every component may take for granted: relative, with no empty, `.` or `..` segment,
-- no control character and no drive letter.
pub record IsCanonical (path : Text) : Type 0 where
  pub segments : any is_dots (split slash path) ≡ false
  pub printable : has_control_character path ≡ false
  pub no_drive : has_drive_prefix path ≡ false

abbrev kept : Text → Bool
kept part = not (part == [] || part == codes ".")

filter-kept : (parts : List Text) → any is_dots parts ≡ false → filter kept parts ≡ parts
unfolding is_dots
filter-kept [] h = refl
filter-kept (part ∷ parts) h = ground (arith, filter-kept parts)

-- A text without control characters has none in its parts.
split-printable :
    (path : Text)
    → has_control_character path ≡ false
    → any has_control_character (split slash path) ≡ false
unfolding has_control_character split
split-printable [] h = refl
split-printable (c ∷ path) h =
    let (p, ps, e) = split-ne-nil slash path in ground (arith, split-printable path, e)

posix_root-relative : (path : Text) → starts_with path (codes "/") ≡ false → posix_root path ≡ []
unfolding posix_root starts_with
posix_root-relative [] h = refl
posix_root-relative (c ∷ path) h = ground arith

pub leading_slash :
    (path : Text)
    → any is_dots (split slash path) ≡ false
    → (path == [] || starts_with path (codes "/")) ≡ false
unfolding starts_with split is_dots list_beq
leading_slash [] h = cc h
leading_slash (c ∷ []) h = ground arith
leading_slash (c ∷ d ∷ path) h = ground arith

any-or {ℓ} :
    {A : Type ℓ} (f g : A → Bool) (xs : List A)
    → any f xs ≡ false
    → any g xs ≡ false
    → any (λ x. f x || g x) xs ≡ false
any-or f g [] p q = refl
any-or f g (x ∷ xs) p q = ground (arith, any-or f g xs)

posix_parts-relative :
    (path : Text)
    → any is_dots (split slash path) ≡ false
    → (posix_root path ≡ []) × (posix_parts path ≡ split slash path)
unfolding posix_parts
posix_parts-relative path h =
    let r : posix_root path ≡ [] =
      posix_root-relative path (ground (arith, leading_slash path h)) in
    (r, rw (r, filter-kept (split slash path) h))

pub normalize_path-IsCanonical : (path : Text) → IsCanonical path → normalize_path path ≡ ok path
normalize_path-IsCanonical path h =
    let (p, ps, e) = split-ne-nil slash path in
    let (root, parts) = posix_parts-relative path h.segments in
    let front = leading_slash path h.segments in
    let inner =
      any-or is_dots has_control_character (split slash path) h.segments
        (split-printable path h.printable) in
    let whole = join-split slash path in
    unfold normalize_path in
    rw (front, h.printable, h.no_drive, h.segments, root, parts, e, rw e at inner, rw e at whole)

pub IsCanonical-normalize_path :
    (path : Text) {q : Text} → normalize_path path ≡ ok q → IsCanonical path
unfolding normalize_path
IsCanonical-normalize_path path h = record {
  segments = ground arith;
  printable = ground arith;
  no_drive = ground arith;
}

-- `_normalize_path` accepts exactly the canonical paths, and returns each one unchanged.
pub normalize_path_iff :
    (path q : Text) → (normalize_path path ≡ ok q) ↔ (IsCanonical path × (q ≡ path))
normalize_path_iff path q = (
  λ h. let c = IsCanonical-normalize_path path h in (c, cc (h, normalize_path-IsCanonical path c)),
  λ h. rw h.1 (normalize_path-IsCanonical path h.0),
)

-- What is not canonical raises ValueError.
pub normalize_path_cases :
    (path : Text) → (normalize_path path ≡ err value_error) ⊎ IsCanonical path
normalize_path_cases path = elim (Result-cases (normalize_path path)) [
  | inl (q, h) ↦ inr (IsCanonical-normalize_path path h)
  | inr (e, h) ↦ inl (unfold normalize_path in ground arith)
]
