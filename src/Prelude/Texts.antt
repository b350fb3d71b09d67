-- ===== src/Prelude/Texts.antt =====
-- Python's `str` as its list of code points, and the methods that the program calls on it.
use Prim.Native.Nat.{ℕ, zero, suc, ◌+◌, ◌/◌, ◌%◌}
use Prim.Native.Char.{code}
use Prim.Native.String.{String}
use mathlib.Core.Path.{◌≡◌, refl, subst}
use mathlib.Core.Logic.{◌↔◌, inl, inr}
use mathlib.Core.Bool.{Bool, true, false, ◌&&◌, ◌||◌}
use mathlib.Core.List.{append_assoc, List, [], ◌∷◌, ◌++◌}
use native.Mathlib.Omega.{arith}
use ctxd.Prelude.Tests.{ltb, leb, ◌==◌, if◌then◌else◌, nat_eq, list_eq, eq_iff, eq_refl, Bool-cases}
use ctxd.Prelude.Lists.{is_empty, All}

abbrev pub Text : Type 0
Text = List ℕ

-- The code points of a literal.
abbrev pub codes : String → Text
codes String.[] = []
codes (String.◌∷◌ c s) = code c ∷ codes s

-- s.startswith(t)
unfoldable pub starts_with : Text → Text → Bool
starts_with s [] = true
starts_with [] (c ∷ t) = false
starts_with (d ∷ s) (c ∷ t) = d == c && starts_with s t

-- any(ord(character) < 32 or ord(character) == 127 for character in value)
unfoldable pub has_control_character : Text → Bool
has_control_character [] = false
has_control_character (c ∷ s) = ltb c 32 || c == 127 || has_control_character s

-- str.isspace of one character
unfoldable pub is_space : ℕ → Bool
is_space c =
    (leb 9 c && leb c 13)
    || (leb 28 c && leb c 32)
    || c == 0x85
    || c == 0xa0
    || c == 0x1680
    || (leb 0x2000 c && leb c 0x200a)
    || c == 0x2028
    || c == 0x2029
    || c == 0x202f
    || c == 0x205f
    || c == 0x3000

-- s.lstrip() with the characters to drop as a test
unfoldable pub lstrip : (ℕ → Bool) → Text → Text
lstrip drops [] = []
lstrip drops (c ∷ s) = let rest = lstrip drops s in if drops c then rest else c ∷ s

-- s.rstrip()
unfoldable pub rstrip : (ℕ → Bool) → Text → Text
rstrip drops [] = []
rstrip drops (c ∷ s) =
    let rest = rstrip drops s in if drops c && is_empty rest then [] else c ∷ rest

-- s.strip()
unfoldable pub strip : Text → Text
unfolding lstrip rstrip is_space
strip s = rstrip is_space (lstrip is_space s)

-- str(n) for a number
digits_on : ℕ → ℕ → Text → Text
digits_on zero n rest = rest
digits_on (suc fuel) n rest =
    let more = digits_on fuel (n / 10) ((b'0' + n % 10) ∷ rest) in
    if ltb n 10 then (b'0' + n) ∷ rest else more

unfoldable pub decimal : ℕ → Text
unfolding digits_on
decimal n = digits_on (suc n) n []

abbrev push : ℕ → List Text → List Text
push c [] = (c ∷ []) ∷ []
push c (part ∷ parts) = (c ∷ part) ∷ parts

-- s.split(c) at one character
unfoldable pub split : ℕ → Text → List Text
split sep [] = [] ∷ []
split sep (c ∷ s) = let parts = split sep s in if c == sep then [] ∷ parts else push c parts

-- c.join(parts)
unfoldable pub join : ℕ → List Text → Text
join sep [] = []
join sep (part ∷ []) = part
join sep (part ∷ next ∷ parts) = part ++ sep ∷ join sep (next ∷ parts)

pub split-ne-nil : (sep : ℕ) (s : Text) → (p : Text) × (ps : List Text) × (split sep s ≡ p ∷ ps)
unfolding split
split-ne-nil sep [] = ([], [], refl)
split-ne-nil sep (c ∷ s) =
    let (p, ps, e) = split-ne-nil sep s in
    elim (Bool-cases (c == sep)) [
      | inl h ↦ ([], split sep s, rw h)
      | inr h ↦ (c ∷ p, ps, rw (h, e))
    ]

-- Joining the parts of a text gives the text back.
pub join-split : (sep : ℕ) (s : Text) → join sep (split sep s) ≡ s
unfolding split join
join-split sep [] = refl
join-split sep (c ∷ s) =
    let (p, ps, e) = split-ne-nil sep s in ground (arith, join-split sep s, e, eq_iff c sep)

abbrev pub Free : ℕ → Text → Type 0
Free sep [] = Unit
Free sep (c ∷ s) = (c == sep ≡ false) × Free sep s

-- No part of a split text holds the separator.
pub split-Free : (sep : ℕ) (s : Text) → All (Free sep) (split sep s)
unfolding split
split-Free sep [] = (tt, tt)
split-Free sep (c ∷ s) =
    let (p, ps, e) = split-ne-nil sep s in
    let h : All (Free sep) (p ∷ ps) = subst (All (Free sep)) e (split-Free sep s) in
    ground (arith, h, e)

split-append-Free : (sep : ℕ) (a s : Text) → Free sep a → split sep (a ++ sep ∷ s) ≡ a ∷ split sep s
unfolding split
split-append-Free sep [] s h = rw (eq_refl sep)
split-append-Free sep (c ∷ a) s h = rw (h.0, split-append-Free sep a s h.1)

split_one : (sep : ℕ) (a : Text) → Free sep a → split sep a ≡ a ∷ []
unfolding split
split_one sep [] h = refl
split_one sep (c ∷ a) h = rw (h.0, split_one sep a h.1)

-- Splitting the text that joins parts free of the separator gives the parts back.
pub split-join :
    (sep : ℕ) (p : Text) (ps : List Text)
    → All (Free sep) (p ∷ ps)
    → split sep (join sep (p ∷ ps)) ≡ p ∷ ps
unfolding join
split-join sep p [] h = split_one sep p h.0
split-join sep p (q ∷ ps) h = rw (split-append-Free sep p _ h.0, split-join sep q ps h.1)

pub starts_with_iff : (s t : Text) → (starts_with s t ≡ true) ↔ ((u : Text) × (s ≡ t ++ u))
unfolding starts_with
starts_with_iff s [] = (λ h. (s, refl), λ h. refl)
starts_with_iff [] (c ∷ t) = (λ h. cc, λ (u, e). cc)
starts_with_iff (d ∷ s) (c ∷ t) =
    let (to, from) = starts_with_iff s t in
    (
      λ h. let (u, e) = to (ground arith) in (u, ground (arith, eq_iff d c)),
      λ (u, e). ground (arith, eq_iff d c, from (u, ground arith)),
    )

-- Splitting at a separator splits both sides.
pub split-append : (sep : ℕ) (a s : Text) → split sep (a ++ sep ∷ s) ≡ split sep a ++ split sep s
unfolding split
split-append sep [] s = rw (eq_refl sep)
split-append sep (c ∷ a) s =
    let (p, ps, e) = split-ne-nil sep a in ground (arith, split-append sep a s, e)

pub join-append :
    (sep : ℕ) (p : Text) (ps : List Text) (q : Text) (qs : List Text)
    → join sep ((p ∷ ps) ++ q ∷ qs) ≡ join sep (p ∷ ps) ++ sep ∷ join sep (q ∷ qs)
unfolding join
join-append sep p [] q qs = refl
join-append sep p (x ∷ ps) q qs = rw (join-append sep x ps q qs, append_assoc)

-- s.endswith(t)
unfoldable pub ends_with : Text → Text → Bool
ends_with [] t = t == []
ends_with (c ∷ s) t = c ∷ s == t || ends_with s t
