-- ===== src/Paths/Prefix.antt =====
-- `_path_is_within_prefix` and `_prefixes_overlap` of src/ctxfs/store.py, read on segments.
use mathlib.Core.List.{append-nil, append_assoc}
use ctxd.Prelude.{
  ◌≡◌, refl, sym, ap, ◌∙◌, Bool, true, ◌||◌, ◌↔◌, List, [], ◌∷◌, ◌++◌, ◌==◌, nat_eq, list_eq, Text,
  codes, starts_with, arith, split, join, ok, err, value_error, eq_iff, join-split, split-ne-nil,
  ◌⊎◌, inl, inr, starts_with_iff, split-append, join-append, Bool-cases, >>=-eq-ok,
}
use ctxd.Paths.{slash, normalize_path, path_is_within_prefix, prefixes_overlap}
use ctxd.Paths.Canonical.{
  IsCanonical, normalize_path-IsCanonical, normalize_path_cases, IsCanonical-normalize_path,
}

-- The segments of `path` begin with those of `prefix`.
abbrev pub IsUnder : Text → Text → Type 0
IsUnder path prefix = (rest : List Text) × (split slash path ≡ split slash prefix ++ rest)

unfoldable pub within : Text → Text → Bool
within path prefix = path == prefix || starts_with path (prefix ++ codes "/")

starts→IsUnder : (path prefix u : Text) → path ≡ (prefix ++ codes "/") ++ u → IsUnder path prefix
starts→IsUnder path prefix u e =
    (split slash u, rw e (rw append_assoc (split-append slash prefix u)))

pub within→IsUnder : (path prefix : Text) → within path prefix ≡ true → IsUnder path prefix
unfolding within
within→IsUnder path prefix h = elim (Bool-cases (path == prefix)) [
  | inl e ↦ ([], ap (split slash) ((eq_iff path prefix).0 e) ∙ sym (append-nil _))
  | inr n ↦
      let (u, e) = (starts_with_iff path (prefix ++ codes "/")).0 (ground arith) in
      starts→IsUnder path prefix u e
]

-- The text of a path whose segments are those of `prefix` and more.
IsUnder_text :
    (path prefix q : Text) (rest : List Text)
    → split slash path ≡ split slash prefix ++ q ∷ rest
    → path ≡ (prefix ++ codes "/") ++ join slash (q ∷ rest)
IsUnder_text path prefix q rest h =
    let (p, ps, e) = split-ne-nil slash prefix in
    sym (join-split slash path)
    ∙ ap (join slash) (h ∙ ap (λ x. x ++ q ∷ rest) e)
    ∙ join-append slash p ps q rest
    ∙ ap (λ x. x ++ slash ∷ join slash (q ∷ rest))
        (ap (join slash) (sym e) ∙ join-split slash prefix)
    ∙ sym (append_assoc prefix (codes "/") (join slash (q ∷ rest)))

pub IsUnder→within : (path prefix : Text) → IsUnder path prefix → within path prefix ≡ true
unfolding within
IsUnder→within path prefix ([], h) =
    let same : path ≡ prefix =
      sym (join-split slash path) ∙ ap (join slash) (h ∙ append-nil _) ∙ join-split slash prefix in
    rw same (ground (arith, eq_iff prefix prefix))
IsUnder→within path prefix (q ∷ rest, h) =
    let starts =
      (starts_with_iff path (prefix ++ codes "/")).1
        (join slash (q ∷ rest), IsUnder_text path prefix q rest h) in
    ground (arith, starts)

path_is_within_prefix-canonical :
    (path prefix : Text)
    → IsCanonical path
    → IsCanonical prefix
    → path_is_within_prefix path prefix ≡ ok (within path prefix)
unfolding path_is_within_prefix within
path_is_within_prefix-canonical path prefix p q =
    rw (normalize_path-IsCanonical path p, normalize_path-IsCanonical prefix q)

-- What a successful call says of its arguments.
pub path_is_within_prefix-inv :
    (path prefix : Text) {b : Bool}
    → path_is_within_prefix path prefix ≡ ok b
    → IsCanonical path × IsCanonical prefix × (b ≡ within path prefix)
unfolding path_is_within_prefix
path_is_within_prefix-inv path prefix h =
    let (p, ep, rest) = >>=-eq-ok (normalize_path path) _ h in
    let (q, eq, last) = >>=-eq-ok (normalize_path prefix) _ rest in
    let cp = IsCanonical-normalize_path path ep in
    let cq = IsCanonical-normalize_path prefix eq in
    (cp, cq, cc (h, path_is_within_prefix-canonical path prefix cp cq))

-- On canonical paths `_path_is_within_prefix` answers, and it answers true exactly if the segments
-- of the path begin with the segments of the prefix: `a/bc` is not within `a/b`.
pub path_is_within_prefix_iff :
    (path prefix : Text)
    → IsCanonical path
    → IsCanonical prefix
    → (path_is_within_prefix path prefix ≡ ok true) ↔ IsUnder path prefix
path_is_within_prefix_iff path prefix p q =
    let e = path_is_within_prefix-canonical path prefix p q in
    (λ h. within→IsUnder path prefix (cc (h, e)), λ u. e ∙ ap ok (IsUnder→within path prefix u))

or_comm : (a b : Bool) → (a || b) ≡ (b || a)
or_comm a b = ground arith

-- Of two lists that a list begins with, one begins with the other.
comparable {ℓ} :
    {A : Type ℓ} (xs ys us vs : List A)
    → xs ++ us ≡ ys ++ vs
    → ((r : List A) × (xs ≡ ys ++ r)) ⊎ ((r : List A) × (ys ≡ xs ++ r))
comparable [] ys us vs e = inr (ys, refl)
comparable (x ∷ xs) [] us vs e = inl (x ∷ xs, refl)
comparable (x ∷ xs) (y ∷ ys) us vs e = elim (comparable xs ys us vs (cc)) [
  | inl (r, h) ↦ inl (r, cc)
  | inr (r, h) ↦ inr (r, cc)
]

prefixes_overlap-canonical :
    (left right : Text)
    → IsCanonical left
    → IsCanonical right
    → prefixes_overlap left right ≡ ok (within left right || within right left)
unfolding prefixes_overlap
prefixes_overlap-canonical left right p q =
    rw
      (
        path_is_within_prefix-canonical left right p q,
        path_is_within_prefix-canonical right left q p,
      )
      (ground arith)

-- Prefixes that hold a common path overlap.
pub prefixes_overlap-common :
    (path left right : Text)
    → path_is_within_prefix path left ≡ ok true
    → path_is_within_prefix path right ≡ ok true
    → prefixes_overlap left right ≡ ok true
prefixes_overlap-common path left right h k =
    let (cp, cl, el) = path_is_within_prefix-inv path left h in
    let (_, cr, er) = path_is_within_prefix-inv path right k in
    let (us, hl) = within→IsUnder path left (sym el) in
    let (vs, hr) = within→IsUnder path right (sym er) in
    prefixes_overlap-canonical left right cl cr
    ∙ (elim (comparable (split slash left) (split slash right) us vs (sym hl ∙ hr)) [
      | inl u ↦ ground (arith, IsUnder→within left right u)
      | inr u ↦ ground (arith, IsUnder→within right left u)
    ])

overlap-invalid_left :
    (left right : Text)
    → normalize_path left ≡ err value_error
    → prefixes_overlap left right ≡ err value_error
unfolding prefixes_overlap path_is_within_prefix
overlap-invalid_left left right h = rw h

overlap-invalid_right :
    (left right : Text)
    → normalize_path right ≡ err value_error
    → prefixes_overlap left right ≡ err value_error
unfolding prefixes_overlap path_is_within_prefix
overlap-invalid_right left right h = elim (normalize_path_cases left) [
  | inl e ↦ rw e
  | inr c ↦ rw (normalize_path-IsCanonical left c, h)
]

-- The overlap test is symmetric, also where an argument is no path and it raises.
pub prefixes_overlap_comm :
    (left right : Text) → prefixes_overlap left right ≡ prefixes_overlap right left
prefixes_overlap_comm left right = elim (normalize_path_cases left) [
  | inl e ↦ overlap-invalid_left left right e ∙ sym (overlap-invalid_right right left e)
  | inr cl ↦ elim (normalize_path_cases right) [
    | inl e ↦ overlap-invalid_right left right e ∙ sym (overlap-invalid_left right left e)
    | inr cr ↦
        prefixes_overlap-canonical left right cl cr
        ∙ ap ok (or_comm (within left right) (within right left))
        ∙ sym (prefixes_overlap-canonical right left cr cl)
  ]
]
