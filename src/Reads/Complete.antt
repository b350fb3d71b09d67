-- ===== src/Reads/Complete.antt =====
-- src/ctxfs/store.py: when a listing is complete.
use ctxd.Prelude.{
  ℕ, zero, suc, ◌≤◌, ◌<◌, ◌≡◌, ◌≢◌, ap, ok_injective, ◌⊎◌, ◌↔◌, inl, inr, refl, sym, ◌∙◌, Bool,
  true, List, [], ◌∷◌, Option, none, some, Text, codes, ltb, length, take, Result, ok, Bool-cases,
  Option-cases, Result-cases, arith, Any,
}
use ctxd.Prelude.Dict.{Dict}
use ctxd.Submissions.Preflight.{EntryRow}
use ctxd.Execution.{State, tree}
use ctxd.Reads.{Library, stat}
use ctxd.Reads.Listings.{DirectoryEntry, Bounded, Listing, bounded, listed, add_unlisted}

-- A listing of `all`, cut at its limit: it is complete exactly if nothing was cut and the catalog agrees
-- with the disk, and then there is no reason for having stopped.
pub record IsListing (limit : ℕ) (all : List DirectoryEntry) (Mismatch : Type 0) (r : Bounded)
    : Type 0 where
  pub short : length r.items ≤ limit
  pub cut : r.items ≡ take limit all
  pub complete : (r.complete ≡ true) ↔ ((length all ≤ limit) × ¬ Mismatch)
  pub reason : (r.complete ≡ true) ↔ (r.stopped_by ≡ none)
  pub at_limit : (r.stopped_by ≡ some (codes "limit")) ↔ (limit < length all)

abbrev pub HasNoFile : State → EntryRow → Type 0
HasNoFile s row = s.files (tree row.path) ≡ none

abbrev pub HasNoEntry : State → Text → Type 0
HasNoEntry s path = stat path s ≡ ok none

pub take-all : {A : Type 0} (n : ℕ) (xs : List A) → length xs ≤ n → take n xs ≡ xs
take-all zero [] h = refl
take-all (suc n) [] h = refl
take-all zero (x ∷ xs) h = absurd (omega (arith, h))
take-all (suc n) (x ∷ xs) h = ap (λ ys. x ∷ ys) (take-all n xs (omega (arith, h)))

pub length-take : {A : Type 0} (n : ℕ) (xs : List A) → length (take n xs) ≤ n
length-take zero xs = omega arith
length-take (suc n) [] = omega arith
length-take (suc n) (x ∷ xs) = omega (arith, length-take n xs)

abbrev mismatch_named : Option Text
mismatch_named = some (codes "catalog_mismatch")

mismatch-ne-limit : mismatch_named ≢ some (codes "limit")
mismatch-ne-limit h = ground (arith, h)

pub bounded-IsListing :
    (limit : ℕ) (incomplete : Bool) (all : List DirectoryEntry) (Mismatch : Type 0)
    → (incomplete ≡ true) ↔ Mismatch
    → IsListing limit all Mismatch (bounded limit incomplete all)
unfolding bounded
bounded-IsListing limit incomplete all M (to, from) = elim (Bool-cases (ltb limit (length all))) [
  | inl e ↦ rw e (record {
    short = length-take limit all;
    cut = refl;
    complete = (λ h. absurd (ground (arith, h)), λ (le, _). absurd (ground (arith, le, e)));
    reason = (λ h. absurd (ground (arith, h)), λ h. absurd (ground (arith, h)));
    at_limit = (λ _. ground (arith, e), λ _. refl);
  })
  | inr e ↦
      let le : length all ≤ limit = ground (arith, e) in
      elim (Bool-cases incomplete) [
        | inl f ↦
            rw (e, f)
              (record {
                short = le;
                cut = sym (take-all limit all le);
                complete = (λ h. absurd (ground (arith, h)), λ (_, agree). absurd (agree (to f)));
                reason = (λ h. absurd (ground (arith, h)), λ h. absurd (ground (arith, h)));
                at_limit =
                    (λ h. absurd (mismatch-ne-limit h), λ lt. absurd (omega (arith, lt, le)));
              })
        | inr f ↦
            rw (e, f)
              (record {
                short = le;
                cut = sym (take-all limit all le);
                complete = (λ _. (le, λ m. absurd (ground (arith, from m, f))), λ _. refl);
                reason = (λ _. refl, λ _. refl);
                at_limit = (λ h. absurd (ground (arith, h)), λ lt. absurd (omega (arith, lt, le)));
              })
      ]
]

module _ (library : Library) (s : State) where
  pub listed-missing :
      (rows : List EntryRow) → ((listed library s rows).1 ≡ true) ↔ Any (HasNoFile s) rows
  unfolding listed
  listed-missing [] = (λ h. absurd (ground (arith, h)), λ h. absurd h)
  listed-missing (row ∷ rows) = elim (Option-cases (s.files (tree row.path))) [
    | inl e ↦ (λ h. inl e, λ h. ground (arith, e))
    | inr (f, e) ↦
        let (to, from) = listed-missing rows in
        (
          λ h. inr (to (ground (arith, h, e))),
          λ h. elim h [ inl g ↦ absurd (ground (arith, e, g)) | inr g ↦ ground (arith, e, from g) ],
        )
  ]

  -- The loop over the disk marks the listing exactly if it meets a file without an entry.
  pub add_unlisted-incomplete :
      (add : Text → Dict Text DirectoryEntry → Result (Dict Text DirectoryEntry))
      (paths : List Text) (l l' : Listing)
      → add_unlisted library s add paths l ≡ ok l'
      → (l'.incomplete ≡ true) ↔ ((l.incomplete ≡ true) ⊎ Any (HasNoEntry s) paths)
  unfolding add_unlisted
  add_unlisted-incomplete add [] l l' h =
      let same = ap (λ (x : Listing). x.incomplete) (ok_injective l l' h) in
      (λ g. inl (same ∙ g), λ g. elim g [ inl a ↦ sym same ∙ a | inr a ↦ absurd a ])
  add_unlisted-incomplete add (path ∷ paths) l l' h = elim (Result-cases (stat path s)) [
    | inr (_, e) ↦ absurd (ground (arith, e, h))
    | inl (none, e) ↦ elim (Result-cases (add path l.children)) [
      | inr (_, f) ↦ absurd (ground (arith, e, f, h))
      | inl (children, f) ↦
          let (to, from) =
            add_unlisted-incomplete add paths (record { children = children; incomplete = true }) l'
              (ground (arith, e, f, h)) in
          (λ _. inr (inl e), λ _. from (inl refl))
    ]
    | inl (some row, e) ↦
        let (to, from) = add_unlisted-incomplete add paths l l' (ground (arith, e, h)) in
        (
          λ g. elim (to g) [ inl a ↦ inl a | inr a ↦ inr (inr a) ],
          λ g. elim g [
            | inl a ↦ from (inl a)
            | inr (inl a) ↦ absurd (ground (arith, e, a))
            | inr (inr a) ↦ from (inr a)
          ],
        )
  ]
