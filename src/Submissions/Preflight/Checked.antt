-- ===== src/Submissions/Preflight/Checked.antt =====
-- The checks of `_preflight_submission` of src/ctxfs/store.py, and the maps that it ends with.
use ctxd.Prelude.{
  ◌≡◌, refl, ap, ◌∙◌, subst, true, false, List, [], ◌∷◌, map, none, some, inl, inr, ◌⊎◌, ◌==◌,
  nat_eq, list_eq, option_eq, pair_eq, Text, All, arith, eq_iff, Option-cases, ok, Result-cases, In,
  mem, has_duplicates,
}
use ctxd.Prelude.Dict
use ctxd.Prelude.Dict.{Dict}
use ctxd.Prelude.Inverse.{Inverse, vacate, Inverse-put, Inverse-pop}
use ctxd.Paths.{normalize_path}
use ctxd.Paths.Canonical.{normalize_path_iff}
use ctxd.Ownership.{WriterPrefix, require_authorized_path}
use ctxd.Submissions.Operations.{
  Operation, PutOperation, MoveOperation, DeleteOperation, DecisionOperation, SourceIdentity, put,
  move, delete, decision, moves_of,
}
use ctxd.Submissions.Preflight.{
  Maps, EntryRow, preflight_put, preflight_move, preflight_delete, preflight_decision,
  preflight_step, preflight_loop, preflight_submission, moving_identities, identity_of, add_row,
  add_rows, source_path_maps, require_unoccupied_path,
}

-- The two maps of the preflight are inverse: a source has a path exactly if the path has the source.
abbrev pub IsInverse : Maps → Type 0
IsInverse m = Inverse m.paths_by_source m.sources_by_path

placed :
    (path : Text) (id : SourceIdentity) (S : Dict Text SourceIdentity)
    → require_unoccupied_path path id S ≡ ok tt
    → (Dict.get path S ≡ none) ⊎ (Dict.get path S ≡ some id)
unfolding require_unoccupied_path
placed path id S free = elim (Option-cases (Dict.get path S)) [
  | inl e ↦ inl e
  | inr (occupant, e) ↦
      let same : (occupant == id) ≡ true = ground (arith, free, e) in
      inr (e ∙ ap some ((eq_iff occupant id).0 same))
]

module _ (rows : List WriterPrefix) (user writer : Text) where
  -- The paths that an operation names are authorized for its writer.
  abbrev pub Authorized : Operation → Type 0
  Authorized (put o) = require_authorized_path rows user writer o.path ≡ ok tt
  Authorized (move o) = require_authorized_path rows user writer o.path ≡ ok tt
  Authorized (delete o) = Unit
  Authorized (decision o) =
      (path : Text) → o.path ≡ some path → require_authorized_path rows user writer path ≡ ok tt

  put-Authorized :
      (o : PutOperation) (m m' : Maps)
      → preflight_put rows user writer o m ≡ ok m'
      → require_authorized_path rows user writer o.path ≡ ok tt
  unfolding preflight_put
  put-Authorized o m m' h = elim (Result-cases (normalize_path o.path)) [
    | inr (_, e) ↦ absurd (ground (arith, e))
    | inl (q, e) ↦
        let same = ((normalize_path_iff o.path q).0 e).1 in
        subst (λ x. require_authorized_path rows user writer x ≡ ok tt) same (ground (arith, e, h))
  ]

  move-Authorized :
      (moving : List SourceIdentity) (o : MoveOperation) (m m' : Maps)
      → preflight_move rows user writer moving o m ≡ ok m'
      → require_authorized_path rows user writer o.path ≡ ok tt
  unfolding preflight_move
  move-Authorized moving o m m' h = elim (Result-cases (normalize_path o.path)) [
    | inr (_, e) ↦ absurd (ground (arith, e))
    | inl (q, e) ↦
        let same = ((normalize_path_iff o.path q).0 e).1 in
        subst (λ x. require_authorized_path rows user writer x ≡ ok tt) same (ground (arith, e, h))
  ]

  decision-Authorized :
      (o : DecisionOperation) (m m' : Maps)
      → preflight_decision rows user writer o m ≡ ok m'
      → (path : Text) → o.path ≡ some path
      → require_authorized_path rows user writer path ≡ ok tt
  unfolding preflight_decision
  decision-Authorized o m m' h path given = elim (Result-cases (normalize_path path)) [
    | inr (_, e) ↦ absurd (ground (arith, given, e))
    | inl (q, e) ↦
        let same = ((normalize_path_iff path q).0 e).1 in
        subst (λ x. require_authorized_path rows user writer x ≡ ok tt) same
          (ground (arith, given, e, h))
  ]

  step-Authorized :
      (moving : List SourceIdentity) (o : Operation) (m m' : Maps)
      → preflight_step rows user writer moving o m ≡ ok m'
      → Authorized o
  unfolding preflight_step
  step-Authorized moving (put o) m m' h = put-Authorized o m m' h
  step-Authorized moving (move o) m m' h = move-Authorized moving o m m' h
  step-Authorized moving (delete o) m m' h = tt
  step-Authorized moving (decision o) m m' h = decision-Authorized o m m' h

  loop-Authorized :
      (moving : List SourceIdentity) (operations : List Operation) (m m' : Maps)
      → preflight_loop rows user writer moving operations m ≡ ok m'
      → All Authorized operations
  unfolding preflight_loop
  loop-Authorized moving [] m m' h = tt
  loop-Authorized moving (o ∷ operations) m m' h =
      elim (Result-cases (preflight_step rows user writer moving o m)) [
        | inr (_, e) ↦ absurd (ground (arith, e))
        | inl (u, e) ↦ (
          step-Authorized moving o m u e,
          loop-Authorized moving operations u m' (ground (arith, e, h)),
        )
      ]

  put-IsInverse :
      (o : PutOperation) (m m' : Maps)
      → IsInverse m
      → preflight_put rows user writer o m ≡ ok m'
      → IsInverse m'
  unfolding preflight_put
  put-IsInverse o m m' inverse h = elim (Result-cases (normalize_path o.path)) [
    | inr (_, e) ↦ absurd (ground (arith, e))
    | inl (q, e) ↦
        let id : SourceIdentity = (writer, o.source_key) in
        let free : require_unoccupied_path q id m.sources_by_path ≡ ok tt = ground (arith, e, h) in
        let after : Maps = record {
          paths_by_source = Dict.put id q m.paths_by_source;
          sources_by_path =
              Dict.put q id (vacate (Dict.get id m.paths_by_source) q m.sources_by_path);
        } in
        let same : after ≡ m' = ground (arith, e, h) in
        subst IsInverse same (
          Inverse-put m.paths_by_source m.sources_by_path inverse id q
            (placed q id m.sources_by_path free))
  ]

  delete-IsInverse :
      (o : DeleteOperation) (m m' : Maps)
      → IsInverse m
      → preflight_delete rows user writer o m ≡ ok m'
      → IsInverse m'
  unfolding preflight_delete
  delete-IsInverse o m m' inverse h =
      let id : SourceIdentity = (writer, o.source_key) in
      elim (Option-cases (Dict.get id m.paths_by_source)) [
        | inl e ↦ let same : m ≡ m' = ground (arith, e, h) in subst IsInverse same inverse
        | inr (old, e) ↦
            let after : Maps = record {
              paths_by_source = Dict.pop id m.paths_by_source;
              sources_by_path = Dict.pop old m.sources_by_path;
            } in
            let same : after ≡ m' = ground (arith, e, h) in
            subst IsInverse same (Inverse-pop m.paths_by_source m.sources_by_path inverse id old e)
      ]

  decision-IsInverse :
      (o : DecisionOperation) (m m' : Maps)
      → IsInverse m
      → preflight_decision rows user writer o m ≡ ok m'
      → IsInverse m'
  unfolding preflight_decision
  decision-IsInverse o m m' inverse h = elim (Option-cases o.path) [
    | inl e ↦ let same : m ≡ m' = ground (arith, e, h) in subst IsInverse same inverse
    | inr (path, e) ↦ let same : m ≡ m' = ground (arith, e, h) in subst IsInverse same inverse
  ]

  loop-IsInverse :
      (moving : List SourceIdentity) (operations : List Operation) (m m' : Maps)
      → moves_of operations ≡ []
      → IsInverse m
      → preflight_loop rows user writer moving operations m ≡ ok m'
      → IsInverse m'
  unfolding preflight_loop preflight_step moves_of
  loop-IsInverse moving [] m m' still inverse h =
      let same : m ≡ m' = ground arith in subst IsInverse same inverse
  loop-IsInverse moving (put o ∷ operations) m m' still inverse h =
      elim (Result-cases (preflight_put rows user writer o m)) [
        | inr (_, e) ↦ absurd (ground (arith, e))
        | inl (u, e) ↦
            loop-IsInverse moving operations u m' still (put-IsInverse o m u inverse e)
              (ground (arith, e, h))
      ]
  loop-IsInverse moving (delete o ∷ operations) m m' still inverse h =
      elim (Result-cases (preflight_delete rows user writer o m)) [
        | inr (_, e) ↦ absurd (ground (arith, e))
        | inl (u, e) ↦
            loop-IsInverse moving operations u m' still (delete-IsInverse o m u inverse e)
              (ground (arith, e, h))
      ]
  loop-IsInverse moving (decision o ∷ operations) m m' still inverse h =
      elim (Result-cases (preflight_decision rows user writer o m)) [
        | inr (_, e) ↦ absurd (ground (arith, e))
        | inl (u, e) ↦
            loop-IsInverse moving operations u m' still (decision-IsInverse o m u inverse e)
              (ground (arith, e, h))
      ]
  loop-IsInverse moving (move o ∷ operations) m m' still inverse h = absurd (cc)

-- Every path that an accepted submission puts to, moves to or decides on is authorized for its
-- writer.
pub preflight_submission-Authorized :
    (rows : List WriterPrefix) (user writer : Text) (entries : List EntryRow)
    (operations : List Operation) (m : Maps)
    → preflight_submission rows user writer entries operations ≡ ok m
    → All (Authorized rows user writer) operations
unfolding preflight_submission
preflight_submission-Authorized rows user writer entries operations m h =
    loop-Authorized rows user writer (moving_identities rows user writer operations) operations
      (source_path_maps entries) m h

-- A row that the maps do not know yet.
record IsFresh (m : Maps) (row : EntryRow) : Type 0 where
  source : Dict.get (identity_of row) m.paths_by_source ≡ none
  place : Dict.get row.path m.sources_by_path ≡ none

path_ne :
    (row r : EntryRow) (rows : List EntryRow)
    → In r rows
    → mem row.path (map (λ (x : EntryRow). x.path) rows) ≡ false
    → (row.path == r.path) ≡ false
unfolding mem
path_ne row r [] m h = absurd m
path_ne row r (x ∷ rows) m h = elim m [
  | inl here ↦ rw (← here) (ground (arith, h))
  | inr there ↦ path_ne row r rows there (ground (arith, h))
]

identity_ne :
    (row r : EntryRow) (rows : List EntryRow)
    → In r rows
    → mem (identity_of row) (map identity_of rows) ≡ false
    → (identity_of row == identity_of r) ≡ false
unfolding mem
identity_ne row r [] m h = absurd m
identity_ne row r (x ∷ rows) m h = elim m [
  | inl here ↦ rw (← here) (ground (arith, h))
  | inr there ↦ identity_ne row r rows there (ground (arith, h))
]

add_rows-IsInverse :
    (rows : List EntryRow) (m : Maps)
    → has_duplicates (map identity_of rows) ≡ false
    → has_duplicates (map (λ (x : EntryRow). x.path) rows) ≡ false
    → ((r : EntryRow) → In r rows → IsFresh m r)
    → IsInverse m
    → IsInverse (add_rows rows m)
unfolding add_rows has_duplicates
add_rows-IsInverse [] m di dp fresh inverse = inverse
add_rows-IsInverse (row ∷ rows) m di dp fresh inverse =
    let f = fresh row (inl refl) in
    let next : IsInverse (add_row row m) = rw f.source at (
      Inverse-put m.paths_by_source m.sources_by_path inverse (identity_of row) row.path
        (inl f.place)) in
    add_rows-IsInverse rows (add_row row m) (ground (arith, di)) (ground (arith, dp))
      (λ r n.
        let g = fresh r (inr n) in
        record {
          source =
              Dict.get-put (identity_of row) (identity_of r) row.path m.paths_by_source
              ∙ rw (identity_ne row r rows n (ground (arith, di))) g.source;
          place =
              Dict.get-put row.path r.path (identity_of row) m.sources_by_path
              ∙ rw (path_ne row r rows n (ground (arith, dp))) g.place;
        })
      next

-- If the catalog holds each source and each path once, an accepted submission without moves ends
-- with maps in which each source has a path of its own and no path has two sources.
pub preflight_submission-IsInverse :
    (rows : List WriterPrefix) (user writer : Text) (entries : List EntryRow)
    (operations : List Operation) (m : Maps)
    → has_duplicates (map identity_of entries) ≡ false
    → has_duplicates (map (λ (x : EntryRow). x.path) entries) ≡ false
    → moves_of operations ≡ []
    → preflight_submission rows user writer entries operations ≡ ok m
    → IsInverse m
unfolding preflight_submission source_path_maps
preflight_submission-IsInverse rows user writer entries operations m di dp still h =
    loop-IsInverse rows user writer (moving_identities rows user writer operations) operations
      (source_path_maps entries) m still
      (add_rows-IsInverse entries _ di dp
        (λ r n. record { source = unfold Dict.get in refl; place = unfold Dict.get in refl })
        (λ i p. unfold Dict.get in (λ x. absurd (ground arith), λ x. absurd (ground arith))))
      h
