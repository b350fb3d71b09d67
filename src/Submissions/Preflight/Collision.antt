-- ===== src/Submissions/Preflight/Collision.antt =====
-- Two moves to one path under `_preflight_submission` of src/ctxfs/store.py.
use ctxd.Prelude.{
  ◌≡◌, sym, ap, ◌∙◌, true, false, List, [], ◌∷◌, none, some, ◌≢◌, ◌==◌, nat_eq, list_eq, option_eq,
  pair_eq, Text, arith, eq_refl, ok, mem, ne→beq,
}
use ctxd.Prelude.Dict
use ctxd.Prelude.Dict.{Dict}
use ctxd.Paths.Canonical.{IsCanonical, normalize_path-IsCanonical}
use ctxd.Ownership.{WriterPrefix, require_authorized_path}
use ctxd.Submissions.Operations.{MoveOperation, SourceIdentity, move, moves_of}
use ctxd.Submissions.Preflight.{
  Maps, preflight_move, preflight_step, preflight_loop, moving_identities, check_destination,
}

-- A move away from its path, once its checks have passed.
abbrev moved : SourceIdentity → Text → Text → Maps → Maps
moved id old path m = record {
  paths_by_source = Dict.put id path m.paths_by_source;
  sources_by_path = Dict.put path id (Dict.pop old m.sources_by_path);
}

move_ok :
    (rows : List WriterPrefix) (user writer : Text) (moving : List SourceIdentity)
    (o : MoveOperation) (old : Text) (m : Maps)
    → IsCanonical o.path
    → require_authorized_path rows user writer o.path ≡ ok tt
    → Dict.get (writer, o.source_key) m.paths_by_source ≡ some old
    → old ≢ o.path
    → require_authorized_path rows user writer old ≡ ok tt
    → check_destination rows user writer moving o.path (writer, o.source_key) m.sources_by_path
      ≡ ok tt
    → preflight_move rows user writer moving o m ≡ ok (moved (writer, o.source_key) old o.path m)
unfolding preflight_move
move_ok rows user writer moving o old m c auth had away auth_old free =
    let other : (old == o.path) ≡ false = ne→beq old o.path away in
    rw (normalize_path-IsCanonical o.path c, auth, had, auth_old, free, other)

destination_free :
    (rows : List WriterPrefix) (user writer : Text) (moving : List SourceIdentity) (path : Text)
    (id : SourceIdentity) (S : Dict Text SourceIdentity)
    → Dict.get path S ≡ none
    → check_destination rows user writer moving path id S ≡ ok tt
unfolding check_destination
destination_free rows user writer moving path id S e = rw (e, check_destination)

destination_moving :
    (rows : List WriterPrefix) (user writer : Text) (moving : List SourceIdentity) (path : Text)
    (id occupant : SourceIdentity) (S : Dict Text SourceIdentity)
    → Dict.get path S ≡ some occupant
    → mem occupant moving ≡ true
    → check_destination rows user writer moving path id S ≡ ok tt
unfolding check_destination
destination_moving rows user writer moving path id occupant S e known =
    rw (e, check_destination) (ground (arith, known))

-- Two moves of different sources to one free destination pass the preflight, which leaves both
-- sources at that path.
pub preflight_collision :
    (rows : List WriterPrefix) (user writer : Text) (m : Maps) (a b : MoveOperation)
    (old_a old_b : Text)
    → IsCanonical a.path
    → b.path ≡ a.path
    → a.source_key ≢ b.source_key
    → Dict.get (writer, a.source_key) m.paths_by_source ≡ some old_a
    → Dict.get (writer, b.source_key) m.paths_by_source ≡ some old_b
    → Dict.get a.path m.sources_by_path ≡ none
    → old_a ≢ a.path
    → old_b ≢ a.path
    → require_authorized_path rows user writer a.path ≡ ok tt
    → require_authorized_path rows user writer old_a ≡ ok tt
    → require_authorized_path rows user writer old_b ≡ ok tt
    → (m' : Maps) × (preflight_loop rows user writer
          (moving_identities rows user writer (move a ∷ move b ∷ []))
          (move a ∷ move b ∷ [])
          m
        ≡ ok m')
      × (Dict.get (writer, a.source_key) m'.paths_by_source ≡ some a.path)
      × (Dict.get (writer, b.source_key) m'.paths_by_source ≡ some a.path)
unfolding preflight_loop preflight_step
preflight_collision rows user writer m a b old_a old_b c same differ ha hb free na nb auth auth_a
      auth_b =
    let ida : SourceIdentity = (writer, a.source_key) in
    let idb : SourceIdentity = (writer, b.source_key) in
    let moving = moving_identities rows user writer (move a ∷ move b ∷ []) in
    let m1 = moved ida old_a a.path m in
    let m2 = moved idb old_b b.path m1 in
    let apart : (ida == idb) ≡ false =
      ne→beq ida idb (λ e. differ (ap (λ (x : SourceIdentity). x.1) e)) in
    let back : (idb == ida) ≡ false =
      ne→beq idb ida (λ e. differ (sym (ap (λ (x : SourceIdentity). x.1) e))) in
    let first =
      move_ok rows user writer moving a old_a m c auth ha na auth_a
        (destination_free rows user writer moving a.path ida m.sources_by_path free) in
    let had : Dict.get idb m1.paths_by_source ≡ some old_b =
      Dict.get-put ida idb a.path m.paths_by_source ∙ rw apart hb in
    let there : Dict.get a.path m1.sources_by_path ≡ some ida =
      Dict.get-put a.path a.path ida (Dict.pop old_a m.sources_by_path) ∙ rw (eq_refl a.path) in
    let known : mem ida moving ≡ true = unfold mem moves_of in rw (eq_refl ida) in
    let second =
      move_ok rows user writer moving b old_b m1 (rw same c) (rw same auth) had (rw same nb) auth_b
        (destination_moving rows user writer moving b.path idb ida m1.sources_by_path
          (rw same there) known) in
    (
      m2,
      rw (first, second),
      Dict.get-put idb ida b.path m1.paths_by_source
          ∙ rw back (Dict.get-put ida ida a.path m.paths_by_source ∙ rw (eq_refl ida)),
      Dict.get-put idb idb b.path m1.paths_by_source ∙ rw (eq_refl idb, same),
    )
