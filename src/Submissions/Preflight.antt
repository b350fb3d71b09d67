-- ===== src/Submissions/Preflight.antt =====
-- src/ctxfs/store.py: `_source_path_maps` and `_preflight_submission`, which checks a submission
-- before anything is written.
pub mod Checked
pub mod Collision
use ctxd.Prelude.{
  ℕ, zero, suc, ◌+◌, ◌≡◌, Bool, true, false, not, ◌&&◌, ◌||◌, List, [], ◌∷◌, ◌++◌, map, Option,
  none, some, ◌==◌, if◌then◌else◌, nat_eq, list_eq, option_eq, pair_eq, any, filter, is_empty,
  length, Text, codes, ltb, mem, Result, ok, err, or_raise, Time, value_error, key_error,
  file_exists_error, ◌>>=◌, ◌>>◌, guard,
}
use ctxd.Prelude.Dict
use ctxd.Prelude.Dict.{Dict}
use ctxd.Prelude.Inverse.{vacate}
use ctxd.Paths.{normalize_path}
use ctxd.Ownership.{WriterPrefix, require_authorized_path}
use ctxd.Submissions.Operations.{
  Operation, PutOperation, MoveOperation, DeleteOperation, DecisionOperation, SourceIdentity, put,
  move, delete, decision, moves_of, DocClass, Provenance,
}

-- A row of `entries`, without its user_id, which every query fixes.
pub record EntryRow : Type 0 where
  pub writer_id : Text
  pub path : Text
  pub source_key : Text
  pub source_version : Text
  pub doc_class : DocClass
  pub file_format : Text
  pub content_hash : Text
  pub size_bytes : ℕ
  pub line_count : ℕ
  pub object_id : Text
  pub provenance : Provenance
  pub created_at : Time
  pub updated_at : Time

pub record Maps : Type 0 where
  pub paths_by_source : Dict SourceIdentity Text
  pub sources_by_path : Dict Text SourceIdentity

abbrev pub identity_of : EntryRow → SourceIdentity
identity_of row = (row.writer_id, row.source_key)

abbrev pub add_row : EntryRow → Maps → Maps
add_row row m = record {
  paths_by_source = Dict.put (identity_of row) row.path m.paths_by_source;
  sources_by_path = Dict.put row.path (identity_of row) m.sources_by_path;
}

unfoldable pub add_rows : List EntryRow → Maps → Maps
add_rows [] m = m
add_rows (row ∷ rows) m = add_rows rows (add_row row m)

-- `rows` are the entries of the user.
unfoldable pub source_path_maps : List EntryRow → Maps
unfolding add_rows
source_path_maps rows = add_rows rows (record { paths_by_source = []; sources_by_path = [] })

unfoldable pub require_unoccupied_path :
    Text → SourceIdentity → Dict Text SourceIdentity → Result (Unit {0})
require_unoccupied_path path identity sources_by_path = elim (Dict.get path sources_by_path) [
  | none ↦ ok tt
  | some occupant ↦ guard (occupant == identity) file_exists_error
]

-- The writer, its user and the rows of `writer_prefixes`.
module _ (rows : List WriterPrefix) (user_id writer_id : Text) where
  unfoldable pub preflight_put : PutOperation → Maps → Result Maps
  preflight_put o m = do
    path ← normalize_path o.path
    require_authorized_path rows user_id writer_id path
    let identity : SourceIdentity = (writer_id, o.source_key)
    require_unoccupied_path path identity m.sources_by_path
    let old_path = Dict.get identity m.paths_by_source
    ok (record {
      paths_by_source = Dict.put identity path m.paths_by_source;
      sources_by_path = Dict.put path identity (vacate old_path path m.sources_by_path);
    })

  -- The test of the destination: another occupant must be one that moves too.
  unfoldable pub check_destination :
      List SourceIdentity → Text → SourceIdentity → Dict Text SourceIdentity → Result (Unit {0})
  check_destination moving path identity sources = elim (Dict.get path sources) [
    | none ↦ ok tt
    | some occupant ↦
        if not (occupant == identity) && not (mem occupant moving)
        then require_unoccupied_path path identity sources
        else ok tt
  ]

  unfoldable pub preflight_move : List SourceIdentity → MoveOperation → Maps → Result Maps
  unfolding check_destination
  preflight_move moving o m = do
    path ← normalize_path o.path
    require_authorized_path rows user_id writer_id path
    let identity : SourceIdentity = (writer_id, o.source_key)
    old_path ← or_raise (Dict.get identity m.paths_by_source) key_error
    require_authorized_path rows user_id writer_id old_path
    check_destination moving path identity m.sources_by_path
    ok (
        if not (old_path == path)
        then record {
          paths_by_source = Dict.put identity path m.paths_by_source;
          sources_by_path = Dict.put path identity (Dict.pop old_path m.sources_by_path);
        }
        else m)

  unfoldable pub preflight_delete : DeleteOperation → Maps → Result Maps
  preflight_delete o m =
      let identity : SourceIdentity = (writer_id, o.source_key) in
      elim (Dict.get identity m.paths_by_source) [
        | none ↦ ok m
        | some old_path ↦ do
          require_authorized_path rows user_id writer_id old_path
          ok (record {
            paths_by_source = Dict.pop identity m.paths_by_source;
            sources_by_path = Dict.pop old_path m.sources_by_path;
          })
      ]

  unfoldable pub preflight_decision : DecisionOperation → Maps → Result Maps
  preflight_decision o m = elim o.path [
    | none ↦ ok m
    | some given ↦ do
      path ← normalize_path given
      require_authorized_path rows user_id writer_id path
      ok m
  ]

  unfoldable pub preflight_step : List SourceIdentity → Operation → Maps → Result Maps
  preflight_step moving (put o) m = preflight_put o m
  preflight_step moving (move o) m = preflight_move moving o m
  preflight_step moving (delete o) m = preflight_delete o m
  preflight_step moving (decision o) m = preflight_decision o m

  unfoldable pub preflight_loop : List SourceIdentity → List Operation → Maps → Result Maps
  preflight_loop moving [] m = ok m
  preflight_loop moving (o ∷ operations) m = do
    m' ← preflight_step moving o m
    preflight_loop moving operations m'

  -- {(writer_id, operation.source_key) for operation in operations if ... MOVE}
  abbrev pub moving_identities : List Operation → List SourceIdentity
  moving_identities operations =
      map (λ (o : MoveOperation). (writer_id, o.source_key)) (moves_of operations)

  -- The maps at the end of the loop are dropped by the source; they are kept here for the theorems.
  unfoldable pub preflight_submission : List EntryRow → List Operation → Result Maps
  preflight_submission entries operations =
      preflight_loop (moving_identities operations) operations (source_path_maps entries)
