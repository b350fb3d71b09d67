-- ===== src/Execution/Moves.antt =====
-- src/ctxfs/store.py: the moves of a submission: `_move_cycles`, `_break_move_cycles`,
-- `_validated_move_entry` and `_move_batch`.
pub mod Orbits
pub mod Cycles
use ctxd.Prelude.{
  ℕ, zero, suc, Bool, true, false, not, ◌&&◌, List, [], ◌∷◌, ◌++◌, map, Option, none, some, ◌==◌,
  nat_eq, list_eq, pair_eq, if◌then◌else◌, Text, codes, Result, ok, err, guard, or_raise,
  out_of_fuel, key_error, content_hash_mismatch_error, integrity_error, any, find, length, mem,
  update_rows, is_empty, Time,
}
use ctxd.Prelude.Dict
use ctxd.Prelude.Dict.{Dict}
use ctxd.Paths.{normalize_path}
use ctxd.Ownership.{require_authorized_path}
use ctxd.Submissions.Operations.{MoveOperation}
use ctxd.Submissions.Preflight.{EntryRow}
use ctxd.Execution.{
  System, Location, tree, State, Action, pure, raise, gets, lift, ◌>>=◌, ◌>>◌, draw, now, for_each,
}
use ctxd.Execution.Files.{undo_path, rename_tree_file, exists, has_value}

-- WHERE user_id = ? AND writer_id = ? AND source_key = ?
abbrev pub is_source : Text → Text → EntryRow → Bool
is_source writer_id source_key row = row.writer_id == writer_id && row.source_key == source_key

unfoldable pub entry_by_source_key : Text → Text → Action (Option EntryRow)
entry_by_source_key writer_id source_key =
    gets (λ s. find (is_source writer_id source_key) s.entries)

-- UPDATE entries SET path = ?, ... WHERE test, under PRIMARY KEY(user_id, path)
unfoldable pub update_path :
    (EntryRow → Bool) → Text → (EntryRow → EntryRow) → List EntryRow → Result (List EntryRow)
update_path test path change rows =
    if any test rows && any (λ row. row.path == path && not (test row)) rows
    then err integrity_error
    else ok (update_rows test change rows)

unfoldable pub update_entries : (List EntryRow → Result (List EntryRow)) → Action (Unit {0})
update_entries statement s = elim (statement s.entries) [
  | ok rows ↦ (ok tt, record s { entries = rows })
  | err e ↦ (err e, s)
]

-- stack[stack_index[path] :]
unfoldable pub from_path : Text → List Text → List Text
from_path path [] = []
from_path path (p ∷ stack) =
    let rest = from_path path stack in if p == path then p ∷ stack else rest

-- The inner loop of `_move_cycles`: the stack at its end, and the cycle that it met.
unfoldable pub follow :
    ℕ → Dict Text Text → List Text → List Text → Text → Result (List Text × Option (List Text))
unfolding from_path
follow zero destinations seen stack path = err out_of_fuel
follow (suc fuel) destinations seen stack path = elim (Dict.get path destinations) [
  | none ↦ ok (stack, none)
  | some next ↦
      if mem path stack
      then ok (stack, some (from_path path stack))
      else if mem path seen
      then ok (stack, none)
      else follow fuel destinations seen (stack ++ path ∷ []) next
]

abbrev pub add_cycle : Option (List Text) → List (List Text) → List (List Text)
add_cycle none cycles = cycles
add_cycle (some cycle) cycles = cycles ++ cycle ∷ []

-- The outer loop, over the starts that are left.
unfoldable pub cycles_from :
    Dict Text Text → List Text → List Text → List (List Text) → Result (List (List Text))
unfolding follow
cycles_from destinations [] seen cycles = ok cycles
cycles_from destinations (start ∷ starts) seen cycles =
    let skipped = cycles_from destinations starts seen cycles in
    if mem start seen
    then skipped
    else elim (follow (suc (length destinations)) destinations seen [] start) [
      | err e ↦ err e
      | ok (stack, found) ↦ cycles_from destinations starts (seen ++ stack) (add_cycle found cycles)
    ]

unfoldable pub move_cycles : Dict Text Text → Result (List (List Text))
unfolding cycles_from
move_cycles destinations = cycles_from destinations (map (λ (p, _). p) destinations) [] []

-- cycle[0]
abbrev pub first : List Text → Result Text
first [] = err key_error
first (path ∷ _) = ok path

-- old path to the temporary file and its logical path
abbrev pub Temps : Type 0
Temps = Dict Text (Location × Text)

unfoldable pub validated_move_entry : Text → Text → MoveOperation → Action EntryRow
unfolding entry_by_source_key
validated_move_entry user_id writer_id o = do
  path ← lift (normalize_path o.path)
  prefixes ← gets (λ s. s.prefixes)
  lift (require_authorized_path prefixes user_id writer_id path)
  existing ← entry_by_source_key writer_id o.source_key
  entry ← lift (or_raise existing key_error)
  lift (require_authorized_path prefixes user_id writer_id entry.path)
  lift (guard (entry.content_hash == o.expected_content_hash) content_hash_mismatch_error)
  pure entry

-- entries_by_source
unfoldable pub validated_entries :
    Text → Text → List MoveOperation → Dict Text EntryRow → Action (Dict Text EntryRow)
unfolding validated_move_entry
validated_entries user_id writer_id [] found = pure found
validated_entries user_id writer_id (o ∷ operations) found = do
  entry ← validated_move_entry user_id writer_id o
  validated_entries user_id writer_id operations (Dict.put o.source_key entry found)

unfoldable pub current_locations : Dict Text EntryRow → Dict Text Location → Dict Text Location
current_locations [] locations = locations
current_locations ((_, entry) ∷ found) locations =
    current_locations found (Dict.put entry.path (tree entry.path) locations)

unfoldable pub source_keys_by_path : Dict Text EntryRow → Dict Text Text → Dict Text Text
source_keys_by_path [] keys = keys
source_keys_by_path ((key, entry) ∷ found) keys =
    source_keys_by_path found (Dict.put entry.path key keys)

unfoldable pub move_destinations :
    Dict Text EntryRow → List MoveOperation → Dict Text Text → Result (Dict Text Text)
move_destinations found [] destinations = ok destinations
move_destinations found (o ∷ operations) destinations =
    elim (or_raise (Dict.get o.source_key found) key_error) [
      | err e ↦ err e
      | ok entry ↦ elim (normalize_path o.path) [
        | err e ↦ err e
        | ok path ↦ move_destinations found operations (Dict.put entry.path path destinations)
      ]
    ]

-- `source` of the second loop: the temporary file, or the tree's.
abbrev pub move_source : Text → Temps → Location
move_source path temps = elim (Dict.get path temps) [ some (temp, _) ↦ temp | none ↦ tree path ]

module _ (system : System) where
  -- The loop over the cycles; the second dictionary is `current_locations`.
  unfoldable pub break_cycles :
      Dict Text Text → List (List Text) → Dict Text Location → Temps → Action Temps
  unfolding undo_path rename_tree_file
  break_cycles destinations [] current temps = pure temps
  break_cycles destinations (cycle ∷ cycles) current temps = do
    start ← lift (first cycle)
    source_path ← lift (or_raise (Dict.get start destinations) key_error)
    source ← lift (or_raise (Dict.get source_path current) key_error)
    present ← exists source
    if present
        then (do
          temp ← undo_path system (codes "cycle")
          n ← draw
          rename_tree_file system source temp
          break_cycles destinations cycles (Dict.put source_path temp current)
              (Dict.put source_path (temp, codes "_ctxfs_cycle/" ++ system.uuid n) temps))
        else break_cycles destinations cycles current temps

  unfoldable pub break_move_cycles : Dict Text Text → Dict Text Location → Action Temps
  unfolding break_cycles move_cycles
  break_move_cycles destinations current = do
    cycles ← lift (move_cycles destinations)
    break_cycles destinations cycles current []

  -- The entry of a file that waits below `undo` takes its temporary path.
  unfoldable pub park : Text → Dict Text Text → (Text × (Location × Text)) → Action (Unit {0})
  unfolding update_entries update_path
  park writer_id keys (old_path, (_, temp_logical_path)) = do
    time ← now system
    key ← lift (or_raise (Dict.get old_path keys) key_error)
    update_entries (
        update_path (is_source writer_id key) temp_logical_path
          (λ row. record row { path = temp_logical_path; updated_at = time }))

  unfoldable pub move_file : Text → Text → Temps → Action (Unit {0})
  unfolding rename_tree_file
  move_file old_path path temps = if old_path == path then pure tt else do
    let source = move_source old_path temps
    present ← exists source
    if present then rename_tree_file system source (tree path) else pure tt

  -- One turn of the second loop.
  unfoldable pub move_one : Text → Dict Text EntryRow → Temps → MoveOperation → Action (Unit {0})
  unfolding move_file update_entries update_path
  move_one writer_id found temps o = do
    entry ← lift (or_raise (Dict.get o.source_key found) key_error)
    path ← lift (normalize_path o.path)
    move_file entry.path path temps
    time ← now system
    update_entries (
        update_path (is_source writer_id o.source_key) path
          (λ row. record row { path = path; source_version = o.source_version; updated_at = time }))

  unfoldable pub move_batch : Text → Text → List MoveOperation → Action (Unit {0})
  unfolding validated_entries current_locations source_keys_by_path move_destinations
      break_move_cycles park move_one
  move_batch user_id writer_id operations = if is_empty operations then pure tt else do
    found ← validated_entries user_id writer_id operations []
    destinations ← lift (move_destinations found operations [])
    temps ← break_move_cycles destinations (current_locations found [])
    for_each (park writer_id (source_keys_by_path found [])) temps
    for_each (move_one writer_id found temps) operations
