-- ===== src/Submissions/Operations.antt =====
-- The operations of a submission (src/ctxfs/models.py) and their order of application
-- (src/ctxfs/store.py: `_reject_duplicate_move_sources`, `_ordered_operations`).
use ctxd.Prelude.{
  ℕ, zero, suc, Bool, true, false, not, List, [], ◌∷◌, ◌++◌, map, Option, none, some, ◌==◌,
  if◌then◌else◌, nat_eq, list_eq, option_eq, pair_eq, filter, length, Text, ltb, mem, Result, ok,
  err, value_error, out_of_fuel, ◌>>=◌, ◌>>◌, guard,
}
use ctxd.Prelude.Dict
use ctxd.Prelude.Dict.{Dict}
use ctxd.Paths.{normalize_path}

pub data DocClass : Type 0 where
  append editable immutable : DocClass

pub data DecisionState : Type 0 where
  upload_required stored absent skipped retryable_failure terminal_failure : DecisionState

-- The confidence, a number from 0 to 1, is in millionths.
pub record Provenance : Type 0 where
  pub producer : Text
  pub producer_version : Text
  pub confidence : Option ℕ
  pub warnings : List Text

pub record PutOperation : Type 0 where
  pub path : Text
  pub source_key : Text
  pub source_version : Text
  pub doc_class : DocClass
  pub file_format : Text
  pub text : Text
  pub provenance : Provenance

pub record MoveOperation : Type 0 where
  pub source_key : Text
  pub path : Text
  pub source_version : Text
  pub expected_content_hash : Text

pub record DeleteOperation : Type 0 where
  pub source_key : Text
  pub source_version : Text

pub record DecisionOperation : Type 0 where
  pub source_key : Text
  pub source_version : Text
  pub state : DecisionState
  pub path : Option Text
  pub failure_code : Option Text
  pub failure_message : Option Text
  pub retry_after_seconds : Option ℕ

pub data Operation : Type 0 where
  put : PutOperation → Operation
  move : MoveOperation → Operation
  delete : DeleteOperation → Operation
  decision : DecisionOperation → Operation

-- (writer_id, source_key)
abbrev pub SourceIdentity : Type 0
SourceIdentity = Text × Text

abbrev pub is_put : Operation → Bool
is_put (put o) = true
is_put _ = false

abbrev pub is_delete : Operation → Bool
is_delete (delete o) = true
is_delete _ = false

abbrev pub is_decision : Operation → Bool
is_decision (decision o) = true
is_decision _ = false

-- [operation for operation in operations if operation.kind == OperationKind.MOVE]
unfoldable pub moves_of : List Operation → List MoveOperation
moves_of [] = []
moves_of (move o ∷ operations) = o ∷ moves_of operations
moves_of (operation ∷ operations) = moves_of operations

unfoldable pub check_sources : Text → List SourceIdentity → List MoveOperation → Result (Unit {0})
check_sources writer_id seen [] = ok tt
check_sources writer_id seen (o ∷ moves) = do
  let rest = check_sources writer_id ((writer_id, o.source_key) ∷ seen) moves
  guard (not (mem (writer_id, o.source_key) seen)) value_error
  rest

unfoldable pub reject_duplicate_move_sources : Text → List Operation → Result (Unit {0})
unfolding check_sources
reject_duplicate_move_sources writer_id operations =
    check_sources writer_id [] (moves_of operations)

-- The variables of `_ordered_operations` that `visit` changes.
pub record Visit : Type 0 where
  pub temporary : List Text
  pub permanent : List Text
  pub ordered_moves : List MoveOperation

-- temporary.remove(key)
abbrev pub discard : Text → List Text → List Text
discard key = filter (λ k. not (k == key))

abbrev pub finish : MoveOperation → Visit → Visit
finish o v = record {
  temporary = discard o.source_key v.temporary;
  permanent = o.source_key ∷ v.permanent;
  ordered_moves = v.ordered_moves ++ o ∷ [];
}

-- The recursive call of `visit`, at the move that frees the destination.
unfoldable pub visit_dependency :
    (MoveOperation → Visit → Result Visit)
    → MoveOperation
    → Option MoveOperation
    → Visit
    → Result Visit
visit_dependency rec o none v = ok v
visit_dependency rec o (some dependency) v =
    if not (dependency.source_key == o.source_key) then rec dependency v else ok v

-- A depth beyond the fuel would end in `out_of_fuel`.
unfoldable pub visit : ℕ → Dict Text MoveOperation → MoveOperation → Visit → Result Visit
unfolding visit_dependency
visit zero by_path o v = err out_of_fuel
visit (suc fuel) by_path o v =
    if mem o.source_key v.permanent then ok v else if mem o.source_key v.temporary then ok v else do
      let started = record v { temporary = o.source_key ∷ v.temporary }
      destination ← normalize_path o.path
      visited ← visit_dependency (visit fuel by_path) o (Dict.get destination by_path) started
      ok (finish o visited)

unfoldable pub visit_all : ℕ → Dict Text MoveOperation → List MoveOperation → Visit → Result Visit
visit_all fuel by_path [] v = ok v
visit_all fuel by_path (o ∷ moves) v = do
  visited ← visit fuel by_path o v
  visit_all fuel by_path moves visited

-- move_by_source_path: the moves by the paths that they leave
unfoldable pub moves_by_source_path :
    Text
    → Dict SourceIdentity Text
    → List MoveOperation
    → Dict Text MoveOperation
    → Dict Text MoveOperation
moves_by_source_path writer_id paths_by_source [] by_path = by_path
moves_by_source_path writer_id paths_by_source (o ∷ moves) by_path =
    moves_by_source_path writer_id paths_by_source moves
      (elim (Dict.get (writer_id, o.source_key) paths_by_source) [
        | none ↦ by_path
        | some source_path ↦ Dict.put source_path o by_path
      ])

abbrev pub start : Visit
start = record { temporary = []; permanent = []; ordered_moves = [] }

-- The order of the moves: the fuel is one more than their number.
unfoldable pub order_moves :
    Text → Dict SourceIdentity Text → List MoveOperation → Result (List MoveOperation)
unfolding visit_all
order_moves writer_id paths_by_source moves = do
  visited ←
      visit_all (suc (length moves)) (moves_by_source_path writer_id paths_by_source moves []) moves
        start
  ok visited.ordered_moves

-- `paths_by_source` is the first of `_source_path_maps`.
unfoldable pub ordered_operations :
    Text → Dict SourceIdentity Text → List Operation → Result (List Operation)
ordered_operations writer_id paths_by_source operations = do
  let deletes = filter is_delete operations
  let moves = moves_of operations
  let puts = filter is_put operations
  let decisions = filter is_decision operations
  ordered_moves ←
      if ltb (length moves) 2 then ok moves else order_moves writer_id paths_by_source moves
  ok (deletes ++ (map move ordered_moves ++ (puts ++ decisions)))
