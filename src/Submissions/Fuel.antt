-- ===== src/Submissions/Fuel.antt =====
-- The planning of a submission in src/ctxfs/store.py never runs out of its fuel, whatever it is given.
use ctxd.Prelude.{
  ℕ, zero, suc, ◌<◌, ◌≡◌, ◌≢◌, refl, List, [], ◌∷◌, Option, none, some, inl, inr, nat_eq, list_eq,
  pair_eq, option_eq, length, Text, Bool-cases, Option-cases, In, mem, arith, value_error,
  key_error, file_exists_error, prefix_authorization_error, out_of_fuel, Result, ok, filter, ltb,
  ◌>>◌,
}
use ctxd.Prelude.Dict
use ctxd.Prelude.Dict.{Dict}
use ctxd.Prelude.Fuel.{
  Fueled, ok-Fueled, if-Fueled, guarded-Fueled, or_raise-Fueled, >>=-Fueled, guard-Fueled,
  any_result-Fueled,
}
use ctxd.Paths.{normalize_path, path_is_within_prefix}
use ctxd.Ownership.{WriterPrefix, require_authorized_path, is_own}
use ctxd.Submissions.Operations.{
  MoveOperation, Operation, PutOperation, DeleteOperation, DecisionOperation, put, move, delete,
  decision, Visit, visit, visit_dependency, visit_all, order_moves, moves_by_source_path,
  SourceIdentity, start, moves_of, check_sources, reject_duplicate_move_sources, ordered_operations,
}
use ctxd.Submissions.Ordering.{pending, pending-lt, pending-le_length, by_path-inside}
use ctxd.Submissions.Visits.{key}
use ctxd.Submissions.Preflight.{
  EntryRow, Maps, require_unoccupied_path, preflight_put, check_destination, preflight_move,
  preflight_delete, preflight_decision, preflight_step, preflight_loop, preflight_submission,
}

pub value_error-IsReal : value_error ≢ out_of_fuel
value_error-IsReal h = cc

pub key_error-IsReal : key_error ≢ out_of_fuel
key_error-IsReal h = cc

file_exists_error-IsReal : file_exists_error ≢ out_of_fuel
file_exists_error-IsReal h = cc

prefix_error-IsReal : prefix_authorization_error ≢ out_of_fuel
prefix_error-IsReal h = cc

pub normalize_path-Fueled : (path : Text) → Fueled (normalize_path path)
unfolding normalize_path
normalize_path-Fueled path = record { real = λ h. ground (arith, h) }

path_is_within_prefix-Fueled : (path prefix : Text) → Fueled (path_is_within_prefix path prefix)
unfolding path_is_within_prefix
path_is_within_prefix-Fueled path prefix =
    >>=-Fueled (normalize_path path) _ (normalize_path-Fueled path)
      (λ _. >>=-Fueled (normalize_path prefix) _ (normalize_path-Fueled prefix) (λ _. ok-Fueled))

pub require_authorized_path-Fueled :
    (rows : List WriterPrefix) (user writer path : Text)
    → Fueled (require_authorized_path rows user writer path)
unfolding require_authorized_path
require_authorized_path-Fueled rows user writer path =
    >>=-Fueled _ _
      (any_result-Fueled (λ row. path_is_within_prefix path row.prefix)
        (filter (is_own user writer) rows) (λ row. path_is_within_prefix-Fueled path row.prefix))
      (λ found. guard-Fueled found prefix_authorization_error prefix_error-IsReal)

check_sources-Fueled :
    (writer : Text) (seen : List SourceIdentity) (moves : List MoveOperation)
    → Fueled (check_sources writer seen moves)
unfolding check_sources
check_sources-Fueled writer seen [] = ok-Fueled
check_sources-Fueled writer seen (o ∷ moves) =
    guarded-Fueled _ value_error _ value_error-IsReal
      (check_sources-Fueled writer ((writer, o.source_key) ∷ seen) moves)

pub reject_duplicate_move_sources-Fueled :
    (writer : Text) (operations : List Operation)
    → Fueled (reject_duplicate_move_sources writer operations)
unfolding reject_duplicate_move_sources
reject_duplicate_move_sources-Fueled writer operations =
    check_sources-Fueled writer [] (moves_of operations)

module _ (moves : List MoveOperation) (by_path : Dict Text MoveOperation)
    (inside : (path : Text) (d : MoveOperation) → Dict.get path by_path ≡ some d → In d moves) where
  dependency-Fueled :
      (rec : MoveOperation → Visit → Result Visit) (o : MoveOperation) (d : Option MoveOperation)
      (v : Visit)
      → ((x : MoveOperation) → d ≡ some x → Fueled (rec x v))
      → Fueled (visit_dependency rec o d v)
  unfolding visit_dependency
  dependency-Fueled rec o none v h = ok-Fueled
  dependency-Fueled rec o (some d) v h = if-Fueled _ (rec d v) (ok v) (h d refl) ok-Fueled

  visit-Fueled :
      (fuel : ℕ) (o : MoveOperation) (v : Visit)
      → In o moves
      → pending moves v.temporary < fuel
      → Fueled (visit fuel by_path o v)
  unfolding visit
  visit-Fueled zero o v m h = absurd (omega (arith, h))
  visit-Fueled (suc fuel) o v m h = elim (Bool-cases (mem (key o) v.permanent)) [
    | inl p ↦ rw p ok-Fueled
    | inr p ↦ elim (Bool-cases (mem (key o) v.temporary)) [
      | inl t ↦ rw (p, t) ok-Fueled
      | inr t ↦
          let started : Visit = record v { temporary = key o ∷ v.temporary } in
          let room : pending moves (key o ∷ v.temporary) < fuel =
            omega (arith, pending-lt moves o v.temporary m t) in
          rw (p, t)
            (>>=-Fueled (normalize_path o.path) _ (normalize_path-Fueled o.path) (λ path.
              >>=-Fueled _ _
                (dependency-Fueled (visit fuel by_path) o (Dict.get path by_path) started
                  (λ d e. visit-Fueled fuel d started (inside path d e) room))
                (λ _. ok-Fueled)))
    ]
  ]

  visit_all-Fueled :
      (fuel : ℕ) (rest : List MoveOperation) (v : Visit)
      → ((o : MoveOperation) → In o rest → In o moves)
      → length moves < fuel
      → Fueled (visit_all fuel by_path rest v)
  unfolding visit_all
  visit_all-Fueled fuel [] v sub h = ok-Fueled
  visit_all-Fueled fuel (o ∷ rest) v sub h =
      >>=-Fueled (visit fuel by_path o v) _
        (visit-Fueled fuel o v (sub o (inl refl))
          (omega (arith, h, pending-le_length moves v.temporary)))
        (λ u. visit_all-Fueled fuel rest u (λ x n. sub x (inr n)) h)

order_moves-Fueled :
    (writer : Text) (paths : Dict SourceIdentity Text) (moves : List MoveOperation)
    → Fueled (order_moves writer paths moves)
unfolding order_moves
order_moves-Fueled writer paths moves =
    let by_path = moves_by_source_path writer paths moves [] in
    let inside =
      by_path-inside moves writer paths moves [] (λ o m. m)
        (λ path d h. absurd (unfold Dict.get in ground arith)) in
    >>=-Fueled _ _
      (visit_all-Fueled moves by_path inside (suc (length moves)) moves start (λ o m. m)
        (omega arith))
      (λ _. ok-Fueled)

pub ordered_operations-Fueled :
    (writer : Text) (paths : Dict SourceIdentity Text) (operations : List Operation)
    → Fueled (ordered_operations writer paths operations)
unfolding ordered_operations
ordered_operations-Fueled writer paths operations =
    let moves = moves_of operations in
    >>=-Fueled _ _
      (if-Fueled (ltb (length moves) 2) (ok moves) (order_moves writer paths moves) ok-Fueled
        (order_moves-Fueled writer paths moves))
      (λ _. ok-Fueled)

unoccupied-Fueled :
    (path : Text) (identity : SourceIdentity) (sources : Dict Text SourceIdentity)
    → Fueled (require_unoccupied_path path identity sources)
unfolding require_unoccupied_path
unoccupied-Fueled path identity sources = elim (Option-cases (Dict.get path sources)) [
  | inl e ↦ rw (e, require_unoccupied_path) ok-Fueled
  | inr (occupant, e) ↦
      rw (e, require_unoccupied_path) (guard-Fueled _ file_exists_error file_exists_error-IsReal)
]

module _ (rows : List WriterPrefix) (user writer : Text) where
  checked-Fueled :
      {A : Type 0} (path : Text) (next : Result A)
      → Fueled next
      → Fueled (require_authorized_path rows user writer path >> next)
  checked-Fueled path next h =
      >>=-Fueled (require_authorized_path rows user writer path) _
        (require_authorized_path-Fueled rows user writer path) (λ _. h)

  preflight_put-Fueled : (o : PutOperation) (m : Maps) → Fueled (preflight_put rows user writer o m)
  unfolding preflight_put
  preflight_put-Fueled o m =
      >>=-Fueled (normalize_path o.path) _ (normalize_path-Fueled o.path) (λ path.
        checked-Fueled path _ (
          >>=-Fueled _ _ (unoccupied-Fueled path (writer, o.source_key) m.sources_by_path)
            (λ _. ok-Fueled)))

  destination-Fueled :
      (moving : List SourceIdentity) (path : Text) (identity : SourceIdentity)
      (sources : Dict Text SourceIdentity)
      → Fueled (check_destination rows user writer moving path identity sources)
  unfolding check_destination
  destination-Fueled moving path identity sources = elim (Option-cases (Dict.get path sources)) [
    | inl e ↦ rw (e, check_destination) ok-Fueled
    | inr (occupant, e) ↦
        rw (e, check_destination)
          (if-Fueled _ _ (ok tt) (unoccupied-Fueled path identity sources) ok-Fueled)
  ]

  preflight_move-Fueled :
      (moving : List SourceIdentity) (o : MoveOperation) (m : Maps)
      → Fueled (preflight_move rows user writer moving o m)
  unfolding preflight_move
  preflight_move-Fueled moving o m =
      let identity : SourceIdentity = (writer, o.source_key) in
      >>=-Fueled (normalize_path o.path) _ (normalize_path-Fueled o.path) (λ path.
        checked-Fueled path _ (
          >>=-Fueled _ _
            (or_raise-Fueled (Dict.get identity m.paths_by_source) key_error key_error-IsReal)
            (λ old_path. checked-Fueled old_path _ (
              >>=-Fueled _ _ (destination-Fueled moving path identity m.sources_by_path)
                (λ _. ok-Fueled)))))

  preflight_delete-Fueled :
      (o : DeleteOperation) (m : Maps) → Fueled (preflight_delete rows user writer o m)
  unfolding preflight_delete
  preflight_delete-Fueled o m =
      elim (Option-cases (Dict.get (writer, o.source_key) m.paths_by_source)) [
        | inl e ↦ rw (e, preflight_delete) ok-Fueled
        | inr (old_path, e) ↦ rw (e, preflight_delete) (checked-Fueled old_path _ ok-Fueled)
      ]

  preflight_decision-Fueled :
      (o : DecisionOperation) (m : Maps) → Fueled (preflight_decision rows user writer o m)
  unfolding preflight_decision
  preflight_decision-Fueled o m = elim (Option-cases o.path) [
    | inl e ↦ rw (e, preflight_decision) ok-Fueled
    | inr (given, e) ↦
        rw (e, preflight_decision)
          (>>=-Fueled (normalize_path given) _ (normalize_path-Fueled given)
            (λ path. checked-Fueled path _ ok-Fueled))
  ]

  preflight_step-Fueled :
      (moving : List SourceIdentity) (o : Operation) (m : Maps)
      → Fueled (preflight_step rows user writer moving o m)
  unfolding preflight_step
  preflight_step-Fueled moving (put o) m = preflight_put-Fueled o m
  preflight_step-Fueled moving (move o) m = preflight_move-Fueled moving o m
  preflight_step-Fueled moving (delete o) m = preflight_delete-Fueled o m
  preflight_step-Fueled moving (decision o) m = preflight_decision-Fueled o m

  preflight_loop-Fueled :
      (moving : List SourceIdentity) (operations : List Operation) (m : Maps)
      → Fueled (preflight_loop rows user writer moving operations m)
  unfolding preflight_loop
  preflight_loop-Fueled moving [] m = ok-Fueled
  preflight_loop-Fueled moving (o ∷ operations) m =
      >>=-Fueled _ _ (preflight_step-Fueled moving o m)
        (λ m'. preflight_loop-Fueled moving operations m')

  pub preflight_submission-Fueled :
      (entries : List EntryRow) (operations : List Operation)
      → Fueled (preflight_submission rows user writer entries operations)
  unfolding preflight_submission
  preflight_submission-Fueled entries operations = preflight_loop-Fueled _ operations _
