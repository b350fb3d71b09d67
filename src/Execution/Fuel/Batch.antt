-- ===== src/Execution/Fuel/Batch.antt =====
-- `_move_batch` and the `try` of `submit` in src/ctxfs/store.py: no fuel runs out.
use ctxd.Prelude.{
  codes, refl, List, [], ◌∷◌, ◌++◌, Option, none, inl, inr, ◌==◌, nat_eq, list_eq, pair_eq,
  option_eq, Text, Error, or_raise, key_error, content_hash_mismatch_error, Result-cases, arith,
  is_empty,
}
use ctxd.Prelude.Dict
use ctxd.Prelude.Dict.{Dict}
use ctxd.Prelude.Fuel.{Fueled, ok-Fueled, raise-Fueled, or_raise-Fueled, guard-Fueled}
use ctxd.Submissions.Operations.{Operation, MoveOperation, put, move, delete, decision}
use ctxd.Submissions.Preflight.{EntryRow, source_path_maps}
use ctxd.Submissions.Fuel.{
  key_error-IsReal, normalize_path-Fueled, require_authorized_path-Fueled,
  reject_duplicate_move_sources-Fueled, ordered_operations-Fueled, preflight_submission-Fueled,
}
use ctxd.Execution.{System, Location, tree, State, Action, lift, SubmissionState, applied}
use ctxd.Execution.Moves.{
  is_source, first, Temps, validated_move_entry, validated_entries, break_cycles, break_move_cycles,
  park, move_file, move_one, move_batch, current_locations, source_keys_by_path, move_source,
}
use ctxd.Execution.Apply.{transaction, apply_operations, set_state, try_submission}
use ctxd.Execution.Fuel.{
  IsFueled, mismatch-IsReal, >>=-IsFueled, >>-IsFueled, for_each-IsFueled, update-IsFueled,
  move_destinations-Fueled, move_cycles-Fueled, skip-IsFueled, exists-IsFueled, draw-IsFueled,
  entry-IsFueled, lift-IsFueled, calm-IsFueled, pure-IsFueled, gets-IsFueled, if-IsFueled,
}
use ctxd.Execution.Fuel.Changes.{now-IsFueled, undo_path-IsFueled, rename_tree_file-IsFueled}
use ctxd.Execution.Fuel.Documents.{
  apply_put-IsFueled, apply_delete-IsFueled, apply_decision-IsFueled,
}

module _ (system : System) where
  validated_move_entry-IsFueled :
      (user writer : Text) (o : MoveOperation) → IsFueled (validated_move_entry user writer o)
  unfolding validated_move_entry
  validated_move_entry-IsFueled user writer o =
      >>=-IsFueled (lift-IsFueled (normalize_path-Fueled o.path)) (λ path.
        >>=-IsFueled (gets-IsFueled {f = λ (s : State). s.prefixes}) (λ prefixes.
          >>-IsFueled (lift-IsFueled (require_authorized_path-Fueled prefixes user writer path)) (
            >>=-IsFueled (entry-IsFueled writer o.source_key) (λ existing.
              >>=-IsFueled (lift-IsFueled (or_raise-Fueled existing key_error key_error-IsReal))
                (λ entry.
                  >>-IsFueled
                    (lift-IsFueled (require_authorized_path-Fueled prefixes user writer entry.path))
                    (>>-IsFueled
                      (lift-IsFueled (
                        guard-Fueled (entry.content_hash == o.expected_content_hash)
                          content_hash_mismatch_error mismatch-IsReal))
                      (pure-IsFueled {a = entry})))))))

  validated_entries-IsFueled :
      (user writer : Text) (operations : List MoveOperation) (found : Dict Text EntryRow)
      → IsFueled (validated_entries user writer operations found)
  unfolding validated_entries
  validated_entries-IsFueled user writer [] found = pure-IsFueled
  validated_entries-IsFueled user writer (o ∷ operations) found =
      >>=-IsFueled (validated_move_entry-IsFueled user writer o) (λ entry.
        validated_entries-IsFueled user writer operations (Dict.put o.source_key entry found))

  first-Fueled : (cycle : List Text) → Fueled (first cycle)
  first-Fueled [] = raise-Fueled key_error-IsReal
  first-Fueled (path ∷ _) = ok-Fueled

  looked_up-IsFueled :
      {A : Type 0} (key : Text) (d : Dict Text A)
      → IsFueled (lift (or_raise (Dict.get key d) key_error))
  looked_up-IsFueled key d =
      lift-IsFueled (or_raise-Fueled (Dict.get key d) key_error key_error-IsReal)

  break_cycles-IsFueled :
      (destinations : Dict Text Text) (cycles : List (List Text)) (current : Dict Text Location)
      (temps : Temps)
      → IsFueled (break_cycles system destinations cycles current temps)
  unfolding break_cycles
  break_cycles-IsFueled destinations [] current temps = pure-IsFueled
  break_cycles-IsFueled destinations (cycle ∷ cycles) current temps =
      >>=-IsFueled (lift-IsFueled (first-Fueled cycle)) (λ start.
        >>=-IsFueled (looked_up-IsFueled start destinations) (λ source_path.
          >>=-IsFueled (looked_up-IsFueled source_path current) (λ source.
            >>=-IsFueled (exists-IsFueled source) (λ present.
              if-IsFueled present
                (>>=-IsFueled (undo_path-IsFueled system (codes "cycle")) (λ temp.
                  >>=-IsFueled draw-IsFueled (λ n.
                    >>-IsFueled (rename_tree_file-IsFueled system source temp) (
                      break_cycles-IsFueled destinations cycles (Dict.put source_path temp current)
                        (Dict.put source_path (temp, codes "_ctxfs_cycle/" ++ system.uuid n)
                          temps)))))
                (break_cycles-IsFueled destinations cycles current temps)))))

  break_move_cycles-IsFueled :
      (destinations : Dict Text Text) (current : Dict Text Location)
      → IsFueled (break_move_cycles system destinations current)
  unfolding break_move_cycles
  break_move_cycles-IsFueled destinations current =
      >>=-IsFueled (lift-IsFueled (move_cycles-Fueled destinations))
        (λ cycles. break_cycles-IsFueled destinations cycles current [])

  park-IsFueled :
      (writer : Text) (keys : Dict Text Text) (temp : Text × (Location × Text))
      → IsFueled (park system writer keys temp)
  unfolding park
  park-IsFueled writer keys (old_path, (_, temp_path)) = >>=-IsFueled (now-IsFueled system) (λ time.
      >>=-IsFueled (looked_up-IsFueled old_path keys) (λ key.
        update-IsFueled (is_source writer key) temp_path
          (λ row. record row { path = temp_path; updated_at = time })))

  move_file-IsFueled :
      (old_path path : Text) (temps : Temps) → IsFueled (move_file system old_path path temps)
  unfolding move_file
  move_file-IsFueled old_path path temps = if-IsFueled (old_path == path) skip-IsFueled (
      >>=-IsFueled (exists-IsFueled (move_source old_path temps)) (λ present.
        if-IsFueled present
          (rename_tree_file-IsFueled system (move_source old_path temps) (tree path))
          skip-IsFueled))

  move_one-IsFueled :
      (writer : Text) (found : Dict Text EntryRow) (temps : Temps) (o : MoveOperation)
      → IsFueled (move_one system writer found temps o)
  unfolding move_one
  move_one-IsFueled writer found temps o =
      >>=-IsFueled (looked_up-IsFueled o.source_key found) (λ entry.
        >>=-IsFueled (lift-IsFueled (normalize_path-Fueled o.path)) (λ path.
          >>-IsFueled (move_file-IsFueled entry.path path temps) (
            >>=-IsFueled (now-IsFueled system) (λ time.
              update-IsFueled (is_source writer o.source_key) path (λ row. record row {
                path = path;
                source_version = o.source_version;
                updated_at = time;
              })))))

  move_batch-IsFueled :
      (user writer : Text) (operations : List MoveOperation)
      → IsFueled (move_batch system user writer operations)
  unfolding move_batch
  move_batch-IsFueled user writer operations = if-IsFueled (is_empty operations) skip-IsFueled (
      >>=-IsFueled (validated_entries-IsFueled user writer operations []) (λ found.
        >>=-IsFueled (lift-IsFueled (move_destinations-Fueled found operations [])) (λ destinations.
          >>=-IsFueled (break_move_cycles-IsFueled destinations (current_locations found []))
            (λ temps.
              >>-IsFueled
                (for_each-IsFueled (park system writer (source_keys_by_path found [])) temps
                  (park-IsFueled writer (source_keys_by_path found [])))
                (for_each-IsFueled (move_one system writer found temps) operations
                  (move_one-IsFueled writer found temps))))))

  apply_operations-IsFueled :
      (user writer : Text) (moves : List MoveOperation) (operations : List Operation)
      → IsFueled (apply_operations system user writer moves operations)
  unfolding apply_operations
  apply_operations-IsFueled user writer moves [] = move_batch-IsFueled user writer moves
  apply_operations-IsFueled user writer moves (move o ∷ operations) =
      apply_operations-IsFueled user writer (moves ++ o ∷ []) operations
  apply_operations-IsFueled user writer moves (put o ∷ operations) =
      >>-IsFueled (move_batch-IsFueled user writer moves) (
        >>-IsFueled (apply_put-IsFueled system user writer o)
          (apply_operations-IsFueled user writer [] operations))
  apply_operations-IsFueled user writer moves (delete o ∷ operations) =
      >>-IsFueled (move_batch-IsFueled user writer moves) (
        >>-IsFueled (apply_delete-IsFueled system user writer o)
          (apply_operations-IsFueled user writer [] operations))
  apply_operations-IsFueled user writer moves (decision o ∷ operations) =
      >>-IsFueled (move_batch-IsFueled user writer moves) (
        >>-IsFueled (apply_decision-IsFueled system user writer o)
          (apply_operations-IsFueled user writer [] operations))

  set_state-IsFueled :
      (id : Text) (state : SubmissionState) (error : Option Error)
      → IsFueled (set_state system id state error)
  unfolding set_state
  set_state-IsFueled id state error = calm-IsFueled (λ s. (tt, refl))

  transaction-IsFueled : (body : Action (Unit {0})) → IsFueled body → IsFueled (transaction body)
  unfolding transaction
  transaction-IsFueled body h = record {
    at = λ s. elim (Result-cases (body s).0) [
      | inl (_, e) ↦ record { real = λ g. ground (arith, e, g) }
      | inr (x, e) ↦ record { real = λ g. ground (arith, e, g, (h.at s).real) }
    ];
  }

  pub try_submission-IsFueled :
      (id user writer : Text) (operations : List Operation)
      → IsFueled (try_submission system id user writer operations)
  unfolding try_submission
  try_submission-IsFueled id user writer operations =
      >>-IsFueled (lift-IsFueled (reject_duplicate_move_sources-Fueled writer operations)) (
        >>=-IsFueled (gets-IsFueled {f = λ (s : State). s.entries}) (λ entries.
          >>=-IsFueled
            (lift-IsFueled (
              ordered_operations-Fueled writer (source_path_maps entries).paths_by_source
                operations))
            (λ ordered. >>=-IsFueled (gets-IsFueled {f = λ (s : State). s.prefixes}) (λ prefixes.
              >>=-IsFueled
                (lift-IsFueled (preflight_submission-Fueled prefixes user writer entries ordered))
                (λ _. transaction-IsFueled _ (
                  >>-IsFueled (apply_operations-IsFueled user writer [] ordered)
                    (set_state-IsFueled id applied none)))))))
