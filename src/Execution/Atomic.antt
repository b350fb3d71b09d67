-- ===== src/Execution/Atomic.antt =====
-- `submit` of src/ctxfs/store.py when it raises: what of the files and tables is as before.
use ctxd.Prelude.{
  ℕ, ◌≡◌, inl, inr, refl, sym, subst, Bool, true, false, not, List, [], ◌∷◌, ◌++◌, Option, none,
  some, ◌==◌, if◌then◌else◌, nat_eq, list_eq, pair_eq, Text, Result-cases, arith, Time, find,
}
use ctxd.Paths.{normalize_path}
use ctxd.Ownership.{require_authorized_path}
use ctxd.Submissions.Operations.{
  Operation, PutOperation, MoveOperation, DeleteOperation, DecisionOperation, put, move, delete,
  decision,
}
use ctxd.Submissions.Preflight.{EntryRow}
use ctxd.Execution.{System, tree, object, Action, tick, pure, lift, ◌>>=◌, remove_old_object}
use ctxd.Execution.Files.{push_cleanup, replace_tree_entry, rename_tree_entry, remove_tree_entry}
use ctxd.Execution.Unwinding.{
  snoc-IsHarmless, Later, IsSafe, Later-refl, Later-trans, IsQuiet-Later, >>=-IsSafe,
}
use ctxd.Execution.Steps.{rename_tree_file-Later}
use ctxd.Execution.Changes.{
  replace_tree_entry-IsSafe, remove_tree_entry-IsSafe, write_object-IsSafe,
}
use ctxd.Execution.Batch.{move_batch-IsSafe, update_entries-IsSafe, now-IsSafe}
use ctxd.Execution.Content.{normalize_text, encode, hash_of}
use ctxd.Execution.Moves.{is_source, entry_by_source_key, move_batch}
use ctxd.Execution.Apply.{
  keep_object, retire, write_object, store_object, place_object, save_entry, write_entry, apply_put,
  delete_existing, delete_entry, apply_delete, require_decision_path, record_decision,
  apply_decision, apply_operations, normalize_optional,
}

module _ (system : System) where
  rename_tree_entry-IsSafe :
      (old_path path : Text) → IsSafe system (rename_tree_entry system old_path path)
  unfolding rename_tree_entry
  rename_tree_entry-IsSafe old_path path s =
      rename_tree_file-Later system (tree old_path) (tree path) s tt tt

  -- A step that may be left out.
  if-IsSafe :
      (b : Bool) (m : Action (Unit {0}))
      → IsSafe system m
      → IsSafe system (if b then m else pure tt)
  if-IsSafe true m h = h
  if-IsSafe false m h = Later-refl system

  keep_object-IsSafe :
      (entry : EntryRow) (path : Text) → IsSafe system (keep_object system entry path)
  unfolding keep_object
  keep_object-IsSafe entry path =
      let step = rename_tree_entry system entry.path path in
      >>=-IsSafe system (if not (entry.path == path) then step else pure tt)
        (λ _. pure entry.object_id)
        (if-IsSafe (not (entry.path == path)) step (rename_tree_entry-IsSafe entry.path path))
        (λ _. Later-refl system)

  retire-IsSafe :
      (existing : Option EntryRow) (path : Text) → IsSafe system (retire system existing path)
  unfolding retire
  retire-IsSafe none path = Later-refl system
  retire-IsSafe (some entry) path =
      let step = remove_tree_entry system entry.path in
      >>=-IsSafe system (if not (entry.path == path) then step else pure tt)
        (λ _. push_cleanup (remove_old_object entry.object_id))
        (if-IsSafe (not (entry.path == path)) step (remove_tree_entry-IsSafe system entry.path))
        (λ _ s. record {
          calls = omega arith;
          unwinds = λ n F w. w;
          harmless = snoc-IsHarmless (remove_old_object entry.object_id) s s tt refl;
          rows = refl;
        })

  store_object-IsSafe :
      (existing : Option EntryRow) (path : Text) (data_ : List ℕ)
      → IsSafe system (store_object system existing path data_)
  unfolding store_object
  store_object-IsSafe existing path data_ s =
      let object_id = system.uuid s.calls in
      let rest = λ (_ : Unit {0}). replace_tree_entry system path (object object_id) >>= λ _.
      retire system existing path >>= λ _. pure object_id in
      let drawn : Later system s (tick s) = IsQuiet-Later system s (tick s) (record {
        calls = omega arith;
        stack = refl;
        cleanups = refl;
        rows = refl;
        files = λ l old. refl;
      }) in
      Later-trans system s (tick s) _ drawn (
        >>=-IsSafe system (write_object system object_id data_) rest
          (write_object-IsSafe system object_id data_)
          (λ _.
            >>=-IsSafe system (replace_tree_entry system path (object object_id))
              (λ _. retire system existing path >>= λ _. pure object_id)
              (replace_tree_entry-IsSafe system path (object object_id))
              (λ _.
                >>=-IsSafe system (retire system existing path) (λ _. pure object_id)
                  (retire-IsSafe existing path) (λ _. Later-refl system)))
          (tick s))

  place_object-IsSafe :
      (existing : Option EntryRow) (path content_hash : Text) (data_ : List ℕ)
      → IsSafe system (place_object system existing path content_hash data_)
  unfolding place_object
  place_object-IsSafe none path content_hash data_ = store_object-IsSafe none path data_
  place_object-IsSafe (some entry) path content_hash data_ =
      elim (entry.content_hash == content_hash)
        as (λ b. IsSafe system (
          if b
          then keep_object system entry path
          else store_object system (some entry) path data_)) [
            | true ↦ keep_object-IsSafe entry path
            | false ↦ store_object-IsSafe (some entry) path data_
          ]

  save_entry-IsSafe :
      (writer : Text) (o : PutOperation) (path text : Text) (data_ : List ℕ) (time : Time)
      (existing : Option EntryRow) (object_id : Text)
      → IsSafe system (save_entry system writer o path text data_ time existing object_id)
  unfolding save_entry
  save_entry-IsSafe writer o path text data_ time existing object_id =
      update_entries-IsSafe system _

  pub write_entry-IsSafe :
      (writer : Text) (o : PutOperation) (path text : Text) (data_ : List ℕ)
      → IsSafe system (write_entry system writer o path text data_)
  unfolding write_entry entry_by_source_key
  write_entry-IsSafe writer o path text data_ s =
      let existing = find (is_source writer o.source_key) s.entries in
      let time = system.clock s.calls in
      Later-trans system s (tick s) _ (now-IsSafe system s) (
        >>=-IsSafe system (place_object system existing path (hash_of system data_) data_)
          (λ object_id. save_entry system writer o path text data_ time existing object_id)
          (place_object-IsSafe existing path (hash_of system data_) data_)
          (λ object_id. save_entry-IsSafe writer o path text data_ time existing object_id)
          (tick s))

  apply_put-IsSafe :
      (user writer : Text) (o : PutOperation) → IsSafe system (apply_put system user writer o)
  unfolding apply_put
  apply_put-IsSafe user writer o s =
      let run = apply_put system user writer o s in
      let stays : run.1 ≡ s → Later system s run.1 =
        λ h. subst (Later system s) (sym h) (Later-refl system s) in
      elim (Result-cases (normalize_path o.path)) [
        | inr (_, e) ↦ stays (ground (arith, e))
        | inl (path, e) ↦
            elim (Result-cases (require_authorized_path s.prefixes user writer path)) [
              | inr (_, f) ↦ stays (ground (arith, e, f))
              | inl (_, f) ↦ elim (Result-cases (normalize_text o.text)) [
                | inr (_, g) ↦ stays (ground (arith, e, f, g))
                | inl (text, g) ↦ elim (Result-cases (encode text)) [
                  | inr (_, h) ↦ stays (ground (arith, e, f, g, h))
                  | inl (data_, h) ↦
                      let writes : run ≡ write_entry system writer o path text data_ s =
                        ground (arith, e, f, g, h) in
                      subst (λ x. Later system s x.1) (sym writes)
                        (write_entry-IsSafe writer o path text data_ s)
                ]
              ]
            ]
      ]

  delete_existing-IsSafe :
      (user writer source_key : Text) (existing : Option EntryRow)
      → IsSafe system (delete_existing system user writer source_key existing)
  unfolding delete_existing
  delete_existing-IsSafe user writer source_key none = Later-refl system
  delete_existing-IsSafe user writer source_key (some entry) = λ s.
      >>=-IsSafe system (lift (require_authorized_path s.prefixes user writer entry.path))
        (λ _. remove_tree_entry system entry.path >>= λ _. delete_entry writer source_key)
        (Later-refl system)
        (λ _.
          >>=-IsSafe system (remove_tree_entry system entry.path)
            (λ _. delete_entry writer source_key) (remove_tree_entry-IsSafe system entry.path)
            (λ _ t. IsQuiet-Later system t (delete_entry writer source_key t).1 (record {
              calls = omega arith;
              stack = refl;
              cleanups = refl;
              rows = refl;
              files = λ l old. refl;
            })))
        s

  apply_delete-IsSafe :
      (user writer : Text) (o : DeleteOperation) → IsSafe system (apply_delete system user writer o)
  unfolding apply_delete entry_by_source_key
  apply_delete-IsSafe user writer o s =
      delete_existing-IsSafe user writer o.source_key
        (find (is_source writer o.source_key) s.entries) s

  record_decision-IsSafe :
      (writer : Text) (o : DecisionOperation) (path : Option Text)
      → IsSafe system (record_decision system writer o path)
  unfolding record_decision
  record_decision-IsSafe writer o path s = IsQuiet-Later system s _ (record {
    calls = omega arith;
    stack = refl;
    cleanups = refl;
    rows = refl;
    files = λ l old. refl;
  })

  require_decision_path-IsSafe :
      (user writer : Text) (path : Option Text)
      → IsSafe system (require_decision_path user writer path)
  unfolding require_decision_path
  require_decision_path-IsSafe user writer none = Later-refl system
  require_decision_path-IsSafe user writer (some path) = Later-refl system

  apply_decision-IsSafe :
      (user writer : Text) (o : DecisionOperation)
      → IsSafe system (apply_decision system user writer o)
  unfolding apply_decision
  apply_decision-IsSafe user writer o =
      >>=-IsSafe system (lift (normalize_optional o.path))
        (λ path.
          require_decision_path user writer path >>= λ _. record_decision system writer o path)
        (Later-refl system)
        (λ path.
          >>=-IsSafe system (require_decision_path user writer path)
            (λ _. record_decision system writer o path)
            (require_decision_path-IsSafe user writer path)
            (λ _. record_decision-IsSafe writer o path))

  -- A batch, one more operation, and the rest.
  batch-IsSafe :
      (user writer : Text) (moves : List MoveOperation) (m rest : Action (Unit {0}))
      → IsSafe system m
      → IsSafe system rest
      → IsSafe system (move_batch system user writer moves >>= λ _. m >>= λ _. rest)
  batch-IsSafe user writer moves m rest h k =
      >>=-IsSafe system (move_batch system user writer moves) (λ _. m >>= λ _. rest)
        (move_batch-IsSafe system user writer moves)
        (λ _. >>=-IsSafe system m (λ _. rest) h (λ _. k))

  pub apply_operations-IsSafe :
      (user writer : Text) (moves : List MoveOperation) (operations : List Operation)
      → IsSafe system (apply_operations system user writer moves operations)
  unfolding apply_operations
  apply_operations-IsSafe user writer moves [] = move_batch-IsSafe system user writer moves
  apply_operations-IsSafe user writer moves (move o ∷ operations) =
      apply_operations-IsSafe user writer (moves ++ o ∷ []) operations
  apply_operations-IsSafe user writer moves (put o ∷ operations) =
      batch-IsSafe user writer moves (apply_put system user writer o)
        (apply_operations system user writer [] operations) (apply_put-IsSafe user writer o)
        (apply_operations-IsSafe user writer [] operations)
  apply_operations-IsSafe user writer moves (delete o ∷ operations) =
      batch-IsSafe user writer moves (apply_delete system user writer o)
        (apply_operations system user writer [] operations) (apply_delete-IsSafe user writer o)
        (apply_operations-IsSafe user writer [] operations)
  apply_operations-IsSafe user writer moves (decision o ∷ operations) =
      batch-IsSafe user writer moves (apply_decision system user writer o)
        (apply_operations system user writer [] operations) (apply_decision-IsSafe user writer o)
        (apply_operations-IsSafe user writer [] operations)
