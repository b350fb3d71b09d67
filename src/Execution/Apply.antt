-- ===== src/Execution/Apply.antt =====
-- src/ctxfs/store.py: `_put`, `_delete`, `_decision`, and `submit` with its transaction.
use ctxd.Prelude.{
  ℕ, Bool, not, ◌&&◌, List, [], ◌∷◌, ◌++◌, Option, none, some, ◌==◌, nat_eq, list_eq, pair_eq,
  option_eq, if◌then◌else◌, Text, Result, ok, err, Error, or_raise, key_error, integrity_error, any,
  filter, find, length, update_rows, Time,
}
use ctxd.Paths.{normalize_path}
use ctxd.Ownership.{require_authorized_path}
use ctxd.Submissions.Operations.{
  Operation, PutOperation, MoveOperation, DeleteOperation, DecisionOperation, put, move, delete,
  decision, ordered_operations, reject_duplicate_move_sources,
}
use ctxd.Submissions.Preflight.{EntryRow, source_path_maps, preflight_submission}
use ctxd.Execution.{
  System, object, Files, set_file, remove_object, remove_old_object, DecisionRow, SubmissionRow,
  SubmissionState, queued, applied, failed, Action, pure, raise, gets, lift, try_except, ◌>>=◌,
  ◌>>◌, modify, draw, now, call,
}
use ctxd.Execution.Files.{
  mkdir, push_undo, push_cleanup, replace_tree_entry, rename_tree_entry, remove_tree_entry,
  rollback_filesystem, cleanup_filesystem,
}
use ctxd.Execution.Content.{normalize_text, encode, hash_of, line_count}
use ctxd.Execution.Moves.{is_source, entry_by_source_key, update_path, update_entries, move_batch}

-- INSERT INTO entries ... ON CONFLICT(user_id, writer_id, source_key) DO UPDATE SET ..., which keeps
-- created_at, under PRIMARY KEY(user_id, path)
unfoldable pub upsert_entry : EntryRow → List EntryRow → Result (List EntryRow)
unfolding update_path
upsert_entry row rows =
    let same = is_source row.writer_id row.source_key in
    if any same rows
    then update_path same row.path (λ old. record row { created_at = old.created_at }) rows
    else if any (λ r. r.path == row.path) rows
    then err integrity_error
    else ok (rows ++ row ∷ [])

-- WHERE user_id = ? AND writer_id = ? AND source_key = ?
abbrev pub is_decided : Text → Text → DecisionRow → Bool
is_decided writer_id source_key row = row.writer_id == writer_id && row.source_key == source_key

-- INSERT INTO decisions ... ON CONFLICT(user_id, writer_id, source_key) DO UPDATE SET ...
unfoldable pub upsert_decision : DecisionRow → List DecisionRow → List DecisionRow
upsert_decision row rows =
    let same = is_decided row.writer_id row.source_key in
    if any same rows
    then update_rows same (λ old. record row { created_at = old.created_at }) rows
    else rows ++ row ∷ []

-- existing.created_at if existing is not None else now
abbrev first_created : Option EntryRow → Time → Time
first_created none time = time
first_created (some entry) time = entry.created_at

abbrev decided_at : Option DecisionRow → Time → Time
decided_at none time = time
decided_at (some row) time = row.created_at

abbrev pub normalize_optional : Option Text → Result (Option Text)
normalize_optional none = ok none
normalize_optional (some path) =
    if path == []
    then ok none
    else elim (normalize_path path) [ ok p ↦ ok (some p) | err e ↦ err e ]

-- object_path.write_bytes(data), at a new path: the new file's inode is numbered by the call.
abbrev pub write_bytes : Text → ℕ → List ℕ → Files → Result Files
write_bytes object_id inode data_ files =
    ok (set_file (object object_id) (some (inode, data_)) files)

-- DELETE FROM entries WHERE user_id = ? AND writer_id = ? AND source_key = ?
abbrev pub delete_entry : Text → Text → Action (Unit {0})
delete_entry writer_id source_key =
    modify (λ s. record s {
      entries = filter (λ row. not (is_source writer_id source_key row)) s.entries;
    })

-- The path of a decision may be missing.
unfoldable pub require_decision_path : Text → Text → Option Text → Action (Unit {0})
require_decision_path user_id writer_id none = pure tt
require_decision_path user_id writer_id (some path) = do
  prefixes ← gets (λ s. s.prefixes)
  lift (require_authorized_path prefixes user_id writer_id path)

-- `with self.connection`: a raise takes the tables back.
unfoldable pub transaction : Action (Unit {0}) → Action (Unit {0})
transaction body s =
    let (r, s') = body s in
    elim r [
      | ok _ ↦ (ok tt, s')
      | err e ↦ (
        err e,
        record s' { entries = s.entries; decisions = s.decisions; submissions = s.submissions },
      )
    ]

-- raise rollback_exc from exc, or raise
abbrev pub reraise : Option Error → Error → Action (Unit {0})
reraise none e = raise e
reraise (some rollback_exc) e = raise rollback_exc

unfoldable pub submission : Text → Action SubmissionRow
submission submission_id = do
  row ← gets (λ s. find (λ row. row.submission_id == submission_id) s.submissions)
  lift (or_raise row key_error)

-- undo_stack and cleanup_stack are new lists.
abbrev pub new_stacks : Action (Unit {0})
new_stacks = modify (λ s. record s { undo_stack = []; cleanup_stack = [] })

module _ (system : System) where
  -- The content is known: its object stays, and the file is renamed.
  unfoldable pub keep_object : EntryRow → Text → Action Text
  unfolding rename_tree_entry
  keep_object entry path = do
    if not (entry.path == path) then rename_tree_entry system entry.path path else pure tt
    pure entry.object_id

  -- The old file of an entry whose content changes
  unfoldable pub retire : Option EntryRow → Text → Action (Unit {0})
  unfolding remove_tree_entry
  retire none path = pure tt
  retire (some entry) path = do
    if not (entry.path == path) then remove_tree_entry system entry.path else pure tt
    push_cleanup (remove_old_object entry.object_id)

  unfoldable pub write_object : Text → List ℕ → Action (Unit {0})
  write_object object_id data_ = do
    mkdir system
    inode ← gets (λ s. s.calls)
    call system (write_bytes object_id inode data_)
    push_undo (remove_object object_id)

  unfoldable pub store_object : Option EntryRow → Text → List ℕ → Action Text
  unfolding write_object replace_tree_entry retire
  store_object existing path data_ = do
    n ← draw
    let object_id = system.uuid n
    write_object object_id data_
    replace_tree_entry system path (object object_id)
    retire existing path
    pure object_id

  unfoldable pub place_object : Option EntryRow → Text → Text → List ℕ → Action Text
  unfolding keep_object store_object
  place_object none path content_hash data_ = store_object none path data_
  place_object (some entry) path content_hash data_ =
      if entry.content_hash == content_hash
      then keep_object entry path
      else store_object (some entry) path data_

  -- The upsert at the end of `_put`.
  unfoldable pub save_entry :
      Text → PutOperation → Text → Text → List ℕ → Time → Option EntryRow → Text → Action (Unit {0})
  unfolding update_entries upsert_entry
  save_entry writer_id o path text data_ time existing object_id = update_entries (
      upsert_entry (record {
        writer_id = writer_id;
        path = path;
        source_key = o.source_key;
        source_version = o.source_version;
        doc_class = o.doc_class;
        file_format = o.file_format;
        content_hash = hash_of system data_;
        size_bytes = length data_;
        line_count = line_count text;
        object_id = object_id;
        provenance = o.provenance;
        created_at = first_created existing time;
        updated_at = time;
      }))

  -- `_put` after its checks
  unfoldable pub write_entry : Text → PutOperation → Text → Text → List ℕ → Action (Unit {0})
  unfolding entry_by_source_key place_object save_entry
  write_entry writer_id o path text data_ = do
    time ← now system
    existing ← entry_by_source_key writer_id o.source_key
    object_id ← place_object existing path (hash_of system data_) data_
    save_entry writer_id o path text data_ time existing object_id

  unfoldable pub apply_put : Text → Text → PutOperation → Action (Unit {0})
  unfolding write_entry
  apply_put user_id writer_id o = do
    path ← lift (normalize_path o.path)
    prefixes ← gets (λ s. s.prefixes)
    lift (require_authorized_path prefixes user_id writer_id path)
    text ← lift (normalize_text o.text)
    data_ ← lift (encode text)
    write_entry writer_id o path text data_

  -- `_delete` once the entry is looked up
  unfoldable pub delete_existing : Text → Text → Text → Option EntryRow → Action (Unit {0})
  unfolding remove_tree_entry
  delete_existing user_id writer_id source_key none = pure tt
  delete_existing user_id writer_id source_key (some entry) = do
    prefixes ← gets (λ s. s.prefixes)
    lift (require_authorized_path prefixes user_id writer_id entry.path)
    remove_tree_entry system entry.path
    delete_entry writer_id source_key

  unfoldable pub apply_delete : Text → Text → DeleteOperation → Action (Unit {0})
  unfolding entry_by_source_key delete_existing
  apply_delete user_id writer_id o =
      entry_by_source_key writer_id o.source_key >>= delete_existing user_id writer_id o.source_key

  -- `_decision` after its checks
  unfoldable pub record_decision : Text → DecisionOperation → Option Text → Action (Unit {0})
  unfolding upsert_decision
  record_decision writer_id o path = do
    time ← now system
    existing ← gets (λ s. find (is_decided writer_id o.source_key) s.decisions)
    modify (λ s. record s {
      decisions =
          upsert_decision
            (record {
              writer_id = writer_id;
              source_key = o.source_key;
              source_version = o.source_version;
              path = path;
              state = o.state;
              failure_code = o.failure_code;
              failure_message = o.failure_message;
              retry_after_seconds = o.retry_after_seconds;
              created_at = decided_at existing time;
              updated_at = time;
            })
            s.decisions;
    })

  unfoldable pub apply_decision : Text → Text → DecisionOperation → Action (Unit {0})
  unfolding require_decision_path record_decision
  apply_decision user_id writer_id o = do
    path ← lift (normalize_optional o.path)
    require_decision_path user_id writer_id path
    record_decision writer_id o path

  -- `moves` are the moves read so far, the last one first: a run of moves is one batch.
  unfoldable pub apply_operations :
      Text → Text → List MoveOperation → List Operation → Action (Unit {0})
  unfolding apply_put apply_delete apply_decision move_batch
  apply_operations user_id writer_id moves [] = move_batch system user_id writer_id moves
  apply_operations user_id writer_id moves (move o ∷ operations) =
      apply_operations user_id writer_id (moves ++ o ∷ []) operations
  apply_operations user_id writer_id moves (put o ∷ operations) = do
    move_batch system user_id writer_id moves
    apply_put user_id writer_id o
    apply_operations user_id writer_id [] operations
  apply_operations user_id writer_id moves (delete o ∷ operations) = do
    move_batch system user_id writer_id moves
    apply_delete user_id writer_id o
    apply_operations user_id writer_id [] operations
  apply_operations user_id writer_id moves (decision o ∷ operations) = do
    move_batch system user_id writer_id moves
    apply_decision user_id writer_id o
    apply_operations user_id writer_id [] operations

  -- UPDATE submissions SET state = ?, error = ?, updated_at = ? WHERE submission_id = ?
  unfoldable pub set_state : Text → SubmissionState → Option Error → Action (Unit {0})
  set_state submission_id state error = do
    time ← now system
    modify (λ s. record s {
      submissions =
          update_rows (λ row. row.submission_id == submission_id)
            (λ row. record row { state = state; error = error; updated_at = time }) s.submissions;
    })

  -- The body of `try` in `submit`.
  unfoldable pub try_submission : Text → Text → Text → List Operation → Action (Unit {0})
  unfolding transaction apply_operations set_state
  try_submission submission_id user_id writer_id operations = do
    lift (reject_duplicate_move_sources writer_id operations)
    entries ← gets (λ s. s.entries)
    ordered ←
        lift (ordered_operations writer_id (source_path_maps entries).paths_by_source operations)
    prefixes ← gets (λ s. s.prefixes)
    _ ← lift (preflight_submission prefixes user_id writer_id entries ordered)
    transaction
        (apply_operations user_id writer_id [] ordered >> set_state submission_id applied none)

  abbrev pub cleanup : Action (Unit {0})
  cleanup s = cleanup_filesystem system s.cleanup_stack s

  -- The body of `except Exception as exc` in `submit`.
  unfoldable pub fail_submission : Text → Error → Action (Unit {0})
  unfolding rollback_filesystem set_state cleanup_filesystem
  fail_submission submission_id e = do
    rollback_exc ← λ s. rollback_filesystem system s.undo_stack s
    set_state submission_id failed (some e)
    cleanup
    reraise rollback_exc e

  -- INSERT INTO submissions
  unfoldable pub insert_submission : Text → Text → Text → List Operation → Action (Unit {0})
  insert_submission submission_id user_id writer_id operations = do
    time ← now system
    modify (λ s. record s {
      submissions =
          s.submissions
          ++ (record {
            submission_id = submission_id;
            user_id = user_id;
            writer_id = writer_id;
            state = queued;
            operation_count = length operations;
            error = none;
            created_at = time;
            updated_at = time;
          })
            ∷ [];
    })

  unfoldable pub submit : Text → Text → List Operation → Action SubmissionRow
  unfolding insert_submission try_submission fail_submission cleanup_filesystem submission
  submit user_id writer_id operations = do
    n ← draw
    let submission_id = system.uuid n
    insert_submission submission_id user_id writer_id operations
    new_stacks
    try_except (try_submission submission_id user_id writer_id operations)
        (fail_submission submission_id)
    cleanup
    submission submission_id
