-- ===== src/Execution/Fuel/Documents.antt =====
-- `_put`, `_delete` and `_decision` of src/ctxfs/store.py: no fuel runs out.
use ctxd.Prelude.{
  refl, not, List, Option, none, some, ◌==◌, nat_eq, list_eq, pair_eq, option_eq, Text, ℕ, Time,
}
use ctxd.Prelude.Fuel.{ok-Fueled}
use ctxd.Submissions.Operations.{PutOperation, DeleteOperation, DecisionOperation}
use ctxd.Submissions.Preflight.{EntryRow}
use ctxd.Submissions.Fuel.{normalize_path-Fueled, require_authorized_path-Fueled}
use ctxd.Execution.{System, tree, object, State, remove_object, remove_old_object}
use ctxd.Execution.Files.{rename_tree_entry}
use ctxd.Execution.Content.{hash_of}
use ctxd.Execution.Apply.{
  write_bytes, require_decision_path, keep_object, retire, write_object, store_object, place_object,
  save_entry, write_entry, apply_put, delete_existing, apply_delete, record_decision,
  apply_decision,
}
use ctxd.Execution.Fuel.{
  IsFueled, >>=-IsFueled, >>-IsFueled, normalize_text-Fueled, encode-Fueled,
  normalize_optional-Fueled, upsert_entry-Fueled, update_entries-IsFueled, skip-IsFueled,
  push_undo-IsFueled, push_cleanup-IsFueled, draw-IsFueled, entry-IsFueled, delete_entry-IsFueled,
  authorized-IsFueled, lift-IsFueled, calm-IsFueled, pure-IsFueled, gets-IsFueled, if-IsFueled,
}
use ctxd.Execution.Fuel.Changes.{
  now-IsFueled, call-IsFueled, mkdir-IsFueled, replace_tree_entry-IsFueled,
  rename_tree_file-IsFueled, remove_tree_entry-IsFueled,
}

module _ (system : System) where
  keep_object-IsFueled : (entry : EntryRow) (path : Text) → IsFueled (keep_object system entry path)
  unfolding keep_object rename_tree_entry
  keep_object-IsFueled entry path =
      >>-IsFueled
        (if-IsFueled (not (entry.path == path))
          (rename_tree_file-IsFueled system (tree entry.path) (tree path)) skip-IsFueled)
        (pure-IsFueled {a = entry.object_id})

  retire-IsFueled :
      (existing : Option EntryRow) (path : Text) → IsFueled (retire system existing path)
  unfolding retire
  retire-IsFueled none path = skip-IsFueled
  retire-IsFueled (some entry) path =
      >>-IsFueled
        (if-IsFueled (not (entry.path == path)) (remove_tree_entry-IsFueled system entry.path)
          skip-IsFueled)
        (push_cleanup-IsFueled (remove_old_object entry.object_id))

  write_object-IsFueled :
      (object_id : Text) (data_ : List ℕ) → IsFueled (write_object system object_id data_)
  unfolding write_object
  write_object-IsFueled object_id data_ = >>-IsFueled (mkdir-IsFueled system) (
      >>=-IsFueled (gets-IsFueled {f = λ (s : State). s.calls}) (λ inode.
        >>-IsFueled (call-IsFueled system (write_bytes object_id inode data_) (λ files. ok-Fueled))
          (push_undo-IsFueled (remove_object object_id))))

  store_object-IsFueled :
      (existing : Option EntryRow) (path : Text) (data_ : List ℕ)
      → IsFueled (store_object system existing path data_)
  unfolding store_object
  store_object-IsFueled existing path data_ = >>=-IsFueled draw-IsFueled (λ n.
      >>-IsFueled (write_object-IsFueled (system.uuid n) data_) (
        >>-IsFueled (replace_tree_entry-IsFueled system path (object (system.uuid n)))
          (>>-IsFueled (retire-IsFueled existing path) (pure-IsFueled {a = system.uuid n}))))

  place_object-IsFueled :
      (existing : Option EntryRow) (path hash : Text) (data_ : List ℕ)
      → IsFueled (place_object system existing path hash data_)
  unfolding place_object
  place_object-IsFueled none path hash data_ = store_object-IsFueled none path data_
  place_object-IsFueled (some entry) path hash data_ =
      if-IsFueled (entry.content_hash == hash) (keep_object-IsFueled entry path)
        (store_object-IsFueled (some entry) path data_)

  save_entry-IsFueled :
      (writer : Text) (o : PutOperation) (path text : Text) (data_ : List ℕ) (time : Time)
      (existing : Option EntryRow) (object_id : Text)
      → IsFueled (save_entry system writer o path text data_ time existing object_id)
  unfolding save_entry
  save_entry-IsFueled writer o path text data_ time existing object_id =
      update_entries-IsFueled _ (λ rows. upsert_entry-Fueled _ rows)

  write_entry-IsFueled :
      (writer : Text) (o : PutOperation) (path text : Text) (data_ : List ℕ)
      → IsFueled (write_entry system writer o path text data_)
  unfolding write_entry
  write_entry-IsFueled writer o path text data_ = >>=-IsFueled (now-IsFueled system) (λ time.
      >>=-IsFueled (entry-IsFueled writer o.source_key) (λ existing.
        >>=-IsFueled (place_object-IsFueled existing path (hash_of system data_) data_)
          (λ object_id. save_entry-IsFueled writer o path text data_ time existing object_id)))

  pub apply_put-IsFueled :
      (user writer : Text) (o : PutOperation) → IsFueled (apply_put system user writer o)
  unfolding apply_put
  apply_put-IsFueled user writer o =
      >>=-IsFueled (lift-IsFueled (normalize_path-Fueled o.path)) (λ path.
        authorized-IsFueled user writer path _ (
          >>=-IsFueled (lift-IsFueled (normalize_text-Fueled o.text)) (λ text.
            >>=-IsFueled (lift-IsFueled (encode-Fueled text))
              (λ data_. write_entry-IsFueled writer o path text data_))))

  delete_existing-IsFueled :
      (user writer key : Text) (existing : Option EntryRow)
      → IsFueled (delete_existing system user writer key existing)
  unfolding delete_existing
  delete_existing-IsFueled user writer key none = skip-IsFueled
  delete_existing-IsFueled user writer key (some entry) =
      authorized-IsFueled user writer entry.path _ (
        >>-IsFueled (remove_tree_entry-IsFueled system entry.path)
          (delete_entry-IsFueled writer key))

  pub apply_delete-IsFueled :
      (user writer : Text) (o : DeleteOperation) → IsFueled (apply_delete system user writer o)
  unfolding apply_delete
  apply_delete-IsFueled user writer o =
      >>=-IsFueled (entry-IsFueled writer o.source_key)
        (λ existing. delete_existing-IsFueled user writer o.source_key existing)

  record_decision-IsFueled :
      (writer : Text) (o : DecisionOperation) (path : Option Text)
      → IsFueled (record_decision system writer o path)
  unfolding record_decision
  record_decision-IsFueled writer o path = calm-IsFueled (λ s. (tt, refl))

  decision_path-IsFueled :
      (user writer : Text) (path : Option Text) → IsFueled (require_decision_path user writer path)
  unfolding require_decision_path
  decision_path-IsFueled user writer none = skip-IsFueled
  decision_path-IsFueled user writer (some path) = record {
    at = λ s. require_authorized_path-Fueled s.prefixes user writer path;
  }

  pub apply_decision-IsFueled :
      (user writer : Text) (o : DecisionOperation) → IsFueled (apply_decision system user writer o)
  unfolding apply_decision
  apply_decision-IsFueled user writer o =
      >>=-IsFueled (lift-IsFueled (normalize_optional-Fueled o.path)) (λ path.
        >>-IsFueled (decision_path-IsFueled user writer path)
          (record_decision-IsFueled writer o path))
