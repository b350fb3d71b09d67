-- ===== src/Execution/Files.antt =====
-- src/ctxfs/store.py: the changes of the tree with their undo journal, `_rollback_filesystem` and
-- `_cleanup_filesystem`. `_remove_empty_parents` is left out, as empty directories are.
use ctxd.Prelude.{
  Bool, true, false, List, [], ◌∷◌, ◌++◌, Option, none, some, ◌==◌, nat_eq, list_eq, pair_eq,
  option_eq, if◌then◌else◌, Text, codes, Result, ok, err, Error, is_empty, file_not_found_error,
  file_exists_error, runtime_error,
}
use ctxd.Execution.{
  System, Location, tree, object, undo, location_eq, Files, set_file, Undo, remove_object,
  undo_replace, undo_rename, undo_remove, Cleanup, unlink_backup, remove_old_object, Action, pure,
  raise, gets, try_except, ◌>>=◌, ◌>>◌, modify, draw, call,
}

-- os.link(a, b)
unfoldable pub link : Location → Location → Files → Result Files
link a b files = elim (files a) [
  | none ↦ err file_not_found_error
  | some f ↦ elim (files b) [
    | none ↦ ok (set_file b (some f) files)
    | some _ ↦ err file_exists_error
  ]
]

-- os.replace(a, b), which does nothing where both are links of one file.
unfoldable pub replace : Location → Location → Files → Result Files
replace a b files = elim (files a) [
  | none ↦ err file_not_found_error
  | some f ↦
      if files b == some f then ok files else ok (set_file a none (set_file b (some f) files))
]

-- path.unlink()
unfoldable pub unlink : Location → Files → Result Files
unlink a files = elim (files a) [
  | none ↦ err file_not_found_error
  | some _ ↦ ok (set_file a none files)
]

-- path.exists()
abbrev pub has_value : {A : Type 0} → Option A → Bool
has_value none = false
has_value (some _) = true

abbrev pub exists : Location → Action Bool
exists l = gets (λ s. has_value (s.files l))

abbrev pub is_missing : Error → Bool
is_missing file_not_found_error = true
is_missing _ = false

abbrev pub push_undo : Undo → Action (Unit {0})
push_undo u = modify (λ s. record s { undo_stack = u ∷ s.undo_stack })

abbrev pub push_cleanup : Cleanup → Action (Unit {0})
push_cleanup c = modify (λ s. record s { cleanup_stack = s.cleanup_stack ++ c ∷ [] })

module _ (system : System) where
  -- path.mkdir(parents=True, exist_ok=True)
  abbrev pub mkdir : Action (Unit {0})
  mkdir = call system ok

  unfoldable pub unlink_if_exists : Option Location → Action (Unit {0})
  unlink_if_exists none = pure tt
  unlink_if_exists (some l) =
      try_except (call system (unlink l)) (λ e. if is_missing e then pure tt else raise e)

  unfoldable pub undo_path : Text → Action Location
  undo_path prefix = do mkdir; n ← draw; pure (undo prefix n)

  unfoldable pub backup_tree_entry : Location → Action (Option Location)
  unfolding undo_path
  backup_tree_entry target = do
    present ← exists target
    if present
        then (do
          backup ← undo_path (codes "backup")
          call system (link target backup)
          pure (some backup))
        else pure none

  unfoldable pub replace_tree_entry : Text → Location → Action (Unit {0})
  unfolding backup_tree_entry undo_path unlink_if_exists
  replace_tree_entry path object_path = do
    let target = tree path
    mkdir
    tmp ← undo_path (codes "replace")
    backup ← backup_tree_entry target
    try_except (call system (link object_path tmp) >> call system (replace tmp target))
        (λ e. unlink_if_exists (some tmp) >> unlink_if_exists backup >> raise e)
    push_undo (undo_replace target backup)
    push_cleanup (unlink_backup backup)

  unfoldable pub rename_tree_file : Location → Location → Action (Unit {0})
  unfolding backup_tree_entry unlink_if_exists
  rename_tree_file source target = do
    present ← exists source
    if present then pure tt else raise file_not_found_error
    mkdir
    backup ← backup_tree_entry target
    try_except (call system (replace source target)) (λ e. unlink_if_exists backup >> raise e)
    push_undo (undo_rename source target backup)
    push_cleanup (unlink_backup backup)

  unfoldable pub rename_tree_entry : Text → Text → Action (Unit {0})
  unfolding rename_tree_file
  rename_tree_entry old_path new_path = rename_tree_file (tree old_path) (tree new_path)

  -- The early return where the file was missing is the first branch.
  unfoldable pub remove_tree_entry : Text → Action (Unit {0})
  unfolding backup_tree_entry unlink_if_exists
  remove_tree_entry path = do
    let target = tree path
    backup ← backup_tree_entry target
    removed ←
        try_except (call system (unlink target) >> pure true)
          (λ e. if is_missing e then unlink_if_exists backup >> pure false else raise e)
    if removed
        then (do push_undo (undo_remove target backup); push_cleanup (unlink_backup backup))
        else pure tt

  unfoldable pub remove_object_entry : Text → Action (Unit {0})
  unfolding unlink_if_exists
  remove_object_entry object_id = unlink_if_exists (some (object object_id))

  unfoldable pub undo_replace_tree_entry : Location → Option Location → Action (Unit {0})
  unfolding unlink_if_exists
  undo_replace_tree_entry target none = unlink_if_exists (some target)
  undo_replace_tree_entry target (some backup) = mkdir >> call system (replace backup target)

  unfoldable pub restore_backup : Location → Option Location → Action (Unit {0})
  restore_backup target none = pure tt
  restore_backup target (some backup) = mkdir >> call system (replace backup target)

  unfoldable pub undo_rename_tree_entry : Location → Location → Option Location → Action (Unit {0})
  unfolding restore_backup
  undo_rename_tree_entry source target backup = do
    mkdir
    present ← exists target
    if present then call system (replace target source) else pure tt
    restore_backup target backup

  unfoldable pub undo_remove_tree_entry : Location → Option Location → Action (Unit {0})
  unfolding restore_backup
  undo_remove_tree_entry target backup = restore_backup target backup

  -- The call of a callback.
  unfoldable pub run_undo : Undo → Action (Unit {0})
  unfolding remove_object_entry undo_replace_tree_entry undo_rename_tree_entry
      undo_remove_tree_entry
  run_undo (remove_object object_id) = remove_object_entry object_id
  run_undo (undo_replace target backup) = undo_replace_tree_entry target backup
  run_undo (undo_rename source target backup) = undo_rename_tree_entry source target backup
  run_undo (undo_remove target backup) = undo_remove_tree_entry target backup

  -- The errors that the callbacks raise.
  unfoldable pub undo_errors : List Undo → Action (List Error)
  unfolding run_undo
  undo_errors [] = pure []
  undo_errors (u ∷ undos) = do
    errors ← try_except (run_undo u >> pure []) (λ e. pure (e ∷ []))
    more ← undo_errors undos
    pure (errors ++ more)

  unfoldable pub rollback_filesystem : List Undo → Action (Option Error)
  unfolding undo_errors
  rollback_filesystem undos = do
    errors ← undo_errors undos
    pure (if is_empty errors then none else some runtime_error)

  unfoldable pub run_cleanup : Cleanup → Action (Unit {0})
  unfolding unlink_if_exists remove_object_entry
  run_cleanup (unlink_backup backup) = unlink_if_exists backup
  run_cleanup (remove_old_object object_id) = remove_object_entry object_id

  unfoldable pub cleanup_filesystem : List Cleanup → Action (Unit {0})
  unfolding run_cleanup
  cleanup_filesystem [] = pure tt
  cleanup_filesystem (c ∷ cleanups) =
      try_except (run_cleanup c) (λ _. pure tt) >> cleanup_filesystem cleanups
