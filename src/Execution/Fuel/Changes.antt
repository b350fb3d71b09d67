-- ===== src/Execution/Fuel/Changes.antt =====
-- The changes of the tree in src/ctxfs/store.py: no fuel runs out.
use ctxd.Prelude.{
  codes, refl, true, false, Option, none, some, inl, inr, nat_eq, list_eq, pair_eq, option_eq, Text,
  Result, ok, Result-cases, arith,
}
use ctxd.Prelude.Fuel.{Fueled, ok-Fueled}
use ctxd.Execution.{
  System, Location, tree, Files, ◌>>◌, now, call, undo, Undo, Cleanup, undo_replace, undo_rename,
  undo_remove, unlink_backup,
}
use ctxd.Execution.Files.{
  link, replace, unlink, is_missing, push_undo, push_cleanup, mkdir, unlink_if_exists, undo_path,
  backup_tree_entry, replace_tree_entry, rename_tree_file, remove_tree_entry,
}
use ctxd.Execution.Fuel.{
  IsFueled, missing-IsReal, >>=-IsFueled, >>-IsFueled, skip-IsFueled, exists-IsFueled,
  push_undo-IsFueled, push_cleanup-IsFueled, draw-IsFueled, raise-IsFueled, calm-IsFueled,
  pure-IsFueled, if-IsFueled, try_except-IsFueled,
}

module _ (system : System) where
  pub now-IsFueled : IsFueled (now system)
  now-IsFueled = calm-IsFueled (λ s. (system.clock s.calls, refl))

  pub call-IsFueled :
      (operation : Files → Result Files)
      → ((files : Files) → Fueled (operation files))
      → IsFueled (call system operation)
  unfolding call
  call-IsFueled operation h = record {
    at = λ s. elim (Result-cases (operation s.files)) [
      | inl (files, e) ↦ record { real = λ g. ground (arith, e, g) }
      | inr (x, e) ↦ record { real = λ g. ground (arith, e, g, (h s.files).real) }
    ];
  }

  link-IsFueled : (a b : Location) → IsFueled (call system (link a b))
  unfolding link
  link-IsFueled a b = call-IsFueled (link a b) (λ files. record { real = λ h. ground (arith, h) })

  replace-IsFueled : (a b : Location) → IsFueled (call system (replace a b))
  unfolding replace
  replace-IsFueled a b =
      call-IsFueled (replace a b) (λ files. record { real = λ h. ground (arith, h) })

  unlink-IsFueled : (a : Location) → IsFueled (call system (unlink a))
  unfolding unlink
  unlink-IsFueled a = call-IsFueled (unlink a) (λ files. record { real = λ h. ground (arith, h) })

  pub mkdir-IsFueled : IsFueled (mkdir system)
  mkdir-IsFueled = call-IsFueled ok (λ files. ok-Fueled)

  unlink_if_exists-IsFueled : (l : Option Location) → IsFueled (unlink_if_exists system l)
  unfolding unlink_if_exists
  unlink_if_exists-IsFueled none = skip-IsFueled
  unlink_if_exists-IsFueled (some l) =
      try_except-IsFueled (unlink-IsFueled l)
        (λ e n. if-IsFueled (is_missing e) skip-IsFueled (raise-IsFueled n))

  pub undo_path-IsFueled : (prefix : Text) → IsFueled (undo_path system prefix)
  unfolding undo_path
  undo_path-IsFueled prefix =
      >>-IsFueled mkdir-IsFueled
        (>>=-IsFueled draw-IsFueled (λ n. pure-IsFueled {a = undo prefix n}))

  backup-IsFueled : (target : Location) → IsFueled (backup_tree_entry system target)
  unfolding backup_tree_entry
  backup-IsFueled target = >>=-IsFueled (exists-IsFueled target) (λ present.
      if-IsFueled present
        (>>=-IsFueled (undo_path-IsFueled (codes "backup"))
          (λ backup. >>-IsFueled (link-IsFueled target backup) (pure-IsFueled {a = some backup})))
        (pure-IsFueled {a = none}))

  -- The last two steps of a change of the tree
  journal-IsFueled : (u : Undo) (c : Cleanup) → IsFueled (push_undo u >> push_cleanup c)
  journal-IsFueled u c = >>-IsFueled (push_undo-IsFueled u) (push_cleanup-IsFueled c)

  pub replace_tree_entry-IsFueled :
      (path : Text) (source : Location) → IsFueled (replace_tree_entry system path source)
  unfolding replace_tree_entry
  replace_tree_entry-IsFueled path source = >>-IsFueled mkdir-IsFueled (
      >>=-IsFueled (undo_path-IsFueled (codes "replace")) (λ tmp.
        >>=-IsFueled (backup-IsFueled (tree path)) (λ backup.
          >>-IsFueled
            (try_except-IsFueled
              (>>-IsFueled (link-IsFueled source tmp) (replace-IsFueled tmp (tree path)))
              (λ e n.
                >>-IsFueled
                  (>>-IsFueled (unlink_if_exists-IsFueled (some tmp))
                    (unlink_if_exists-IsFueled backup))
                  (raise-IsFueled n)))
            (journal-IsFueled (undo_replace (tree path) backup) (unlink_backup backup)))))

  pub rename_tree_file-IsFueled :
      (source target : Location) → IsFueled (rename_tree_file system source target)
  unfolding rename_tree_file
  rename_tree_file-IsFueled source target = >>=-IsFueled (exists-IsFueled source) (λ present.
      >>-IsFueled (if-IsFueled present skip-IsFueled (raise-IsFueled missing-IsReal)) (
        >>-IsFueled mkdir-IsFueled (
          >>=-IsFueled (backup-IsFueled target) (λ backup.
            >>-IsFueled
              (try_except-IsFueled (replace-IsFueled source target)
                (λ e n. >>-IsFueled (unlink_if_exists-IsFueled backup) (raise-IsFueled n)))
              (journal-IsFueled (undo_rename source target backup) (unlink_backup backup))))))

  pub remove_tree_entry-IsFueled : (path : Text) → IsFueled (remove_tree_entry system path)
  unfolding remove_tree_entry
  remove_tree_entry-IsFueled path = >>=-IsFueled (backup-IsFueled (tree path)) (λ backup.
      >>=-IsFueled
        (try_except-IsFueled (>>-IsFueled (unlink-IsFueled (tree path)) (pure-IsFueled {a = true}))
          (λ e n.
            if-IsFueled (is_missing e)
              (>>-IsFueled (unlink_if_exists-IsFueled backup) (pure-IsFueled {a = false}))
              (raise-IsFueled n)))
        (λ removed.
          if-IsFueled removed
            (journal-IsFueled (undo_remove (tree path) backup) (unlink_backup backup))
            skip-IsFueled))
