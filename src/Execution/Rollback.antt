-- ===== src/Execution/Rollback.antt =====
-- `_rollback_filesystem` and `_cleanup_filesystem` of src/ctxfs/store.py: what they leave alone.
use ctxd.Prelude.{
  ◌≡◌, ◌≢◌, inl, inr, refl, sym, ◌∙◌, subst, Bool, true, false, List, [], ◌∷◌, ◌++◌, Option, none,
  some, if◌then◌else◌, Text, Result, ok, Error, Result-cases, Bool-cases, arith, All,
}
use ctxd.Execution.{
  System, Location, tree, object, Files, Undo, Cleanup, unlink_backup, remove_old_object,
  remove_object, undo_replace, undo_rename, undo_remove, State, Action, tick, call, pure, raise,
  ◌>>=◌, try_except,
}
use ctxd.Execution.Files.{
  unlink, replace, mkdir, exists, is_missing, unlink_if_exists, remove_object_entry, restore_backup,
  undo_replace_tree_entry, undo_rename_tree_entry, undo_remove_tree_entry, run_undo, undo_errors,
  run_cleanup, cleanup_filesystem,
}
use ctxd.Execution.Journal.{moved, call-Called, unlink-gone}
use ctxd.Execution.Unwinding.{IsHarmless, >>=-ends, try_except-ends}

-- Only files, and the stack of the callbacks that ran, may have changed.
pub record OnlyFiles (s s' : State) : Type 0 where
  pub entries : s'.entries ≡ s.entries
  pub decisions : s'.decisions ≡ s.decisions
  pub submissions : s'.submissions ≡ s.submissions
  pub cleanups : s'.cleanup_stack ≡ s.cleanup_stack

pub OnlyFiles-refl : (s : State) → OnlyFiles s s
OnlyFiles-refl s = record { entries = refl; decisions = refl; submissions = refl; cleanups = refl }

OnlyFiles-trans : (s t u : State) → OnlyFiles s t → OnlyFiles t u → OnlyFiles s u
OnlyFiles-trans s t u f g = record {
  entries = g.entries ∙ f.entries;
  decisions = g.decisions ∙ f.decisions;
  submissions = g.submissions ∙ f.submissions;
  cleanups = g.cleanups ∙ f.cleanups;
}

abbrev IsFileAction : {A : Type 0} → Action A → Type 0
IsFileAction m = (s : State) → OnlyFiles s (m s).1

>>=-IsFileAction :
    {A B : Type 0} (m : Action A) (f : A → Action B)
    → IsFileAction m
    → ((a : A) → IsFileAction (f a))
    → IsFileAction (m >>= f)
>>=-IsFileAction m f h k s =
    >>=-ends (OnlyFiles s) m f s (h s)
      (λ a. OnlyFiles-trans s (m s).1 (f a (m s).1).1 (h s) (k a (m s).1))

try_except-IsFileAction :
    {A : Type 0} (m : Action A) (handler : Error → Action A)
    → IsFileAction m
    → ((e : Error) → IsFileAction (handler e))
    → IsFileAction (try_except m handler)
try_except-IsFileAction m handler h k s =
    try_except-ends (OnlyFiles s) m handler s (h s)
      (λ e. OnlyFiles-trans s (m s).1 (handler e (m s).1).1 (h s) (k e (m s).1))

module _ (system : System) where
  call-IsFileAction : (operation : Files → Result Files) → IsFileAction (call system operation)
  call-IsFileAction operation s = elim (call-Called system operation s) [
    | inl (F, e, run) ↦
        subst (λ x. OnlyFiles s x.1) (sym run)
          (record { entries = refl; decisions = refl; submissions = refl; cleanups = refl })
    | inr (e, run, _) ↦
        subst (λ x. OnlyFiles s x.1) (sym run)
          (record { entries = refl; decisions = refl; submissions = refl; cleanups = refl })
  ]

  missing-IsFileAction :
      (e : Error) → IsFileAction (if is_missing e then pure tt else raise {A = Unit {0}} e)
  missing-IsFileAction e s =
      elim (is_missing e)
        as (λ b. OnlyFiles s ((if b then pure tt else raise {A = Unit {0}} e) s).1) [
          | true ↦ OnlyFiles-refl s
          | false ↦ OnlyFiles-refl s
        ]

  unlink_if_exists-IsFileAction : (b : Option Location) → IsFileAction (unlink_if_exists system b)
  unfolding unlink_if_exists
  unlink_if_exists-IsFileAction none = OnlyFiles-refl
  unlink_if_exists-IsFileAction (some l) =
      try_except-IsFileAction (call system (unlink l))
        (λ e. if is_missing e then pure tt else raise e) (call-IsFileAction (unlink l))
        missing-IsFileAction

  restore_backup-IsFileAction :
      (target : Location) (b : Option Location) → IsFileAction (restore_backup system target b)
  unfolding restore_backup
  restore_backup-IsFileAction target none = OnlyFiles-refl
  restore_backup-IsFileAction target (some l) =
      >>=-IsFileAction (mkdir system) (λ _. call system (replace l target)) (call-IsFileAction ok)
        (λ _. call-IsFileAction (replace l target))

  send_back-IsFileAction :
      (b : Bool) (source target : Location)
      → IsFileAction (if b then call system (replace target source) else pure tt)
  send_back-IsFileAction true source target = call-IsFileAction (replace target source)
  send_back-IsFileAction false source target = OnlyFiles-refl

  undo_rename-IsFileAction :
      (source target : Location) (b : Option Location)
      → IsFileAction (undo_rename_tree_entry system source target b)
  unfolding undo_rename_tree_entry
  undo_rename-IsFileAction source target b =
      let put_back =
        λ (present : Bool). if present then call system (replace target source) else pure tt in
      >>=-IsFileAction (mkdir system)
        (λ _. exists target >>= λ present. put_back present >>= λ _. restore_backup system target b)
        (call-IsFileAction ok)
        (λ _.
          >>=-IsFileAction (exists target)
            (λ present. put_back present >>= λ _. restore_backup system target b) OnlyFiles-refl
            (λ present.
              >>=-IsFileAction (put_back present) (λ _. restore_backup system target b)
                (send_back-IsFileAction present source target)
                (λ _. restore_backup-IsFileAction target b)))

  run_undo-IsFileAction : (u : Undo) → IsFileAction (run_undo system u)
  unfolding run_undo remove_object_entry undo_replace_tree_entry undo_remove_tree_entry
      restore_backup
  run_undo-IsFileAction (remove_object object_id) =
      unlink_if_exists-IsFileAction (some (object object_id))
  run_undo-IsFileAction (undo_replace target none) = unlink_if_exists-IsFileAction (some target)
  run_undo-IsFileAction (undo_replace target (some l)) = restore_backup-IsFileAction target (some l)
  run_undo-IsFileAction (undo_rename source target b) = undo_rename-IsFileAction source target b
  run_undo-IsFileAction (undo_remove target b) = restore_backup-IsFileAction target b

  -- A callback's error is collected, and the others run.
  abbrev attempt : Undo → Action (List Error)
  attempt u = try_except (run_undo system u >>= λ _. pure []) (λ e. pure (e ∷ []))

  pub undo_errors-IsFileAction : (undos : List Undo) → IsFileAction (undo_errors system undos)
  unfolding undo_errors
  undo_errors-IsFileAction [] = OnlyFiles-refl
  undo_errors-IsFileAction (u ∷ undos) =
      >>=-IsFileAction (attempt u)
        (λ errors. undo_errors system undos >>= λ more. pure (errors ++ more))
        (try_except-IsFileAction (run_undo system u >>= λ _. pure []) (λ e. pure (e ∷ []))
          (>>=-IsFileAction (run_undo system u) (λ _. pure []) (run_undo-IsFileAction u)
            (λ _. OnlyFiles-refl))
          (λ e. OnlyFiles-refl))
        (λ errors.
          >>=-IsFileAction (undo_errors system undos) (λ more. pure (errors ++ more))
            (undo_errors-IsFileAction undos) (λ more. OnlyFiles-refl))

  -- The rollback itself never raises.
  pub undo_errors_total :
      (undos : List Undo) (s : State)
      → (errors : List Error) × ((undo_errors system undos s).0 ≡ ok errors)
  unfolding undo_errors
  undo_errors_total [] s = ([], refl)
  undo_errors_total (u ∷ undos) s = elim (Result-cases (run_undo system u s).0) [
    | inl (_, e) ↦
        let (more, f) = undo_errors_total undos (run_undo system u s).1 in
        (more, ground (arith, e, f))
    | inr (x, e) ↦
        let (more, f) = undo_errors_total undos (run_undo system u s).1 in
        (x ∷ more, ground (arith, e, f))
  ]

  -- A step that leaves the files of the tree alone.
  abbrev pub KeepsTree : State → State → Type 0
  KeepsTree s s' = (path : Text) → s'.files (tree path) ≡ s.files (tree path)

  unlink_if_exists-KeepsTree :
      (l : Location) (s : State)
      → ((path : Text) → l ≢ tree path)
      → KeepsTree s (unlink_if_exists system (some l) s).1
  unfolding unlink_if_exists
  unlink_if_exists-KeepsTree l s apart = elim (call-Called system (unlink l) s) [
    | inl (F, e, run) ↦
        let ended : (unlink_if_exists system (some l) s).1 ≡ moved s F = ground (arith, run) in
        subst (KeepsTree s) (sym ended)
          (λ path. (unlink-gone l s.files F e).1 (tree path) (λ same. apart path (sym same)))
    | inr (e, run, _) ↦ elim (Bool-cases (is_missing e)) [
      | inl m ↦
          let ended : (unlink_if_exists system (some l) s).1 ≡ tick s = ground (arith, run, m) in
          subst (KeepsTree s) (sym ended) (λ path. refl)
      | inr m ↦
          let ended : (unlink_if_exists system (some l) s).1 ≡ tick s = ground (arith, run, m) in
          subst (KeepsTree s) (sym ended) (λ path. refl)
    ]
  ]

  run_cleanup-KeepsTree :
      (c : Cleanup) (s : State) → IsHarmless c → KeepsTree s (run_cleanup system c s).1
  unfolding run_cleanup remove_object_entry unlink_if_exists
  run_cleanup-KeepsTree (unlink_backup none) s h = λ path. refl
  run_cleanup-KeepsTree (unlink_backup (some l)) s h = unlink_if_exists-KeepsTree l s h
  run_cleanup-KeepsTree (remove_old_object object_id) s h =
      unlink_if_exists-KeepsTree (object object_id) s (λ path same. cc)

  run_cleanup-IsFileAction : (c : Cleanup) → IsFileAction (run_cleanup system c)
  unfolding run_cleanup remove_object_entry
  run_cleanup-IsFileAction (unlink_backup b) = unlink_if_exists-IsFileAction b
  run_cleanup-IsFileAction (remove_old_object object_id) =
      unlink_if_exists-IsFileAction (some (object object_id))

  -- What is known after the cleanup, which never raises.
  pub record Cleaned (s : State) (out : Result (Unit {0}) × State) : Type 0 where
    pub done : out.0 ≡ ok tt
    pub only : OnlyFiles s out.1
    pub tree : KeepsTree s out.1

  pub cleanup-Cleaned :
      (cleanups : List Cleanup) (s : State)
      → All IsHarmless cleanups
      → Cleaned s (cleanup_filesystem system cleanups s)
  unfolding cleanup_filesystem
  cleanup-Cleaned [] s all = record { done = refl; only = OnlyFiles-refl s; tree = λ path. refl }
  cleanup-Cleaned (c ∷ cleanups) s (h, all) =
      let t = (run_cleanup system c s).1 in
      let rest = cleanup-Cleaned cleanups t all in
      let ended : cleanup_filesystem system (c ∷ cleanups) s
          ≡ cleanup_filesystem system cleanups t =
        elim (Result-cases (run_cleanup system c s).0) [
          | inl (_, e) ↦ ground (arith, e)
          | inr (_, e) ↦ ground (arith, e)
        ] in
      subst (Cleaned s) (sym ended) (record {
        done = rest.done;
        only =
            OnlyFiles-trans s t (cleanup_filesystem system cleanups t).1
              (run_cleanup-IsFileAction c s) rest.only;
        tree = λ path. rest.tree path ∙ run_cleanup-KeepsTree c s h path;
      })
