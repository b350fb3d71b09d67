-- ===== src/Execution/Steps.antt =====
-- The changes of the tree in src/ctxfs/store.py against the undo stack that they leave.
use ctxd.Prelude.{
  ℕ, suc, ◌≤◌, ◌≡◌, ◌≢◌, ◌⊎◌, inl, inr, refl, sym, ◌∙◌, ap, subst, true, false, [], ◌∷◌, ◌++◌,
  Option, none, some, if◌then◌else◌, nat_eq, list_eq, pair_eq, option_eq, codes, ok, err, Error,
  Result-cases, Option-cases, eq_iff, arith,
}
use ctxd.Execution.{
  System, Location, undo, location_eq, Files, set_file, Undo, undo_rename, State, Action, tick,
  call, pure, raise, ◌>>=◌, ◌>>◌, try_except, Cleanup, unlink_backup,
}
use ctxd.Execution.Files.{
  link, replace, unlink, mkdir, is_missing, unlink_if_exists, undo_path, backup_tree_entry,
  push_undo, push_cleanup, rename_tree_file,
}
use ctxd.Execution.Journal.{
  Older, Older-mono, Older-ne, Agree, replace-Replaced, unlink-gone, moved, call-Called,
}
use ctxd.Execution.Undoing.{IsBackup, Undoes, Undoes-rename}
use ctxd.Execution.Unwinding.{
  IsHarmless, snoc-IsHarmless, IsQuiet, IsQuiet-refl, IsQuiet-trans, IsQuiet-weaken, IsStill,
  >>=-IsStill, try_except-IsStill, Later, Later-refl, IsQuiet-Later, push-Later, call-IsStill,
  >>=-ends,
}

pub link-ok :
    (a b : Location) (F G : Files)
    → link a b F ≡ ok G
    → (G b ≡ F a) × ((l : Location) → l ≢ b → G l ≡ F l)
unfolding link
link-ok a b F G h = elim (Option-cases (F a)) [
  | inl e ↦ absurd (ground (arith, e, h))
  | inr (f, e) ↦ elim (Option-cases (F b)) [
    | inr (g, e') ↦ absurd (ground (arith, e, e', h))
    | inl e' ↦
        let done : set_file b (some f) F ≡ G = ground (arith, e, e', h) in
        subst (λ H. (H b ≡ F a) × ((l : Location) → l ≢ b → H l ≡ F l)) done
          (ground (arith, e, eq_iff b b), λ l n. ground (arith, n, eq_iff l b))
  ]
]

-- A change at a new location does not matter.
pub link-Agree :
    (n : ℕ) (a b : Location) → ¬ (Older n b) → (F G : Files) → link a b F ≡ ok G → Agree n G F
link-Agree n a b new F G h l old = (link-ok a b F G h).1 l (Older-ne n old new)

pub unlink-Agree :
    (n : ℕ) (a : Location) → ¬ (Older n a) → (F G : Files) → unlink a F ≡ ok G → Agree n G F
unlink-Agree n a new F G h l old = (unlink-gone a F G h).1 l (Older-ne n old new)

-- A backup that is not there, or is at a new location.
abbrev pub IsNew : ℕ → Option Location → Type 0
IsNew n none = Unit
IsNew n (some l) = ¬ (Older n l)

-- A new location is not in the tree.
pub IsNew-IsHarmless : (n : ℕ) (b : Option Location) → IsNew n b → IsHarmless (unlink_backup b)
IsNew-IsHarmless n none new = tt
IsNew-IsHarmless n (some l) new = λ path same. new (subst (Older n) (sym same) tt)

module _ (system : System) where
  pub mkdir-IsStill : (n : ℕ) → IsStill n (mkdir system)
  mkdir-IsStill n =
      call-IsStill system n ok
        (λ F G h l old. let same : F ≡ G = ground (arith, h) in ap (λ H. H l) (sym same))

  pub unlink_if_exists-IsStill :
      (n : ℕ) (b : Option Location) → IsNew n b → IsStill n (unlink_if_exists system b)
  unfolding unlink_if_exists
  unlink_if_exists-IsStill n none new = IsQuiet-refl n
  unlink_if_exists-IsStill n (some l) new =
      try_except-IsStill n (call system (unlink l)) (λ e. if is_missing e then pure tt else raise e)
        (call-IsStill system n (unlink l) (unlink-Agree n l new))
        (λ e s. elim (is_missing e) as (λ b. IsQuiet n s ((if b then pure tt else raise e) s).1) [
          | true ↦ IsQuiet-refl n s
          | false ↦ IsQuiet-refl n s
        ])

  -- A backup was made, or was not needed, or something raised.
  abbrev BackupCases : Location → State → Type 0
  BackupCases target s =
      ((b : Option Location) × (s' : State) × (backup_tree_entry system target s ≡ (ok b, s'))
        × IsQuiet s.calls s s'
        × IsBackup s.calls target s.files s'.files s'.calls b)
      ⊎ ((e : Error) × (s' : State) × (backup_tree_entry system target s ≡ (err e, s'))
          × IsQuiet s.calls s s')

  backup-cases : (target : Location) (s : State) → BackupCases target s
  unfolding backup_tree_entry undo_path
  backup-cases target s = elim (Option-cases (s.files target)) [
    | inl absent ↦ inl (none, s, ground (arith, absent), IsQuiet-refl s.calls s, absent)
    | inr (f, there) ↦ elim (call-Called system ok s) [
      | inr (e, run, _) ↦ inr (
        e,
        tick s,
        ground (arith, there, run),
        record {
          calls = omega arith;
          stack = refl;
          cleanups = refl;
          rows = refl;
          files = λ l old. refl;
        },
      )
      | inl (F, same, run) ↦
          let keep : s.files ≡ F = ground (arith, same) in
          let l = undo (codes "backup") (suc s.calls) in
          let u = tick (moved s F) in
          elim (call-Called system (link target l) u) [
            | inr (e, run', _) ↦ inr (
              e,
              tick u,
              ground (arith, there, run, run'),
              record {
                calls = omega arith;
                stack = refl;
                cleanups = refl;
                rows = refl;
                files = λ k old. ap (λ H. H k) (sym keep);
              },
            )
            | inl (G, linked, run') ↦
                let (content, rest) = link-ok target l F G linked in
                let fresh : ¬ (Older s.calls l) = λ h. omega (arith, h) in
                inl (
                  some l,
                  moved u G,
                  ground (arith, there, run, run'),
                  record {
                    calls = omega arith;
                    stack = refl;
                    cleanups = refl;
                    rows = refl;
                    files = λ k old. rest k (Older-ne s.calls old fresh) ∙ ap (λ H. H k) (sym keep);
                  },
                  (fresh, omega arith, content ∙ ap (λ H. H target) (sym keep)),
                )
          ]
    ]
  ]

  -- A backup outlasts a step that touches no new location of before.
  pub IsBackup-kept :
      (n : ℕ) (target : Location) (F F' F'' : Files) (m k : ℕ) (b : Option Location)
      → IsBackup n target F F' m b
      → m ≤ k
      → ((l : Location) → b ≡ some l → ¬ (Older n l) → F'' l ≡ F' l)
      → IsBackup n target F F'' k b
  IsBackup-kept n target F F' F'' m k none backup le kept = backup
  IsBackup-kept n target F F' F'' m k (some l) (fresh, old, content) le kept =
      (fresh, Older-mono m k l le old, kept l refl fresh ∙ content)

  pub IsBackup-IsNew :
      (n : ℕ) (target : Location) (F F' : Files) (m : ℕ) (b : Option Location)
      → IsBackup n target F F' m b
      → IsNew n b
  IsBackup-IsNew n target F F' m none backup = tt
  IsBackup-IsNew n target F F' m (some l) backup = backup.0

  -- The handler of a failed change: the backup goes, and the exception is raised again.
  pub abandon-IsStill :
      (n : ℕ) (b : Option Location) (e : Error)
      → IsNew n b
      → IsStill n (unlink_if_exists system b >> raise {A = Unit {0}} e)
  abandon-IsStill n b e new =
      >>=-IsStill n (unlink_if_exists system b) (λ _. raise e) (unlink_if_exists-IsStill n b new)
        (λ _ s. IsQuiet-refl n s)

  -- A step that pushes its callbacks unless it raises.
  abbrev pub journaled :
      Action (Unit {0}) → (Error → Action (Unit {0})) → Undo → Cleanup → Action (Unit {0})
  journaled attempt handler u c = do try_except attempt handler; push_undo u; push_cleanup c

  abbrev pub pushed : Undo → Cleanup → State → State
  pushed u c s = record s {
    undo_stack = u ∷ s.undo_stack;
    cleanup_stack = s.cleanup_stack ++ c ∷ [];
  }

  -- What ends with a raise raises.
  pub raises_after :
      (m : Action (Unit {0})) (e : Error) (s : State)
      → (x : Error) × ((m >> raise {A = Unit {0}} e) s).0 ≡ err x
  raises_after m e s = elim (Result-cases (m s).0) [
    | inl (_, f) ↦ (e, ground (arith, f))
    | inr (x, f) ↦ (x, ground (arith, f))
  ]

  pub journaled-Later :
      (attempt : Action (Unit {0})) (handler : Error → Action (Unit {0})) (u : Undo) (c : Cleanup)
      (s t : State)
      → ((e : Error) → IsStill s.calls (handler e))
      → ((e : Error) (v : State) → (x : Error) × (handler e v).0 ≡ err x)
      → ((attempt t).0 ≡ ok tt → Later system s (pushed u c (attempt t).1))
      → ((e : Error) → (attempt t).0 ≡ err e → IsQuiet s.calls s (attempt t).1)
      → Later system s (journaled attempt handler u c t).1
  journaled-Later attempt handler u c s t still raises good bad =
      elim (Result-cases (attempt t).0) [
        | inl (_, e) ↦
            let ended : (journaled attempt handler u c t).1 ≡ pushed u c (attempt t).1 =
              ground (arith, e) in
            subst (Later system s) (sym ended) (good e)
        | inr (x, e) ↦
            let v = (attempt t).1 in
            let (y, f) = raises x v in
            let ended : (journaled attempt handler u c t).1 ≡ (handler x v).1 =
              ground (arith, e, f) in
            subst (Later system s) (sym ended) (
              IsQuiet-Later system s (handler x v).1
                (IsQuiet-trans s.calls s v (handler x v).1 (bad x e) (still x v)))
      ]

  -- A step that ends in a known state.
  pub pushed-Later :
      (u : Undo) (c : Cleanup) (s t v : State)
      → v ≡ t
      → t.undo_stack ≡ s.undo_stack
      → t.cleanup_stack ≡ s.cleanup_stack
      → t.submissions ≡ s.submissions
      → s.calls ≤ t.calls
      → IsHarmless c
      → Undoes system u s (pushed u c t)
      → Later system s (pushed u c v)
  pushed-Later u c s t v same stack cleanups rows le harmless undoes =
      subst (λ x. Later system s (pushed u c x)) (sym same)
        (push-Later system u s (pushed u c t) le (ap (λ undos. u ∷ undos) stack)
          (snoc-IsHarmless c s t harmless cleanups) rows undoes)

  pub tick-IsQuiet : (n : ℕ) (s u : State) → IsQuiet n s u → IsQuiet n s (tick u)
  tick-IsQuiet n s u q = record {
    calls = omega (arith, q.calls);
    stack = q.stack;
    cleanups = q.cleanups;
    rows = q.rows;
    files = q.files;
  }

  -- A rename, from the state `u` in which its backup is made.
  module _ (source target : Location) (b : Option Location) (s u : State)
      (from : Older s.calls source) (to : Older s.calls target) (quiet : IsQuiet s.calls s u)
      (backup : IsBackup s.calls target s.files u.files u.calls b) where
    abbrev rename_rest : Action (Unit {0})
    rename_rest =
        journaled (call system (replace source target)) (λ e. unlink_if_exists system b >> raise e)
          (undo_rename source target b) (unlink_backup b)

    rename_rest-Later : Later system s (rename_rest u).1
    rename_rest-Later =
        journaled-Later (call system (replace source target))
          (λ e. unlink_if_exists system b >> raise e) (undo_rename source target b)
          (unlink_backup b) s u
          (λ e.
            abandon-IsStill s.calls b e
              (IsBackup-IsNew s.calls target s.files u.files u.calls b backup))
          (raises_after (unlink_if_exists system b))
          (λ done. elim (call-Called system (replace source target) u) [
            | inr (e, run, _) ↦ absurd (ground (arith, run, done))
            | inl (G, e, run) ↦
                let r = replace-Replaced source target u.files G e in
                let apart : (l : Location) → ¬ (Older s.calls l) → G l ≡ u.files l = λ l fresh.
                  r.rest l (λ x. Older-ne s.calls from fresh (sym x))
                    (λ x. Older-ne s.calls to fresh (sym x)) in
                pushed-Later (undo_rename source target b) (unlink_backup b) s (moved u G) _
                  (ap (λ x. x.1) run) quiet.stack quiet.cleanups quiet.rows
                  (omega (arith, quiet.calls))
                  (IsNew-IsHarmless s.calls b
                    (IsBackup-IsNew s.calls target s.files u.files u.calls b backup))
                  (Undoes-rename system s
                    (pushed (undo_rename source target b) (unlink_backup b) (moved u G)) u.files
                    source target b (omega (arith, quiet.calls)) from to quiet.files r
                    (IsBackup-kept s.calls target s.files u.files G u.calls (suc u.calls) b backup
                      (omega arith) (λ l _ fresh. apart l fresh)))
          ])
          (λ x raised. elim (call-Called system (replace source target) u) [
            | inl (G, e, run) ↦ absurd (ground (arith, run, raised))
            | inr (e, run, _) ↦
                subst (λ v. IsQuiet s.calls s v.1) (sym run) (tick-IsQuiet s.calls s u quiet)
          ])

  -- The start of the step may lie before the backup.
  IsBackup-before :
      (s t : State) (target : Location) (F' : Files) (m : ℕ) (b : Option Location)
      → IsQuiet s.calls s t
      → Older s.calls target
      → IsBackup t.calls target t.files F' m b
      → IsBackup s.calls target s.files F' m b
  IsBackup-before s t target F' m none q old backup = sym (q.files target old) ∙ backup
  IsBackup-before s t target F' m (some l) q old (fresh, here, content) =
      (λ o. fresh (Older-mono s.calls t.calls l q.calls o), here, content ∙ q.files target old)

  pub with_backup-Later :
      (target : Location) (rest : Option Location → Action (Unit {0})) (s t : State)
      → Older s.calls target
      → IsQuiet s.calls s t
      → ((b : Option Location) (u : State)
          → IsQuiet s.calls s u
          → IsBackup s.calls target s.files u.files u.calls b
          → IsNew t.calls b
          → Later system s (rest b u).1)
      → Later system s ((backup_tree_entry system target >>= rest) t).1
  with_backup-Later target rest s t old q each = elim (backup-cases target t) [
    | inl (b, u, run, r, backup) ↦
        let ended : ((backup_tree_entry system target >>= rest) t).1 ≡ (rest b u).1 =
          ground (arith, run) in
        subst (Later system s) (sym ended) (
          each b u (IsQuiet-trans s.calls s t u q (IsQuiet-weaken s.calls t.calls t u q.calls r))
            (IsBackup-before s t target u.files u.calls b q old backup)
            (IsBackup-IsNew t.calls target t.files u.files u.calls b backup))
    | inr (e, u, run, r) ↦
        let ended : ((backup_tree_entry system target >>= rest) t).1 ≡ u = ground (arith, run) in
        subst (Later system s) (sym ended) (
          IsQuiet-Later system s u
            (IsQuiet-trans s.calls s t u q (IsQuiet-weaken s.calls t.calls t u q.calls r)))
  ]

  pub rename_tree_file-Later :
      (source target : Location) (s : State)
      → Older s.calls source
      → Older s.calls target
      → Later system s (rename_tree_file system source target s).1
  unfolding rename_tree_file
  rename_tree_file-Later source target s from to = elim (Option-cases (s.files source)) [
    | inl absent ↦
        let ended : (rename_tree_file system source target s).1 ≡ s = ground (arith, absent) in
        subst (Later system s) (sym ended) (Later-refl system s)
    | inr (f, there) ↦
        let rest = λ (b : Option Location).
          journaled (call system (replace source target))
            (λ e. unlink_if_exists system b >> raise e) (undo_rename source target b)
            (unlink_backup b) in
        let ended : rename_tree_file system source target s
            ≡ (mkdir system >> (backup_tree_entry system target >>= rest)) s =
          ground (arith, there) in
        subst (λ x. Later system s x.1) (sym ended)
          (>>=-ends (Later system s) (mkdir system) (λ _. backup_tree_entry system target >>= rest)
            s (IsQuiet-Later system s (mkdir system s).1 (mkdir-IsStill s.calls s))
            (λ _.
              with_backup-Later target rest s (mkdir system s).1 to (mkdir-IsStill s.calls s)
                (λ b u quiet backup _. rename_rest-Later source target b s u from to quiet backup)))
  ]
