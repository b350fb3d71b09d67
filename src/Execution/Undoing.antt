-- ===== src/Execution/Undoing.antt =====
-- Each callback of the undo stack of src/ctxfs/store.py against the step that pushed it.
use ctxd.Prelude.{
  ℕ, ◌≤◌, ◌≡◌, ◌≢◌, inl, inr, refl, sym, ◌∙◌, ap, subst, Option, none, some, ◌==◌, nat_eq, list_eq,
  pair_eq, option_eq, Text, Result, ok, Bool-cases, Option-cases, eq_iff, arith,
}
use ctxd.Execution.{
  System, Location, object, location_eq, Files, File, Undo, remove_object, undo_replace,
  undo_rename, undo_remove, State, tick, call, ◌>>◌,
}
use ctxd.Execution.Files.{
  replace, unlink, mkdir, unlink_if_exists, run_undo, restore_backup, undo_rename_tree_entry,
  undo_replace_tree_entry, undo_remove_tree_entry, remove_object_entry,
}
use ctxd.Execution.Journal.{
  Older, Older-mono, Older-ne, Agree, Replaced, replace-Replaced, unlink-gone, moved, Agree-at,
  call-Called,
}

-- A backup of `target`, made after the first `n` calls, and still there in `F'`.
abbrev pub IsBackup : ℕ → Location → Files → Files → ℕ → Option Location → Type 0
IsBackup n target F F' n' none = F target ≡ none
IsBackup n target F F' n' (some l) = ¬ (Older n l) × Older n' l × (F' l ≡ F target)

fresh_backup :
    (n : ℕ) (target : Location) (F F' : Files) (n' : ℕ) (b : Option Location) (l : Location)
    → b ≡ some l
    → IsBackup n target F F' n' b
    → ¬ (Older n l)
fresh_backup n target F F' n' none l e backup = cc
fresh_backup n target F F' n' (some k) l e backup =
    let same : k ≡ l = ground (arith, e) in subst (λ x. ¬ (Older n x)) same backup.0

no_backup :
    (n : ℕ) (target : Location) (F F' : Files) (n' : ℕ) (b : Option Location)
    → b ≡ none
    → IsBackup n target F F' n' b
    → F target ≡ none
no_backup n target F F' n' none e backup = backup
no_backup n target F F' n' (some k) e backup = cc

module _ (system : System) where
  -- From every state that agrees with `s'`, a call of the callback that does not raise leads back to `s`.
  abbrev pub Undoes : Undo → State → State → Type 0
  Undoes u s s' =
      (t : State)
      → Agree s'.calls t.files s'.files
      → (run_undo system u t).0 ≡ ok tt
      → Agree s.calls (run_undo system u t).1.files s.files

  -- A call that did not raise.
  called :
      (operation : Files → Result Files) (t : State)
      → (call system operation t).0 ≡ ok tt
      → (F : Files) × (operation t.files ≡ ok F) × (call system operation t ≡ (ok tt, moved t F))
  called operation t h = elim (call-Called system operation t) [
    | inl done ↦ done
    | inr (e, f, _) ↦ absurd (ground (arith, f, h))
  ]

  mkdir-files : (t : State) → (mkdir system t).0 ≡ ok tt → mkdir system t ≡ (ok tt, tick t)
  mkdir-files t h = elim (call-Called system ok t) [
    | inl (F, e, f) ↦ ground (arith, e, f)
    | inr (e, f, _) ↦ absurd (ground (arith, f, h))
  ]

  restored :
      (l target : Location) (t : State)
      → ((mkdir system >> call system (replace l target)) t).0 ≡ ok tt
      → (G : Files) × Replaced l target t.files G
        × (((mkdir system >> call system (replace l target)) t).1.files ≡ G)
  restored l target t h = elim (call-Called system ok t) [
    | inr (e, f, _) ↦ absurd (ground (arith, f, h))
    | inl (F, e, f) ↦ elim (call-Called system (replace l target) (moved t F)) [
      | inr (x, g, _) ↦ absurd (ground (arith, f, g, h))
      | inl (G, d, g) ↦
          let same : t.files ≡ F = ground (arith, e) in
          (
            G,
            subst (λ H. Replaced l target H G) (sym same) (replace-Replaced l target F G d),
            ground (arith, f, g),
          )
    ]
  ]

  unlinked :
      (l : Location) (t : State)
      → (unlink_if_exists system (some l) t).0 ≡ ok tt
      → let F = (unlink_if_exists system (some l) t).1.files in
        ((k : Location) → k ≢ l → F k ≡ t.files k) × (F l ≡ none)
  unfolding unlink_if_exists unlink
  unlinked l t h = elim (call-Called system (unlink l) t) [
    | inl (F, e, f) ↦
        let (gone, rest) = unlink-gone l t.files F e in
        (λ k n. ground (arith, f, rest k n), ground (arith, f, gone))
    | inr (e, f, why) ↦ elim (Option-cases (t.files l)) [
      | inl none_there ↦ (λ k n. ground (arith, f), ground (arith, f, none_there))
      | inr (x, there) ↦ absurd (ground (arith, f, why, there, h))
    ]
  ]

  pub Undoes-remove_object :
      (object_id : Text) (s s' : State)
      → s.calls ≤ s'.calls
      → Agree s.calls s'.files s.files
      → Undoes (remove_object object_id) s s'
  unfolding run_undo remove_object_entry
  Undoes-remove_object object_id s s' le same t agree done l old =
      let (rest, _) = unlinked (object object_id) t done in
      rest l (λ here. subst (Older s.calls) here old)
      ∙ agree l (Older-mono s.calls s'.calls l le old)
      ∙ same l old

  module _ (s s' : State) (target : Location) (le : s.calls ≤ s'.calls) (t : State)
      (agree : Agree s'.calls t.files s'.files) where
    -- The backup over the target, from files that have moved since at the target and one other place.
    restore_backup-target :
        (b : Option Location) (u : State)
        → IsBackup s.calls target s.files s'.files s'.calls b
        → ((l : Location) → b ≡ some l → u.files l ≡ t.files l)
        → (b ≡ none → u.files target ≡ none)
        → (restore_backup system target b u).0 ≡ ok tt
        → let F = (restore_backup system target b u).1.files in
          (F target ≡ s.files target)
          × ((l : Location) → Older s.calls l → l ≢ target → F l ≡ u.files l)
    unfolding restore_backup
    restore_backup-target none u backup kept gone done = (gone refl ∙ sym backup, λ l old n. refl)
    restore_backup-target (some l) u (fresh, old, content) kept gone done =
        let (G, r, files) = restored l target u done in
        let there : some r.file ≡ s.files target =
          sym r.from ∙ kept l refl ∙ agree l old ∙ content in
        (
          ap (λ F. F target) files ∙ r.to ∙ there,
          λ k o n. ap (λ F. F k) files ∙ r.rest k (Older-ne s.calls o fresh) n,
        )

  pub Undoes-replace :
      (s s' : State) (target : Location) (b : Option Location)
      → s.calls ≤ s'.calls
      → Older s.calls target
      → IsBackup s.calls target s.files s'.files s'.calls b
      → ((l : Location) → Older s.calls l → l ≢ target → s'.files l ≡ s.files l)
      → Undoes (undo_replace target b) s s'
  unfolding run_undo undo_replace_tree_entry
  Undoes-replace s s' target none le here backup rest t agree done =
      let (others, gone) = unlinked target t done in
      Agree-at s.calls target _ s.files (gone ∙ sym backup) (λ l old apart.
        others l apart ∙ agree l (Older-mono s.calls s'.calls l le old) ∙ rest l old apart)
  Undoes-replace s s' target (some b) le here (fresh, there, content) rest t agree done =
      let (G, r, files) = restored b target t done in
      Agree-at s.calls target _ s.files
        (ap (λ F. F target) files ∙ r.to ∙ sym r.from ∙ agree b there ∙ content)
        (λ l old apart.
          ap (λ F. F l) files
          ∙ r.rest l (Older-ne s.calls old fresh) apart
          ∙ agree l (Older-mono s.calls s'.calls l le old)
          ∙ rest l old apart)

  pub Undoes-remove :
      (s s' : State) (target : Location) (b : Option Location)
      → s.calls ≤ s'.calls
      → IsBackup s.calls target s.files s'.files s'.calls b
      → s'.files target ≡ none
      → Older s'.calls target
      → ((l : Location) → Older s.calls l → l ≢ target → s'.files l ≡ s.files l)
      → Undoes (undo_remove target b) s s'
  unfolding run_undo undo_remove_tree_entry
  Undoes-remove s s' target b le backup gone here rest t agree done =
      let (at_target, others) =
        restore_backup-target s s' target le t agree b t backup (λ l _. refl)
          (λ _. agree target here ∙ gone) done in
      Agree-at s.calls target _ s.files at_target (λ l old apart.
        others l old apart ∙ agree l (Older-mono s.calls s'.calls l le old) ∙ rest l old apart)

  -- The first half of the undo of a rename: the file goes back to the source.
  sent_back :
      (source target : Location) (b : Option Location) (t : State) {f : File}
      → t.files target ≡ some f
      → (undo_rename_tree_entry system source target b t).0 ≡ ok tt
      → (u : State) × Replaced target source t.files u.files
        × (undo_rename_tree_entry system source target b t ≡ restore_backup system target b u)
  unfolding undo_rename_tree_entry
  sent_back source target b t there done = elim (call-Called system ok t) [
    | inr (e, f, _) ↦ absurd (ground (arith, f, done))
    | inl (F, e, f) ↦
        let same : t.files ≡ F = ground (arith, e) in
        let still : F target ≡ t.files target = ap (λ H. H target) (sym same) in
        elim (call-Called system (replace target source) (moved t F)) [
          | inr (x, g, _) ↦ absurd (ground (arith, f, g, still, there, done))
          | inl (G, d, g) ↦ (
            moved (moved t F) G,
            subst (λ H. Replaced target source H G) (sym same)
                (replace-Replaced target source F G d),
            ground (arith, f, g, still, there),
          )
        ]
  ]

  -- What is known when a rename from `source` to `target` is undone.
  record Renamed (s s' : State) (F : Files) (source target : Location) (t u : State) : Type 0 where
    le : s.calls ≤ s'.calls
    old_source : Older s.calls source
    old_target : Older s.calls target
    same : Agree s.calls F s.files
    there : Replaced source target F s'.files
    agree : Agree s'.calls t.files s'.files
    back : Replaced target source t.files u.files

  -- A target that did not exist is gone again.
  Renamed-target :
      (s s' : State) (F : Files) (source target : Location) (t u : State)
      → Renamed s s' F source target t u
      → s.files target ≡ none
      → u.files target ≡ none
  Renamed-target s s' F source target t u r absent =
      let empty : F target ≡ none = r.same target r.old_target ∙ absent in
      let at_source = r.agree source (Older-mono s.calls s'.calls source r.le r.old_source) in
      elim r.there.left [
        | inr still ↦ absurd (ground (arith, still target, r.there.to, empty))
        | inl gone ↦ elim r.back.left [
          | inl done ↦ done
          | inr still ↦ absurd (ground (arith, still source, r.back.to, at_source, gone))
        ]
      ]

  -- The source has its file again.
  Renamed-source :
      (s s' : State) (F : Files) (source target : Location) (t u : State)
      → Renamed s s' F source target t u
      → u.files source ≡ s.files source
  Renamed-source s s' F source target t u r =
      r.back.to
      ∙ sym r.back.from
      ∙ r.agree target (Older-mono s.calls s'.calls target r.le r.old_target)
      ∙ r.there.to
      ∙ sym r.there.from
      ∙ r.same source r.old_source

  -- All other files are as they were.
  Renamed-rest :
      (s s' : State) (F : Files) (source target : Location) (t u : State)
      → Renamed s s' F source target t u
      → (l : Location) → Older s.calls l
      → l ≢ target
      → u.files l ≡ s.files l
  Renamed-rest s s' F source target t u r l old apart = elim (Bool-cases (l == source)) [
    | inl e ↦
        subst (λ k. u.files k ≡ s.files k) (sym ((eq_iff l source).0 e))
          (Renamed-source s s' F source target t u r)
    | inr e ↦
        let other : l ≢ source = ground (arith, e, eq_iff l source) in
        r.back.rest l apart other
        ∙ r.agree l (Older-mono s.calls s'.calls l r.le old)
        ∙ r.there.rest l other apart
        ∙ r.same l old
  ]

  pub Undoes-rename :
      (s s' : State) (F : Files) (source target : Location) (b : Option Location)
      → s.calls ≤ s'.calls
      → Older s.calls source
      → Older s.calls target
      → Agree s.calls F s.files
      → Replaced source target F s'.files
      → IsBackup s.calls target s.files s'.files s'.calls b
      → Undoes (undo_rename source target b) s s'
  unfolding run_undo
  Undoes-rename s s' F source target b le from to same r backup t agree done =
      let there = agree target (Older-mono s.calls s'.calls target le to) ∙ r.to in
      let (u, back, run) = sent_back source target b t there done in
      let known : Renamed s s' F source target t u = record {
        le = le;
        old_source = from;
        old_target = to;
        same = same;
        there = r;
        agree = agree;
        back = back;
      } in
      let (at_target, others) =
        restore_backup-target s s' target le t agree b u backup
          (λ l e.
            let new : ¬ (Older s.calls l) =
              fresh_backup s.calls target s.files s'.files s'.calls b l e backup in
            back.rest l (λ x. Older-ne s.calls to new (sym x))
              (λ x. Older-ne s.calls from new (sym x)))
          (λ e.
            Renamed-target s s' F source target t u known
              (no_backup s.calls target s.files s'.files s'.calls b e backup))
          (sym (ap (λ x. x.0) run) ∙ done) in
      Agree-at s.calls target _ s.files (ap (λ x. x.1.files target) run ∙ at_target) (λ l old apart.
        ap (λ x. x.1.files l) run
        ∙ others l old apart
        ∙ Renamed-rest s s' F source target t u known l old apart)
