-- ===== src/Execution/Changes.antt =====
-- `_replace_tree_entry`, `_remove_tree_entry` and the write of an object in src/ctxfs/store.py against
-- the undo stack that they leave.
use ctxd.Prelude.{
  ℕ, suc, ◌≤◌, ◌<◌, ◌≡◌, ◌≢◌, ◌⊎◌, inl, inr, refl, sym, ◌∙◌, ap, subst, true, false, List, ◌∷◌,
  Option, none, some, if◌then◌else◌, nat_eq, list_eq, pair_eq, option_eq, Text, codes, ok, err,
  Error, Result-cases, Bool-cases, eq_iff, arith, All,
}
use ctxd.Execution.{
  System, Location, tree, object, undo, location_eq, Files, set_file, remove_object, undo_replace,
  undo_remove, State, Action, tick, call, pure, raise, gets, ◌>>=◌, ◌>>◌, try_except, unlink_backup,
}
use ctxd.Execution.Files.{
  link, replace, unlink, mkdir, is_missing, unlink_if_exists, undo_path, backup_tree_entry,
  push_undo, push_cleanup, replace_tree_entry, remove_tree_entry,
}
use ctxd.Execution.Journal.{
  Older, Older-ne, Replaced, replace-Replaced, unlink-gone, moved, call-Called,
}
use ctxd.Execution.Undoing.{IsBackup, Undoes-remove_object, Undoes-replace, Undoes-remove}
use ctxd.Execution.Unwinding.{
  IsHarmless, snoc-IsHarmless, IsQuiet, IsQuiet-refl, IsQuiet-trans, IsStill, >>=-IsStill, Later,
  IsSafe, IsQuiet-Later, push-Later, >>=-ends,
}
use ctxd.Execution.Steps.{
  link-ok, link-Agree, IsNew, IsNew-IsHarmless, mkdir-IsStill, unlink_if_exists-IsStill,
  IsBackup-kept, IsBackup-IsNew, raises_after, journaled, journaled-Later, pushed, pushed-Later,
  tick-IsQuiet, with_backup-Later,
}
use ctxd.Execution.Apply.{write_bytes, write_object}

elsewhere :
    (object_id : Text) (inode : ℕ) (data_ : List ℕ) (F : Files) (n : ℕ) (l : Location)
    → Older n l
    → set_file (object object_id) (some (inode, data_)) F l ≡ F l
elsewhere object_id inode data_ F n l old =
    let apart : l ≢ object object_id = λ here. subst (Older n) here old in
    ground (arith, apart, eq_iff l (object object_id))

module _ (system : System) where
  undo_path-Later :
      (prefix : Text) (rest : Location → Action (Unit {0})) (s t : State)
      → IsQuiet s.calls s t
      → ((n : ℕ) (u : State)
          → IsQuiet s.calls s u
          → s.calls ≤ n
          → n < u.calls
          → Later system s (rest (undo prefix n) u).1)
      → Later system s ((undo_path system prefix >>= rest) t).1
  unfolding undo_path
  undo_path-Later prefix rest s t q each = elim (call-Called system ok t) [
    | inr (e, run, _) ↦
        let ended : ((undo_path system prefix >>= rest) t).1 ≡ tick t = ground (arith, run) in
        subst (Later system s) (sym ended)
          (IsQuiet-Later system s (tick t) (tick-IsQuiet system s.calls s t q))
    | inl (F, e, run) ↦
        let u = tick (moved t F) in
        let same : t.files ≡ F = ground (arith, e) in
        let ended : ((undo_path system prefix >>= rest) t).1
            ≡ (rest (undo prefix (suc t.calls)) u).1 =
          ground (arith, run) in
        subst (Later system s) (sym ended) (
          each (suc t.calls) u
            (record {
              calls = omega (arith, q.calls);
              stack = q.stack;
              cleanups = q.cleanups;
              rows = q.rows;
              files = λ l old. ap (λ H. H l) (sym same) ∙ q.files l old;
            })
            (omega (arith, q.calls)) (omega arith))
  ]

  abandon_both-IsStill :
      (n : ℕ) (tmp : Location) (b : Option Location) (e : Error)
      → ¬ (Older n tmp)
      → IsNew n b
      → IsStill n (
          unlink_if_exists system (some tmp) >> unlink_if_exists system b >> raise {A = Unit {0}} e)
  abandon_both-IsStill n tmp b e fresh new =
      >>=-IsStill n (unlink_if_exists system (some tmp) >> unlink_if_exists system b) (λ _. raise e)
        (>>=-IsStill n (unlink_if_exists system (some tmp)) (λ _. unlink_if_exists system b)
          (unlink_if_exists-IsStill system n (some tmp) fresh)
          (λ _. unlink_if_exists-IsStill system n b new))
        (λ _ s. IsQuiet-refl n s)

  abbrev pub exchange : Location → Location → Location → Action (Unit {0})
  exchange object_path tmp target =
      call system (link object_path tmp) >> call system (replace tmp target)

  -- A new link takes the place of the target, or nothing that matters has changed.
  abbrev pub ExchangeCases : Location → Location → Location → State → Type 0
  ExchangeCases object_path tmp target u =
      ((F G : Files) × (exchange object_path tmp target u ≡ (ok tt, moved (moved u F) G))
        × ((l : Location) → l ≢ tmp → F l ≡ u.files l)
        × (F tmp ≡ u.files object_path)
        × Replaced tmp target F G)
      ⊎ ((e : Error) × ((exchange object_path tmp target u).0 ≡ err e)
          × ((n : ℕ) → ¬ (Older n tmp) → IsQuiet n u (exchange object_path tmp target u).1))

  pub exchange-cases :
      (object_path tmp target : Location) (u : State) → ExchangeCases object_path tmp target u
  exchange-cases object_path tmp target u = elim (call-Called system (link object_path tmp) u) [
    | inr (e, run, _) ↦
        let failed : exchange object_path tmp target u ≡ (err e, tick u) = ground (arith, run) in
        inr (
          e,
          ap (λ x. x.0) failed,
          λ n fresh.
              subst (λ x. IsQuiet n u x.1) (sym failed)
                (tick-IsQuiet system n u u (IsQuiet-refl n u)),
        )
    | inl (F, linked, run) ↦ elim (call-Called system (replace tmp target) (moved u F)) [
      | inr (e, run', _) ↦
          let failed : exchange object_path tmp target u ≡ (err e, tick (moved u F)) =
            ground (arith, run, run') in
          inr (
            e,
            ap (λ x. x.0) failed,
            λ n fresh.
                subst (λ x. IsQuiet n u x.1) (sym failed)
                  (record {
                    calls = omega arith;
                    stack = refl;
                    cleanups = refl;
                    rows = refl;
                    files = link-Agree n object_path tmp fresh u.files F linked;
                  }),
          )
      | inl (G, put, run') ↦ inl (
        F,
        G,
        ground (arith, run, run'),
        (link-ok object_path tmp u.files F linked).1,
        (link-ok object_path tmp u.files F linked).0,
        replace-Replaced tmp target F G put,
      )
    ]
  ]

  abbrev replace_rest : Location → Location → Location → Option Location → Action (Unit {0})
  replace_rest object_path tmp target b =
      journaled system (exchange object_path tmp target)
        (λ e. unlink_if_exists system (some tmp) >> unlink_if_exists system b >> raise e)
        (undo_replace target b) (unlink_backup b)

  -- A replacement, from the state `u` in which the backup is made.
  module _ (object_path tmp target : Location) (b : Option Location) (s u : State)
      (here : Older s.calls target) (fresh : ¬ (Older s.calls tmp)) (quiet : IsQuiet s.calls s u)
      (backup : IsBackup s.calls target s.files u.files u.calls b)
      (apart : (l : Location) → b ≡ some l → l ≢ tmp) where
    replace_rest-Later : Later system s (replace_rest object_path tmp target b u).1
    replace_rest-Later =
        journaled-Later system (exchange object_path tmp target)
          (λ e. unlink_if_exists system (some tmp) >> unlink_if_exists system b >> raise e)
          (undo_replace target b) (unlink_backup b) s u
          (λ e.
            abandon_both-IsStill s.calls tmp b e fresh
              (IsBackup-IsNew system s.calls target s.files u.files u.calls b backup))
          (λ e.
            raises_after system (unlink_if_exists system (some tmp) >> unlink_if_exists system b) e)
          (λ done. elim (exchange-cases object_path tmp target u) [
            | inr (e, raised, _) ↦ absurd (ground (arith, raised, done))
            | inl (F, G, run, linked, _, r) ↦
                let end : State = moved (moved u F) G in
                let rest : (l : Location) → l ≢ tmp → l ≢ target → G l ≡ u.files l =
                  λ l nt ng. r.rest l nt ng ∙ linked l nt in
                pushed-Later system (undo_replace target b) (unlink_backup b) s end _
                  (ap (λ x. x.1) run) quiet.stack quiet.cleanups quiet.rows
                  (omega (arith, quiet.calls))
                  (IsNew-IsHarmless s.calls b
                    (IsBackup-IsNew system s.calls target s.files u.files u.calls b backup))
                  (Undoes-replace system s
                    (pushed system (undo_replace target b) (unlink_backup b) end) target b
                    (omega (arith, quiet.calls)) here
                    (IsBackup-kept system s.calls target s.files u.files G u.calls
                      (suc (suc u.calls)) b backup (omega arith)
                      (λ l e new. rest l (apart l e) (λ x. Older-ne s.calls here new (sym x))))
                    (λ l old ng. rest l (Older-ne s.calls old fresh) ng ∙ quiet.files l old))
          ])
          (λ x raised. elim (exchange-cases object_path tmp target u) [
            | inl (F, G, run, _, _, _) ↦ absurd (ground (arith, run, raised))
            | inr (e, _, calm) ↦
                IsQuiet-trans s.calls s u (exchange object_path tmp target u).1 quiet
                  (calm s.calls fresh)
          ])

  new-ne :
      (n m : ℕ) (b : Option Location)
      → m < n
      → IsNew n b
      → (l : Location) → b ≡ some l
      → l ≢ undo (codes "replace") m
  new-ne n m none h new l e = cc
  new-ne n m (some k) h new l e =
      let same : k ≡ l = ground (arith, e) in λ x. new (subst (Older n) (sym (same ∙ x)) h)

  pub replace_tree_entry-IsSafe :
      (path : Text) (object_path : Location)
      → IsSafe system (replace_tree_entry system path object_path)
  unfolding replace_tree_entry
  replace_tree_entry-IsSafe path object_path s =
      let target = tree path in
      let put = λ (tmp : Location) (b : Option Location). replace_rest object_path tmp target b in
      let backed = λ (tmp : Location). backup_tree_entry system target >>= put tmp in
      >>=-ends (Later system s) (mkdir system) (λ _. undo_path system (codes "replace") >>= backed)
        s (IsQuiet-Later system s (mkdir system s).1 (mkdir-IsStill system s.calls s))
        (λ _.
          undo_path-Later (codes "replace") backed s (mkdir system s).1
            (mkdir-IsStill system s.calls s)
            (λ n t q le lt.
              with_backup-Later system target (put (undo (codes "replace") n)) s t tt q
                (λ b u quiet backup new.
                  replace_rest-Later object_path (undo (codes "replace") n) target b s u tt
                    (λ o. omega (arith, o, le)) quiet backup (new-ne t.calls n b lt new))))

  written-Later :
      (object_id : Text) (data_ : List ℕ) (s t : State)
      → IsQuiet s.calls s t
      → Later system s
          ((call system (write_bytes object_id t.calls data_)
              >> push_undo (remove_object object_id))
            t).1
  written-Later object_id data_ s t q =
      let write = write_bytes object_id t.calls data_ in
      let step = call system write >> push_undo (remove_object object_id) in
      elim (call-Called system write t) [
        | inr (e, run, _) ↦
            let ended : (step t).1 ≡ tick t = ground (arith, run) in
            subst (Later system s) (sym ended)
              (IsQuiet-Later system s (tick t) (tick-IsQuiet system s.calls s t q))
        | inl (G, e, run) ↦
            let end : State = record (moved t G) {
              undo_stack = remove_object object_id ∷ t.undo_stack;
            } in
            let ended : (step t).1 ≡ end = ground (arith, run) in
            let same : set_file (object object_id) (some (t.calls, data_)) t.files ≡ G =
              ground (arith, e) in
            subst (Later system s) (sym ended) (
              push-Later system (remove_object object_id) s end (omega (arith, q.calls))
                (ap (λ undos. remove_object object_id ∷ undos) q.stack)
                (λ h. subst (All IsHarmless) (sym q.cleanups) h) q.rows
                (Undoes-remove_object system object_id s end (omega (arith, q.calls)) (λ l old.
                  ap (λ F. F l) (sym same)
                  ∙ elsewhere object_id t.calls data_ t.files s.calls l old
                  ∙ q.files l old)))
      ]

  pub write_object-IsSafe :
      (object_id : Text) (data_ : List ℕ) → IsSafe system (write_object system object_id data_)
  unfolding write_object
  write_object-IsSafe object_id data_ s =
      >>=-ends (Later system s) (mkdir system)
        (λ _. gets (λ t. t.calls) >>= λ inode.
          call system (write_bytes object_id inode data_) >> push_undo (remove_object object_id))
        s (IsQuiet-Later system s (mkdir system s).1 (mkdir-IsStill system s.calls s))
        (λ _. written-Later object_id data_ s (mkdir system s).1 (mkdir-IsStill system s.calls s))

  abbrev remove_rest : Location → Option Location → Action (Unit {0})
  remove_rest target b = do
    removed ←
        try_except (call system (unlink target) >> pure true)
          (λ e. if is_missing e then unlink_if_exists system b >> pure false else raise e)
    if removed
        then (do push_undo (undo_remove target b); push_cleanup (unlink_backup b))
        else pure tt

  -- The file was missing, or could not be removed.
  kept-IsQuiet :
      (target : Location) (b : Option Location) (n : ℕ) (s u : State) (e : Error)
      → IsNew n b
      → IsQuiet n s u
      → call system (unlink target) u ≡ (err e, tick u)
      → IsQuiet n s (remove_rest target b u).1
  kept-IsQuiet target b n s u e new q run = elim (Bool-cases (is_missing e)) [
    | inr other ↦
        let ended : (remove_rest target b u).1 ≡ tick u = ground (arith, run, other) in
        subst (IsQuiet n s) (sym ended) (tick-IsQuiet system n s u q)
    | inl missing ↦
        let end = (unlink_if_exists system b (tick u)).1 in
        let ended : (remove_rest target b u).1 ≡ end =
          elim (Result-cases (unlink_if_exists system b (tick u)).0) [
            | inl (_, f) ↦ ground (arith, run, missing, f)
            | inr (_, f) ↦ ground (arith, run, missing, f)
          ] in
        subst (IsQuiet n s) (sym ended) (
          IsQuiet-trans n s (tick u) end (tick-IsQuiet system n s u q)
            (unlink_if_exists-IsStill system n b new (tick u)))
  ]

  remove_rest-Later :
      (path : Text) (b : Option Location) (s u : State)
      → IsQuiet s.calls s u
      → IsBackup s.calls (tree path) s.files u.files u.calls b
      → Later system s (remove_rest (tree path) b u).1
  remove_rest-Later path b s u q backup =
      let target = tree path in
      elim (call-Called system (unlink target) u) [
        | inr (e, run, _) ↦ IsQuiet-Later system s (remove_rest target b u).1 (
            kept-IsQuiet target b s.calls s u e
              (IsBackup-IsNew system s.calls target s.files u.files u.calls b backup) q run)
        | inl (G, e, run) ↦
            let end = pushed system (undo_remove target b) (unlink_backup b) (moved u G) in
            let ended : (remove_rest target b u).1 ≡ end = ground (arith, run) in
            let (gone, rest) = unlink-gone target u.files G e in
            subst (Later system s) (sym ended) (
              push-Later system (undo_remove target b) s end (omega (arith, q.calls))
                (ap (λ undos. undo_remove target b ∷ undos) q.stack)
                (snoc-IsHarmless (unlink_backup b) s u
                  (IsNew-IsHarmless s.calls b
                    (IsBackup-IsNew system s.calls target s.files u.files u.calls b backup))
                  q.cleanups)
                q.rows
                (Undoes-remove system s end target b (omega (arith, q.calls))
                  (IsBackup-kept system s.calls target s.files u.files G u.calls (suc u.calls) b
                    backup (omega arith)
                    (λ l _ new.
                      rest l (λ x. Older-ne s.calls {a = tree path} {l = l} tt new (sym x))))
                  gone tt (λ l old apart. rest l apart ∙ q.files l old)))
      ]

  pub remove_tree_entry-IsSafe : (path : Text) → IsSafe system (remove_tree_entry system path)
  unfolding remove_tree_entry
  remove_tree_entry-IsSafe path s =
      with_backup-Later system (tree path) (remove_rest (tree path)) s s tt (IsQuiet-refl s.calls s)
        (λ b u quiet backup _. remove_rest-Later path b s u quiet backup)
