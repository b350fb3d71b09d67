-- ===== src/Execution/Failure.antt =====
-- The two ends of the `try` in `submit` of src/ctxfs/store.py.
use ctxd.Prelude.{
  ◌⊎◌, suc, ◌≡◌, ◌≢◌, inl, inr, refl, sym, ◌∙◌, ap, subst, List, [], ◌∷◌, Option, none, some, ◌==◌,
  nat_eq, list_eq, Text, Result, ok, err, Error, runtime_error, Result-cases, arith, All,
  update_rows, Time,
}
use ctxd.Submissions.Operations.{Operation, ordered_operations, reject_duplicate_move_sources}
use ctxd.Submissions.Preflight.{source_path_maps, preflight_submission}
use ctxd.Execution.{System, tree, State, SubmissionRow, SubmissionState, applied, failed, ◌>>◌}
use ctxd.Execution.Files.{undo_errors, rollback_filesystem, cleanup_filesystem}
use ctxd.Execution.Unwinding.{IsHarmless, Unwinds}
use ctxd.Execution.Atomic.{apply_operations-IsSafe}
use ctxd.Execution.Rollback.{
  undo_errors-IsFileAction, undo_errors_total, KeepsTree, cleanup-Cleaned,
}
use ctxd.Execution.Apply.{apply_operations, set_state, transaction, try_submission, fail_submission}

-- UPDATE submissions SET state = ?, error = ?, updated_at = ? WHERE submission_id = ?
abbrev pub with_state :
    Text → SubmissionState → Option Error → Time → List SubmissionRow → List SubmissionRow
with_state submission_id state error time =
    update_rows (λ row. row.submission_id == submission_id)
      (λ row. record row { state = state; error = error; updated_at = time })

module _ (system : System) (submission_id user writer : Text) (operations : List Operation) where
  -- After a raise in the `try` the tables are those of `t`, and the callbacks lead back to its files.
  pub record Failed (t t' : State) : Type 0 where
    pub entries : t'.entries ≡ t.entries
    pub decisions : t'.decisions ≡ t.decisions
    pub submissions : t'.submissions ≡ t.submissions
    pub unwinds : Unwinds system t.calls t.files t'
    pub harmless : All IsHarmless t'.cleanup_stack

  -- Without a raise the submission is marked as applied.
  pub record Applied (t t' : State) : Type 0 where
    pub time : Time
    pub submissions : t'.submissions ≡ with_state submission_id applied none time t.submissions
    pub harmless : All IsHarmless t'.cleanup_stack

  abbrev pub Ends : State → Result (Unit {0}) × State → Type 0
  Ends t (ok _, t') = Applied t t'
  Ends t (err e, t') = Failed t t'

  abbrev IsFresh : State → Type 0
  IsFresh t = Unwinds system t.calls t.files t × All IsHarmless t.cleanup_stack

  stopped-Ends :
      (t : State) (out : Result (Unit {0}) × State) (e : Error)
      → IsFresh t
      → out ≡ (err e, t)
      → Ends t out
  stopped-Ends t out e (w, h) same =
      subst (Ends t) (sym same)
        (record { entries = refl; decisions = refl; submissions = refl; unwinds = w; harmless = h })

  transaction-Ends :
      (ordered : List Operation) (t : State)
      → IsFresh t
      → Ends t (
          transaction
            (apply_operations system user writer [] ordered
              >> set_state system submission_id applied none)
            t)
  unfolding transaction set_state
  transaction-Ends ordered t (w, h) =
      let apply = apply_operations system user writer [] ordered in
      let run = transaction (apply >> set_state system submission_id applied none) t in
      let u = (apply t).1 in
      let later = apply_operations-IsSafe system user writer [] ordered t in
      elim (Result-cases (apply t).0) [
        | inr (e, f) ↦
            let back : State = record u {
              entries = t.entries;
              decisions = t.decisions;
              submissions = t.submissions;
            } in
            let ended : run ≡ (err e, back) = ground (arith, f) in
            subst (Ends t) (sym ended) (record {
              entries = refl;
              decisions = refl;
              submissions = refl;
              unwinds = later.unwinds t.calls t.files w;
              harmless = later.harmless h;
            })
        | inl (_, f) ↦
            let end : State = record u {
              submissions =
                  with_state submission_id applied none (system.clock u.calls) u.submissions;
              calls = suc u.calls;
            } in
            let ended : run ≡ (ok tt, end) = ground (arith, f) in
            subst (Ends t) (sym ended) (record {
              time = system.clock u.calls;
              submissions =
                  ap (with_state submission_id applied none (system.clock u.calls)) later.rows;
              harmless = later.harmless h;
            })
      ]

  pub try_submission-Ends :
      (t : State)
      → IsFresh t
      → Ends t (try_submission system submission_id user writer operations t)
  unfolding try_submission
  try_submission-Ends t fresh =
      let run = try_submission system submission_id user writer operations t in
      let maps = source_path_maps t.entries in
      elim (Result-cases (reject_duplicate_move_sources writer operations)) [
        | inr (e, f) ↦ stopped-Ends t run e fresh (ground (arith, f))
        | inl (_, f) ↦
            elim (Result-cases (ordered_operations writer maps.paths_by_source operations)) [
              | inr (e, g) ↦ stopped-Ends t run e fresh (ground (arith, f, g))
              | inl (ordered, g) ↦
                  elim (Result-cases
                    (preflight_submission t.prefixes user writer t.entries ordered)) [
                      | inr (e, h) ↦ stopped-Ends t run e fresh (ground (arith, f, g, h))
                      | inl (_, h) ↦
                          let goes : run
                              ≡ transaction
                                  (apply_operations system user writer [] ordered
                                    >> set_state system submission_id applied none)
                                  t =
                            ground (arith, f, g, h) in
                          subst (Ends t) (sym goes) (transaction-Ends ordered t fresh)
                    ]
            ]
      ]

  -- What the handler of the exception `reason` leaves of the state before the `try`.
  pub record Restored (reason : Error) (t : State) (out : Result (Unit {0}) × State) : Type 0 where
    pub error : Error
    pub raised : out.0 ≡ err error
    pub cause : (error ≡ reason) ⊎ (error ≡ runtime_error)
    pub entries : out.1.entries ≡ t.entries
    pub decisions : out.1.decisions ≡ t.decisions
    pub time : Time
    pub submissions :
        out.1.submissions ≡ with_state submission_id failed (some reason) time t.submissions
    pub tree : error ≢ runtime_error → KeepsTree system t out.1

  -- The state after the handler's update of the submission.
  abbrev marked : Error → State → State
  marked e u = record u {
    submissions = with_state submission_id failed (some e) (system.clock u.calls) u.submissions;
    calls = suc u.calls;
  }

  abbrev cleaned : State → Result (Unit {0}) × State
  cleaned v = cleanup_filesystem system v.cleanup_stack v

  -- What holds whichever exception is raised.
  handled-Restored :
      (e error : Error) (t t' : State) (out : Result (Unit {0}) × State)
      → Failed t t'
      → let end = (cleaned (marked e (undo_errors system t'.undo_stack t').1)).1 in
        out ≡ (err error, end)
        → (error ≡ e) ⊎ (error ≡ runtime_error)
        → (error ≢ runtime_error → (undo_errors system t'.undo_stack t').0 ≡ ok [])
        → Restored e t out
  handled-Restored e error t t' out f same cause clean_run =
      let u = (undo_errors system t'.undo_stack t').1 in
      let only = undo_errors-IsFileAction system t'.undo_stack t' in
      let v = marked e u in
      let clean =
        cleanup-Cleaned system v.cleanup_stack v
          (subst (All IsHarmless) (sym only.cleanups) f.harmless) in
      subst (Restored e t) (sym same) (record {
        error = error;
        raised = refl;
        cause = cause;
        entries = clean.only.entries ∙ only.entries ∙ f.entries;
        decisions = clean.only.decisions ∙ only.decisions ∙ f.decisions;
        time = system.clock u.calls;
        submissions =
            clean.only.submissions
            ∙ ap (with_state submission_id failed (some e) (system.clock u.calls))
                (only.submissions ∙ f.submissions);
        tree =
            λ n path. clean.tree path ∙ f.unwinds t' (λ l old. refl) (clean_run n) (tree path) tt;
      })

  pub fail_submission-Restored :
      (e : Error) (t t' : State)
      → Failed t t'
      → Restored e t (fail_submission system submission_id e t')
  unfolding fail_submission rollback_filesystem set_state
  fail_submission-Restored e t t' f =
      let (errors, total) = undo_errors_total system t'.undo_stack t' in
      let v = marked e (undo_errors system t'.undo_stack t').1 in
      let only = undo_errors-IsFileAction system t'.undo_stack t' in
      let clean =
        cleanup-Cleaned system v.cleanup_stack v
          (subst (All IsHarmless) (sym only.cleanups) f.harmless) in
      elim errors
          as (λ errors.
            (undo_errors system t'.undo_stack t').0 ≡ ok errors
            → Restored e t (fail_submission system submission_id e t')) [
              | [] ↦ λ none_raised.
                  handled-Restored e e t t' _ f (ground (arith, none_raised, clean.done)) (inl refl)
                    (λ _. none_raised)
              | x ∷ more ↦ λ raised.
                  handled-Restored e runtime_error t t' _ f (ground (arith, raised, clean.done))
                    (inr refl) (λ n. absurd (n refl))
            ]
        total
