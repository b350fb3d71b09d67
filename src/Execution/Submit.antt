-- ===== src/Execution/Submit.antt =====
-- `submit` of src/ctxfs/store.py as a whole.
use ctxd.Prelude.{
  suc, ◌≡◌, ◌≢◌, ◌⊎◌, inl, inr, refl, sym, ◌∙◌, ap, subst, Bool, true, List, [], ◌∷◌, ◌++◌, Option,
  none, some, ◌==◌, nat_eq, list_eq, if◌then◌else◌, Text, Result, ok, err, Error, runtime_error,
  out_of_fuel, Result-cases, Option-cases, arith, Time, find, find-snoc, find-passes, find-append,
  length, eq_refl, find-update_rows,
}
use ctxd.Submissions.Operations.{Operation}
use ctxd.Execution.{System, tree, State, SubmissionRow, SubmissionState, queued, applied, failed}
use ctxd.Execution.Files.{undo_errors, cleanup_filesystem}
use ctxd.Prelude.Fuel.{err-real}
use ctxd.Execution.Fuel.Batch.{try_submission-IsFueled}
use ctxd.Execution.Rollback.{cleanup-Cleaned}
use ctxd.Execution.Failure.{
  Failed, Applied, Ends, Restored, with_state, try_submission-Ends, fail_submission-Restored,
}
use ctxd.Execution.Apply.{try_submission, fail_submission, insert_submission, submission, submit}

module _ (system : System) (user writer : Text) (operations : List Operation) (s : State) where
  abbrev id : Text
  id = system.uuid s.calls

  -- The row that `submit` begins with
  abbrev new_row : SubmissionRow
  new_row = record {
    submission_id = id;
    user_id = user;
    writer_id = writer;
    state = queued;
    operation_count = length operations;
    error = none;
    created_at = system.clock (suc s.calls);
    updated_at = system.clock (suc s.calls);
  }

  -- The state before the `try`.
  abbrev opened : State
  opened = record s {
    submissions = s.submissions ++ new_row ∷ [];
    undo_stack = [];
    cleanup_stack = [];
    calls = suc (suc s.calls);
  }

  -- The `try`
  abbrev pub tried : Result (Unit {0}) × State
  tried = try_submission system id user writer operations opened

  opened-IsFresh : Ends system id user writer operations opened tried
  unfolding undo_errors
  opened-IsFresh =
      try_submission-Ends system id user writer operations opened
        (λ t agree clean l old. agree l old, tt)

  -- WHERE submission_id = ?
  abbrev pub is_this : SubmissionRow → Bool
  is_this row = row.submission_id == id

  -- The row after its update.
  abbrev stated : SubmissionState → Option Error → Time → SubmissionRow → SubmissionRow
  stated state error time row = record row { state = state; error = error; updated_at = time }

  abbrev run : Result SubmissionRow × State
  run = submit system user writer operations s

  -- `submit` after a `try` that ended well.
  record Done : Type 0 where
    time : Time
    end : State
    calm : tried.0 ≡ ok tt
    ends : run ≡ submission id end
    rows : end.submissions ≡ with_state id applied none time opened.submissions

  -- `submit` after a `try` that raised.
  record Refused : Type 0 where
    reason : Error
    thrown : tried.0 ≡ err reason
    out : Result (Unit {0}) × State
    kept : Restored system id user writer operations reason opened out
    ends : run ≡ (err kept.error, out.1)

  done-Done :
      (t' : State) → tried ≡ (ok tt, t') → Applied system id user writer operations opened t' → Done
  unfolding submit insert_submission
  done-Done t' e a =
      let clean = cleanup-Cleaned system t'.cleanup_stack t' a.harmless in
      record {
        time = a.time;
        calm = ap (λ r. r.0) e;
        end = (cleanup_filesystem system t'.cleanup_stack t').1;
        ends = ground (arith, e, clean.done);
        rows = clean.only.submissions ∙ a.submissions;
      }

  refused-Refused :
      (x : Error) (t' : State)
      → tried ≡ (err x, t')
      → Failed system id user writer operations opened t'
      → Refused
  unfolding submit insert_submission
  refused-Refused x t' e f =
      let kept = fail_submission-Restored system id user writer operations x opened t' f in
      record {
        reason = x;
        thrown = ap (λ r. r.0) e;
        out = fail_submission system id x t';
        kept = kept;
        ends = ground (arith, e, kept.raised);
      }

  run-ends : Done ⊎ Refused
  run-ends =
      let pair : Result (Unit {0}) → Result (Unit {0}) × State = λ r. (r, tried.1) in
      elim (Result-cases tried.0) [
        | inl (x, e) ↦ inl (
            done-Done tried.1 (ap pair e)
              (subst (λ r. Ends system id user writer operations opened (pair r)) e opened-IsFresh))
        | inr (x, e) ↦ inr (
            refused-Refused x tried.1 (ap pair e)
              (subst (λ r. Ends system id user writer operations opened (pair r)) e opened-IsFresh))
      ]

  -- The row that stands for the submission when its body runs.
  opened-find : (row : SubmissionRow) × (find is_this opened.submissions ≡ some row)
  opened-find = elim (Option-cases (find is_this s.submissions)) [
    | inl e ↦ (new_row, find-snoc is_this s.submissions new_row e (eq_refl id))
    | inr (row, e) ↦ (row, find-append is_this s.submissions (new_row ∷ []) e)
  ]

  stated-find :
      (state : SubmissionState) (error : Option Error) (time : Time) (row : SubmissionRow)
      (rows : List SubmissionRow)
      → rows ≡ with_state id state error time opened.submissions
      → find is_this opened.submissions ≡ some row
      → find is_this rows ≡ some (stated state error time row)
  stated-find state error time row rows same found =
      let updated =
        find-update_rows is_this is_this (stated state error time) opened.submissions row
          (λ x. refl) found in
      let here : is_this row ≡ true = find-passes is_this opened.submissions found in
      ap (find is_this) same
      ∙ updated
      ∙ ap (λ b. some (if b then stated state error time row else row)) here

  -- A `submit` that raises something else than the failure of its rollback leaves the entries, the
  -- decisions and every file of the tree as they were, whichever calls of the system fail.
  pub submit_restores :
      {e : Error}
      → run.0 ≡ err e
      → e ≢ runtime_error
      → (run.1.entries ≡ s.entries)
        × (run.1.decisions ≡ s.decisions)
        × ((path : Text) → run.1.files (tree path) ≡ s.files (tree path))
  unfolding submission
  submit_restores {e} raised other = elim run-ends [
    | inl d ↦
        let (row, found) = opened-find in
        let later = stated-find applied none d.time row d.end.submissions d.rows found in
        absurd (ground (arith, d.ends, later, raised))
    | inr r ↦
        let same : r.kept.error ≡ e = ground (arith, r.ends, raised) in
        let state = ap (λ x. x.1) r.ends in
        let calm : r.kept.error ≢ runtime_error = λ h. other (sym same ∙ h) in
        (
          ap (λ x. x.entries) state ∙ r.kept.entries,
          ap (λ x. x.decisions) state ∙ r.kept.decisions,
          λ path. ap (λ x. x.files (tree path)) state ∙ r.kept.tree calm path,
        )
  ]

  -- Every `submit` ends the submission. Either its `try` has not raised, and it returns the row,
  -- marked as applied and with the number of operations, and the table holds it. Or its `try` has raised an exception of the source, never the
  -- end of the model's fuel; then it raises this exception, or the RuntimeError of a rollback that
  -- failed, and the table holds the row marked as failed with the exception of the `try`. The id is one
  -- that no row has.
  pub submit_ends :
      find is_this s.submissions ≡ none
      → let found = find is_this run.1.submissions in
        ((row : SubmissionRow) × (run.0 ≡ ok row)
          × (found ≡ some row)
          × (row.state ≡ applied)
          × (row.operation_count ≡ length operations)
          × (tried.0 ≡ ok tt))
        ⊎ ((e reason : Error) × (row : SubmissionRow) × (run.0 ≡ err e)
            × (found ≡ some row)
            × (row.state ≡ failed)
            × (row.error ≡ some reason)
            × (tried.0 ≡ err reason)
            × (reason ≢ out_of_fuel)
            × ((e ≡ reason) ⊎ (e ≡ runtime_error)))
  unfolding submission
  submit_ends new =
      let found = find-snoc is_this s.submissions new_row new (eq_refl id) in
      elim run-ends [
        | inl d ↦
            let row = stated applied none d.time new_row in
            let later = stated-find applied none d.time new_row d.end.submissions d.rows found in
            let ends : run ≡ (ok row, d.end) = ground (arith, d.ends, later) in
            inl (
              row,
              ap (λ x. x.0) ends,
              ap (λ x. find is_this x.1.submissions) ends ∙ later,
              refl,
              refl,
              d.calm,
            )
        | inr r ↦
            let k = r.kept in
            let later =
              stated-find failed (some r.reason) k.time new_row r.out.1.submissions k.submissions
                found in
            inr (
              k.error,
              r.reason,
              stated failed (some r.reason) k.time new_row,
              ap (λ x. x.0) r.ends,
              ap (λ x. find is_this x.1.submissions) r.ends ∙ later,
              refl,
              refl,
              r.thrown,
              err-real tried.0
                  ((try_submission-IsFueled system id user writer operations).at opened) r.thrown,
              k.cause,
            )
      ]
