-- ===== src/Execution/Tests.antt =====
-- Submissions of a writer that owns `docs`, run on an empty store and on one with two files.
use ctxd.Prelude.{
  ◌≢◌, out_of_fuel, runtime_error, ℕ, ◌≡◌, refl, Bool, true, false, List, [], ◌∷◌, map, Option,
  none, some, Text, codes, Result, ok, err, nat_eq, list_eq, ◌==◌, has_duplicates, ◌++◌, os_error,
  find, ◌⊎◌, Error,
}
use ctxd.Ownership.{WriterPrefix}
use ctxd.Submissions.Operations.{
  Operation, PutOperation, MoveOperation, put, move, delete, decision, editable,
}
use ctxd.Execution.{System, Location, tree, object, State, SubmissionRow, applied, failed}
use ctxd.Execution.Moves.{move_cycles}
use ctxd.Execution.Apply.{submit}
use ctxd.Execution.Submit.{tried, submit_restores, submit_ends}

abbrev pub user : Text
user = codes "u"

abbrev pub writer : Text
writer = codes "w"

-- Calls never fail, and the hash is the content.
abbrev pub calm : System
calm = record { fails = λ _. false; clock = λ n. n; uuid = λ n. n ∷ []; sha256 = λ data_. data_ }

abbrev pub empty_store : State
empty_store = record {
  prefixes =
      (record { user_id = user; writer_id = writer; prefix = codes "docs"; created_at = 0 }) ∷ [];
  entries = [];
  decisions = [];
  submissions = [];
  files = λ _. none;
  undo_stack = [];
  cleanup_stack = [];
  calls = 0;
}

abbrev put_at : Text → Text → Text → Operation
put_at source path text = put (record {
  path = path;
  source_key = source;
  source_version = codes "1";
  doc_class = editable;
  file_format = codes "text";
  text = text;
  provenance = record {
    producer = codes "p";
    producer_version = codes "1";
    confidence = none;
    warnings = [];
  };
})

abbrev move_to : Text → Text → Text → Operation
move_to source path content = move (record {
  source_key = source;
  path = path;
  source_version = codes "2";
  expected_content_hash = codes "sha256:" ++ content;
})

abbrev pub two_files : State
two_files =
    (submit calm user writer
      (put_at (codes "1") (codes "docs/a") (codes "x")
        ∷ put_at (codes "2") (codes "docs/b") (codes "y")
        ∷ [])
      empty_store).1

-- The fortieth call raises.
abbrev pub flaky : System
flaky = record calm { fails = λ n. n == 40 }

abbrev pub new_texts : List Operation
new_texts =
    put_at (codes "1") (codes "docs/a") (codes "z")
    ∷ put_at (codes "2") (codes "docs/c") (codes "w")
    ∷ []

abbrev pub broken : Result SubmissionRow × State
broken = submit flaky user writer new_texts two_files

cycle_found :
    move_cycles ((codes "a", codes "b") ∷ (codes "b", codes "a") ∷ [])
    ≡ ok ((codes "a" ∷ codes "b" ∷ []) ∷ [])
unfolding move_cycles ctxd.Prelude.mem ctxd.Prelude.Dict.get ctxd.Prelude.list_beq
cycle_found = refl

pub broken_raised : broken.0 ≡ err os_error
unfolding ctxd.Execution.location_beq ctxd.Execution.call ctxd.Execution.Files.link
    ctxd.Execution.Files.replace ctxd.Execution.Files.unlink ctxd.Execution.Content.normalize_text
    ctxd.Execution.Content.encode_character ctxd.Execution.Content.encode
    ctxd.Execution.Apply.submit ctxd.Submissions.Operations.moves_of
    ctxd.Submissions.Operations.reject_duplicate_move_sources
    ctxd.Submissions.Operations.ordered_operations ctxd.Submissions.Preflight.source_path_maps
    ctxd.Submissions.Preflight.require_unoccupied_path ctxd.Submissions.Preflight.preflight_put
    ctxd.Submissions.Preflight.preflight_step ctxd.Submissions.Preflight.preflight_loop
    ctxd.Submissions.Preflight.preflight_submission ctxd.Ownership.require_authorized_path
    ctxd.Paths.is_dots ctxd.Paths.has_drive_prefix ctxd.Paths.posix_root ctxd.Paths.posix_parts
    ctxd.Paths.normalize_path ctxd.Paths.path_is_within_prefix ctxd.Prelude.Dict.get
    ctxd.Prelude.Dict.put ctxd.Prelude.find ctxd.Prelude.has_control_character ctxd.Prelude.split
    ctxd.Prelude.join ctxd.Prelude.update_rows ctxd.Prelude.any_result ctxd.Prelude.list_beq
broken_raised = refl

-- The fortieth call fails, the rollback does not.
submit_restores_example :
    (broken.1.entries ≡ two_files.entries)
    × (broken.1.decisions ≡ two_files.decisions)
    × ((path : Text) → broken.1.files (tree path) ≡ two_files.files (tree path))
submit_restores_example =
    submit_restores flaky user writer new_texts two_files {e = os_error} broken_raised (λ same. cc)

no_submissions : find (λ row. row.submission_id == calm.uuid 0) empty_store.submissions ≡ none
unfolding find
no_submissions = refl

abbrev first_batch : List Operation
first_batch = put_at (codes "1") (codes "docs/a") (codes "x") ∷ []

submit_ends_example :
    let out = submit calm user writer first_batch empty_store in
    let body = tried calm user writer first_batch empty_store in
    let found = find (λ row. row.submission_id == calm.uuid 0) out.1.submissions in
    ((row : SubmissionRow) × (out.0 ≡ ok row)
      × (found ≡ some row)
      × (row.state ≡ applied)
      × (row.operation_count ≡ 1)
      × (body.0 ≡ ok tt))
    ⊎ ((e reason : Error) × (row : SubmissionRow) × (out.0 ≡ err e)
        × (found ≡ some row)
        × (row.state ≡ failed)
        × (row.error ≡ some reason)
        × (body.0 ≡ err reason)
        × (reason ≢ out_of_fuel)
        × ((e ≡ reason) ⊎ (e ≡ runtime_error)))
submit_ends_example = submit_ends calm user writer first_batch empty_store no_submissions
