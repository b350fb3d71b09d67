-- ===== src/Execution.antt =====
-- The execution of a submission in src/ctxfs/store.py: the state that it changes, and its calls of the
-- operating system.
pub mod Files
pub mod Content
pub mod Moves
pub mod Apply
pub mod Journal
pub mod Undoing
pub mod Unwinding
pub mod Steps
pub mod Changes
pub mod Batch
pub mod Atomic
pub mod Rollback
pub mod Failure
pub mod Fuel
pub mod Submit
pub mod Placing
pub mod Entries
pub mod Tests
use ctxd.Prelude.{
  ℕ, suc, ◌≡◌, refl, Bool, true, false, ◌&&◌, List, [], ◌∷◌, Option, none, some, ◌==◌, nat_eq,
  list_eq, pair_eq, option_eq, if◌then◌else◌, Text, Result, ok, err, Error, os_error,
  file_not_found_error, file_exists_error, Time, Eq, eq_iff, arith, ◌↔◌,
}
use ctxd.Ownership.{WriterPrefix}
use ctxd.Submissions.Operations.{DecisionState}
use ctxd.Submissions.Preflight.{EntryRow}

-- What the program takes from the system. Each of its calls has a number: `fails` tells which calls
-- raise an OSError, `clock` is time.time(), `uuid` is str(uuid.uuid4()).
pub record System : Type 0 where
  pub fails : ℕ → Bool
  pub clock : ℕ → Time
  pub uuid : ℕ → Text
  pub sha256 : List ℕ → Text

-- The files of one user below `tree` and `objects`, and those below `undo`, whose names
-- f"{prefix}-{uuid.uuid4()}" are given by the prefix and the number of the call.
pub data Location : Type 0 where
  tree : Text → Location
  object : Text → Location
  undo : Text → ℕ → Location

unfoldable pub location_beq : Location → Location → Bool
location_beq (tree p) (tree q) = p == q
location_beq (object p) (object q) = p == q
location_beq (undo p m) (undo q n) = p == q && m == n
location_beq _ _ = false

pub location_beq_iff : (a b : Location) → (location_beq a b ≡ true) ↔ (a ≡ b)
unfolding location_beq
location_beq_iff (tree p) (tree q) = ground (arith, eq_iff p q)
location_beq_iff (tree p) (object q) = ground arith
location_beq_iff (tree p) (undo q n) = ground arith
location_beq_iff (object p) (tree q) = ground arith
location_beq_iff (object p) (object q) = ground (arith, eq_iff p q)
location_beq_iff (object p) (undo q n) = ground arith
location_beq_iff (undo p m) (tree q) = ground arith
location_beq_iff (undo p m) (object q) = ground arith
location_beq_iff (undo p m) (undo q n) = ground (arith, eq_iff p q, eq_iff m n)

instance abbrev pub location_eq : Eq Location
location_eq = record { beq = location_beq; beq_iff = location_beq_iff }

-- A file: its inode number, and its bytes. Nothing writes to a file that has a second link.
abbrev pub File : Type 0
File = ℕ × List ℕ

-- The directories of the store, without the empty ones.
abbrev pub Files : Type 0
Files = Location → Option File

abbrev pub set_file : Location → Option File → Files → Files
set_file l file files k = if k == l then file else files k

-- A callback of `undo_stack`.
pub data Undo : Type 0 where
  remove_object : Text → Undo
  undo_replace : Location → Option Location → Undo
  undo_rename : Location → Location → Option Location → Undo
  undo_remove : Location → Option Location → Undo

-- A callback of `cleanup_stack`.
pub data Cleanup : Type 0 where
  unlink_backup : Option Location → Cleanup
  remove_old_object : Text → Cleanup

-- A row of `decisions`, without its user_id.
pub record DecisionRow : Type 0 where
  pub writer_id : Text
  pub source_key : Text
  pub source_version : Text
  pub path : Option Text
  pub state : DecisionState
  pub failure_code : Option Text
  pub failure_message : Option Text
  pub retry_after_seconds : Option ℕ
  pub created_at : Time
  pub updated_at : Time

pub data SubmissionState : Type 0 where
  queued applied failed discarded : SubmissionState

-- A row of `submissions`, whose error is the class of the exception.
pub record SubmissionRow : Type 0 where
  pub submission_id : Text
  pub user_id : Text
  pub writer_id : Text
  pub state : SubmissionState
  pub operation_count : ℕ
  pub error : Option Error
  pub created_at : Time
  pub updated_at : Time

-- The database, the files and the two stacks, the undo stack with its last callback first.
-- `calls` is the number of calls of the system so far.
pub record State : Type 0 where
  pub prefixes : List WriterPrefix
  pub entries : List EntryRow
  pub decisions : List DecisionRow
  pub submissions : List SubmissionRow
  pub files : Files
  pub undo_stack : List Undo
  pub cleanup_stack : List Cleanup
  pub calls : ℕ

-- A method: the state comes back after a raise too.
abbrev pub Action : Type 0 → Type 0
Action A = State → Result A × State

module _ {A : Type 0} where
  abbrev pub pure : A → Action A
  pure a s = (ok a, s)

  abbrev pub raise : Error → Action A
  raise e s = (err e, s)

  abbrev pub lift : Result A → Action A
  lift r s = (r, s)

  abbrev pub gets : (State → A) → Action A
  gets f s = (ok (f s), s)

  -- try: ... except Exception as exc: ...
  abbrev pub try_except : Action A → (Error → Action A) → Action A
  try_except m handler s = let (r, s') = m s in elim r [ ok a ↦ (ok a, s') | err e ↦ handler e s' ]

infixl 5 ◌>>=◌ ◌>>◌
abbrev pub ◌>>=◌ : {A B : Type 0} → Action A → (A → Action B) → Action B
◌>>=◌ m f s = let (r, s') = m s in elim r [ ok a ↦ f a s' | err e ↦ raise e s' ]

abbrev pub ◌>>◌ : {B : Type 0} → Action (Unit {0}) → Action B → Action B
m >> k = m >>= λ _. k

abbrev pub modify : (State → State) → Action (Unit {0})
modify f s = (ok tt, f s)

-- for x in xs: body(x)
unfoldable pub for_each : {A : Type 0} → (A → Action (Unit {0})) → List A → Action (Unit {0})
for_each body [] = pure tt
for_each body (x ∷ xs) = body x >> for_each body xs

abbrev pub tick : State → State
tick s = record s { calls = suc s.calls }

-- The number of a new uuid
abbrev pub draw : Action ℕ
draw s = (ok s.calls, tick s)

module _ (system : System) where
  abbrev pub now : Action Time
  now s = (ok (system.clock s.calls), tick s)

  -- A call that works on the files, or raises.
  unfoldable pub call : (Files → Result Files) → Action (Unit {0})
  call operation s =
      if system.fails s.calls then (err os_error, tick s) else elim (operation s.files) [
        | ok files ↦ (ok tt, record s { files = files; calls = suc s.calls })
        | err e ↦ (err e, tick s)
      ]
