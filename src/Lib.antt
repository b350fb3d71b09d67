-- ===== src/Lib.antt =====
-- ctxd keeps context of tracked folders in ctxfs, a path-oriented store with one catalog in SQLite.
-- Writers submit operations on documents; machines enroll and get credentials; an authorization
-- policy decides every request.
--
-- The parts, and the files that model them:
--   Paths, Globs: the rules for logical paths and for glob patterns in src/ctxfs/store.py
--     (_normalize_path, _path_is_within_prefix, _prefixes_overlap, _validate_glob_pattern,
--     _glob_matches).
--   Auth: src/ctxfs/auth.py. A set of scopes is a record of six flags; the checks of a dataclass'
--     __post_init__ are make_grant and make_principal; authorize is authorize.
--   Ownership: the table writer_prefixes of src/ctxfs/store.py as a list of rows, with register_prefix
--     and _require_authorized_path. Ownership/Exclusive follows the registrations as a step relation.
--   Submissions: the operations of src/ctxfs/models.py and the planning of a submission in
--     src/ctxfs/store.py: _reject_duplicate_move_sources and _ordered_operations in Operations,
--     _source_path_maps and _preflight_submission in Preflight. The dictionaries are association lists
--     in insertion order.
--   Catalog: the tables machines and tracked_folders of src/ctxfs/store.py as lists of rows, with their
--     unique keys: register_machine, register_folder, machine, folder, the updates of metadata, and the
--     binding of a machine's credential.
--   Credentials: src/ctxfs/credentials.py: the keys and the ledger of enrollments, with create, verify,
--     revoke, rotate, issue_machine, consume_enrollment and bind_enrollment_use.
--   Coordinator: src/ctxfs/enrollment.py: register, prepare_rotation, confirm_rotation and revoke as
--     steps on the catalog and the credential store. The catalog commits at each operation; the
--     credential store is rolled back when a call raises.
--   Execution: submit of src/ctxfs/store.py. Execution has the state (tables, files, the two stacks) and
--     the calls of the system; Files the changes of the tree with _rollback_filesystem and
--     _cleanup_filesystem; Content _normalize_text, _line_count and the encoding; Moves _move_batch,
--     _break_move_cycles and _move_cycles; Apply _put, _delete, _decision and submit itself. A callback of
--     the undo or cleanup stack is a value of the type Undo or Cleanup. The proofs go from one callback
--     (Undoing) to the stack (Unwinding), the changes of the tree (Steps, Changes, Batch), the operations
--     (Atomic), and the two ends of the try (Failure, Submit); Fuel shows that no fuel of the model runs
--     out in it. Entries compares the statements on the
--     table entries with a map, Placing follows a new document into the tree.
--   Reads: stat, read, read_lines, ls, tree and glob of src/ctxfs/store.py over the state of Execution.
--   Prelude: texts as lists of code points, results with the classes of raised errors, dictionaries,
--     tables, and the lemmas that the parts share.
--
-- Auth and Ownership use Paths; Submissions uses Ownership; Execution runs what Submissions has planned;
-- Reads looks at the state that Execution leaves; Coordinator calls Catalog and Credentials, and takes
-- its principals from Auth.
--
-- State is passed explicitly: an operation takes the rows and returns a result with the rows that it
-- leaves. An operation that raises returns no rows, as its transaction is rolled back. In Execution the
-- state comes back after a raise too, with what was written to files; a transaction takes the tables
-- back. Every call that changes the files, makes a directory or a link may raise an OSError: which ones
-- do is a parameter; Path.exists and the reads of bytes only find a file or miss it. A file is an inode
-- number with its bytes, links are locations of one file, and os.replace between two links of one file
-- does nothing. A uuid is numbered by the call that draws it, so two draws differ.
--
-- Bounds and fuel. visit of _ordered_operations has one more unit of fuel than there are moves: calls
-- nest only in calls for other moves, as a move that is under way is not entered again. The loops of
-- the registrations have fuel for two more suffixes than the table has rows: a key is taken by one row
-- at most. The loop that draws a key id ends with the list of drawn ids. The walk of
-- _move_cycles has one more unit of fuel than there are moves: it meets each source once.
--
-- Parameters: unicodedata.normalize, uuid.uuid4, fnmatch.fnmatchcase, hashlib.scrypt, the SHA-256 of a
-- request, hashlib.sha256, the results of secrets, the clock, which calls of the system raise, the walk
-- of the disk, str.casefold and bytes.decode. A time is a natural number.
--
-- Not modelled: the texts of messages, the columns' JSON, the constraints that pydantic checks on
-- models, directories and their removal when empty, errors of the database but for its unique keys, grep
-- and the status summary, the service, the servers, the clients, the tracker and the command line.
pub mod Prelude
pub mod Paths
pub mod Globs
pub mod Auth
pub mod Ownership
pub mod Submissions
pub mod Catalog
pub mod Credentials
pub mod Coordinator
pub mod Execution
pub mod Reads
