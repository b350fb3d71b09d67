-- ===== src/Reads/Unchanged.antt =====
-- The reads of src/ctxfs/store.py after a submission that raised.
use ctxd.Prelude.{
  ℕ, ◌≡◌, ◌≢◌, inl, inr, ◌∙◌, ap, List, none, some, Text, err, Error, runtime_error, Result-cases,
  Option-cases, arith, find, ◌==◌, nat_eq, list_eq,
}
use ctxd.Paths.{normalize_path}
use ctxd.Submissions.Operations.{Operation}
use ctxd.Submissions.Preflight.{EntryRow}
use ctxd.Execution.{System, State, tree}
use ctxd.Execution.Apply.{submit}
use ctxd.Execution.Submit.{submit_restores}
use ctxd.Reads.{Library, stat, require_entry, read_bytes, read, read_lines}

-- What the reads look at.
record SameView (s s' : State) : Type 0 where
  entries : s'.entries ≡ s.entries
  files : (path : Text) → s'.files (tree path) ≡ s.files (tree path)

module _ (s s' : State) (v : SameView s s') where
  stat_same : (path : Text) → stat path s' ≡ stat path s
  unfolding stat
  stat_same path = elim (Result-cases (normalize_path path)) [
    | inr (_, e) ↦ ground (arith, e)
    | inl (p, e) ↦ elim (Option-cases (find (λ (row : EntryRow). row.path == p) s.entries)) [
      | inl f ↦
          let f' : find (λ (row : EntryRow). row.path == p) s'.entries ≡ none =
            ap (find (λ (row : EntryRow). row.path == p)) v.entries ∙ f in
          ground (arith, e, f, f')
      | inr (row, f) ↦
          let f' : find (λ (row : EntryRow). row.path == p) s'.entries ≡ some row =
            ap (find (λ (row : EntryRow). row.path == p)) v.entries ∙ f in
          ground (arith, e, f, f', v.files row.path)
    ]
  ]

  require_entry_same : (path : Text) → require_entry path s' ≡ require_entry path s
  unfolding require_entry
  require_entry_same path = ground (arith, stat_same path)

  read_bytes_same : (path : Text) → read_bytes path s' ≡ read_bytes path s
  unfolding read_bytes
  read_bytes_same path = ground (arith, v.files path)

  read_same :
      (system : System) (library : Library) (path : Text) (max_bytes : ℕ)
      → read system library path max_bytes s' ≡ read system library path max_bytes s
  unfolding read
  read_same system library path max_bytes = elim (Result-cases (require_entry path s)) [
    | inr (_, e) ↦ ground (arith, e, require_entry_same path ∙ e)
    | inl (entry, e) ↦ elim (Result-cases (read_bytes entry.path s)) [
      | inr (_, f) ↦
          ground (arith, e, require_entry_same path ∙ e, f, read_bytes_same entry.path ∙ f)
      | inl (_, f) ↦
          ground (arith, e, require_entry_same path ∙ e, f, read_bytes_same entry.path ∙ f)
    ]
  ]

  read_lines_same :
      (system : System) (library : Library) (path : Text) (start_line end_line : ℕ)
      → read_lines system library path start_line end_line s'
        ≡ read_lines system library path start_line end_line s
  unfolding read_lines
  read_lines_same system library path start_line end_line =
      elim (Result-cases (require_entry path s)) [
        | inr (_, e) ↦ ground (arith, e, require_entry_same path ∙ e)
        | inl (entry, e) ↦ elim (Result-cases (read_bytes entry.path s)) [
          | inr (_, f) ↦
              ground (arith, e, require_entry_same path ∙ e, f, read_bytes_same entry.path ∙ f)
          | inl (_, f) ↦
              ground (arith, e, require_entry_same path ∙ e, f, read_bytes_same entry.path ∙ f)
        ]
      ]

-- After a submission that raised something else than the failure of its rollback, a read of any path,
-- of bytes or of lines, has the result that it had before.
pub reads_unchanged :
    (system : System) (library : Library) (user writer : Text) (operations : List Operation)
    (s : State) {e : Error}
    → (submit system user writer operations s).0 ≡ err e
    → e ≢ runtime_error
    → let s' = (submit system user writer operations s).1 in
      ((path : Text) (max_bytes : ℕ)
        → read system library path max_bytes s' ≡ read system library path max_bytes s)
      × ((path : Text) (start_line end_line : ℕ)
          → read_lines system library path start_line end_line s'
            ≡ read_lines system library path start_line end_line s)
reads_unchanged system library user writer operations s raised other =
    let s' = (submit system user writer operations s).1 in
    let (entries, _, files) = submit_restores system user writer operations s raised other in
    let v : SameView s s' = record { entries = entries; files = files } in
    (read_same s s' v system library, read_lines_same s s' v system library)
