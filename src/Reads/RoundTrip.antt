-- ===== src/Reads/RoundTrip.antt =====
-- `_put` of src/ctxfs/store.py, and a read of what it has stored.
use ctxd.Prelude.{
  ℕ, ◌≤◌, ◌<◌, ◌≡◌, inl, inr, refl, sym, ◌∙◌, ap, subst, Bool, true, false, List, [], ◌∷◌, ◌++◌,
  none, some, ◌==◌, nat_eq, list_eq, Text, ok, length, Result-cases, Bool-cases, eq_refl, arith,
  find, find-none, find-snoc, any,
}
use ctxd.Paths.{normalize_path}
use ctxd.Paths.Canonical.{normalize_path_iff}
use ctxd.Ownership.{require_authorized_path}
use ctxd.Submissions.Operations.{PutOperation}
use ctxd.Submissions.Preflight.{EntryRow}
use ctxd.Execution.{System, State, File, tree, tick, ◌>>=◌}
use ctxd.Execution.Content.{normalize_text, encode, hash_of, line_count}
use ctxd.Execution.Moves.{is_source, entry_by_source_key, update_entries}
use ctxd.Execution.Apply.{
  apply_put, write_entry, place_object, store_object, save_entry, upsert_entry,
}
use ctxd.Execution.Placing.{>>=-ok, store_object-Holds}
use ctxd.Reads.{Library, stat, require_entry, read_bytes, read}

-- A read of a file whose entry is the first at its path.
read_found :
    (system : System) (library : Library) (path : Text) (max_bytes : ℕ) (s : State) (row : EntryRow)
    (f : File)
    → normalize_path path ≡ ok path
    → find (λ (r : EntryRow). r.path == path) s.entries ≡ some row
    → row.path ≡ path
    → s.files (tree path) ≡ some f
    → row.content_hash ≡ hash_of system f.1
    → 0 < max_bytes
    → length f.1 ≤ max_bytes
    → read system library path max_bytes s
      ≡ ok (record {
        path = path;
        text = library.decode_replace f.1;
        content_hash = hash_of system f.1;
        complete = true;
        stopped_by = none;
      })
unfolding read require_entry stat read_bytes
read_found system library path max_bytes s row (inode, data_) canonical found at there hash positive
      fits =
    ground (
      arith,
      canonical,
      found,
      at,
      ap (λ p. s.files (tree p)) at ∙ there,
      there,
      hash,
      positive,
      fits,
      eq_refl (hash_of system data_),
    )

any-none :
    (test : EntryRow → Bool) (rows : List EntryRow) → find test rows ≡ none → any test rows ≡ false
unfolding find
any-none test [] h = refl
any-none test (x ∷ rows) h = ground (arith, h, any-none test rows)

-- An insertion of a new source at a free path is found at its path.
upsert_entry-find :
    (row : EntryRow) (rows rows' : List EntryRow)
    → find (is_source row.writer_id row.source_key) rows ≡ none
    → upsert_entry row rows ≡ ok rows'
    → find (λ (r : EntryRow). r.path == row.path) rows' ≡ some row
unfolding upsert_entry
upsert_entry-find row rows rows' new h =
    let at_path : EntryRow → Bool = λ r. r.path == row.path in
    let fresh = any-none (is_source row.writer_id row.source_key) rows new in
    elim (Bool-cases (any at_path rows)) [
      | inl e ↦ absurd (ground (arith, fresh, e, h))
      | inr e ↦
          let same : rows ++ row ∷ [] ≡ rows' = ground (arith, fresh, e, h) in
          ap (find at_path) (sym same)
          ∙ find-snoc at_path rows row (find-none at_path rows e) (eq_refl row.path)
    ]

module _ (system : System) (writer : Text) (o : PutOperation) (path text : Text)
    (data_ : List ℕ) where
  -- A row for the content, found first at the path, and the content in the tree.
  record Stored (s : State) : Type 0 where
    row : EntryRow
    inode : ℕ
    found : find (λ (r : EntryRow). r.path == path) s.entries ≡ some row
    at : row.path ≡ path
    hash : row.content_hash ≡ hash_of system data_
    there : s.files (tree path) ≡ some (inode, data_)

  write_entry-Stored :
      (s : State)
      → find (is_source writer o.source_key) s.entries ≡ none
      → (write_entry system writer o path text data_ s).0 ≡ ok tt
      → Stored (write_entry system writer o path text data_ s).1
  unfolding write_entry entry_by_source_key place_object save_entry update_entries
  write_entry-Stored s new done =
      let time = system.clock s.calls in
      let store = store_object system none path data_ in
      let save =
        λ (object_id : Text). save_entry system writer o path text data_ time none object_id in
      let run = write_entry system writer o path text data_ s in
      let begins : run ≡ (store >>= save) (tick s) = ground (arith, new) in
      let (object_id, stored, saves) =
        >>=-ok store save (tick s) (ap (λ x. x.0) (sym begins) ∙ done) in
      let (inode, (there, rows)) = store_object-Holds system path object_id data_ (tick s) stored in
      let u = (store (tick s)).1 in
      let row : EntryRow = record {
        writer_id = writer;
        path = path;
        source_key = o.source_key;
        source_version = o.source_version;
        doc_class = o.doc_class;
        file_format = o.file_format;
        content_hash = hash_of system data_;
        size_bytes = length data_;
        line_count = line_count text;
        object_id = object_id;
        provenance = o.provenance;
        created_at = time;
        updated_at = time;
      } in
      let saved = ap (λ x. x.0) (sym (begins ∙ saves)) ∙ done in
      elim (Result-cases (upsert_entry row u.entries)) [
        | inr (x, e) ↦ absurd (ground (arith, e, saved))
        | inl (rows', e) ↦
            let end : State = record u { entries = rows' } in
            let ends : run.1 ≡ end = ap (λ x. x.1) (begins ∙ saves) ∙ ground (arith, e) in
            let absent = ap (find (is_source writer o.source_key)) rows ∙ new in
            subst Stored (sym ends) (record {
              row = row;
              inode = inode;
              found = upsert_entry-find row u.entries rows' absent e;
              at = refl;
              hash = refl;
              there = there;
            })
      ]

-- A document of a new source that `_put` has stored is read back, at its normalized path, as the
-- normalized text with its hash, and as complete, whichever system calls fail: the path and the text
-- are accepted, the bound is positive and not below the size, and bytes.decode gives the encoded text.
pub put_read :
    (system : System) (library : Library) (user writer : Text) (o : PutOperation) (max_bytes : ℕ)
    (path text : Text) (data_ : List ℕ) (s : State)
    → normalize_path o.path ≡ ok path
    → normalize_text o.text ≡ ok text
    → encode text ≡ ok data_
    → library.decode_replace data_ ≡ text
    → 0 < max_bytes
    → length data_ ≤ max_bytes
    → find (is_source writer o.source_key) s.entries ≡ none
    → (apply_put system user writer o s).0 ≡ ok tt
    → read system library path max_bytes (apply_put system user writer o s).1
      ≡ ok (record {
        path = path;
        text = text;
        content_hash = hash_of system data_;
        complete = true;
        stopped_by = none;
      })
unfolding apply_put
put_read system library user writer o max_bytes path text data_ s p t e decodes positive fits new
      done =
    elim (Result-cases (require_authorized_path s.prefixes user writer path)) [
      | inr (x, f) ↦ absurd (ground (arith, p, f, done))
      | inl (_, f) ↦
          let writes : apply_put system user writer o s
              ≡ write_entry system writer o path text data_ s =
            ground (arith, p, f, t, e) in
          let stored =
            write_entry-Stored system writer o path text data_ s new
              (ap (λ x. x.0) (sym writes) ∙ done) in
          let canonical = (normalize_path_iff o.path path).0 p in
          let again : normalize_path path ≡ ok path =
            subst (λ q. normalize_path q ≡ ok path) (sym canonical.1) p in
          let end = (write_entry system writer o path text data_ s).1 in
          ap (λ x. read system library path max_bytes x.1) writes
          ∙ read_found system library path max_bytes end stored.row (stored.inode, data_) again
              stored.found stored.at stored.there stored.hash positive fits
          ∙ ap
              (λ z. ok (record {
                path = path;
                text = z;
                content_hash = hash_of system data_;
                complete = true;
                stopped_by = none;
              }))
              decodes
    ]
