-- ===== src/Execution/Entries/Tests.antt =====
-- A table of two entries: one is put again, one is moved, one is deleted.
use ctxd.Prelude.{
  ℕ, ◌≡◌, refl, Bool, true, false, List, [], ◌∷◌, Option, none, some, Text, codes, Result, ok, ◌==◌,
  nat_eq, list_eq, arith,
}
use ctxd.Submissions.Operations.{editable}
use ctxd.Submissions.Preflight.{EntryRow}
use ctxd.Execution.{State}
use ctxd.Execution.Moves.{is_source, update_path}
use ctxd.Execution.Apply.{upsert_entry, delete_entry}
use ctxd.Execution.Entries.{view, assign, changed, merged, entries_refine}
use ctxd.Execution.Tests.{empty_store}

abbrev writer : Text
writer = codes "w"

abbrev entry_at : Text → Text → ℕ → EntryRow
entry_at source path time = record {
  writer_id = writer;
  path = path;
  source_key = source;
  source_version = codes "1";
  doc_class = editable;
  file_format = codes "text";
  content_hash = codes "h";
  size_bytes = 1;
  line_count = 1;
  object_id = source;
  provenance = record {
    producer = codes "p";
    producer_version = codes "1";
    confidence = none;
    warnings = [];
  };
  created_at = time;
  updated_at = time;
}

abbrev two_entries : State
two_entries = record empty_store {
  entries = entry_at (codes "1") (codes "docs/a") 3 ∷ entry_at (codes "2") (codes "docs/b") 4 ∷ [];
}

abbrev newer : EntryRow
newer = entry_at (codes "1") (codes "docs/c") 9

abbrev move_away : EntryRow → EntryRow
move_away row = record row { path = codes "docs/d"; updated_at = 9 }

abbrev after_put : List EntryRow
after_put = record newer { created_at = 3 } ∷ entry_at (codes "2") (codes "docs/b") 4 ∷ []

abbrev after_move : List EntryRow
after_move =
    entry_at (codes "1") (codes "docs/a") 3
    ∷ move_away (entry_at (codes "2") (codes "docs/b") 4)
    ∷ []

put_again : upsert_entry newer two_entries.entries ≡ ok after_put
unfolding upsert_entry ctxd.Prelude.list_beq ctxd.Prelude.update_rows
put_again = refl

moved_away :
    update_path (is_source writer (codes "2")) (codes "docs/d") move_away two_entries.entries
    ≡ ok after_move
unfolding update_path ctxd.Prelude.list_beq ctxd.Prelude.update_rows
moved_away = refl

entries_refine_example :
    (view after_put writer (codes "2")
      ≡ assign writer
          (codes "1")
          (some (merged newer (view two_entries.entries writer (codes "1"))))
          (view two_entries.entries)
          writer
          (codes "2"))
    × (view (delete_entry writer (codes "2") two_entries).1.entries writer (codes "2")
        ≡ assign writer (codes "2") none (view two_entries.entries) writer (codes "2"))
    × (view after_move writer (codes "2")
        ≡ assign writer
            (codes "2")
            (changed move_away (view two_entries.entries writer (codes "2")))
            (view two_entries.entries)
            writer
            (codes "2"))
entries_refine_example =
    entries_refine two_entries after_put after_move newer writer (codes "2") (codes "docs/d")
      move_away put_again moved_away (λ x h. h) writer (codes "2")
