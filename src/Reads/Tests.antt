-- ===== src/Reads/Tests.antt =====
-- Reads and listings of the store with two files, and the texts of documents.
use ctxd.Prelude.{
  ℕ, ◌≤◌, ◌<◌, ◌≡◌, ◌≢◌, ◌⊎◌, refl, Bool, true, false, List, [], ◌∷◌, Option, none, some, Text,
  codes, Result, ok, err, os_error, ltb, leb, length, take, All, Any, mem, ◌==◌, nat_eq, list_eq,
  arith, find,
}
use ctxd.Paths.{posix_parts, normalize_path}
use ctxd.Submissions.Operations.{PutOperation, editable}
use ctxd.Globs.{validate_glob_pattern, glob_matches}
use ctxd.Execution.{State, Files}
use ctxd.Execution.Content.{normalize_text, encode, hash_of}
use ctxd.Execution.Content.Normal.{normalize_text_idempotent}
use ctxd.Execution.Moves.{move_cycles, is_source}
use ctxd.Execution.Apply.{apply_put}
use ctxd.Execution.Moves.Orbits.{IsCycle, Leads}
use ctxd.Execution.Moves.Cycles.{Listed, move_cycles_total}
use ctxd.Prelude.Dict.{Dict}
use ctxd.Execution.Tests.{calm, flaky, user, writer, two_files, new_texts, broken, broken_raised}
use ctxd.Reads.{Library, truncate_utf8, read, read_lines}
use ctxd.Reads.Listings.{DirectoryEntry, Bounded, ls, glob}
use ctxd.Reads.Bounds.{IsTruncated, truncate_utf8_longest, Whole, ls_bounded, glob_bounded}
use ctxd.Reads.Complete.{IsListing, HasNoFile, HasNoEntry}
use ctxd.Reads.Unchanged.{reads_unchanged}
use ctxd.Reads.RoundTrip.{put_read}

-- Bytes stand for themselves, only pairs of bytes decode strictly, and the disk has no file without an
-- entry.
abbrev plain : Library
plain = record {
  casefold = λ s. s;
  decode_replace = λ data_. data_;
  is_utf8 = λ data_. length data_ == 2;
  walk = λ files path. [];
}

abbrev equal_names : Text → Text → Bool
equal_names part head = part == head

truncate_utf8_longest_example :
    IsTruncated plain 3 (1 ∷ 2 ∷ 3 ∷ 4 ∷ []) (truncate_utf8 plain (1 ∷ 2 ∷ 3 ∷ 4 ∷ []) 3)
truncate_utf8_longest_example = truncate_utf8_longest plain (1 ∷ 2 ∷ 3 ∷ 4 ∷ []) 3

abbrev one_file : Bounded
one_file = record {
  items =
      (record {
        path = codes "docs/a";
        kind = ctxd.Reads.Listings.file;
        size_bytes = some 1;
        line_count = some 1;
        content_hash = some (codes "sha256:x");
      })
      ∷ [];
  complete = false;
  stopped_by = some (codes "limit");
}

listed_once : ls plain two_files (codes "docs") 1 ≡ ok one_file
unfolding ctxd.Execution.location_beq ctxd.Execution.for_each ctxd.Execution.call
    ctxd.Execution.Files.link ctxd.Execution.Files.replace ctxd.Execution.Files.unlink
    ctxd.Execution.Files.unlink_if_exists ctxd.Execution.Files.undo_path
    ctxd.Execution.Files.backup_tree_entry ctxd.Execution.Files.replace_tree_entry
    ctxd.Execution.Files.rename_tree_file ctxd.Execution.Files.rename_tree_entry
    ctxd.Execution.Files.remove_tree_entry ctxd.Execution.Files.remove_object_entry
    ctxd.Execution.Files.undo_replace_tree_entry ctxd.Execution.Files.restore_backup
    ctxd.Execution.Files.undo_rename_tree_entry ctxd.Execution.Files.undo_remove_tree_entry
    ctxd.Execution.Files.run_undo ctxd.Execution.Files.undo_errors
    ctxd.Execution.Files.rollback_filesystem ctxd.Execution.Files.run_cleanup
    ctxd.Execution.Files.cleanup_filesystem ctxd.Execution.Content.replace_crlf
    ctxd.Execution.Content.replace_cr ctxd.Execution.Content.normalize_text
    ctxd.Execution.Content.is_line_break ctxd.Execution.Content.count_lines
    ctxd.Execution.Content.line_count ctxd.Execution.Content.encode_character
    ctxd.Execution.Content.encode ctxd.Execution.Moves.entry_by_source_key
    ctxd.Execution.Moves.update_path ctxd.Execution.Moves.update_entries
    ctxd.Execution.Moves.from_path ctxd.Execution.Moves.follow ctxd.Execution.Moves.cycles_from
    ctxd.Execution.Moves.move_cycles ctxd.Execution.Moves.validated_move_entry
    ctxd.Execution.Moves.validated_entries ctxd.Execution.Moves.current_locations
    ctxd.Execution.Moves.source_keys_by_path ctxd.Execution.Moves.move_destinations
    ctxd.Execution.Moves.break_cycles ctxd.Execution.Moves.break_move_cycles
    ctxd.Execution.Moves.park ctxd.Execution.Moves.move_file ctxd.Execution.Moves.move_one
    ctxd.Execution.Moves.move_batch ctxd.Execution.Apply.upsert_entry
    ctxd.Execution.Apply.upsert_decision ctxd.Execution.Apply.require_decision_path
    ctxd.Execution.Apply.transaction ctxd.Execution.Apply.submission
    ctxd.Execution.Apply.keep_object ctxd.Execution.Apply.retire ctxd.Execution.Apply.write_object
    ctxd.Execution.Apply.store_object ctxd.Execution.Apply.place_object
    ctxd.Execution.Apply.save_entry ctxd.Execution.Apply.write_entry ctxd.Execution.Apply.apply_put
    ctxd.Execution.Apply.delete_existing ctxd.Execution.Apply.apply_delete
    ctxd.Execution.Apply.record_decision ctxd.Execution.Apply.apply_decision
    ctxd.Execution.Apply.apply_operations ctxd.Execution.Apply.set_state
    ctxd.Execution.Apply.try_submission ctxd.Execution.Apply.fail_submission
    ctxd.Execution.Apply.insert_submission ctxd.Execution.Apply.submit
    ctxd.Submissions.Operations.moves_of ctxd.Submissions.Operations.reject_duplicate_move_sources
    ctxd.Submissions.Operations.visit_dependency ctxd.Submissions.Operations.visit
    ctxd.Submissions.Operations.visit_all ctxd.Submissions.Operations.moves_by_source_path
    ctxd.Submissions.Operations.order_moves ctxd.Submissions.Operations.ordered_operations
    ctxd.Submissions.Preflight.add_rows ctxd.Submissions.Preflight.source_path_maps
    ctxd.Submissions.Preflight.require_unoccupied_path ctxd.Submissions.Preflight.preflight_put
    ctxd.Submissions.Preflight.check_destination ctxd.Submissions.Preflight.preflight_move
    ctxd.Submissions.Preflight.preflight_delete ctxd.Submissions.Preflight.preflight_decision
    ctxd.Submissions.Preflight.preflight_step ctxd.Submissions.Preflight.preflight_loop
    ctxd.Submissions.Preflight.preflight_submission ctxd.Ownership.check_rivals
    ctxd.Ownership.insert_prefix ctxd.Ownership.register_prefix
    ctxd.Ownership.require_authorized_path ctxd.Paths.is_dots ctxd.Paths.has_drive_prefix
    ctxd.Paths.posix_root ctxd.Paths.posix_parts ctxd.Paths.normalize_path
    ctxd.Paths.path_is_within_prefix ctxd.Paths.prefixes_overlap ctxd.Paths.join_relative
    ctxd.Paths.relative_parts ctxd.Globs.has_unclosed_character_class
    ctxd.Globs.validate_glob_pattern ctxd.Globs.glob_matches ctxd.Reads.stat
    ctxd.Reads.require_entry ctxd.Reads.read_bytes ctxd.Reads.split_lines ctxd.Reads.shorten
    ctxd.Reads.truncate_utf8 ctxd.Reads.read ctxd.Reads.read_lines ctxd.Reads.Listings.text_leb
    ctxd.Reads.Listings.insert_by ctxd.Reads.Listings.sorted ctxd.Reads.Listings.within_prefix
    ctxd.Reads.Listings.entries_under_prefix ctxd.Reads.Listings.paths_within
    ctxd.Reads.Listings.set_default ctxd.Reads.Listings.bounded ctxd.Reads.Listings.add_child
    ctxd.Reads.Listings.parents ctxd.Reads.Listings.add_parents ctxd.Reads.Listings.add_file
    ctxd.Reads.Listings.disk_directory_entry ctxd.Reads.Listings.disk_files_under_prefix
    ctxd.Reads.Listings.add_unlisted ctxd.Reads.Listings.add_disk_child
    ctxd.Reads.Listings.gather_disk ctxd.Reads.Listings.listed ctxd.Reads.Listings.add_children
    ctxd.Reads.Listings.add_files ctxd.Reads.Listings.ls ctxd.Reads.Listings.tree_listing
    ctxd.Reads.Listings.gather ctxd.Reads.Listings.glob ctxd.Prelude.Dict.get ctxd.Prelude.Dict.put
    ctxd.Prelude.Dict.pop ctxd.Prelude.mem ctxd.Prelude.has_duplicates ctxd.Prelude.find
    ctxd.Prelude.starts_with ctxd.Prelude.has_control_character ctxd.Prelude.is_space
    ctxd.Prelude.lstrip ctxd.Prelude.rstrip ctxd.Prelude.strip ctxd.Prelude.decimal
    ctxd.Prelude.split ctxd.Prelude.join ctxd.Prelude.ends_with ctxd.Prelude.update_rows
    ctxd.Prelude.row_count ctxd.Prelude.map_result ctxd.Prelude.any_result ctxd.Prelude.list_beq
listed_once = refl

ls_bounded_example :
    (w : Whole plain two_files (codes "docs")) × IsListing 1 w.all
      (Any (HasNoFile two_files) w.rows ⊎ Any (HasNoEntry two_files) w.paths)
      one_file
ls_bounded_example = ls_bounded plain two_files (codes "docs") 1 one_file listed_once

globbed : glob plain equal_names two_files (codes "**/a") (codes "docs") 1 ≡ ok one_file
unfolding ctxd.Execution.location_beq ctxd.Execution.for_each ctxd.Execution.call
    ctxd.Execution.Files.link ctxd.Execution.Files.replace ctxd.Execution.Files.unlink
    ctxd.Execution.Files.unlink_if_exists ctxd.Execution.Files.undo_path
    ctxd.Execution.Files.backup_tree_entry ctxd.Execution.Files.replace_tree_entry
    ctxd.Execution.Files.rename_tree_file ctxd.Execution.Files.rename_tree_entry
    ctxd.Execution.Files.remove_tree_entry ctxd.Execution.Files.remove_object_entry
    ctxd.Execution.Files.undo_replace_tree_entry ctxd.Execution.Files.restore_backup
    ctxd.Execution.Files.undo_rename_tree_entry ctxd.Execution.Files.undo_remove_tree_entry
    ctxd.Execution.Files.run_undo ctxd.Execution.Files.undo_errors
    ctxd.Execution.Files.rollback_filesystem ctxd.Execution.Files.run_cleanup
    ctxd.Execution.Files.cleanup_filesystem ctxd.Execution.Content.replace_crlf
    ctxd.Execution.Content.replace_cr ctxd.Execution.Content.normalize_text
    ctxd.Execution.Content.is_line_break ctxd.Execution.Content.count_lines
    ctxd.Execution.Content.line_count ctxd.Execution.Content.encode_character
    ctxd.Execution.Content.encode ctxd.Execution.Moves.entry_by_source_key
    ctxd.Execution.Moves.update_path ctxd.Execution.Moves.update_entries
    ctxd.Execution.Moves.from_path ctxd.Execution.Moves.follow ctxd.Execution.Moves.cycles_from
    ctxd.Execution.Moves.move_cycles ctxd.Execution.Moves.validated_move_entry
    ctxd.Execution.Moves.validated_entries ctxd.Execution.Moves.current_locations
    ctxd.Execution.Moves.source_keys_by_path ctxd.Execution.Moves.move_destinations
    ctxd.Execution.Moves.break_cycles ctxd.Execution.Moves.break_move_cycles
    ctxd.Execution.Moves.park ctxd.Execution.Moves.move_file ctxd.Execution.Moves.move_one
    ctxd.Execution.Moves.move_batch ctxd.Execution.Apply.upsert_entry
    ctxd.Execution.Apply.upsert_decision ctxd.Execution.Apply.require_decision_path
    ctxd.Execution.Apply.transaction ctxd.Execution.Apply.submission
    ctxd.Execution.Apply.keep_object ctxd.Execution.Apply.retire ctxd.Execution.Apply.write_object
    ctxd.Execution.Apply.store_object ctxd.Execution.Apply.place_object
    ctxd.Execution.Apply.save_entry ctxd.Execution.Apply.write_entry ctxd.Execution.Apply.apply_put
    ctxd.Execution.Apply.delete_existing ctxd.Execution.Apply.apply_delete
    ctxd.Execution.Apply.record_decision ctxd.Execution.Apply.apply_decision
    ctxd.Execution.Apply.apply_operations ctxd.Execution.Apply.set_state
    ctxd.Execution.Apply.try_submission ctxd.Execution.Apply.fail_submission
    ctxd.Execution.Apply.insert_submission ctxd.Execution.Apply.submit
    ctxd.Submissions.Operations.moves_of ctxd.Submissions.Operations.reject_duplicate_move_sources
    ctxd.Submissions.Operations.visit_dependency ctxd.Submissions.Operations.visit
    ctxd.Submissions.Operations.visit_all ctxd.Submissions.Operations.moves_by_source_path
    ctxd.Submissions.Operations.order_moves ctxd.Submissions.Operations.ordered_operations
    ctxd.Submissions.Preflight.add_rows ctxd.Submissions.Preflight.source_path_maps
    ctxd.Submissions.Preflight.require_unoccupied_path ctxd.Submissions.Preflight.preflight_put
    ctxd.Submissions.Preflight.check_destination ctxd.Submissions.Preflight.preflight_move
    ctxd.Submissions.Preflight.preflight_delete ctxd.Submissions.Preflight.preflight_decision
    ctxd.Submissions.Preflight.preflight_step ctxd.Submissions.Preflight.preflight_loop
    ctxd.Submissions.Preflight.preflight_submission ctxd.Ownership.check_rivals
    ctxd.Ownership.insert_prefix ctxd.Ownership.register_prefix
    ctxd.Ownership.require_authorized_path ctxd.Paths.is_dots ctxd.Paths.has_drive_prefix
    ctxd.Paths.posix_root ctxd.Paths.posix_parts ctxd.Paths.normalize_path
    ctxd.Paths.path_is_within_prefix ctxd.Paths.prefixes_overlap ctxd.Paths.join_relative
    ctxd.Paths.relative_parts ctxd.Globs.has_unclosed_character_class
    ctxd.Globs.validate_glob_pattern ctxd.Globs.glob_matches ctxd.Reads.stat
    ctxd.Reads.require_entry ctxd.Reads.read_bytes ctxd.Reads.split_lines ctxd.Reads.shorten
    ctxd.Reads.truncate_utf8 ctxd.Reads.read ctxd.Reads.read_lines ctxd.Reads.Listings.text_leb
    ctxd.Reads.Listings.insert_by ctxd.Reads.Listings.sorted ctxd.Reads.Listings.within_prefix
    ctxd.Reads.Listings.entries_under_prefix ctxd.Reads.Listings.paths_within
    ctxd.Reads.Listings.set_default ctxd.Reads.Listings.bounded ctxd.Reads.Listings.add_child
    ctxd.Reads.Listings.parents ctxd.Reads.Listings.add_parents ctxd.Reads.Listings.add_file
    ctxd.Reads.Listings.disk_directory_entry ctxd.Reads.Listings.disk_files_under_prefix
    ctxd.Reads.Listings.add_unlisted ctxd.Reads.Listings.add_disk_child
    ctxd.Reads.Listings.gather_disk ctxd.Reads.Listings.listed ctxd.Reads.Listings.add_children
    ctxd.Reads.Listings.add_files ctxd.Reads.Listings.ls ctxd.Reads.Listings.tree_listing
    ctxd.Reads.Listings.gather ctxd.Reads.Listings.glob ctxd.Prelude.Dict.get ctxd.Prelude.Dict.put
    ctxd.Prelude.Dict.pop ctxd.Prelude.mem ctxd.Prelude.has_duplicates ctxd.Prelude.find
    ctxd.Prelude.starts_with ctxd.Prelude.has_control_character ctxd.Prelude.is_space
    ctxd.Prelude.lstrip ctxd.Prelude.rstrip ctxd.Prelude.strip ctxd.Prelude.decimal
    ctxd.Prelude.split ctxd.Prelude.join ctxd.Prelude.ends_with ctxd.Prelude.update_rows
    ctxd.Prelude.row_count ctxd.Prelude.map_result ctxd.Prelude.any_result ctxd.Prelude.list_beq
globbed = refl

glob_bounded_example :
    (parts : List Text) × (validate_glob_pattern (codes "**/a") ≡ ok parts)
    × (length one_file.items ≤ 1)
    × All
        (λ (e : DirectoryEntry). glob_matches equal_names parts (posix_parts e.path) ≡ true)
        one_file.items
glob_bounded_example =
    glob_bounded plain equal_names two_files (codes "**/a") (codes "docs") 1 one_file globbed

reads_unchanged_example :
    ((path : Text) (max_bytes : ℕ)
      → read flaky plain path max_bytes broken.1 ≡ read flaky plain path max_bytes two_files)
    × ((path : Text) (start_line end_line : ℕ)
        → read_lines flaky plain path start_line end_line broken.1
          ≡ read_lines flaky plain path start_line end_line two_files)
reads_unchanged_example =
    reads_unchanged flaky plain user writer new_texts two_files {e = os_error} broken_raised
      (λ same. cc)

-- "a", CR, LF, "b", CR
abbrev typed : Text
typed = 97 ∷ 13 ∷ 10 ∷ 98 ∷ 13 ∷ []

abbrev kept : Text
kept = 97 ∷ 10 ∷ 98 ∷ 10 ∷ []

normalized : normalize_text typed ≡ ok kept
unfolding normalize_text
normalized = refl

normalize_text_idempotent_example :
    (mem 0 kept ≡ false) × (mem 13 kept ≡ false) × (normalize_text kept ≡ ok kept)
normalize_text_idempotent_example = normalize_text_idempotent typed kept normalized

-- a and b change places, and c moves to b.
abbrev swap : Dict Text Text
swap = (codes "a", codes "b") ∷ (codes "b", codes "a") ∷ (codes "c", codes "b") ∷ []

move_cycles_total_example :
    (cycles : List (List Text)) × (move_cycles swap ≡ ok cycles)
    × All (IsCycle swap) cycles
    × ((p : Text) → Leads swap p p → Listed p cycles)
move_cycles_total_example = move_cycles_total swap

-- "x", CR, LF at docs/new
abbrev note : PutOperation
note = record {
  path = codes "docs/new";
  source_key = codes "9";
  source_version = codes "1";
  doc_class = editable;
  file_format = codes "text";
  text = 120 ∷ 13 ∷ 10 ∷ [];
  provenance = record {
    producer = codes "p";
    producer_version = codes "1";
    confidence = none;
    warnings = [];
  };
}

note_path : normalize_path note.path ≡ ok note.path
unfolding ctxd.Execution.location_beq ctxd.Execution.for_each ctxd.Execution.call
    ctxd.Execution.Files.link ctxd.Execution.Files.replace ctxd.Execution.Files.unlink
    ctxd.Execution.Files.unlink_if_exists ctxd.Execution.Files.undo_path
    ctxd.Execution.Files.backup_tree_entry ctxd.Execution.Files.replace_tree_entry
    ctxd.Execution.Files.rename_tree_file ctxd.Execution.Files.rename_tree_entry
    ctxd.Execution.Files.remove_tree_entry ctxd.Execution.Files.remove_object_entry
    ctxd.Execution.Files.undo_replace_tree_entry ctxd.Execution.Files.restore_backup
    ctxd.Execution.Files.undo_rename_tree_entry ctxd.Execution.Files.undo_remove_tree_entry
    ctxd.Execution.Files.run_undo ctxd.Execution.Files.undo_errors
    ctxd.Execution.Files.rollback_filesystem ctxd.Execution.Files.run_cleanup
    ctxd.Execution.Files.cleanup_filesystem ctxd.Execution.Content.replace_crlf
    ctxd.Execution.Content.replace_cr ctxd.Execution.Content.normalize_text
    ctxd.Execution.Content.is_line_break ctxd.Execution.Content.count_lines
    ctxd.Execution.Content.line_count ctxd.Execution.Content.encode_character
    ctxd.Execution.Content.encode ctxd.Execution.Moves.entry_by_source_key
    ctxd.Execution.Moves.update_path ctxd.Execution.Moves.update_entries
    ctxd.Execution.Moves.from_path ctxd.Execution.Moves.follow ctxd.Execution.Moves.cycles_from
    ctxd.Execution.Moves.move_cycles ctxd.Execution.Moves.validated_move_entry
    ctxd.Execution.Moves.validated_entries ctxd.Execution.Moves.current_locations
    ctxd.Execution.Moves.source_keys_by_path ctxd.Execution.Moves.move_destinations
    ctxd.Execution.Moves.break_cycles ctxd.Execution.Moves.break_move_cycles
    ctxd.Execution.Moves.park ctxd.Execution.Moves.move_file ctxd.Execution.Moves.move_one
    ctxd.Execution.Moves.move_batch ctxd.Execution.Apply.upsert_entry
    ctxd.Execution.Apply.upsert_decision ctxd.Execution.Apply.require_decision_path
    ctxd.Execution.Apply.transaction ctxd.Execution.Apply.submission
    ctxd.Execution.Apply.keep_object ctxd.Execution.Apply.retire ctxd.Execution.Apply.write_object
    ctxd.Execution.Apply.store_object ctxd.Execution.Apply.place_object
    ctxd.Execution.Apply.save_entry ctxd.Execution.Apply.write_entry ctxd.Execution.Apply.apply_put
    ctxd.Execution.Apply.delete_existing ctxd.Execution.Apply.apply_delete
    ctxd.Execution.Apply.record_decision ctxd.Execution.Apply.apply_decision
    ctxd.Execution.Apply.apply_operations ctxd.Execution.Apply.set_state
    ctxd.Execution.Apply.try_submission ctxd.Execution.Apply.fail_submission
    ctxd.Execution.Apply.insert_submission ctxd.Execution.Apply.submit
    ctxd.Submissions.Operations.moves_of ctxd.Submissions.Operations.reject_duplicate_move_sources
    ctxd.Submissions.Operations.visit_dependency ctxd.Submissions.Operations.visit
    ctxd.Submissions.Operations.visit_all ctxd.Submissions.Operations.moves_by_source_path
    ctxd.Submissions.Operations.order_moves ctxd.Submissions.Operations.ordered_operations
    ctxd.Submissions.Preflight.add_rows ctxd.Submissions.Preflight.source_path_maps
    ctxd.Submissions.Preflight.require_unoccupied_path ctxd.Submissions.Preflight.preflight_put
    ctxd.Submissions.Preflight.check_destination ctxd.Submissions.Preflight.preflight_move
    ctxd.Submissions.Preflight.preflight_delete ctxd.Submissions.Preflight.preflight_decision
    ctxd.Submissions.Preflight.preflight_step ctxd.Submissions.Preflight.preflight_loop
    ctxd.Submissions.Preflight.preflight_submission ctxd.Ownership.check_rivals
    ctxd.Ownership.insert_prefix ctxd.Ownership.register_prefix
    ctxd.Ownership.require_authorized_path ctxd.Paths.is_dots ctxd.Paths.has_drive_prefix
    ctxd.Paths.posix_root ctxd.Paths.posix_parts ctxd.Paths.normalize_path
    ctxd.Paths.path_is_within_prefix ctxd.Paths.prefixes_overlap ctxd.Paths.join_relative
    ctxd.Paths.relative_parts ctxd.Globs.has_unclosed_character_class
    ctxd.Globs.validate_glob_pattern ctxd.Globs.glob_matches ctxd.Reads.stat
    ctxd.Reads.require_entry ctxd.Reads.read_bytes ctxd.Reads.split_lines ctxd.Reads.shorten
    ctxd.Reads.truncate_utf8 ctxd.Reads.read ctxd.Reads.read_lines ctxd.Reads.Listings.text_leb
    ctxd.Reads.Listings.insert_by ctxd.Reads.Listings.sorted ctxd.Reads.Listings.within_prefix
    ctxd.Reads.Listings.entries_under_prefix ctxd.Reads.Listings.paths_within
    ctxd.Reads.Listings.set_default ctxd.Reads.Listings.bounded ctxd.Reads.Listings.add_child
    ctxd.Reads.Listings.parents ctxd.Reads.Listings.add_parents ctxd.Reads.Listings.add_file
    ctxd.Reads.Listings.disk_directory_entry ctxd.Reads.Listings.disk_files_under_prefix
    ctxd.Reads.Listings.add_unlisted ctxd.Reads.Listings.add_disk_child
    ctxd.Reads.Listings.gather_disk ctxd.Reads.Listings.listed ctxd.Reads.Listings.add_children
    ctxd.Reads.Listings.add_files ctxd.Reads.Listings.ls ctxd.Reads.Listings.tree_listing
    ctxd.Reads.Listings.gather ctxd.Reads.Listings.glob ctxd.Prelude.Dict.get ctxd.Prelude.Dict.put
    ctxd.Prelude.Dict.pop ctxd.Prelude.mem ctxd.Prelude.has_duplicates ctxd.Prelude.find
    ctxd.Prelude.starts_with ctxd.Prelude.has_control_character ctxd.Prelude.is_space
    ctxd.Prelude.lstrip ctxd.Prelude.rstrip ctxd.Prelude.strip ctxd.Prelude.decimal
    ctxd.Prelude.split ctxd.Prelude.join ctxd.Prelude.ends_with ctxd.Prelude.update_rows
    ctxd.Prelude.row_count ctxd.Prelude.map_result ctxd.Prelude.any_result ctxd.Prelude.list_beq
note_path = refl

note_text : normalize_text note.text ≡ ok (120 ∷ 10 ∷ [])
unfolding ctxd.Execution.location_beq ctxd.Execution.for_each ctxd.Execution.call
    ctxd.Execution.Files.link ctxd.Execution.Files.replace ctxd.Execution.Files.unlink
    ctxd.Execution.Files.unlink_if_exists ctxd.Execution.Files.undo_path
    ctxd.Execution.Files.backup_tree_entry ctxd.Execution.Files.replace_tree_entry
    ctxd.Execution.Files.rename_tree_file ctxd.Execution.Files.rename_tree_entry
    ctxd.Execution.Files.remove_tree_entry ctxd.Execution.Files.remove_object_entry
    ctxd.Execution.Files.undo_replace_tree_entry ctxd.Execution.Files.restore_backup
    ctxd.Execution.Files.undo_rename_tree_entry ctxd.Execution.Files.undo_remove_tree_entry
    ctxd.Execution.Files.run_undo ctxd.Execution.Files.undo_errors
    ctxd.Execution.Files.rollback_filesystem ctxd.Execution.Files.run_cleanup
    ctxd.Execution.Files.cleanup_filesystem ctxd.Execution.Content.replace_crlf
    ctxd.Execution.Content.replace_cr ctxd.Execution.Content.normalize_text
    ctxd.Execution.Content.is_line_break ctxd.Execution.Content.count_lines
    ctxd.Execution.Content.line_count ctxd.Execution.Content.encode_character
    ctxd.Execution.Content.encode ctxd.Execution.Moves.entry_by_source_key
    ctxd.Execution.Moves.update_path ctxd.Execution.Moves.update_entries
    ctxd.Execution.Moves.from_path ctxd.Execution.Moves.follow ctxd.Execution.Moves.cycles_from
    ctxd.Execution.Moves.move_cycles ctxd.Execution.Moves.validated_move_entry
    ctxd.Execution.Moves.validated_entries ctxd.Execution.Moves.current_locations
    ctxd.Execution.Moves.source_keys_by_path ctxd.Execution.Moves.move_destinations
    ctxd.Execution.Moves.break_cycles ctxd.Execution.Moves.break_move_cycles
    ctxd.Execution.Moves.park ctxd.Execution.Moves.move_file ctxd.Execution.Moves.move_one
    ctxd.Execution.Moves.move_batch ctxd.Execution.Apply.upsert_entry
    ctxd.Execution.Apply.upsert_decision ctxd.Execution.Apply.require_decision_path
    ctxd.Execution.Apply.transaction ctxd.Execution.Apply.submission
    ctxd.Execution.Apply.keep_object ctxd.Execution.Apply.retire ctxd.Execution.Apply.write_object
    ctxd.Execution.Apply.store_object ctxd.Execution.Apply.place_object
    ctxd.Execution.Apply.save_entry ctxd.Execution.Apply.write_entry ctxd.Execution.Apply.apply_put
    ctxd.Execution.Apply.delete_existing ctxd.Execution.Apply.apply_delete
    ctxd.Execution.Apply.record_decision ctxd.Execution.Apply.apply_decision
    ctxd.Execution.Apply.apply_operations ctxd.Execution.Apply.set_state
    ctxd.Execution.Apply.try_submission ctxd.Execution.Apply.fail_submission
    ctxd.Execution.Apply.insert_submission ctxd.Execution.Apply.submit
    ctxd.Submissions.Operations.moves_of ctxd.Submissions.Operations.reject_duplicate_move_sources
    ctxd.Submissions.Operations.visit_dependency ctxd.Submissions.Operations.visit
    ctxd.Submissions.Operations.visit_all ctxd.Submissions.Operations.moves_by_source_path
    ctxd.Submissions.Operations.order_moves ctxd.Submissions.Operations.ordered_operations
    ctxd.Submissions.Preflight.add_rows ctxd.Submissions.Preflight.source_path_maps
    ctxd.Submissions.Preflight.require_unoccupied_path ctxd.Submissions.Preflight.preflight_put
    ctxd.Submissions.Preflight.check_destination ctxd.Submissions.Preflight.preflight_move
    ctxd.Submissions.Preflight.preflight_delete ctxd.Submissions.Preflight.preflight_decision
    ctxd.Submissions.Preflight.preflight_step ctxd.Submissions.Preflight.preflight_loop
    ctxd.Submissions.Preflight.preflight_submission ctxd.Ownership.check_rivals
    ctxd.Ownership.insert_prefix ctxd.Ownership.register_prefix
    ctxd.Ownership.require_authorized_path ctxd.Paths.is_dots ctxd.Paths.has_drive_prefix
    ctxd.Paths.posix_root ctxd.Paths.posix_parts ctxd.Paths.normalize_path
    ctxd.Paths.path_is_within_prefix ctxd.Paths.prefixes_overlap ctxd.Paths.join_relative
    ctxd.Paths.relative_parts ctxd.Globs.has_unclosed_character_class
    ctxd.Globs.validate_glob_pattern ctxd.Globs.glob_matches ctxd.Reads.stat
    ctxd.Reads.require_entry ctxd.Reads.read_bytes ctxd.Reads.split_lines ctxd.Reads.shorten
    ctxd.Reads.truncate_utf8 ctxd.Reads.read ctxd.Reads.read_lines ctxd.Reads.Listings.text_leb
    ctxd.Reads.Listings.insert_by ctxd.Reads.Listings.sorted ctxd.Reads.Listings.within_prefix
    ctxd.Reads.Listings.entries_under_prefix ctxd.Reads.Listings.paths_within
    ctxd.Reads.Listings.set_default ctxd.Reads.Listings.bounded ctxd.Reads.Listings.add_child
    ctxd.Reads.Listings.parents ctxd.Reads.Listings.add_parents ctxd.Reads.Listings.add_file
    ctxd.Reads.Listings.disk_directory_entry ctxd.Reads.Listings.disk_files_under_prefix
    ctxd.Reads.Listings.add_unlisted ctxd.Reads.Listings.add_disk_child
    ctxd.Reads.Listings.gather_disk ctxd.Reads.Listings.listed ctxd.Reads.Listings.add_children
    ctxd.Reads.Listings.add_files ctxd.Reads.Listings.ls ctxd.Reads.Listings.tree_listing
    ctxd.Reads.Listings.gather ctxd.Reads.Listings.glob ctxd.Prelude.Dict.get ctxd.Prelude.Dict.put
    ctxd.Prelude.Dict.pop ctxd.Prelude.mem ctxd.Prelude.has_duplicates ctxd.Prelude.find
    ctxd.Prelude.starts_with ctxd.Prelude.has_control_character ctxd.Prelude.is_space
    ctxd.Prelude.lstrip ctxd.Prelude.rstrip ctxd.Prelude.strip ctxd.Prelude.decimal
    ctxd.Prelude.split ctxd.Prelude.join ctxd.Prelude.ends_with ctxd.Prelude.update_rows
    ctxd.Prelude.row_count ctxd.Prelude.map_result ctxd.Prelude.any_result ctxd.Prelude.list_beq
note_text = refl

note_bytes : encode (120 ∷ 10 ∷ []) ≡ ok (120 ∷ 10 ∷ [])
unfolding ctxd.Execution.location_beq ctxd.Execution.for_each ctxd.Execution.call
    ctxd.Execution.Files.link ctxd.Execution.Files.replace ctxd.Execution.Files.unlink
    ctxd.Execution.Files.unlink_if_exists ctxd.Execution.Files.undo_path
    ctxd.Execution.Files.backup_tree_entry ctxd.Execution.Files.replace_tree_entry
    ctxd.Execution.Files.rename_tree_file ctxd.Execution.Files.rename_tree_entry
    ctxd.Execution.Files.remove_tree_entry ctxd.Execution.Files.remove_object_entry
    ctxd.Execution.Files.undo_replace_tree_entry ctxd.Execution.Files.restore_backup
    ctxd.Execution.Files.undo_rename_tree_entry ctxd.Execution.Files.undo_remove_tree_entry
    ctxd.Execution.Files.run_undo ctxd.Execution.Files.undo_errors
    ctxd.Execution.Files.rollback_filesystem ctxd.Execution.Files.run_cleanup
    ctxd.Execution.Files.cleanup_filesystem ctxd.Execution.Content.replace_crlf
    ctxd.Execution.Content.replace_cr ctxd.Execution.Content.normalize_text
    ctxd.Execution.Content.is_line_break ctxd.Execution.Content.count_lines
    ctxd.Execution.Content.line_count ctxd.Execution.Content.encode_character
    ctxd.Execution.Content.encode ctxd.Execution.Moves.entry_by_source_key
    ctxd.Execution.Moves.update_path ctxd.Execution.Moves.update_entries
    ctxd.Execution.Moves.from_path ctxd.Execution.Moves.follow ctxd.Execution.Moves.cycles_from
    ctxd.Execution.Moves.move_cycles ctxd.Execution.Moves.validated_move_entry
    ctxd.Execution.Moves.validated_entries ctxd.Execution.Moves.current_locations
    ctxd.Execution.Moves.source_keys_by_path ctxd.Execution.Moves.move_destinations
    ctxd.Execution.Moves.break_cycles ctxd.Execution.Moves.break_move_cycles
    ctxd.Execution.Moves.park ctxd.Execution.Moves.move_file ctxd.Execution.Moves.move_one
    ctxd.Execution.Moves.move_batch ctxd.Execution.Apply.upsert_entry
    ctxd.Execution.Apply.upsert_decision ctxd.Execution.Apply.require_decision_path
    ctxd.Execution.Apply.transaction ctxd.Execution.Apply.submission
    ctxd.Execution.Apply.keep_object ctxd.Execution.Apply.retire ctxd.Execution.Apply.write_object
    ctxd.Execution.Apply.store_object ctxd.Execution.Apply.place_object
    ctxd.Execution.Apply.save_entry ctxd.Execution.Apply.write_entry ctxd.Execution.Apply.apply_put
    ctxd.Execution.Apply.delete_existing ctxd.Execution.Apply.apply_delete
    ctxd.Execution.Apply.record_decision ctxd.Execution.Apply.apply_decision
    ctxd.Execution.Apply.apply_operations ctxd.Execution.Apply.set_state
    ctxd.Execution.Apply.try_submission ctxd.Execution.Apply.fail_submission
    ctxd.Execution.Apply.insert_submission ctxd.Execution.Apply.submit
    ctxd.Submissions.Operations.moves_of ctxd.Submissions.Operations.reject_duplicate_move_sources
    ctxd.Submissions.Operations.visit_dependency ctxd.Submissions.Operations.visit
    ctxd.Submissions.Operations.visit_all ctxd.Submissions.Operations.moves_by_source_path
    ctxd.Submissions.Operations.order_moves ctxd.Submissions.Operations.ordered_operations
    ctxd.Submissions.Preflight.add_rows ctxd.Submissions.Preflight.source_path_maps
    ctxd.Submissions.Preflight.require_unoccupied_path ctxd.Submissions.Preflight.preflight_put
    ctxd.Submissions.Preflight.check_destination ctxd.Submissions.Preflight.preflight_move
    ctxd.Submissions.Preflight.preflight_delete ctxd.Submissions.Preflight.preflight_decision
    ctxd.Submissions.Preflight.preflight_step ctxd.Submissions.Preflight.preflight_loop
    ctxd.Submissions.Preflight.preflight_submission ctxd.Ownership.check_rivals
    ctxd.Ownership.insert_prefix ctxd.Ownership.register_prefix
    ctxd.Ownership.require_authorized_path ctxd.Paths.is_dots ctxd.Paths.has_drive_prefix
    ctxd.Paths.posix_root ctxd.Paths.posix_parts ctxd.Paths.normalize_path
    ctxd.Paths.path_is_within_prefix ctxd.Paths.prefixes_overlap ctxd.Paths.join_relative
    ctxd.Paths.relative_parts ctxd.Globs.has_unclosed_character_class
    ctxd.Globs.validate_glob_pattern ctxd.Globs.glob_matches ctxd.Reads.stat
    ctxd.Reads.require_entry ctxd.Reads.read_bytes ctxd.Reads.split_lines ctxd.Reads.shorten
    ctxd.Reads.truncate_utf8 ctxd.Reads.read ctxd.Reads.read_lines ctxd.Reads.Listings.text_leb
    ctxd.Reads.Listings.insert_by ctxd.Reads.Listings.sorted ctxd.Reads.Listings.within_prefix
    ctxd.Reads.Listings.entries_under_prefix ctxd.Reads.Listings.paths_within
    ctxd.Reads.Listings.set_default ctxd.Reads.Listings.bounded ctxd.Reads.Listings.add_child
    ctxd.Reads.Listings.parents ctxd.Reads.Listings.add_parents ctxd.Reads.Listings.add_file
    ctxd.Reads.Listings.disk_directory_entry ctxd.Reads.Listings.disk_files_under_prefix
    ctxd.Reads.Listings.add_unlisted ctxd.Reads.Listings.add_disk_child
    ctxd.Reads.Listings.gather_disk ctxd.Reads.Listings.listed ctxd.Reads.Listings.add_children
    ctxd.Reads.Listings.add_files ctxd.Reads.Listings.ls ctxd.Reads.Listings.tree_listing
    ctxd.Reads.Listings.gather ctxd.Reads.Listings.glob ctxd.Prelude.Dict.get ctxd.Prelude.Dict.put
    ctxd.Prelude.Dict.pop ctxd.Prelude.mem ctxd.Prelude.has_duplicates ctxd.Prelude.find
    ctxd.Prelude.starts_with ctxd.Prelude.has_control_character ctxd.Prelude.is_space
    ctxd.Prelude.lstrip ctxd.Prelude.rstrip ctxd.Prelude.strip ctxd.Prelude.decimal
    ctxd.Prelude.split ctxd.Prelude.join ctxd.Prelude.ends_with ctxd.Prelude.update_rows
    ctxd.Prelude.row_count ctxd.Prelude.map_result ctxd.Prelude.any_result ctxd.Prelude.list_beq
note_bytes = refl

note_new : find (is_source writer note.source_key) two_files.entries ≡ none
unfolding ctxd.Execution.location_beq ctxd.Execution.for_each ctxd.Execution.call
    ctxd.Execution.Files.link ctxd.Execution.Files.replace ctxd.Execution.Files.unlink
    ctxd.Execution.Files.unlink_if_exists ctxd.Execution.Files.undo_path
    ctxd.Execution.Files.backup_tree_entry ctxd.Execution.Files.replace_tree_entry
    ctxd.Execution.Files.rename_tree_file ctxd.Execution.Files.rename_tree_entry
    ctxd.Execution.Files.remove_tree_entry ctxd.Execution.Files.remove_object_entry
    ctxd.Execution.Files.undo_replace_tree_entry ctxd.Execution.Files.restore_backup
    ctxd.Execution.Files.undo_rename_tree_entry ctxd.Execution.Files.undo_remove_tree_entry
    ctxd.Execution.Files.run_undo ctxd.Execution.Files.undo_errors
    ctxd.Execution.Files.rollback_filesystem ctxd.Execution.Files.run_cleanup
    ctxd.Execution.Files.cleanup_filesystem ctxd.Execution.Content.replace_crlf
    ctxd.Execution.Content.replace_cr ctxd.Execution.Content.normalize_text
    ctxd.Execution.Content.is_line_break ctxd.Execution.Content.count_lines
    ctxd.Execution.Content.line_count ctxd.Execution.Content.encode_character
    ctxd.Execution.Content.encode ctxd.Execution.Moves.entry_by_source_key
    ctxd.Execution.Moves.update_path ctxd.Execution.Moves.update_entries
    ctxd.Execution.Moves.from_path ctxd.Execution.Moves.follow ctxd.Execution.Moves.cycles_from
    ctxd.Execution.Moves.move_cycles ctxd.Execution.Moves.validated_move_entry
    ctxd.Execution.Moves.validated_entries ctxd.Execution.Moves.current_locations
    ctxd.Execution.Moves.source_keys_by_path ctxd.Execution.Moves.move_destinations
    ctxd.Execution.Moves.break_cycles ctxd.Execution.Moves.break_move_cycles
    ctxd.Execution.Moves.park ctxd.Execution.Moves.move_file ctxd.Execution.Moves.move_one
    ctxd.Execution.Moves.move_batch ctxd.Execution.Apply.upsert_entry
    ctxd.Execution.Apply.upsert_decision ctxd.Execution.Apply.require_decision_path
    ctxd.Execution.Apply.transaction ctxd.Execution.Apply.submission
    ctxd.Execution.Apply.keep_object ctxd.Execution.Apply.retire ctxd.Execution.Apply.write_object
    ctxd.Execution.Apply.store_object ctxd.Execution.Apply.place_object
    ctxd.Execution.Apply.save_entry ctxd.Execution.Apply.write_entry ctxd.Execution.Apply.apply_put
    ctxd.Execution.Apply.delete_existing ctxd.Execution.Apply.apply_delete
    ctxd.Execution.Apply.record_decision ctxd.Execution.Apply.apply_decision
    ctxd.Execution.Apply.apply_operations ctxd.Execution.Apply.set_state
    ctxd.Execution.Apply.try_submission ctxd.Execution.Apply.fail_submission
    ctxd.Execution.Apply.insert_submission ctxd.Execution.Apply.submit
    ctxd.Submissions.Operations.moves_of ctxd.Submissions.Operations.reject_duplicate_move_sources
    ctxd.Submissions.Operations.visit_dependency ctxd.Submissions.Operations.visit
    ctxd.Submissions.Operations.visit_all ctxd.Submissions.Operations.moves_by_source_path
    ctxd.Submissions.Operations.order_moves ctxd.Submissions.Operations.ordered_operations
    ctxd.Submissions.Preflight.add_rows ctxd.Submissions.Preflight.source_path_maps
    ctxd.Submissions.Preflight.require_unoccupied_path ctxd.Submissions.Preflight.preflight_put
    ctxd.Submissions.Preflight.check_destination ctxd.Submissions.Preflight.preflight_move
    ctxd.Submissions.Preflight.preflight_delete ctxd.Submissions.Preflight.preflight_decision
    ctxd.Submissions.Preflight.preflight_step ctxd.Submissions.Preflight.preflight_loop
    ctxd.Submissions.Preflight.preflight_submission ctxd.Ownership.check_rivals
    ctxd.Ownership.insert_prefix ctxd.Ownership.register_prefix
    ctxd.Ownership.require_authorized_path ctxd.Paths.is_dots ctxd.Paths.has_drive_prefix
    ctxd.Paths.posix_root ctxd.Paths.posix_parts ctxd.Paths.normalize_path
    ctxd.Paths.path_is_within_prefix ctxd.Paths.prefixes_overlap ctxd.Paths.join_relative
    ctxd.Paths.relative_parts ctxd.Globs.has_unclosed_character_class
    ctxd.Globs.validate_glob_pattern ctxd.Globs.glob_matches ctxd.Reads.stat
    ctxd.Reads.require_entry ctxd.Reads.read_bytes ctxd.Reads.split_lines ctxd.Reads.shorten
    ctxd.Reads.truncate_utf8 ctxd.Reads.read ctxd.Reads.read_lines ctxd.Reads.Listings.text_leb
    ctxd.Reads.Listings.insert_by ctxd.Reads.Listings.sorted ctxd.Reads.Listings.within_prefix
    ctxd.Reads.Listings.entries_under_prefix ctxd.Reads.Listings.paths_within
    ctxd.Reads.Listings.set_default ctxd.Reads.Listings.bounded ctxd.Reads.Listings.add_child
    ctxd.Reads.Listings.parents ctxd.Reads.Listings.add_parents ctxd.Reads.Listings.add_file
    ctxd.Reads.Listings.disk_directory_entry ctxd.Reads.Listings.disk_files_under_prefix
    ctxd.Reads.Listings.add_unlisted ctxd.Reads.Listings.add_disk_child
    ctxd.Reads.Listings.gather_disk ctxd.Reads.Listings.listed ctxd.Reads.Listings.add_children
    ctxd.Reads.Listings.add_files ctxd.Reads.Listings.ls ctxd.Reads.Listings.tree_listing
    ctxd.Reads.Listings.gather ctxd.Reads.Listings.glob ctxd.Prelude.Dict.get ctxd.Prelude.Dict.put
    ctxd.Prelude.Dict.pop ctxd.Prelude.mem ctxd.Prelude.has_duplicates ctxd.Prelude.find
    ctxd.Prelude.starts_with ctxd.Prelude.has_control_character ctxd.Prelude.is_space
    ctxd.Prelude.lstrip ctxd.Prelude.rstrip ctxd.Prelude.strip ctxd.Prelude.decimal
    ctxd.Prelude.split ctxd.Prelude.join ctxd.Prelude.ends_with ctxd.Prelude.update_rows
    ctxd.Prelude.row_count ctxd.Prelude.map_result ctxd.Prelude.any_result ctxd.Prelude.list_beq
note_new = refl

note_put : (apply_put calm user writer note two_files).0 ≡ ok tt
unfolding ctxd.Execution.location_beq ctxd.Execution.for_each ctxd.Execution.call
    ctxd.Execution.Files.link ctxd.Execution.Files.replace ctxd.Execution.Files.unlink
    ctxd.Execution.Files.unlink_if_exists ctxd.Execution.Files.undo_path
    ctxd.Execution.Files.backup_tree_entry ctxd.Execution.Files.replace_tree_entry
    ctxd.Execution.Files.rename_tree_file ctxd.Execution.Files.rename_tree_entry
    ctxd.Execution.Files.remove_tree_entry ctxd.Execution.Files.remove_object_entry
    ctxd.Execution.Files.undo_replace_tree_entry ctxd.Execution.Files.restore_backup
    ctxd.Execution.Files.undo_rename_tree_entry ctxd.Execution.Files.undo_remove_tree_entry
    ctxd.Execution.Files.run_undo ctxd.Execution.Files.undo_errors
    ctxd.Execution.Files.rollback_filesystem ctxd.Execution.Files.run_cleanup
    ctxd.Execution.Files.cleanup_filesystem ctxd.Execution.Content.replace_crlf
    ctxd.Execution.Content.replace_cr ctxd.Execution.Content.normalize_text
    ctxd.Execution.Content.is_line_break ctxd.Execution.Content.count_lines
    ctxd.Execution.Content.line_count ctxd.Execution.Content.encode_character
    ctxd.Execution.Content.encode ctxd.Execution.Moves.entry_by_source_key
    ctxd.Execution.Moves.update_path ctxd.Execution.Moves.update_entries
    ctxd.Execution.Moves.from_path ctxd.Execution.Moves.follow ctxd.Execution.Moves.cycles_from
    ctxd.Execution.Moves.move_cycles ctxd.Execution.Moves.validated_move_entry
    ctxd.Execution.Moves.validated_entries ctxd.Execution.Moves.current_locations
    ctxd.Execution.Moves.source_keys_by_path ctxd.Execution.Moves.move_destinations
    ctxd.Execution.Moves.break_cycles ctxd.Execution.Moves.break_move_cycles
    ctxd.Execution.Moves.park ctxd.Execution.Moves.move_file ctxd.Execution.Moves.move_one
    ctxd.Execution.Moves.move_batch ctxd.Execution.Apply.upsert_entry
    ctxd.Execution.Apply.upsert_decision ctxd.Execution.Apply.require_decision_path
    ctxd.Execution.Apply.transaction ctxd.Execution.Apply.submission
    ctxd.Execution.Apply.keep_object ctxd.Execution.Apply.retire ctxd.Execution.Apply.write_object
    ctxd.Execution.Apply.store_object ctxd.Execution.Apply.place_object
    ctxd.Execution.Apply.save_entry ctxd.Execution.Apply.write_entry ctxd.Execution.Apply.apply_put
    ctxd.Execution.Apply.delete_existing ctxd.Execution.Apply.apply_delete
    ctxd.Execution.Apply.record_decision ctxd.Execution.Apply.apply_decision
    ctxd.Execution.Apply.apply_operations ctxd.Execution.Apply.set_state
    ctxd.Execution.Apply.try_submission ctxd.Execution.Apply.fail_submission
    ctxd.Execution.Apply.insert_submission ctxd.Execution.Apply.submit
    ctxd.Submissions.Operations.moves_of ctxd.Submissions.Operations.reject_duplicate_move_sources
    ctxd.Submissions.Operations.visit_dependency ctxd.Submissions.Operations.visit
    ctxd.Submissions.Operations.visit_all ctxd.Submissions.Operations.moves_by_source_path
    ctxd.Submissions.Operations.order_moves ctxd.Submissions.Operations.ordered_operations
    ctxd.Submissions.Preflight.add_rows ctxd.Submissions.Preflight.source_path_maps
    ctxd.Submissions.Preflight.require_unoccupied_path ctxd.Submissions.Preflight.preflight_put
    ctxd.Submissions.Preflight.check_destination ctxd.Submissions.Preflight.preflight_move
    ctxd.Submissions.Preflight.preflight_delete ctxd.Submissions.Preflight.preflight_decision
    ctxd.Submissions.Preflight.preflight_step ctxd.Submissions.Preflight.preflight_loop
    ctxd.Submissions.Preflight.preflight_submission ctxd.Ownership.check_rivals
    ctxd.Ownership.insert_prefix ctxd.Ownership.register_prefix
    ctxd.Ownership.require_authorized_path ctxd.Paths.is_dots ctxd.Paths.has_drive_prefix
    ctxd.Paths.posix_root ctxd.Paths.posix_parts ctxd.Paths.normalize_path
    ctxd.Paths.path_is_within_prefix ctxd.Paths.prefixes_overlap ctxd.Paths.join_relative
    ctxd.Paths.relative_parts ctxd.Globs.has_unclosed_character_class
    ctxd.Globs.validate_glob_pattern ctxd.Globs.glob_matches ctxd.Reads.stat
    ctxd.Reads.require_entry ctxd.Reads.read_bytes ctxd.Reads.split_lines ctxd.Reads.shorten
    ctxd.Reads.truncate_utf8 ctxd.Reads.read ctxd.Reads.read_lines ctxd.Reads.Listings.text_leb
    ctxd.Reads.Listings.insert_by ctxd.Reads.Listings.sorted ctxd.Reads.Listings.within_prefix
    ctxd.Reads.Listings.entries_under_prefix ctxd.Reads.Listings.paths_within
    ctxd.Reads.Listings.set_default ctxd.Reads.Listings.bounded ctxd.Reads.Listings.add_child
    ctxd.Reads.Listings.parents ctxd.Reads.Listings.add_parents ctxd.Reads.Listings.add_file
    ctxd.Reads.Listings.disk_directory_entry ctxd.Reads.Listings.disk_files_under_prefix
    ctxd.Reads.Listings.add_unlisted ctxd.Reads.Listings.add_disk_child
    ctxd.Reads.Listings.gather_disk ctxd.Reads.Listings.listed ctxd.Reads.Listings.add_children
    ctxd.Reads.Listings.add_files ctxd.Reads.Listings.ls ctxd.Reads.Listings.tree_listing
    ctxd.Reads.Listings.gather ctxd.Reads.Listings.glob ctxd.Prelude.Dict.get ctxd.Prelude.Dict.put
    ctxd.Prelude.Dict.pop ctxd.Prelude.mem ctxd.Prelude.has_duplicates ctxd.Prelude.find
    ctxd.Prelude.starts_with ctxd.Prelude.has_control_character ctxd.Prelude.is_space
    ctxd.Prelude.lstrip ctxd.Prelude.rstrip ctxd.Prelude.strip ctxd.Prelude.decimal
    ctxd.Prelude.split ctxd.Prelude.join ctxd.Prelude.ends_with ctxd.Prelude.update_rows
    ctxd.Prelude.row_count ctxd.Prelude.map_result ctxd.Prelude.any_result ctxd.Prelude.list_beq
note_put = refl

put_read_example :
    read calm plain note.path 5 (apply_put calm user writer note two_files).1
    ≡ ok (record {
      path = note.path;
      text = 120 ∷ 10 ∷ [];
      content_hash = hash_of calm (120 ∷ 10 ∷ []);
      complete = true;
      stopped_by = none;
    })
put_read_example =
    put_read calm plain user writer note 5 note.path (120 ∷ 10 ∷ []) (120 ∷ 10 ∷ []) two_files
      note_path note_text note_bytes refl (omega arith) (omega arith) note_new note_put
