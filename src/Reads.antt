-- ===== src/Reads.antt =====
-- src/ctxfs/store.py: what a lookup, a read and the listings return, with `_truncate_utf8`.
pub mod Listings
pub mod Complete
pub mod Bounds
pub mod Unchanged
pub mod RoundTrip
pub mod Tests
use ctxd.Prelude.{
  ℕ, zero, suc, ◌+◌, ◌-◌, ◌≡◌, Bool, true, false, not, ◌&&◌, ◌||◌, List, [], ◌∷◌, ◌++◌, Option,
  none, some, ◌==◌, nat_eq, list_eq, if◌then◌else◌, Text, codes, ltb, leb, length, take, drop, find,
  Result, ok, err, guard, ◌>>=◌, ◌>>◌, or_raise, value_error, file_not_found_error,
  content_hash_mismatch_error,
}
use ctxd.Paths.{normalize_path}
use ctxd.Submissions.Preflight.{EntryRow}
use ctxd.Execution.{System, State, Files, File, tree}
use ctxd.Execution.Files.{has_value}
use ctxd.Execution.Content.{hash_of, is_line_break}

-- What the program takes from Python and the disk: str.casefold, bytes.decode with "replace", whether
-- the strict decoding succeeds, and the logical paths of the files at or below a path, in the order of
-- their names on the disk.
pub record Library : Type 0 where
  pub casefold : Text → Text
  pub decode_replace : List ℕ → Text
  pub is_utf8 : List ℕ → Bool
  pub walk : Files → Text → List Text

pub record ReadResult : Type 0 where
  pub path : Text
  pub text : Text
  pub content_hash : Text
  pub complete : Bool
  pub stopped_by : Option Text

pub record ReadLinesResult : Type 0 where
  pub path : Text
  pub start_line : ℕ
  pub end_line : ℕ
  pub lines : List Text
  pub content_hash : Text
  pub complete : Bool
  pub stopped_by : Option Text

-- SELECT * FROM entries WHERE user_id = ? AND path = ?, and the file must exist.
unfoldable pub stat : Text → State → Result (Option EntryRow)
stat path s = do
  normalized ← normalize_path path
  ok (elim (find (λ row. row.path == normalized) s.entries) [
    | none ↦ none
    | some entry ↦ if has_value (s.files (tree entry.path)) then some entry else none
  ])

unfoldable pub require_entry : Text → State → Result EntryRow
unfolding stat
require_entry path s = do found ← stat path s; or_raise found file_not_found_error

-- path.read_bytes()
unfoldable pub read_bytes : Text → State → Result (List ℕ)
read_bytes path s = elim (s.files (tree path)) [
  | none ↦ err file_not_found_error
  | some (_, data_) ↦ ok data_
]

-- min(a, b)
abbrev pub min : ℕ → ℕ → ℕ
min a b = if leb a b then a else b

-- text.splitlines(); `line` is the text of the line so far, its last character first.
unfoldable pub split_lines : Text → Bool → Text → List Text
unfolding is_line_break ctxd.Prelude.starts_with
split_lines line started [] = if started then line ∷ [] else []
split_lines line started (c ∷ s) =
    let after_break = split_lines [] false s in
    let within = split_lines (line ++ c ∷ []) true s in
    let pair = c == 13 && ctxd.Prelude.starts_with s (10 ∷ []) in
    let held = split_lines line true s in
    if pair then held else if is_line_break c then line ∷ after_break else within

module _ (library : Library) where
  -- The loop of `_truncate_utf8`, at the prefix of `n` bytes.
  unfoldable pub shorten : ℕ → List ℕ → List ℕ
  shorten zero data_ = []
  shorten (suc n) data_ =
      let shorter = shorten n data_ in
      if library.is_utf8 (take (suc n) data_) then take (suc n) data_ else shorter

  unfoldable pub truncate_utf8 : List ℕ → ℕ → List ℕ
  unfolding shorten
  truncate_utf8 data_ max_bytes = shorten max_bytes data_

module _ (system : System) (library : Library) where
  unfoldable pub read : Text → ℕ → State → Result ReadResult
  unfolding require_entry read_bytes truncate_utf8
  read path max_bytes s = do
    guard (ltb 0 max_bytes) value_error
    entry ← require_entry path s
    data_ ← read_bytes entry.path s
    let complete = leb (length data_) max_bytes
    guard (hash_of system data_ == entry.content_hash) content_hash_mismatch_error
    let limited = if complete then data_ else truncate_utf8 library data_ max_bytes
    ok (record {
      path = entry.path;
      text = library.decode_replace limited;
      content_hash = entry.content_hash;
      complete = complete;
      stopped_by = if complete then none else some (codes "max_bytes");
    })

  unfoldable pub read_lines : Text → ℕ → ℕ → State → Result ReadLinesResult
  unfolding require_entry read_bytes split_lines
  read_lines path start_line end_line s = do
    guard (ltb 0 start_line) value_error
    guard (not (ltb end_line start_line)) value_error
    entry ← require_entry path s
    data_ ← read_bytes entry.path s
    guard (hash_of system data_ == entry.content_hash) content_hash_mismatch_error
    let lines = split_lines [] false (library.decode_replace data_)
    let complete = leb end_line (length lines)
    ok (record {
      path = entry.path;
      start_line = start_line;
      end_line = min end_line (length lines);
      lines = take (end_line - (start_line - 1)) (drop (start_line - 1) lines);
      content_hash = entry.content_hash;
      complete = complete;
      stopped_by = if complete then none else some (codes "eof");
    })
