-- ===== src/Reads/Listings.antt =====
-- src/ctxfs/store.py: `ls`, `tree` and `glob` over the entries and the files on disk.
use ctxd.Prelude.{
  ℕ, ◌+◌, Bool, true, false, not, ◌&&◌, ◌||◌, List, [], ◌∷◌, ◌++◌, map, Option, none, some, ◌==◌,
  nat_eq, list_eq, if◌then◌else◌, Text, codes, ltb, leb, length, take, join, Result, ok, err, guard,
  ◌>>=◌, ◌>>◌, value_error, is_empty,
}
use ctxd.Prelude.Dict
use ctxd.Prelude.Dict.{Dict}
use ctxd.Paths.{
  normalize_path, path_is_within_prefix, posix_parts, relative_parts, join_relative, slash,
}
use ctxd.Globs.{validate_glob_pattern, glob_matches}
use ctxd.Submissions.Preflight.{EntryRow}
use ctxd.Execution.{State, tree}
use ctxd.Execution.Files.{has_value}
use ctxd.Execution.Content.{line_count}
use ctxd.Reads.{Library, stat, read_bytes}

pub data Kind : Type 0 where
  file directory : Kind

pub record DirectoryEntry : Type 0 where
  pub path : Text
  pub kind : Kind
  pub size_bytes : Option ℕ
  pub line_count : Option ℕ
  pub content_hash : Option Text

pub record Bounded : Type 0 where
  pub items : List DirectoryEntry
  pub complete : Bool
  pub stopped_by : Option Text

-- The order of texts by their code points
unfoldable pub text_leb : Text → Text → Bool
text_leb [] t = true
text_leb (c ∷ s) [] = false
text_leb (c ∷ s) (d ∷ t) = ltb c d || (c == d && text_leb s t)

-- sorted(values, key=key), which is stable
unfoldable pub insert_by : {A : Type 0} → (A → Text) → A → List A → List A
unfolding text_leb
insert_by key x [] = x ∷ []
insert_by key x (y ∷ ys) =
    let rest = insert_by key x ys in if text_leb (key x) (key y) then x ∷ y ∷ ys else y ∷ rest

unfoldable pub sorted : {A : Type 0} → (A → Text) → List A → List A
unfolding insert_by
sorted key [] = []
sorted key (x ∷ xs) = insert_by key x (sorted key xs)

-- The rows whose path is within the prefix.
unfoldable pub within_prefix : Text → List EntryRow → Result (List EntryRow)
within_prefix prefix [] = ok []
within_prefix prefix (row ∷ rows) = do
  let rest = within_prefix prefix rows
  inside ← if is_empty prefix then ok true else path_is_within_prefix row.path prefix
  more ← rest
  ok (if inside then row ∷ more else more)

unfoldable pub entries_under_prefix : Text → State → Result (List EntryRow)
unfolding sorted within_prefix
entries_under_prefix prefix s = within_prefix prefix (sorted (λ row. row.path) s.entries)

unfoldable pub paths_within : Text → List Text → Result (List Text)
paths_within prefix [] = ok []
paths_within prefix (path ∷ paths) = do
  let rest = paths_within prefix paths
  inside ← if is_empty prefix then ok true else path_is_within_prefix path prefix
  more ← rest
  ok (if inside then path ∷ more else more)

-- d.setdefault(k, v)
unfoldable pub set_default :
    Text → DirectoryEntry → Dict Text DirectoryEntry → Dict Text DirectoryEntry
set_default k v d = if has_value (Dict.get k d) then d else Dict.put k v d

abbrev pub file_entry : EntryRow → DirectoryEntry
file_entry row = record {
  path = row.path;
  kind = file;
  size_bytes = some row.size_bytes;
  line_count = some row.line_count;
  content_hash = some row.content_hash;
}

abbrev pub directory_entry : Text → DirectoryEntry
directory_entry path = record {
  path = path;
  kind = directory;
  size_bytes = none;
  line_count = none;
  content_hash = none;
}

-- The variables of a listing.
pub record Listing : Type 0 where
  pub children : Dict Text DirectoryEntry
  pub incomplete : Bool

-- The end of a listing.
unfoldable pub bounded : ℕ → Bool → List DirectoryEntry → Bounded
bounded limit incomplete entries =
    if ltb limit (length entries)
    then record { items = take limit entries; complete = false; stopped_by = some (codes "limit") }
    else record {
      items = entries;
      complete = not incomplete;
      stopped_by = if incomplete then some (codes "catalog_mismatch") else none;
    }

abbrev pub values : Dict Text DirectoryEntry → List DirectoryEntry
values = map (λ (_, entry). entry)

-- A file below the directory that is listed, as a child of it or by the child that holds it.
unfoldable pub add_child :
    Text → DirectoryEntry → Dict Text DirectoryEntry → Dict Text DirectoryEntry
unfolding set_default
add_child normalized entry children = elim (relative_parts normalized entry.path) [
  | [] ↦ children
  | first ∷ rest ↦
      let child_path = join_relative normalized first in
      if is_empty rest
      then Dict.put child_path (record entry { path = child_path }) children
      else set_default child_path (directory_entry child_path) children
]

-- Path by path, the parents of a path, the nearest first
unfoldable pub parents : List Text → List (List Text)
parents [] = []
parents (part ∷ []) = []
parents (part ∷ next ∷ parts) =
    map (λ above. part ∷ above) (parents (next ∷ parts)) ++ (part ∷ []) ∷ []

abbrev pub is_shallow : Option ℕ → Text → Text → Bool
is_shallow none prefix path = true
is_shallow (some depth) prefix path = leb (length (relative_parts prefix path)) depth

unfoldable pub add_parents :
    Text
    → Option ℕ
    → List (List Text)
    → Dict Text DirectoryEntry
    → Result (Dict Text DirectoryEntry)
unfolding set_default
add_parents prefix depth [] found = ok found
add_parents prefix depth (parts ∷ above) found = do
  let parent_path = join slash parts
  inside ← if is_empty prefix then ok true else path_is_within_prefix parent_path prefix
  let shown = not (parent_path == prefix) && inside && is_shallow depth prefix parent_path
  add_parents prefix depth above
      (if shown then set_default parent_path (directory_entry parent_path) found else found)

-- A file of the tree, if it is not too deep, and the directories above it.
unfoldable pub add_file :
    Text → Option ℕ → DirectoryEntry → Dict Text DirectoryEntry → Result (Dict Text DirectoryEntry)
unfolding parents add_parents
add_file prefix depth entry found =
    add_parents prefix depth (parents (posix_parts entry.path))
      (if is_shallow depth prefix entry.path then Dict.put entry.path entry found else found)

-- depth: int | None, which must not be negative.
pub data ℤ : Type 0 where
  pos : ℕ → ℤ
  negsuc : ℕ → ℤ

unfoldable pub check_depth : Option ℤ → Result (Option ℕ)
check_depth none = ok none
check_depth (some (pos depth)) = ok (some depth)
check_depth (some (negsuc n)) = err value_error

abbrev pub stopped_at_limit : List DirectoryEntry → Bounded
stopped_at_limit items = record {
  items = items;
  complete = false;
  stopped_by = some (codes "limit");
}

-- The loop of `glob` over the entries: it ends at the limit, and tells whether it did.
unfoldable pub gather :
    (Text → Bool) → ℕ → List DirectoryEntry → List DirectoryEntry → List DirectoryEntry × Bool
gather matches limit found [] = (found, false)
gather matches limit found (entry ∷ entries) =
    let skipped = gather matches limit found entries in
    let taken = gather matches limit (found ++ entry ∷ []) entries in
    if not (matches entry.path)
    then skipped
    else if leb limit (length found + 1)
    then (found ++ entry ∷ [], true)
    else taken

module _ (library : Library) (s : State) where
  -- _disk_directory_entry, for the file of the tree at `disk_path`
  unfoldable pub disk_directory_entry : Text → Text → Result DirectoryEntry
  disk_directory_entry path disk_path = do
    data_ ← read_bytes disk_path s
    ok (record {
      path = path;
      kind = file;
      size_bytes = some (length data_);
      line_count = some (line_count (library.decode_replace data_));
      content_hash = none;
    })

  unfoldable pub disk_files_under_prefix : Text → Result (List Text)
  unfolding paths_within
  disk_files_under_prefix prefix = paths_within prefix (library.walk s.files prefix)

  abbrev pub on_disk : EntryRow → Bool
  on_disk row = has_value (s.files (tree row.path))

  -- The entries whose file exists, and whether some file is missing
  unfoldable pub listed : List EntryRow → List DirectoryEntry × Bool
  listed [] = ([], false)
  listed (row ∷ rows) =
      let (more, missing) = listed rows in
      if on_disk row then (file_entry row ∷ more, missing) else (more, true)

  unfoldable pub add_children :
      Text → List DirectoryEntry → Dict Text DirectoryEntry → Dict Text DirectoryEntry
  unfolding add_child
  add_children normalized [] children = children
  add_children normalized (entry ∷ entries) children =
      add_children normalized entries (add_child normalized entry children)

  -- A file on disk without an entry; it is read if it is a child.
  unfoldable pub add_disk_child :
      Text → Text → Dict Text DirectoryEntry → Result (Dict Text DirectoryEntry)
  unfolding set_default disk_directory_entry
  add_disk_child normalized disk_path children = elim (relative_parts normalized disk_path) [
    | [] ↦ ok children
    | first ∷ rest ↦
        let child_path = join_relative normalized first in
        if is_empty rest
        then (do
          entry ← disk_directory_entry child_path disk_path
          ok (Dict.put child_path entry children))
        else ok (set_default child_path (directory_entry child_path) children)
  ]

  -- The loop of a listing over the files on disk; `add` is its body after the lookup.
  unfoldable pub add_unlisted :
      (Text → Dict Text DirectoryEntry → Result (Dict Text DirectoryEntry))
      → List Text
      → Listing
      → Result Listing
  unfolding stat
  add_unlisted add [] listing = ok listing
  add_unlisted add (disk_path ∷ paths) listing = do
    known ← stat disk_path s
    elim known [
      | some _ ↦ add_unlisted add paths listing
      | none ↦ (do
        children ← add disk_path listing.children
        add_unlisted add paths (record { children = children; incomplete = true }))
    ]

  unfoldable pub add_files :
      Text
      → Option ℕ
      → List DirectoryEntry
      → Dict Text DirectoryEntry
      → Result (Dict Text DirectoryEntry)
  unfolding add_file
  add_files prefix depth [] found = ok found
  add_files prefix depth (entry ∷ entries) found = do
    more ← add_file prefix depth entry found
    add_files prefix depth entries more

  -- A file on disk without an entry; it is read if it is not too deep.
  unfoldable pub add_disk_file :
      Text → Option ℕ → Text → Dict Text DirectoryEntry → Result (Dict Text DirectoryEntry)
  unfolding parents add_parents disk_directory_entry
  add_disk_file prefix depth disk_path found = do
    more ←
        if is_shallow depth prefix disk_path
        then (do
          entry ← disk_directory_entry disk_path disk_path
          ok (Dict.put disk_path entry found))
        else ok found
    add_parents prefix depth (parents (posix_parts disk_path)) more

  abbrev pub normalize_prefix : Text → Result Text
  normalize_prefix path = if is_empty path then ok [] else normalize_path path

  -- The end of a listing.
  abbrev pub finish_listing : ℕ → Listing → Bounded
  finish_listing limit listing =
      bounded limit listing.incomplete
        (sorted (λ e. library.casefold e.path) (values listing.children))

  unfoldable pub ls : Text → ℕ → Result Bounded
  unfolding entries_under_prefix disk_files_under_prefix listed add_children add_disk_child
      add_unlisted bounded sorted
  ls path limit = do
    guard (ltb 0 limit) value_error
    normalized ← normalize_prefix path
    rows ← entries_under_prefix normalized s
    let (entries, missing) = listed rows
    let children = add_children normalized entries []
    disk ← disk_files_under_prefix normalized
    listing ←
        add_unlisted (add_disk_child normalized) disk
          (record { children = children; incomplete = missing })
    ok (finish_listing limit listing)

  unfoldable pub tree_listing : Text → Option ℤ → ℕ → Result Bounded
  unfolding entries_under_prefix disk_files_under_prefix listed add_files add_disk_file add_unlisted
      bounded sorted check_depth
  tree_listing prefix depth limit = do
    guard (ltb 0 limit) value_error
    max_depth ← check_depth depth
    normalized ← normalize_prefix prefix
    rows ← entries_under_prefix normalized s
    let (entries, missing) = listed rows
    found ← add_files normalized max_depth entries []
    disk ← disk_files_under_prefix normalized
    listing ←
        add_unlisted (add_disk_file normalized max_depth) disk
          (record { children = found; incomplete = missing })
    ok (finish_listing limit listing)

  -- The loop of `glob` over the files on disk, and its end: a file is read if it matches.
  unfoldable pub gather_disk :
      (Text → Bool) → ℕ → Bool → List DirectoryEntry → List Text → Result Bounded
  unfolding stat disk_directory_entry
  gather_disk matches limit incomplete found [] = ok (record {
    items = found;
    complete = not incomplete;
    stopped_by = if incomplete then some (codes "catalog_mismatch") else none;
  })
  gather_disk matches limit incomplete found (disk_path ∷ paths) = do
    known ← stat disk_path s
    elim known [
      | some _ ↦ gather_disk matches limit incomplete found paths
      | none ↦ elim (matches disk_path) [
        | false ↦ gather_disk matches limit true found paths
        | true ↦ (do
          entry ← disk_directory_entry disk_path disk_path
          elim (leb limit (length found + 1)) [
            | true ↦ ok (stopped_at_limit (found ++ entry ∷ []))
            | false ↦ gather_disk matches limit true (found ++ entry ∷ []) paths
          ])
      ]
    ]

module _ (library : Library) (fnmatchcase : Text → Text → Bool) (s : State) where
  unfoldable pub glob : Text → Text → ℕ → Result Bounded
  unfolding entries_under_prefix disk_files_under_prefix listed gather gather_disk
  glob pattern prefix limit = do
    guard (ltb 0 limit) value_error
    normalized ← normalize_prefix library s prefix
    pattern_parts ← validate_glob_pattern pattern
    rows ← entries_under_prefix normalized s
    let (entries, missing) = listed library s rows
    let matches = λ (path : Text). glob_matches fnmatchcase pattern_parts (posix_parts path)
    let (found, full) = gather matches limit [] entries
    if full then ok (stopped_at_limit found) else (do
      disk ← disk_files_under_prefix library s normalized
      gather_disk library s matches limit missing found disk)
