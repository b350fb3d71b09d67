-- ===== src/Paths.antt =====
-- src/ctxfs/store.py: logical paths. `normalize_path` is `_normalize_path`, `within` is
-- `_path_is_within_prefix`, and so on.
pub mod Tests
pub mod Canonical
pub mod Prefix
use ctxd.Prelude.{
  ℕ, ◌+◌, ◌≡◌, Bool, true, false, not, ◌&&◌, ◌||◌, List, [], ◌∷◌, ◌++◌, ◌==◌, if◌then◌else◌, nat_eq,
  list_eq, any, filter, is_empty, drop, length, Text, codes, starts_with, has_control_character,
  split, join, Result, ok, err, value_error, ◌>>=◌, ◌>>◌, guard,
}

abbrev pub slash : ℕ
slash = b'/'

-- _ASCII_LETTERS
abbrev pub ascii_letters : Text
ascii_letters = codes "abcdefghijklmnopqrstuvwxyzABCDEFGHIJKLMNOPQRSTUVWXYZ"

-- part in ("", ".", "..")
unfoldable pub is_dots : Text → Bool
is_dots part = part == [] || part == codes "." || part == codes ".."

-- path.startswith(tuple(f"{letter}:" for letter in _ASCII_LETTERS))
unfoldable pub has_drive_prefix : Text → Bool
unfolding starts_with
has_drive_prefix path = any (λ letter. starts_with path (letter ∷ b':' ∷ [])) ascii_letters

-- The root of PurePosixPath(path): two leading slashes are kept, three or more are one.
unfoldable pub posix_root : Text → Text
posix_root path =
    if starts_with path (codes "///")
    then codes "/"
    else if starts_with path (codes "//")
    then codes "//"
    else if starts_with path (codes "/")
    then codes "/"
    else []

-- PurePosixPath(path).parts
unfoldable pub posix_parts : Text → List Text
posix_parts path =
    let names = filter (λ part. not (part == [] || part == codes ".")) (split slash path) in
    if is_empty (posix_root path) then names else posix_root path ∷ names

unfoldable pub normalize_path : Text → Result Text
normalize_path path = do
  guard (not (path == [] || starts_with path (codes "/") || has_control_character path)) value_error
  guard (not (has_drive_prefix path)) value_error
  guard (not (any is_dots (split slash path))) value_error
  guard (is_empty (posix_root path)) value_error
  guard
      (not (
        is_empty (posix_parts path)
        || any (λ part. is_dots part || has_control_character part) (posix_parts path)))
      value_error
  ok (join slash (posix_parts path))

unfoldable pub path_is_within_prefix : Text → Text → Result Bool
path_is_within_prefix path prefix = do
  normalized_path ← normalize_path path
  normalized_prefix ← normalize_path prefix
  ok (
      normalized_path == normalized_prefix
      || starts_with normalized_path (normalized_prefix ++ codes "/"))

-- `or` calls its second operand only if the first is false.
unfoldable pub prefixes_overlap : Text → Text → Result Bool
prefixes_overlap left right = do
  inside ← path_is_within_prefix left right
  if inside then ok true else path_is_within_prefix right left

unfoldable pub join_relative : Text → Text → Text
join_relative prefix name = if is_empty prefix then name else prefix ++ slash ∷ name

unfoldable pub relative_parts : Text → Text → List Text
relative_parts prefix path =
    if is_empty prefix
    then posix_parts path
    else if path == prefix
    then []
    else if not (starts_with path (prefix ++ codes "/"))
    then []
    else posix_parts (drop (length prefix + 1) path)
