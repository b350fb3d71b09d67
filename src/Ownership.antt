-- ===== src/Ownership.antt =====
-- src/ctxfs/store.py: the table `writer_prefixes` of the prefixes that writers have registered.
pub mod Tests
pub mod Exclusive
use ctxd.Prelude.{
  ℕ, ◌+◌, ◌≡◌, Bool, true, false, not, ◌&&◌, ◌||◌, List, [], ◌∷◌, ◌++◌, map, Option, none, some,
  ◌==◌, if◌then◌else◌, nat_eq, list_eq, option_eq, any, filter, is_empty, length, Text, codes,
  any_result, Result, ok, err, value_error, prefix_authorization_error, ◌>>=◌, ◌>>◌, guard,
  map_result, Time,
}
use ctxd.Paths.{normalize_path, path_is_within_prefix, prefixes_overlap}

-- A row of `writer_prefixes`.
pub record WriterPrefix : Type 0 where
  pub user_id : Text
  pub writer_id : Text
  pub prefix : Text
  pub created_at : Time

-- WHERE user_id = ? AND writer_id != ?
abbrev pub is_rival : Text → Text → WriterPrefix → Bool
is_rival user_id writer_id row = row.user_id == user_id && not (row.writer_id == writer_id)

-- WHERE user_id = ? AND writer_id = ?
abbrev pub is_own : Text → Text → WriterPrefix → Bool
is_own user_id writer_id row = row.user_id == user_id && row.writer_id == writer_id

-- The loop of `register_prefix` over the rows of other writers.
unfoldable pub check_rivals : Text → List WriterPrefix → Result (Unit {0})
check_rivals normalized [] = ok tt
check_rivals normalized (row ∷ rows) = do
  let rest = check_rivals normalized rows
  overlaps ← prefixes_overlap normalized row.prefix
  if overlaps then err prefix_authorization_error else rest

-- INSERT OR IGNORE, under PRIMARY KEY(user_id, writer_id, prefix)
unfoldable pub insert_prefix : WriterPrefix → List WriterPrefix → List WriterPrefix
insert_prefix row rows =
    if any (λ r. r.user_id == row.user_id && r.writer_id == row.writer_id && r.prefix == row.prefix)
      rows
    then rows
    else rows ++ row ∷ []

-- `now` is the reading of the clock.
unfoldable pub register_prefix :
    Time → Text → Text → Text → List WriterPrefix → Result (List WriterPrefix)
register_prefix now user_id writer_id prefix rows = do
  normalized ← normalize_path prefix
  check_rivals normalized (filter (is_rival user_id writer_id) rows)
  ok (
      insert_prefix
        (record { user_id = user_id; writer_id = writer_id; prefix = normalized; created_at = now })
        rows)

unfoldable pub require_authorized_path : List WriterPrefix → Text → Text → Text → Result (Unit {0})
require_authorized_path rows user_id writer_id path = do
  found ←
      any_result (λ row. path_is_within_prefix path row.prefix)
        (filter (is_own user_id writer_id) rows)
  guard found prefix_authorization_error
