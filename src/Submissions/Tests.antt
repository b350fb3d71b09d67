-- ===== src/Submissions/Tests.antt =====
-- Submissions of a writer that owns `docs`: two moves that swap two files, a put, and two moves to
-- one destination.
use mathlib.Core.Bool.{false≢true}
use ctxd.Prelude.{
  ◌≡◌, ◌≢◌, ◌↔◌, refl, sym, ◌∙◌, subst, Bool, true, false, ℕ, Text, codes, Option, none, some, ok,
  err, List, [], ◌∷◌, ◌==◌, nat_eq, list_eq, pair_eq, has_duplicates, map, In, All, inl, inr,
  eq_iff,
}
use ctxd.Prelude.Dict
use ctxd.Prelude.Dict.{Dict}
use ctxd.Paths.{normalize_path}
use ctxd.Paths.Canonical.{IsCanonical, normalize_path_iff}
use ctxd.Ownership.{WriterPrefix, require_authorized_path}
use ctxd.Submissions.Operations.{
  MoveOperation, PutOperation, SourceIdentity, order_moves, editable, put, move, moves_of,
}
use ctxd.Submissions.Visits.{key}
use ctxd.Submissions.Ordering.{order_moves-permutes}
use ctxd.Submissions.Preflight.{
  Maps, EntryRow, identity_of, preflight_submission, preflight_loop, moving_identities,
}
use ctxd.Submissions.Preflight.Collision.{preflight_collision}
use ctxd.Submissions.Preflight.Checked.{
  Authorized, IsInverse, preflight_submission-Authorized, preflight_submission-IsInverse,
}

abbrev user : Text
user = codes "u"

abbrev writer : Text
writer = codes "w"

abbrev prefixes : List WriterPrefix
prefixes =
    (record { user_id = user; writer_id = writer; prefix = codes "docs"; created_at = 3 }) ∷ []

abbrev move_to : Text → Text → MoveOperation
move_to source path = record {
  source_key = source;
  path = path;
  source_version = codes "1";
  expected_content_hash = codes "h";
}

abbrev swap : List MoveOperation
swap = move_to (codes "1") (codes "docs/b") ∷ move_to (codes "2") (codes "docs/a") ∷ []

abbrev held : Dict SourceIdentity Text
held = ((writer, codes "1"), codes "docs/a") ∷ ((writer, codes "2"), codes "docs/b") ∷ []

a_accepted : normalize_path (codes "docs/a") ≡ ok (codes "docs/a")
unfolding normalize_path ctxd.Prelude.list_beq ctxd.Prelude.starts_with
    ctxd.Prelude.has_control_character ctxd.Paths.has_drive_prefix ctxd.Prelude.split
    ctxd.Paths.is_dots ctxd.Paths.posix_root ctxd.Paths.posix_parts ctxd.Prelude.join
a_accepted = refl

b_accepted : normalize_path (codes "docs/b") ≡ ok (codes "docs/b")
unfolding normalize_path ctxd.Prelude.list_beq ctxd.Prelude.starts_with
    ctxd.Prelude.has_control_character ctxd.Paths.has_drive_prefix ctxd.Prelude.split
    ctxd.Paths.is_dots ctxd.Paths.posix_root ctxd.Paths.posix_parts ctxd.Prelude.join
b_accepted = refl

c_accepted : normalize_path (codes "docs/c") ≡ ok (codes "docs/c")
unfolding normalize_path ctxd.Prelude.list_beq ctxd.Prelude.starts_with
    ctxd.Prelude.has_control_character ctxd.Paths.has_drive_prefix ctxd.Prelude.split
    ctxd.Paths.is_dots ctxd.Paths.posix_root ctxd.Paths.posix_parts ctxd.Prelude.join
c_accepted = refl

canonical : (path : Text) → normalize_path path ≡ ok path → IsCanonical path
canonical path h = ((normalize_path_iff path path).0 h).0

swap-IsCanonical : (o : MoveOperation) → In o swap → IsCanonical o.path
swap-IsCanonical o (inl e) =
    subst (λ (x : MoveOperation). IsCanonical x.path) e (canonical (codes "docs/b") b_accepted)
swap-IsCanonical o (inr (inl e)) =
    subst (λ (x : MoveOperation). IsCanonical x.path) e (canonical (codes "docs/a") a_accepted)
swap-IsCanonical o (inr (inr e)) = absurd e

swap_distinct : has_duplicates (map key swap) ≡ false
unfolding has_duplicates ctxd.Prelude.list_beq
swap_distinct = refl

order_moves-permutes_example :
    (ordered : List MoveOperation) × (order_moves writer held swap ≡ ok ordered)
    × (has_duplicates (map key ordered) ≡ false)
    × ((o : MoveOperation) → In o ordered ↔ In o swap)
order_moves-permutes_example = order_moves-permutes writer held swap swap_distinct swap-IsCanonical

abbrev upload : PutOperation
upload = record {
  path = codes "docs/a";
  source_key = codes "1";
  source_version = codes "1";
  doc_class = editable;
  file_format = codes "md";
  text = codes "x";
  provenance = record {
    producer = codes "p";
    producer_version = codes "1";
    confidence = none;
    warnings = [];
  };
}

abbrev put_maps : Maps
put_maps = record {
  paths_by_source = ((writer, codes "1"), codes "docs/a") ∷ [];
  sources_by_path = (codes "docs/a", (writer, codes "1")) ∷ [];
}

put_accepted : preflight_submission prefixes user writer [] (put upload ∷ []) ≡ ok put_maps
unfolding preflight_submission preflight_loop ctxd.Submissions.Preflight.preflight_step
    ctxd.Submissions.Preflight.preflight_put normalize_path ctxd.Prelude.list_beq
    ctxd.Prelude.starts_with ctxd.Prelude.has_control_character ctxd.Paths.has_drive_prefix
    ctxd.Prelude.split ctxd.Paths.is_dots ctxd.Paths.posix_root ctxd.Paths.posix_parts
    require_authorized_path ctxd.Prelude.any_result ctxd.Paths.path_is_within_prefix
    ctxd.Prelude.join ctxd.Submissions.Preflight.require_unoccupied_path Dict.get Dict.pop Dict.put
    ctxd.Submissions.Preflight.add_rows ctxd.Submissions.Preflight.source_path_maps
put_accepted = refl

preflight_submission-Authorized_example : All (Authorized prefixes user writer) (put upload ∷ [])
preflight_submission-Authorized_example =
    preflight_submission-Authorized prefixes user writer [] (put upload ∷ []) put_maps put_accepted

no_duplicate_identities : has_duplicates (map identity_of []) ≡ false
unfolding has_duplicates
no_duplicate_identities = refl

no_duplicate_paths : has_duplicates (map (λ (x : EntryRow). x.path) []) ≡ false
unfolding has_duplicates
no_duplicate_paths = refl

no_moves : moves_of (put upload ∷ []) ≡ []
unfolding moves_of
no_moves = refl

preflight_submission-IsInverse_example : IsInverse put_maps
preflight_submission-IsInverse_example =
    preflight_submission-IsInverse prefixes user writer [] (put upload ∷ []) put_maps
      no_duplicate_identities no_duplicate_paths no_moves put_accepted

abbrev first_move : MoveOperation
first_move = move_to (codes "1") (codes "docs/c")

abbrev second_move : MoveOperation
second_move = move_to (codes "2") (codes "docs/c")

abbrev two_files : Maps
two_files = record {
  paths_by_source = held;
  sources_by_path =
      (codes "docs/a", (writer, codes "1")) ∷ (codes "docs/b", (writer, codes "2")) ∷ [];
}

owns_a : require_authorized_path prefixes user writer (codes "docs/a") ≡ ok tt
unfolding require_authorized_path ctxd.Prelude.any_result ctxd.Prelude.list_beq
    ctxd.Paths.path_is_within_prefix normalize_path ctxd.Prelude.starts_with
    ctxd.Prelude.has_control_character ctxd.Paths.has_drive_prefix ctxd.Prelude.split
    ctxd.Paths.is_dots ctxd.Paths.posix_root ctxd.Paths.posix_parts ctxd.Prelude.join
owns_a = refl

owns_b : require_authorized_path prefixes user writer (codes "docs/b") ≡ ok tt
unfolding require_authorized_path ctxd.Prelude.any_result ctxd.Prelude.list_beq
    ctxd.Paths.path_is_within_prefix normalize_path ctxd.Prelude.starts_with
    ctxd.Prelude.has_control_character ctxd.Paths.has_drive_prefix ctxd.Prelude.split
    ctxd.Paths.is_dots ctxd.Paths.posix_root ctxd.Paths.posix_parts ctxd.Prelude.join
owns_b = refl

owns_c : require_authorized_path prefixes user writer (codes "docs/c") ≡ ok tt
unfolding require_authorized_path ctxd.Prelude.any_result ctxd.Prelude.list_beq
    ctxd.Paths.path_is_within_prefix normalize_path ctxd.Prelude.starts_with
    ctxd.Prelude.has_control_character ctxd.Paths.has_drive_prefix ctxd.Prelude.split
    ctxd.Paths.is_dots ctxd.Paths.posix_root ctxd.Paths.posix_parts ctxd.Prelude.join
owns_c = refl

apart_by : (a b : Text) → (a == b) ≡ false → a ≢ b
apart_by a b h e = false≢true (sym h ∙ (eq_iff a b).1 e)

one_apart : codes "1" ≢ codes "2"
unfolding ctxd.Prelude.list_beq
one_apart = apart_by (codes "1") (codes "2") refl

a_apart : codes "docs/a" ≢ codes "docs/c"
unfolding ctxd.Prelude.list_beq
a_apart = apart_by (codes "docs/a") (codes "docs/c") refl

b_apart : codes "docs/b" ≢ codes "docs/c"
unfolding ctxd.Prelude.list_beq
b_apart = apart_by (codes "docs/b") (codes "docs/c") refl

holds_1 : Dict.get (writer, codes "1") held ≡ some (codes "docs/a")
unfolding Dict.get ctxd.Prelude.list_beq
holds_1 = refl

holds_2 : Dict.get (writer, codes "2") held ≡ some (codes "docs/b")
unfolding Dict.get ctxd.Prelude.list_beq
holds_2 = refl

c_free : Dict.get (codes "docs/c") two_files.sources_by_path ≡ none
unfolding Dict.get ctxd.Prelude.list_beq
c_free = refl

preflight_collision_example :
    (m' : Maps) × (preflight_loop prefixes user writer
        (moving_identities prefixes user writer (move first_move ∷ move second_move ∷ []))
        (move first_move ∷ move second_move ∷ [])
        two_files
      ≡ ok m')
    × (Dict.get (writer, codes "1") m'.paths_by_source ≡ some (codes "docs/c"))
    × (Dict.get (writer, codes "2") m'.paths_by_source ≡ some (codes "docs/c"))
preflight_collision_example =
    preflight_collision prefixes user writer two_files first_move second_move (codes "docs/a")
      (codes "docs/b") (canonical (codes "docs/c") c_accepted) refl one_apart holds_1 holds_2 c_free
      a_apart b_apart owns_c owns_a owns_b
