-- ===== src/Paths/Tests.antt =====
-- The path operations on `docs/a`.
use ctxd.Prelude.{◌≡◌, refl, Bool, true, Text, codes, ok, ◌↔◌}
use ctxd.Paths.{normalize_path, path_is_within_prefix, prefixes_overlap}
use ctxd.Paths.Canonical.{IsCanonical, normalize_path_iff}
use ctxd.Paths.Prefix.{IsUnder, path_is_within_prefix_iff, prefixes_overlap-common}

abbrev docs : Text
docs = codes "docs"

abbrev file : Text
file = codes "docs/a"

docs_accepted : normalize_path docs ≡ ok docs
unfolding normalize_path ctxd.Prelude.list_beq ctxd.Prelude.starts_with
    ctxd.Prelude.has_control_character ctxd.Paths.has_drive_prefix ctxd.Prelude.split
    ctxd.Paths.is_dots ctxd.Paths.posix_root ctxd.Paths.posix_parts ctxd.Prelude.join
docs_accepted = refl

file_accepted : normalize_path file ≡ ok file
unfolding normalize_path ctxd.Prelude.list_beq ctxd.Prelude.starts_with
    ctxd.Prelude.has_control_character ctxd.Paths.has_drive_prefix ctxd.Prelude.split
    ctxd.Paths.is_dots ctxd.Paths.posix_root ctxd.Paths.posix_parts ctxd.Prelude.join
file_accepted = refl

docs-IsCanonical : IsCanonical docs
docs-IsCanonical = ((normalize_path_iff docs docs).0 docs_accepted).0

file-IsCanonical : IsCanonical file
file-IsCanonical = ((normalize_path_iff file file).0 file_accepted).0

normalize_path_iff_example : (normalize_path file ≡ ok file) ↔ (IsCanonical file × (file ≡ file))
normalize_path_iff_example = normalize_path_iff file file

path_is_within_prefix_iff_example : (path_is_within_prefix file docs ≡ ok true) ↔ IsUnder file docs
path_is_within_prefix_iff_example =
    path_is_within_prefix_iff file docs file-IsCanonical docs-IsCanonical

file_in_docs : path_is_within_prefix file docs ≡ ok true
unfolding path_is_within_prefix normalize_path ctxd.Prelude.list_beq ctxd.Prelude.starts_with
    ctxd.Prelude.has_control_character ctxd.Paths.has_drive_prefix ctxd.Prelude.split
    ctxd.Paths.is_dots ctxd.Paths.posix_root ctxd.Paths.posix_parts ctxd.Prelude.join
file_in_docs = refl

file_in_file : path_is_within_prefix file file ≡ ok true
unfolding path_is_within_prefix normalize_path ctxd.Prelude.list_beq ctxd.Prelude.starts_with
    ctxd.Prelude.has_control_character ctxd.Paths.has_drive_prefix ctxd.Prelude.split
    ctxd.Paths.is_dots ctxd.Paths.posix_root ctxd.Paths.posix_parts ctxd.Prelude.join
file_in_file = refl

prefixes_overlap-common_example : prefixes_overlap docs file ≡ ok true
prefixes_overlap-common_example = prefixes_overlap-common file docs file file_in_docs file_in_file
