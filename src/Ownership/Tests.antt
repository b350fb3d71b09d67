-- ===== src/Ownership/Tests.antt =====
-- One writer that has registered a prefix.
use ctxd.Prelude.{◌≡◌, refl, Bool, true, Text, codes, ok, List, [], ◌∷◌}
use ctxd.Ownership.{WriterPrefix, register_prefix, require_authorized_path}
use ctxd.Ownership.Exclusive.{start, register, one_writer, register_prefix-IsDisjoint, IsDisjoint}

abbrev user : Text
user = codes "u"

abbrev writer : Text
writer = codes "w"

abbrev rows : List WriterPrefix
rows = (record { user_id = user; writer_id = writer; prefix = codes "docs"; created_at = 3 }) ∷ []

registered : register_prefix 3 user writer (codes "docs") [] ≡ ok rows
unfolding register_prefix ctxd.Paths.normalize_path ctxd.Prelude.list_beq ctxd.Prelude.starts_with
    ctxd.Prelude.has_control_character ctxd.Paths.has_drive_prefix ctxd.Prelude.split
    ctxd.Paths.is_dots ctxd.Paths.posix_root ctxd.Paths.posix_parts ctxd.Ownership.check_rivals
    ctxd.Ownership.insert_prefix ctxd.Prelude.join
registered = refl

authorized : require_authorized_path rows user writer (codes "docs/a") ≡ ok tt
unfolding require_authorized_path ctxd.Prelude.any_result ctxd.Prelude.list_beq
    ctxd.Paths.path_is_within_prefix ctxd.Paths.normalize_path ctxd.Prelude.starts_with
    ctxd.Prelude.has_control_character ctxd.Paths.has_drive_prefix ctxd.Prelude.split
    ctxd.Paths.is_dots ctxd.Paths.posix_root ctxd.Paths.posix_parts ctxd.Prelude.join
authorized = refl

one_writer_example : writer ≡ writer
one_writer_example =
    one_writer rows user writer writer (codes "docs/a")
      (register 3 user writer (codes "docs") start registered) authorized authorized

register_prefix-IsDisjoint_example : IsDisjoint rows
register_prefix-IsDisjoint_example =
    register_prefix-IsDisjoint 3 user writer (codes "docs") [] (λ r s m n u w. absurd m) registered
