-- ===== src/Catalog/Folders/Tests.antt =====
-- One folder that is registered twice.
use ctxd.Prelude.{◌≡◌, refl, ℕ, ◌<◌, Text, codes, Option, none, some, ok, List, [], ◌∷◌, arith}
use ctxd.Catalog.Machines.{MachineRow, unknown}
use ctxd.Catalog.Folders.{
  FolderRow, FolderRegistration, new_folder_row, folder_from_row, register_folder,
}
use ctxd.Catalog.Folders.Replay.{register_folder-replay}

abbrev user : Text
user = codes "u"

abbrev machines : List MachineRow
machines =
    (record {
      user_id = user;
      machine_id = codes "1";
      machine_key = codes "box";
      local_registration_id = codes "r";
      registration_name = codes "Box";
      registration_description = none;
      registration_platform = none;
      registration_ctxd_version = none;
      name = codes "Box";
      description = none;
      state = unknown;
      platform = none;
      ctxd_version = none;
      credential_key_id = none;
      enrollment_key_id = none;
      registered_at = 4;
    })
    ∷ []

abbrev ids : ℕ → Text
ids n = codes "7"

abbrev other_ids : ℕ → Text
other_ids n = codes "8"

abbrev same_text : Text → Text
same_text s = s

abbrev request : FolderRegistration
request = record {
  local_registration_id = codes "f";
  name = codes " My Notes ";
  description = none;
}

abbrev row : FolderRow
row =
    new_folder_row user (codes "1") (codes "7") (codes "my-notes") (codes "f") (codes "My Notes")
      none 5

registered :
    register_folder same_text ids user (codes "1") request 5 machines []
    ≡ ok (folder_from_row row, row ∷ [])
unfolding register_folder ctxd.Catalog.catalog_text ctxd.Prelude.strip
    ctxd.Prelude.has_control_character ctxd.Catalog.optional_description
    ctxd.Catalog.Machines.machine ctxd.Prelude.find ctxd.Prelude.list_beq
    ctxd.Catalog.Folders.register_checked_folder ctxd.Catalog.Folders.insert_folder
    ctxd.Catalog.Folders.folder ctxd.Catalog.suffixed_key ctxd.Catalog.catalog_key
registered = refl

register_folder-replay_example :
    register_folder same_text other_ids user (codes "1") request 9 machines (row ∷ [])
    ≡ ok (folder_from_row row, row ∷ [])
register_folder-replay_example =
    register_folder-replay same_text ids other_ids user (codes "1") request 5 9 machines []
      (row ∷ []) (folder_from_row row) (ground arith) registered
