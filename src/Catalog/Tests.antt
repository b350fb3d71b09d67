-- ===== src/Catalog/Tests.antt =====
-- One machine that registers, registers again, and binds and clears a credential.
use ctxd.Prelude.{
  ◌≡◌, ◌⊎◌, refl, Bool, true, false, ℕ, ◌<◌, Text, codes, Option, none, some, ok, err, List, [],
  ◌∷◌, ◌==◌, nat_eq, list_eq, option_eq, arith, catalog_binding_conflict_error,
}
use ctxd.Catalog.Machines.{
  MachineRow, Machine, Registration, Requested, new_row, machine_from_row, machine,
  register_machine, bind_machine_credential, clear_machine_credential, trimmed,
}
use ctxd.Catalog.Machines.Replay.{register_machine-replay}
use ctxd.Catalog.Machines.Binding.{
  Bound, set_key, bind_machine_credential-Bound, bind_machine_credential-race,
  clear_machine_credential-clears,
}

abbrev user : Text
user = codes "u"

abbrev ids : ℕ → Text
ids n = codes "1"

abbrev other_ids : ℕ → Text
other_ids n = codes "2"

abbrev same_text : Text → Text
same_text s = s

abbrev request : Registration
request = record {
  local_registration_id = codes "r";
  name = codes " Box ";
  description = none;
  platform = none;
  ctxd_version = none;
  enrollment_key_id = some (codes "e");
  enrollment_recovered = false;
}

abbrev row : MachineRow
row =
    new_row user (codes "1") (codes "box") (codes "r") request
      (record { name = codes "Box"; description = none; platform = none; ctxd_version = none }) 4

abbrev bound_row : MachineRow
bound_row = set_key (some (codes "k")) row

registered : register_machine same_text ids user request 4 [] ≡ ok (machine_from_row row, row ∷ [])
unfolding register_machine ctxd.Catalog.Machines.check_texts ctxd.Catalog.catalog_text
    ctxd.Prelude.strip ctxd.Prelude.has_control_character ctxd.Catalog.optional_description
    ctxd.Catalog.optional_catalog_text ctxd.Prelude.find ctxd.Catalog.Machines.insert_machine
    machine ctxd.Prelude.list_beq ctxd.Catalog.suffixed_key ctxd.Catalog.catalog_key
registered = refl

register_machine-replay_example :
    register_machine same_text other_ids user request 9 (row ∷ [])
    ≡ ok (machine_from_row row, row ∷ [])
register_machine-replay_example =
    register_machine-replay same_text user request ids other_ids 4 9 [] (row ∷ [])
      (machine_from_row row) (ground arith) registered

bound :
    bind_machine_credential user (codes "1") none (codes "k") (row ∷ [])
    ≡ ok (machine_from_row bound_row, bound_row ∷ [])
unfolding bind_machine_credential ctxd.Prelude.list_beq ctxd.Prelude.strip machine ctxd.Prelude.find
    machine_from_row ctxd.Prelude.row_count ctxd.Prelude.update_rows
    ctxd.Prelude.has_control_character
bound = refl

bind_machine_credential-Bound_example :
    Bound user
      (codes "1")
      none
      (some (codes "k"))
      (row ∷ [])
      (machine_from_row bound_row)
      (bound_row ∷ [])
bind_machine_credential-Bound_example =
    bind_machine_credential-Bound user (codes "1") (codes "k") none (row ∷ []) (bound_row ∷ [])
      (machine_from_row bound_row) bound

well_formed : trimmed (codes "j") ≡ true
unfolding ctxd.Prelude.list_beq ctxd.Prelude.strip ctxd.Prelude.is_space ctxd.Prelude.lstrip
    ctxd.Prelude.rstrip
well_formed = refl

bind_machine_credential-race_example :
    bind_machine_credential user (codes "1") none (codes "j") (bound_row ∷ [])
    ≡ err catalog_binding_conflict_error
bind_machine_credential-race_example =
    bind_machine_credential-race user (codes "1") (codes "k") none (row ∷ []) (bound_row ∷ [])
      (machine_from_row bound_row) (codes "j") refl well_formed bound

cleared :
    clear_machine_credential user (codes "1") (codes "k") (bound_row ∷ [])
    ≡ ok (machine_from_row row, row ∷ [])
unfolding clear_machine_credential ctxd.Prelude.list_beq ctxd.Prelude.strip machine
    ctxd.Prelude.find machine_from_row ctxd.Prelude.row_count ctxd.Prelude.update_rows
cleared = refl

clear_machine_credential-clears_example :
    ((machine_from_row row).credential_key_id ≡ none)
    × (machine user (codes "1") (row ∷ []) ≡ ok (machine_from_row row))
    × ((bound_row ∷ [] ≡ row ∷ [])
        ⊎ Bound user
            (codes "1")
            (some (codes "k"))
            none
            (bound_row ∷ [])
            (machine_from_row row)
            (row ∷ []))
clear_machine_credential-clears_example =
    clear_machine_credential-clears user (codes "1") (codes "k") (bound_row ∷ []) (row ∷ [])
      (machine_from_row row) cleared
