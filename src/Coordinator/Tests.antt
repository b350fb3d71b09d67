-- ===== src/Coordinator/Tests.antt =====
-- A rotation that is confirmed, a revocation, and a caller whose key has been superseded.
use ctxd.Prelude.{
  ◌≡◌, refl, Bool, true, false, Text, codes, Option, none, some, ok, err, List, [], ◌∷◌, ◌==◌,
  nat_eq, list_eq, option_eq, machine_credential_not_current_error,
}
use ctxd.Auth.{machine_scopes, no_scopes, Principal, api_key}
use ctxd.Credentials.{Credential, CredentialRow, Draws, revoke_row}
use ctxd.Catalog.Machines.{MachineRow, Machine, unknown, machine, machine_from_row}
use ctxd.Coordinator.{Ledger, prepare_rotation, confirm_rotation, revoke}
use ctxd.Coordinator.Current.{superseded-refused, revoke-clears, confirm_rotation-binds}

abbrev user : Text
user = codes "u"

abbrev old_key : Text
old_key = codes "aaaaaaaaaaaaaaaa"

abbrev new_key : Text
new_key = codes "bbbbbbbbbbbbbbbb"

abbrev bound_to : Option Text → MachineRow
bound_to key = record {
  user_id = user;
  machine_id = codes "1";
  machine_key = codes "box";
  local_registration_id = codes "r";
  registration_name = codes "Box";
  registration_description = none;
  registration_platform = none;
  registration_ctxd_version = none;
  name = codes "Box";
  description = none;
  state = unknown;
  platform = none;
  ctxd_version = none;
  credential_key_id = key;
  enrollment_key_id = none;
  registered_at = 4;
}

abbrev credential_row : Text → Option Text → CredentialRow
credential_row key predecessor = record {
  credential = record {
    key_id = key;
    name = codes "machine:1";
    scopes = machine_scopes;
    prefixes = codes "machines/box" ∷ [];
    created_at = 5;
    expires_at = none;
    revoked_at = none;
    replaced_by = none;
    machine_id = some (codes "1");
    rotation_from = predecessor;
  };
  salt = [];
  verifier = [];
}

abbrev holder : Text → Principal
holder key = record {
  principal_id = key;
  kind = api_key;
  scopes = machine_scopes;
  key_id = some key;
  prefixes = codes "machines/box" ∷ [];
  machine_id = some (codes "1");
}

abbrev ledger : Ledger
ledger = record {
  rows = credential_row old_key none ∷ credential_row new_key (some old_key) ∷ [];
  uses = [];
}

abbrev confirmed : Ledger
confirmed = record {
  rows =
      revoke_row 9 (some new_key) (credential_row old_key none)
      ∷ credential_row new_key (some old_key)
      ∷ [];
  uses = [];
}

abbrev closed : Ledger
closed = record {
  rows =
      revoke_row 9 none (credential_row old_key none) ∷ credential_row new_key (some old_key) ∷ [];
  uses = [];
}

abbrev at_old : List MachineRow
at_old = bound_to (some old_key) ∷ []

abbrev at_new : List MachineRow
at_new = bound_to (some new_key) ∷ []

abbrev at_none : List MachineRow
at_none = bound_to none ∷ []

abbrev bound_machine : Machine
bound_machine = machine_from_row (bound_to (some new_key))

abbrev cleared_machine : Machine
cleared_machine = machine_from_row (bound_to none)

rotation_confirmed :
    confirm_rotation user 9 (holder old_key) (codes "1") new_key at_old ledger
    ≡ (at_new, ok (bound_machine, confirmed))
unfolding confirm_rotation ctxd.Coordinator.require_current machine ctxd.Prelude.find
    ctxd.Prelude.list_beq machine_from_row ctxd.Coordinator.switch_key
    ctxd.Credentials.get_credential ctxd.Credentials.validate_key_id ctxd.Credentials.is_key_id
    ctxd.Coordinator.is_machine_credential ctxd.Credentials.active ctxd.Auth.is_machine_scopes
    ctxd.Catalog.Machines.bind_machine_credential ctxd.Prelude.strip ctxd.Prelude.row_count
    ctxd.Prelude.update_rows ctxd.Credentials.revoke_machine_key ctxd.Prelude.is_space
    ctxd.Prelude.lstrip ctxd.Prelude.rstrip ctxd.Prelude.has_control_character
rotation_confirmed = refl

confirm_rotation-binds_example :
    (machine user (codes "1") at_new ≡ ok bound_machine)
    × (bound_machine.credential_key_id ≡ some new_key)
confirm_rotation-binds_example =
    confirm_rotation-binds user 9 (holder old_key) (codes "1") at_old at_new ledger confirmed
      bound_machine new_key rotation_confirmed

revocation :
    revoke user 9 (holder old_key) (codes "1") at_old ledger
    ≡ (at_none, ok (cleared_machine, closed))
unfolding revoke ctxd.Coordinator.require_current machine ctxd.Prelude.find ctxd.Prelude.list_beq
    machine_from_row ctxd.Credentials.revoke_machine_key ctxd.Prelude.row_count
    ctxd.Credentials.get_credential ctxd.Credentials.validate_key_id ctxd.Credentials.is_key_id
    ctxd.Prelude.update_rows ctxd.Catalog.Machines.clear_machine_credential ctxd.Prelude.strip
revocation = refl

revoke-clears_example :
    (machine user (codes "1") at_none ≡ ok cleared_machine)
    × (cleared_machine.credential_key_id ≡ none)
revoke-clears_example =
    revoke-clears user 9 (holder old_key) (codes "1") at_old at_none ledger closed cleared_machine
      revocation

abbrev derive : Text → Text → Text
derive token salt = token

abbrev draws : Draws
draws = record { key_ids = []; secret = []; salt = []; now = 9 }

found : machine user (codes "1") at_new ≡ ok bound_machine
unfolding machine ctxd.Prelude.find ctxd.Prelude.list_beq
found = refl

superseded : (some new_key == some old_key) ≡ false
unfolding ctxd.Prelude.list_beq
superseded = refl

superseded-refused_example :
    (prepare_rotation derive user draws 9 (holder old_key) (codes "1") at_new ledger
      ≡ (at_new, err machine_credential_not_current_error))
    × (confirm_rotation user 9 (holder old_key) (codes "1") new_key at_new ledger
        ≡ (at_new, err machine_credential_not_current_error))
    × (revoke user 9 (holder old_key) (codes "1") at_new ledger
        ≡ (at_new, err machine_credential_not_current_error))
unfolding machine_from_row ctxd.Prelude.list_beq
superseded-refused_example =
    superseded-refused derive draws 9 (holder old_key) user (codes "1") new_key at_new ledger
      bound_machine found refl superseded refl
