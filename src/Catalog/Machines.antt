-- ===== src/Catalog/Machines.antt =====
-- src/ctxfs/store.py: the table `machines` and its operations. Of the field constraints that pydantic
-- checks on a `Machine`, the bind of a credential checks those of credential_key_id; the others hold of
-- the texts that the operations store, and are not checked again.
pub mod Rows
pub mod Replay
pub mod Binding
use ctxd.Prelude.{
  ℕ, zero, suc, ◌+◌, ◌-◌, ◌≡◌, Bool, true, false, not, ◌&&◌, ◌||◌, List, [], ◌∷◌, ◌++◌, map, Option,
  none, some, ◌==◌, if◌then◌else◌, nat_eq, list_eq, option_eq, pair_eq, any, filter, is_empty,
  length, take, Text, codes, ltb, leb, mem, Result, ok, err, or_raise, Time, strip, lstrip, rstrip,
  decimal, has_control_character, find, update_rows, row_count, value_error, key_error,
  catalog_conflict_error, catalog_binding_conflict_error, integrity_error, out_of_fuel, ◌>>=◌, ◌>>◌,
  guard,
}
use ctxd.Catalog.{
  catalog_text, optional_catalog_text, optional_description, catalog_key, suffixed_key,
}

pub data MachineState : Type 0 where
  healthy degraded offline disabled unknown : MachineState

pub record MachineRow : Type 0 where
  pub user_id : Text
  pub machine_id : Text
  pub machine_key : Text
  pub local_registration_id : Text
  pub registration_name : Text
  pub registration_description : Option Text
  pub registration_platform : Option Text
  pub registration_ctxd_version : Option Text
  pub name : Text
  pub description : Option Text
  pub state : MachineState
  pub platform : Option Text
  pub ctxd_version : Option Text
  pub credential_key_id : Option Text
  pub enrollment_key_id : Option Text
  pub registered_at : Time

pub record Machine : Type 0 where
  pub machine_id : Text
  pub machine_key : Text
  pub name : Text
  pub description : Option Text
  pub state : MachineState
  pub platform : Option Text
  pub ctxd_version : Option Text
  pub credential_key_id : Option Text
  pub registered_at : Time

-- What a client registers, after the checks of its texts.
pub record Requested : Type 0 where
  pub name : Text
  pub description : Option Text
  pub platform : Option Text
  pub ctxd_version : Option Text

-- The arguments of register_machine.
pub record Registration : Type 0 where
  pub local_registration_id : Text
  pub name : Text
  pub description : Option Text
  pub platform : Option Text
  pub ctxd_version : Option Text
  pub enrollment_key_id : Option Text
  pub enrollment_recovered : Bool

-- _machine_from_row
unfoldable pub machine_from_row : MachineRow → Machine
machine_from_row row = record {
  machine_id = row.machine_id;
  machine_key = row.machine_key;
  name = row.name;
  description = row.description;
  state = row.state;
  platform = row.platform;
  ctxd_version = row.ctxd_version;
  credential_key_id = row.credential_key_id;
  registered_at = row.registered_at;
}

-- stored == requested
unfoldable pub same_request : MachineRow → Requested → Bool
same_request row r =
    row.registration_name == r.name
    && row.registration_description == r.description
    && row.registration_platform == r.platform
    && row.registration_ctxd_version == r.ctxd_version

-- _replay_machine
unfoldable pub replay_machine : MachineRow → Requested → Result Machine
replay_machine row requested = do
  guard (same_request row requested) catalog_conflict_error
  ok (machine_from_row row)

-- WHERE user_id = ? AND machine_id = ?
abbrev pub has_id : Text → Text → MachineRow → Bool
has_id user_id machine_id row = row.user_id == user_id && row.machine_id == machine_id

-- WHERE user_id = ? AND local_registration_id = ?
abbrev pub has_registration : Text → Text → MachineRow → Bool
has_registration user_id registration_id row =
    row.user_id == user_id && row.local_registration_id == registration_id

-- CtxfsStore.machine
unfoldable pub machine : Text → Text → List MachineRow → Result Machine
machine user_id machine_id rows = do
  row ← or_raise (find (has_id user_id machine_id) rows) key_error
  ok (machine_from_row row)

-- CtxfsStore.machine_for_registration
unfoldable pub machine_for_registration :
    Text → Text → List MachineRow → Result (Option (Machine × Option Text))
machine_for_registration user_id local_registration_id rows = do
  registration_id ← catalog_text local_registration_id 128
  ok (elim (find (has_registration user_id registration_id) rows) [
    | none ↦ none
    | some row ↦ some (machine_from_row row, row.enrollment_key_id)
  ])

-- The recovery of a registration that has lost its enrollment key: the rows, and the row that the
-- second SELECT by the primary key returns.
unfoldable pub recover_enrollment :
    Text → Registration → MachineRow → List MachineRow → List MachineRow × MachineRow
recover_enrollment user_id args existing rows =
    if not (args.enrollment_key_id == none)
      && existing.enrollment_key_id == none
      && args.enrollment_recovered
    then (
      update_rows (λ row. has_id user_id existing.machine_id row && row.enrollment_key_id == none)
          (λ row. record row { enrollment_key_id = args.enrollment_key_id }) rows,
      record existing { enrollment_key_id = args.enrollment_key_id },
    )
    else (rows, existing)

-- What register_machine does with an existing registration, in both places.
unfoldable pub replay_existing :
    Text
    → Registration
    → Requested
    → MachineRow
    → List MachineRow
    → Result (Machine × List MachineRow)
replay_existing user_id args requested existing rows =
    let (rows', row) = recover_enrollment user_id args existing rows in
    do
      guard
          (not (
            not (args.enrollment_key_id == none)
            && not (row.enrollment_key_id == args.enrollment_key_id)))
          catalog_conflict_error
      m ← replay_machine row requested
      ok (m, rows')

-- PRIMARY KEY(user_id, machine_id), UNIQUE(user_id, machine_key),
-- UNIQUE(user_id, local_registration_id)
unfoldable pub conflicts : MachineRow → MachineRow → Bool
conflicts new row =
    row.user_id == new.user_id
    && (row.machine_id == new.machine_id
        || row.machine_key == new.machine_key
        || row.local_registration_id == new.local_registration_id)

abbrev pub new_row : Text → Text → Text → Text → Registration → Requested → Time → MachineRow
new_row user_id machine_id machine_key registration_id args requested registered_at = record {
  user_id = user_id;
  machine_id = machine_id;
  machine_key = machine_key;
  local_registration_id = registration_id;
  registration_name = requested.name;
  registration_description = requested.description;
  registration_platform = requested.platform;
  registration_ctxd_version = requested.ctxd_version;
  name = requested.name;
  description = requested.description;
  state = unknown;
  platform = requested.platform;
  ctxd_version = requested.ctxd_version;
  credential_key_id = none;
  enrollment_key_id = args.enrollment_key_id;
  registered_at = registered_at;
}

-- `uuid n` is the result of the n-th call of uuid.uuid4.
module _ (uuid : ℕ → Text) (user_id registration_id : Text) (args : Registration)
    (requested : Requested) (registered_at : Time) where
  -- The loop over the suffixes.
  unfoldable pub insert_machine :
      ℕ → ℕ → Text → List MachineRow → Result (Machine × List MachineRow)
  insert_machine zero suffix base_key rows = err out_of_fuel
  insert_machine (suc fuel) suffix base_key rows =
      let row =
        new_row user_id (uuid suffix) (suffixed_key base_key suffix) registration_id args requested
          registered_at in
      let next = insert_machine fuel (suffix + 1) base_key rows in
      if any (conflicts row) rows
      then elim (find (has_registration user_id registration_id) rows) [
        | some existing ↦ replay_existing user_id args requested existing rows
        | none ↦ next
      ]
      else do m ← machine user_id (uuid suffix) (rows ++ row ∷ []); ok (m, rows ++ row ∷ [])

-- The checks of texts at the head of register_machine: the registration id and what is requested.
unfoldable pub check_texts : Registration → Result (Text × Requested)
check_texts args = do
  registration_id ← catalog_text args.local_registration_id 128
  clean_name ← catalog_text args.name 128
  clean_description ← optional_description args.description
  clean_platform ← optional_catalog_text args.platform 128
  clean_version ← optional_catalog_text args.ctxd_version 128
  ok (
    registration_id,
    record {
      name = clean_name;
      description = clean_description;
      platform = clean_platform;
      ctxd_version = clean_version;
    },
  )

-- The fuel: a key is taken by one row at most, so one of the first `length rows + 2` suffixes is free.
unfoldable pub register_checked :
    (Text → Text)
    → (ℕ → Text)
    → Text
    → Registration
    → Time
    → Text × Requested
    → List MachineRow
    → Result (Machine × List MachineRow)
register_checked nfkd uuid user_id args registered_at (registration_id, requested) rows =
    elim (find (has_registration user_id registration_id) rows) [
      | some existing ↦ replay_existing user_id args requested existing rows
      | none ↦
          insert_machine uuid user_id registration_id args requested registered_at (length rows + 2)
            1 (catalog_key nfkd requested.name (codes "machine")) rows
    ]

unfoldable pub register_machine :
    (Text → Text)
    → (ℕ → Text)
    → Text
    → Registration
    → Time
    → List MachineRow
    → Result (Machine × List MachineRow)
unfolding register_checked
register_machine nfkd uuid user_id args registered_at rows = do
  checked ← check_texts args
  guard (ltb 0 registered_at) value_error
  register_checked nfkd uuid user_id args registered_at checked rows

unfoldable pub update_machine_metadata :
    Text → Text → Text → Option Text → List MachineRow → Result (Machine × List MachineRow)
update_machine_metadata user_id machine_id name description rows = do
  clean_name ← catalog_text name 128
  clean_description ← optional_description description
  _ ← machine user_id machine_id rows
  let rows' =
      update_rows (has_id user_id machine_id)
        (λ row. record row { name = clean_name; description = clean_description }) rows
  m ← machine user_id machine_id rows'
  ok (m, rows')

-- A text that is non-empty and trimmed.
abbrev pub trimmed : Text → Bool
trimmed key_id = not (is_empty key_id) && strip key_id == key_id

-- The constraints of Machine.credential_key_id, for a text that is non-empty and trimmed.
abbrev pub fits_field : Text → Bool
fits_field key_id = leb (length key_id) 128 && not (has_control_character key_id)

-- UNIQUE machines_credential_key ON machines(user_id, credential_key_id): another machine of the
-- user has the key.
abbrev pub key_taken : Text → Text → Text → List MachineRow → Bool
key_taken user_id machine_id key_id = any (λ row.
    row.user_id == user_id
    && not (row.machine_id == machine_id)
    && row.credential_key_id == some key_id)

unfoldable pub bind_machine_credential :
    Text → Text → Option Text → Text → List MachineRow → Result (Machine × List MachineRow)
bind_machine_credential user_id machine_id expected_key_id new_key_id rows = do
  guard (trimmed new_key_id) value_error
  current ← machine user_id machine_id rows
  guard (current.credential_key_id == expected_key_id) catalog_binding_conflict_error
  let test : MachineRow → Bool =
      λ row. has_id user_id machine_id row && row.credential_key_id == expected_key_id
  guard (not (key_taken user_id machine_id new_key_id rows)) integrity_error
  guard (row_count test rows == 1) catalog_binding_conflict_error
  guard (fits_field new_key_id) value_error
  let rows' = update_rows test (λ row. record row { credential_key_id = some new_key_id }) rows
  m ← machine user_id machine_id rows'
  ok (m, rows')

-- The part of clear_machine_credential for a machine that has a credential.
unfoldable pub clear_bound :
    Text → Text → Text → Machine → List MachineRow → Result (Machine × List MachineRow)
clear_bound user_id machine_id expected_key_id current rows = do
  guard (current.credential_key_id == some expected_key_id) catalog_binding_conflict_error
  let test : MachineRow → Bool =
      λ row. has_id user_id machine_id row && row.credential_key_id == some expected_key_id
  guard (row_count test rows == 1) catalog_binding_conflict_error
  let rows' = update_rows test (λ row. record row { credential_key_id = none }) rows
  m ← machine user_id machine_id rows'
  ok (m, rows')

unfoldable pub clear_machine_credential :
    Text → Text → Text → List MachineRow → Result (Machine × List MachineRow)
unfolding clear_bound
clear_machine_credential user_id machine_id expected_key_id rows = do
  guard (trimmed expected_key_id) value_error
  current ← machine user_id machine_id rows
  if current.credential_key_id == none
      then ok (current, rows)
      else clear_bound user_id machine_id expected_key_id current rows
