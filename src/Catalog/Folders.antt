-- ===== src/Catalog/Folders.antt =====
-- src/ctxfs/store.py: the table `tracked_folders` and its operations. The constraint of its foreign
-- key holds as no operation deletes a machine.
pub mod Tests
pub mod Replay
use ctxd.Prelude.{
  ℕ, zero, suc, ◌+◌, Bool, ◌&&◌, ◌||◌, List, [], ◌∷◌, ◌++◌, Option, none, some, ◌==◌, if◌then◌else◌,
  nat_eq, list_eq, option_eq, any, length, Text, codes, ltb, Result, ok, err, or_raise, Time, find,
  update_rows, value_error, key_error, catalog_conflict_error, out_of_fuel, ◌>>=◌, ◌>>◌, guard,
}
use ctxd.Catalog.{catalog_text, optional_description, catalog_key, suffixed_key}
use ctxd.Catalog.Machines.{MachineRow, machine}

pub data FolderState : Type 0 where
  healthy degraded missing disabled unknown : FolderState

pub record FolderRow : Type 0 where
  pub user_id : Text
  pub machine_id : Text
  pub folder_id : Text
  pub folder_key : Text
  pub local_registration_id : Text
  pub registration_name : Text
  pub registration_description : Option Text
  pub name : Text
  pub description : Option Text
  pub state : FolderState
  pub registered_at : Time

pub record TrackedFolder : Type 0 where
  pub folder_id : Text
  pub machine_id : Text
  pub folder_key : Text
  pub name : Text
  pub description : Option Text
  pub state : FolderState
  pub local_registration_id : Text
  pub registered_at : Time

-- The arguments of register_folder
pub record FolderRegistration : Type 0 where
  pub local_registration_id : Text
  pub name : Text
  pub description : Option Text

-- _folder_from_row
unfoldable pub folder_from_row : FolderRow → TrackedFolder
folder_from_row row = record {
  folder_id = row.folder_id;
  machine_id = row.machine_id;
  folder_key = row.folder_key;
  name = row.name;
  description = row.description;
  state = row.state;
  local_registration_id = row.local_registration_id;
  registered_at = row.registered_at;
}

-- _replay_folder: what was requested is the clean name and description.
unfoldable pub replay_folder : FolderRow → Text → Option Text → Result TrackedFolder
replay_folder row name description = do
  guard (row.registration_name == name && row.registration_description == description)
      catalog_conflict_error
  ok (folder_from_row row)

abbrev pub is_folder_of : Text → Text → FolderRow → Bool
is_folder_of user_id machine_id row = row.user_id == user_id && row.machine_id == machine_id

-- WHERE user_id = ? AND machine_id = ? AND folder_id = ?
abbrev pub has_folder_id : Text → Text → Text → FolderRow → Bool
has_folder_id user_id machine_id folder_id row =
    is_folder_of user_id machine_id row && row.folder_id == folder_id

-- WHERE user_id = ? AND machine_id = ? AND local_registration_id = ?
abbrev pub has_folder_registration : Text → Text → Text → FolderRow → Bool
has_folder_registration user_id machine_id registration_id row =
    is_folder_of user_id machine_id row && row.local_registration_id == registration_id

-- CtxfsStore.folder
unfoldable pub folder : Text → Text → Text → List FolderRow → Result TrackedFolder
folder user_id machine_id folder_id rows = do
  row ← or_raise (find (has_folder_id user_id machine_id folder_id) rows) key_error
  ok (folder_from_row row)

-- PRIMARY KEY(user_id, machine_id, folder_id), UNIQUE(user_id, machine_id, folder_key),
-- UNIQUE(user_id, machine_id, local_registration_id)
unfoldable pub folder_conflicts : FolderRow → FolderRow → Bool
folder_conflicts new row =
    is_folder_of new.user_id new.machine_id row
    && (row.folder_id == new.folder_id
        || row.folder_key == new.folder_key
        || row.local_registration_id == new.local_registration_id)

abbrev pub new_folder_row : Text → Text → Text → Text → Text → Text → Option Text → Time → FolderRow
new_folder_row user_id machine_id folder_id folder_key registration_id name description
      registered_at =
    record {
      user_id = user_id;
      machine_id = machine_id;
      folder_id = folder_id;
      folder_key = folder_key;
      local_registration_id = registration_id;
      registration_name = name;
      registration_description = description;
      name = name;
      description = description;
      state = unknown;
      registered_at = registered_at;
    }

abbrev pub beside : List FolderRow → TrackedFolder → TrackedFolder × List FolderRow
beside rows folder_ = (folder_, rows)

-- A result with the rows that it leaves
abbrev pub leaving : List FolderRow → Result TrackedFolder → Result (TrackedFolder × List FolderRow)
leaving rows (ok f) = ok (beside rows f)
leaving rows (err e) = err e

module _ (uuid : ℕ → Text) (user_id machine_id registration_id name : Text)
    (description : Option Text) (registered_at : Time) where
  -- The loop over the suffixes: `uuid n` is the result of the n-th call of uuid.uuid4.
  unfoldable pub insert_folder :
      ℕ → ℕ → Text → List FolderRow → Result (TrackedFolder × List FolderRow)
  insert_folder zero suffix base_key rows = err out_of_fuel
  insert_folder (suc fuel) suffix base_key rows =
      let row =
        new_folder_row user_id machine_id (uuid suffix) (suffixed_key base_key suffix)
          registration_id name description registered_at in
      let next = insert_folder fuel (suffix + 1) base_key rows in
      if any (folder_conflicts row) rows
      then elim (find (has_folder_registration user_id machine_id registration_id) rows) [
        | some existing ↦ leaving rows (replay_folder existing name description)
        | none ↦ next
      ]
      else leaving (rows ++ row ∷ []) (folder user_id machine_id (uuid suffix) (rows ++ row ∷ []))

-- The transaction of register_folder, after the lookup of the machine. The fuel: a key is taken by
-- one row at most, so one of the first `length rows + 2` suffixes is free.
unfoldable pub register_checked_folder :
    (Text → Text)
    → (ℕ → Text)
    → Text
    → Text
    → Text
    → Text
    → Option Text
    → Time
    → List FolderRow
    → Result (TrackedFolder × List FolderRow)
register_checked_folder nfkd uuid user_id machine_id registration_id name description registered_at
      rows =
    elim (find (has_folder_registration user_id machine_id registration_id) rows) [
      | some existing ↦ leaving rows (replay_folder existing name description)
      | none ↦
          insert_folder uuid user_id machine_id registration_id name description registered_at
            (length rows + 2) 1 (catalog_key nfkd name (codes "folder")) rows
    ]

-- CtxfsStore.register_folder
unfoldable pub register_folder :
    (Text → Text)
    → (ℕ → Text)
    → Text
    → Text
    → FolderRegistration
    → Time
    → List MachineRow
    → List FolderRow
    → Result (TrackedFolder × List FolderRow)
register_folder nfkd uuid user_id machine_id args registered_at machines rows = do
  registration_id ← catalog_text args.local_registration_id 128
  clean_name ← catalog_text args.name 128
  clean_description ← optional_description args.description
  guard (ltb 0 registered_at) value_error
  _ ← machine user_id machine_id machines
  register_checked_folder nfkd uuid user_id machine_id registration_id clean_name clean_description
      registered_at rows

-- CtxfsStore.update_folder_metadata
unfoldable pub update_folder_metadata :
    Text
    → Text
    → Text
    → Text
    → Option Text
    → List FolderRow
    → Result (TrackedFolder × List FolderRow)
update_folder_metadata user_id machine_id folder_id name description rows = do
  clean_name ← catalog_text name 128
  clean_description ← optional_description description
  _ ← folder user_id machine_id folder_id rows
  let rows' =
      update_rows (has_folder_id user_id machine_id folder_id)
        (λ row. record row { name = clean_name; description = clean_description }) rows
  leaving rows' (folder user_id machine_id folder_id rows')
