-- ===== src/Coordinator.antt =====
-- src/ctxfs/enrollment.py: the coordinator of the catalog and the credential store. The credential
-- store's transaction spans a whole call and is rolled back when the call raises; every catalog
-- operation commits by itself, and stays. A call reads the clock once here: `now`; the key that it
-- issues has its own reading. The order of a machine's credentials is not modelled.
pub mod Tests
pub mod Current
use ctxd.Prelude.{
  ℕ, ◌≡◌, Bool, true, false, not, ◌&&◌, ◌||◌, List, [], ◌∷◌, ◌++◌, map, Option, none, some, ◌==◌,
  if◌then◌else◌, nat_eq, list_eq, option_eq, any, filter, is_empty, Text, codes, strip, Time,
  Result, ok, err, Error, value_error, permission_error, assertion_error,
  machine_credential_not_current_error,
}
use ctxd.Auth.{ScopeSet, Principal, is_machine_scopes}
use ctxd.Credentials.{
  Credential, CredentialRow, EnrollmentUse, Prepared, Draws, active, has_machine, get_credential,
  revoke_machine_key, issue_machine, consume_enrollment, bind_enrollment_use,
}
use ctxd.Catalog.Machines.{
  MachineRow, Machine, Registration, machine, machine_for_registration, register_machine,
  bind_machine_credential, clear_machine_credential,
}

-- credentials.sqlite3
pub record Ledger : Type 0 where
  pub rows : List CredentialRow
  pub uses : List EnrollmentUse

-- A part of a call: the catalog that it leaves, and its result with the credential store to commit.
abbrev pub Step {ℓ} : Type ℓ → Type ℓ
Step A = List MachineRow → Ledger → List MachineRow × Result (A × Ledger)

abbrev continue {ℓ κ} :
    {A : Type ℓ} {B : Type κ}
    → (A → Step B)
    → List MachineRow × Result (A × Ledger)
    → List MachineRow × Result (B × Ledger)
continue f (catalog, ok (a, ledger)) = f a catalog ledger
continue f (catalog, err e) = (catalog, err e)

infixl 5 ◌>>=◌ ◌>>◌
abbrev pub ◌>>=◌ {ℓ κ} : {A : Type ℓ} {B : Type κ} → Step A → (A → Step B) → Step B
(m >>= f) catalog ledger = continue f (m catalog ledger)

abbrev pub ◌>>◌ {ℓ} : {B : Type ℓ} → Step (Unit {0}) → Step B → Step B
m >> k = m >>= λ _. k

abbrev pub return {ℓ} : {A : Type ℓ} → A → Step A
return a catalog ledger = (catalog, ok (a, ledger))

abbrev raise {ℓ} : {A : Type ℓ} → Error → Step A
raise e catalog ledger = (catalog, err e)

abbrev pub require : Bool → Error → Step (Unit {0})
require true e = return tt
require false e = raise e

module _ {ℓ} {A : Type ℓ} (catalog : List MachineRow) (ledger : Ledger) where
  abbrev pub answered : Result A → List MachineRow × Result (A × Ledger)
  answered (ok a) = (catalog, ok (a, ledger))
  answered (err e) = (catalog, err e)

  abbrev pub committed : Result (A × List MachineRow) → List MachineRow × Result (A × Ledger)
  committed (ok (a, catalog')) = (catalog', ok (a, ledger))
  committed (err e) = (catalog, err e)

  abbrev pub with_keys : Result (A × List CredentialRow) → List MachineRow × Result (A × Ledger)
  with_keys (ok (a, rows)) = (catalog, ok (a, record ledger { rows = rows }))
  with_keys (err e) = (catalog, err e)

  abbrev pub with_uses : Result (A × List EnrollmentUse) → List MachineRow × Result (A × Ledger)
  with_uses (ok (a, uses)) = (catalog, ok (a, record ledger { uses = uses }))
  with_uses (err e) = (catalog, err e)

-- A query of the catalog
abbrev pub query {ℓ} : {A : Type ℓ} → (List MachineRow → Result A) → Step A
query f catalog ledger = answered catalog ledger (f catalog)

-- An operation of the catalog, which commits when it returns
abbrev pub commit {ℓ} : {A : Type ℓ} → (List MachineRow → Result (A × List MachineRow)) → Step A
commit f catalog ledger = committed catalog ledger (f catalog)

-- An operation of the credential store on its keys, on its ledger of uses
abbrev pub keys {ℓ} : {A : Type ℓ} → (List CredentialRow → Result (A × List CredentialRow)) → Step A
keys f catalog ledger = with_keys catalog ledger (f ledger.rows)

abbrev pub uses_of {ℓ} :
    {A : Type ℓ} → (List EnrollmentUse → Result (A × List EnrollmentUse)) → Step A
uses_of f catalog ledger = with_uses catalog ledger (f ledger.uses)

-- A query of the credential store
abbrev pub lookup {ℓ} : {A : Type ℓ} → (List CredentialRow → Result A) → Step A
lookup f catalog ledger = answered catalog ledger (f ledger.rows)

-- CredentialStore.machine_credentials
unfoldable pub machine_credentials : Text → List CredentialRow → List Credential
machine_credentials machine_id rows =
    map (λ row. row.credential) (filter (has_machine machine_id) rows)

abbrev with_unit : List EnrollmentUse → Unit {0} × List EnrollmentUse
with_unit uses = (tt, uses)

abbrev discard_result {ℓ} :
    {A : Type ℓ}
    → Result A
    → (A → Unit {0} × List EnrollmentUse)
    → Result (Unit {0} × List EnrollmentUse)
discard_result (ok a) f = ok (f a)
discard_result (err e) f = err e

-- _require_current
unfoldable pub require_current : Text → Principal → Text → Bool → List MachineRow → Result Machine
require_current user_id principal machine_id allow_cleared catalog =
    elim (machine user_id machine_id catalog) [
      | err e ↦ err e
      | ok m ↦
          if principal.scopes.has_admin
          then ok m
          else if not (principal.machine_id == some machine_id)
              || principal.key_id == none
              || not (
                  m.credential_key_id == principal.key_id
                  || (allow_cleared && m.credential_key_id == none))
          then err machine_credential_not_current_error
          else ok m
    ]

-- _require_machine_credential
unfoldable pub is_machine_credential : Time → Credential → Machine → Bool
is_machine_credential now credential m =
    active credential now
    && credential.machine_id == some m.machine_id
    && is_machine_scopes credential.scopes
    && credential.prefixes == (codes "machines/" ++ m.machine_key) ∷ []

-- for credential in ...: if credential.key_id != kept and credential.active: revoke_machine_key
unfoldable pub revoke_others : Time → Text → Option Text → List Credential → Step (Unit {0})
revoke_others now machine_id kept [] = return tt
revoke_others now machine_id kept (c ∷ cs) =
    if not (some c.key_id == kept) && active c now
    then (do
      _ ← keys (revoke_machine_key now c.key_id machine_id none)
      revoke_others now machine_id kept cs)
    else revoke_others now machine_id kept cs

pub record MachineRegistrationResult : Type 0 where
  pub result : Machine
  pub key_id : Text
  pub token : Text
  pub recovered : Bool

-- MachineRegistrationRequest is what register_machine takes, less the enrollment.
pub record MachineRegistrationRequest : Type 0 where
  pub local_registration_id : Text
  pub name : Text
  pub description : Option Text
  pub platform : Option Text
  pub ctxd_version : Option Text

-- _optional
abbrev stripped : Option Text → Option Text
stripped none = none
stripped (some value) = some (strip value)

-- _request_fingerprint: `digest` is SHA-256 of the JSON of the payload's fields.
abbrev request_fingerprint : (List (Option Text) → Text) → MachineRegistrationRequest → Text
request_fingerprint digest r = digest (
    stripped r.ctxd_version
    ∷ stripped r.description
    ∷ some (strip r.local_registration_id)
    ∷ some (strip r.name)
    ∷ stripped r.platform
    ∷ [])

abbrev registration : MachineRegistrationRequest → Option Text → Bool → Registration
registration r enrollment_key_id recovered = record {
  local_registration_id = r.local_registration_id;
  name = r.name;
  description = r.description;
  platform = r.platform;
  ctxd_version = r.ctxd_version;
  enrollment_key_id = enrollment_key_id;
  enrollment_recovered = recovered;
}

-- `assert key_id is not None`
abbrev asserted : Option Text → Step Text
asserted none = raise assertion_error
asserted (some key_id) = return key_id

-- The use of an enrollment key at the head of register
unfoldable pub consume : Time → Text → Principal → MachineRegistrationRequest → Step Bool
consume now fingerprint principal request = if principal.scopes.has_admin then return false else do
  key_id ← asserted principal.key_id
  uses_of (consume_enrollment now key_id (strip request.local_registration_id) fingerprint)

unfoldable pub bind_use : Principal → Text → Step (Unit {0})
bind_use principal machine_id = if principal.scopes.has_admin then return tt else do
  key_id ← asserted principal.key_id
  uses_of (λ uses. discard_result (bind_enrollment_use key_id machine_id uses) with_unit)

-- Whether the registration was there for the same enrollment key.
abbrev recovery : Principal → Bool → Option (Machine × Option Text) → Bool
recovery principal recovered none = recovered
recovery principal recovered (some (m, enrollment_key_id)) =
    if principal.scopes.has_admin then recovered else enrollment_key_id == principal.key_id

-- The revocation of the replaced key at the end of register
unfoldable pub revoke_previous :
    Time → Text → Option Text → List Credential → Text → Step (Unit {0})
revoke_previous now machine_id none credentials replaced_by = return tt
revoke_previous now machine_id (some key_id) credentials replaced_by =
    if any (λ c. c.key_id == key_id) credentials
    then (do _ ← keys (revoke_machine_key now key_id machine_id (some replaced_by)); return tt)
    else return tt

module _ (derive : Text → Text → Text) (digest : List (Option Text) → Text) (nfkd : Text → Text)
    (uuid : ℕ → Text) (user_id : Text) where
  -- MachineCredentialCoordinator.register
  unfoldable pub register :
      Draws
      → Time
      → Time
      → Time
      → Principal
      → MachineRegistrationRequest
      → Step MachineRegistrationResult
  register draws consumed_at now registered_at principal request = do
    require (principal.scopes.has_admin || principal.scopes.has_enroll) permission_error
    consumed ← consume consumed_at (request_fingerprint digest request) principal request
    existing ← query (machine_for_registration user_id request.local_registration_id)
    let enrollment : Option Text = if principal.scopes.has_admin then none else principal.key_id
    m ← commit (
        register_machine nfkd uuid user_id (registration request enrollment consumed) registered_at)
    credentials ← lookup (λ rows. ok (machine_credentials m.machine_id rows))
    bind_use principal m.machine_id
    revoke_others now m.machine_id m.credential_key_id credentials
    issued ← keys (issue_machine derive draws m.machine_id m.machine_key none)
    bound ←
        commit (
          bind_machine_credential user_id m.machine_id m.credential_key_id issued.credential.key_id)
    revoke_previous now m.machine_id m.credential_key_id credentials issued.credential.key_id
    return (record {
      result = bound;
      key_id = issued.credential.key_id;
      token = issued.token;
      recovered = recovery principal consumed existing;
    })

-- MachineCredentialCoordinator.prepare_rotation: the key id and the token
unfoldable pub prepare_rotation :
    (Text → Text → Text) → Text → Draws → Time → Principal → Text → Step Prepared
prepare_rotation derive user_id draws now principal machine_id = do
  m ← query (require_current user_id principal machine_id false)
  credentials ← lookup (λ rows. ok (machine_credentials machine_id rows))
  revoke_others now machine_id m.credential_key_id credentials
  keys (issue_machine derive draws m.machine_id m.machine_key m.credential_key_id)

abbrev pub may_retry : Principal → Credential → Text → Bool
may_retry principal replacement replacement_key_id = not (
    replacement.rotation_from == none
    || (not principal.scopes.has_admin && not (principal.key_id == some replacement_key_id)))

abbrev pub is_predecessor : Time → Text → Text → Credential → Bool
is_predecessor now machine_id replacement_key_id predecessor = not (
    not (predecessor.machine_id == some machine_id)
    || (active predecessor now && not (predecessor.replaced_by == none))
    || (not (active predecessor now) && not (predecessor.replaced_by == some replacement_key_id)))

-- The retry of confirm_rotation once the catalog has the replacement
unfoldable pub retry_rotation : Time → Principal → Text → Text → Machine → Step Machine
retry_rotation now principal machine_id replacement_key_id m = do
  replacement ← lookup (get_credential replacement_key_id)
  require (is_machine_credential now replacement m) value_error
  require (may_retry principal replacement replacement_key_id) value_error
  predecessor_key_id ← asserted replacement.rotation_from
  predecessor ← lookup (get_credential predecessor_key_id)
  require (is_predecessor now machine_id replacement_key_id predecessor) value_error
  if active predecessor now
      then (do
        _ ← keys (revoke_machine_key now predecessor.key_id machine_id (some replacement_key_id))
        return m)
      else return m

-- The switch of the binding in confirm_rotation
unfoldable pub switch_key : Text → Time → Text → Text → Machine → Step Machine
switch_key user_id now machine_id replacement_key_id m = do
  replacement ← lookup (get_credential replacement_key_id)
  require (is_machine_credential now replacement m) value_error
  old_key ← asserted m.credential_key_id
  require (replacement.rotation_from == some old_key) value_error
  bound ← commit (bind_machine_credential user_id machine_id (some old_key) replacement_key_id)
  _ ← keys (revoke_machine_key now old_key machine_id (some replacement_key_id))
  return bound

-- MachineCredentialCoordinator.confirm_rotation
unfoldable pub confirm_rotation : Text → Time → Principal → Text → Text → Step Machine
confirm_rotation user_id now principal machine_id replacement_key_id = do
  m ← query (require_current user_id principal machine_id false)
  if m.credential_key_id == some replacement_key_id
      then retry_rotation now principal machine_id replacement_key_id m
      else switch_key user_id now machine_id replacement_key_id m

abbrev revoke_bound : Text → Time → Text → Machine → Option Text → Step Machine
revoke_bound user_id now machine_id m none = do
  credentials ← lookup (λ rows. ok (machine_credentials machine_id rows))
  revoke_others now machine_id none credentials
  return m
revoke_bound user_id now machine_id m (some key_id) = do
  _ ← keys (revoke_machine_key now key_id machine_id none)
  commit (clear_machine_credential user_id machine_id key_id)

-- MachineCredentialCoordinator.revoke
unfoldable pub revoke : Text → Time → Principal → Text → Step Machine
revoke user_id now principal machine_id = do
  m ← query (require_current user_id principal machine_id true)
  revoke_bound user_id now machine_id m m.credential_key_id
