-- ===== src/Credentials.antt =====
-- src/ctxfs/credentials.py: the API keys that the server owns, and the ledger of enrollments. Scopes
-- and prefixes are stored as they are: the JSON that the columns hold is left out. `derive` is
-- hashlib.scrypt with the module's costs; the results of `secrets` and the clock are arguments.
pub mod Tests
pub mod Verify
pub mod Issue
pub mod Enrollment
use ctxd.Prelude.{
  ℕ, zero, suc, ◌+◌, ◌≡◌, Bool, true, false, not, ◌&&◌, ◌||◌, List, [], ◌∷◌, ◌++◌, map, Option,
  none, some, ◌==◌, if◌then◌else◌, nat_eq, list_eq, option_eq, any, all, filter, is_empty, length,
  leb, ltb, Text, codes, starts_with, has_control_character, strip, split, find, update_rows,
  row_count, Time, Result, ok, err, or_raise, value_error, integrity_error, out_of_fuel,
  enrollment_consumed_error, machine_credential_lifecycle_error, ◌>>=◌, ◌>>◌, guard,
}
use ctxd.Auth.{ScopeSet, scope_count, machine_scopes, CredentialGrant, make_grant}

pub record Credential : Type 0 where
  pub key_id : Text
  pub name : Text
  pub scopes : ScopeSet
  pub prefixes : List Text
  pub created_at : Time
  pub expires_at : Option Time
  pub revoked_at : Option Time
  pub replaced_by : Option Text
  pub machine_id : Option Text
  pub rotation_from : Option Text

-- A row of `credentials`
pub record CredentialRow : Type 0 where
  pub credential : Credential
  pub salt : Text
  pub verifier : Text

-- A row of `enrollment_uses`
pub record EnrollmentUse : Type 0 where
  pub enrollment_key_id : Text
  pub local_registration_id : Text
  pub request_fingerprint : Text
  pub machine_id : Option Text
  pub created_at : Time

-- What _prepare returns
pub record Prepared : Type 0 where
  pub credential : Credential
  pub token : Text
  pub salt : Text
  pub verifier : Text

-- The random texts and the time that one call of _prepare reads: the ids in the order in which
-- secrets.token_urlsafe(12) yields them, the secret and the salt.
pub record Draws : Type 0 where
  pub key_ids : List Text
  pub secret : Text
  pub salt : Text
  pub now : Time

abbrev pub expired : Option Time → Time → Bool
expired none now = false
expired (some t) now = leb t now

abbrev pub is_some : Option Time → Bool
is_some none = false
is_some (some t) = true

-- Credential.active at the time `now`
unfoldable pub active : Credential → Time → Bool
active c now = not (is_some c.revoked_at) && not (expired c.expires_at now)

-- [A-Za-z0-9_-]
abbrev pub is_token_character : ℕ → Bool
is_token_character c =
    (leb b'a' c && leb c b'z')
    || (leb b'A' c && leb c b'Z')
    || (leb b'0' c && leb c b'9')
    || c == b'_'
    || c == b'-'

-- KEY_ID_PATTERN.fullmatch
unfoldable pub is_key_id : Text → Bool
is_key_id s = all is_token_character s && length s == 16

-- SECRET_PATTERN.fullmatch
unfoldable pub is_secret : Text → Bool
is_secret s = all is_token_character s && length s == 43

-- f"{TOKEN_PREFIX}.{key_id}.{secret}"
abbrev pub make_token : Text → Text → Text
make_token key_id secret = codes "ctxfs." ++ key_id ++ b'.' ∷ secret

abbrev token_parts : List Text → Option Text
token_parts (prefix ∷ key_id ∷ secret ∷ []) =
    if prefix == codes "ctxfs" && is_key_id key_id && is_secret secret then some key_id else none
token_parts _ = none

-- _parse_token
unfoldable pub parse_token : Text → Option Text
parse_token token = token_parts (split b'.' token)

-- _validate_key_id
unfoldable pub validate_key_id : Text → Result (Unit {0})
validate_key_id key_id = guard (is_key_id key_id) value_error

-- The loop that draws a key id until one does not start with a dash; without a further draw the
-- loop has not ended.
unfoldable pub draw_key_id : List Text → Result Text
draw_key_id [] = err out_of_fuel
draw_key_id (k ∷ ks) = let rest = draw_key_id ks in if starts_with k (codes "-") then rest else ok k

abbrev pub has_key : Text → CredentialRow → Bool
has_key key_id row = row.credential.key_id == key_id

abbrev pub has_machine : Text → CredentialRow → Bool
has_machine machine_id row = row.credential.machine_id == some machine_id

-- The grant that _prepare checks
abbrev pub requested_grant : Text → ScopeSet → List Text → Option Text → CredentialGrant
requested_grant key_id scopes prefixes machine_id = record {
  principal_id = key_id;
  key_id = key_id;
  scopes = scopes;
  prefixes = prefixes;
  machine_id = machine_id;
}

module _ (derive : Text → Text → Text) where
  -- What _prepare builds once its checks have passed
  abbrev pub prepared :
      Draws → Text → Text → CredentialGrant → Option Time → Option Text → Option Text → Prepared
  prepared draws key_id name grant expires_at machine_id rotation_from = record {
    credential = record {
      key_id = key_id;
      name = name;
      scopes = grant.scopes;
      prefixes = grant.prefixes;
      created_at = draws.now;
      expires_at = expires_at;
      revoked_at = none;
      replaced_by = none;
      machine_id = machine_id;
      rotation_from = rotation_from;
    };
    token = make_token key_id draws.secret;
    salt = draws.salt;
    verifier = derive (make_token key_id draws.secret) draws.salt;
  }

  -- CredentialStore._prepare
  unfoldable pub prepare :
      Draws
      → Text
      → ScopeSet
      → List Text
      → Option Time
      → Option Text
      → Option Text
      → Result Prepared
  prepare draws name scopes prefixes expires_at machine_id rotation_from = do
    guard (not (is_empty (strip name))) value_error
    guard (leb (length (strip name)) 128) value_error
    guard (not (has_control_character (strip name))) value_error
    guard (not (scope_count scopes == 0)) value_error
    key_id ← draw_key_id draws.key_ids
    grant ← make_grant (requested_grant key_id scopes prefixes machine_id)
    guard (not (expired expires_at draws.now)) value_error
    ok (prepared draws key_id (strip name) grant expires_at machine_id rotation_from)

-- CredentialStore._insert: `key_id` is the primary key.
unfoldable pub insert : Prepared → List CredentialRow → Result (List CredentialRow)
insert p rows = do
  guard (not (any (has_key p.credential.key_id) rows)) integrity_error
  ok (rows ++ (record { credential = p.credential; salt = p.salt; verifier = p.verifier }) ∷ [])

-- SELECT * FROM credentials WHERE key_id = ?
abbrev pub select_key : Text → List CredentialRow → Option CredentialRow
select_key key_id rows = find (has_key key_id) rows

-- CredentialStore.get
unfoldable pub get_credential : Text → List CredentialRow → Result Credential
get_credential key_id rows = do
  _ ← validate_key_id key_id
  row ← or_raise (select_key key_id rows) value_error
  ok row.credential

-- The arguments of CredentialGrant in verify
abbrev pub grant_of : Credential → CredentialGrant
grant_of c = record {
  principal_id = c.key_id;
  key_id = c.key_id;
  scopes = c.scopes;
  prefixes = c.prefixes;
  machine_id = c.machine_id;
}

-- COALESCE
abbrev pub coalesce {ℓ} : {A : Type ℓ} → Option A → Option A → Option A
coalesce none b = b
coalesce (some a) b = some a

-- SET revoked_at = COALESCE(revoked_at, now), replaced_by = COALESCE(replaced_by, key)
abbrev pub revoke_row : Time → Option Text → CredentialRow → CredentialRow
revoke_row now replaced_by row = record row {
  credential = record row.credential {
    revoked_at = coalesce row.credential.revoked_at (some now);
    replaced_by = coalesce row.credential.replaced_by replaced_by;
  };
}

-- CredentialStore.revoke_machine_key
unfoldable pub revoke_machine_key :
    Time → Text → Text → Option Text → List CredentialRow → Result (Credential × List CredentialRow)
revoke_machine_key now key_id machine_id replaced_by rows = do
  let test : CredentialRow → Bool = λ row. has_key key_id row && has_machine machine_id row
  guard (row_count test rows == 1) value_error
  let rows' = update_rows test (revoke_row now replaced_by) rows
  c ← get_credential key_id rows'
  ok (c, rows')

-- CredentialStore.revoke
unfoldable pub revoke : Time → Text → List CredentialRow → Result (Credential × List CredentialRow)
revoke now key_id rows = do
  _ ← validate_key_id key_id
  current ← get_credential key_id rows
  guard (current.machine_id == none) machine_credential_lifecycle_error
  guard (row_count (has_key key_id) rows == 1) value_error
  let rows' = update_rows (has_key key_id) (revoke_row now none) rows
  c ← get_credential key_id rows'
  ok (c, rows')

-- WHERE key_id = ? AND revoked_at IS NULL
abbrev pub has_live_key : Text → CredentialRow → Bool
has_live_key key_id row = has_key key_id row && not (is_some row.credential.revoked_at)

-- SET revoked_at = now, replaced_by = key
abbrev pub replace_row : Time → Text → CredentialRow → CredentialRow
replace_row now replaced_by row = record row {
  credential = record row.credential { revoked_at = some now; replaced_by = some replaced_by };
}

-- The part of CredentialStore.rotate inside its transaction: `now` is the second reading of the clock.
unfoldable pub replace_key :
    Time → Text → Prepared → List CredentialRow → Result (List CredentialRow)
replace_key now key_id issued rows = do
  rows' ← insert issued rows
  guard (row_count (has_live_key key_id) rows' == 1) value_error
  ok (update_rows (has_live_key key_id) (replace_row now issued.credential.key_id) rows')

module _ (derive : Text → Text → Text) where
  -- CredentialStore.create
  unfoldable pub create :
      Draws
      → Text
      → ScopeSet
      → List Text
      → Option Time
      → List CredentialRow
      → Result (Prepared × List CredentialRow)
  create draws name scopes prefixes expires_at rows = do
    issued ← prepare derive draws name scopes prefixes expires_at none none
    rows' ← insert issued rows
    ok (issued, rows')

  -- CredentialStore.issue_machine
  unfoldable pub issue_machine :
      Draws
      → Text
      → Text
      → Option Text
      → List CredentialRow
      → Result (Prepared × List CredentialRow)
  issue_machine draws machine_id machine_key rotation_from rows = do
    issued ←
        prepare derive draws (codes "machine:" ++ machine_id) machine_scopes
          ((codes "machines/" ++ machine_key) ∷ []) none (some machine_id) rotation_from
    rows' ← insert issued rows
    ok (issued, rows')

  -- CredentialStore.rotate
  unfoldable pub rotate :
      Draws → Time → Text → List CredentialRow → Result (Prepared × List CredentialRow)
  rotate draws now key_id rows = do
    old ← get_credential key_id rows
    guard (old.machine_id == none) machine_credential_lifecycle_error
    guard (not (is_some old.revoked_at)) value_error
    issued ← prepare derive draws old.name old.scopes old.prefixes old.expires_at none none
    rows' ← replace_key now key_id issued rows
    ok (issued, rows')

  -- CredentialStore.verify, where the token has an id and its row is found
  unfoldable pub verify_row : Text → Time → CredentialRow → Result (Option CredentialGrant)
  verify_row token now row =
      if not (derive token row.salt == row.verifier)
        || is_some row.credential.revoked_at
        || expired row.credential.expires_at now
      then ok none
      else do grant ← make_grant (grant_of row.credential); ok (some grant)

  abbrev verify_found : Text → Time → Option CredentialRow → Result (Option CredentialGrant)
  verify_found token now none = ok none
  verify_found token now (some row) = verify_row token now row

  abbrev verify_key :
      Text → Time → List CredentialRow → Option Text → Result (Option CredentialGrant)
  verify_key token now rows none = ok none
  verify_key token now rows (some key_id) = verify_found token now (select_key key_id rows)

  -- CredentialStore.verify
  unfoldable pub verify : Text → Time → List CredentialRow → Result (Option CredentialGrant)
  verify token now rows = verify_key token now rows (parse_token token)

-- SELECT * FROM enrollment_uses WHERE enrollment_key_id = ?
abbrev pub uses_key : Text → EnrollmentUse → Bool
uses_key key_id use_ = use_.enrollment_key_id == key_id

-- CredentialStore.consume_enrollment: whether the key has been used for the same request. `now` is
-- time.time().
unfoldable pub consume_enrollment :
    Time → Text → Text → Text → List EnrollmentUse → Result (Bool × List EnrollmentUse)
consume_enrollment now key_id local_registration_id request_fingerprint uses =
    elim (find (uses_key key_id) uses) [
      | none ↦ ok (
        false,
        uses
            ++ (record {
              enrollment_key_id = key_id;
              local_registration_id = local_registration_id;
              request_fingerprint = request_fingerprint;
              machine_id = none;
              created_at = now;
            })
              ∷ [],
      )
      | some row ↦
          if not (row.local_registration_id == local_registration_id)
            || not (row.request_fingerprint == request_fingerprint)
          then err enrollment_consumed_error
          else ok (true, uses)
    ]

-- CredentialStore.bind_enrollment_use
unfoldable pub bind_enrollment_use : Text → Text → List EnrollmentUse → Result (List EnrollmentUse)
bind_enrollment_use key_id machine_id uses = do
  let test : EnrollmentUse → Bool =
      λ u. uses_key key_id u && (u.machine_id == none || u.machine_id == some machine_id)
  guard (row_count test uses == 1) enrollment_consumed_error
  ok (
      update_rows test (λ u. record u { machine_id = coalesce u.machine_id (some machine_id) })
        uses)
