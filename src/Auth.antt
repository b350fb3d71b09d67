-- ===== src/Auth.antt =====
-- src/ctxfs/auth.py: the authorization policy. A `frozenset[Scope]` is a record of six flags; the
-- dataclasses' `__post_init__` checks are the `make_` functions.
pub mod Tests
pub mod Grants
pub mod Policy
use ctxd.Prelude.{
  ℕ, ◌+◌, ◌≡◌, Bool, true, false, not, ◌&&◌, ◌||◌, List, [], ◌∷◌, ◌++◌, map, Option, none, some,
  ◌==◌, if◌then◌else◌, nat_eq, list_eq, option_eq, any, is_empty, length, Text, codes, starts_with,
  ends_with, has_control_character, strip, split, join, has_duplicates, Result, ok, err,
  value_error, ◌>>=◌, ◌>>◌, guard, map_result,
}
use ctxd.Paths.{slash, is_dots, has_drive_prefix}

pub data Scope : Type 0 where
  status status_write read submit enroll admin : Scope

pub data PrincipalKind : Type 0 where
  api_key local_socket : PrincipalKind

pub data LocalSocketTrust : Type 0 where
  disabled trusted_admin : LocalSocketTrust

pub data DenialReason : Type 0 where
  unauthenticated missing_scope prefix_required prefix_not_granted : DenialReason

pub record ScopeSet : Type 0 where
  pub has_status : Bool
  pub has_status_write : Bool
  pub has_read : Bool
  pub has_submit : Bool
  pub has_enroll : Bool
  pub has_admin : Bool

-- scope in scopes
abbrev pub mem_scope : Scope → ScopeSet → Bool
mem_scope status s = s.has_status
mem_scope status_write s = s.has_status_write
mem_scope read s = s.has_read
mem_scope submit s = s.has_submit
mem_scope enroll s = s.has_enroll
mem_scope admin s = s.has_admin

abbrev count_flag : Bool → ℕ
count_flag true = 1
count_flag false = 0

-- len(scopes)
unfoldable pub scope_count : ScopeSet → ℕ
scope_count s =
    count_flag s.has_status
    + count_flag s.has_status_write
    + count_flag s.has_read
    + count_flag s.has_submit
    + count_flag s.has_enroll
    + count_flag s.has_admin

-- frozenset(scopes)
abbrev pub no_scopes : ScopeSet
no_scopes = record {
  has_status = false;
  has_status_write = false;
  has_read = false;
  has_submit = false;
  has_enroll = false;
  has_admin = false;
}

-- frozenset({Scope.SUBMIT, Scope.STATUS_WRITE})
abbrev pub machine_scopes : ScopeSet
machine_scopes = record no_scopes { has_status_write = true; has_submit = true }

-- scopes == machine_scopes
unfoldable pub is_machine_scopes : ScopeSet → Bool
is_machine_scopes s =
    s.has_submit
    && s.has_status_write
    && not s.has_status
    && not s.has_read
    && not s.has_enroll
    && not s.has_admin

pub record CredentialGrant : Type 0 where
  pub principal_id : Text
  pub key_id : Text
  pub scopes : ScopeSet
  pub prefixes : List Text
  pub machine_id : Option Text

pub record Principal : Type 0 where
  pub principal_id : Text
  pub kind : PrincipalKind
  pub scopes : ScopeSet
  pub key_id : Option Text
  pub prefixes : List Text
  pub machine_id : Option Text

pub record AuthorizationDecision : Type 0 where
  pub allowed : Bool
  pub required_scope : Scope
  pub principal_id : Option Text
  pub key_id : Option Text
  pub denial_reason : Option DenialReason

abbrev denial_status : Option DenialReason → ℕ
denial_status (some unauthenticated) = 401
denial_status (some missing_scope) = 403
denial_status (some prefix_required) = 403
denial_status (some prefix_not_granted) = 403
denial_status none = 403

-- AuthorizationDecision.http_status
unfoldable pub http_status : AuthorizationDecision → Option ℕ
http_status d = if d.allowed then none else some (denial_status d.denial_reason)

unfoldable pub normalize_path : Text → Result Text
normalize_path path = do
  guard
      (not (
        path == []
        || starts_with path (codes "/")
        || ends_with path (codes "/")
        || has_control_character path
        || has_drive_prefix path))
      value_error
  guard (not (any is_dots (split slash path))) value_error
  ok (join slash (split slash path))

unfoldable pub normalize_prefix : Text → Result Text
normalize_prefix prefix = do
  normalized ← normalize_path prefix
  guard (not (is_empty normalized)) value_error
  ok normalized

unfoldable pub within : Text → Text → Bool
within path prefix = path == prefix || starts_with path (prefix ++ codes "/")

-- _require_identifier
unfoldable pub require_identifier : Text → Result (Unit {0})
require_identifier value = guard (not (is_empty value) && strip value == value) value_error

unfoldable pub require_optional_identifier : Option Text → Result (Unit {0})
require_optional_identifier none = ok tt
require_optional_identifier (some value) = require_identifier value

abbrev is_bound : Option Text → Bool
is_bound none = false
is_bound (some m) = true

-- The checks of _validate_grants on the normalized prefixes.
unfoldable pub check_grants : ScopeSet → List Text → Option Text → Result (Unit {0})
unfolding scope_count is_machine_scopes
check_grants scopes normalized machine_id = do
  guard (not (has_duplicates normalized)) value_error
  guard (not (not (is_empty normalized) && not scopes.has_submit)) value_error
  guard (not (scopes.has_admin && not (scope_count scopes == 1))) value_error
  guard (not (scopes.has_enroll && not (scope_count scopes == 1))) value_error
  guard (not (scopes.has_enroll && not (is_empty normalized))) value_error
  guard (not (scopes.has_status_write && not (is_bound machine_id))) value_error
  guard
      (not
        (is_bound machine_id && (not (is_machine_scopes scopes) || not (length normalized == 1))))
      value_error

unfoldable pub validate_grants : ScopeSet → List Text → Option Text → Result (List Text)
validate_grants scopes prefixes machine_id = do
  normalized ← map_result normalize_prefix prefixes
  check_grants scopes normalized machine_id
  ok normalized

-- CredentialGrant.__post_init__
unfoldable pub make_grant : CredentialGrant → Result CredentialGrant
make_grant g = do
  require_identifier g.principal_id
  require_identifier g.key_id
  require_optional_identifier g.machine_id
  normalized ← validate_grants g.scopes g.prefixes g.machine_id
  ok (record g { prefixes = normalized })

-- `not self.key_id` for an API key, `self.key_id is not None` for a local socket
unfoldable pub check_kind : PrincipalKind → Option Text → Result (Unit {0})
check_kind api_key none = err value_error
check_kind api_key (some k) = guard (not (is_empty k)) value_error
check_kind local_socket none = ok tt
check_kind local_socket (some k) = err value_error

-- Principal.__post_init__
unfoldable pub make_principal : Principal → Result Principal
make_principal p = do
  require_identifier p.principal_id
  check_kind p.kind p.key_id
  require_optional_identifier p.key_id
  require_optional_identifier p.machine_id
  normalized ← validate_grants p.scopes p.prefixes p.machine_id
  ok (record p { prefixes = normalized })

-- CredentialGrant.principal
unfoldable pub grant_principal : CredentialGrant → Result Principal
grant_principal g = make_principal (record {
  principal_id = g.principal_id;
  kind = api_key;
  scopes = g.scopes;
  key_id = some g.key_id;
  prefixes = g.prefixes;
  machine_id = g.machine_id;
})

unfoldable pub local_socket_principal : LocalSocketTrust → Result (Option Principal)
local_socket_principal disabled = ok none
local_socket_principal trusted_admin = do
  p ← make_principal (record {
    principal_id = codes "local-socket";
    kind = local_socket;
    scopes = record no_scopes { has_admin = true };
    key_id = none;
    prefixes = [];
    machine_id = none;
  })
  ok (some p)

unfoldable pub allowed : Principal → Scope → AuthorizationDecision
allowed p scope = record {
  allowed = true;
  required_scope = scope;
  principal_id = some p.principal_id;
  key_id = p.key_id;
  denial_reason = none;
}

unfoldable pub denied : Scope → DenialReason → Option Principal → AuthorizationDecision
denied scope reason none = record {
  allowed = false;
  required_scope = scope;
  principal_id = none;
  key_id = none;
  denial_reason = some reason;
}
denied scope reason (some p) = record {
  allowed = false;
  required_scope = scope;
  principal_id = some p.principal_id;
  key_id = p.key_id;
  denial_reason = some reason;
}

abbrev is_submit : Scope → Bool
is_submit submit = true
is_submit _ = false

-- The end of `authorize`, for a principal with the submit scope.
authorize_submit : Principal → Option Text → Result AuthorizationDecision
unfolding allowed denied
authorize_submit p none = ok (denied submit prefix_required (some p))
authorize_submit p (some path) = do
  normalized_path ← normalize_path path
  ok (
      if any (within normalized_path) p.prefixes
      then allowed p submit
      else denied submit prefix_not_granted (some p))

unfoldable pub authorize : Option Principal → Scope → Option Text → Result AuthorizationDecision
unfolding allowed denied authorize_submit
authorize none required_scope path = ok (denied required_scope unauthenticated none)
authorize (some p) required_scope path =
    if p.scopes.has_admin
    then ok (allowed p required_scope)
    else if not (mem_scope required_scope p.scopes)
    then ok (denied required_scope missing_scope (some p))
    else if not (is_submit required_scope)
    then ok (allowed p required_scope)
    else authorize_submit p path
