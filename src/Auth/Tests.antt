-- ===== src/Auth/Tests.antt =====
-- The authorization of a machine, of an enroller and of an anonymous caller.
use ctxd.Prelude.{
  ◌≡◌, ◌≢◌, ◌↔◌, ◌⊎◌, refl, Bool, true, false, Text, codes, Option, none, some, ok, err, List, [],
  ◌∷◌, value_error, Error,
}
use ctxd.Auth.{
  Scope, status, status_write, read, submit, enroll, admin, api_key, Principal, no_scopes,
  machine_scopes, mem_scope, make_principal, authorize, AuthorizationDecision, http_status, denied,
  unauthenticated,
}
use ctxd.Auth.Grants.{IsWellFormed, make_principal-IsWellFormed}
use ctxd.Auth.Policy.{
  Allows, Granted, authorize-submit, authorize-capability, expected_status, authorize-http_status,
  machine_confined, enroll_confined,
}

abbrev the_machine : Principal
the_machine = record {
  principal_id = codes "k";
  kind = api_key;
  scopes = machine_scopes;
  key_id = some (codes "k");
  prefixes = codes "machines/m" ∷ [];
  machine_id = some (codes "1");
}

abbrev the_enroller : Principal
the_enroller = record {
  principal_id = codes "e";
  kind = api_key;
  scopes = record no_scopes { has_enroll = true };
  key_id = some (codes "e");
  prefixes = [];
  machine_id = none;
}

machine_accepted : make_principal the_machine ≡ ok the_machine
unfolding make_principal ctxd.Auth.require_identifier ctxd.Prelude.list_beq ctxd.Prelude.strip
    ctxd.Auth.check_kind ctxd.Auth.require_optional_identifier ctxd.Auth.validate_grants
    ctxd.Prelude.map_result ctxd.Auth.normalize_prefix ctxd.Auth.normalize_path
    ctxd.Prelude.starts_with ctxd.Prelude.ends_with ctxd.Prelude.has_control_character
    ctxd.Paths.has_drive_prefix ctxd.Prelude.split ctxd.Paths.is_dots ctxd.Prelude.join
    ctxd.Auth.check_grants ctxd.Auth.is_machine_scopes ctxd.Auth.scope_count
    ctxd.Prelude.has_duplicates ctxd.Prelude.mem ctxd.Prelude.is_space ctxd.Prelude.lstrip
    ctxd.Prelude.rstrip
machine_accepted = refl

enroller_accepted : make_principal the_enroller ≡ ok the_enroller
unfolding make_principal ctxd.Auth.require_identifier ctxd.Prelude.list_beq ctxd.Prelude.strip
    ctxd.Auth.check_kind ctxd.Auth.require_optional_identifier ctxd.Auth.validate_grants
    ctxd.Prelude.map_result ctxd.Auth.normalize_prefix ctxd.Auth.normalize_path
    ctxd.Prelude.starts_with ctxd.Prelude.ends_with ctxd.Prelude.has_control_character
    ctxd.Paths.has_drive_prefix ctxd.Prelude.split ctxd.Paths.is_dots ctxd.Prelude.join
    ctxd.Auth.check_grants ctxd.Auth.is_machine_scopes ctxd.Auth.scope_count
    ctxd.Prelude.has_duplicates ctxd.Prelude.mem ctxd.Prelude.is_space ctxd.Prelude.lstrip
    ctxd.Prelude.rstrip
enroller_accepted = refl

authorize-submit_example :
    Allows (authorize (some the_machine) submit (some (codes "machines/m/a"))) ↔ (
      (the_machine.scopes.has_admin ≡ true)
      ⊎ ((the_machine.scopes.has_submit ≡ true)
          × Granted the_machine.prefixes (some (codes "machines/m/a"))))
authorize-submit_example = authorize-submit the_machine (some (codes "machines/m/a"))

read_apart : read ≢ submit
read_apart e = cc

authorize-capability_example :
    Allows (authorize (some the_machine) read none)
    ↔ ((the_machine.scopes.has_admin ≡ true) ⊎ (mem_scope read the_machine.scopes ≡ true))
authorize-capability_example = authorize-capability the_machine read none read_apart

abbrev refusal : AuthorizationDecision
refusal = record {
  allowed = false;
  required_scope = read;
  principal_id = none;
  key_id = none;
  denial_reason = some unauthenticated;
}

anonymous_refused : authorize none read none ≡ ok refusal
unfolding authorize
anonymous_refused = refl

authorize-http_status_example :
    (http_status refusal ≡ expected_status none refusal)
    × ((http_status refusal ≡ none) ↔ (refusal.allowed ≡ true))
    × (refusal.required_scope ≡ read)
authorize-http_status_example = authorize-http_status none read none anonymous_refused

machine_confined_example :
    (prefix : Text) × (the_machine.prefixes ≡ prefix ∷ [])
    × ((scope : Scope) (path : Option Text)
        → Allows (authorize (some the_machine) scope path)
        → (scope ≡ status_write) ⊎ ((scope ≡ submit) × Granted (prefix ∷ []) path))
machine_confined_example = machine_confined the_machine (codes "1") machine_accepted refl

enroll_confined_example : Allows (authorize (some the_enroller) enroll none) ↔ (enroll ≡ enroll)
enroll_confined_example = enroll_confined the_enroller enroll none enroller_accepted refl

make_principal-IsWellFormed_example :
    (the_machine ≡ the_machine)
    × IsWellFormed the_machine.scopes the_machine.prefixes the_machine.machine_id
make_principal-IsWellFormed_example = make_principal-IsWellFormed the_machine machine_accepted
