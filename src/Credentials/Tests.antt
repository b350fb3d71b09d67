-- ===== src/Credentials/Tests.antt =====
-- A key that is created, verified, rotated and revoked. The digest of a token is the token with the
-- salt in front.
use ctxd.Prelude.{
  ℕ, ◌≡◌, ◌++◌, refl, Bool, true, false, Text, codes, Option, none, some, ok, err, List, [], ◌∷◌,
  if◌then◌else◌, ◌&&◌, ◌==◌, nat_eq, list_eq, all, enrollment_consumed_error,
}
use ctxd.Auth.{no_scopes, CredentialGrant}
use ctxd.Credentials.{
  Draws, Credential, CredentialRow, EnrollmentUse, Prepared, make_token, parse_token, is_key_id,
  is_secret, expired, create, rotate, revoke, verify, get_credential, requested_grant, prepared,
  replace_row, revoke_row, consume_enrollment,
}
use ctxd.Credentials.Verify.{Verified, verify_sound}
use ctxd.Credentials.Issue.{create-verify, revoke-verify, rotate-verify}
use ctxd.Credentials.Enrollment.{consume_enrollment-once}

abbrev derive : Text → Text → Text
derive token salt = salt ++ token

abbrev secret : Text
secret = codes "abcdefghijklmnopqrstuvwxyzabcdefghijklmnopq"

abbrev draws : Draws
draws = record {
  key_ids = codes "-bcdefghijklmnop" ∷ codes "abcdefghijklmnop" ∷ [];
  secret = secret;
  salt = codes "s";
  now = 5;
}

abbrev later_draws : Draws
later_draws = record {
  key_ids = codes "bbcdefghijklmnop" ∷ [];
  secret = secret;
  salt = codes "t";
  now = 7;
}

abbrev key_id : Text
key_id = codes "abcdefghijklmnop"

abbrev new_key_id : Text
new_key_id = codes "bbcdefghijklmnop"

abbrev grant_for : Text → CredentialGrant
grant_for k = requested_grant k (record no_scopes { has_read = true }) [] none

abbrev issued : Prepared
issued = prepared derive draws key_id (codes "n") (grant_for key_id) (some 20) none none

abbrev reissued : Prepared
reissued =
    prepared derive later_draws new_key_id (codes "n") (grant_for new_key_id) (some 20) none none

abbrev row_of : Prepared → CredentialRow
row_of p = record { credential = p.credential; salt = p.salt; verifier = p.verifier }

abbrev rows : List CredentialRow
rows = row_of issued ∷ []

abbrev rotated : List CredentialRow
rotated = replace_row 8 new_key_id (row_of issued) ∷ row_of reissued ∷ []

abbrev revoked : List CredentialRow
revoked = revoke_row 9 none (row_of issued) ∷ []

abbrev old_token : Text
old_token = make_token key_id secret

created :
    create derive draws (codes "n") (record no_scopes { has_read = true }) [] (some 20) []
    ≡ ok (issued, rows)
unfolding create ctxd.Credentials.prepare ctxd.Prelude.strip ctxd.Prelude.has_control_character
    ctxd.Auth.scope_count ctxd.Credentials.draw_key_id ctxd.Prelude.starts_with ctxd.Auth.make_grant
    ctxd.Auth.require_identifier ctxd.Prelude.list_beq ctxd.Auth.require_optional_identifier
    ctxd.Auth.validate_grants ctxd.Prelude.map_result ctxd.Auth.check_grants
    ctxd.Prelude.has_duplicates ctxd.Credentials.insert
created = refl

ids : all is_key_id draws.key_ids ≡ true
unfolding is_key_id
ids = refl

later_ids : all is_key_id later_draws.key_ids ≡ true
unfolding is_key_id
later_ids = refl

secret_form : is_secret secret ≡ true
unfolding is_secret
secret_form = refl

create-verify_example : verify derive old_token 10 rows ≡ ok (some (grant_for key_id))
create-verify_example =
    create-verify derive draws (codes "n") (record no_scopes { has_read = true }) [] (some 20) []
      rows issued 10 ids secret_form created refl

accepted : verify derive old_token 10 rows ≡ ok (some (grant_for key_id))
unfolding verify parse_token ctxd.Prelude.split ctxd.Prelude.list_beq is_key_id is_secret
    ctxd.Prelude.find ctxd.Credentials.verify_row ctxd.Auth.make_grant ctxd.Auth.require_identifier
    ctxd.Prelude.strip ctxd.Auth.require_optional_identifier ctxd.Auth.validate_grants
    ctxd.Prelude.map_result ctxd.Auth.check_grants ctxd.Prelude.has_duplicates
accepted = refl

verify_sound_example : Verified derive old_token 10 rows (grant_for key_id)
verify_sound_example = verify_sound derive old_token 10 rows (grant_for key_id) accepted

parsed : parse_token old_token ≡ some key_id
unfolding parse_token ctxd.Prelude.split ctxd.Prelude.list_beq is_key_id is_secret
parsed = refl

revoked_ok : revoke 9 key_id rows ≡ ok ((revoke_row 9 none (row_of issued)).credential, revoked)
unfolding revoke ctxd.Credentials.validate_key_id is_key_id get_credential ctxd.Prelude.find
    ctxd.Prelude.list_beq ctxd.Prelude.row_count ctxd.Prelude.update_rows
revoked_ok = refl

revoke-verify_example : verify derive old_token 10 revoked ≡ ok none
revoke-verify_example =
    revoke-verify derive 9 10 key_id old_token rows revoked
      (revoke_row 9 none (row_of issued)).credential parsed revoked_ok

stored : get_credential key_id rows ≡ ok issued.credential
unfolding get_credential ctxd.Credentials.validate_key_id is_key_id ctxd.Prelude.find
    ctxd.Prelude.list_beq
stored = refl

rotated_ok : rotate derive later_draws 8 key_id rows ≡ ok (reissued, rotated)
unfolding rotate get_credential ctxd.Credentials.validate_key_id is_key_id ctxd.Prelude.find
    ctxd.Credentials.prepare ctxd.Credentials.draw_key_id ctxd.Auth.make_grant
    ctxd.Credentials.insert ctxd.Credentials.replace_key ctxd.Prelude.row_count
    ctxd.Prelude.update_rows ctxd.Auth.require_identifier ctxd.Prelude.list_beq ctxd.Prelude.strip
    ctxd.Auth.require_optional_identifier ctxd.Auth.validate_grants ctxd.Prelude.map_result
    ctxd.Auth.normalize_prefix ctxd.Auth.normalize_path ctxd.Prelude.starts_with
    ctxd.Prelude.ends_with ctxd.Prelude.has_control_character ctxd.Paths.has_drive_prefix
    ctxd.Prelude.split ctxd.Paths.is_dots ctxd.Prelude.join ctxd.Auth.check_grants
    ctxd.Auth.is_machine_scopes ctxd.Auth.scope_count ctxd.Prelude.has_duplicates ctxd.Prelude.mem
    ctxd.Prelude.is_space ctxd.Prelude.lstrip ctxd.Prelude.rstrip
rotated_ok = refl

rotate-verify_example :
    (verify derive old_token 10 rotated ≡ ok none)
    × (verify derive reissued.token 10 rotated ≡ ok (some (grant_for new_key_id)))
rotate-verify_example =
    rotate-verify derive later_draws 8 10 key_id old_token rows rotated issued.credential reissued
      later_ids secret_form parsed stored rotated_ok refl

abbrev used : List EnrollmentUse
used =
    (record {
      enrollment_key_id = codes "e";
      local_registration_id = codes "r";
      request_fingerprint = codes "f";
      created_at = 5;
      machine_id = none;
    })
    ∷ []

consumed : consume_enrollment 5 (codes "e") (codes "r") (codes "f") [] ≡ ok (false, used)
unfolding consume_enrollment ctxd.Prelude.find
consumed = refl

abbrev decision : Bool
decision = codes "r" == codes "r" && codes "f" == codes "g"

consume_enrollment-once_example :
    consume_enrollment 6 (codes "e") (codes "r") (codes "g") used
    ≡ (if decision then ok (true, used) else err enrollment_consumed_error)
consume_enrollment-once_example =
    consume_enrollment-once 5 6 (codes "e") (codes "r") (codes "f") (codes "r") (codes "g") [] used
      false consumed
