-- ===== src/Credentials/Enrollment.antt =====
-- The ledger of enrollments in src/ctxfs/credentials.py.
use ctxd.Prelude.{
  ◌≡◌, refl, ap, subst, Bool, true, false, not, ◌&&◌, ◌||◌, List, [], ◌∷◌, ◌++◌, none, some, ◌==◌,
  if◌then◌else◌, nat_eq, list_eq, option_eq, Text, Time, arith, inl, inr, find, find-snoc, ok, err,
  enrollment_consumed_error, Bool-cases, Option-cases, ok_injective, eq_iff, eq_refl,
}
use ctxd.Credentials.{EnrollmentUse, uses_key, consume_enrollment}

-- The ledger's row for a key, as a consumption leaves it.
record Consumed (key registration fingerprint : Text) (uses : List EnrollmentUse) : Type 0 where
  row : EnrollmentUse
  found : find (uses_key key) uses ≡ some row
  registered : row.local_registration_id ≡ registration
  fingerprinted : row.request_fingerprint ≡ fingerprint

abbrev first_use : Time → Text → Text → Text → EnrollmentUse
first_use now key registration fingerprint = record {
  enrollment_key_id = key;
  local_registration_id = registration;
  request_fingerprint = fingerprint;
  machine_id = none;
  created_at = now;
}

abbrev pair_of : Bool → List EnrollmentUse → Bool × List EnrollmentUse
pair_of b uses = (b, uses)

decided :
    (a b : Bool) (uses : List EnrollmentUse)
    → (if not a || not b then err enrollment_consumed_error else ok (pair_of true uses))
      ≡ (if a && b then ok (pair_of true uses) else err enrollment_consumed_error)
decided true true uses = refl
decided true false uses = refl
decided false b uses = refl

consume_enrollment-Consumed :
    (now : Time) (key registration fingerprint : Text) (uses uses' : List EnrollmentUse)
    (recovered : Bool)
    → consume_enrollment now key registration fingerprint uses ≡ ok (recovered, uses')
    → Consumed key registration fingerprint uses'
unfolding consume_enrollment
consume_enrollment-Consumed now key registration fingerprint uses uses' recovered h =
    elim (Option-cases (find (uses_key key) uses)) [
      | inl n ↦
          let new : EnrollmentUse = first_use now key registration fingerprint in
          let same : uses ++ new ∷ [] ≡ uses' =
            ap (λ q. q.1)
              (ok_injective (pair_of false (uses ++ new ∷ [])) (pair_of recovered uses')
                (rw (consume_enrollment, n) at h)) in
          record {
            row = new;
            found =
                subst (λ u. find (uses_key key) u ≡ some new) same
                  (find-snoc (uses_key key) uses new n (eq_refl key));
            registered = refl;
            fingerprinted = refl;
          }
      | inr (row, f) ↦ elim (Bool-cases (row.local_registration_id == registration)) [
        | inr r ↦ absurd (ground (arith, rw (consume_enrollment, f, r) at h))
        | inl r ↦ elim (Bool-cases (row.request_fingerprint == fingerprint)) [
          | inr p ↦ absurd (ground (arith, rw (consume_enrollment, f, r, p) at h))
          | inl p ↦
              let same : uses ≡ uses' =
                ap (λ q. q.1)
                  (ok_injective (pair_of true uses) (pair_of recovered uses')
                    (rw (consume_enrollment, f, r, p) at h)) in
              record {
                row = row;
                found = subst (λ u. find (uses_key key) u ≡ some row) same f;
                registered = (eq_iff row.local_registration_id registration).0 r;
                fingerprinted = (eq_iff row.request_fingerprint fingerprint).0 p;
              }
        ]
      ]
    ]

-- Once a key is consumed, a further use of it is accepted exactly for the same registration and
-- request; it is then reported as a recovery, and the ledger stays as it is.
pub consume_enrollment-once :
    (now later : Time) (key registration fingerprint registration' fingerprint' : Text)
    (uses uses' : List EnrollmentUse) (recovered : Bool)
    → consume_enrollment now key registration fingerprint uses ≡ ok (recovered, uses')
    → consume_enrollment later key registration' fingerprint' uses' ≡ (
        if registration == registration' && fingerprint == fingerprint'
        then ok (true, uses')
        else err enrollment_consumed_error)
unfolding consume_enrollment
consume_enrollment-once now later key registration fingerprint registration' fingerprint' uses uses'
      recovered h =
    let c = consume_enrollment-Consumed now key registration fingerprint uses uses' recovered h in
    rw (consume_enrollment, c.found, c.registered, c.fingerprinted)
      (decided (registration == registration') (fingerprint == fingerprint') uses')
