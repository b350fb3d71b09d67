-- ===== src/Auth/Policy.antt =====
-- The decisions of `authorize` of src/ctxfs/auth.py.
use mathlib.Core.Bool.{false≢true}
use ctxd.Prelude.{
  ℕ, ◌≡◌, refl, sym, ◌∙◌, subst, ◌↔◌, true, List, [], ◌∷◌, Option, none, some, inl, inr, ◌⊎◌, ◌≢◌,
  if◌then◌else◌, nat_eq, list_eq, option_eq, any, Text, arith, Bool-cases, Result, ok, err, Any,
  any_iff, value_error, Error,
}
use ctxd.Paths
use ctxd.Paths.Canonical.{IsCanonical}
use ctxd.Paths.Prefix.{IsUnder, within→IsUnder, IsUnder→within}
use ctxd.Auth
use ctxd.Auth.{
  Scope, submit, status_write, enroll, status, read, admin, Principal, AuthorizationDecision,
  authorize, http_status, mem_scope, make_principal,
}
use ctxd.Auth.Grants.{make_principal-IsWellFormed, auth-IsCanonical, auth-invalid}

-- A decision that was reached and allows.
abbrev pub Allows : Result AuthorizationDecision → Type 0
Allows (ok d) = d.allowed ≡ true
Allows (err e) = ⊥

-- The path, if it is given and canonical, lies under one of the prefixes.
abbrev pub Granted : List Text → Option Text → Type 0
Granted prefixes none = ⊥
Granted prefixes (some path) = IsCanonical path × Any (IsUnder path) prefixes

within_agrees : (path prefix : Text) → Auth.within path prefix ≡ Paths.Prefix.within path prefix
unfolding Auth.within Paths.Prefix.within
within_agrees path prefix = refl

any-within :
    (path : Text) (prefixes : List Text)
    → (any (Auth.within path) prefixes ≡ true) ↔ Any (IsUnder path) prefixes
any-within path prefixes =
    any_iff (Auth.within path) (IsUnder path)
      (λ prefix. (
        λ h. within→IsUnder path prefix (sym (within_agrees path prefix) ∙ h),
        λ u. within_agrees path prefix ∙ IsUnder→within path prefix u,
      ))
      prefixes

canonical-result : (path : Text) → IsCanonical path → Auth.normalize_path path ≡ ok path
canonical-result path c = auth-IsCanonical path c

submit-Granted :
    (p : Principal) (path : Option Text)
    → Allows (Auth.authorize_submit p path) ↔ Granted p.prefixes path
unfolding Auth.authorize_submit Auth.allowed Auth.denied
submit-Granted p none = (λ h. false≢true h, λ h. absurd h)
submit-Granted p (some path) = elim (auth-invalid path) [
  | inl e ↦ (λ h. absurd (rw e at h), λ g. absurd (ground (arith, e, auth-IsCanonical path g.0)))
  | inr c ↦
      let (to, from) = any-within path p.prefixes in
      (
        λ h. (c, to (ground (arith, auth-IsCanonical path c))),
        λ g. ground (arith, auth-IsCanonical path c, from g.1),
      )
]

-- A submission is allowed exactly for an admin, and for a principal with the submit scope whose
-- prefixes cover the given path segment by segment: only an admin may leave the path out, or give a
-- malformed one.
pub authorize-submit :
    (p : Principal) (path : Option Text)
    → Allows (authorize (some p) submit path)
      ↔ ((p.scopes.has_admin ≡ true) ⊎ ((p.scopes.has_submit ≡ true) × Granted p.prefixes path))
unfolding authorize
authorize-submit p path =
    let (to, from) = submit-Granted p path in
    elim (Bool-cases p.scopes.has_admin) [
      | inl a ↦ (λ h. inl a, λ g. rw a refl)
      | inr a ↦ elim (Bool-cases p.scopes.has_submit) [
        | inl s ↦ (
          λ h. inr (s, to (rw (a, s) at h)),
          λ g. elim g [ inl b ↦ absurd (ground (arith, b, a)) | inr (_, k) ↦ rw (a, s) (from k) ],
        )
        | inr s ↦ (
          λ h. absurd (false≢true (rw (a, s) at h)),
          λ g. elim g [
            | inl b ↦ absurd (ground (arith, b, a))
            | inr (b, _) ↦ absurd (ground (arith, b, s))
          ],
        )
      ]
    ]

-- Every other capability is allowed exactly for an admin and for the holders of its scope, with no
-- regard to the path.
pub authorize-capability :
    (p : Principal) (scope : Scope) (path : Option Text)
    → scope ≢ submit
    → Allows (authorize (some p) scope path)
      ↔ ((p.scopes.has_admin ≡ true) ⊎ (mem_scope scope p.scopes ≡ true))
unfolding authorize Auth.allowed Auth.denied
authorize-capability p submit path n = absurd (n refl)
authorize-capability p scope path n = (λ h. ground arith, λ g. ground arith)

-- The status of a decision: 401 without a principal, and with one none if it allows, and else 403.
abbrev pub expected_status : Option Principal → AuthorizationDecision → Option ℕ
expected_status none d = some 401
expected_status (some _) d = if d.allowed then none else some 403

-- A decision that is reached has the status 401 for a caller without a principal; with a principal it
-- has no status if it allows, and 403 if it does not. It has no status exactly if it allows, so a
-- caller without a principal is never allowed, and it names the scope asked for.
pub authorize-http_status :
    (q : Option Principal) (scope : Scope) (path : Option Text) {d : AuthorizationDecision}
    → authorize q scope path ≡ ok d
    → (http_status d ≡ expected_status q d)
      × ((http_status d ≡ none) ↔ (d.allowed ≡ true))
      × (d.required_scope ≡ scope)
unfolding authorize Auth.authorize_submit Auth.allowed Auth.denied http_status
authorize-http_status none scope path h = ground arith
authorize-http_status (some p) submit none h = ground arith
authorize-http_status (some p) submit (some t) h = ground arith
authorize-http_status (some p) scope path h = ground arith

-- `authorize` raises only ValueError, and only for a submission with the submit scope and not admin
-- whose path is not canonical.
pub authorize-raises :
    (q : Option Principal) (scope : Scope) (path : Option Text) {e : Error}
    → authorize q scope path ≡ err e
    → (e ≡ value_error) × (scope ≡ submit) × (bad : Text) × (path ≡ some bad) × ¬ IsCanonical bad
unfolding authorize Auth.authorize_submit Auth.allowed Auth.denied
authorize-raises none scope path h = absurd (ground arith)
authorize-raises (some p) submit none h = absurd (ground arith)
authorize-raises (some p) submit (some t) h = elim (auth-invalid t) [
  | inl bad ↦ (ground (arith, bad), refl, t, refl, λ c. ground (arith, bad, auth-IsCanonical t c))
  | inr c ↦ absurd (ground (arith, auth-IsCanonical t c))
]
authorize-raises (some p) scope path h = absurd (ground arith)

machine_reach :
    (p : Principal) (prefix : Text)
    → p.scopes ≡ Auth.machine_scopes
    → p.prefixes ≡ prefix ∷ []
    → (scope : Scope) (path : Option Text) → Allows (authorize (some p) scope path)
    → (scope ≡ status_write) ⊎ ((scope ≡ submit) × Granted (prefix ∷ []) path)
machine_reach p prefix s one submit path h = elim ((authorize-submit p path).0 h) [
  | inl a ↦ absurd (ground (arith, a, s))
  | inr (_, g) ↦ inr (refl, subst (λ x. Granted x path) one g)
]
machine_reach p prefix s one status_write path h = inl refl
machine_reach p prefix s one scope path h =
    elim ((authorize-capability p scope path (λ e. ground (arith, e))).0 h) [
      | inl a ↦ absurd (ground (arith, a, s))
      | inr a ↦ absurd (ground (arith, a, s))
    ]

enroll_reach :
    (p : Principal)
    → p.scopes ≡ record Auth.no_scopes { has_enroll = true }
    → (scope : Scope) (path : Option Text)
    → Allows (authorize (some p) scope path) ↔ (scope ≡ enroll)
unfolding authorize Auth.authorize_submit Auth.allowed Auth.denied
enroll_reach p s enroll path = (λ h. refl, λ e. ground arith)
enroll_reach p s scope path = (λ h. absurd (ground arith), λ e. absurd (ground (arith, e)))

-- The credential of a machine reaches nothing but its status reports and submissions under its one
-- prefix.
pub machine_confined :
    (p : Principal) {q : Principal} (m : Text)
    → make_principal p ≡ ok q
    → p.machine_id ≡ some m
    → (prefix : Text) × (p.prefixes ≡ prefix ∷ [])
      × ((scope : Scope) (path : Option Text)
          → Allows (authorize (some q) scope path)
          → (scope ≡ status_write) ⊎ ((scope ≡ submit) × Granted (prefix ∷ []) path))
machine_confined p m h e =
    let (same, w) = make_principal-IsWellFormed p h in
    let (scopes, prefix, one) = w.machine m e in
    (
      prefix,
      one,
      λ scope path a.
          machine_reach p prefix scopes one scope path
            (subst (λ x. Allows (authorize (some x) scope path)) same a),
    )

-- An enrollment key can enroll, and nothing else.
pub enroll_confined :
    (p : Principal) {q : Principal} (scope : Scope) (path : Option Text)
    → make_principal p ≡ ok q
    → p.scopes.has_enroll ≡ true
    → Allows (authorize (some q) scope path) ↔ (scope ≡ enroll)
enroll_confined p scope path h e =
    let (same, w) = make_principal-IsWellFormed p h in
    let (scopes, _) = w.enroll_alone e in rw same (enroll_reach p scopes scope path)
