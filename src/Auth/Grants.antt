-- ===== src/Auth/Grants.antt =====
-- The constructors of grants and principals in src/ctxfs/auth.py.
use mathlib.Core.List.{tail}
use ctxd.Prelude.{
  ok_injective, ◌≡◌, refl, sym, ap, ◌∙◌, true, false, List, [], ◌∷◌, Option, some, inl, inr, ◌⊎◌,
  ◌==◌, nat_eq, list_eq, list_beq, option_eq, any, is_empty, length, Text, codes, All, arith,
  Bool-cases, ends_with, has_control_character, split, has_duplicates, ok, err, value_error,
  map_result, split-ne-nil, join-split, >>=-eq-ok, Result-cases,
}
use ctxd.Paths
use ctxd.Paths.{slash, is_dots, has_drive_prefix}
use ctxd.Paths.Canonical.{
  IsCanonical, leading_slash, normalize_path-IsCanonical, normalize_path_cases,
}
use ctxd.Auth
use ctxd.Auth.{
  ScopeSet, no_scopes, machine_scopes, Principal, CredentialGrant, make_principal, make_grant,
}

last_slash :
    (path : Text) → ends_with path (codes "/") ≡ true → any is_dots (tail (split slash path)) ≡ true
unfolding ends_with split is_dots list_beq
last_slash [] h = cc
last_slash (c ∷ []) h = ground arith
last_slash (c ∷ d ∷ path) h =
    let (p, ps, e) = split-ne-nil slash (d ∷ path) in ground (arith, last_slash (d ∷ path), e)

trailing_slash :
    (path : Text) → any is_dots (split slash path) ≡ false → ends_with path (codes "/") ≡ false
trailing_slash path h = elim (Bool-cases (ends_with path (codes "/"))) [
  | inl e ↦ let (p, ps, s) = split-ne-nil slash path in ground (arith, last_slash path e, s)
  | inr e ↦ e
]

pub auth-IsCanonical : (path : Text) → IsCanonical path → Auth.normalize_path path ≡ ok path
unfolding Auth.normalize_path
auth-IsCanonical path h =
    let front = leading_slash path h.segments in
    let back = trailing_slash path h.segments in
    rw (h.segments, join-split slash path) (ground (arith, front, back, h.printable, h.no_drive))

pub auth-invalid : (path : Text) → (Auth.normalize_path path ≡ err value_error) ⊎ IsCanonical path
unfolding Auth.normalize_path
auth-invalid path = elim (Bool-cases (any is_dots (split slash path))) [
  | inl e ↦ inl (ground arith)
  | inr e ↦ elim (Bool-cases (has_control_character path)) [
    | inl c ↦ inl (ground arith)
    | inr c ↦ elim (Bool-cases (has_drive_prefix path)) [
      | inl d ↦ inl (ground arith)
      | inr d ↦ inr (record { segments = e; printable = c; no_drive = d })
    ]
  ]
]

-- The authorization module and the store accept the same paths and normalize them alike.
pub normalize_path_agrees : (path : Text) → Auth.normalize_path path ≡ Paths.normalize_path path
normalize_path_agrees path = elim (auth-invalid path) [
  | inr c ↦ auth-IsCanonical path c ∙ sym (normalize_path-IsCanonical path c)
  | inl e ↦ elim (normalize_path_cases path) [
    | inl f ↦ e ∙ sym f
    | inr c ↦ auth-IsCanonical path c ∙ sym (normalize_path-IsCanonical path c)
  ]
]

-- What the policy may assume of a grant or a principal.
pub record IsWellFormed (scopes : ScopeSet) (prefixes : List Text) (machine_id : Option Text)
    : Type 0 where
  pub canonical : All IsCanonical prefixes
  pub distinct : has_duplicates prefixes ≡ false
  pub submitting : is_empty prefixes ≡ false → scopes.has_submit ≡ true
  pub admin_alone : scopes.has_admin ≡ true → scopes ≡ record no_scopes { has_admin = true }
  pub enroll_alone :
      scopes.has_enroll ≡ true → (scopes ≡ record no_scopes { has_enroll = true }) × (prefixes ≡ [])
  pub reporting : scopes.has_status_write ≡ true → (m : Text) × (machine_id ≡ some m)
  pub machine :
      (m : Text)
      → machine_id ≡ some m
      → (scopes ≡ machine_scopes) × (prefix : Text) × (prefixes ≡ prefix ∷ [])

normalize_prefix-inv :
    (prefix : Text) {q : Text}
    → Auth.normalize_prefix prefix ≡ ok q
    → (q ≡ prefix) × IsCanonical prefix
unfolding Auth.normalize_prefix
normalize_prefix-inv prefix h = elim (auth-invalid prefix) [
  | inl e ↦ absurd (ground (arith, e))
  | inr c ↦ (ground (arith, auth-IsCanonical prefix c), c)
]

map_normalize-inv :
    (prefixes : List Text) {qs : List Text}
    → map_result Auth.normalize_prefix prefixes ≡ ok qs
    → (qs ≡ prefixes) × All IsCanonical prefixes
unfolding map_result
map_normalize-inv [] h = (cc, tt)
map_normalize-inv (prefix ∷ prefixes) h =
    let (q, e, rest) = >>=-eq-ok (Auth.normalize_prefix prefix) _ h in
    let (qs, es, last) = >>=-eq-ok (map_result Auth.normalize_prefix prefixes) _ rest in
    let (same, c) = normalize_prefix-inv prefix e in
    let (sames, cs) = map_normalize-inv prefixes es in (cc, (c, cs))

single {ℓ} : {A : Type ℓ} (xs : List A) → (length xs == 1) ≡ true → (x : A) × (xs ≡ x ∷ [])
single [] h = cc
single (x ∷ []) h = (x, refl)
single (x ∷ y ∷ xs) h = absurd (ground arith)

module _ (s : ScopeSet) (prefixes : List Text) (m : Option Text)
    (h : Auth.check_grants s prefixes m ≡ ok tt) where
  check-distinct : has_duplicates prefixes ≡ false
  unfolding Auth.check_grants
  check-distinct = ground arith

  check-submitting : is_empty prefixes ≡ false → s.has_submit ≡ true
  unfolding Auth.check_grants
  check-submitting e = ground arith

  check-admin : s.has_admin ≡ true → s ≡ record no_scopes { has_admin = true }
  unfolding Auth.check_grants
  check-admin e = ground arith

  check-enroll : s.has_enroll ≡ true → s ≡ record no_scopes { has_enroll = true }
  unfolding Auth.check_grants
  check-enroll e = ground arith

  check-enroll_empty : s.has_enroll ≡ true → is_empty prefixes ≡ true
  unfolding Auth.check_grants
  check-enroll_empty e = ground arith

  check-reporting : s.has_status_write ≡ true → (k : Text) × (m ≡ some k)
  unfolding Auth.check_grants
  check-reporting e = ground arith

  check-machine : (k : Text) → m ≡ some k → s ≡ machine_scopes
  unfolding Auth.check_grants
  check-machine k e = ground arith

  check-machine_single : (k : Text) → m ≡ some k → (length prefixes == 1) ≡ true
  unfolding Auth.check_grants
  check-machine_single k e = ground arith

nil_of_is_empty {ℓ} : {A : Type ℓ} (xs : List A) → is_empty xs ≡ true → xs ≡ []
nil_of_is_empty [] h = refl
nil_of_is_empty (x ∷ xs) h = cc

pub check_grants-IsWellFormed :
    (s : ScopeSet) (prefixes : List Text) (m : Option Text)
    → All IsCanonical prefixes
    → Auth.check_grants s prefixes m ≡ ok tt
    → IsWellFormed s prefixes m
check_grants-IsWellFormed s prefixes m c h = record {
  canonical = c;
  distinct = check-distinct s prefixes m h;
  submitting = check-submitting s prefixes m h;
  admin_alone = check-admin s prefixes m h;
  enroll_alone = λ e. (
    check-enroll s prefixes m h e,
    nil_of_is_empty prefixes (check-enroll_empty s prefixes m h e),
  );
  reporting = check-reporting s prefixes m h;
  machine = λ k e.
      let (x, one) = single prefixes (check-machine_single s prefixes m h k e) in
      (check-machine s prefixes m h k e, x, one);
}

validate_grants-inv :
    (s : ScopeSet) (prefixes : List Text) (m : Option Text) {normalized : List Text}
    → Auth.validate_grants s prefixes m ≡ ok normalized
    → (normalized ≡ prefixes) × IsWellFormed s prefixes m
unfolding Auth.validate_grants
validate_grants-inv s prefixes m h =
    elim (Result-cases (map_result Auth.normalize_prefix prefixes)) [
      | inr (_, e) ↦ absurd (ground (arith, e))
      | inl (qs, e) ↦
          let (same, c) = map_normalize-inv prefixes e in
          let e' : map_result Auth.normalize_prefix prefixes ≡ ok prefixes = e ∙ ap ok same in
          (ground (arith, e'), check_grants-IsWellFormed s prefixes m c (ground (arith, e')))
    ]

-- A principal that is constructed is the one that was described, its prefixes unchanged, and it is
-- well formed: its prefixes are canonical and distinct and come only with the submit scope; admin
-- and enroll stand alone; status:write needs a machine; a machine has exactly submit and
-- status:write, and one prefix.
pub make_principal-IsWellFormed :
    (p : Principal) {q : Principal}
    → make_principal p ≡ ok q
    → (q ≡ p) × IsWellFormed p.scopes p.prefixes p.machine_id
unfolding make_principal
make_principal-IsWellFormed p h =
    elim (Result-cases (Auth.validate_grants p.scopes p.prefixes p.machine_id)) [
      | inr (_, e) ↦ absurd (ground (arith, e))
      | inl (qs, e) ↦
          let (same, w) = validate_grants-inv p.scopes p.prefixes p.machine_id e in
          (ground (arith, e, same), w)
    ]

-- A grant that passes its own checks passes those of the principal built from it.
pub grant_principal-make_grant :
    (g : CredentialGrant) {q : CredentialGrant}
    → make_grant g ≡ ok q
    → Auth.grant_principal q
      ≡ ok (record {
        principal_id = g.principal_id;
        kind = Auth.api_key;
        scopes = g.scopes;
        key_id = some g.key_id;
        prefixes = g.prefixes;
        machine_id = g.machine_id;
      })
unfolding make_grant Auth.grant_principal make_principal Auth.check_kind
    Auth.require_optional_identifier Auth.require_identifier
grant_principal-make_grant g h =
    elim (Result-cases (Auth.validate_grants g.scopes g.prefixes g.machine_id)) [
      | inr (_, e) ↦ absurd (ground (arith, e))
      | inl (qs, e) ↦
          let (same, w) = validate_grants-inv g.scopes g.prefixes g.machine_id e in
          let e' : Auth.validate_grants g.scopes g.prefixes g.machine_id ≡ ok g.prefixes =
            e ∙ ap ok same in
          ground (arith, e')
    ]

abbrev with_prefixes : CredentialGrant → List Text → CredentialGrant
with_prefixes g prefixes = record g { prefixes = prefixes }

-- The checks of a grant change nothing, and repeat.
pub make_grant-same : (g : CredentialGrant) {q : CredentialGrant} → make_grant g ≡ ok q → q ≡ g
unfolding make_grant
make_grant-same g {q = q} h =
    let (_, _, h1) = >>=-eq-ok (Auth.require_identifier g.principal_id) _ h in
    let (_, _, h2) = >>=-eq-ok (Auth.require_identifier g.key_id) _ h1 in
    let (_, _, h3) = >>=-eq-ok (Auth.require_optional_identifier g.machine_id) _ h2 in
    let (qs, e, h4) = >>=-eq-ok (Auth.validate_grants g.scopes g.prefixes g.machine_id) _ h3 in
    let (same, w) = validate_grants-inv g.scopes g.prefixes g.machine_id e in
    sym (ok_injective (record g { prefixes = qs }) q h4) ∙ ap (with_prefixes g) same
