-- ===== src/Coordinator/Current.antt =====
-- The callers of the coordinator of src/ctxfs/enrollment.py, and the catalog that a call leaves.
use ctxd.Prelude.{
  ◌≡◌, refl, sym, ap, ◌∙◌, subst, Bool, true, false, not, ◌&&◌, List, [], ◌∷◌, Option, none, some,
  ◌==◌, nat_eq, list_eq, option_eq, Text, Time, arith, eq_iff, Bool-cases, Option-cases,
  Result-cases, Result, ok, err, ok_injective, Error, machine_credential_not_current_error, inl,
  inr,
}
use ctxd.Auth.{Principal}
use ctxd.Credentials.{Draws, active, get_credential, revoke_machine_key, Credential, CredentialRow}
use ctxd.Catalog.Machines.{
  MachineRow, Machine, machine, bind_machine_credential, clear_machine_credential,
}
use ctxd.Catalog.Machines.Binding.{
  Bound, bind_machine_credential-Bound, clear_machine_credential-clears,
}
use ctxd.Coordinator.{
  Ledger, Step, continue, answered, committed, with_keys, commit, keys, return, require_current,
  is_machine_credential, may_retry, is_predecessor, retry_rotation, switch_key, confirm_rotation,
  revoke_bound, revoke_others, revoke, prepare_rotation,
}

abbrev kept {ℓ} : {A : Type ℓ} → A → Ledger → A × Ledger
kept a ledger = (a, ledger)

abbrev answer {ℓ} :
    {A : Type ℓ} → List MachineRow → Result (A × Ledger) → List MachineRow × Result (A × Ledger)
answer catalog r = (catalog, r)

module _ {A : Type 0} where
  -- No call that has raised has returned.
  raised :
      {e : Error} {catalog catalog' : List MachineRow} {a : A} {ledger : Ledger} {P : Type 0}
      → answer catalog (err e) ≡ answer catalog' (ok (kept a ledger))
      → P
  raised h = absurd (ground (arith, ap (λ x. x.1) h))

  committed-eq-ok :
      (r : Result (A × List MachineRow)) (catalog catalog' : List MachineRow)
      (ledger ledger' : Ledger) (a : A)
      → committed catalog ledger r ≡ answer catalog' (ok (kept a ledger'))
      → r ≡ ok (a, catalog')
  committed-eq-ok (ok (b, c)) catalog catalog' ledger ledger' a h = ground (arith, h)
  committed-eq-ok (err e) catalog catalog' ledger ledger' a h = raised h

  answered-eq-ok :
      (r : Result A) (catalog catalog' : List MachineRow) (ledger ledger' : Ledger) (a : A)
      → answered catalog ledger r ≡ answer catalog' (ok (kept a ledger'))
      → (r ≡ ok a) × (catalog ≡ catalog') × (ledger ≡ ledger')
  answered-eq-ok (ok b) catalog catalog' ledger ledger' a h =
      (ground (arith, h), ground (arith, h), ground (arith, h))
  answered-eq-ok (err e) catalog catalog' ledger ledger' a h = raised h

  with_keys-catalog :
      (r : Result (A × List CredentialRow)) (catalog : List MachineRow) (ledger : Ledger)
      → (with_keys catalog ledger r).0 ≡ catalog
  with_keys-catalog (ok (b, c)) catalog ledger = refl
  with_keys-catalog (err e) catalog ledger = refl

module _ {A B : Type 0} where
  continue-eq-ok :
      (f : A → Step B) (x : List MachineRow × Result (A × Ledger)) (b : B)
      (catalog' : List MachineRow) (ledger' : Ledger)
      → continue f x ≡ answer catalog' (ok (kept b ledger'))
      → (a : A) × (catalog : List MachineRow) × (ledger : Ledger) × (x
          ≡ answer catalog (ok (kept a ledger)))
        × (f a catalog ledger ≡ answer catalog' (ok (kept b ledger')))
  continue-eq-ok f (catalog, ok (a, ledger)) b catalog' ledger' h = (a, catalog, ledger, refl, h)
  continue-eq-ok f (catalog, err e) b catalog' ledger' h = raised h

module _ (principal : Principal) (user_id machine_id : Text) (catalog : List MachineRow)
    (m : Machine) where
  -- _require_current on a principal that is neither an administrator nor the holder of the key that
  -- the machine is bound to.
  require_current-superseded :
      (allow_cleared : Bool)
      → machine user_id machine_id catalog ≡ ok m
      → principal.scopes.has_admin ≡ false
      → (m.credential_key_id == principal.key_id) ≡ false
      → (m.credential_key_id == none) ≡ false
      → require_current user_id principal machine_id allow_cleared catalog
        ≡ err machine_credential_not_current_error
  unfolding require_current
  require_current-superseded allow_cleared found plain other bound =
      rw (require_current, found, plain, other, bound) (ground arith)

module _ (derive : Text → Text → Text) (draws : Draws) (now : Time) (principal : Principal)
    (user_id machine_id replacement : Text) (catalog : List MachineRow) (ledger : Ledger)
    (m : Machine) where
  -- While a machine is bound to a key, a principal that holds another key and is no admin can
  -- neither rotate nor revoke the machine's credential: each of the three calls is refused, and the
  -- catalog is as before.
  pub superseded-refused :
      machine user_id machine_id catalog ≡ ok m
      → principal.scopes.has_admin ≡ false
      → (m.credential_key_id == principal.key_id) ≡ false
      → (m.credential_key_id == none) ≡ false
      → (prepare_rotation derive user_id draws now principal machine_id catalog ledger
          ≡ (catalog, err machine_credential_not_current_error))
        × (confirm_rotation user_id now principal machine_id replacement catalog ledger
            ≡ (catalog, err machine_credential_not_current_error))
        × (revoke user_id now principal machine_id catalog ledger
            ≡ (catalog, err machine_credential_not_current_error))
  unfolding prepare_rotation confirm_rotation revoke
  superseded-refused found plain other bound =
      let strict =
        require_current-superseded principal user_id machine_id catalog m false found plain other
          bound in
      let cleared =
        require_current-superseded principal user_id machine_id catalog m true found plain other
          bound in
      (rw strict, rw strict, rw cleared)

revoke_others-catalog :
    (now : Time) (machine_id : Text) (key : Option Text) (cs : List Credential)
    (catalog : List MachineRow) (ledger : Ledger)
    → (revoke_others now machine_id key cs catalog ledger).0 ≡ catalog
unfolding revoke_others
revoke_others-catalog now machine_id key [] catalog ledger = refl
revoke_others-catalog now machine_id key (c ∷ cs) catalog ledger =
    elim (Bool-cases (not (some c.key_id == key) && active c now)) [
      | inr e ↦ rw (revoke_others, e) (revoke_others-catalog now machine_id key cs catalog ledger)
      | inl e ↦ elim (Result-cases (revoke_machine_key now c.key_id machine_id none ledger.rows)) [
        | inr (_, r) ↦ rw (revoke_others, e, r) refl
        | inl ((_, rows), r) ↦
            rw (revoke_others, e, r)
              (revoke_others-catalog now machine_id key cs catalog (record ledger { rows = rows }))
      ]
    ]

require_current-machine :
    (user_id : Text) (principal : Principal) (machine_id : Text) (allow_cleared : Bool)
    (catalog : List MachineRow) {m : Machine}
    → require_current user_id principal machine_id allow_cleared catalog ≡ ok m
    → machine user_id machine_id catalog ≡ ok m
unfolding require_current
require_current-machine user_id principal machine_id allow_cleared catalog h =
    elim (Result-cases (machine user_id machine_id catalog)) [
      | inr (_, e) ↦ absurd (ground (arith, rw (require_current, e) at h))
      | inl (old, e) ↦ ground (arith, e, rw (require_current, e) at h)
    ]

module _ (user_id : Text) (now : Time) (machine_id : Text) (catalog catalog' : List MachineRow)
    (ledger ledger' : Ledger) (m : Machine) where
  revoke_bound-clears :
      (old : Machine) (key : Option Text)
      → machine user_id machine_id catalog ≡ ok old
      → old.credential_key_id ≡ key
      → revoke_bound user_id now machine_id old key catalog ledger
        ≡ answer catalog' (ok (kept m ledger'))
      → (machine user_id machine_id catalog' ≡ ok m) × (m.credential_key_id ≡ none)
  revoke_bound-clears old none found k h =
      let (_, c, l, x, e) = continue-eq-ok (λ _. return old) _ m catalog' ledger' h in
      let same : catalog ≡ catalog' =
        sym (revoke_others-catalog now machine_id none _ catalog ledger)
        ∙ ap (λ y. y.0) x
        ∙ ap (λ y. y.0) e in
      let (is_old, _, _) = answered-eq-ok (ok old) c catalog' l ledger' m e in
      let is_old' : old ≡ m = ok_injective old m is_old in
      (
        subst (λ y. machine user_id machine_id y ≡ ok m) same (found ∙ is_old),
        ap (λ y. y.credential_key_id) (sym is_old') ∙ k,
      )
  revoke_bound-clears old (some key_id) found k h =
      let (_, c, l, x, e) =
        continue-eq-ok (λ _. commit (clear_machine_credential user_id machine_id key_id))
          (keys (revoke_machine_key now key_id machine_id none) catalog ledger) m catalog' ledger'
          h in
      let done =
        committed-eq-ok (clear_machine_credential user_id machine_id key_id c) c catalog' l ledger'
          m e in
      let (gone, now_, _) =
        clear_machine_credential-clears user_id machine_id key_id c catalog' m done in
      (now_, gone)

-- What a step that only reads and revokes, and then returns the machine, has left.
record Unmoved (old m : Machine) (catalog catalog' : List MachineRow) : Type 0 where
  machine_same : old ≡ m
  catalog_same : catalog ≡ catalog'

unmoved :
    (old m : Machine) (catalog catalog' : List MachineRow) (ledger ledger' : Ledger)
    → answer catalog (ok (kept old ledger)) ≡ answer catalog' (ok (kept m ledger'))
    → Unmoved old m catalog catalog'
unmoved old m catalog catalog' ledger ledger' h =
    let (is_old, same, _) = answered-eq-ok (ok old) catalog catalog' ledger ledger' m h in
    record { machine_same = ok_injective old m is_old; catalog_same = same }

module _ (now : Time) (principal : Principal) (machine_id replacement : Text)
    (catalog catalog' : List MachineRow) (ledger ledger' : Ledger) (old m : Machine) where
  retry_rotation-Unmoved :
      retry_rotation now principal machine_id replacement old catalog ledger
        ≡ answer catalog' (ok (kept m ledger'))
      → Unmoved old m catalog catalog'
  unfolding retry_rotation
  retry_rotation-Unmoved h = elim (Result-cases (get_credential replacement ledger.rows)) [
    | inr (_, e) ↦ raised (rw (retry_rotation, e) at h)
    | inl (c, e) ↦ elim (Bool-cases (is_machine_credential now c old)) [
      | inr i ↦ raised (rw (retry_rotation, e, i) at h)
      | inl i ↦ elim (Bool-cases (may_retry principal c replacement)) [
        | inr a ↦ raised (rw (retry_rotation, e, i, a) at h)
        | inl a ↦ elim (Option-cases c.rotation_from) [
          | inl n ↦ raised (rw (retry_rotation, e, i, a, n) at h)
          | inr (k, n) ↦ elim (Result-cases (get_credential k ledger.rows)) [
            | inr (_, g) ↦ raised (rw (retry_rotation, e, i, a, n, g) at h)
            | inl (p, g) ↦ elim (Bool-cases (is_predecessor now machine_id replacement p)) [
              | inr w ↦ raised (rw (retry_rotation, e, i, a, n, g, w) at h)
              | inl w ↦ elim (Bool-cases (active p now)) [
                | inr d ↦
                    unmoved old m catalog catalog' ledger ledger'
                      (rw (retry_rotation, e, i, a, n, g, w, d) at h)
                | inl d ↦
                    elim (Result-cases
                      (revoke_machine_key now p.key_id machine_id (some replacement) ledger.rows)) [
                        | inr (_, r) ↦ raised (rw (retry_rotation, e, i, a, n, g, w, d, r) at h)
                        | inl ((_, rows), r) ↦
                            unmoved old m catalog catalog' (record ledger { rows = rows }) ledger'
                              (rw (retry_rotation, e, i, a, n, g, w, d, r) at h)
                      ]
              ]
            ]
          ]
        ]
      ]
    ]
  ]

module _ (user_id : Text) (now : Time) (machine_id replacement : Text)
    (catalog catalog' : List MachineRow) (ledger ledger' : Ledger) (old m : Machine) where
  switch_key-Bound :
      switch_key user_id now machine_id replacement old catalog ledger
        ≡ answer catalog' (ok (kept m ledger'))
      → Bound user_id machine_id old.credential_key_id (some replacement) catalog m catalog'
  unfolding switch_key
  switch_key-Bound h = elim (Result-cases (get_credential replacement ledger.rows)) [
    | inr (_, e) ↦ raised (rw (switch_key, e) at h)
    | inl (c, e) ↦ elim (Bool-cases (is_machine_credential now c old)) [
      | inr i ↦ raised (rw (switch_key, e, i) at h)
      | inl i ↦ elim (Option-cases old.credential_key_id) [
        | inl n ↦ raised (rw (switch_key, e, i, n) at h)
        | inr (k, n) ↦ elim (Bool-cases (c.rotation_from == some k)) [
          | inr f ↦ raised (rw (switch_key, e, i, n, f) at h)
          | inl f ↦
              elim (Result-cases
                (bind_machine_credential user_id machine_id (some k) replacement catalog)) [
                  | inr (_, b) ↦ raised (rw (switch_key, e, i, n, f, b) at h)
                  | inl ((bound, after), b) ↦
                      elim (Result-cases
                        (revoke_machine_key now k machine_id (some replacement) ledger.rows)) [
                          | inr (_, r) ↦ raised (rw (switch_key, e, i, n, f, b, r) at h)
                          | inl ((_, rows), r) ↦
                              let u =
                                unmoved bound m after catalog' (record ledger { rows = rows })
                                  ledger' (rw (switch_key, e, i, n, f, b, r) at h) in
                              subst
                                (λ y.
                                  Bound user_id machine_id y (some replacement) catalog m catalog')
                                (sym n)
                                (subst
                                  (λ y.
                                    Bound user_id machine_id (some k) (some replacement) catalog y
                                      catalog')
                                  (u.machine_same)
                                  (subst
                                    (Bound user_id machine_id (some k) (some replacement) catalog
                                      bound)
                                    (u.catalog_same)
                                    (bind_machine_credential-Bound user_id machine_id replacement
                                      (some k) catalog after bound b)))
                        ]
                ]
        ]
      ]
    ]
  ]

module _ (user_id : Text) (now : Time) (principal : Principal) (machine_id : Text)
    (catalog catalog' : List MachineRow) (ledger ledger' : Ledger) (m : Machine) where
  -- A revocation that succeeds returns the machine as the catalog then has it, without a credential.
  pub revoke-clears :
      revoke user_id now principal machine_id catalog ledger ≡ (catalog', ok (m, ledger'))
      → (machine user_id machine_id catalog' ≡ ok m) × (m.credential_key_id ≡ none)
  unfolding revoke
  revoke-clears h =
      elim (Result-cases (require_current user_id principal machine_id true catalog)) [
        | inr (e, r) ↦ raised (rw (revoke, r) at h)
        | inl (old, r) ↦
            revoke_bound-clears user_id now machine_id catalog catalog' ledger ledger' m old
              old.credential_key_id
              (require_current-machine user_id principal machine_id true catalog r) refl
              (rw (revoke, r) at h)
      ]

  -- A confirmation that succeeds returns the machine as the catalog then has it, bound to the
  -- replacement key: on the first call, and on the retry of a call that was cut off in between.
  pub confirm_rotation-binds :
      (replacement : Text)
      → confirm_rotation user_id now principal machine_id replacement catalog ledger
        ≡ (catalog', ok (m, ledger'))
      → (machine user_id machine_id catalog' ≡ ok m) × (m.credential_key_id ≡ some replacement)
  unfolding confirm_rotation
  confirm_rotation-binds replacement h =
      elim (Result-cases (require_current user_id principal machine_id false catalog)) [
        | inr (e, r) ↦ raised (rw (confirm_rotation, r) at h)
        | inl (old, r) ↦ elim (Bool-cases (old.credential_key_id == some replacement)) [
          | inl same ↦
              let u =
                retry_rotation-Unmoved now principal machine_id replacement catalog catalog' ledger
                  ledger' old m (rw (confirm_rotation, r, same) at h) in
              let found = require_current-machine user_id principal machine_id false catalog r in
              (
                subst (λ y. machine user_id machine_id y ≡ ok m) (u.catalog_same)
                    (found ∙ ap ok (u.machine_same)),
                ap (λ y. y.credential_key_id) (sym (u.machine_same))
                    ∙ (eq_iff old.credential_key_id (some replacement)).0 same,
              )
          | inr other ↦
              let b =
                switch_key-Bound user_id now machine_id replacement catalog catalog' ledger ledger'
                  old m (rw (confirm_rotation, r, other) at h) in
              (b.now, ap (λ y. y.credential_key_id) b.changed)
        ]
      ]
