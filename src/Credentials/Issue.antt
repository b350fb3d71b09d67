-- ===== src/Credentials/Issue.antt =====
-- `create`, `revoke` and `rotate` of src/ctxfs/credentials.py, as `verify` sees them.
use ctxd.Prelude.{
  ◌≡◌, refl, sym, ap, ◌∙◌, subst, Bool, true, false, not, List, [], ◌∷◌, ◌++◌, Option, none, some,
  ◌==◌, if◌then◌else◌, nat_eq, list_eq, option_eq, any, all, is_empty, length, leb, Text, codes,
  arith, starts_with, has_control_character, strip, inl, inr, find-passes, find-none, find-any,
  find-append, find-snoc, find-update_rows, update_rows, row_count, Time, ok, Bool-cases,
  Option-cases, ok_injective, >>=-eq-ok, guard-eq-ok, both-eq-ok, last-eq-ok, eq_iff, eq_refl,
}
use ctxd.Auth.{ScopeSet, scope_count, CredentialGrant, make_grant}
use ctxd.Auth.Grants.{make_grant-same}
use ctxd.Credentials.{
  Credential, CredentialRow, Prepared, Draws, expired, is_some, is_key_id, is_secret, make_token,
  parse_token, validate_key_id, draw_key_id, has_key, has_live_key, replace_row, grant_of,
  requested_grant, prepared, prepare, insert, select_key, get_credential, revoke_row, coalesce,
  revoke, create, replace_key, rotate, verify_row, verify,
}
use ctxd.Credentials.Verify.{parse_token-make_token, verify_row-closed}

-- What _prepare leaves: the record that it makes, and that its grant passes the checks.
record IsPrepared (derive : Text → Text → Text) (draws : Draws) (scopes : ScopeSet)
    (prefixes : List Text) (expires_at : Option Time) (machine_id : Option Text) (p : Prepared)
    : Type 0 where
  drawn : draw_key_id draws.key_ids ≡ ok p.credential.key_id
  token : p.token ≡ make_token p.credential.key_id draws.secret
  digest : p.verifier ≡ derive p.token p.salt
  grants : make_grant (grant_of p.credential) ≡ ok (grant_of p.credential)
  scopes_kept : p.credential.scopes ≡ scopes
  prefixes_kept : p.credential.prefixes ≡ prefixes
  expiry_kept : p.credential.expires_at ≡ expires_at
  machine_kept : p.credential.machine_id ≡ machine_id
  unrevoked : p.credential.revoked_at ≡ none

draw_key_id-all :
    (test : Text → Bool) (ks : List Text) (k : Text)
    → all test ks ≡ true
    → draw_key_id ks ≡ ok k
    → test k ≡ true
unfolding draw_key_id
draw_key_id-all test [] k a h = absurd (ground arith)
draw_key_id-all test (x ∷ ks) k a h = elim (Bool-cases (starts_with x (codes "-"))) [
  | inl e ↦ draw_key_id-all test ks k (ground (arith, a)) (rw e at h)
  | inr e ↦ subst (λ y. test y ≡ true) (ok_injective x k (rw e at h)) (ground (arith, a))
]

module _ (derive : Text → Text → Text) where
  prepare-IsPrepared :
      (draws : Draws) (name : Text) (scopes : ScopeSet) (prefixes : List Text)
      (expires_at : Option Time) (machine_id rotation_from : Option Text) (p : Prepared)
      → prepare derive draws name scopes prefixes expires_at machine_id rotation_from ≡ ok p
      → IsPrepared derive draws scopes prefixes expires_at machine_id p
  unfolding prepare
  prepare-IsPrepared draws name scopes prefixes expires_at machine_id rotation_from p h =
      let (_, h1) = guard-eq-ok (not (is_empty (strip name))) _ _ h in
      let (_, h2) = guard-eq-ok (leb (length (strip name)) 128) _ _ h1 in
      let (_, h3) = guard-eq-ok (not (has_control_character (strip name))) _ _ h2 in
      let (_, h4) = guard-eq-ok (not (scope_count scopes == 0)) _ _ h3 in
      let (key_id, drawn, h4') = >>=-eq-ok (draw_key_id draws.key_ids) _ h4 in
      let (grant, made, h6) =
        >>=-eq-ok (make_grant (requested_grant key_id scopes prefixes machine_id)) _ h4' in
      let (_, h7) = guard-eq-ok (not (expired expires_at draws.now)) _ _ h6 in
      let asked = requested_grant key_id scopes prefixes machine_id in
      let same : grant ≡ asked = make_grant-same asked made in
      let build : CredentialGrant → Prepared =
        λ g. prepared derive draws key_id (strip name) g expires_at machine_id rotation_from in
      let made' : make_grant asked ≡ ok asked = made ∙ ap ok same in
      let out : build asked ≡ p = ap build (sym same) ∙ ok_injective (build grant) p h7 in
      let well : IsPrepared derive draws scopes prefixes expires_at machine_id (build asked) =
        record {
          drawn = drawn;
          token = refl;
          digest = refl;
          grants = made';
          scopes_kept = refl;
          prefixes_kept = refl;
          expiry_kept = refl;
          machine_kept = refl;
          unrevoked = refl;
        } in
      subst (IsPrepared derive draws scopes prefixes expires_at machine_id) out well

  abbrev new_row : Prepared → CredentialRow
  new_row p = record { credential = p.credential; salt = p.salt; verifier = p.verifier }

  -- The row of a prepared key accepts the key's token.
  verify_row-new :
      (draws : Draws) (scopes : ScopeSet) (prefixes : List Text) (expires_at : Option Time)
      (machine_id : Option Text) (p : Prepared) (later : Time)
      → IsPrepared derive draws scopes prefixes expires_at machine_id p
      → expired expires_at later ≡ false
      → verify_row derive p.token later (new_row p)
        ≡ ok (some (requested_grant p.credential.key_id scopes prefixes machine_id))
  unfolding verify_row
  verify_row-new draws scopes prefixes expires_at machine_id p later i x =
      let digest : (derive p.token p.salt == p.verifier) ≡ true =
        (eq_iff (derive p.token p.salt) p.verifier).1 (sym i.digest) in
      let open_ : expired p.credential.expires_at later ≡ false = rw (i.expiry_kept) x in
      rw (digest, i.unrevoked, open_, i.grants)
        (rw (i.scopes_kept, i.prefixes_kept, i.machine_kept) refl)

  parse_token-new :
      (draws : Draws) (scopes : ScopeSet) (prefixes : List Text) (expires_at : Option Time)
      (machine_id : Option Text) (p : Prepared)
      → IsPrepared derive draws scopes prefixes expires_at machine_id p
      → all is_key_id draws.key_ids ≡ true
      → is_secret draws.secret ≡ true
      → parse_token p.token ≡ some p.credential.key_id
  parse_token-new draws scopes prefixes expires_at machine_id p i ids secret = rw (i.token) (
      parse_token-make_token p.credential.key_id draws.secret
        (draw_key_id-all is_key_id draws.key_ids p.credential.key_id ids i.drawn) secret)

  select-new :
      (p : Prepared) (rows rows' : List CredentialRow)
      → insert p rows ≡ ok rows'
      → (rows ++ new_row p ∷ [] ≡ rows') × (any (has_key p.credential.key_id) rows ≡ false)
  unfolding insert
  select-new p rows rows' h =
      let (free, h1) = guard-eq-ok (not (any (has_key p.credential.key_id) rows)) _ _ h in
      (ok_injective _ _ h1, ground (arith, free))

  selected-new :
      (p : Prepared) (rows rows' : List CredentialRow)
      → insert p rows ≡ ok rows'
      → select_key p.credential.key_id rows' ≡ some (new_row p)
  selected-new p rows rows' h =
      let (same, free) = select-new p rows rows' h in
      subst (λ r. select_key p.credential.key_id r ≡ some (new_row p)) same
        (find-snoc (has_key p.credential.key_id) rows (new_row p)
          (find-none (has_key p.credential.key_id) rows free) (eq_refl p.credential.key_id))

  unstored :
      (p : Prepared) (rows : List CredentialRow) (key_id : Text) (row : CredentialRow)
      → any (has_key p.credential.key_id) rows ≡ false
      → select_key key_id rows ≡ some row
      → (p.credential.key_id == key_id) ≡ false
  unstored p rows key_id row free f = elim (Bool-cases (p.credential.key_id == key_id)) [
    | inr e ↦ e
    | inl e ↦
        let taken : any (has_key key_id) rows ≡ true = find-any (has_key key_id) rows f in
        let same : key_id ≡ p.credential.key_id = sym ((eq_iff p.credential.key_id key_id).0 e) in
        let taken' : any (has_key p.credential.key_id) rows ≡ true =
          subst (λ k. any (has_key k) rows ≡ true) same taken in
        absurd (ground (arith, free, taken'))
  ]

  inserted-verify :
      (draws : Draws) (scopes : ScopeSet) (prefixes : List Text) (expires_at : Option Time)
      (machine_id : Option Text) (p : Prepared) (rows : List CredentialRow) (later : Time)
      → IsPrepared derive draws scopes prefixes expires_at machine_id p
      → all is_key_id draws.key_ids ≡ true
      → is_secret draws.secret ≡ true
      → select_key p.credential.key_id rows ≡ some (new_row p)
      → expired expires_at later ≡ false
      → verify derive p.token later rows
        ≡ ok (some (requested_grant p.credential.key_id scopes prefixes machine_id))
  unfolding verify
  inserted-verify draws scopes prefixes expires_at machine_id p rows later i ids secret f x =
      rw (parse_token-new draws scopes prefixes expires_at machine_id p i ids secret, f)
        (verify_row-new draws scopes prefixes expires_at machine_id p later i x)

  -- In the table that the creation of a key leaves, its token is accepted at every time before it
  -- expires, with exactly the scopes and prefixes that were asked for, when the drawn ids and the
  -- secret have the form that secrets.token_urlsafe gives them.
  pub create-verify :
      (draws : Draws) (name : Text) (scopes : ScopeSet) (prefixes : List Text)
      (expires_at : Option Time) (rows rows' : List CredentialRow) (p : Prepared) (later : Time)
      → all is_key_id draws.key_ids ≡ true
      → is_secret draws.secret ≡ true
      → create derive draws name scopes prefixes expires_at rows ≡ ok (p, rows')
      → expired expires_at later ≡ false
      → verify derive p.token later rows'
        ≡ ok (some (requested_grant p.credential.key_id scopes prefixes none))
  unfolding create
  create-verify draws name scopes prefixes expires_at rows rows' p later ids secret h x =
      let (made, ins) =
        both-eq-ok (prepare derive draws name scopes prefixes expires_at none none)
          (λ q. insert q rows) h in
      let i = prepare-IsPrepared draws name scopes prefixes expires_at none none p made in
      let f = selected-new p rows rows' ins in
      inserted-verify draws scopes prefixes expires_at none p rows' later i ids secret f x

  closed-verify :
      (token key_id : Text) (later : Time) (rows : List CredentialRow) (row : CredentialRow)
      → parse_token token ≡ some key_id
      → select_key key_id rows ≡ some row
      → is_some row.credential.revoked_at ≡ true
      → verify derive token later rows ≡ ok none
  unfolding verify
  closed-verify token key_id later rows row p f r =
      rw (p, f) (verify_row-closed derive token later row (rw r refl))

  revoked_row-some : (now : Time) (r : Option Time) → is_some (coalesce r (some now)) ≡ true
  revoked_row-some now none = refl
  revoked_row-some now (some t) = refl

  get-select :
      (key_id : Text) (rows : List CredentialRow) {c : Credential}
      → get_credential key_id rows ≡ ok c
      → (row : CredentialRow) × (select_key key_id rows ≡ some row) × (row.credential ≡ c)
  unfolding get_credential
  get-select key_id rows h =
      let (_, _, h1) = >>=-eq-ok (validate_key_id key_id) _ h in
      elim (Option-cases (select_key key_id rows)) [
        | inl n ↦ absurd (ground (arith, n, h1))
        | inr (row, f) ↦ (row, f, ok_injective _ _ (rw f at h1))
      ]

  -- In the table that the revocation of a key leaves, no token with its id is accepted, at any time.
  pub revoke-verify :
      (now later : Time) (key_id token : Text) (rows rows' : List CredentialRow) (c : Credential)
      → parse_token token ≡ some key_id
      → revoke now key_id rows ≡ ok (c, rows')
      → verify derive token later rows' ≡ ok none
  unfolding revoke
  revoke-verify now later key_id token rows rows' c p h =
      let (_, _, h1) = >>=-eq-ok (validate_key_id key_id) _ h in
      let (current, got, h2) = >>=-eq-ok (get_credential key_id rows) _ h1 in
      let (_, h3) = guard-eq-ok (current.machine_id == none) _ _ h2 in
      let (_, h4) = guard-eq-ok (row_count (has_key key_id) rows == 1) _ _ h3 in
      let change : CredentialRow → CredentialRow = revoke_row now none in
      let after : List CredentialRow = update_rows (has_key key_id) change rows in
      let (_, same) = last-eq-ok (get_credential key_id after) after h4 in
      let (row, f, _) = get-select key_id rows got in
      let hit : has_key key_id row ≡ true = find-passes (has_key key_id) rows f in
      let f' : select_key key_id rows' ≡ some (change row) =
        subst (λ r. select_key key_id r ≡ some (change row)) same
          (find-update_rows (has_key key_id) (has_key key_id) change rows row (λ x. refl) f
            ∙ rw hit) in
      closed-verify token key_id later rows' (change row) p f'
        (revoked_row-some now row.credential.revoked_at)

  -- In the table that a rotation of a key leaves, the new token is accepted before the old key's
  -- expiry, with the old key's scopes and prefixes, and no token with the old id is accepted, when
  -- the drawn ids and the secret have the form that secrets.token_urlsafe gives them.
  pub rotate-verify :
      (draws : Draws) (now later : Time) (key_id token : Text) (rows rows' : List CredentialRow)
      (old : Credential) (p : Prepared)
      → all is_key_id draws.key_ids ≡ true
      → is_secret draws.secret ≡ true
      → parse_token token ≡ some key_id
      → get_credential key_id rows ≡ ok old
      → rotate derive draws now key_id rows ≡ ok (p, rows')
      → expired old.expires_at later ≡ false
      → (verify derive token later rows' ≡ ok none)
        × (verify derive p.token later rows'
            ≡ ok (some (requested_grant p.credential.key_id old.scopes old.prefixes none)))
  unfolding rotate replace_key
  rotate-verify draws now later key_id token rows rows' old p ids secret parsed got h x =
      let (_, h1) = guard-eq-ok (old.machine_id == none) _ _ (rw got at h) in
      let (fresh, h2) = guard-eq-ok (not (is_some old.revoked_at)) _ _ h1 in
      let (made, replaced) =
        both-eq-ok (prepare derive draws old.name old.scopes old.prefixes old.expires_at none none)
          (λ q. replace_key now key_id q rows) h2 in
      let i =
        prepare-IsPrepared draws old.name old.scopes old.prefixes old.expires_at none none p made in
      let (mid, ins, h3) = >>=-eq-ok (insert p rows) _ replaced in
      let (_, h4) = guard-eq-ok (row_count (has_live_key key_id) mid == 1) _ _ h3 in
      let change : CredentialRow → CredentialRow = replace_row now p.credential.key_id in
      let same : update_rows (has_live_key key_id) change mid ≡ rows' = ok_injective _ _ h4 in
      let (grown, free) = select-new p rows mid ins in
      let (row, f, is_old) = get-select key_id rows got in
      let own : has_key key_id row ≡ true = find-passes (has_key key_id) rows f in
      let live : is_some row.credential.revoked_at ≡ false =
        subst (λ c. is_some c.revoked_at ≡ false) (sym is_old) (ground (arith, fresh)) in
      let found : (k : Text) (r : CredentialRow)
          → select_key k mid ≡ some r
          → select_key k rows' ≡ some (if has_live_key key_id r then change r else r) =
        λ k r e.
          subst (λ t. select_key k t ≡ some (if has_live_key key_id r then change r else r)) same
            (find-update_rows (has_key k) (has_live_key key_id) change mid r (λ y. refl) e) in
      let old_row : select_key key_id rows' ≡ some (change row) =
        found key_id row (
          subst (λ t. select_key key_id t ≡ some row) grown (find-append (has_key key_id) rows _ f))
        ∙ rw (own, live) in
      let apart : (p.credential.key_id == key_id) ≡ false = unstored p rows key_id row free f in
      let fresh_row : select_key p.credential.key_id rows' ≡ some (new_row p) =
        found p.credential.key_id (new_row p) (selected-new p rows mid ins) ∙ rw apart in
      (
        closed-verify token key_id later rows' (change row) parsed old_row refl,
        inserted-verify draws old.scopes old.prefixes old.expires_at none p rows' later i ids secret
            fresh_row x,
      )
