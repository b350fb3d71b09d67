-- ===== src/Credentials/Verify.antt =====
-- The tokens that `verify` of src/ctxfs/credentials.py accepts.
use ctxd.Prelude.{
  ◌≡◌, refl, sym, ap, ◌∙◌, subst, true, false, ◌||◌, List, [], ◌∷◌, none, some, ◌==◌, nat_eq,
  list_eq, option_eq, all, Text, codes, Free, arith, split, split-join, join, inl, inr, find-passes,
  Time, ok, Bool-cases, Option-cases, >>=-eq-ok, eq_iff, list_beq,
}
use ctxd.Auth.{CredentialGrant, make_grant}
use ctxd.Auth.Grants.{make_grant-same}
use ctxd.Credentials.{
  CredentialRow, expired, is_some, is_token_character, is_key_id, is_secret, make_token,
  parse_token, has_key, grant_of, select_key, verify_row, verify,
}

some_injective : {a b : CredentialGrant} → ok (some a) ≡ ok (some b) → b ≡ a
some_injective h = ground (arith, h)

token_characters-Free : (s : Text) → all is_token_character s ≡ true → Free b'.' s
token_characters-Free [] h = tt
token_characters-Free (c ∷ s) h = (ground (arith, h), token_characters-Free s (ground (arith, h)))

-- Every token made of an id and a secret of the two patterns parses to its id.
pub parse_token-make_token :
    (key_id secret : Text)
    → is_key_id key_id ≡ true
    → is_secret secret ≡ true
    → parse_token (make_token key_id secret) ≡ some key_id
unfolding parse_token is_key_id is_secret join list_beq
parse_token-make_token key_id secret k s =
    let parts : split b'.' (make_token key_id secret) ≡ codes "ctxfs" ∷ key_id ∷ secret ∷ [] =
      split-join b'.' (codes "ctxfs") (key_id ∷ secret ∷ []) (
        token_characters-Free (codes "ctxfs") refl,
        (
          token_characters-Free key_id (ground (arith, k)),
          (token_characters-Free secret (ground (arith, s)), tt),
        ),
      ) in
    rw (parts, k, s)

-- A grant comes from a row.
pub record Verified (derive : Text → Text → Text) (token : Text) (now : Time)
    (rows : List CredentialRow) (g : CredentialGrant) : Type 0 where
  row : CredentialRow
  parsed : parse_token token ≡ some row.credential.key_id
  stored : select_key row.credential.key_id rows ≡ some row
  digest : derive token row.salt ≡ row.verifier
  unrevoked : row.credential.revoked_at ≡ none
  unexpired : expired row.credential.expires_at now ≡ false
  granted : g ≡ grant_of row.credential

module _ (derive : Text → Text → Text) where
  verified :
      (token : Text) (now : Time) (rows : List CredentialRow) (g : CredentialGrant) (key_id : Text)
      (row : CredentialRow)
      → parse_token token ≡ some key_id
      → select_key key_id rows ≡ some row
      → verify_row derive token now row ≡ ok (some g)
      → Verified derive token now rows g
  unfolding verify_row
  verified token now rows g key_id row p f h =
      let same : row.credential.key_id ≡ key_id =
        (eq_iff row.credential.key_id key_id).0 (find-passes (has_key key_id) rows f) in
      elim (Bool-cases (derive token row.salt == row.verifier)) [
        | inr d ↦ absurd (ground (arith, d, h))
        | inl d ↦ elim (Bool-cases (is_some row.credential.revoked_at)) [
          | inl r ↦ absurd (ground (arith, d, r, h))
          | inr r ↦ elim (Bool-cases (expired row.credential.expires_at now)) [
            | inl x ↦ absurd (ground (arith, d, r, x, h))
            | inr x ↦
                let (q, e, k) = >>=-eq-ok (make_grant _) _ (rw (d, r, x) at h) in
                record {
                  row = row;
                  parsed = p ∙ ap some (sym same);
                  stored = subst (λ y. select_key y rows ≡ some row) (sym same) f;
                  digest = (eq_iff (derive token row.salt) row.verifier).0 d;
                  unrevoked = ground (arith, r);
                  unexpired = x;
                  granted = some_injective k ∙ make_grant-same _ e;
                }
          ]
        ]
      ]

  -- Verification grants what the row of the token's own id holds, with its digest matched, and only
  -- while the row is neither revoked nor expired.
  pub verify_sound :
      (token : Text) (now : Time) (rows : List CredentialRow) (g : CredentialGrant)
      → verify derive token now rows ≡ ok (some g)
      → Verified derive token now rows g
  unfolding verify
  verify_sound token now rows g h = elim (Option-cases (parse_token token)) [
    | inl n ↦ absurd (ground (arith, n, h))
    | inr (key_id, p) ↦ elim (Option-cases (select_key key_id rows)) [
      | inl n ↦ absurd (ground (arith, p, n, h))
      | inr (row, f) ↦ verified token now rows g key_id row p f (rw (p, f) at h)
    ]
  ]

  -- The token of a revoked or expired row is not accepted.
  pub verify_row-closed :
      (token : Text) (now : Time) (row : CredentialRow)
      → (is_some row.credential.revoked_at || expired row.credential.expires_at now) ≡ true
      → verify_row derive token now row ≡ ok none
  unfolding verify_row
  verify_row-closed token now row h = ground (arith, h)
