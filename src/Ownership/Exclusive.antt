-- ===== src/Ownership/Exclusive.antt =====
-- The writers of a path under `register_prefix` and `_require_authorized_path` of src/ctxfs/store.py.
use ctxd.Prelude.{
  ◌≡◌, sym, ap, ◌∙◌, subst, true, false, ◌&&◌, List, [], ◌∷◌, inl, inr, ◌⊎◌, ◌≢◌, ◌==◌, nat_eq,
  list_eq, option_eq, any, Text, arith, eq_iff, Bool-cases, ok, Result-cases, In, Any-append,
  any_result, any_result-true, Time, filter, In-filter, filter-In,
}
use ctxd.Paths.{normalize_path, path_is_within_prefix, prefixes_overlap}
use ctxd.Paths.Prefix.{prefixes_overlap-common, prefixes_overlap_comm}
use ctxd.Ownership.{
  WriterPrefix, is_rival, is_own, check_rivals, insert_prefix, register_prefix,
  require_authorized_path,
}

-- Prefixes of two writers of one user do not overlap.
abbrev pub IsDisjoint : List WriterPrefix → Type 0
IsDisjoint rows =
    (r s : WriterPrefix)
    → In r rows
    → In s rows
    → r.user_id ≡ s.user_id
    → r.writer_id ≢ s.writer_id
    → prefixes_overlap r.prefix s.prefix ≡ ok false

check_rivals-In :
    (p : Text) (rows : List WriterPrefix) (s : WriterPrefix)
    → check_rivals p rows ≡ ok tt
    → In s rows
    → prefixes_overlap p s.prefix ≡ ok false
unfolding check_rivals
check_rivals-In p [] s h m = absurd m
check_rivals-In p (row ∷ rows) s h m = elim (Result-cases (prefixes_overlap p row.prefix)) [
  | inr (_, e) ↦ absurd (ground (arith, e))
  | inl (true, e) ↦ absurd (ground (arith, e))
  | inl (false, e) ↦ elim m [
    | inl here ↦ subst (λ (x : WriterPrefix). prefixes_overlap p x.prefix ≡ ok false) here e
    | inr there ↦ check_rivals-In p rows s (ground (arith, e)) there
  ]
]

insert_prefix-In :
    (row r : WriterPrefix) (rows : List WriterPrefix)
    → In r (insert_prefix row rows)
    → In r rows ⊎ (row ≡ r)
unfolding insert_prefix
insert_prefix-In row r rows m =
    elim (Bool-cases (
      any (λ x. x.user_id == row.user_id && x.writer_id == row.writer_id && x.prefix == row.prefix)
        rows)) [
          | inl e ↦ inl (rw e at m)
          | inr e ↦ elim ((Any-append (λ x. x ≡ r) rows (row ∷ [])).0 (rw e at m)) [
            | inl old ↦ inl old
            | inr new ↦ elim new [ inl here ↦ inr here | inr end ↦ absurd end ]
          ]
        ]

rival_of_ne :
    (user writer : Text) (s : WriterPrefix)
    → user ≡ s.user_id
    → writer ≢ s.writer_id
    → is_rival user writer s ≡ true
rival_of_ne user writer s e n = ground (arith, eq_iff s.user_id user, eq_iff s.writer_id writer)

module _ (new : WriterPrefix) (rows : List WriterPrefix) (d : IsDisjoint rows)
    (free : check_rivals new.prefix (filter (is_rival new.user_id new.writer_id) rows)
      ≡ ok tt) where
  apart :
      (s : WriterPrefix)
      → In s rows
      → new.user_id ≡ s.user_id
      → new.writer_id ≢ s.writer_id
      → prefixes_overlap new.prefix s.prefix ≡ ok false
  apart s m u w = check_rivals-In new.prefix _ s free (
      In-filter (is_rival new.user_id new.writer_id) rows m
        (rival_of_ne new.user_id new.writer_id s u w))

  split_cases :
      (r s : WriterPrefix)
      → In r rows ⊎ (new ≡ r)
      → In s rows ⊎ (new ≡ s)
      → r.user_id ≡ s.user_id
      → r.writer_id ≢ s.writer_id
      → prefixes_overlap r.prefix s.prefix ≡ ok false
  split_cases r s (inl m) (inl n) u w = d r s m n u w
  split_cases r s (inl m) (inr e) u w = rw (← e) (
      prefixes_overlap_comm r.prefix new.prefix
      ∙ apart r m (ap (λ (x : WriterPrefix). x.user_id) e ∙ sym u) (λ k. w (cc (k, e))))
  split_cases r s (inr e) (inl n) u w =
      rw (← e) (apart s n (ap (λ (x : WriterPrefix). x.user_id) e ∙ u) (λ k. w (cc (k, e))))
  split_cases r s (inr e) (inr f) u w = absurd (w (cc (e, f)))

  insert_prefix-IsDisjoint : IsDisjoint (insert_prefix new rows)
  insert_prefix-IsDisjoint r s m n =
      split_cases r s (insert_prefix-In new r rows m) (insert_prefix-In new s rows n)

-- A registration that succeeds keeps the prefixes of different writers apart.
pub register_prefix-IsDisjoint :
    (now : Time) (user writer prefix : Text) (rows : List WriterPrefix) {rows' : List WriterPrefix}
    → IsDisjoint rows
    → register_prefix now user writer prefix rows ≡ ok rows'
    → IsDisjoint rows'
unfolding register_prefix
register_prefix-IsDisjoint now user writer prefix rows d h =
    elim (Result-cases (normalize_path prefix)) [
      | inr (_, e) ↦ absurd (ground (arith, e))
      | inl (q, e) ↦
          let new : WriterPrefix = record {
            user_id = user;
            writer_id = writer;
            prefix = q;
            created_at = now;
          } in
          elim (Result-cases (check_rivals q (filter (is_rival user writer) rows))) [
            | inr (_, f) ↦ absurd (ground (arith, e, f))
            | inl (_, f) ↦
                let out : insert_prefix new rows ≡ _ = ground (arith, e, f) in
                subst IsDisjoint out (insert_prefix-IsDisjoint new rows d f)
          ]
    ]

authorized-In :
    (rows : List WriterPrefix) (user writer path : Text)
    → require_authorized_path rows user writer path ≡ ok tt
    → (r : WriterPrefix) × In r rows
      × (r.user_id ≡ user)
      × (r.writer_id ≡ writer)
      × (path_is_within_prefix path r.prefix ≡ ok true)
unfolding require_authorized_path
authorized-In rows user writer path h =
    elim (Result-cases (
      any_result (λ row. path_is_within_prefix path row.prefix)
        (filter (is_own user writer) rows))) [
          | inr (_, e) ↦ absurd (ground (arith, e))
          | inl (false, e) ↦ absurd (ground (arith, e))
          | inl (true, e) ↦
              let (r, m, w) = any_result-true (λ row. path_is_within_prefix path row.prefix) _ e in
              let (n, own) = filter-In (is_own user writer) rows m in
              (
                r,
                n,
                ground (arith, eq_iff r.user_id user),
                ground (arith, eq_iff r.user_id user, eq_iff r.writer_id writer),
                w,
              )
        ]

-- Where the prefixes of different writers are apart, a path of a user is authorized for one writer
-- at most.
pub require_authorized_path_unique :
    (rows : List WriterPrefix) (user writer other path : Text)
    → IsDisjoint rows
    → require_authorized_path rows user writer path ≡ ok tt
    → require_authorized_path rows user other path ≡ ok tt
    → writer ≡ other
require_authorized_path_unique rows user writer other path d h k =
    let (r, m, ru, rwriter, rp) = authorized-In rows user writer path h in
    let (s, n, su, swriter, sp) = authorized-In rows user other path k in
    elim (Bool-cases (writer == other)) [
      | inl e ↦ (eq_iff writer other).0 e
      | inr e ↦
          let differ : r.writer_id ≢ s.writer_id = λ x.
            let same : writer ≡ other = cc (x, rwriter, swriter) in
            ground (arith, e, (eq_iff writer other).1 same) in
          let apart = d r s m n (ru ∙ sym su) differ in
          absurd (ground (arith, apart, prefixes_overlap-common path r.prefix s.prefix rp sp))
    ]

-- The tables that registrations can lead to.
pub data Registered : List WriterPrefix → Type 0 where
  start : Registered []
  register :
      (now : Time) (user writer prefix : Text) {rows rows' : List WriterPrefix}
      → Registered rows
      → register_prefix now user writer prefix rows ≡ ok rows'
      → Registered rows'

Registered-IsDisjoint : {rows : List WriterPrefix} → Registered rows → IsDisjoint rows
Registered-IsDisjoint start = λ r s m n u w. absurd m
Registered-IsDisjoint (register now user writer prefix {rows = rows} past h) =
    register_prefix-IsDisjoint now user writer prefix rows (Registered-IsDisjoint past) h

-- After any registrations, in any order and for any users and writers, a path of a user is
-- authorized for one writer at most.
pub one_writer :
    (rows : List WriterPrefix) (user writer other path : Text)
    → Registered rows
    → require_authorized_path rows user writer path ≡ ok tt
    → require_authorized_path rows user other path ≡ ok tt
    → writer ≡ other
one_writer rows user writer other path past =
    require_authorized_path_unique rows user writer other path (Registered-IsDisjoint past)
