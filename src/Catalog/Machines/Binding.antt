-- ===== src/Catalog/Machines/Binding.antt =====
-- `bind_machine_credential` and `clear_machine_credential` of src/ctxfs/store.py.
use ctxd.Prelude.{
  ◌≡◌, refl, sym, ap, ◌∙◌, subst, Bool, true, false, ◌&&◌, List, [], ◌∷◌, Option, none, some, inl,
  inr, ◌⊎◌, catalog_binding_conflict_error, ◌==◌, nat_eq, list_eq, option_eq, pair_eq, Text, arith,
  eq_iff, Bool-cases, update_rows, row_count, find-passes, find-update_rows, ChangesOne,
  update_rows-ChangesOne, ok, err, ok_injective, >>=-eq-ok, guard-eq-ok, Result-cases, find,
}
use ctxd.Catalog.Machines.{MachineRow, Machine, machine_from_row, has_id, machine, fits_field}
use ctxd.Catalog.Machines.{
  bind_machine_credential, trimmed, key_taken, clear_machine_credential, clear_bound, row_count,
}
use ctxd.Catalog.Machines.Rows.{found_machine, machine-found}

abbrev pub set_key : Option Text → MachineRow → MachineRow
set_key key row = record row { credential_key_id = key }

-- The row of a machine with the given key
abbrev pub holds : Text → Text → Option Text → MachineRow → Bool
holds user id key row = has_id user id row && row.credential_key_id == key

abbrev pub with_key : Option Text → Machine → Machine
with_key key m = record m { credential_key_id = key }

-- What a bound credential changes: in the table the column credential_key_id of one row, that of this
-- machine; as the callers see it, the key of this machine, and nothing of the others.
pub record Bound (user id : Text) (before after : Option Text) (rows : List MachineRow)
    (m : Machine) (rows' : List MachineRow) : Type 0 where
  pub old : Machine
  pub was : machine user id rows ≡ ok old
  pub expected : old.credential_key_id ≡ before
  pub now : machine user id rows' ≡ ok m
  pub changed : m ≡ with_key after old
  pub one_row : ChangesOne (holds user id before) (set_key after) rows rows'
  pub others :
      (user' id' : Text)
      → (user' == user && id' == id) ≡ false
      → machine user' id' rows' ≡ machine user' id' rows

module _ (user id : Text) (before after : Option Text) where
  others_held :
      (user' id' : Text) (x : MachineRow)
      → (user' == user && id' == id) ≡ false
      → has_id user' id' x ≡ true
      → holds user id before x ≡ false
  others_held user' id' x ne e =
      let same_user : x.user_id ≡ user' = (eq_iff x.user_id user').0 (ground (arith, e)) in
      let same_id : x.machine_id ≡ id' = (eq_iff x.machine_id id').0 (ground (arith, e)) in
      let apart : (x.user_id == user && x.machine_id == id) ≡ false =
        subst (λ u. (u == user && x.machine_id == id) ≡ false) (sym same_user)
          (subst (λ i. (user' == user && i == id) ≡ false) (sym same_id) ne) in
      ground (arith, apart)

  find_other :
      (user' id' : Text) (rows : List MachineRow)
      → (user' == user && id' == id) ≡ false
      → find (has_id user' id') (update_rows (holds user id before) (set_key after) rows)
        ≡ find (has_id user' id') rows
  unfolding find update_rows
  find_other user' id' [] ne = refl
  find_other user' id' (x ∷ rows) ne = elim (Bool-cases (has_id user' id' x)) [
    | inl e ↦ ground (arith, e, others_held user' id' x ne e)
    | inr e ↦ ground (arith, e, find_other user' id' rows ne)
  ]

  machine_other :
      (user' id' : Text) (rows : List MachineRow)
      → (user' == user && id' == id) ≡ false
      → machine user' id' (update_rows (holds user id before) (set_key after) rows)
        ≡ machine user' id' rows
  unfolding machine
  machine_other user' id' rows ne = rw (find_other user' id' rows ne) refl

  update-Bound :
      (rows rows' : List MachineRow) (old m : Machine)
      → machine user id rows ≡ ok old
      → old.credential_key_id ≡ before
      → row_count (holds user id before) rows ≡ 1
      → update_rows (holds user id before) (set_key after) rows ≡ rows'
      → machine user id rows' ≡ ok m
      → Bound user id before after rows m rows'
  unfolding machine_from_row
  update-Bound rows rows' old m was expected single u now =
      let (row, f, same) = machine-found user id rows old was in
      let own : has_id user id row ≡ true = find-passes (has_id user id) rows f in
      let key : row.credential_key_id ≡ before =
        sym (ap (λ (x : Machine). x.credential_key_id) same) ∙ expected in
      let hit : holds user id before row ≡ true =
        ground (arith, own, (eq_iff row.credential_key_id before).1 key) in
      let f' : find (has_id user id) rows' ≡ some (set_key after row) =
        subst (λ x. find (has_id user id) x ≡ some (set_key after row)) u
          (find-update_rows (has_id user id) (holds user id before) (set_key after) rows row
              (λ x. refl) f
            ∙ rw hit) in
      record {
        old = old;
        was = was;
        expected = expected;
        now = now;
        one_row =
            subst (ChangesOne (holds user id before) (set_key after) rows) u
              (update_rows-ChangesOne (holds user id before) (set_key after) rows single);
        changed =
            ok_injective m (machine_from_row (set_key after row))
              (sym now ∙ found_machine user id rows' (set_key after row) f')
            ∙ ap (with_key after) (sym same);
        others = λ user' id' ne.
            subst (λ x. machine user' id' x ≡ machine user' id' rows) u
              (machine_other user' id' rows ne);
      }

module _ (user id key : Text) where
  -- A bind that succeeds has found the key that the caller expects, and changes the machine's key
  -- to the new one: in the table one row changes, the machine's, and in it the column
  -- credential_key_id alone.
  pub bind_machine_credential-Bound :
      (expected : Option Text) (rows rows' : List MachineRow) (m : Machine)
      → bind_machine_credential user id expected key rows ≡ ok (m, rows')
      → Bound user id expected (some key) rows m rows'
  unfolding bind_machine_credential
  bind_machine_credential-Bound expected rows rows' m h =
      let (_, h1) = guard-eq-ok (trimmed key) _ _ h in
      let (old, was, h2) = >>=-eq-ok (machine user id rows) _ h1 in
      let (same, h3) = guard-eq-ok (old.credential_key_id == expected) _ _ h2 in
      let test = holds user id expected in
      let after = update_rows test (set_key (some key)) rows in
      elim (Bool-cases (key_taken user id key rows)) [
        | inl t ↦ absurd (ground (arith, t, h3))
        | inr t ↦ elim (Bool-cases (row_count test rows == 1)) [
          | inr c ↦ absurd (ground (arith, t, c, h3))
          | inl c ↦
              let (_, h4) = guard-eq-ok (fits_field key) _ _ (rw (t, c) at h3) in
              elim (Result-cases (machine user id after)) [
                | inr (_, e) ↦ absurd (ground (arith, e, h4))
                | inl (new, e) ↦
                    let same_rows : after ≡ rows' = ground (arith, e, h4) in
                    let same_m : new ≡ m = ground (arith, e, h4) in
                    update-Bound user id expected (some key) rows rows' old m was
                      ((eq_iff old.credential_key_id expected).0 same) (ground (arith, c)) same_rows
                      (subst (λ x. machine user id x ≡ ok m) same_rows (e ∙ ap ok same_m))
              ]
        ]
      ]

  -- Of two callers that expect the same key the first to bind another key wins: the second, with a
  -- well-formed new key, is told that the binding has changed, and changes nothing.
  pub bind_machine_credential-race :
      (expected : Option Text) (rows rows' : List MachineRow) (m : Machine) (other : Text)
      → (some key == expected) ≡ false
      → trimmed other ≡ true
      → bind_machine_credential user id expected key rows ≡ ok (m, rows')
      → bind_machine_credential user id expected other rows' ≡ err catalog_binding_conflict_error
  unfolding bind_machine_credential
  bind_machine_credential-race expected rows rows' m other apart t h =
      let b = bind_machine_credential-Bound expected rows rows' m h in
      let key_now : m.credential_key_id ≡ some key = ap (λ x. x.credential_key_id) b.changed in
      let differs : (m.credential_key_id == expected) ≡ false = rw key_now apart in
      rw (t, b.now, differs)

  cleared-Bound :
      (rows rows' : List MachineRow) (old m : Machine)
      → machine user id rows ≡ ok old
      → clear_bound user id key old rows ≡ ok (m, rows')
      → Bound user id (some key) none rows m rows'
  unfolding clear_bound
  cleared-Bound rows rows' old m was h =
      let test = holds user id (some key) in
      let after = update_rows test (set_key none) rows in
      elim (Bool-cases (old.credential_key_id == some key)) [
        | inr t ↦ absurd (ground (arith, t, h))
        | inl t ↦ elim (Bool-cases (row_count test rows == 1)) [
          | inr c ↦ absurd (ground (arith, t, c, h))
          | inl c ↦ elim (Result-cases (machine user id after)) [
            | inr (_, e) ↦ absurd (ground (arith, t, c, e, h))
            | inl (new, e) ↦
                let same_rows : after ≡ rows' = ground (arith, t, c, e, h) in
                let same_m : new ≡ m = ground (arith, t, c, e, h) in
                update-Bound user id (some key) none rows rows' old m was
                  ((eq_iff old.credential_key_id (some key)).0 t) (ground (arith, c)) same_rows
                  (subst (λ x. machine user id x ≡ ok m) same_rows (e ∙ ap ok same_m))
          ]
        ]
      ]

  -- A clear that succeeds leaves the machine without a key. It has removed the key that the caller
  -- expects and changed no other column and no other row, or there was no key and the table is as before.
  pub clear_machine_credential-clears :
      (rows rows' : List MachineRow) (m : Machine)
      → clear_machine_credential user id key rows ≡ ok (m, rows')
      → (m.credential_key_id ≡ none)
        × (machine user id rows' ≡ ok m)
        × ((rows ≡ rows') ⊎ Bound user id (some key) none rows m rows')
  unfolding clear_machine_credential
  clear_machine_credential-clears rows rows' m h =
      let (_, h1) = guard-eq-ok (trimmed key) _ _ h in
      elim (Result-cases (machine user id rows)) [
        | inr (_, e) ↦ absurd (ground (arith, e, h1))
        | inl (old, was) ↦ elim (Bool-cases (old.credential_key_id == none)) [
          | inl n ↦
              let same_rows : rows ≡ rows' = ground (arith, was, n, h1) in
              let same_m : old ≡ m = ground (arith, was, n, h1) in
              (
                ap (λ x. x.credential_key_id) (sym same_m)
                    ∙ (eq_iff old.credential_key_id none).0 n,
                subst (λ x. machine user id x ≡ ok m) same_rows (was ∙ ap ok same_m),
                inl same_rows,
              )
          | inr n ↦
              let b = cleared-Bound rows rows' old m was (rw (was, n) at h1) in
              (ap (λ x. x.credential_key_id) b.changed, b.now, inr b)
        ]
      ]
