-- ===== src/Catalog/Machines/Replay.antt =====
-- Repeated calls of `register_machine` of src/ctxfs/store.py.
use ctxd.Prelude.{
  ℕ, zero, suc, ◌+◌, ◌<◌, ◌≡◌, refl, ◌∙◌, subst, Bool, true, false, not, ◌&&◌, List, [], ◌∷◌, ◌++◌,
  none, some, inl, inr, ◌⊎◌, ◌==◌, nat_eq, list_eq, option_eq, pair_eq, any, length, Text, arith,
  eq_iff, eq_refl, Bool-cases, Option-cases, update_rows, find-passes, find-update_rows, find-snoc,
  Result, ok, Result-cases, Time, find, ltb,
}
use ctxd.Catalog.{suffixed_key}
use ctxd.Catalog.Machines.{
  MachineRow, Machine, Registration, Requested, machine_from_row, same_request, replay_machine,
  has_id, has_registration, recover_enrollment, replay_existing, conflicts, new_row, insert_machine,
  check_texts, register_checked, register_machine,
}
use ctxd.Catalog.Machines.Rows.{found_machine}

-- The row that stands for a registration, and the enrollment key that it is bound to.
record Stored (user registration_id : Text) (args : Registration) (requested : Requested)
    (m : Machine) (rows : List MachineRow) : Type 0 where
  row : MachineRow
  found : find (has_registration user registration_id) rows ≡ some row
  returned : m ≡ machine_from_row row
  asked : same_request row requested ≡ true
  bound : (args.enrollment_key_id ≡ none) ⊎ (row.enrollment_key_id ≡ args.enrollment_key_id)

same_request_new :
    (user id key registration_id : Text) (args : Registration) (requested : Requested) (t : Time)
    → same_request (new_row user id key registration_id args requested t) requested ≡ true
unfolding same_request
same_request_new user id key registration_id args requested t = ground (
  arith,
  eq_refl requested.name,
  eq_refl requested.description,
  eq_refl requested.platform,
  eq_refl requested.ctxd_version,
)

-- A row that is bound as the caller asks is left alone, and passes the check of its enrollment.
record Settled (user : Text) (args : Registration) (row : MachineRow) (rows : List MachineRow)
    : Type 0 where
  idle : recover_enrollment user args row rows ≡ (rows, row)
  same :
      (not (
        not (args.enrollment_key_id == none)
        && not (row.enrollment_key_id == args.enrollment_key_id)))
      ≡ true

settled :
    (user : Text) (args : Registration) (row : MachineRow) (rows : List MachineRow)
    → (args.enrollment_key_id ≡ none) ⊎ (row.enrollment_key_id ≡ args.enrollment_key_id)
    → Settled user args row rows
unfolding recover_enrollment
settled user args row rows (inl e) = record { idle = rw e; same = rw e }
settled user args row rows (inr e) = elim (Option-cases args.enrollment_key_id) [
  | inl n ↦ record { idle = rw n; same = rw n }
  | inr (k, n) ↦ record { idle = rw (e, n); same = rw (e, n) (ground (arith, eq_refl k)) }
]

-- A row that conflicts with no other is the only one of its id.
fresh_id :
    (row : MachineRow) (rows : List MachineRow)
    → any (conflicts row) rows ≡ false
    → find (has_id row.user_id row.machine_id) rows ≡ none
unfolding find conflicts
fresh_id row [] h = refl
fresh_id row (x ∷ rows) h = elim (Bool-cases (has_id row.user_id row.machine_id x)) [
  | inl e ↦ absurd (ground (arith, e, h))
  | inr e ↦ rw e (fresh_id row rows (ground (arith, h)))
]

abbrev result : Machine → List MachineRow → Result (Machine × List MachineRow)
result m rows = ok (m, rows)

the_machine :
    {m m' : Machine} {rows rows' : List MachineRow} → result m' rows' ≡ result m rows → m ≡ m'
the_machine h = ground (arith, h)

the_rows :
    {m m' : Machine} {rows rows' : List MachineRow} → result m' rows' ≡ result m rows → rows' ≡ rows
the_rows h = ground (arith, h)

module _ (user registration_id : Text) (args : Registration) (requested : Requested) where
  -- Over a stored row the replay changes nothing.
  replay_existing-Stored :
      (m : Machine) (rows : List MachineRow) (s : Stored user registration_id args requested m rows)
      → replay_existing user args requested s.row rows ≡ ok (m, rows)
  unfolding replay_existing replay_machine
  replay_existing-Stored m rows s =
      let t = settled user args s.row rows s.bound in rw (t.idle, t.same, s.asked, s.returned)

  replay_existing-stores :
      (existing : MachineRow) (rows rows' : List MachineRow) (m : Machine)
      → find (has_registration user registration_id) rows ≡ some existing
      → replay_existing user args requested existing rows ≡ ok (m, rows')
      → Stored user registration_id args requested m rows'
  unfolding replay_existing recover_enrollment replay_machine
  replay_existing-stores existing rows rows' m f h = elim (Option-cases args.enrollment_key_id) [
    | inl n ↦
        let same : rows ≡ rows' = ground (arith, n, h) in
        record {
          row = existing;
          found =
              subst (λ x. find (has_registration user registration_id) x ≡ some existing) same f;
          returned = ground (arith, n, h);
          asked = ground (arith, n, h);
          bound = inl n;
        }
    | inr (k, n) ↦
        elim (Bool-cases (existing.enrollment_key_id == none && args.enrollment_recovered)) [
          | inl r ↦
              let test : MachineRow → Bool =
                λ row. has_id user existing.machine_id row && row.enrollment_key_id == none in
              let change : MachineRow → MachineRow =
                λ row. record row { enrollment_key_id = args.enrollment_key_id } in
              let same : update_rows test change rows ≡ rows' = ground (arith, n, r, h) in
              let own : has_registration user registration_id existing ≡ true =
                find-passes _ rows f in
              let hit : test existing ≡ true =
                ground (arith, r, own, eq_refl existing.machine_id) in
              record {
                row = change existing;
                found =
                    subst
                      (λ x. find (has_registration user registration_id) x ≡ some (change existing))
                      same
                      (find-update_rows (has_registration user registration_id) test change rows
                          existing (λ x. refl) f
                        ∙ rw hit);
                returned = ground (arith, n, r, h);
                asked = ground (arith, n, r, h);
                bound = inr refl;
              }
          | inr r ↦
              let same : rows ≡ rows' = ground (arith, n, r, h) in
              let agrees : (existing.enrollment_key_id == args.enrollment_key_id) ≡ true =
                ground (arith, n, r, h) in
              record {
                row = existing;
                found =
                    subst (λ x. find (has_registration user registration_id) x ≡ some existing) same
                      f;
                returned = ground (arith, n, r, h);
                asked = ground (arith, n, r, h);
                bound = inr ((eq_iff existing.enrollment_key_id args.enrollment_key_id).0 agrees);
              }
        ]
  ]

  insert_machine-stores :
      (uuid : ℕ → Text) (t : Time) (fuel suffix : ℕ) (base : Text) (rows rows' : List MachineRow)
      (m : Machine)
      → find (has_registration user registration_id) rows ≡ none
      → insert_machine uuid user registration_id args requested t fuel suffix base rows
        ≡ ok (m, rows')
      → Stored user registration_id args requested m rows'
  unfolding insert_machine
  insert_machine-stores uuid t zero suffix base rows rows' m f h = absurd (ground arith)
  insert_machine-stores uuid t (suc fuel) suffix base rows rows' m f h =
      let row =
        new_row user (uuid suffix) (suffixed_key base suffix) registration_id args requested t in
      elim (Bool-cases (any (conflicts row) rows)) [
        | inl c ↦
            insert_machine-stores uuid t fuel (suffix + 1) base rows rows' m f (rw (c, f) at h)
        | inr c ↦
            let here : find (has_id user (uuid suffix)) (rows ++ row ∷ []) ≡ some row =
              find-snoc (has_id user (uuid suffix)) rows row (fresh_id row rows c)
                (ground (arith, eq_refl user, eq_refl (uuid suffix))) in
            let out = rw (c, found_machine user (uuid suffix) (rows ++ row ∷ []) row here) at h in
            record {
              row = row;
              found =
                  subst (λ x. find (has_registration user registration_id) x ≡ some row)
                    (the_rows out)
                    (find-snoc (has_registration user registration_id) rows row f
                      (ground (arith, eq_refl user, eq_refl registration_id)));
              returned = the_machine out;
              asked =
                  same_request_new user (uuid suffix) (suffixed_key base suffix) registration_id
                    args requested t;
              bound = inr refl;
            }
      ]

module _ (nfkd : Text → Text) (user : Text) (args : Registration) where
  register_checked-stores :
      (uuid : ℕ → Text) (t : Time) (registration_id : Text) (requested : Requested)
      (rows rows' : List MachineRow) (m : Machine)
      → register_checked nfkd uuid user args t (registration_id, requested) rows ≡ ok (m, rows')
      → Stored user registration_id args requested m rows'
  unfolding register_checked
  register_checked-stores uuid t registration_id requested rows rows' m h =
      elim (Option-cases (find (has_registration user registration_id) rows)) [
        | inl e ↦
            insert_machine-stores user registration_id args requested uuid t (length rows + 2) 1 _
              rows rows' m e (rw (register_checked, e) at h)
        | inr (existing, e) ↦
            replay_existing-stores user registration_id args requested existing rows rows' m e
              (rw (register_checked, e) at h)
      ]

  register_checked-Stored :
      (uuid : ℕ → Text) (t : Time) (registration_id : Text) (requested : Requested)
      (rows : List MachineRow) (m : Machine)
      → Stored user registration_id args requested m rows
      → register_checked nfkd uuid user args t (registration_id, requested) rows ≡ ok (m, rows)
  unfolding register_checked
  register_checked-Stored uuid t registration_id requested rows m s =
      rw (register_checked, s.found)
        (replay_existing-Stored user registration_id args requested m rows s)

  -- A registration that has succeeded succeeds again, at any later time and whatever ids are drawn:
  -- it returns the same machine and leaves the table as it is.
  pub register_machine-replay :
      (uuid uuid' : ℕ → Text) (t t' : Time) (rows rows' : List MachineRow) (m : Machine)
      → 0 < t'
      → register_machine nfkd uuid user args t rows ≡ ok (m, rows')
      → register_machine nfkd uuid' user args t' rows' ≡ ok (m, rows')
  unfolding register_machine
  register_machine-replay uuid uuid' t t' rows rows' m p h =
      elim (Result-cases (check_texts args)) [
        | inr (_, e) ↦ absurd (ground (arith, e, h))
        | inl ((registration_id, requested), e) ↦ elim (Bool-cases (ltb 0 t)) [
          | inr l ↦ absurd (ground (arith, e, l, h))
          | inl l ↦
              let positive : ltb 0 t' ≡ true = ground (arith, p) in
              rw (e, positive)
                (register_checked-Stored uuid' t' registration_id requested rows' m (
                  register_checked-stores uuid t registration_id requested rows rows' m
                    (rw (e, l) at h)))
        ]
      ]
