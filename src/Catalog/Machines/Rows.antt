-- ===== src/Catalog/Machines/Rows.antt =====
-- Rows of the table `machines` of src/ctxfs/store.py, as `machine` finds them.
use ctxd.Prelude.{
  ◌≡◌, refl, List, some, inl, inr, nat_eq, list_eq, option_eq, pair_eq, Text, arith, Option-cases,
  ok, find,
}
use ctxd.Catalog.Machines.{MachineRow, Machine, machine_from_row, has_id, machine}

pub found_machine :
    (user id : Text) (rows : List MachineRow) (row : MachineRow)
    → find (has_id user id) rows ≡ some row
    → machine user id rows ≡ ok (machine_from_row row)
unfolding machine
found_machine user id rows row f = rw f refl

pub machine-found :
    (user id : Text) (rows : List MachineRow) (m : Machine)
    → machine user id rows ≡ ok m
    → (row : MachineRow) × (find (has_id user id) rows ≡ some row) × (m ≡ machine_from_row row)
unfolding machine
machine-found user id rows m h = elim (Option-cases (find (has_id user id) rows)) [
  | inl e ↦ absurd (ground (arith, e, h))
  | inr (row, e) ↦ (row, e, ground (arith, e, h))
]
