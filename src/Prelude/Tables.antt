-- ===== src/Prelude/Tables.antt =====
-- Tables as lists of rows: what SELECT with fetchone() finds, and what UPDATE changes.
use Prim.Native.Nat.{ℕ}
use mathlib.Core.Path.{◌≡◌, refl, subst, ap}
use mathlib.Core.Logic.{inl, inr}
use mathlib.Core.Bool.{Bool, true, false}
use mathlib.Core.Option.{none, some}
use mathlib.Core.List.{List, [], ◌∷◌, ◌++◌}
use native.Mathlib.Omega.{arith}
use ctxd.Prelude.Tests.{Bool-cases, if◌then◌else◌}
use ctxd.Prelude.Lists.{length, filter, find, any}

module _ {ℓ} {A : Type ℓ} where
  -- UPDATE ... SET ... WHERE test
  unfoldable pub update_rows : (A → Bool) → (A → A) → List A → List A
  update_rows test change [] = []
  update_rows test change (row ∷ rows) =
      (if test row then change row else row) ∷ update_rows test change rows

  -- cursor.rowcount
  unfoldable pub row_count : (A → Bool) → List A → ℕ
  row_count test rows = length (filter test rows)

  update_rows-none :
      (test : A → Bool) (change : A → A) (rows : List A)
      → row_count test rows ≡ 0
      → update_rows test change rows ≡ rows
  unfolding row_count update_rows
  update_rows-none test change [] h = refl
  update_rows-none test change (x ∷ rows) h = elim (Bool-cases (test x)) [
    | inl e ↦ absurd (ground (arith, e, h))
    | inr e ↦ rw e (ap (λ xs. x ∷ xs) (update_rows-none test change rows (rw e at h)))
  ]

  -- One row, which passes the test, is changed; the rows before and behind it stay.
  pub record ChangesOne (test : A → Bool) (change : A → A) (rows rows' : List A) : Type ℓ where
    pub front : List A
    pub row : A
    pub back : List A
    pub before : rows ≡ front ++ row ∷ back
    pub after : rows' ≡ front ++ change row ∷ back
    pub passes : test row ≡ true

  pub update_rows-ChangesOne :
      (test : A → Bool) (change : A → A) (rows : List A)
      → row_count test rows ≡ 1
      → ChangesOne test change rows (update_rows test change rows)
  unfolding row_count update_rows
  update_rows-ChangesOne test change [] h = absurd (ground (arith, h))
  update_rows-ChangesOne test change (x ∷ rows) h = elim (Bool-cases (test x)) [
    | inl e ↦
        let rest = update_rows-none test change rows (ground (arith, e, h)) in
        record {
          front = [];
          row = x;
          back = rows;
          before = refl;
          after = rw (e, rest) refl;
          passes = e;
        }
    | inr e ↦
        let c = update_rows-ChangesOne test change rows (rw e at h) in
        record {
          front = x ∷ c.front;
          row = c.row;
          back = c.back;
          before = ap (λ xs. x ∷ xs) c.before;
          after = rw e (ap (λ xs. x ∷ xs) c.after);
          passes = c.passes;
        }
  ]

  pub find-passes :
      (test : A → Bool) (rows : List A) {row : A} → find test rows ≡ some row → test row ≡ true
  unfolding find
  find-passes test [] h = absurd (ground arith)
  find-passes test (x ∷ rows) {row} h = elim (Bool-cases (test x)) [
    | inl e ↦ let same : x ≡ row = ground (arith, e, h) in subst (λ y. test y ≡ true) same e
    | inr e ↦ find-passes test rows (ground (arith, e, h))
  ]

  pub find-snoc :
      (test : A → Bool) (rows : List A) (row : A)
      → find test rows ≡ none
      → test row ≡ true
      → find test (rows ++ row ∷ []) ≡ some row
  unfolding find
  find-snoc test [] row h t = rw t
  find-snoc test (x ∷ rows) row h t = elim (Bool-cases (test x)) [
    | inl e ↦ absurd (ground (arith, e, h))
    | inr e ↦ rw e (find-snoc test rows row (ground (arith, e, h)) t)
  ]

  -- An update that leaves the test alone changes the row that the test finds.
  pub find-update_rows :
      (test where_ : A → Bool) (change : A → A) (rows : List A) (row : A)
      → ((x : A) → test (change x) ≡ test x)
      → find test rows ≡ some row
      → find test (update_rows where_ change rows) ≡ some (if where_ row then change row else row)
  unfolding find update_rows
  find-update_rows test where_ change [] row keeps h = absurd (ground arith)
  find-update_rows test where_ change (x ∷ rows) row keeps h = elim (Bool-cases (test x)) [
    | inl e ↦
        let same : x ≡ row = ground (arith, e, h) in
        subst
          (λ y.
            find test (update_rows where_ change (x ∷ rows))
            ≡ some (if where_ y then change y else y))
          same (ground (arith, e, keeps x))
    | inr e ↦ ground (arith, e, keeps x, find-update_rows test where_ change rows row keeps)
  ]

  -- What no row passes is not found.
  pub find-none : (test : A → Bool) (rows : List A) → any test rows ≡ false → find test rows ≡ none
  unfolding find
  find-none test [] h = refl
  find-none test (x ∷ rows) h = ground (arith, h, find-none test rows)

  pub find-any :
      (test : A → Bool) (rows : List A) {row : A} → find test rows ≡ some row → any test rows ≡ true
  unfolding find
  find-any test [] h = absurd (ground arith)
  find-any test (x ∷ rows) h = elim (Bool-cases (test x)) [
    | inl e ↦ ground (arith, e)
    | inr e ↦ ground (arith, e, find-any test rows (rw e at h))
  ]

  -- A row that is found stays the one found when others are added behind it.
  pub find-append :
      (test : A → Bool) (rows more : List A) {row : A}
      → find test rows ≡ some row
      → find test (rows ++ more) ≡ some row
  unfolding find
  find-append test [] more h = absurd (ground arith)
  find-append test (x ∷ rows) more h = elim (Bool-cases (test x)) [
    | inl e ↦ ground (arith, e, h)
    | inr e ↦ rw e (find-append test rows more (rw e at h))
  ]
