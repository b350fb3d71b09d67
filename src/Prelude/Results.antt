-- ===== src/Prelude/Results.antt =====
-- Raised exceptions as values. The message texts are not modelled.
use mathlib.Core.Path.{ap, subst, ◌≡◌, refl}
use mathlib.Core.Logic.{◌⊎◌, inl, inr}
use mathlib.Core.Bool.{Bool, true, false}
use mathlib.Core.List.{List, [], ◌∷◌}
use mathlib.Core.Option.{Option, none, some}
use Prim.Native.Nat.{ℕ}
use native.Mathlib.Omega.{arith}
use ctxd.Prelude.Tests.{if◌then◌else◌}
use ctxd.Prelude.Lists.{In}

-- `out_of_fuel` belongs to the model only.
pub data Error : Type 0 where
  value_error key_error permission_error file_exists_error : Error
  prefix_authorization_error content_hash_mismatch_error : Error
  catalog_conflict_error catalog_binding_conflict_error : Error
  enrollment_consumed_error machine_credential_lifecycle_error
        machine_credential_not_current_error :
      Error
  assertion_error integrity_error file_not_found_error os_error runtime_error : Error
  out_of_fuel : Error

pub data Result {ℓ} (A : Type ℓ) : Type ℓ where
  ok : A → Result A
  err : Error → Result A

pub Result-cases {ℓ} :
    {A : Type ℓ} (r : Result A) → ((a : A) × (r ≡ ok a)) ⊎ ((e : Error) × (r ≡ err e))
Result-cases (ok a) = inl (a, refl)
Result-cases (err e) = inr (e, refl)

-- `if not condition: raise error`
abbrev pub guard : Bool → Error → Result (Unit {0})
guard false error = err error
guard true error = ok tt

infixl 5 ◌>>=◌ ◌>>◌
-- The next step gets the value of the last one, and a raised error ends the run.
abbrev pub ◌>>=◌ {ℓ κ} : {A : Type ℓ} {B : Type κ} → Result A → (A → Result B) → Result B
err error >>= next = err error
ok value >>= next = next value

-- Inversion of a step that has a successor.
pub >>=-eq-ok {ℓ κ} :
    {A : Type ℓ} {B : Type κ} (step : Result A) (next : A → Result B) {b : B}
    → (step >>= next) ≡ ok b
    → (a : A) × (step ≡ ok a) × (next a ≡ ok b)
>>=-eq-ok (err error) next run = cc
>>=-eq-ok (ok value) next run = (value, refl, run)

-- A step whose value is discarded
abbrev pub ◌>>◌ {ℓ} : {B : Type ℓ} → Result (Unit {0}) → Result B → Result B
step >> rest = step >>= λ _. rest

-- tuple(f(x) for x in xs), stopping at the first raise
unfoldable pub map_result {ℓ κ} :
    {A : Type ℓ} {B : Type κ} → (A → Result B) → List A → Result (List B)
map_result f [] = ok []
map_result f (x ∷ xs) = do y ← f x; ys ← map_result f xs; ok (y ∷ ys)

-- any(f(x) for x in xs), stopping at the first raise or the first true
unfoldable pub any_result {ℓ} : {A : Type ℓ} → (A → Result Bool) → List A → Result Bool
any_result f [] = ok false
any_result f (x ∷ xs) = do let rest = any_result f xs; found ← f x; if found then ok true else rest

pub any_result-true :
    {A : Type 0} (f : A → Result Bool) (xs : List A)
    → any_result f xs ≡ ok true
    → (x : A) × In x xs × (f x ≡ ok true)
unfolding any_result
any_result-true f [] h = absurd (ground (arith))
any_result-true f (x ∷ xs) h = elim (Result-cases (f x)) [
  | inr (_, e) ↦ absurd (ground (arith, e))
  | inl (true, e) ↦ (x, inl refl, e)
  | inl (false, e) ↦ let (y, m, k) = any_result-true f xs (ground (arith, e)) in (y, inr m, k)
]

-- A reading of the clock.
abbrev pub Time : Type 0
Time = ℕ

-- `if x is None: raise error`
abbrev pub or_raise {ℓ} : {A : Type ℓ} → Option A → Error → Result A
or_raise none e = err e
or_raise (some a) e = ok a

pub ok_injective {ℓ} : {A : Type ℓ} (a b : A) → ok a ≡ ok b → a ≡ b
ok_injective a b h = ap (λ r. elim r [ ok x ↦ x | err _ ↦ a ]) h

-- Past a guard its condition holds.
pub guard-eq-ok {ℓ} :
    {A : Type ℓ} (b : Bool) (e : Error) (k : Unit {0} → Result A) {a : A}
    → (guard b e >>= k) ≡ ok a
    → (b ≡ true) × (k tt ≡ ok a)
guard-eq-ok true e k h = (refl, h)
guard-eq-ok false e k h = cc

module _ {ℓ κ} {A : Type ℓ} {B : Type κ} where
  abbrev both : A → B → Result (A × B)
  both x y = ok (x, y)

  abbrev paired : A → Result B → Result (A × B)
  paired x r = r >>= λ y. ok (x, y)

  paired-eq-ok :
      (x : A) (r : Result B) {a : A} {b : B} → paired x r ≡ ok (a, b) → (x ≡ a) × (r ≡ ok b)
  paired-eq-ok x (ok y) h = (ground (arith, h), ground (arith, h))
  paired-eq-ok x (err e) h = cc

  -- Inversion of two steps that return both their results.
  pub both-eq-ok :
      (m : Result A) (f : A → Result B) {a : A} {b : B}
      → (m >>= λ x. paired x (f x)) ≡ ok (a, b)
      → (m ≡ ok a) × (f a ≡ ok b)
  both-eq-ok (ok x) f {a = a} {b = b} h =
      let (same, e) = paired-eq-ok x (f x) h in (ap ok same, subst (λ y. f y ≡ ok b) same e)
  both-eq-ok (err e) f h = cc

  pub last-eq-ok :
      (m : Result A) (y : B) {a : A} {b : B}
      → (m >>= λ x. both x y) ≡ ok (a, b)
      → (m ≡ ok a) × (y ≡ b)
  last-eq-ok (ok x) y h = (ground (arith, h), ground (arith, h))
  last-eq-ok (err e) y h = cc
