-- ===== src/Prelude/Lists.antt =====
-- Lists measured by native numbers, and tests on lists.
use Prim.Native.Nat.{ℕ, zero, suc, ◌+◌}
use mathlib.Core.Path.{◌≡◌, refl}
use mathlib.Core.Logic.{◌⊎◌, ◌↔◌, inl, inr}
use mathlib.Core.Bool.{false≢true, not, Bool, true, false, ◌&&◌, ◌||◌}
use mathlib.Core.Option.{Option, none, some}
use mathlib.Core.List.{List, [], ◌∷◌, ◌++◌}
use native.Mathlib.Omega.{arith}
use ctxd.Prelude.Tests.{Bool-cases, if◌then◌else◌, Eq, ◌==◌}

module _ {ℓ} {A : Type ℓ} where
  abbrev pub length : List A → ℕ
  length [] = 0
  length (x ∷ xs) = suc (length xs)

  pub length-append : (xs ys : List A) → length (xs ++ ys) ≡ length xs + length ys
  length-append [] ys = omega arith
  length-append (x ∷ xs) ys = omega (arith, length-append xs ys)

  abbrev pub take : ℕ → List A → List A
  take zero xs = []
  take (suc n) [] = []
  take (suc n) (x ∷ xs) = x ∷ take n xs

  abbrev pub drop : ℕ → List A → List A
  drop zero xs = xs
  drop (suc n) [] = []
  drop (suc n) (x ∷ xs) = drop n xs

  -- any(...), all(...)
  abbrev pub any : (A → Bool) → List A → Bool
  any p [] = false
  any p (x ∷ xs) = p x || any p xs

  abbrev pub all : (A → Bool) → List A → Bool
  all p [] = true
  all p (x ∷ xs) = p x && all p xs

  abbrev pub is_empty : List A → Bool
  is_empty [] = true
  is_empty (x ∷ xs) = false

  -- A comprehension with a condition.
  abbrev pub filter : (A → Bool) → List A → List A
  filter p [] = []
  filter p (x ∷ xs) = let rest = filter p xs in if p x then x ∷ rest else rest

-- Membership and quantifiers, by recursion on the list.
module _ {ℓ} {A : Type ℓ} where
  abbrev pub All {κ} : (A → Type κ) → List A → Type κ
  All P [] = Unit
  All P (x ∷ xs) = P x × All P xs

-- value in values, and len(set(values)) != len(values)
module _ {ℓ} {A : Type ℓ} ⦃e : Eq A⦄ where
  unfoldable pub mem : A → List A → Bool
  mem a [] = false
  mem a (x ∷ xs) = a == x || mem a xs

  unfoldable pub has_duplicates : List A → Bool
  unfolding mem
  has_duplicates [] = false
  has_duplicates (x ∷ xs) = mem x xs || has_duplicates xs

module _ {ℓ} {A : Type ℓ} where
  -- Some element has the property.
  abbrev pub Any : (A → Type 0) → List A → Type 0
  Any P [] = ⊥
  Any P (x ∷ xs) = P x ⊎ Any P xs

  pub any_iff :
      (p : A → Bool) (P : A → Type 0)
      → ((x : A) → (p x ≡ true) ↔ P x)
      → (xs : List A) → (any p xs ≡ true) ↔ Any P xs
  any_iff p P each [] = (λ h. false≢true h, λ h. absurd h)
  any_iff p P each (x ∷ xs) =
      let (to, from) = each x in
      let (tos, froms) = any_iff p P each xs in
      (
        λ h. elim (Bool-cases (p x)) [ inl e ↦ inl (to e) | inr e ↦ inr (tos (ground (arith, e))) ],
        λ h. elim h [ inl a ↦ ground (arith, from a) | inr a ↦ ground (arith, froms a) ],
      )

  pub Any-append : (P : A → Type 0) (xs ys : List A) → Any P (xs ++ ys) ↔ (Any P xs ⊎ Any P ys)
  Any-append P [] ys = (λ h. inr h, λ h. elim h [ inl a ↦ absurd a | inr a ↦ a ])
  Any-append P (x ∷ xs) ys =
      let (to, from) = Any-append P xs ys in
      (
        λ h. elim h [
          | inl a ↦ inl (inl a)
          | inr a ↦ elim (to a) [ inl b ↦ inl (inr b) | inr b ↦ inr b ]
        ],
        λ h. elim h [
          | inl a ↦ elim a [ inl b ↦ inl b | inr b ↦ inr (from (inl b)) ]
          | inr a ↦ inr (from (inr a))
        ],
      )

-- Membership.
abbrev pub In : {A : Type 0} → A → List A → Type 0
In a xs = Any (λ x. x ≡ a) xs

module _ {A : Type 0} (p : A → Bool) where
  pub filter-In : (xs : List A) {a : A} → In a (filter p xs) → In a xs × (p a ≡ true)
  filter-In [] m = absurd m
  filter-In (x ∷ xs) {a} m = elim (Bool-cases (p x)) [
    | inl e ↦ elim (rw e at m) [
      | inl here ↦ (inl here, rw (← here) e)
      | inr there ↦ let (n, h) = filter-In xs there in (inr n, h)
    ]
    | inr e ↦ let (n, h) = filter-In xs (rw e at m) in (inr n, h)
  ]

  pub In-filter : (xs : List A) {a : A} → In a xs → p a ≡ true → In a (filter p xs)
  In-filter [] m h = absurd m
  In-filter (x ∷ xs) {a} m h = elim m [
    | inl here ↦ let e : p x ≡ true = rw here h in rw e (inl here)
    | inr there ↦
        let rest = In-filter xs there h in
        elim (Bool-cases (p x)) [ inl e ↦ rw e (inr rest) | inr e ↦ rw e rest ]
  ]

module _ {ℓ} {A : Type ℓ} ⦃e : Eq A⦄ where
  pub mem-append : (a : A) (xs ys : List A) → mem a (xs ++ ys) ≡ (mem a xs || mem a ys)
  unfolding mem
  mem-append a [] ys = refl
  mem-append a (x ∷ xs) ys = ground (arith, mem-append a xs ys)

  pub has_duplicates-snoc :
      (a : A) (xs : List A) → has_duplicates (xs ++ a ∷ []) ≡ (has_duplicates xs || mem a xs)
  unfolding has_duplicates
  has_duplicates-snoc a [] = refl
  has_duplicates-snoc a (x ∷ xs) =
      ground
        (arith, has_duplicates-snoc a xs, mem-append x xs (a ∷ []), e.beq_iff x a, e.beq_iff a x)

  pub mem-discard :
      (a k : A) (xs : List A) → mem a (filter (λ x. not (x == k)) xs) ≡ (not (a == k) && mem a xs)
  unfolding mem
  mem-discard a k [] = ground arith
  mem-discard a k (x ∷ xs) =
      ground (arith, mem-discard a k xs, e.beq_iff x k, e.beq_iff a k, e.beq_iff a x)

module _ {ℓ} {A : Type ℓ} where
  -- The first element that passes the test, as fetchone() returns it.
  unfoldable pub find : (A → Bool) → List A → Option A
  find test [] = none
  find test (x ∷ xs) = if test x then some x else find test xs
