-- ===== src/Prelude/Inverse.antt =====
-- Two dictionaries that are inverse to each other.
use mathlib.Core.Path.{◌≡◌}
use mathlib.Core.Logic.{◌↔◌, ◌⊎◌, inl, inr}
use mathlib.Core.Bool.{not}
use mathlib.Core.Option.{Option, none, some}
use native.Mathlib.Omega.{arith}
use ctxd.Prelude.Tests.{Eq, ◌==◌, if◌then◌else◌, Bool-cases, Option-cases}
use ctxd.Prelude.Dict.{Dict, get, put, pop, get-put, get-pop}

module _ {K V : Type 0} ⦃e : Eq K⦄ ⦃f : Eq V⦄ where
  abbrev pub Inverse : Dict K V → Dict V K → Type 0
  Inverse P S = (i : K) (p : V) → (get i P ≡ some p) ↔ (get p S ≡ some i)

  -- A key leaves its old value, if that is another than the new one.
  abbrev pub vacate : Option V → V → Dict V K → Dict V K
  vacate none p S = S
  vacate (some old) p S = if not (old == p) then pop old S else S

  module _ (P : Dict K V) (S : Dict V K) (inverse : Inverse P S) (k : K) (v : V) where
    forth_fresh :
        get k P ≡ none
        → (get v S ≡ none) ⊎ (get v S ≡ some k)
        → (i : K) (p : V) → (get i (put k v P) ≡ some p) ↔ (get p (put v k S) ≡ some i)
    forth_fresh new free i p = (
      λ h. ground (
        arith,
        h,
        new,
        free,
        get-put k i v P,
        get-put v p k S,
        e.beq_iff k i,
        f.beq_iff v p,
        (inverse i p).0,
        (inverse i v).0,
      ),
      λ h. ground (
        arith,
        h,
        new,
        free,
        get-put k i v P,
        get-put v p k S,
        e.beq_iff k i,
        f.beq_iff v p,
        (inverse i p).1,
        (inverse i v).0,
      ),
    )

    forth_moved :
        (old : V)
        → get k P ≡ some old
        → (get v S ≡ none) ⊎ (get v S ≡ some k)
        → (i : K) (p : V)
        → (get i (put k v P) ≡ some p) ↔ (get p (put v k (vacate (some old) v S)) ≡ some i)
    forth_moved old was free i p = elim (Bool-cases (old == v)) [
      | inl same ↦ (
        λ h. ground (
          arith,
          h,
          was,
          free,
          same,
          get-put k i v P,
          get-put v p k S,
          e.beq_iff k i,
          f.beq_iff v p,
          f.beq_iff old v,
          (inverse i p).0,
          (inverse i v).0,
          (inverse k v).0,
        ),
        λ h. ground (
          arith,
          h,
          was,
          free,
          same,
          get-put k i v P,
          get-put v p k S,
          e.beq_iff k i,
          f.beq_iff v p,
          f.beq_iff old v,
          (inverse i p).1,
          (inverse i v).0,
          (inverse k v).0,
        ),
      )
      | inr apart ↦ (
        λ h. ground (
          arith,
          h,
          was,
          free,
          apart,
          get-put k i v P,
          get-put v p k (pop old S),
          get-pop old p S,
          e.beq_iff k i,
          f.beq_iff v p,
          f.beq_iff old p,
          (inverse i p).0,
          (inverse i v).0,
          (inverse k old).0,
        ),
        λ h. ground (
          arith,
          h,
          was,
          free,
          apart,
          get-put k i v P,
          get-put v p k (pop old S),
          get-pop old p S,
          e.beq_iff k i,
          f.beq_iff v p,
          f.beq_iff old p,
          (inverse i p).1,
          (inverse k old).0,
        ),
      )
    ]

    pub Inverse-put :
        (get v S ≡ none) ⊎ (get v S ≡ some k) → Inverse (put k v P) (put v k (vacate (get k P) v S))
    Inverse-put free i p = elim (Option-cases (get k P)) [
      | inl new ↦ rw new (forth_fresh new free i p)
      | inr (old, was) ↦ rw was (forth_moved old was free i p)
    ]

    pub Inverse-pop : get k P ≡ some v → Inverse (pop k P) (pop v S)
    Inverse-pop was i p = (
      λ h. ground (
        arith,
        h,
        was,
        get-pop k i P,
        get-pop v p S,
        e.beq_iff k i,
        f.beq_iff v p,
        (inverse i p).0,
        (inverse i v).0,
        (inverse k v).0,
      ),
      λ h. ground (
        arith,
        h,
        was,
        get-pop k i P,
        get-pop v p S,
        e.beq_iff k i,
        f.beq_iff v p,
        (inverse i p).1,
        (inverse i v).0,
        (inverse k v).0,
      ),
    )
