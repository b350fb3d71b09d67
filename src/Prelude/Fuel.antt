-- ===== src/Prelude/Fuel.antt =====
-- Results that are not the end of a model's fuel.
use mathlib.Core.Path.{◌≡◌, refl, ap, ◌∙◌}
use mathlib.Core.Logic.{◌≢◌}
use mathlib.Core.Bool.{Bool, true, false}
use mathlib.Core.List.{List, [], ◌∷◌}
use mathlib.Core.Option.{Option, none, some}
use native.Mathlib.Omega.{arith}
use ctxd.Prelude.Tests.{if◌then◌else◌}
use ctxd.Prelude.Results.{
  Error, out_of_fuel, Result, ok, err, guard, or_raise, any_result, ◌>>=◌, ◌>>◌,
}

module _ {A : Type 0} where
  -- The result is a value or an exception of the source.
  pub record Fueled (r : Result A) : Type 0 where
    pub real : r ≢ err out_of_fuel

  pub ok-Fueled : {a : A} → Fueled (ok a)
  ok-Fueled = record { real = λ h. cc }

  pub raise-Fueled : {e : Error} → e ≢ out_of_fuel → Fueled (err e)
  raise-Fueled {e} n = record { real = λ h. n (ground (arith, h)) }

  pub err-real : (r : Result A) {e : Error} → Fueled r → r ≡ err e → e ≢ out_of_fuel
  err-real r f h = λ same. f.real (h ∙ ap err same)

  pub if-Fueled : (b : Bool) (x y : Result A) → Fueled x → Fueled y → Fueled (if b then x else y)
  if-Fueled true x y f g = f
  if-Fueled false x y f g = g

  pub guarded-Fueled :
      (b : Bool) (e : Error) (rest : Result A)
      → e ≢ out_of_fuel
      → Fueled rest
      → Fueled (guard b e >> rest)
  guarded-Fueled true e rest n f = f
  guarded-Fueled false e rest n f = raise-Fueled n

  pub or_raise-Fueled : (o : Option A) (e : Error) → e ≢ out_of_fuel → Fueled (or_raise o e)
  or_raise-Fueled none e n = raise-Fueled n
  or_raise-Fueled (some a) e n = ok-Fueled

pub >>=-Fueled :
    {A B : Type 0} (m : Result A) (f : A → Result B)
    → Fueled m
    → ((a : A) → Fueled (f a))
    → Fueled (m >>= f)
>>=-Fueled (ok a) f h k = k a
>>=-Fueled (err e) f h k = raise-Fueled (err-real (err e) h refl)

pub guard-Fueled : (b : Bool) (e : Error) → e ≢ out_of_fuel → Fueled (guard b e)
guard-Fueled true e n = ok-Fueled
guard-Fueled false e n = raise-Fueled n

pub any_result-Fueled :
    {A : Type 0} (f : A → Result Bool) (xs : List A)
    → ((a : A) → Fueled (f a))
    → Fueled (any_result f xs)
unfolding any_result
any_result-Fueled f [] h = ok-Fueled
any_result-Fueled f (x ∷ xs) h =
    >>=-Fueled (f x) _ (h x)
      (λ found. if-Fueled found (ok true) (any_result f xs) ok-Fueled (any_result-Fueled f xs h))
