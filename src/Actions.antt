-- ===== src/Actions.antt =====
-- Code that changes a state and may fail: a function from the state before to a result and the state
-- after, with `do`. The daemon, the engine and the guest agent each have a state of their own.
pub mod Rules
pub mod Keeps
use labcontainers.Prelude.Results.{Result, ok, err}
use mathlib.Core.Bool.{Bool, true, false}
use mathlib.Core.Option.{Option, none, some}
use mathlib.Core.List.{List, [], ◌∷◌}

abbrev pub Action : Type 0 → Type 0 → Type 0 → Type 0
Action S E A = S → Result E A × S

module _ {E A : Type 0} where
  -- Another error in place of the action's own.
  abbrev pub recode : E → Result E A → Result E A
  recode c (ok a) = ok a
  recode c (err e) = err c

module _ {S E A : Type 0} where
  unfoldable pub pure : A → Action S E A
  pure a w = (ok a, w)

  unfoldable pub fail : E → Action S E A
  fail c w = (err c, w)

  unfoldable pub status : E → Action S E A → Action S E A
  status c m w = let (r, w') = m w in (recode c r, w')

  -- The result as a value: the caller looks at the error.
  unfoldable pub try : Action S E A → Action S E (Result E A)
  try m w = let (r, w') = m w in (ok r, w')

  unfoldable pub ignore : Action S E A → Action S E (Unit {0})
  ignore m w = (ok tt, (m w).1)

  -- `defer`: the clean-up runs, and its result is dropped.
  unfoldable pub finally : Action S E A → Action S E (Unit {0}) → Action S E A
  finally m c w = let (r, w') = m w in (r, (c w').1)

  unfoldable pub demand : Option A → E → Action S E A
  unfolding pure fail
  demand (some a) c = pure a
  demand none c = fail c

  unfoldable pub of_result {ℓ} : {F : Type ℓ} → Result F A → E → Action S E A
  unfolding pure fail
  of_result (ok a) c = pure a
  of_result (err e) c = fail c

  abbrev pub gets : (S → A) → Action S E A
  gets f w = (ok (f w), w)

module _ {S E : Type 0} where
  unfoldable pub when : Bool → Action S E (Unit {0}) → Action S E (Unit {0})
  unfolding pure
  when true m = m
  when false m = pure tt

  unfoldable pub require : Bool → E → Action S E (Unit {0})
  unfolding pure fail
  require true c = pure tt
  require false c = fail c

  abbrev pub modify : (S → S) → Action S E (Unit {0})
  modify f w = (ok tt, f w)

module _ {S E A B : Type 0} where
  abbrev pub continue : Result E A → (A → Action S E B) → Action S E B
  continue (ok a) f w = f a w
  continue (err c) f w = (err c, w)

  infixl 5 ◌>>=◌ ◌>>◌
  unfoldable pub ◌>>=◌ : Action S E A → (A → Action S E B) → Action S E B
  unfolding pure fail status try ignore finally when require demand of_result
  ◌>>=◌ m f w = let (r, w') = m w in continue r f w'

  abbrev pub ◌>>◌ : Action S E A → Action S E B → Action S E B
  m >> k = m >>= λ _. k

module _ {S E A : Type 0} where
  unfoldable pub for_each : List A → (A → Action S E (Unit {0})) → Action S E (Unit {0})
  unfolding ◌>>=◌
  for_each [] f = pure tt
  for_each (x ∷ xs) f = f x >> for_each xs f
