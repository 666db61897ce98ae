-- ===== src/Prelude/Results.antt =====
-- Fallible code: a value or an error of the component's own type, with `do`.
use mathlib.Core.Path.{◌≡◌, refl}
use mathlib.Core.Bool.{Bool, true, false}
use mathlib.Core.Option.{Option, none, some}

pub data Result {ℓ κ} (E : Type ℓ) (A : Type κ) : Type (ℓ ⊔ κ) where
  err : E → Result E A
  ok : A → Result E A

module _ {ℓ} {E : Type ℓ} where
  infixl 5 ◌>>=◌ ◌>>◌
  abbrev pub ◌>>=◌ {κ μ} : {A : Type κ} {B : Type μ} → Result E A → (A → Result E B) → Result E B
  m >>= f = elim m [ err e ↦ err e | ok a ↦ f a ]

  abbrev pub or_fail {κ} : {A : Type κ} → Option A → E → Result E A
  or_fail o e = elim o [ none ↦ err e | some a ↦ ok a ]

  abbrev pub guard : Bool → E → Result E (Unit {0})
  guard b e = elim b [ false ↦ err e | true ↦ ok tt ]

  abbrev pub ◌>>◌ {κ} : {B : Type κ} → Result E (Unit {0}) → Result E B → Result E B
  first >> next = elim first [ err e ↦ err e | ok _ ↦ next ]

-- `Q` holds of the value, if the code returns one.
module _ {ℓ κ μ} {E : Type ℓ} {A : Type κ} (Q : A → Type μ) where
  abbrev pub Ensures : Result E A → Type μ
  Ensures (ok a) = Q a
  Ensures (err e) = Unit

  pub Ensures-bind {ν} :
      {B : Type ν} (m : Result E B) (f : B → Result E A)
      → ((b : B) → m ≡ ok b → Ensures (f b))
      → Ensures (m >>= f)
  Ensures-bind (ok b) f h = h b refl
  Ensures-bind (err e) f h = tt

  pub Ensures-ok : {r : Result E A} {a : A} → Ensures r → r ≡ ok a → Q a
  Ensures-ok {r} h e = rw e at h
