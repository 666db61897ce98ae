-- ===== src/Actions/Rules.antt =====
-- Rules for what an action leaves behind: `Post m w Q` says that `Q` holds of the result and the
-- state after `m` from `w`.
use labcontainers.Prelude.{◌≡◌, refl, Bool, true, false, Option, some, none, Result, ok, err}
use labcontainers.Actions.{Action, continue, recode, when, require, demand, ◌>>=◌, ◌>>◌}

abbrev pub Post {ℓ} : {S E A : Type 0} → Action S E A → S → (Result E A → S → Type ℓ) → Type ℓ
Post m w Q = Q (m w).0 (m w).1

module _ {ℓ} {S E A : Type 0} (Q : Result E A → S → Type ℓ) where
  pub continue-Post :
      {B : Type 0} (f : B → Action S E A) (r : Result E B) (v : S)
      → ((b : B) → r ≡ ok b → Post (f b) v Q)
      → ((c : E) → r ≡ err c → Q (err c) v)
      → Post (continue r f) v Q
  continue-Post f (ok b) v good bad = good b refl
  continue-Post f (err c) v good bad = bad c refl

  -- The rule for two steps: what holds after the first, on either result.
  pub bind-Post :
      {B : Type 0} (m : Action S E B) (f : B → Action S E A) (w : S)
      → ((b : B) → (m w).0 ≡ ok b → Post (f b) (m w).1 Q)
      → ((c : E) → (m w).0 ≡ err c → Q (err c) (m w).1)
      → Post (m >>= f) w Q
  unfolding ◌>>=◌
  bind-Post m f w good bad = continue-Post f (m w).0 (m w).1 good bad

  -- The rule for a last step.
  pub last-Post :
      (m : Action S E A) (w : S)
      → ((a : A) → (m w).0 ≡ ok a → Q (ok a) (m w).1)
      → ((c : E) → (m w).0 ≡ err c → Q (err c) (m w).1)
      → Post m w Q
  last-Post m w good bad = go (m w).0 good bad
    where
      go :
          (r : Result E A)
          → ((a : A) → r ≡ ok a → Q (ok a) (m w).1)
          → ((c : E) → r ≡ err c → Q (err c) (m w).1)
          → Q r (m w).1
      go (ok a) g b = g a refl
      go (err c) g b = b c refl

continue-ok :
    {S E A B : Type 0} (r : Result E A) (f : A → Action S E B) (v : S) {b : B}
    → (continue r f v).0 ≡ ok b
    → (a : A) × (r ≡ ok a) × ((f a v).0 ≡ ok b)
continue-ok (ok a) f v h = (a, refl, h)
continue-ok (err c) f v h = cc

-- Where two steps succeed, both have.
pub bind-ok :
    {S E A B : Type 0} (m : Action S E A) (f : A → Action S E B) (w : S) {b : B}
    → ((m >>= f) w).0 ≡ ok b
    → (a : A) × ((m w).0 ≡ ok a) × ((f a (m w).1).0 ≡ ok b)
unfolding ◌>>=◌
bind-ok m f w h = continue-ok (m w).0 f (m w).1 h

module _ {E A : Type 0} (c : E) where
  pub recode-ok : (r : Result E A) {a : A} → recode c r ≡ ok a → r ≡ ok a
  recode-ok (ok b) h = h
  recode-ok (err e) h = cc

  pub recode-err : (r : Result E A) {d : E} → recode c r ≡ err d → (e : E) × (r ≡ err e)
  recode-err (ok b) h = cc
  recode-err (err e) h = (e, refl)

module _ {ℓ} {S E A : Type 0} (Q : Result E A → S → Type ℓ) where
  pub demand-Post :
      {B : Type 0} (o : Option B) (c : E) (f : B → Action S E A) (w : S)
      → ((b : B) → o ≡ some b → Post (f b) w Q)
      → Q (err c) w
      → Post (demand o c >>= f) w Q
  unfolding ◌>>=◌
  demand-Post (some b) c f w good bad = good b refl
  demand-Post none c f w good bad = bad

  pub require-Post :
      (b : Bool) (c : E) (k : Action S E A) (w : S)
      → (b ≡ true → Post k w Q)
      → Q (err c) w
      → Post (require b c >> k) w Q
  unfolding ◌>>=◌
  require-Post true c k w good bad = good refl
  require-Post false c k w good bad = bad

pub when-Post {ℓ} :
    {S E : Type 0} (Q : Result E (Unit {0}) → S → Type ℓ) (b : Bool) (m : Action S E (Unit {0}))
    (w : S)
    → (b ≡ true → Post m w Q)
    → (b ≡ false → Q (ok tt) w)
    → Post (when b m) w Q
unfolding when
when-Post Q true m w yes' no' = yes' refl
when-Post Q false m w yes' no' = no' refl

continue-run :
    {S E A B : Type 0} (f : A → Action S E B) (r : Result E A) (v : S) {b : B}
    → (continue r f v).0 ≡ ok b
    → (a : A) × (r ≡ ok a) × (continue r f v ≡ f a v)
continue-run f (ok a) v e = (a, refl, refl)
continue-run f (err c) v e = cc

-- Where two steps succeed, they are the run of the second after the first.
pub bind-run :
    {S E A B : Type 0} (m : Action S E A) (f : A → Action S E B) (w : S) {b : B}
    → ((m >>= f) w).0 ≡ ok b
    → (a : A) × ((m w).0 ≡ ok a) × ((m >>= f) w ≡ f a (m w).1)
unfolding ◌>>=◌
bind-run m f w e = continue-run f (m w).0 (m w).1 e

module _ {S E : Type 0} where
  pub require-ok :
      (b : Bool) (c : E) (w : S) → (require b c w).0 ≡ ok tt → (b ≡ true) × ((require b c w).1 ≡ w)
  unfolding require
  require-ok true c w e = (refl, refl)
  require-ok false c w e = cc

-- A guard before an action that succeeds: it held, and the run is that of the action.
pub require-run :
    {S E A : Type 0} (b : Bool) (c : E) (k : Action S E A) (w : S) {a : A}
    → ((require b c >> k) w).0 ≡ ok a
    → (b ≡ true) × ((require b c >> k) w ≡ k w)
unfolding ◌>>=◌
require-run true c k w e = (refl, refl)
require-run false c k w e = cc

pub demand-run :
    {S E A B : Type 0} (o : Option B) (c : E) (f : B → Action S E A) (w : S) {a : A}
    → ((demand o c >>= f) w).0 ≡ ok a
    → (b : B) × (o ≡ some b) × ((demand o c >>= f) w ≡ f b w)
unfolding ◌>>=◌
demand-run (some b) c f w e = (b, refl, refl)
demand-run none c f w e = cc
