-- ===== src/Actions/Keeps.antt =====
-- Actions that leave a part of the state as it is.
use labcontainers.Prelude.{
  ◌≡◌, refl, ◌∙◌, Bool, true, false, Option, none, some, List, [], ◌∷◌, if◌then◌else◌,
}
use labcontainers.Actions.{Action, require, demand, when, for_each, ◌>>=◌}
use labcontainers.Actions.Rules.{bind-Post}

-- `p` is the part.
abbrev pub Keeps : {S E A P : Type 0} → (S → P) → Action S E A → Type 0
Keeps p m = (w : _) → p (m w).1 ≡ p w

module _ {S E P : Type 0} (p : S → P) where
  pub bind-Keeps :
      {A B : Type 0} (m : Action S E A) (f : A → Action S E B)
      → Keeps p m
      → ((a : A) → Keeps p (f a))
      → Keeps p (m >>= f)
  bind-Keeps m f first then' w =
      bind-Post (λ _ v. p v ≡ p w) m f w (λ a _. then' a (m w).1 ∙ first w) (λ _ _. first w)

  pub require-Keeps : (b : Bool) (c : E) → Keeps p (require b c)
  unfolding require
  require-Keeps true c w = refl
  require-Keeps false c w = refl

  pub demand-Keeps : {A : Type 0} (o : Option A) (c : E) → Keeps p (demand o c)
  unfolding demand
  demand-Keeps none c w = refl
  demand-Keeps (some a) c w = refl

  pub when-Keeps : (b : Bool) (m : Action S E (Unit {0})) → Keeps p m → Keeps p (when b m)
  unfolding when
  when-Keeps true m keeps w = keeps w
  when-Keeps false m keeps w = refl

  pub if-Keeps :
      {A : Type 0} (b : Bool) (m k : Action S E A)
      → Keeps p m
      → Keeps p k
      → Keeps p (if b then m else k)
  if-Keeps true m k keeps _ = keeps
  if-Keeps false m k _ keeps = keeps

  pub option-Keeps :
      {A B : Type 0} (o : Option B) (m : Action S E A) (f : B → Action S E A)
      → Keeps p m
      → ((b : B) → Keeps p (f b))
      → Keeps p (elim o [ none ↦ m | some b ↦ f b ])
  option-Keeps none m f keeps _ = keeps
  option-Keeps (some b) m f _ keeps = keeps b

  pub for_each-Keeps :
      {A : Type 0} (as' : List A) (f : A → Action S E (Unit {0}))
      → ((a : A) → Keeps p (f a))
      → Keeps p (for_each as' f)
  unfolding for_each
  for_each-Keeps [] f keeps = λ w. refl
  for_each-Keeps (a ∷ as') f keeps =
      bind-Keeps (f a) (λ _. for_each as' f) (keeps a) (λ _. for_each-Keeps as' f keeps)
