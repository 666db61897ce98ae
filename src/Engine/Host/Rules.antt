-- ===== src/Engine/Host/Rules.antt =====
-- Rules for the engine's commands: what a checked command that succeeds leaves behind, and that
-- commands are only added to the history.
use mathlib.Core.List.{append_assoc}
use std.Path.{subst}
use labcontainers.Prelude.{
  String, ◌≡◌, refl, sym, ap, ◌∙◌, true, List, [], ◌∷◌, ◌++◌, Result, ok, err, nat_eq, arith, All,
  Bool-cases, inl, inr,
}
use labcontainers.Actions.{continue, pure, fail, ◌>>=◌, for_each}
use labcontainers.Actions.Rules.{bind-run}
use labcontainers.Engine.Host.{
  Ran, Failure, Command, Host, Cmd, ran, run_input, checked, exits_well,
}

-- The entry of a checked command that has succeeded.
abbrev pub done : List String → Ran → Command
done argv r = record { argv = argv; stdin = []; ending = ok r }

exits_well-ok :
    (argv : List String) (x : Result Failure Ran) (v : Host) {r : Ran}
    → (continue x (exits_well argv) v).0 ≡ ok r
    → (x ≡ ok r) × (nat_eq r.exit_code 0 ≡ true) × ((continue x (exits_well argv) v).1 ≡ v)
unfolding pure fail
exits_well-ok argv (err c) v e = cc
exits_well-ok argv (ok s) v e = elim (Bool-cases (nat_eq s.exit_code 0)) [
  | inl z ↦ ground arith
  | inr z ↦ ground arith
]

pub checked-ok :
    (argv : List String) (h : Host) {r : Ran}
    → (checked argv h).0 ≡ ok r
    → (nat_eq r.exit_code 0 ≡ true)
      × ((checked argv h).1.commands ≡ done argv r ∷ h.commands)
      × ((checked argv h).1.journals ≡ h.journals)
      × ((checked argv h).1.machine ≡ h.machine)
unfolding checked run_input ◌>>=◌
checked-ok argv h e =
    let (answer, zero', same) = exits_well-ok argv (h.machine.runs h.asked) (ran argv [] h) e in
    (
      zero',
      ap (λ v. v.commands) same
          ∙ ap (λ x. record { argv = argv; stdin = []; ending = x } ∷ h.commands) answer,
      ap (λ v. v.journals) same,
      ap (λ v. v.machine) same,
    )

-- A command in the history.
abbrev pub Logged : Command → Host → Type 0
Logged c h = (later earlier : List Command) × (h.commands ≡ later ++ c ∷ earlier)

-- The history has only grown, on the same machine.
abbrev pub Extends : Host → Host → Type 0
Extends h h' = ((new : List Command) × (h'.commands ≡ new ++ h.commands)) × (h'.machine ≡ h.machine)

pub Logged-Extends : (c : Command) (h h' : Host) → Logged c h → Extends h h' → Logged c h'
Logged-Extends c h h' (later, earlier, here) ((new, grown), _) = (
  new ++ later,
  earlier,
  grown ∙ ap (λ cs. new ++ cs) here ∙ sym (append_assoc new later (c ∷ earlier)),
)

pub Extends-trans : (h v w : Host) → Extends h v → Extends v w → Extends h w
Extends-trans h v w ((new, grown), same) ((more, grown'), same') = (
  (more ++ new, grown' ∙ ap (λ cs. more ++ cs) grown ∙ sym (append_assoc more new h.commands)),
  same' ∙ same,
)

-- A loop that succeeds has seen what each of its steps has seen, where this is seen in a history and
-- stays seen as it grows.
module _ {A : Type 0} (P : A → Host → Type 0) (f : A → Cmd (Unit {0}))
    (stays : (a : A) (h h' : Host) → P a h → Extends h h' → P a h')
    (each : (a : A) (h : Host) → (f a h).0 ≡ ok tt → P a (f a h).1 × Extends h (f a h).1) where
  pub for_each-All :
      (as' : List A) (h : Host)
      → (for_each as' f h).0 ≡ ok tt
      → All (λ a. P a (for_each as' f h).1) as' × Extends h (for_each as' f h).1
  unfolding for_each
  for_each-All [] h e = (tt, (([], refl), refl))
  for_each-All (a ∷ as') h e =
      let rest = for_each as' f in
      let (u, first, step) = bind-run (f a) (λ _. rest) h e in
      let v = (f a h).1 in
      let (here, ext) = each a h first in
      let (later, ext') = for_each-All as' v (sym (ap (λ p. p.0) step) ∙ e) in
      let goal : Host → Type 0 = λ h'. (P a h' × All (λ b. P b h') as') × Extends h h' in
      subst goal (sym (ap (λ p. p.1) step))
        ((stays a v (rest v).1 here ext', later), Extends-trans h v (rest v).1 ext ext')
