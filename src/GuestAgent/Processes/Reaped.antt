-- ===== src/GuestAgent/Processes/Reaped.antt =====
-- What `reapExec` of pkg/guestagent/guestagent.go has seen where it succeeds.
use mathlib.Core.List.{append_assoc}
use std.Path.{subst}
use labcontainers.Prelude.{
  ℕ, zero, suc, ◌≡◌, refl, sym, ap, ◌∙◌, ◌⊎◌, inl, inr, Bool, true, false, List, [], ◌∷◌, ◌++◌, All,
  if◌then◌else◌, ok,
}
use labcontainers.Actions.{pure, require, ◌>>=◌}
use labcontainers.Actions.Rules.{bind-run, require-ok}
use labcontainers.GuestAgent.Channel.{
  Exchange, Agent, Talk, Value, expired, call, exec_status, is_object, fields_of,
}
use labcontainers.GuestAgent.Channel.Ends.{call-ok}
use labcontainers.GuestAgent.Processes.{exec_exited, reap_round, reap_exec}

-- An answer to a question for the status of a process.
abbrev pub status_of : ℕ → Value → Exchange
status_of pid v = record { request = exec_status pid; result = ok v }

-- Since the history was `base`, the guest agent has told that the process has exited, which releases
-- its record of it.
abbrev pub Released : List Exchange → ℕ → Agent → Type 0
Released base pid a =
    (later : List Exchange) × (v : Value) × (earlier : List Exchange) × (a.calls
      ≡ later ++ status_of pid v ∷ (earlier ++ base))
    × ((fields_of v).exited ≡ true)

abbrev pub Since : List Exchange → Agent → Type 0
Since base a = (new : List Exchange) × (a.calls ≡ new ++ base)

pub Since-trans :
    (base : List Exchange) (a b : Agent) → Since base a → Since a.calls b → Since base b
Since-trans base a b (new, first) (more, second) =
    (more ++ new, second ∙ ap (λ xs. more ++ xs) first ∙ sym (append_assoc more new base))

Released-Since :
    (base : List Exchange) (pid : ℕ) (a b : Agent)
    → Released base pid a
    → Since a.calls b
    → Released base pid b
Released-Since base pid a b (later, v, earlier, here, gone) (new, grown) = (
  new ++ later,
  v,
  earlier,
  grown
      ∙ ap (λ xs. new ++ xs) here
      ∙ sym (append_assoc new later (status_of pid v ∷ (earlier ++ base))),
  gone,
)

pub exec_exited-ok :
    (pid : ℕ) (a : Agent) {x : Bool}
    → (exec_exited pid a).0 ≡ ok x
    → (v : Value) × ((exec_exited pid a).1.calls ≡ status_of pid v ∷ a.calls)
      × ((fields_of v).exited ≡ x)
unfolding exec_exited pure
exec_exited-ok pid a e =
    let last : Value → Talk Bool = λ state. pure (fields_of state).exited in
    let asking = call (exec_status pid) is_object in
    let (v, asked, step) = bind-run asking last a e in
    let (entry, _) = call-ok (exec_status pid) is_object a asked in
    let same : ok (fields_of v).exited ≡ ok _ = sym (ap (λ p. p.0) step) ∙ e in
    (v, ap (λ p. p.1.calls) step ∙ entry, cc)

pub exited-Released :
    (base : List Exchange) (pid : ℕ) (a b : Agent) (v : Value)
    → Since base a
    → b.calls ≡ status_of pid v ∷ a.calls
    → (fields_of v).exited ≡ true
    → Released base pid b
exited-Released base pid a b v (new, since) entry gone =
    ([], v, new, entry ∙ ap (λ xs. status_of pid v ∷ xs) since, gone)

abbrev Among : ℕ → List ℕ → Type 0
Among p [] = ⊥
Among p (q ∷ qs) = (q ≡ p) ⊎ Among p qs

-- After a round a process has been released, or it is one of those that are left.
abbrev Seen : List Exchange → Agent → List ℕ → ℕ → Type 0
Seen base b left p = Released base p b ⊎ Among p left

widen :
    (base : List Exchange) (b : Agent) (q : ℕ) (left pids : List ℕ)
    → All (Seen base b left) pids
    → All (Seen base b (q ∷ left)) pids
widen base b q left [] seen = tt
widen base b q left (p ∷ pids) (inl gone, rest) = (inl gone, widen base b q left pids rest)
widen base b q left (p ∷ pids) (inr waits, rest) = (inr (inr waits), widen base b q left pids rest)

one_more :
    (base : List Exchange) (b : Agent) (pid : ℕ) (pids left : List ℕ) (x : Bool)
    → (x ≡ true → Released base pid b)
    → All (Seen base b left) pids
    → All (Seen base b (if x then left else pid ∷ left)) (pid ∷ pids)
one_more base b pid pids left true gone seen = (inl (gone refl), seen)
one_more base b pid pids left false gone seen = (inr (inl refl), widen base b pid left pids seen)

reap_round-Seen :
    (base : List Exchange) (pids : List ℕ) (a : Agent) {left : List ℕ}
    → Since base a
    → (reap_round pids a).0 ≡ ok left
    → All (Seen base (reap_round pids a).1 left) pids × Since a.calls (reap_round pids a).1
unfolding reap_round pure
reap_round-Seen base [] a since e = (tt, ([], refl))
reap_round-Seen base (pid ∷ pids) a {left = left} since e =
    let keep : Bool → List ℕ → Talk (List ℕ) = λ x l. pure (if x then l else pid ∷ l) in
    let (x, asked, step) = bind-run (exec_exited pid) (λ x. reap_round pids >>= keep x) a e in
    let c = (exec_exited pid a).1 in
    let (l, went, step') = bind-run (reap_round pids) (keep x) c (sym (ap (λ p. p.0) step) ∙ e) in
    let b = (reap_round pids c).1 in
    let (v, entry, told) = exec_exited-ok pid a asked in
    let grown' : Since a.calls c = (status_of pid v ∷ [], entry) in
    let (seen, grown) = reap_round-Seen base pids c (Since-trans base a c since grown') went in
    let gone = λ (t : x ≡ true).
      Released-Since base pid c b (exited-Released base pid a c v since entry (told ∙ t)) grown in
    let answer : ok (if x then l else pid ∷ l) ≡ ok left = sym (ap (λ p. p.0) (step ∙ step')) ∙ e in
    let same : (if x then l else pid ∷ l) ≡ left = cc in
    let goal : Agent → Type 0 = λ d. All (Seen base d left) (pid ∷ pids) × Since a.calls d in
    subst goal (sym (ap (λ p. p.1) (step ∙ step'))) (
      subst (λ k. All (Seen base b k) (pid ∷ pids)) same (one_more base b pid pids l x gone seen),
      Since-trans a.calls c b grown' grown,
    )

All-Among :
    (base : List Exchange) (b : Agent) (left : List ℕ) (p : ℕ)
    → All (λ q. Released base q b) left
    → Among p left
    → Released base p b
All-Among base b [] p gone waits = absurd waits
All-Among base b (q ∷ left) p (here, later) (inl same) = subst (λ r. Released base r b) same here
All-Among base b (q ∷ left) p (here, later) (inr waits) = All-Among base b left p later waits

All-Seen :
    (base : List Exchange) (c b : Agent) (left pids : List ℕ)
    → Since c.calls b
    → All (λ q. Released base q b) left
    → All (Seen base c left) pids
    → All (λ q. Released base q b) pids
All-Seen base c b left [] grown gone seen = tt
All-Seen base c b left (p ∷ pids) grown gone (inl released, rest) =
    (Released-Since base p c b released grown, All-Seen base c b left pids grown gone rest)
All-Seen base c b left (p ∷ pids) grown gone (inr waits, rest) =
    (All-Among base b left p gone waits, All-Seen base c b left pids grown gone rest)

none_left : (left : List ℕ) → elim left [ [] ↦ true | _ ↦ false ] ≡ true → left ≡ []
none_left [] h = refl
none_left (p ∷ left) h = cc

pub reap_exec-Released :
    (base : List Exchange) (ticks : ℕ) (pids : List ℕ) (a : Agent)
    → Since base a
    → (reap_exec ticks pids a).0 ≡ ok tt
    → All (λ p. Released base p (reap_exec ticks pids a).1) pids
      × Since a.calls (reap_exec ticks pids a).1
unfolding reap_exec pure
reap_exec-Released base ticks [] a since e = (tt, ([], refl))
reap_exec-Released base zero (pid ∷ pids) a since e =
    let stop : List ℕ → Talk (Unit {0}) =
      λ left. require (elim left [ [] ↦ true | _ ↦ false ]) expired in
    let (left, went, step) = bind-run (reap_round (pid ∷ pids)) stop a e in
    let c = (reap_round (pid ∷ pids) a).1 in
    let (empty, same) =
      require-ok (elim left [ [] ↦ true | _ ↦ false ]) expired c (sym (ap (λ p. p.0) step) ∙ e) in
    let (seen, grown) = reap_round-Seen base (pid ∷ pids) a since went in
    let goal : Agent → Type 0 = λ d. All (λ p. Released base p d) (pid ∷ pids) × Since a.calls d in
    subst goal (sym (ap (λ p. p.1) step ∙ same)) (
      All-Seen base c c [] (pid ∷ pids) ([], refl) tt
          (subst (λ l. All (Seen base c l) (pid ∷ pids)) (none_left left empty) seen),
      grown,
    )
reap_exec-Released base (suc ticks) (pid ∷ pids) a since e =
    let (left, went, step) = bind-run (reap_round (pid ∷ pids)) (reap_exec ticks) a e in
    let c = (reap_round (pid ∷ pids) a).1 in
    let (seen, grown) = reap_round-Seen base (pid ∷ pids) a since went in
    let (gone, grown') =
      reap_exec-Released base ticks left c (Since-trans base a c since grown)
        (sym (ap (λ p. p.0) step) ∙ e) in
    let b = (reap_exec ticks left c).1 in
    let goal : Agent → Type 0 = λ d. All (λ p. Released base p d) (pid ∷ pids) × Since a.calls d in
    subst goal (sym (ap (λ p. p.1) step))
      (All-Seen base c b left (pid ∷ pids) grown' gone seen, Since-trans a.calls c b grown grown')
