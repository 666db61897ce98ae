-- ===== src/Engine/Labs/Destruction.antt =====
-- When `Destroy` of internal/engine/containerlab.go succeeds.
use std.Path.{subst}
use labcontainers.Prelude.{
  String, ◌≡◌, refl, sym, ap, ◌∙◌, Bool, true, false, List, [], ◌∷◌, nat_eq, if◌then◌else◌, Result,
  ok, err,
}
use labcontainers.Text.{fields}
use labcontainers.Actions.{pure, fail, ◌>>=◌, ◌>>◌}
use labcontainers.Actions.Rules.{bind-run}
use labcontainers.Engine.Host.{Host, Ran, Failure, exited, run, checked, containerlab, ran}
use labcontainers.Engine.Host.Rules.{checked-ok, done}
use labcontainers.Engine.Labs.{
  destroy, list_lab, force_remove, sweep, after_listing, result_of, listing_error,
}

abbrev pub cleaned : String → List String
cleaned topology = "destroy" ∷ "--topo" ∷ topology ∷ "--cleanup" ∷ []

-- The containers with these IDs are removed by one command, which is the last; without IDs there is none.
abbrev pub Swept : List String → Host → Host → Type 0
Swept [] h h' = h' ≡ h
Swept (id ∷ ids) h h' =
    (r : Ran) × (nat_eq r.exit_code 0 ≡ true)
    × (h'.commands ≡ done (force_remove (id ∷ ids)) r ∷ h.commands)

-- Containerlab has destroyed the lab, a listing followed, and what this names was removed.
abbrev pub Destroyed : String → Host → Host → Type 0
Destroyed topology h h' =
    (s r : Ran) × (v : Host) × (nat_eq s.exit_code 0 ≡ true)
    × (nat_eq r.exit_code 0 ≡ true)
    × (v.commands
        ≡ done (list_lab topology) r
          ∷ done (containerlab h.machine (cleaned topology)) s
          ∷ h.commands)
    × Swept (fields r.stdout) v h'

result_of-ok :
    (d : Result Failure Ran) (h : Host)
    → (result_of d h).0 ≡ ok tt
    → (s : Ran) × (d ≡ ok s) × ((result_of d h).1 ≡ h)
unfolding pure fail
result_of-ok (ok s) h e = (s, refl, refl)
result_of-ok (err c) h e = cc

sweep-ok : (ids : List String) (h : Host) → (sweep ids h).0 ≡ ok tt → Swept ids h (sweep ids h).1
unfolding sweep pure
sweep-ok [] h e = refl
sweep-ok (id ∷ ids) h e =
    let removing = force_remove (id ∷ ids) in
    let (r, removed, step) = bind-run (checked removing) (λ _. pure tt) h e in
    let (zero', entry, _, _) = checked-ok removing h removed in
    (r, zero', ap (λ p. p.1.commands) step ∙ entry)

never_ok :
    (d : Result Failure Ran) (c : Failure) (h : Host) → ((result_of d >> fail c) h).0 ≡ ok tt → ⊥
unfolding ◌>>=◌
never_ok (ok s) c h e = cc
never_ok (err b) c h e = cc

then-Swept :
    (topology : String) (d : Result Failure Ran) (r : Ran) (h : Host) (b : Bool)
    → let after =
        (if b
            then sweep (fields r.stdout) >> result_of d
            else result_of d >> fail (exited (listing_error topology) r))
          h in
      after.0 ≡ ok tt → (s : Ran) × (d ≡ ok s) × (b ≡ true) × Swept (fields r.stdout) h after.1
then-Swept topology d r h false e = absurd (never_ok d (exited (listing_error topology) r) h e)
then-Swept topology d r h true e =
    let (u, swept, step) = bind-run (sweep (fields r.stdout)) (λ _. result_of d) h e in
    let v = (sweep (fields r.stdout) h).1 in
    let (s, good, same) = result_of-ok d v (sym (ap (λ p. p.0) step) ∙ e) in
    (
      s,
      good,
      refl,
      subst (Swept (fields r.stdout) h) (sym (ap (λ p. p.1) step ∙ same))
          (sweep-ok (fields r.stdout) h swept),
    )

after_listing-ok :
    (topology : String) (d x : Result Failure Ran) (h : Host)
    → (after_listing topology d x h).0 ≡ ok tt
    → (s r : Ran) × (d ≡ ok s)
      × (x ≡ ok r)
      × (nat_eq r.exit_code 0 ≡ true)
      × Swept (fields r.stdout) h (after_listing topology d x h).1
unfolding after_listing
after_listing-ok topology d (err c) h e = absurd (never_ok d c h e)
after_listing-ok topology d (ok r) h e =
    let (s, good, zero', swept) = then-Swept topology d r h (nat_eq r.exit_code 0) e in
    (s, r, good, refl, zero', swept)

-- Where Destroy succeeds, Containerlab's own destruction has succeeded, a listing of the session's
-- containers followed it and succeeded, and all that this still named were removed by one command,
-- which succeeded.
pub destroy-Destroyed :
    (topology : String) (h : Host)
    → (destroy topology h).0 ≡ ok tt
    → Destroyed topology h (destroy topology h).1
unfolding destroy run
destroy-Destroyed topology h e =
    let argv = containerlab h.machine (cleaned topology) in
    let u = (checked argv h).1 in
    let (s, r, destroyed, listed, zero', swept) =
      after_listing-ok topology (checked argv h).0 (u.machine.runs u.asked)
        (ran (list_lab topology) [] u) e in
    let (well, entry, _, _) = checked-ok argv h destroyed in
    (
      s,
      r,
      ran (list_lab topology) [] u,
      well,
      zero',
      ap (λ x. record { argv = list_lab topology; stdin = []; ending = x } ∷ u.commands) listed
          ∙ ap (λ cs. done (list_lab topology) r ∷ cs) entry,
      swept,
    )
