-- ===== src/Engine/Endpoints/Parked.antt =====
-- What the crash of internal/engine/crash.go has done where it succeeds.
use labcontainers.Prelude.{
  String, ◌≡◌, refl, sym, ap, ◌∙◌, true, List, [], ◌∷◌, ◌==◌, nat_eq, Result, ok, err,
}
use labcontainers.Text.{fields}
use labcontainers.Actions.{pure, fail, require, try, ignore, ◌>>=◌}
use labcontainers.Actions.Rules.{bind-run}
use labcontainers.Engine.Host.{
  Cmd, Host, Machine, Command, Failure, unreadable, checked, file, ask, Ran,
}
use labcontainers.Engine.Host.Rules.{checked-ok, done}
use labcontainers.Actions.Keeps.{bind-Keeps, require-Keeps, if-Keeps}
use labcontainers.Engine.Identity.{only}
use labcontainers.Engine.Identity.Single.{only-ok}
use labcontainers.Engine.Endpoints.{
  endpoint_argv, find_helper, endpoint_operation, kill, after_kill, list_running, park_and_kill,
  crash,
}

-- The node's one container is listed, its endpoints are parked, and it is killed.
abbrev pub Parked : String → String → String → Host → Host → Type 0
Parked self topology node h h' =
    (id : String) × (s p k : Ran) × (h'.commands
      ≡ done (kill id) k
        ∷ done (endpoint_argv h.machine self "park-endpoints" topology node id) p
        ∷ done (list_running topology node) s
        ∷ h.commands)
    × (fields s.stdout ≡ id ∷ [])
    × (nat_eq p.exit_code 0 ≡ true)
    × (nat_eq k.exit_code 0 ≡ true)

abbrev same_but_asked : Host → List Command × Machine
same_but_asked h = (h.commands, h.machine)

file-same : (h : Host) → same_but_asked (file h).1 ≡ same_but_asked h
unfolding file
file-same h =
    bind-Keeps same_but_asked ask (λ done. require done unreadable) (λ h. refl)
      (λ done. require-Keeps same_but_asked done unreadable) h

find_helper-same : (m : Machine) (h : Host) → same_but_asked (find_helper m h).1 ≡ same_but_asked h
unfolding pure
find_helper-same m = if-Keeps same_but_asked (m.helper == "") file (pure tt) file-same (λ h. refl)

endpoint_operation-ok :
    (self operation topology node id : String) (h : Host)
    → (endpoint_operation self operation topology node id h).0 ≡ ok tt
    → (p : Ran) × (nat_eq p.exit_code 0 ≡ true)
      × ((endpoint_operation self operation topology node id h).1.commands
          ≡ done (endpoint_argv h.machine self operation topology node id) p ∷ h.commands)
unfolding endpoint_operation pure ◌>>=◌
endpoint_operation-ok self operation topology node id h e =
    let argv = endpoint_argv h.machine self operation topology node id in
    let last : Ran → Cmd (Unit {0}) = λ _. pure tt in
    let (_, _, step) = bind-run (find_helper h.machine) (λ _. checked argv >>= last) h e in
    let b = (find_helper h.machine h).1 in
    let (p, parked, step') = bind-run (checked argv) last b (sym (ap (λ q. q.0) step) ∙ e) in
    let (well, entry, _, _) = checked-ok argv b parked in
    (
      p,
      well,
      ap (λ q. q.1.commands) (step ∙ step')
          ∙ entry
          ∙ ap (λ cs. done argv p ∷ cs) (ap (λ x. x.0) (find_helper-same h.machine h)),
    )

after_kill-ok :
    (self topology node id : String) (x : Result Failure Ran) (h : Host)
    → (after_kill self topology node id x h).0 ≡ ok tt
    → (k : Ran) × (x ≡ ok k) × ((after_kill self topology node id x h).1 ≡ h)
unfolding after_kill pure fail ignore ◌>>=◌
after_kill-ok self topology node id (ok k) h e = (k, refl, refl)
after_kill-ok self topology node id (err c) h e = cc

park_and_kill-ok :
    (self topology node id : String) (h : Host)
    → (park_and_kill self topology node id h).0 ≡ ok tt
    → (p k : Ran) × (nat_eq p.exit_code 0 ≡ true)
      × (nat_eq k.exit_code 0 ≡ true)
      × ((park_and_kill self topology node id h).1.commands
          ≡ done (kill id) k
            ∷ done (endpoint_argv h.machine self "park-endpoints" topology node id) p
            ∷ h.commands)
unfolding park_and_kill try ◌>>=◌
park_and_kill-ok self topology node id h e =
    let parking = endpoint_operation self "park-endpoints" topology node id in
    let killing : Cmd (Unit {0}) = try (checked (kill id)) >>= after_kill self topology node id in
    let (_, parked, step) = bind-run parking (λ _. killing) h e in
    let b = (parking h).1 in
    let (k, killed, same) =
      after_kill-ok self topology node id (checked (kill id) b).0 (checked (kill id) b).1
        (sym (ap (λ q. q.0) step) ∙ e) in
    let (p, well, entry) = endpoint_operation-ok self "park-endpoints" topology node id h parked in
    let (well', entry', _, _) = checked-ok (kill id) b killed in
    (
      p,
      k,
      well,
      well',
      ap (λ q. q.1.commands) step
          ∙ ap (λ v. v.commands) same
          ∙ entry'
          ∙ ap (λ cs. done (kill id) k ∷ cs) entry,
    )

-- Where a crash succeeds, a listing found exactly one container of the node, its endpoints were parked
-- by the helper, and then, as the last command, it was killed; nothing else was run.
pub crash-Parked :
    (self topology node : String) (h : Host)
    → (crash self topology node h).0 ≡ ok tt
    → Parked self topology node h (crash self topology node h).1
unfolding crash
crash-Parked self topology node h e =
    let killing = park_and_kill self topology node in
    let next : Ran → Cmd (Unit {0}) = λ r. only (fields r.stdout) >>= killing in
    let (s, listed, step) = bind-run (checked (list_running topology node)) next h e in
    let b = (checked (list_running topology node) h).1 in
    let (_, entry, _, machine) = checked-ok (list_running topology node) h listed in
    let (id, found, step') =
      bind-run (only (fields s.stdout)) killing b (sym (ap (λ q. q.0) step) ∙ e) in
    let (one, same) = only-ok (fields s.stdout) b found in
    let whole = step ∙ step' ∙ ap (killing id) same in
    let (p, k, well, well', last) =
      park_and_kill-ok self topology node id b (sym (ap (λ q. q.0) whole) ∙ e) in
    (
      id,
      s,
      p,
      k,
      ap (λ q. q.1.commands) whole
          ∙ last
          ∙ ap
              (λ m.
                done (kill id) k
                ∷ done (endpoint_argv m self "park-endpoints" topology node id) p
                ∷ b.commands)
              machine
          ∙ ap
              (λ cs.
                done (kill id) k
                ∷ done (endpoint_argv h.machine self "park-endpoints" topology node id) p
                ∷ cs)
              entry,
      one,
      well,
      well',
    )
