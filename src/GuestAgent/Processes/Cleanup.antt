-- ===== src/GuestAgent/Processes/Cleanup.antt =====
-- What the clean-up of a process in pkg/guestagent/guestagent.go has seen where it succeeds.

use std.Path.{subst}
use labcontainers.Prelude.{
  ℕ, String, ◌≡◌, refl, sym, ap, ◌∙◌, Bool, true, false, none, List, [], ◌∷◌, ◌==◌, if◌then◌else◌,
  ok,
}
use labcontainers.Actions.{pure, require, ◌>>=◌, ◌>>◌}
use labcontainers.Actions.Rules.{bind-run, require-run}
use labcontainers.GuestAgent.Channel.{
  Exchange, Agent, Talk, Value, no_process, call, exec, get_osinfo, is_object, fields_of,
}
use labcontainers.GuestAgent.Channel.Ends.{call-ok}
use labcontainers.GuestAgent.Processes.{
  exec_exited, reap_exec, kill_and_reap, kill_command, cleanup_exec, is_pid, ask_os, keep_os,
  guest_os, kill_path, kill_args, is_windows,
}
use labcontainers.GuestAgent.Processes.Reaped.{
  status_of, Released, Since, Since-trans, exec_exited-ok, exited-Released, reap_exec-Released,
}

ask_os-Since : (a : Agent) {os : String} → (ask_os a).0 ≡ ok os → Since a.calls (ask_os a).1
unfolding pure ◌>>=◌
ask_os-Since a e =
    let (v, told, step) = bind-run (call get_osinfo is_object) keep_os a e in
    let (entry, _) = call-ok get_osinfo is_object a told in
    (record { request = get_osinfo; result = ok v } ∷ [], ap (λ p. p.1.calls) step ∙ entry)

os_then :
    (b : Bool) (os : String) (a : Agent) {x : String}
    → ((if b then ask_os else pure os) a).0 ≡ ok x
    → Since a.calls ((if b then ask_os else pure os) a).1
unfolding pure
os_then true os a e = ask_os-Since a e
os_then false os a e = ([], refl)

guest_os-Since : (a : Agent) {os : String} → (guest_os a).0 ≡ ok os → Since a.calls (guest_os a).1
unfolding guest_os
guest_os-Since a e = os_then (a.os == "") a.os a e

abbrev helper_of : ℕ → String → Talk Value
helper_of pid os =
    call (exec (kill_path (is_windows os)) (kill_args (is_windows os) pid) false none) is_object

kill_command-Since :
    (pid : ℕ) (a : Agent) {v : Value}
    → (kill_command pid a).0 ≡ ok v
    → Since a.calls (kill_command pid a).1
kill_command-Since pid a e =
    let (os, known, step) = bind-run guest_os (helper_of pid) a e in
    let b = (guest_os a).1 in
    let request = exec (kill_path (is_windows os)) (kill_args (is_windows os) pid) false none in
    let (entry, _) = call-ok request is_object b (sym (ap (λ p. p.0) step) ∙ e) in
    subst (Since a.calls) (sym (ap (λ p. p.1) step))
      (Since-trans a.calls b (helper_of pid os b).1 (guest_os-Since a known) (_ ∷ [], entry))

kill_and_reap-Released :
    (base : List Exchange) (ticks pid : ℕ) (a : Agent)
    → Since base a
    → (kill_and_reap ticks pid a).0 ≡ ok tt
    → Released base pid (kill_and_reap ticks pid a).1
unfolding kill_and_reap
kill_and_reap-Released base ticks pid a since e =
    let rest : Value → Talk (Unit {0}) = λ helper.
      require (is_pid (fields_of helper).pid) no_process
      >> reap_exec ticks (pid ∷ (fields_of helper).pid ∷ []) in
    let (helper, killed, step) = bind-run (kill_command pid) rest a e in
    let b = (kill_command pid a).1 in
    let reaping = reap_exec ticks (pid ∷ (fields_of helper).pid ∷ []) in
    let (_, step') =
      require-run (is_pid (fields_of helper).pid) no_process reaping b
        (sym (ap (λ p. p.0) step) ∙ e) in
    let ((gone, _), _) =
      reap_exec-Released base ticks (pid ∷ (fields_of helper).pid ∷ []) b
        (Since-trans base a b since (kill_command-Since pid a killed))
        (sym (ap (λ p. p.0) (step ∙ step')) ∙ e) in
    subst (Released base pid) (sym (ap (λ p. p.1) (step ∙ step'))) gone

exited_or :
    (base : List Exchange) (ticks pid : ℕ) (a b : Agent) (v : Value) (x : Bool)
    → Since base a
    → b.calls ≡ status_of pid v ∷ a.calls
    → (fields_of v).exited ≡ x
    → ((if x then pure tt else kill_and_reap ticks pid) b).0 ≡ ok tt
    → Released base pid ((if x then pure tt else kill_and_reap ticks pid) b).1
unfolding pure
exited_or base ticks pid a b v true since entry told e =
    exited-Released base pid a b v since entry told
exited_or base ticks pid a b v false since entry told e =
    kill_and_reap-Released base ticks pid b
      (Since-trans base a b since (status_of pid v ∷ [], entry)) e

-- Where the clean-up of a process succeeds, the guest agent has told since then that it has exited, so
-- that it holds no record that a later process with the same ID could be taken for.
pub cleanup_exec-Released :
    (ticks pid : ℕ) (a : Agent)
    → (cleanup_exec ticks pid a).0 ≡ ok tt
    → Released a.calls pid (cleanup_exec ticks pid a).1
unfolding cleanup_exec
cleanup_exec-Released ticks pid a e =
    let next : Bool → Talk (Unit {0}) = λ x. if x then pure tt else kill_and_reap ticks pid in
    let (x, asked, step) = bind-run (exec_exited pid) next a e in
    let b = (exec_exited pid a).1 in
    let (v, entry, told) = exec_exited-ok pid a asked in
    subst (Released a.calls pid) (sym (ap (λ p. p.1) step))
      (exited_or a.calls ticks pid a b v x ([], refl) entry told (sym (ap (λ p. p.0) step) ∙ e))
