-- ===== src/GuestAgent/Serving/Limited.antt =====
-- How `ServeHTTP` of pkg/guestagent/guestagent.go runs a command in a guest that is not Windows.
use std.Path.{subst}
use labcontainers.Prelude.{
  ℕ, String, ◌≡◌, refl, sym, ap, ◌∙◌, ◌⊎◌, inl, inr, Bool, true, false, ◌&&◌, Option, none, some,
  ◌∷◌, ◌==◌, if◌then◌else◌, Result, ok, err,
}
use labcontainers.Spec.Native.{Bytes}
use labcontainers.Actions.{pure, fail, ◌>>=◌}
use labcontainers.Actions.Rules.{bind-run}
use labcontainers.GuestAgent.Channel.{
  Agent, Talk, Failure, Value, get_osinfo, is_object, call, fields_of,
}
use labcontainers.GuestAgent.Channel.Ends.{call-ok}
use labcontainers.GuestAgent.Processes.{Outcome, execute, guest_os, ask_os, keep_os, is_windows}
use labcontainers.GuestAgent.Processes.Exits.{Executed, execute-Executed}
use labcontainers.GuestAgent.Serving.{
  ExecCall, Response, bad_request, outcome, is_set, is_timeout, or_nothing, limited, read_stdin,
  run_command, respond, serve_exec,
}

-- The guest's operating system, as the agent knew it, or as the guest agent has told when it was asked
-- by one call; `b` is the agent then.
abbrev pub Told : Agent → String → Agent → Type 0
Told a os b =
    ((a.os == "") ≡ false × (os ≡ a.os) × (b ≡ a))
    ⊎ ((a.os == "") ≡ true
        × ((info : Value) × (b.calls ≡ record { request = get_osinfo; result = ok info } ∷ a.calls)
            × (os ≡ b.peer.to_lower (fields_of info).id)
            × (b.os ≡ os)))

abbrev pub Knows : Agent → String → Agent → Type 0
Knows a os b = (guest_os a ≡ (ok os, b)) × Told a os b

-- The command was run with a time limit in the guest, too, unless this is Windows, and with a positive
-- timeout.
abbrev pub Limited : ExecCall → Agent → Outcome → Agent → Type 0
Limited request a r v =
    (input : Option Bytes) × (os : String) × (b : Agent) × (is_timeout request.timeout ≡ true)
    × Knows a os b
    × ((is_windows os ≡ true)
        ⊎ Executed "timeout" ("--kill-after=5s" ∷ request.seconds ∷ or_nothing request.argv) input b
            r v)

read_stdin-same :
    (o : Option (Option Bytes)) (a : Agent) {i : Option Bytes}
    → (read_stdin o a).0 ≡ ok i
    → (read_stdin o a).1 ≡ a
unfolding pure fail
read_stdin-same none a e = refl
read_stdin-same (some none) a e = refl
read_stdin-same (some (some i)) a e = refl

ok-same : {x y : String} → Path (Result Failure String) (ok x) (ok y) → x ≡ y
ok-same e = cc

keep_os-Told :
    (info : Value) (v : Agent) {os : String}
    → (keep_os info v).0 ≡ ok os
    → (let b = (keep_os info v).1 in
        (b.calls ≡ v.calls) × (os ≡ b.peer.to_lower (fields_of info).id) × (b.os ≡ os))
unfolding pure ◌>>=◌
keep_os-Told info v e = (refl, sym (ok-same e), ok-same e)

guest_os-Told :
    (a : Agent) (x : Bool) {os : String}
    → (a.os == "") ≡ x
    → (let r = (if x then ask_os else pure a.os) a in r.0 ≡ ok os → Told a os r.1)
unfolding pure
guest_os-Told a false known e = inl (known, sym (ok-same e), refl)
guest_os-Told a true unknown e =
    let (info, done, step) = bind-run (call get_osinfo is_object) keep_os a e in
    let v = (call get_osinfo is_object a).1 in
    let (calls, os, kept) = keep_os-Told info v (sym (ap (λ p. p.0) step) ∙ e) in
    let told = (call-ok get_osinfo is_object a done).0 in
    inr (
      unknown,
      (
        info,
        ap (λ p. p.1.calls) step ∙ calls ∙ told,
        os ∙ ap (λ p. p.1.peer.to_lower (fields_of info).id) (sym step),
        ap (λ p. p.1.os) step ∙ kept,
      ),
    )

guest_os-Knows : (a : Agent) {os : String} → (guest_os a).0 ≡ ok os → Knows a os (guest_os a).1
guest_os-Knows a e =
    (ap (λ r. (r, (guest_os a).1)) e, unfold guest_os ◌>>=◌ in guest_os-Told a (a.os == "") refl e)

run_command-Limited :
    (ticks cleanup_ticks : ℕ) (request : ExecCall) (a : Agent) {r : Outcome}
    → is_timeout request.timeout ≡ true
    → (run_command ticks cleanup_ticks (or_nothing request.argv) request a).0 ≡ ok r
    → Limited request a r (run_command ticks cleanup_ticks (or_nothing request.argv) request a).1
unfolding run_command
run_command-Limited ticks cleanup_ticks request a {r = r} timed e =
    let argv = or_nothing request.argv in
    let run : Option Bytes → String → Talk Outcome = λ input os.
      execute ticks cleanup_ticks (limited (is_windows os) request.seconds argv) input in
    let (input, seen, step) =
      bind-run (read_stdin request.stdin) (λ input. guest_os >>= run input) a e in
    let whole = step ∙ ap (guest_os >>= run input) (read_stdin-same request.stdin a seen) in
    let (os, known, step') = bind-run guest_os (run input) a (sym (ap (λ p. p.0) whole) ∙ e) in
    let b = (guest_os a).1 in
    let all = whole ∙ step' in
    (
      input,
      os,
      b,
      timed,
      guest_os-Knows a known,
      subst
          (λ v.
            (is_windows os ≡ true)
            ⊎ Executed "timeout" ("--kill-after=5s" ∷ request.seconds ∷ argv) input b r v)
          (sym (ap (λ p. p.1) all))
          (unless os (is_windows os) refl b input (sym (ap (λ p. p.0) all) ∙ e)),
    )
  where
    unless :
        (os : String) (windows : Bool)
        → is_windows os ≡ windows
        → (b : Agent) (input : Option Bytes)
        → (let argv = limited windows request.seconds (or_nothing request.argv) in
            let run = execute ticks cleanup_ticks argv input b in
            run.0 ≡ ok r
            → (is_windows os ≡ true)
              ⊎ Executed "timeout"
                  ("--kill-after=5s" ∷ request.seconds ∷ or_nothing request.argv)
                  input
                  b
                  r
                  run.1)
    unless os true w b input h = inl w
    unless os false w b input h = inr (
        execute-Executed ticks cleanup_ticks "timeout"
          ("--kill-after=5s" ∷ request.seconds ∷ or_nothing request.argv) input b h)

respond-outcome : (x : Result Failure Outcome) {r : Outcome} → respond x ≡ outcome r → x ≡ ok r
respond-outcome (ok o) h = cc
respond-outcome (err c) h = cc

-- Where ServeHTTP returns the outcome of a command, the request had a positive timeout, and the agent
-- knew the guest's operating system or has first asked the guest agent for it, by one call; unless that
-- is Windows, the process that was then started and has exited is `timeout` with the command behind it.
pub serve_exec-Limited :
    (ticks cleanup_ticks : ℕ) (request : ExecCall) (a : Agent) {r : Outcome}
    → (serve_exec ticks cleanup_ticks request a).0 ≡ outcome r
    → Limited request a r (serve_exec ticks cleanup_ticks request a).1
unfolding serve_exec
serve_exec-Limited ticks cleanup_ticks request a {r = r} e =
    go (is_set request.argv) (is_timeout request.timeout) refl e
  where
    go :
        (x y : Bool)
        → is_timeout request.timeout ≡ y
        → let run = run_command ticks cleanup_ticks (or_nothing request.argv) request a in
          let served : Response × Agent =
            if x && y then (respond run.0, run.1) else (bad_request, a) in
          served.0 ≡ outcome r → Limited request a r served.1
    go true true timed h =
        run_command-Limited ticks cleanup_ticks request a timed (
          respond-outcome (run_command ticks cleanup_ticks (or_nothing request.argv) request a).0 h)
    go true false timed h = cc
    go false y timed h = cc
