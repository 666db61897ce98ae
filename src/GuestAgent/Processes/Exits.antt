-- ===== src/GuestAgent/Processes/Exits.antt =====
-- What `Execute` of pkg/guestagent/guestagent.go has seen where it returns a result.
use mathlib.Core.List.{append_assoc}
use std.Path.{subst}
use labcontainers.Prelude.{
  ℕ, zero, suc, ◌+◌, ◌%◌, ◌^◌, ◌≢◌, ◌⊎◌, inl, inr, nat_eq, arith, String, ◌≡◌, refl, sym, ap, ◌∙◌,
  Bool, true, false, ◌||◌, Option, List, [], ◌∷◌, ◌++◌, All, if◌then◌else◌, Result, ok, err,
}
use labcontainers.Spec.Native.{Bytes}
use labcontainers.Actions.{pure, fail, require, try, ◌>>=◌, ◌>>◌}
use labcontainers.Actions.Rules.{bind-run, require-run}
use labcontainers.GuestAgent.Channel.{
  Exchange, Agent, Talk, Value, Fields, Failure, expired, truncated, no_process, call, exec,
  exec_status, is_object, fields_of,
}
use labcontainers.GuestAgent.Channel.Ends.{call-ok}
use labcontainers.GuestAgent.Processes.{
  Outcome, execute, poll_exec, cleanup_exec, finish, exit_code_of, is_pid,
}
use labcontainers.GuestAgent.Processes.Reaped.{status_of}

-- The exit code of a process, or 128 and the number of the signal that ended it, as a Go `int`.
abbrev pub ExitsWith : Fields → ℕ → Type 0
ExitsWith f code =
    ((f.signal ≡ 0) × (code ≡ f.exit_code)) ⊎ ((f.signal ≢ 0) × (code ≡ (128 + f.signal) % 2 ^ 64))

ExitsWith-self : (f : Fields) → ExitsWith f (exit_code_of f)
ExitsWith-self f = go (nat_eq f.signal 0) refl
  where
    go :
        (x : Bool)
        → nat_eq f.signal 0 ≡ x
        → ExitsWith f (if x then f.exit_code else (128 + f.signal) % 2 ^ 64)
    go true e = inl (ground arith, refl)
    go false e = inr (ground arith, refl)

-- An answer that the process still runs.
abbrev Running : ℕ → Exchange → Type 0
Running pid x = (v : Value) × (x ≡ status_of pid v) × ((fields_of v).exited ≡ false)

-- The status was asked for until the process had exited, and `f` is the last answer.
abbrev Polled : List Exchange → ℕ → Fields → Agent → Type 0
Polled base pid f b =
    (polls : List Exchange) × (v : Value) × (b.calls ≡ status_of pid v ∷ (polls ++ base))
    × All (Running pid) polls
    × (fields_of v ≡ f)
    × (f.exited ≡ true)

All-snoc :
    (pid : ℕ) (xs : List Exchange) (x : Exchange)
    → All (Running pid) xs
    → Running pid x
    → All (Running pid) (xs ++ x ∷ [])
All-snoc pid [] x all one = (one, tt)
All-snoc pid (y ∷ xs) x (here, rest) one = (here, All-snoc pid xs x rest one)

Polled-later :
    (base : List Exchange) (pid : ℕ) (f : Fields) (b : Agent) (v : Value)
    → (fields_of v).exited ≡ false
    → Polled (status_of pid v ∷ base) pid f b
    → Polled base pid f b
Polled-later base pid f b v runs (polls, w, entry, all, same, gone) = (
  polls ++ status_of pid v ∷ [],
  w,
  entry ∙ ap (λ xs. status_of pid w ∷ xs) (sym (append_assoc polls (status_of pid v ∷ []) base)),
  All-snoc pid polls (status_of pid v) all (v, refl, runs),
  same,
  gone,
)

-- What `poll_exec` does after an answer.
exited_else :
    (base : List Exchange) (pid : ℕ) (later : Talk Fields) (v : Value) (x : Bool) (b : Agent)
    {f : Fields}
    → b.calls ≡ status_of pid v ∷ base
    → (fields_of v).exited ≡ x
    → ((later b).0 ≡ ok f → Polled (status_of pid v ∷ base) pid f (later b).1)
    → ((if x then pure (fields_of v) else later) b).0 ≡ ok f
    → Polled base pid f ((if x then pure (fields_of v) else later) b).1
unfolding pure
exited_else base pid later v true b entry told good e =
    let same : fields_of v ≡ _ = cc in
    ([], v, entry, tt, same, sym (ap (λ g. g.exited) same) ∙ told)
exited_else base pid later v false b entry told good e =
    Polled-later base pid _ (later b).1 v told (good e)

asked_else :
    (pid : ℕ) (later : Talk Fields) (a : Agent) {f : Fields}
    → ((b : Agent) → (later b).0 ≡ ok f → Polled b.calls pid f (later b).1)
    → let m = call (exec_status pid) is_object >>= λ v.
        if (fields_of v).exited then pure (fields_of v) else later in
      (m a).0 ≡ ok f → Polled a.calls pid f (m a).1
asked_else pid later a {f = f} good e =
    let asking = call (exec_status pid) is_object in
    let next : Value → Talk Fields =
      λ v. if (fields_of v).exited then pure (fields_of v) else later in
    let (v, asked, step) = bind-run asking next a e in
    let b = (asking a).1 in
    let (entry, _) = call-ok (exec_status pid) is_object a asked in
    subst (Polled a.calls pid f) (sym (ap (λ p. p.1) step)) (
      exited_else a.calls pid later v (fields_of v).exited b entry refl
        (λ e. subst (λ base. Polled base pid f (later b).1) entry (good b e))
        (sym (ap (λ p. p.0) step) ∙ e))

poll_exec-Polled :
    (ticks pid : ℕ) (a : Agent) {f : Fields}
    → (poll_exec ticks pid a).0 ≡ ok f
    → Polled a.calls pid f (poll_exec ticks pid a).1
unfolding poll_exec pure fail
poll_exec-Polled zero pid a {f = f} e = asked_else pid (fail expired) a {f = f} (λ b e. cc) e
poll_exec-Polled (suc ticks) pid a {f = f} e =
    asked_else pid (poll_exec ticks pid) a {f = f} (λ b e. poll_exec-Polled ticks pid b {f = f} e) e

-- The history and the result of a command that has returned.
abbrev pub Executed : String → List String → Option Bytes → Agent → Outcome → Agent → Type 0
Executed path args input a r b =
    (u v : Value) × (polls : List Exchange) × (b.calls
      ≡ status_of (fields_of u).pid v
        ∷ (polls ++ record { request = exec path args true input; result = ok u } ∷ a.calls))
    × All (Running (fields_of u).pid) polls
    × (is_pid (fields_of u).pid ≡ true)
    × ((fields_of v).exited ≡ true)
    × (((fields_of v).out_truncated || (fields_of v).err_truncated) ≡ false)
    × (r.stdout ≡ (fields_of v).out)
    × (r.stderr ≡ (fields_of v).err_out)
    × ExitsWith (fields_of v) r.exit_code

output_or :
    (f : Fields) (x : Bool) (b : Agent) {r : Outcome}
    → let o : Outcome = record { stdout = f.out; stderr = f.err_out; exit_code = exit_code_of f } in
      let m : Talk Outcome = if x then fail truncated else pure o in
      (m b).0 ≡ ok r → (x ≡ false) × (o ≡ r) × ((m b).1 ≡ b)
unfolding pure fail
output_or f true b e = cc
output_or f false b e = (refl, cc, refl)

finish-ok :
    (ticks pid : ℕ) (x : Result Failure Fields) (b : Agent) {r : Outcome}
    → (finish ticks pid x b).0 ≡ ok r
    → (f : Fields) × (x ≡ ok f)
      × ((finish ticks pid x b).1 ≡ b)
      × ((f.out_truncated || f.err_truncated) ≡ false)
      × (record { stdout = f.out; stderr = f.err_out; exit_code = exit_code_of f } ≡ r)
unfolding fail
finish-ok ticks pid (ok f) b e =
    let (sound, same, still) = output_or f (f.out_truncated || f.err_truncated) b e in
    (f, refl, still, sound, same)
finish-ok ticks pid (err c) b {r = r} e =
    let (_, _, step) = bind-run (try (cleanup_exec ticks pid)) (λ _. fail c) b e in
    let never : ◌≡◌ {A = Result Failure Outcome} (err c) (ok r) = sym (ap (λ p. p.0) step) ∙ e in cc

-- Where Execute returns a result, exactly one process was started and nothing was asked for but its
-- status: the guest agent has told that it runs, perhaps several times, and last that it has exited,
-- which releases its record. The result has its whole output, and its exit code or, after a signal,
-- 128 and the signal's number.
pub execute-Executed :
    (ticks cleanup_ticks : ℕ) (path : String) (args : List String) (input : Option Bytes)
    (a : Agent) {r : Outcome}
    → (execute ticks cleanup_ticks (path ∷ args) input a).0 ≡ ok r
    → Executed path args input a r (execute ticks cleanup_ticks (path ∷ args) input a).1
unfolding execute
execute-Executed ticks cleanup_ticks path args input a {r = r} e =
    let starting = call (exec path args true input) is_object in
    let wait : ℕ → Talk Outcome = λ pid. try (poll_exec ticks pid) >>= finish cleanup_ticks pid in
    let rest : Value → Talk Outcome =
      λ u. require (is_pid (fields_of u).pid) no_process >> wait (fields_of u).pid in
    let (u, started, step) = bind-run starting rest a e in
    let b = (starting a).1 in
    let pid = (fields_of u).pid in
    let (entry, _) = call-ok (exec path args true input) is_object a started in
    let (positive, step') =
      require-run (is_pid pid) no_process (wait pid) b (sym (ap (λ p. p.0) step) ∙ e) in
    let whole = step ∙ step' in
    let c = (poll_exec ticks pid b).1 in
    let (f, polled, still, sound, same) =
      finish-ok cleanup_ticks pid (poll_exec ticks pid b).0 c (sym (ap (λ p. p.0) whole) ∙ e) in
    let (polls, v, last, all, told, gone) = poll_exec-Polled ticks pid b polled in
    (
      u,
      v,
      polls,
      ap (λ p. p.1.calls) whole
          ∙ ap (λ w. w.calls) still
          ∙ last
          ∙ ap (λ xs. status_of pid v ∷ (polls ++ xs)) entry,
      all,
      positive,
      ap (λ g. g.exited) told ∙ gone,
      ap (λ g. g.out_truncated || g.err_truncated) told ∙ sound,
      sym (ap (λ o. o.stdout) same) ∙ sym (ap (λ g. g.out) told),
      sym (ap (λ o. o.stderr) same) ∙ sym (ap (λ g. g.err_out) told),
      subst (ExitsWith (fields_of v)) (ap exit_code_of told ∙ ap (λ o. o.exit_code) same)
          (ExitsWith-self (fields_of v)),
    )
