-- ===== src/GuestAgent/Processes.antt =====
-- `OS`, `Execute` and its clean-up in pkg/guestagent/guestagent.go. `ticks` is how often a loop may
-- wait before its context ends.
pub mod Reaped
pub mod Cleanup
pub mod Exits
use Prim.Native.Char.{Char, code}
use labcontainers.Prelude.{
  ℕ, suc, zero, ◌+◌, ◌%◌, ◌^◌, String, Bool, true, false, not, ◌&&◌, ◌||◌, Option, none, some, List,
  [], ◌∷◌, leb, ltb, nat_eq, ◌==◌, if◌then◌else◌, Result, ok, err,
}
use labcontainers.Spec.Native.{Bytes}
use labcontainers.Text.Numbers.{decimal}
use labcontainers.Actions.{Action, pure, fail, require, gets, modify, try, ◌>>=◌, ◌>>◌}
use labcontainers.GuestAgent.Channel.{
  Talk, Agent, Value, Fields, Failure, expired, no_process, truncated, empty_command, call,
  get_osinfo, exec, exec_status, anything, is_object, fields_of,
}

abbrev pub keep_os : Value → Talk String
keep_os info = do
  peer ← gets (λ a. a.peer)
  modify (λ a. record a { os = peer.to_lower (fields_of info).id })
  pure (peer.to_lower (fields_of info).id)

abbrev pub ask_os : Talk String
ask_os = do info ← call get_osinfo is_object; keep_os info

-- The guest's operating system, asked for once.
unfoldable pub guest_os : Talk String
unfolding call pure
guest_os = do known ← gets (λ a. a.os); if known == "" then ask_os else pure known

abbrev starts_win : String → Bool
starts_win (String.◌∷◌ a (String.◌∷◌ b (String.◌∷◌ c s))) =
    nat_eq (code a) b'w' && nat_eq (code b) b'i' && nat_eq (code c) b'n'
starts_win _ = false

-- `isWindowsOS` of a name in lower case.
abbrev pub is_windows : String → Bool
is_windows os = os == "windows" || os == "mswindows" || starts_win os

-- An `int` above zero.
abbrev pub is_pid : ℕ → Bool
is_pid n = ltb 0 n && ltb n (2 ^ 63)

-- strconv.Itoa of such a number.
abbrev pub itoa : ℕ → String
itoa n = decimal n

unfoldable pub exec_exited : ℕ → Talk Bool
unfolding call pure
exec_exited pid = do state ← call (exec_status pid) is_object; pure (fields_of state).exited

-- One round over the processes that are left: those that have not exited.
unfoldable pub reap_round : List ℕ → Talk (List ℕ)
unfolding exec_exited ◌>>=◌
reap_round [] = pure []
reap_round (pid ∷ pids) = do
  exited ← exec_exited pid
  left ← reap_round pids
  pure (if exited then left else pid ∷ left)

unfoldable pub reap_exec : ℕ → List ℕ → Talk (Unit {0})
unfolding reap_round
reap_exec ticks [] = pure tt
reap_exec zero (pid ∷ pids) = do
  left ← reap_round (pid ∷ pids)
  require (elim left [ [] ↦ true | _ ↦ false ]) expired
reap_exec (suc ticks) (pid ∷ pids) = do left ← reap_round (pid ∷ pids); reap_exec ticks left

abbrev pub kill_path : Bool → String
kill_path windows = if windows then "C:\\Windows\\System32\\taskkill.exe" else "kill"

abbrev pub kill_args : Bool → ℕ → List String
kill_args windows pid =
    if windows then "/PID" ∷ itoa pid ∷ "/T" ∷ "/F" ∷ [] else "-TERM" ∷ itoa pid ∷ []

abbrev pub kill_command : ℕ → Talk Value
kill_command pid = do
  os ← guest_os
  call (exec (kill_path (is_windows os)) (kill_args (is_windows os) pid) false none) is_object

-- The helper that kills leaves a record too.
unfoldable pub kill_and_reap : ℕ → ℕ → Talk (Unit {0})
unfolding guest_os reap_exec
kill_and_reap ticks pid = do
  helper ← kill_command pid
  let helper_pid = (fields_of helper).pid
  require (is_pid helper_pid) no_process
  reap_exec ticks (pid ∷ helper_pid ∷ [])

unfoldable pub cleanup_exec : ℕ → ℕ → Talk (Unit {0})
unfolding exec_exited kill_and_reap
cleanup_exec ticks pid = do
  exited ← exec_exited pid
  if exited then pure tt else kill_and_reap ticks pid

-- `Result`, without its text of an error.
pub record Outcome : Type 0 where
  pub stdout : Bytes
  pub stderr : Bytes
  pub exit_code : ℕ

-- A process that was ended by a signal.
abbrev pub exit_code_of : Fields → ℕ
exit_code_of f = if nat_eq f.signal 0 then f.exit_code else (128 + f.signal) % 2 ^ 64

abbrev pub output_of : Fields → Talk Outcome
output_of f =
    if f.out_truncated || f.err_truncated
    then fail truncated
    else pure (record { stdout = f.out; stderr = f.err_out; exit_code = exit_code_of f })

-- The loop of `Execute`: what the process has returned, or `none` where it has not exited in time.
unfoldable pub poll_exec : ℕ → ℕ → Talk Fields
unfolding call ◌>>=◌
poll_exec zero pid = do
  state ← call (exec_status pid) is_object
  if (fields_of state).exited then pure (fields_of state) else fail expired
poll_exec (suc ticks) pid = do
  state ← call (exec_status pid) is_object
  if (fields_of state).exited then pure (fields_of state) else poll_exec ticks pid

-- The deferred clean-up, whose error is only added to the text of the first.
abbrev pub finish : ℕ → ℕ → Result Failure Fields → Talk Outcome
finish ticks pid (ok f) = output_of f
finish ticks pid (err e) = do _ ← try (cleanup_exec ticks pid); fail e

unfoldable pub execute : ℕ → ℕ → List String → Option Bytes → Talk Outcome
unfolding poll_exec cleanup_exec try
execute ticks cleanup_ticks [] input = fail empty_command
execute ticks cleanup_ticks (path ∷ args) input = do
  process ← call (exec path args true input) is_object
  let pid = (fields_of process).pid
  require (is_pid pid) no_process
  r ← try (poll_exec ticks pid)
  finish cleanup_ticks pid r
