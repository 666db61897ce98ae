-- ===== src/Server/Timeline.antt =====
-- RunTimeline and `waitExec` of internal/server/server.go.
pub mod Fuel
pub mod Rollback
use labcontainers.Prelude.{
  ℕ, zero, suc, ◌+◌, ◌*◌, ◌/◌, ◌-◌, String, Result, ok, err, Bool, true, false, ◌||◌, ◌&&◌, Option,
  none, some, List, [], ◌∷◌, ltb, leb, nat_eq, length, if◌then◌else◌,
}
use mathlib.Core.List.{reverse}
use labcontainers.Spec.Native.{Bytes}
use labcontainers.World.{
  Code, invalid_argument, failed_precondition, canceled, aborted, deadline_exceeded, panic, Act,
  ExecResult, pure, fail, ask, answer, try, ignore, demand, require, for_each, ◌>>=◌, ◌>>◌,
}
use labcontainers.Server.Records.{NodeRef, record_of, event, is_positive, scaled, duration_or}
use labcontainers.Server.Fault.{ApplyFaultRequest, apply_fault, revert_fault}
use labcontainers.Server.Lifecycle.{LifecycleRequest, lifecycle_node}
use labcontainers.Server.Guest.{ExecRequest, exec_node, millisecond}

pub record WaitExec : Type 0 where
  pub exec : ExecRequest
  pub retry_millis : ℕ
  pub timeout_millis : ℕ
  pub expected_exit_code : ℕ
  pub stdout_contains : Bytes
  pub stderr_contains : Bytes

pub data Action : Type 0 where
  lifecycle_action : LifecycleRequest → Action
  apply_action : ApplyFaultRequest → Action
  revert_action : String → Action
  exec_action : ExecRequest → Action
  wait_action : WaitExec → Action
  no_action : Action

pub record TimelineAction : Type 0 where
  pub at_millis : ℕ
  pub action : Action

abbrev starts : Bytes → Bytes → Bool
starts [] s = true
starts (p ∷ ps) [] = false
starts (p ∷ ps) (c ∷ cs) = nat_eq p c && starts ps cs

unfoldable pub contains : Bytes → Bytes → Bool
contains s [] = starts s []
contains s (c ∷ cs) = starts s (c ∷ cs) || contains s cs

unfoldable pub satisfies : WaitExec → ExecResult → Bool
unfolding contains
satisfies wait r =
    nat_eq r.exit_code wait.expected_exit_code
    && contains wait.stdout_contains r.stdout
    && contains wait.stderr_contains r.stderr

abbrev pub is_match : WaitExec → Result Code ExecResult → Bool
is_match wait (ok r) = satisfies wait r
is_match wait (err c) = false

-- The event of a session that can still be read.
unfoldable pub log_event : String → String → Act (Unit {0})
unfolding ◌>>=◌
log_event session_id kind = ignore (do r ← record_of session_id; event r kind)

-- The pause between two attempts, which the deadline and the caller may end.
unfoldable pub pause : ℕ → ℕ → ℕ → Act (Unit {0}) → Act (Unit {0})
unfolding ask ◌>>=◌
pause took retry left rest = do
  going ← ask
  require (going && ltb (took + retry) left) deadline_exceeded
  rest

-- One round of `waitExec`: `left` is the time to the deadline, of which the attempt takes some.
unfoldable pub poll_round : String → WaitExec → ℕ → ℕ → (ℕ → Act (Unit {0})) → Act (Unit {0})
unfolding pause answer ask
poll_round session_id wait retry left again = do
  r ← try (exec_node wait.exec)
  took ← answer (λ e n. e.now n)
  alive ← ask
  require (alive && ltb took left) deadline_exceeded
  if is_match wait r
      then log_event session_id "timeline.predicate.matched"
      else pause took retry left (again took)

unfoldable pub poll : ℕ → String → WaitExec → ℕ → ℕ → Act (Unit {0})
unfolding poll_round
poll zero session_id wait retry left = fail deadline_exceeded
poll (suc f) session_id wait retry left =
    poll_round session_id wait retry left
      (λ took. poll f session_id wait retry (left - took - retry))

abbrev set_session : String → NodeRef → NodeRef
set_session id ref = record ref { session_id = id }

abbrev is_some {ℓ} : {A : Type ℓ} → Option A → Bool
is_some none = false
is_some (some _) = true

abbrev is_call : List String → Bool
is_call [] = false
is_call (_ ∷ _) = true

-- The rounds that the deadline admits, since each takes a pause.
abbrev pub rounds : ℕ → ℕ → ℕ
rounds timeout retry = suc (timeout / retry)

unfoldable pub wait_exec : String → WaitExec → Act (Unit {0})
unfolding poll
wait_exec session_id wait = do
  require (is_call wait.exec.argv) invalid_argument
  ref ← demand wait.exec.node invalid_argument
  let retry = duration_or (100 * millisecond) millisecond wait.retry_millis
  let timeout = duration_or (30000 * millisecond) millisecond wait.timeout_millis
  require (leb timeout (600000 * millisecond)) invalid_argument
  let exec' = record wait.exec { node = some (set_session session_id ref) }
  poll (rounds timeout retry) session_id (record wait { exec = exec' }) retry timeout

-- One action; the ID of a fault that it creates. A missing node is a nil pointer that the code
-- writes through.
unfoldable pub perform_action : String → Action → Act (Option String)
unfolding wait_exec
perform_action session_id (lifecycle_action req) = do
  ref ← demand req.node panic
  _ ← lifecycle_node (record req { node = some (set_session session_id ref) })
  pure none
perform_action session_id (apply_action req) = do
  f ← apply_fault (record req { session_id = session_id })
  pure (some f.id)
perform_action session_id (revert_action id) = do revert_fault session_id id; pure none
perform_action session_id (exec_action req) = do
  ref ← demand req.node panic
  r ← exec_node (record req { node = some (set_session session_id ref) })
  require (nat_eq r.exit_code 0) failed_precondition
  pure none
perform_action session_id (wait_action wait) = do wait_exec session_id wait; pure none
perform_action session_id no_action = fail invalid_argument

-- The newest fault first; what fails is left.
unfoldable pub rollback : String → List String → Act (Unit {0})
unfolding for_each
rollback session_id created = for_each created (λ id. ignore (revert_fault session_id id))

-- `at_millis` after the start, as the bit pattern of an int64; `false` if the caller cancels.
unfoldable pub wait_for : ℕ → ℕ → Act Bool
unfolding ask answer ◌>>=◌
wait_for started at_millis = do
  now ← answer (λ e n. e.now n)
  let delay = scaled millisecond at_millis
  if is_positive delay && ltb now (started + delay) then ask else pure true

abbrev added : Option String → List String → List String
added none created = created
added (some id) created = id ∷ created

unfoldable pub after_action :
    String
    → List String
    → (List String → Act (List String))
    → Result Code (Option String)
    → Act (List String)
unfolding rollback
after_action session_id created rest (ok id) = rest (added id created)
after_action session_id created rest (err panic) = fail panic
after_action session_id created rest (err _) = do
  log_event session_id "timeline.failed"
  rollback session_id created
  fail aborted

unfoldable pub after_wait :
    String → List String → (List String → Act (List String)) → Action → Bool → Act (List String)
unfolding rollback after_action
after_wait session_id created rest a true = do
  done ← try (perform_action session_id a)
  after_action session_id created rest done
after_wait session_id created rest a false = do rollback session_id created; fail canceled

-- `created` holds the faults so far, the newest first.
unfoldable pub run_actions : String → ℕ → List TimelineAction → List String → Act (List String)
unfolding wait_for after_wait
run_actions session_id started [] created = pure created
run_actions session_id started (a ∷ rest) created = do
  waited ← wait_for started a.at_millis
  after_wait session_id created (run_actions session_id started rest) a.action waited

pub record TimelineResult : Type 0 where
  pub completed : ℕ
  pub fault_ids : List String

unfoldable pub run_timeline : String → List TimelineAction → Act TimelineResult
unfolding run_actions answer
run_timeline session_id actions = do
  started ← answer (λ e n. e.now n)
  created ← run_actions session_id started actions []
  pure (record { completed = length actions; fault_ids = reverse created })
