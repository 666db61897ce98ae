-- ===== src/Rig.antt =====
-- pkg/rig/rig.go: the commands and files through which a test suite acts on the nodes of a lab, and
-- `Until` of pkg/wait/wait.go around such an action. A node is its name, and bytes are a text.
pub mod Rules
pub mod Loops
pub mod Waiting
use labcontainers.Prelude.{
  ℕ, zero, suc, ◌+◌, ◌/◌, String, Bool, true, false, Option, none, some, List, [], ◌∷◌, Result, ok,
  err, ltb, if◌then◌else◌,
}
use labcontainers.Actions.{Action, pure, fail, try, ◌>>=◌, ◌>>◌}
use labcontainers.Wait.{interval}

-- `Exec` with its argv, `Pipe` with the input too, `Put` with content, path and mode.
pub data Op : Type 0 where
  exec_op : List String → Op
  pipe_op : String → List String → Op
  put_op : String → String → ℕ → Op

-- What a node answers: the output, and the error if there is one.
pub record Reply : Type 0 where
  pub output : String
  pub error : Option String

pub record Event : Type 0 where
  pub node : String
  pub op : Op
  pub reply : Reply

-- What has been asked of the nodes so far, the newest first.
abbrev pub History : Type 0
History = List Event

-- The nodes, the clock and the caller's context, which depend on all that has happened.
pub record Outside : Type 0 where
  pub answers : History → String → Op → Reply
  pub now : History → ℕ
  pub cancelled : History → Bool
  pub interrupted : History → Bool

-- The error of a command, or one of the code's own: a bad argument, output that is not what was asked
-- for, a node that never became ready.
pub data Fault : Type 0 where
  command : String → Fault
  invalid mismatch unready : Fault

abbrev pub Cmd : Type 0 → Type 0
Cmd A = Action History Fault A

abbrev pub replied : Reply → Result Fault String
replied r = elim r.error [ none ↦ ok r.output | some e ↦ err (command e) ]

unfoldable pub perform : Outside → String → Op → Cmd String
perform o node op h = (
  replied (o.answers h node op),
  record { node = node; op = op; reply = o.answers h node op } ∷ h,
)

unfoldable pub exec : Outside → String → List String → Cmd String
unfolding perform
exec o node argv = perform o node (exec_op argv)

unfoldable pub pipe : Outside → String → String → List String → Cmd String
unfolding perform
pipe o node input argv = perform o node (pipe_op input argv)

unfoldable pub put : Outside → String → String → String → ℕ → Cmd (Unit {0})
unfolding perform ◌>>=◌
put o node content path mode = do _ ← perform o node (put_op content path mode); pure tt

-- After an attempt that failed: the caller's context, the deadline, and the pause.
unfoldable pub after_attempt :
    Outside → ℕ → Cmd (Unit {0}) → Result Fault (Unit {0}) → Cmd (Unit {0})
after_attempt o deadline rest (ok _) h = (ok tt, h)
after_attempt o deadline rest (err e) h =
    if o.cancelled h
    then (err unready, h)
    else if ltb deadline (o.now h)
    then (err unready, h)
    else if o.interrupted h
    then (err unready, h)
    else rest h

unfoldable pub await : ℕ → Outside → ℕ → Cmd (Unit {0}) → Cmd (Unit {0})
unfolding after_attempt try ◌>>=◌
await zero o deadline attempt = fail unready
await (suc fuel) o deadline attempt = do
  r ← try attempt
  after_attempt o deadline (await fuel o deadline attempt) r

-- One round for each pause that fits, and two more, as for `until`.
unfoldable pub await_within : Outside → ℕ → Cmd (Unit {0}) → Cmd (Unit {0})
unfolding await
await_within o within attempt h =
    await (suc (suc (within / interval))) o (o.now h + within) attempt h
