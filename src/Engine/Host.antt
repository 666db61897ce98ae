-- ===== src/Engine/Host.antt =====
-- What the engine runs on: internal/engine/runner.go, and the fields of `Containerlab`. The answer at
-- `n` of a `Machine` is that to the n-th question; contexts end a command at any time, which is one
-- of its answers.
pub mod Rules
use labcontainers.Prelude.{
  ℕ, suc, String, Bool, true, false, Option, List, [], ◌∷◌, Map, nat_eq, ◌==◌, if◌then◌else◌,
  Result, ok, err,
}
use labcontainers.Spec.Native.{Bytes}
use labcontainers.Actions.{Action, pure, fail, require, modify, ◌>>=◌, ◌>>◌}

-- `Result`: what a command that ran printed, and its exit code.
pub record Ran : Type 0 where
  pub stdout : String
  pub stderr : String
  pub exit_code : ℕ

-- `refused` is an error of the engine's own, `unrunnable` one of the runner, and `exited` is
-- `CommandError`.
pub data Failure : Type 0 where
  refused unrunnable unreadable : Failure
  exited : List String → Ran → Failure

-- A bridge membership of a peer container.
pub record Attachment : Type 0 where
  pub container : String
  pub interface : String
  pub master : String

pub data Journal : Type 0 where
  entries : List Attachment → Journal
  garbled : Journal

-- A network of a container in Docker's inspection, with the five texts that are looked at.
pub record Network : Type 0 where
  pub gateway : String
  pub ip_address : String
  pub mac_address : String
  pub ipv6_gateway : String
  pub global_ipv6_address : String

-- A container in Docker's inspection. `port_bindings` and `ports` count the bindings of each port.
pub record Inspection : Type 0 where
  pub complete : Bool
  pub network_mode : String
  pub publish_all : Bool
  pub port_bindings : List ℕ
  pub ports : List ℕ
  pub networks : Map (Option Network)

-- `inspections` and `is_dry_run` decode Docker's and Containerlab's JSON, `duration` and `float` print
-- a time.Duration and a float64 of these bits, and `journal_path` names the file of a node's
-- attachments by a digest of the topology and the node. `order` is the one in which a range over a Go
-- map of these keys takes them.
pub record Machine : Type 0 where
  pub runs : ℕ → Result Failure Ran
  pub succeeds : ℕ → Bool
  pub inspections : String → Option (List Inspection)
  pub is_dry_run : String → Bool
  pub duration : ℕ → String
  pub float : ℕ → String
  pub journal_path : String → String → String
  pub order : List String → List String
  pub binary : String
  pub helper : String
  pub sudo : Bool

-- A command that was started, with its input and how it ended.
pub record Command : Type 0 where
  pub argv : List String
  pub stdin : Bytes
  pub ending : Result Failure Ran

-- `commands` holds the newest first; `journals` the files of peer attachments.
pub record Host : Type 0 where
  pub machine : Machine
  pub asked : ℕ
  pub commands : List Command
  pub journals : Map Journal

abbrev pub Cmd : Type 0 → Type 0
Cmd A = Action Host Failure A

unfoldable pub ask : Cmd Bool
ask h = (ok (h.machine.succeeds h.asked), record h { asked = suc h.asked })

-- A file operation that may fail.
unfoldable pub file : Cmd (Unit {0})
unfolding ◌>>=◌ ask
file = do done ← ask; require done unreadable

-- The host after a command.
abbrev pub ran : List String → Bytes → Host → Host
ran argv stdin h = record h {
  asked = suc h.asked;
  commands = record { argv = argv; stdin = stdin; ending = h.machine.runs h.asked } ∷ h.commands;
}

-- `Runner.Run`; an exit code is no error.
unfoldable pub run_input : Bytes → List String → Cmd Ran
run_input stdin argv h = (h.machine.runs h.asked, ran argv stdin h)

abbrev pub exits_well : List String → Ran → Cmd Ran
exits_well argv r = if nat_eq r.exit_code 0 then pure r else fail (exited argv r)

unfoldable pub checked : List String → Cmd Ran
unfolding run_input ◌>>=◌
checked argv = do r ← run_input [] argv; exits_well argv r

-- `argv` of the engine.
abbrev pub containerlab : Machine → List String → List String
containerlab m args =
    let binary = if m.binary == "" then "containerlab" else m.binary in
    if m.sudo then "sudo" ∷ "-n" ∷ binary ∷ args else binary ∷ args

unfoldable pub run : List String → Cmd Ran
unfolding checked
run args h = checked (containerlab h.machine args) h
