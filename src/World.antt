-- ===== src/World.antt =====
-- The world that the daemon acts on, and actions on it.
--
-- Whatever is outside the repository's code (the operating system, the clock, random numbers, the
-- guests behind `Backend`) answers through `Env`: the entry at `n` is the answer to the n-th
-- question asked. `lost` says what a removal that fails has
-- removed; `root` is the store's directory. As the theorems hold for every `Env`, they hold for every behaviour of it.
pub mod Rules
use labcontainers.Prelude.{
  ℕ, suc, String, Bool, true, false, Option, none, some, List, [], ◌∷◌, Map, Result, ok, err,
  lookup, insert,
}
unfoldable pub use labcontainers.Actions.{
  Action, pure, fail, recode, status, try, ignore, finally, demand, of_result, gets, when, require,
  modify, continue, ◌>>=◌, ◌>>◌, for_each,
}
use labcontainers.Session.{Record}
use labcontainers.Spec.Native.{Bytes, Libs}

-- google.golang.org/grpc/codes, and the errors that carry no status: ErrNotFound of the store, and
-- any other. The text of a message is not modelled.
pub data Code : Type 0 where
  canceled invalid_argument not_found already_exists permission_denied : Code
  failed_precondition aborted unimplemented internal deadline_exceeded : Code
  session_not_found plain panic : Code

pub record ExecResult : Type 0 where
  pub stdout : Bytes
  pub stderr : Bytes
  pub exit_code : ℕ

-- The methods of `Backend` in internal/server/server.go with the arguments that they are called
-- with. Contexts are left out; the rates of `Netem` are in the units of the request.
pub data Call : Type 0 where
  doctor : Call
  validate deploy destroy plan : String → Call
  check_lab_name_available : String → Call
  check_session_ownership container_name : String → String → Call
  proof_isolation : String → List String → Call
  lifecycle : String → String → String → Call
  remove_node restore_attachments : String → String → Call
  exec : String → String → String → ℕ → Bytes → List String → Call
  put : String → String → String → String → ℕ → Bytes → Call
  set_link : String → String → String → String → Bool → Call
  link_up : String → String → String → String → Call
  netem : String → String → ℕ → ℕ → ℕ → ℕ → ℕ → Call
  reset_netem : String → String → Call

pub record Env : Type 0 where
  pub succeeds : ℕ → Bool
  pub random : ℕ → String
  pub now : ℕ → ℕ
  pub name : ℕ → String
  pub up : ℕ → Bool
  pub lost : ℕ → Bool
  pub result : ℕ → ExecResult
  pub bytes : ℕ → Bytes
  pub libs : Libs
  pub root : String

-- What session.json holds: a record's JSON, or bytes that are no record.
pub data Content : Type 0 where
  json : Record → Content
  garbage : Content

-- A directory under sessions/: session.json, and the temporary file of a write that is under way.
pub record Dir : Type 0 where
  pub session_json : Option Content
  pub temp : Option Content

-- `calls` holds the calls of the backend and whether they succeeded, the newest first; `events` the
-- lines of the event logs, each with its session.
pub record World : Type 0 where
  pub env : Env
  pub asked : ℕ
  pub sessions : Map Dir
  pub files : Map Bytes
  pub calls : List (Call × Bool)
  pub events : List (String × String)

abbrev pub Act : Type 0 → Type 0
Act A = Action World Code A

-- One question whose answer is success or an error.
unfoldable pub ask : Act Bool
ask w = (ok (w.env.succeeds w.asked), record w { asked = suc w.asked })

-- A value from outside.
unfoldable pub answer : {A : Type 0} → (Env → ℕ → A) → Act A
answer f w = (ok (f w.env w.asked), record w { asked = suc w.asked })

-- A call of the operating system that may fail.
unfoldable pub os : Act (Unit {0})
unfolding ◌>>=◌ ask
os = do done ← ask; require done plain

-- A call of the backend.
unfoldable pub call : Call → Act (Unit {0})
unfolding ◌>>=◌ ask
call c = do done ← ask; modify (λ w. record w { calls = (c, done) ∷ w.calls }); require done plain
