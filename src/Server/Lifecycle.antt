-- ===== src/Server/Lifecycle.antt =====
-- Lifecycle of internal/server/server.go.
use labcontainers.Prelude.{
  String, Result, ok, err, Bool, true, false, not, ◌||◌, ◌&&◌, Option, [], ◌∷◌, ◌==◌, if◌then◌else◌,
}
use labcontainers.Prelude.FilePath.{◌⧺◌}
use labcontainers.Session.{Record, Node}
use labcontainers.Session.Store.{save}
use labcontainers.Spec.Native.{Bytes}
use labcontainers.World.{
  Call, Code, invalid_argument, internal, failed_precondition, Act, pure, fail, call, try, status,
  ignore, require, when, lifecycle, check_session_ownership, remove_node, validate, ◌>>=◌, ◌>>◌,
}
use labcontainers.Server.Records.{NodeRef, node_of, key_of, event, set_node}
use labcontainers.Server.Fault.{any_fault}
use labcontainers.Server.Bootstrap.{Data, is_valid, configure_bootstrap, reset_disks}
use labcontainers.Server.Draft.{verify_running_node}

pub data Action : Type 0 where
  unspecified power_off start restart replace crash : Action

abbrev pub action_name : Action → String
action_name power_off = "stop"
action_name start = "start"
action_name restart = "restart"
action_name replace = "replace"
action_name crash = "crash"
action_name unspecified = ""

pub record LifecycleRequest : Type 0 where
  pub node : Option NodeRef
  pub action : Action
  pub bootstrap : Data

abbrev is_some_data : Bytes → Bool
is_some_data [] = false
is_some_data (b ∷ bs) = true

abbrev pub has_data : Data → Bool
has_data d = is_some_data d.value

-- The record with the node of this key in another state.
abbrev pub in_state : String → String → Node → Record → Record
in_state state key n r = set_node key (record n { state = state }) r

-- What a failed backend call leaves: the node's state is not known any more.
unfoldable pub give_up : String → String → Node → Record → Code → Act (Unit {0})
unfolding ◌>>=◌
give_up action key n r c = do
  ignore (save (in_state "unknown" key n r))
  event r ("node." ⧺ action ⧺ ".failed")
  fail c

-- Caller data is looked at before anything is stopped.
abbrev pub fits : Data → Node → Bool
fits d n = n.control == "qga" && (n.bootstrap_format == "" || n.bootstrap_format == d.format)

unfoldable pub check_replacement : Record → Node → Data → Act (Unit {0})
unfolding call is_valid
check_replacement r n d = do
  require (not (any_fault (λ f. f.active) r.faults)) failed_precondition
  status failed_precondition (call (check_session_ownership r.name r.id))
  when (has_data d) (do require (is_valid d) invalid_argument; require (fits d n) invalid_argument)

unfoldable pub after_attempt :
    String → String → Node → Record → Result Code (Unit {0}) → Act (Unit {0})
unfolding give_up
after_attempt action key n r (ok _) = pure tt
after_attempt action key n r (err _) = give_up action key n r internal

unfoldable pub attempt : String → String → Node → Record → Call → Act (Unit {0})
unfolding call after_attempt
attempt action key n r c = do done ← try (call c); after_attempt action key n r done

-- The new data is published once the old machine holds its files no more.
unfoldable pub renew_bootstrap : Record → Node → Data → Act Node
unfolding call
renew_bootstrap r n d =
    if has_data d
    then (do
      n' ← status invalid_argument (configure_bootstrap r n d)
      status invalid_argument (call (validate r.topology_path))
      pure n')
    else pure n

abbrev pub pending : Node → Node
pending n = record n { state = "replacement-pending" }

unfoldable pub replace_node : String → Record → Node → Data → Act Node
unfolding check_replacement attempt renew_bootstrap
replace_node key r n d = do
  check_replacement r n d
  event r "node.replace.requested"
  attempt "replace" key n r (remove_node r.topology_path n.name)
  status internal (save (set_node key (pending n) r))
  n' ← renew_bootstrap r (pending n) d
  status internal (reset_disks n'.disks)
  pure (pending n')

unfoldable pub after_check : String → Record → Node → Result Code (Unit {0}) → Act Node
unfolding ◌>>=◌
after_check key r n (ok _) = pure (record n { state = "running" })
after_check key r n (err _) = do
  ignore (save (in_state "unknown" key n r))
  fail failed_precondition

-- A native start may report success after its machine vanished.
unfoldable pub confirm : String → Record → Node → Act Node
unfolding after_check
confirm key r n = do seen ← try (verify_running_node r n.name); after_check key r n seen

abbrev pub halts : Action → Bool
halts power_off = true
halts crash = true
halts _ = false

unfoldable pub drive_node : String → Record → Node → Action → Act Node
unfolding attempt confirm
drive_node key r n a = do
  event r ("node." ⧺ action_name a ⧺ ".requested")
  attempt (action_name a) key n r (lifecycle r.topology_path n.name (action_name a))
  if halts a then pure (record n { state = "stopped" }) else confirm key r n

unfoldable pub perform : String → Record → Node → Data → Action → Act Node
unfolding replace_node drive_node
perform key r n d unspecified = fail invalid_argument
perform key r n d replace = replace_node key r n d
perform key r n d power_off = drive_node key r n power_off
perform key r n d start = drive_node key r n start
perform key r n d restart = drive_node key r n restart
perform key r n d crash = drive_node key r n crash

-- The handler; the reply is the node with its new state.
unfoldable pub lifecycle_node : LifecycleRequest → Act Node
unfolding ◌>>=◌
lifecycle_node req = do
  (r, n) ← node_of req.node
  let key = key_of req.node
  n' ← perform key r n req.bootstrap req.action
  status internal (save (set_node key n' r))
  event r ("node." ⧺ action_name req.action)
  pure n'
