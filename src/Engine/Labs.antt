-- ===== src/Engine/Labs.antt =====
-- The lab operations of internal/engine/containerlab.go.
pub mod Removal
pub mod Destruction
use labcontainers.Prelude.{
  ℕ, String, Bool, true, false, not, ◌||◌, ◌&&◌, List, [], ◌∷◌, ◌++◌, nat_eq, ◌==◌, if◌then◌else◌,
  Result, ok, err,
}
use labcontainers.Prelude.FilePath.{◌⧺◌}
use labcontainers.Text.{fields, trim_space}
use labcontainers.Actions.{Action, pure, fail, require, gets, try, when, of_result, ◌>>=◌, ◌>>◌}
use labcontainers.Engine.Host.{
  Cmd, Host, Failure, refused, exited, Ran, run, run_input, checked, exits_well,
}
use labcontainers.Engine.Attachments.{save_attachments, restore_attachments}
use labcontainers.Engine.Endpoints.{crash}

unfoldable pub validate : String → Cmd (Unit {0})
unfolding run ◌>>=◌
validate topology = do _ ← run ("validate" ∷ "--topo" ∷ topology ∷ []); pure tt

unfoldable pub deploy : String → Cmd (Unit {0})
unfolding run ◌>>=◌
deploy topology = do _ ← run ("deploy" ∷ "--topo" ∷ topology ∷ "--format" ∷ "json" ∷ []); pure tt

unfoldable pub plan : String → Cmd String
unfolding run ◌>>=◌
plan topology = do
  r ← run ("deploy" ∷ "--topo" ∷ topology ∷ "--dry-run" ∷ "--format" ∷ "json" ∷ [])
  machine ← gets (λ h. h.machine)
  require (machine.is_dry_run r.stdout) refused
  pure r.stdout

abbrev pub by_topology : String → String
by_topology topology = "label=clab-topo-file=" ⧺ topology

abbrev pub list_lab : String → List String
list_lab topology = "docker" ∷ "ps" ∷ "-aq" ∷ "--filter" ∷ by_topology topology ∷ []

-- The command that the error of a listing names.
abbrev pub listing_error : String → List String
listing_error topology = "docker" ∷ "ps" ∷ "--filter" ∷ by_topology topology ∷ []

abbrev pub force_remove : List String → List String
force_remove ids = "docker" ∷ "rm" ∷ "-f" ∷ ids

-- What Containerlab left behind.
unfoldable pub sweep : List String → Cmd (Unit {0})
unfolding checked ◌>>=◌
sweep [] = pure tt
sweep (id ∷ ids) = do _ ← checked (force_remove (id ∷ ids)); pure tt

-- The error of the destruction itself.
abbrev pub result_of : Result Failure Ran → Cmd (Unit {0})
result_of (ok _) = pure tt
result_of (err e) = fail e

-- The listing that follows, and its error where the destruction had none.
unfoldable pub after_listing : String → Result Failure Ran → Result Failure Ran → Cmd (Unit {0})
unfolding sweep
after_listing topology destroyed (ok r) =
    if nat_eq r.exit_code 0
    then (do sweep (fields r.stdout); result_of destroyed)
    else (do result_of destroyed; fail (exited (listing_error topology) r))
after_listing topology destroyed (err e) = do result_of destroyed; fail e

unfoldable pub destroy : String → Cmd (Unit {0})
unfolding run after_listing try
destroy topology = do
  destroyed ← try (run ("destroy" ∷ "--topo" ∷ topology ∷ "--cleanup" ∷ []))
  listed ← try (run_input [] (list_lab topology))
  after_listing topology destroyed listed

abbrev pub stops : String → Bool
stops action = action == "crash" || action == "stop" || action == "restart"

abbrev pub is_native : String → Bool
is_native action = action == "stop" || action == "start" || action == "restart"

unfoldable pub native : String → String → String → Cmd (Unit {0})
unfolding run restore_attachments
native topology node action = do
  _ ← run (action ∷ "--topo" ∷ topology ∷ "--node" ∷ node ∷ [])
  if action == "stop" then pure tt else restore_attachments topology node

unfoldable pub lifecycle : String → String → String → String → Cmd (Unit {0})
unfolding save_attachments crash native when
lifecycle self topology node action = do
  when (stops action) (save_attachments topology node)
  if action == "crash"
      then crash self topology node
      else if is_native action
      then native topology node action
      else fail refused

abbrev pub list_node : String → String → List String
list_node topology node =
    "docker"
    ∷ "ps"
    ∷ "-aq"
    ∷ "--filter"
    ∷ by_topology topology
    ∷ "--filter"
    ∷ ("label=clab-node-name=" ⧺ node)
    ∷ []

unfoldable pub remove_node : String → String → Cmd (Unit {0})
unfolding save_attachments run
remove_node topology node = do
  save_attachments topology node
  _ ← run ("destroy" ∷ "--topo" ∷ topology ∷ "--node-filter" ∷ node ∷ [])
  remaining ← checked (list_node topology node)
  require (trim_space remaining.stdout == "") refused
