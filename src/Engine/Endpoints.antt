-- ===== src/Engine/Endpoints.antt =====
-- internal/engine/crash.go: an abrupt crash of one node, its endpoints parked before.
pub mod Parked
use labcontainers.Prelude.{String, List, [], ◌∷◌, ◌==◌, if◌then◌else◌, Result, ok, err}
use labcontainers.Prelude.FilePath.{◌⧺◌}
use labcontainers.Text.{fields}
use labcontainers.Actions.{pure, fail, gets, try, ignore, ◌>>=◌, ◌>>◌}
use labcontainers.Engine.Host.{Cmd, Machine, Failure, checked, file, Ran}
use labcontainers.Engine.Identity.{only}

-- The helper's command line; `self` is the daemon's own executable.
abbrev pub endpoint_argv : Machine → String → String → String → String → String → List String
endpoint_argv m self operation topology node id =
    let binary = if m.helper == "" then self else m.helper in
    let argv =
      binary ∷ operation ∷ "--topology" ∷ topology ∷ "--node" ∷ node ∷ "--container-id" ∷ id ∷ [] in
    if m.sudo then "sudo" ∷ "-n" ∷ argv else argv

-- os.Executable is asked only where no helper is set, and may fail.
-- os.Executable is asked for only where no helper is set.
abbrev pub find_helper : Machine → Cmd (Unit {0})
find_helper machine = if machine.helper == "" then file else pure tt

unfoldable pub endpoint_operation : String → String → String → String → String → Cmd (Unit {0})
unfolding checked file
endpoint_operation self operation topology node id = do
  machine ← gets (λ h. h.machine)
  find_helper machine
  _ ← checked (endpoint_argv machine self operation topology node id)
  pure tt

abbrev pub kill : String → List String
kill id = "docker" ∷ "kill" ∷ "--signal=KILL" ∷ id ∷ []

-- A kill that fails puts the endpoints back; its own error is the first of the two that are joined.
unfoldable pub after_kill : String → String → String → String → Result Failure Ran → Cmd (Unit {0})
unfolding endpoint_operation ignore
after_kill self topology node id (ok _) = pure tt
after_kill self topology node id (err e) = do
  ignore (endpoint_operation self "restore-endpoints" topology node id)
  fail e

abbrev pub list_running : String → String → List String
list_running topology node =
    "docker"
    ∷ "ps"
    ∷ "-q"
    ∷ "--no-trunc"
    ∷ "--filter"
    ∷ ("label=clab-topo-file=" ⧺ topology)
    ∷ "--filter"
    ∷ ("label=clab-node-name=" ⧺ node)
    ∷ []

-- One container, by its immutable ID.
unfoldable pub park_and_kill : String → String → String → String → Cmd (Unit {0})
unfolding after_kill try
park_and_kill self topology node id = do
  endpoint_operation self "park-endpoints" topology node id
  killed ← try (checked (kill id))
  after_kill self topology node id killed

unfoldable pub crash : String → String → String → Cmd (Unit {0})
unfolding only park_and_kill
crash self topology node = do
  r ← checked (list_running topology node)
  id ← only (fields r.stdout)
  park_and_kill self topology node id
