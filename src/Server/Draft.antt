-- ===== src/Server/Draft.antt =====
-- `prepareDraft`, PlanTopology and `topologyBytes` (internal/server/plan.go and server.go), and
-- `verifyRunningNode` of internal/server/lifecycle.go.
use labcontainers.Prelude.{
  String, ◌||◌, Option, none, some, Map, lookup, delete, List, [], ◌∷◌, ◌++◌, map, ◌==◌,
  if◌then◌else◌, any,
}
use labcontainers.Prelude.FilePath.{◌⧺◌, is_abs, clean, join, dir_of}
use labcontainers.Session.{Record, Node}
use labcontainers.Spec.Native.{Bytes}
use labcontainers.Spec.Prepare.{Prepared, prepare, prepare_with_options}
use labcontainers.World.{
  invalid_argument, internal, failed_precondition, plain, Act, pure, fail, ask, os, answer, gets,
  modify, call, status, finally, when, demand, of_result, require, container_name, proof_isolation,
  plan, ◌>>=◌, ◌>>◌,
}
use labcontainers.Server.Records.{record_of}
use labcontainers.Server.Bootstrap.{read_file, write_file, disk_bind, bootstrap_target}

-- The source of a topology in a request.
pub data Source : Type 0 where
  path_source : String → Source
  yaml_source : Bytes → Source
  no_source : Source

pub record TopologySource : Type 0 where
  pub source : Source
  pub base_directory : String

-- `filepath.Abs`: a relative path is one below the working directory, which has to be asked for.
abs_path : String → Act String
unfolding os answer clean join
abs_path p =
    if is_abs p
    then pure (clean p)
    else do os; working ← answer (λ e n. e.name n); pure (join working p)

unfoldable pub topology_bytes : TopologySource → Source → Act (Bytes × String)
unfolding abs_path
topology_bytes src (yaml_source yaml) = do
  require (src.base_directory == "" || is_abs src.base_directory) plain
  pure (yaml, src.base_directory)
topology_bytes src (path_source p) = do
  require (src.base_directory == "") plain
  path ← abs_path p
  b ← read_file path
  pure (b, dir_of path)
topology_bytes src no_source = fail plain

-- The binds of the attachments of one retained node.
unfoldable pub attachment_binds : Node → Option (List String)
attachment_binds n =
    let disks = map disk_bind n.disks in
    if n.bootstrap_path == "" then some disks else elim (bootstrap_target n.bootstrap_format) [
      | none ↦ none
      | some target ↦ some (disks ++ (n.bootstrap_path ⧺ ":" ⧺ target ⧺ ":ro") ∷ [])
    ]

-- Attachments survive on retained nodes; those of removed nodes do not come along.
unfoldable pub retained_binds : Record → List String → Option (Map (List String))
unfolding attachment_binds
retained_binds r [] = some []
retained_binds r (name ∷ names) =
    let others = retained_binds r names in
    elim (lookup name r.nodes) [
      | none ↦ others
      | some n ↦ elim (attachment_binds n) [
        | none ↦ none
        | some [] ↦ others
        | some (b ∷ bs) ↦ elim others [ none ↦ none | some m ↦ some ((name, b ∷ bs) ∷ m) ]
      ]
    ]

unfoldable pub prepare_draft : Record → Option TopologySource → Act Prepared
unfolding topology_bytes ◌>>=◌
prepare_draft r none = do
  raw ← read_file r.topology_path
  libs ← gets (λ w. w.env.libs)
  of_result (prepare libs raw r.name r.id r.allow_external_access) plain
prepare_draft r (some src) = do
  (raw, base) ← topology_bytes src src.source
  libs ← gets (λ w. w.env.libs)
  first ←
      of_result
        (prepare_with_options libs raw r.name r.id r.allow_external_access
          (record { node_binds = []; base_dir = base }))
        plain
  binds ← demand (retained_binds r first.nodes) plain
  of_result
      (prepare_with_options libs raw r.name r.id r.allow_external_access
        (record { node_binds = binds; base_dir = base }))
      plain

-- Planning writes a draft beside the authoritative topology and removes it; `path` is its name.
remove_file : String → Act (Unit {0})
unfolding ◌>>=◌ ask
remove_file path = do
  done ← ask
  modify (λ w. record w { files = if done then delete path w.files else w.files })

plan_path : String → Act Bytes
unfolding call answer
plan_path path = do status failed_precondition (call (plan path)); answer (λ e n. e.bytes n)

plan_draft : Prepared → Act Bytes
unfolding os answer plan_path write_file remove_file
plan_draft p = do
  status internal os
  path ← answer (λ e n. e.name n)
  finally (do status internal (write_file path p.yaml); status internal os; plan_path path)
      (remove_file path)

unfoldable pub plan_topology : String → Option TopologySource → Act Bytes
unfolding plan_path plan_draft
plan_topology session_id none = do r ← record_of session_id; plan_path r.topology_path
plan_topology session_id (some src) = do
  r ← record_of session_id
  p ← status invalid_argument (prepare_draft r (some src))
  plan_draft p

-- Runtime truth in place of an exit status.
unfoldable pub verify_running_node : Record → String → Act (Unit {0})
unfolding call when
verify_running_node r name = do
  call (container_name r.name name)
  p ← prepare_draft r none
  when (any (λ s. s == name) p.isolated_nodes) (call (proof_isolation r.name (name ∷ [])))
