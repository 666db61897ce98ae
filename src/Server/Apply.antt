-- ===== src/Server/Apply.antt =====
-- ApplyTopology of internal/server/apply.go.
pub mod Agreed
pub mod Writes
pub mod Calm
pub mod Swap
use labcontainers.Prelude.{
  String, Result, ok, err, Bool, true, false, not, ◌||◌, ◌&&◌, Option, none, some, Map, lookup,
  insert, List, [], ◌∷◌, ◌==◌, if◌then◌else◌,
}
use labcontainers.Prelude.FilePath.{◌⧺◌, join}
use labcontainers.Session.{Record, Node}
use labcontainers.Session.Store.{save}
use labcontainers.Spec.Native.{Bytes, ApplyResult}
use labcontainers.Spec.Prepare.{Prepared}
use labcontainers.World.{
  Code, invalid_argument, unimplemented, internal, failed_precondition, Act, pure, fail, os, gets,
  modify, answer, call, try, status, ignore, demand, require, for_each, check_session_ownership,
  validate, plan, deploy, restore_attachments, proof_isolation, ◌>>=◌, ◌>>◌,
}
use labcontainers.Server.Records.{record_of, random_id, event}
use labcontainers.Server.Fault.{any_fault}
use labcontainers.Server.Bootstrap.{NodeExtension, read_file, write_file}
use labcontainers.Server.Draft.{TopologySource, prepare_draft}
use labcontainers.Server.Create.{set_states}

pub record ApplyRequest : Type 0 where
  pub session_id : String
  pub topology : Option TopologySource
  pub approved_plan : Bytes
  pub nodes : Map NodeExtension

abbrev pub new_node : String → Node
new_node name = record {
  name = name;
  control = "container";
  state = "created";
  disks = [];
  bootstrap_format = "";
  bootstrap_path = "";
}

abbrev pub or_new : String → Option Node → Node
or_new name none = new_node name
or_new name (some n) = n

-- The nodes of the new topology: the old ones as they are, and new ones.
unfoldable pub carry_nodes : Map Node → List String → Map Node
carry_nodes old [] = []
carry_nodes old (name ∷ names) = insert name (or_new name (lookup name old)) (carry_nodes old names)

abbrev is_plain : NodeExtension → Bool
is_plain ext = elim ext.disks [
  | [] ↦ elim ext.bootstrap [ none ↦ true | some _ ↦ false ]
  | _ ∷ _ ↦ false
]

abbrev is_control : String → Bool
is_control c = c == "" || c == "container" || c == "qga"

-- Only the control channel may be given.
unfoldable pub extend_nodes : Map NodeExtension → Map Node → Result Code (Map Node)
extend_nodes [] nodes = ok nodes
extend_nodes ((name, ext) ∷ rest) nodes = elim (lookup name nodes) [
  | none ↦ err invalid_argument
  | some n ↦
      if not (is_plain ext)
      then err unimplemented
      else if not (is_control ext.control)
      then err invalid_argument
      else extend_nodes rest (
          if ext.control == ""
          then nodes
          else insert name (record n { control = ext.control }) nodes)
]

-- A temporary file is renamed over the topology.
unfoldable pub write_topology : String → Bytes → Act (Unit {0})
unfolding os
write_topology path content = do
  os
  os
  os
  os
  modify (λ w. record w { files = insert path content w.files })

abbrev pub same_result : ApplyResult → ApplyResult → Bool
same_result a b = (if a.dry_run then b.dry_run else not b.dry_run) && a.changes == b.changes

-- The union of the old and the new nodes.
abbrev pub unite : Map Node → Map Node → Map Node
unite [] old = old
unite ((name, n) ∷ rest) old = unite rest (insert name n old)

abbrev pub reconciling : Record → Map Node → Record
reconciling r nodes = record r { nodes = unite nodes r.nodes; state = "reconciling" }

unfoldable pub write_evidence : Record → String → Bytes → Bytes → Bytes → Act (Unit {0})
unfolding write_file
write_evidence r operation before desired raw = do
  let at = λ (suffix : String). join r.artifact_directory ("apply-" ⧺ operation ⧺ "-" ⧺ suffix)
  write_file (at "before") before
  write_file (at "desired") desired
  write_file (at "plan") raw

unfoldable pub check_plan : Record → Bool → Act (Unit {0})
unfolding ◌>>=◌
check_plan r true = pure tt
check_plan r false = do event r "topology.plan.changed"; fail failed_precondition

-- The fresh plan is the one that was approved.
unfoldable pub compare_plan : Record → ApplyResult → Act Bytes
unfolding call answer check_plan ◌>>=◌
compare_plan r approved = do
  status invalid_argument (call (validate r.topology_path))
  status failed_precondition (call (plan r.topology_path))
  raw ← answer (λ e n. e.bytes n)
  libs ← gets (λ w. w.env.libs)
  current ← demand (libs.apply_result raw) internal
  check_plan r (same_result approved current)
  pure raw

unfoldable pub record_review : Record → Prepared → Map Node → Bytes → Bytes → Act Record
unfolding write_evidence ◌>>=◌
record_review r p nodes before raw = do
  operation ← status internal random_id
  status internal (write_evidence r operation before p.yaml raw)
  status internal (save (reconciling r nodes))
  pure (reconciling r nodes)

-- Between the writing of the desired topology and the first change of the runtime.
unfoldable pub review : Record → Prepared → Map Node → ApplyResult → Bytes → Act Record
unfolding compare_plan record_review
review r p nodes approved before = do
  raw ← compare_plan r approved
  record_review r p nodes before raw

unfoldable pub converge_runtime : Record → Prepared → Act (Unit {0})
unfolding call for_each
converge_runtime r p = do
  call (deploy r.topology_path)
  for_each p.nodes (λ name. call (restore_attachments r.topology_path name))
  call (proof_isolation r.name p.isolated_nodes)

abbrev pub converged : Record → Map Node → Record
converged r nodes = record r { nodes = set_states "running" nodes; state = "running" }

unfoldable pub after_converge : Record → Map Node → Result Code (Unit {0}) → Act Record
unfolding ◌>>=◌
after_converge r nodes (ok _) = do
  status internal (save (converged r nodes))
  event r "topology.applied"
  pure (converged r nodes)
after_converge r nodes (err _) = do
  ignore (save (record r { state = "reconcile-failed" }))
  event r "topology.apply.failed"
  fail internal

-- Native apply is no transaction: a failure keeps the desired topology.
unfoldable pub converge : Record → Prepared → Map Node → Act Record
unfolding converge_runtime after_converge
converge r p nodes = do
  event r "topology.apply.requested"
  done ← try (converge_runtime r p)
  after_converge r nodes done

-- Before any change of the runtime, every error restores the topology.
unfoldable pub after_review : Record → Prepared → Map Node → Bytes → Result Code Record → Act Record
unfolding converge write_topology
after_review r p nodes before (ok r') = converge r' p nodes
after_review r p nodes before (err c) = do ignore (write_topology r.topology_path before); fail c

unfoldable pub swap_topology : Record → Prepared → Map Node → ApplyResult → Act Record
unfolding review after_review write_topology
swap_topology r p nodes approved = do
  before ← status internal (read_file r.topology_path)
  status internal (write_topology r.topology_path p.yaml)
  reviewed ← try (review r p nodes approved before)
  after_review r p nodes before reviewed

abbrev with_code : {A : Type 0} → Result Code A → Act A
with_code (ok a) = pure a
with_code (err c) = fail c

unfoldable pub apply_topology : ApplyRequest → Act Record
unfolding swap_topology
apply_topology req = do
  libs ← gets (λ w. w.env.libs)
  approved ← demand (libs.apply_result req.approved_plan) invalid_argument
  require approved.dry_run invalid_argument
  r ← record_of req.session_id
  require (not (any_fault (λ f. f.active) r.faults)) failed_precondition
  status failed_precondition (call (check_session_ownership r.name r.id))
  p ← status invalid_argument (prepare_draft r req.topology)
  let extended = extend_nodes req.nodes (carry_nodes r.nodes p.nodes)
  nodes ← with_code extended
  swap_topology r p nodes approved
