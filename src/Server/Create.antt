-- ===== src/Server/Create.antt =====
-- CreateSession of internal/server/server.go, with `artifactDirectory` of
-- internal/server/artifacts.go.
pub mod Start
use Prim.Native.Char.{code}
use labcontainers.Prelude.{
  ℕ, zero, suc, ◌+◌, ◌*◌, String, Result, ok, err, Bool, true, false, not, ◌||◌, ◌&&◌, Option, none,
  some, Map, lookup, insert, List, [], ◌∷◌, ◌++◌, map, leb, nat_eq, ◌==◌, if◌then◌else◌, any,
}
use labcontainers.Prelude.FilePath.{◌⧺◌, is_abs, clean, join}
use labcontainers.Session.{Record, Node, Fault, Disk}
use labcontainers.Session.Store.{save, create, list}
use labcontainers.Spec.Name.{is_alphanumeric, chars, take_chars}
use labcontainers.Spec.Prepare.{Prepared, prepare_with_options}
use labcontainers.World.{
  World, Code, invalid_argument, already_exists, internal, failed_precondition, plain, Act, pure,
  fail, os, gets, answer, call, try, status, ignore, demand, of_result, require, when, for_each,
  doctor, check_lab_name_available, validate, deploy, destroy, proof_isolation, Call, ◌>>=◌, ◌>>◌,
}
use labcontainers.Server.Records.{random_id, event, duration_or}
use labcontainers.Server.Bootstrap.{
  NodeExtension, BootstrapFile, session_dir, disk_plan, disk_bind, bootstrap_plan, bootstrap_bind,
  create_disks, write_bootstraps, write_file,
}
use labcontainers.Server.Draft.{TopologySource, topology_bytes}
use labcontainers.Server.Lease.{second}

pub record LabSpec : Type 0 where
  pub topology : TopologySource
  pub nodes : Map NodeExtension
  pub allow_external_access : Bool
  pub artifact_directory : String
  pub name : String

pub record CreateRequest : Type 0 where
  pub spec : LabSpec
  pub ttl_seconds : ℕ
  pub labels : Map String

-- ^[a-zA-Z0-9][a-zA-Z0-9_-]{0,62}$
abbrev pub is_word : ℕ → Bool
is_word c = is_alphanumeric c || nat_eq c b'_' || nat_eq c b'-'

abbrev pub all_words : String → Bool
all_words String.[] = true
all_words (String.◌∷◌ c s) = is_word (code c) && all_words s

unfoldable pub is_lab_name : String → Bool
is_lab_name String.[] = false
is_lab_name (String.◌∷◌ c s) = is_alphanumeric (code c) && all_words s && leb (chars s) 62

-- The requested name, or one from the session's ID.
unfoldable pub lab_name : String → String → Act String
unfolding pure ◌>>=◌
lab_name requested id =
    if requested == ""
    then pure ("lc-" ⧺ take_chars 12 id)
    else do require (is_lab_name requested) invalid_argument; pure requested

-- Evidence is kept outside the session's state.
artifact_directory : String → String → Act String
unfolding os answer clean join
artifact_directory requested id =
    if requested == ""
    then (do
      os
      cache ← answer (λ e n. e.name n)
      pure (join (join (join cache "labcontainers") "artifacts") id))
    else if is_abs requested
    then pure (clean requested)
    else do os; working ← answer (λ e n. e.name n); pure (join working requested)

abbrev disk_binds : Map (List Disk) → Map (List String)
disk_binds m = map (λ e. (e.0, map disk_bind e.1)) m

-- `binds[name] = append(binds[name], …)`
abbrev add_bind : String → String → Map (List String) → Map (List String)
add_bind name bind m = elim (lookup name m) [
  | none ↦ insert name (bind ∷ []) m
  | some bs ↦ insert name (bs ++ bind ∷ []) m
]

merge_binds : Map BootstrapFile → Map (List String) → Map (List String)
merge_binds [] m = m
merge_binds ((name, f) ∷ rest) m = merge_binds rest (add_bind name (bootstrap_bind f) m)

abbrev knows_all : List String → Map NodeExtension → Bool
knows_all names [] = true
knows_all names ((name, ext) ∷ rest) = any (λ n. n == name) names && knows_all names rest

abbrev or_none {ℓ} : {A : Type ℓ} → Option (List A) → List A
or_none none = []
or_none (some xs) = xs

abbrev control_of : Option NodeExtension → String
control_of none = "container"
control_of (some ext) = if ext.control == "" then "container" else ext.control

abbrev format_of : Option BootstrapFile → String
format_of none = ""
format_of (some f) = f.format

abbrev path_of : Option BootstrapFile → String
path_of none = ""
path_of (some f) = f.path

-- The session's nodes, each with its attachments.
unfoldable pub new_nodes :
    Map NodeExtension → Map (List Disk) → Map BootstrapFile → List String → Map Node
new_nodes exts disks files [] = []
new_nodes exts disks files (name ∷ names) =
    insert name
      (record {
        name = name;
        control = control_of (lookup name exts);
        state = "created";
        disks = or_none (lookup name disks);
        bootstrap_format = format_of (lookup name files);
        bootstrap_path = path_of (lookup name files);
      })
      (new_nodes exts disks files names)

abbrev pub set_states : String → Map Node → Map Node
set_states state nodes = map (λ e. (e.0, record e.1 { state = state })) nodes

abbrev pub all_running : Record → Record
all_running r = record r { state = "running"; nodes = set_states "running" r.nodes }

abbrev pub failed : Record → Record
failed r = record r { state = "failed" }

-- A stage of the deployment that fails is recorded, and what runs is destroyed if `started`.
unfoldable pub abandon : Record → Bool → Code → Act (Unit {0})
unfolding call
abandon r started c = do
  ignore (save (failed r))
  event (failed r) "session.failed"
  when started (ignore (call (destroy r.topology_path)))
  fail c

unfoldable pub after_stage : Record → Bool → Code → Result Code (Unit {0}) → Act (Unit {0})
unfolding abandon
after_stage r started c (ok _) = pure tt
after_stage r started c (err _) = abandon r started c

unfoldable pub stage : Record → Bool → Code → Call → Act (Unit {0})
unfolding call after_stage
stage r started c k = do done ← try (call k); after_stage r started c done

-- Validation, deployment and isolation proof of a session on disk, in this order.
unfoldable pub start_session : Record → List String → Act Record
unfolding stage
start_session r isolated = do
  stage r false invalid_argument (validate r.topology_path)
  stage r true internal (deploy r.topology_path)
  stage r true failed_precondition (proof_isolation r.name isolated)
  status internal (save (all_running r))
  event (all_running r) "session.running"
  pure (all_running r)

-- What a request asks for, with nothing written yet.
pub record Plan : Type 0 where
  pub record_plan : Record
  pub prepared : Prepared
  pub disks : Map (List Disk)
  pub bootstraps : Map BootstrapFile

unfoldable pub plan_session : CreateRequest → Act Plan
unfolding call answer lab_name artifact_directory merge_binds
plan_session req = do
  status failed_precondition (call doctor)
  id ← status internal random_id
  name ← lab_name req.spec.name id
  existing ← status internal list
  require (not (any (λ (x : Record). x.name == name) existing)) already_exists
  (raw, base) ← status invalid_argument (topology_bytes req.spec.topology req.spec.topology.source)
  root ← gets (λ w. w.env.root)
  let dir = session_dir root id
  disks ← demand (disk_plan dir req.spec.nodes) invalid_argument
  files ← demand (bootstrap_plan dir req.spec.nodes) invalid_argument
  let binds = merge_binds files (disk_binds disks)
  libs ← gets (λ w. w.env.libs)
  prepared ←
      of_result
        (prepare_with_options libs raw name id req.spec.allow_external_access
          (record { node_binds = binds; base_dir = base }))
        invalid_argument
  require (knows_all prepared.nodes req.spec.nodes) invalid_argument
  resume ← status internal random_id
  status failed_precondition (call (check_lab_name_available name))
  artifacts ← status internal (artifact_directory req.spec.artifact_directory id)
  now ← answer (λ e n. e.now n)
  pure (record {
    record_plan = record {
      allow_external_access = req.spec.allow_external_access;
      id = id;
      name = prepared.name;
      state = "provisioning";
      topology_path = join dir "topology.clab.yml";
      artifact_directory = artifacts;
      expires = now + duration_or (7200 * second) second req.ttl_seconds;
      resume_token = resume;
      kept = false;
      nodes = new_nodes req.spec.nodes disks files prepared.nodes;
      faults = [];
      labels = req.labels;
    };
    prepared = prepared;
    disks = disks;
    bootstraps = files;
  })

-- The session's directory, disks, bootstrap data and topology.
unfoldable pub write_session : Plan → Act (Unit {0})
unfolding os join
write_session p = do
  let r = p.record_plan
  status internal (create r)
  status internal (create_disks p.disks)
  status internal (write_bootstraps p.bootstraps)
  status internal os
  status internal (write_file r.topology_path p.prepared.yaml)
  status internal (write_file (join r.artifact_directory "topology.clab.yml") p.prepared.yaml)

unfoldable pub create_session : Option CreateRequest → Act Record
unfolding ◌>>=◌
create_session none = fail invalid_argument
create_session (some req) = do
  p ← plan_session req
  write_session p
  event p.record_plan "session.prepared"
  start_session p.record_plan p.prepared.isolated_nodes
