-- ===== src/Server/Bootstrap.antt =====
-- First-boot data: pkg/bootstrap/data.go, and `bootstrapPlan`, `bootstrapTarget`,
-- `writeBootstraps`, `configureBootstrap`, `diskPlan`, `resetDisks` and `createDisks` of
-- internal/server/server.go.
use Prim.Native.Char.{code}
pub mod Disks
use labcontainers.Prelude.{
  ℕ, ◌^◌, String, Result, ok, err, Bool, true, false, not, ◌||◌, ◌&&◌, Option, none, some, Map,
  lookup, insert, List, [], ◌∷◌, ◌++◌, ◌==◌, if◌then◌else◌, leb, ltb, nat_eq, any,
}
use labcontainers.Prelude.FilePath.{◌⧺◌, join}
use labcontainers.Session.{Record, Node, Disk}
use labcontainers.Spec.Native.{Bytes}
use labcontainers.Spec.Name.{is_safe}
use labcontainers.Spec.Prepare.{add_node_bind}
use labcontainers.World.{
  Code, plain, Act, pure, os, gets, modify, answer, require, demand, of_result, when, for_each,
  ◌>>=◌, ◌>>◌,
}

pub record Data : Type 0 where
  pub format : String
  pub value : Bytes

-- The ASCII white space that `bytes.TrimSpace` drops; other Unicode spaces are taken for text.
abbrev is_space : ℕ → Bool
is_space c = nat_eq c 32 || leb 9 c && leb c 13

abbrev is_blank : Bytes → Bool
is_blank [] = true
is_blank (c ∷ cs) = is_space c && is_blank cs

abbrev pub is_known_format : String → Bool
is_known_format f = f == "cloud-config" || f == "ignition" || f == "powershell"

-- `Data.Validate`
unfoldable pub is_valid : Data → Bool
is_valid d = not (is_blank d.value) && is_known_format d.format

unfoldable pub bootstrap_target : String → Option String
bootstrap_target f =
    if f == "cloud-config"
    then some "/extra-userdata.yaml"
    else if f == "ignition"
    then some "/labcontainers-bootstrap/ignition.json"
    else if f == "powershell"
    then some "/labcontainers-bootstrap/userdata.ps1"
    else none

pub record DiskRequest : Type 0 where
  pub name : String
  pub size_bytes : ℕ

pub record NodeExtension : Type 0 where
  pub control : String
  pub bootstrap : Option Data
  pub disks : List DiskRequest

abbrev all_safe : String → Bool
all_safe String.[] = true
all_safe (String.◌∷◌ c s) = is_safe (code c) && all_safe s

-- ^[a-zA-Z0-9_.-]+$
abbrev pub is_disk_name : String → Bool
is_disk_name s = not (s == "") && all_safe s

abbrev pub has_name : String → List Disk → Bool
has_name name ds = any (λ (d : Disk). d.name == name) ds

-- The disks of one node, `done` those of the loop so far.
unfoldable pub plan_disks : String → List Disk → List DiskRequest → Option (List Disk)
plan_disks dir done [] = some done
plan_disks dir done (d ∷ ds) =
    let disk : Disk = record {
      name = d.name;
      path = join dir (d.name ⧺ ".raw");
      size_bytes = d.size_bytes;
    } in
    let rest = plan_disks dir (done ++ disk ∷ []) ds in
    if not (is_disk_name d.name) || has_name d.name done
    then none
    else if nat_eq d.size_bytes 0 || ltb (2 ^ 40) d.size_bytes
    then none
    else rest

unfoldable pub disk_bind : Disk → String
disk_bind d = d.path ⧺ ":/labcontainers-disks/" ⧺ d.name ⧺ ".raw"

abbrev is_empty {ℓ} : {A : Type ℓ} → List A → Bool
is_empty [] = true
is_empty (x ∷ xs) = false

-- `diskPlan`: the disks of each node that has any.
unfoldable pub disk_plan : String → Map NodeExtension → Option (Map (List Disk))
unfolding plan_disks
disk_plan dir [] = some []
disk_plan dir ((name, ext) ∷ rest) =
    let others = disk_plan dir rest in
    if not (is_empty ext.disks) && not (ext.control == "qga")
    then none
    else elim (plan_disks (join (join dir "disks") name) [] ext.disks) [
      | none ↦ none
      | some ds ↦ elim others [
        | none ↦ none
        | some m ↦ some (if is_empty ds then m else (name, ds) ∷ m)
      ]
    ]

pub record BootstrapFile : Type 0 where
  pub format : String
  pub path : String
  pub value : Bytes
  pub target : String

-- The file of one node, if it asks for one.
unfoldable pub plan_bootstrap :
    String → String → NodeExtension → Option Data → Result Code (Option BootstrapFile)
unfolding is_valid bootstrap_target
plan_bootstrap dir name ext none = ok none
plan_bootstrap dir name ext (some data') =
    if is_empty data'.value
    then ok none
    else if not (ext.control == "qga")
    then err plain
    else if not (is_valid data')
    then err plain
    else elim (bootstrap_target data'.format) [
      | none ↦ err plain
      | some target ↦ ok (
          some (record {
            format = data'.format;
            path = join (join (join dir "bootstrap") name) "userdata";
            value = data'.value;
            target = target;
          }))
    ]

unfoldable pub bootstrap_plan : String → Map NodeExtension → Option (Map BootstrapFile)
unfolding plan_bootstrap
bootstrap_plan dir [] = some []
bootstrap_plan dir ((name, ext) ∷ rest) =
    let others = bootstrap_plan dir rest in
    elim (plan_bootstrap dir name ext ext.bootstrap) [
      | err c ↦ none
      | ok file ↦ elim others [
        | none ↦ none
        | some m ↦ elim file [ none ↦ some m | some f ↦ some ((name, f) ∷ m) ]
      ]
    ]

unfoldable pub bootstrap_bind : BootstrapFile → String
bootstrap_bind f = f.path ⧺ ":" ⧺ f.target ⧺ ":ro"

-- os.WriteFile; a failed write may have left anything.
unfoldable pub write_file : String → Bytes → Act (Unit {0})
unfolding os answer ◌>>=◌
write_file path content = do
  partial ← answer (λ e n. e.bytes n)
  modify (λ w. record w { files = insert path partial w.files })
  os
  modify (λ w. record w { files = insert path content w.files })

-- os.ReadFile: what the daemon wrote, or a file from outside.
unfoldable pub read_file : String → Act Bytes
unfolding os answer ◌>>=◌
read_file path = do
  os
  outside ← answer (λ e n. e.bytes n)
  found ← gets (λ w. lookup path w.files)
  elim found [ none ↦ pure outside | some b ↦ pure b ]

-- Truncating a disk to its size leaves it empty: its content is not modelled, but that it was
-- reset is an event of the world's file map under the disk's path.
unfoldable pub reset_disk : Disk → Act (Unit {0})
unfolding os ◌>>=◌
reset_disk d = do os; os; modify (λ w. record w { files = insert d.path [] w.files }); os; os

unfoldable pub reset_disks : List Disk → Act (Unit {0})
unfolding reset_disk for_each
reset_disks ds = for_each ds reset_disk

unfoldable pub create_disks : Map (List Disk) → Act (Unit {0})
unfolding reset_disks for_each
create_disks m = for_each m (λ e. reset_disks e.1)

unfoldable pub write_bootstraps : Map BootstrapFile → Act (Unit {0})
unfolding write_file for_each
write_bootstraps m = for_each m (λ e. do os; write_file e.1.path e.1.value)

-- `Store.SessionDir`
abbrev pub session_dir : String → String → String
session_dir root id = join (join root "sessions") id

abbrev pub bootstrap_path_of : String → Record → Node → String
bootstrap_path_of root r n =
    if n.bootstrap_path == ""
    then join (join (join (session_dir root r.id) "bootstrap") n.name) "userdata"
    else n.bootstrap_path

-- `configureBootstrap`: the node with its bootstrap, its file written and, the first time, its bind
-- added to the topology.
unfoldable pub configure_bootstrap : Record → Node → Data → Act Node
unfolding is_valid bootstrap_target write_file read_file
configure_bootstrap r n data' = do
  require (is_valid data') plain
  require (n.control == "qga") plain
  require (n.bootstrap_format == "" || n.bootstrap_format == data'.format) plain
  root ← gets (λ w. w.env.root)
  let path = bootstrap_path_of root r n
  target ← demand (bootstrap_target data'.format) plain
  os
  write_file path data'.value
  libs ← gets (λ w. w.env.libs)
  when (n.bootstrap_format == "") (do
    raw ← read_file r.topology_path
    bound ← of_result (add_node_bind libs raw n.name (path ⧺ ":" ⧺ target ⧺ ":ro")) plain
    write_file r.topology_path bound)
  pure (record n { bootstrap_path = path; bootstrap_format = data'.format })
