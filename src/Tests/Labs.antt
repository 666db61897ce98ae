-- ===== src/Tests/Labs.antt =====
-- A store with two sessions, of which one is kept, and a topology with one node.
use labcontainers.Prelude.{
  String, ◌≡◌, refl, true, false, some, none, Option, [], ◌∷◌, Map, lookup, eq_iff, eq_refl, arith,
}
use labcontainers.Session.{Record, Node}
use labcontainers.Session.Store.Abstract.{stored}
use labcontainers.Spec.Yaml.{node, nil, cons, text, document, mapping}
use labcontainers.Spec.Native.{Libs, Resolves}
use labcontainers.Spec.Prepare.{Options}
use labcontainers.World.{Env, World, Dir, json}
use labcontainers.Server.Fault.{ApplyFaultRequest, link_state_fault}

abbrev pub machine : Node
machine = record {
  name = "n";
  control = "qga";
  state = "running";
  disks = [];
  bootstrap_format = "";
  bootstrap_path = "";
}

abbrev pub lab : Record
lab = record {
  allow_external_access = false;
  id = "a";
  name = "lab";
  state = "running";
  topology_path = "/s/a/topology.clab.yml";
  artifact_directory = "/e";
  expires = 10;
  resume_token = "t";
  kept = true;
  nodes = ("n", machine) ∷ [];
  faults = [];
  labels = [];
}

abbrev pub spare : Record
spare = record lab { id = "b"; name = "spare"; kept = false; expires = 1 }

abbrev mode_of : Option String → String
mode_of none = ""
mode_of (some m) = m

-- Every text decodes to the same topology, whose nodes have the modes that the code has set.
abbrev pub sample_libs : Libs
sample_libs = record {
  parse = λ b. some (
      node document "" "" (
        cons
          (node mapping "!!map" "" (
            cons (text "topology") (
              cons
                (node mapping "!!map" "" (
                  cons (text "nodes") (
                    cons
                      (node mapping "!!map" ""
                        (cons (text "n") (cons (node mapping "!!map" "" nil) nil)))
                      nil)))
                nil)))
          nil));
  render = λ y. some [];
  definitions = λ b. some [];
  node_kind = λ t n. "linux";
  node_mode = λ t n. mode_of (lookup n t.modes);
  node_ports = λ t n. some 0;
  links = λ t. [];
  apply_result = λ b. none;
}

pub Resolves-sample_libs : Resolves sample_libs
unfolding lookup
Resolves-sample_libs = record {
  mode_self = λ t n. rw (eq_refl n);
  mode_other = λ t n m other. ground (arith, eq_iff n m);
  kind_same = λ t n m. refl;
}

abbrev pub sample_options : Options
sample_options = record { node_binds = []; base_dir = "" }

-- Everything succeeds.
abbrev pub env : Env
env = record {
  succeeds = λ n. true;
  random = λ n. "f";
  now = λ n. 3;
  name = λ n. "container";
  up = λ n. true;
  lost = λ n. false;
  result = λ n. record { stdout = []; stderr = []; exit_code = 0 };
  bytes = λ n. [];
  libs = sample_libs;
  root = "/s";
}

abbrev dir : Record → Dir
dir r = record { session_json = some (json r); temp = none }

abbrev world : Map Dir → World
world s = record { env = env; asked = 0; sessions = s; files = []; calls = []; events = [] }

abbrev pub lab_dir : Dir
lab_dir = dir lab

abbrev pub lab_world : World
lab_world = world (("a", dir lab) ∷ ("b", dir spare) ∷ [])

abbrev pub faulty : World
faulty = world (
    (
      "a",
      dir (record lab {
        faults =
            (
              "f",
              record {
                id = "f";
                kind = "link-state";
                node = "n";
                interface = "eth1";
                active = true;
                restore_up = true;
              },
            )
            ∷ [];
      }),
    )
    ∷ [])

abbrev pub cut_link : ApplyFaultRequest
cut_link = record {
  session_id = "a";
  fault = link_state_fault (record { node = "n"; interface = "eth1"; up = false });
  node = "";
  interface = "";
}

pub Filed-lab_world : (id : String) (r : Record) → stored lab_world.sessions id ≡ some r → r.id ≡ id
unfolding stored lookup
Filed-lab_world id r h = ground (arith, eq_iff "a" id, eq_iff "b" id)
