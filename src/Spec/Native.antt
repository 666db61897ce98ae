-- ===== src/Spec/Native.antt =====
-- What pkg/spec/topology.go takes from libraries: the YAML codec and Containerlab's decoding of a
-- topology with its resolution of a node's kind, network mode and ports, and of the result of an
-- apply.
use labcontainers.Prelude.{ℕ, String, ◌≡◌, ◌≢◌, Bool, List, ◌∷◌, Map, Option}
use labcontainers.Spec.Yaml.{Yaml}

abbrev pub Bytes : Type 0
Bytes = List ℕ

-- A decoded native topology: its source, and the network modes that the code has written into
-- `native.Nodes[name].NetworkMode` since, the newest first.
pub record Native : Type 0 where
  pub source : Bytes
  pub modes : Map String

-- The type discriminators that the code names; `internal` is any other.
pub data LinkType : Type 0 where
  host mgmt_net macvlan vxlan vxlan_stitch internal : LinkType

pub data RawLink : Type 0 where
  veth veth_stitched : List (Option String) → RawLink
  other_link : RawLink

pub record Link : Type 0 where
  pub type : LinkType
  pub raw : RawLink

-- `core.ApplyResult`: its `DryRun`, and the rest, by a text that tells two results apart.
pub record ApplyResult : Type 0 where
  pub dry_run : Bool
  pub changes : String

-- A definition of `kinds` or `groups`, by its name; the flag tells that it is no null.
pub record Libs : Type 0 where
  pub parse : Bytes → Option Yaml
  pub render : Yaml → Option Bytes
  pub definitions : Bytes → Option (Map Bool)
  pub node_kind : Native → String → String
  pub node_mode : Native → String → String
  pub node_ports : Native → String → Option ℕ
  pub links : Native → List (Option Link)
  pub apply_result : Bytes → Option ApplyResult

abbrev pub set_mode : Native → String → String → Native
set_mode t name mode = record t { modes = (name, mode) ∷ t.modes }

-- A node's own network mode takes precedence over its groups, its kind and the defaults, and is
-- nobody else's; it is no part of the node's kind.
pub record Resolves (l : Libs) : Type 0 where
  pub mode_self : (t : Native) (n : String) → l.node_mode (set_mode t n "none") n ≡ "none"
  pub mode_other :
      (t : Native) (n m : String) → n ≢ m → l.node_mode (set_mode t n "none") m ≡ l.node_mode t m
  pub kind_same :
      (t : Native) (n m : String) → l.node_kind (set_mode t n "none") m ≡ l.node_kind t m
