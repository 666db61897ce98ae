-- ===== src/Spec/Nodes.antt =====
-- The loop of `validateAndLabel` of pkg/spec/topology.go over the nodes, and the whole function.
use labcontainers.Prelude.{
  String, Bool, not, ◌&&◌, ◌||◌, Result, ok, guard, or_fail, ◌>>=◌, ◌>>◌, ◌==◌, nat_eq,
  if◌then◌else◌,
}
use labcontainers.Spec.Yaml.{
  Yaml, Yamls, cons, is_mapping, tag_of, value_of, empty_mapping, ensure_mapping, set_scalar,
}
use labcontainers.Spec.Native.{Native, Libs, set_mode}
use labcontainers.Spec.Links.{
  PrepareError, not_a_mapping, borrows_bridge, not_isolated, bad_ports, published_ports,
  check_links,
}

unfoldable pub is_bridge : String → Bool
is_bridge kind = kind == "bridge" || kind == "ovs-bridge"

abbrev or_empty : Yaml → Yaml
or_empty n = if tag_of n == "!!null" then empty_mapping else n

-- The two labels that tie a container to its session.
unfoldable pub add_labels : String → Yaml → Yaml
unfolding ensure_mapping set_scalar
add_labels session_id n = ensure_mapping n "labels" λ labels.
    set_scalar (set_scalar labels "labcontainers.appmana.com/session" session_id)
      "labcontainers.appmana.com/managed" "true"

module _ (libs : Libs) (session_id : String) (allow_external : Bool) where
  -- The checks of one node under its final network mode.
  unfoldable pub check_node : Native → String → String → Result PrepareError (Unit {0})
  check_node native mode name = if allow_external then ok tt else do
    guard (is_bridge (libs.node_kind native name) || mode == "none") not_isolated
    ports ← or_fail (libs.node_ports native name) bad_ports
    guard (nat_eq ports 0) published_ports

  abbrev pub is_implicit : Native → String → Bool
  is_implicit native name =
      not (is_bridge (libs.node_kind native name)) && libs.node_mode native name == ""

  -- Omission must not turn on Docker's implicit management NIC: the node, the native topology and
  -- the local `mode` after this step.
  unfoldable pub default_node : Native → String → Yaml → Yaml
  unfolding set_scalar
  default_node native name n =
      if is_implicit native name then set_scalar n "network-mode" "none" else n

  unfoldable pub default_native : Native → String → Native
  default_native native name =
      if is_implicit native name then set_mode native name "none" else native

  unfoldable pub default_mode : Native → String → String
  default_mode native name = if is_implicit native name then "none" else libs.node_mode native name

  unfoldable pub validate_node : Native → String → Yaml → Result PrepareError (Yaml × Native)
  unfolding check_node
  validate_node native name n = do
    guard (is_mapping (or_empty n)) not_a_mapping
    guard (allow_external || not (is_bridge (libs.node_kind native name))) borrows_bridge
    check_node (default_native native name) (default_mode native name) name
    ok (add_labels session_id (default_node native name (or_empty n)), default_native native name)

  unfoldable pub validate_nodes : Native → Yamls → Result PrepareError (Yamls × Native)
  unfolding validate_node
  validate_nodes native (cons k (cons n rest)) = do
    (n', native') ← validate_node native (value_of k) n
    (rest', native'') ← validate_nodes native' rest
    ok (cons k (cons n' rest'), native'')
  validate_nodes native rest = ok (rest, native)

  unfoldable pub validate_and_label : Yamls → Native → Result PrepareError (Yamls × Native)
  unfolding validate_nodes
  validate_and_label nodes native = do
    (nodes', native') ← validate_nodes native nodes
    if allow_external then ok tt else check_links (libs.links native')
    ok (nodes', native')
