-- ===== src/Spec/Links.antt =====
-- The link checks at the end of `validateAndLabel` of pkg/spec/topology.go.
use labcontainers.Prelude.{
  String, Bool, true, false, not, ◌||◌, Option, none, some, List, [], ◌∷◌, Result, ok, err, guard,
  any, ◌>>◌, ◌==◌,
}
use labcontainers.Spec.Native.{LinkType, internal, RawLink, veth, veth_stitched, other_link, Link}

-- Why a topology is refused, in the order of the source's messages.
pub data PrepareError : Type 0 where
  unparsable no_mapping_root empty_name no_topology no_nodes bad_mgmt : PrepareError
  undecodable null_definition : PrepareError
  not_a_mapping borrows_bridge not_isolated bad_ports published_ports : PrepareError
  null_link external_link external_endpoint : PrepareError
  bad_binds unknown_node unrenderable : PrepareError

-- The types that can leave the lab.
abbrev pub is_external : LinkType → Bool
is_external internal = false
is_external _ = true

abbrev pub endpoints : RawLink → List (Option String)
endpoints (veth es) = es
endpoints (veth_stitched es) = es
endpoints other_link = []

abbrev pub is_host_endpoint : Option String → Bool
is_host_endpoint none = false
is_host_endpoint (some node) = node == "host" || node == "mgmt-net"

unfoldable pub check_link : Option Link → Result PrepareError (Unit {0})
check_link none = err null_link
check_link (some l) = do
  guard (not (is_external l.type)) external_link
  guard (not (any is_host_endpoint (endpoints l.raw))) external_endpoint

unfoldable pub check_links : List (Option Link) → Result PrepareError (Unit {0})
unfolding check_link
check_links [] = ok tt
check_links (l ∷ ls) = do check_link l; check_links ls
