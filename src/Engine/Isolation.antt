-- ===== src/Engine/Isolation.antt =====
-- ProofIsolation of internal/engine/containerlab.go. A network that Docker reports as null has no
-- state to look at.
pub mod Safe
pub mod Proof
use labcontainers.Prelude.{
  ℕ, String, Bool, true, false, not, ◌&&◌, Option, none, some, List, [], ◌∷◌, Map, nat_eq, ◌==◌,
}
use labcontainers.Actions.{Action, pure, fail, require, demand, gets, for_each, ◌>>=◌, ◌>>◌}
use labcontainers.Engine.Host.{Cmd, Host, Failure, refused, checked, Inspection, Network}
use labcontainers.Engine.Identity.{container_id}

-- No port has a binding.
abbrev pub no_bindings : List ℕ → Bool
no_bindings [] = true
no_bindings (n ∷ ns) = nat_eq n 0 && no_bindings ns

abbrev pub is_empty {ℓ} : {A : Type ℓ} → List A → Bool
is_empty [] = true
is_empty (_ ∷ _) = false

abbrev pub all_blank : List String → Bool
all_blank [] = true
all_blank (s ∷ ss) = s == "" && all_blank ss

abbrev pub addresses : Network → List String
addresses n = n.gateway ∷ n.ip_address ∷ n.mac_address ∷ n.ipv6_gateway ∷ n.global_ipv6_address ∷ []

-- Docker's own `none` network, with no address.
abbrev pub is_bookkeeping : String → Option Network → Bool
is_bookkeeping name none = false
is_bookkeeping name (some n) = name == "none" && all_blank (addresses n)

abbrev pub all_bookkeeping : Map (Option Network) → Bool
all_bookkeeping [] = true
all_bookkeeping ((name, n) ∷ rest) = is_bookkeeping name n && all_bookkeeping rest

unfoldable pub check_inspection : Inspection → Cmd (Unit {0})
unfolding ◌>>=◌
check_inspection i = do
  require i.complete refused
  require (i.network_mode == "none") refused
  require (not i.publish_all && is_empty i.port_bindings) refused
  require (no_bindings i.ports) refused
  require (all_bookkeeping i.networks) refused

-- One inspection.
abbrev single : Option (List Inspection) → Option Inspection
single (some (i ∷ [])) = some i
single _ = none

unfoldable pub prove_node : String → String → Cmd (Unit {0})
unfolding checked check_inspection
prove_node lab node = do
  name ← container_id lab node
  r ← checked ("docker" ∷ "inspect" ∷ name ∷ [])
  machine ← gets (λ h. h.machine)
  i ← demand (single (machine.inspections r.stdout)) refused
  check_inspection i

unfoldable pub proof_isolation : String → List String → Cmd (Unit {0})
unfolding for_each
proof_isolation lab nodes = for_each nodes (prove_node lab)
