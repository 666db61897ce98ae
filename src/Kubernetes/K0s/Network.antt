-- ===== src/Kubernetes/K0s/Network.antt =====
-- `ConfigureNetwork` of pkg/kubernetes/k0s/k0s.go. The upstream configuration has the fields that the
-- code reads or writes; the others of each object are of types that are parameters.
pub mod Outcome
use labcontainers.Prelude.{
  String, Bool, true, false, Option, none, some, List, [], Map, lookup, insert, Result, ok, err,
  ◌==◌, if◌then◌else◌,
}
use labcontainers.Kubernetes.Matrix.{Selection, is_consistent}

pub record Calico (C : Type 0) : Type 0 where
  pub mode : String
  pub overlay : String
  pub calico_rest : C

-- A nil map of arguments is an empty one.
pub record Manager (M : Type 0) : Type 0 where
  pub extra_args : Map String
  pub manager_rest : M

pub record NetworkSpec (C K N : Type 0) : Type 0 where
  pub provider : String
  pub calico : Option (Calico C)
  pub kube_router : Option K
  pub network_rest : N

pub record ClusterSpec (C K N M R : Type 0) : Type 0 where
  pub network : Option (NetworkSpec C K N)
  pub controller_manager : Option (Manager M)
  pub spec_rest : R

pub data Refusal : Type 0 where
  inconsistent wrong_distribution no_network unsupported : Refusal

-- What the upstream package provides: its names of the two modes, and the remaining fields of a new
-- object. `to_lower` is strings.ToLower.
pub record Native (C M : Type 0) : Type 0 where
  pub vxlan : String
  pub bird : String
  pub empty_calico : C
  pub empty_manager : M
  pub to_lower : String → String

-- An explicit policy of the allocator is kept.
unfoldable pub allocate : Map String → Map String
allocate args = elim (lookup "allocate-node-cidrs" args) [
  | none ↦ insert "allocate-node-cidrs" "false" args
  | some _ ↦ args
]

abbrev pub new_manager : {M : Type 0} → M → Option (Manager M) → Manager M
new_manager empty none = record { extra_args = []; manager_rest = empty }
new_manager empty (some m) = m

abbrev pub new_calico : {C : Type 0} → C → Option (Calico C) → Calico C
new_calico empty none = record { mode = ""; overlay = ""; calico_rest = empty }
new_calico empty (some c) = c

module _ {C K N M R : Type 0} (native : Native C M) where
  unfoldable pub use_kube_router : ClusterSpec C K N M R → NetworkSpec C K N → ClusterSpec C K N M R
  use_kube_router spec network = record spec {
    network = some (record network { provider = "kuberouter"; calico = none });
  }

  unfoldable pub use_calico :
      String → String → ClusterSpec C K N M R → NetworkSpec C K N → ClusterSpec C K N M R
  unfolding allocate
  use_calico mode overlay spec network =
      let manager = new_manager native.empty_manager spec.controller_manager in
      let calico = new_calico native.empty_calico network.calico in
      record spec {
        network = some (record network {
          provider = "calico";
          kube_router = none;
          calico = some (record calico { mode = mode; overlay = overlay });
        });
        controller_manager = some (record manager { extra_args = allocate manager.extra_args });
      }

  -- The switch over the CNI.
  unfoldable pub choose_network :
      String → ClusterSpec C K N M R → NetworkSpec C K N → Result Refusal (ClusterSpec C K N M R)
  unfolding use_kube_router use_calico
  choose_network cni spec network =
      if cni == "kuberouter"
      then ok (use_kube_router spec network)
      else if cni == "calico-vxlan"
      then ok (use_calico native.vxlan "Always" spec network)
      else if cni == "calico-bgp"
      then ok (use_calico native.bird "Never" spec network)
      else err unsupported

  unfoldable pub with_network :
      String → Option (ClusterSpec C K N M R) → Result Refusal (ClusterSpec C K N M R)
  unfolding choose_network
  with_network cni none = err no_network
  with_network cni (some spec) = elim spec.network [
    | none ↦ err no_network
    | some network ↦ choose_network cni spec network
  ]

  -- The configuration's spec, `none` where it or the configuration is nil, as the call leaves it.
  unfoldable pub configure_network :
      Option (ClusterSpec C K N M R) → Selection → Result Refusal (ClusterSpec C K N M R)
  unfolding with_network
  configure_network config selection =
      if is_consistent native.to_lower selection
      then (if selection.distribution == "k0s"
          then with_network selection.cni config
          else err wrong_distribution)
      else err inconsistent
