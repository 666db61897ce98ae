-- ===== src/Kubernetes/K0s/Network/Outcome.antt =====
-- When a network is configured, and what doing it again changes.
use std.Path.{subst}
use labcontainers.Prelude.{
  String, ◌≡◌, refl, sym, ap, ◌∙◌, ◌⊎◌, inl, inr, Bool, true, Option, none, some, Map, lookup,
  insert, lookup-insert, lookup-insert_self, ok, false, ◌==◌,
}
use labcontainers.Kubernetes.Matrix.{Selection, Capability, is_consistent}
use labcontainers.Kubernetes.Matrix.Networks.{Network}
use labcontainers.Kubernetes.Matrix.Pins.{is_consistent-Identified}
use labcontainers.Kubernetes.K0s.Network.{
  Native, ClusterSpec, NetworkSpec, Manager, allocate, new_manager, new_calico, use_calico,
  use_kube_router, choose_network, with_network, configure_network,
}

abbrev pub policy : Option String → String
policy none = "false"
policy (some given) = given

-- The allocator's policy is the one that was given, or off; every other argument is kept.
abbrev pub Policy : Map String → Map String → Type 0
Policy old new =
    (lookup "allocate-node-cidrs" new ≡ some (policy (lookup "allocate-node-cidrs" old)))
    × ((key : String) → ("allocate-node-cidrs" == key) ≡ false → lookup key new ≡ lookup key old)

allocate-Policy : (args : Map String) → Policy args (allocate args)
unfolding allocate
allocate-Policy args = go (lookup "allocate-node-cidrs" args) refl
  where
    go :
        (o : Option String)
        → lookup "allocate-node-cidrs" args ≡ o
        → (let new : Map String = elim o [
          | none ↦ insert "allocate-node-cidrs" "false" args
          | some _ ↦ args
        ] in
            (lookup "allocate-node-cidrs" new ≡ some (policy o))
            × ((key : String)
                → ("allocate-node-cidrs" == key) ≡ false
                → lookup key new ≡ lookup key args))
    go none e = (
      lookup-insert_self "allocate-node-cidrs" "false" args,
      λ key other. lookup-insert "allocate-node-cidrs" key "false" args ∙ rw other refl,
    )
    go (some x) e = (e, λ key other. refl)

module _ {C K N M R : Type 0} (native : Native C M) where
  -- Calico with this mode and this overlay, and the allocator's policy with it. What the configuration
  -- had besides is kept.
  abbrev pub UsesCalico :
      String
      → String
      → ClusterSpec C K N M R
      → NetworkSpec C K N
      → ClusterSpec C K N M R
      → NetworkSpec C K N
      → Type 0
  UsesCalico mode overlay spec network after new =
      (new.provider ≡ "calico")
      × (new.kube_router ≡ none)
      × (new.calico
          ≡ some (record {
            mode = mode;
            overlay = overlay;
            calico_rest = (new_calico native.empty_calico network.calico).calico_rest;
          }))
      × ((m : Manager M) × (after.controller_manager ≡ some m)
          × (m.manager_rest
              ≡ (new_manager native.empty_manager spec.controller_manager).manager_rest)
          × Policy (new_manager native.empty_manager spec.controller_manager).extra_args
              m.extra_args)

  -- The configuration after has the network that was selected.
  abbrev pub Configured :
      String → ClusterSpec C K N M R → NetworkSpec C K N → ClusterSpec C K N M R → Type 0
  Configured cni spec network after =
      (new : NetworkSpec C K N) × (after.network ≡ some new)
      × (new.network_rest ≡ network.network_rest)
      × (after.spec_rest ≡ spec.spec_rest)
      × (((cni ≡ "calico-vxlan") × UsesCalico native.vxlan "Always" spec network after new)
          ⊎ ((cni ≡ "kuberouter")
              × (new.provider ≡ "kuberouter")
              × (new.calico ≡ none)
              × (new.kube_router ≡ network.kube_router)
              × (after.controller_manager ≡ spec.controller_manager))
          ⊎ ((cni ≡ "calico-bgp") × UsesCalico native.bird "Never" spec network after new))

Chosen : String → Type 0
Chosen cni = (cni ≡ "calico-vxlan") ⊎ (cni ≡ "kuberouter") ⊎ (cni ≡ "calico-bgp")

Network-Chosen :
    (to_lower : String → String) (revision cni : String) (windows : Bool) (bgp : Option Capability)
    → Network to_lower revision cni windows bgp
    → Chosen cni
unfolding Chosen
Network-Chosen to_lower revision cni windows none (inl v) = inl v
Network-Chosen to_lower revision cni windows none (inr (inl (r, off))) = inr (inl r)
Network-Chosen to_lower revision cni windows none (inr (inr (b, off))) = inr (inr b)
Network-Chosen to_lower revision cni windows (some c) (b, on, capable) = inr (inr b)

allocate-kept :
    (args : Map String) {x : String}
    → lookup "allocate-node-cidrs" args ≡ some x
    → allocate args ≡ args
unfolding allocate
allocate-kept args e = rw (allocate, e)

allocate-again : (args : Map String) → allocate (allocate args) ≡ allocate args
unfolding allocate
allocate-again args = go (lookup "allocate-node-cidrs" args) refl
  where
    go :
        (o : Option String)
        → lookup "allocate-node-cidrs" args ≡ o
        → allocate (elim o [ none ↦ insert "allocate-node-cidrs" "false" args | some _ ↦ args ])
          ≡ elim o [ none ↦ insert "allocate-node-cidrs" "false" args | some _ ↦ args ]
    go none e =
        allocate-kept (insert "allocate-node-cidrs" "false" args)
          (lookup-insert_self "allocate-node-cidrs" "false" args)
    go (some x) e = allocate-kept args e

module _ {C K N M R : Type 0} (native : Native C M) where
  -- The switch answers, and its answer is what it gives for itself.
  abbrev Settles : String → ClusterSpec C K N M R → NetworkSpec C K N → Type 0
  Settles cni spec network =
      (after : ClusterSpec C K N M R) × (new : NetworkSpec C K N) × (choose_network native cni spec
          network
        ≡ ok after)
      × (after.network ≡ some new)
      × (choose_network native cni after new ≡ ok after)
      × Configured native cni spec network after

  use_calico-UsesCalico :
      (mode overlay : String) (spec : ClusterSpec C K N M R) (network : NetworkSpec C K N)
      → (let after = use_calico native mode overlay spec network in
          (new : NetworkSpec C K N) × (after.network ≡ some new)
          × (new.network_rest ≡ network.network_rest)
          × (after.spec_rest ≡ spec.spec_rest)
          × UsesCalico native mode overlay spec network after new)
  unfolding use_calico
  use_calico-UsesCalico mode overlay spec network =
      let args = (new_manager native.empty_manager spec.controller_manager).extra_args in
      (_, refl, refl, refl, (refl, refl, refl, (_, refl, refl, allocate-Policy args)))

  use_calico-again :
      (mode overlay : String) (spec : ClusterSpec C K N M R) (network : NetworkSpec C K N)
      → (new : NetworkSpec C K N) × ((use_calico native mode overlay spec network).network
          ≡ some new)
        × (use_calico native mode overlay (use_calico native mode overlay spec network) new
            ≡ use_calico native mode overlay spec network)
  unfolding use_calico
  use_calico-again mode overlay spec network =
      let manager = new_manager native.empty_manager spec.controller_manager in
      let after = use_calico native mode overlay spec network in
      (
        _,
        refl,
        ap
            (λ args. record after {
              controller_manager = some (record manager { extra_args = args });
            })
            (allocate-again manager.extra_args),
      )

  choose_network-Settles :
      (cni : String) (spec : ClusterSpec C K N M R) (network : NetworkSpec C K N)
      → Chosen cni
      → Settles cni spec network
  unfolding Chosen choose_network use_kube_router
  choose_network-Settles cni spec network (inl v) =
      let (new, e, same) = use_calico-again native.vxlan "Always" spec network in
      subst (λ c. Settles c spec network) (sym v)
        (
          _,
          new,
          refl,
          e,
          ap ok same,
          (let (new', e', rest, spec', uses) =
                use_calico-UsesCalico native.vxlan "Always" spec network in
              (new', e', rest, spec', inl (refl, uses))),
        )
  choose_network-Settles cni spec network (inr (inl r)) =
      subst (λ c. Settles c spec network) (sym r)
        (
          use_kube_router native spec network,
          _,
          refl,
          refl,
          refl,
          (_, refl, refl, refl, inr (inl (refl, refl, refl, refl, refl))),
        )
  choose_network-Settles cni spec network (inr (inr b)) =
      let (new, e, same) = use_calico-again native.bird "Never" spec network in
      subst (λ c. Settles c spec network) (sym b)
        (
          _,
          new,
          refl,
          e,
          ap ok same,
          (let (new', e', rest, spec', uses) =
                use_calico-UsesCalico native.bird "Never" spec network in
              (new', e', rest, spec', inr (inr (refl, uses)))),
        )

  configure_network-answers :
      (spec : ClusterSpec C K N M R) (network : NetworkSpec C K N) (selection : Selection)
      {after : ClusterSpec C K N M R}
      → spec.network ≡ some network
      → is_consistent native.to_lower selection ≡ true
      → selection.distribution ≡ "k0s"
      → choose_network native selection.cni spec network ≡ ok after
      → configure_network native (some spec) selection ≡ ok after
  unfolding configure_network with_network
  configure_network-answers spec network selection there consistent k0s answer =
      rw (consistent, k0s, there) answer

-- A selection that is consistent configures every configuration that has a network, and to configure
-- the result again with it changes nothing. With kube-router the provider is "kuberouter", without
-- Calico; with VXLAN or BGP it is "calico", without kube-router, with upstream's mode for it and the
-- overlay "Always" or "Never", and the controller manager's policy of allocating node CIDRs is "false"
-- unless one was given. Every other field and argument is kept.
pub configure_network-Settles :
    {C K N M R : Type 0} (native : Native C M) (spec : ClusterSpec C K N M R)
    (network : NetworkSpec C K N) (selection : Selection)
    → spec.network ≡ some network
    → is_consistent native.to_lower selection ≡ true
    → (after : ClusterSpec C K N M R) × (configure_network native (some spec) selection ≡ ok after)
      × (configure_network native (some after) selection ≡ ok after)
      × Configured native selection.cni spec network after
configure_network-Settles native spec network selection there consistent =
    let (hashed, k0s, identified, fits) =
      is_consistent-Identified native.to_lower selection consistent in
    let cni = selection.cni in
    let (after, new, first, e, second, configured) =
      choose_network-Settles native cni spec network (
        Network-Chosen native.to_lower selection.distribution_binary.source_revision cni
          selection.windows_workers selection.windows_bgp fits) in
    (
      after,
      configure_network-answers native spec network selection there consistent k0s first,
      configure_network-answers native after new selection e consistent k0s second,
      configured,
    )
