-- ===== src/Kubernetes/Matrix/Networks.antt =====
-- Which networks `Selection.Validate` of pkg/kubernetes/matrix.go accepts.
use labcontainers.Prelude.{
  String, ◌≡◌, refl, ◌↔◌, ◌⊎◌, inl, inr, Bool, true, false, not, ◌&&◌, Option, none, some, ◌==◌,
  eq_iff, if◌then◌else◌,
}
use labcontainers.Kubernetes.Matrix.{Capability, is_capable, is_none, bgp_capable, fits_network}

-- A network without Windows BGP: VXLAN, kube-router without Windows workers, or BGP without them.
abbrev pub Plain : String → Bool → Type 0
Plain cni windows =
    (cni ≡ "calico-vxlan")
    ⊎ ((cni ≡ "kuberouter") × (windows ≡ false))
    ⊎ ((cni ≡ "calico-bgp") × (windows ≡ false))

-- The capability for Windows BGP is given exactly where it is needed.
abbrev pub Network : (String → String) → String → String → Bool → Option Capability → Type 0
Network to_lower revision cni windows none = Plain cni windows
Network to_lower revision cni windows (some c) =
    (cni ≡ "calico-bgp") × (windows ≡ true) × (is_capable to_lower revision c ≡ true)

module _ (to_lower : String → String) (revision : String) where
  sound :
      (cni : String) (windows : Bool) (bgp : Option Capability) (vxlan router bgp_cni : Bool)
      → (vxlan ≡ true → cni ≡ "calico-vxlan")
      → (router ≡ true → cni ≡ "kuberouter")
      → (bgp_cni ≡ true → cni ≡ "calico-bgp")
      → (if vxlan
          then is_none to_lower bgp
          else if router
          then not windows && is_none to_lower bgp
          else if bgp_cni
          then (if windows then bgp_capable to_lower revision bgp else is_none to_lower bgp)
          else false)
        ≡ true
      → Network to_lower revision cni windows bgp
  sound cni windows none true router bgp_cni v r b e = inl (v refl)
  sound cni windows (some c) true router bgp_cni v r b e = cc
  sound cni false none false true bgp_cni v r b e = inr (inl (r refl, refl))
  sound cni true none false true bgp_cni v r b e = cc
  sound cni true (some c) false true bgp_cni v r b e = cc
  sound cni false (some c) false true bgp_cni v r b e = cc
  sound cni false none false false true v r b e = inr (inr (b refl, refl))
  sound cni true none false false true v r b e = cc
  sound cni true (some c) false false true v r b e = (b refl, refl, e)
  sound cni false (some c) false false true v r b e = cc
  sound cni windows bgp false false false v r b e = cc

  complete :
      (cni : String) (windows : Bool) (bgp : Option Capability)
      → Network to_lower revision cni windows bgp
      → fits_network to_lower revision cni windows bgp ≡ true
  unfolding fits_network
  complete cni windows none (inl same) = rw same
  complete cni windows none (inr (inl (same, off))) = rw (same, off)
  complete cni windows none (inr (inr (same, off))) = rw (same, off)
  complete cni windows (some c) (same, on, capable) = rw (same, on, capable)

-- The network is accepted exactly where it is one of the plain ones and no capability for Windows BGP
-- is given, or it is BGP with Windows workers and a sound capability is given.
pub fits_network-Network :
    (to_lower : String → String) (revision cni : String) (windows : Bool) (bgp : Option Capability)
    → (fits_network to_lower revision cni windows bgp ≡ true)
      ↔ Network to_lower revision cni windows bgp
unfolding fits_network
fits_network-Network to_lower revision cni windows bgp = (
  sound to_lower revision cni windows bgp (cni == "calico-vxlan") (cni == "kuberouter")
      (cni == "calico-bgp") (eq_iff cni "calico-vxlan").0 (eq_iff cni "kuberouter").0
      (eq_iff cni "calico-bgp").0,
  complete to_lower revision cni windows bgp,
)
