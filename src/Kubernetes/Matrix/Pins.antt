-- ===== src/Kubernetes/Matrix/Pins.antt =====
-- What `Selection.Validate` of pkg/kubernetes/matrix.go has established of a tuple that it accepts.
use labcontainers.Prelude.{
  ℕ, String, ◌≡◌, refl, ◌⊎◌, inl, inr, Bool, true, false, not, ◌&&◌, ◌||◌, Option, none, some, any,
  ◌==◌, eq_iff, nat_eq, arith,
}
use labcontainers.Text.{trim_space}
use labcontainers.Kubernetes.Matrix.{
  ArtifactPin, Selection, size, all_chars, some_char, is_hex, is_digit, is_lower_hex, is_sha256,
  is_commit, is_pinned, floating, drop_v, k0s_version, has_prefix, identifies, is_exact_version,
  fits_network, is_consistent,
}
use labcontainers.Kubernetes.Matrix.Versions.{Version, k0s_version-Version}
use labcontainers.Kubernetes.Matrix.Networks.{Network, fits_network-Network}

-- A digest of 64 hexadecimal digits.
abbrev pub Hashed : ArtifactPin → Type 0
Hashed p = (size p.sha256 ≡ 64) × (all_chars is_hex p.sha256 ≡ true)

-- A full commit, of 40 lower-case digits.
abbrev pub Commit : String → Type 0
Commit r = (size r ≡ 40) × (all_chars is_lower_hex r ≡ true)

-- The artifact's version is of a build of k0s, it begins with the Kubernetes version, and what ends a
-- fork's is the head of its commit.
abbrev pub Identified : Selection → Type 0
Identified s =
    (version suffix : String) × Version s.distribution_binary.version version suffix
    × (drop_v s.kubernetes_version ≡ version)
    × ((suffix ≡ "")
        ⊎ (Commit s.distribution_binary.source_revision
            × (has_prefix suffix s.distribution_binary.source_revision ≡ true)))

both : (a b : Bool) → (a && b) ≡ true → (a ≡ true) × (b ≡ true)
both true b h = (refl, h)
both false b h = cc

either : (a b : Bool) → (a || b) ≡ true → (a ≡ true) ⊎ (b ≡ true)
either true b h = inl refl
either false b h = inr h

counted : (n k : ℕ) (b : Bool) → (nat_eq n k && b) ≡ true → (n ≡ k) × (b ≡ true)
counted n k b h = let (same, rest) = both (nat_eq n k) b h in (ground arith, rest)

identifies-Identified :
    (s : Selection) (o : Option (String × String))
    → k0s_version s.distribution_binary.version ≡ o
    → identifies s.kubernetes_version s.distribution_binary.source_revision o ≡ true
    → Identified s
identifies-Identified s none found h = cc
identifies-Identified s (some (version, suffix)) found h =
    let revision = s.distribution_binary.source_revision in
    let (named, fork) =
      both (drop_v s.kubernetes_version == version)
        (suffix == "" || is_commit revision && has_prefix suffix revision) h in
    (
      version,
      suffix,
      k0s_version-Version s.distribution_binary.version found,
      (eq_iff (drop_v s.kubernetes_version) version).0 named,
      elim (either (suffix == "") (is_commit revision && has_prefix suffix revision) fork) [
        | inl stock ↦ inl ((eq_iff suffix "").0 stock)
        | inr forked ↦
            let (commit, heads) = both (is_commit revision) (has_prefix suffix revision) forked in
            inr (counted (size revision) 40 (all_chars is_lower_hex revision) commit, heads)
      ],
    )

is_pinned-Hashed :
    (to_lower : String → String) (p : ArtifactPin) → is_pinned to_lower p ≡ true → Hashed p
unfolding is_pinned
is_pinned-Hashed to_lower p h =
    let version = trim_space p.version in
    let label =
      not (version == "")
      && not (some_char (λ c. nat_eq c b'*') version)
      && not (any (λ f. f == to_lower version) floating)
      && some_char is_digit version in
    let (labelled, _) =
      both (label && is_sha256 p.sha256) (p.source_revision == "" || is_commit p.source_revision)
        h in
    counted (size p.sha256) 64 (all_chars is_hex p.sha256)
      (both label (is_sha256 p.sha256) labelled).1

-- A tuple that is accepted has a k0s artifact with a full digest. The artifact's version, without
-- a leading "v", is the requested Kubernetes version, which is three numbers with dots, then
-- "+k0s." and a number, and then nothing or, for a fork, ".appmana." and 7 to 40 lower-case
-- hexadecimal digits; and these are the head of its source revision, which is a full commit. Its
-- network is one of those that are accepted.
pub is_consistent-Identified :
    (to_lower : String → String) (s : Selection)
    → is_consistent to_lower s ≡ true
    → Hashed s.distribution_binary
      × (s.distribution ≡ "k0s")
      × Identified s
      × Network to_lower s.distribution_binary.source_revision s.cni s.windows_workers s.windows_bgp
unfolding is_consistent
is_consistent-Identified to_lower s h =
    let p = s.distribution_binary in
    let exact = is_exact_version s.kubernetes_version in
    let named = identifies s.kubernetes_version p.source_revision (k0s_version p.version) in
    let pinned = is_pinned to_lower p in
    let k0s = s.distribution == "k0s" in
    let network = fits_network to_lower p.source_revision s.cni s.windows_workers s.windows_bgp in
    let (h4, net) = both (exact && pinned && k0s && named) network h in
    let (h3, named') = both (exact && pinned && k0s) named h4 in
    let (h2, k0s') = both (exact && pinned) k0s h3 in
    (
      is_pinned-Hashed to_lower p (both exact pinned h2).1,
      (eq_iff s.distribution "k0s").0 k0s',
      identifies-Identified s (k0s_version p.version) refl named',
      (fits_network-Network to_lower p.source_revision s.cni s.windows_workers s.windows_bgp).0 net,
    )
