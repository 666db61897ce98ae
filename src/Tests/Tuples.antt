-- ===== src/Tests/Tuples.antt =====
-- A tuple of artifacts, and each theorem about them applied to it.
use labcontainers.Prelude.{◌≡◌, refl, ◌↔◌, true, some, none}
use labcontainers.Text.{is_space}
use labcontainers.Kubernetes.Matrix.{ArtifactPin, Selection, is_consistent, fits_network}
use labcontainers.Kubernetes.Matrix.Networks.{Network, fits_network-Network}
use labcontainers.Kubernetes.Matrix.Pins.{Hashed, Identified, is_consistent-Identified}

-- A fork of k0s at this commit.
abbrev forked : ArtifactPin
forked = record {
  version = "v1.34.7+k0s.0.appmana.0123abc";
  sha256 = "00112233445566778899aabbccddeeff00112233445566778899AABBCCDDEEFF";
  source_revision = "0123abcdef0123abcdef0123abcdef0123abcdef";
}

abbrev pub selection : Selection
selection = record {
  distribution = "k0s";
  kubernetes_version = "1.34.7";
  distribution_binary = forked;
  cni = "calico-bgp";
  windows_workers = true;
  windows_bgp = some (record {
    generator_revision = "0123abcdef0123abcdef0123abcdef0123abcdef";
    manifests = none;
    rras_tooling = forked;
    windows_image = forked;
  });
}

pub selection_fits : is_consistent (λ s. s) selection ≡ true
unfolding is_consistent is_space
selection_fits = refl

is_consistent-Identified_example :
    Hashed forked
    × (selection.distribution ≡ "k0s")
    × Identified selection
    × Network (λ s. s) forked.source_revision "calico-bgp" true selection.windows_bgp
is_consistent-Identified_example = is_consistent-Identified (λ s. s) selection selection_fits

fits_network-Network_example :
    (fits_network (λ s. s) "" "calico-bgp" true selection.windows_bgp ≡ true)
    ↔ Network (λ s. s) "" "calico-bgp" true selection.windows_bgp
fits_network-Network_example =
    fits_network-Network (λ s. s) "" "calico-bgp" true selection.windows_bgp
