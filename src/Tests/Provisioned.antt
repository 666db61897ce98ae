-- ===== src/Tests/Provisioned.antt =====
-- A Windows guest, a guest with two links and a cluster's configuration, and each theorem about them
-- applied.
use labcontainers.Prelude.{
  String, ◌≡◌, refl, true, false, none, some, List, [], ◌∷◌, ok, if◌then◌else◌, ◌==◌,
}
use labcontainers.Rig.{pipe_op}
use labcontainers.Rig.Rules.{did}
use labcontainers.Provision.Windows.{Answer, exited, Calls, Guest, Options, ensure_features}
use labcontainers.Provision.Windows.Restarted.{Ensured, ensure_features-Ensured}
use labcontainers.Provision.Interfaces.{Link, Codec, interface_names}
use labcontainers.Provision.Interfaces.Unique.{Canonical, Named, interface_names-Unique}
use labcontainers.Kubernetes.K0s.Network.{Native, ClusterSpec, NetworkSpec, configure_network}
use labcontainers.Kubernetes.K0s.Network.Outcome.{Configured, configure_network-Settles}
use labcontainers.Tests.Tuples.{selection, selection_fits}
use labcontainers.Tests.Sites.{calm}

abbrev features : Options
features = record {
  names = "Containers" ∷ [];
  include_management_tools = true;
  allow_reboot = true;
  install_timeout = 0;
  reboot_timeout = 0;
  poll_interval = 0;
}

-- The first answer asks for a restart, and the second probe is of another boot.
abbrev windows_answer : Calls → Answer
windows_answer [] = exited 0 "restart"
windows_answer (_ ∷ []) = exited 0 ""
windows_answer (_ ∷ _ ∷ []) = exited 0 "restart"
windows_answer (_ ∷ _ ∷ _ ∷ _) = exited 0 "back"

abbrev booting : Guest
booting = record {
  answers = λ h timeout argv. windows_answer h;
  encode = λ s. s;
  decode_json = λ s.
      if s == "back"
      then some (record { installed = true; reboot_required = false; boot_id = "2" })
      else if s == "restart"
      then some (record { installed = false; reboot_required = true; boot_id = "1" })
      else none;
  polls = λ h. 2;
}

features_installed : (ensure_features booting features []).0 ≡ ok tt
unfolding ensure_features
features_installed = refl

ensure_features-Ensured_example :
    Ensured booting features [] (ensure_features booting features []).1
ensure_features-Ensured_example = ensure_features-Ensured booting features [] features_installed

abbrev links : List Link
links =
    record { name = "eth1"; address = "02-00-00-00-00-01" }
    ∷ record { name = "eth0"; address = "02:00:00:00:00:02" }
    ∷ []

abbrev codec : Codec
codec = record {
  parse_mac = λ s. if s == "02-00-00-00-00-01" then some (6, "02:00:00:00:00:01") else some (6, s);
  links = λ s. some links;
}

abbrev addresses : List String
addresses = "02:00:00:00:00:02" ∷ "02:00:00:00:00:01" ∷ []

abbrev found : List String
found = "eth0" ∷ "eth1" ∷ []

links_named : (interface_names codec calm "g" addresses []).0 ≡ ok found
unfolding interface_names
links_named = refl

interface_names-Unique_example :
    (want : List String) × (output : String) × (ls : List Link) × Canonical codec [] addresses want
    × (codec.links output ≡ some ls)
    × Named codec ls want found
    × ((interface_names codec calm "g" addresses []).1
        ≡ did "g" (pipe_op "" ("ip" ∷ "-j" ∷ "link" ∷ "show" ∷ [])) output ∷ [])
interface_names-Unique_example =
    interface_names-Unique codec calm "g" addresses found [] links_named

abbrev Spec : Type 0
Spec = ClusterSpec (Unit {0}) (Unit {0}) (Unit {0}) (Unit {0}) (Unit {0})

abbrev network : NetworkSpec (Unit {0}) (Unit {0}) (Unit {0})
network = record { provider = "custom"; calico = none; kube_router = some tt; network_rest = tt }

abbrev spec : Spec
spec = record { network = some network; controller_manager = none; spec_rest = tt }

abbrev upstream : Native (Unit {0}) (Unit {0})
upstream = record {
  vxlan = "vxlan";
  bird = "bird";
  empty_calico = tt;
  empty_manager = tt;
  to_lower = λ s. s;
}

configure_network-Settles_example :
    (after : Spec) × (configure_network upstream (some spec) selection ≡ ok after)
    × (configure_network upstream (some after) selection ≡ ok after)
    × Configured upstream selection.cni spec network after
configure_network-Settles_example =
    configure_network-Settles upstream spec network selection refl selection_fits
