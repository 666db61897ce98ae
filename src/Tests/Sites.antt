-- ===== src/Tests/Sites.antt =====
-- A small site and a small guest, and each theorem about them applied.
use labcontainers.Prelude.{
  String, ◌≡◌, ◌⊎◌, true, false, Option, none, some, List, [], ◌∷◌, err, if◌then◌else◌, ◌==◌,
}
use labcontainers.Prelude.FilePath.{◌⧺◌}
use labcontainers.Rig.{Op, exec_op, pipe_op, put_op, Reply, History, Outside, exec, unready}
use labcontainers.Kubernetes.K0s.{Member, Site, build}
use labcontainers.Kubernetes.K0s.Preparation.{Safe, build-Safe}
use labcontainers.Kubernetes.Kube.{Client, Names, run, kubectl_args}
use labcontainers.Kubernetes.Kube.Elected.{Elected, Refused, run-Elected}
use labcontainers.Provision.Containerd.{carry_archive, import_of}
use labcontainers.Provision.Containerd.Swept.{Swept, carry_archive-Swept}

abbrev pub says : String → Reply
says s = record { output = s; error = none }

abbrev fails : Reply
fails = record { output = ""; error = some "exit status 1" }

-- A node without the service, whose k0s is the expected one.
abbrev answer_to : List String → Reply
answer_to [] = says ""
answer_to (command ∷ []) = says ""
answer_to (command ∷ verb ∷ args) =
    if command == "test"
    then fails
    else if verb == "version"
    then says "v1.34.7+k0s.0\n"
    else if verb == "token"
    then says "secret\r\n"
    else says ""

abbrev reply_of : Op → Reply
reply_of (exec_op argv) = answer_to argv
reply_of (pipe_op input argv) = says ""
reply_of (put_op content path mode) = says ""

abbrev pub calm : Outside
calm = record {
  answers = λ h node op. reply_of op;
  now = λ h. 0;
  cancelled = λ h. false;
  interrupted = λ h. false;
}

-- A node that is down.
abbrev shaky : Outside
shaky = record calm { answers = λ h node op. if node == "b" then fails else reply_of op }

abbrev member : String → String → Option (Option String) → Member
member node role config = record { node = node; role = role; config = config; args = [] }

abbrev site : Site
site = record {
  binary = "ELF";
  version = "v1.34.7+k0s.0";
  members =
      member "a" "controller" (some (some "spec: {}"))
      ∷ member "b" "controller" (some (some "spec: {}"))
      ∷ member "c" "worker" none
      ∷ [];
  ready_within = 0;
}

build-Safe_example : Safe site [] (build shaky site []).1
build-Safe_example = build-Safe shaky site []

abbrev client : Client
client = record {
  bastion = "bastion";
  kubectl = [];
  control_planes = "10.0.0.1" ∷ "10.0.0.2" ∷ [];
  api_port = 0;
}

abbrev names : Names
names = record {
  join_host_port = λ addr port. addr ⧺ ":6443";
  is_label = λ s. true;
  is_subdomain = λ s. true;
}

abbrev asked : List String
asked = "get" ∷ "nodes" ∷ []

run-Elected_example :
    ((run calm names client asked []).0 ≡ err unready)
      × Refused names client client.control_planes [] (run calm names client asked []).1
    ⊎ ((s : String) × (v : History) × Elected names client client.control_planes s [] v
        × (run calm names client asked []
            ≡ exec calm client.bastion (kubectl_args client (("--server=" ⧺ s) ∷ asked)) v))
run-Elected_example = run-Elected calm names client asked []

abbrev import_command : List String
import_command = "k0s" ∷ "ctr" ∷ "images" ∷ "import" ∷ "-" ∷ []

carry_archive-Swept_example :
    Swept shaky
      (λ h. true)
      "TAR"
      ("a" ∷ "b" ∷ [])
      (import_of import_command)
      []
      (carry_archive shaky (λ h. true) "TAR" import_command ("a" ∷ "b" ∷ []) [])
carry_archive-Swept_example =
    carry_archive-Swept shaky (λ h. true) "TAR" import_command ("a" ∷ "b" ∷ []) []
