-- ===== src/Kubernetes/Kube.antt =====
-- pkg/kubernetes/kube/client.go: kubectl and helm through the commands of a bastion, against a control
-- plane that is ready. The upstream checks of names are parameters.
pub mod Elected
use labcontainers.Prelude.{
  ℕ, String, Bool, true, false, not, ◌&&◌, Option, none, some, List, [], ◌∷◌, ◌++◌, Result, ok, err,
  nat_eq, ◌==◌, if◌then◌else◌,
}
use labcontainers.Prelude.FilePath.{◌⧺◌}
use labcontainers.Actions.{pure, fail, try, require, ◌>>=◌, ◌>>◌}
use labcontainers.Text.{trim_space, lines}
use labcontainers.Rig.{Outside, Fault, invalid, unready, Cmd, exec, pipe, put}

pub record Client : Type 0 where
  pub bastion : String
  pub kubectl : List String
  pub control_planes : List String
  pub api_port : ℕ

unfoldable pub kubectl_args : Client → List String → List String
kubectl_args c args = elim c.kubectl [
  | [] ↦ "kubectl" ∷ args
  | command ∷ flags ↦ (command ∷ flags) ++ args
]

abbrev pub serving_port : Client → ℕ
serving_port c = if nat_eq c.api_port 0 then 6443 else c.api_port

-- `join_host_port` is net.JoinHostPort of an address and a number, and the others are the upstream
-- checks of a namespace or a container, and of a pod.
pub record Names : Type 0 where
  pub join_host_port : String → ℕ → String
  pub is_label : String → Bool
  pub is_subdomain : String → Bool

abbrev pub url : Names → Client → String → String
url n c addr = "https://" ⧺ n.join_host_port addr (serving_port c)

module _ (o : Outside) (n : Names) (c : Client) where
  -- The authenticated probe of one control plane.
  unfoldable pub probe : String → Cmd String
  unfolding exec kubectl_args
  probe server = exec o c.bastion (
      kubectl_args c
        (("--server=" ⧺ server) ∷ "--request-timeout=2s" ∷ "get" ∷ "--raw" ∷ "/readyz" ∷ []))

  unfoldable pub chosen : String → Cmd String → Result Fault String → Cmd String
  chosen server rest (ok _) = pure server
  chosen server rest (err _) = rest

  -- The loop of `Server`.
  unfoldable pub first_ready : List String → Cmd String
  unfolding probe chosen try ◌>>=◌
  first_ready [] = fail unready
  first_ready (addr ∷ rest) = do
    r ← try (probe (url n c addr))
    chosen (url n c addr) (first_ready rest) r

  unfoldable pub server : Cmd String
  unfolding first_ready
  server = first_ready c.control_planes

  unfoldable pub run : List String → Cmd String
  unfolding server exec
  run args = do s ← server; exec o c.bastion (kubectl_args c (("--server=" ⧺ s) ∷ args))

  abbrev is_command : List String → Bool
  is_command [] = false
  is_command (command ∷ _) = not (command == "")

  abbrev pub exec_args :
      String → String → String → String → Option String → List String → List String
  exec_args s namespace pod container stdin argv =
      ("--server=" ⧺ s)
      ∷ "exec"
      ∷ ("--namespace=" ⧺ namespace)
      ∷ pod
      ∷ ("--container=" ⧺ container)
      ∷ elim stdin [ none ↦ "--" ∷ argv | some _ ↦ "-i" ∷ "--" ∷ argv ]

  abbrev attach : Option String → List String → Cmd String
  attach none argv = exec o c.bastion argv
  attach (some input) argv = pipe o c.bastion input argv

  unfoldable pub exec_pod : String → String → String → Option String → List String → Cmd String
  unfolding server exec pipe
  exec_pod namespace pod container stdin argv = do
    require (n.is_label namespace && n.is_subdomain pod && n.is_label container) invalid
    require (is_command argv) invalid
    s ← server
    attach stdin (kubectl_args c (exec_args s namespace pod container stdin argv))

  unfoldable pub apply : String → Cmd (Unit {0})
  unfolding server pipe
  apply manifest = do
    s ← server
    _ ← pipe o c.bastion manifest (kubectl_args c (("--server=" ⧺ s) ∷ "apply" ∷ "-f" ∷ "-" ∷ []))
    pure tt

  -- `Get`: the output is trimmed, an error's too.
  unfoldable pub get : String → String → String → String → Cmd String
  unfolding run ◌>>=◌
  get namespace resource name json_path = do
    let args = "get" ∷ resource ∷ name ∷ "-o" ∷ ("jsonpath=" ⧺ json_path) ∷ []
    out ← run (if namespace == "" then args else "-n" ∷ namespace ∷ args)
    pure (trim_space out)

  unfoldable pub filled : List String → List String
  filled [] = []
  filled (l ∷ ls) = let rest = filled ls in if trim_space l == "" then rest else trim_space l ∷ rest

  abbrev pub names_path : String
  names_path = "jsonpath={range .items[*]}{.metadata.name}{\"\\n\"}{end}"

  unfoldable pub nodes : Cmd (List String)
  unfolding run filled lines
  nodes = do out ← run ("get" ∷ "nodes" ∷ "-o" ∷ names_path ∷ []); pure (filled (lines out))

  unfoldable pub node_ready : String → Cmd Bool
  unfolding get
  node_ready node = do
    out ← get "" "node" node "{.status.conditions[?(@.type==\"Ready\")].status}"
    pure (out == "True")

  unfoldable pub helm : List String → Cmd String
  unfolding server exec
  helm args = do s ← server; exec o c.bastion ("helm" ∷ ("--kube-apiserver=" ⧺ s) ∷ args)

  unfoldable pub install_kubeconfig : String → Cmd (Unit {0})
  unfolding put
  install_kubeconfig kubeconfig = put o c.bastion kubeconfig "/root/.kube/config" 384
