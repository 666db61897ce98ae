-- ===== src/Kubernetes/K0s.antt =====
-- pkg/kubernetes/k0s/site.go and k0s.go: a cluster of several nodes, built from a prepared binary. The
-- upstream configuration object and its YAML encoding are parameters.
pub mod Effects
pub mod Preparation
pub mod Network
pub mod Order
pub mod Joining
pub mod Success
use labcontainers.Prelude.{
  ℕ, suc, String, Bool, true, false, not, ◌&&◌, ◌||◌, Option, none, some, List, [], ◌∷◌, ◌++◌,
  Result, ok, err, nat_eq, ◌==◌, if◌then◌else◌,
}
use labcontainers.Prelude.FilePath.{◌⧺◌, is_abs, clean, dir_of}
use labcontainers.Actions.{Action, pure, fail, try, require, demand, when, for_each, ◌>>=◌, ◌>>◌}
use labcontainers.Text.{trim_space, fields, without}
use labcontainers.Rig.{Outside, Fault, invalid, mismatch, Cmd, exec, put, await_within}

abbrev pub binary_path : String
binary_path = "/usr/local/bin/k0s"

abbrev pub config_path : String
config_path = "/etc/k0s/k0s.yaml"

abbrev pub token_path : String
token_path = "/etc/k0s/token"

-- `config` is what the YAML encoder makes of the native configuration, `none` for its error.
pub record Member : Type 0 where
  pub node : String
  pub role : String
  pub config : Option (Option String)
  pub args : List String

pub record Site : Type 0 where
  pub binary : String
  pub version : String
  pub members : List Member
  pub ready_within : ℕ

abbrev pub is_controller : Member → Bool
is_controller m = m.role == "controller"

abbrev is_given : Option (Option String) → Bool
is_given none = false
is_given (some _) = true

-- A controller has a configuration, and a worker none.
abbrev pub is_sound : Member → Bool
is_sound m = if is_controller m then is_given m.config else not (is_given m.config)

abbrev pub unit_file : String → String
unit_file unit = "/etc/systemd/system/" ⧺ unit ⧺ ".service"

abbrev pub succeeds : Result Fault String → Bool
succeeds (ok _) = true
succeeds (err _) = false

unfoldable pub install_args : Bool → Member → List String
install_args joining m =
    m.role ∷ (if joining then ("--token-file=" ⧺ token_path) ∷ [] else []) ++ m.args

module _ (o : Outside) where
  -- `Ready`
  unfoldable pub ready : String → Cmd (Unit {0})
  unfolding exec ◌>>=◌
  ready node = do
    _ ← exec o node ("k0s" ∷ "status" ∷ [])
    _ ← exec o node ("k0s" ∷ "kubectl" ∷ "get" ∷ "--raw" ∷ "/readyz" ∷ [])
    _ ← exec o node ("k0s" ∷ "kubeconfig" ∷ "admin" ∷ [])
    pure tt

  unfoldable pub verify_version : String → String → Cmd (Unit {0})
  unfolding exec ◌>>=◌
  verify_version version node = do
    out ← exec o node ("k0s" ∷ "version" ∷ [])
    require (trim_space out == version) mismatch

  -- `WriteConfig` of a configuration that is given.
  unfoldable pub write_config : String → String → Option String → Cmd (Unit {0})
  unfolding exec ◌>>=◌
  write_config node filename encoded = do
    require (is_abs filename && not (clean filename == "/")) invalid
    data' ← demand encoded invalid
    _ ← exec o node ("mkdir" ∷ "-p" ∷ dir_of filename ∷ [])
    put o node data' filename 384

  -- `Install`
  unfoldable pub install_service : String → List String → Cmd (Unit {0})
  unfolding exec ◌>>=◌
  install_service node [] = fail invalid
  install_service node (a ∷ as') = do _ ← exec o node ("k0s" ∷ "install" ∷ a ∷ as'); pure tt

  unfoldable pub has_unit : String → String → Cmd Bool
  unfolding exec ◌>>=◌
  has_unit node unit = do
    r ← try (exec o node ("test" ∷ "-f" ∷ unit_file unit ∷ []))
    pure (succeeds r)

  unfoldable pub installed : String → Cmd Bool
  unfolding has_unit ◌>>=◌
  installed node = do
    there ← has_unit node "k0scontroller"
    if there then pure true else has_unit node "k0sworker"

  unfoldable pub start : String → Cmd (Unit {0})
  unfolding exec ◌>>=◌
  start node = do _ ← exec o node ("k0s" ∷ "start" ∷ []); pure tt

  -- The configuration's argument, once it is written.
  unfoldable pub configure : Member → Option (Option String) → Cmd (List String)
  unfolding write_config ◌>>=◌
  configure m none = pure []
  configure m (some encoded) = do
    write_config m.node config_path encoded
    pure (("--config=" ⧺ config_path) ∷ [])

  unfoldable pub install_new : Bool → Member → Cmd (Unit {0})
  unfolding configure install_service
  install_new joining m = do
    configured ← configure m m.config
    install_service m.node (install_args joining m ++ configured)

  unfoldable pub install : Bool → Member → Cmd (Unit {0})
  unfolding install_new
  install joining m = do
    there ← installed m.node
    when (not there) (install_new joining m)
    start m.node

  unfoldable pub wait_ready : Site → String → Cmd (Unit {0})
  unfolding await_within
  wait_ready s node =
      await_within o (if nat_eq s.ready_within 0 then 300000000000 else s.ready_within) (ready node)

  -- The end of `join`, before the installation: a token that the first controller printed.
  unfoldable pub deliver : Member → String → Cmd (Unit {0})
  unfolding exec put ◌>>=◌
  deliver m out = do
    let token = trim_space (without 13 out)
    require (not (token == "")) mismatch
    _ ← exec o m.node ("mkdir" ∷ "-p" ∷ "/etc/k0s" ∷ [])
    put o m.node token token_path 384

  unfoldable pub carry_token : String → Member → Cmd (Unit {0})
  unfolding deliver
  carry_token first m = do
    out ← exec o first ("k0s" ∷ "token" ∷ "create" ∷ "--role" ∷ m.role ∷ [])
    deliver m out

  unfoldable pub join_new : Site → String → Member → Cmd (Unit {0})
  unfolding carry_token wait_ready install
  join_new s first m = do wait_ready s first; carry_token first m; install true m

  unfoldable pub join_member : Site → String → Member → Cmd (Unit {0})
  unfolding join_new
  join_member s first m = do
    there ← installed m.node
    if there then start m.node else join_new s first m

  -- One turn of the last loop of `Build`.
  unfoldable pub admit : Site → String → Member → Cmd (Unit {0})
  unfolding join_member
  admit s first m = do join_member s first m; when (is_controller m) (wait_ready s m.node)

  unfoldable pub carry : Site → Member → Cmd (Unit {0})
  unfolding put ◌>>=◌
  carry s m = do require (is_sound m) invalid; put o m.node s.binary binary_path 493

  -- What `Build` does before it installs anything.
  unfoldable pub prepare : Site → Cmd (Unit {0})
  unfolding carry verify_version for_each
  prepare s = do
    for_each s.members (carry s)
    for_each s.members (λ m. verify_version s.version m.node)

  unfoldable pub assemble : Site → Member → List Member → Cmd (Unit {0})
  unfolding install admit for_each
  assemble s first rest = do
    install false first
    wait_ready s first.node
    for_each rest (admit s first.node)

  unfoldable pub build_members : Site → List Member → Cmd (Unit {0})
  unfolding prepare assemble
  build_members s [] = fail invalid
  build_members s (first ∷ rest) = do
    require (is_controller first) invalid
    prepare s
    assemble s first rest

  unfoldable pub build : Site → Cmd (Unit {0})
  unfolding build_members
  build s = build_members s s.members

  -- `InstalledDigest`: the digest so far is empty before the first node.
  unfoldable pub same_digest : String → List String → Cmd String
  unfolding exec ◌>>=◌
  same_digest pin [] = pure pin
  same_digest pin (node ∷ rest) = do
    out ← exec o node ("sha256sum" ∷ binary_path ∷ [])
    elim (fields out) [
      | [] ↦ fail mismatch
      | digest ∷ _ ↦
          if pin == ""
          then same_digest digest rest
          else if digest == pin
          then same_digest pin rest
          else fail mismatch
    ]

  unfoldable pub installed_digest : List String → Cmd String
  unfolding same_digest
  installed_digest nodes = same_digest "" nodes
