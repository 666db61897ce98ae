-- ===== src/Provision/Containerd.antt =====
-- pkg/containerd/carry.go and images.go, and pkg/kubernetes/rke2/rke2.go: image archives on nodes, the
-- check of a runtime's images, and an installer that is staged.
pub mod Swept
use labcontainers.Prelude.{
  ℕ, String, Bool, true, false, not, ◌&&◌, ◌||◌, Option, none, some, List, [], ◌∷◌, ◌++◌, Result,
  ok, err, nat_eq, ◌==◌, any, if◌then◌else◌,
}
use labcontainers.Prelude.FilePath.{is_abs, clean, cut}
use labcontainers.Actions.{pure, fail, try, require, for_each, ◌>>=◌, ◌>>◌}
use labcontainers.Kubernetes.Matrix.{has_prefix, some_char}
use labcontainers.Text.{trim_space, lines}
use labcontainers.Rig.{History, Outside, Fault, invalid, mismatch, Cmd, exec, put}

abbrev pub carried_archive : String
carried_archive = "/var/tmp/labcontainers-image-import.tar"

-- The command with the archive's path for its last argument, which is "-".
unfoldable pub import_of : List String → Option (List String)
import_of [] = none
import_of (a ∷ []) = if a == "-" then some (carried_archive ∷ []) else none
import_of (a ∷ b ∷ rest) = elim (import_of (b ∷ rest)) [ none ↦ none | some argv ↦ some (a ∷ argv) ]

-- `errors.Join`: what the nodes' errors add to, the first first.
abbrev pub Failures : Type 0
Failures = List Fault

abbrev pub noted : {A : Type 0} → Result Fault A → Failures
noted (ok _) = []
noted (err e) = e ∷ []

-- The error of the import, or else that of the removal.
abbrev pub first_error : Result Fault String → Result Fault String → Failures
first_error (err e) removed = e ∷ []
first_error (ok _) (err e) = e ∷ []
first_error (ok _) (ok _) = []

abbrev pub succeed : Failures → Cmd (Unit {0})
succeed [] = pure tt
succeed (e ∷ _) = fail e

module _ (o : Outside) where
  -- The import, and the removal that follows it.
  unfoldable pub import_archive : List String → String → Cmd Failures
  unfolding exec try ◌>>=◌
  import_archive argv node = do
    imported ← try (exec o node argv)
    removed ← try (exec o node ("rm" ∷ "-f" ∷ carried_archive ∷ []))
    pure (first_error imported removed)

  unfoldable pub after_put : List String → String → Result Fault (Unit {0}) → Cmd Failures
  unfolding import_archive
  after_put argv node (ok _) = import_archive argv node
  after_put argv node (err e) = pure (e ∷ [])

  unfoldable pub carry_to : String → List String → String → Cmd Failures
  unfolding after_put put
  carry_to archive argv node = do
    sent ← try (put o node archive carried_archive 384)
    after_put argv node sent

  -- The loop; `seeks` tells whether the archive can be read again. What stops it is an error too.
  unfoldable pub carry_all : (History → Bool) → String → List String → List String → Cmd Failures
  unfolding carry_to
  carry_all seeks archive argv [] h = (ok [], h)
  carry_all seeks archive argv (node ∷ nodes) h =
      let rest = carry_all seeks archive argv nodes in
      if o.cancelled h || not (seeks h)
      then (ok (mismatch ∷ []), h)
      else (carry_to archive argv node >>= λ failed. rest >>= λ more. pure (failed ++ more)) h

  unfoldable pub carry_by :
      Option (List String) → (History → Bool) → String → List String → Cmd (Unit {0})
  unfolding carry_all
  carry_by none seeks archive nodes = fail invalid
  carry_by (some argv) seeks archive nodes = do
    failed ← carry_all seeks archive argv nodes
    succeed failed

  unfoldable pub carry_archive :
      (History → Bool) → String → List String → List String → Cmd (Unit {0})
  unfolding carry_by import_of
  carry_archive seeks archive import_argv nodes =
      carry_by (import_of import_argv) seeks archive nodes

pub record Images : Type 0 where
  pub command : List String
  pub snapshotter : String
  pub local_import : Bool

abbrev is_command : List String → Bool
is_command [] = false
is_command (c ∷ _) = not (c == "")

abbrev pub is_input : String → Bool
is_input v =
    not (trim_space v == "") && not (has_prefix "-" v) && not (some_char (λ c. nat_eq c 0) v)

abbrev pub all_inputs : List String → Bool
all_inputs [] = true
all_inputs (v ∷ vs) = is_input v && all_inputs vs

abbrev is_some_input : List String → Bool
is_some_input [] = false
is_some_input (_ ∷ _) = true

-- `validate` returns no error.
unfoldable pub is_valid : Images → List String → Bool
unfolding trim_space
is_valid p values =
    is_command p.command && not (p.snapshotter == "") && is_some_input values && all_inputs values

module _ (o : Outside) (p : Images) (node : String) where
  -- `exec`
  unfoldable pub exec_images : List String → Cmd String
  unfolding exec
  exec_images args = exec o node (p.command ++ args)

  abbrev optional : Bool → String → List String
  optional true flag = flag ∷ []
  optional false flag = []

  unfoldable pub import_args : Bool → String → List String
  import_args no_unpack archive =
      ("images" ∷ "import" ∷ "--all-platforms" ∷ [])
      ++ optional p.local_import "--local"
      ++ optional no_unpack "--no-unpack"
      ++ ("--snapshotter" ∷ p.snapshotter ∷ archive ∷ [])

  unfoldable pub import_images : List String → Bool → Cmd (Unit {0})
  unfolding is_valid exec_images for_each import_args
  import_images archives no_unpack = do
    require (is_valid p archives) invalid
    for_each archives (λ archive. exec_images (import_args no_unpack archive) >> pure tt)

  abbrev pub is_ready : List String → String → Bool
  is_ready ready image = any (λ l. trim_space l == image) ready

  abbrev pub all_ready : List String → List String → Bool
  all_ready ready [] = true
  all_ready ready (i ∷ is) = is_ready ready i && all_ready ready is

  unfoldable pub require_ready : List String → Cmd (Unit {0})
  unfolding is_valid exec_images lines trim_space
  require_ready images = do
    require (is_valid p images) invalid
    out ← exec_images ("images" ∷ "check" ∷ "--snapshotter" ∷ p.snapshotter ∷ "--quiet" ∷ [])
    require (all_ready (lines out) images) mismatch

abbrev is_file : String → Bool
is_file path = is_abs path && not (clean path == "/")

abbrev pub is_key : Option (String × String) → Bool
is_key none = false
is_key (some (key, _)) = not (key == "") && not (has_prefix "-" key)

abbrev pub is_assignment : String → Bool
is_assignment a = is_key (cut b'=' a) && not (some_char (λ c. nat_eq c 0) a)

abbrev pub all_assignments : List String → Bool
all_assignments [] = true
all_assignments (a ∷ as') = is_assignment a && all_assignments as'

-- `Install` and `Ready` of pkg/kubernetes/rke2.
unfoldable pub install_rke2 : Outside → String → String → List String → Cmd (Unit {0})
unfolding clean cut exec ◌>>=◌
install_rke2 o node installer environment = do
  require (is_file installer) invalid
  require (all_assignments environment) invalid
  _ ← exec o node (("env" ∷ "--" ∷ environment) ++ (installer ∷ []))
  pure tt

unfoldable pub ready_rke2 : Outside → String → String → String → Cmd (Unit {0})
unfolding clean exec ◌>>=◌
ready_rke2 o node kubectl kubeconfig = do
  require (is_file kubectl) invalid
  require (is_file kubeconfig) invalid
  _ ← exec o node ("test" ∷ "-f" ∷ kubeconfig ∷ [])
  _ ← exec o node (kubectl ∷ "--kubeconfig" ∷ kubeconfig ∷ "get" ∷ "--raw" ∷ "/readyz" ∷ [])
  pure tt
