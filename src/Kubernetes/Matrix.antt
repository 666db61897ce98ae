-- ===== src/Kubernetes/Matrix.antt =====
-- `Selection.Validate` of pkg/kubernetes/matrix.go. It returns an error's text, of which the model keeps
-- whether there is one. The digest of manifests is a parameter of another method, which is left out.
pub mod Networks
pub mod Pins
pub mod Versions
use Prim.Native.Char.{Char, code}
use labcontainers.Prelude.{
  ℕ, suc, String, Bool, true, false, not, ◌&&◌, ◌||◌, Option, none, some, List, [], ◌∷◌, any, leb,
  nat_eq, ◌==◌, if◌then◌else◌,
}
use labcontainers.Prelude.FilePath.{◌⧺◌}
use labcontainers.Text.{trim_space}

pub record ArtifactPin : Type 0 where
  pub version : String
  pub sha256 : String
  pub source_revision : String

pub record Capability : Type 0 where
  pub generator_revision : String
  pub manifests : Option ArtifactPin
  pub rras_tooling : ArtifactPin
  pub windows_image : ArtifactPin

pub record Selection : Type 0 where
  pub distribution : String
  pub kubernetes_version : String
  pub distribution_binary : ArtifactPin
  pub cni : String
  pub windows_workers : Bool
  pub windows_bgp : Option Capability

abbrev pub within : ℕ → ℕ → ℕ → Bool
within a b c = leb a c && leb c b

abbrev pub is_digit : ℕ → Bool
is_digit c = within b'0' b'9' c

abbrev pub is_lower_hex : ℕ → Bool
is_lower_hex c = is_digit c || within b'a' b'f' c

abbrev pub is_hex : ℕ → Bool
is_hex c = is_lower_hex c || within b'A' b'F' c

abbrev pub all_chars : (ℕ → Bool) → String → Bool
all_chars p String.[] = true
all_chars p (String.◌∷◌ c s) = p (code c) && all_chars p s

abbrev pub some_char : (ℕ → Bool) → String → Bool
some_char p String.[] = false
some_char p (String.◌∷◌ c s) = p (code c) || some_char p s

abbrev pub size : String → ℕ
size String.[] = 0
size (String.◌∷◌ c s) = suc (size s)

-- `sha256Hex` and `sourceRevision`
abbrev pub is_sha256 : String → Bool
is_sha256 s = nat_eq (size s) 64 && all_chars is_hex s

abbrev pub is_commit : String → Bool
is_commit s = nat_eq (size s) 40 && all_chars is_lower_hex s

-- The longest head of such characters, and the rest.
abbrev prepend : Char → String × String → String × String
prepend c (run, rest) = (String.◌∷◌ c run, rest)

unfoldable pub span : (ℕ → Bool) → String → String × String
span p String.[] = (String.[], String.[])
span p (String.◌∷◌ c s) =
    let more = span p s in if p (code c) then prepend c more else (String.[], String.◌∷◌ c s)

-- The rest behind a literal head.
unfoldable pub behind : String → String → Option String
behind String.[] s = some s
behind (String.◌∷◌ c l) String.[] = none
behind (String.◌∷◌ c l) (String.◌∷◌ d s) =
    let rest = behind l s in if nat_eq (code c) (code d) then rest else none

-- `v?`
abbrev pub drop_v : String → String
drop_v String.[] = String.[]
drop_v (String.◌∷◌ c s) = if nat_eq (code c) b'v' then s else String.◌∷◌ c s

abbrev pub nonempty : String × String → Option (String × String)
nonempty (String.[], rest) = none
nonempty (String.◌∷◌ c s, rest) = some (String.◌∷◌ c s, rest)

infixl 20 ◌then◌
-- A part of a pattern behind another.
abbrev ◌then◌ : {A B : Type 0} → Option A → (A → Option B) → Option B
none then f = none
(some a) then f = f a

abbrev number : String → Option (String × String)
number s = nonempty (span is_digit s)

-- What matches `[0-9]+\.[0-9]+\.[0-9]+` at the head, and the rest.
unfoldable pub triple : String → Option (String × String)
unfolding span behind
triple s = number s then λ a. behind "." a.1 then number then λ b.
    behind "." b.1 then number then λ c. some (a.0 ⧺ "." ⧺ b.0 ⧺ "." ⧺ c.0, c.1)

-- `exactKubernetesVersion`
abbrev pub ends_there : Option (String × String) → Bool
ends_there none = false
ends_there (some (matched, rest)) = rest == ""

unfoldable pub is_exact_version : String → Bool
unfolding triple
is_exact_version s = ends_there (triple (drop_v s))

-- The end of `k0sArtifactVersion`: nothing, or a fork's abbreviated commit.
unfoldable pub fork_suffix : String → Option String
unfolding span behind
fork_suffix String.[] = some ""
fork_suffix (String.◌∷◌ c s) = behind ".appmana." (String.◌∷◌ c s) then λ hex.
    if within 7 40 (size hex) && all_chars is_lower_hex hex then some hex else none

-- The groups of `k0sArtifactVersion`.
unfoldable pub k0s_version : String → Option (String × String)
unfolding triple fork_suffix
k0s_version s = triple (drop_v s) then λ t.
    behind "+k0s." t.1 then number then λ n. fork_suffix n.1 then λ suffix. some (t.0, suffix)

-- strings.HasPrefix
abbrev pub has_prefix : String → String → Bool
has_prefix String.[] s = true
has_prefix (String.◌∷◌ c l) String.[] = false
has_prefix (String.◌∷◌ c l) (String.◌∷◌ d s) = nat_eq (code c) (code d) && has_prefix l s

-- strings.TrimPrefix with `v` is `drop_v`.
abbrev pub identifies : String → String → Option (String × String) → Bool
identifies kubernetes revision none = false
identifies kubernetes revision (some (version, suffix)) =
    drop_v kubernetes == version
    && (suffix == "" || is_commit revision && has_prefix suffix revision)

abbrev pub floating : List String
floating = "latest" ∷ "stable" ∷ "current" ∷ "main" ∷ "master" ∷ "nightly" ∷ []

-- `to_lower` is strings.ToLower.
module _ (to_lower : String → String) where
  -- `ArtifactPin.validate`
  unfoldable pub is_pinned : ArtifactPin → Bool
  unfolding trim_space
  is_pinned p =
      let version = trim_space p.version in
      not (version == "")
      && not (some_char (λ c. nat_eq c b'*') version)
      && not (any (λ f. f == to_lower version) floating)
      && some_char is_digit version
      && is_sha256 p.sha256
      && (p.source_revision == "" || is_commit p.source_revision)

  abbrev pub has_source : String → Capability → Option ArtifactPin → Bool
  has_source revision c (some m) =
      c.generator_revision == "" && is_pinned m && is_commit m.source_revision
  has_source revision c none =
      is_commit c.generator_revision && (revision == "" || c.generator_revision == revision)

  unfoldable pub is_capable : String → Capability → Bool
  unfolding is_pinned
  is_capable revision c =
      has_source revision c c.manifests && is_pinned c.rras_tooling && is_pinned c.windows_image

  abbrev pub is_none : Option Capability → Bool
  is_none none = true
  is_none (some c) = false

  -- Windows workers with Calico over BGP.
  abbrev pub bgp_capable : String → Option Capability → Bool
  bgp_capable revision none = false
  bgp_capable revision (some c) = is_capable revision c

  -- The switch over the CNI.
  unfoldable pub fits_network : String → String → Bool → Option Capability → Bool
  unfolding is_capable
  fits_network revision cni windows bgp =
      if cni == "calico-vxlan"
      then is_none bgp
      else if cni == "kuberouter"
      then not windows && is_none bgp
      else if cni == "calico-bgp"
      then (if windows then bgp_capable revision bgp else is_none bgp)
      else false

  -- `Validate` returns no error.
  unfoldable pub is_consistent : Selection → Bool
  unfolding is_exact_version k0s_version fits_network
  is_consistent s =
      is_exact_version s.kubernetes_version
      && is_pinned s.distribution_binary
      && s.distribution == "k0s"
      && identifies s.kubernetes_version s.distribution_binary.source_revision
          (k0s_version s.distribution_binary.version)
      && fits_network s.distribution_binary.source_revision s.cni s.windows_workers s.windows_bgp
