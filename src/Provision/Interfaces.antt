-- ===== src/Provision/Interfaces.antt =====
-- pkg/network/interfaces.go and pkg/network/vyos/config.go: the names of a guest's interfaces by their
-- MAC addresses, and the configuration of a VyOS guest. net.ParseMAC, the decoding and encoding of JSON
-- and the embedded script are parameters.
pub mod Counts
pub mod Unique
use labcontainers.Prelude.{
  ℕ, suc, String, Bool, true, false, not, ◌&&◌, ◌||◌, Option, none, some, List, [], ◌∷◌, Result, ok,
  err, nat_eq, ◌==◌, any, if◌then◌else◌,
}
use labcontainers.Actions.{pure, require, demand, of_result, ◌>>=◌, ◌>>◌}
use labcontainers.Rig.{Outside, Fault, invalid, mismatch, Cmd, pipe}
use labcontainers.Provision.Windows.{contains}

pub record Link : Type 0 where
  pub name : String
  pub address : String

-- `parse_mac` gives the number of octets and the canonical text.
pub record Codec : Type 0 where
  pub parse_mac : String → Option (ℕ × String)
  pub links : String → Option (List Link)

-- A canonical address of an Ethernet interface.
abbrev pub ethernet : Option (ℕ × String) → Option String
ethernet none = none
ethernet (some (octets, mac)) = if nat_eq octets 6 then some mac else none

abbrev pub is_listed : String → List String → Bool
is_listed mac seen = any (λ m. m == mac) seen

abbrev pub is_given : List String → Bool
is_given [] = false
is_given (_ ∷ _) = true

abbrev pub only_named : ℕ × String → Option String
only_named (count, name) = if nat_eq count 1 && not (name == "") then some name else none

module _ (c : Codec) where
  -- The canonical addresses, which differ from one another and from those seen.
  unfoldable pub wanted : List String → List String → Option (List String)
  wanted seen [] = some []
  wanted seen (value ∷ values) = elim (ethernet (c.parse_mac value)) [
    | none ↦ none
    | some mac ↦
        if is_listed mac seen
        then none
        else elim (wanted (mac ∷ seen) values) [ none ↦ none | some macs ↦ some (mac ∷ macs) ]
  ]

  unfoldable pub bears : String → Link → Bool
  bears mac l = elim (c.parse_mac l.address) [ none ↦ false | some (_, m) ↦ m == mac ]

  -- The loop over the links: how many bear the address, and the name of the last that does.
  unfoldable pub find_links : String → List Link → ℕ → String → ℕ × String
  unfolding bears
  find_links mac [] count name = (count, name)
  find_links mac (l ∷ ls) count name =
      if bears mac l then find_links mac ls (suc count) l.name else find_links mac ls count name

  unfoldable pub name_all : List Link → List String → Option (List String)
  unfolding find_links
  name_all ls [] = some []
  name_all ls (mac ∷ macs) = elim (only_named (find_links mac ls 0 "")) [
    | none ↦ none
    | some name ↦ elim (name_all ls macs) [ none ↦ none | some names ↦ some (name ∷ names) ]
  ]

  -- `interfaceNames`
  unfoldable pub names_in : String → List String → Option (List String)
  unfolding name_all
  names_in data' macs = elim (c.links data') [ none ↦ none | some ls ↦ name_all ls macs ]

  unfoldable pub interface_names : Outside → String → List String → Cmd (List String)
  unfolding wanted names_in pipe ◌>>=◌
  interface_names o guest macs = do
    require (is_given macs) invalid
    want ← demand (wanted [] macs) invalid
    data' ← pipe o guest "" ("ip" ∷ "-j" ∷ "link" ∷ "show" ∷ [])
    demand (names_in data' want) mismatch

pub record Command : Type 0 where
  pub operation : String
  pub path : List String

abbrev is_deep : List String → Bool
is_deep [] = false
is_deep (_ ∷ []) = false
is_deep (_ ∷ _ ∷ _) = true

abbrev pub is_narrow : Command → Bool
is_narrow c =
    (c.operation == "set" || c.operation == "delete")
    && is_deep c.path
    && not (any (λ part. part == "") c.path)

abbrev pub all_narrow : List Command → Bool
all_narrow [] = true
all_narrow (c ∷ cs) = is_narrow c && all_narrow cs

abbrev is_some_command : List Command → Bool
is_some_command [] = false
is_some_command (_ ∷ _) = true

-- `Apply` of pkg/network/vyos.
unfoldable pub apply_vyos :
    (List Command → Option String) → String → Outside → String → List Command → Cmd (Unit {0})
unfolding pipe contains ◌>>=◌
apply_vyos marshal configure o guest commands = do
  require (is_some_command commands) invalid
  require (all_narrow commands) invalid
  data' ← demand (marshal commands) invalid
  out ←
      pipe o guest data'
        ("runuser" ∷ "-u" ∷ "vyos" ∷ "--" ∷ "/usr/bin/python3" ∷ "-c" ∷ configure ∷ [])
  require (contains "LABCONTAINERS_VYOS_COMMITTED" out) mismatch
