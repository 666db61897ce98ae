-- ===== src/Engine/Isolation/Safe.antt =====
-- What an inspection that `ProofIsolation` of internal/engine/containerlab.go accepts says.

use labcontainers.Prelude.{
  ℕ, String, ◌≡◌, refl, sym, ap, ◌∙◌, Bool, true, false, not, ◌&&◌, Option, none, some, List, [],
  ◌∷◌, Map, All, ◌==◌, nat_eq, eq_iff, ok, arith,
}
use labcontainers.Actions.{require, ◌>>◌}
use labcontainers.Actions.Rules.{require-ok, require-run}
use labcontainers.Engine.Host.{Host, Cmd, refused, Inspection, Network}
use labcontainers.Engine.Isolation.{
  check_inspection, no_bindings, is_empty, all_blank, addresses, all_bookkeeping,
}

-- A container that no network and no host port reaches.
pub record Isolated (i : Inspection) : Type 0 where
  pub has_state : i.complete ≡ true
  pub no_mode : i.network_mode ≡ "none"
  pub unpublished : i.publish_all ≡ false
  pub unbound : i.port_bindings ≡ []
  pub no_ports : All (λ n. n ≡ 0) i.ports
  pub no_networks :
      All
        (λ entry.
          (entry.0 ≡ "none")
          × ((n : Network) × (entry.1 ≡ some n) × All (λ a. a ≡ "") (addresses n)))
        i.networks

both : (a b : Bool) → (a && b) ≡ true → (a ≡ true) × (b ≡ true)
both true b h = (refl, h)
both false b h = cc

unbound_ports : (ns : List ℕ) → no_bindings ns ≡ true → All (λ n. n ≡ 0) ns
unbound_ports [] h = tt
unbound_ports (n ∷ ns) h =
    let (zero', rest) = both (nat_eq n 0) (no_bindings ns) h in
    (ground arith, unbound_ports ns rest)

blank_addresses : (ss : List String) → all_blank ss ≡ true → All (λ a. a ≡ "") ss
blank_addresses [] h = tt
blank_addresses (s ∷ ss) h =
    let (blank, rest) = both (s == "") (all_blank ss) h in
    ((eq_iff s "").0 blank, blank_addresses ss rest)

empty_list : (ns : List ℕ) → is_empty ns ≡ true → ns ≡ []
empty_list [] h = refl
empty_list (n ∷ ns) h = cc

bookkeeping_networks :
    (ns : Map (Option Network))
    → all_bookkeeping ns ≡ true
    → All
        (λ entry.
          (entry.0 ≡ "none")
          × ((n : Network) × (entry.1 ≡ some n) × All (λ a. a ≡ "") (addresses n)))
        ns
bookkeeping_networks [] h = tt
bookkeeping_networks ((name, none) ∷ ns) h = cc
bookkeeping_networks ((name, some n) ∷ ns) h =
    let (here, rest) = both (name == "none" && all_blank (addresses n)) (all_bookkeeping ns) h in
    let (named, blank) = both (name == "none") (all_blank (addresses n)) here in
    (
      ((eq_iff name "none").0 named, (n, refl, blank_addresses (addresses n) blank)),
      bookkeeping_networks ns rest,
    )

not-true : (b : Bool) → not b ≡ true → b ≡ false
not-true false h = refl
not-true true h = cc

pub check_inspection-Isolated :
    (i : Inspection) (h : Host)
    → (check_inspection i h).0 ≡ ok tt
    → Isolated i × (check_inspection i h ≡ (ok tt, h))
unfolding check_inspection
check_inspection-Isolated i h e =
    let networks : Cmd (Unit {0}) = require (all_bookkeeping i.networks) refused in
    let ports : Cmd (Unit {0}) = require (no_bindings i.ports) refused >> networks in
    let publishing : Cmd (Unit {0}) =
      require (not i.publish_all && is_empty i.port_bindings) refused >> ports in
    let mode : Cmd (Unit {0}) = require (i.network_mode == "none") refused >> publishing in
    let (whole, at1) = require-run i.complete refused mode h e in
    let (none', at2) =
      require-run (i.network_mode == "none") refused publishing h (sym (ap (λ p. p.0) at1) ∙ e) in
    let (quiet, at3) =
      require-run (not i.publish_all && is_empty i.port_bindings) refused ports h
        (sym (ap (λ p. p.0) (at1 ∙ at2)) ∙ e) in
    let (shut, at4) =
      require-run (no_bindings i.ports) refused networks h
        (sym (ap (λ p. p.0) (at1 ∙ at2 ∙ at3)) ∙ e) in
    let path = at1 ∙ at2 ∙ at3 ∙ at4 in
    let (kept, same) =
      require-ok (all_bookkeeping i.networks) refused h (sym (ap (λ p. p.0) path) ∙ e) in
    let (closed, unbound') = both (not i.publish_all) (is_empty i.port_bindings) quiet in
    (
      record {
        has_state = whole;
        no_mode = (eq_iff i.network_mode "none").0 none';
        unpublished = not-true i.publish_all closed;
        unbound = empty_list i.port_bindings unbound';
        no_ports = unbound_ports i.ports shut;
        no_networks = bookkeeping_networks i.networks kept;
      },
      λ k. (e k, (ap (λ p. p.1) path ∙ same) k),
    )
