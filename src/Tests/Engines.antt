-- ===== src/Tests/Engines.antt =====
-- Small hosts, and each theorem of the engine applied on one.
use labcontainers.Prelude.FilePath.{◌⧺◌}
use labcontainers.Prelude.{
  zero, suc, String, ◌≡◌, refl, true, false, some, none, List, [], ◌∷◌, Result, ok, All,
  if◌then◌else◌, ◌==◌, ℕ, lookup,
}
use labcontainers.Text.{fields, lines, trim_space, is_space}
use labcontainers.Engine.Identity.{container_identity}
use labcontainers.Engine.Host.{Machine, Host, Ran, Failure, Inspection, entries}
use labcontainers.Engine.Guests.Quoting.{shell_quote}
use labcontainers.Engine.Guests.Quoting.RoundTrip.{shell_word, plain, shell_word-shell_quote}
use labcontainers.Engine.Labs.{remove_node, destroy}
use labcontainers.Engine.Labs.Removal.{Removed, remove_node-ok}
use labcontainers.Engine.Labs.Destruction.{Destroyed, destroy-Destroyed}
use labcontainers.Engine.Endpoints.{crash}
use labcontainers.Engine.Endpoints.Parked.{Parked, crash-Parked}
use labcontainers.Engine.Isolation.{proof_isolation, prove_node}
use labcontainers.Engine.Isolation.Proof.{Evidence, proof_isolation-Evidence}
use labcontainers.Engine.Attachments.{save_attachments, restore_attachments}
use labcontainers.Engine.Attachments.Journals.{
  Saved, Restored, save_attachments-Saved, restore_attachments-Restored,
}

abbrev printed : String → Result Failure Ran
printed s = ok (record { stdout = s; stderr = ""; exit_code = 0 })

-- Docker's inspection of a node without a network.
abbrev alone : Inspection
alone = record {
  complete = true;
  network_mode = "none";
  publish_all = false;
  port_bindings = [];
  ports = 0 ∷ [];
  networks =
      (
        "none",
        some (record {
          gateway = "";
          ip_address = "";
          mac_address = "";
          ipv6_gateway = "";
          global_ipv6_address = "";
        }),
      )
      ∷ [];
}

-- A machine whose commands print these texts, in turn.
abbrev nth : List String → ℕ → String
nth [] n = ""
nth (s ∷ ss) zero = s
nth (s ∷ ss) (suc n) = nth ss n

abbrev machine : List String → Machine
machine texts = record {
  runs = λ n. printed (nth texts n);
  succeeds = λ n. true;
  inspections = λ s. if s == "inspection" then some (alone ∷ []) else none;
  is_dry_run = λ s. false;
  duration = λ n. "2m0s";
  float = λ n. "0.5";
  journal_path = λ topology node. "/labs/attachments-1.json";
  order = λ ids. ids;
  binary = "";
  helper = "/usr/bin/labd";
  sudo = true;
}

abbrev host : List String → Host
host texts = record { machine = machine texts; asked = 0; commands = []; journals = [] }

shell_word-shell_quote_example :
    shell_word plain (shell_quote "it's; $HOME" ⧺ ")") ≡ some ("it's; $HOME", ")")
shell_word-shell_quote_example = shell_word-shell_quote "it's; $HOME" ")" refl

-- The peer's bridge is saved, the node goes, and a listing finds nothing.
abbrev going : Host
going = host ("" ∷ "p1 peer\n" ∷ "eth1 br0\n" ∷ [])

going_saves : (remove_node "lab.yml" "a" going).0 ≡ ok tt
unfolding remove_node lookup lines trim_space is_space fields
going_saves = refl

remove_node-ok_example : Removed "lab.yml" "a" going (remove_node "lab.yml" "a" going).1
remove_node-ok_example = remove_node-ok "lab.yml" "a" going going_saves

-- A container that Containerlab leaves behind.
abbrev left_behind : Host
left_behind = host ("" ∷ "c1\nc2\n" ∷ [])

left_behind_goes : (destroy "lab.yml" left_behind).0 ≡ ok tt
unfolding destroy fields is_space
left_behind_goes = refl

destroy-Destroyed_example : Destroyed "lab.yml" left_behind (destroy "lab.yml" left_behind).1
destroy-Destroyed_example = destroy-Destroyed "lab.yml" left_behind left_behind_goes

abbrev isolated : Host
isolated = host ("c1\n" ∷ "inspection" ∷ [])

isolated_proves : (proof_isolation "lab" ("a" ∷ []) isolated).0 ≡ ok tt
unfolding proof_isolation prove_node container_identity fields is_space
isolated_proves = refl

proof_isolation-Evidence_example :
    All (Evidence "lab" (proof_isolation "lab" ("a" ∷ []) isolated).1) ("a" ∷ [])
proof_isolation-Evidence_example =
    proof_isolation-Evidence "lab" ("a" ∷ []) isolated isolated_proves

save_attachments-Saved_example :
    let after = save_attachments "lab.yml" "a" going in
    Saved "/labs/attachments-1.json" going after.0 after.1
save_attachments-Saved_example = save_attachments-Saved "lab.yml" "a" going

-- A journal whose peer runs again.
abbrev pending : Host
pending = record (host ("" ∷ "p1 peer\n" ∷ "" ∷ [])) {
  journals =
      (
        "/labs/attachments-1.json",
        entries (record { container = "p1"; interface = "eth1"; master = "br0" } ∷ []),
      )
      ∷ [];
}

restore_attachments-Restored_example :
    let after = restore_attachments "lab.yml" "a" pending in
    Restored "/labs/attachments-1.json" pending
      (lookup "/labs/attachments-1.json" pending.journals)
      after.0
      after.1
restore_attachments-Restored_example = restore_attachments-Restored "lab.yml" "a" pending

abbrev crashing : Host
crashing = host ("c1\n" ∷ [])

crashing_crashes : (crash "/usr/bin/labd" "lab.yml" "a" crashing).0 ≡ ok tt
unfolding crash fields is_space
crashing_crashes = refl

crash-Parked_example :
    Parked "/usr/bin/labd" "lab.yml" "a" crashing (crash "/usr/bin/labd" "lab.yml" "a" crashing).1
crash-Parked_example = crash-Parked "/usr/bin/labd" "lab.yml" "a" crashing crashing_crashes
