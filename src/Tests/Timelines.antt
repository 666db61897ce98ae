-- ===== src/Tests/Timelines.antt =====
-- A timeline and a new topology in a small world, and the theorems about their ends applied.
use labcontainers.Prelude.{List, [], ◌∷◌, true}
use labcontainers.Server.Timeline.{TimelineAction, apply_action, no_action}
use labcontainers.Server.Apply.{swap_topology}
use labcontainers.Server.Apply.Swap.{Swapped, swap_topology-Swapped}
use labcontainers.Spec.Native.{ApplyResult}
use labcontainers.Spec.Prepare.{Prepared}
use labcontainers.Tests.Labs.{lab, lab_world, cut_link}

-- A link is cut, and then an action is missing.
abbrev cutting : List TimelineAction
cutting =
    record { at_millis = 0; action = apply_action cut_link }
    ∷ record { at_millis = 10; action = no_action }
    ∷ []

abbrev larger : Prepared
larger = record {
  yaml = 110 ∷ [];
  name = "lab";
  nodes = "n" ∷ [];
  test_nodes = "n" ∷ [];
  isolated_nodes = "n" ∷ [];
}

abbrev dry : ApplyResult
dry = record { dry_run = true; changes = "" }

swap_topology-Swapped_example :
    Swapped lab larger lab.nodes dry lab_world
      (swap_topology lab larger lab.nodes dry lab_world).0
      (swap_topology lab larger lab.nodes dry lab_world).1
swap_topology-Swapped_example = swap_topology-Swapped lab larger lab.nodes dry lab_world
