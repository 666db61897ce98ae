-- ===== src/Tests.antt =====
-- Small worlds, and each theorem applied in one.
mod Labs
mod Engines
mod Guests
mod Tuples
mod Timelines
mod Clients
mod Sites
mod Provisioned
use labcontainers.Prelude.{
  ◌*◌, arith, String, ◌≡◌, refl, ◌⊎◌, true, false, some, none, [], ◌∷◌, ok, err, if◌then◌else◌,
  ◌==◌, ℕ, lookup, ◌≤◌,
}
use labcontainers.Session.Store.{save}
use labcontainers.Session.Store.Abstract.{stored, stored-save, after_save}
use labcontainers.Server.Fault.{ApplyFaultRequest, link_state_fault, apply_fault, revert_fault}
use labcontainers.Server.Fault.Journal.{apply_fault_journal, Untouched, Journaled}
use labcontainers.Server.Fault.Revert.{revert_fault_outcome, Failed, Idle, Reverted}
use labcontainers.Server.Create.{start_session}
use labcontainers.Server.Create.Start.{start_session_outcome, Started}
use labcontainers.Server.Lease.{DestroyRequest, destroy_session, cleanup_unkept, scavenge}
use labcontainers.Server.Lease.Destroy.{destroy_session_outcome, Destroyed}
use labcontainers.Server.Lease.Sweep.{cleanup_unkept-kept, scavenge-live, Filed}
use labcontainers.Spec.Yaml.{mapping_root, set_scalar}
use labcontainers.Spec.Name.{sanitize, chars}
use labcontainers.Spec.Nodes.{validate_and_label, is_bridge, default_mode, default_native}
use labcontainers.Spec.Links.{check_links}
use labcontainers.Spec.Prepare.{Prepared, Options, prepare_with_options, sort, names_of, select}
use labcontainers.Spec.Isolation.{prepare_isolates}
use labcontainers.Spec.Name.Bounds.{sanitize_bounds, all_safe, starts_plain}
use labcontainers.Wait.{Watch, Ending, until, failure, interval}
use labcontainers.Wait.Rounds.{until_outcome, Reason}
use labcontainers.Session.{Record, Disk}
use labcontainers.Session.Store.{get_all, sort_by_id, list}
use labcontainers.Session.Store.Listing.{list-readable}
use labcontainers.Server.Bootstrap.{DiskRequest, plan_disks}
use labcontainers.Server.Bootstrap.Disks.{plan_disks_bounds, Fit, Distinct}
use labcontainers.Prelude.{All, List}
use labcontainers.Prelude.FilePath.{join}
use labcontainers.Server.Timeline.{WaitExec, poll, rounds}
use labcontainers.Server.Timeline.Fuel.{poll-rounds_enough}
use labcontainers.Tests.Labs.{
  lab, lab_world, lab_dir, spare, Filed-lab_world, sample_libs, Resolves-sample_libs,
  sample_options, cut_link, faulty,
}

stored-save_example :
    stored (save lab lab_world).1.sessions "a"
    ≡ after_save lab (save lab lab_world).0 (stored lab_world.sessions "a") "a"
stored-save_example = stored-save lab lab_world "a"

apply_fault_journal_example :
    Untouched cut_link lab_world
      (apply_fault cut_link lab_world).0
      (apply_fault cut_link lab_world).1
    ⊎ Journaled cut_link lab_world
        (apply_fault cut_link lab_world).0
        (apply_fault cut_link lab_world).1
apply_fault_journal_example = apply_fault_journal cut_link lab_world

revert_fault_outcome_example :
    let after = revert_fault "a" "f" faulty in
    Failed "a" "f" faulty after.0 after.1
    ⊎ Idle "a" "f" faulty after.0 after.1
    ⊎ Reverted "a" "f" faulty after.0 after.1
revert_fault_outcome_example = revert_fault_outcome "a" "f" faulty

start_session_outcome_example :
    Started lab lab_world
      ("n" ∷ [])
      (start_session lab ("n" ∷ []) lab_world).0
      (start_session lab ("n" ∷ []) lab_world).1
start_session_outcome_example = start_session_outcome lab lab_world ("n" ∷ [])

abbrev leave : DestroyRequest
leave = record { id = "a"; resume_token = "t"; preserve_kept = false }

destroy_session_outcome_example :
    Destroyed leave lab_world
      (destroy_session leave lab_world).0
      (destroy_session leave lab_world).1
destroy_session_outcome_example = destroy_session_outcome leave lab_world

cleanup_unkept-kept_example : stored (cleanup_unkept lab_world).1.sessions "a" ≡ some lab
unfolding stored lookup
cleanup_unkept-kept_example = cleanup_unkept-kept lab_world Filed-lab_world "a" lab refl refl

scavenge-live_example : stored (scavenge 5 lab_world).1.sessions "a" ≡ some lab
unfolding stored lookup
scavenge-live_example = scavenge-live lab_world Filed-lab_world "a" lab 5 refl refl

abbrev prepared_lab : Prepared
prepared_lab = record {
  yaml = [];
  name = "lab";
  nodes = "n" ∷ [];
  test_nodes = "n" ∷ [];
  isolated_nodes = "n" ∷ [];
}

prepared_lab_run :
    prepare_with_options sample_libs [] "lab" "a" false sample_options ≡ ok prepared_lab
unfolding prepare_with_options lookup mapping_root sanitize set_scalar validate_and_label is_bridge
    default_mode default_native check_links sort names_of select
prepared_lab_run = refl

prepare_isolates_example :
    (prepared_lab.isolated_nodes ≡ prepared_lab.nodes)
    × (prepared_lab.test_nodes ≡ prepared_lab.nodes)
prepare_isolates_example =
    prepare_isolates sample_libs [] "lab" "a" sample_options {p = prepared_lab} Resolves-sample_libs
      prepared_lab_run

sanitize_bounds_example :
    (chars (sanitize "-my lab-") ≤ 48)
    × (all_safe (sanitize "-my lab-") ≡ true)
    × (starts_plain (sanitize "-my lab-") ≡ true)
sanitize_bounds_example = sanitize_bounds "-my lab-"

-- A condition that never holds.
abbrev hopeless : Watch
hopeless = record {
  attempt = λ n. failure "not yet";
  cancelled = λ n. false;
  at = λ n. n * interval;
  interrupted = λ n. false;
}

until_outcome_example :
    (e : Ending) × (until hopeless 0 7000000000 ≡ some e) × Reason hopeless 7000000000 0 e
until_outcome_example = until_outcome hopeless 0 7000000000 (omega arith) (λ n. omega arith)

abbrev requested_disks : List DiskRequest
requested_disks =
    record { name = "data"; size_bytes = 1024 } ∷ record { name = "logs"; size_bytes = 1 } ∷ []

abbrev planned_disks : List Disk
planned_disks =
    record { name = "data"; path = "/d/data.raw"; size_bytes = 1024 }
    ∷ record { name = "logs"; path = "/d/logs.raw"; size_bytes = 1 }
    ∷ []

planned_disks_run : plan_disks "/d" [] requested_disks ≡ some planned_disks
unfolding plan_disks join
planned_disks_run = refl

plan_disks_bounds_example : All Fit planned_disks × Distinct planned_disks
plan_disks_bounds_example =
    plan_disks_bounds "/d" requested_disks {out = planned_disks} planned_disks_run

listed_labs : (list lab_world).0 ≡ ok (lab ∷ spare ∷ [])
unfolding list lookup
listed_labs = refl

list-readable_example : (r : Record) × (stored lab_world.sessions "a" ≡ some r)
unfolding lookup
list-readable_example =
    list-readable lab_world "a" {d = lab_dir} {rs = lab ∷ spare ∷ []} refl listed_labs

-- A predicate that always holds.
abbrev ready : WaitExec
ready = record {
  exec = record {
    node = some (record { session_id = "a"; node = "n" });
    argv = "true" ∷ [];
    stdin = [];
    timeout_millis = 0;
  };
  retry_millis = 0;
  timeout_millis = 0;
  expected_exit_code = 0;
  stdout_contains = [];
  stderr_contains = [];
}

poll-rounds_enough_example :
    poll (rounds 7 2) "a" ready 2 7 lab_world ≡ poll 9 "a" ready 2 7 lab_world
poll-rounds_enough_example =
    poll-rounds_enough "a" ready 7 2 9 lab_world (omega arith) (omega arith)
