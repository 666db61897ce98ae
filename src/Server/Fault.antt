-- ===== src/Server/Fault.antt =====
-- ApplyFault, RevertFault and `revertFault` of internal/server/server.go.
pub mod Planned
pub mod Journal
pub mod Revert
use labcontainers.Prelude.{
  ℕ, String, Result, ok, err, Bool, true, false, not, ◌||◌, ◌&&◌, Option, none, some, Map, lookup,
  List, [], ◌∷◌, ◌==◌, if◌then◌else◌,
}
use labcontainers.Session.{Record, Node, Fault}
use labcontainers.Session.Store.{save}
use labcontainers.World.{
  World, Code, invalid_argument, not_found, internal, failed_precondition, unimplemented, Act, Call,
  link_up, container_name, netem, set_link, reset_netem, pure, fail, answer, call, require, demand,
  status, try, when, ◌>>=◌, ◌>>◌,
}
use labcontainers.Server.Records.{record_of, random_id, event, set_fault}

-- Durations in the units of the request, percentages by the bits of their double.
pub record NetemRequest : Type 0 where
  pub delay_millis : ℕ
  pub jitter_millis : ℕ
  pub loss_percent : ℕ
  pub rate_kbit : ℕ
  pub corruption_percent : ℕ

pub record LinkStateRequest : Type 0 where
  pub node : String
  pub interface : String
  pub up : Bool

pub data FaultKind : Type 0 where
  netem_fault : NetemRequest → FaultKind
  link_state_fault : LinkStateRequest → FaultKind
  partition_fault no_fault : FaultKind

pub record ApplyFaultRequest : Type 0 where
  pub session_id : String
  pub fault : FaultKind
  pub node : String
  pub interface : String

-- An active link-state fault on this endpoint.
abbrev pub holds_link : String → String → Fault → Bool
holds_link node interface f =
    f.active && f.kind == "link-state" && f.node == node && f.interface == interface

abbrev pub any_fault : (Fault → Bool) → Map Fault → Bool
any_fault p [] = false
any_fault p ((id, f) ∷ rest) = p f || any_fault p rest

-- The `switch` of ApplyFault: the rollback record, and the backend call to make once it is saved.
unfoldable pub plan_fault : Record → String → ApplyFaultRequest → FaultKind → Act (Fault × Call)
unfolding answer call
plan_fault r id req (netem_fault n) = do
  require (not (req.node == "" || req.interface == "")) invalid_argument
  _ ← demand (lookup req.node r.nodes) invalid_argument
  status failed_precondition (call (container_name r.name req.node))
  container ← answer (λ e k. e.name k)
  pure (
    record {
      id = id;
      kind = "netem";
      node = req.node;
      interface = req.interface;
      active = true;
      restore_up = false;
    },
    netem container req.interface n.delay_millis n.jitter_millis n.loss_percent n.rate_kbit
        n.corruption_percent,
  )
plan_fault r id req (link_state_fault l) = do
  n ← demand (lookup l.node r.nodes) invalid_argument
  require (not (l.interface == "")) invalid_argument
  require (not (any_fault (holds_link n.name l.interface) r.faults)) failed_precondition
  status failed_precondition (call (link_up r.name n.name n.control l.interface))
  prior_up ← answer (λ e k. e.up k)
  pure (
    record {
      id = id;
      kind = "link-state";
      node = n.name;
      interface = l.interface;
      active = true;
      restore_up = prior_up;
    },
    set_link r.name n.name n.control l.interface l.up,
  )
plan_fault r id req partition_fault = fail unimplemented
plan_fault r id req no_fault = fail invalid_argument

unfoldable pub settle : Record → Result Code (Unit {0}) → Act (Unit {0})
unfolding event fail
settle r (ok _) = event r "fault.applied"
settle r (err _) = do event r "fault.apply_failed"; fail internal

-- The call, after the record of its rollback is saved. A failure leaves the record active.
unfoldable pub inject : Record → Call → Act (Unit {0})
unfolding call settle
inject r c = do result ← try (call c); settle r result

unfoldable pub apply_fault : ApplyFaultRequest → Act Fault
unfolding ◌>>=◌
apply_fault req = do
  r ← record_of req.session_id
  id ← status internal random_id
  p ← plan_fault r id req req.fault
  status internal (save (set_fault id p.0 r))
  event r "fault.prepared"
  inject r p.1
  pure p.0

-- The `switch` of `revertFault`.
unfoldable pub undo : Record → Fault → Act (Unit {0})
unfolding call answer
undo r f =
    if f.kind == "netem"
    then (do
      status failed_precondition (call (container_name r.name f.node))
      container ← answer (λ e k. e.name k)
      status internal (call (reset_netem container f.interface)))
    else if f.kind == "link-state"
    then (do
      n ← demand (lookup f.node r.nodes) failed_precondition
      status internal (call (set_link r.name n.name n.control f.interface f.restore_up)))
    else fail internal

abbrev pub reverted : Fault → Fault
reverted f = record f { active = false }

unfoldable pub revert_active : Record → String → Fault → Act (Unit {0})
unfolding undo
revert_active r fault_id f = do
  undo r f
  status internal (save (set_fault fault_id (reverted f) r))
  event r "fault.reverted"

-- `revertFault`, and RevertFault around it.
unfoldable pub revert_fault : String → String → Act (Unit {0})
unfolding revert_active
revert_fault session_id fault_id = do
  r ← record_of session_id
  f ← demand (lookup fault_id r.faults) not_found
  when f.active (revert_active r fault_id f)
