-- ===== src/Server/Timeline/Rollback.antt =====
-- What a timeline has performed when it ends, and what it takes back.
use mathlib.Core.List.{reverse}
use labcontainers.Prelude.{
  ℕ, length, String, ◌≡◌, ◌⊎◌, true, false, Option, List, [], ◌∷◌, ◌++◌, Result, ok, err,
}
use labcontainers.World.{World, Act, Code, canceled, aborted, panic, fail, ◌>>◌}
use labcontainers.Server.Fault.{revert_fault}
use labcontainers.Server.Fault.Revert.{Failed, Idle, Reverted}
use labcontainers.Server.Timeline.{
  TimelineAction, wait_for, perform_action, rollback, log_event, added, TimelineResult,
}

module _ (session_id : String) (started : ℕ) where
  -- These actions were performed one after the other, each when its time had come, and the faults
  -- that they created were added to the list, the newest first.
  abbrev pub Performed : List TimelineAction → List String → World → List String → World → Type 0
  Performed [] created w created' v = (created' ≡ created) × (v ≡ w)
  Performed (a ∷ rest) created w created' v =
      (x y : World) × (id : Option String) × (wait_for started a.at_millis w ≡ (ok true, x))
      × (perform_action session_id a.action x ≡ (ok id, y))
      × Performed rest (added id created) y created' v

  -- From `w` to `v` these faults were taken back in this order: each of them was reverted, or was
  -- inactive, or its revert failed with the store as it was, and the next came all the same.
  abbrev pub TakenBack : List String → World → World → Type 0
  TakenBack [] w v = v ≡ w
  TakenBack (id ∷ ids) w v =
      (r : Result Code (Unit {0})) × (x : World) × (revert_fault session_id id w ≡ (r, x))
      × (Failed session_id id w r x ⊎ Idle session_id id w r x ⊎ Reverted session_id id w r x)
      × TakenBack ids x v

  -- How an action ends the timeline: the caller cancels before its time; it fails; or the handler
  -- panics. In the first two the faults so far are taken back.
  abbrev pub Ended : TimelineAction → List String → World → Code → World → Type 0
  Ended a created w c v =
      (c ≡ canceled)
        × ((x : World) × (wait_for started a.at_millis w ≡ (ok false, x)) × TakenBack created x v)
      ⊎ ((x y : World) × (cause : Code) × (wait_for started a.at_millis w ≡ (ok true, x))
          × (perform_action session_id a.action x ≡ (err cause, y))
          × ((c ≡ aborted) × TakenBack created (log_event session_id "timeline.failed" y).1 v
              ⊎ (c ≡ panic) × (cause ≡ panic) × (v ≡ y)))

  -- A timeline that returns has performed all; one that fails has performed those before the action
  -- that ended it.
  abbrev pub Outcome :
      List TimelineAction → List String → World → Result Code (List String) → World → Type 0
  Outcome actions created w (ok created') v = Performed actions created w created' v
  Outcome actions created w (err c) v =
      (before after : List TimelineAction) × (a : TimelineAction) × (created' : List String)
      × (x : World) × (actions ≡ before ++ a ∷ after)
      × Performed before created w created' x
      × Ended a created' x c v

  abbrev aborts : List String → Act (List String)
  aborts created = do
    log_event session_id "timeline.failed"
    rollback session_id created
    fail aborted

  abbrev Out :
      List TimelineAction → List String → World → Result Code (List String) × World → Type 0
  Out actions created w (r, v) = Outcome actions created w r v

-- The result of the handler, where the run has ended like this.
abbrev pub Finished :
    String → ℕ → List TimelineAction → World → Result Code TimelineResult × World → Type 0
Finished session_id started actions w (ok r, v) =
    (created : List String) × Performed session_id started actions [] w created v
    × (r ≡ record { completed = length actions; fault_ids = reverse created })
Finished session_id started actions w (err c, v) = Outcome session_id started actions [] w (err c) v
