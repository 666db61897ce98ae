-- ===== src/Server/Timeline/Fuel.antt =====
-- The polling of a wait never runs out of fuel.
use native.Mathlib.Nat.{mod-lt, mod-add-div, mul_comm}
use labcontainers.Prelude.{
  ℕ, zero, suc, ◌+◌, ◌-◌, ◌*◌, ◌/◌, ◌≤◌, ◌<◌, String, ◌≡◌, refl, Bool, true, false, ◌&&◌, ltb,
  if◌then◌else◌, arith,
}
use labcontainers.World.{World, Act, Code, deadline_exceeded, require, ask, ◌>>=◌, ◌>>◌}
use labcontainers.World.Rules.{tick}
use labcontainers.Server.Guest.{exec_node}
use labcontainers.Server.Timeline.{WaitExec, is_match, log_event, pause, poll_round, poll, rounds}

times_suc : (f r : ℕ) → suc f * r ≡ f * r + r
times_suc f r = omega arith

no_time : (r l t : ℕ) → l ≤ 0 * r + r → t + r < l → ⊥
no_time r l t fits late = omega arith

no_fuel : (f : ℕ) → suc f ≤ 0 → ⊥
no_fuel f h = omega arith

fewer : (f g : ℕ) → suc f ≤ suc g → f ≤ g
fewer f g h = omega arith

shorter : (f r l t : ℕ) → l ≤ suc f * r + r → l - t - r ≤ f * r + r
shorter f r l t h = let same = times_suc f r in omega arith

require-same :
    (b : Bool) (c : Code) (k k' : Act (Unit {0})) (v : World)
    → (b ≡ true → k v ≡ k' v)
    → (require b c >> k) v ≡ (require b c >> k') v
unfolding require ◌>>=◌
require-same true c k k' v same = same refl
require-same false c k k' v same = refl

if-same :
    (b : Bool) (m k k' : Act (Unit {0})) (v : World)
    → k v ≡ k' v
    → (if b then m else k) v ≡ (if b then m else k') v
if-same true m k k' v same = refl
if-same false m k k' v same = same

pause-left : (going : Bool) (a b : ℕ) → (going && ltb a b) ≡ true → a < b
pause-left going a b h = ground arith

pause-same :
    (took retry left : ℕ) (rest rest' : Act (Unit {0})) (v : World)
    → ((x : World) → took + retry < left → rest x ≡ rest' x)
    → pause took retry left rest v ≡ pause took retry left rest' v
unfolding pause ◌>>=◌ ask
pause-same took retry left rest rest' v same =
    let going = v.env.succeeds v.asked in
    require-same (going && ltb (took + retry) left) deadline_exceeded rest rest' (tick v)
      (λ h. same (tick v) (pause-left going (took + retry) left h))

module _ (session_id : String) (wait : WaitExec) (retry : ℕ) where
  poll_round-same :
      (left : ℕ) (again again' : ℕ → Act (Unit {0})) (w : World)
      → ((took : ℕ) (x : World) → took + retry < left → again took x ≡ again' took x)
      → poll_round session_id wait retry left again w
        ≡ poll_round session_id wait retry left again' w
  unfolding poll_round ◌>>=◌
  poll_round-same left again again' w same =
      let r = (exec_node wait.exec w).0 in
      let x = (exec_node wait.exec w).1 in
      let took = x.env.now x.asked in
      let y = tick (tick x) in
      let log = log_event session_id "timeline.predicate.matched" in
      require-same (x.env.succeeds (suc x.asked) && ltb took left) deadline_exceeded
        (if is_match wait r then log else pause took retry left (again took))
        (if is_match wait r then log else pause took retry left (again' took)) y
        (λ _.
          if-same (is_match wait r) log (pause took retry left (again took))
            (pause took retry left (again' took)) y
            (pause-same took retry left (again took) (again' took) y (same took)))

  -- More fuel changes nothing where there is a round for each retry interval in the time left.
  poll-enough :
      (f g left : ℕ) (w : World)
      → left ≤ f * retry + retry
      → f ≤ g
      → poll (suc f) session_id wait retry left w ≡ poll (suc g) session_id wait retry left w
  unfolding poll
  poll-enough zero g left w fits less =
      poll_round-same left (λ took. poll 0 session_id wait retry (left - took - retry))
        (λ took. poll g session_id wait retry (left - took - retry)) w
        (λ took x late. absurd (no_time retry left took fits late))
  poll-enough (suc f) zero left w fits less = absurd (no_fuel f less)
  poll-enough (suc f) (suc g) left w fits less =
      poll_round-same left (λ took. poll (suc f) session_id wait retry (left - took - retry))
        (λ took. poll (suc g) session_id wait retry (left - took - retry)) w
        (λ took x early.
          poll-enough f g (left - took - retry) x (shorter f retry left took fits) (fewer f g less))

rounds-fit : (timeout retry : ℕ) → 1 ≤ retry → timeout ≤ timeout / retry * retry + retry
rounds-fit timeout retry positive =
    let left = mod-lt timeout {m = retry} positive in
    let parts = mod-add-div timeout retry in
    let turn = mul_comm retry (timeout / retry) in omega arith

-- The fuel of a wait's polling is enough: where the pause is no shorter than a nanosecond, any larger
-- fuel gives the same result and the same world.
pub poll-rounds_enough :
    (session_id : String) (wait : WaitExec) (timeout retry fuel : ℕ) (w : World)
    → 1 ≤ retry
    → rounds timeout retry ≤ fuel
    → poll (rounds timeout retry) session_id wait retry timeout w
      ≡ poll fuel session_id wait retry timeout w
poll-rounds_enough session_id wait timeout retry zero w positive more =
    absurd (no_fuel (timeout / retry) more)
poll-rounds_enough session_id wait timeout retry (suc fuel) w positive more =
    poll-enough session_id wait retry (timeout / retry) fuel timeout w
      (rounds-fit timeout retry positive) (fewer (timeout / retry) fuel more)
