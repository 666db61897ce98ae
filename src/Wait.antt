-- ===== src/Wait.antt =====
-- `Until` of pkg/wait/wait.go: a condition is polled until it holds, fails for good or takes too
-- long. What happens outside is a sequence of rounds, numbered from 0. Times are in nanoseconds.
pub mod Rounds
use labcontainers.Prelude.{
  ℕ, zero, suc, ◌+◌, ◌*◌, ◌/◌, String, Bool, Option, none, some, true, false, ltb, if◌then◌else◌,
}

-- What one attempt returns: nothing, an error that is marked by `Fatal`, or another one.
pub data Attempt : Type 0 where
  success : Attempt
  fatal failure : String → Attempt

-- `cancelled` is the caller's context after the attempt, `at` the time then, and `interrupted`
-- tells that the context ends in the pause that follows.
pub record Watch : Type 0 where
  pub attempt : ℕ → Attempt
  pub cancelled : ℕ → Bool
  pub at : ℕ → ℕ
  pub interrupted : ℕ → Bool

-- How a wait ends, with the last error.
pub data Ending : Type 0 where
  done : Ending
  fatally called_off expired : String → Ending

abbrev pub interval : ℕ
interval = 5000000000

abbrev pub attempt_share : ℕ
attempt_share = 4

-- The time that one attempt is given.
unfoldable pub per_attempt : ℕ → ℕ
per_attempt within =
    if ltb (within / attempt_share) 1000000000 then 1000000000 else within / attempt_share

-- What one round decides, in the order of the code's tests: the attempt, the caller's context, the
-- deadline, and the context during the pause. `rest` is the wait that goes on.
unfoldable pub judge : Attempt → Bool → Bool → Bool → Option Ending → Option Ending
judge success over late stopped rest = some done
judge (fatal e) over late stopped rest = some (fatally e)
judge (failure e) true late stopped rest = some (called_off e)
judge (failure e) false true stopped rest = some (expired e)
judge (failure e) false false true rest = some (called_off e)
judge (failure e) false false false rest = rest

unfoldable pub round : Watch → ℕ → ℕ → Option Ending → Option Ending
unfolding judge
round w deadline n rest =
    judge (w.attempt n) (w.cancelled n) (ltb deadline (w.at n)) (w.interrupted n) rest

-- The loop on fuel.
unfoldable pub poll_until : Watch → ℕ → ℕ → ℕ → Option Ending
unfolding round
poll_until w deadline zero n = none
poll_until w deadline (suc fuel) n = round w deadline n (poll_until w deadline fuel (suc n))

-- A wait of `within` from `start`.
unfoldable pub until : Watch → ℕ → ℕ → Option Ending
unfolding poll_until
until w start within = poll_until w (start + within) (suc (suc (within / interval))) 0
