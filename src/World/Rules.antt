-- ===== src/World/Rules.antt =====
-- Rules for what an action leaves behind: `Post m w Q` says that `Q` holds of the result and the
-- world after `m` from `w`.
use labcontainers.Prelude.{suc, ◌≡◌, ◌∷◌, ok, err, if◌then◌else◌, arith}
pub use labcontainers.Actions.Rules.{
  Post, continue-Post, bind-Post, last-Post, bind-ok, recode-ok, recode-err, demand-Post,
  require-Post, when-Post,
}
use labcontainers.World.{World, Call, plain, os, call}

-- The world after one question.
abbrev pub tick : World → World
tick w = record w { asked = suc w.asked }

-- The world after a backend call.
abbrev pub called : Call → World → World
called c w = record w { asked = suc w.asked; calls = (c, w.env.succeeds w.asked) ∷ w.calls }

pub call-eq :
    (c : Call) (w : World)
    → call c w ≡ ((if w.env.succeeds w.asked then ok tt else err plain), called c w)
unfolding call
call-eq c w = ground arith

pub os_quiet : (w : World) → (os w).1.sessions ≡ w.sessions
unfolding os
os_quiet w = ground arith

pub call_quiet : (k : Call) (w : World) → (call k w).1.sessions ≡ w.sessions
unfolding call
call_quiet k w = ground arith
