-- ===== src/Server/Lease.antt =====
-- DestroySession, KeepSession, Scavenge and CleanupUnkept of internal/server/server.go.
pub mod Destroy
pub mod Sweep
use labcontainers.Prelude.{
  ℕ, ◌+◌, ◌*◌, String, Result, ok, err, Bool, true, false, not, ◌||◌, ◌&&◌, List, [], ◌∷◌, ltb,
  ◌==◌, if◌then◌else◌,
}
use labcontainers.Session.{Record}
use labcontainers.Session.Store.{save, remove, list}
use labcontainers.World.{
  World, Code, permission_denied, internal, plain, Act, pure, fail, call, answer, try, status,
  require, when, destroy, ◌>>=◌, ◌>>◌,
}
use labcontainers.Server.Records.{record_of, event, duration_or}

pub record DestroyRequest : Type 0 where
  pub id : String
  pub resume_token : String
  pub preserve_kept : Bool

-- The runtime first, the record after it.
unfoldable pub tear_down : Record → Act (Unit {0})
unfolding call
tear_down r = do
  status internal (call (destroy r.topology_path))
  event r "session.destroyed"
  status internal (remove r.id)

unfoldable pub destroy_session : DestroyRequest → Act (Unit {0})
unfolding tear_down
destroy_session req = do
  r ← record_of req.id
  require (req.resume_token == "" || req.resume_token == r.resume_token) permission_denied
  when (not (req.preserve_kept && r.kept)) (tear_down r)

-- Nanoseconds.
abbrev pub second : ℕ
second = 1000000000

abbrev pub kept_until : ℕ → Record → Record
kept_until t r = record r { kept = true; expires = t }

-- `ttl_seconds` is the bit pattern of an int64.
unfoldable pub keep_session : String → ℕ → Act Record
unfolding answer ◌>>=◌
keep_session id ttl_seconds = do
  r ← record_of id
  now ← answer (λ e n. e.now n)
  let r' = kept_until (now + duration_or (86400 * second) second ttl_seconds) r
  status internal (save r')
  event r' "session.kept"
  pure r'

unfoldable pub after_delete : Result Code (Unit {0}) → Act Bool
unfolding pure
after_delete (ok _) = pure true
after_delete (err _) = pure false

unfoldable pub after_destroy : String → Record → Result Code (Unit {0}) → Act Bool
unfolding after_delete ◌>>=◌
after_destroy kind r (err _) = pure false
after_destroy kind r (ok _) = do event r kind; deleted ← try (remove r.id); after_delete deleted

-- One record of the loops below; `true` if its session is gone. An error is kept for the end, and
-- the loop goes on.
unfoldable pub collect : String → Record → Act Bool
unfolding call after_destroy
collect kind r = do destroyed ← try (call (destroy r.topology_path)); after_destroy kind r destroyed

-- The records that `skip` selects stay as they are.
unfoldable pub collect_all : (Record → Bool) → String → List Record → Act Bool
unfolding collect
collect_all skip kind [] = pure true
collect_all skip kind (r ∷ rs) = do
  done ← if skip r then pure true else collect kind r
  rest ← collect_all skip kind rs
  pure (done && rest)

abbrev all_done : Bool → Act (Unit {0})
all_done done = require done plain

abbrev pub is_live : ℕ → Record → Bool
is_live now r = ltb now r.expires

unfoldable pub scavenge : ℕ → Act (Unit {0})
unfolding collect_all
scavenge now = do rs ← list; done ← collect_all (is_live now) "session.expired" rs; all_done done

unfoldable pub cleanup_unkept : Act (Unit {0})
unfolding collect_all
cleanup_unkept = do
  rs ← list
  done ← collect_all (λ r. r.kept) "session.destroyed" rs
  all_done done
