-- ===== src/Server/Records/Quiet.antt =====
-- Looking up a record, drawing an ID and logging an event leave the store and the backend alone.
use labcontainers.Prelude.{String, ◌≡◌, ok, some, arith}
use labcontainers.Session.{Record}
use labcontainers.Session.Store.{get}
use labcontainers.Session.Store.Abstract.{stored, get_quiet, get_result}
use labcontainers.World.{World}
use labcontainers.Server.Records.{record_of, random_id, event}

module _ (id : String) (w : World) where
  pub record_of_quiet :
      ((record_of id w).1.sessions ≡ w.sessions) × ((record_of id w).1.calls ≡ w.calls)
  unfolding record_of
  record_of_quiet = ground (arith, get_quiet id w)

  pub record_of_env : (record_of id w).1.env ≡ w.env
  unfolding record_of get
  record_of_env = ground arith

  pub record_of_result : {r : Record} → (record_of id w).0 ≡ ok r → stored w.sessions id ≡ some r
  unfolding record_of
  record_of_result {r} h = ground (arith, get_result id w {r = r})

pub random_id_quiet :
    (w : World) → ((random_id w).1.sessions ≡ w.sessions) × ((random_id w).1.calls ≡ w.calls)
unfolding random_id
random_id_quiet w = ground arith

pub random_id_env : (w : World) → (random_id w).1.env ≡ w.env
unfolding random_id
random_id_env w = ground arith

module _ (r : Record) (kind : String) (w : World) where
  pub event_quiet :
      ((event r kind w).1.sessions ≡ w.sessions)
      × ((event r kind w).1.calls ≡ w.calls)
      × ((event r kind w).0 ≡ ok tt)
  unfolding event
  event_quiet = ground arith
