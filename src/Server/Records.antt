-- ===== src/Server/Records.antt =====
-- `record`, `node`, `event`, `randomID` and the deadlines of internal/server/server.go.
pub mod Quiet
use labcontainers.Prelude.{
  ℕ, ◌+◌, ◌*◌, ◌%◌, ◌^◌, String, Bool, true, false, not, Option, none, some, Map, lookup, insert,
  List, [], ◌∷◌, leb, ltb, nat_eq, ◌==◌, if◌then◌else◌, any, ◌||◌, ◌&&◌, Result, ok, err,
}
use labcontainers.Session.{Record, Node, Fault}
use labcontainers.Session.Store.{get}
use labcontainers.World.{
  World, Code, invalid_argument, not_found, internal, session_not_found, plain, Act, pure, fail,
  ask, os, answer, call, try, modify, require, demand, ignore, status, when, ◌>>=◌, ◌>>◌, Env,
}

-- The status of the error that the store reports.
abbrev pub store_status : Code → Code
store_status session_not_found = not_found
store_status _ = internal

abbrev found : Result Code Record → Act Record
found (ok r) = pure r
found (err c) = fail (store_status c)

-- Maps that are nil become empty ones, which they are here from the start.
unfoldable pub record_of : String → Act Record
unfolding ◌>>=◌
record_of id = do require (not (id == "")) invalid_argument; r ← try (get id); found r

-- A reference to a node, which may be missing in a request.
pub record NodeRef : Type 0 where
  pub session_id : String
  pub node : String

unfoldable pub node_of : Option NodeRef → Act (Record × Node)
unfolding record_of
node_of ref = do
  named ← demand ref invalid_argument
  r ← record_of named.session_id
  n ← demand (lookup named.node r.nodes) not_found
  pure (r, n)

-- `crypto/rand` may fail; its bytes are shown in hexadecimal.
unfoldable pub random_id : Act String
unfolding os answer
random_id = do os; answer (λ e n. e.random n)

-- A line in events.jsonl under the artifact directory. What fails here is dropped.
append_event : String → String → Act (Unit {0})
unfolding os
append_event id kind = do os; os; os; modify (λ w. record w { events = (id, kind) ∷ w.events })

unfoldable pub event : Record → String → Act (Unit {0})
unfolding append_event ignore
event r kind = when (not (r.artifact_directory == "")) (ignore (append_event r.id kind))

-- `time.Duration(seconds) * time.Second` on int64, whose bit patterns these are; the default stands
-- in for what is not positive.
abbrev pub scaled : ℕ → ℕ → ℕ
scaled unit n = n * unit % 2 ^ 64

abbrev pub is_positive : ℕ → Bool
is_positive n = ltb 0 n && ltb n (2 ^ 63)

unfoldable pub duration_or : ℕ → ℕ → ℕ → ℕ
duration_or default unit n = if is_positive (scaled unit n) then scaled unit n else default

abbrev pub set_fault : String → Fault → Record → Record
set_fault id f r = record r { faults = insert id f r.faults }

abbrev pub set_node : String → Node → Record → Record
set_node key n r = record r { nodes = insert key n r.nodes }

abbrev pub key_of : Option NodeRef → String
key_of none = ""
key_of (some ref) = ref.node
