-- ===== src/Client.antt =====
-- pkg/client/persistent.go, with what it needs of pkg/client/client.go: sessions that outlive the
-- process that deployed them. Launching the daemon and connecting to it are steps that may fail.
pub mod Steps
pub mod Started
pub mod Deployed
pub mod Forgotten
use labcontainers.Prelude.{
  ℕ, suc, ◌+◌, ◌*◌, ◌/◌, String, Bool, true, false, not, ◌&&◌, Option, none, some, List, [], ◌∷◌,
  Map, lookup, insert, delete, Result, ok, err, ltb, nat_eq, ◌==◌, if◌then◌else◌,
}
use labcontainers.Actions.{
  Action, pure, fail, try, ignore, finally, demand, require, modify, gets, ◌>>=◌, ◌>>◌,
}

-- The calls of the daemon; `destroy_rpc` tells whether a kept session is preserved.
pub data Rpc : Type 0 where
  create_rpc : ℕ → Rpc
  get_rpc : String → Rpc
  keep_rpc : String → ℕ → Rpc
  destroy_rpc : String → Bool → Rpc

pub record PersistentRef : Type 0 where
  pub id : String
  pub socket : String

-- A file that holds a reference, or bytes that do not decode.
pub data Saved : Type 0 where
  reference : PersistentRef → Saved
  undecodable : Saved

-- What answers from outside, by the number of the question.
pub record Surroundings : Type 0 where
  pub succeeds : ℕ → Bool
  pub created : ℕ → String
  pub socket : ℕ → String

-- `held` are the sessions that the client destroys when it is closed, `rpcs` the calls so far with
-- their success, the newest first, and `files` the references.
pub record Harness : Type 0 where
  pub outside : Surroundings
  pub asked : ℕ
  pub held : List String
  pub files : Map Saved
  pub rpcs : List (Rpc × Bool)

pub data Problem : Type 0 where
  bad_options exists broken no_session no_socket invalid_reference : Problem

abbrev pub Step : Type 0 → Type 0
Step A = Action Harness Problem A

-- A step that succeeds or fails.
unfoldable pub attempt : Step (Unit {0})
unfolding require
attempt h = require (h.outside.succeeds h.asked) broken (record h { asked = suc h.asked })

unfoldable pub rpc : Rpc → Step (Unit {0})
unfolding require
rpc c h =
    require (h.outside.succeeds h.asked) broken
      (record h { asked = suc h.asked; rpcs = (c, h.outside.succeeds h.asked) ∷ h.rpcs })

-- `Launch` and `Dial`: the socket of a new client, which holds no session.
unfoldable pub connect : Step String
unfolding attempt ◌>>=◌
connect = do attempt; modify (λ h. record h { held = [] }); gets (λ h. h.outside.socket h.asked)

unfoldable pub start : ℕ → Step String
unfolding rpc ◌>>=◌
start ttl = do
  id ← gets (λ h. h.outside.created h.asked)
  rpc (create_rpc (ttl / 1000000000))
  modify (λ h. record h { held = id ∷ h.held })
  pure id

unfoldable pub resume : String → Step (Unit {0})
unfolding rpc ◌>>=◌
resume id = do rpc (get_rpc id); modify (λ h. record h { held = id ∷ h.held })

unfoldable pub without : String → List String → List String
without id [] = []
without id (x ∷ xs) = let rest = without id xs in if x == id then rest else x ∷ rest

unfoldable pub release : String → Step (Unit {0})
unfolding without
release id = modify (λ h. record h { held = without id h.held })

unfoldable pub keep : String → ℕ → Step (Unit {0})
unfolding rpc release ◌>>=◌
keep id ttl = do rpc (keep_rpc id (ttl / 1000000000)); release id

unfoldable pub destroy : String → Step (Unit {0})
unfolding rpc release ◌>>=◌
destroy id = do rpc (destroy_rpc id false); release id

unfoldable pub drop_all : List String → Step (Unit {0})
unfolding rpc ignore ◌>>=◌
drop_all [] = pure tt
drop_all (id ∷ ids) = do ignore (rpc (destroy_rpc id true)); drop_all ids

-- `Close`: the sessions that are held are destroyed, unless they are kept. The daemon's process is left
-- out.
unfoldable pub close : Step (Unit {0})
unfolding drop_all
close = do ids ← gets (λ h. h.held); modify (λ h. record h { held = [] }); drop_all ids

-- A temporary file is renamed over the reference.
unfoldable pub write_persistent_ref : String → PersistentRef → Step (Unit {0})
unfolding attempt ◌>>=◌
write_persistent_ref path ref = do
  attempt
  attempt
  attempt
  attempt
  attempt
  attempt
  modify (λ h. record h { files = insert path (reference ref) h.files })

abbrev saved_ref : Saved → Result Problem PersistentRef
saved_ref undecodable = err invalid_reference
saved_ref (reference ref) = if ref.id == "" then err invalid_reference else ok ref

abbrev read_saved : Option Saved → Step PersistentRef
read_saved none = fail no_session
read_saved (some saved) = do attempt; elim (saved_ref saved) [ err e ↦ fail e | ok ref ↦ pure ref ]

unfoldable pub read_persistent_ref : String → Step PersistentRef
unfolding attempt ◌>>=◌
read_persistent_ref path = do found ← gets (λ h. lookup path h.files); read_saved found

pub record PersistentOptions : Type 0 where
  pub state_dir : String
  pub ref_path : String
  pub ttl : ℕ

abbrev pub lifetime : PersistentOptions → ℕ
lifetime opts = if nat_eq opts.ttl 0 then 604800000000000 else opts.ttl

abbrev pub is_absent : Option Saved → Bool
is_absent none = true
is_absent (some _) = false

-- A step after the start, whose failure destroys the session.
unfoldable pub or_destroy : String → Result Problem (Unit {0}) → Step (Unit {0})
unfolding destroy ignore ◌>>=◌
or_destroy id (ok _) = pure tt
or_destroy id (err e) = do ignore (destroy id); fail e

unfoldable pub start_kept : PersistentOptions → String → Step String
unfolding start keep or_destroy write_persistent_ref try
start_kept opts socket = do
  id ← start (lifetime opts)
  kept ← try (keep id (lifetime opts))
  or_destroy id kept
  written ← try (write_persistent_ref opts.ref_path (record { id = id; socket = socket }))
  or_destroy id written
  pure id

-- `DeployPersistent`, with the ID of the session that it returns.
unfoldable pub deploy_persistent : PersistentOptions → Step String
unfolding connect start_kept close finally
deploy_persistent opts = do
  require (not (opts.state_dir == "") && not (opts.ref_path == "")) bad_options
  found ← gets (λ h. lookup opts.ref_path h.files)
  require (is_absent found) exists
  attempt
  socket ← connect
  finally (start_kept opts socket) close

unfoldable pub or_close : String → Result Problem (Unit {0}) → Step String
unfolding close ◌>>=◌
or_close id (ok _) = pure id
or_close id (err e) = do close; fail e

-- `OpenPersistent`; the client is closed where the session cannot be resumed.
unfoldable pub open_persistent : PersistentOptions → Step String
unfolding read_persistent_ref connect resume or_close try
open_persistent opts = do
  ref ← read_persistent_ref opts.ref_path
  require (not (ref.socket == "")) no_socket
  _ ← connect
  resumed ← try (resume ref.id)
  or_close ref.id resumed

unfoldable pub destroy_and_forget : PersistentOptions → String → Step (Unit {0})
unfolding destroy attempt
destroy_and_forget opts id = do
  destroy id
  attempt
  modify (λ h. record h { files = delete opts.ref_path h.files })

unfoldable pub destroy_persistent : PersistentOptions → Step (Unit {0})
unfolding open_persistent destroy_and_forget close finally
destroy_persistent opts = do id ← open_persistent opts; finally (destroy_and_forget opts id) close
