-- ===== src/Session/Store.antt =====
-- The `Store` of internal/session/store.go. Each operation holds the store's lock from its first
-- step to its last, so that it is one action. A session's directory is the entry of its ID.
pub mod Abstract
pub mod Listing
use labcontainers.Prelude.{
  ℕ, String, Bool, true, false, Option, none, some, List, [], ◌∷◌, Map, lookup, insert, delete,
  if◌then◌else◌,
}
use labcontainers.Session.{Record}
use labcontainers.Spec.Prepare.{before}
use labcontainers.World.{
  World, Dir, Content, json, garbage, Code, plain, session_not_found, Act, pure, fail, finally, ask,
  os, gets, modify, demand, require, answer, ◌>>=◌, ◌>>◌,
}

abbrev pub empty_dir : Dir
empty_dir = record { session_json = none; temp = none }

abbrev pub put_dir : String → Dir → Act (Unit {0})
put_dir id d = modify (λ w. record w { sessions = insert id d w.sessions })

-- The temporary file of a write into this directory.
abbrev pub set_temp : String → Option Content → Dir → Act (Unit {0})
set_temp id t d = put_dir id (record d { temp = t })

abbrev pub published : Record → Dir → Dir
published r d = record d { session_json = some (json r); temp = none }

-- Sync, Close and Rename.
unfoldable pub publish : Record → Dir → Act (Unit {0})
unfolding os
publish r d = do os; os; os; put_dir r.id (published r d)

-- The steps of `writeLocked` after CreateTemp: Chmod, Encode, and the three above. A step that
-- fails leaves the rest undone; an encoder that fails may have written a part.
unfoldable pub write_temp : Record → Dir → Act (Unit {0})
unfolding os
write_temp r d = do os; os; set_temp r.id (some (json r)) d; publish r d

-- `defer os.Remove(name)`
unfoldable pub without_temp : String → Map Dir → Map Dir
without_temp id s = elim (lookup id s) [
  | none ↦ s
  | some d ↦ insert id (record d { temp = none }) s
]

unfoldable pub remove_temp : String → Act (Unit {0})
unfolding ◌>>=◌ ask
remove_temp id = do
  done ← ask
  modify (λ w. record w { sessions = if done then without_temp id w.sessions else w.sessions })

-- `writeLocked`, and `Save` around it. CreateTemp fails where the directory is missing.
unfoldable pub write_removing : Record → Dir → Act (Unit {0})
unfolding finally
write_removing r d = finally (write_temp r d) (remove_temp r.id)

unfoldable pub save : Record → Act (Unit {0})
unfolding write_removing os
save r = do
  found ← gets (λ w. lookup r.id w.sessions)
  d ← demand found plain
  os
  set_temp r.id (some garbage) d
  write_removing r d

-- Mkdir refuses a directory that is there.
unfoldable pub create : Record → Act (Unit {0})
unfolding save os
create r = do
  found ← gets (λ w. lookup r.id w.sessions)
  elim found [ none ↦ pure tt | some _ ↦ fail plain ]
  os
  put_dir r.id empty_dir
  os
  save r

abbrev decode : Option Content → Act Record
decode none = fail session_not_found
decode (some garbage) = fail plain
decode (some (json r)) = pure r

abbrev json_of : Option Dir → Option Content
json_of none = none
json_of (some d) = d.session_json

-- A file that is not there is reported as such; any other failure to read is not.
abbrev read : Option Content → Act (Unit {0})
read none = pure tt
read (some c) = os

unfoldable pub get : String → Act Record
unfolding os pure fail
get id = do found ← gets (λ w. lookup id w.sessions); read (json_of found); decode (json_of found)

unfoldable pub get_all : Map Dir → Act (List Record)
unfolding get ◌>>=◌
get_all [] = pure []
get_all ((id, d) ∷ rest) = do r ← get id; rs ← get_all rest; pure (r ∷ rs)

unfoldable pub insert_by_id : Record → List Record → List Record
insert_by_id r [] = r ∷ []
insert_by_id r (x ∷ xs) = elim (before r.id x.id) [
  | true ↦ r ∷ x ∷ xs
  | false ↦ x ∷ insert_by_id r xs
]

unfoldable pub sort_by_id : List Record → List Record
unfolding insert_by_id
sort_by_id [] = []
sort_by_id (r ∷ rs) = insert_by_id r (sort_by_id rs)

-- One entry that cannot be read fails the whole listing.
unfoldable pub list : Act (List Record)
unfolding get_all sort_by_id os
list = do os; entries ← gets (λ w. w.sessions); rs ← get_all entries; pure (sort_by_id rs)

-- RemoveAll; where it fails, session.json may be gone all the same.
abbrev pub without_json : String → Map Dir → Map Dir
without_json id s = elim (lookup id s) [
  | none ↦ s
  | some d ↦ insert id (record d { session_json = none }) s
]

unfoldable pub remove : String → Act (Unit {0})
unfolding ◌>>=◌ ask answer
remove id = do
  done ← ask
  lost ← answer (λ e n. e.lost n)
  modify (λ w. record w {
    sessions =
        if done
        then delete id w.sessions
        else if lost
        then without_json id w.sessions
        else w.sessions;
  })
  require done plain
