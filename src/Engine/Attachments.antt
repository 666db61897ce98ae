-- ===== src/Engine/Attachments.antt =====
-- internal/engine/attachments.go: the bridge memberships of a node's peers, saved before the node goes
-- down and restored after it is up again.
pub mod Keeps
pub mod Journals
use labcontainers.Prelude.{
  ℕ, String, Bool, true, false, Option, none, some, List, [], ◌∷◌, ◌++◌, lookup, insert, delete,
  any, ◌==◌, if◌then◌else◌,
}
use labcontainers.Prelude.FilePath.{◌⧺◌}
use labcontainers.Text.{fields, lines, trim_space}
use labcontainers.Actions.{Action, pure, fail, require, gets, modify, for_each, ◌>>=◌, ◌>>◌}
use labcontainers.Engine.Host.{
  Cmd, Host, Failure, refused, unreadable, checked, file, ask, Attachment, Journal, entries,
  garbled,
}

abbrev pub mem : String → List String → Bool
mem x = any (λ y. y == x)

-- A line of the listing: the container of a peer, if it is not the node's own.
unfoldable pub add_peer : String → List String → List String → Option (List String)
add_peer node (id ∷ name ∷ []) peers =
    some (if name == node then peers else if mem id peers then peers else id ∷ peers)
add_peer node _ peers = none

unfoldable pub read_peers : String → List String → List String → Cmd (List String)
unfolding add_peer ◌>>=◌
read_peers node [] peers = pure peers
read_peers node (line ∷ rest) peers =
    elim (if line == "" then some peers else add_peer node (fields line) peers) [
      | none ↦ fail refused
      | some more ↦ read_peers node rest more
    ]

unfoldable pub linux_peers : String → String → Cmd (List String)
unfolding checked read_peers
linux_peers topology node = do
  r ← checked (
      "docker"
      ∷ "ps"
      ∷ "--no-trunc"
      ∷ "--filter"
      ∷ ("label=clab-topo-file=" ⧺ topology)
      ∷ "--filter"
      ∷ "label=clab-node-kind=linux"
      ∷ "--format"
      ∷ "{{.ID}}\t{{.Label \"clab-node-name\"}}"
      ∷ [])
  read_peers node (lines (trim_space r.stdout)) []

abbrev pub list_masters : String
list_masters =
    "for p in /sys/class/net/*; do if [ -L \"$p/master\" ]; then m=$(readlink \"$p/master\"); printf '%s %s\\n' \"${p##*/}\" \"${m##*/}\"; fi; done"

-- A line's attachment before the later ones.
abbrev pub add_entry : String → List String → Cmd (List Attachment) → Cmd (List Attachment)
add_entry id (interface ∷ master ∷ []) later = do
  as' ← later
  pure (record { container = id; interface = interface; master = master } ∷ as')
add_entry id _ later = fail refused

unfoldable pub read_attachments : String → List String → Cmd (List Attachment)
unfolding ◌>>=◌
read_attachments id [] = pure []
read_attachments id (line ∷ rest) =
    let later = read_attachments id rest in
    if line == "" then later else add_entry id (fields line) later

unfoldable pub peer_attachments : List String → Cmd (List Attachment)
unfolding checked read_attachments
peer_attachments [] = pure []
peer_attachments (id ∷ ids) = do
  r ← checked ("docker" ∷ "exec" ∷ id ∷ "sh" ∷ "-ec" ∷ list_masters ∷ [])
  here ← read_attachments id (lines (trim_space r.stdout))
  later ← peer_attachments ids
  pure (here ++ later)

-- CreateTemp, Write, Sync, Close and Rename.
unfoldable pub write_files : Cmd (Unit {0})
unfolding file
write_files = do file; file; file; file; file

abbrev pub publish_journal : String → List Attachment → Cmd (Unit {0})
publish_journal path saved =
    modify (λ h. record h { journals = insert path (entries saved) h.journals })

unfoldable pub write_journal : String → List Attachment → Cmd (Unit {0})
unfolding write_files
write_journal path saved = do write_files; publish_journal path saved

abbrev pub keep_journal : String → List Attachment → Cmd (Unit {0})
keep_journal path [] = pure tt
keep_journal path (a ∷ as') = write_journal path (a ∷ as')

-- Where there is no journal yet.
unfoldable pub save_new : String → String → String → Option Journal → Cmd (Unit {0})
unfolding linux_peers peer_attachments write_journal
save_new path topology node (some _) = pure tt
save_new path topology node none = do
  peers ← linux_peers topology node
  machine ← gets (λ h. h.machine)
  saved ← peer_attachments (machine.order peers)
  keep_journal path saved

unfoldable pub save_attachments : String → String → Cmd (Unit {0})
unfolding save_new file
save_attachments topology node = do
  path ← gets (λ h. h.machine.journal_path topology node)
  file
  found ← gets (λ h. lookup path h.journals)
  save_new path topology node found

abbrev pub set_master : Attachment → List String
set_master a =
    "docker" ∷ "exec" ∷ a.container ∷ "ip" ∷ "link" ∷ "set" ∷ "dev" ∷ a.interface ∷ "master"
    ∷ a.master ∷ []

unfoldable pub restore_one : List String → Attachment → Cmd (Unit {0})
unfolding checked ◌>>=◌
restore_one peers a = do
  require (mem a.container peers) refused
  _ ← checked (set_master a)
  pure tt

abbrev pub forget_journal : String → Cmd (Unit {0})
forget_journal path = modify (λ h. record h { journals = delete path h.journals })

-- os.Remove
unfoldable pub drop_journal : String → Cmd (Unit {0})
unfolding file
drop_journal path = do file; forget_journal path

unfoldable pub restore_found : String → String → String → Option Journal → Cmd (Unit {0})
unfolding linux_peers restore_one drop_journal for_each
restore_found path topology node none = pure tt
restore_found path topology node (some garbled) = do file; fail refused
restore_found path topology node (some (entries saved)) = do
  file
  peers ← linux_peers topology node
  for_each saved (restore_one peers)
  drop_journal path

unfoldable pub restore_attachments : String → String → Cmd (Unit {0})
unfolding restore_found ◌>>=◌
restore_attachments topology node = do
  path ← gets (λ h. h.machine.journal_path topology node)
  found ← gets (λ h. lookup path h.journals)
  restore_found path topology node found
