-- ===== src/Engine/Attachments/Keeps.antt =====
-- The parts of `saveAttachments` and `restoreAttachments` of internal/engine/attachments.go that leave
-- the journals as they are.
use labcontainers.Prelude.{
  String, ◌≡◌, refl, ◌∙◌, some, List, [], ◌∷◌, ◌++◌, ◌==◌, if◌then◌else◌, nat_eq, Result, err, Map,
}
use labcontainers.Text.{fields, lines, trim_space}
use labcontainers.Actions.{pure, fail, require, ◌>>=◌, ◌>>◌}
use labcontainers.Actions.Rules.{Post, bind-Post}
use labcontainers.Actions.Keeps.{Keeps, bind-Keeps, require-Keeps, if-Keeps, option-Keeps}
use labcontainers.Engine.Host.{
  Cmd, Host, Failure, refused, unreadable, exited, Ran, ask, file, run_input, exits_well, checked,
  Attachment, Journal,
}
use labcontainers.Engine.Attachments.{
  add_peer, read_peers, linux_peers, read_attachments, add_entry, peer_attachments, write_files,
  restore_one, set_master, mem,
}

abbrev pub journals_of : Host → Map Journal
journals_of h = h.journals

pub file-Keeps : Keeps journals_of file
unfolding file
file-Keeps =
    bind-Keeps journals_of ask (λ done. require done unreadable) (λ h. refl)
      (λ done. require-Keeps journals_of done unreadable)

checked-Keeps : (argv : List String) → Keeps journals_of (checked argv)
unfolding checked run_input pure fail
checked-Keeps argv =
    bind-Keeps journals_of (run_input [] argv) (exits_well argv) (λ h. refl)
      (λ r.
        if-Keeps journals_of (nat_eq r.exit_code 0) (pure r) (fail (exited argv r)) (λ h. refl)
          (λ h. refl))

read_peers-Keeps : (node : String) (ls ps : List String) → Keeps journals_of (read_peers node ls ps)
unfolding read_peers pure fail
read_peers-Keeps node [] ps = λ h. refl
read_peers-Keeps node (l ∷ ls) ps =
    option-Keeps journals_of (if l == "" then some ps else add_peer node (fields l) ps)
      (fail refused) (λ more. read_peers node ls more) (λ h. refl)
      (λ more. read_peers-Keeps node ls more)

pub linux_peers-Keeps : (topology node : String) → Keeps journals_of (linux_peers topology node)
unfolding linux_peers
linux_peers-Keeps topology node =
    bind-Keeps journals_of (checked _) (λ r. read_peers node (lines (trim_space r.stdout)) [])
      (checked-Keeps _) (λ r. read_peers-Keeps node (lines (trim_space r.stdout)) [])

add_entry-Keeps :
    (id : String) (ws : List String) (later : Cmd (List Attachment))
    → Keeps journals_of later
    → Keeps journals_of (add_entry id ws later)
unfolding ◌>>=◌
add_entry-Keeps id [] later keeps = λ h. refl
add_entry-Keeps id (w ∷ []) later keeps = λ h. refl
add_entry-Keeps id (interface ∷ master ∷ []) later keeps =
    bind-Keeps journals_of later
      (λ as'. pure (record { container = id; interface = interface; master = master } ∷ as')) keeps
      (λ as' h. refl)
add_entry-Keeps id (u ∷ v ∷ w ∷ ws) later keeps = λ h. refl

read_attachments-Keeps :
    (id : String) (ls : List String) → Keeps journals_of (read_attachments id ls)
unfolding read_attachments
read_attachments-Keeps id [] = λ h. refl
read_attachments-Keeps id (l ∷ ls) =
    let later = read_attachments id ls in
    let keeps = read_attachments-Keeps id ls in
    if-Keeps journals_of (l == "") later (add_entry id (fields l) later) keeps
      (add_entry-Keeps id (fields l) later keeps)

pub peer_attachments-Keeps : (ids : List String) → Keeps journals_of (peer_attachments ids)
unfolding peer_attachments pure
peer_attachments-Keeps [] = λ h. refl
peer_attachments-Keeps (id ∷ ids) =
    bind-Keeps journals_of (checked _)
      (λ r. read_attachments id (lines (trim_space r.stdout)) >>= λ here.
        peer_attachments ids >>= λ later. pure (here ++ later))
      (checked-Keeps _)
      (λ r.
        bind-Keeps journals_of (read_attachments id (lines (trim_space r.stdout)))
          (λ here. peer_attachments ids >>= λ later. pure (here ++ later))
          (read_attachments-Keeps id (lines (trim_space r.stdout)))
          (λ here.
            bind-Keeps journals_of (peer_attachments ids) (λ later. pure (here ++ later))
              (peer_attachments-Keeps ids) (λ later h. refl)))

pub write_files-Keeps : Keeps journals_of write_files
unfolding write_files
write_files-Keeps =
    let two : Cmd (Unit {0}) = file >> file in
    let three : Cmd (Unit {0}) = file >> two in
    let four : Cmd (Unit {0}) = file >> three in
    bind-Keeps journals_of file (λ _. four) file-Keeps
      (λ _.
        bind-Keeps journals_of file (λ _. three) file-Keeps
          (λ _.
            bind-Keeps journals_of file (λ _. two) file-Keeps
              (λ _. bind-Keeps journals_of file (λ _. file) file-Keeps (λ _. file-Keeps))))

pub restore_one-Keeps :
    (peers : List String) (a : Attachment) → Keeps journals_of (restore_one peers a)
unfolding restore_one pure
restore_one-Keeps peers a =
    let last : Ran → Cmd (Unit {0}) = λ _. pure tt in
    bind-Keeps journals_of (require (mem a.container peers) refused)
      (λ _. checked (set_master a) >>= last)
      (require-Keeps journals_of (mem a.container peers) refused)
      (λ _.
        bind-Keeps journals_of (checked (set_master a)) last (checked-Keeps (set_master a))
          (λ _ h. refl))

module _ (Q : Result Failure (Unit {0}) → Host → Type 0) (h : Host)
    (stays : (c : Failure) (v : Host) → v.journals ≡ h.journals → Q (err c) v) where
  -- A step that keeps the journals.
  pub quiet-Post :
      {B : Type 0} (m : Cmd B) (f : B → Cmd (Unit {0})) (w : Host)
      → Keeps journals_of m
      → w.journals ≡ h.journals
      → ((b : B) (v : Host) → v.journals ≡ h.journals → Post (f b) v Q)
      → Post (m >>= f) w Q
  quiet-Post m f w keeps same then' =
      bind-Post Q m f w (λ b _. then' b (m w).1 (keeps w ∙ same))
        (λ c _. stays c (m w).1 (keeps w ∙ same))
