-- ===== src/Engine/Attachments/Journals.antt =====
-- What `saveAttachments` and `restoreAttachments` of internal/engine/attachments.go do to the journals.
use labcontainers.Prelude.{
  String, ◌≡◌, refl, sym, ap, ◌⊎◌, inl, inr, Option, none, some, List, [], ◌∷◌, lookup, insert,
  delete, Result, ok, err,
}
use labcontainers.Actions.{pure, fail, gets, for_each, ◌>>=◌, ◌>>◌}
use labcontainers.Actions.Rules.{Post}
use labcontainers.Engine.Host.{
  Cmd, Host, Machine, Failure, refused, file, Attachment, Journal, entries, garbled,
}
use labcontainers.Actions.Keeps.{for_each-Keeps}
use labcontainers.Engine.Attachments.Keeps.{
  file-Keeps, linux_peers-Keeps, peer_attachments-Keeps, write_files-Keeps, restore_one-Keeps,
  journals_of, quiet-Post,
}
use labcontainers.Engine.Attachments.{
  linux_peers, peer_attachments, write_journal, keep_journal, write_files, publish_journal,
  save_new, save_attachments, restore_one, drop_journal, forget_journal, restore_found,
  restore_attachments,
}

-- The journal is written once, with entries, or none changes.
abbrev pub Saved : String → Host → Result Failure (Unit {0}) → Host → Type 0
Saved path h r v =
    (v.journals ≡ h.journals)
    ⊎ ((r ≡ ok tt)
        × (lookup path h.journals ≡ none)
        × (a : Attachment) × (as' : List Attachment) × (v.journals
            ≡ insert path (entries (a ∷ as')) h.journals))

quiet-Saved :
    (path : String) (h : Host) (c : Failure) (v : Host)
    → v.journals ≡ h.journals
    → Saved path h (err c) v
quiet-Saved path h c v same = inl same

keep_journal-Saved :
    (path : String) (h : Host) (saved : List Attachment) (w : Host)
    → lookup path h.journals ≡ none
    → w.journals ≡ h.journals
    → Post (keep_journal path saved) w (Saved path h)
unfolding write_journal pure
keep_journal-Saved path h [] w fresh same = inl same
keep_journal-Saved path h (a ∷ as') w fresh same =
    quiet-Post (Saved path h) h (quiet-Saved path h) write_files
      (λ _. publish_journal path (a ∷ as')) w write_files-Keeps same
      (λ _ v e. inr (refl, fresh, a, as', ap (insert path (entries (a ∷ as'))) e))

save_new-Saved :
    (path topology node : String) (h w : Host) (o : Option Journal)
    → lookup path h.journals ≡ o
    → w.journals ≡ h.journals
    → Post (save_new path topology node o) w (Saved path h)
unfolding save_new pure
save_new-Saved path topology node h w (some j) found same = inl same
save_new-Saved path topology node h w none fresh same =
    let Q = Saved path h in
    let quiet = quiet-Saved path h in
    let keep = keep_journal path in
    let read = λ (peers : List String) (m : Machine). peer_attachments (m.order peers) >>= keep in
    quiet-Post Q h quiet (linux_peers topology node) (λ peers. gets (λ v. v.machine) >>= read peers)
      w (linux_peers-Keeps topology node) same
      (λ peers v e.
        quiet-Post Q h quiet (gets (λ v. v.machine)) (read peers) v (λ v. refl) e
          (λ m v e.
            quiet-Post Q h quiet (peer_attachments (m.order peers)) keep v
              (peer_attachments-Keeps (m.order peers)) e
              (λ saved v e. keep_journal-Saved path h saved v fresh e)))

-- Pending recovery state is never replaced, and a failure changes no journal: SaveAttachments either
-- leaves every journal as it was, or it succeeds, the node had no journal, and now it has one with at
-- least one attachment, beside the others.
pub save_attachments-Saved :
    (topology node : String) (h : Host)
    → let after = save_attachments topology node h in
      Saved (h.machine.journal_path topology node) h after.0 after.1
unfolding save_attachments
save_attachments-Saved topology node h =
    let path = h.machine.journal_path topology node in
    let saving : Option Journal → Cmd (Unit {0}) = save_new path topology node in
    quiet-Post (Saved path h) h (quiet-Saved path h) file
      (λ _. gets (λ v. lookup path v.journals) >>= saving) h file-Keeps refl
      (λ _ v e.
        save_new-Saved path topology node h v (lookup path v.journals) (sym (ap (lookup path) e)) e)

-- Where there is a journal, it is gone after a success, and stays after a failure; one that does not
-- decode is a failure. Where there is none, nothing happens.
abbrev pub Restored : String → Host → Option Journal → Result Failure (Unit {0}) → Host → Type 0
Restored path h none r v = (r ≡ ok tt) × (v ≡ h)
Restored path h (some garbled) r v = (c : Failure) × (r ≡ err c) × (v.journals ≡ h.journals)
Restored path h (some (entries saved)) r v =
    ((r ≡ ok tt) × (v.journals ≡ delete path h.journals))
    ⊎ ((c : Failure) × (r ≡ err c) × (v.journals ≡ h.journals))

quiet-Restored :
    (path : String) (h : Host) (j : Journal) (c : Failure) (v : Host)
    → v.journals ≡ h.journals
    → Restored path h (some j) (err c) v
quiet-Restored path h garbled c v same = (c, refl, same)
quiet-Restored path h (entries saved) c v same = inr (c, refl, same)

restore_found-Restored :
    (path topology node : String) (h : Host) (o : Option Journal)
    → Post (restore_found path topology node o) h (Restored path h o)
unfolding restore_found drop_journal pure fail
restore_found-Restored path topology node h none = (refl, refl)
restore_found-Restored path topology node h (some garbled) =
    quiet-Post (Restored path h (some garbled)) h (quiet-Restored path h garbled) file
      (λ _. fail refused) h file-Keeps refl (λ _ v e. quiet-Restored path h garbled refused v e)
restore_found-Restored path topology node h (some (entries saved)) =
    let Q = Restored path h (some (entries saved)) in
    let quiet = quiet-Restored path h (entries saved) in
    let forget : Cmd (Unit {0}) = forget_journal path in
    let drop : Cmd (Unit {0}) = file >> forget in
    let put = λ (peers : List String). for_each saved (restore_one peers) in
    quiet-Post Q h quiet file (λ _. linux_peers topology node >>= λ peers. put peers >> drop) h
      file-Keeps refl
      (λ _ v e.
        quiet-Post Q h quiet (linux_peers topology node) (λ peers. put peers >> drop) v
          (linux_peers-Keeps topology node) e
          (λ peers v e.
            quiet-Post Q h quiet (put peers) (λ _. drop) v
              (for_each-Keeps journals_of saved (restore_one peers) (restore_one-Keeps peers)) e
              (λ _ v e.
                quiet-Post Q h quiet file (λ _. forget) v file-Keeps e
                  (λ _ v e. inl (refl, ap (delete path) e)))))

-- RestoreAttachments on every branch: where the node has no journal, it succeeds and does nothing;
-- where its journal does not decode, it fails, and every journal is as it was; and where its journal has
-- attachments, it succeeds and this journal is gone, and no other, or it fails, and every journal is as
-- it was.
pub restore_attachments-Restored :
    (topology node : String) (h : Host)
    → let after = restore_attachments topology node h in
      let path = h.machine.journal_path topology node in
      Restored path h (lookup path h.journals) after.0 after.1
unfolding restore_attachments
restore_attachments-Restored topology node h =
    let path = h.machine.journal_path topology node in
    restore_found-Restored path topology node h (lookup path h.journals)
