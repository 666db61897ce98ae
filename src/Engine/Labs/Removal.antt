-- ===== src/Engine/Labs/Removal.antt =====
-- When `RemoveNode` and `Destroy` of internal/engine/containerlab.go succeed.
use labcontainers.Prelude.{String, ◌≡◌, refl, sym, ap, ◌∙◌, true, List, [], ◌∷◌, ◌==◌, nat_eq, ok}
use labcontainers.Text.{trim_space}
use labcontainers.Actions.{require, ◌>>=◌}
use labcontainers.Actions.Rules.{bind-run, require-ok}
use labcontainers.Engine.Host.{Host, Ran, Cmd, refused, run, checked, containerlab}
use labcontainers.Engine.Host.Rules.{checked-ok, done}
use labcontainers.Engine.Attachments.{save_attachments}
use labcontainers.Engine.Labs.{remove_node, list_node}

abbrev pub filtered : String → String → List String
filtered topology node = "destroy" ∷ "--topo" ∷ topology ∷ "--node-filter" ∷ node ∷ []

-- The last two commands are the removal and a listing of the node's containers, running or not, that
-- has found none.
abbrev pub Removed : String → String → Host → Host → Type 0
Removed topology node h h' =
    let saved = (save_attachments topology node h).1 in
    (r s : Ran) × ((save_attachments topology node h).0 ≡ ok tt)
    × (h'.commands
        ≡ done (list_node topology node) r
          ∷ done (containerlab saved.machine (filtered topology node)) s
          ∷ saved.commands)
    × (nat_eq r.exit_code 0 ≡ true)
    × (nat_eq s.exit_code 0 ≡ true)
    × ((trim_space r.stdout == "") ≡ true)
    × (h'.journals ≡ saved.journals)

abbrev list_again : String → String → Cmd (Unit {0})
list_again topology node = do
  remaining ← checked (list_node topology node)
  require (trim_space remaining.stdout == "") refused

abbrev removal : String → String → Cmd (Unit {0})
removal topology node = run (filtered topology node) >>= λ _. list_again topology node

list_again-ok :
    (topology node : String) (h : Host)
    → (list_again topology node h).0 ≡ ok tt
    → (r : Ran) × ((list_again topology node h).1.commands
        ≡ done (list_node topology node) r ∷ h.commands)
      × (nat_eq r.exit_code 0 ≡ true)
      × ((trim_space r.stdout == "") ≡ true)
      × ((list_again topology node h).1.journals ≡ h.journals)
list_again-ok topology node h e =
    let listing = checked (list_node topology node) in
    let (r, listed, step) =
      bind-run listing (λ r. require (trim_space r.stdout == "") refused) h e in
    let (zero', entry, kept, _) = checked-ok (list_node topology node) h listed in
    let (blank, same) =
      require-ok (trim_space r.stdout == "") refused (listing h).1 (sym (ap (λ p. p.0) step) ∙ e) in
    (
      r,
      ap (λ p. p.1.commands) step ∙ ap (λ v. v.commands) same ∙ entry,
      zero',
      blank,
      ap (λ p. p.1.journals) step ∙ ap (λ v. v.journals) same ∙ kept,
    )

removal-ok :
    (topology node : String) (h : Host)
    → (removal topology node h).0 ≡ ok tt
    → (r s : Ran) × ((removal topology node h).1.commands
        ≡ done (list_node topology node) r
          ∷ done (containerlab h.machine (filtered topology node)) s
          ∷ h.commands)
      × (nat_eq r.exit_code 0 ≡ true)
      × (nat_eq s.exit_code 0 ≡ true)
      × ((trim_space r.stdout == "") ≡ true)
      × ((removal topology node h).1.journals ≡ h.journals)
unfolding run
removal-ok topology node h e =
    let destruction = run (filtered topology node) in
    let (s, destroyed, step) = bind-run destruction (λ _. list_again topology node) h e in
    let (well, first, kept, _) =
      checked-ok (containerlab h.machine (filtered topology node)) h destroyed in
    let (r, second, zero', blank, held) =
      list_again-ok topology node (destruction h).1 (sym (ap (λ p. p.0) step) ∙ e) in
    (
      r,
      s,
      ap (λ p. p.1.commands) step ∙ second ∙ ap (λ cs. done (list_node topology node) r ∷ cs) first,
      zero',
      well,
      blank,
      ap (λ p. p.1.journals) step ∙ held ∙ kept,
    )

remove_node-steps :
    (topology node : String)
    → remove_node topology node ≡ (save_attachments topology node >>= λ _. removal topology node)
unfolding remove_node
remove_node-steps topology node = refl

-- Where RemoveNode succeeds, the peers' attachments were saved, Containerlab has removed the node,
-- and the last command is a listing of its containers, stopped ones included, that has found none:
-- the node's disks may be reset. The removal leaves the journals as the saving left them.
pub remove_node-ok :
    (topology node : String) (h : Host)
    → (remove_node topology node h).0 ≡ ok tt
    → Removed topology node h (remove_node topology node h).1
remove_node-ok topology node h e =
    let steps = remove_node-steps topology node in
    let (u, saved, step) =
      bind-run (save_attachments topology node) (λ _. removal topology node) h
        (sym (ap (λ m. (m h).0) steps) ∙ e) in
    let whole = ap (λ m. m h) steps ∙ step in
    let (r, s, order, zero', well, blank, kept) =
      removal-ok topology node (save_attachments topology node h).1
        (sym (ap (λ p. p.0) whole) ∙ e) in
    (
      r,
      s,
      saved,
      ap (λ p. p.1.commands) whole ∙ order,
      zero',
      well,
      blank,
      ap (λ p. p.1.journals) whole ∙ kept,
    )
