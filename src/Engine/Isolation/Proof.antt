-- ===== src/Engine/Isolation/Proof.antt =====
-- What `ProofIsolation` of internal/engine/containerlab.go has seen where it succeeds.
use labcontainers.Prelude.{
  String, ◌≡◌, refl, sym, ap, ◌∙◌, Option, none, some, List, [], ◌∷◌, All, ok,
}
use labcontainers.Text.{fields}
use labcontainers.Actions.{demand, gets, ◌>>=◌}
use labcontainers.Actions.Rules.{bind-run, demand-run}
use labcontainers.Engine.Host.{Host, Ran, Cmd, refused, checked, Inspection}
use labcontainers.Engine.Host.Rules.{
  checked-ok, done, Logged, Extends, Logged-Extends, for_each-All,
}
use labcontainers.Engine.Identity.{only, container_identity, container_id, list_running}
use labcontainers.Engine.Identity.Single.{only-ok}
use labcontainers.Engine.Isolation.Safe.{Isolated, check_inspection-Isolated}
use labcontainers.Engine.Isolation.{proof_isolation, prove_node, check_inspection, single}

-- The node's one running container was inspected after the host `h`, and is isolated.
abbrev pub Evidence : String → Host → String → Type 0
Evidence lab h node =
    (id : String) × (s r : Ran) × (i : Inspection) × Logged
      (done (list_running lab node "{{.ID}}") s) h
    × (fields s.stdout ≡ id ∷ [])
    × Logged (done ("docker" ∷ "inspect" ∷ id ∷ []) r) h
    × (h.machine.inspections r.stdout ≡ some (i ∷ []))
    × Isolated i

single-some :
    (o : Option (List Inspection)) {i : Inspection} → single o ≡ some i → o ≡ some (i ∷ [])
single-some none e = cc
single-some (some []) e = cc
single-some (some (i ∷ [])) e = cc
single-some (some (i ∷ j ∷ is)) e = cc

-- What the check of one node leaves: two entries in the history, of an isolated container.
abbrev Checked : String → Host → String → Host → Type 0
Checked lab h node h' =
    (id : String) × (s r : Ran) × (i : Inspection) × (h'.commands
      ≡ done ("docker" ∷ "inspect" ∷ id ∷ []) r
        ∷ done (list_running lab node "{{.ID}}") s
        ∷ h.commands)
    × (fields s.stdout ≡ id ∷ [])
    × (h.machine.inspections r.stdout ≡ some (i ∷ []))
    × Isolated i
    × (h'.machine ≡ h.machine)

container_id-ok :
    (lab node : String) (h : Host) {id : String}
    → (container_id lab node h).0 ≡ ok id
    → (s : Ran) × (fields s.stdout ≡ id ∷ [])
      × ((container_id lab node h).1.commands
          ≡ done (list_running lab node "{{.ID}}") s ∷ h.commands)
      × ((container_id lab node h).1.machine ≡ h.machine)
unfolding container_identity
container_id-ok lab node h e =
    let listing = checked (list_running lab node "{{.ID}}") in
    let (s, listed, step) = bind-run listing (λ r. only (fields r.stdout)) h e in
    let (_, entry, _, machine) = checked-ok (list_running lab node "{{.ID}}") h listed in
    let (one, same) = only-ok (fields s.stdout) (listing h).1 (sym (ap (λ p. p.0) step) ∙ e) in
    (
      s,
      one,
      ap (λ p. p.1.commands) step ∙ ap (λ v. v.commands) same ∙ entry,
      ap (λ p. p.1.machine) step ∙ ap (λ v. v.machine) same ∙ machine,
    )

abbrev check_report : Ran → Cmd (Unit {0})
check_report r = do
  machine ← gets (λ h. h.machine)
  i ← demand (single (machine.inspections r.stdout)) refused
  check_inspection i

abbrev inspect : String → Cmd (Unit {0})
inspect id = checked ("docker" ∷ "inspect" ∷ id ∷ []) >>= check_report

check_report-ok :
    (r : Ran) (h : Host)
    → (check_report r h).0 ≡ ok tt
    → (i : Inspection) × (h.machine.inspections r.stdout ≡ some (i ∷ []))
      × Isolated i
      × ((check_report r h).1 ≡ h)
unfolding ◌>>=◌
check_report-ok r h e =
    let (i, found, step) =
      demand-run (single (h.machine.inspections r.stdout)) refused check_inspection h e in
    let (isolated, same) = check_inspection-Isolated i h (sym (ap (λ p. p.0) step) ∙ e) in
    (i, single-some (h.machine.inspections r.stdout) found, isolated, ap (λ p. p.1) (step ∙ same))

prove_node-steps : (lab node : String) → prove_node lab node ≡ (container_id lab node >>= inspect)
unfolding prove_node
prove_node-steps lab node = refl

prove_node-Checked :
    (lab node : String) (h : Host)
    → (prove_node lab node h).0 ≡ ok tt
    → Checked lab h node (prove_node lab node h).1
prove_node-Checked lab node h e =
    let steps = ap (λ m. m h) (prove_node-steps lab node) in
    let (id, resolved, step) =
      bind-run (container_id lab node) inspect h (sym (ap (λ p. p.0) steps) ∙ e) in
    let (s, one, listed, machine) = container_id-ok lab node h resolved in
    let v = (container_id lab node h).1 in
    let asked = checked ("docker" ∷ "inspect" ∷ id ∷ []) in
    let (r, seen, step') = bind-run asked check_report v (sym (ap (λ p. p.0) (steps ∙ step)) ∙ e) in
    let (_, entry, _, machine') = checked-ok ("docker" ∷ "inspect" ∷ id ∷ []) v seen in
    let whole = steps ∙ step ∙ step' in
    let (i, found, isolated, same) =
      check_report-ok r (asked v).1 (sym (ap (λ p. p.0) whole) ∙ e) in
    let after = ap (λ p. p.1) whole ∙ same in
    (
      id,
      s,
      r,
      i,
      ap (λ w. w.commands) after
          ∙ entry
          ∙ ap (λ cs. done ("docker" ∷ "inspect" ∷ id ∷ []) r ∷ cs) listed,
      one,
      sym (ap (λ m. m.inspections r.stdout) (machine' ∙ machine)) ∙ found,
      isolated,
      ap (λ w. w.machine) after ∙ machine' ∙ machine,
    )

Evidence-Extends :
    (lab node : String) (h h' : Host) → Evidence lab h node → Extends h h' → Evidence lab h' node
Evidence-Extends lab node h h' (id, s, r, i, listed, one, inspected, found, isolated) ext = (
  id,
  s,
  r,
  i,
  Logged-Extends (done (list_running lab node "{{.ID}}") s) h h' listed ext,
  one,
  Logged-Extends (done ("docker" ∷ "inspect" ∷ id ∷ []) r) h h' inspected ext,
  ap (λ m. m.inspections r.stdout) ext.1 ∙ found,
  isolated,
)

Checked-Evidence :
    (lab node : String) (h h' : Host) → Checked lab h node h' → Evidence lab h' node × Extends h h'
Checked-Evidence lab node h h' (id, s, r, i, order, one, found, isolated, machine) =
    let seen = done ("docker" ∷ "inspect" ∷ id ∷ []) r in
    let listed = done (list_running lab node "{{.ID}}") s in
    (
      (
        id,
        s,
        r,
        i,
        (seen ∷ [], h.commands, order),
        one,
        ([], listed ∷ h.commands, order),
        ap (λ m. m.inspections r.stdout) machine ∙ found,
        isolated,
      ),
      ((seen ∷ listed ∷ [], order), machine),
    )

-- Where ProofIsolation succeeds, the history has for every node a listing that resolved it to one
-- running container, and an inspection of this container that shows it without any network but
-- Docker's `none` and without any host port, published or bound.
pub proof_isolation-Evidence :
    (lab : String) (nodes : List String) (h : Host)
    → (proof_isolation lab nodes h).0 ≡ ok tt
    → All (Evidence lab (proof_isolation lab nodes h).1) nodes
unfolding proof_isolation
proof_isolation-Evidence lab nodes h e =
    (for_each-All (λ node h'. Evidence lab h' node) (prove_node lab)
      (λ node h h'. Evidence-Extends lab node h h')
      (λ node h e.
        Checked-Evidence lab node h (prove_node lab node h).1 (prove_node-Checked lab node h e))
      nodes h e).0
