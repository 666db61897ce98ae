-- ===== src/Server/Fault/Revert.antt =====
-- `revertFault`: what it leaves in the store, on every path.
use std.Path.{subst}
use labcontainers.Prelude.{
  ℕ, suc, Option, none, Bool-cases, String, ◌≡◌, refl, ap, ◌∙◌, ◌⊎◌, inl, inr, Result, ok, err,
  Bool, true, false, some, lookup, List, ◌∷◌, arith, if◌then◌else◌, eq_iff, ◌==◌,
}
use labcontainers.Session.{Record, Node, Fault}
use labcontainers.Session.Store.{save}
use labcontainers.Session.Store.Abstract.{stored, stored-save_ok, stored-save_err, calls-save}
use labcontainers.World.{
  World, Call, Code, internal, Env, container_name, reset_netem, set_link, not_found, status,
  demand, when, ◌>>=◌,
}
use labcontainers.World.Rules.{Post, bind-Post, when-Post, demand-Post, recode-ok, recode-err}
use labcontainers.Server.Records.Quiet.{
  record_of_quiet, record_of_env, record_of_result, event_quiet,
}
use labcontainers.Server.Records.{record_of, event, set_fault}
use labcontainers.Server.Fault.{undo, reverted, revert_active, revert_fault}

-- The session's backend was asked for the container of the fault's node, or no question was needed, and
-- then one call took the fault back on the endpoint that it names, and succeeded; `calls` are those
-- before, and `e` has the answers, that on the container after its question `k`.
abbrev pub Undone : Record → Fault → Env → ℕ → List (Call × Bool) → List (Call × Bool) → Type 0
Undone r f e k calls after =
    ((f.kind ≡ "netem")
      × ((e.succeeds k ≡ true)
          × (after
              ≡ (reset_netem (e.name (suc k)) f.interface, true)
                ∷ (container_name r.name f.node, true)
                ∷ calls)))
    ⊎ ((f.kind ≡ "link-state")
        × ((n : Node) × (lookup f.node r.nodes ≡ some n)
            × (after ≡ (set_link r.name n.name n.control f.interface f.restore_up, true) ∷ calls)))

module _ (r : Record) (f : Fault) (w : World) where
  undo_quiet : (undo r f w).1.sessions ≡ w.sessions
  unfolding undo
  undo_quiet = ground arith

  undo_netem :
      {u : Unit {0}}
      → (f.kind == "netem") ≡ true
      → (undo r f w).0 ≡ ok u
      → (w.env.succeeds w.asked ≡ true)
        × ((undo r f w).1.calls
            ≡ (reset_netem (w.env.name (suc w.asked)) f.interface, true)
              ∷ (container_name r.name f.node, true)
              ∷ w.calls)
  unfolding undo
  undo_netem kind h = ground arith

  undo_link :
      (o : Option Node) {u : Unit {0}}
      → lookup f.node r.nodes ≡ o
      → (f.kind == "netem") ≡ false
      → (undo r f w).0 ≡ ok u
      → (f.kind ≡ "link-state")
        × ((n : Node) × (o ≡ some n)
            × ((undo r f w).1.calls
                ≡ (set_link r.name n.name n.control f.interface f.restore_up, true) ∷ w.calls))
  unfolding undo
  undo_link none found kind h = absurd (ground (arith, eq_iff f.kind "link-state"))
  undo_link (some n) found kind h = (
    ground (arith, eq_iff f.kind "link-state"),
    (n, refl, ground (arith, eq_iff f.kind "link-state")),
  )

  undo_result :
      {u : Unit {0}} → (undo r f w).0 ≡ ok u → Undone r f w.env w.asked w.calls (undo r f w).1.calls
  undo_result h = elim (Bool-cases (f.kind == "netem")) [
    | inl netem ↦
        let (good, calls) = undo_netem netem h in
        inl ((eq_iff f.kind "netem").0 netem, (good, calls))
    | inr other ↦ inr (undo_link (lookup f.node r.nodes) refl other h)
  ]

module _ (session_id fault_id : String) (w : World) where
  -- The session's record has this fault.
  abbrev pub Holds : Record → Fault → Type 0
  Holds r f = (stored w.sessions session_id ≡ some r) × (lookup fault_id r.faults ≡ some f)

  abbrev SameStore : World → Type 0
  SameStore v = (j : String) → stored v.sessions j ≡ stored w.sessions j

  -- Nothing was stored, and the caller sees an error.
  abbrev pub Failed : Result Code (Unit {0}) → World → Type 0
  Failed res v = SameStore v × ((c : Code) × (res ≡ err c))

  -- The fault was inactive: nothing was stored and nothing called.
  abbrev pub Idle : Result Code (Unit {0}) → World → Type 0
  Idle res v =
      SameStore v
      × (v.calls ≡ w.calls)
      × (res ≡ ok tt)
      × ((r : Record) × (f : Fault) × Holds r f × (f.active ≡ false))

  -- The fault was active; it was taken back, and is stored as inactive, with the rest of the record.
  abbrev pub Reverted : Result Code (Unit {0}) → World → Type 0
  Reverted res v =
      (r : Record) × (f : Fault) × Holds r f
      × (f.active ≡ true)
      × Undone r f w.env (record_of session_id w).1.asked w.calls v.calls
      × ((j : String)
          → stored v.sessions j
            ≡ (if r.id == j then some (set_fault fault_id (reverted f) r) else stored w.sessions j))
      × (res ≡ ok tt)

  abbrev Outcome : Result Code (Unit {0}) → World → Type 0
  Outcome res v = Failed res v ⊎ Idle res v ⊎ Reverted res v

  failed : (c : Code) (v : World) → v.sessions ≡ w.sessions → Outcome (err c) v
  failed c v s = inl ((λ j. ap (λ x. stored x j) s), (c, refl))

  saved-Outcome :
      (r : Record) (f : Fault) (v : World)
      → Holds r f
      → f.active ≡ true
      → v.sessions ≡ w.sessions
      → Undone r f w.env (record_of session_id w).1.asked w.calls v.calls
      → Post
          (status internal (save (set_fault fault_id (reverted f) r)) >>= λ _.
            event r "fault.reverted")
          v
          Outcome
  unfolding status
  saved-Outcome r f v h a s undone =
      let r' = set_fault fault_id (reverted f) r in
      let u = (save r' v).1 in
      let (kept, calls, fine) = event_quiet r "fault.reverted" u in
      bind-Post Outcome (status internal (save r')) _ v
        (λ b e. inr (
          inr (
            r,
            f,
            h,
            a,
            rw (calls, calls-save r' v) undone,
            (λ j.
                ap (λ x. stored x j) kept
                ∙ (stored-save_ok r' v j (recode-ok internal _ e) ∙ rw s)),
            fine,
          )))
        (λ c e. inl (
          (λ j. stored-save_err r' v j (recode-err internal _ e).1 ∙ ap (λ x. stored x j) s),
          (c, refl),
        ))

  -- The world has the store, the calls and the answers of the start.
  abbrev Start : World → Type 0
  Start v =
      (v.sessions ≡ w.sessions)
      × (v.calls ≡ w.calls)
      × (v.env ≡ w.env)
      × (v.asked ≡ (record_of session_id w).1.asked)

  from_start :
      (r : Record) (f : Fault) (after : List (Call × Bool)) (v : World)
      → v.env ≡ w.env
      → v.calls ≡ w.calls
      → v.asked ≡ (record_of session_id w).1.asked
      → Undone r f v.env v.asked v.calls after
      → Undone r f w.env (record_of session_id w).1.asked w.calls after
  from_start r f after v env calls asked undone =
      let k = (record_of session_id w).1.asked in
      subst (λ c. Undone r f w.env k c after) calls
        (subst (λ e. Undone r f e k v.calls after) env
          (subst (λ n. Undone r f v.env n v.calls after) asked undone))

  active-Outcome :
      (r : Record) (f : Fault) (v : World)
      → Holds r f
      → f.active ≡ true
      → Start v
      → Post (revert_active r fault_id f) v Outcome
  unfolding revert_active
  active-Outcome r f v h a (s, c, e, n) =
      let same = undo_quiet r f v ∙ s in
      bind-Post Outcome (undo r f) _ v
        (λ b done.
          saved-Outcome r f (undo r f v).1 h a same
            (from_start r f (undo r f v).1.calls v e c n (undo_result r f v done)))
        (λ d _. failed d (undo r f v).1 same)

  found-Outcome :
      (r : Record) (f : Fault) (v : World)
      → Holds r f
      → Start v
      → Post (when f.active (revert_active r fault_id f)) v Outcome
  found-Outcome r f v h start =
      when-Post Outcome f.active (revert_active r fault_id f) v
        (λ a. active-Outcome r f v h a start)
        (λ a. inr (inl ((λ j. ap (λ x. stored x j) start.0), start.1, refl, (r, f, h, a))))

  fault_of-Outcome :
      (r : Record) (v : World)
      → stored w.sessions session_id ≡ some r
      → Start v
      → Post
          (demand (lookup fault_id r.faults) not_found >>= λ f.
            when f.active (revert_active r fault_id f))
          v
          Outcome
  fault_of-Outcome r v h start =
      demand-Post Outcome (lookup fault_id r.faults) not_found _ v
        (λ f e. found-Outcome r f v (h, e) start) (failed not_found v start.0)

-- RevertFault fails with every stored record as it was; or the fault was inactive, and it does
-- nothing; or the fault was active, and was taken back: netem was reset on the fault's interface
-- of the container that the backend had just told for its node, or the link of the fault's node
-- and interface, in this session's lab, was set to the state that the fault restores. These calls
-- succeeded, there was no other, and the fault is stored as inactive, with every other record and
-- the rest of its own as they were.
pub revert_fault_outcome :
    (session_id fault_id : String) (w : World)
    → let after = revert_fault session_id fault_id w in
      Failed session_id fault_id w after.0 after.1
      ⊎ Idle session_id fault_id w after.0 after.1
      ⊎ Reverted session_id fault_id w after.0 after.1
unfolding revert_fault
revert_fault_outcome session_id fault_id w =
    let v = (record_of session_id w).1 in
    let (s, c) = record_of_quiet session_id w in
    bind-Post (Outcome session_id fault_id w) (record_of session_id) _ w
      (λ r e.
        fault_of-Outcome session_id fault_id w r v (record_of_result session_id w e)
          (s, c, record_of_env session_id w, refl))
      (λ k _. failed session_id fault_id w k v s)
