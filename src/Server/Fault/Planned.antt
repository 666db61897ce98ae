-- ===== src/Server/Fault/Planned.antt =====
-- What ApplyFault plans before it changes anything: one question to the backend, a rollback record and
-- the call that it is for.
use std.Path.{subst}
use labcontainers.Prelude.{
  String, ◌≡◌, refl, Result, ok, err, Bool, true, false, some, List, [], ◌∷◌, arith, if◌then◌else◌,
  ◌==◌, ℕ, suc, lookup, not, ◌||◌,
}
use labcontainers.Session.{Record, Node, Fault}
use labcontainers.World.{
  World, Call, Code, invalid_argument, failed_precondition, plain, netem, set_link, container_name,
  link_up, Env, answer, call, ask, require, recode, continue, fail, status, pure, ◌>>=◌,
}
use labcontainers.World.Rules.{Post, require-Post, demand-Post}
use labcontainers.Server.Fault.{
  ApplyFaultRequest, NetemRequest, LinkStateRequest, FaultKind, any_fault, holds_link, netem_fault,
  link_state_fault, partition_fault, no_fault, plan_fault,
}

-- The calls that change a network.
abbrev pub is_injection : Call → Bool
is_injection (netem a b c d e f g) = true
is_injection (set_link a b c d e) = true
is_injection _ = false

abbrev pub injections : List (Call × Bool) → List (Call × Bool)
injections [] = []
injections (c ∷ cs) = if is_injection c.0 then c ∷ injections cs else injections cs

-- What the request asks for was done: `c` makes this fault, where the call `asked`, at the question `k`
-- of `e`, has told the container of the call, or the state that the record restores.
abbrev pub Makes : Record → ApplyFaultRequest → FaultKind → Env → ℕ → Call → Fault → Call → Type 0
Makes r req (netem_fault n) e k asked f c =
    (f.kind ≡ "netem")
    × (f.node ≡ req.node)
    × (f.interface ≡ req.interface)
    × (asked ≡ container_name r.name f.node)
    × (c
        ≡ netem (e.name (suc k)) f.interface n.delay_millis n.jitter_millis n.loss_percent
            n.rate_kbit n.corruption_percent)
Makes r req (link_state_fault l) e k asked f c =
    (n : Node) × (lookup l.node r.nodes ≡ some n)
    × (f.kind ≡ "link-state")
    × (f.node ≡ n.name)
    × (f.interface ≡ l.interface)
    × (asked ≡ link_up r.name f.node n.control f.interface)
    × (f.restore_up ≡ e.up (suc k))
    × (c ≡ set_link r.name f.node n.control f.interface l.up)
Makes r req _ e k asked f c = ⊥

-- A call, and a value that comes with its answer.
asked-Post :
    {A B : Type 0} (Q : Result Code B → World → Type 0) (asked : Call) (g : Env → ℕ → A)
    (build : A → B) (w : World)
    → (w.env.succeeds w.asked ≡ true
        → Q
            (ok (build (g w.env (suc w.asked))))
            (record w { asked = suc (suc w.asked); calls = (asked, true) ∷ w.calls }))
    → ((c : Code) (v : World) → Q (err c) v)
    → Post (status failed_precondition (call asked) >>= λ _. answer g >>= λ x. pure (build x)) w Q
unfolding status call answer ask require pure fail ◌>>=◌
asked-Post Q asked g build w good bad = go (w.env.succeeds w.asked) good
  where
    called_with : Bool → World
    called_with b = record w { asked = suc w.asked; calls = (asked, b) ∷ w.calls }

    go :
        (b : Bool)
        → (b ≡ true
            → Q
                (ok (build (g w.env (suc w.asked))))
                (record w { asked = suc (suc w.asked); calls = (asked, true) ∷ w.calls }))
        → (let r = require b plain (called_with b) in
            let end =
              continue
                (recode failed_precondition r.0)
                (λ _. answer g >>= λ x. pure (build x))
                r.1 in
            Q end.0 end.1)
    go true good' = good' refl
    go false good' = bad failed_precondition (called_with false)

module _ (r : Record) (id : String) (req : ApplyFaultRequest) where
  pub plan_fault_quiet :
      (k : FaultKind) (w : World)
      → ((plan_fault r id req k w).1.sessions ≡ w.sessions)
        × (injections (plan_fault r id req k w).1.calls ≡ injections w.calls)
  unfolding plan_fault
  plan_fault_quiet (netem_fault n) w = ground arith
  plan_fault_quiet (link_state_fault n) w = ground arith
  plan_fault_quiet partition_fault w = ground arith
  plan_fault_quiet no_fault w = ground arith

  -- The plan has asked the backend once, and the rollback record is for its call.
  abbrev pub Planned : FaultKind → World → Fault × Call → World → Type 0
  Planned k w p v =
      (asked : Call) × (p.0.active ≡ true)
      × (p.0.id ≡ id)
      × (is_injection p.1 ≡ true)
      × (w.env.succeeds w.asked ≡ true)
      × Makes r req k w.env w.asked asked p.0 p.1
      × (v.calls ≡ (asked, true) ∷ w.calls)

  abbrev IfPlanned : FaultKind → World → Result Code (Fault × Call) → World → Type 0
  IfPlanned k w (ok p) v = Planned k w p v
  IfPlanned k w (err c) v = Unit

  plan_netem : NetemRequest → String → Fault × Call
  plan_netem n container = (
    record {
      id = id;
      kind = "netem";
      node = req.node;
      interface = req.interface;
      active = true;
      restore_up = false;
    },
    netem container req.interface n.delay_millis n.jitter_millis n.loss_percent n.rate_kbit
        n.corruption_percent,
  )

  plan_link : LinkStateRequest → Node → Bool → Fault × Call
  plan_link l n prior_up = (
    record {
      id = id;
      kind = "link-state";
      node = n.name;
      interface = l.interface;
      active = true;
      restore_up = prior_up;
    },
    set_link r.name n.name n.control l.interface l.up,
  )

  plan_fault-Planned : (k : FaultKind) (w : World) → Post (plan_fault r id req k) w (IfPlanned k w)
  unfolding plan_fault plan_netem plan_link
  plan_fault-Planned (netem_fault n) w =
      let Q = IfPlanned (netem_fault n) w in
      require-Post Q (not (req.node == "" || req.interface == "")) invalid_argument _ w
        (λ _.
          demand-Post Q (lookup req.node r.nodes) invalid_argument _ w
            (λ _ _.
              asked-Post Q (container_name r.name req.node) (λ e k. e.name k) (plan_netem n) w
                (λ good. (
                  container_name r.name req.node,
                  refl,
                  refl,
                  refl,
                  good,
                  (refl, refl, refl, refl, refl),
                  refl,
                ))
                (λ c v. tt))
            tt)
        tt
  plan_fault-Planned (link_state_fault l) w =
      let Q = IfPlanned (link_state_fault l) w in
      demand-Post Q (lookup l.node r.nodes) invalid_argument _ w
        (λ n found.
          require-Post Q (not (l.interface == "")) invalid_argument _ w
            (λ _.
              require-Post Q (not (any_fault (holds_link n.name l.interface) r.faults))
                failed_precondition _ w
                (λ _.
                  asked-Post Q (link_up r.name n.name n.control l.interface) (λ e k. e.up k)
                    (plan_link l n) w
                    (λ good. (
                      link_up r.name n.name n.control l.interface,
                      refl,
                      refl,
                      refl,
                      good,
                      (n, found, refl, refl, refl, refl, refl, refl),
                      refl,
                    ))
                    (λ c v. tt))
                tt)
            tt)
        tt
  plan_fault-Planned partition_fault w = tt
  plan_fault-Planned no_fault w = tt

  pub plan_fault_result :
      (k : FaultKind) (w : World) {p : Fault × Call}
      → (plan_fault r id req k w).0 ≡ ok p
      → Planned k w p (plan_fault r id req k w).1
  plan_fault_result k w e =
      subst (λ x. IfPlanned k w x (plan_fault r id req k w).1) e (plan_fault-Planned k w)
