-- ===== src/Server/Fault/Journal.antt =====
-- ApplyFault writes the rollback record before it touches the network.
use std.Path.{subst}
use labcontainers.Prelude.{
  String, ◌≡◌, refl, sym, ap, ◌∙◌, ◌⊎◌, inl, inr, Result, ok, err, Bool, true, some, ◌∷◌, arith,
  if◌then◌else◌, ◌==◌, ℕ,
}
use labcontainers.Session.{Record, Fault}
use labcontainers.Session.Store.{save}
use labcontainers.Session.Store.Abstract.{stored, stored-save_ok, stored-save_err, calls-save}
use labcontainers.World.{World, Call, Code, internal, Act, Env, status, pure, ◌>>=◌}
use labcontainers.World.Rules.{Post, bind-Post, called, call-eq, recode-ok, recode-err}
use labcontainers.Server.Records.Quiet.{
  record_of_quiet, record_of_env, random_id_env, record_of_result, random_id_quiet, event_quiet,
}
use labcontainers.Server.Records.{record_of, random_id, event, set_fault}
use labcontainers.Server.Fault.{ApplyFaultRequest, plan_fault, inject, apply_fault}
use labcontainers.Server.Fault.Planned.{
  is_injection, injections, Makes, Planned, plan_fault_quiet, plan_fault_result,
}

module _ (r : Record) (c : Call) (w : World) (h : is_injection c ≡ true) where
  inject_done :
      ((inject r c w).1.sessions ≡ w.sessions)
      × ((inject r c w).1.calls ≡ (c, w.env.succeeds w.asked) ∷ w.calls)
      × ((inject r c w).0 ≡ (if w.env.succeeds w.asked then ok tt else err internal))
  unfolding inject
  inject_done = ground (
    arith,
    call-eq c w,
    event_quiet r "fault.applied" (called c w),
    event_quiet r "fault.apply_failed" (called c w),
  )

abbrev launch : Record → Fault → Call → Act Fault
launch r f c = event r "fault.prepared" >>= λ _. inject r c >>= λ _. pure f

launch_done :
    (r : Record) (f : Fault) (c : Call) (w : World)
    → is_injection c ≡ true
    → ((launch r f c w).1.sessions ≡ w.sessions)
      × ((done : Bool) × ((launch r f c w).1.calls ≡ (c, done) ∷ w.calls)
          × ((launch r f c w).0 ≡ (if done then ok f else err internal)))
unfolding ◌>>=◌
launch_done r f c w h =
    let v = (event r "fault.prepared" w).1 in
    let logged = event_quiet r "fault.prepared" w in
    let called = inject_done r c v h in
    (
      ground (arith, logged, called),
      (v.env.succeeds v.asked, ground (arith, logged, called), ground (arith, logged, called)),
    )

module _ (req : ApplyFaultRequest) (w : World) where
  abbrev pub Untouched : Result Code Fault → World → Type 0
  Untouched res v =
      (injections v.calls ≡ injections w.calls)
      × ((j : String) → stored v.sessions j ≡ stored w.sessions j)
      × ((c : Code) × (res ≡ err c))

  -- The question at which the plan begins: after the record is read and an ID drawn.
  abbrev pub planned_at : ℕ
  planned_at = (random_id (record_of req.session_id w).1).1.asked

  -- After the call `asked`, the record `r` was stored with the new active fault `f`, and then `c` was
  -- called.
  abbrev pub Journaled : Result Code Fault → World → Type 0
  Journaled res v =
      (r : Record) × (f : Fault) × (k : ℕ) × (asked c : Call) × (done : Bool) × (stored w.sessions
          req.session_id
        ≡ some r)
      × (f.active ≡ true)
      × (k ≡ planned_at)
      × (w.env.succeeds k ≡ true)
      × Makes r req req.fault w.env k asked f c
      × ((j : String)
          → stored v.sessions j
            ≡ (if r.id == j then some (set_fault f.id f r) else stored w.sessions j))
      × (v.calls ≡ (c, done) ∷ (asked, true) ∷ w.calls)
      × (res ≡ (if done then ok f else err internal))

  abbrev Journal : Result Code Fault → World → Type 0
  Journal res v = Untouched res v ⊎ Journaled res v

  -- The world has the store and the network of the start.
  abbrev Still : World → Type 0
  Still v = (v.sessions ≡ w.sessions) × (injections v.calls ≡ injections w.calls)

  stop : (c : Code) (v : World) → Still v → Journal (err c) v
  stop c v (s, i) = inl (i, (λ j. ap (λ x. stored x j) s), (c, refl))

  record_of-Still : Still (record_of req.session_id w).1
  record_of-Still = let (s, c) = record_of_quiet req.session_id w in (s, ap injections c)

  random_id-Still : (v : World) → Still v → Still (status internal random_id v).1
  unfolding status
  random_id-Still v (s, i) = let (s', c') = random_id_quiet v in (s' ∙ s, ap injections c' ∙ i)

  plan_fault-Still :
      (r : Record) (id : String) (v : World) → Still v → Still (plan_fault r id req req.fault v).1
  plan_fault-Still r id v (s, i) =
      let (s', i') = plan_fault_quiet r id req req.fault v in (s' ∙ s, i' ∙ i)

  abbrev saved : Record → String → Fault × Call → Act Fault
  saved r id p = status internal (save (set_fault id p.0 r)) >>= λ _. launch r p.0 p.1

  -- The world has the answers and the calls of the start.
  abbrev Same : World → Type 0
  Same v = (v.env ≡ w.env) × (v.calls ≡ w.calls)

  drawn_id : (v : World) → Same v → Same (status internal random_id v).1
  unfolding status
  drawn_id v (e, c) = (random_id_env v ∙ e, (random_id_quiet v).1 ∙ c)

  saved-Journal :
      (r : Record) (id : String) (u : World) (p : Fault × Call) (v : World)
      → stored w.sessions req.session_id ≡ some r
      → Same u
      → u.asked ≡ planned_at
      → Planned r id req req.fault u p v
      → Still v
      → Post (saved r id p) v Journal
  unfolding status
  saved-Journal r id u p v h (env, calls) at (asked, act, same, inj, held, makes, grown) (s, i) =
      let r' = set_fault id p.0 r in
      let x = (save r' v).1 in
      let (kept, (done, made, res)) = launch_done r p.0 p.1 x inj in
      bind-Post Journal (status internal (save r')) _ v
        (λ b e. inr (
          r,
          p.0,
          u.asked,
          asked,
          p.1,
          done,
          h,
          act,
          at,
          ap (λ (y : Env). y.succeeds u.asked) (sym env) ∙ held,
          subst (λ y. Makes r req req.fault y u.asked asked p.0 p.1) env makes,
          (λ j.
              ap (λ y. stored y j) kept
              ∙ (stored-save_ok r' v j (recode-ok internal _ e) ∙ rw (same, s))),
          (made
              ∙ ap (λ cs. (p.1, done) ∷ cs) (calls-save r' v ∙ grown)
              ∙ ap (λ cs. (p.1, done) ∷ (asked, true) ∷ cs) calls),
          res,
        ))
        (λ c e. inl (
          ap injections (calls-save r' v) ∙ i,
          (λ j. stored-save_err r' v j (recode-err internal _ e).1 ∙ ap (λ x. stored x j) s),
          (c, refl),
        ))

  apply_fault-Journal : Journal (apply_fault req w).0 (apply_fault req w).1
  unfolding apply_fault status
  apply_fault-Journal =
      bind-Post Journal (record_of req.session_id) _ w
        (λ r found.
          let v1 = (record_of req.session_id w).1 in
          let still1 = record_of-Still in
          let same1 : Same v1 =
            (record_of_env req.session_id w, (record_of_quiet req.session_id w).1) in
          bind-Post Journal (status internal random_id) _ v1
            (λ id drawn.
              let v2 = (status internal random_id v1).1 in
              let still2 = random_id-Still v1 still1 in
              bind-Post Journal (plan_fault r id req req.fault) _ v2
                (λ p planned.
                  saved-Journal r id v2 p (plan_fault r id req req.fault v2).1
                    (record_of_result req.session_id w found) (drawn_id v1 same1) refl
                    (plan_fault_result r id req req.fault v2 planned)
                    (plan_fault-Still r id v2 still2))
                (λ c _.
                  stop c (plan_fault r id req req.fault v2).1 (plan_fault-Still r id v2 still2)))
            (λ c _. stop c (status internal random_id v1).1 (random_id-Still v1 still1)))
        (λ c _. stop c (record_of req.session_id w).1 record_of-Still)

-- ApplyFault either fails with the network and every stored record as they were; or it has called
-- the backend exactly twice, first for the container of the request's node or for the state of its
-- link, and then, on that container or link, with what the request asks for and all of its
-- parameters; and the session's record is stored with a new active fault, of the kind, node and
-- interface that the request names and, for a link, with the state that was told. The fault is
-- returned if the second call succeeded, and there is an internal error if it failed; the fault is
-- stored as active in both cases.
pub apply_fault_journal :
    (req : ApplyFaultRequest) (w : World)
    → Untouched req w (apply_fault req w).0 (apply_fault req w).1
      ⊎ Journaled req w (apply_fault req w).0 (apply_fault req w).1
apply_fault_journal req w = apply_fault-Journal req w
