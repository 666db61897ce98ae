-- ===== src/Server/Create/Start.antt =====
-- The last part of CreateSession: what a session's state says about its deployment.
use std.Path.{subst}
use labcontainers.Prelude.{
  String, ◌≡◌, refl, sym, ap, ◌∙◌, ◌⊎◌, inl, inr, Result, ok, err, Bool, true, false, some, List,
  ◌∷◌, arith, if◌then◌else◌, ◌==◌, Bool-cases,
}
use labcontainers.Session.{Record}
use labcontainers.Session.Store.{save}
use labcontainers.Session.Store.Abstract.{
  stored, stored-save, after_save, stored-save_ok, stored-save_err, calls-save,
}
use labcontainers.World.{
  World, Call, Code, internal, invalid_argument, failed_precondition, validate, deploy,
  proof_isolation, Act, status, pure, continue, ◌>>=◌, ◌>>◌,
}
use labcontainers.World.Rules.{Post, bind-Post, recode-ok, recode-err, call-eq, called}
use labcontainers.Server.Records.Quiet.{event_quiet}
use labcontainers.Server.Records.{event}
use labcontainers.Server.Create.{failed, all_running, abandon, stage, start_session}

module _ (r : Record) (w : World) where
  -- Under every ID the store has what it had, or, under the session's, the failed record.
  abbrev pub MarkedFailed : World → Type 0
  MarkedFailed v =
      ((j : String) → stored v.sessions j ≡ stored w.sessions j)
      ⊎ ((j : String)
          → stored v.sessions j ≡ (if r.id == j then some (failed r) else stored w.sessions j))

  save-MarkedFailed :
      (v : World)
      → ((j : String) → stored v.sessions j ≡ stored w.sessions j)
      → MarkedFailed (save (failed r) v).1
  save-MarkedFailed v same = go (save (failed r) v).0 (stored-save (failed r) v)
    where
      go :
          (res : Result Code (Unit {0}))
          → ((j : String)
              → stored (save (failed r) v).1.sessions j
                ≡ after_save (failed r) res (stored v.sessions j) j)
          → MarkedFailed (save (failed r) v).1
      go (ok _) h = inr (λ j. h j ∙ rw (same j))
      go (err _) h = inl (λ j. h j ∙ same j)

  abandon_quiet :
      (started : Bool) (c : Code) (v : World)
      → ((abandon r started c v).0 ≡ err c)
        × ((abandon r started c v).1.sessions ≡ (save (failed r) v).1.sessions)
  unfolding abandon
  abandon_quiet started c v =
      let logged = event_quiet (failed r) "session.failed" (save (failed r) v).1 in
      ground (arith, logged)

  -- A stage that failed.
  abbrev Stopped : {A : Type 0} → Result Code A → World → Type 0
  Stopped res v = MarkedFailed v × ((c : Code) × (res ≡ err c))

  module _ (started : Bool) (c : Code) (k : Call) (v : World) where
    stage-ok : v.env.succeeds v.asked ≡ true → stage r started c k v ≡ (ok tt, called k v)
    unfolding stage ◌>>=◌
    stage-ok e = rw (call-eq k v, e)

    stage-err :
        v.env.succeeds v.asked ≡ false → stage r started c k v ≡ abandon r started c (called k v)
    unfolding stage ◌>>=◌
    stage-err e = rw (call-eq k v, e)

    stage-stop :
        v.env.succeeds v.asked ≡ false
        → stage r started c k v ≡ (err c, (abandon r started c (called k v)).1)
    stage-stop e =
        let left = abandon r started c (called k v) in
        stage-err e ∙ ap (λ res. (res, left.1)) (abandon_quiet started c (called k v)).0

    abandon-MarkedFailed :
        ((j : String) → stored v.sessions j ≡ stored w.sessions j)
        → MarkedFailed (abandon r started c (called k v)).1
    abandon-MarkedFailed same =
        let quiet = (abandon_quiet started c (called k v)).1 in
        elim (save-MarkedFailed (called k v) same) [
          | inl h ↦ inl (λ j. ap (λ s. stored s j) quiet ∙ h j)
          | inr h ↦ inr (λ j. ap (λ s. stored s j) quiet ∙ h j)
        ]

    module _ (Q : Result Code Record → World → Type 0) where
      -- What is left to show after one stage.
      stage-Post :
          (rest : Act Record)
          → ((j : String) → stored v.sessions j ≡ stored w.sessions j)
          → ((called k v).calls ≡ (k, true) ∷ v.calls → Post rest (called k v) Q)
          → (MarkedFailed (abandon r started c (called k v)).1
              → Q (err c) (abandon r started c (called k v)).1)
          → Post (stage r started c k >> rest) v Q
      unfolding ◌>>=◌
      stage-Post rest same good bad = elim (Bool-cases (v.env.succeeds v.asked)) [
        | inl e ↦
            subst (λ p. Q (continue p.0 (λ _. rest) p.1).0 (continue p.0 (λ _. rest) p.1).1)
              (sym (stage-ok e)) (good (ap (λ b. (k, b) ∷ v.calls) e))
        | inr e ↦
            subst (λ p. Q (continue p.0 (λ _. rest) p.1).0 (continue p.0 (λ _. rest) p.1).1)
              (sym (stage-stop e)) (bad (abandon-MarkedFailed same))
      ]

  module _ (isolated : List String) where
    -- The backend's calls of a deployment that succeeded, the newest first.
    abbrev pub deployed_calls : List (Call × Bool)
    deployed_calls =
        (proof_isolation r.name isolated, true)
        ∷ (deploy r.topology_path, true)
        ∷ (validate r.topology_path, true)
        ∷ w.calls

    abbrev pub Started : Result Code Record → World → Type 0
    Started (ok r') v =
        (r' ≡ all_running r)
        × (v.calls ≡ deployed_calls)
        × ((j : String)
            → stored v.sessions j
              ≡ (if r.id == j then some (all_running r) else stored w.sessions j))
    Started (err c) v = MarkedFailed v

    finish-Started :
        (v : World)
        → ((j : String) → stored v.sessions j ≡ stored w.sessions j)
        → v.calls ≡ deployed_calls
        → Post
            (do
              status internal (save (all_running r))
              event (all_running r) "session.running"
              pure (all_running r))
            v
            Started
    unfolding ◌>>=◌
    finish-Started v same calls =
        let saved = save (all_running r) v in
        let quiet = event_quiet (all_running r) "session.running" saved.1 in
        bind-Post Started (status internal (save (all_running r)))
          (λ _. do event (all_running r) "session.running"; pure (all_running r)) v
          (λ b e.
            bind-Post Started (event (all_running r) "session.running") (λ _. pure (all_running r))
              saved.1
              (λ b' e'. (
                refl,
                quiet.1 ∙ calls-save (all_running r) v ∙ calls,
                λ j.
                    ap (λ s. stored s j) quiet.0
                    ∙ stored-save_ok (all_running r) v j (recode-ok internal saved.0 e)
                    ∙ rw (same j),
              ))
              (λ c e'. (let no = sym quiet.2 ∙ e' in cc)))
          (λ c e.
            let (d, e') = recode-err internal saved.0 e in
            inl (λ j. stored-save_err (all_running r) v j e' ∙ same j))

    -- From any world: on success the backend has validated, deployed and proven isolated the
    -- session's lab, in this order and with no other call, and the record with every node running
    -- is stored under its ID and nothing else has changed; on any failure the store has what it had
    -- before, or the same record in the state "failed".
    pub start_session_outcome :
        Started (start_session r isolated w).0 (start_session r isolated w).1
    unfolding start_session
    start_session_outcome =
        let v1 = called (validate r.topology_path) w in
        let v2 = called (deploy r.topology_path) v1 in
        let v3 = called (proof_isolation r.name isolated) v2 in
        stage-Post false invalid_argument (validate r.topology_path) w Started _ (λ j. refl)
          (λ e1.
            stage-Post true internal (deploy r.topology_path) v1 Started _ (λ j. refl)
              (λ e2.
                stage-Post true failed_precondition (proof_isolation r.name isolated) v2 Started _
                  (λ j. refl)
                  (λ e3.
                    finish-Started v3 (λ j. refl)
                      (e3
                        ∙ ap (λ t. (proof_isolation r.name isolated, true) ∷ t)
                            (e2 ∙ ap (λ t. (deploy r.topology_path, true) ∷ t) e1)))
                  (λ m. m))
              (λ m. m))
          (λ m. m)
