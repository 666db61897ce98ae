-- ===== src/Server/Lease/Destroy.antt =====
-- DestroySession: what is left of the session's record, and what was destroyed before.
use labcontainers.Prelude.{
  String, ◌≡◌, sym, ap, ◌∙◌, ◌⊎◌, inl, inr, Result, ok, err, true, false, none, some, ◌∷◌,
  if◌then◌else◌, ◌==◌, ◌&&◌, ◌||◌, not, arith,
}
use labcontainers.Session.{Record}
use labcontainers.Session.Store.{remove}
use labcontainers.Session.Store.Abstract.{stored, remove-other, remove-ok, calls-remove}
use labcontainers.World.{
  World, Code, internal, permission_denied, destroy, call, status, require, when, ◌>>=◌, ◌>>◌,
}
use labcontainers.World.Rules.{
  Post, bind-Post, last-Post, require-Post, when-Post, recode-ok, call_quiet,
}
use labcontainers.Server.Records.{record_of, event}
use labcontainers.Server.Records.Quiet.{record_of_quiet, record_of_result, event_quiet}
use labcontainers.Server.Lease.{DestroyRequest, tear_down, destroy_session}

module _ (r : Record) (w : World) where
  -- The runtime is gone, and the record of `r` with it.
  abbrev pub TornDown : World → Type 0
  TornDown v =
      (v.calls ≡ (destroy r.topology_path, true) ∷ w.calls)
      × ((j : String) → stored v.sessions j ≡ (if r.id == j then none else stored w.sessions j))

  -- No record has changed, or the runtime is gone and no other record has changed.
  abbrev pub HalfDown : World → Type 0
  HalfDown v =
      ((j : String) → stored v.sessions j ≡ stored w.sessions j)
      ⊎ ((v.calls ≡ (destroy r.topology_path, true) ∷ w.calls)
          × ((j : String) → (r.id == j) ≡ false → stored v.sessions j ≡ stored w.sessions j))

  abbrev pub TearDown : Result Code (Unit {0}) → World → Type 0
  TearDown (ok _) v = TornDown v
  TearDown (err c) v = HalfDown v

  call-destroy_ok :
      (v : World) {u : Unit {0}}
      → (status internal (call (destroy r.topology_path)) v).0 ≡ ok u
      → (call (destroy r.topology_path) v).1.calls ≡ (destroy r.topology_path, true) ∷ v.calls
  unfolding status call
  call-destroy_ok v h = ground arith

  -- The part of `tear_down` after the runtime's destruction.
  rest-TearDown :
      (v : World)
      → v.calls ≡ (destroy r.topology_path, true) ∷ w.calls
      → ((j : String) → stored v.sessions j ≡ stored w.sessions j)
      → Post (do event r "session.destroyed"; status internal (remove r.id)) v TearDown
  unfolding ◌>>=◌ status
  rest-TearDown v calls same =
      let logged = (event r "session.destroyed" v).1 in
      let quiet = event_quiet r "session.destroyed" v in
      let kept = λ (j : String). ap (λ s. stored s j) quiet.0 ∙ same j in
      let calls' = calls-remove r.id logged ∙ quiet.1 ∙ calls in
      bind-Post TearDown (event r "session.destroyed") (λ _. status internal (remove r.id)) v
        (λ b e.
          last-Post TearDown (status internal (remove r.id)) logged
            (λ u h. (
              calls',
              λ j.
                  remove-ok r.id logged j (recode-ok internal (remove r.id logged).0 h)
                  ∙ rw (kept j),
            ))
            (λ c h. inr (calls', λ j other. remove-other r.id logged j other ∙ kept j)))
        (λ c e. let clash = sym quiet.2 ∙ e in cc)

  pub tear_down_outcome :
      (v : World)
      → v.calls ≡ w.calls
      → ((j : String) → stored v.sessions j ≡ stored w.sessions j)
      → Post (tear_down r) v TearDown
  unfolding tear_down ◌>>=◌
  tear_down_outcome v calls same =
      let rest = (do event r "session.destroyed"; status internal (remove r.id)) in
      let same' =
        λ (j : String). ap (λ s. stored s j) (call_quiet (destroy r.topology_path) v) ∙ same j in
      bind-Post TearDown (status internal (call (destroy r.topology_path))) (λ _. rest) v
        (λ b e.
          rest-TearDown (call (destroy r.topology_path) v).1
            (call-destroy_ok v e ∙ ap (λ t. (destroy r.topology_path, true) ∷ t) calls) same')
        (λ c e. inl same')

module _ (req : DestroyRequest) (w : World) where
  -- `r` is the record that the request names, and the request may destroy it.
  abbrev pub Allowed : Record → Type 0
  Allowed r =
      (stored w.sessions req.id ≡ some r)
      × ((req.resume_token == "" || req.resume_token == r.resume_token) ≡ true)

  abbrev pub Destroyed : Result Code (Unit {0}) → World → Type 0
  Destroyed (ok _) v =
      (r : Record) × Allowed r
      × (((req.preserve_kept && r.kept) ≡ true × (v.sessions ≡ w.sessions) × (v.calls ≡ w.calls))
          ⊎ TornDown r w v)
  Destroyed (err c) v =
      ((v.sessions ≡ w.sessions) × (v.calls ≡ w.calls))
      ⊎ ((r : Record) × Allowed r × HalfDown r w v)

  Allowed-Destroyed :
      (r : Record) (v : World)
      → Allowed r
      → v.sessions ≡ w.sessions
      → v.calls ≡ w.calls
      → Post (when (not (req.preserve_kept && r.kept)) (tear_down r)) v Destroyed
  Allowed-Destroyed r v allowed sessions calls =
      when-Post Destroyed (not (req.preserve_kept && r.kept)) (tear_down r) v
        (λ h.
          weaken (tear_down r v).0 (tear_down r v).1
            (tear_down_outcome r w v calls (λ j. ap (λ s. stored s j) sessions)))
        (λ h. (r, allowed, inl (ground arith, sessions, calls)))
    where
      weaken : (res : Result Code (Unit {0})) (x : World) → TearDown r w res x → Destroyed res x
      weaken (ok _) x h = (r, allowed, inr h)
      weaken (err c) x h = inr (r, allowed, h)

  -- A session's record goes only after its runtime: where the request succeeds, it named a stored
  -- record, with its token or with an empty one, and either this is kept and was to be preserved,
  -- and nothing has changed, or the one call of the backend was the runtime's destruction, and
  -- this record is gone and no other. Where it fails, the store and the backend are as before, or
  -- the request was allowed and no record has changed, or the runtime is destroyed and no other
  -- record has changed.
  pub destroy_session_outcome : Destroyed (destroy_session req w).0 (destroy_session req w).1
  unfolding destroy_session ◌>>=◌
  destroy_session_outcome =
      let v = (record_of req.id w).1 in
      let quiet = record_of_quiet req.id w in
      bind-Post Destroyed (record_of req.id)
        (λ r. (do
          require (req.resume_token == "" || req.resume_token == r.resume_token) permission_denied
          when (not (req.preserve_kept && r.kept)) (tear_down r)))
        w
        (λ r e.
          require-Post Destroyed (req.resume_token == "" || req.resume_token == r.resume_token)
            permission_denied (when (not (req.preserve_kept && r.kept)) (tear_down r)) v
            (λ h. Allowed-Destroyed r v (record_of_result req.id w e, h) quiet.0 quiet.1)
            (inl quiet))
        (λ c e. inl quiet)
