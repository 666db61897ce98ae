-- ===== src/Client/Started.antt =====
-- What the start of a kept session leaves behind.

use labcontainers.Prelude.{
  suc, ◌/◌, String, ◌≡◌, refl, ap, ◌∙◌, ◌⊎◌, inl, inr, Bool, true, false, some, [], ◌∷◌, lookup,
  Result, ok, err, eq_refl, arith,
}
use labcontainers.Actions.{continue, pure, fail, try, ignore, require, ◌>>=◌, ◌>>◌}
use labcontainers.Actions.Rules.{Post, bind-Post}
use labcontainers.Client.{
  Rpc, create_rpc, keep_rpc, destroy_rpc, PersistentRef, reference, Harness, Problem, broken, Step,
  rpc, start, without, release, keep, destroy, write_persistent_ref, PersistentOptions, lifetime,
  or_destroy, start_kept,
}
use labcontainers.Client.Steps.{Written, write-Written}

-- The session has its reference, was created and then kept, and nothing destroyed it.
abbrev pub Kept : PersistentOptions → Harness → String → Harness → Type 0
Kept opts h id v =
    (socket : String) × (id ≡ h.outside.created h.asked)
    × (lookup opts.ref_path v.files ≡ some (reference (record { id = id; socket = socket })))
    × (v.rpcs
        ≡ (keep_rpc id (lifetime opts / 1000000000), true)
          ∷ (create_rpc (lifetime opts / 1000000000), true)
          ∷ h.rpcs)

module _ (opts : PersistentOptions) where
  abbrev pub created : Bool → Rpc × Bool
  created done = (create_rpc (lifetime opts / 1000000000), done)

  -- Where it fails: nothing was created, or the destruction of what was created was asked for.
  abbrev pub Undone : Harness → Harness → Type 0
  Undone h v =
      (v.files ≡ h.files)
      × (((v.rpcs ≡ created false ∷ h.rpcs) × (v.held ≡ []))
          ⊎ ((kept done : Bool) × (let id = h.outside.created h.asked in
                v.rpcs
                ≡ (destroy_rpc id false, done)
                  ∷ (keep_rpc id (lifetime opts / 1000000000), kept)
                  ∷ created true
                  ∷ h.rpcs)))

  -- What `start_kept` leaves, on a client that holds nothing else.
  abbrev pub Inner : Harness → Result Problem String → Harness → Type 0
  Inner h (ok id) v = Kept opts h id v × (v.held ≡ [])
  Inner h (err e) v = Undone h v

  -- A destruction is asked for, and the error returned.
  destroyed-Undone :
      (h x : Harness) (id : String) (e : Problem) (k : Unit {0} → Step String) (kept : Bool)
      → x.files ≡ h.files
      → id ≡ h.outside.created h.asked
      → x.rpcs ≡ (keep_rpc id (lifetime opts / 1000000000), kept) ∷ created true ∷ h.rpcs
      → Post (or_destroy id (err e) >>= k) x (Inner h)
  unfolding or_destroy destroy ignore rpc require release pure fail ◌>>=◌
  destroyed-Undone h x id e k kept files own rpcs = go (x.outside.succeeds x.asked)
    where
      logged : Bool → Harness
      logged done = record x { asked = suc x.asked; rpcs = (destroy_rpc id false, done) ∷ x.rpcs }

      logs :
          (done : Bool)
          → (logged done).rpcs
            ≡ (destroy_rpc (h.outside.created h.asked) false, done)
              ∷ (keep_rpc (h.outside.created h.asked) (lifetime opts / 1000000000), kept)
              ∷ created true
              ∷ h.rpcs
      logs done =
          ap (λ l. (destroy_rpc id false, done) ∷ l) rpcs
          ∙ ap
              (λ i.
                (destroy_rpc i false, done)
                ∷ (keep_rpc i (lifetime opts / 1000000000), kept)
                ∷ created true
                ∷ h.rpcs)
              own

      go :
          (done : Bool)
          → Undone h
              (continue
                (require done broken (logged done)).0
                (λ _. release id)
                (require done broken (logged done)).1).1
      go true = (files, inr (kept, true, logs true))
      go false = (files, inr (kept, false, logs false))

  written-Inner :
      (h x : Harness) (id socket : String)
      → id ≡ h.outside.created h.asked
      → x.files ≡ h.files
      → x.rpcs ≡ (keep_rpc id (lifetime opts / 1000000000), true) ∷ created true ∷ h.rpcs
      → x.held ≡ []
      → (r : Result Problem (Unit {0})) (v : Harness)
      → Written opts.ref_path (record { id = id; socket = socket }) x r v
      → Post (or_destroy id r >>= λ _. pure id) v (Inner h)
  unfolding or_destroy pure ◌>>=◌
  written-Inner h x id socket own files rpcs held (ok u) v (saved, same, same') =
      ((socket, own, saved, same ∙ rpcs), same' ∙ held)
  written-Inner h x id socket own files rpcs held (err e) v (same, same', same'') =
      destroyed-Undone h v id e (λ _. pure id) true (same ∙ files) own (same' ∙ rpcs)

  without_self : (id : String) → without id (id ∷ []) ≡ []
  unfolding without
  without_self id = rw (eq_refl id) refl

  kept :
      (h v : Harness) (id socket : String)
      → id ≡ h.outside.created h.asked
      → v.files ≡ h.files
      → v.rpcs ≡ (keep_rpc id (lifetime opts / 1000000000), true) ∷ created true ∷ h.rpcs
      → v.held ≡ []
      → Post
          (do
            or_destroy id (ok tt)
            written ← try (write_persistent_ref opts.ref_path (record { id = id; socket = socket }))
            or_destroy id written
            pure id)
          v
          (Inner h)
  unfolding or_destroy try pure ◌>>=◌
  kept h v id socket own files rpcs held =
      let ref : PersistentRef = record { id = id; socket = socket } in
      let end = write_persistent_ref opts.ref_path ref v in
      written-Inner h v id socket own files rpcs held end.0 end.1
        (write-Written opts.ref_path ref v)

  -- After the session was kept or not.
  kept-Inner :
      (h : Harness) (id socket : String) (done : Bool) (x : Harness)
      → id ≡ h.outside.created h.asked
      → x.files ≡ h.files
      → x.rpcs ≡ created true ∷ h.rpcs
      → x.held ≡ id ∷ []
      → (let y : Harness = record x {
        asked = suc x.asked;
        rpcs = (keep_rpc id (lifetime opts / 1000000000), done) ∷ x.rpcs;
      } in
          let ref : PersistentRef = record { id = id; socket = socket } in
          let m = continue (require done broken y).0 (λ _. release id) (require done broken y).1 in
          Post
            (do
              or_destroy id m.0
              written ← try (write_persistent_ref opts.ref_path ref)
              or_destroy id written
              pure id)
            m.1
            (Inner h))
  unfolding require release without pure fail
  kept-Inner h id socket false x own files rpcs held =
      destroyed-Undone h _ id broken _ false files own
        (ap (λ l. (keep_rpc id (lifetime opts / 1000000000), false) ∷ l) rpcs)
  kept-Inner h id socket true x own files rpcs held =
      let v : Harness = record x {
        asked = suc x.asked;
        rpcs = (keep_rpc id (lifetime opts / 1000000000), true) ∷ x.rpcs;
        held = without id x.held;
      } in
      kept h v id socket own files
        (ap (λ l. (keep_rpc id (lifetime opts / 1000000000), true) ∷ l) rpcs)
        (ap (without id) held ∙ without_self id)

  start-ok :
      (h : Harness) {id : String}
      → (start (lifetime opts) h).0 ≡ ok id
      → (let v = (start (lifetime opts) h).1 in
          (id ≡ h.outside.created h.asked)
          × (v.files ≡ h.files)
          × (v.rpcs ≡ created true ∷ h.rpcs)
          × (v.held ≡ id ∷ h.held))
  unfolding start rpc require pure fail ◌>>=◌
  start-ok h e = ground arith

  start-err :
      (h : Harness) {c : Problem}
      → (start (lifetime opts) h).0 ≡ err c
      → (let v = (start (lifetime opts) h).1 in
          (v.files ≡ h.files) × (v.rpcs ≡ created false ∷ h.rpcs) × (v.held ≡ h.held))
  unfolding start rpc require pure fail ◌>>=◌
  start-err h e = ground arith

  pub start_kept-Inner :
      (h : Harness) (socket : String) → h.held ≡ [] → Post (start_kept opts socket) h (Inner h)
  unfolding start_kept keep rpc try ◌>>=◌
  start_kept-Inner h socket held =
      bind-Post (Inner h) (start (lifetime opts)) _ h
        (λ id e.
          let v = (start (lifetime opts) h).1 in
          let (own, files, rpcs, held') = start-ok h e in
          kept-Inner h id socket (v.outside.succeeds v.asked) v own files rpcs
            (held' ∙ ap (λ l. id ∷ l) held))
        (λ c e. let (files, rpcs, held') = start-err h e in (files, inl (rpcs, held' ∙ held)))
