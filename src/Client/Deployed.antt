-- ===== src/Client/Deployed.antt =====
-- What a deployment that outlives its process leaves behind.

use labcontainers.Prelude.{
  suc, ◌/◌, String, ◌≡◌, refl, ap, ◌∙◌, ◌⊎◌, inl, inr, Bool, true, false, not, ◌&&◌, Option, none,
  some, List, [], ◌∷◌, ◌++◌, lookup, Result, ok, err, ◌==◌, arith,
}
use labcontainers.Actions.{pure, fail, finally, require, gets, ◌>>=◌, ◌>>◌}
use labcontainers.Actions.Rules.{Post, bind-Post, require-Post}
use labcontainers.Client.{
  Rpc, create_rpc, keep_rpc, destroy_rpc, Saved, reference, Harness, Problem, bad_options, exists,
  Step, attempt, connect, close, PersistentOptions, lifetime, is_absent, start_kept,
  deploy_persistent,
}
use labcontainers.Client.Steps.{close-Quiet, close-empty, attempt-same}
use labcontainers.Client.Started.{created, Inner, start_kept-Inner}

-- The session that the daemon creates, after a launch and a connection that succeed.
abbrev pub new_session : Harness → String
new_session h = h.outside.created (suc (suc h.asked))

-- The references are as they were; no session was created, or its destruction was asked for, after its
-- keeping. What follows is asked for by the closing of the client.
abbrev pub Cleaned : PersistentOptions → Harness → Harness → Type 0
Cleaned opts h v =
    (v.files ≡ h.files)
    × ((v.rpcs ≡ h.rpcs)
        ⊎ (v.rpcs ≡ (create_rpc (lifetime opts / 1000000000), false) ∷ h.rpcs)
        ⊎ ((kept done : Bool) × (later : List (Rpc × Bool)) × (v.rpcs
              ≡ later
                ++ (destroy_rpc (new_session h) false, done)
                  ∷ (keep_rpc (new_session h) (lifetime opts / 1000000000), kept)
                  ∷ (create_rpc (lifetime opts / 1000000000), true)
                  ∷ h.rpcs)))

abbrev pub Deployed : PersistentOptions → Harness → Result Problem String → Harness → Type 0
Deployed opts h (ok id) v =
    (lookup opts.ref_path h.files ≡ none)
    × (id ≡ new_session h)
    × ((socket : String) × (lookup opts.ref_path v.files
          ≡ some (reference (record { id = id; socket = socket })))
        × (v.rpcs
            ≡ (keep_rpc id (lifetime opts / 1000000000), true)
              ∷ (create_rpc (lifetime opts / 1000000000), true)
              ∷ h.rpcs))
Deployed opts h (err e) v = Cleaned opts h v

module _ (opts : PersistentOptions) where
  connect-ok :
      (h : Harness) {socket : String}
      → (connect h).0 ≡ ok socket
      → (let v = (connect h).1 in
          (v.files ≡ h.files)
          × (v.rpcs ≡ h.rpcs)
          × (v.held ≡ [])
          × (v.outside.created v.asked ≡ h.outside.created (suc h.asked)))
  unfolding connect attempt require pure fail ◌>>=◌
  connect-ok h e = ground arith

  connect-err :
      (h : Harness) {c : Problem}
      → (connect h).0 ≡ err c
      → (let v = (connect h).1 in (v.files ≡ h.files) × (v.rpcs ≡ h.rpcs))
  unfolding connect attempt require pure fail ◌>>=◌
  connect-err h e = ground arith

  attempt-created :
      (h : Harness) → (attempt h).1.outside.created (suc (attempt h).1.asked) ≡ new_session h
  unfolding attempt require pure fail
  attempt-created h = ground arith

  abbrev asked_of : Bool → Bool → String → List (Rpc × Bool) → List (Rpc × Bool)
  asked_of kept done id l =
      (destroy_rpc id false, done)
      ∷ (keep_rpc id (lifetime opts / 1000000000), kept)
      ∷ created opts true
      ∷ l

  -- Closing the client at the end.
  closed-Deployed :
      (h x : Harness)
      → lookup opts.ref_path h.files ≡ none
      → x.files ≡ h.files
      → x.rpcs ≡ h.rpcs
      → x.outside.created x.asked ≡ new_session h
      → (r : Result Problem String) (v : Harness) → Inner opts x r v
      → Deployed opts h r (close v).1
  closed-Deployed h x absent files rpcs new (ok id) v ((socket, own, saved, grown), held) =
      let (same, more) = close-Quiet v in
      (
        absent,
        own ∙ new,
        (
          socket,
          ap (λ f. lookup opts.ref_path f) same ∙ saved,
          close-empty v held
              ∙ grown
              ∙ ap (λ l. (keep_rpc id (lifetime opts / 1000000000), true) ∷ created opts true ∷ l)
                  rpcs,
        ),
      )
  closed-Deployed h x absent files rpcs new (err e) v (same, inl (failed, held)) =
      let (same', more) = close-Quiet v in
      (
        same' ∙ same ∙ files,
        inr (inl (close-empty v held ∙ failed ∙ ap (λ l. created opts false ∷ l) rpcs)),
      )
  closed-Deployed h x absent files rpcs new (err e) v (same, inr (kept, done, asked)) =
      let (same', (later, grown)) = close-Quiet v in
      (
        same' ∙ same ∙ files,
        inr (
            inr (
              kept,
              done,
              later,
              grown
                  ∙ ap (λ l. later ++ l) asked
                  ∙ ap (λ l. later ++ asked_of kept done (x.outside.created x.asked) l) rpcs
                  ∙ ap (λ i. later ++ asked_of kept done i h.rpcs) new,
            )),
      )

  started-Deployed :
      (h x : Harness)
      → lookup opts.ref_path h.files ≡ none
      → x.files ≡ h.files
      → x.rpcs ≡ h.rpcs
      → x.outside.created (suc x.asked) ≡ new_session h
      → Post (do socket ← connect; finally (start_kept opts socket) close) x (Deployed opts h)
  unfolding finally
  started-Deployed h x absent files rpcs new =
      bind-Post (Deployed opts h) connect (λ socket. finally (start_kept opts socket) close) x
        (λ socket e.
          let v = (connect x).1 in
          let (files', rpcs', held, next) = connect-ok x e in
          closed-Deployed h v absent (files' ∙ files) (rpcs' ∙ rpcs) (next ∙ new)
            (start_kept opts socket v).0 (start_kept opts socket v).1
            (start_kept-Inner opts v socket held))
        (λ c e. let (files', rpcs') = connect-err x e in (files' ∙ files, inl (rpcs' ∙ rpcs)))

  absent-none : (o : Option Saved) → is_absent o ≡ true → o ≡ none
  absent-none none e = refl
  absent-none (some s) e = cc

ok-same : {A : Type 0} {x y : A} → Path (Result Problem A) (ok x) (ok y) → x ≡ y
ok-same e = cc

-- DeployPersistent returns the session that the daemon created, which was kept and which nothing
-- was asked to destroy, with a reference to it where there was none; or it fails, the references
-- are as they were, and either no session was created, or the daemon was asked, after the creation
-- and the request to keep it, to destroy the session that it created.
pub deploy_persistent-Deployed :
    (opts : PersistentOptions) (h : Harness)
    → Deployed opts h (deploy_persistent opts h).0 (deploy_persistent opts h).1
unfolding deploy_persistent
deploy_persistent-Deployed opts h =
    let rest : Step String = connect >>= λ socket. finally (start_kept opts socket) close in
    let found = lookup opts.ref_path h.files in
    let guarded : Step String = require (is_absent found) exists >> (attempt >> rest) in
    require-Post (Deployed opts h) (not (opts.state_dir == "") && not (opts.ref_path == ""))
      bad_options
      (gets (λ x. lookup opts.ref_path x.files) >>= λ o.
        require (is_absent o) exists >> (attempt >> rest))
      h
      (λ named.
        bind-Post (Deployed opts h) (gets (λ x. lookup opts.ref_path x.files))
          (λ o. require (is_absent o) exists >> (attempt >> rest)) h
          (λ o e.
            require-Post (Deployed opts h) (is_absent o) exists (attempt >> rest) h
              (λ absent.
                let (files, rpcs, held) = attempt-same h in
                let none' = ok-same e ∙ absent-none opts o absent in
                bind-Post (Deployed opts h) attempt (λ _. rest) h
                  (λ _ _.
                    started-Deployed opts h (attempt h).1 none' files rpcs (attempt-created opts h))
                  (λ _ _. (files, inl rpcs)))
              (refl, inl refl))
          (λ c e. (refl, inl refl)))
      (refl, inl refl)
