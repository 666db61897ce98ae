-- ===== src/Client/Steps.antt =====
-- What the steps of a client leave of its calls and of the references.

use mathlib.Core.List.{append_assoc}
use labcontainers.Prelude.{
  suc, String, ◌≡◌, refl, sym, ap, ◌∙◌, Bool, true, false, some, List, [], ◌∷◌, ◌++◌, lookup,
  insert, lookup-insert_self, Result, ok, err,
}
use labcontainers.Actions.{pure, fail, ignore, require, modify, ◌>>=◌, ◌>>◌}
use labcontainers.Actions.Rules.{Post, bind-Post}
use labcontainers.Client.{
  Rpc, destroy_rpc, PersistentRef, reference, Harness, Problem, broken, Step, attempt, rpc,
  drop_all, close, write_persistent_ref,
}

-- The history of calls grows, and the references stay.
abbrev pub Quiet : Harness → Harness → Type 0
Quiet h v = (v.files ≡ h.files) × ((later : List (Rpc × Bool)) × (v.rpcs ≡ later ++ h.rpcs))

pub require-files : (b : Bool) (e : Problem) (h : Harness) → (require b e h).1 ≡ h
unfolding require pure fail
require-files true e h = refl
require-files false e h = refl

pub drop_all-Quiet : (ids : List String) (h : Harness) → Quiet h (drop_all ids h).1
unfolding drop_all rpc ignore pure ◌>>=◌
drop_all-Quiet [] h = (refl, ([], refl))
drop_all-Quiet (id ∷ ids) h =
    let done = h.outside.succeeds h.asked in
    let x : Harness = record h {
      asked = suc h.asked;
      rpcs = (destroy_rpc id true, done) ∷ h.rpcs;
    } in
    let same = require-files done broken x in
    let (files, (later, grown)) = drop_all-Quiet ids (require done broken x).1 in
    (
      files ∙ ap (λ y. y.files) same,
      (
        later ++ (destroy_rpc id true, done) ∷ [],
        grown
            ∙ ap (λ y. later ++ y.rpcs) same
            ∙ sym (append_assoc later ((destroy_rpc id true, done) ∷ []) h.rpcs),
      ),
    )

pub close-Quiet : (h : Harness) → Quiet h (close h).1
unfolding close ◌>>=◌
close-Quiet h = drop_all-Quiet h.held (record h { held = [] })

-- A client that holds nothing destroys nothing.
pub close-empty : (h : Harness) → h.held ≡ [] → (close h).1.rpcs ≡ h.rpcs
unfolding close drop_all pure ◌>>=◌
close-empty h e = rw (e, drop_all) refl

pub attempt-same :
    (h : Harness)
    → ((attempt h).1.files ≡ h.files)
      × ((attempt h).1.rpcs ≡ h.rpcs)
      × ((attempt h).1.held ≡ h.held)
unfolding attempt
attempt-same h =
    let x : Harness = record h { asked = suc h.asked } in
    let same = require-files (h.outside.succeeds h.asked) broken x in
    (ap (λ y. y.files) same, ap (λ y. y.rpcs) same, ap (λ y. y.held) same)

-- A write of a reference, from where its files, calls and held sessions are those of `h`.
abbrev pub Written : String → PersistentRef → Harness → Result Problem (Unit {0}) → Harness → Type 0
Written path ref h (ok _) v =
    (lookup path v.files ≡ some (reference ref)) × (v.rpcs ≡ h.rpcs) × (v.held ≡ h.held)
Written path ref h (err e) v = (v.files ≡ h.files) × (v.rpcs ≡ h.rpcs) × (v.held ≡ h.held)

abbrev pub Like : Harness → Harness → Type 0
Like h x = (x.files ≡ h.files) × (x.rpcs ≡ h.rpcs) × (x.held ≡ h.held)

module _ (path : String) (ref : PersistentRef) (h : Harness) where
  after_attempt :
      (k : Step (Unit {0}))
      → ((x : Harness) → Like h x → Post k x (Written path ref h))
      → (x : Harness) → Like h x
      → Post (attempt >> k) x (Written path ref h)
  after_attempt k next x (files, rpcs, held) =
      let (files', rpcs', held') = attempt-same x in
      let like : Like h (attempt x).1 = (files' ∙ files, rpcs' ∙ rpcs, held' ∙ held) in
      bind-Post (Written path ref h) attempt (λ _. k) x (λ _ _. next (attempt x).1 like)
        (λ _ _. like)

  pub write-Written : Post (write_persistent_ref path ref) h (Written path ref h)
  unfolding write_persistent_ref
  write-Written =
      let place : Step (Unit {0}) =
        modify (λ x. record x { files = insert path (reference ref) x.files }) in
      let step6 =
        after_attempt place
          (λ x like. (lookup-insert_self path (reference ref) x.files, like.1, like.2)) in
      let step5 = after_attempt (attempt >> place) step6 in
      let step4 = after_attempt (attempt >> (attempt >> place)) step5 in
      let step3 = after_attempt (attempt >> (attempt >> (attempt >> place))) step4 in
      let step2 = after_attempt (attempt >> (attempt >> (attempt >> (attempt >> place)))) step3 in
      after_attempt (attempt >> (attempt >> (attempt >> (attempt >> (attempt >> place))))) step2 h
        (refl, refl, refl)
