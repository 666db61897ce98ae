-- ===== src/Server/Lease/Sweep.antt =====
-- Scavenge and CleanupUnkept: the records that they pass over stay.

use labcontainers.Prelude.{
  ℕ, String, ◌≡◌, refl, sym, ap, ◌∙◌, ◌⊎◌, inl, inr, Result, ok, err, Bool, true, false, some, List,
  [], ◌∷◌, All, Map, if◌then◌else◌, ◌==◌, ◌&&◌, arith, eq_iff, Bool-cases,
}
use labcontainers.Session.{Record}
use labcontainers.Session.Store.{get, get_all, list, sort_by_id, insert_by_id}
use labcontainers.Session.Store.Abstract.{stored, remove-other, get_quiet, get_result}
use labcontainers.Spec.Prepare.{before}
use labcontainers.World.{
  World, Dir, Code, plain, destroy, os, gets, continue, call, try, pure, require, ◌>>=◌,
}
use labcontainers.World.Rules.{Post, bind-Post, call_quiet, os_quiet}
use labcontainers.Server.Records.{event}
use labcontainers.Server.Records.Quiet.{event_quiet}
use labcontainers.Server.Lease.{
  after_delete, after_destroy, collect, collect_all, is_live, scavenge, cleanup_unkept,
}

-- Each record lies in the directory of its own ID.
abbrev pub Filed : Map Dir → Type 0
Filed s = (id : String) (r : Record) → stored s id ≡ some r → r.id ≡ id

module _ (s : Map Dir) (j : String) where
  abbrev Same : {A : Type 0} → Result Code A → World → Type 0
  Same res v = stored v.sessions j ≡ stored s j

  after_destroy-Same :
      (kind : String) (r : Record) (res : Result Code (Unit {0})) (v : World)
      → (r.id == j) ≡ false
      → stored v.sessions j ≡ stored s j
      → Post (after_destroy kind r res) v Same
  unfolding after_destroy after_delete ◌>>=◌
  after_destroy-Same kind r (err c) v other same = same
  after_destroy-Same kind r (ok _) v other same =
      let logged = (event r kind v).1 in
      let quiet = event_quiet r kind v in ground (arith, quiet, remove-other r.id logged j other)

  collect-Same :
      (kind : String) (r : Record) (v : World)
      → (r.id == j) ≡ false
      → stored v.sessions j ≡ stored s j
      → Post (collect kind r) v Same
  unfolding collect ◌>>=◌
  collect-Same kind r v other same =
      let same' = ap (λ s. stored s j) (call_quiet (destroy r.topology_path) v) ∙ same in
      bind-Post Same (try (call (destroy r.topology_path))) (after_destroy kind r) v
        (λ res e. after_destroy-Same kind r res (call (destroy r.topology_path) v).1 other same')
        (λ c e. same')

  module _ (skip : Record → Bool) (kind : String) where
    one-Same :
        (r : Record) (v : World)
        → ((skip r ≡ true) ⊎ ((r.id == j) ≡ false))
        → stored v.sessions j ≡ stored s j
        → Post (if skip r then pure true else collect kind r) v Same
    unfolding pure
    one-Same r v (inl h) same = rw h same
    one-Same r v (inr h) same = elim (Bool-cases (skip r)) [
      | inl e ↦ rw e same
      | inr e ↦ rw e (collect-Same kind r v h same)
    ]

    collect_all-Same :
        (rs : List Record) (v : World)
        → All (λ r. (skip r ≡ true) ⊎ ((r.id == j) ≡ false)) rs
        → stored v.sessions j ≡ stored s j
        → Post (collect_all skip kind rs) v Same
    unfolding collect_all pure ◌>>=◌
    collect_all-Same [] v _ same = same
    collect_all-Same (r ∷ rs) v (h, hs) same =
        let one = if skip r then pure true else collect kind r in
        let same' = one-Same r v h same in
        bind-Post Same one (λ d. do rest ← collect_all skip kind rs; pure (d && rest)) v
          (λ d e.
            bind-Post Same (collect_all skip kind rs) (λ rest. pure (d && rest)) (one v).1
              (λ rest e'. collect_all-Same rs (one v).1 hs same')
              (λ c e'. collect_all-Same rs (one v).1 hs same'))
          (λ c e. same')

module _ (P : Record → Type 0) where
  insert_by_id-All : (r : Record) (rs : List Record) → P r → All P rs → All P (insert_by_id r rs)
  unfolding insert_by_id
  insert_by_id-All r [] p ps = (p, tt)
  insert_by_id-All r (x ∷ xs) p (q, qs) =
      elim (before r.id x.id)
        as (λ b. All P (elim b [ true ↦ r ∷ x ∷ xs | false ↦ x ∷ insert_by_id r xs ])) [
          | true ↦ (p, (q, qs))
          | false ↦ (q, insert_by_id-All r xs p qs)
        ]

  sort_by_id-All : (rs : List Record) → All P rs → All P (sort_by_id rs)
  unfolding sort_by_id
  sort_by_id-All [] ps = tt
  sort_by_id-All (r ∷ rs) (p, ps) = insert_by_id-All r (sort_by_id rs) p (sort_by_id-All rs ps)

module _ (s : Map Dir) where
  -- A listing changes nothing, and what it returns is stored.
  abbrev Listed : Result Code (List Record) → World → Type 0
  Listed (ok rs) v = (v.sessions ≡ s) × All (λ r. (id : String) × (stored s id ≡ some r)) rs
  Listed (err c) v = v.sessions ≡ s

  cons-Listed :
      (r : Record) (id : String)
      → stored s id ≡ some r
      → (res : Result Code (List Record)) (v : World) → Listed res v
      → Post (continue res (λ rs. pure (r ∷ rs))) v Listed
  unfolding pure
  cons-Listed r id found (ok rs) v (same, all) = (same, ((id, found), all))
  cons-Listed r id found (err c) v same = same

  get_all-Listed : (m : Map Dir) (v : World) → v.sessions ≡ s → Post (get_all m) v Listed
  unfolding get_all ◌>>=◌ pure
  get_all-Listed [] v same = (same, tt)
  get_all-Listed ((id, d) ∷ m) v same =
      let x = (get id v).1 in
      let same' = (get_quiet id v).0 ∙ same in
      bind-Post Listed (get id) (λ r. do rs ← get_all m; pure (r ∷ rs)) v
        (λ r e.
          cons-Listed r id (ap (λ t. stored t id) (sym same) ∙ get_result id v e) (get_all m x).0
            (get_all m x).1 (get_all-Listed m x same'))
        (λ c e. same')

  sort-Listed :
      (res : Result Code (List Record)) (v : World)
      → Listed res v
      → Post (continue res (λ rs. pure (sort_by_id rs))) v Listed
  unfolding pure
  sort-Listed (ok rs) v (same, all) =
      (same, sort_by_id-All (λ r. (id : String) × (stored s id ≡ some r)) rs all)
  sort-Listed (err c) v same = same

  list-Listed : (v : World) → v.sessions ≡ s → Post list v Listed
  unfolding list os ◌>>=◌
  list-Listed v same =
      bind-Post Listed os
        (λ _. do entries ← gets (λ w. w.sessions); rs ← get_all entries; pure (sort_by_id rs)) v
        (λ b e.
          let x = (os v).1 in
          sort-Listed (get_all x.sessions x).0 (get_all x.sessions x).1
            (get_all-Listed x.sessions x (os_quiet v ∙ same)))
        (λ c e. os_quiet v ∙ same)

  -- The records of a listing, each passed over or filed elsewhere than under `j`.
  passed :
      (skip : Record → Bool) (j : String) (r : Record)
      → Filed s
      → stored s j ≡ some r
      → skip r ≡ true
      → (rs : List Record) → All (λ r. (id : String) × (stored s id ≡ some r)) rs
      → All (λ r. (skip r ≡ true) ⊎ ((r.id == j) ≡ false)) rs
  passed skip j r filed found h [] all = tt
  passed skip j r filed found h (x ∷ xs) ((id, e), all) = (
    elim (Bool-cases (x.id == j)) [
      | inl same ↦ inl (let here = (eq_iff x.id j).0 same in let there = filed id x e in cc)
      | inr other ↦ inr other
    ],
    passed skip j r filed found h xs all,
  )

-- One of the loops: `j` names a record that it passes over.
module _ (skip : Record → Bool) (kind : String) (w : World) (filed : Filed w.sessions) (j : String)
    (r : Record) where
  swept :
      stored w.sessions j ≡ some r
      → skip r ≡ true
      → (res : Result Code (List Record)) (v : World) → Listed w.sessions res v
      → Post
          (continue res (λ rs. do done ← collect_all skip kind rs; require done plain))
          v
          (Same w.sessions j)
  unfolding ◌>>=◌ require
  swept found h (ok rs) v (same, all) =
      let m = collect_all skip kind rs in
      let kept =
        collect_all-Same w.sessions j skip kind rs v
          (passed w.sessions skip j r filed found h rs all) (ap (λ s. stored s j) same) in
      bind-Post (Same w.sessions j) m (λ done. require done plain) v
        (λ done e.
          elim done as (λ b. stored (require b plain (m v).1).1.sessions j ≡ stored w.sessions j) [
            | true ↦ kept
            | false ↦ kept
          ])
        (λ c e. kept)
  swept found h (err c) v same = ap (λ s. stored s j) same

  sweep-Same :
      stored w.sessions j ≡ some r
      → skip r ≡ true
      → Post
          (do rs ← list; done ← collect_all skip kind rs; require done plain)
          w
          (Same w.sessions j)
  unfolding ◌>>=◌
  sweep-Same found h = swept found h (list w).0 (list w).1 (list-Listed w.sessions w refl)

module _ (w : World) (filed : Filed w.sessions) (j : String) (r : Record) where
  -- In a store where each record lies in the directory of its own ID, a record that is kept is still
  -- stored after `cleanup_unkept`, whatever fails on the way.
  pub cleanup_unkept-kept :
      stored w.sessions j ≡ some r → r.kept ≡ true → stored (cleanup_unkept w).1.sessions j ≡ some r
  unfolding cleanup_unkept
  cleanup_unkept-kept found kept =
      sweep-Same (λ r. r.kept) "session.destroyed" w filed j r found kept ∙ found

  -- In such a store, a record whose time has not come is still stored after `scavenge`, whatever
  -- fails on the way.
  pub scavenge-live :
      (now : ℕ)
      → stored w.sessions j ≡ some r
      → is_live now r ≡ true
      → stored (scavenge now w).1.sessions j ≡ some r
  unfolding scavenge
  scavenge-live now found live =
      sweep-Same (is_live now) "session.expired" w filed j r found live ∙ found
