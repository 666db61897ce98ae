-- ===== src/Session/Store/Listing.antt =====
-- A listing needs every directory.
use labcontainers.Prelude.{
  String, ◌≡◌, sym, ap, ◌∙◌, ok, List, [], ◌∷◌, All, Map, some, lookup, ◌==◌, Bool-cases, inl, inr,
  eq_iff,
}
use labcontainers.Session.{Record}
use labcontainers.World.{World, Dir, os, gets, pure, ◌>>=◌}
use labcontainers.World.Rules.{bind-ok, os_quiet}
use labcontainers.Session.Store.{get, get_all, list, sort_by_id}
use labcontainers.Session.Store.Abstract.{stored, get_quiet, get_result}

module _ (s : Map Dir) where
  abbrev Readable : String × Dir → Type 0
  Readable e = (r : Record) × (stored s e.0 ≡ some r)

  get_all-Readable :
      (m : Map Dir) (v : World) {rs : List Record}
      → v.sessions ≡ s
      → (get_all m v).0 ≡ ok rs
      → All Readable m
  unfolding get_all
  get_all-Readable [] v same h = tt
  get_all-Readable ((id, d) ∷ m) v same h =
      let (r, found, h') = bind-ok (get id) (λ r. do rs ← get_all m; pure (r ∷ rs)) v h in
      let (rs, rest, _) = bind-ok (get_all m) (λ rs. pure (r ∷ rs)) (get id v).1 h' in
      (
        (r, ap (λ t. stored t id) (sym same) ∙ get_result id v found),
        get_all-Readable m (get id v).1 ((get_quiet id v).0 ∙ same) rest,
      )

  lookup-Readable :
      (m : Map Dir) (id : String) {d : Dir}
      → All Readable m
      → lookup id m ≡ some d
      → (r : Record) × (stored s id ≡ some r)
  unfolding lookup
  lookup-Readable [] id all h = cc
  lookup-Readable ((j, d') ∷ m) id ((r, found), all) h = elim (Bool-cases (j == id)) [
    | inl e ↦ let same = (eq_iff j id).0 e in (r, rw (← same) found)
    | inr e ↦ lookup-Readable m id all (rw e at h)
  ]

-- A listing that succeeds has read the record of every directory: one directory without a record
-- that can be read makes it fail.
pub list-readable :
    (w : World) (id : String) {d : Dir} {rs : List Record}
    → lookup id w.sessions ≡ some d
    → (list w).0 ≡ ok rs
    → (r : Record) × (stored w.sessions id ≡ some r)
unfolding list ◌>>=◌
list-readable w id found h =
    let (_, _, h') =
      bind-ok os
        (λ _. do entries ← gets (λ w. w.sessions); rs ← get_all entries; pure (sort_by_id rs)) w
        h in
    let v = (os w).1 in
    let (rs, h'', _) = bind-ok (get_all v.sessions) (λ rs. pure (sort_by_id rs)) v h' in
    lookup-Readable w.sessions v.sessions id
      (get_all-Readable w.sessions v.sessions v (os_quiet w) h'')
      (ap (lookup id) (os_quiet w) ∙ found)
