-- ===== src/Session/Store/Abstract.antt =====
-- The store as a map of records: what each operation does to it, whichever step fails.
use labcontainers.Prelude.{
  String, Map, ◌≡◌, ◌∙◌, ap, inl, inr, false, Option, none, some, lookup, insert, lookup-insert,
  lookup-insert_self, lookup-delete, arith, eq_iff, Result, ok, err, if◌then◌else◌, ◌==◌,
  Option-cases,
}
use labcontainers.Session.{Record}
use labcontainers.World.{World, Dir, Content, json, garbage, Code, plain}
use labcontainers.World.Rules.{tick}
use labcontainers.Session.Store.{
  save, get, remove, without_json, without_temp, remove_temp, write_removing, published, publish,
  write_temp,
}

abbrev pub recorded : Option Dir → Option Record
recorded none = none
recorded (some d) = elim d.session_json [
  | none ↦ none
  | some c ↦ elim c [ json r ↦ some r | garbage ↦ none ]
]

unfoldable pub stored : Map Dir → String → Option Record
stored s id = recorded (lookup id s)

-- What a write leaves under `j`, by its result.
abbrev pub after_save : Record → Result Code (Unit {0}) → Option Record → String → Option Record
after_save r (ok _) old j = if r.id == j then some r else old
after_save r (err _) old j = old

stored-set_temp :
    (s : Map Dir) (id j : String) (d : Dir) (t : Option Content)
    → lookup id s ≡ some d
    → stored (insert id (record d { temp = t }) s) j ≡ stored s j
unfolding stored
stored-set_temp s id j d t e = simp lookup-insert (ground (arith, eq_iff id j))

stored-without_temp : (s : Map Dir) (id j : String) → stored (without_temp id s) j ≡ stored s j
unfolding without_temp stored
stored-without_temp s id j = elim (Option-cases (lookup id s)) [
  | inl e ↦ rw (e, without_temp)
  | inr (d, e) ↦ rw (e, without_temp) (stored-set_temp s id j d none e)
]

stored-publish :
    (s : Map Dir) (r : Record) (j : String) (d : Dir)
    → stored (insert r.id (published r d) s) j ≡ (if r.id == j then some r else stored s j)
unfolding stored
stored-publish s r j d = simp lookup-insert (ground arith)

-- The three ways in which a write can end, for any statement about its result and the directories.
module _ (F : Result Code (Unit {0}) → Map Dir → Type 0) (r : Record) (d : Dir) where
  publish-cases :
      (v : World)
      → F (ok tt) (insert r.id (published r d) v.sessions)
      → F (err plain) v.sessions
      → F (publish r d v).0 (publish r d v).1.sessions
  unfolding publish
  publish-cases v done failed = ground arith

  write_temp-cases :
      (v : World)
      → (let s = insert r.id (record d { temp = some (json r) }) v.sessions in
          F (ok tt) (insert r.id (published r d) s) × F (err plain) s)
      → F (err plain) v.sessions
      → F (write_temp r d v).0 (write_temp r d v).1.sessions
  unfolding write_temp
  write_temp-cases v later failed =
      let s = insert r.id (record d { temp = some (json r) }) v.sessions in
      let v' = record (tick (tick v)) { sessions = s } in
      ground (arith, publish-cases v' later.0 later.1)

stored-remove_temp :
    (id j : String) (v : World) → stored (remove_temp id v).1.sessions j ≡ stored v.sessions j
unfolding remove_temp
stored-remove_temp id j v = ground (arith, stored-without_temp v.sessions id j)

module _ (r : Record) (d : Dir) (v : World) (j : String) where
  write_removing-stored :
      (o : Option Record)
      → stored (write_temp r d v).1.sessions j ≡ after_save r (write_temp r d v).0 o j
      → stored (write_removing r d v).1.sessions j ≡ after_save r (write_removing r d v).0 o j
  unfolding write_removing
  write_removing-stored o h = stored-remove_temp r.id j (write_temp r d v).1 ∙ h

-- A save that succeeds stores exactly its record under its ID; one that fails, at whatever step,
-- leaves every stored record as it was.
pub stored-save :
    (r : Record) (w : World) (j : String)
    → stored (save r w).1.sessions j ≡ after_save r (save r w).0 (stored w.sessions j) j
unfolding save
stored-save r w j = elim (Option-cases (lookup r.id w.sessions)) [
  | inl e ↦ rw (e, save)
  | inr (d, e) ↦
      let d' = record d { temp = some garbage } in
      let s1 = insert r.id d' w.sessions in
      let s2 = insert r.id (record d' { temp = some (json r) }) s1 in
      let F = λ (res : Result Code (Unit {0})) (s : Map Dir).
        stored s j ≡ after_save r res (stored w.sessions j) j in
      let same1 = stored-set_temp w.sessions r.id j d (some garbage) e in
      let same2 =
        stored-set_temp s1 r.id j d' (some (json r)) (lookup-insert_self r.id d' w.sessions)
        ∙ same1 in
      let v = record (tick w) { sessions = s1 } in
      let written =
        write_temp-cases F r d v (rw (← same2) (stored-publish s2 r j d), same2) same1 in
      rw (e, save)
        (ground (arith, same1, write_removing-stored r d v j (stored w.sessions j) written))
]

calls-publish : (r : Record) (d : Dir) (v : World) → (publish r d v).1.calls ≡ v.calls
unfolding publish
calls-publish r d v = ground arith

calls-write_temp : (r : Record) (d : Dir) (v : World) → (write_temp r d v).1.calls ≡ v.calls
unfolding write_temp
calls-write_temp r d v =
    let s = insert r.id (record d { temp = some (json r) }) v.sessions in
    ground (arith, calls-publish r d (record (tick (tick v)) { sessions = s }))

calls-write_removing : (r : Record) (d : Dir) (v : World) → (write_removing r d v).1.calls ≡ v.calls
unfolding write_removing remove_temp
calls-write_removing r d v = calls-write_temp r d v

-- A write calls nothing outside the file system.
pub calls-save : (r : Record) (w : World) → (save r w).1.calls ≡ w.calls
unfolding save
calls-save r w = elim (Option-cases (lookup r.id w.sessions)) [
  | inl e ↦ rw (e, save)
  | inr (d, e) ↦
      let s = insert r.id (record d { temp = some garbage }) w.sessions in
      rw (e, save) (ground (arith, calls-write_removing r d (record (tick w) { sessions = s })))
]

module _ (id : String) (w : World) where
  pub get_quiet : ((get id w).1.sessions ≡ w.sessions) × ((get id w).1.calls ≡ w.calls)
  unfolding get
  get_quiet = ground arith

  -- What a read returns is what is stored.
  pub get_result : {r : Record} → (get id w).0 ≡ ok r → stored w.sessions id ≡ some r
  unfolding get stored
  get_result h = ground arith

module _ (r : Record) (w : World) (j : String) where
  pub stored-save_ok :
      {u : Unit {0}}
      → (save r w).0 ≡ ok u
      → stored (save r w).1.sessions j ≡ (if r.id == j then some r else stored w.sessions j)
  stored-save_ok h = stored-save r w j ∙ ap (λ res. after_save r res (stored w.sessions j) j) h

  pub stored-save_err :
      {c : Code} → (save r w).0 ≡ err c → stored (save r w).1.sessions j ≡ stored w.sessions j
  stored-save_err h = stored-save r w j ∙ ap (λ res. after_save r res (stored w.sessions j) j) h

module _ (id : String) (w : World) where
  without_json-stored :
      (j : String) → (id == j) ≡ false → stored (without_json id w.sessions) j ≡ stored w.sessions j
  unfolding stored
  without_json-stored j other = elim (Option-cases (lookup id w.sessions)) [
    | inl e ↦ rw (e, without_json)
    | inr (d, e) ↦ rw (e, without_json, lookup-insert, other)
  ]

  pub remove-other :
      (j : String) → (id == j) ≡ false → stored (remove id w).1.sessions j ≡ stored w.sessions j
  unfolding remove stored
  remove-other j other = ground (arith, without_json-stored j other, lookup-delete id j w.sessions)

  pub remove-ok :
      (j : String) {u : Unit {0}}
      → (remove id w).0 ≡ ok u
      → stored (remove id w).1.sessions j ≡ (if id == j then none else stored w.sessions j)
  unfolding remove stored
  remove-ok j h = ground (arith, lookup-delete id j w.sessions)

  pub calls-remove : (remove id w).1.calls ≡ w.calls
  unfolding remove
  calls-remove = ground arith
