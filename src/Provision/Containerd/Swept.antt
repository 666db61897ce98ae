-- ===== src/Provision/Containerd/Swept.antt =====
-- What is left on the nodes of an image archive that is carried to them.
use std.Path.{subst}
use labcontainers.Prelude.{
  String, ◌≡◌, refl, sym, ap, ◌⊎◌, inl, inr, ◌↔◌, Bool, true, false, not, ◌||◌, Option, none, some,
  List, [], ◌∷◌, ◌++◌, Result, ok, err, if◌then◌else◌,
}
use labcontainers.Actions.{continue, pure, fail, try, ◌>>=◌}
use labcontainers.Rig.{
  Event, Op, exec_op, put_op, Reply, History, Outside, Fault, command, invalid, mismatch, Cmd,
  replied, perform, exec, put,
}
use labcontainers.Provision.Containerd.{
  carried_archive, import_of, Failures, first_error, import_archive, after_put, carry_to, carry_all,
  succeed, carry_by, carry_archive,
}

abbrev outcome : String → Option String → Result Fault String
outcome output none = ok output
outcome output (some e) = err (command e)

ok-same : {x y : Failures} → Path (Result Fault Failures) (ok x) (ok y) → x ≡ y
ok-same e = cc

abbrev entry : String → Op → Reply → Event
entry node op r = record { node = node; op = op; reply = r }

module _ (archive : String) (argv : List String) where
  -- One node's turn: the archive was not received; or it was, and its import and its removal followed.
  abbrev pub Turn : String → History → History → Failures → Type 0
  Turn node h v failed =
      (sent : Reply) × (((cause : String) × (sent.error ≡ some cause)
          × (v ≡ entry node (put_op archive carried_archive 384) sent ∷ h)
          × (failed ≡ command cause ∷ []))
        ⊎ ((imported removed : Reply) × (sent.error ≡ none)
            × (v
                ≡ entry node (exec_op ("rm" ∷ "-f" ∷ carried_archive ∷ [])) removed
                  ∷ entry node (exec_op argv) imported
                  ∷ entry node (put_op archive carried_archive 384) sent
                  ∷ h)
            × (failed ≡ first_error (replied imported) (replied removed))))

module _ (o : Outside) (seeks : History → Bool) (archive : String) (argv : List String) where
  -- The nodes have their turns in order, each while the context is alive and the archive can be read
  -- again; the first time that one of these is not so ends the loop, and is a failure.
  abbrev pub Visited : List String → History → History → Failures → Type 0
  Visited [] h v failed = (v ≡ h) × (failed ≡ [])
  Visited (node ∷ nodes) h v failed =
      ((o.cancelled h ≡ true) ⊎ (seeks h ≡ false)) × (v ≡ h) × (failed ≡ mismatch ∷ [])
      ⊎ ((w : History) × (mine more : Failures) × (o.cancelled h ≡ false)
          × (seeks h ≡ true)
          × Turn archive argv node h w mine
          × Visited nodes w v more
          × (failed ≡ mine ++ more))

  -- The loop returns its failures.
  abbrev pub Gave : List String → Result Fault Failures → History → History → Type 0
  Gave nodes r h v = (failed : Failures) × (r ≡ ok failed) × Visited nodes h v failed

  carry_to-Turn :
      (node : String) (h : History)
      → (failed : Failures) × ((carry_to o archive argv node h).0 ≡ ok failed)
        × Turn archive argv node h (carry_to o archive argv node h).1 failed
  unfolding carry_to after_put import_archive put exec perform try pure ◌>>=◌
  carry_to-Turn node h = go (o.answers h node op) (o.answers h node op).error refl
    where
      op : Op
      op = put_op archive carried_archive 384

      after : Reply → Option String → History → Result Fault Failures × History
      after r failing v =
          let received = continue (outcome r.output failing) (λ _. pure tt) v in
          after_put o argv node received.0 received.1

      go :
          (r : Reply) (failing : Option String)
          → r.error ≡ failing
          → (failed : Failures) × ((after r failing (entry node op r ∷ h)).0 ≡ ok failed)
            × Turn archive argv node h (after r failing (entry node op r ∷ h)).1 failed
      go r none e = (_, refl, (r, inr (_, _, e, refl, refl)))
      go r (some c) e = (command c ∷ [], refl, (r, inl (c, e, refl, refl)))

  add-Turn :
      (nodes : List String) {node : String} {h : History} (mine : Failures) (v : History)
      → o.cancelled h ≡ false
      → seeks h ≡ true
      → Turn archive argv node h v mine
      → (x : Result Fault Failures) (w : History) (others : Failures) → x ≡ ok others
      → Visited nodes v w others
      → (let end = continue x (λ more. pure (mine ++ more)) w in Gave (node ∷ nodes) end.0 h end.1)
  unfolding pure
  add-Turn nodes mine v alive good turn (err c) w others e visited = cc
  add-Turn nodes mine v alive good turn (ok f) w others e visited = (
    mine ++ f,
    refl,
    inr (v, mine, f, alive, good, turn, subst (Visited nodes v w) (sym (ok-same e)) visited, refl),
  )

  carry_all-Visited :
      (nodes : List String) (h : History)
      → Gave nodes
          (carry_all o seeks archive argv nodes h).0
          h
          (carry_all o seeks archive argv nodes h).1
  unfolding carry_all pure ◌>>=◌
  carry_all-Visited [] h = ([], refl, (refl, refl))
  carry_all-Visited (node ∷ nodes) h =
      go (o.cancelled h) (seeks h) refl refl (carry_to o archive argv node h).0
        (carry_to o archive argv node h).1 (carry_to-Turn node h) (λ v. carry_all-Visited nodes v)
    where
      rest : Cmd Failures
      rest = carry_all o seeks archive argv nodes

      go :
          (late can : Bool)
          → o.cancelled h ≡ late
          → seeks h ≡ can
          → (r : Result Fault Failures) (v : History)
          → (failed : Failures) × (r ≡ ok failed) × Turn archive argv node h v failed
          → ((w : History) → Gave nodes (rest w).0 w (rest w).1)
          → (let end =
                if late || not can
                then (ok (mismatch ∷ []), h)
                else continue r (λ failed. rest >>= λ more. pure (failed ++ more)) v in
              Gave (node ∷ nodes) end.0 h end.1)
      go true can e e' r v turn again = (mismatch ∷ [], refl, inl (inl e, refl, refl))
      go false false e e' r v turn again = (mismatch ∷ [], refl, inl (inr e', refl, refl))
      go false true late can (err c) v (mine, e, turn) again = cc
      go false true late can (ok f) v (mine, e, turn) again =
          let (others, e', visited) = again v in
          add-Turn nodes f v late can (subst (Turn archive argv node h v) (sym (ok-same e)) turn)
            (rest v).0 (rest v).1 others e' visited

abbrev pub Swept :
    Outside
    → (History → Bool)
    → String
    → List String
    → Option (List String)
    → History
    → Result Fault (Unit {0}) × History
    → Type 0
Swept o seeks archive nodes none h (r, v) = (r ≡ err invalid) × (v ≡ h)
Swept o seeks archive nodes (some argv) h (r, v) =
    (failed : Failures) × Visited o seeks archive argv nodes h v failed
    × ((r ≡ ok tt) ↔ (failed ≡ []))

succeed_iff :
    (failed : Failures) (v : History)
    → (((succeed failed v).0 ≡ ok tt) ↔ (failed ≡ [])) × ((succeed failed v).1 ≡ v)
unfolding pure fail
succeed_iff [] v = ((λ _. refl, λ _. refl), refl)
succeed_iff (e ∷ es) v = ((λ bad. cc, λ bad. cc), refl)

carry_by-Swept :
    (o : Outside) (seeks : History → Bool) (archive : String) (argv : Option (List String))
    (nodes : List String) (h : History)
    → Swept o seeks archive nodes argv h (carry_by o argv seeks archive nodes h)
unfolding carry_by fail ◌>>=◌
carry_by-Swept o seeks archive none nodes h = (refl, refl)
carry_by-Swept o seeks archive (some argv) nodes h =
    let (failed, e, visited) = carry_all-Visited o seeks archive argv nodes h in
    let v = (carry_all o seeks archive argv nodes h).1 in
    let (yes', same) = succeed_iff failed v in
    let run' : (carry_by o (some argv) seeks archive nodes h) ≡ succeed failed v =
      ap (λ r. continue r (λ f. succeed f) v) e in
    subst (λ p. Swept o seeks archive nodes (some argv) h p) (sym run')
      (failed, subst (λ x. Visited o seeks archive argv nodes h x failed) (sym same) visited, yes')

-- However CarryArchive ends: a command that does not read from "-" is refused, and nothing is done; or
-- the nodes have their turns in order, each with the context alive and an archive that can be read
-- again, up to the first node where one of these is not so, which is a failure. A node that received
-- the archive has it imported and then its removal asked for, whether or not the import works.
-- CarryArchive succeeds exactly where nothing has failed.
pub carry_archive-Swept :
    (o : Outside) (seeks : History → Bool) (archive : String) (import_argv nodes : List String)
    (h : History)
    → Swept o seeks archive nodes
        (import_of import_argv)
        h
        (carry_archive o seeks archive import_argv nodes h)
unfolding carry_archive
carry_archive-Swept o seeks archive import_argv nodes h =
    carry_by-Swept o seeks archive (import_of import_argv) nodes h
