-- ===== src/Server/Apply/Agreed.antt =====
-- The comparison of a fresh plan with the approved one.

use labcontainers.Prelude.{◌≡◌, refl, sym, ap, ◌∙◌, Bool, true, false, some, ◌∷◌, Result, ok, suc}
use labcontainers.Session.{Record}
use labcontainers.Spec.Native.{Bytes, ApplyResult, Libs}
use labcontainers.Actions.Rules.{bind-run, demand-run}
use labcontainers.World.{
  World, Code, Call, validate, plan, internal, invalid_argument, failed_precondition, plain, Act,
  ask, answer, call, status, require, demand, recode, continue, gets, pure, fail, ◌>>=◌,
}
use labcontainers.Server.Records.{event}
use labcontainers.Server.Apply.{same_result, check_plan, compare_plan}

-- Validation and a fresh plan, which is the approved one, and no other call.
abbrev pub Agreed : Record → ApplyResult → World → World → Type 0
Agreed r approved w v =
    (current : ApplyResult) × (w.env.libs.apply_result (w.env.bytes (suc (suc w.asked)))
      ≡ some current)
    × (same_result approved current ≡ true)
    × (v.calls ≡ (plan r.topology_path, true) ∷ (validate r.topology_path, true) ∷ w.calls)

-- A call that an action starts with, where the whole succeeds.
called-run :
    {A : Type 0} (c : Code) (k : Call) (f : Unit {0} → Act A) (w : World) {a : A}
    → ((status c (call k) >>= f) w).0 ≡ ok a
    → (w.env.succeeds w.asked ≡ true)
      × ((status c (call k) >>= f) w
          ≡ f tt (record w { asked = suc w.asked; calls = (k, true) ∷ w.calls }))
unfolding status call ask require ◌>>=◌
called-run c k f w e = go (w.env.succeeds w.asked) e
  where
    go :
        (b : Bool) {a : _}
        → (continue
            (recode c
              (require b plain (record w { asked = suc w.asked; calls = (k, b) ∷ w.calls })).0)
            f
            (require b plain (record w { asked = suc w.asked; calls = (k, b) ∷ w.calls })).1).0
          ≡ ok a
        → (b ≡ true)
          × (continue
                (recode c
                  (require b plain (record w { asked = suc w.asked; calls = (k, b) ∷ w.calls })).0)
                f
                (require b plain (record w { asked = suc w.asked; calls = (k, b) ∷ w.calls })).1
              ≡ f tt (record w { asked = suc w.asked; calls = (k, true) ∷ w.calls }))
    go true e' = (refl, refl)
    go false e' = cc

check_plan-ok :
    (r : Record) (b : Bool) (w : World)
    → (check_plan r b w).0 ≡ ok tt
    → (b ≡ true) × ((check_plan r b w).1 ≡ w)
unfolding check_plan pure fail
check_plan-ok r true w e = (refl, refl)
check_plan-ok r false w e =
    let (u, done, step) =
      bind-run (event r "topology.plan.changed") (λ _. fail {A = Unit {0}} failed_precondition) w
        e in
    let bad = sym (ap (λ x. x.0) step) ∙ e in cc

pub ok-same : {A : Type 0} {x y : A} → Path (Result Code A) (ok x) (ok y) → x ≡ y
ok-same e = cc

known_plan :
    (libs : Libs) (raw : Bytes) {libs' : Libs} {raw' : Bytes} {current : ApplyResult}
    → Path (Result Code Libs) (ok libs) (ok libs')
    → Path (Result Code Bytes) (ok raw) (ok raw')
    → libs'.apply_result raw' ≡ some current
    → libs.apply_result raw ≡ some current
known_plan libs raw e e' known =
    let libs-same = ok-same e in let raw-same = ok-same e' in rw (libs-same, raw-same) known

pub compare_plan-Agreed :
    (r : Record) (approved : ApplyResult) (w : World) {raw : Bytes}
    → (compare_plan r approved w).0 ≡ ok raw
    → Agreed r approved w (compare_plan r approved w).1
unfolding compare_plan answer pure
compare_plan-Agreed r approved w e =
    let path = r.topology_path in
    let check : Bytes → ApplyResult → Act Bytes =
      λ raw current. check_plan r (same_result approved current) >>= λ _. pure raw in
    let decode : Bytes → Act Bytes = λ raw.
      gets (λ v. v.env.libs) >>= λ libs. demand (libs.apply_result raw) internal >>= check raw in
    let rest : Act Bytes = answer (λ e n. e.bytes n) >>= decode in
    let planned : Act Bytes = status failed_precondition (call (plan path)) >>= λ _. rest in
    let (valid, step1) = called-run invalid_argument (validate path) (λ _. planned) w e in
    let v = record w { asked = suc w.asked; calls = (validate path, true) ∷ w.calls } in
    let (fits, step2) =
      called-run failed_precondition (plan path) (λ _. rest) v (sym (ap (λ x. x.0) step1) ∙ e) in
    let x = record v { asked = suc v.asked; calls = (plan path, true) ∷ v.calls } in
    let two = step1 ∙ step2 in
    let (raw, is_raw, step3) =
      bind-run (answer (λ e n. e.bytes n)) decode x (sym (ap (λ x. x.0) two) ∙ e) in
    let y = (answer {A = Bytes} (λ e n. e.bytes n) x).1 in
    let three = two ∙ step3 in
    let (libs, is_libs, step4) =
      bind-run (gets (λ v. v.env.libs))
        (λ libs. demand (libs.apply_result raw) internal >>= check raw) y
        (sym (ap (λ x. x.0) three) ∙ e) in
    let four = three ∙ step4 in
    let (current, known, step5) =
      demand-run (libs.apply_result raw) internal (check raw) y (sym (ap (λ x. x.0) four) ∙ e) in
    let five = four ∙ step5 in
    let (u, checked, step6) =
      bind-run (check_plan r (same_result approved current)) (λ _. pure raw) y
        (sym (ap (λ x. x.0) five) ∙ e) in
    let (same, still) = check_plan-ok r (same_result approved current) y checked in
    (
      current,
      known_plan w.env.libs (w.env.bytes (suc (suc w.asked))) is_libs is_raw known,
      same,
      ap (λ x. x.1.calls) (five ∙ step6) ∙ ap (λ z. z.calls) still,
    )
