-- ===== src/Server/Apply/Calm.antt =====
-- What the review of a plan calls of the backend: nothing that changes the runtime.
use mathlib.Core.List.{append_assoc}
use labcontainers.Prelude.{
  String, ◌≡◌, refl, sym, ap, ◌∙◌, Bool, true, false, List, [], ◌∷◌, ◌++◌, All, arith,
}
use labcontainers.Session.{Record, Node}
use labcontainers.Session.Store.{save}
use labcontainers.Session.Store.Abstract.{calls-save}
use labcontainers.Prelude.{Map}
use labcontainers.Spec.Native.{Bytes, ApplyResult}
use labcontainers.Spec.Prepare.{Prepared}
use labcontainers.Actions.Keeps.{Keeps, bind-Keeps, demand-Keeps}
use labcontainers.Actions.Rules.{bind-Post}
use labcontainers.World.{
  World, Code, Call, validate, plan, internal, invalid_argument, failed_precondition, Act, ask, os,
  answer, call, status, require, demand, gets, pure, fail, ◌>>=◌,
}
use labcontainers.Server.Bootstrap.{write_file}
use labcontainers.Server.Records.{event, random_id}
use labcontainers.Server.Records.Quiet.{event_quiet, random_id_quiet}
use labcontainers.Server.Apply.{
  same_result, check_plan, compare_plan, record_review, write_evidence, review, reconciling,
}

abbrev pub calls_of : World → List (Call × Bool)
calls_of w = w.calls

abbrev pub Asks : Call × Bool → Type 0
Asks (validate path, done) = Unit
Asks (plan path, done) = Unit
Asks (_, done) = ⊥

-- Since `w` the backend was asked to validate and to plan at most.
abbrev pub Undeployed : World → World → Type 0
Undeployed w v = (new : List (Call × Bool)) × (v.calls ≡ new ++ w.calls) × All Asks new

All-append : (xs ys : List (Call × Bool)) → All Asks xs → All Asks ys → All Asks (xs ++ ys)
All-append [] ys p q = q
All-append (x ∷ xs) ys p q = (p.0, All-append xs ys p.1 q)

abbrev Calm : {A : Type 0} → Act A → Type 0
Calm m = (w : World) → Undeployed w (m w).1

Keeps-Calm : {A : Type 0} (m : Act A) → Keeps calls_of m → Calm m
Keeps-Calm m keeps w = ([], keeps w, tt)

bind-Calm :
    {A B : Type 0} (m : Act A) (f : A → Act B) → Calm m → ((a : A) → Calm (f a)) → Calm (m >>= f)
bind-Calm m f first then' w =
    bind-Post (λ _ v. Undeployed w v) m f w
      (λ a _. both (m w).1 (f a (m w).1).1 (first w) (then' a (m w).1)) (λ _ _. first w)
  where
    both : (x y : World) → Undeployed w x → Undeployed x y → Undeployed w y
    both x y (new, e, p) (more, e', p') = (
      more ++ new,
      e' ∙ ap (λ c. more ++ c) e ∙ sym (append_assoc more new w.calls),
      All-append more new p' p,
    )

require-calls : (b : Bool) (c : Code) (w : World) → (require b c w).1.calls ≡ w.calls
unfolding require pure fail
require-calls true c w = refl
require-calls false c w = refl

status-Calm : {A : Type 0} (c : Code) (m : Act A) → Calm m → Calm (status c m)
unfolding status
status-Calm c m calm w = calm w

call-Calm : (k : Call) → ((done : Bool) → Asks (k, done)) → Calm (call k)
unfolding call ask ◌>>=◌
call-Calm k asks w =
    let done = w.env.succeeds w.asked in ((k, done) ∷ [], require-calls done _ _, (asks done, tt))

answer-Keeps : {A : Type 0} (f : _ → _ → A) → Keeps calls_of (answer f)
unfolding answer
answer-Keeps f w = refl

status-Keeps : {A : Type 0} (c : Code) (m : Act A) → Keeps calls_of m → Keeps calls_of (status c m)
unfolding status
status-Keeps c m keeps w = keeps w

check_plan-Keeps : (r : Record) (b : Bool) → Keeps calls_of (check_plan r b)
unfolding check_plan pure fail
check_plan-Keeps r true = λ w. refl
check_plan-Keeps r false =
    bind-Keeps calls_of (event r "topology.plan.changed") (λ _. fail failed_precondition)
      (λ w. (event_quiet r "topology.plan.changed" w).1) (λ _ w. refl)

pub os-Keeps : Keeps calls_of os
unfolding os ask ◌>>=◌
os-Keeps w = require-calls (w.env.succeeds w.asked) _ _

write_file-Keeps : (path : String) (content : Bytes) → Keeps calls_of (write_file path content)
unfolding write_file os ask require answer ◌>>=◌
write_file-Keeps path content w = ground arith

write_evidence-Keeps :
    (r : Record) (operation : String) (before desired raw : Bytes)
    → Keeps calls_of (write_evidence r operation before desired raw)
unfolding write_evidence
write_evidence-Keeps r operation before desired raw =
    bind-Keeps calls_of (write_file _ before) _ (write_file-Keeps _ before) (λ _.
      bind-Keeps calls_of (write_file _ desired) _ (write_file-Keeps _ desired)
        (λ _. write_file-Keeps _ raw))

pub record_review-Keeps :
    (r : Record) (p : Prepared) (nodes : Map Node) (before raw : Bytes)
    → Keeps calls_of (record_review r p nodes before raw)
unfolding record_review pure
record_review-Keeps r p nodes before raw =
    bind-Keeps calls_of (status internal random_id) _
      (status-Keeps internal random_id (λ w. (random_id_quiet w).1))
      (λ operation.
        bind-Keeps calls_of (status internal (write_evidence r operation before p.yaml raw)) _
          (status-Keeps internal (write_evidence r operation before p.yaml raw)
            (write_evidence-Keeps r operation before p.yaml raw))
          (λ _.
            bind-Keeps calls_of (status internal (save (reconciling r nodes))) _
              (status-Keeps internal (save (reconciling r nodes))
                (calls-save (reconciling r nodes)))
              (λ _ w. refl)))

compare_plan-Calm : (r : Record) (approved : ApplyResult) → Calm (compare_plan r approved)
unfolding compare_plan pure
compare_plan-Calm r approved =
    let check : Bytes → ApplyResult → Act Bytes =
      λ raw current. check_plan r (same_result approved current) >>= λ _. pure raw in
    let decode : Bytes → Act Bytes = λ raw.
      gets (λ v. v.env.libs) >>= λ libs. demand (libs.apply_result raw) internal >>= check raw in
    let rest : Act Bytes = answer (λ e n. e.bytes n) >>= decode in
    let ask_plan = call (plan r.topology_path) in
    let ask_valid = call (validate r.topology_path) in
    bind-Calm (status invalid_argument ask_valid)
      (λ _. status failed_precondition ask_plan >>= λ _. rest)
      (status-Calm invalid_argument ask_valid (call-Calm (validate r.topology_path) (λ done. tt)))
      (λ _.
        bind-Calm (status failed_precondition ask_plan) (λ _. rest)
          (status-Calm failed_precondition ask_plan (call-Calm (plan r.topology_path) (λ done. tt)))
          (λ _. Keeps-Calm rest (
            bind-Keeps calls_of (answer (λ e n. e.bytes n)) decode (answer-Keeps (λ e n. e.bytes n))
              (λ raw.
                bind-Keeps calls_of (gets (λ v. v.env.libs))
                  (λ libs. demand (libs.apply_result raw) internal >>= check raw) (λ w. refl)
                  (λ libs.
                    bind-Keeps calls_of (demand (libs.apply_result raw) internal) (check raw)
                      (demand-Keeps calls_of (libs.apply_result raw) internal)
                      (λ current.
                        bind-Keeps calls_of (check_plan r (same_result approved current))
                          (λ _. pure raw) (check_plan-Keeps r (same_result approved current))
                          (λ _ w. refl)))))))

pub review-Calm :
    (r : Record) (p : Prepared) (nodes : Map Node) (approved : ApplyResult) (before : Bytes)
    → Calm (review r p nodes approved before)
unfolding review
review-Calm r p nodes approved before =
    bind-Calm (compare_plan r approved) (record_review r p nodes before)
      (compare_plan-Calm r approved)
      (λ raw.
        Keeps-Calm (record_review r p nodes before raw) (record_review-Keeps r p nodes before raw))
