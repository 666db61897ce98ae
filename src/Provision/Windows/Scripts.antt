-- ===== src/Provision/Windows/Scripts.antt =====
-- What a script in a Windows guest leaves behind.
use std.Path.{subst}
use labcontainers.Prelude.{
  ℕ, String, ◌≡◌, refl, sym, ap, ◌∙◌, Bool, true, false, Option, none, some, [], ◌∷◌, ◌++◌, Result,
  ok, err, nat_eq, ◌==◌, arith,
}
use labcontainers.Actions.{of_result, ◌>>=◌}
use labcontainers.Actions.Rules.{bind-Post, bind-run}
use labcontainers.Provision.Windows.{
  Answer, failed, missing, exited, Call, Calls, State, Guest, Trouble, broken, power_shell_command,
  output_of, well, booted, decoded, exec_with_timeout, run_script, decode, observe,
}

-- A script that ran well.
abbrev pub ran : Guest → ℕ → String → String → Call
ran g timeout script out = record {
  timeout = timeout;
  argv = power_shell_command g script;
  answer = exited 0 out;
}

-- The script's output was this state, of a boot with an identity.
abbrev pub Observed : Guest → ℕ → String → State → Calls → Calls → Type 0
Observed g timeout script s h v =
    (out : String) × (g.decode_json out ≡ some s)
    × ((s.boot_id == "") ≡ false)
    × (v ≡ ran g timeout script out ∷ h)

zero-eq : (n : ℕ) → nat_eq n 0 ≡ true → n ≡ 0
zero-eq n e = ground arith

well-ok :
    (b : Bool) (code : ℕ) (s : String) {out : String}
    → nat_eq code 0 ≡ b
    → well b s ≡ ok out
    → exited code s ≡ exited 0 out
well-ok true code s zero' e = let n = zero-eq code zero' in cc
well-ok false code s zero' e = cc

output-ok : (a : Answer) {out : String} → output_of a ≡ ok out → a ≡ exited 0 out
output-ok failed e = cc
output-ok missing e = cc
output-ok (exited code s) e = well-ok (nat_eq code 0) code s refl e

ok-same : {A : Type 0} {x y : A} → Path (Result Trouble A) (ok x) (ok y) → x ≡ y
ok-same e = cc

booted-ok :
    (b : Bool) (x : State) {s : State}
    → (x.boot_id == "") ≡ b
    → booted b x ≡ ok s
    → (some x ≡ some s) × ((s.boot_id == "") ≡ false)
booted-ok true x e e' = cc
booted-ok false x e e' =
    let x-s = ok-same e' in (ap some x-s, subst (λ y. (y.boot_id == "") ≡ false) x-s e)

decoded-ok :
    (o : Option State) {s : State} → decoded o ≡ ok s → (o ≡ some s) × ((s.boot_id == "") ≡ false)
decoded-ok none e = cc
decoded-ok (some x) e = booted-ok (x.boot_id == "") x refl e

of_result-ok :
    {A : Type 0} (r : Result Trouble A) (c : Trouble) (h : Calls) {a : A}
    → (of_result r c h).0 ≡ ok a
    → (r ≡ ok a) × ((of_result r c h).1 ≡ h)
unfolding of_result
of_result-ok (ok b) c h e = (e, refl)
of_result-ok (err d) c h e = cc

of_result-same :
    {A : Type 0} (r : Result Trouble A) (c : Trouble) (h : Calls) → (of_result r c h).1 ≡ h
unfolding of_result
of_result-same (ok b) c h = refl
of_result-same (err d) c h = refl

module _ (g : Guest) where
  pub run_script-ok :
      (timeout : ℕ) (script : String) (h : Calls) {out : String}
      → (run_script g timeout script h).0 ≡ ok out
      → (run_script g timeout script h).1 ≡ ran g timeout script out ∷ h
  unfolding run_script exec_with_timeout ◌>>=◌
  run_script-ok timeout script h e =
      let argv = power_shell_command g script in
      let a = g.answers h timeout argv in
      let call' : Answer → Call = λ x. record { timeout = timeout; argv = argv; answer = x } in
      let (well, same) = of_result-ok (output_of a) broken (call' a ∷ h) e in
      same ∙ ap (λ x. call' x ∷ h) (output-ok a well)

  pub observe-ok :
      (timeout : ℕ) (script : String) (h : Calls) {s : State}
      → (observe g timeout script h).0 ≡ ok s
      → Observed g timeout script s h (observe g timeout script h).1
  unfolding observe decode
  observe-ok timeout script h e =
      let (out, done, step) =
        bind-run (run_script g timeout script) (λ body. of_result (decode g body) broken) h e in
      let v = (run_script g timeout script h).1 in
      let (decodes, same) = of_result-ok (decode g out) broken v (sym (ap (λ r. r.0) step) ∙ e) in
      let (there, known) = decoded-ok (g.decode_json out) decodes in
      (out, there, known, ap (λ r. r.1) step ∙ same ∙ run_script-ok timeout script h done)

  pub run_script-adds :
      (timeout : ℕ) (script : String) (h : Calls)
      → (new : Calls) × ((run_script g timeout script h).1 ≡ new ++ h)
  unfolding run_script exec_with_timeout ◌>>=◌
  run_script-adds timeout script h =
      let argv = power_shell_command g script in
      let a = g.answers h timeout argv in
      let call' : Call = record { timeout = timeout; argv = argv; answer = a } in
      (call' ∷ [], of_result-same (output_of a) broken (call' ∷ h))

  -- What an observation adds, however it ends.
  pub observe-adds :
      (timeout : ℕ) (script : String) (h : Calls)
      → (new : Calls) × ((observe g timeout script h).1 ≡ new ++ h)
  unfolding observe
  observe-adds timeout script h =
      let v = (run_script g timeout script h).1 in
      let (new, grown) = run_script-adds timeout script h in
      bind-Post (λ _ x. (n : Calls) × (x ≡ n ++ h)) (run_script g timeout script)
        (λ body. of_result (decode g body) broken) h
        (λ out _. (new, of_result-same (decode g out) broken v ∙ grown)) (λ _ _. (new, grown))
