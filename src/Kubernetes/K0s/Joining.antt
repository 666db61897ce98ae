-- ===== src/Kubernetes/K0s/Joining.antt =====
-- How one member of a site joins, in a part of the history of its own.
use std.Path.{subst}
use mathlib.Core.List.{append_assoc}
use labcontainers.Prelude.{
  String, ◌≡◌, refl, sym, ap, ◌∙◌, inl, inr, Bool, true, false, [], ◌∷◌, ◌++◌, Result, ok, err,
  if◌then◌else◌, arith,
}
use labcontainers.Actions.{pure, try, ◌>>=◌, ◌>>◌}
use labcontainers.Actions.Rules.{bind-run}
use labcontainers.Rig.{Event, Fault, Cmd, exec_op, History, Outside, exec}
use labcontainers.Rig.Rules.{did, exec-ok, Grown, Grown-trans}
use labcontainers.Rig.Waiting.{Any}
use labcontainers.Kubernetes.K0s.{
  Member, Site, unit_file, has_unit, succeeds, installed, start, install, wait_ready, carry_token,
  join_new, join_member,
}
use labcontainers.Kubernetes.K0s.Effects.{
  install-Adds, wait_ready-Adds, has_unit-Adds, installed-Adds, carry_token-Adds,
}
use labcontainers.Kubernetes.K0s.Preparation.{}
use labcontainers.Kubernetes.K0s.Order.{
  Minted, Resumed, Joined, Started-since, wait_ready-Serving, start-Started, install-Started,
  carry_token-Minted,
}

abbrev unit_event : String → String → String → Event
unit_event node unit output = did node (exec_op ("test" ∷ "-f" ∷ unit_file unit ∷ [])) output

succeeds-ok : (r : Result Fault String) → succeeds r ≡ true → (out : String) × (r ≡ ok out)
succeeds-ok (ok out) e = (out, refl)
succeeds-ok (err c) e = cc

Minted-later :
    (first role : String) (start new h : History)
    → Minted first role start h
    → Minted first role start (new ++ h)
Minted-later first role start new h (w, later, out, serving, s) =
    (w, new ++ later, out, serving, ap (λ x. new ++ x) s ∙ sym (append_assoc new later _))

Joined-since :
    (first : String) (m : Member) (h w v : History)
    → Grown Any h w
    → Joined first m w v
    → Joined first m h v
Joined-since first m h w v before (started, inl (x, later, out, serving, s)) =
    let (status, api, admin, earlier, grown, here) = serving in
    (
      Started-since m.node h w v before started,
      inl (
        x,
        later,
        out,
        (status, api, admin, earlier, Grown-trans Any h w earlier before grown, here),
        s,
      ),
    )
Joined-since first m h w v before (started, inr (unit, out, which, (later, earlier, grown, s))) = (
  Started-since m.node h w v before started,
  inr (unit, out, which, (later, earlier, Grown-trans Any h w earlier before grown, s)),
)

module _ (o : Outside) where
  has_unit-there :
      (node unit : String) (h : History)
      → (has_unit o node unit h).0 ≡ ok true
      → (out : String) × ((has_unit o node unit h).1 ≡ unit_event node unit out ∷ h)
  unfolding has_unit try pure ◌>>=◌
  has_unit-there node unit h e =
      let argv = "test" ∷ "-f" ∷ unit_file unit ∷ [] in
      let (out, there) = succeeds-ok (exec o node argv h).0 (ground arith) in
      (out, exec-ok o node argv h there)

  installed-Resumed :
      (m : Member) (h : History)
      → (installed o m.node h).0 ≡ ok true
      → Resumed m h (installed o m.node h).1
  unfolding installed pure
  installed-Resumed m h e =
      let worker = has_unit o m.node "k0sworker" in
      let (there, first, step) =
        bind-run (has_unit o m.node "k0scontroller") (λ b. if b then pure true else worker) h e in
      let v = (has_unit o m.node "k0scontroller" h).1 in
      subst (Resumed m h) (sym (ap (λ r. r.1) step))
        (go there v first refl (sym (ap (λ r. r.0) step) ∙ e))
    where
      go :
          (b : Bool) (v : History)
          → (has_unit o m.node "k0scontroller" h).0 ≡ ok b
          → v ≡ (has_unit o m.node "k0scontroller" h).1
          → ((if b then pure true else has_unit o m.node "k0sworker") v).0 ≡ ok true
          → Resumed m h ((if b then pure true else has_unit o m.node "k0sworker") v).1
      go true v first same e' =
          let (out, s) = has_unit-there m.node "k0scontroller" h first in
          ("k0scontroller", out, inl refl, ([], h, ([], refl, tt), same ∙ s))
      go false v first same e' =
          let (out, s) = has_unit-there m.node "k0sworker" v e' in
          (
            "k0sworker",
            out,
            inr refl,
            (
              [],
              v,
              subst (Grown Any h) (sym same)
                  (has_unit-Adds Any o m.node "k0scontroller" (λ _ _. tt) h),
              s,
            ),
          )

  join_new-Joined :
      (s : Site) (first : String) (m : Member) (h : History)
      → (join_new o s first m h).0 ≡ ok tt
      → Joined first m h (join_new o s first m h).1
  unfolding join_new
  join_new-Joined s first m h e =
      let begin : Cmd (Unit {0}) = install o true m in
      let (u, done, step) =
        bind-run (wait_ready o s first) (λ _. carry_token o first m >> begin) h e in
      let w = (wait_ready o s first h).1 in
      let (u', done', step') =
        bind-run (carry_token o first m) (λ _. begin) w (sym (ap (λ r. r.0) step) ∙ e) in
      let v = (carry_token o first m w).1 in
      let minted = carry_token-Minted o first m h w (wait_ready-Serving o s first h done) done' in
      let (new, grown, any') = install-Adds Any o true m (λ _ _. tt) v in
      let all = step ∙ step' in
      let before =
        Grown-trans Any h w v (wait_ready-Adds Any o s first (λ _ _. tt) h)
          (carry_token-Adds Any o first m (λ _ _. tt) (λ _ _. tt) w) in
      subst (Joined first m h) (sym (ap (λ r. r.1) all)) (
        Started-since m.node h v (install o true m v).1 before
            (install-Started o true m v (sym (ap (λ r. r.0) all) ∙ e)),
        inl (subst (Minted first m.role h) (sym grown) (Minted-later first m.role h new v minted)),
      )

  pub join_member-Joined :
      (s : Site) (first : String) (m : Member) (h : History)
      → (join_member o s first m h).0 ≡ ok tt
      → Joined first m h (join_member o s first m h).1
  unfolding join_member
  join_member-Joined s first m h e =
      let (there, done, step) =
        bind-run (installed o m.node)
          (λ there. if there then start o m.node else join_new o s first m) h e in
      subst (Joined first m h) (sym (ap (λ r. r.1) step))
        (go there (installed o m.node h).1 done refl (sym (ap (λ r. r.0) step) ∙ e))
    where
      go :
          (b : Bool) (v : History)
          → (installed o m.node h).0 ≡ ok b
          → v ≡ (installed o m.node h).1
          → ((if b then start o m.node else join_new o s first m) v).0 ≡ ok tt
          → Joined first m h ((if b then start o m.node else join_new o s first m) v).1
      go true v done same e' =
          let (out, here) = start-Started o m.node v e' in
          let (unit, output, which, (later, earlier, grown, s')) = installed-Resumed m h done in
          (
            (
              out,
              v,
              subst (Grown Any h) (sym same) (installed-Adds Any o m.node (λ _ _. tt) h),
              here,
            ),
            inr (
              unit,
              output,
              which,
              (
                did m.node (exec_op ("k0s" ∷ "start" ∷ [])) out ∷ later,
                earlier,
                grown,
                here ∙ ap (λ x. did m.node (exec_op ("k0s" ∷ "start" ∷ [])) out ∷ x) (same ∙ s'),
              ),
            ),
          )
      go false v done same e' =
          let before : Grown Any h v =
            subst (Grown Any h) (sym same) (installed-Adds Any o m.node (λ _ _. tt) h) in
          Joined-since first m h v (join_new o s first m v).1 before
            (join_new-Joined s first m v e')
