-- ===== src/Kubernetes/K0s/Order.antt =====
-- The order in which a site is built: who serves before the next member joins.
use labcontainers.Prelude.{
  String, ◌≡◌, refl, sym, ap, ◌∙◌, ◌⊎◌, Bool, not, List, [], ◌∷◌, ◌++◌, ok, nat_eq, if◌then◌else◌,
}
use labcontainers.Actions.{pure, when, ◌>>=◌, ◌>>◌}
use labcontainers.Actions.Rules.{bind-run}
use labcontainers.Rig.{Cmd, exec_op, History, Outside, exec}
use labcontainers.Rig.Rules.{did, exec-ok, Grown, Grown-trans, Adds-when}
use labcontainers.Rig.Waiting.{Any, await_within-Attempted}
use labcontainers.Kubernetes.K0s.{
  Member, Site, is_controller, ready, installed, start, install, install_new, wait_ready,
  carry_token, deliver, unit_file,
}
use labcontainers.Kubernetes.K0s.Effects.{
  deliver-Adds, ready-Adds, installed-Adds, install_new-Adds,
}

-- Since `h`, the node's three probes have succeeded, in their order, and nothing came after them.
abbrev pub Serving : String → History → History → Type 0
Serving node h v =
    (status api kubeconfig : String) × (earlier : History) × Grown Any h earlier
    × (v
        ≡ did node (exec_op ("k0s" ∷ "kubeconfig" ∷ "admin" ∷ [])) kubeconfig
          ∷ did node (exec_op ("k0s" ∷ "kubectl" ∷ "get" ∷ "--raw" ∷ "/readyz" ∷ [])) api
          ∷ did node (exec_op ("k0s" ∷ "status" ∷ [])) status
          ∷ earlier)

-- Since `h`, the node's service was started, and nothing came after it.
abbrev pub Started : String → History → History → Type 0
Started node h v =
    (output : String) × (earlier : History) × Grown Any h earlier
    × (v ≡ did node (exec_op ("k0s" ∷ "start" ∷ [])) output ∷ earlier)

-- Since `h`, a first controller was serving, and just then it minted a token for the role.
abbrev pub Minted : String → String → History → History → Type 0
Minted first role h v =
    (w later : History) × (output : String) × Serving first h w
    × (v
        ≡ later
          ++ did first (exec_op ("k0s" ∷ "token" ∷ "create" ∷ "--role" ∷ role ∷ [])) output ∷ w)

-- Since `h`, one of the two units was found there.
abbrev pub Resumed : Member → History → History → Type 0
Resumed m h v =
    (unit output : String) × ((unit ≡ "k0scontroller") ⊎ (unit ≡ "k0sworker"))
    × ((later earlier : History) × Grown Any h earlier
        × (v
            ≡ later ++ did m.node (exec_op ("test" ∷ "-f" ∷ unit_file unit ∷ [])) output ∷ earlier))

-- How one member has joined, when `h` has become `v`: it had the service already, or got a token; in
-- both cases it was then started.
abbrev pub Joined : String → Member → History → History → Type 0
Joined first m h v = Started m.node h v × (Minted first m.role h v ⊎ Resumed m h v)

-- A controller serves before anyone else joins.
abbrev pub Settled : Member → History → History → Type 0
Settled m h v = if is_controller m then Serving m.node h v else v ≡ h

-- The members have joined one after the other, from `h` to `v`.
abbrev pub Admitted : String → List Member → History → History → Type 0
Admitted first [] h v = v ≡ h
Admitted first (m ∷ ms) h v =
    (joined settled : History) × Joined first m h joined
    × Settled m joined settled
    × Admitted first ms settled v

-- What a member's start has before it, since an earlier point.
pub Started-since :
    (node : String) (h w v : History) → Grown Any h w → Started node w v → Started node h v
Started-since node h w v before (output, earlier, grown, here) =
    (output, earlier, Grown-trans Any h w earlier before grown, here)

module _ (o : Outside) where
  ready-Serving :
      (node : String) (h : History) → (ready o node h).0 ≡ ok tt → Serving node h (ready o node h).1
  unfolding ready pure
  ready-Serving node h e =
      let status = "k0s" ∷ "status" ∷ [] in
      let api = "k0s" ∷ "kubectl" ∷ "get" ∷ "--raw" ∷ "/readyz" ∷ [] in
      let admin = "k0s" ∷ "kubeconfig" ∷ "admin" ∷ [] in
      let last : Cmd (Unit {0}) = exec o node admin >>= λ _. pure tt in
      let (a, first, step) = bind-run (exec o node status) (λ _. exec o node api >> last) h e in
      let v = (exec o node status h).1 in
      let (b, second, step') =
        bind-run (exec o node api) (λ _. last) v (sym (ap (λ r. r.0) step) ∙ e) in
      let w = (exec o node api v).1 in
      let (c, third, step'') =
        bind-run (exec o node admin) (λ _. pure tt) w (sym (ap (λ r. r.0) (step ∙ step')) ∙ e) in
      (
        a,
        b,
        c,
        h,
        ([], refl, tt),
        ap (λ r. r.1) (step ∙ step' ∙ step'')
            ∙ exec-ok o node admin w third
            ∙ ap (λ x. did node (exec_op admin) c ∷ x)
                (exec-ok o node api v second
                  ∙ ap (λ x. did node (exec_op api) b ∷ x) (exec-ok o node status h first)),
      )

  pub wait_ready-Serving :
      (s : Site) (node : String) (h : History)
      → (wait_ready o s node h).0 ≡ ok tt
      → Serving node h (wait_ready o s node h).1
  unfolding wait_ready
  wait_ready-Serving s node h e =
      let within = if nat_eq s.ready_within 0 then 300000000000 else s.ready_within in
      let (w, grown, done, same) =
        await_within-Attempted o within (ready o node) (ready-Adds Any o node (λ _ _. tt)) h e in
      let (status, api, admin, earlier, more, here) = ready-Serving node w done in
      (status, api, admin, earlier, Grown-trans Any h w earlier grown more, same ∙ here)

  pub start-Started :
      (node : String) (h : History)
      → (start o node h).0 ≡ ok tt
      → (output : String) × ((start o node h).1
          ≡ did node (exec_op ("k0s" ∷ "start" ∷ [])) output ∷ h)
  unfolding start pure
  start-Started node h e =
      let argv = "k0s" ∷ "start" ∷ [] in
      let (out, done, step) = bind-run (exec o node argv) (λ _. pure tt) h e in
      (out, ap (λ r. r.1) step ∙ exec-ok o node argv h done)

  pub install-Started :
      (joining : Bool) (m : Member) (h : History)
      → (install o joining m h).0 ≡ ok tt
      → Started m.node h (install o joining m h).1
  unfolding install
  install-Started joining m h e =
      let begin = start o m.node in
      let (there, done, step) =
        bind-run (installed o m.node) (λ there. when (not there) (install_new o joining m) >> begin)
          h e in
      let v = (installed o m.node h).1 in
      let new = when (not there) (install_new o joining m) in
      let (u, done', step') = bind-run new (λ _. begin) v (sym (ap (λ r. r.0) step) ∙ e) in
      let (out, here) = start-Started m.node (new v).1 (sym (ap (λ r. r.0) (step ∙ step')) ∙ e) in
      (
        out,
        (new v).1,
        Grown-trans Any h v (new v).1 (installed-Adds Any o m.node (λ _ _. tt) h) (
            Adds-when Any (not there) (install_new o joining m)
              (install_new-Adds Any o joining m (λ _ _. tt)) v),
        ap (λ r. r.1) (step ∙ step') ∙ here,
      )

  pub carry_token-Minted :
      (first : String) (m : Member) (h w : History)
      → Serving first h w
      → (carry_token o first m w).0 ≡ ok tt
      → Minted first m.role h (carry_token o first m w).1
  unfolding carry_token
  carry_token-Minted first m h w serving e =
      let argv = "k0s" ∷ "token" ∷ "create" ∷ "--role" ∷ m.role ∷ [] in
      let (out, done, step) = bind-run (exec o first argv) (deliver o m) w e in
      let (later, grown, any') = deliver-Adds Any o m out (λ _ _. tt) (exec o first argv w).1 in
      (
        w,
        later,
        out,
        serving,
        ap (λ r. r.1) step ∙ grown ∙ ap (λ x. later ++ x) (exec-ok o first argv w done),
      )
