-- ===== src/Kubernetes/K0s/Effects.antt =====
-- What the operations on one node add to the history, for a property of all that is asked of it.
use labcontainers.Prelude.{
  String, Bool, true, not, Option, none, some, List, [], ◌∷◌, ◌++◌, ◌==◌, if◌then◌else◌,
}
use labcontainers.Prelude.FilePath.{◌⧺◌}
use labcontainers.Actions.{pure, try, require, demand, when}
use labcontainers.Text.{trim_space, without}
use labcontainers.Rig.{Event, Op, exec_op, put_op, Reply, Outside, invalid, mismatch, exec, put}
use labcontainers.Rig.Rules.{
  Adds, Adds-pure, Adds-fail, Adds-bind, Adds-exec, Adds-put, Adds-require, Adds-demand, Adds-if,
  Adds-when, Adds-try, Adds-await_within,
}
use labcontainers.Kubernetes.K0s.{
  Member, Site, config_path, token_path, is_controller, ready, write_config, install_service,
  has_unit, succeeds, installed, start, configure, install_args, install_new, install, wait_ready,
  carry_token, deliver, join_new, join_member, admit,
}

module _ (P : Event → Type 0) (o : Outside) where
  abbrev Of : String → Type 0
  Of node = (op : Op) (r : Reply) → P (record { node = node; op = op; reply = r })

  run-Adds : (node : String) (argv : List String) → Of node → Adds P (exec o node argv)
  run-Adds node argv on = Adds-exec P o node argv (on (exec_op argv))

  put-Adds :
      (node content path : String) (mode : _) → Of node → Adds P (put o node content path mode)
  put-Adds node content path mode on =
      Adds-put P o node content path mode (on (put_op content path mode))

  pub ready-Adds : (node : String) → Of node → Adds P (ready o node)
  unfolding ready
  ready-Adds node on = Adds-bind P (exec o node _) _ (run-Adds node _ on) (λ _.
      Adds-bind P (exec o node _) _ (run-Adds node _ on)
        (λ _. Adds-bind P (exec o node _) _ (run-Adds node _ on) (λ _. Adds-pure P tt)))

  pub wait_ready-Adds : (s : Site) (node : String) → Of node → Adds P (wait_ready o s node)
  unfolding wait_ready
  wait_ready-Adds s node on = Adds-await_within P o _ (ready o node) (ready-Adds node on)

  pub has_unit-Adds : (node unit : String) → Of node → Adds P (has_unit o node unit)
  unfolding has_unit
  has_unit-Adds node unit on =
      Adds-bind P (try (exec o node _)) (λ r. pure (succeeds r))
        (Adds-try P (exec o node _) (run-Adds node _ on)) (λ r. Adds-pure P (succeeds r))

  pub installed-Adds : (node : String) → Of node → Adds P (installed o node)
  unfolding installed
  installed-Adds node on =
      let worker = has_unit o node "k0sworker" in
      Adds-bind P (has_unit o node "k0scontroller") (λ there. if there then pure true else worker)
        (has_unit-Adds node "k0scontroller" on)
        (λ there.
          Adds-if P there (pure true) worker (Adds-pure P true) (has_unit-Adds node "k0sworker" on))

  start-Adds : (node : String) → Of node → Adds P (start o node)
  unfolding start
  start-Adds node on = Adds-bind P (exec o node _) _ (run-Adds node _ on) (λ _. Adds-pure P tt)

  write_config-Adds :
      (node filename : String) (encoded : Option String)
      → Of node
      → Adds P (write_config o node filename encoded)
  unfolding write_config
  write_config-Adds node filename encoded on =
      Adds-bind P (require _ invalid) _ (Adds-require P _ invalid) (λ _.
        Adds-bind P (demand encoded invalid) _ (Adds-demand P encoded invalid) (λ d.
          Adds-bind P (exec o node _) _ (run-Adds node _ on)
            (λ _. put-Adds node d filename 384 on)))

  configure-Adds : (m : Member) (c : Option (Option String)) → Of m.node → Adds P (configure o m c)
  unfolding configure
  configure-Adds m none on = Adds-pure P {A = List String} []
  configure-Adds m (some encoded) on =
      Adds-bind P (write_config o m.node config_path encoded) _
        (write_config-Adds m.node config_path encoded on)
        (λ _. Adds-pure P (("--config=" ⧺ config_path) ∷ []))

  install_service-Adds :
      (node : String) (args : List String) → Of node → Adds P (install_service o node args)
  unfolding install_service
  install_service-Adds node [] on = Adds-fail P (Unit {0}) invalid
  install_service-Adds node (a ∷ as') on =
      Adds-bind P (exec o node _) _ (run-Adds node _ on) (λ _. Adds-pure P tt)

  pub install_new-Adds :
      (joining : Bool) (m : Member) → Of m.node → Adds P (install_new o joining m)
  unfolding install_new
  install_new-Adds joining m on =
      Adds-bind P (configure o m m.config) _ (configure-Adds m m.config on)
        (λ c. install_service-Adds m.node (install_args joining m ++ c) on)

  pub install-Adds : (joining : Bool) (m : Member) → Of m.node → Adds P (install o joining m)
  unfolding install
  install-Adds joining m on =
      Adds-bind P (installed o m.node) _ (installed-Adds m.node on) (λ there.
        Adds-bind P (when (not there) (install_new o joining m)) _
          (Adds-when P (not there) (install_new o joining m) (install_new-Adds joining m on))
          (λ _. start-Adds m.node on))

  pub deliver-Adds : (m : Member) (out : String) → Of m.node → Adds P (deliver o m out)
  unfolding deliver
  deliver-Adds m out on =
      let token = trim_space (without 13 out) in
      Adds-bind P (require (not (token == "")) mismatch) _
        (Adds-require P (not (token == "")) mismatch)
        (λ _.
          Adds-bind P (exec o m.node _) _ (run-Adds m.node _ on)
            (λ _. put-Adds m.node token token_path 384 on))

  pub carry_token-Adds :
      (first : String) (m : Member) → Of first → Of m.node → Adds P (carry_token o first m)
  unfolding carry_token
  carry_token-Adds first m of_first on =
      Adds-bind P (exec o first _) (deliver o m) (run-Adds first _ of_first)
        (λ out. deliver-Adds m out on)

  join_new-Adds :
      (s : Site) (first : String) (m : Member)
      → Of first
      → Of m.node
      → Adds P (join_new o s first m)
  unfolding join_new
  join_new-Adds s first m of_first on =
      Adds-bind P (wait_ready o s first) _ (wait_ready-Adds s first of_first) (λ _.
        Adds-bind P (carry_token o first m) _ (carry_token-Adds first m of_first on)
          (λ _. install-Adds true m on))

  join_member-Adds :
      (s : Site) (first : String) (m : Member)
      → Of first
      → Of m.node
      → Adds P (join_member o s first m)
  unfolding join_member
  join_member-Adds s first m of_first on =
      let begin = start o m.node in
      let join' = join_new o s first m in
      Adds-bind P (installed o m.node) (λ there. if there then begin else join')
        (installed-Adds m.node on)
        (λ there.
          Adds-if P there begin join' (start-Adds m.node on) (join_new-Adds s first m of_first on))

  pub admit-Adds :
      (s : Site) (first : String) (m : Member) → Of first → Of m.node → Adds P (admit o s first m)
  unfolding admit
  admit-Adds s first m of_first on =
      Adds-bind P (join_member o s first m) _ (join_member-Adds s first m of_first on)
        (λ _. Adds-when P (is_controller m) (wait_ready o s m.node) (wait_ready-Adds s m.node on))
