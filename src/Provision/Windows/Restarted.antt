-- ===== src/Provision/Windows/Restarted.antt =====
-- What a guest has told when its features count as installed.
use std.Path.{subst}
use mathlib.Core.List.{append_assoc}
use labcontainers.Prelude.{
  ℕ, zero, suc, String, ◌≡◌, refl, sym, ap, ◌∙◌, ◌⊎◌, inl, inr, Bool, true, false, List, [], ◌∷◌,
  ◌++◌, Result, ok, err, ◌==◌, if◌then◌else◌, arith,
}
use labcontainers.Actions.{pure, try, require, gets, ◌>>=◌, ◌>>◌}
use labcontainers.Actions.Rules.{bind-run, require-run, require-ok}
use labcontainers.Provision.Windows.{
  Calls, State, Guest, Trouble, refused, not_installed, reboot_forbidden, too_late, Ask, Options,
  all_features, install_script, probe_script, shutdown_script, or_default, is_some_name,
  has_deadlines, run_script, observe, is_back, await_reboot, reboot, after_install, ensure_features,
}
use labcontainers.Provision.Windows.Scripts.{ran, Observed, run_script-ok, observe-ok, observe-adds}

-- The last observation is after `h`, and has the features in a boot with another identity than before.
abbrev pub Back : Guest → List String → State → Calls → Calls → Type 0
Back g names before h v =
    (between : Calls) × (after : State) × (after.installed ≡ true)
    × ((after.boot_id == before.boot_id) ≡ false)
    × Observed g 15000000000 (probe_script names) after (between ++ h) v

-- The guest has been told to shut down, and was seen back since.
abbrev pub Restarted : Guest → List String → State → Calls → Calls → Type 0
Restarted g names before h v =
    (out : String) × Back g names before (ran g 15000000000 shutdown_script out ∷ h) v

abbrev pub Ensured : Guest → Options → Calls → Calls → Type 0
Ensured g options h v =
    (all_features options.names ≡ true)
    × ((before : State) × (w : Calls) × Observed g (or_default 480000000000 options.install_timeout)
          (install_script options.names options.include_management_tools) before h w
        × ((before.reboot_required ≡ false) × (before.installed ≡ true) × (v ≡ w)
            ⊎ (before.reboot_required ≡ true)
              × (options.allow_reboot ≡ true)
              × Restarted g options.names before w v))

module _ (g : Guest) where
  back-ok :
      (before : State) (r : Result Trouble State)
      → is_back g before r ≡ true
      → (after : State) × (r ≡ ok after)
        × (after.installed ≡ true)
        × ((after.boot_id == before.boot_id) ≡ false)
  back-ok before (ok after) e = (after, refl, ground arith, ground arith)
  back-ok before (err c) e = cc

  observed-Back :
      (names : List String) (before : State) (h : Calls)
      → is_back g before (observe g 15000000000 (probe_script names) h).0 ≡ true
      → Back g names before h (observe g 15000000000 (probe_script names) h).1
  observed-Back names before h e =
      let (after, seen, there, other) =
        back-ok before (observe g 15000000000 (probe_script names) h).0 e in
      ([], after, there, other, observe-ok g 15000000000 (probe_script names) h seen)

  Back-later :
      (names : List String) (before : State) (h v w : Calls)
      → (new : Calls) × (v ≡ new ++ h)
      → Back g names before v w
      → Back g names before h w
  Back-later names before h v w (new, grown)
        (between, after, there, other, (out, json, known, last)) =
      (
        between ++ new,
        after,
        there,
        other,
        (
          out,
          json,
          known,
          last
              ∙ ap (λ x. ran g 15000000000 (probe_script names) out ∷ x)
                  (ap (λ x. between ++ x) grown ∙ sym (append_assoc between new h)),
        ),
      )

  await_reboot-Back :
      (polls : ℕ) (names : List String) (before : State) (h : Calls)
      → (await_reboot g polls names before h).0 ≡ ok tt
      → Back g names before h (await_reboot g polls names before h).1
  unfolding await_reboot try pure ◌>>=◌
  await_reboot-Back zero names before h e =
      let seen = observe g 15000000000 (probe_script names) h in
      let (there, same) = require-ok (is_back g before seen.0) too_late seen.1 e in
      subst (Back g names before h) (sym same) (observed-Back names before h there)
  await_reboot-Back (suc polls) names before h e =
      go (is_back g before seen.0) refl (await_reboot-Back polls names before seen.1) e
    where
      seen : Result Trouble State × Calls
      seen = observe g 15000000000 (probe_script names) h

      go :
          (b : Bool)
          → is_back g before seen.0 ≡ b
          → ((await_reboot g polls names before seen.1).0 ≡ ok tt
              → Back g names before seen.1 (await_reboot g polls names before seen.1).1)
          → ((if b then pure tt else await_reboot g polls names before) seen.1).0 ≡ ok tt
          → Back g names before h
              ((if b then pure tt else await_reboot g polls names before) seen.1).1
      go true there again e' = observed-Back names before h there
      go false there again e' =
          Back-later names before h seen.1 (await_reboot g polls names before seen.1).1
            (observe-adds g 15000000000 (probe_script names) h) (again e')

  reboot-Restarted :
      (names : List String) (before : State) (h : Calls)
      → (reboot g names before h).0 ≡ ok tt
      → Restarted g names before h (reboot g names before h).1
  unfolding reboot
  reboot-Restarted names before h e =
      let wait : Ask (Unit {0}) = gets g.polls >>= λ polls. await_reboot g polls names before in
      let (out, done, step) = bind-run (run_script g 15000000000 shutdown_script) (λ _. wait) h e in
      let v = (run_script g 15000000000 shutdown_script h).1 in
      let (polls, is_polls, step') =
        bind-run (gets g.polls) (λ polls. await_reboot g polls names before) v
          (sym (ap (λ r. r.0) step) ∙ e) in
      let all = step ∙ step' in
      let back = await_reboot-Back polls names before v (sym (ap (λ r. r.0) all) ∙ e) in
      let same = run_script-ok g 15000000000 shutdown_script h done in
      subst (Restarted g names before h) (sym (ap (λ r. r.1) all))
        (out, subst (λ x. Back g names before x (await_reboot g polls names before v).1) same back)

  after_install-Ensured :
      (options : Options) (before : State) (w : Calls)
      → (after_install g options before w).0 ≡ ok tt
      → (let v = (after_install g options before w).1 in
          (before.reboot_required ≡ false) × (before.installed ≡ true) × (v ≡ w)
          ⊎ (before.reboot_required ≡ true)
            × (options.allow_reboot ≡ true)
            × Restarted g options.names before w v)
  unfolding after_install
  after_install-Ensured options before w e = go before.reboot_required refl e
    where
      guarded : Ask (Unit {0})
      guarded = require options.allow_reboot reboot_forbidden >> reboot g options.names before

      go :
          (b : Bool)
          → before.reboot_required ≡ b
          → ((if b then guarded else require before.installed not_installed) w).0 ≡ ok tt
          → (let v = ((if b then guarded else require before.installed not_installed) w).1 in
              (before.reboot_required ≡ false) × (before.installed ≡ true) × (v ≡ w)
              ⊎ (before.reboot_required ≡ true)
                × (options.allow_reboot ≡ true)
                × Restarted g options.names before w v)
      go true needed e' =
          let (allowed, step) =
            require-run options.allow_reboot reboot_forbidden (reboot g options.names before) w
              e' in
          inr (
            needed,
            allowed,
            subst (Restarted g options.names before w) (sym (ap (λ r. r.1) step))
                (reboot-Restarted options.names before w (sym (ap (λ r. r.0) step) ∙ e')),
          )
      go false needed e' =
          let (there, same) = require-ok before.installed not_installed w e' in
          inl (needed, there, same)

-- Where EnsureFeatures succeeds, every name is one of a feature, and the installation told that all are
-- installed and that no restart is needed; or it told that one is, the caller allows it, the guest was
-- told to shut down, and a later observation has all installed in a boot with another identity.
pub ensure_features-Ensured :
    (g : Guest) (options : Options) (h : Calls)
    → (ensure_features g options h).0 ≡ ok tt
    → Ensured g options h (ensure_features g options h).1
unfolding ensure_features
ensure_features-Ensured g options h e =
    let long = or_default 480000000000 options.install_timeout in
    let script = install_script options.names options.include_management_tools in
    let first = observe g long script in
    let last : Ask (Unit {0}) = first >>= after_install g options in
    let deadlines = require (has_deadlines options) refused >> last in
    let named = require (all_features options.names) refused >> deadlines in
    let (some', step1) = require-run (is_some_name options.names) refused named h e in
    let (features, step2) =
      require-run (all_features options.names) refused deadlines h
        (sym (ap (λ r. r.0) step1) ∙ e) in
    let two = step1 ∙ step2 in
    let (fits, step3) =
      require-run (has_deadlines options) refused last h (sym (ap (λ r. r.0) two) ∙ e) in
    let three = two ∙ step3 in
    let (before, done, step4) =
      bind-run first (after_install g options) h (sym (ap (λ r. r.0) three) ∙ e) in
    let w = (first h).1 in
    let all = three ∙ step4 in
    subst (Ensured g options h) (sym (ap (λ r. r.1) all)) (
      features,
      (
        before,
        w,
        observe-ok g long script h done,
        after_install-Ensured g options before w (sym (ap (λ r. r.0) all) ∙ e),
      ),
    )
