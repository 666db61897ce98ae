-- ===== src/Kubernetes/K0s/Preparation.antt =====
-- Nothing is installed before every member carries the binary and has told its version.
use mathlib.Core.List.{append_assoc}
use labcontainers.Prelude.{
  String, ◌≡◌, refl, sym, ap, ◌∙◌, ◌⊎◌, inl, inr, Bool, true, false, ◌&&◌, ◌||◌, List, [], ◌∷◌,
  ◌++◌, ok, All, ◌==◌, eq_iff,
}
use labcontainers.Actions.{require, for_each, ◌>>◌, fail}
use labcontainers.Actions.Rules.{bind-run, bind-Post, require-run, require-ok, require-Post}
use labcontainers.Text.{trim_space}
use labcontainers.Rig.{
  Event, Op, exec_op, pipe_op, put_op, History, Outside, invalid, mismatch, exec, put,
}
use labcontainers.Rig.Waiting.{Any}
use labcontainers.Rig.Rules.{
  did, exec-ok, put-ok, Adds, Grown, All-append, Adds-bind, Adds-for_each, Adds-require, Adds-put,
  Adds-exec,
}
use labcontainers.Rig.Loops.{Seen, Seen-later, Seen-earlier, All-Seen, for_each-Each}
use labcontainers.Kubernetes.K0s.Effects.{install-Adds, wait_ready-Adds, admit-Adds}
use labcontainers.Kubernetes.K0s.{
  install, admit, wait_ready, Member, Site, binary_path, is_sound, is_controller, verify_version,
  carry, prepare, assemble, build_members, build,
}

abbrev mutates : List String → Bool
mutates [] = false
mutates (_ ∷ []) = false
mutates (c ∷ verb ∷ _) = c == "k0s" && (verb == "install" || verb == "start" || verb == "token")

abbrev changes : Op → Bool
changes (exec_op argv) = mutates argv
changes (pipe_op input argv) = mutates argv
changes (put_op content path mode) = false

-- Neither an installation, nor a start, nor a token.
abbrev pub Harmless : Event → Type 0
Harmless e = changes e.op ≡ false

abbrev pub Carried : Site → Member → History → Type 0
Carried s m h = (output : String) × Seen (did m.node (put_op s.binary binary_path 493) output) h

abbrev pub Versioned : Site → Member → History → Type 0
Versioned s m h =
    (output : String) × (trim_space output ≡ s.version)
    × Seen (did m.node (exec_op ("k0s" ∷ "version" ∷ [])) output) h

-- `v` is after `h`, with all members checked in between and nothing installed.
abbrev pub Checked : Site → List Member → History → History → Type 0
Checked s ms h v =
    (new : History) × (v ≡ new ++ h)
    × All Harmless new
    × All (λ m. is_sound m ≡ true) ms
    × All (λ m. Carried s m new) ms
    × All (λ m. Versioned s m new) ms

abbrev pub Safe : Site → History → History → Type 0
Safe s h v = Grown Harmless h v ⊎ ((mid : History) × Checked s s.members h mid × Grown Any mid v)

All-map :
    {A : Type 0} {P : A → Type 0} (Q : A → Type 0) (xs : List A)
    → ((a : A) → P a → Q a)
    → All P xs
    → All Q xs
All-map Q [] f p = tt
All-map Q (x ∷ xs) f p = (f x p.0, All-map Q xs f p.1)

module _ (o : Outside) (s : Site) where
  abbrev Boxed : Member → History → Type 0
  Boxed m new = (is_sound m ≡ true) × Carried s m new

  carry-Carried :
      (m : Member) (h : History)
      → (carry o s m h).0 ≡ ok tt
      → (new : History) × ((carry o s m h).1 ≡ new ++ h) × All Harmless new × Boxed m new
  unfolding carry
  carry-Carried m h e =
      let (sound, step) =
        require-run (is_sound m) invalid (put o m.node s.binary binary_path 493) h e in
      let (output, here) =
        put-ok o m.node s.binary binary_path 493 h (sym (ap (λ r. r.0) step) ∙ e) in
      let event = did m.node (put_op s.binary binary_path 493) output in
      (event ∷ [], ap (λ r. r.1) step ∙ here, (refl, tt), (sound, (output, ([], [], refl))))

  verify-Versioned :
      (m : Member) (h : History)
      → (verify_version o s.version m.node h).0 ≡ ok tt
      → (new : History) × ((verify_version o s.version m.node h).1 ≡ new ++ h)
        × All Harmless new
        × Versioned s m new
  unfolding verify_version
  verify-Versioned m h e =
      let argv = "k0s" ∷ "version" ∷ [] in
      let (out, first, step) =
        bind-run (exec o m.node argv) (λ out. require (trim_space out == s.version) mismatch) h e in
      let v = (exec o m.node argv h).1 in
      let (same, still) =
        require-ok (trim_space out == s.version) mismatch v (sym (ap (λ r. r.0) step) ∙ e) in
      (
        did m.node (exec_op argv) out ∷ [],
        ap (λ r. r.1) step ∙ still ∙ exec-ok o m.node argv h first,
        (refl, tt),
        (out, (eq_iff (trim_space out) s.version).0 same, ([], [], refl)),
      )

  Carried-later : (m : Member) (new h : History) → Carried s m h → Carried s m (new ++ h)
  Carried-later m new h (out, seen) = (out, Seen-later _ new h seen)

  Carried-earlier : (m : Member) (new h : History) → Carried s m new → Carried s m (new ++ h)
  Carried-earlier m new h (out, seen) = (out, Seen-earlier _ new h seen)

  Versioned-later : (m : Member) (new h : History) → Versioned s m h → Versioned s m (new ++ h)
  Versioned-later m new h (out, same, seen) = (out, same, Seen-later _ new h seen)

  Versioned-earlier : (m : Member) (new h : History) → Versioned s m new → Versioned s m (new ++ h)
  Versioned-earlier m new h (out, same, seen) = (out, same, Seen-earlier _ new h seen)

  pub prepare-Checked :
      (h : History) → (prepare o s h).0 ≡ ok tt → Checked s s.members h (prepare o s h).1
  unfolding prepare
  prepare-Checked h e =
      let ms = s.members in
      let verify : Member → _ = λ m. verify_version o s.version m.node in
      let (u, first, step) = bind-run (for_each ms (carry o s)) (λ _. for_each ms verify) h e in
      let v = (for_each ms (carry o s) h).1 in
      let (new, grown, quiet, boxed) =
        for_each-Each Harmless Boxed (carry o s) (λ m a b p. (p.0, Carried-later m a b p.1))
          (λ m a b p. (p.0, Carried-earlier m a b p.1)) carry-Carried ms h first in
      let (more, grown', quiet', versions) =
        for_each-Each Harmless (Versioned s) verify Versioned-later Versioned-earlier
          verify-Versioned ms v (sym (ap (λ r. r.0) step) ∙ e) in
      (
        more ++ new,
        ap (λ r. r.1) step ∙ grown' ∙ ap (λ x. more ++ x) grown ∙ sym (append_assoc more new h),
        All-append Harmless more new quiet' quiet,
        All-map (λ m. is_sound m ≡ true) ms (λ m p. p.0) boxed,
        All-map (λ m. Carried s m (more ++ new)) ms (λ m p. Carried-later m more new p.1) boxed,
        All-Seen (Versioned s) ms more (more ++ new) (λ m. Versioned-earlier m more new) versions,
      )

  carry-Harmless : (m : Member) → Adds Harmless (carry o s m)
  unfolding carry
  carry-Harmless m =
      Adds-bind Harmless (require (is_sound m) invalid) _
        (Adds-require Harmless (is_sound m) invalid)
        (λ _. Adds-put Harmless o m.node s.binary binary_path 493 (λ r. refl))

  verify-Harmless : (m : Member) → Adds Harmless (verify_version o s.version m.node)
  unfolding verify_version
  verify-Harmless m =
      Adds-bind Harmless (exec o m.node ("k0s" ∷ "version" ∷ [])) _
        (Adds-exec Harmless o m.node ("k0s" ∷ "version" ∷ []) (λ r. refl))
        (λ out. Adds-require Harmless (trim_space out == s.version) mismatch)

  prepare-Harmless : Adds Harmless (prepare o s)
  unfolding prepare
  prepare-Harmless =
      Adds-bind Harmless (for_each s.members (carry o s)) _
        (Adds-for_each Harmless s.members (carry o s) carry-Harmless)
        (λ _. Adds-for_each Harmless s.members _ verify-Harmless)

  assemble-Any : (first : Member) (rest : List Member) → Adds Any (assemble o s first rest)
  unfolding assemble
  assemble-Any first rest =
      Adds-bind Any (install o false first) _ (install-Adds Any o false first (λ _ _. tt)) (λ _.
        Adds-bind Any (wait_ready o s first.node) _ (wait_ready-Adds Any o s first.node (λ _ _. tt))
          (λ _.
            Adds-for_each Any rest (admit o s first.node)
              (λ m. admit-Adds Any o s first.node m (λ _ _. tt) (λ _ _. tt))))

  build_members-Safe : (ms : List Member) (h : History) → Safe s h (build_members o s ms h).1
  unfolding build_members fail
  build_members-Safe [] h = inl ([], refl, tt)
  build_members-Safe (first ∷ rest) h =
      require-Post (λ _ v. Safe s h v) (is_controller first) invalid
        (do prepare o s; assemble o s first rest) h
        (λ _.
          bind-Post (λ _ v. Safe s h v) (prepare o s) (λ _. assemble o s first rest) h
            (λ u e.
              inr
                ((prepare o s h).1, prepare-Checked h e, assemble-Any first rest (prepare o s h).1))
            (λ c e. inl (prepare-Harmless h)))
        (inl ([], refl, tt))

-- However Build ends: it has installed, started and admitted nothing, or the history up to a point
-- before any of that has every member sound, carrying the binary and telling the site's version.
pub build-Safe : (o : Outside) (s : Site) (h : History) → Safe s h (build o s h).1
unfolding build
build-Safe o s h = build_members-Safe o s s.members h
