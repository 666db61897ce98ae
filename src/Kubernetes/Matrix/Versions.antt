-- ===== src/Kubernetes/Matrix/Versions.antt =====
-- What the expression `k0sArtifactVersion` of pkg/kubernetes/matrix.go has matched.
use Prim.Native.Char.{Char, code}
use std.Path.{subst}
use text.Mathlib.TextEquality.{Char-path}
use labcontainers.Prelude.{
  ℕ, String, ◌≡◌, ◌≢◌, refl, sym, ap, ◌∙◌, ◌⊎◌, inl, inr, Bool, true, false, ◌&&◌, Option, none,
  some, nat_eq, if◌then◌else◌, arith, ◌≤◌,
}
use labcontainers.Prelude.FilePath.{◌⧺◌}
use labcontainers.Kubernetes.Matrix.{
  size, all_chars, is_digit, is_lower_hex, within, span, prepend, behind, nonempty, number, triple,
  fork_suffix, drop_v, k0s_version, ◌then◌,
}

-- One digit or more.
abbrev pub Digits : String → Type 0
Digits s = (all_chars is_digit s ≡ true) × (s ≢ "")

-- Three numbers with dots.
abbrev pub Triple : String → Type 0
Triple s = (a b c : String) × Digits a × Digits b × Digits c × (s ≡ a ⧺ "." ⧺ b ⧺ "." ⧺ c)

-- Nothing, or a commit that is abbreviated to seven lower-case digits or more.
abbrev pub Fork : String → String → Type 0
Fork tail suffix =
    ((tail ≡ "") × (suffix ≡ ""))
    ⊎ ((tail ≡ ".appmana." ⧺ suffix)
        × (7 ≤ size suffix)
        × (size suffix ≤ 40)
        × (all_chars is_lower_hex suffix ≡ true))

-- The artifact's version is that of Kubernetes, a build of k0s, and the fork's commit.
abbrev pub Version : String → String → String → Type 0
Version s version suffix =
    Triple version
    × ((build tail : String) × Digits build
        × Fork tail suffix
        × (drop_v s ≡ version ⧺ "+k0s." ⧺ build ⧺ tail))

pub ⧺_assoc : (a b c : String) → (a ⧺ b) ⧺ c ≡ a ⧺ b ⧺ c
⧺_assoc String.[] b c = refl
⧺_assoc (String.◌∷◌ x a) b c = ap (String.◌∷◌ x) (⧺_assoc a b c)

nat_eq-path : (c d : Char) → nat_eq (code c) (code d) ≡ true → c ≡ d
nat_eq-path c d h = Char-path c d (ground arith)

then-some :
    {A B : Type 0} (o : Option A) (f : A → Option B) {b : B}
    → (o then f) ≡ some b
    → (a : A) × (o ≡ some a) × (f a ≡ some b)
then-some none f h = cc
then-some (some a) f h = (a, refl, h)

behind_lem : (l s : String) {r : String} → behind l s ≡ some r → s ≡ l ⧺ r
unfolding behind
behind_lem String.[] s h = cc
behind_lem (String.◌∷◌ c l) String.[] h = cc
behind_lem (String.◌∷◌ c l) (String.◌∷◌ d s) {r} h =
    go (nat_eq (code c) (code d)) refl (λ e. behind_lem l s e) h
  where
    go :
        (b : Bool)
        → nat_eq (code c) (code d) ≡ b
        → (behind l s ≡ some r → s ≡ l ⧺ r)
        → (if b then behind l s else none) ≡ some r
        → String.◌∷◌ d s ≡ String.◌∷◌ c (l ⧺ r)
    go true e later h' =
        ap (λ x. String.◌∷◌ x s) (sym (nat_eq-path c d e)) ∙ ap (String.◌∷◌ c) (later h')
    go false e later h' = cc

span_lem :
    (p : ℕ → Bool) (s : String)
    → (s ≡ (span p s).0 ⧺ (span p s).1) × (all_chars p (span p s).0 ≡ true)
unfolding span
span_lem p String.[] = (refl, refl)
span_lem p (String.◌∷◌ c s) = go (p (code c)) refl (span_lem p s)
  where
    go :
        (b : Bool)
        → p (code c) ≡ b
        → (s ≡ (span p s).0 ⧺ (span p s).1) × (all_chars p (span p s).0 ≡ true)
        → let r = if b then prepend c (span p s) else (String.[], String.◌∷◌ c s) in
          (String.◌∷◌ c s ≡ r.0 ⧺ r.1) × (all_chars p r.0 ≡ true)
    go true e (same, all) = (ap (String.◌∷◌ c) same, rw e all)
    go false e later = (refl, refl)

nonempty_lem :
    (x : String × String) {a rest : String}
    → nonempty x ≡ some (a, rest)
    → (x.0 ≡ a) × (x.1 ≡ rest) × (a ≢ "")
nonempty_lem (String.[], rest) h = cc
nonempty_lem (String.◌∷◌ c s, rest) h = (cc, cc, λ empty. cc)

number_lem :
    (s : String) {a rest : String}
    → nonempty (span is_digit s) ≡ some (a, rest)
    → (s ≡ a ⧺ rest) × Digits a
number_lem s {a} h =
    let (same, same', some') = nonempty_lem (span is_digit s) h in
    let (whole, all) = span_lem is_digit s in
    (
      whole ∙ ap (λ x. x ⧺ (span is_digit s).1) same ∙ ap (λ x. a ⧺ x) same',
      (ap (all_chars is_digit) (sym same) ∙ all, some'),
    )

some-pair :
    {x y x' y' : String}
    → Path (Option (String × String)) (some (x, y)) (some (x', y'))
    → (x ≡ x') × (y ≡ y')
some-pair e = (cc, cc)

module _ (s a b c r1 r2 t1 t2 rest : String) where
  dotted :
      s ≡ a ⧺ r1
      → r1 ≡ "." ⧺ t1
      → t1 ≡ b ⧺ r2
      → r2 ≡ "." ⧺ t2
      → t2 ≡ c ⧺ rest
      → s ≡ (a ⧺ "." ⧺ b ⧺ "." ⧺ c) ⧺ rest
  dotted e1 d1 e2 d2 e3 =
      let third : r2 ≡ ("." ⧺ c) ⧺ rest = d2 ∙ ap (λ x. "." ⧺ x) e3 in
      let second : t1 ≡ (b ⧺ "." ⧺ c) ⧺ rest =
        e2 ∙ ap (λ x. b ⧺ x) third ∙ sym (⧺_assoc b ("." ⧺ c) rest) in
      let first : r1 ≡ ("." ⧺ b ⧺ "." ⧺ c) ⧺ rest = d1 ∙ ap (λ x. "." ⧺ x) second in
      e1 ∙ ap (λ x. a ⧺ x) first ∙ sym (⧺_assoc a ("." ⧺ b ⧺ "." ⧺ c) rest)

triple_lem : (s : String) {v rest : String} → triple s ≡ some (v, rest) → (s ≡ v ⧺ rest) × Triple v
unfolding triple
triple_lem s {v} h =
    let (a, first, h1) = then-some (number s) _ h in
    let (s1, dot1, h2) = then-some (behind "." a.1 then number) _ h1 in
    let (t1, sep1, second) = then-some (behind "." a.1) number dot1 in
    let (s2, dot2, h3) = then-some (behind "." s1.1 then number) _ h2 in
    let (t2, sep2, third) = then-some (behind "." s1.1) number dot2 in
    let (whole1, digits1) = number_lem s first in
    let (whole2, digits2) = number_lem t1 second in
    let (whole3, digits3) = number_lem t2 third in
    let (same, left) = some-pair h3 in
    (
      dotted s a.0 s1.0 s2.0 a.1 s1.1 t1 t2 s2.1 whole1 (behind_lem "." a.1 sep1) whole2
            (behind_lem "." s1.1 sep2) whole3
          ∙ ap (λ x. x ⧺ s2.1) same
          ∙ ap (λ x. v ⧺ x) left,
      (a.0, s1.0, s2.0, digits1, digits2, digits3, sym same),
    )

fork_suffix_lem : (s : String) {suffix : String} → fork_suffix s ≡ some suffix → Fork s suffix
unfolding fork_suffix
fork_suffix_lem String.[] h = inl (refl, cc)
fork_suffix_lem (String.◌∷◌ c s) {suffix} h =
    let (hex, behind', h1) = then-some (behind ".appmana." (String.◌∷◌ c s)) _ h in
    go hex (within 7 40 (size hex)) (all_chars is_lower_hex hex) refl refl
      (behind_lem ".appmana." (String.◌∷◌ c s) behind') h1
  where
    go :
        (hex : String) (few lower : Bool)
        → within 7 40 (size hex) ≡ few
        → all_chars is_lower_hex hex ≡ lower
        → String.◌∷◌ c s ≡ ".appmana." ⧺ hex
        → (if few && lower then some hex else none) ≡ some suffix
        → Fork (String.◌∷◌ c s) suffix
    go hex true true few lower whole e =
        let same : hex ≡ suffix = cc in
        inr (
          whole ∙ ap (λ x. ".appmana." ⧺ x) same,
          rw (← same) (ground arith),
          rw (← same) (ground arith),
          ap (all_chars is_lower_hex) (sym same) ∙ lower,
        )
    go hex true false few lower whole e = cc
    go hex false lower' few lower whole e = cc

-- A version that is matched has this form.
pub k0s_version-Version :
    (s : String) {version suffix : String}
    → k0s_version s ≡ some (version, suffix)
    → Version s version suffix
unfolding k0s_version
k0s_version-Version s h =
    let (t, first, h1) = then-some (triple (drop_v s)) _ h in
    let (n, numbered, h2) = then-some (behind "+k0s." t.1 then number) _ h1 in
    let (rest, sep, build) = then-some (behind "+k0s." t.1) number numbered in
    let (suffix', fork, h3) = then-some (fork_suffix n.1) _ h2 in
    let (whole1, three) = triple_lem (drop_v s) first in
    let (whole2, digits) = number_lem rest build in
    let (same, same') = some-pair h3 in
    (
      subst Triple same three,
      (
        n.0,
        n.1,
        digits,
        subst (Fork n.1) same' (fork_suffix_lem n.1 fork),
        whole1
            ∙ ap (λ x. t.0 ⧺ x) (behind_lem "+k0s." t.1 sep ∙ ap (λ x. "+k0s." ⧺ x) whole2)
            ∙ ap (λ x. x ⧺ "+k0s." ⧺ n.0 ⧺ n.1) same,
      ),
    )
