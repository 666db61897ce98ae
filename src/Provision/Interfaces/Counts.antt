-- ===== src/Provision/Interfaces/Counts.antt =====
-- The loop of `interfaceNames` that counts the links of an address.
use std.Path.{subst}
use labcontainers.Prelude.{
  ℕ, suc, ◌≤◌, String, ◌≡◌, refl, ap, Bool, true, false, not, ◌&&◌, Option, none, some, List, [],
  ◌∷◌, ◌++◌, nat_eq, ◌==◌, All, if◌then◌else◌, arith,
}
use labcontainers.Provision.Interfaces.{Link, Codec, bears, find_links, only_named}

pub some-same : {A : Type 0} {x y : A} → Path (Option A) (some x) (some y) → x ≡ y
some-same e = cc

pairs : {n m : ℕ} {x y : String} → n ≡ m → x ≡ y → Path (ℕ × String) (n, x) (m, y)
pairs a b = λ i. (a i, b i)

zero_one : {n m : ℕ} → n ≡ m → n ≡ 0 → m ≡ 1 → ⊥
zero_one e a b = omega arith

module _ (c : Codec) where
  -- The count never falls.
  find-count :
      (mac : String) (ls : List Link) (n : ℕ) (x : String) → n ≤ (find_links c mac ls n x).0
  unfolding find_links
  find-count mac [] n x = omega arith
  find-count mac (l ∷ ls) n x =
      go (bears c mac l) (find-count mac ls (suc n) l.name) (find-count mac ls n x)
    where
      go :
          (b : Bool)
          → suc n ≤ (find_links c mac ls (suc n) l.name).0
          → n ≤ (find_links c mac ls n x).0
          → n ≤ (if b then find_links c mac ls (suc n) l.name else find_links c mac ls n x).0
      go true more same = omega arith
      go false more same = same

  find-none :
      (mac : String) (ls : List Link) (x : String) {y : String}
      → find_links c mac ls 1 x ≡ (1, y)
      → All (λ l. bears c mac l ≡ false) ls × (x ≡ y)
  unfolding find_links
  find-none mac [] x e = (tt, ap (λ p. p.1) e)
  find-none mac (l ∷ ls) x e =
      go (bears c mac l) refl e (find-count mac ls 2 l.name) (λ z e'. find-none mac ls x e')
    where
      go :
          (b : Bool) {y : String}
          → bears c mac l ≡ b
          → (if b then find_links c mac ls 2 l.name else find_links c mac ls 1 x) ≡ (1, y)
          → 2 ≤ (find_links c mac ls 2 l.name).0
          → ((z : String)
              → find_links c mac ls 1 x ≡ (1, z)
              → All (λ k. bears c mac k ≡ false) ls × (x ≡ z))
          → All (λ k. bears c mac k ≡ false) (l ∷ ls) × (x ≡ y)
      go true b e' more again = absurd (too_many (ap (λ p. p.0) e') more)
        where
          too_many : {n : ℕ} → n ≡ 1 → 2 ≤ n → ⊥
          too_many one two = omega arith
      go false b e' more again = let (none', same) = again _ e' in ((b, none'), same)

  -- A link that bears the address, between links that do not.
  abbrev pub Alone : List Link → String → String → Type 0
  Alone ls mac name =
      (before after : List Link) × (l : Link) × (ls ≡ before ++ l ∷ after)
      × All (λ x. bears c mac x ≡ false) before
      × (bears c mac l ≡ true)
      × All (λ x. bears c mac x ≡ false) after
      × (l.name ≡ name)

  pub find-Alone :
      (mac : String) (ls : List Link) (x : String) {y : String}
      → find_links c mac ls 0 x ≡ (1, y)
      → Alone ls mac y
  unfolding find_links
  find-Alone mac [] x e = absurd (zero_one (ap (λ p. p.0) e) refl refl)
  find-Alone mac (l ∷ ls) x e =
      go (bears c mac l) refl e (λ z e'. find-none mac ls l.name e')
        (λ z e'. find-Alone mac ls x e')
    where
      go :
          (b : Bool) {y : String}
          → bears c mac l ≡ b
          → (if b then find_links c mac ls 1 l.name else find_links c mac ls 0 x) ≡ (1, y)
          → ((z : String)
              → find_links c mac ls 1 l.name ≡ (1, z)
              → All (λ k. bears c mac k ≡ false) ls × (l.name ≡ z))
          → ((z : String) → find_links c mac ls 0 x ≡ (1, z) → Alone ls mac z)
          → Alone (l ∷ ls) mac y
      go true b e' last again =
          let (none', same) = last _ e' in ([], ls, l, refl, tt, b, none', same)
      go false b e' last again =
          let (before, after, k, split, none', here, none'', same) = again _ e' in
          (l ∷ before, after, k, ap (λ r. l ∷ r) split, (b, none'), here, none'', same)

  pub named-one :
      (n : ℕ) (x : String) {name : String}
      → only_named (n, x) ≡ some name
      → Path (ℕ × String) (n, x) (1, name) × ((name == "") ≡ false)
  named-one n x e = go (nat_eq n 1) (x == "") refl refl e
    where
      go :
          (one blank : Bool) {name : String}
          → nat_eq n 1 ≡ one
          → (x == "") ≡ blank
          → (if one && not blank then some x else none) ≡ some name
          → Path (ℕ × String) (n, x) (1, name) × ((name == "") ≡ false)
      go true true o b e' = cc
      go true false o b e' =
          let same = some-same e' in
          let is_one : n ≡ 1 = ground arith in
          (pairs is_one same, subst (λ t. (t == "") ≡ false) same b)
      go false blank o b e' = cc
