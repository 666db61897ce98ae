-- ===== src/Spec/Name/Bounds.antt =====
-- What `sanitize` returns, whatever it is given.
use Prim.Native.Char.{Char, code}
use labcontainers.Prelude.{
  ℕ, zero, suc, String, ◌≡◌, refl, ◌≤◌, Bool, true, false, not, ◌&&◌, Bool-cases, inl, inr,
  if◌then◌else◌, arith,
}
use labcontainers.Spec.Name.{
  is_safe, is_punctuation, replace_unsafe, trim_left, trim_right, keep_unless_last, take_chars,
  chars, sanitize,
}

abbrev pub all_safe : String → Bool
all_safe String.[] = true
all_safe (String.◌∷◌ c s) = is_safe (code c) && all_safe s

-- Empty, or the first character is no punctuation.
abbrev pub starts_plain : String → Bool
starts_plain String.[] = true
starts_plain (String.◌∷◌ c s) = not (is_punctuation (code c))

-- The three ways in which `replace_unsafe` goes on.
replaced :
    (safe in_run : Bool) (c : Char) (kept run : String)
    → is_safe (code c) ≡ safe
    → all_safe kept ≡ true
    → all_safe run ≡ true
    → all_safe (if safe then String.◌∷◌ c kept else if in_run then run else String.◌∷◌ "-" run)
      ≡ true
replaced true in_run c kept run e h h' = rw (e, h)
replaced false true c kept run e h h' = h'
replaced false false c kept run e h h' = h'

both : (a b : Bool) → (a && b) ≡ true → (a ≡ true) × (b ≡ true)
both true b h = (refl, h)
both false b h = cc

replace_unsafe-safe : (in_run : Bool) (s : String) → all_safe (replace_unsafe in_run s) ≡ true
unfolding replace_unsafe
replace_unsafe-safe in_run String.[] = refl
replace_unsafe-safe in_run (String.◌∷◌ c s) =
    replaced (is_safe (code c)) in_run c _ _ refl (replace_unsafe-safe false s)
      (replace_unsafe-safe true s)

trim_left-safe : (s : String) → all_safe s ≡ true → all_safe (trim_left s) ≡ true
unfolding trim_left
trim_left-safe String.[] h = refl
trim_left-safe (String.◌∷◌ c s) h = elim (Bool-cases (is_punctuation (code c))) [
  | inl e ↦ rw e (trim_left-safe s (both (is_safe (code c)) (all_safe s) h).1)
  | inr e ↦ rw e h
]

trim_left-plain : (s : String) → starts_plain (trim_left s) ≡ true
unfolding trim_left
trim_left-plain String.[] = refl
trim_left-plain (String.◌∷◌ c s) = elim (Bool-cases (is_punctuation (code c))) [
  | inl e ↦ rw e (trim_left-plain s)
  | inr e ↦ rw e (rw e refl)
]

take_chars-safe : (n : ℕ) (s : String) → all_safe s ≡ true → all_safe (take_chars n s) ≡ true
take_chars-safe zero s h = refl
take_chars-safe (suc n) String.[] h = refl
take_chars-safe (suc n) (String.◌∷◌ c s) h =
    let (safe, rest) = both (is_safe (code c)) (all_safe s) h in rw (safe, take_chars-safe n s rest)

take_chars-plain :
    (n : ℕ) (s : String) → starts_plain s ≡ true → starts_plain (take_chars n s) ≡ true
take_chars-plain zero s h = refl
take_chars-plain (suc n) String.[] h = refl
take_chars-plain (suc n) (String.◌∷◌ c s) h = h

chars-take_chars : (n : ℕ) (s : String) → chars (take_chars n s) ≤ n
chars-take_chars zero s = omega arith
chars-take_chars (suc n) String.[] = omega arith
chars-take_chars (suc n) (String.◌∷◌ c s) = let rest = chars-take_chars n s in omega arith

keep_unless_last-safe :
    (c : Char) (s : String)
    → is_safe (code c) ≡ true
    → all_safe s ≡ true
    → all_safe (keep_unless_last c s) ≡ true
keep_unless_last-safe c String.[] e h = elim (Bool-cases (is_punctuation (code c))) [
  | inl p ↦ rw p refl
  | inr p ↦ rw p (rw e refl)
]
keep_unless_last-safe c (String.◌∷◌ d s) e h = rw (e, h)

keep_unless_last-plain :
    (c : Char) (s : String)
    → starts_plain (String.◌∷◌ c s) ≡ true
    → starts_plain (keep_unless_last c s) ≡ true
keep_unless_last-plain c String.[] h = elim (Bool-cases (is_punctuation (code c))) [
  | inl p ↦ rw p refl
  | inr p ↦ rw p (rw p refl)
]
keep_unless_last-plain c (String.◌∷◌ d s) h = h

trim_right-safe : (s : String) → all_safe s ≡ true → all_safe (trim_right s) ≡ true
unfolding trim_right
trim_right-safe String.[] h = refl
trim_right-safe (String.◌∷◌ c s) h =
    let (safe, rest) = both (is_safe (code c)) (all_safe s) h in
    keep_unless_last-safe c (trim_right s) safe (trim_right-safe s rest)

trim_right-plain : (s : String) → starts_plain s ≡ true → starts_plain (trim_right s) ≡ true
unfolding trim_right
trim_right-plain String.[] h = refl
trim_right-plain (String.◌∷◌ c s) h = keep_unless_last-plain c (trim_right s) h

-- Whatever the name, its sanitized form has at most 48 characters, each of them an ASCII letter, a
-- digit, an underscore, a dot or a dash, and it is empty or does not start with punctuation.
pub sanitize_bounds :
    (s : String)
    → (chars (sanitize s) ≤ 48)
      × (all_safe (sanitize s) ≡ true)
      × (starts_plain (sanitize s) ≡ true)
unfolding sanitize
sanitize_bounds s =
    let t = trim_left (replace_unsafe false s) in
    let safe = trim_left-safe (replace_unsafe false s) (replace_unsafe-safe false s) in
    (
      chars-take_chars 48 (trim_right t),
      take_chars-safe 48 (trim_right t) (trim_right-safe t safe),
      take_chars-plain 48 (trim_right t)
          (trim_right-plain t (trim_left-plain (replace_unsafe false s))),
    )
