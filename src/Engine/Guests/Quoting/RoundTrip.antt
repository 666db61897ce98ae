-- ===== src/Engine/Guests/Quoting/RoundTrip.antt =====
-- What a POSIX shell reads where `shellQuote` of internal/engine/containerlab.go has quoted.
use Prim.Native.Char.{Char, code}
use text.Mathlib.TextEquality.{Char-path}
use labcontainers.Prelude.{
  ℕ, String, ◌≡◌, refl, ap, Bool, true, ◌||◌, ◌&&◌, Option, none, some, [], ◌∷◌, any, nat_eq, leb,
  if◌then◌else◌, Bool-cases, inl, inr, arith,
}
use labcontainers.Prelude.FilePath.{◌⧺◌}
use labcontainers.Engine.Guests.Quoting.{escape_quotes, shell_quote}

-- Where the shell is in a word: outside quotes, between single quotes, after a backslash.
pub data Mode : Type 0 where
  plain quoted escaped : Mode

abbrev add : Char → Option (String × String) → Option (String × String)
add c none = none
add c (some (w, rest)) = some (String.◌∷◌ c w, rest)

-- Blanks and operators end a word.
abbrev pub ends_word : ℕ → Bool
ends_word c = any (nat_eq c) (b' ' ∷ 9 ∷ 10 ∷ b'|' ∷ b'&' ∷ b';' ∷ b'<' ∷ b'>' ∷ b'(' ∷ b')' ∷ [])

-- A letter, a digit or one of `-./_:`, which have no meaning of their own.
abbrev is_ordinary : ℕ → Bool
is_ordinary c =
    leb b'a' c && leb c b'z'
    || leb b'A' c && leb c b'Z'
    || leb b'0' c && leb c b'9'
    || any (nat_eq c) (b'-' ∷ b'.' ∷ b'/' ∷ b'_' ∷ b':' ∷ [])

-- The shell's word at the head of a text, with its quotes removed, and what follows it. `none` is a
-- quotation without an end, or an expansion, which this reader does not perform.
unfoldable pub shell_word : Mode → String → Option (String × String)
shell_word plain String.[] = some (String.[], String.[])
shell_word quoted String.[] = none
shell_word escaped String.[] = none
shell_word plain (String.◌∷◌ c s) =
    let inside = shell_word quoted s in
    let after = shell_word escaped s in
    let more = shell_word plain s in
    if ends_word (code c)
    then some (String.[], String.◌∷◌ c s)
    else if nat_eq (code c) b'\''
    then inside
    else if nat_eq (code c) b'\\'
    then after
    else if is_ordinary (code c)
    then add c more
    else none
shell_word quoted (String.◌∷◌ c s) =
    let outside = shell_word plain s in
    let more = shell_word quoted s in if nat_eq (code c) b'\'' then outside else add c more
shell_word escaped (String.◌∷◌ c s) = let more = shell_word plain s in add c more

-- A text at which a word ends.
abbrev pub at_end : String → Bool
at_end String.[] = true
at_end (String.◌∷◌ c s) = ends_word (code c)

plain-end : (s : String) → at_end s ≡ true → shell_word plain s ≡ some (String.[], s)
unfolding shell_word
plain-end String.[] h = refl
plain-end (String.◌∷◌ c s) h = rw h

nat_eq-true : (n k : ℕ) → nat_eq n k ≡ true → n ≡ k
nat_eq-true n k h = ground arith

-- Between quotes, a text whose quotes are escaped is the text itself.
quoted-escape :
    (s rest : String)
    → at_end rest ≡ true
    → shell_word quoted (escape_quotes s ⧺ "'" ⧺ rest) ≡ some (s, rest)
unfolding shell_word escape_quotes
quoted-escape String.[] rest h = plain-end rest h
quoted-escape (String.◌∷◌ c s) rest h = elim (Bool-cases (nat_eq (code c) b'\'')) [
  | inl q ↦ rw (q, quoted-escape s rest h, Char-path c "'" (nat_eq-true (code c) b'\'' q))
  | inr q ↦ rw (q, q, quoted-escape s rest h)
]

append_assoc : (a b c : String) → (a ⧺ b) ⧺ c ≡ a ⧺ b ⧺ c
append_assoc String.[] b c = refl
append_assoc (String.◌∷◌ x a) b c = ap (String.◌∷◌ x) (append_assoc a b c)

-- The shell reads a quoted text back as one word, whatever characters it has, where what follows it
-- ends a word.
pub shell_word-shell_quote :
    (s rest : String)
    → at_end rest ≡ true
    → shell_word plain (shell_quote s ⧺ rest) ≡ some (s, rest)
unfolding shell_word shell_quote
shell_word-shell_quote s rest h =
    rw (append_assoc (escape_quotes s) "'" rest, quoted-escape s rest h)
