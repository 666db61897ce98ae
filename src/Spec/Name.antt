-- ===== src/Spec/Name.antt =====
-- `sanitize` of pkg/spec/topology.go. What it keeps is ASCII, so that a byte is a character of its
-- result.
pub mod Bounds
use Prim.Native.Char.{Char, code}
use labcontainers.Prelude.{
  ℕ, zero, suc, String, Bool, true, false, ◌||◌, ◌&&◌, leb, nat_eq, if◌then◌else◌,
}

-- [a-zA-Z0-9_.-]
abbrev pub is_alphanumeric : ℕ → Bool
is_alphanumeric c = leb b'a' c && leb c b'z' || leb b'A' c && leb c b'Z' || leb b'0' c && leb c b'9'

abbrev pub is_punctuation : ℕ → Bool
is_punctuation c = nat_eq c b'_' || nat_eq c b'.' || nat_eq c b'-'

abbrev pub is_safe : ℕ → Bool
is_safe c = is_alphanumeric c || is_punctuation c

-- `safeName.ReplaceAllString(s, "-")`: a run of other characters becomes one dash. `in_run` tells
-- that the character before was replaced.
unfoldable pub replace_unsafe : Bool → String → String
replace_unsafe in_run String.[] = String.[]
replace_unsafe in_run (String.◌∷◌ c s) =
    let kept = String.◌∷◌ c (replace_unsafe false s) in
    let run = replace_unsafe true s in
    if is_safe (code c) then kept else if in_run then run else String.◌∷◌ "-" run

-- `strings.Trim(_, "-._")`
unfoldable pub trim_left : String → String
trim_left String.[] = String.[]
trim_left (String.◌∷◌ c s) =
    let rest = trim_left s in if is_punctuation (code c) then rest else String.◌∷◌ c s

abbrev keep_unless_last : Char → String → String
keep_unless_last c String.[] = if is_punctuation (code c) then String.[] else String.◌∷◌ c String.[]
keep_unless_last c (String.◌∷◌ d s) = String.◌∷◌ c (String.◌∷◌ d s)

unfoldable pub trim_right : String → String
trim_right String.[] = String.[]
trim_right (String.◌∷◌ c s) = keep_unless_last c (trim_right s)

abbrev pub take_chars : ℕ → String → String
take_chars zero s = String.[]
take_chars (suc n) String.[] = String.[]
take_chars (suc n) (String.◌∷◌ c s) = String.◌∷◌ c (take_chars n s)

abbrev pub chars : String → ℕ
chars String.[] = 0
chars (String.◌∷◌ c s) = suc (chars s)

-- The cut at 48 bytes keeps a shorter text whole.
unfoldable pub sanitize : String → String
unfolding replace_unsafe trim_left trim_right
sanitize s = take_chars 48 (trim_right (trim_left (replace_unsafe false s)))
