-- ===== src/Text/Numbers.antt =====
-- Go's strconv as far as the program uses it: FormatUint, and ParseUint with base 0
-- and 32 bits.
use Prim.Native.Char.{code}
use labcontainers.Prelude.{
  ℕ, zero, suc, ◌+◌, ◌-◌, ◌*◌, ◌/◌, ◌%◌, ◌^◌, String, Bool, true, false, not, ◌&&◌, ◌||◌, Option,
  none, some, leb, ltb, nat_eq, if◌then◌else◌,
}
use labcontainers.Prelude.FilePath.{◌⧺◌}

abbrev pub digit : ℕ → String
digit n =
    if nat_eq n 0
    then "0"
    else if nat_eq n 1
    then "1"
    else if nat_eq n 2
    then "2"
    else if nat_eq n 3
    then "3"
    else if nat_eq n 4
    then "4"
    else if nat_eq n 5
    then "5"
    else if nat_eq n 6
    then "6"
    else if nat_eq n 7
    then "7"
    else if nat_eq n 8
    then "8"
    else "9"

-- The digits of a number before those in `done`, on fuel.
unfoldable pub digits_of : ℕ → ℕ → ℕ → String → String
digits_of base zero n done = done
digits_of base (suc f) n done =
    let shown = digit (n % base) ⧺ done in
    let rest = digits_of base f (n / base) shown in if ltb n base then shown else rest

-- A 32-bit number has at most 11 octal digits, a 64-bit one at most 20 decimal ones.
unfoldable pub octal : ℕ → String
unfolding digits_of
octal n = digits_of 8 11 n String.[]

unfoldable pub decimal : ℕ → String
unfolding digits_of
decimal n = digits_of 10 20 n String.[]

abbrev pub between : ℕ → ℕ → ℕ → Bool
between a b c = leb a c && leb c b

-- The value of a digit or a letter, in either case.
abbrev pub digit_value : ℕ → Option ℕ
digit_value c =
    if between b'0' b'9' c
    then some (c - b'0')
    else if between b'a' b'z' c
    then some (c - b'a' + 10)
    else if between b'A' b'Z' c
    then some (c - b'A' + 10)
    else none

-- The loop of ParseUint: underscores are passed over, and looked at afterwards. `none` is an error.
unfoldable pub read_digits : ℕ → String → ℕ → Option ℕ
read_digits base String.[] n = some n
read_digits base (String.◌∷◌ c s) n =
    elim (if nat_eq (code c) b'_' then some n else elim (digit_value (code c)) [
      | none ↦ none
      | some d ↦ if ltb d base && ltb (n * base + d) (2 ^ 32) then some (n * base + d) else none
    ]) [ none ↦ none | some n' ↦ read_digits base s n' ]

-- `underscoreOK`: an underscore stands between digits or after the base's prefix. `before` tells what
-- came last: 0 nothing, 1 a digit, 2 an underscore, 3 anything else.
abbrev pub is_digit : Bool → ℕ → Bool
is_digit hex c = between b'0' b'9' c || hex && (between b'a' b'f' c || between b'A' b'F' c)

unfoldable pub underscores_fit : Bool → ℕ → String → Bool
underscores_fit hex before String.[] = not (nat_eq before 2)
underscores_fit hex before (String.◌∷◌ c s) =
    let next : ℕ = if is_digit hex (code c) then 1 else if nat_eq (code c) b'_' then 2 else 3 in
    let fits =
      if nat_eq next 1
      then true
      else if nat_eq next 2
      then nat_eq before 1
      else not (nat_eq before 2) in
    fits && underscores_fit hex next s

abbrev pub base_of : ℕ → Option ℕ
base_of c =
    if nat_eq c b'b' || nat_eq c b'B'
    then some 2
    else if nat_eq c b'o' || nat_eq c b'O'
    then some 8
    else if nat_eq c b'x' || nat_eq c b'X'
    then some 16
    else none

abbrev pub if_fits : Bool → Option ℕ → Option ℕ
if_fits true n = n
if_fits false n = none

-- After a leading zero: a prefix with something behind it, or octal digits.
unfoldable pub after_zero : String → Option ℕ
unfolding read_digits underscores_fit
after_zero (String.◌∷◌ c (String.◌∷◌ d s)) = elim (base_of (code c)) [
  | some base ↦
      if_fits (underscores_fit (nat_eq base 16) 1 (String.◌∷◌ d s))
        (read_digits base (String.◌∷◌ d s) 0)
  | none ↦
      if_fits (underscores_fit false 1 (String.◌∷◌ c (String.◌∷◌ d s)))
        (read_digits 8 (String.◌∷◌ c (String.◌∷◌ d s)) 0)
]
after_zero s = if_fits (underscores_fit false 1 s) (read_digits 8 s 0)

unfoldable pub parse_uint : String → Option ℕ
unfolding after_zero
parse_uint String.[] = none
parse_uint (String.◌∷◌ c s) =
    if nat_eq (code c) b'0'
    then after_zero s
    else if_fits (underscores_fit false 0 (String.◌∷◌ c s)) (read_digits 10 (String.◌∷◌ c s) 0)
