-- ===== src/Text.antt =====
-- Go's strings package as far as the program uses it: Fields, TrimSpace and a split into lines. A
-- text is a sequence of code points.
pub mod Numbers
use Prim.Native.Char.{Char, code}
use labcontainers.Prelude.{
  ℕ, String, Bool, ◌||◌, ◌&&◌, List, [], ◌∷◌, leb, nat_eq, any, if◌then◌else◌,
}

-- unicode.IsSpace
unfoldable pub is_space : ℕ → Bool
is_space c =
    leb 9 c && leb c 13
    || any (nat_eq c) (32 ∷ 133 ∷ 160 ∷ 5760 ∷ 8232 ∷ 8233 ∷ 8239 ∷ 8287 ∷ 12288 ∷ [])
    || leb 8192 c && leb c 8202

abbrev pub keep_word : String → List String → List String
keep_word String.[] ws = ws
keep_word (String.◌∷◌ c w) ws = String.◌∷◌ c w ∷ ws

-- The word that the text starts with, which may be empty, and the words after it.
unfoldable pub words : String → String × List String
words String.[] = (String.[], [])
words (String.◌∷◌ c s) =
    let rest = words s in
    if is_space (code c)
    then (String.[], keep_word rest.0 rest.1)
    else (String.◌∷◌ c rest.0, rest.1)

-- `strings.Fields`
unfoldable pub fields : String → List String
unfolding words
fields s = keep_word (words s).0 (words s).1

unfoldable pub drop_space : String → String
drop_space String.[] = String.[]
drop_space (String.◌∷◌ c s) =
    let rest = drop_space s in if is_space (code c) then rest else String.◌∷◌ c s

abbrev pub unless_blank : Char → String → String
unless_blank c String.[] = if is_space (code c) then String.[] else String.◌∷◌ c String.[]
unless_blank c (String.◌∷◌ d s) = String.◌∷◌ c (String.◌∷◌ d s)

unfoldable pub drop_last_space : String → String
drop_last_space String.[] = String.[]
drop_last_space (String.◌∷◌ c s) = unless_blank c (drop_last_space s)

-- `strings.TrimSpace`
unfoldable pub trim_space : String → String
unfolding drop_space drop_last_space
trim_space s = drop_last_space (drop_space s)

abbrev pub onto_line : Char → List String → List String
onto_line c [] = String.◌∷◌ c String.[] ∷ []
onto_line c (l ∷ ls) = String.◌∷◌ c l ∷ ls

-- `strings.Split(s, "\n")`
unfoldable pub lines : String → List String
lines String.[] = String.[] ∷ []
lines (String.◌∷◌ c s) =
    let rest = lines s in if nat_eq (code c) 10 then String.[] ∷ rest else onto_line c rest

-- `strings.ReplaceAll(s, c, "")` for a text of one character.
unfoldable pub without : ℕ → String → String
without k String.[] = String.[]
without k (String.◌∷◌ c s) =
    let rest = without k s in if nat_eq (code c) k then rest else String.◌∷◌ c rest
