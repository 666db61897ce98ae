-- ===== src/Prelude/FilePath.antt =====
-- Go's path/filepath on Unix, and strings.Cut, as far as the program uses them.
use Prim.Native.Nat.{ℕ}
use Prim.Native.Char.{Char, code}
use Prim.Native.String.{String}
use mathlib.Core.Bool.{Bool, false}
use mathlib.Core.Option.{Option, none, some}
use mathlib.Core.List.{List, [], ◌∷◌, reverse}
use text.Mathlib.Text.{◌==◌}
use labcontainers.Prelude.Tests.{nat_eq, if◌then◌else◌}

infixr 60 ◌⧺◌
-- Concatenation of texts.
abbrev pub ◌⧺◌ : String → String → String
String.[] ⧺ t = t
(String.◌∷◌ c s) ⧺ t = String.◌∷◌ c (s ⧺ t)

abbrev pub is_abs : String → Bool
is_abs String.[] = false
is_abs (String.◌∷◌ c s) = nat_eq (code c) b'/'

abbrev onto_first : Char → List String → List String
onto_first c [] = String.◌∷◌ c String.[] ∷ []
onto_first c (s ∷ ss) = String.◌∷◌ c s ∷ ss

-- The texts between the slashes.
unfoldable pub split_path : String → List String
split_path String.[] = "" ∷ []
split_path (String.◌∷◌ c s) =
    let rest = split_path s in if nat_eq (code c) b'/' then "" ∷ rest else onto_first c rest

-- `..` on the components so far, the last first.
abbrev up : Bool → List String → List String
up rooted [] = if rooted then [] else ".." ∷ []
up rooted (top ∷ below) = if top == ".." then ".." ∷ top ∷ below else below

resolve : Bool → List String → List String → List String
resolve rooted stack [] = stack
resolve rooted stack (p ∷ ps) =
    resolve rooted
      (if p == ""
        then stack
        else if p == "."
        then stack
        else if p == ".."
        then up rooted stack
        else p ∷ stack)
      ps

slashed : List String → String
slashed [] = ""
slashed (p ∷ []) = p
slashed (p ∷ q ∷ ps) = p ⧺ "/" ⧺ slashed (q ∷ ps)

abbrev or_dot : String → String
or_dot String.[] = "."
or_dot s = s

unfoldable pub clean : String → String
unfolding split_path resolve slashed
clean p =
    let body = slashed (reverse (resolve (is_abs p) [] (split_path p))) in
    if is_abs p then "/" ⧺ body else or_dot body

-- Empty elements are left out.
unfoldable pub join : String → String → String
unfolding clean
join String.[] String.[] = ""
join String.[] b = clean b
join a String.[] = clean a
join a b = clean (a ⧺ "/" ⧺ b)

abbrev cons_unless_last : Char → String → String
cons_unless_last c String.[] = if nat_eq (code c) b'/' then "/" else ""
cons_unless_last c (String.◌∷◌ d s) = String.◌∷◌ c (String.◌∷◌ d s)

-- Up to the last slash.
through_slash : String → String
through_slash String.[] = ""
through_slash (String.◌∷◌ c s) = cons_unless_last c (through_slash s)

-- `filepath.Dir`
unfoldable pub dir_of : String → String
unfolding through_slash clean
dir_of p = clean (through_slash p)

-- `strings.Cut(s, sep)` at the first character with this code.
unfoldable pub cut : ℕ → String → Option (String × String)
cut sep String.[] = none
cut sep (String.◌∷◌ c s) =
    let rest = cut sep s in
    if nat_eq (code c) sep
    then some ("", s)
    else elim rest [ none ↦ none | some (before, after) ↦ some (String.◌∷◌ c before, after) ]
