-- ===== src/Engine/Guests.antt =====
-- Exec, Put and the network faults of internal/engine/containerlab.go. A text that is written to a
-- command's input is its bytes.
pub mod Quoting
unfoldable pub use Quoting.{shell_quote}
use Prim.Native.Char.{code}
use labcontainers.Prelude.{
  ℕ, ◌*◌, ◌^◌, ◌%◌, String, Bool, true, false, not, ◌||◌, ◌&&◌, Option, none, some, List, [], ◌∷◌,
  ◌++◌, nat_eq, any, ◌==◌, if◌then◌else◌,
}
use labcontainers.Prelude.FilePath.{◌⧺◌}
use labcontainers.Text.{trim_space}
use labcontainers.Text.Numbers.{octal, decimal, parse_uint}
use labcontainers.Spec.Native.{Bytes}
use labcontainers.Actions.{Action, pure, fail, require, demand, gets, ◌>>=◌, ◌>>◌}
use labcontainers.Engine.Host.{
  Cmd, Host, Failure, refused, exited, Ran, run, run_input, checked, exits_well,
}
use labcontainers.Engine.Identity.{container_id}

abbrev is_empty : List String → Bool
is_empty [] = true
is_empty (_ ∷ _) = false

-- A missing input is an empty one, without `-i`.
abbrev or_empty : Option Bytes → Bytes
or_empty none = []
or_empty (some b) = b

abbrev interactive : Option Bytes → List String → List String
interactive none rest = rest
interactive (some b) rest = "-i" ∷ rest

abbrev has_input : Option Bytes → String
has_input none = "0"
has_input (some b) = "1"

abbrev pub exec_argv : String → String → String → Option Bytes → List String → List String
exec_argv container control timeout stdin argv =
    "docker"
    ∷ "exec"
    ∷ interactive stdin (
        container
        ∷ (if control == "qga"
            then "/labcontainers-guest" ∷ "exec" ∷ timeout ∷ has_input stdin ∷ argv
            else argv))

-- The deadline of the two commands is one of the answers of the machine.
unfoldable pub exec : String → String → String → ℕ → Option Bytes → List String → Cmd Ran
unfolding run_input ◌>>=◌
exec lab node control timeout stdin argv = do
  require (not (is_empty argv)) refused
  container ← container_id lab node
  machine ← gets (λ h. h.machine)
  run_input (or_empty stdin) (exec_argv container control (machine.duration timeout) stdin argv)

-- An exit code that is not zero is an error here.
abbrev pub expect : List String → Ran → Cmd (Unit {0})
expect argv r = if nat_eq r.exit_code 0 then pure tt else fail (exited argv r)

unfoldable pub put_guest : String → String → String → ℕ → Bytes → Cmd (Unit {0})
unfolding run_input ◌>>=◌
put_guest lab node path mode content = do
  container ← container_id lab node
  r ← run_input content (
      "docker"
      ∷ "exec"
      ∷ "-i"
      ∷ container
      ∷ "/labcontainers-guest"
      ∷ "put"
      ∷ "10m"
      ∷ octal mode
      ∷ path
      ∷ [])
  expect ("put" ∷ path ∷ []) r

abbrev pub second : ℕ
second = 1000000000

unfoldable pub write_command : String → String
unfolding shell_quote
write_command path =
    "mkdir -p -- \"$(dirname -- " ⧺ shell_quote path ⧺ ")\" && cat > " ⧺ shell_quote path

unfoldable pub put_container : String → String → String → String → ℕ → Bytes → Cmd (Unit {0})
unfolding exec
put_container lab node control path mode content = do
  r ← exec lab node control (120 * second) (some content) ("sh" ∷ "-c" ∷ write_command path ∷ [])
  expect ("put" ∷ path ∷ []) r
  r' ← exec lab node control (120 * second) none ("chmod" ∷ octal mode ∷ path ∷ [])
  expect ("chmod" ∷ path ∷ []) r'

unfoldable pub put : String → String → String → String → ℕ → Bytes → Cmd (Unit {0})
unfolding put_guest put_container
put lab node control path mode content =
    if control == "qga"
    then put_guest lab node path mode content
    else put_container lab node control path mode content

-- A name that stays below /sys/class/net.
abbrev has_separator : String → Bool
has_separator String.[] = false
has_separator (String.◌∷◌ c s) = (nat_eq (code c) b'/' || nat_eq (code c) 0) || has_separator s

abbrev pub is_interface : String → Bool
is_interface i = not (i == "" || i == "." || i == ".." || has_separator i)

abbrev pub read_flags : String → List String
read_flags interface = "cat" ∷ ("/sys/class/net/" ⧺ interface ⧺ "/flags") ∷ []

-- The administrative state: IFF_UP is bit 0.
unfoldable pub link_up : String → String → String → Cmd Bool
unfolding exec
link_up lab node interface = do
  require (is_interface interface) refused
  r ← exec lab node "container" (30 * second) none (read_flags interface)
  expect (read_flags interface) r
  flags ← demand (parse_uint (trim_space r.stdout)) refused
  pure (nat_eq (flags % 2) 1)

abbrev pub link_argv : String → Bool → List String
link_argv interface up = "ip" ∷ "link" ∷ "set" ∷ interface ∷ (if up then "up" else "down") ∷ []

unfoldable pub set_link : String → String → String → Bool → Cmd (Unit {0})
unfolding exec
set_link lab node interface up = do
  r ← exec lab node "container" (30 * second) none (link_argv interface up)
  expect (link_argv interface up) r

-- A flag with its value, unless this is zero.
abbrev flag : Bool → String → String → List String
flag is_zero name value = if is_zero then [] else name ∷ value ∷ []

-- A float64 that equals zero, of either sign.
abbrev is_zero_float : ℕ → Bool
is_zero_float bits = nat_eq (bits % 2 ^ 63) 0

unfoldable pub netem : String → String → ℕ → ℕ → ℕ → ℕ → ℕ → Cmd (Unit {0})
unfolding run ◌>>=◌
netem node interface delay jitter loss rate corruption = do
  m ← gets (λ h. h.machine)
  _ ← run (
      "tools"
        ∷ "netem"
        ∷ "set"
        ∷ "--node"
        ∷ node
        ∷ "--interface"
        ∷ interface
        ∷ flag (nat_eq delay 0) "--delay" (m.duration delay)
      ++ flag (nat_eq jitter 0) "--jitter" (m.duration jitter)
      ++ flag (is_zero_float loss) "--loss" (m.float loss)
      ++ flag (nat_eq rate 0) "--rate" (decimal rate)
      ++ flag (is_zero_float corruption) "--corruption" (m.float corruption))
  pure tt

unfoldable pub reset_netem : String → String → Cmd (Unit {0})
unfolding run ◌>>=◌
reset_netem node interface = do
  _ ← run ("tools" ∷ "netem" ∷ "reset" ∷ "--node" ∷ node ∷ "--interface" ∷ interface ∷ [])
  pure tt
