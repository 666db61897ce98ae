-- ===== src/GuestAgent/Serving.antt =====
-- `ServeHTTP` and `servePut` of pkg/guestagent/guestagent.go. Headers are here as the libraries decode
-- them; a context that `timeout` ends has `ticks` left for the loops of Processes.
pub mod Limited
use Prim.Native.Char.{code}
use labcontainers.Prelude.{
  ℕ, ◌^◌, String, Bool, true, false, not, ◌&&◌, ◌||◌, Option, none, some, List, [], ◌∷◌, ltb,
  nat_eq, ◌==◌, if◌then◌else◌, Result, ok, err,
}
use labcontainers.Prelude.FilePath.{◌⧺◌, dir_of}
use labcontainers.Limits.{upload_limit}
use labcontainers.Spec.Native.{Bytes}
use labcontainers.Text.Numbers.{octal}
use labcontainers.Actions.{pure, fail, require, when, ◌>>=◌, ◌>>◌}
use labcontainers.GuestAgent.Channel.{Talk, Agent, Failure, refused}
use labcontainers.GuestAgent.Files.{Body, upload}
use labcontainers.GuestAgent.Processes.{Outcome, execute, guest_os, is_windows}

-- `stdin` is the request's body if it has one, with the error of reading it, its bound included.
-- `seconds` prints what is left of the timeout, and `lower` is strings.ToLower.
pub record ExecCall : Type 0 where
  pub argv : Option (List String)
  pub timeout : Option ℕ
  pub stdin : Option (Option Bytes)
  pub seconds : String

pub record PutCall : Type 0 where
  pub content_length : ℕ
  pub path : String
  pub mode : Option ℕ
  pub timeout : Option ℕ
  pub body : Body

-- The response: an HTTP error, or the encoded `Result` with the code 125 in place of an error.
pub data Response : Type 0 where
  bad_request too_big : Response
  outcome : Outcome → Response
  failed : Failure → Response

abbrev pub is_set : Option (List String) → Bool
is_set (some (_ ∷ _)) = true
is_set _ = false

abbrev pub is_timeout : Option ℕ → Bool
is_timeout none = false
is_timeout (some n) = ltb 0 n && ltb n (2 ^ 63)

abbrev pub or_nothing : Option (List String) → List String
or_nothing none = []
or_nothing (some argv) = argv

-- A command of a guest that is not Windows has a time limit in the guest, too.
abbrev pub limited : Bool → String → List String → List String
limited windows seconds argv =
    if windows then argv else "timeout" ∷ "--kill-after=5s" ∷ seconds ∷ argv

abbrev pub read_stdin : Option (Option Bytes) → Talk (Option Bytes)
read_stdin none = pure none
read_stdin (some none) = fail refused
read_stdin (some (some input)) = pure (some input)

unfoldable pub run_command : ℕ → ℕ → List String → ExecCall → Talk Outcome
unfolding guest_os execute
run_command ticks cleanup_ticks argv request = do
  input ← read_stdin request.stdin
  os ← guest_os
  execute ticks cleanup_ticks (limited (is_windows os) request.seconds argv) input

abbrev pub respond : Result Failure Outcome → Response
respond (ok r) = outcome r
respond (err e) = failed e

unfoldable pub serve_exec : ℕ → ℕ → ExecCall → Agent → Response × Agent
unfolding run_command
serve_exec ticks cleanup_ticks request a =
    let run = run_command ticks cleanup_ticks (or_nothing request.argv) request a in
    if is_set request.argv && is_timeout request.timeout
    then (respond run.0, run.1)
    else (bad_request, a)

-- The path up to the last separator, and `none` where there is none. A Windows path has two.
unfoldable pub parent : String → Option String
parent String.[] = none
parent (String.◌∷◌ c s) =
    let rest = parent s in
    elim rest [
      | some p ↦ some (String.◌∷◌ c p)
      | none ↦ if nat_eq (code c) b'\\' || nat_eq (code c) b'/' then some "" else none
    ]

-- `strings.ReplaceAll(s, "'", "''")`
unfoldable pub double_quotes : String → String
double_quotes String.[] = String.[]
double_quotes (String.◌∷◌ c s) =
    let rest = double_quotes s in if nat_eq (code c) b'\'' then "''" ⧺ rest else String.◌∷◌ c rest

abbrev or_here : Option String → String
or_here none = "."
or_here (some p) = p

abbrev pub parent_command : Bool → String → List String
parent_command windows path =
    if windows
    then "C:\\Windows\\System32\\WindowsPowerShell\\v1.0\\powershell.exe"
      ∷ "-NoProfile"
      ∷ "-NonInteractive"
      ∷ "-Command"
      ∷ ("[System.IO.Directory]::CreateDirectory('"
          ⧺ double_quotes (or_here (parent path))
          ⧺ "') | Out-Null")
      ∷ []
    else "mkdir" ∷ "-p" ∷ dir_of path ∷ []

-- A helper of `servePut`, which has to exit with zero.
unfoldable pub run_helper : ℕ → ℕ → List String → Talk (Unit {0})
unfolding execute
run_helper ticks cleanup_ticks argv = do
  r ← execute ticks cleanup_ticks argv none
  require (nat_eq r.exit_code 0) refused

unfoldable pub store_file : ℕ → ℕ → ℕ → PutCall → Talk (Unit {0})
unfolding run_helper upload guest_os when
store_file ticks cleanup_ticks mode request = do
  os ← guest_os
  run_helper ticks cleanup_ticks (parent_command (is_windows os) request.path)
  upload request.body request.path
  when (not (is_windows os))
      (run_helper ticks cleanup_ticks ("chmod" ∷ octal mode ∷ request.path ∷ []))

abbrev no_output : Outcome
no_output = record { stdout = []; stderr = []; exit_code = 0 }

abbrev finished : Result Failure (Unit {0}) → Response
finished (ok _) = outcome no_output
finished (err e) = failed e

-- With a mode and a path.
unfoldable pub serve_file : ℕ → ℕ → ℕ → PutCall → Agent → Response × Agent
unfolding store_file
serve_file ticks cleanup_ticks mode request a =
    let run = store_file ticks cleanup_ticks mode request a in
    if is_timeout request.timeout then (finished run.0, run.1) else (bad_request, a)

unfoldable pub serve_put : ℕ → ℕ → PutCall → Agent → Response × Agent
unfolding serve_file
serve_put ticks cleanup_ticks request a =
    if ltb upload_limit request.content_length
    then (too_big, a)
    else if request.path == ""
    then (bad_request, a)
    else elim request.mode [
      | none ↦ (bad_request, a)
      | some mode ↦ serve_file ticks cleanup_ticks mode request a
    ]
