-- ===== src/Provision/Windows.antt =====
-- pkg/windows/features.go and recovery.go: PowerShell scripts in a Windows guest. The encoding of a
-- script (UTF-16 and base64) and the decoding of JSON are parameters, as is the embedded script.
pub mod Scripts
pub mod Restarted
use labcontainers.Prelude.{
  ℕ, zero, suc, ◌*◌, String, Bool, true, false, not, ◌&&◌, ◌||◌, Option, none, some, List, [], ◌∷◌,
  Result, ok, err, ltb, leb, nat_eq, ◌==◌, any, if◌then◌else◌,
}
use labcontainers.Prelude.FilePath.{◌⧺◌}
use labcontainers.Actions.{Action, pure, fail, try, require, of_result, gets, ◌>>=◌, ◌>>◌}
use labcontainers.Kubernetes.Matrix.{is_digit, within, all_chars, has_prefix}

-- strings.Contains
unfoldable pub contains : String → String → Bool
contains part String.[] = has_prefix part String.[]
contains part (String.◌∷◌ c s) =
    let rest = contains part s in has_prefix part (String.◌∷◌ c s) || rest

-- What the guest answers: an error, no response at all, or an exit code with its output.
pub data Answer : Type 0 where
  failed missing : Answer
  exited : ℕ → String → Answer

pub record Call : Type 0 where
  pub timeout : ℕ
  pub argv : List String
  pub answer : Answer

-- What the guest has been asked, the newest first.
abbrev pub Calls : Type 0
Calls = List Call

pub record State : Type 0 where
  pub installed : Bool
  pub reboot_required : Bool
  pub boot_id : String

-- `polls` is how often the pause ends before the context of the reboot does.
pub record Guest : Type 0 where
  pub answers : Calls → ℕ → List String → Answer
  pub encode : String → String
  pub decode_json : String → Option State
  pub polls : Calls → ℕ

pub data Trouble : Type 0 where
  refused broken not_installed reboot_forbidden too_late : Trouble

abbrev pub Ask : Type 0 → Type 0
Ask A = Action Calls Trouble A

abbrev pub is_configured : Answer → Bool
is_configured failed = false
is_configured missing = false
is_configured (exited code out) = nat_eq code 0 && contains "UNATTENDED_RECOVERY_CONFIGURED" out

-- Durations are in nanoseconds.
pub record Options : Type 0 where
  pub names : List String
  pub include_management_tools : Bool
  pub allow_reboot : Bool
  pub install_timeout : ℕ
  pub reboot_timeout : ℕ
  pub poll_interval : ℕ

abbrev preamble : String
preamble = "$ErrorActionPreference='Stop'; $ProgressPreference='SilentlyContinue'; "

unfoldable pub power_shell_command : Guest → String → List String
power_shell_command g script =
    "powershell.exe"
    ∷ "-NoProfile"
    ∷ "-NonInteractive"
    ∷ "-EncodedCommand"
    ∷ g.encode (preamble ⧺ script)
    ∷ []

abbrev is_alphanumeric : ℕ → Bool
is_alphanumeric c = is_digit c || within b'a' b'z' c || within b'A' b'Z' c

-- `^[A-Za-z0-9][A-Za-z0-9-]*$`
abbrev pub is_feature : String → Bool
is_feature String.[] = false
is_feature (String.◌∷◌ c s) =
    all_chars is_alphanumeric (String.◌∷◌ c String.[])
    && all_chars (λ x. is_alphanumeric x || nat_eq x b'-') s

abbrev pub all_features : List String → Bool
all_features [] = true
all_features (n ∷ ns) = is_feature n && all_features ns

unfoldable pub quoted : List String → String
quoted [] = ""
quoted (n ∷ []) = "'" ⧺ n ⧺ "'"
quoted (n ∷ m ∷ ns) = "'" ⧺ n ⧺ "'," ⧺ quoted (m ∷ ns)

unfoldable pub query_script : List String → String
unfolding quoted
query_script names =
    "$names=@("
    ⧺ quoted names
    ⧺ "); $features=@(Get-WindowsFeature -Name $names); if($features.Count -ne $names.Count){throw 'Requested feature not found'}; $missing=@($features | Where-Object {-not $_.Installed}); "

unfoldable pub install_script : List String → Bool → String
unfolding query_script
install_script names tools =
    query_script names
    ⧺ "$reboot=$false; if($missing.Count){$result=Install-WindowsFeature -Name $missing.Name"
    ⧺ (if tools then " -IncludeManagementTools" else "")
    ⧺ "; if(-not $result.Success){throw 'Windows feature installation failed'}; $reboot=([string]$result.RestartNeeded -ne 'No')}; "
    ⧺ query_script names
    ⧺ "@{installed=($missing.Count -eq 0);rebootRequired=$reboot;bootId=[string](Get-CimInstance Win32_OperatingSystem).LastBootUpTime.ToUniversalTime().Ticks} | ConvertTo-Json -Compress"

unfoldable pub probe_script : List String → String
unfolding query_script
probe_script names =
    query_script names
    ⧺ "@{installed=($missing.Count -eq 0);bootId=[string](Get-CimInstance Win32_OperatingSystem).LastBootUpTime.ToUniversalTime().Ticks} | ConvertTo-Json -Compress"

abbrev pub shutdown_script : String
shutdown_script = "shutdown.exe /r /t 2; if($LASTEXITCODE -ne 0){exit $LASTEXITCODE}"

abbrev second : ℕ
second = 1000000000

abbrev pub or_default : ℕ → ℕ → ℕ
or_default default n = if nat_eq n 0 then default else n

abbrev is_long : ℕ → Bool
is_long n = leb 1000000 n

abbrev pub well : Bool → String → Result Trouble String
well true out = ok out
well false out = err broken

-- The output of a script that ran well.
abbrev pub output_of : Answer → Result Trouble String
output_of failed = err broken
output_of missing = err broken
output_of (exited code out) = well (nat_eq code 0) out

abbrev pub booted : Bool → State → Result Trouble State
booted true s = err broken
booted false s = ok s

-- A state with the identity of a boot.
abbrev pub decoded : Option State → Result Trouble State
decoded none = err broken
decoded (some s) = booted (s.boot_id == "") s

abbrev pub is_some_name : List String → Bool
is_some_name [] = false
is_some_name (_ ∷ _) = true

abbrev pub has_deadlines : Options → Bool
has_deadlines options =
    is_long (or_default (480 * second) options.install_timeout)
    && is_long (or_default (300 * second) options.reboot_timeout)
    && is_long (or_default (2 * second) options.poll_interval)

module _ (g : Guest) where
  unfoldable pub exec_with_timeout : ℕ → List String → Ask Answer
  exec_with_timeout timeout argv h = (
    ok (g.answers h timeout argv),
    record { timeout = timeout; argv = argv; answer = g.answers h timeout argv } ∷ h,
  )

  -- `execute`
  unfoldable pub run_script : ℕ → String → Ask String
  unfolding exec_with_timeout power_shell_command ◌>>=◌
  run_script timeout script = do
    a ← exec_with_timeout timeout (power_shell_command g script)
    of_result (output_of a) broken

  -- `decode`
  unfoldable pub decode : String → Result Trouble State
  decode body = decoded (g.decode_json body)

  unfoldable pub observe : ℕ → String → Ask State
  unfolding run_script decode
  observe timeout script = do body ← run_script timeout script; of_result (decode body) broken

  abbrev pub is_back : State → Result Trouble State → Bool
  is_back before (ok after) = after.installed && not (after.boot_id == before.boot_id)
  is_back before (err e) = false

  -- The loop that waits for the reboot.
  unfoldable pub await_reboot : ℕ → List String → State → Ask (Unit {0})
  unfolding observe try ◌>>=◌
  await_reboot zero names before = do
    seen ← try (observe (15 * second) (probe_script names))
    require (is_back before seen) too_late
  await_reboot (suc polls) names before = do
    seen ← try (observe (15 * second) (probe_script names))
    if is_back before seen then pure tt else await_reboot polls names before

  unfoldable pub reboot : List String → State → Ask (Unit {0})
  unfolding run_script await_reboot
  reboot names before = do
    _ ← run_script (15 * second) shutdown_script
    polls ← gets g.polls
    await_reboot polls names before

  unfoldable pub after_install : Options → State → Ask (Unit {0})
  unfolding reboot
  after_install options before =
      if before.reboot_required
      then (require options.allow_reboot reboot_forbidden >> reboot options.names before)
      else require before.installed not_installed

  unfoldable pub ensure_features : Options → Ask (Unit {0})
  unfolding observe after_install
  ensure_features options = do
    require (is_some_name options.names) refused
    require (all_features options.names) refused
    require (has_deadlines options) refused
    before ←
        observe (or_default (480 * second) options.install_timeout)
          (install_script options.names options.include_management_tools)
    after_install options before

  unfoldable pub configure_unattended_recovery : String → Ask (Unit {0})
  unfolding exec_with_timeout contains ◌>>=◌
  configure_unattended_recovery script = do
    a ← exec_with_timeout (60 * second) (power_shell_command g script)
    require (is_configured a) broken
