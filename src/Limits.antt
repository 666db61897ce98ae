-- ===== src/Limits.antt =====
-- internal/transferlimits/limits.go: the sizes in bytes that a transfer may have.
use labcontainers.Prelude.{ℕ, ◌*◌, ◌-◌, ◌/◌, ◌^◌}

abbrev pub qga_message : ℕ
qga_message = 64 * 2 ^ 20

abbrev pub guest_exec_framing : ℕ
guest_exec_framing = 2 ^ 20

abbrev pub guest_exec_stdin : ℕ
guest_exec_stdin = (qga_message - guest_exec_framing) / 4 * 3

abbrev pub upload_limit : ℕ
upload_limit = 256 * 2 ^ 20
