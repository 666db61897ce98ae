-- ===== src/Server/Guest.antt =====
-- Exec and Put of internal/server/server.go.
use labcontainers.Prelude.{
  ℕ, ◌*◌, String, not, ◌&&◌, Option, List, ltb, nat_eq, ◌==◌, if◌then◌else◌, length,
}
use labcontainers.Spec.Native.{Bytes}
use labcontainers.World.{
  invalid_argument, internal, Act, ExecResult, exec, put, pure, call, answer, status, require,
  ◌>>=◌, ◌>>◌,
}
use labcontainers.Limits.{guest_exec_stdin}
use labcontainers.Server.Records.{NodeRef, node_of, event, duration_or}

pub record ExecRequest : Type 0 where
  pub node : Option NodeRef
  pub argv : List String
  pub stdin : Bytes
  pub timeout_millis : ℕ

abbrev pub millisecond : ℕ
millisecond = 1000000

unfoldable pub exec_node : ExecRequest → Act ExecResult
unfolding call answer
exec_node req = do
  (r, n) ← node_of req.node
  let timeout = duration_or (120000 * millisecond) millisecond req.timeout_millis
  require (not (n.control == "qga" && ltb guest_exec_stdin (length req.stdin))) invalid_argument
  status internal (call (exec r.name n.name n.control timeout req.stdin req.argv))
  result ← answer (λ e k. e.result k)
  event r "node.exec"
  pure result

pub record PutRequest : Type 0 where
  pub node : Option NodeRef
  pub path : String
  pub mode : ℕ
  pub content : Bytes

unfoldable pub put_node : PutRequest → Act (Unit {0})
unfolding call
put_node req = do
  (r, n) ← node_of req.node
  let mode = if nat_eq req.mode 0 then 384 else req.mode
  status internal (call (put r.name n.name n.control req.path mode req.content))
  event r "node.put"
