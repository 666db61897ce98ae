-- ===== src/GuestAgent/Files.antt =====
-- `Upload` of pkg/guestagent/guestagent.go.
pub mod Content
use labcontainers.Prelude.{
  ℕ, String, Bool, true, false, List, [], ◌∷◌, ◌++◌, length, nat_eq, if◌then◌else◌, Result, ok, err,
}
use labcontainers.Spec.Native.{Bytes}
use labcontainers.Actions.{Action, pure, fail, require, try, ◌>>=◌, ◌>>◌}
use labcontainers.GuestAgent.Channel.{
  Talk, Agent, Value, Failure, broken_body, short_write, call, file_open, file_write, file_flush,
  file_close, anything, is_integer, is_object, integer_of, fields_of,
}

-- What the reads of a body return: bytes, perhaps none, with no error, with io.EOF or with another.
pub data Body : Type 0 where
  more : Bytes → Body → Body
  eof broken : Bytes → Body

-- A read that returned bytes is written, and all of it has to be.
unfoldable pub write_chunk : ℕ → Bytes → Talk (Unit {0})
unfolding call pure
write_chunk handle [] = pure tt
write_chunk handle (b ∷ bs) = do
  written ← call (file_write handle (b ∷ bs)) is_object
  require (nat_eq (fields_of written).count (length (b ∷ bs))) short_write

unfoldable pub write_body : ℕ → Body → Talk (Unit {0})
unfolding write_chunk ◌>>=◌
write_body handle (more bs rest) = do write_chunk handle bs; write_body handle rest
write_body handle (eof bs) = do
  write_chunk handle bs
  _ ← call (file_flush handle) anything
  pure tt
write_body handle (broken bs) = do write_chunk handle bs; fail broken_body

-- `errors.Join` of the upload's result and that of the close.
abbrev pub joined : Result Failure (Unit {0}) → Result Failure Value → Talk (Unit {0})
joined (err e) _ = fail e
joined (ok _) (err e) = fail e
joined (ok _) (ok _) = pure tt

unfoldable pub upload : Body → String → Talk (Unit {0})
unfolding write_body try
upload body path = do
  opened ← call (file_open path) is_integer
  let handle = integer_of opened
  result ← try (write_body handle body)
  closed ← try (call (file_close handle) anything)
  joined result closed
