-- ===== src/GuestAgent/Channel.antt =====
-- `Agent` and `Call` of pkg/guestagent/guestagent.go. The gate lets one call at a time use the channel,
-- so a call is one action. The answer at `n` of a `Peer` is that to the n-th question.
pub mod Calls
pub mod Ends
pub mod Synchronized
use labcontainers.Prelude.{
  ℕ, suc, String, Bool, true, false, not, Option, none, some, List, [], ◌∷◌, ◌++◌, leb, nat_eq,
  if◌then◌else◌, Result, ok, err,
}
use labcontainers.Spec.Native.{Bytes}
use labcontainers.Limits.{qga_message}
use labcontainers.Actions.{
  Action, pure, fail, require, demand, gets, modify, try, when, ◌>>=◌, ◌>>◌,
}

-- What the code asks the guest agent for. An `int` of Go is its 64 bits, here and below.
pub data Request : Type 0 where
  sync : ℕ → Request
  get_osinfo : Request
  file_open : String → Request
  file_write : ℕ → Bytes → Request
  file_flush file_close : ℕ → Request
  exec : String → List String → Bool → Option Bytes → Request
  exec_status : ℕ → Request

-- The fields that the code looks for in an object; a missing one is Go's zero value.
pub record Fields : Type 0 where
  pub id : String
  pub count : ℕ
  pub pid : ℕ
  pub exited : Bool
  pub exit_code : ℕ
  pub signal : ℕ
  pub out : Bytes
  pub err_out : Bytes
  pub out_truncated : Bool
  pub err_truncated : Bool

abbrev pub no_fields : Fields
no_fields = record {
  id = "";
  count = 0;
  pid = 0;
  exited = false;
  exit_code = 0;
  signal = 0;
  out = [];
  err_out = [];
  out_truncated = false;
  err_truncated = false;
}

-- A returned value: `other` has another type, or a field of another type.
pub data Value : Type 0 where
  null missing other : Value
  number : ℕ → Value
  object : Fields → Value

-- A line that is JSON, as `Call` decodes it.
pub record Reply : Type 0 where
  pub is_reply : Bool
  pub value : Value
  pub error : Option String

pub data Line : Type 0 where
  garbage : Line
  message : Reply → Line

pub data Failure : Type 0 where
  expired unwritten unreadable too_large short_write broken_body no_process truncated empty_command
        refused :
      Failure
  guest_error : String → Failure

-- `arrivals` are the lines that come after a write, until the deadline that the code has set or the
-- end of the connection. `size` is that of the marshalled request, `to_lower` is strings.ToLower.
pub record Peer : Type 0 where
  pub holds : ℕ → Bool
  pub arrivals : ℕ → List Line
  pub token : ℕ → ℕ
  pub size : Request → ℕ
  pub to_lower : String → String

-- A call with its result.
pub record Exchange : Type 0 where
  pub request : Request
  pub result : Result Failure Value

-- `Agent`: `connected` tells whether `conn` is set, `inbox` is what its reader has left, and `calls`
-- the history, the newest first.
pub record Agent : Type 0 where
  pub peer : Peer
  pub asked : ℕ
  pub connected : Bool
  pub inbox : List Line
  pub os : String
  pub calls : List Exchange

abbrev pub Talk : Type 0 → Type 0
Talk A = Action Agent Failure A

unfoldable pub ask : Talk Bool
ask a = (ok (a.peer.holds a.asked), record a { asked = suc a.asked })

-- `ctx.Err() != nil`
abbrev pub in_time : Talk (Unit {0})
in_time = do late ← ask; require (not late) expired

abbrev pub receive : Talk (Unit {0})
receive = modify (λ a. record a { asked = suc a.asked; inbox = a.inbox ++ a.peer.arrivals a.asked })

-- `conn.Write`
unfoldable pub write : Request → Talk (Unit {0})
unfolding ask ◌>>=◌
write r = do done ← ask; require done unwritten; receive

-- `Read`: the first line that is JSON, and those after it. `none` is the reader's error.
unfoldable pub read_from : List Line → Option (Reply × List Line)
read_from [] = none
read_from (garbage ∷ ls) = read_from ls
read_from (message r ∷ ls) = some (r, ls)

-- The decoding of a value as an integer.
abbrev pub integer : Value → Option ℕ
integer null = some 0
integer (number n) = some n
integer _ = none

-- The field `return` of a reply as an integer, which is zero where it is missing.
abbrev pub returned : Value → Option ℕ
returned missing = some 0
returned v = integer v

abbrev pub echoes : ℕ → Reply → Bool
echoes token r = elim (returned r.value) [ none ↦ false | some n ↦ nat_eq n token ]

-- The loop of the handshake: the lines after the one that echoes the token.
unfoldable pub await : ℕ → List Line → Option (List Line)
await token [] = none
await token (garbage ∷ ls) = await token ls
await token (message r ∷ ls) = let rest = await token ls in if echoes token r then some ls else rest

abbrev pub keep_inbox : List Line → Talk (Unit {0})
keep_inbox ls = modify (λ a. record a { inbox = ls })

-- `dialUntilReady` tries again until it is connected or the context ends.
unfoldable pub connect : Talk (Unit {0})
unfolding ask ◌>>=◌
connect = do
  found ← ask
  require found expired
  modify (λ a. record a { connected = true; inbox = [] })

unfoldable pub handshake : Talk (Unit {0})
unfolding write await
handshake = do
  token ← gets (λ a. a.peer.token a.asked)
  write (sync token)
  inbox ← gets (λ a. a.inbox)
  rest ← demand (await token inbox) unreadable
  keep_inbox rest

abbrev pub without_error : Reply → Talk (Unit {0})
without_error r = elim r.error [ none ↦ pure tt | some desc ↦ fail (guest_error desc) ]

-- A reply; `fits` tells whether its value can be decoded as the caller wants.
abbrev pub accept : (Value → Bool) → Reply → Talk Value
accept fits r = do
  require r.is_reply unreadable
  without_error r
  require (fits r.value) unreadable
  pure r.value

abbrev pub keep_and_accept : (Value → Bool) → Reply × List Line → Talk Value
keep_and_accept fits (r, rest) = do keep_inbox rest; accept fits r

unfoldable pub take_reply : (Value → Bool) → Talk Value
unfolding read_from ◌>>=◌
take_reply fits = do
  inbox ← gets (λ a. a.inbox)
  found ← demand (read_from inbox) unreadable
  keep_and_accept fits found

-- The body of `Call`.
unfoldable pub converse : Request → (Value → Bool) → Talk Value
unfolding connect handshake take_reply write when
converse request fits = do
  in_time
  connected ← gets (λ a. a.connected)
  when (not connected) (connect >> handshake)
  peer ← gets (λ a. a.peer)
  require (leb (peer.size request) qga_message) too_large
  write request
  take_reply fits

-- The deferred function: the context's error comes first, and after any error the connection is closed.
abbrev pub verdict : Bool → Result Failure Value → Result Failure Value
verdict true r = err expired
verdict false r = r

abbrev pub settled : Request → Result Failure Value → Agent → Agent
settled request (ok v) a = record a {
  calls = record { request = request; result = ok v } ∷ a.calls;
}
settled request (err e) a = record a {
  calls = record { request = request; result = err e } ∷ a.calls;
  connected = false;
  inbox = [];
}

unfoldable pub conclude : Request → Result Failure Value → Talk Value
conclude request r a = (r, settled request r a)

unfoldable pub call : Request → (Value → Bool) → Talk Value
unfolding converse conclude try
call request fits = do
  in_time
  r ← try (converse request fits)
  late ← ask
  conclude request (verdict late r)

-- The decodings that the callers ask for.
abbrev pub anything : Value → Bool
anything _ = true

abbrev pub is_integer : Value → Bool
is_integer v = elim (integer v) [ none ↦ false | some n ↦ true ]

abbrev pub is_object : Value → Bool
is_object null = true
is_object (object f) = true
is_object _ = false

abbrev pub integer_of : Value → ℕ
integer_of (number n) = n
integer_of _ = 0

abbrev pub fields_of : Value → Fields
fields_of (object f) = f
fields_of _ = no_fields
