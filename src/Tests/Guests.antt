-- ===== src/Tests/Guests.antt =====
-- Small conversations with a guest agent, and each theorem about it applied in one.
use labcontainers.Prelude.{some}
use labcontainers.Prelude.{ℕ, zero, suc, ◌%◌, ◌/◌, ◌≡◌, refl, true, none, List, [], ◌∷◌, ok, nat_eq}
use labcontainers.GuestAgent.Channel.{
  Agent, Value, Line, message, garbage, number, object, null, no_fields, get_osinfo, is_object,
  call, handshake,
}
use labcontainers.GuestAgent.Channel.Ends.{Called, call-Called}
use labcontainers.GuestAgent.Channel.Synchronized.{Sifted, handshake-Sifted}
use labcontainers.GuestAgent.Files.{Body, more, eof, upload}
use labcontainers.GuestAgent.Files.Content.{Uploaded, upload-Uploaded}
use labcontainers.GuestAgent.Processes.{Outcome, execute, cleanup_exec}
use labcontainers.GuestAgent.Processes.Exits.{Executed, execute-Executed}
use labcontainers.GuestAgent.Serving.{ExecCall, outcome, serve_exec}
use labcontainers.GuestAgent.Serving.Limited.{Limited, serve_exec-Limited}
use labcontainers.GuestAgent.Processes.Reaped.{Released}
use labcontainers.GuestAgent.Processes.Cleanup.{cleanup_exec-Released}

abbrev nth : List Value → ℕ → Value
nth [] n = null
nth (v ∷ vs) zero = v
nth (v ∷ vs) (suc n) = nth vs n

abbrev line : Value → Line
line v = message (record { is_reply = true; value = v; error = none })

-- On an open channel a call asks five questions: the third is the write, the fourth its arrivals.
abbrev answering : List Value → Agent
answering vs = record {
  peer = record {
    holds = λ n. nat_eq (n % 5) 2;
    arrivals = λ n. garbage ∷ line (nth vs (n / 5)) ∷ [];
    token = λ n. 9;
    size = λ r. 100;
    to_lower = λ s. s;
  };
  asked = 0;
  connected = true;
  inbox = [];
  os = "linux";
  calls = [];
}

abbrev started : ℕ → Value
started pid = object (record no_fields { pid = pid })

abbrev exited : ℕ → Value
exited signal = object (record no_fields { exited = true; signal = signal; out = b'o' ∷ b'k' ∷ [] })

call-Called_example :
    let a = answering (object no_fields ∷ []) in
    let after = call get_osinfo is_object a in Called get_osinfo is_object a after.0 after.1
call-Called_example = call-Called get_osinfo is_object (answering (object no_fields ∷ []))

-- A new connection whose first lines are left from an earlier one.
abbrev reopened : Agent
reopened = record (answering []) {
  peer = record (answering []).peer {
    holds = λ n. true;
    arrivals = λ n. line (number 3) ∷ garbage ∷ line (number 9) ∷ [];
  };
}

reopened_opens : (handshake reopened).0 ≡ ok tt
unfolding handshake
reopened_opens = refl

handshake-Sifted_example :
    Sifted 9 (line (number 3) ∷ garbage ∷ line (number 9) ∷ []) (handshake reopened).1.inbox
handshake-Sifted_example = handshake-Sifted reopened reopened_opens

abbrev storing : Agent
storing = answering (number 7 ∷ object (record no_fields { count = 2 }) ∷ null ∷ null ∷ [])

abbrev two_bytes : Body
two_bytes = more (b'h' ∷ b'i' ∷ []) (eof [])

storing_stores : (upload two_bytes "/etc/motd" storing).0 ≡ ok tt
unfolding upload
storing_stores = refl

upload-Uploaded_example : Uploaded two_bytes (upload two_bytes "/etc/motd" storing).1
upload-Uploaded_example = upload-Uploaded two_bytes "/etc/motd" storing storing_stores

-- A command that runs for a while and is ended by signal 9.
abbrev running : Agent
running = answering (started 42 ∷ object no_fields ∷ exited 9 ∷ [])

abbrev killed : Outcome
killed = record { stdout = b'o' ∷ b'k' ∷ []; stderr = []; exit_code = 137 }

running_returns : (execute 5 5 ("sleep" ∷ "9" ∷ []) none running).0 ≡ ok killed
unfolding execute
running_returns = refl

execute-Executed_example :
    Executed "sleep"
      ("9" ∷ [])
      none
      running
      killed
      (execute 5 5 ("sleep" ∷ "9" ∷ []) none running).1
execute-Executed_example = execute-Executed 5 5 "sleep" ("9" ∷ []) none running running_returns

-- A process that still runs, and the helper that ends it.
abbrev stuck : Agent
stuck = answering (object no_fields ∷ started 43 ∷ exited 15 ∷ exited 0 ∷ [])

stuck_ends : (cleanup_exec 5 42 stuck).0 ≡ ok tt
unfolding cleanup_exec
stuck_ends = refl

cleanup_exec-Released_example : Released [] 42 (cleanup_exec 5 42 stuck).1
cleanup_exec-Released_example = cleanup_exec-Released 5 42 stuck stuck_ends

abbrev sleeping : ExecCall
sleeping = record {
  argv = some ("sleep" ∷ "9" ∷ []);
  timeout = some 10;
  stdin = none;
  seconds = "9.998";
}

sleeping_responds : (serve_exec 5 5 sleeping running).0 ≡ outcome killed
unfolding serve_exec
sleeping_responds = refl

serve_exec-Limited_example : Limited sleeping running killed (serve_exec 5 5 sleeping running).1
serve_exec-Limited_example = serve_exec-Limited 5 5 sleeping running sleeping_responds
