-- ===== src/GuestAgent/Channel/Calls.antt =====
-- What the body of `Call` in pkg/guestagent/guestagent.go leaves as it is, and what it has seen where it
-- succeeds.
use labcontainers.Prelude.{◌≡◌, refl, sym, ap, ◌∙◌, Bool, true, not, List, [], leb, ok}
use labcontainers.Limits.{qga_message}
use labcontainers.Actions.{pure, fail, require, demand, gets, modify, when, ◌>>=◌, ◌>>◌}
use labcontainers.Actions.Rules.{bind-run, require-run, demand-run}
use labcontainers.Actions.Keeps.{
  Keeps, bind-Keeps, require-Keeps, demand-Keeps, when-Keeps, option-Keeps,
}
use labcontainers.GuestAgent.Channel.{
  Request, Value, Reply, Line, expired, unwritten, unreadable, too_large, guest_error, Peer,
  Exchange, Agent, Talk, ask, in_time, receive, write, read_from, await, keep_inbox, connect,
  handshake, without_error, accept, keep_and_accept, take_reply, converse, sync,
}

-- The history and the peer, which a call's body leaves as they are.
abbrev pub history_of : Agent → List Exchange × Peer
history_of a = (a.calls, a.peer)

pub in_time-Keeps : Keeps history_of in_time
unfolding ask
in_time-Keeps =
    bind-Keeps history_of ask (λ late. require (not late) expired) (λ a. refl)
      (λ late. require-Keeps history_of (not late) expired)

write-Keeps : (r : Request) → Keeps history_of (write r)
unfolding write
write-Keeps r =
    bind-Keeps history_of ask (λ done. require done unwritten >> receive) (λ a. refl)
      (λ done.
        bind-Keeps history_of (require done unwritten) (λ _. receive)
          (require-Keeps history_of done unwritten) (λ _ a. refl))

connect-Keeps : Keeps history_of connect
unfolding connect
connect-Keeps =
    let mark : Talk (Unit {0}) = modify (λ a. record a { connected = true; inbox = [] }) in
    bind-Keeps history_of ask (λ found. require found expired >> mark) (λ a. refl)
      (λ found.
        bind-Keeps history_of (require found expired) (λ _. mark)
          (require-Keeps history_of found expired) (λ _ a. refl))

handshake-Keeps : Keeps history_of handshake
unfolding handshake
handshake-Keeps a =
    let token = a.peer.token a.asked in
    let inbox_of : Talk (List Line) = gets (λ a. a.inbox) in
    let sift : List Line → Talk (List Line) = λ ls. demand (await token ls) unreadable in
    bind-Keeps history_of (write (sync token)) (λ _. inbox_of >>= λ ls. sift ls >>= keep_inbox)
      (write-Keeps (sync token))
      (λ _.
        bind-Keeps history_of inbox_of (λ ls. sift ls >>= keep_inbox) (λ a. refl)
          (λ ls.
            bind-Keeps history_of (sift ls) keep_inbox
              (demand-Keeps history_of (await token ls) unreadable) (λ rest a. refl)))
      a

abbrev opening : Bool → Talk (Unit {0})
opening connected = when (not connected) (connect >> handshake)

opening-Keeps : (connected : Bool) → Keeps history_of (opening connected)
opening-Keeps connected =
    when-Keeps history_of (not connected) (connect >> handshake)
      (bind-Keeps history_of connect (λ _. handshake) connect-Keeps (λ _. handshake-Keeps))

without_error-Keeps : (r : Reply) → Keeps history_of (without_error r)
unfolding pure fail
without_error-Keeps r =
    option-Keeps history_of r.error (pure tt) (λ desc. fail (guest_error desc)) (λ a. refl)
      (λ desc a. refl)

accept-Keeps : (fits : Value → Bool) (r : Reply) → Keeps history_of (accept fits r)
unfolding pure
accept-Keeps fits r =
    let last : Talk Value = pure r.value in
    let fitting : Talk Value = require (fits r.value) unreadable >> last in
    let sound : Talk Value = without_error r >> fitting in
    bind-Keeps history_of (require r.is_reply unreadable) (λ _. sound)
      (require-Keeps history_of r.is_reply unreadable)
      (λ _.
        bind-Keeps history_of (without_error r) (λ _. fitting) (without_error-Keeps r)
          (λ _.
            bind-Keeps history_of (require (fits r.value) unreadable) (λ _. last)
              (require-Keeps history_of (fits r.value) unreadable) (λ _ a. refl)))

take_reply-Keeps : (fits : Value → Bool) → Keeps history_of (take_reply fits)
unfolding take_reply
take_reply-Keeps fits =
    let inbox_of : Talk (List Line) = gets (λ a. a.inbox) in
    let find : List Line → Talk (Reply × List Line) = λ ls. demand (read_from ls) unreadable in
    bind-Keeps history_of inbox_of (λ ls. find ls >>= keep_and_accept fits) (λ a. refl)
      (λ ls.
        bind-Keeps history_of (find ls) (keep_and_accept fits)
          (demand-Keeps history_of (read_from ls) unreadable)
          (λ (r, rest).
            bind-Keeps history_of (keep_inbox rest) (λ _. accept fits r) (λ a. refl)
              (λ _. accept-Keeps fits r)))

accept-ok :
    (fits : Value → Bool) (r : Reply) (a : Agent) {v : Value}
    → (accept fits r a).0 ≡ ok v
    → fits v ≡ true
unfolding pure
accept-ok fits r a e =
    let last : Talk Value = pure r.value in
    let fitting : Talk Value = require (fits r.value) unreadable >> last in
    let sound : Talk Value = without_error r >> fitting in
    let (_, at1) = require-run r.is_reply unreadable sound a e in
    let (_, _, at2) = bind-run (without_error r) (λ _. fitting) a (sym (ap (λ p. p.0) at1) ∙ e) in
    let b = (without_error r a).1 in
    let (fit, at3) =
      require-run (fits r.value) unreadable last b (sym (ap (λ p. p.0) (at1 ∙ at2)) ∙ e) in
    let same : ok r.value ≡ ok _ = sym (ap (λ p. p.0) (at1 ∙ at2 ∙ at3)) ∙ e in cc

take_reply-ok :
    (fits : Value → Bool) (a : Agent) {v : Value} → (take_reply fits a).0 ≡ ok v → fits v ≡ true
unfolding take_reply
take_reply-ok fits a e =
    let ((r, rest), _, step) =
      demand-run (read_from a.inbox) unreadable (keep_and_accept fits) a e in
    accept-ok fits r (record a { inbox = rest }) (sym (ap (λ p. p.0) step) ∙ e)

abbrev sending : Request → (Value → Bool) → Peer → Talk Value
sending request fits peer = do
  require (leb (peer.size request) qga_message) too_large
  write request
  take_reply fits

sending-Keeps :
    (request : Request) (fits : Value → Bool) (peer : Peer)
    → Keeps history_of (sending request fits peer)
sending-Keeps request fits peer =
    let small = leb (peer.size request) qga_message in
    let exchange : Talk Value = write request >> take_reply fits in
    bind-Keeps history_of (require small too_large) (λ _. exchange)
      (require-Keeps history_of small too_large)
      (λ _.
        bind-Keeps history_of (write request) (λ _. take_reply fits) (write-Keeps request)
          (λ _. take_reply-Keeps fits))

sending-ok :
    (request : Request) (fits : Value → Bool) (peer : Peer) (a : Agent) {v : Value}
    → (sending request fits peer a).0 ≡ ok v
    → (leb (peer.size request) qga_message ≡ true) × (fits v ≡ true)
sending-ok request fits peer a e =
    let (small, at1) =
      require-run (leb (peer.size request) qga_message) too_large (write request >> take_reply fits)
        a e in
    let (_, _, at2) =
      bind-run (write request) (λ _. take_reply fits) a (sym (ap (λ p. p.0) at1) ∙ e) in
    (small, take_reply-ok fits (write request a).1 (sym (ap (λ p. p.0) (at1 ∙ at2)) ∙ e))

abbrev peer_of : Talk Peer
peer_of = gets (λ a. a.peer)

abbrev opened_then : Request → (Value → Bool) → Bool → Talk Value
opened_then request fits connected = opening connected >> (peer_of >>= sending request fits)

converse-steps :
    (request : Request) (fits : Value → Bool)
    → converse request fits ≡ (in_time >> (gets (λ a. a.connected) >>= opened_then request fits))
unfolding converse
converse-steps request fits = refl

pub converse-Keeps :
    (request : Request) (fits : Value → Bool) → Keeps history_of (converse request fits)
converse-Keeps request fits a =
    let connected_of : Talk Bool = gets (λ a. a.connected) in
    ap (λ m. history_of (m a).1) (converse-steps request fits)
    ∙ bind-Keeps history_of in_time (λ _. connected_of >>= opened_then request fits) in_time-Keeps
        (λ _.
          bind-Keeps history_of connected_of (opened_then request fits) (λ a. refl)
            (λ c.
              bind-Keeps history_of (opening c) (λ _. peer_of >>= sending request fits)
                (opening-Keeps c)
                (λ _.
                  bind-Keeps history_of peer_of (sending request fits) (λ a. refl)
                    (sending-Keeps request fits))))
        a

pub converse-ok :
    (request : Request) (fits : Value → Bool) (a : Agent) {v : Value}
    → (converse request fits a).0 ≡ ok v
    → (leb (a.peer.size request) qga_message ≡ true) × (fits v ≡ true)
unfolding ◌>>=◌
converse-ok request fits a e =
    let connected_of : Talk Bool = gets (λ a. a.connected) in
    let at0 = ap (λ m. m a) (converse-steps request fits) in
    let (_, _, at1) =
      bind-run in_time (λ _. connected_of >>= opened_then request fits) a
        (sym (ap (λ p. p.0) at0) ∙ e) in
    let b = (in_time a).1 in
    let (_, _, at2) =
      bind-run (opening b.connected) (λ _. peer_of >>= sending request fits) b
        (sym (ap (λ p. p.0) (at0 ∙ at1)) ∙ e) in
    let c = (opening b.connected b).1 in
    let same = ap (λ x. x.1) (opening-Keeps b.connected b) ∙ ap (λ x. x.1) (in_time-Keeps a) in
    let (small, fit) =
      sending-ok request fits c.peer c (sym (ap (λ p. p.0) (at0 ∙ at1 ∙ at2)) ∙ e) in
    (sym (ap (λ q. leb (q.size request) qga_message) same) ∙ small, fit)
