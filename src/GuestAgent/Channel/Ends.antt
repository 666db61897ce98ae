-- ===== src/GuestAgent/Channel/Ends.antt =====
-- The ends that `Call` of pkg/guestagent/guestagent.go may have.
use labcontainers.Prelude.{
  suc, ◌≡◌, refl, ap, ◌∙◌, ◌⊎◌, inl, inr, Bool, true, false, not, [], ◌∷◌, leb, Result, ok, err,
}
use labcontainers.Limits.{qga_message}
use labcontainers.Actions.{require, try, ◌>>=◌, ◌>>◌}
use labcontainers.Actions.Rules.{Post}
use labcontainers.GuestAgent.Channel.{
  Request, Value, Failure, expired, Agent, Talk, ask, converse, verdict, settled, conclude, call,
}
use labcontainers.GuestAgent.Channel.Calls.{converse-Keeps, converse-ok}

-- The agent after one question, and otherwise as it was.
abbrev pub tick : Agent → Agent
tick a = record a { asked = suc a.asked }

-- A call's three ends: it was cancelled before it began; it is in the history with its error, and the
-- connection is closed, so that the next call synchronises anew; or it is in the history with a value
-- that the caller can decode, and its request was within the agent's limit.
abbrev pub Called : Request → (Value → Bool) → Agent → Result Failure Value → Agent → Type 0
Called request fits a r b =
    ((a.peer.holds a.asked ≡ true) × (r ≡ err expired) × (b ≡ tick a))
    ⊎ ((e : Failure) × (r ≡ err e)
        × (b.calls ≡ record { request = request; result = r } ∷ a.calls)
        × (b.connected ≡ false)
        × (b.inbox ≡ []))
    ⊎ ((v : Value) × (r ≡ ok v)
        × (b.calls ≡ record { request = request; result = r } ∷ a.calls)
        × (fits v ≡ true)
        × (leb (a.peer.size request) qga_message ≡ true))

module _ (request : Request) (fits : Value → Bool) (a : Agent) where
  -- The end of a call whose body has left `b`.
  verdict-Called :
      (late : Bool) (r : Result Failure Value) (b : Agent)
      → b.calls ≡ a.calls
      → ((v : Value) → r ≡ ok v → (leb (a.peer.size request) qga_message ≡ true) × (fits v ≡ true))
      → Called request fits a (verdict late r) (settled request (verdict late r) b)
  verdict-Called true r b same good = inr (
      inl (
        expired,
        refl,
        ap (λ cs. record { request = request; result = err expired } ∷ cs) same,
        refl,
        refl,
      ))
  verdict-Called false (err e) b same good =
      inr (
        inl
          (e, refl, ap (λ cs. record { request = request; result = err e } ∷ cs) same, refl, refl))
  verdict-Called false (ok v) b same good =
      let (small, fit) = good v refl in
      inr (
        inr (v, refl, ap (λ cs. record { request = request; result = ok v } ∷ cs) same, fit, small))

  abbrev body : Talk Value
  body = do r ← try (converse request fits); late ← ask; conclude request (verdict late r)

  body-Called : Post body (tick a) (Called request fits a)
  unfolding ask conclude try ◌>>=◌
  body-Called =
      let b = (converse request fits (tick a)).1 in
      verdict-Called (b.peer.holds b.asked) (converse request fits (tick a)).0 (tick b)
        (ap (λ x. x.0) (converse-Keeps request fits (tick a)))
        (λ v e. converse-ok request fits (tick a) e)

  started :
      (late : Bool)
      → a.peer.holds a.asked ≡ late
      → Post (require (not late) expired >> body) (tick a) (Called request fits a)
  unfolding ◌>>=◌
  started true e = inl (e, refl, refl)
  started false e = body-Called

-- A call has one of three ends. The context had ended at its first question, and the call fails
-- with the agent as it was; or it fails later, its entry is added to the history, and the
-- connection is closed with nothing left unread; or its entry is added and it returns a value that
-- its caller can decode, and its request was within the guest agent's limit.
pub call-Called :
    (request : Request) (fits : Value → Bool) (a : Agent)
    → let after = call request fits a in Called request fits a after.0 after.1
unfolding call ask
call-Called request fits a = started request fits a (a.peer.holds a.asked) refl

Called-ok :
    (request : Request) (fits : Value → Bool) (a : Agent) (r : Result Failure Value) (b : Agent)
    {v : Value}
    → Called request fits a r b
    → r ≡ ok v
    → (b.calls ≡ record { request = request; result = ok v } ∷ a.calls) × (fits v ≡ true)
Called-ok request fits a r b (inl (late, cancelled, _)) e = cc
Called-ok request fits a r b (inr (inl (c, failed, _, _, _))) e = cc
Called-ok request fits a r b (inr (inr (u, good, entry, fit, _))) e =
    (entry ∙ ap (λ x. record { request = request; result = x } ∷ a.calls) e, cc)

-- A call that succeeds is the newest entry of the history.
pub call-ok :
    (request : Request) (fits : Value → Bool) (a : Agent) {v : Value}
    → (call request fits a).0 ≡ ok v
    → ((call request fits a).1.calls ≡ record { request = request; result = ok v } ∷ a.calls)
      × (fits v ≡ true)
call-ok request fits a e =
    Called-ok request fits a (call request fits a).0 (call request fits a).1
      (call-Called request fits a) e
