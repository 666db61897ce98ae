-- ===== src/GuestAgent/Channel/Synchronized.antt =====
-- What the handshake of `Call` in pkg/guestagent/guestagent.go passes over.
use std.Path.{subst}
use labcontainers.Prelude.{
  ℕ, suc, ◌≡◌, refl, sym, ap, ◌∙◌, Bool, true, false, Option, some, List, [], ◌∷◌, ◌++◌, All,
  if◌then◌else◌, ok,
}
use labcontainers.Actions.{demand, gets, ◌>>=◌}
use labcontainers.Actions.Rules.{bind-run, demand-run, require-run}
use labcontainers.GuestAgent.Channel.{
  Request, Reply, Line, garbage, message, unreadable, unwritten, Agent, Talk, ask, receive, sync,
  write, echoes, await, keep_inbox, handshake,
}

-- A line that does not echo the token.
abbrev pub Stale : ℕ → Line → Type 0
Stale token garbage = Unit
Stale token (message r) = echoes token r ≡ false

-- The lines are passed over up to the first that echoes the token.
abbrev pub Sifted : ℕ → List Line → List Line → Type 0
Sifted token ls rest =
    (before : List Line) × (r : Reply) × (ls ≡ before ++ message r ∷ rest)
    × All (Stale token) before
    × (echoes token r ≡ true)

Sifted-cons :
    (token : ℕ) (l : Line) (ls rest : List Line)
    → Stale token l
    → Sifted token ls rest
    → Sifted token (l ∷ ls) rest
Sifted-cons token l ls rest stale (before, r, split, all, echo) =
    (l ∷ before, r, ap (λ xs. l ∷ xs) split, (stale, all), echo)

echo_or :
    (token : ℕ) (r : Reply) (ls : List Line) (x : Bool) (o : Option (List Line)) {rest : List Line}
    → echoes token r ≡ x
    → (o ≡ some rest → Sifted token ls rest)
    → (if x then some ls else o) ≡ some rest
    → Sifted token (message r ∷ ls) rest
echo_or token r ls true o told later e =
    let same : ls ≡ _ = cc in ([], r, ap (λ xs. message r ∷ xs) same, tt, told)
echo_or token r ls false o told later e = Sifted-cons token (message r) ls _ told (later e)

await-Sifted :
    (token : ℕ) (ls : List Line) {rest : List Line}
    → await token ls ≡ some rest
    → Sifted token ls rest
unfolding await
await-Sifted token [] e = cc
await-Sifted token (garbage ∷ ls) e = Sifted-cons token garbage ls _ tt (await-Sifted token ls e)
await-Sifted token (message r ∷ ls) e =
    echo_or token r ls (echoes token r) (await token ls) refl (await-Sifted token ls) e

write-inbox :
    (r : Request) (a : Agent)
    → (write r a).0 ≡ ok tt
    → (write r a).1.inbox ≡ a.inbox ++ a.peer.arrivals (suc a.asked)
unfolding write ask ◌>>=◌
write-inbox r a e =
    let (_, step) =
      require-run (a.peer.holds a.asked) unwritten receive (record a { asked = suc a.asked }) e in
    ap (λ p. p.1.inbox) step

-- Where the handshake succeeds, the lines that were unread and those that came after the token was
-- sent are passed over up to the first that echoes the token, and those behind it are unread: no reply
-- to a request of an earlier connection is left.
pub handshake-Sifted :
    (a : Agent)
    → (handshake a).0 ≡ ok tt
    → Sifted (a.peer.token a.asked) (a.inbox ++ a.peer.arrivals (suc a.asked)) (handshake a).1.inbox
unfolding handshake ◌>>=◌
handshake-Sifted a e =
    let token = a.peer.token a.asked in
    let sift : List Line → Talk (Unit {0}) =
      λ ls. demand (await token ls) unreadable >>= keep_inbox in
    let (_, sent, step) = bind-run (write (sync token)) (λ _. gets (λ a. a.inbox) >>= sift) a e in
    let b = (write (sync token) a).1 in
    let (rest, found, step') =
      demand-run (await token b.inbox) unreadable keep_inbox b (sym (ap (λ p. p.0) step) ∙ e) in
    subst (λ ls. Sifted token ls (handshake a).1.inbox) (write-inbox (sync token) a sent)
      (subst (Sifted token b.inbox) (sym (ap (λ p. p.1.inbox) (step ∙ step')))
        (await-Sifted token b.inbox found))
