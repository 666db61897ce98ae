-- ===== src/Wait/Rounds.antt =====
-- A wait ends, and for the reason that it reports.
use labcontainers.Prelude.{
  ℕ, zero, suc, ◌+◌, ◌*◌, ◌/◌, ◌≤◌, ◌<◌, ◌≡◌, refl, sym, ◌∙◌, ◌⊎◌, inl, inr, Bool, true, false,
  Option, none, some, ltb, arith, Bool-cases,
}
use labcontainers.Wait.{
  Watch, Attempt, success, fatal, failure, Ending, done, fatally, called_off, expired, interval,
  judge, round, poll_until, until,
}

-- An attempt that fails for now, and nothing else that ends the wait.
abbrev pub Waits : Attempt → Bool → Bool → Bool → Type 0
Waits (failure e) false false false = Unit
Waits _ _ _ _ = ⊥

-- What a round saw that ended the wait in this way.
abbrev pub Ends : Attempt → Bool → Bool → Bool → Ending → Type 0
Ends a over late stopped done = a ≡ success
Ends a over late stopped (fatally e) = a ≡ fatal e
Ends a over late stopped (called_off e) = (a ≡ failure e) × ((over ≡ true) ⊎ (stopped ≡ true))
Ends a over late stopped (expired e) = (a ≡ failure e) × (over ≡ false) × (late ≡ true)

judge-cases :
    (a : Attempt) (over late stopped : Bool) (rest : Option Ending)
    → ((e : Ending) × (judge a over late stopped rest ≡ some e) × Ends a over late stopped e)
      ⊎ (Waits a over late stopped × (late ≡ false) × (judge a over late stopped rest ≡ rest))
unfolding judge
judge-cases success over late stopped rest = inl (done, refl, refl)
judge-cases (fatal e) over late stopped rest = inl (fatally e, refl, refl)
judge-cases (failure e) true late stopped rest = inl (called_off e, refl, (refl, inl refl))
judge-cases (failure e) false true stopped rest = inl (expired e, refl, (refl, refl, refl))
judge-cases (failure e) false false true rest = inl (called_off e, refl, (refl, inr refl))
judge-cases (failure e) false false false rest = inr (tt, refl, refl)

ltb-late : (a b : ℕ) → a < b → ltb a b ≡ true
ltb-late a b h = ground arith

between : (n m : ℕ) → n ≤ m → m < n → ⊥
between n m a b = omega arith

-- How far a clock has come that advances by an interval a round.
pace :
    (at : ℕ → ℕ) (start : ℕ)
    → start ≤ at 0
    → ((n : ℕ) → at n + interval ≤ at (suc n))
    → (n : ℕ) → start + n * interval ≤ at n
pace at start first paced zero = omega arith
pace at start first paced (suc n) =
    let before = pace at start first paced n in let step = paced n in omega arith

first-or-later : (n m : ℕ) → n ≤ m → (m ≡ n) ⊎ (suc n ≤ m)
first-or-later n m h = elim (Bool-cases (ltb n m)) [
  | inl e ↦ inr (ground arith)
  | inr e ↦ inl (ground arith)
]

module _ (w : Watch) (deadline : ℕ) where
  abbrev pub GoesOn : ℕ → Type 0
  GoesOn n = Waits (w.attempt n) (w.cancelled n) (ltb deadline (w.at n)) (w.interrupted n)

  abbrev pub EndsAt : ℕ → Ending → Type 0
  EndsAt n e = Ends (w.attempt n) (w.cancelled n) (ltb deadline (w.at n)) (w.interrupted n) e

  round-cases :
      (n : ℕ) (rest : Option Ending)
      → ((e : Ending) × (round w deadline n rest ≡ some e) × EndsAt n e)
        ⊎ (GoesOn n × (ltb deadline (w.at n) ≡ false) × (round w deadline n rest ≡ rest))
  unfolding round
  round-cases n rest =
      judge-cases (w.attempt n) (w.cancelled n) (ltb deadline (w.at n)) (w.interrupted n) rest

  -- A wait whose last round comes after the deadline ends.
  poll_until-ends :
      (fuel n k : ℕ)
      → n + fuel ≡ k
      → deadline < w.at k
      → (e : Ending) × (poll_until w deadline (suc fuel) n ≡ some e)
  unfolding poll_until
  poll_until-ends zero n k last late = elim (round-cases n none) [
    | inl (e, h, _) ↦ (e, h)
    | inr (_, early, _) ↦
        let same : n ≡ k = omega arith in let clash = ltb-late deadline (w.at k) late in cc
  ]
  poll_until-ends (suc fuel) n k last late =
      let (e', h') = poll_until-ends fuel (suc n) k (omega arith) late in
      elim (round-cases n (poll_until w deadline (suc fuel) (suc n))) [
        | inl (e, h, _) ↦ (e, h)
        | inr (_, _, h) ↦ (e', h ∙ h')
      ]

  -- The rounds from `n` up to `k` went on, and round `k` ended the wait.
  abbrev pub Reason : ℕ → Ending → Type 0
  Reason n e = (k : ℕ) × (n ≤ k) × ((m : ℕ) → n ≤ m → m < k → GoesOn m) × EndsAt k e

  poll_until-Reason : (fuel n : ℕ) {e : Ending} → poll_until w deadline fuel n ≡ some e → Reason n e
  unfolding poll_until
  poll_until-Reason zero n h = cc
  poll_until-Reason (suc fuel) n {e} h = elim (round-cases n (poll_until w deadline fuel (suc n))) [
    | inl (e', h', ends) ↦
        let same : e' ≡ e = cc in
        (n, omega arith, (λ m a b. absurd (between n m a b)), rw (← same) ends)
    | inr (on, _, h') ↦
        let (k, le, before, ends) = poll_until-Reason fuel (suc n) (sym h' ∙ h) in
        (
          k,
          omega arith,
          (λ m a b. elim (first-or-later n m a) [
            | inl same ↦ rw same on
            | inr later ↦ before m later b
          ]),
          ends,
        )
  ]

-- Where each round's check comes at least an interval after the one before, a wait ends, and the
-- rounds before its last failed for now, with the context alive and before the deadline, and the
-- last shows what its result reports: a success, a fatal error, the end of the caller's context or
-- a failure after the deadline.
pub until_outcome :
    (w : Watch) (start within : ℕ)
    → start ≤ w.at 0
    → ((n : ℕ) → w.at n + interval ≤ w.at (suc n))
    → (e : Ending) × (until w start within ≡ some e) × Reason w (start + within) 0 e
unfolding until
until_outcome w start within first paced =
    let last = suc (within / interval) in
    let paced' = pace w.at start first paced last in
    let (e, h) = poll_until-ends w (start + within) last 0 last (omega arith) (omega arith) in
    (e, h, poll_until-Reason w (start + within) (suc last) 0 h)
