-- ===== src/Rig/Waiting.antt =====
-- What a wait for a node leaves behind.
use labcontainers.Prelude.{
  ℕ, zero, suc, ◌+◌, ◌/◌, ◌≡◌, refl, sym, [], Bool, true, false, Result, ok, err, ltb,
  if◌then◌else◌,
}
use labcontainers.Actions.{fail, try, ◌>>=◌}
use labcontainers.Wait.{interval}
use labcontainers.Rig.Rules.{Adds, Grown, Grown-trans}
use labcontainers.Rig.{
  Event, History, Outside, Fault, unready, Cmd, after_attempt, await, await_within,
}

-- A property that every entry has.
abbrev pub Any : Event → Type 0
Any _ = Unit

-- Of the attempts since `h` the last succeeded, and nothing came after it.
abbrev pub Attempted : Cmd (Unit {0}) → History → History → Type 0
Attempted attempt h v =
    (w : History) × Grown Any h w × ((attempt w).0 ≡ ok tt) × (v ≡ (attempt w).1)

module _ (o : Outside) (deadline : ℕ) (attempt : Cmd (Unit {0})) (adds : Adds Any attempt) where
  choose-Attempted :
      (a b c : Bool) (rest : Cmd (Unit {0})) (h : History)
      → (let v =
            if a
            then (err unready, h)
            else if b
            then (err unready, h)
            else if c
            then (err unready, h)
            else rest h in
          (Q : History → Type 0) → v.0 ≡ ok tt → ((rest h).0 ≡ ok tt → Q (rest h).1) → Q v.1)
  choose-Attempted true b c rest h = λ Q e f. cc
  choose-Attempted false true c rest h = λ Q e f. cc
  choose-Attempted false false true rest h = λ Q e f. cc
  choose-Attempted false false false rest h = λ Q e f. f e

  after-Attempted :
      (rest : Cmd (Unit {0})) (h : History) (r : Result Fault (Unit {0})) (v : History)
      → r ≡ (attempt h).0
      → v ≡ (attempt h).1
      → (after_attempt o deadline rest r v).0 ≡ ok tt
      → ((rest v).0 ≡ ok tt → Attempted attempt h (rest v).1)
      → Attempted attempt h (after_attempt o deadline rest r v).1
  unfolding after_attempt
  after-Attempted rest h (ok tt) v same same' e f = (h, ([], refl, tt), sym same, same')
  after-Attempted rest h (err c) v same same' e f =
      choose-Attempted (o.cancelled v) (ltb deadline (o.now v)) (o.interrupted v) rest v
        (Attempted attempt h) e f

  await-Attempted :
      (fuel : ℕ) (h : History)
      → (await fuel o deadline attempt h).0 ≡ ok tt
      → Attempted attempt h (await fuel o deadline attempt h).1
  unfolding await fail try ◌>>=◌
  await-Attempted zero h e = cc
  await-Attempted (suc fuel) h e =
      let v = (attempt h).1 in
      after-Attempted (await fuel o deadline attempt) h (attempt h).0 v refl refl e (λ e'.
        let (w, grown, done, same) = await-Attempted fuel v e' in
        (w, Grown-trans Any h v w (adds h) grown, done, same))

-- A wait that succeeds ends with an attempt that does.
pub await_within-Attempted :
    (o : Outside) (within : ℕ) (attempt : Cmd (Unit {0}))
    → Adds Any attempt
    → (h : History) → (await_within o within attempt h).0 ≡ ok tt
    → Attempted attempt h (await_within o within attempt h).1
unfolding await_within
await_within-Attempted o within attempt adds h e =
    await-Attempted o (o.now h + within) attempt adds (suc (suc (within / interval))) h e
