-- ===== src/Rig/Rules.antt =====
-- Rules for actions on nodes: the history only grows, and what a success leaves in it.
use mathlib.Core.List.{append_assoc}
use labcontainers.Prelude.{
  ℕ, zero, suc, ◌/◌, ◌+◌, String, ◌≡◌, refl, sym, ap, ◌∙◌, Bool, true, false, Option, none, some,
  List, [], ◌∷◌, ◌++◌, Result, ok, err, All, ltb, if◌then◌else◌, arith,
}
use labcontainers.Actions.{pure, fail, try, require, demand, when, ◌>>=◌, for_each}
use labcontainers.Wait.{interval}
use labcontainers.Actions.Rules.{bind-Post, bind-run}
use labcontainers.Rig.{
  Op, Event, exec_op, pipe_op, put_op, Reply, History, Outside, Fault, unready, Cmd, replied,
  perform, exec, pipe, put, after_attempt, await, await_within,
}

-- The entry of a command that succeeded with this output.
abbrev pub did : String → Op → String → Event
did node op output = record {
  node = node;
  op = op;
  reply = record { output = output; error = none };
}

abbrev silent : String → Reply
silent s = record { output = s; error = none }

reply-ok : (r : Reply) {out : String} → replied r ≡ ok out → r ≡ silent out
reply-ok r e = go r.error e
  where
    go :
        (x : Option String) {out : String}
        → replied (record { output = r.output; error = x }) ≡ ok out
        → record r { error = x } ≡ silent out
    go none e' = ap silent (ground arith)
    go (some c) e' = cc

pub perform-ok :
    (o : Outside) (node : String) (op : Op) (h : History) {out : String}
    → (perform o node op h).0 ≡ ok out
    → (perform o node op h).1 ≡ did node op out ∷ h
unfolding perform
perform-ok o node op h e =
    let r = o.answers h node op in
    ap (λ x. record { node = node; op = op; reply = x } ∷ h) (reply-ok r e)

pub exec-ok :
    (o : Outside) (node : String) (argv : List String) (h : History) {out : String}
    → (exec o node argv h).0 ≡ ok out
    → (exec o node argv h).1 ≡ did node (exec_op argv) out ∷ h
unfolding exec
exec-ok o node argv h e = perform-ok o node (exec_op argv) h e

pub pipe-ok :
    (o : Outside) (node input : String) (argv : List String) (h : History) {out : String}
    → (pipe o node input argv h).0 ≡ ok out
    → (pipe o node input argv h).1 ≡ did node (pipe_op input argv) out ∷ h
unfolding pipe
pipe-ok o node input argv h e = perform-ok o node (pipe_op input argv) h e

pub put-ok :
    (o : Outside) (node content path : String) (mode : ℕ) (h : History)
    → (put o node content path mode h).0 ≡ ok tt
    → (out : String) × ((put o node content path mode h).1
        ≡ did node (put_op content path mode) out ∷ h)
unfolding put pure
put-ok o node content path mode h e =
    let op = put_op content path mode in
    let (out, done, step) = bind-run (perform o node op) (λ _. pure tt) h e in
    (out, ap (λ r. r.1) step ∙ perform-ok o node op h done)

-- What a property says of each new entry holds of the whole action's.
abbrev pub Adds {ℓ} : {A : Type 0} → (Event → Type ℓ) → Cmd A → Type ℓ
Adds P m = (h : History) → (new : History) × ((m h).1 ≡ new ++ h) × All P new

pub All-append {ℓ} : (P : Event → Type ℓ) (xs ys : History) → All P xs → All P ys → All P (xs ++ ys)
All-append P [] ys hx hy = hy
All-append P (x ∷ xs) ys hx hy = (hx.0, All-append P xs ys hx.1 hy)

module _ {ℓ} (P : Event → Type ℓ) where
  pub Adds-none : {A : Type 0} (r : Result Fault A) → Adds P (λ h. (r, h))
  Adds-none r h = ([], refl, tt)

  pub Adds-pure : {A : Type 0} (a : A) → Adds P (pure a)
  unfolding pure
  Adds-pure a h = ([], refl, tt)

  pub Adds-fail : (A : Type 0) (c : Fault) → Adds {A = A} P (fail c)
  unfolding fail
  Adds-fail A c h = ([], refl, tt)

  pub Adds-perform :
      (o : Outside) (node : String) (op : Op)
      → ((r : Reply) → P (record { node = node; op = op; reply = r }))
      → Adds P (perform o node op)
  unfolding perform
  Adds-perform o node op p h =
      let r = o.answers h node op in
      (record { node = node; op = op; reply = r } ∷ [], refl, (p r, tt))

  pub Adds-exec :
      (o : Outside) (node : String) (argv : List String)
      → ((r : Reply) → P (record { node = node; op = exec_op argv; reply = r }))
      → Adds P (exec o node argv)
  unfolding exec
  Adds-exec o node argv p = Adds-perform o node (exec_op argv) p

  abbrev pub Grown : History → History → Type ℓ
  Grown h v = (new : History) × (v ≡ new ++ h) × All P new

  pub Grown-trans : (h v w : History) → Grown h v → Grown v w → Grown h w
  Grown-trans h v w (new, e, p) (more, e', p') = (
    more ++ new,
    e' ∙ ap (λ x. more ++ x) e ∙ sym (append_assoc more new h),
    All-append P more new p' p,
  )

  pub Adds-bind :
      {A B : Type 0} (m : Cmd A) (f : A → Cmd B)
      → Adds P m
      → ((a : A) → Adds P (f a))
      → Adds P (m >>= f)
  Adds-bind m f first then' h =
      bind-Post (λ _ v. Grown h v) m f h
        (λ a _. Grown-trans h (m h).1 (f a (m h).1).1 (first h) (then' a (m h).1)) (λ _ _. first h)

  pub Adds-try : {A : Type 0} (m : Cmd A) → Adds P m → Adds P (try m)
  unfolding try
  Adds-try m adds h = adds h

  pub Adds-put :
      (o : Outside) (node content path : String) (mode : ℕ)
      → ((r : Reply) → P (record { node = node; op = put_op content path mode; reply = r }))
      → Adds P (put o node content path mode)
  unfolding put
  Adds-put o node content path mode p =
      Adds-bind (perform o node (put_op content path mode)) (λ _. pure tt)
        (Adds-perform o node (put_op content path mode) p) (λ _. Adds-pure tt)

  pub Adds-require : (b : Bool) (c : Fault) → Adds P (require b c)
  unfolding require
  Adds-require true c = Adds-pure tt
  Adds-require false c = Adds-fail (Unit {0}) c

  pub Adds-demand : {A : Type 0} (a : Option A) (c : Fault) → Adds P (demand a c)
  unfolding demand
  Adds-demand {A} (some a) c = Adds-pure a
  Adds-demand {A} none c = Adds-fail A c

  pub Adds-if :
      {A : Type 0} (b : Bool) (m k : Cmd A) → Adds P m → Adds P k → Adds P (if b then m else k)
  Adds-if true m k p q = p
  Adds-if false m k p q = q

  pub Adds-for_each :
      {A : Type 0} (xs : List A) (f : A → Cmd (Unit {0}))
      → ((a : A) → Adds P (f a))
      → Adds P (for_each xs f)
  unfolding for_each
  Adds-for_each [] f p = Adds-pure tt
  Adds-for_each (x ∷ xs) f p =
      Adds-bind (f x) (λ _. for_each xs f) (p x) (λ _. Adds-for_each xs f p)

  Adds-after :
      (o : Outside) (deadline : ℕ) (rest : Cmd (Unit {0})) (r : Result Fault (Unit {0}))
      → Adds P rest
      → Adds P (after_attempt o deadline rest r)
  unfolding after_attempt
  Adds-after o deadline rest (ok _) p h = ([], refl, tt)
  Adds-after o deadline rest (err e) p h =
      choose (o.cancelled h) (ltb deadline (o.now h)) (o.interrupted h)
    where
      choose :
          (a b c : Bool)
          → Grown h
              ((if a
                then (err unready, h)
                else if b
                then (err unready, h)
                else if c
                then (err unready, h)
                else rest h)).1
      choose true b c = ([], refl, tt)
      choose false true c = ([], refl, tt)
      choose false false true = ([], refl, tt)
      choose false false false = p h

  Adds-await :
      (fuel : ℕ) (o : Outside) (deadline : ℕ) (attempt : Cmd (Unit {0}))
      → Adds P attempt
      → Adds P (await fuel o deadline attempt)
  unfolding await
  Adds-await zero o deadline attempt p = Adds-fail (Unit {0}) unready
  Adds-await (suc fuel) o deadline attempt p =
      Adds-bind (try attempt) (after_attempt o deadline (await fuel o deadline attempt))
        (Adds-try attempt p)
        (λ r.
          Adds-after o deadline (await fuel o deadline attempt) r
            (Adds-await fuel o deadline attempt p))

module _ {ℓ} (P : Event → Type ℓ) where
  pub Adds-await_within :
      (o : Outside) (within : ℕ) (attempt : Cmd (Unit {0}))
      → Adds P attempt
      → Adds P (await_within o within attempt)
  unfolding await_within
  Adds-await_within o within attempt p h =
      Adds-await P (suc (suc (within / interval))) o (o.now h + within) attempt p h

  pub Adds-when : (b : Bool) (m : Cmd (Unit {0})) → Adds P m → Adds P (when b m)
  unfolding when
  Adds-when true m p = p
  Adds-when false m p = Adds-pure P tt
