-- ===== src/GuestAgent/Files/Content.antt =====
-- What an upload of pkg/guestagent/guestagent.go has written where it succeeds.
use std.Path.{subst}
use mathlib.Core.List.{append_assoc, append-nil}
use labcontainers.Prelude.{
  ℕ, String, ◌≡◌, refl, sym, ap, ◌∙◌, Bool, true, false, ◌&&◌, List, [], ◌∷◌, ◌++◌, length, nat_eq,
  if◌then◌else◌, Result, ok, err, arith,
}
use labcontainers.Spec.Native.{Bytes}
use labcontainers.Actions.{pure, fail, require, try, ◌>>=◌}
use labcontainers.Actions.Rules.{bind-run, require-ok}
use labcontainers.GuestAgent.Channel.{
  Request, Exchange, Agent, Talk, Value, Failure, broken_body, short_write, call, file_open,
  file_write, file_flush, file_close, anything, is_integer, is_object, integer_of, fields_of,
}
use labcontainers.GuestAgent.Channel.Ends.{call-ok}
use labcontainers.GuestAgent.Files.{
  Body, more, eof, broken, write_chunk, write_body, joined, upload,
}

-- What the guest has in the file of a handle after an entry of the history: opening truncates it, and
-- a write that is acknowledged in full appends.
abbrev effect : ℕ → Request → Result Failure Value → Bytes → Bytes
effect h (file_open path) (ok v) old = if nat_eq (integer_of v) h then [] else old
effect h (file_write g bs) (ok v) old =
    if nat_eq g h && nat_eq (fields_of v).count (length bs) then old ++ bs else old
effect h _ _ old = old

unfoldable pub contents : ℕ → List Exchange → Bytes
contents h [] = []
contents h (x ∷ xs) = effect h x.request x.result (contents h xs)

abbrev pub content : Body → Bytes
content (more bs rest) = bs ++ content rest
content (eof bs) = bs
content (broken bs) = bs

-- The body was read up to its end.
abbrev pub is_whole : Body → Bool
is_whole (more bs rest) = is_whole rest
is_whole (eof bs) = true
is_whole (broken bs) = false

nat_eq_refl : (n : ℕ) → nat_eq n n ≡ true
nat_eq_refl n = ground arith

if_both : (x y : Bool) (old new : Bytes) → x ≡ true → y ≡ true → (if x && y then new else old) ≡ new
if_both true true old new p q = refl
if_both true false old new p q = cc
if_both false y old new p q = cc

write_chunk-contents :
    (h : ℕ) (bs : Bytes) (a : Agent)
    → (write_chunk h bs a).0 ≡ ok tt
    → contents h (write_chunk h bs a).1.calls ≡ contents h a.calls ++ bs
unfolding write_chunk contents
write_chunk-contents h [] a e = sym (append-nil (contents h a.calls))
write_chunk-contents h (b ∷ bs) a e =
    let chunk = b ∷ bs in
    let check : Value → Talk (Unit {0}) =
      λ v. require (nat_eq (fields_of v).count (length chunk)) short_write in
    let (v, written, step) = bind-run (call (file_write h chunk) is_object) check a e in
    let (entry, _) = call-ok (file_write h chunk) is_object a written in
    let (full, same) =
      require-ok (nat_eq (fields_of v).count (length chunk)) short_write
        (call (file_write h chunk) is_object a).1 (sym (ap (λ p. p.0) step) ∙ e) in
    ap (λ p. contents h p.1.calls) step
    ∙ ap (λ w. contents h w.calls) same
    ∙ ap (contents h) entry
    ∙ if_both (nat_eq h h) (nat_eq (fields_of v).count (length chunk)) (contents h a.calls)
        (contents h a.calls ++ chunk) (nat_eq_refl h) full

-- The history ends with a flush, and before it the file has got the body.
abbrev Flushed : ℕ → Body → Agent → Agent → Type 0
Flushed h body a b =
    (before : List Exchange) × (v : Value) × (b.calls
      ≡ record { request = file_flush h; result = ok v } ∷ before)
    × (contents h before ≡ contents h a.calls ++ content body)
    × (is_whole body ≡ true)

write_body-Flushed :
    (h : ℕ) (body : Body) (a : Agent)
    → (write_body h body a).0 ≡ ok tt
    → Flushed h body a (write_body h body a).1
unfolding write_body pure fail
write_body-Flushed h (more bs rest) a e =
    let (_, written, step) = bind-run (write_chunk h bs) (λ _. write_body h rest) a e in
    let b = (write_chunk h bs a).1 in
    let (before, v, entry, has, whole) =
      write_body-Flushed h rest b (sym (ap (λ p. p.0) step) ∙ e) in
    (
      before,
      v,
      ap (λ p. p.1.calls) step ∙ entry,
      has
          ∙ ap (λ c. c ++ content rest) (write_chunk-contents h bs a written)
          ∙ append_assoc (contents h a.calls) bs (content rest),
      whole,
    )
write_body-Flushed h (eof bs) a e =
    let last : Value → Talk (Unit {0}) = λ _. pure tt in
    let flush = call (file_flush h) anything in
    let (_, written, step) = bind-run (write_chunk h bs) (λ _. flush >>= last) a e in
    let b = (write_chunk h bs a).1 in
    let (v, flushed, step') = bind-run flush last b (sym (ap (λ p. p.0) step) ∙ e) in
    let (entry, _) = call-ok (file_flush h) anything b flushed in
    (
      b.calls,
      v,
      ap (λ p. p.1.calls) (step ∙ step') ∙ entry,
      write_chunk-contents h bs a written,
      refl,
    )
write_body-Flushed h (broken bs) a e =
    let (_, _, step) = bind-run (write_chunk h bs) (λ _. fail broken_body) a e in
    absurd (never (sym (ap (λ p. p.0) step) ∙ e))
  where
    never : {x : Unit {0}} → ◌≡◌ {A = Result Failure (Unit {0})} (err broken_body) (ok x) → ⊥
    never p = cc

-- The history ends with a flush and a close, and the file has the body.
abbrev pub Uploaded : Body → Agent → Type 0
Uploaded body b =
    (h : ℕ) × (before : List Exchange) × (v w : Value) × (b.calls
      ≡ record { request = file_close h; result = ok w }
        ∷ record { request = file_flush h; result = ok v }
        ∷ before)
    × (contents h before ≡ content body)
    × (is_whole body ≡ true)

joined-ok :
    (r : Result Failure (Unit {0})) (c : Result Failure Value) (a : Agent)
    → (joined r c a).0 ≡ ok tt
    → (r ≡ ok tt) × (w : Value) × (c ≡ ok w) × ((joined r c a).1 ≡ a)
unfolding pure fail
joined-ok (err e) c a h = cc
joined-ok (ok u) (err e) a h = cc
joined-ok (ok u) (ok w) a h = (refl, w, refl, refl)

abbrev write_and_close : ℕ → Body → Talk (Unit {0})
write_and_close h body = do
  result ← try (write_body h body)
  closed ← try (call (file_close h) anything)
  joined result closed

write_and_close-Uploaded :
    (h : ℕ) (body : Body) (a : Agent)
    → (write_and_close h body a).0 ≡ ok tt
    → contents h a.calls ≡ []
    → Uploaded body (write_and_close h body a).1
unfolding try ◌>>=◌
write_and_close-Uploaded h body a e empty =
    let b = (write_body h body a).1 in
    let c = (call (file_close h) anything b).1 in
    let (written, w, closed, same) =
      joined-ok (write_body h body a).0 (call (file_close h) anything b).0 c e in
    let (before, v, flushed, has, whole) = write_body-Flushed h body a written in
    let (entry, _) = call-ok (file_close h) anything b closed in
    (
      h,
      before,
      v,
      w,
      ap (λ x. x.calls) same
          ∙ entry
          ∙ ap (λ xs. record { request = file_close h; result = ok w } ∷ xs) flushed,
      has ∙ ap (λ x. x ++ content body) empty,
      whole,
    )

if_true : (x : Bool) (old : Bytes) → x ≡ true → (if x then [] else old) ≡ []
if_true true old p = refl
if_true false old p = cc

-- Where Upload succeeds, its source was read to its end, the bytes that the guest has acknowledged in
-- full for the file since it was opened are exactly those of the source, in order, and after them the
-- guest has acknowledged a flush and a close.
pub upload-Uploaded :
    (body : Body) (path : String) (a : Agent)
    → (upload body path a).0 ≡ ok tt
    → Uploaded body (upload body path a).1
unfolding upload contents
upload-Uploaded body path a e =
    let opening = call (file_open path) is_integer in
    let rest : Value → Talk (Unit {0}) = λ opened. write_and_close (integer_of opened) body in
    let (v, opened, step) = bind-run opening rest a e in
    let (entry, _) = call-ok (file_open path) is_integer a opened in
    let h = integer_of v in
    let done =
      write_and_close-Uploaded h body (opening a).1 (sym (ap (λ p. p.0) step) ∙ e)
        (ap (contents h) entry ∙ if_true (nat_eq h h) (contents h a.calls) (nat_eq_refl h)) in
    subst (Uploaded body) (sym (ap (λ p. p.1) step)) done
