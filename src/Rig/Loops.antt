-- ===== src/Rig/Loops.antt =====
-- Loops over nodes: what each turn has added is in the history at the end.
use mathlib.Core.List.{append_assoc}
use labcontainers.Prelude.{◌≡◌, refl, sym, ap, ◌∙◌, List, [], ◌∷◌, ◌++◌, ok, All}
use labcontainers.Actions.{pure, for_each}
use labcontainers.Actions.Rules.{bind-run}
use labcontainers.Rig.{Event, History, Cmd}
use labcontainers.Rig.Rules.{All-append}

-- An entry of a history.
abbrev pub Seen : Event → History → Type 0
Seen e h = (later earlier : History) × (h ≡ later ++ e ∷ earlier)

pub Seen-later : (e : Event) (new h : History) → Seen e h → Seen e (new ++ h)
Seen-later e new h (later, earlier, s) =
    (new ++ later, earlier, ap (λ x. new ++ x) s ∙ sym (append_assoc new later (e ∷ earlier)))

pub Seen-earlier : (e : Event) (new h : History) → Seen e new → Seen e (new ++ h)
Seen-earlier e new h (later, earlier, s) =
    (later, earlier ++ h, ap (λ x. x ++ h) s ∙ append_assoc later (e ∷ earlier) h)

pub All-Seen {ℓ} :
    {A : Type 0} (P : A → History → Type ℓ) (xs : List A) (h v : History)
    → ((a : A) → P a h → P a v)
    → All (λ a. P a h) xs
    → All (λ a. P a v) xs
All-Seen P [] h v f p = tt
All-Seen P (x ∷ xs) h v f p = (f x p.0, All-Seen P xs h v f p.1)

-- A loop that succeeds has added, for each of its elements, what each of its turns adds.
module _ {A : Type 0} (Q : Event → Type 0) (P : A → History → Type 0) (f : A → Cmd (Unit {0}))
    (later : (a : A) (new h : History) → P a h → P a (new ++ h))
    (earlier : (a : A) (new h : History) → P a new → P a (new ++ h))
    (each : (a : A) (h : History)
      → (f a h).0 ≡ ok tt
      → (new : History) × ((f a h).1 ≡ new ++ h) × All Q new × P a new) where
  -- The new entries, those of each turn with them.
  pub for_each-Each :
      (xs : List A) (h : History)
      → (for_each xs f h).0 ≡ ok tt
      → (new : History) × ((for_each xs f h).1 ≡ new ++ h) × All Q new × All (λ a. P a new) xs
  unfolding for_each pure
  for_each-Each [] h e = ([], refl, tt, tt)
  for_each-Each (x ∷ xs) h e =
      let (u, first, step) = bind-run (f x) (λ _. for_each xs f) h e in
      let (new, grown, q, p) = each x h first in
      let (more, grown', q', p') = for_each-Each xs (f x h).1 (sym (ap (λ r. r.0) step) ∙ e) in
      (
        more ++ new,
        ap (λ r. r.1) step ∙ grown' ∙ ap (λ v. more ++ v) grown ∙ sym (append_assoc more new h),
        All-append Q more new q' q,
        (later x more new p, All-Seen P xs more (more ++ new) (λ a. earlier a more new) p'),
      )
