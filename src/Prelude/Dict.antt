-- ===== src/Prelude/Dict.antt =====
-- Go maps keyed by strings, as association lists: a write replaces the first entry of its key. The
-- order of the entries stands for the order in which a `range` over the map meets them.
use Prim.Native.String.{String}
use mathlib.Core.Path.{◌≡◌, refl}
use mathlib.Core.Option.{Option, none, some}
use mathlib.Core.List.{List, [], ◌∷◌}
use native.Mathlib.Omega.{arith}
use text.Mathlib.Text.{◌==◌}
use text.Mathlib.TextPositions.{eq_refl}
use text.Mathlib.TextEquality.{eq_iff}
use labcontainers.Prelude.Tests.{if◌then◌else◌}

abbrev pub Map {ℓ} : Type ℓ → Type ℓ
Map V = List (String × V)

module _ {ℓ} {V : Type ℓ} where
  -- A key that is missing has no value.
  unfoldable pub lookup : String → Map V → Option V
  lookup key [] = none
  lookup key (entry ∷ rest) = if entry.0 == key then some entry.1 else lookup key rest

  unfoldable pub insert : String → V → Map V → Map V
  insert key value [] = (key, value) ∷ []
  insert key value (entry ∷ rest) =
      let replaced = (key, value) ∷ rest in
      let later = entry ∷ insert key value rest in if entry.0 == key then replaced else later

  unfoldable pub delete : String → Map V → Map V
  delete key [] = []
  delete key (entry ∷ rest) =
      let others = delete key rest in if entry.0 == key then others else entry ∷ others

  -- The three laws of a map: a write, a write at its own key, and a removal.
  pub lookup-insert :
      (key other : String) (value : V) (m : Map V)
      → lookup other (insert key value m) ≡ (if key == other then some value else lookup other m)
  unfolding insert lookup
  lookup-insert key other value [] = refl
  lookup-insert key other value ((name, old) ∷ rest) =
      let deeper = lookup-insert key other value rest in
      ground (arith, deeper, eq_iff name key, eq_iff name other, eq_iff key other)

  pub lookup-delete :
      (key other : String) (m : Map V)
      → lookup other (delete key m) ≡ (if key == other then none else lookup other m)
  unfolding delete lookup
  lookup-delete key other [] = ground arith
  lookup-delete key other ((name, old) ∷ rest) =
      let deeper = lookup-delete key other rest in
      ground (arith, deeper, eq_iff name key, eq_iff name other, eq_iff key other)

  pub lookup-insert_self :
      (key : String) (value : V) (m : Map V) → lookup key (insert key value m) ≡ some value
  lookup-insert_self key value m = rw (lookup-insert, eq_refl key)

pub ruleset map_laws = (lookup-insert, lookup-delete)
