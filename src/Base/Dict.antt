-- ===== src/Base/Dict.antt =====
-- A Go map with string keys, as an association list. The order of the entries stands for the
-- order in which a `range` meets them.
use Prim.Native.String.{String}
use mathlib.Core.Path.{◌≡◌, refl}
use mathlib.Core.Option.{Option, none, some}
use mathlib.Core.List.{List, [], ◌∷◌}
use native.Mathlib.Omega.{arith}
use text.Mathlib.Text.{◌==◌}
use text.Mathlib.TextEquality.{eq_iff}
use text.Mathlib.TextPositions.{eq_refl}
use svcmetrics.Base.Tests.{if◌then◌else◌}

abbrev pub Dict {ℓ} : Type ℓ → Type ℓ
Dict V = List (String × V)

module _ {ℓ} {V : Type ℓ} where
  -- delete(m, name)
  unfoldable pub erase : String → Dict V → Dict V
  erase name [] = []
  erase name ((other, x) ∷ rest) =
      let rest' = erase name rest in if other == name then rest' else (other, x) ∷ rest'

  -- m[name] = x
  unfoldable pub insert : String → V → Dict V → Dict V
  insert name x [] = (name, x) ∷ []
  insert name x ((other, y) ∷ rest) =
      let rest' = insert name x rest in
      if other == name then (other, x) ∷ rest else (other, y) ∷ rest'

  -- x, ok := m[name]
  unfoldable pub lookup : String → Dict V → Option V
  lookup name [] = none
  lookup name ((other, x) ∷ rest) =
      let found = lookup name rest in if other == name then some x else found

  pub lookup-erase :
      (name asked : String) (d : Dict V)
      → lookup asked (erase name d) ≡ (if name == asked then none else lookup asked d)
  unfolding lookup erase
  lookup-erase name asked [] = ground arith
  lookup-erase name asked ((other, x) ∷ rest) =
      let ih = lookup-erase name asked rest in
      ground (arith, eq_iff other name, eq_iff other asked, eq_iff name asked, ih)

  pub lookup-insert :
      (name asked : String) (x : V) (d : Dict V)
      → lookup asked (insert name x d) ≡ (if name == asked then some x else lookup asked d)
  unfolding lookup insert
  lookup-insert name asked x [] = refl
  lookup-insert name asked x ((other, y) ∷ rest) =
      let ih = lookup-insert name asked x rest in
      ground (arith, ih, eq_iff other name, eq_iff name asked, eq_iff other asked)

  pub lookup-insert_self :
      (name : String) (x : V) (d : Dict V) → lookup name (insert name x d) ≡ some x
  lookup-insert_self name x d = simp (lookup-insert, eq_refl)

pub ruleset dict_laws = (lookup-insert, lookup-erase, eq_refl)
