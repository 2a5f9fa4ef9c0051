-- ===== src/Prelude/Maps.antt =====
-- A `HashMap` with texts for keys, as an association list.
use Prim.Native.String.{String}
use text.Mathlib.Text.{◌==◌ as str_eq}
use text.Mathlib.TextEquality.{eq_iff}
use mathlib.Core.Path.{◌≡◌, refl}
use mathlib.Core.List.{List, [], ◌∷◌}
use mathlib.Core.Option.{Option, none, some}
use native.Mathlib.Omega.{arith}
use rust_roast.Prelude.Tests.{if◌then◌else◌}

abbrev pub Dict {ℓ} : Type ℓ → Type ℓ
Dict V = List (String × V)

module _ {ℓ} {V : Type ℓ} where
  unfoldable pub lookup : String → Dict V → Option V
  lookup key [] = none
  lookup key ((name, val) ∷ entries) =
      let rest = lookup key entries in if str_eq name key then some val else rest

  unfoldable pub remove : String → Dict V → Dict V
  remove key [] = []
  remove key ((name, val) ∷ entries) =
      let rest = remove key entries in if str_eq name key then rest else (name, val) ∷ rest

  -- The entry takes the place of an older one, or the end of the list.
  unfoldable pub insert : String → V → Dict V → Dict V
  insert key new [] = (key, new) ∷ []
  insert key new ((name, val) ∷ entries) =
      let rest = insert key new entries in
      if str_eq name key then (key, new) ∷ entries else (name, val) ∷ rest

  pub lookup-insert :
      (key other : String) (new : V) (entries : Dict V)
      → lookup other (insert key new entries)
        ≡ (if str_eq key other then some new else lookup other entries)
  unfolding lookup insert
  lookup-insert key other new [] = refl
  lookup-insert key other new ((name, val) ∷ entries) = ground (
    arith,
    lookup-insert key other new entries,
    eq_iff name other,
    eq_iff name key,
    eq_iff key other,
  )

  pub lookup-remove :
      (key other : String) (entries : Dict V)
      → lookup other (remove key entries)
        ≡ (if str_eq key other then none else lookup other entries)
  unfolding lookup remove
  lookup-remove key other [] = ground arith
  lookup-remove key other ((name, val) ∷ entries) =
      ground (
        arith,
        lookup-remove key other entries,
        eq_iff name other,
        eq_iff name key,
        eq_iff key other,
      )

pub ruleset dict_laws = (lookup-insert, lookup-remove)
