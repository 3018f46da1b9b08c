-- ===== src/Common/Dict.antt =====
-- `HashMap<String, V>`: an association list whose order nothing reads.
use Prim.Native.String.{String}
use mathlib.Core.Path.{◌≡◌, refl, ap, ◌∙◌}
use mathlib.Core.Bool.{Bool, true, false}
use mathlib.Core.Option.{Option, none, some}
use mathlib.Core.List.{List, [], ◌∷◌}
use native.Mathlib.Omega.{arith}
use text.Mathlib.Text.{◌==◌}
use text.Mathlib.TextEquality.{eq_iff}
use vdexnode.Common.Tests.{if◌then◌else◌}

abbrev pub Dict {ℓ} : Type ℓ → Type ℓ
Dict V = List (String × V)

module _ {ℓ} {V : Type ℓ} where
  unfoldable pub remove : String → Dict V → Dict V
  remove key [] = []
  remove key ((here, value) ∷ dict) =
      let rest = remove key dict in if here == key then rest else (here, value) ∷ rest

  unfoldable pub lookup : String → Dict V → Option V
  lookup key [] = none
  lookup key ((here, value) ∷ dict) =
      let later = lookup key dict in if here == key then some value else later

  -- The entry takes the place of the key's old one.
  unfoldable pub insert : String → V → Dict V → Dict V
  unfolding remove
  insert key value dict = (key, value) ∷ remove key dict

  pub lookup-remove :
      (key query : String) (dict : Dict V)
      → lookup query (remove key dict) ≡ (if key == query then none else lookup query dict)
  unfolding lookup remove
  lookup-remove key query [] = ground arith
  lookup-remove key query ((here, value) ∷ dict) =
      ground
        (arith, lookup-remove key query dict, eq_iff here key, eq_iff here query, eq_iff key query)

  pub lookup-insert :
      (key query : String) (value : V) (dict : Dict V)
      → lookup query (insert key value dict)
        ≡ (if key == query then some value else lookup query dict)
  unfolding insert lookup
  lookup-insert key query value dict =
      ap (λ (o : Option V). if key == query then some value else o) (lookup-remove key query dict)
      ∙ twice (key == query)
    where
      twice :
          (b : Bool)
          → (if b then some value else (if b then none else lookup query dict))
            ≡ (if b then some value else lookup query dict)
      twice true = refl
      twice false = refl
