-- ===== src/Base/Dict.antt =====
-- `HashMap<String, V>` as an association list with its keys in some order.
use text.Mathlib.Text.{◌==◌ as str_eq}
use text.Mathlib.TextEquality.{eq_iff}
use mathlib.Core.Path.{◌≡◌, refl}
use mathlib.Core.Option.{Option, none, some}
use mathlib.Core.List.{List, [], ◌∷◌}
use Prim.Native.String.{String}
use native.Mathlib.Omega.{arith}
use status_list_server.Base.Tests.{if◌then◌else◌}

module _ {ℓ} {V : Type ℓ} where
  unfoldable pub values : List (String × V) → List V
  values [] = []
  values ((key, value) ∷ rest) = value ∷ values rest

  unfoldable pub remove : String → List (String × V) → List (String × V)
  remove key [] = []
  remove key ((other, value) ∷ rest) =
      if str_eq other key then remove key rest else (other, value) ∷ remove key rest

  unfoldable pub insert : String → V → List (String × V) → List (String × V)
  insert key value [] = (key, value) ∷ []
  insert key value ((other, old) ∷ rest) =
      if str_eq other key then (key, value) ∷ rest else (other, old) ∷ insert key value rest

  unfoldable pub lookup : String → List (String × V) → Option V
  lookup key [] = none
  lookup key ((other, value) ∷ rest) = if str_eq other key then some value else lookup key rest

  pub lookup-remove :
      (key wanted : String) (entries : List (String × V))
      → lookup wanted (remove key entries)
        ≡ (if str_eq key wanted then none else lookup wanted entries)
  unfolding lookup remove
  lookup-remove key wanted [] = ground arith
  lookup-remove key wanted ((other, old) ∷ rest) = ground (
    arith,
    lookup-remove key wanted rest,
    eq_iff key wanted,
    eq_iff other key,
    eq_iff other wanted,
  )

  pub lookup-insert :
      (key wanted : String) (value : V) (entries : List (String × V))
      → lookup wanted (insert key value entries)
        ≡ (if str_eq key wanted then some value else lookup wanted entries)
  unfolding lookup insert
  lookup-insert key wanted value [] = refl
  lookup-insert key wanted value ((other, old) ∷ rest) = ground (
    arith,
    lookup-insert key wanted value rest,
    eq_iff key wanted,
    eq_iff other key,
    eq_iff other wanted,
  )
