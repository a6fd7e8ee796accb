-- ===== src/Prelude/Map.antt =====
-- A map of the source (`std::map`, `std::unordered_map`) as an association list, for keys with an
-- equality test.
use mathlib.Core.Path.{◌≡◌, refl}
use mathlib.Core.Logic.{◌↔◌}
use mathlib.Core.Bool.{true, ◌&&◌}
use mathlib.Core.Option.{Option, none, some}
use mathlib.Core.List.{List, [], ◌∷◌}
use native.Mathlib.Omega.{arith}
use hao_short_link.Prelude.Tests.{Eq, ◌==◌, if◌then◌else◌}

-- A key of two columns.
pub pair_equal_iff {ℓ κ} :
    {A : Type ℓ} {B : Type κ} ⦃e : Eq A⦄ ⦃f : Eq B⦄ (x y : A × B)
    → ((e.equal x.0 y.0 && f.equal x.1 y.1) ≡ true) ↔ (x ≡ y)
pair_equal_iff ⦃e⦄ ⦃f⦄ x y = ground (arith, e.equal_iff x.0 y.0, f.equal_iff x.1 y.1)

instance abbrev pub pair_eq {ℓ κ} : {A : Type ℓ} {B : Type κ} ⦃e : Eq A⦄ ⦃f : Eq B⦄ → Eq (A × B)
pair_eq ⦃e⦄ ⦃f⦄ = record {
  equal = λ x y. e.equal x.0 y.0 && f.equal x.1 y.1;
  equal_iff = pair_equal_iff;
}

module _ {ℓ κ} {K : Type ℓ} {V : Type κ} ⦃e : Eq K⦄ where
  unfoldable pub lookup : K → List (K × V) → Option V
  lookup key [] = none
  lookup key ((j, v) ∷ rest) = if j == key then some v else lookup key rest

  unfoldable pub insert : K → V → List (K × V) → List (K × V)
  insert key value [] = (key, value) ∷ []
  insert key value ((j, v) ∷ rest) =
      if j == key then (key, value) ∷ rest else (j, v) ∷ insert key value rest

  unfoldable pub remove : K → List (K × V) → List (K × V)
  remove key [] = []
  remove key ((j, v) ∷ rest) = if j == key then remove key rest else (j, v) ∷ remove key rest

  pub lookup-insert :
      (key other : K) (value : V) (entries : List (K × V))
      → lookup other (insert key value entries)
        ≡ (if key == other then some value else lookup other entries)
  unfolding lookup insert
  lookup-insert key other value [] = refl
  lookup-insert key other value ((j, v) ∷ rest) = ground (
    arith,
    lookup-insert key other value rest,
    e.equal_iff key other,
    e.equal_iff j key,
    e.equal_iff j other,
  )

  pub lookup-remove :
      (key other : K) (entries : List (K × V))
      → lookup other (remove key entries) ≡ (if key == other then none else lookup other entries)
  unfolding lookup remove
  lookup-remove key other [] = ground arith
  lookup-remove key other ((j, v) ∷ rest) = ground (
    arith,
    lookup-remove key other rest,
    e.equal_iff key other,
    e.equal_iff j key,
    e.equal_iff j other,
  )
