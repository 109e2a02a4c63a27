-- ===== src/Gostd/Maps.antt =====
-- Go maps as association lists with the laws of lookup; a map that is ranged over has an order.
use iplsgo.Prelude.{
  ◌≡◌, refl, Option, none, some, List, [], ◌∷◌, arith, Comparable, ◌==◌, if◌then◌else◌,
}

abbrev pub Map {ℓ κ} : Type ℓ → Type κ → Type (ℓ ⊔ κ)
Map K V = List (K × V)

module _ {ℓ κ} {K : Type ℓ} {V : Type κ} ⦃e : Comparable K⦄ where
  -- v, ok := m[k]
  unfoldable pub lookup : K → Map K V → Option V
  lookup k [] = none
  lookup k ((j, v) ∷ m) = let rest = lookup k m in if j == k then some v else rest

  -- m[k] = v
  unfoldable pub insert : K → V → Map K V → Map K V
  insert k v [] = (k, v) ∷ []
  insert k v ((j, w) ∷ m) = let rest = insert k v m in if j == k then (k, v) ∷ m else (j, w) ∷ rest

  -- delete(m, k)
  unfoldable pub delete : K → Map K V → Map K V
  delete k [] = []
  delete k ((j, w) ∷ m) = let rest = delete k m in if j == k then rest else (j, w) ∷ rest

  pub lookup-insert :
      (key other : K) (val : V) (entries : Map K V)
      → lookup other (insert key val entries)
        ≡ (if key == other then some val else lookup other entries)
  unfolding insert lookup
  lookup-insert key other val [] = refl
  lookup-insert key other val ((at, old) ∷ entries) = ground (
    arith,
    lookup-insert key other val entries,
    e.same_iff at key,
    e.same_iff at other,
    e.same_iff key other,
  )

  pub lookup-delete :
      (key other : K) (entries : Map K V)
      → lookup other (delete key entries) ≡ (if key == other then none else lookup other entries)
  unfolding delete lookup
  lookup-delete key other [] = ground arith
  lookup-delete key other ((at, old) ∷ entries) = ground (
    arith,
    lookup-delete key other entries,
    e.same_iff at key,
    e.same_iff at other,
    e.same_iff key other,
  )
