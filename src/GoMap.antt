-- ===== src/GoMap.antt =====
-- Go's built-in maps, as the pools and caches use them. The order of the list is the order in which
-- a `range` visits the entries; theorems hold for every list, so for every order that Go may pick.
pub mod Laws
pub mod Distinct
pub mod Oldest
pub mod Bounds
use airgate_claude.Prelude.{
  ℕ, Bool, true, false, List, [], ◌∷◌, Option, none, some, Key, ◌==◌, if◌then◌else◌, not, length,
}

abbrev pub Map {ℓ κ} : Type ℓ → Type κ → Type (ℓ ⊔ κ)
Map K V = List (K × V)

module _ {ℓ κ} {K : Type ℓ} {V : Type κ} ⦃e : Key K⦄ where
  -- `v, ok := m[k]`
  unfoldable pub get : K → Map K V → Option V
  get k [] = none
  get k ((j, v) ∷ m) = if j == k then some v else get k m

  -- `m[k] = v`; a new key may come anywhere in the order of iteration, here at the end
  unfoldable pub put : K → V → Map K V → Map K V
  put k v [] = (k, v) ∷ []
  put k v ((j, w) ∷ m) = if j == k then (k, v) ∷ m else (j, w) ∷ put k v m

  -- `delete(m, k)`
  unfoldable pub delete : K → Map K V → Map K V
  delete k [] = []
  delete k ((j, w) ∷ m) = let rest = delete k m in if j == k then rest else (j, w) ∷ rest

  -- `_, ok := m[k]; ok`
  unfoldable pub has : K → Map K V → Bool
  has k [] = false
  has k ((j, v) ∷ m) = if j == k then true else has k m

module _ {ℓ κ} {K : Type ℓ} {V : Type κ} where
  -- `for k, v := range m { if drop(k, v) { delete(m, k) } }`
  unfoldable pub sweep : (K → V → Bool) → Map K V → Map K V
  sweep drop [] = []
  sweep drop ((k, v) ∷ m) = let rest = sweep drop m in if drop k v then rest else (k, v) ∷ rest

  -- The values that such a loop visits, in order.
  unfoldable pub swept : (K → V → Bool) → Map K V → List V
  swept drop [] = []
  swept drop ((k, v) ∷ m) = let rest = swept drop m in if drop k v then v ∷ rest else rest

  abbrev pub values : Map K V → List V
  values [] = []
  values ((k, v) ∷ m) = v ∷ values m

  abbrev pub size : Map K V → ℕ
  size = length
