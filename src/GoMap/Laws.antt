-- ===== src/GoMap/Laws.antt =====
-- Laws of the map operations: lookups in `if` form, and sizes.
use airgate_claude.Prelude.{
  suc, ◌+◌, ◌≤◌, ◌<◌, ◌≡◌, refl, Bool, true, false, [], ◌∷◌, none, some, Key, ◌==◌, if◌then◌else◌,
  arith, All,
}
use airgate_claude.GoMap.{Map, get, put, delete, has, sweep, size}

module _ {ℓ κ} {K : Type ℓ} {V : Type κ} ⦃e : Key K⦄ where
  pub get-put :
      (k j : K) (v : V) (m : Map K V) → get j (put k v m) ≡ (if k == j then some v else get j m)
  unfolding get put
  get-put k j v [] = refl
  get-put k j v ((i, w) ∷ m) =
      ground (arith, e.same_iff k j, e.same_iff i k, e.same_iff i j, get-put k j v m)

  pub get-put_self : (k : K) (v : V) (m : Map K V) → get k (put k v m) ≡ some v
  get-put_self k v m = ground (arith, get-put k k v m, e.same_iff k k)

  pub get-delete : (k j : K) (m : Map K V) → get j (delete k m) ≡ (if k == j then none else get j m)
  unfolding get delete
  get-delete k j [] = ground arith
  get-delete k j ((i, w) ∷ m) =
      ground (arith, e.same_iff k j, e.same_iff i k, e.same_iff i j, get-delete k j m)

  pub has-get : (k : K) (m : Map K V) → has k m ≡ elim (get k m) [ none ↦ false | some _ ↦ true ]
  unfolding get has
  has-get k [] = refl
  has-get k ((j, v) ∷ m) = ground (arith, has-get k m)

  pub size-put :
      (k : K) (v : V) (m : Map K V) → size (put k v m) ≡ (if has k m then size m else suc (size m))
  unfolding put has
  size-put k v [] = refl
  size-put k v ((j, w) ∷ m) = ground (arith, size-put k v m)

  pub size-put-le : (k : K) (v : V) (m : Map K V) → size (put k v m) ≤ size m + 1
  size-put-le k v m = ground (arith, size-put k v m)

  pub size-delete-le : (k : K) (m : Map K V) → size (delete k m) ≤ size m
  unfolding delete
  size-delete-le k [] = omega arith
  size-delete-le k ((j, w) ∷ m) = ground (arith, size-delete-le k m)

  pub size-delete-lt : (k : K) (m : Map K V) → has k m ≡ true → size (delete k m) < size m
  unfolding delete has
  size-delete-lt k [] h = ground arith
  size-delete-lt k ((j, w) ∷ m) h = ground (arith, size-delete-le k m, size-delete-lt k m)

  pub delete_absent : (k : K) (m : Map K V) → has k m ≡ false → delete k m ≡ m
  unfolding delete has
  delete_absent k [] h = refl
  delete_absent k ((j, w) ∷ m) h = ground (arith, delete_absent k m)

module _ {ℓ κ} {K : Type ℓ} {V : Type κ} where
  pub size-sweep-le : (drop : K → V → Bool) (m : Map K V) → size (sweep drop m) ≤ size m
  unfolding sweep
  size-sweep-le drop [] = omega arith
  size-sweep-le drop ((k, v) ∷ m) = ground (arith, size-sweep-le drop m)

  pub sweep_none :
      (drop : K → V → Bool) (m : Map K V) → All (λ e. drop e.0 e.1 ≡ false) m → sweep drop m ≡ m
  unfolding sweep
  sweep_none drop [] a = refl
  sweep_none drop ((k, v) ∷ m) a = ground (arith, sweep_none drop m a.1)
