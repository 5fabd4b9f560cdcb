-- ===== src/GoMap/Distinct.antt =====
-- A Go map holds a key once. What that gives: a sweep removes exactly what its test says.
use airgate_claude.Prelude.{◌≡◌, refl, Bool, [], ◌∷◌, none, some, Key, if◌then◌else◌, arith}
use airgate_claude.GoMap.{Map, get, put, delete, sweep}
use airgate_claude.GoMap.Laws.{get-put, get-delete}

module _ {ℓ κ} {K : Type ℓ} {V : Type κ} ⦃e : Key K⦄ where
  abbrev pub Distinct : Map K V → Type κ
  Distinct [] = Unit
  Distinct ((k, v) ∷ m) = (get k m ≡ none) × Distinct m

  pub put-Distinct : (k : K) (v : V) (m : Map K V) → Distinct m → Distinct (put k v m)
  unfolding put get
  put-Distinct k v [] d = (refl, tt)
  put-Distinct k v ((j, w) ∷ m) d =
      ground (arith, e.same_iff j k, e.same_iff k j, get-put k j v m, put-Distinct k v m d.1)

  pub delete-Distinct : (k : K) (m : Map K V) → Distinct m → Distinct (delete k m)
  unfolding delete get
  delete-Distinct k [] d = tt
  delete-Distinct k ((j, w) ∷ m) d = ground (arith, get-delete k j m, delete-Distinct k m d.1)

  pub get-sweep-none :
      (drop : K → V → Bool) (k : K) (m : Map K V) → get k m ≡ none → get k (sweep drop m) ≡ none
  unfolding sweep get
  get-sweep-none drop k [] h = refl
  get-sweep-none drop k ((j, w) ∷ m) h = ground (arith, get-sweep-none drop k m)

  pub sweep-Distinct : (drop : K → V → Bool) (m : Map K V) → Distinct m → Distinct (sweep drop m)
  unfolding sweep get
  sweep-Distinct drop [] d = tt
  sweep-Distinct drop ((j, w) ∷ m) d =
      ground (arith, get-sweep-none drop j m d.0, sweep-Distinct drop m d.1)

  -- What is kept is found as before, what is dropped is gone.
  pub get-sweep :
      (drop : K → V → Bool) (k : K) (m : Map K V)
      → Distinct m
      → get k (sweep drop m)
        ≡ elim (get k m) [ none ↦ none | some v ↦ if drop k v then none else some v ]
  unfolding sweep get
  get-sweep drop k [] d = refl
  get-sweep drop k ((j, w) ∷ m) d =
      ground (arith, e.same_iff j k, get-sweep-none drop k m, get-sweep drop k m d.1)
