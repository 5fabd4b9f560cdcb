-- ===== src/GoMap/Oldest.antt =====
-- The loops that look for the entry with the least time stamp: one remembers with a flag whether an
-- entry was seen (`found`), the other takes the empty key for "none seen yet".
use text.Mathlib.TextEquality.{eq_iff}
use airgate_claude.Prelude.{
  ℕ, ◌≤◌, ◌<◌, ◌≡◌, refl, ◌⊎◌, inl, inr, false, ◌||◌, [], ◌∷◌, ◌++◌, Option, none, some, String,
  string_key, Key, ◌==◌, if◌then◌else◌, arith, ltb, All, Bool-cases, Option-cases, ltb→lt, ap,
  subst, sym, ◌∙◌,
}
use airgate_claude.GoMap.{Map, get, delete, has, size}
use airgate_claude.GoMap.Distinct.{Distinct, delete-Distinct}
use airgate_claude.GoMap.Laws.{has-get, size-delete-lt}

module _ {ℓ κ} {K : Type ℓ} {V : Type κ} (at : V → ℕ) where
  -- `none` while `found` is false
  unfoldable pub oldest_from : Option (K × ℕ) → Map K V → Option (K × ℕ)
  oldest_from acc [] = acc
  oldest_from none ((k, v) ∷ m) = oldest_from (some (k, at v)) m
  oldest_from (some (k, t)) ((j, w) ∷ m) =
      oldest_from (if ltb (at w) t then some (j, at w) else some (k, t)) m

module _ {ℓ κ} {K : Type ℓ} {V : Type κ} ⦃e : Key K⦄ (at : V → ℕ) where
  unfoldable pub delete_oldest : Map K V → Map K V
  unfolding oldest_from
  delete_oldest m = elim (oldest_from at none m) [ none ↦ m | some (k, t) ↦ delete k m ]

  -- The entry that such a loop should pick: its time stamp is the least.
  abbrev pub IsOldest : Map K V → K → Type κ
  IsOldest m k = (v : V) × (get k m ≡ some v) × All (λ e. at v ≤ at e.1) m

  -- Where the loop ends, from the entry `k` with the time stamp `t`.
  abbrev Picks : K → ℕ → Map K V → Option (K × ℕ) → Type (ℓ ⊔ κ)
  Picks k t m r =
      ((r ≡ some (k, t)) × All (λ e. t ≤ at e.1) m)
      ⊎ ((j : K) × (v : V) × (r ≡ some (j, at v))
          × (at v < t)
          × (get j m ≡ some v)
          × All (λ e. at v ≤ at e.1) m)

  All-weaken : (s t : ℕ) (m : Map K V) → s ≤ t → All (λ e. t ≤ at e.1) m → All (λ e. s ≤ at e.1) m
  All-weaken s t [] h a = tt
  All-weaken s t (x ∷ m) h a = (omega arith, All-weaken s t m h a.1)

  oldest_from-Picks :
      (k : K) (t : ℕ) (m : Map K V) → Distinct m → Picks k t m (oldest_from at (some (k, t)) m)
  unfolding oldest_from get
  oldest_from-Picks k t [] d = inl (refl, tt)
  oldest_from-Picks k t ((j, w) ∷ m) d = elim (Bool-cases (ltb (at w) t)) [
    | inl newer ↦ rw newer (newer_case (oldest_from-Picks j (at w) m d.1) (ltb→lt (at w) t newer))
    | inr older ↦ rw older (older_case (oldest_from-Picks k t m d.1) (ground arith))
  ]
    where
      newer_case :
          Picks j (at w) m (oldest_from at (some (j, at w)) m)
          → at w < t
          → Picks k t ((j, w) ∷ m) (oldest_from at (some (j, at w)) m)
      newer_case (inl (r, a)) h = inr (j, w, r, h, ground (arith, e.same_iff j j), (omega arith, a))
      newer_case (inr (i, v, r, l, g, a)) h =
          inr (i, v, r, omega arith, ground (arith, e.same_iff j i), (omega arith, a))

      older_case :
          Picks k t m (oldest_from at (some (k, t)) m)
          → t ≤ at w
          → Picks k t ((j, w) ∷ m) (oldest_from at (some (k, t)) m)
      older_case (inl (r, a)) h = inl (r, (h, a))
      older_case (inr (i, v, r, l, g, a)) h =
          inr (i, v, r, l, ground (arith, e.same_iff j i), (omega arith, a))

  -- The loop with the flag picks an entry with the least time stamp, and finds none only in the
  -- empty map.
  pub delete_oldest_lem :
      (m : Map K V)
      → Distinct m
      → ((m ≡ []) × (delete_oldest m ≡ []))
        ⊎ ((k : K) × IsOldest m k × (delete_oldest m ≡ delete k m))
  unfolding delete_oldest oldest_from get
  delete_oldest_lem [] d = inl (refl, refl)
  delete_oldest_lem ((j, w) ∷ m) d = pick (oldest_from-Picks j (at w) m d.1)
    where
      pick :
          Picks j (at w) m (oldest_from at (some (j, at w)) m)
          → (((j, w) ∷ m ≡ []) × (delete_oldest ((j, w) ∷ m) ≡ []))
            ⊎ ((k : K) × IsOldest ((j, w) ∷ m) k
                × (delete_oldest ((j, w) ∷ m) ≡ delete k ((j, w) ∷ m)))
      pick (inl (r, a)) =
          inr (j, (w, ground (arith, e.same_iff j j), (omega arith, a)), rw (r, delete_oldest))
      pick (inr (i, v, r, l, g, a)) =
          inr (i, (v, ground (arith, e.same_iff j i), (omega arith, a)), rw (r, delete_oldest))

  pub delete_oldest-Distinct : (m : Map K V) → Distinct m → Distinct (delete_oldest m)
  unfolding delete_oldest
  delete_oldest-Distinct m d = elim (Option-cases (oldest_from at none m)) [
    | inl e ↦ rw (e, delete_oldest) d
    | inr ((k, t), e) ↦ rw (e, delete_oldest) (delete-Distinct k m d)
  ]

  delete_found : (k : K) (v : V) (m : Map K V) → get k m ≡ some v → size (delete k m) < size m
  delete_found k v m g = size-delete-lt k m (ground (arith, has-get k m))

  pub size-delete_oldest : (m : Map K V) → Distinct m → 0 < size m → size (delete_oldest m) < size m
  size-delete_oldest m d h = elim (delete_oldest_lem m d) [
    | inl (e, _) ↦ absurd (omega (arith, ap size e))
    | inr (k, (v, g, _), r) ↦ rw r (delete_found k v m g)
  ]

module _ {κ} {V : Type κ} (at : V → ℕ) where
  -- the loop over `oldestKey` and `oldestAt`
  unfoldable pub oldest_key_from : String → ℕ → Map String V → String
  oldest_key_from k t [] = k
  oldest_key_from k t ((j, w) ∷ m) =
      let newer = k == "" || ltb (at w) t in
      oldest_key_from (if newer then j else k) (if newer then at w else t) m

  -- `if oldestKey != "" { … }`
  unfoldable pub delete_unless_empty : String → Map String V → Map String V
  delete_unless_empty k m = if k == "" then m else delete k m

  unfoldable pub delete_oldest_key : Map String V → Map String V
  unfolding oldest_key_from delete_unless_empty
  delete_oldest_key m = delete_unless_empty (oldest_key_from "" 0 m) m

  key_of : Option (String × ℕ) → String
  key_of none = ""
  key_of (some (k, t)) = k

  oldest_key_from-oldest_from :
      (k : String) (t : ℕ) (m : Map String V)
      → (k == "") ≡ false
      → has "" m ≡ false
      → (oldest_key_from k t m ≡ key_of (oldest_from at (some (k, t)) m))
        × ((oldest_key_from k t m == "") ≡ false)
  unfolding oldest_key_from oldest_from key_of has
  oldest_key_from-oldest_from k t [] ne h = (refl, ne)
  oldest_key_from-oldest_from k t ((j, w) ∷ m) ne h =
      let here = oldest_key_from-oldest_from k t m ne in
      let there = oldest_key_from-oldest_from j (at w) m in ground (arith, here, there)

  delete_unless_empty-key_of :
      (r : Option (String × ℕ)) (m : Map String V)
      → (key_of r == "") ≡ false
      → delete_unless_empty (key_of r) m ≡ elim r [ none ↦ m | some (k, t) ↦ delete k m ]
  unfolding delete_unless_empty key_of
  delete_unless_empty-key_of none m h = cc
  delete_unless_empty-key_of (some (k, t)) m h = rw h

  -- With no entry under the empty key the two loops agree.
  pub delete_oldest_key-delete_oldest :
      (m : Map String V) → has "" m ≡ false → delete_oldest_key m ≡ delete_oldest at m
  unfolding delete_oldest_key delete_oldest has
  delete_oldest_key-delete_oldest [] h = refl
  delete_oldest_key-delete_oldest ((j, w) ∷ m) h =
      let (same, ne) = oldest_key_from-oldest_from j (at w) m (ground arith) (ground arith) in
      let found = oldest_from at (some (j, at w)) m in
      ap (λ k. delete_unless_empty k ((j, w) ∷ m)) same
      ∙ delete_unless_empty-key_of found ((j, w) ∷ m) (subst (λ k. (k == "") ≡ false) same ne)

  abbrev pub NewerThan : ℕ → Map String V → Type 0
  NewerThan t = All (λ e. t < at e.1)

  oldest_key_from_last :
      (k : String) (t : ℕ) (v : V) (m : Map String V)
      → NewerThan (at v) m
      → at v < t
      → oldest_key_from k t (m ++ ("", v) ∷ []) ≡ ""
  unfolding oldest_key_from
  oldest_key_from_last k t v [] h lt = ground arith
  oldest_key_from_last k t v ((j, w) ∷ m) h lt =
      ground (arith, oldest_key_from_last k t v m h.1, oldest_key_from_last j (at w) v m h.1)

  -- When the entry under the empty key is the oldest and is visited last, nothing is deleted.
  pub delete_oldest_key_direct :
      (m : Map String V) (v : V)
      → NewerThan (at v) m
      → delete_oldest_key (m ++ ("", v) ∷ []) ≡ m ++ ("", v) ∷ []
  unfolding delete_oldest_key oldest_key_from
  delete_oldest_key_direct [] v h = refl
  delete_oldest_key_direct ((j, w) ∷ m) v h =
      ap (λ k. delete_unless_empty k ((j, w) ∷ (m ++ ("", v) ∷ [])))
        (oldest_key_from_last j (at w) v m h.1 h.0)

  pub delete_oldest_key-Distinct : (m : Map String V) → Distinct m → Distinct (delete_oldest_key m)
  unfolding delete_oldest_key delete_unless_empty
  delete_oldest_key-Distinct m d =
      let k = oldest_key_from "" 0 m in ground (arith, delete-Distinct k m d)

  Picks-key_of :
      (j : String) (w : V) (m : Map String V)
      → get j m ≡ none
      → Picks at j (at w) m (oldest_from at (some (j, at w)) m)
      → IsOldest at ((j, w) ∷ m) (key_of (oldest_from at (some (j, at w)) m))
  unfolding get key_of
  Picks-key_of j w m n (inl (r, a)) =
      subst (λ o. IsOldest at ((j, w) ∷ m) (key_of o)) (sym r)
        (w, ground (arith, eq_iff j j), (omega arith, a))
  Picks-key_of j w m n (inr (i, v, r, l, g, a)) =
      subst (λ o. IsOldest at ((j, w) ∷ m) (key_of o)) (sym r)
        (v, ground (arith, eq_iff j i), (omega arith, a))

  -- With no entry under the empty key, the loop finds an entry with the least time stamp in every
  -- map that is not empty.
  pub oldest_key_lem :
      (m : Map String V)
      → Distinct m
      → has "" m ≡ false
      → 0 < size m
      → IsOldest at m (oldest_key_from "" 0 m) × ((oldest_key_from "" 0 m == "") ≡ false)
  unfolding oldest_key_from has
  oldest_key_lem [] d n h = absurd (omega arith)
  oldest_key_lem ((j, w) ∷ m) d n h =
      let (same, ne) = oldest_key_from-oldest_from j (at w) m (ground arith) (ground arith) in
      (
        subst (IsOldest at ((j, w) ∷ m)) (sym same)
            (Picks-key_of j w m d.0 (oldest_from-Picks at j (at w) m d.1)),
        ne,
      )
