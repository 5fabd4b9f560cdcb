-- ===== src/GoMap/Bounds.antt =====
-- An insertion that first makes room keeps a map within its limit.
use airgate_claude.Prelude.{
  ℕ, ◌+◌, ◌≤◌, ◌<◌, ◌≡◌, false, String, string_key, Key, if◌then◌else◌, arith, leb,
}
use airgate_claude.GoMap.{Map, put, has, size}
use airgate_claude.GoMap.Distinct.{Distinct}
use airgate_claude.GoMap.Laws.{size-put-le}
use airgate_claude.GoMap.Oldest.{
  delete_oldest, delete_oldest_key, size-delete_oldest, delete_oldest_key-delete_oldest,
}

module _ {ℓ κ} {K : Type ℓ} {V : Type κ} ⦃e : Key K⦄ (at : V → ℕ) (max : ℕ) where
  -- `if len(m) >= max { deleteOldest() }`
  abbrev pub make_room : Map K V → Map K V
  make_room m = if leb max (size m) then delete_oldest at m else m

  make_room-size :
      (m : Map K V) → Distinct m → 0 < max → size m ≤ max → size (make_room m) + 1 ≤ max
  make_room-size m d h b = ground (arith, size-delete_oldest at m d)

  pub put-make_room-size :
      (k : K) (v : V) (m : Map K V)
      → Distinct m
      → 0 < max
      → size m ≤ max
      → size (put k v (make_room m)) ≤ max
  put-make_room-size k v m d h b =
      omega (arith, size-put-le k v (make_room m), make_room-size m d h b)

module _ {κ} {V : Type κ} (at : V → ℕ) (max : ℕ) where
  -- the same, in the pools that take the empty key for "none seen yet"
  abbrev pub make_room_key : Map String V → Map String V
  make_room_key m = if leb max (size m) then delete_oldest_key at m else m

  pub put-make_room_key-size :
      (k : String) (v : V) (m : Map String V)
      → Distinct m
      → has "" m ≡ false
      → 0 < max
      → size m ≤ max
      → size (put k v (make_room_key m)) ≤ max
  put-make_room_key-size k v m d n h b =
      rw (delete_oldest_key-delete_oldest at m n) (put-make_room-size at max k v m d h b)
