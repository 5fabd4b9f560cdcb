-- ===== src/TransportPool/Laws.antt =====
-- What the pools promise: the transport under its key, the limit, and one transport to a key even
-- where two goroutines miss it at once.
use airgate_claude.Prelude.{
  ℕ, ◌≤◌, ◌<◌, ◌≡◌, refl, false, none, some, String, string_key, arith, inl, inr, Option-cases,
}
use airgate_claude.GoMap.{get, sweep, has, size}
use airgate_claude.GoMap.Laws.{get-put_self, size-put, size-sweep-le, has-get}
use airgate_claude.GoMap.Distinct.{
  Distinct, put-Distinct, sweep-Distinct, get-sweep, get-sweep-none,
}
use airgate_claude.GoMap.Oldest.{delete_oldest_key, delete_oldest_key-Distinct}
use airgate_claude.GoMap.Bounds.{put-make_room_key-size}
use airgate_claude.Limits.{Limits}
use airgate_claude.TransportPool.{
  Pool, Entry, used, is_idle, cleanup_idle, make_room, store, touch, get_slow, get_or_create,
}

module _ {T : Type 0} (l : Limits) where
  pub record IsValid (p : Pool T) : Type 0 where
    pub distinct : Distinct p.pool
    pub bounded : size p.pool ≤ l.max_entries

  cleanup-IsValid : (now : ℕ) (p : Pool T) → IsValid p → IsValid (cleanup_idle l now p)
  unfolding cleanup_idle
  cleanup-IsValid now p v = ground (
    arith,
    sweep-Distinct (is_idle l now) p.pool v.distinct,
    size-sweep-le (is_idle l now) p.pool,
  )

  cleanup-has :
      (now : ℕ) (k : String) (p : Pool T)
      → has k p.pool ≡ false
      → has k (cleanup_idle l now p).pool ≡ false
  unfolding cleanup_idle
  cleanup-has now k p h = ground (
    arith,
    has-get k p.pool,
    has-get k (sweep (is_idle l now) p.pool),
    get-sweep-none (is_idle l now) k p.pool,
  )

  cleanup-keeps :
      (now : ℕ) (k : String) (e : Entry T) (p : Pool T)
      → Distinct p.pool
      → get k p.pool ≡ some e
      → e.last_used ≡ now
      → get k (cleanup_idle l now p).pool ≡ some e
  unfolding cleanup_idle
  cleanup-keeps now k e p d g u = ground (arith, get-sweep (is_idle l now) k p.pool d)

  make_room-store-IsValid :
      (now : ℕ) (k : String) (t : T) (p : Pool T)
      → 0 < l.max_entries
      → has "" p.pool ≡ false
      → IsValid p
      → IsValid (store l k t now (make_room l p))
  unfolding make_room store
  make_room-store-IsValid now k t p pos direct v =
      let e : Entry T = record { transport = t; last_used = now } in
      ground (
        arith,
        put-make_room_key-size used l.max_entries k e p.pool v.distinct direct pos v.bounded,
        put-Distinct k e p.pool v.distinct,
        put-Distinct k e (delete_oldest_key used p.pool)
            (delete_oldest_key-Distinct used p.pool v.distinct),
      )

  store-IsValid :
      (now : ℕ) (k : String) (e : Entry T) (p : Pool T)
      → get k p.pool ≡ some e
      → IsValid p
      → IsValid (store l k e.transport now p)
  unfolding store
  store-IsValid now k e p g v =
      let e' : Entry T = record { transport = e.transport; last_used = now } in
      ground (arith, put-Distinct k e' p.pool v.distinct, size-put k e' p.pool, has-get k p.pool)

  get_slow-IsValid :
      (fresh : T) (now : ℕ) (k : String) (p : Pool T)
      → 0 < l.max_entries
      → has "" p.pool ≡ false
      → IsValid p
      → IsValid (get_slow l fresh now k p).1
  unfolding get_slow
  get_slow-IsValid fresh now k p pos direct v = elim (Option-cases (get k p.pool)) [
    | inl e ↦
        rw (e, get_slow)
          (make_room-store-IsValid now k fresh _ pos (cleanup-has now "" p direct)
            (cleanup-IsValid now p v))
    | inr (entry, e) ↦ rw (e, get_slow) (store-IsValid now k entry p e v)
  ]

  touch-IsValid : (now : ℕ) (k : String) (p : Pool T) → IsValid p → IsValid (touch l now k p)
  unfolding touch
  touch-IsValid now k p v = elim (Option-cases (get k p.pool)) [
    | inl e ↦ rw (e, touch) (cleanup-IsValid now p v)
    | inr (entry, e) ↦ rw (e, touch) (cleanup-IsValid now _ (store-IsValid now k entry p e v))
  ]

  -- A pool without an entry under the empty key keeps its keys distinct and stays within its limit,
  -- on every branch of `Get`.
  pub get_or_create-IsValid :
      (fresh : T) (now : ℕ) (k : String) (p : Pool T)
      → 0 < l.max_entries
      → has "" p.pool ≡ false
      → IsValid p
      → IsValid (get_or_create l fresh now k p).1
  unfolding get_or_create
  get_or_create-IsValid fresh now k p pos direct v = elim (Option-cases (get k p.pool)) [
    | inl e ↦ rw (e, get_or_create) (get_slow-IsValid fresh now k p pos direct v)
    | inr (entry, e) ↦ rw (e, get_or_create) (touch-IsValid now k p v)
  ]

  get_slow-get :
      (fresh : T) (now : ℕ) (k : String) (p : Pool T)
      → let (t, q) = get_slow l fresh now k p in
        get k q.pool ≡ some (record { transport = t; last_used = now })
  unfolding get_slow
  get_slow-get fresh now k p = elim (Option-cases (get k p.pool)) [
    | inl e ↦ rw (e, get_slow) (get-put_self k _ _)
    | inr (entry, e) ↦ rw (e, get_slow) (get-put_self k _ _)
  ]

  touch-get :
      (now : ℕ) (k : String) (e : Entry T) (p : Pool T)
      → Distinct p.pool
      → get k p.pool ≡ some e
      → get k (touch l now k p).pool ≡ some (record { transport = e.transport; last_used = now })
  unfolding touch
  touch-get now k e p d g =
      let e' : Entry T = record { transport = e.transport; last_used = now } in
      rw (g, touch)
        (cleanup-keeps now k e' _ (put-Distinct k e' p.pool d) (get-put_self k e' p.pool) refl)

  -- `Get` returns what the pool then holds under the key, stamped with the time of the call: the
  -- transport that was there, and otherwise the new one.
  pub get_or_create-get :
      (fresh : T) (now : ℕ) (k : String) (p : Pool T)
      → IsValid p
      → let (t, q) = get_or_create l fresh now k p in
        (get k q.pool ≡ some (record { transport = t; last_used = now }))
        × (t ≡ elim (get k p.pool) [ none ↦ fresh | some e ↦ e.transport ])
  unfolding get_or_create get_slow
  get_or_create-get fresh now k p v = elim (Option-cases (get k p.pool)) [
    | inl e ↦ rw (e, get_or_create) (get_slow-get fresh now k p, rw (e, get_slow))
    | inr (entry, e) ↦ rw (e, get_or_create) (touch-get now k entry p v.distinct e, refl)
  ]

  -- Two goroutines that both missed the key: the second to take the write lock gets the transport of
  -- the first, its own is dropped, and the pool does not grow again.
  pub get_slow_race :
      (first second : T) (now later : ℕ) (k : String) (p : Pool T)
      → let (t, q) = get_slow l first now k p in
        let (u, r) = get_slow l second later k q in (u ≡ t) × (size r.pool ≡ size q.pool)
  unfolding get_slow
  get_slow_race first second now later k p =
      let (t, q) = get_slow l first now k p in
      let g = get_slow-get first now k p in rw (g, get_slow) (refl, stored_size later k _ q g)
    where
      stored_size :
          (later : ℕ) (k : String) (e : Entry T) (q : Pool T)
          → get k q.pool ≡ some e
          → size (store l k e.transport later q).pool ≡ size q.pool
      stored_size later k e q g = ground (
        arith,
        has-get k q.pool,
        size-put k (record { transport = e.transport; last_used = later }) q.pool,
      )
