-- ===== src/ClientPool/Laws.antt =====
-- What `get` promises: the client under its key, within the limit, and no live entry lost.
use airgate_claude.Prelude.{
  ℕ, ◌≤◌, ◌<◌, ◌≡◌, refl, false, none, some, String, string_key, arith, inl, inr, Option-cases,
}
use airgate_claude.GoMap.{get, sweep, has, size}
use airgate_claude.GoMap.Laws.{get-put_self, size-put, size-sweep-le, has-get}
use airgate_claude.GoMap.Distinct.{
  Distinct, put-Distinct, sweep-Distinct, get-sweep, get-sweep-none,
}
use airgate_claude.GoMap.Oldest.{delete_oldest_key, delete_oldest_key-Distinct}
use airgate_claude.GoMap.Bounds.{put-make_room_key-size}
use airgate_claude.Limits.{Limits}
use airgate_claude.ClientPool.{
  ClientPool, ClientEntry, used, is_idle, cleanup_idle, make_room, store, get_locked,
}

module _ {Client : Type 0} (l : Limits) where
  pub record IsValid (p : ClientPool Client) : Type 0 where
    pub distinct : Distinct p.clients
    pub bounded : size p.clients ≤ l.max_entries

  cleanup-IsValid : (now : ℕ) (p : ClientPool Client) → IsValid p → IsValid (cleanup_idle l now p)
  unfolding cleanup_idle
  cleanup-IsValid now p v = ground (
    arith,
    sweep-Distinct (is_idle l now) p.clients v.distinct,
    size-sweep-le (is_idle l now) p.clients,
  )

  cleanup-has :
      (now : ℕ) (k : String) (p : ClientPool Client)
      → has k p.clients ≡ false
      → has k (cleanup_idle l now p).clients ≡ false
  unfolding cleanup_idle
  cleanup-has now k p h = ground (
    arith,
    has-get k p.clients,
    has-get k (sweep (is_idle l now) p.clients),
    get-sweep-none (is_idle l now) k p.clients,
  )

  -- An entry used at `now` survives a cleanup at `now`.
  cleanup-keeps :
      (now : ℕ) (k : String) (e : ClientEntry Client) (p : ClientPool Client)
      → Distinct p.clients
      → get k p.clients ≡ some e
      → e.last_used ≡ now
      → get k (cleanup_idle l now p).clients ≡ some e
  unfolding cleanup_idle
  cleanup-keeps now k e p d g u = ground (arith, get-sweep (is_idle l now) k p.clients d)

  make_room-store-IsValid :
      (now : ℕ) (k : String) (c : Client) (p : ClientPool Client)
      → 0 < l.max_entries
      → has "" p.clients ≡ false
      → IsValid p
      → IsValid (store l k c now (make_room l p))
  unfolding make_room store
  make_room-store-IsValid now k c p pos direct v =
      let e : ClientEntry Client = record { client = c; last_used = now } in
      ground (
        arith,
        put-make_room_key-size used l.max_entries k e p.clients v.distinct direct pos v.bounded,
        put-Distinct k e p.clients v.distinct,
        put-Distinct k e (delete_oldest_key used p.clients)
            (delete_oldest_key-Distinct used p.clients v.distinct),
      )

  store-IsValid :
      (now : ℕ) (k : String) (e : ClientEntry Client) (p : ClientPool Client)
      → get k p.clients ≡ some e
      → IsValid p
      → IsValid (store l k e.client now p)
  unfolding store
  store-IsValid now k e p g v =
      let e' : ClientEntry Client = record { client = e.client; last_used = now } in
      ground (
        arith,
        put-Distinct k e' p.clients v.distinct,
        size-put k e' p.clients,
        has-get k p.clients,
      )

module _ {Client : Type 0} (new_client : String → Client) (l : Limits) where
  -- A pool without an entry for the direct connection stays within its limit and keeps its keys
  -- distinct, whatever `get` does: serve a stored client, clean up, evict, or build a client.
  pub get_locked-IsValid :
      (now : ℕ) (k : String) (p : ClientPool Client)
      → 0 < l.max_entries
      → has "" p.clients ≡ false
      → IsValid l p
      → IsValid l (get_locked new_client l now k p).1
  unfolding get_locked
  get_locked-IsValid now k p pos direct v = elim (Option-cases (get k p.clients)) [
    | inl e ↦
        rw (e, get_locked)
          (make_room-store-IsValid l now k (new_client k) _ pos (cleanup-has l now "" p direct)
            (cleanup-IsValid l now p v))
    | inr (entry, e) ↦
        rw (e, get_locked) (cleanup-IsValid l now _ (store-IsValid l now k entry p e v))
  ]

  -- What `get` returns is what the pool then holds under the key, stamped with the time of the
  -- call; it is the stored client if there was one, and a new client otherwise.
  pub get_locked-get :
      (now : ℕ) (k : String) (p : ClientPool Client)
      → IsValid l p
      → let (c, q) = get_locked new_client l now k p in
        (get k q.clients ≡ some (record { client = c; last_used = now }))
        × (c ≡ elim (get k p.clients) [ none ↦ new_client k | some e ↦ e.client ])
  unfolding get_locked
  get_locked-get now k p v = elim (Option-cases (get k p.clients)) [
    | inl e ↦ rw (e, get_locked) (get-put_self k _ _, refl)
    | inr (entry, e) ↦
        let e' : ClientEntry Client = record { client = entry.client; last_used = now } in
        rw (e, get_locked)
          (
            cleanup-keeps l now k e' _ (put-Distinct k e' p.clients v.distinct)
                (get-put_self k e' p.clients) refl,
            refl,
          )
  ]
