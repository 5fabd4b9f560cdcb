-- ===== src/ClientPool/Eviction.antt =====
-- Which client makes room for a new one.
use airgate_claude.Prelude.{
  ℕ, ◌+◌, ◌-◌, ◌≤◌, ◌<◌, ◌≡◌, false, [], ◌∷◌, ◌++◌, none, some, String, string_key, arith, All, ap,
  ◌∙◌, subst, sym,
}
use airgate_claude.GoMap.{Map, get, delete, has, size}
use airgate_claude.GoMap.Laws.{size-put, has-get, sweep_none}
use airgate_claude.GoMap.Distinct.{Distinct}
use airgate_claude.GoMap.Oldest.{
  oldest_key_from, delete_oldest_key, delete_unless_empty, NewerThan, oldest_key_lem,
  delete_oldest_key_direct,
}
use airgate_claude.Limits.{Limits}
use airgate_claude.ClientPool.{
  ClientPool, ClientEntry, used, is_idle, cleanup_idle, delete_oldest, make_room, store, get_locked,
}

module _ {Client : Type 0} (l : Limits) where
  -- In a pool with entries, none of them for the direct connection, exactly one entry is evicted: no
  -- other was used earlier, and its client is closed.
  pub delete_oldest_lem :
      (p : ClientPool Client)
      → Distinct p.clients
      → has "" p.clients ≡ false
      → 0 < size p.clients
      → (k : String) × (e : ClientEntry Client) × (get k p.clients ≡ some e)
        × All (λ x. e.last_used ≤ x.1.last_used) p.clients
        × ((delete_oldest l p).clients ≡ delete k p.clients)
        × ((delete_oldest l p).closed ≡ p.closed ++ e.client ∷ [])
  unfolding delete_oldest delete_oldest_key delete_unless_empty
  delete_oldest_lem p d n h =
      let ((e, g, a), ne) = oldest_key_lem used p.clients d n h in
      (oldest_key_from used "" 0 p.clients, e, g, a, rw ne, ground arith)

  is_idle_of_newer :
      (now t : ℕ) (m : Map String (ClientEntry Client))
      → now - t ≤ l.idle_ttl
      → NewerThan used t m
      → All (λ e. is_idle l now e.0 e.1 ≡ false) m
  is_idle_of_newer now t [] h a = tt
  is_idle_of_newer now t (x ∷ m) h a = (ground arith, is_idle_of_newer now t m h a.1)

  cleanup_clients :
      (now : ℕ) (p : ClientPool Client)
      → All (λ e. is_idle l now e.0 e.1 ≡ false) p.clients
      → (cleanup_idle l now p).clients ≡ p.clients
  unfolding cleanup_idle
  cleanup_clients now p a = ground (arith, sweep_none (is_idle l now) p.clients a)

  -- The pool for the finding below: the direct connection is the oldest entry and visited last.
  pub record DirectOldest (now : ℕ) (m : Map String (ClientEntry Client)) (v : ClientEntry Client)
      (p : ClientPool Client) : Type 0 where
    pub order : p.clients ≡ m ++ ("", v) ∷ []
    pub newer : NewerThan used v.last_used m
    pub in_use : now - v.last_used ≤ l.idle_ttl
    pub full : l.max_entries ≤ size p.clients

  All-idle_append :
      (now : ℕ) (v : ClientEntry Client) (m : Map String (ClientEntry Client))
      → All (λ e. is_idle l now e.0 e.1 ≡ false) m
      → is_idle l now "" v ≡ false
      → All (λ e. is_idle l now e.0 e.1 ≡ false) (m ++ ("", v) ∷ [])
  All-idle_append now v [] a h = (h, tt)
  All-idle_append now v (x ∷ m) a h = (a.0, All-idle_append now v m a.1 h)

  DirectOldest-clients :
      (now : ℕ) (m : Map String (ClientEntry Client)) (v : ClientEntry Client)
      (p : ClientPool Client)
      → DirectOldest now m v p
      → (make_room l (cleanup_idle l now p)).clients ≡ p.clients
  unfolding make_room delete_oldest
  DirectOldest-clients now m v p d =
      let kept = cleanup_clients now p (
        subst (All (λ e. is_idle l now e.0 e.1 ≡ false)) (sym d.order) (
          All-idle_append now v m (is_idle_of_newer now v.last_used m d.in_use d.newer)
            (ground arith))) in
      ground (
        arith,
        kept,
        d.order,
        ap (delete_oldest_key used) (kept ∙ d.order),
        delete_oldest_key_direct used m v d.newer,
      )

module _ {Client : Type 0} (new_client : String → Client) (l : Limits) where
  -- When the direct connection, whose key is the empty text, is the least recently used entry and the
  -- loop visits it last, `get` evicts nothing for a new key: a full pool grows beyond its limit.
  pub get_locked_direct_grows :
      (now : ℕ) (k : String) (m : Map String (ClientEntry Client)) (v : ClientEntry Client)
      (p : ClientPool Client)
      → DirectOldest l now m v p
      → get k p.clients ≡ none
      → (size (get_locked new_client l now k p).1.clients ≡ size p.clients + 1)
        × (l.max_entries < size (get_locked new_client l now k p).1.clients)
  unfolding get_locked store
  get_locked_direct_grows now k m v p d g =
      let same = DirectOldest-clients l now m v p d in
      let c : ClientEntry Client = record { client = new_client k; last_used = now } in
      ground (arith, same, size-put k c p.clients, has-get k p.clients, d.full)
