-- ===== src/TransportPool.antt =====
-- internal/gateway/transport_pool.go: the pools of HTTP transports. `StandardTransportPool` is
-- keyed by the proxy URL; its operations stand here. `FingerprintTransportPool` has the same loops
-- under a composed key: see `Fingerprint`. `closed` lists the transports whose idle connections were
-- closed. How a transport is built is a parameter, the function `build`.
pub mod Fingerprint
pub mod Laws
pub mod Accounts
pub mod Reach
mod Examples
use airgate_claude.Prelude.{
  ℕ, ◌+◌, ◌-◌, ◌*◌, ◌≡◌, Bool, true, false, ◌&&◌, List, [], ◌∷◌, ◌++◌, map, Option, none, some,
  String, string_key, ◌==◌, if◌then◌else◌, ltb, leb,
}
use airgate_claude.GoMap.{Map, get, put, sweep, swept, values, size}
use airgate_claude.GoMap.Oldest.{oldest_key_from, delete_oldest_key}
use airgate_claude.Limits.{Limits, hour, minute}

abbrev pub standard_limits : Limits
standard_limits = record {
  max_entries = 100000;
  idle_ttl = 2 * hour;
  cleanup_interval = 10 * minute;
}

pub record Entry (T : Type 0) : Type 0 where
  pub transport : T
  pub last_used : ℕ

pub record Pool (T : Type 0) : Type 0 where
  pub pool : Map String (Entry T)
  pub last_cleanup : ℕ
  pub closed : List T

module _ {T : Type 0} where
  abbrev pub used : Entry T → ℕ
  used e = e.last_used

  abbrev pub transports : List (Entry T) → List T
  transports = map (λ e. e.transport)

  abbrev found_transport : Option (Entry T) → List T
  found_transport none = []
  found_transport (some e) = e.transport ∷ []

  -- `NewStandardTransportPool`; the dialer is part of `build`.
  unfoldable pub new_pool : ℕ → Pool T
  new_pool now = record { pool = []; last_cleanup = now; closed = [] }

  -- `Close`
  unfoldable pub close : ℕ → Pool T → Pool T
  close now p = record {
    pool = [];
    last_cleanup = now;
    closed = p.closed ++ transports (values p.pool);
  }

module _ {T : Type 0} (l : Limits) where
  abbrev pub is_idle : ℕ → String → Entry T → Bool
  is_idle now k e = ltb l.idle_ttl (now - e.last_used)

  unfoldable pub cleanup_idle : ℕ → Pool T → Pool T
  cleanup_idle now p =
      if ltb (now - p.last_cleanup) l.cleanup_interval && ltb (size p.pool) l.max_entries
      then p
      else record p {
        pool = sweep (is_idle now) p.pool;
        closed = p.closed ++ transports (swept (is_idle now) p.pool);
        last_cleanup = now;
      }

  close_oldest : String → Pool T → List T
  close_oldest k p = if k == "" then [] else found_transport (get k p.pool)

  unfoldable pub delete_oldest : Pool T → Pool T
  unfolding close_oldest
  delete_oldest p = record p {
    pool = delete_oldest_key used p.pool;
    closed = p.closed ++ close_oldest (oldest_key_from used "" 0 p.pool) p;
  }

  unfoldable pub make_room : Pool T → Pool T
  unfolding delete_oldest
  make_room p = if leb l.max_entries (size p.pool) then delete_oldest p else p

  -- `entry.lastUsedAt = now` for the entry under `k`, and the entry's transport.
  unfoldable pub store : String → T → ℕ → Pool T → Pool T
  store k t now p = record p { pool = put k (record { transport = t; last_used = now }) p.pool }

  unfoldable pub touch : ℕ → String → Pool T → Pool T
  unfolding cleanup_idle store
  touch now k p = elim (get k p.pool) [
    | some e ↦ cleanup_idle now (store k e.transport now p)
    | none ↦ cleanup_idle now p
  ]

  -- The part of `Get` under the write lock: other goroutines may have run since the key was missed.
  unfoldable pub get_slow : T → ℕ → String → Pool T → T × Pool T
  unfolding cleanup_idle make_room store
  get_slow fresh now k p = elim (get k p.pool) [
    | some e ↦ (e.transport, store k e.transport now p)
    | none ↦ (fresh, store k fresh now (make_room (cleanup_idle now p)))
  ]

  -- `Get` with no other goroutine between its two critical sections.
  unfoldable pub get_or_create : T → ℕ → String → Pool T → T × Pool T
  unfolding touch get_slow
  get_or_create fresh now k p = elim (get k p.pool) [
    | some e ↦ (e.transport, touch now k p)
    | none ↦ get_slow fresh now k p
  ]

-- `Get` of the standard pool.
unfoldable pub get_standard : {T : Type 0} → (String → T) → ℕ → String → Pool T → T × Pool T
get_standard build now proxy_url p = get_or_create standard_limits (build proxy_url) now proxy_url p
