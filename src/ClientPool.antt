-- ===== src/ClientPool.antt =====
-- internal/gateway/client_pool.go: the cache of HTTP clients for claude.ai, one to a proxy URL.
-- The clients come from `newReqClient`, which is built on a third-party library: a parameter.
-- `closed` lists the clients handed to `closeReqClient`, oldest call first.
pub mod Laws
pub mod Eviction
mod Examples
use airgate_claude.Prelude.{
  ℕ, ◌+◌, ◌-◌, ◌*◌, ◌≡◌, Bool, true, false, ◌&&◌, List, [], ◌∷◌, ◌++◌, map, Option, none, some,
  String, string_key, ◌==◌, if◌then◌else◌, ltb, leb,
}
use airgate_claude.GoMap.{Map, get, put, sweep, swept, values, size}
use airgate_claude.GoMap.Oldest.{oldest_key_from, delete_oldest_key}
use airgate_claude.Limits.{Limits, hour, minute}

abbrev pub client_pool_limits : Limits
client_pool_limits = record {
  max_entries = 100000;
  idle_ttl = 2 * hour;
  cleanup_interval = 10 * minute;
}

pub record ClientEntry (Client : Type 0) : Type 0 where
  pub client : Client
  pub last_used : ℕ

pub record ClientPool (Client : Type 0) : Type 0 where
  pub clients : Map String (ClientEntry Client)
  pub last_cleanup : ℕ
  pub closed : List Client

module _ {Client : Type 0} where
  abbrev pub used : ClientEntry Client → ℕ
  used e = e.last_used

  abbrev clients_of : List (ClientEntry Client) → List Client
  clients_of = map (λ e. e.client)

  abbrev found_client : Option (ClientEntry Client) → List Client
  found_client none = []
  found_client (some e) = e.client ∷ []

module _ {Client : Type 0} (l : Limits) where
  abbrev pub is_idle : ℕ → String → ClientEntry Client → Bool
  is_idle now k e = ltb l.idle_ttl (now - e.last_used)

  unfoldable pub cleanup_idle : ℕ → ClientPool Client → ClientPool Client
  cleanup_idle now p =
      if ltb (now - p.last_cleanup) l.cleanup_interval && ltb (size p.clients) l.max_entries
      then p
      else record p {
        clients = sweep (is_idle now) p.clients;
        closed = p.closed ++ clients_of (swept (is_idle now) p.clients);
        last_cleanup = now;
      }

  close_oldest : String → ClientPool Client → List Client
  close_oldest k p = if k == "" then [] else found_client (get k p.clients)

  unfoldable pub delete_oldest : ClientPool Client → ClientPool Client
  unfolding close_oldest
  delete_oldest p = record p {
    clients = delete_oldest_key used p.clients;
    closed = p.closed ++ close_oldest (oldest_key_from used "" 0 p.clients) p;
  }

  unfoldable pub make_room : ClientPool Client → ClientPool Client
  unfolding delete_oldest
  make_room p = if leb l.max_entries (size p.clients) then delete_oldest p else p

  unfoldable pub store : String → Client → ℕ → ClientPool Client → ClientPool Client
  store k c now p = record p { clients = put k (record { client = c; last_used = now }) p.clients }

module _ {Client : Type 0} (new_client : String → Client) (l : Limits) where
  -- `get` on a pool that is not nil, at the time `now`.
  unfoldable pub get_locked : ℕ → String → ClientPool Client → Client × ClientPool Client
  unfolding store make_room cleanup_idle
  get_locked now k p = elim (get k p.clients) [
    | some e ↦ (e.client, cleanup_idle l now (store l k e.client now p))
    | none ↦ (new_client k, store l k (new_client k) now (make_room l (cleanup_idle l now p)))
  ]

  unfoldable pub get_client :
      ℕ → String → Option (ClientPool Client) → Client × Option (ClientPool Client)
  unfolding get_locked
  get_client now k none = (new_client k, none)
  get_client now k (some p) = let (c, q) = get_locked now k p in (c, some q)

module _ {Client : Type 0} where
  -- `close` on a pool that is not nil.
  unfoldable pub close : ℕ → ClientPool Client → ClientPool Client
  close now p = record {
    clients = [];
    closed = p.closed ++ clients_of (values p.clients);
    last_cleanup = now;
  }
