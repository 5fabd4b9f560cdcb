-- ===== src/Registry.antt =====
-- internal/gateway/sidecar.go, the account registry: the OAuth accounts that the forwarding path has
-- seen. The sidecar sends traffic for these accounts only.
pub mod Laws
mod Examples
use airgate_claude.Prelude.{
  ℕ, ◌-◌, ◌*◌, Bool, true, false, not, ◌&&◌, ◌||◌, List, [], ◌∷◌, Option, none, some, String,
  string_key, int_key, ◌==◌, if◌then◌else◌, ltb, leb,
}
use airgate_claude.Prelude.Int.{ℤ}
use airgate_claude.GoMap.{Map, get, put, has, sweep, values, size}
use airgate_claude.GoMap.Oldest
use airgate_claude.TokenManager.{Account}
use airgate_claude.Limits.{Limits, hour, minute}

abbrev pub registry_limits : Limits
registry_limits = record {
  max_entries = 100000;
  idle_ttl = 24 * hour;
  cleanup_interval = 30 * minute;
}

pub record Snapshot : Type 0 where
  pub id : ℤ
  pub account_type : String
  pub proxy_url : String
  pub credentials : Map String String
  pub last_seen_at : ℕ

pub record Registry : Type 0 where
  pub accounts : Map ℤ Snapshot
  pub last_cleanup : ℕ

unfoldable pub new_registry : ℕ → Registry
new_registry now = record { accounts = []; last_cleanup = now }

-- The copy of an account's fields; `fireRefreshProbe` leaves the time at zero.
abbrev pub snapshot_of : ℕ → Account → Snapshot
snapshot_of now a = record {
  id = a.id;
  account_type = a.kind;
  proxy_url = a.proxy_url;
  credentials = a.credentials;
  last_seen_at = now;
}

abbrev pub seen : Snapshot → ℕ
seen s = s.last_seen_at

abbrev pub is_idle : ℕ → ℤ → Snapshot → Bool
is_idle now account s = ltb registry_limits.idle_ttl (now - s.last_seen_at)

unfoldable pub cleanup : ℕ → Registry → Registry
cleanup now r =
    if ltb (now - r.last_cleanup) registry_limits.cleanup_interval
      && ltb (size r.accounts) registry_limits.max_entries
    then r
    else record { accounts = sweep (is_idle now) r.accounts; last_cleanup = now }

unfoldable pub delete_oldest : Registry → Registry
delete_oldest r = record r { accounts = Oldest.delete_oldest seen r.accounts }

unfoldable pub store : ℤ → Snapshot → Registry → Registry
unfolding delete_oldest
store account s r =
    let r' =
      if not (has account r.accounts) && leb registry_limits.max_entries (size r.accounts)
      then delete_oldest r
      else r in
    record r' { accounts = put account s r'.accounts }

abbrev pub uses_token : Account → Bool
uses_token a = a.kind == "oauth" || a.kind == "session_key"

unfoldable pub register : ℕ → Option Account → Registry → Registry
unfolding store cleanup
register now none r = r
register now (some a) r = if uses_token a then store a.id (snapshot_of now a) (cleanup now r) else r

unfoldable pub snapshot : ℕ → Registry → List Snapshot × Registry
unfolding cleanup
snapshot now r = let r' = cleanup now r in (values r'.accounts, r')
