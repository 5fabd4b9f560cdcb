-- ===== src/ClientPool/Examples.antt =====
-- Concrete pools: the theorems at inputs that meet their hypotheses.
use airgate_claude.Prelude.{◌<◌, ◌≡◌, refl, [], ◌∷◌, String, string_key, arith}
use airgate_claude.GoMap.{get, size}
use airgate_claude.Limits.{Limits}
use airgate_claude.ClientPool.{ClientPool, get_locked}
use airgate_claude.ClientPool.Laws.{IsValid}
use airgate_claude.ClientPool.Eviction.{get_locked_direct_grows}

abbrev fresh_client : String → String
fresh_client k = k

abbrev two_proxies : ClientPool String
two_proxies = record {
  clients =
      ("http://a", record { client = "a"; last_used = 5 })
      ∷ ("http://b", record { client = "b"; last_used = 3 })
      ∷ [];
  last_cleanup = 0;
  closed = [];
}

abbrev small : Limits
small = record { max_entries = 2; idle_ttl = 100; cleanup_interval = 10 }

two_proxies-IsValid : IsValid small two_proxies
unfolding get
two_proxies-IsValid = record { distinct = (refl, (refl, tt)); bounded = omega arith }

abbrev with_direct : ClientPool String
with_direct = record {
  clients =
      ("http://a", record { client = "a"; last_used = 5 })
      ∷ ("", record { client = "direct"; last_used = 3 })
      ∷ [];
  last_cleanup = 0;
  closed = [];
}

get_locked_direct_grows_example :
    (size (get_locked fresh_client small 9 "http://c" with_direct).1.clients ≡ 3)
    × (2 < size (get_locked fresh_client small 9 "http://c" with_direct).1.clients)
unfolding get
get_locked_direct_grows_example =
    get_locked_direct_grows fresh_client small 9 "http://c"
      (("http://a", record { client = "a"; last_used = 5 }) ∷ [])
      (record { client = "direct"; last_used = 3 }) with_direct
      (record { order = refl; newer = omega arith; in_use = omega arith; full = omega arith }) refl
