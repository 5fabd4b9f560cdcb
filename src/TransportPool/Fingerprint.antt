-- ===== src/TransportPool/Fingerprint.antt =====
-- `FingerprintTransportPool`: one bucket to an account, proxy and TLS profile.
use Prim.Native.String
use airgate_claude.Prelude.{
  ℕ, ◌*◌, Bool, [], ◌++◌, Option, none, some, String, string_key, ◌==◌, ◌||◌, not, if◌then◌else◌,
}
use airgate_claude.Prelude.Int.{ℤ}
use airgate_claude.Prelude.Decimal.{decimal}
use airgate_claude.Prelude.Text.{codes, starts}
use airgate_claude.GoMap.{sweep, swept, size}
use airgate_claude.Limits.{Limits, hour, minute}
use airgate_claude.TransportPool
use airgate_claude.TransportPool.{Pool, Entry, transports}

abbrev pub fingerprint_limits : Limits
fingerprint_limits = record {
  max_entries = 100000;
  idle_ttl = 2 * hour;
  cleanup_interval = 10 * minute;
}

-- `fmt.Sprintf("%d|%s|%s", accountID, proxyURL, profile)`
unfoldable pub fp_key : ℤ → String → String → String
fp_key account proxy_url profile =
    String.◌++◌ (decimal account)
      (String.◌++◌ "|" (String.◌++◌ proxy_url (String.◌++◌ "|" profile)))

-- The test of `RemoveAccount` on one key: `strings.HasPrefix(key, accountID + "|")`.
unfoldable pub of_account : ℤ → String → Bool
unfolding starts
of_account account key = starts (codes key) (codes (String.◌++◌ (decimal account) "|"))

module _ {T : Type 0} where
  unfoldable pub new_fingerprint_pool : ℕ → Pool T
  new_fingerprint_pool now = record { pool = []; last_cleanup = now; closed = [] }

  unfoldable pub cleanup_idle : ℕ → Pool T → Pool T
  cleanup_idle = TransportPool.cleanup_idle fingerprint_limits

  unfoldable pub delete_oldest : Pool T → Pool T
  delete_oldest = TransportPool.delete_oldest fingerprint_limits

  unfoldable pub touch : ℕ → String → Pool T → Pool T
  touch = TransportPool.touch fingerprint_limits

  -- `Get`, with no other goroutine between its two critical sections.
  unfoldable pub get_fingerprint :
      (String → String → T) → ℕ → ℤ → String → String → Pool T → T × Pool T
  get_fingerprint build now account proxy_url profile p =
      TransportPool.get_or_create fingerprint_limits (build proxy_url profile) now
        (fp_key account proxy_url profile) p

  -- `RemoveAccount` on a pool that is not nil.
  unfoldable pub remove_account_locked : ℤ → Pool T → Pool T
  remove_account_locked account p = record p {
    pool = sweep (λ k e. of_account account k) p.pool;
    closed = p.closed ++ transports (swept (λ k e. of_account account k) p.pool);
  }

  unfoldable pub remove_account : ℤ → Option (Pool T) → Option (Pool T)
  remove_account account none = none
  remove_account account (some p) = some (remove_account_locked account p)

  -- `poolStats`: the two counts that it prints.
  unfoldable pub pool_stats : Option (Pool T) → Option (Pool T) → ℕ × ℕ
  pool_stats standard fingerprint = (count standard, count fingerprint)
    where
      count : Option (Pool T) → ℕ
      count none = 0
      count (some p) = size p.pool

-- The two pools of the gateway; `none` is a nil pool.
pub record Pools (T : Type 0) : Type 0 where
  pub standard : Option (Pool T)
  pub fingerprint : Option (Pool T)

-- An HTTP client: its transport, and whether it has the total timeout `httpTimeout`.
pub record HttpClient (T : Type 0) : Type 0 where
  pub transport : T
  pub total_timeout : Bool

-- `usageTransport`, and the first case of `getHTTPClient`.
module _ {T : Type 0} (build_fingerprint : String → String → T) where
  unfoldable pub fingerprint_transport : ℕ → ℤ → String → String → Pools T → T × Pools T
  fingerprint_transport now account proxy_url profile s = elim s.fingerprint [
    | none ↦ (build_fingerprint proxy_url profile, s)
    | some p ↦
        let (t, q) = get_fingerprint build_fingerprint now account proxy_url profile p in
        (t, record s { fingerprint = some q })
  ]

-- `getHTTPClient`; `plain` is the transport of the default case without a pool.
module _ {T : Type 0} (build : String → T) (build_fingerprint : String → String → T)
    (plain : T) where
  standard_transport : ℕ → String → Pools T → T × Pools T
  standard_transport now proxy_url s = elim s.standard [
    | none ↦ (plain, s)
    | some p ↦
        let (t, q) = TransportPool.get_standard build now proxy_url p in
        (t, record s { standard = some q })
  ]

  unfoldable pub get_http_client :
      ℕ → ℤ → String → String → String → Bool → Pools T → HttpClient T × Pools T
  unfolding fingerprint_transport standard_transport
  get_http_client now account account_type proxy_url profile stream s =
      let (t, s') =
        if account_type == "oauth" || account_type == "session_key"
        then fingerprint_transport build_fingerprint now account proxy_url profile s
        else standard_transport now proxy_url s in
      (record { transport = t; total_timeout = not stream }, s')
