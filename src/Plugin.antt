-- ===== src/Plugin.antt =====
-- internal/gateway/gateway.go: the life of the plugin, and the host's questions about one account,
-- `ValidateAccount` and `QueryQuota`.
pub mod Url
pub mod Life
mod Examples
use Prim.Native.String
use airgate_claude.Prelude.{
  ℕ, Bool, true, false, ◌&&◌, ◌||◌, not, List, [], ◌∷◌, ◌++◌, Option, none, some, String,
  string_key, ◌==◌, if◌then◌else◌, nat_eq, leb,
}
use airgate_claude.Sidecar.Events.{Event, draining, run}
use airgate_claude.Prelude.Int.{pos}
use airgate_claude.Prelude.Decimal.{decimal}
use airgate_claude.GoMap.{Map, put}
use airgate_claude.ClientPool
use airgate_claude.TransportPool
use airgate_claude.Forward.{Gateway}
use airgate_claude.Headers.{Text}
use airgate_claude.OAuth.SessionKey.{Connections}
use airgate_claude.Plugin.Url.{resolve_base_url}
use airgate_claude.Registry.{new_registry}
use airgate_claude.Sidecar.{Runner, new_runner, begin_drain}
use airgate_claude.Sidecar
use airgate_claude.TokenManager.{Credentials, credential, Result, ok, err}
use airgate_claude.TokenManager.States.{new_manager}
use airgate_claude.TransportPool.Fingerprint.{Pools, new_fingerprint_pool, fingerprint_transport}
use airgate_claude.Requests.{read_usage}
use airgate_claude.Requests.Params.{Env, Shared}
use airgate_claude.Requests.Windows.{Usage, UsageWindow}

-- `AnthropicGateway` with the store of sessions, which is a global of the package.
pub record Plugin (Client T : Type 0) : Type 0 where
  pub shared : Shared Client T
  pub gateway : Gateway

unfoldable pub close_clients :
    {Client : Type 0}
    → ℕ
    → Option (ClientPool.ClientPool Client)
    → Option (ClientPool.ClientPool Client)
unfolding ClientPool.close
close_clients now none = none
close_clients now (some p) = some (ClientPool.close now p)

unfoldable pub close_transports :
    {T : Type 0} → ℕ → Option (TransportPool.Pool T) → Option (TransportPool.Pool T)
unfolding TransportPool.close
close_transports now none = none
close_transports now (some p) = some (TransportPool.close now p)

module _ {Client T : Type 0} where
  abbrev initial : ℕ → Plugin Client T → Plugin Client T
  initial now p = record {
    shared = record p.shared {
      connections = record {
        clients = some (record { clients = []; last_cleanup = now; closed = [] });
        transports = record {
          standard = some (TransportPool.new_pool now);
          fingerprint = some (new_fingerprint_pool now);
        };
      };
    };
    gateway = record {
      manager = new_manager now;
      registry = some (new_registry now);
      sidecar = some new_runner;
    };
  }

  -- `host` is what the runtime state of the host answers, `none` without a host.
  unfoldable pub init : ℕ → Option (Option String) → Plugin Client T → Result (Plugin Client T)
  unfolding TransportPool.new_pool new_fingerprint_pool new_manager new_registry new_runner
  init now (some (some e)) p = err (String.◌++◌ "core runtime state unavailable: " e)
  init now (some none) p = ok (initial now p)
  init now none p = ok (initial now p)

  unfoldable pub start : Plugin Client T → Plugin Client T
  unfolding Sidecar.start
  start p = elim p.gateway.sidecar [
    | none ↦ p
    | some r ↦ record p { gateway = record p.gateway { sidecar = some (Sidecar.start r) } }
  ]

  unfoldable pub close_all : ℕ → Connections Client T → Connections Client T
  unfolding close_clients close_transports
  close_all now c = record {
    clients = close_clients now c.clients;
    transports = record {
      standard = close_transports now c.transports.standard;
      fingerprint = close_transports now c.transports.fingerprint;
    };
  }

  -- `Stop`: the drain of the sidecar, the two waits, and the closing of the pools. `ends` is what happens
  -- to the runner during the waits; `none` is a panic, or a wait that goes on, since a goroutine runs.
  unfoldable pub stop : ℕ → List Event → Plugin Client T → Option (Plugin Client T)
  unfolding close_all run
  stop now ends p =
      let shared : Shared Client T = record p.shared {
        connections = close_all now p.shared.connections;
      } in
      elim p.gateway.sidecar [
        | none ↦ some (record p { shared = shared })
        | some r ↦ elim (run (draining ∷ ends) r) [
          | none ↦ none
          | some r' ↦
              if nat_eq r'.workers 0 && nat_eq r'.probes 0
              then some
                  (record { shared = shared; gateway = record p.gateway { sidecar = some r' } })
              else none
        ]
      ]

-- How the request for the models of an account goes.
pub data Checked : Type 0 where
  not_built : String → Checked
  unreachable : String → Checked
  replied : ℕ → Checked

abbrev checked : Checked → Option String
checked (not_built e) = some (String.◌++◌ "构建验证请求失败: " e)
checked (unreachable e) = some (String.◌++◌ "验证请求失败: " e)
checked (replied status) =
    if nat_eq status 401
    then some "API Key 无效"
    else if leb 400 status
    then some (String.◌++◌ "API Key 验证失败: HTTP " (decimal (pos status)))
    else none

module _ {T : Type 0} (build : String → T) (one_shot : String → Option T)
    (ask : Option T → Text → String → Checked) where
  -- The transport of the check: the pool's, or without a pool one for this call, if the proxy can be
  -- read; the default one without a proxy.
  proxied : ℕ → String → Pools T → Option T × Pools T
  unfolding TransportPool.get_standard
  proxied now proxy_url s = if proxy_url == "" then (none, s) else elim s.standard [
    | none ↦ (one_shot proxy_url, s)
    | some p ↦
        let (t, q) = TransportPool.get_standard build now proxy_url p in
        (some t, record s { standard = some q })
  ]

  -- The error, if there is one; a request that cannot be built does not reach the pool.
  unfoldable pub validate_account : ℕ → Credentials → Pools T → Option String × Pools T
  unfolding proxied resolve_base_url
  validate_account now c s =
      let (t, s') = proxied now (credential "proxy_url" c) s in
      let reply = ask t (resolve_base_url c) (credential "api_key" c) in
      if credential "api_key" c == ""
        && credential "access_token" c == ""
        && credential "session_key" c == ""
      then (some "缺少 api_key、access_token 或 session_key", s)
      else if credential "api_key" c == ""
      then (none, s)
      else (checked reply, elim reply [ not_built e ↦ s | _ ↦ s' ])

-- The result of `QueryQuota`.
pub data Quota : Type 0 where
  not_supported : Quota
  query_failed : String → Quota
  extra : Map String String → Quota

abbrev add_reset : String → String → Map String String → Map String String
add_reset key at m = if at == "" then m else put key at m

module _ {Client T U : Type 0} (env : Env Client T U) (print : U → String) where
  abbrev pub extra_of : Usage U → Map String String
  extra_of u = add_reset "seven_day_sonnet_resets_at" u.seven_day_sonnet.resets_at (
      add_reset "seven_day_resets_at" u.seven_day.resets_at (
        add_reset "five_hour_resets_at" u.five_hour.resets_at (
          ("five_hour_utilization", print u.five_hour.utilization)
          ∷ ("seven_day_utilization", print u.seven_day.utilization)
          ∷ ("seven_day_sonnet_utilization", print u.seven_day_sonnet.utilization)
          ∷ [])))

  unfoldable pub query_quota : ℕ → Credentials → Shared Client T → Quota × Shared Client T
  unfolding read_usage fingerprint_transport
  query_quota now c s =
      let token = credential "access_token" c in
      let (t, pools) =
        fingerprint_transport env.build now (pos 0) (credential "proxy_url" c)
          (credential "tls_profile" c) s.connections.transports in
      if token == "" then (not_supported, s) else (
        elim (read_usage (env.servers.usage t token)) [
          | err e ↦ query_failed (String.◌++◌ "查询用量失败: " e)
          | ok u ↦ extra (extra_of u)
        ],
        record s { connections = record s.connections { transports = pools } },
      )
