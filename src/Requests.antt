-- ===== src/Requests.antt =====
-- internal/gateway/gateway.go: `HandleRequest`, the requests of the host that are no forwarding: OAuth
-- flows, session keys, and the usage of accounts. Bodies are decoded and printed by the parameters.
pub mod Params
pub mod Windows
pub mod Dispatch
pub mod Laws
pub mod Callbacks
pub mod Totals
mod Examples
use Prim.Native.String
use airgate_claude.Prelude.{
  ℕ, Bool, true, false, ◌&&◌, ◌||◌, not, List, [], ◌∷◌, ◌++◌, suc, Option, none, some, String,
  string_key, ◌==◌, if◌then◌else◌, nat_eq,
}
use airgate_claude.Prelude.Int.{ℤ, pos}
use airgate_claude.Prelude.Decimal.{decimal}
use airgate_claude.GoMap.{Map, put}
use airgate_claude.OAuth.{Session}
use airgate_claude.OAuth.Flow.{
  StartError, StartResult, no_verifier, no_state, failed, started, start_oauth, Callback,
  unknown_session, expired_session, exchanged, handle_oauth_callback,
}
use airgate_claude.OAuth.SessionKey.{
  Exchanged, Connections, Response, unreachable, replied, wrap, http_error, value, failed_with,
  read_token, exchange_session_key_for_token,
}
use airgate_claude.TokenManager.{Credentials, credential, Result, ok, err}
use airgate_claude.TransportPool.Fingerprint.{fingerprint_transport}
use airgate_claude.Requests.Params.{
  ExchangeParams, RefreshParams, CookieParams, BatchParams, UsageAccount, Env, BatchResult, Reply,
  error_reply, started_reply, tokens_reply, account_reply, results_reply, usage_reply, Shared,
  unwrap, account_name, token_members, credentials_of,
}
use airgate_claude.Requests.Windows.{Usage, AccountUsageInfo, AccountsResponse, usage_info}

-- The status and the body of the answer.
pub record Answer (U : Type 0) : Type 0 where
  pub status : ℕ
  pub body : Reply U

abbrev pub answer : {U : Type 0} → ℕ → Reply U → Answer U
answer status body = record { status = status; body = body }

abbrev pub refuse : {U : Type 0} → String → Answer U
refuse text = answer 400 (error_reply text)

abbrev pub option_of : Result String → Option String
option_of (ok s) = some s
option_of (err e) = none

abbrev pub start_answer : {U : Type 0} → StartResult → Answer U
start_answer (failed no_verifier) = answer 500 (error_reply "生成 code_verifier 失败")
start_answer (failed no_state) = answer 500 (error_reply "生成 state 失败")
start_answer (started s) = answer 200 (started_reply s)

-- `fetchUsage` on the answer of the server.
unfoldable pub read_usage : {U : Type 0} → Response (Result (Usage U)) → Result (Usage U)
read_usage (unreachable e) = err e
read_usage (replied status body (ok u)) = if nat_eq status 200 then ok u else http_error status body
read_usage (replied status body (err e)) =
    if nat_eq status 200 then wrap "解析 usage 响应失败: " e else http_error status body

module _ {Client T U : Type 0} (env : Env Client T U) where
  -- `verifier` and `state` are what the generators return, an error drops its text.
  unfoldable pub handle_start :
      ℕ → Result String → Result String → Shared Client T → Answer U × Shared Client T
  unfolding start_oauth
  handle_start now verifier state s =
      let (r, sessions) =
        start_oauth env.servers.endpoints.challenge now (option_of verifier) (option_of state)
          s.sessions in
      (start_answer r, record s { sessions = sessions })

  -- `HandleOAuthCallback`; the pool is asked once the session is known to be good.
  unfoldable pub callback :
      ℕ → String → String → String → Shared Client T → Result Exchanged × Shared Client T
  unfolding handle_oauth_callback fingerprint_transport read_token
  callback now code state proxy_url s =
      let (t, pools) =
        fingerprint_transport env.build now (pos 0) proxy_url "" s.connections.transports in
      let (r, sessions) =
        handle_oauth_callback (λ request. read_token (env.servers.endpoints.token t request)) now
          code state s.sessions in
      elim r [
        | unknown_session ↦ (err "无效或已过期的 OAuth 会话", record s { sessions = sessions })
        | expired_session ↦ (err "OAuth 会话已过期", record s { sessions = sessions })
        | exchanged request result ↦ failed_with "token 交换失败: " (
          result,
          record { sessions = sessions; connections = record s.connections { transports = pools } },
        )
      ]

  unfoldable pub from_session_key :
      ℕ
      → Result String
      → Result String
      → String
      → String
      → Shared Client T
      → Result Exchanged × Shared Client T
  unfolding exchange_session_key_for_token
  from_session_key now verifier state session_key proxy_url s =
      let (r, c) =
        exchange_session_key_for_token env.new_client env.limits env.build env.servers.endpoints now
          verifier state session_key proxy_url s.connections in
      (r, record s { connections = c })

  abbrev pub account_answer : ℕ → Result Exchanged → Answer U
  account_answer now (err e) = answer 500 (error_reply e)
  account_answer now (ok x) =
      answer 200 (account_reply "oauth" (credentials_of env.format now x) (account_name x))

  abbrev pub answered : ℕ → Result Exchanged × Shared Client T → Answer U × Shared Client T
  answered now (r, s) = (account_answer now r, s)

  -- A callback URL before a session key.
  unfoldable pub exchange_params :
      ℕ
      → Result String
      → Result String
      → ExchangeParams
      → Shared Client T
      → Answer U × Shared Client T
  unfolding callback from_session_key credentials_of
  exchange_params now verifier state p s =
      let by_key = answered now (from_session_key now verifier state p.session_key p.proxy_url s) in
      if p.callback_url == ""
      then if p.session_key == "" then (refuse "缺少 callback_url 或 session_key 参数", s) else by_key
      else elim (env.servers.endpoints.parse_query p.callback_url) [
        | err e ↦ (refuse "callback_url 格式无效", s)
        | ok q ↦
            if value "code" q == "" || value "state" q == ""
            then (refuse "callback_url 缺少 code 或 state 参数", s)
            else answered now (callback now (value "code" q) (value "state" q) p.proxy_url s)
      ]

  unfoldable pub handle_exchange :
      ℕ → Result String → Result String → String → Shared Client T → Answer U × Shared Client T
  unfolding exchange_params unwrap
  handle_exchange now verifier state body s = elim (env.decode.exchange body) [
    | none ↦ (refuse "请求参数格式错误", s)
    | some p ↦ exchange_params now verifier state (unwrap env.decode.exchange p) s
  ]
