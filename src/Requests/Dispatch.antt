-- ===== src/Requests/Dispatch.antt =====
-- The requests for a refresh, for the usage of accounts and for session keys, and the choice by path.
use Prim.Native.String
use airgate_claude.Prelude.{
  ℕ, suc, List, [], ◌∷◌, ◌++◌, none, some, String, string_key, ◌==◌, if◌then◌else◌,
}
use airgate_claude.Prelude.Int.{ℤ, pos}
use airgate_claude.Prelude.Decimal.{decimal}
use airgate_claude.GoMap.{put}
use airgate_claude.OAuth.SessionKey.{Exchanged, read_token}
use airgate_claude.TokenManager.{credential, Result, ok, err}
use airgate_claude.TransportPool.Fingerprint.{fingerprint_transport}
use airgate_claude.Requests.{
  Answer, answer, refuse, read_usage, answered, from_session_key, handle_start, handle_exchange,
}
use airgate_claude.Requests.Params.{
  UsageAccount, Env, BatchResult, error_reply, tokens_reply, results_reply, usage_reply, Shared,
  account_name, token_members, credentials_of,
}
use airgate_claude.Requests.Windows.{Usage, AccountsResponse, usage_info}

module _ {Client T U : Type 0} (env : Env Client T U) where
  -- A connection of the pool for the account, proxy and profile.
  abbrev pub connect : ℕ → ℤ → String → String → Shared Client T → T × Shared Client T
  connect now account proxy_url profile s =
      let (t, pools) =
        fingerprint_transport env.build now account proxy_url profile s.connections.transports in
      (t, record s { connections = record s.connections { transports = pools } })

  abbrev pub refresh_answer : ℕ → Result Exchanged → Answer U
  refresh_answer now (err e) = answer 500 (error_reply e)
  refresh_answer now (ok x) = answer 200 (tokens_reply (token_members env.format now x.tokens))

  unfoldable pub handle_refresh : ℕ → String → Shared Client T → Answer U × Shared Client T
  unfolding fingerprint_transport read_token token_members
  handle_refresh now body s = elim (env.decode.refresh body) [
    | none ↦ (refuse "缺少 refresh_token 参数", s)
    | some p ↦
        let (t, s') = connect now (pos 0) p.proxy_url "" s in
        if p.refresh_token == ""
        then (refuse "缺少 refresh_token 参数", s)
        else (refresh_answer now (read_token (env.servers.refresh t p.refresh_token)), s')
  ]

  unfoldable pub handle_cookie :
      ℕ → Result String → Result String → String → Shared Client T → Answer U × Shared Client T
  unfolding from_session_key credentials_of
  handle_cookie now verifier state body s = elim (env.decode.cookie body) [
    | none ↦ (refuse "缺少 session_key 参数", s)
    | some p ↦
        if p.session_key == ""
        then (refuse "缺少 session_key 参数", s)
        else answered env now (from_session_key env now verifier state p.session_key p.proxy_url s)
  ]

  unfoldable pub batch_result : ℕ → Result Exchanged → BatchResult
  unfolding credentials_of
  batch_result now (err e) = record {
    account_type = "";
    account_name = "";
    credentials = [];
    status = "failed";
    error = e;
  }
  batch_result now (ok x) = record {
    account_type = "oauth";
    account_name = account_name x;
    credentials = credentials_of env.format now x;
    status = "ok";
    error = "";
  }

  -- The loop; `random` are the generators' verifier and state in the round of an index.
  unfoldable pub batch_all :
      ℕ
      → (ℕ → Result String × Result String)
      → ℕ
      → String
      → List String
      → Shared Client T
      → List BatchResult × Shared Client T
  unfolding from_session_key batch_result
  batch_all now random i proxy_url [] s = ([], s)
  batch_all now random i proxy_url (k ∷ ks) s =
      let (verifier, state) = random i in
      let (r, s') = from_session_key env now verifier state k proxy_url s in
      let (rs, s'') = batch_all now random (suc i) proxy_url ks s' in (batch_result now r ∷ rs, s'')

  unfoldable pub handle_batch :
      ℕ
      → (ℕ → Result String × Result String)
      → String
      → Shared Client T
      → Answer U × Shared Client T
  unfolding batch_all
  handle_batch now random body s = elim (env.decode.batch body) [
    | none ↦ (refuse "缺少 session_keys 参数", s)
    | some p ↦ elim p.session_keys [
      | [] ↦ (refuse "缺少 session_keys 参数", s)
      | k ∷ ks ↦
          let (rs, s') = batch_all now random 0 p.proxy_url (k ∷ ks) s in
          (answer 200 (results_reply rs), s')
    ]
  ]

  -- What the answer for one account adds to the response.
  unfoldable pub record_usage : ℕ → ℤ → Result (Usage U) → AccountsResponse U → AccountsResponse U
  unfolding usage_info
  record_usage now id (err e) r = record r {
    errors = r.errors ++ record { id = id; message = e } ∷ [];
  }
  record_usage now id (ok u) r = record r {
    accounts = put (decimal id) (usage_info env.format env.parse env.positive now u) r.accounts;
  }

  unfoldable pub fetch_all :
      ℕ
      → List UsageAccount
      → Shared Client T
      → AccountsResponse U
      → AccountsResponse U × Shared Client T
  unfolding record_usage read_usage fingerprint_transport
  fetch_all now [] s r = (r, s)
  fetch_all now (a ∷ more) s r =
      let token = credential "access_token" a.credentials in
      let (t, s') =
        connect now a.id (credential "proxy_url" a.credentials)
          (credential "tls_profile" a.credentials) s in
      if token == ""
      then fetch_all now more s r
      else fetch_all now more s' (record_usage now a.id (read_usage (env.servers.usage t token)) r)

  unfoldable pub handle_usage : ℕ → String → Shared Client T → Answer U × Shared Client T
  unfolding fetch_all
  handle_usage now body s = elim (env.decode.accounts body) [
    | none ↦ (refuse "invalid request body", s)
    | some accounts ↦
        let (r, s') = fetch_all now accounts s (record { accounts = []; errors = [] }) in
        (answer 200 (usage_reply r), s')
  ]

  -- The switch on the path.
  unfoldable pub handle_request :
      ℕ
      → (ℕ → Result String × Result String)
      → String
      → String
      → Shared Client T
      → Answer U × Shared Client T
  unfolding handle_start handle_exchange handle_refresh handle_usage handle_cookie handle_batch
  handle_request now random path body s =
      let (verifier, state) = random 0 in
      if path == "oauth/start"
      then handle_start env now verifier state s
      else if path == "oauth/exchange"
      then handle_exchange env now verifier state body s
      else if path == "oauth/refresh"
      then handle_refresh now body s
      else if path == "usage/accounts"
      then handle_usage now body s
      else if path == "console/cookie-auth"
      then handle_cookie now verifier state body s
      else if path == "console/batch-cookie-auth"
      then handle_batch now random body s
      else (answer 404 (error_reply (String.◌++◌ "未知的操作: " path)), s)
