-- ===== src/OAuth/SessionKey.antt =====
-- `exchangeSessionKeyWithScope` and the requests that it sends, with the pools that it takes their
-- connections from. What the servers answer is an argument.
use Prim.Native.String
use airgate_claude.Prelude.{
  ℕ, List, [], Option, none, some, String, string_key, ◌==◌, if◌then◌else◌, nat_eq,
}
use airgate_claude.Prelude.Int.{pos}
use airgate_claude.Prelude.Text.{codes}
use airgate_claude.Prelude.Space.{trim_space}
use airgate_claude.Prelude.Decimal.{decimal}
use airgate_claude.GoMap.{Map, get}
use airgate_claude.Limits.{Limits}
use airgate_claude.ClientPool.{ClientPool, get_client}
use airgate_claude.Headers.{text_eq}
use airgate_claude.TokenManager.{TokenResponse, Result, ok, err}
use airgate_claude.TransportPool.Fingerprint.{Pools, fingerprint_transport}
use airgate_claude.OAuth.Code.{Org, pick_organization, full_code, TokenRequest, token_request}

pub record AccountInfo : Type 0 where
  pub uuid : String
  pub email_address : String

-- `TokenResponse` with the members that the exchange reads beside the tokens; a nil pointer is `none`,
-- the organization is its identifier.
pub record Exchanged : Type 0 where
  pub tokens : TokenResponse
  pub account : Option AccountInfo
  pub organization : Option String

-- A request fails, or it is answered with a status, a body (of which an error shows the first 200
-- bytes) and what the body holds.
pub data Response (A : Type 0) : Type 0 where
  unreachable : String → Response A
  replied : ℕ → String → A → Response A

pub record AuthorizeRequest : Type 0 where
  pub session_key : String
  pub org_uuid : String
  pub code_challenge : String
  pub state : String
  pub scope : String

-- The servers, `url.Parse(s).Query()` and the S256 challenge.
pub record Endpoints (Client T : Type 0) : Type 0 where
  pub organizations : Client → String → Response (List Org)
  pub authorize : Client → AuthorizeRequest → Response String
  pub token : T → TokenRequest → Response (Result Exchanged)
  pub parse_query : String → Result (Map String String)
  pub challenge : String → String

pub record Connections (Client T : Type 0) : Type 0 where
  pub clients : Option (ClientPool Client)
  pub transports : Pools T

abbrev pub wrap : {A : Type 0} → String → String → Result A
wrap what e = err (String.◌++◌ what e)

abbrev pub http_error : {A : Type 0} → ℕ → String → Result A
http_error status body =
    err (String.◌++◌ "HTTP " (String.◌++◌ (decimal (pos status)) (String.◌++◌ ": " body)))

unfoldable pub get_organization_uuid : Response (List Org) → Result String
get_organization_uuid (unreachable e) = err e
get_organization_uuid (replied status body orgs) =
    if nat_eq status 200
    then elim (pick_organization orgs) [ none ↦ err "未找到组织" | some uuid ↦ ok uuid ]
    else http_error status body

-- `query.Get(key)`
abbrev pub value : String → Map String String → String
value key q = elim (get key q) [ none ↦ "" | some v ↦ v ]

abbrev code_of : Result (Map String String) → Result String
code_of (err e) = wrap "解析 redirect_uri 失败: " e
code_of (ok q) = elim (full_code (value "code" q) (value "state" q)) [
  | none ↦ err "redirect_uri 中缺少 code"
  | some c ↦ ok c
]

unfoldable pub get_authorization_code :
    (String → Result (Map String String)) → Response String → Result String
get_authorization_code parse (unreachable e) = err e
get_authorization_code parse (replied status body redirect) =
    if nat_eq status 200
    then if redirect == "" then err "响应中缺少 redirect_uri" else code_of (parse redirect)
    else http_error status body

-- What `exchangeCodeForToken` makes of the answer.
unfoldable pub read_token : Response (Result Exchanged) → Result Exchanged
read_token (unreachable e) = err e
read_token (replied status body (ok x)) = if nat_eq status 200 then ok x else http_error status body
read_token (replied status body (err e)) =
    if nat_eq status 200 then wrap "解析 token 响应失败: " e else http_error status body

abbrev pub failed_with : {C : Type 0} → String → Result Exchanged × C → Result Exchanged × C
failed_with what (ok x, c) = (ok x, c)
failed_with what (err e, c) = (wrap what e, c)

module _ {Client T : Type 0} (new_client : String → Client) (l : Limits)
    (build : String → String → T) (remote : Endpoints Client T) where
  -- `exchangeCodeForToken` with the client of `buildOAuthClient(0, proxyURL, "")`.
  unfoldable pub exchange_code_for_token :
      ℕ → String → String → String → Connections Client T → Result Exchanged × Connections Client T
  unfolding read_token fingerprint_transport token_request
  exchange_code_for_token now proxy_url code verifier c =
      let (t, pools) = fingerprint_transport build now (pos 0) proxy_url "" c.transports in
      (read_token (remote.token t (token_request code verifier)), record c { transports = pools })

  unfoldable pub token_step :
      ℕ
      → String
      → String
      → Result String
      → Connections Client T
      → Result Exchanged × Connections Client T
  unfolding exchange_code_for_token
  token_step now proxy_url verifier (err e) c = (wrap "获取授权码失败: " e, c)
  token_step now proxy_url verifier (ok code) c =
      failed_with "换取 token 失败: " (exchange_code_for_token now proxy_url code verifier c)

  unfoldable pub authorize_step :
      ℕ
      → Client
      → String
      → String
      → String
      → String
      → Result String
      → Result String
      → Connections Client T
      → Result Exchanged × Connections Client T
  unfolding token_step get_authorization_code
  authorize_step now client session_key proxy_url scope org (err e) state c =
      (wrap "生成 code_verifier 失败: " e, c)
  authorize_step now client session_key proxy_url scope org (ok verifier) (err e) c =
      (wrap "生成 state 失败: " e, c)
  authorize_step now client session_key proxy_url scope org (ok verifier) (ok state) c =
      let request : AuthorizeRequest = record {
        session_key = session_key;
        org_uuid = org;
        code_challenge = remote.challenge verifier;
        state = state;
        scope = scope;
      } in
      token_step now proxy_url verifier
        (get_authorization_code remote.parse_query (remote.authorize client request)) c

  unfoldable pub organization_step :
      ℕ
      → Client
      → String
      → String
      → String
      → Result String
      → Result String
      → Result String
      → Connections Client T
      → Result Exchanged × Connections Client T
  unfolding authorize_step
  organization_step now client session_key proxy_url scope (err e) verifier state c =
      (wrap "获取组织 UUID 失败: " e, c)
  organization_step now client session_key proxy_url scope (ok org) verifier state c =
      authorize_step now client session_key proxy_url scope org verifier state c

  -- `verifier` and `state` are what the generators return. A proxy is refused, blank ones are not.
  unfoldable pub exchange_session_key_with_scope :
      ℕ
      → Result String
      → Result String
      → String
      → String
      → String
      → Connections Client T
      → Result Exchanged × Connections Client T
  unfolding organization_step get_organization_uuid
  exchange_session_key_with_scope now verifier state session_key proxy_url scope c =
      let (client, clients) = get_client new_client l now proxy_url c.clients in
      if text_eq (trim_space (codes proxy_url)) []
      then organization_step now client session_key proxy_url scope
          (get_organization_uuid (remote.organizations client session_key)) verifier state
          (record c { clients = clients })
      else (err "session_key exchange does not support proxy_url", c)

  abbrev pub oauth_scope_api : String
  oauth_scope_api =
      "user:profile user:inference user:sessions:claude_code user:mcp_servers user:file_upload"

  -- `ExchangeSessionKeyForToken`
  unfoldable pub exchange_session_key_for_token :
      ℕ
      → Result String
      → Result String
      → String
      → String
      → Connections Client T
      → Result Exchanged × Connections Client T
  unfolding exchange_session_key_with_scope
  exchange_session_key_for_token now verifier state session_key proxy_url c =
      exchange_session_key_with_scope now verifier state session_key proxy_url oauth_scope_api c
