-- ===== src/Requests/Params.antt =====
-- The parameters, replies and servers of the host's requests, `HandleRequest` of gateway.go.
use airgate_claude.Prelude.{
  ℕ, Bool, ◌&&◌, not, List, [], ◌∷◌, Option, none, some, String, string_key, ◌==◌, if◌then◌else◌,
}
use airgate_claude.Prelude.Int.{ℤ}
use airgate_claude.Prelude.Text.{codes, starts}
use airgate_claude.Prelude.Space.{trim_space}
use airgate_claude.GoMap.{Map, put}
use airgate_claude.Limits.{Limits, add_seconds}
use airgate_claude.OAuth.{Session}
use airgate_claude.OAuth.Flow.{Started}
use airgate_claude.OAuth.SessionKey.{AccountInfo, Exchanged, Connections, Endpoints, Response}
use airgate_claude.TokenManager.{Credentials, TokenResponse, Result}
use airgate_claude.Requests.Windows.{Usage, AccountsResponse}

pub record ExchangeParams : Type 0 where
  pub callback_url : String
  pub session_key : String
  pub proxy_url : String
  pub scope : String

pub record RefreshParams : Type 0 where
  pub refresh_token : String
  pub proxy_url : String

pub record CookieParams : Type 0 where
  pub session_key : String
  pub proxy_url : String
  pub scope : String

pub record BatchParams : Type 0 where
  pub session_keys : List String
  pub proxy_url : String
  pub scope : String

pub record UsageAccount : Type 0 where
  pub id : ℤ
  pub credentials : Credentials

-- `json.Unmarshal` of a body into the parameters of a request; `none` is an error.
pub record Decoders : Type 0 where
  pub exchange : String → Option ExchangeParams
  pub refresh : String → Option RefreshParams
  pub cookie : String → Option CookieParams
  pub batch : String → Option BatchParams
  pub accounts : String → Option (List UsageAccount)

-- The servers that the requests ask: those of the exchange, the token endpoint with a refresh token,
-- the usage endpoint with an access token; `U` is the type of a utilization.
pub record Servers (Client T U : Type 0) : Type 0 where
  pub endpoints : Endpoints Client T
  pub refresh : T → String → Response (Result Exchanged)
  pub usage : T → String → Response (Result (Usage U))

-- What the requests take from elsewhere: how a client and a transport are made, the servers, the
-- decoding of bodies, the printing and parsing of an instant, the sign of a utilization.
pub record Env (Client T U : Type 0) : Type 0 where
  pub new_client : String → Client
  pub limits : Limits
  pub build : String → String → T
  pub servers : Servers Client T U
  pub decode : Decoders
  pub format : ℕ → String
  pub parse : String → Option ℕ
  pub positive : U → Bool

pub record BatchResult : Type 0 where
  pub account_type : String
  pub account_name : String
  pub credentials : Credentials
  pub status : String
  pub error : String

pub data Reply (U : Type 0) : Type 0 where
  error_reply : String → Reply U
  started_reply : Started → Reply U
  tokens_reply : Credentials → Reply U
  account_reply : String → Credentials → String → Reply U
  results_reply : List BatchResult → Reply U
  usage_reply : AccountsResponse U → Reply U

-- The state that the requests share: the pending sessions and the pools.
pub record Shared (Client T : Type 0) : Type 0 where
  pub sessions : Map String Session
  pub connections : Connections Client T

-- The host puts every parameter into `callback_url`: one that holds JSON with a session key counts as
-- that session key.
unfoldable pub unwrap : (String → Option ExchangeParams) → ExchangeParams → ExchangeParams
unfolding starts
unwrap decode p =
    if not (p.callback_url == "")
      && p.session_key == ""
      && starts (trim_space (codes p.callback_url)) (codes "{")
    then elim (decode p.callback_url) [
      | none ↦ p
      | some inner ↦ if inner.session_key == "" then p else record p {
        session_key = inner.session_key;
        scope = if inner.scope == "" then p.scope else inner.scope;
        callback_url = "";
      }
    ]
    else p

abbrev with_account : Option AccountInfo → Credentials → Credentials
with_account none c = c
with_account (some a) c = put "account_uuid" a.uuid (put "email" a.email_address c)

abbrev with_organization : Option String → Credentials → Credentials
with_organization none c = c
with_organization (some o) c = put "org_uuid" o c

abbrev pub account_name : Exchanged → String
account_name x = elim x.account [ none ↦ "" | some a ↦ a.email_address ]

module _ (format : ℕ → String) where
  -- The three members of every answer with a token; `format` prints an instant.
  unfoldable pub token_members : ℕ → TokenResponse → Credentials
  token_members now t =
      ("access_token", t.access_token)
      ∷ ("refresh_token", t.refresh_token)
      ∷ ("expires_at", format (add_seconds now t.expires_in))
      ∷ []

  unfoldable pub credentials_of : ℕ → Exchanged → Credentials
  unfolding token_members
  credentials_of now x =
      with_organization x.organization (with_account x.account (token_members now x.tokens))
