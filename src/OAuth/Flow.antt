-- ===== src/OAuth/Flow.antt =====
-- `StartOAuth` and `HandleOAuthCallback` over the store. The random texts, the S256 challenge and the
-- token endpoint are arguments: the generators may fail, the endpoint answers a request.
use airgate_claude.Prelude.{ℕ, [], ◌∷◌, Option, none, some, String, string_key, if◌then◌else◌}
use airgate_claude.GoMap.{Map}
use airgate_claude.OAuth.{Session, expired, clean_expired, set_session, consume}
use airgate_claude.OAuth.Code.{TokenRequest, token_request}

pub data StartError : Type 0 where
  no_verifier : StartError
  no_state : StartError

pub record Started : Type 0 where
  pub query : Map String String
  pub state : String

pub data StartResult : Type 0 where
  failed : StartError → StartResult
  started : Started → StartResult

-- The parameters of the authorization URL, in the order in which `Encode` writes them.
unfoldable pub authorize_query : String → String → Map String String
authorize_query challenge state =
    ("client_id", "9d1c250a-e61b-44d9-88ed-5944d1962f5e")
    ∷ ("code", "true")
    ∷ ("code_challenge", challenge)
    ∷ ("code_challenge_method", "S256")
    ∷ ("redirect_uri", "https://platform.claude.com/oauth/code/callback")
    ∷ ("response_type", "code")
    ∷ (
      "scope",
      "org:create_api_key user:profile user:inference user:sessions:claude_code user:mcp_servers user:file_upload",
    )
    ∷ ("state", state)
    ∷ []

module _ (challenge : String → String) where
  unfoldable pub start_oauth :
      ℕ → Option String → Option String → Map String Session → StartResult × Map String Session
  unfolding set_session clean_expired authorize_query
  start_oauth now none state m = (failed no_verifier, clean_expired now m)
  start_oauth now (some verifier) none m = (failed no_state, clean_expired now m)
  start_oauth now (some verifier) (some state) m =
      let s : Session = record { state = state; code_verifier = verifier; created_at = some now } in
      (
        started (record { query = authorize_query (challenge verifier) state; state = state }),
        set_session now state s (clean_expired now m),
      )

-- What a callback does with the code: an unknown or expired session ends it before the exchange.
pub data Callback (Answer : Type 0) : Type 0 where
  unknown_session : Callback Answer
  expired_session : Callback Answer
  exchanged : TokenRequest → Answer → Callback Answer

module _ {Answer : Type 0} (exchange : TokenRequest → Answer) where
  unfoldable pub exchange_session : ℕ → String → Option Session → Callback Answer
  unfolding expired token_request
  exchange_session now code none = unknown_session
  exchange_session now code (some s) =
      if expired now s
      then expired_session
      else let request = token_request code s.code_verifier in exchanged request (exchange request)

  unfoldable pub handle_oauth_callback :
      ℕ → String → String → Map String Session → Callback Answer × Map String Session
  unfolding exchange_session consume
  handle_oauth_callback now code state m =
      let (s, m') = consume state m in (exchange_session now code s, m')
