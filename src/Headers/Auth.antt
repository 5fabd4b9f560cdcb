-- ===== src/Headers/Auth.antt =====
-- `setAnthropicAuthHeaders`, its default headers, and the headers of a count_tokens request.
use airgate_claude.Prelude.{
  ℕ, Bool, ◌||◌, List, [], ◌∷◌, ◌++◌, map, String, string_key, ◌==◌, if◌then◌else◌, ltb,
}
use airgate_claude.Prelude.Text.{codes, lower}
use airgate_claude.Headers.{Text, text_eq, mem, join, oauth_beta, apikey_beta, apikey_beta_header}
use airgate_claude.Headers.Http.{Header, header_get, header_set, set_raw_header}
use airgate_claude.TokenManager.{Account, credential}

unfoldable pub default_headers : List (Text × Text)
default_headers =
    (codes "User-Agent", codes "claude-cli/2.1.112 (external, cli)")
    ∷ (codes "X-Stainless-Lang", codes "js")
    ∷ (codes "X-Stainless-Package-Version", codes "0.88.0")
    ∷ (codes "X-Stainless-OS", codes "Linux")
    ∷ (codes "X-Stainless-Arch", codes "arm64")
    ∷ (codes "X-Stainless-Runtime", codes "bun")
    ∷ (codes "X-Stainless-Runtime-Version", codes "v1.3.13")
    ∷ (codes "X-Stainless-Timeout", codes "300")
    ∷ (codes "x-app", codes "cli")
    ∷ (codes "anthropic-dangerous-direct-browser-access", codes "true")
    ∷ []

-- The number is the random one, below 1000.
unfoldable pub pick_retry_count : ℕ → Text
pick_retry_count n = if ltb n 970 then codes "0" else if ltb n 995 then codes "1" else codes "2"

unfoldable pub is_raw_case_header : Text → Bool
unfolding lower
is_raw_case_header key = mem (map lower key) (
    map codes (
      "anthropic-dangerous-direct-browser-access" ∷ "x-app" ∷ "content-type" ∷ "anthropic-version"
      ∷ "anthropic-beta" ∷ "authorization" ∷ "accept-language" ∷ "accept-encoding"
      ∷ "x-client-request-id" ∷ []))

unfoldable pub set_default : Text × Text → Header → Header
unfolding is_raw_case_header set_raw_header header_set
set_default (k, v) h = if is_raw_case_header k then set_raw_header k v h else header_set k v h

-- The loop over the default headers; `order` is the order of the iteration.
unfoldable pub set_defaults : List (Text × Text) → Header → Header
unfolding set_default
set_defaults [] h = h
set_defaults (e ∷ es) h = set_defaults es (set_default e h)

abbrev pub bearer : String → Text
bearer token = codes "Bearer " ++ codes token

abbrev raw : String → Text → Header → Header
raw name value h = set_raw_header (codes name) value h

-- What both kinds of accounts send.
unfoldable pub set_common : List (Text × Text) → Text → Header → Header
unfolding set_defaults set_raw_header header_set
set_common order retry h =
    raw "Accept" (codes "application/json")
      (header_set (codes "X-Stainless-Retry-Count") retry (set_defaults order h))

unfoldable pub set_api_key : List (Text × Text) → Text → String → Text → Header → Header
unfolding set_common set_raw_header
set_api_key order retry api_key beta h =
    set_common order retry (raw "anthropic-beta" beta (raw "x-api-key" (codes api_key) h))

unfoldable pub set_token : List (Text × Text) → Text → String → Text → Header → Header
unfolding set_common set_raw_header
set_token order retry token beta h =
    set_common order retry (raw "anthropic-beta" beta (raw "authorization" (bearer token) h))

abbrev pub is_token_account : Account → Bool
is_token_account a = a.kind == "oauth" || a.kind == "session_key"

abbrev pub version_of : Text → Text
version_of v = if text_eq v [] then codes "2023-06-01" else v

-- The switch on the type of the account.
unfoldable pub set_account : List (Text × Text) → Text → Account → Header → String → Header → Header
unfolding set_api_key set_token header_get oauth_beta apikey_beta
set_account order retry a client model h =
    let beta = header_get "anthropic-beta" client in
    if a.kind == "apikey"
    then set_api_key order retry (credential "api_key" a.credentials) (apikey_beta model beta) h
    else if is_token_account a
    then set_token order retry (credential "access_token" a.credentials) (oauth_beta model beta) h
    else h

unfoldable pub set_anthropic_auth_headers :
    List (Text × Text) → Text → Account → Header → String → Header → Header
unfolding set_account header_get set_raw_header
set_anthropic_auth_headers order retry a client model h =
    raw "content-type" (codes "application/json") (
      raw "anthropic-version" (version_of (header_get "anthropic-version" client))
        (set_account order retry a client model h))

unfoldable pub count_tokens_beta_header : Text
unfolding join
count_tokens_beta_header = join (
    map codes (
      "claude-code-20250219" ∷ "oauth-2025-04-20" ∷ "interleaved-thinking-2025-05-14"
      ∷ "token-counting-2024-11-01" ∷ []))

unfoldable pub build_count_tokens_headers : List (Text × Text) → Account → Header → Header
unfolding set_defaults count_tokens_beta_header apikey_beta_header header_set set_raw_header
build_count_tokens_headers order a h =
    let api_key = credential "api_key" a.credentials in
    let with_auth =
      if a.kind == "apikey"
      then header_set (codes "anthropic-beta")
          (apikey_beta_header ++ codes ",token-counting-2024-11-01")
          (header_set (codes "x-api-key") (codes api_key)
            (header_set (codes "Authorization") (bearer api_key) h))
      else if is_token_account a
      then raw "Accept" (codes "application/json") (
          set_defaults order (
            raw "anthropic-beta" count_tokens_beta_header
              (raw "authorization" (bearer (credential "access_token" a.credentials)) h)))
      else h in
    raw "content-type" (codes "application/json")
      (raw "anthropic-version" (codes "2023-06-01") with_auth)
