-- ===== src/Forward/Dispatch.antt =====
-- The choice of the handler by path and account type, `forwardAPIKey`, `forwardCountTokens` of
-- gateway.go, `handleModelsRequest` and `handleErrorResponse`.
use Prim.Native.String
use airgate_claude.Prelude.{
  ℕ, ◌||◌, Option, none, some, String, string_key, ◌==◌, if◌then◌else◌, leb,
}
use airgate_claude.Prelude.Int.{ℤ, pos}
use airgate_claude.Errors.{
  Outcome, success, extract_error_message, failure_outcome, success_outcome, transient_outcome,
  account_dead_outcome,
}
use airgate_claude.Forward.{
  Gateway, Sent, not_built, not_reached, answered, Forwarded, forward_oauth,
}
use airgate_claude.TokenManager.{Account, Result, ok, err}
use airgate_claude.TokenManager.Refresh.{Attempt}

-- An upstream answer whose body was read.
pub record Read (Body Headers : Type 0) : Type 0 where
  pub status : ℕ
  pub body : Body
  pub headers : Headers

-- How the body of an error is read: its `error.type` and `error.message`, its first 200 bytes, and the
-- delay that the headers ask for.
pub record ErrorReading (Body Headers : Type 0) : Type 0 where
  pub type_of : Body → String
  pub message_of : Body → String
  pub shown : Body → String
  pub retry_after : Headers → ℤ

-- What the handlers take from elsewhere.
pub record Handlers (Body Headers Usage Response : Type 0) : Type 0 where
  pub reading : ErrorReading Body Headers
  pub models_body : Body
  pub json_headers : Headers
  -- The requests for messages and for a count of tokens, built and sent.
  pub send : Account → Sent Response
  pub send_count : Account → Sent Response
  pub read : Response → Read Body Headers
  pub read_count : Response → Result (Read Body Headers)
  pub on_answer : Response → Outcome Body Headers Usage × Option String
  pub format : ℕ → String
  pub parse : String → Option ℕ

module _ {Body Headers Usage Response : Type 0} (e : Handlers Body Headers Usage Response) where
  abbrev pub error_text : Body → String
  error_text body =
      let message = extract_error_message (e.reading.type_of body) (e.reading.message_of body) in
      if message == "" then e.reading.shown body else message

  unfoldable pub handle_error_response : Read Body Headers → Outcome Body Headers Usage
  unfolding failure_outcome extract_error_message
  handle_error_response r =
      failure_outcome r.status r.body r.headers (error_text r.body)
        (e.reading.retry_after r.headers)

  -- The outcome and the error, if there is one.
  abbrev pub Returned : Type 0
  Returned = Outcome Body Headers Usage × Option String

  abbrev not_sent : String → Returned
  not_sent x = let reason = String.◌++◌ "构建上游请求失败: " x in (transient_outcome reason, some reason)

  abbrev no_answer : String → Returned
  no_answer x = (transient_outcome x, some (String.◌++◌ "请求上游失败: " x))

  -- `on_answer` handles a stream or an answer in one piece.
  unfoldable pub forward_api_key : Sent Response → Returned
  unfolding transient_outcome handle_error_response
  forward_api_key (not_built x) = not_sent x
  forward_api_key (not_reached x) = no_answer x
  forward_api_key (answered status r) =
      if leb 400 status then (handle_error_response (e.read r), none) else e.on_answer r

  unfoldable pub forward_count_tokens : Sent Response → Returned
  unfolding transient_outcome handle_error_response
  forward_count_tokens (not_built x) = not_sent x
  forward_count_tokens (not_reached x) = no_answer x
  forward_count_tokens (answered status r) = elim (e.read_count r) [
    | err x ↦ let reason = String.◌++◌ "读取上游响应失败: " x in (transient_outcome reason, some reason)
    | ok body ↦ if leb 400 status then (handle_error_response body, none) else (
      record {
        kind = success;
        status = status;
        body = some body.body;
        headers = some body.headers;
        reason = "";
        retry_after = pos 0;
        usage = none;
      },
      none,
    )
  ]

  abbrev pub unchanged : Account → Gateway → Returned → Option (Forwarded Body Headers Usage)
  unchanged a g (o, x) =
      some (record { outcome = o; updated = none; error = x; account = a; gateway = g })

  unfoldable pub forward_http :
      ℕ
      → (ℕ → Attempt)
      → Option (Outcome Body Headers Usage)
      → String
      → String
      → Account
      → Gateway
      → Option (Forwarded Body Headers Usage)
  unfolding forward_api_key forward_count_tokens forward_oauth success_outcome account_dead_outcome
  forward_http now env gate path body a g =
      let reason = String.◌++◌ "未知的账号类型: " a.kind in
      if path == "/v1/models"
      then unchanged a g (success_outcome 200 e.models_body e.json_headers none, none)
      else if path == "/v1/messages/count_tokens"
      then unchanged a g (forward_count_tokens (e.send_count a))
      else if a.kind == "apikey"
      then unchanged a g (forward_api_key (e.send a))
      else if a.kind == "oauth" || a.kind == "session_key"
      then forward_oauth e.send (λ r. handle_error_response (e.read r)) e.on_answer body e.format
          e.parse now env gate a g
      else unchanged a g (account_dead_outcome reason, some reason)
