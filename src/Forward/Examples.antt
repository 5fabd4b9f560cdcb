-- ===== src/Forward/Examples.antt =====
-- A session whose token is refreshed before the upstream is asked.
use airgate_claude.Prelude.{
  ℕ, List, false, ◌*◌, refl, [], ◌∷◌, Option, none, some, String, string_key,
}
use airgate_claude.Prelude.Int.{pos}
use airgate_claude.GoMap.{get, put, sweep}
use airgate_claude.Limits.{hour}
use airgate_claude.Errors.{Outcome, transient_outcome, success_outcome, failure_outcome}
use airgate_claude.TokenManager.{Account, ok, err, credential, fresh_credentials}
use airgate_claude.TokenManager.States.{new_manager, get_state}
use airgate_claude.TokenManager.Refresh.{Attempt, ensure_valid_token, do_refresh}
use airgate_claude.Forward.{Gateway, Sent, answered, not_reached, forward_oauth}
use airgate_claude.Forward.Dispatch.{Handlers, forward_http}
use airgate_claude.Forward.Verdicts.{Consistent}
use airgate_claude.Forward.Whole.{Response, whole, forward_http-Consistent}
use airgate_claude.Stream.{Doc}
use airgate_claude.Stream.Events.{Observed}
use airgate_claude.Forward.Tokens.{Reports, forward_oauth-Reports}

abbrev account : Account
account = record {
  id = pos 7;
  kind = "oauth";
  proxy_url = "";
  credentials =
      ("access_token", "old")
      ∷ ("refresh_token", "r0")
      ∷ ("expires_at", "2026-01-01T00:00:00Z")
      ∷ [];
}

abbrev gateway : Gateway
gateway = record { manager = new_manager 0; registry = none; sidecar = none }

abbrev printed : ℕ → String
printed t = "2026-01-01T00:00:00Z"

abbrev parsed : String → Option ℕ
parsed s = some (2 * hour)

abbrev works : ℕ → Attempt
works i = record {
  ended = none;
  response = ok (record { access_token = "new"; refresh_token = "r1"; expires_in = 3600 });
  at = 2 * hour;
}

abbrev refused : ℕ → Attempt
refused i = record { ended = none; response = err "invalid_grant"; at = 2 * hour }

abbrev TextOutcome : Type 0
TextOutcome = Outcome String Unit Unit

abbrev lost : Account → Sent String
lost a = not_reached "connection refused"

abbrev on_error : String → TextOutcome
on_error r = failure_outcome 500 r tt r (pos 0)

abbrev on_answer : String → TextOutcome × Option String
on_answer r = (success_outcome 200 r tt none, none)

forward_oauth-Reports_example :
    Reports lost on_error on_answer "{}"
      (some (("access_token", "new") ∷ ("expires_at", printed 0) ∷ ("refresh_token", "r1") ∷ []))
      (not_reached "connection refused")
      (forward_oauth lost on_error on_answer "{}" printed parsed
        (2 * hour)
        works
        none
        account
        gateway)
unfolding ensure_valid_token credential get do_refresh fresh_credentials get_state new_manager sweep
    put
forward_oauth-Reports_example =
    forward_oauth-Reports lost on_error on_answer "{}" printed parsed (2 * hour) works account
      gateway
      (some (("access_token", "new") ∷ ("expires_at", printed 0) ∷ ("refresh_token", "r1") ∷ [])) tt
      refl refl

abbrev reading : List ℕ → Doc
reading body = record { text = λ path. ""; exists = λ path. false; node = λ path. none }

abbrev broken : Response Unit
broken = record { status = 200; headers = tt; bytes = 1 ∷ 2 ∷ []; failure = some "unexpected EOF" }

abbrev handlers : Handlers (List ℕ) Unit Observed (Response Unit)
handlers = record {
  reading = record {
    type_of = λ b. "";
    message_of = λ b. "";
    shown = λ b. "";
    retry_after = λ h. pos 0;
  };
  models_body = [];
  json_headers = tt;
  send = λ a. answered 200 broken;
  send_count = λ a. not_reached "refused";
  read = λ r. record { status = r.status; body = r.bytes; headers = tt };
  read_count = λ r. err "closed";
  on_answer = λ r. (transient_outcome "unused", none);
  format = printed;
  parse = parsed;
}

abbrev no_text : ℕ → String
no_text p = ""

abbrev json_type : Unit {0} → String
json_type u = "application/json"

forward_http-Consistent_example : Consistent (whole json_type reading no_text 5 (some 2) handlers) (
    forward_http
      (whole json_type reading no_text 5 (some 2) handlers)
      (2 * hour)
      works
      none
      "/v1/messages"
      "{}"
      account
      gateway)
forward_http-Consistent_example =
    forward_http-Consistent json_type reading no_text 5 (some 2) handlers (2 * hour) works none
      "/v1/messages" "{}" account gateway tt
