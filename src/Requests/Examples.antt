-- ===== src/Requests/Examples.antt =====
-- Requests to servers that answer every request.
use airgate_claude.Prelude.{
  ℕ, Bool, true, false, List, [], ◌∷◌, Option, none, some, String, string_key, ◌==◌, if◌then◌else◌,
  ◌≡◌, refl, map,
}
use airgate_claude.Prelude.Int.{pos}
use airgate_claude.Prelude.Text.{codes}
use airgate_claude.Prelude.Space.{trim_space}
use airgate_claude.ClientPool.{client_pool_limits, get_client}
use airgate_claude.Headers.{text_eq}
use airgate_claude.OAuth.Code.{Org}
use airgate_claude.OAuth.Exchange.{Trail, exchange_session_key-ok}
use airgate_claude.OAuth.SessionKey.{
  Exchanged, Endpoints, Connections, replied, exchange_session_key_with_scope,
}
use airgate_claude.TokenManager.{Result, ok}
use airgate_claude.Requests.{answer, handle_exchange}
use airgate_claude.Requests.Params.{
  ExchangeParams, CookieParams, UsageAccount, Decoders, Env, error_reply, Shared, unwrap,
}
use airgate_claude.Requests.Windows.{Usage}
use airgate_claude.Requests.Dispatch.{handle_request, fetch_all, batch_all}
use airgate_claude.Requests.Laws.{handle_request_refused}
use airgate_claude.Requests.Callbacks.{IsCallback, handle_exchange_once}
use airgate_claude.Requests.Totals.{
  IsComplete, fetch_all-IsComplete, same_answer, singles, batch_all-singles,
}

abbrev token : Exchanged
token = record {
  tokens = record { access_token = "at"; refresh_token = "rt"; expires_in = 3600 };
  account = some (record { uuid = "u"; email_address = "a@b" });
  organization = none;
}

abbrev endpoints : Endpoints String String
endpoints = record {
  organizations =
      λ c key. replied 200 "" (record { uuid = "o"; name = "n"; raven_type = none } ∷ []);
  authorize = λ c r. replied 200 "" "redirect";
  token = λ t r. replied 200 "" (ok token);
  parse_query = λ s. ok (("code", "c") ∷ ("state", "s") ∷ []);
  challenge = λ v. v;
}

abbrev no_window : Usage Bool
no_window = record {
  five_hour = record { utilization = true; resets_at = "" };
  seven_day = record { utilization = true; resets_at = "" };
  seven_day_sonnet = record { utilization = false; resets_at = "" };
}

abbrev params : String → String → ExchangeParams
params url key = record { callback_url = url; session_key = key; proxy_url = ""; scope = "" }

abbrev cookie : CookieParams
cookie = record { session_key = "sk"; proxy_url = ""; scope = "" }

abbrev account : ℕ → String → UsageAccount
account id token = record { id = pos id; credentials = ("access_token", token) ∷ [] }

abbrev decode : Decoders
decode = record {
  exchange = λ b.
      if b == "by_key"
      then some (params "{key}" "")
      else if b == "{key}"
      then some (params "" "sk")
      else if b == "by_url"
      then some (params "https://x" "")
      else none;
  refresh = λ b. none;
  cookie = λ b. if b == "cookie" then some cookie else none;
  batch = λ b. none;
  accounts = λ b. some (account 1 "at" ∷ account 2 "" ∷ []);
}

abbrev env : Env String String Bool
env = record {
  new_client = λ k. k;
  limits = client_pool_limits;
  build = λ proxy_url profile. proxy_url;
  servers = record {
    endpoints = endpoints;
    refresh = λ t r. replied 401 "no" (ok token);
    usage = λ t a. replied 200 "" (ok no_window);
  };
  decode = decode;
  format = λ t. "2026";
  parse = λ s. none;
  positive = λ u. u;
}

abbrev connections : Connections String String
connections = record { clients = none; transports = record { standard = none; fingerprint = none } }

abbrev shared : Shared String String
shared = record {
  sessions = ("s", record { state = "s"; code_verifier = "v"; created_at = some 1 }) ∷ [];
  connections = connections;
}

abbrev random : ℕ → Result String × Result String
random i = (ok "v", ok "t")

handle_request_refused_example : (handle_request env 5 random "oauth/refresh" "x" shared).1 ≡ shared
unfolding handle_request
handle_request_refused_example = handle_request_refused env 5 random "oauth/refresh" "x" shared refl

by_url-IsCallback : IsCallback env "by_url" "c" "s" ""
unfolding unwrap airgate_claude.Prelude.Text.starts airgate_claude.Prelude.Space.trim_right
    airgate_claude.Prelude.Space.trim_left airgate_claude.GoMap.get
by_url-IsCallback = record {
  p = params "https://x" "";
  q = ("code", "c") ∷ ("state", "s") ∷ [];
  decoded = refl;
  has_url = refl;
  parsed = refl;
  the_code = refl;
  the_state = refl;
  has_both = refl;
  the_proxy = refl;
}

abbrev after : Shared String String
after = (handle_exchange env 5 (ok "v") (ok "t") "by_url" shared).1

handle_exchange_once_example :
    (handle_exchange env 9 (ok "v") (ok "t") "by_url" after).0
    ≡ answer 500 (error_reply "无效或已过期的 OAuth 会话")
unfolding airgate_claude.OAuth.Flows.run
handle_exchange_once_example =
    handle_exchange_once env 5 9 (ok "v") (ok "t") (ok "v") (ok "t") "by_url" "by_url" "c" "c" "s"
      "" "" shared after [] by_url-IsCallback by_url-IsCallback tt refl

fetch_all-IsComplete_example :
    IsComplete env
      (account 1 "at" ∷ account 2 "" ∷ [])
      (fetch_all env 5
        (account 1 "at" ∷ account 2 "" ∷ [])
        shared
        (record { accounts = []; errors = [] })).0
fetch_all-IsComplete_example =
    fetch_all-IsComplete env 5 (account 1 "at" ∷ account 2 "" ∷ []) shared
      (record { accounts = []; errors = [] })

batch_all-singles_example :
    (
      map (same_answer env) (batch_all env 5 random 0 "" ("sk" ∷ "sk" ∷ []) shared).0,
      (batch_all env 5 random 0 "" ("sk" ∷ "sk" ∷ []) shared).1,
    )
    ≡ singles env 5 random 0 ("cookie" ∷ "cookie" ∷ []) shared
batch_all-singles_example =
    batch_all-singles env 5 random 0 "" ("sk" ∷ "sk" ∷ []) ("cookie" ∷ "cookie" ∷ []) shared
      (("", refl, refl), (("", refl, refl), tt))

exchange_session_key-ok_example :
    (text_eq (trim_space (codes "")) [] ≡ true)
    × Trail
        (λ k. k)
        client_pool_limits
        (λ p f. p)
        endpoints
        (get_client (λ k. k) client_pool_limits 5 "" none).0
        (ok "v")
        (ok "t")
        "sk"
        "scope"
        token
unfolding exchange_session_key_with_scope airgate_claude.Prelude.Space.trim_right
    airgate_claude.Prelude.Space.trim_left airgate_claude.OAuth.Code.pick_organization
    airgate_claude.OAuth.Code.full_code airgate_claude.GoMap.get
exchange_session_key-ok_example =
    exchange_session_key-ok (λ k. k) client_pool_limits (λ p f. p) endpoints 5 (ok "v") (ok "t")
      "sk" "" "scope" connections token refl
