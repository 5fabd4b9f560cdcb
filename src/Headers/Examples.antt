-- ===== src/Headers/Examples.antt =====
-- A client that asks for a dropped name and for one twice.
use airgate_claude.Prelude.{[], ◌∷◌, arith, ◌≡◌, refl, true, false, some, string_key, ◌==◌}
use airgate_claude.Prelude.Int.{pos}
use airgate_claude.GoMap.{get}
use airgate_claude.Headers.Http.{Header, text_key}
use airgate_claude.Headers.Auth.{default_headers, is_token_account, bearer}
use airgate_claude.Headers.Secrets.{folded, AllDefault, sent, auth_headers_lem}
use airgate_claude.TokenManager.{Account, credential}
use airgate_claude.Prelude.Text.{codes}
use airgate_claude.Headers.{Text, parts_of, oauth_base, oauth_beta}
use airgate_claude.Headers.Betas.{Safe, oauth_beta-Safe}

oauth_beta-Safe_example : Safe (parts_of (oauth_base "claude-opus-4-8")) (
    parts_of (
      oauth_beta "claude-opus-4-8"
        (codes "effort-2025-11-24, skills-2025-10-02,effort-2025-11-24")))
oauth_beta-Safe_example =
    oauth_beta-Safe "claude-opus-4-8"
      (codes "effort-2025-11-24, skills-2025-10-02,effort-2025-11-24")

abbrev account : Account
account = record {
  id = pos 1;
  kind = "oauth";
  proxy_url = "";
  credentials = ("access_token", "at") ∷ ("api_key", "k") ∷ [];
}

default_headers-AllDefault : AllDefault default_headers
unfolding default_headers
default_headers-AllDefault = ground arith

abbrev made : Header
made = sent default_headers default_headers-AllDefault (codes "0") account [] "claude-opus-4-8" []

auth_headers_lem_example :
    ((account.kind == "apikey") ≡ false
      → is_token_account account ≡ true
      → (get (codes "authorization") made
          ≡ some (bearer (credential "access_token" account.credentials) ∷ []))
        × ((j : Text) → folded j ≡ codes "x-api-key" → get j made ≡ get j []))
    × ((account.kind == "apikey") ≡ true
        → (get (codes "x-api-key") made
            ≡ some (codes (credential "api_key" account.credentials) ∷ []))
          × ((j : Text) → folded j ≡ codes "authorization" → get j made ≡ get j []))
unfolding credential get
auth_headers_lem_example =
    auth_headers_lem default_headers default_headers-AllDefault (codes "0") account []
      "claude-opus-4-8" [] refl refl
