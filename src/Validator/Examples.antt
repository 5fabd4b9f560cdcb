-- ===== src/Validator/Examples.antt =====
-- A request of the client, and one whose user identifier is in JSON.
use airgate_claude.Prelude.{
  ℕ, Bool, true, false, not, ◌&&◌, ◌||◌, [], ◌∷◌, ◌++◌, ◌≡◌, ◌≤◌, ◌↔◌, refl, String, List, arith,
}
use airgate_claude.Prelude.Text.{codes}
use airgate_claude.Prelude.Int.{pos}
use airgate_claude.Headers.{Text}
use airgate_claude.Headers.Http.{Header, cased}
use airgate_claude.Json.Tree.{Tree, string, number, object, member, end, tree_json}
use airgate_claude.Validator.{
  has, user_agent, is_startup_probe, validate_claude_code_request, ValidationResult, accepted,
  refused,
}
use airgate_claude.Validator.Patterns.{matches_user_agent, matches_user_id}
use airgate_claude.Validator.Decision.{
  is_message, is_complete, validate_claude_code_request_lem, validate-json_id,
}
use airgate_claude.Validator.UserId.{IsUserId, matches_user_id_iff}

abbrev headers : Header
headers =
    (codes "User-Agent", codes "Claude-CLI/2.1.112 (external, cli)" ∷ [])
    ∷ (codes "X-App", codes "cli" ∷ [])
    ∷ (codes "Anthropic-Version", codes "2023-06-01" ∷ [])
    ∷ (codes "Anthropic-Beta", codes "oauth-2025-04-20" ∷ [])
    ∷ []

abbrev path : Text
path = codes "/v1/messages"

abbrev body_with : String → Tree
body_with id = object (
    member "model" (string "claude-sonnet-4-5") (
      member "system" (string "You are Claude Code, Anthropic's official CLI.")
        (member "metadata" (object (member "user_id" (string id) end)) end)))

abbrev old_id : String
old_id = "user_0123abcd-9_account_0123ABCD_session_01234567-89"

abbrev json_id : String
json_id = "{device_id"

validate_runs :
    validate_claude_code_request tree_json (cased false) path (body_with old_id) headers ≡ accepted
unfolding validate_claude_code_request airgate_claude.GoMap.get airgate_claude.Prelude.Text.contains
    airgate_claude.Prelude.Text.to_lower
validate_runs = refl

validate_refuses :
    validate_claude_code_request tree_json (cased false) path (body_with json_id) headers
    ≡ refused "metadata.user_id format mismatch"
unfolding validate_claude_code_request airgate_claude.GoMap.get airgate_claude.Prelude.Text.contains
    airgate_claude.Prelude.Text.to_lower
validate_refuses = refl

probe_runs :
    is_startup_probe tree_json (
      object
        (member "model" (string "claude-haiku-4-5") (member "max_tokens" (number (pos 1)) end)))
    ≡ true
unfolding is_startup_probe airgate_claude.Prelude.Text.contains airgate_claude.Prelude.Text.to_lower
probe_runs = refl

validate_claude_code_request_lem_example :
    (validate_claude_code_request tree_json (cased false) path (body_with old_id) headers).ok ≡ (
      has "X-Airgate-Internal" headers
      || (matches_user_agent (user_agent headers)
          && (not (is_message path)
              || is_startup_probe tree_json (body_with old_id)
              || is_complete tree_json (cased false) (body_with old_id) headers)))
validate_claude_code_request_lem_example =
    validate_claude_code_request_lem tree_json (cased false) path (body_with old_id) headers

validate-json_id_example :
    (validate_claude_code_request tree_json (cased false) path (body_with json_id) headers).ok
    ≡ false
unfolding is_startup_probe airgate_claude.Headers.Http.header_get airgate_claude.GoMap.get
    airgate_claude.Validator.has_suffix airgate_claude.Prelude.Text.contains
    airgate_claude.Prelude.Text.to_lower
validate-json_id_example =
    validate-json_id tree_json (cased false) path (body_with json_id) headers (codes "device_id")
      refl refl refl refl

matches_user_id_iff_example : (matches_user_id (codes old_id) ≡ true) ↔ IsUserId (codes old_id)
matches_user_id_iff_example = matches_user_id_iff (codes old_id)
