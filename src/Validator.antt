-- ===== src/Validator.antt =====
-- internal/gateway/cc_validator.go: whether a request comes from the official command-line client, and
-- the gate of forward.go that asks it.
pub mod Dice
pub mod Patterns
pub mod Decision
pub mod UserId
pub mod Similarity
mod Examples
use Prim.Native.String
use airgate_claude.Prelude.{
  Bool, true, false, not, ◌&&◌, ◌||◌, List, [], ◌∷◌, map, Option, none, some, String, string_key,
  ◌==◌, if◌then◌else◌, any, ℕ,
}
use airgate_claude.Prelude.Int.{pos, int_beq}
use airgate_claude.Prelude.Text.{codes, starts}
use airgate_claude.GoMap.{Map}
use airgate_claude.Errors.{Outcome, client_error}
use airgate_claude.Headers.{Text, text_eq, is_haiku_model}
use airgate_claude.Headers.Http.{Header, header_get, cased}
use airgate_claude.Json.{Json}
use airgate_claude.TokenManager.{Account, credential}
use airgate_claude.Sanitize.{is_nil}
use airgate_claude.Validator.Dice.{at_least_half, dice_coefficient}
use airgate_claude.Validator.Patterns.{matches_user_agent, matches_user_id}

pub record ValidationResult : Type 0 where
  pub ok : Bool
  pub reason : String

abbrev pub accepted : ValidationResult
accepted = record { ok = true; reason = "" }

abbrev pub refused : String → ValidationResult
refused reason = record { ok = false; reason = reason }

unfoldable pub canonical_cc_system_prompts : List Text
canonical_cc_system_prompts = map codes (
    "You are Claude Code, Anthropic's official CLI for Claude."
    ∷ "You are Claude Code, Anthropic's official CLI for Claude, running within the Claude Agent SDK."
    ∷ "You are a Claude agent, built on Anthropic's Claude Agent SDK."
    ∷ "You are a helpful AI assistant tasked with summarizing conversations."
    ∷ "You are an AI assistant helping manage a long-running conversation's context."
    ∷ "You are Claude, a large language model trained by Anthropic." ∷ [])

-- `strings.HasSuffix(s, suffix)`
unfoldable pub has_suffix : Text → Text → Bool
has_suffix [] suffix = is_nil suffix
has_suffix (c ∷ s) suffix = if text_eq (c ∷ s) suffix then true else has_suffix s suffix

abbrev pub has : String → Header → Bool
has name h = not (is_nil (header_get name h))

-- The header under the name; if there is none, under the second name.
abbrev user_agent : Header → Text
user_agent h =
    if is_nil (header_get "User-Agent" h)
    then header_get "user-agent" h
    else header_get "User-Agent" h

module _ {R J : Type 0} (g : Json R J) where
  unfoldable pub is_startup_probe : R → Bool
  unfolding is_haiku_model
  is_startup_probe body =
      if g.is_empty body
      then false
      else if not (is_haiku_model (g.text (g.lookup body ("model" ∷ []))))
      then false
      else g.exists (g.lookup body ("max_tokens" ∷ []))
        && int_beq (g.int (g.lookup body ("max_tokens" ∷ []))) (pos 1)

  abbrev pub item_texts : List J → List Text
  item_texts [] = []
  item_texts (item ∷ items) =
      let rest = item_texts items in
      if g.text (g.field item "text") == ""
      then rest
      else codes (g.text (g.field item "text")) ∷ rest

  unfoldable pub extract_system_texts : R → List Text
  extract_system_texts body =
      let sys = g.lookup body ("system" ∷ []) in
      if not (g.exists sys)
      then []
      else if g.is_string sys
      then codes (g.text sys) ∷ []
      else if not (g.is_array sys)
      then []
      else item_texts (g.items sys)

  module _ (lower : ℕ → ℕ) where
    unfoldable pub system_prompt_matches_cc : R → Bool
    unfolding dice_coefficient extract_system_texts canonical_cc_system_prompts
    system_prompt_matches_cc body =
        any
          (λ text.
            any (λ canon. at_least_half (dice_coefficient lower text canon))
              canonical_cc_system_prompts)
          (extract_system_texts body)

    unfoldable pub validate_claude_code_request : Text → R → Header → ValidationResult
    unfolding header_get has_suffix is_startup_probe system_prompt_matches_cc matches_user_agent
        matches_user_id
    validate_claude_code_request path body h =
        let user_id = g.text (g.lookup body ("metadata" ∷ "user_id" ∷ [])) in
        if has "X-Airgate-Internal" h
        then accepted
        else if not (matches_user_agent (user_agent h))
        then refused "user-agent mismatch"
        else if not (has_suffix path (codes "/v1/messages"))
        then accepted
        else if is_startup_probe body
        then accepted
        else if not
            (any (λ k. has k h) ("X-App" ∷ "x-app" ∷ "anthropic-beta" ∷ "anthropic-version" ∷ []))
        then refused "missing required CC headers"
        else if not (has "anthropic-version" h)
        then refused "missing anthropic-version"
        else if not (has "anthropic-beta" h)
        then refused "missing anthropic-beta"
        else if not (has "X-App" h) && not (has "x-app" h)
        then refused "missing x-app"
        else if user_id == ""
        then refused "missing metadata.user_id"
        else if not (matches_user_id (codes user_id))
        then refused "metadata.user_id format mismatch"
        else if not (system_prompt_matches_cc body)
        then refused "system prompt mismatch"
        else accepted

    -- `strings.EqualFold(s, "true")`; the letters of "true" have no case variants but the two.
    abbrev is_true : Text → Bool
    is_true s = text_eq (map (cased false) s) (codes "true")

    module _ {Body Headers Usage : Type 0} (cc_reject_body : String → Body)
        (json_headers : Headers) where
      unfoldable pub reject_non_cc_request : String → Outcome Body Headers Usage
      reject_non_cc_request reason = record {
        kind = client_error;
        status = 403;
        body = some (
            cc_reject_body (
              String.◌++◌ "This endpoint only accepts traffic from the official Claude Code CLI ("
                (String.◌++◌ reason ").")));
        headers = some json_headers;
        reason = String.◌++◌ "claude_code_only: " reason;
        retry_after = pos 0;
        usage = none;
      }

      -- The gate at the start of `forwardOAuth`: the outcome of a request that is turned away.
      unfoldable pub identity_gate :
          Text → R → Header → Account → Option (Outcome Body Headers Usage)
      unfolding validate_claude_code_request reject_non_cc_request header_get
      identity_gate path body h a =
          let result = validate_claude_code_request path body h in
          let cc_only =
            is_true (header_get "X-Airgate-Plugin-Claude-Claude-Code-Only" h)
            || is_true (codes (credential "claude_code_only" a.credentials)) in
          if cc_only && not result.ok then some (reject_non_cc_request result.reason) else none
