-- ===== src/Stream/Events.antt =====
-- What one line of a stream does to the usage and the delays.
use airgate_claude.Prelude.{
  ℕ, Bool, true, false, not, ◌||◌, List, [], ◌∷◌, Option, none, some, String, string_key, ◌==◌,
  if◌then◌else◌,
}
use airgate_claude.Models.Usage.{TokenUsage, Usage, set_usage_tokens, no_tokens, new_usage}
use airgate_claude.Stream.{Doc, extract_sse_data, apply_usage_node}

-- The usage that the host bills, and the counts read so far.
pub record Billing : Type 0 where
  pub usage : Usage
  pub tokens : TokenUsage

abbrev pub no_billing : Billing
no_billing = record { usage = new_usage ""; tokens = no_tokens }

-- A delay is `none` until it is recorded.
pub record Observed : Type 0 where
  pub billing : Billing
  pub first_event_ms : Option ℕ
  pub first_token_ms : Option ℕ

unfoldable pub is_output_event : Doc → Bool
is_output_event d =
    if d.text "type" == "content_block_start"
    then d.text "content_block.type" == "tool_use"
    else if d.text "type" == "content_block_delta"
    then if d.text "delta.type" == "text_delta"
      then not (d.text "delta.text" == "")
      else if d.text "delta.type" == "thinking_delta"
      then not (d.text "delta.thinking" == "")
      else if d.text "delta.type" == "input_json_delta"
      then d.exists "delta.partial_json"
      else d.text "delta.type" == "citations_delta"
        || d.text "delta.type" == "redacted_thinking_delta"
    else false

-- The counts are written to the usage only if one was updated.
unfoldable pub update_usage : Bool × TokenUsage → Usage → Billing
unfolding set_usage_tokens
update_usage (updated, t) u = record {
  usage = if updated then set_usage_tokens t u else u;
  tokens = t;
}

-- `extractAnthropicUsage`
unfoldable pub extract_usage : Doc → Billing → Billing
unfolding update_usage apply_usage_node
extract_usage d b =
    if d.text "type" == "message_start"
    then update_usage (apply_usage_node (d.node "message.usage") true b.tokens)
        (record b.usage { model = d.text "message.model" })
    else if d.text "type" == "message_delta"
    then update_usage (apply_usage_node (d.node "usage") false b.tokens) b.usage
    else b

abbrev first : Bool → ℕ → Option ℕ → Option ℕ
first happens now old = elim old [ some t ↦ some t | none ↦ if happens then some now else none ]

module _ (doc : List ℕ → Doc) where
  -- The text of a line that carries data; an empty one is passed over.
  unfoldable pub data_of : String → Option Doc
  unfolding extract_sse_data
  data_of line = elim (extract_sse_data line) [
    | none ↦ none
    | some [] ↦ none
    | some (c ∷ s) ↦ some (doc (c ∷ s))
  ]

  unfoldable pub extract_line : String → Billing → Billing
  unfolding data_of extract_usage
  extract_line line b = elim (data_of line) [ none ↦ b | some d ↦ extract_usage d b ]

  -- One line of `observeSSEEvent`, `now` milliseconds after the start.
  unfoldable pub observe_line : ℕ → String → Observed → Observed
  unfolding extract_line is_output_event
  observe_line now line o = record {
    billing = extract_line line o.billing;
    first_event_ms = elim (data_of line) [
      | none ↦ o.first_event_ms
      | some d ↦ first true now o.first_event_ms
    ];
    first_token_ms = elim (data_of line) [
      | none ↦ o.first_token_ms
      | some d ↦ first (is_output_event d) now o.first_token_ms
    ];
  }

  unfoldable pub observe_event : ℕ → List String → Observed → Observed
  unfolding observe_line
  observe_event now [] o = o
  observe_event now (line ∷ lines) o = observe_event now lines (observe_line now line o)

  -- All lines in order, without regard to where an event ends.
  unfoldable pub extract_lines : List String → Billing → Billing
  unfolding extract_line
  extract_lines [] b = b
  extract_lines (line ∷ lines) b = extract_lines lines (extract_line line b)
