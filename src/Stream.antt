-- ===== src/Stream.antt =====
-- internal/gateway/stream.go: server-sent events passed through to the client line by line, while
-- their usage is added up. The JSON library is an argument, `doc`: what its paths find in a text.
pub mod Events
pub mod Loop
pub mod PassThrough
pub mod Single
pub mod Whole
pub mod Counts
mod Examples
use airgate_claude.Prelude.{
  ℕ, ◌+◌, Bool, true, false, ◌&&◌, ◌||◌, List, [], ◌∷◌, Option, none, some, String, if◌then◌else◌,
  ltb, leb, nat_eq,
}
use airgate_claude.Prelude.Text.{codes, starts}
use airgate_claude.Prelude.Space.{trim_left, trim_right, trim_space}
use airgate_claude.Models.Usage.{TokenUsage}

abbrev drop_5 : List ℕ → List ℕ
drop_5 (a ∷ b ∷ c ∷ d ∷ e ∷ s) = s
drop_5 s = []

unfoldable pub extract_sse_data : String → Option (List ℕ)
unfolding trim_left trim_right starts
extract_sse_data line =
    let trimmed = trim_space (codes line) in
    if starts trimmed (codes "data:") then some (trim_space (drop_5 trimmed)) else none

-- What `Get` finds under the paths of a JSON object: its number, if it exists.
abbrev pub Node : Type 0
Node = String → Option ℕ

-- A JSON text: the string of a path, whether it exists, and the object under it.
pub record Doc : Type 0 where
  pub text : String → String
  pub exists : String → Bool
  pub node : String → Option Node

abbrev pub number : Option ℕ → ℕ
number o = elim o [ none ↦ 0 | some n ↦ n ]

-- A field that exists replaces the count, unless it is zero and zero is not allowed.
abbrev pub replaces : Bool → Option ℕ → Bool
replaces allow_zero o = elim o [ none ↦ false | some n ↦ allow_zero || ltb 0 n ]

abbrev pub replace : Bool → Option ℕ → ℕ → ℕ
replace allow_zero o old = if replaces allow_zero o then number o else old

abbrev pub ephemeral_5m : String
ephemeral_5m = "cache_creation.ephemeral_5m_input_tokens"

abbrev pub ephemeral_1h : String
ephemeral_1h = "cache_creation.ephemeral_1h_input_tokens"

-- The fields that the first part of `applyAnthropicUsageNode` reads.
unfoldable pub read_fields : Bool → Node → TokenUsage → TokenUsage
read_fields z node t = record {
  input_tokens = replace z (node "input_tokens") t.input_tokens;
  output_tokens = replace z (node "output_tokens") t.output_tokens;
  cached_input_tokens = replace z (node "cache_read_input_tokens") t.cached_input_tokens;
  cache_creation_tokens = replace z (node "cache_creation_input_tokens") t.cache_creation_tokens;
  cache_creation_5m_tokens = replace z (node ephemeral_5m) t.cache_creation_5m_tokens;
  cache_creation_1h_tokens = replace z (node ephemeral_1h) t.cache_creation_1h_tokens;
  reasoning_output_tokens = replace z (node "reasoning_output_tokens") t.reasoning_output_tokens;
}

unfoldable pub fields_update : Bool → Node → Bool
fields_update z node =
    replaces z (node "input_tokens")
    || replaces z (node "output_tokens")
    || replaces z (node "cache_read_input_tokens")
    || replaces z (node "cache_creation_input_tokens")
    || replaces z (node ephemeral_5m)
    || replaces z (node ephemeral_1h)
    || replaces z (node "reasoning_output_tokens")

-- Another name for the cached tokens, while they are zero.
abbrev pub falls_back_cached : Node → TokenUsage → Bool
falls_back_cached node t = nat_eq t.cached_input_tokens 0 && ltb 0 (number (node "cached_tokens"))

-- The sum of both kinds of cache creation, while all of it is zero.
abbrev pub falls_back_creation : Node → TokenUsage → Bool
falls_back_creation node t =
    nat_eq t.cache_creation_tokens 0
    && (ltb 0 (number (node ephemeral_5m)) || ltb 0 (number (node ephemeral_1h)))

unfoldable pub apply_fallbacks : Node → TokenUsage → TokenUsage
apply_fallbacks node t = record t {
  cached_input_tokens =
      if falls_back_cached node t then number (node "cached_tokens") else t.cached_input_tokens;
  cache_creation_tokens =
      if falls_back_creation node t
      then number (node ephemeral_5m) + number (node ephemeral_1h)
      else t.cache_creation_tokens;
}

-- `applyAnthropicUsageNode`: whether a count was updated, and the counts.
unfoldable pub apply_usage_node : Option Node → Bool → TokenUsage → Bool × TokenUsage
unfolding read_fields fields_update apply_fallbacks
apply_usage_node none z t = (false, t)
apply_usage_node (some node) z t =
    let read = read_fields z node t in
    (
      fields_update z node || falls_back_cached node read || falls_back_creation node read,
      apply_fallbacks node read,
    )
