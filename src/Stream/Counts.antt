-- ===== src/Stream/Counts.antt =====
-- What a usage object does to the counts that are known.
use airgate_claude.Prelude.{ℕ, ◌<◌, ◌≡◌, refl, Bool, false, Option, none, some, arith}
use airgate_claude.Models.Usage.{TokenUsage}
use airgate_claude.Stream.{
  Node, replaces, replace, falls_back_cached, falls_back_creation, apply_usage_node, read_fields,
  apply_fallbacks, fields_update, ephemeral_5m, ephemeral_1h,
}

-- No count of the first that is above zero is zero in the second.
pub record Keeps (t u : TokenUsage) : Type 0 where
  pub input : 0 < t.input_tokens → 0 < u.input_tokens
  pub output : 0 < t.output_tokens → 0 < u.output_tokens
  pub cached : 0 < t.cached_input_tokens → 0 < u.cached_input_tokens
  pub creation : 0 < t.cache_creation_tokens → 0 < u.cache_creation_tokens
  pub creation_5m : 0 < t.cache_creation_5m_tokens → 0 < u.cache_creation_5m_tokens
  pub creation_1h : 0 < t.cache_creation_1h_tokens → 0 < u.cache_creation_1h_tokens
  pub reasoning : 0 < t.reasoning_output_tokens → 0 < u.reasoning_output_tokens

replace_none : (z : Bool) (o : Option ℕ) (old : ℕ) → replaces z o ≡ false → replace z o old ≡ old
replace_none z o old h = rw h refl

read_unchanged :
    (node : Node) (t : TokenUsage) → fields_update false node ≡ false → read_fields false node t ≡ t
unfolding read_fields fields_update
read_unchanged node t f = ground (
  arith,
  replace_none false (node "input_tokens") t.input_tokens,
  replace_none false (node "output_tokens") t.output_tokens,
  replace_none false (node "cache_read_input_tokens") t.cached_input_tokens,
  replace_none false (node "cache_creation_input_tokens") t.cache_creation_tokens,
  replace_none false (node ephemeral_5m) t.cache_creation_5m_tokens,
  replace_none false (node ephemeral_1h) t.cache_creation_1h_tokens,
  replace_none false (node "reasoning_output_tokens") t.reasoning_output_tokens,
)

unchanged :
    (node : Node) (t : TokenUsage)
    → fields_update false node ≡ false
    → falls_back_cached node (read_fields false node t) ≡ false
    → falls_back_creation node (read_fields false node t) ≡ false
    → apply_fallbacks node (read_fields false node t) ≡ t
unfolding apply_fallbacks
unchanged node t f c d = rw c (rw d (read_unchanged node t f))

-- A later usage object, as `message_delta` carries it, never sets a count back to zero; when it says
-- that no count was updated, all of them are as before.
pub apply_usage_node-Keeps :
    (node : Option Node) (t : TokenUsage)
    → Keeps t (apply_usage_node node false t).1
      × ((apply_usage_node node false t).0 ≡ false → (apply_usage_node node false t).1 ≡ t)
unfolding apply_usage_node read_fields fields_update apply_fallbacks
apply_usage_node-Keeps none t = (ground arith, λ h. refl)
apply_usage_node-Keeps (some node) t = (
  record {
    input = ground arith;
    output = ground arith;
    cached = ground arith;
    creation = ground arith;
    creation_5m = ground arith;
    creation_1h = ground arith;
    reasoning = ground arith;
  },
  λ h. unchanged node t (ground arith) (ground arith) (ground arith),
)
