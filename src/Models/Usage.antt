-- ===== src/Models/Usage.antt =====
-- Token counts and the usage record that the host bills from. Counts are natural numbers, as the
-- upstream documents them, costs the exact products of counts and prices: cents to a million tokens.
-- Texts in the metadata are what `strconv.Itoa` prints.
use airgate_claude.Prelude.{
  ℕ, zero, suc, ◌+◌, ◌-◌, ◌*◌, [], none, some, String, string_key, ◌==◌, if◌then◌else◌, ltb,
}
use airgate_claude.Prelude.Int.{pos}
use airgate_claude.Prelude.Text.{codes}
use airgate_claude.Prelude.Decimal.{decimal, value}
use airgate_claude.GoMap.{Map, get, put}
use airgate_claude.Models.{Spec, lookup_model_spec}

pub record TokenUsage : Type 0 where
  pub input_tokens : ℕ
  pub output_tokens : ℕ
  pub cached_input_tokens : ℕ
  pub cache_creation_tokens : ℕ
  pub cache_creation_5m_tokens : ℕ
  pub cache_creation_1h_tokens : ℕ
  pub reasoning_output_tokens : ℕ

abbrev pub no_tokens : TokenUsage
no_tokens = record {
  input_tokens = 0;
  output_tokens = 0;
  cached_input_tokens = 0;
  cache_creation_tokens = 0;
  cache_creation_5m_tokens = 0;
  cache_creation_1h_tokens = 0;
  reasoning_output_tokens = 0;
}

-- The fields of the host's usage that the gateway sets, but for its two delays.
pub record Usage : Type 0 where
  pub model : String
  pub currency : String
  pub input_tokens : ℕ
  pub output_tokens : ℕ
  pub cached_input_tokens : ℕ
  pub cache_creation_tokens : ℕ
  pub reasoning_output_tokens : ℕ
  pub metadata : Map String String
  pub input_price : ℕ
  pub cached_input_price : ℕ
  pub cache_creation_price : ℕ
  pub output_price : ℕ
  pub input_cost : ℕ
  pub cached_input_cost : ℕ
  pub cache_creation_cost : ℕ
  pub output_cost : ℕ
  pub account_cost : ℕ

abbrev pub new_usage : String → Usage
new_usage model = record {
  model = model;
  currency = "USD";
  input_tokens = 0;
  output_tokens = 0;
  cached_input_tokens = 0;
  cache_creation_tokens = 0;
  reasoning_output_tokens = 0;
  metadata = [];
  input_price = 0;
  cached_input_price = 0;
  cache_creation_price = 0;
  output_price = 0;
  input_cost = 0;
  cached_input_cost = 0;
  cache_creation_cost = 0;
  output_cost = 0;
  account_cost = 0;
}

abbrev pub meta_5m_tokens : String
meta_5m_tokens = "claude.cache_creation_5m_tokens"

abbrev pub meta_1h_tokens : String
meta_1h_tokens = "claude.cache_creation_1h_tokens"

abbrev pub meta_1h_price : String
meta_1h_price = "claude.cache_creation_1h_price"

-- `setUsageMetadataInt`: a count of zero is not written.
unfoldable pub set_metadata_int : String → ℕ → Map String String → Map String String
set_metadata_int key zero m = m
set_metadata_int key (suc n) m = put key (decimal (pos (suc n))) m

-- `usageMetadataFloat` of a count, zero when it is missing.
unfoldable pub metadata_int : String → Map String String → ℕ
metadata_int key m = elim (get key m) [ none ↦ 0 | some s ↦ value 0 (codes s) ]

unfoldable pub set_usage_tokens : TokenUsage → Usage → Usage
unfolding set_metadata_int
set_usage_tokens t u = record u {
  input_tokens = t.input_tokens;
  output_tokens = t.output_tokens;
  cached_input_tokens = t.cached_input_tokens;
  cache_creation_tokens = t.cache_creation_tokens;
  reasoning_output_tokens = t.reasoning_output_tokens;
  metadata =
      set_metadata_int meta_1h_tokens t.cache_creation_1h_tokens
        (set_metadata_int meta_5m_tokens t.cache_creation_5m_tokens u.metadata);
}

unfoldable pub new_token_usage : String → TokenUsage → Usage
unfolding set_usage_tokens
new_token_usage model t = set_usage_tokens t (new_usage model)

abbrev pub total_tokens : Usage → ℕ
total_tokens u = u.input_tokens + u.cached_input_tokens + u.cache_creation_tokens + u.output_tokens

unfoldable pub token_cost : ℕ → ℕ → ℕ
token_cost tokens price = if ltb 0 tokens then if ltb 0 price then tokens * price else 0 else 0

unfoldable pub recompute_account_cost : Usage → Usage
recompute_account_cost u = record u {
  account_cost = u.input_cost + u.output_cost + u.cached_input_cost + u.cache_creation_cost;
  currency = if u.currency == "" then "USD" else u.currency;
}

module _ (format_price : ℕ → String) where
  -- `setUsageMetadataFloat` of a price.
  unfoldable pub set_metadata_price : String → ℕ → Map String String → Map String String
  set_metadata_price key zero m = m
  set_metadata_price key (suc n) m = put key (format_price (suc n)) m

  -- The costs of a usage at the prices of `s`.
  unfoldable pub fill_costs : Spec → Usage → Usage
  unfolding token_cost recompute_account_cost set_metadata_price metadata_int
  fill_costs s u =
      let five = metadata_int meta_5m_tokens u.metadata in
      let hour = metadata_int meta_1h_tokens u.metadata in
      let generic = u.cache_creation_tokens - five - hour in
      recompute_account_cost (record u {
        input_price = s.input_price;
        cached_input_price = s.cached_price;
        cache_creation_price = s.cache_creation_price;
        output_price = s.output_price;
        input_cost = token_cost u.input_tokens s.input_price;
        cached_input_cost = token_cost u.cached_input_tokens s.cached_price;
        cache_creation_cost =
            token_cost (five + generic) s.cache_creation_price
            + token_cost hour s.cache_creation_1h_price;
        output_cost = token_cost u.output_tokens s.output_price;
        metadata = set_metadata_price meta_1h_price s.cache_creation_1h_price u.metadata;
      })

  unfoldable pub fill_usage_cost : Usage → Usage
  unfolding fill_costs
  fill_usage_cost u = if u.model == "" then u else fill_costs (lookup_model_spec u.model).1 u
