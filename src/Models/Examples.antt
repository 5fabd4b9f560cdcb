-- ===== src/Models/Examples.antt =====
-- Model names and a response with both kinds of cache creation.
use airgate_claude.Prelude.{ℕ, ◌≡◌, refl, String, string_key, arith}
use airgate_claude.GoMap.{get}
use airgate_claude.Models.{model_registry, lookup_model_spec, normalize_model_id}
use airgate_claude.Models.Registered.{registry-Distinct}
use airgate_claude.Models.Prefix.{Reordered}
use airgate_claude.Models.Usage.{TokenUsage, fill_usage_cost, new_token_usage}
use airgate_claude.Models.Cost.{bill, fill_usage_cost_lem}

reordered : Reordered model_registry
reordered = record { distinct = registry-Distinct; same = λ id. refl }

abbrev tokens : TokenUsage
tokens = record {
  input_tokens = 10;
  output_tokens = 20;
  cached_input_tokens = 30;
  cache_creation_tokens = 100;
  cache_creation_5m_tokens = 40;
  cache_creation_1h_tokens = 50;
  reasoning_output_tokens = 0;
}

abbrev no_text : ℕ → String
no_text p = ""

short_name : (lookup_model_spec "claude-haiku-4-5").0 ≡ "claude-haiku-4-5-20251001"
unfolding lookup_model_spec model_registry normalize_model_id get
short_name = refl

fill_usage_cost_lem_example :
    (fill_usage_cost no_text (new_token_usage "claude-opus-4-8" tokens)).account_cost
    ≡ bill (lookup_model_spec "claude-opus-4-8").1 tokens
fill_usage_cost_lem_example =
    fill_usage_cost_lem no_text "claude-opus-4-8" tokens refl (omega arith)
