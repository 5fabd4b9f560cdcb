-- ===== src/Models/Cost.antt =====
-- What a usage costs: every token is billed once, at the price of its kind.
use airgate_claude.Prelude.{
  ℕ, zero, suc, ◌+◌, ◌-◌, ◌*◌, ◌≤◌, ◌≡◌, refl, false, [], none, String, string_key, ◌==◌, arith,
  ◌∙◌,
}
use text.Mathlib.TextEquality.{eq_iff}
use airgate_claude.Prelude.Int.{pos}
use airgate_claude.Prelude.Decimal.{decimal, value-decimal}
use airgate_claude.GoMap.{Map, get, put}
use airgate_claude.GoMap.Laws.{get-put}
use airgate_claude.Models.{Spec, lookup_model_spec}
use airgate_claude.Models.Usage.{
  TokenUsage, new_token_usage, set_usage_tokens, set_metadata_int, metadata_int, token_cost,
  fill_costs, fill_usage_cost, recompute_account_cost, meta_5m_tokens, meta_1h_tokens,
}

metadata_int-set :
    (key : String) (n : ℕ) (m : Map String String)
    → get key m ≡ none
    → metadata_int key (set_metadata_int key n m) ≡ n
unfolding metadata_int set_metadata_int
metadata_int-set key zero m h = rw (h, metadata_int) refl
metadata_int-set key (suc n) m h =
    ground (arith, get-put key key (decimal (pos (suc n))) m, eq_iff key key, value-decimal (suc n))

metadata_int-other :
    (key other : String) (n : ℕ) (m : Map String String)
    → (other == key) ≡ false
    → metadata_int key (set_metadata_int other n m) ≡ metadata_int key m
unfolding metadata_int set_metadata_int
metadata_int-other key other zero m h = refl
metadata_int-other key other (suc n) m h =
    ground (arith, get-put other key (decimal (pos (suc n))) m)

token_cost_lem : (n p : ℕ) → token_cost n p ≡ n * p
unfolding token_cost
token_cost_lem zero p = omega arith
token_cost_lem (suc n) zero = grind arith
token_cost_lem (suc n) (suc p) = ground arith

abbrev written : TokenUsage → Map String String
written t =
    set_metadata_int meta_1h_tokens t.cache_creation_1h_tokens
      (set_metadata_int meta_5m_tokens t.cache_creation_5m_tokens [])

get_5m-written :
    (t : TokenUsage) → metadata_int meta_5m_tokens (written t) ≡ t.cache_creation_5m_tokens
unfolding get
get_5m-written t =
    metadata_int-other meta_5m_tokens meta_1h_tokens t.cache_creation_1h_tokens _ refl
    ∙ metadata_int-set meta_5m_tokens t.cache_creation_5m_tokens [] refl

get_1h-written :
    (t : TokenUsage) → metadata_int meta_1h_tokens (written t) ≡ t.cache_creation_1h_tokens
unfolding get set_metadata_int put
get_1h-written t =
    metadata_int-set meta_1h_tokens t.cache_creation_1h_tokens _ (absent t.cache_creation_5m_tokens)
  where
    absent : (n : ℕ) → get meta_1h_tokens (set_metadata_int meta_5m_tokens n []) ≡ none
    absent zero = refl
    absent (suc n) = refl

-- The bill of a response: `c` is all of the cache creation, `h` its part with the longer lifetime.
abbrev pub bill : Spec → TokenUsage → ℕ
bill s t =
    t.input_tokens * s.input_price
    + t.output_tokens * s.output_price
    + t.cached_input_tokens * s.cached_price
    + (t.cache_creation_tokens - t.cache_creation_1h_tokens) * s.cache_creation_price
    + t.cache_creation_1h_tokens * s.cache_creation_1h_price

costs_lem :
    (format_price : ℕ → String) (s : Spec) (model : String) (t : TokenUsage)
    → t.cache_creation_5m_tokens + t.cache_creation_1h_tokens ≤ t.cache_creation_tokens
    → (fill_costs format_price s (new_token_usage model t)).account_cost ≡ bill s t
unfolding fill_costs new_token_usage set_usage_tokens recompute_account_cost
costs_lem format_price s model t h =
    let kinds : t.cache_creation_5m_tokens
          + (t.cache_creation_tokens - t.cache_creation_5m_tokens - t.cache_creation_1h_tokens)
        ≡ t.cache_creation_tokens - t.cache_creation_1h_tokens =
      omega arith in
    rw (get_5m-written t) (
      rw (get_1h-written t) (
        rw kinds (
          ground (
            arith,
            token_cost_lem t.input_tokens s.input_price,
            token_cost_lem t.output_tokens s.output_price,
            token_cost_lem t.cached_input_tokens s.cached_price,
            token_cost_lem (t.cache_creation_tokens - t.cache_creation_1h_tokens)
                s.cache_creation_price,
            token_cost_lem t.cache_creation_1h_tokens s.cache_creation_1h_price,
          ))))

-- A response that names a model, and whose two kinds of cache creation are part of all of its cache
-- creation, costs the sum of its tokens, each billed once at the price of its kind in the entry that the lookup finds for its
-- model. Cache creation that is not reported as of either kind is billed as the shorter one.
pub fill_usage_cost_lem :
    (format_price : ℕ → String) (model : String) (t : TokenUsage)
    → (model == "") ≡ false
    → t.cache_creation_5m_tokens + t.cache_creation_1h_tokens ≤ t.cache_creation_tokens
    → (fill_usage_cost format_price (new_token_usage model t)).account_cost
      ≡ bill (lookup_model_spec model).1 t
unfolding fill_usage_cost new_token_usage set_usage_tokens
fill_usage_cost_lem format_price model t n h =
    rw n (costs_lem format_price (lookup_model_spec model).1 model t h)
