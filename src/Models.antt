-- ===== src/Models.antt =====
-- internal/gateway/models.go: the table of models with their prices, and the lookup that bills a model
-- name. Prices are in US cents to a million tokens, in which every price of the table is whole.
pub mod Registered
pub mod Prefix
pub mod Usage
pub mod Cost
pub mod Listed
mod Examples
use airgate_claude.Prelude.{
  ℕ, Bool, true, false, List, [], ◌∷◌, Option, none, some, String, string_key, if◌then◌else◌,
}
use airgate_claude.Prelude.Text.{codes, to_lower, starts, contains}
use airgate_claude.GoMap.{Map, get}

pub record Spec : Type 0 where
  pub name : String
  pub context_window : ℕ
  pub max_output_tokens : ℕ
  pub input_price : ℕ
  pub cached_price : ℕ
  pub cache_creation_price : ℕ
  pub cache_creation_1h_price : ℕ
  pub output_price : ℕ

-- The order of the fields of a composite literal in the source.
abbrev spec : String → ℕ → ℕ → ℕ → ℕ → ℕ → ℕ → ℕ → Spec
spec name window output i c w h o = record {
  name = name;
  context_window = window;
  max_output_tokens = output;
  input_price = i;
  cached_price = c;
  cache_creation_price = w;
  cache_creation_1h_price = h;
  output_price = o;
}

unfoldable pub model_registry : Map String Spec
model_registry =
    ("claude-fable-5", spec "Claude Fable 5" 1000000 128000 1000 100 1250 2000 5000)
    ∷ ("claude-opus-4-8", spec "Claude Opus 4.8" 1000000 128000 500 50 625 1000 2500)
    ∷ ("claude-opus-4-7", spec "Claude Opus 4.7" 1000000 128000 500 50 625 1000 2500)
    ∷ ("claude-opus-4-6", spec "Claude Opus 4.6" 1000000 128000 500 50 625 1000 2500)
    ∷ ("claude-opus-4-5-20251101", spec "Claude Opus 4.5" 200000 64000 500 50 625 1000 2500)
    ∷ ("claude-opus-4-1-20250805", spec "Claude Opus 4.1" 200000 32000 1500 150 1875 3000 7500)
    ∷ ("claude-sonnet-4-6", spec "Claude Sonnet 4.6" 1000000 64000 300 30 375 600 1500)
    ∷ ("claude-sonnet-4-5-20250929", spec "Claude Sonnet 4.5" 200000 64000 300 30 375 600 1500)
    ∷ ("claude-sonnet-4-20250514", spec "Claude Sonnet 4" 200000 64000 300 30 375 600 1500)
    ∷ ("claude-haiku-4-5-20251001", spec "Claude Haiku 4.5" 200000 64000 100 10 125 200 500)
    ∷ []

unfoldable pub model_id_overrides : Map String String
model_id_overrides =
    ("claude-sonnet-4-5", "claude-sonnet-4-5-20250929")
    ∷ ("claude-sonnet-4-0", "claude-sonnet-4-20250514")
    ∷ ("claude-opus-4-5", "claude-opus-4-5-20251101")
    ∷ ("claude-opus-4-1", "claude-opus-4-1-20250805")
    ∷ ("claude-haiku-4-5", "claude-haiku-4-5-20251001")
    ∷ []

unfoldable pub normalize_model_id : String → String
unfolding model_id_overrides
normalize_model_id id = elim (get id model_id_overrides) [ some mapped ↦ mapped | none ↦ id ]

unfoldable pub fallback_spec : Spec
fallback_spec = spec "Claude Opus 4.8" 1000000 128000 500 50 625 1000 2500

-- `for id, spec := range modelRegistry { if strings.HasPrefix(modelID, id) … }`
unfoldable pub find_prefix : List ℕ → Map String Spec → Option (String × Spec)
find_prefix model [] = none
find_prefix model ((id, s) ∷ m) =
    let rest = find_prefix model m in if starts model (codes id) then some (id, s) else rest

-- A case of the `switch`, which falls through to the fallback when the table lacks the model.
registered : String → Map String Spec → String × Spec
unfolding fallback_spec
registered id m = elim (get id m) [ some s ↦ (id, s) | none ↦ ("claude-opus-4-8", fallback_spec) ]

unfoldable pub by_keyword : List ℕ → Map String Spec → String × Spec
unfolding registered
by_keyword lower m =
    if contains lower (codes "fable")
    then registered "claude-fable-5" m
    else if contains lower (codes "opus")
    then registered "claude-opus-4-8" m
    else if contains lower (codes "haiku")
    then registered "claude-haiku-4-5-20251001" m
    else if contains lower (codes "sonnet")
    then registered "claude-sonnet-4-6" m
    else ("claude-opus-4-8", fallback_spec)

unfoldable pub by_prefix : String → Map String Spec → String × Spec
unfolding find_prefix by_keyword
by_prefix id m = elim (find_prefix (codes id) m) [
  | some found ↦ found
  | none ↦ by_keyword (to_lower id) m
]

unfoldable pub by_normalized : String → Map String Spec → String × Spec
unfolding by_prefix normalize_model_id
by_normalized id m = elim (get (normalize_model_id id) m) [
  | some s ↦ (normalize_model_id id, s)
  | none ↦ by_prefix id m
]

-- `LookupModelSpec` over the table `m`.
unfoldable pub lookup_in : String → Map String Spec → String × Spec
unfolding by_normalized
lookup_in id m = elim (get id m) [ some s ↦ (id, s) | none ↦ by_normalized id m ]

unfoldable pub lookup_model_spec : String → String × Spec
unfolding lookup_in model_registry
lookup_model_spec id = lookup_in id model_registry
