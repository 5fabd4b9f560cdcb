-- ===== src/Models/Listed.antt =====
-- `AllPricingSpecs` and `AllModelSpecs`: the table in the order of its identifiers. A text is less than
-- another as Go compares strings; the order of the bytes of UTF-8 is that of the code points.
pub mod Laws
mod Examples
use airgate_claude.Prelude.{
  ℕ, Bool, true, false, List, [], ◌∷◌, map, String, string_key, ◌==◌, if◌then◌else◌, ltb, nat_eq,
  ◌&&◌, ◌||◌, ◌≡◌, refl, arith, Bool-cases, inl, inr, ap, ◌∙◌, sym, ◌⊎◌,
}
use airgate_claude.Prelude.Text.{codes}
use airgate_claude.GoMap.{Map}
use airgate_claude.Headers.{text_eq}
use airgate_claude.Models.{Spec, model_registry}

unfoldable pub text_lt : List ℕ → List ℕ → Bool
text_lt s [] = false
text_lt [] (d ∷ t) = true
text_lt (c ∷ s) (d ∷ t) = ltb c d || nat_eq c d && text_lt s t

pub record NamedSpec : Type 0 where
  pub id : String
  pub spec : Spec

pub record ModelInfo : Type 0 where
  pub id : String
  pub name : String
  pub context_window : ℕ
  pub max_output_tokens : ℕ
  pub capabilities : List String

abbrev pub less : NamedSpec → NamedSpec → Bool
less x y = text_lt (codes x.id) (codes y.id)

-- `sort.Slice`, by insertion: its result is the sorted list, which is one when no two are equal.
unfoldable pub insert : NamedSpec → List NamedSpec → List NamedSpec
unfolding text_lt
insert x [] = x ∷ []
insert x (y ∷ l) = let rest = insert x l in if less x y then x ∷ y ∷ l else y ∷ rest

unfoldable pub sort : List NamedSpec → List NamedSpec
unfolding insert
sort [] = []
sort (x ∷ l) = insert x (sort l)

-- The loop over the table in an order, and the sort.
unfoldable pub pricing_specs : Map String Spec → List NamedSpec
unfolding sort
pricing_specs m = sort (map (λ e. record { id = e.0; spec = e.1 }) m)

unfoldable pub spec_to_model_info : String → Spec → (String × String) → ModelInfo
spec_to_model_info id s (chat, reasoning) = record {
  id = id;
  name = s.name;
  context_window = s.context_window;
  max_output_tokens = s.max_output_tokens;
  capabilities = chat ∷ reasoning ∷ [];
}

-- The names of the two capabilities are constants of the SDK.
unfoldable pub all_model_specs : String × String → Map String Spec → List ModelInfo
unfolding pricing_specs spec_to_model_info
all_model_specs caps m = map (λ x. spec_to_model_info x.id x.spec caps) (pricing_specs m)
