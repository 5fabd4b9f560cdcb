-- ===== src/Models/Listed/Examples.antt =====
-- A table of two models, ranged over in both orders.
use airgate_claude.Prelude.{map, [], ◌∷◌, String, ◌≡◌, refl}
use airgate_claude.GoMap.{Map}
use airgate_claude.Models.{Spec, spec}
use airgate_claude.Models.Listed.{pricing_specs, all_model_specs}
use airgate_claude.Models.Listed.Laws.{swap, Permutes, named, IsSorted, pricing_specs-Reorders}

abbrev opus : String × Spec
opus = ("claude-opus-4-8", spec "Claude Opus 4.8" 1000000 128000 500 50 625 1000 2500)

abbrev fable : String × Spec
fable = ("claude-fable-5", spec "Claude Fable 5" 1000000 128000 1000 100 1250 2000 5000)

abbrev table : Map String Spec
table = opus ∷ fable ∷ []

abbrev turned : Map String Spec
turned = fable ∷ opus ∷ []

abbrev caps : String × String
caps = ("chat", "reasoning")

pricing_specs-Reorders_example :
    Permutes (map named table) (pricing_specs table)
    × IsSorted (pricing_specs table)
    × (pricing_specs table ≡ pricing_specs turned)
    × (all_model_specs caps table ≡ all_model_specs caps turned)
pricing_specs-Reorders_example = pricing_specs-Reorders caps table turned (swap opus fable refl)
