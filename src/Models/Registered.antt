-- ===== src/Models/Registered.antt =====
-- Whatever the name, the lookup bills by an entry of the table.
use airgate_claude.Prelude.{
  ℕ, ◌≡◌, refl, true, List, [], ◌∷◌, some, String, string_key, arith, inl, inr, Option-cases,
}
use text.Mathlib.TextEquality.{eq_iff}
use airgate_claude.Prelude.Text.{codes, to_lower, starts}
use airgate_claude.GoMap.{Map, get}
use airgate_claude.GoMap.Distinct.{Distinct}
use airgate_claude.Models.{
  Spec, model_registry, normalize_model_id, fallback_spec, find_prefix, registered, by_keyword,
  by_prefix, by_normalized, lookup_in, lookup_model_spec,
}

pub find_prefix-get :
    (model : List ℕ) (m : Map String Spec) (id : String) (s : Spec)
    → Distinct m
    → find_prefix model m ≡ some (id, s)
    → (get id m ≡ some s) × (starts model (codes id) ≡ true)
unfolding find_prefix get
find_prefix-get model [] id s d h = absurd (cc)
find_prefix-get model ((j, t) ∷ m) id s d h =
    ground (arith, eq_iff j id, find_prefix-get model m id s d.1)

-- The table holds the model that unknown names are billed by, with the prices of the fallback.
pub HasFallback : Map String Spec → Type 0
unfolding fallback_spec
HasFallback m = get "claude-opus-4-8" m ≡ some fallback_spec

pub Registers : Map String Spec → String × Spec → Type 0
Registers m r = get r.0 m ≡ some r.1

registered-Registers :
    (id : String) (m : Map String Spec) → HasFallback m → Registers m (registered id m)
unfolding registered HasFallback Registers
registered-Registers id m f = elim (Option-cases (get id m)) [
  | inl e ↦ rw (e, registered) f
  | inr (s, e) ↦ rw (e, registered) e
]

by_keyword-Registers :
    (lower : List ℕ) (m : Map String Spec) → HasFallback m → Registers m (by_keyword lower m)
unfolding by_keyword HasFallback Registers
by_keyword-Registers lower m f = ground (
  arith,
  registered-Registers "claude-fable-5" m f,
  registered-Registers "claude-opus-4-8" m f,
  registered-Registers "claude-haiku-4-5-20251001" m f,
  registered-Registers "claude-sonnet-4-6" m f,
)

by_prefix-Registers :
    (id : String) (m : Map String Spec) → Distinct m → HasFallback m → Registers m (by_prefix id m)
unfolding by_prefix Registers
by_prefix-Registers id m d f = elim (Option-cases (find_prefix (codes id) m)) [
  | inl e ↦ rw (e, by_prefix) (by_keyword-Registers (to_lower id) m f)
  | inr ((j, s), e) ↦ rw (e, by_prefix) (find_prefix-get (codes id) m j s d e).0
]

by_normalized-Registers :
    (id : String) (m : Map String Spec)
    → Distinct m
    → HasFallback m
    → Registers m (by_normalized id m)
unfolding by_normalized Registers
by_normalized-Registers id m d f = elim (Option-cases (get (normalize_model_id id) m)) [
  | inl e ↦ rw (e, by_normalized) (by_prefix-Registers id m d f)
  | inr (s, e) ↦ rw (e, by_normalized) e
]

lookup_in-Registers :
    (id : String) (m : Map String Spec) → Distinct m → HasFallback m → Registers m (lookup_in id m)
unfolding lookup_in Registers
lookup_in-Registers id m d f = elim (Option-cases (get id m)) [
  | inl e ↦ rw (e, lookup_in) (by_normalized-Registers id m d f)
  | inr (s, e) ↦ rw (e, lookup_in) e
]

pub registry-Distinct : Distinct model_registry
unfolding model_registry get
registry-Distinct =
    (refl, (refl, (refl, (refl, (refl, (refl, (refl, (refl, (refl, (refl, tt))))))))))

pub registry-HasFallback : HasFallback model_registry
unfolding HasFallback model_registry get fallback_spec
registry-HasFallback = refl

lookup_in_same : (r : String × Spec) (m : Map String Spec) → Registers m r → lookup_in r.0 m ≡ r
unfolding lookup_in Registers
lookup_in_same r m h = rw (h, lookup_in) refl

-- For every model name, the lookup answers with an entry of the table under its own name. Looking the
-- answer's name up again changes nothing.
pub lookup_model_spec_lem :
    (id : String)
    → (get (lookup_model_spec id).0 model_registry ≡ some (lookup_model_spec id).1)
      × (lookup_model_spec (lookup_model_spec id).0 ≡ lookup_model_spec id)
unfolding lookup_model_spec Registers
lookup_model_spec_lem id =
    let found = lookup_in-Registers id model_registry registry-Distinct registry-HasFallback in
    (found, lookup_in_same (lookup_in id model_registry) model_registry found)
