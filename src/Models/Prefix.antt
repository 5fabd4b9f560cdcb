-- ===== src/Models/Prefix.antt =====
-- The lookup ranges over a Go map, whose order is not fixed. Its answer does not depend on that order.
use airgate_claude.Prelude.{
  ℕ, ◌≡◌, refl, sym, ◌∙◌, ◌⊎◌, inl, inr, Bool, true, false, not, ◌&&◌, ◌||◌, List, [], ◌∷◌, none,
  some, String, string_key, ◌==◌, arith, Option-cases,
}
use text.Mathlib.TextEquality.{eq_iff}
use airgate_claude.Prelude.Text.{codes, starts}
use airgate_claude.GoMap.{Map, get}
use airgate_claude.GoMap.Distinct.{Distinct}
use airgate_claude.Models.{
  Spec, model_registry, normalize_model_id, find_prefix, registered, by_keyword, by_prefix,
  by_normalized, lookup_in, lookup_model_spec,
}
use airgate_claude.Models.Registered.{find_prefix-get, registry-Distinct}

-- Of two prefixes of one text, one is a prefix of the other.
starts_both :
    (t p q : List ℕ)
    → starts t p ≡ true
    → starts t q ≡ true
    → (starts p q ≡ true) ⊎ (starts q p ≡ true)
unfolding starts
starts_both t p [] h k = inl refl
starts_both t [] (d ∷ q) h k = inr refl
starts_both [] (c ∷ p) (d ∷ q) h k = absurd (cc)
starts_both (b ∷ t) (c ∷ p) (d ∷ q) h k = ground (arith, starts_both t p q)

-- No other name of the table starts with this one.
apart : String → Map String Spec → Bool
apart id [] = true
apart id ((j, s) ∷ m) =
    let rest = apart id m in (id == j || not (starts (codes j) (codes id))) && rest

apart_all : Map String Spec → Map String Spec → Bool
unfolding apart
apart_all all [] = true
apart_all all ((j, s) ∷ m) = let rest = apart_all all m in apart j all && rest

get-apart :
    (id j : String) (s : Spec) (m : Map String Spec)
    → apart id m ≡ true
    → get j m ≡ some s
    → starts (codes j) (codes id) ≡ true
    → id ≡ j
unfolding apart get
get-apart id j s [] a g h = absurd (cc)
get-apart id j s ((i, t) ∷ m) a g h = ground (arith, eq_iff i j, eq_iff id i, get-apart id j s m)

get-apart_all :
    (id : String) (s : Spec) (all m : Map String Spec)
    → apart_all all m ≡ true
    → get id m ≡ some s
    → apart id all ≡ true
unfolding apart_all get
get-apart_all id s all [] a g = absurd (cc)
get-apart_all id s all ((i, t) ∷ m) a g = ground (arith, eq_iff i id, get-apart_all id s all m)

registry_apart : apart_all model_registry model_registry ≡ true
unfolding apart_all model_registry starts
registry_apart = refl

-- Two names of the table that begin one model name are the same.
prefix_unique :
    (model : List ℕ) (i j : String) (s t : Spec)
    → get i model_registry ≡ some s
    → get j model_registry ≡ some t
    → starts model (codes i) ≡ true
    → starts model (codes j) ≡ true
    → i ≡ j
prefix_unique model i j s t g h p q =
    let first = get-apart_all i s model_registry model_registry registry_apart g in
    let second = get-apart_all j t model_registry model_registry registry_apart h in
    ground (
      arith,
      starts_both model (codes i) (codes j) p q,
      get-apart i j t model_registry first h,
      get-apart j i s model_registry second g,
    )

find_prefix-none :
    (model : List ℕ) (id : String) (s : Spec) (m : Map String Spec)
    → find_prefix model m ≡ none
    → get id m ≡ some s
    → starts model (codes id) ≡ false
unfolding find_prefix get
find_prefix-none model id s [] f g = absurd (cc)
find_prefix-none model id s ((j, t) ∷ m) f g =
    ground (arith, eq_iff j id, find_prefix-none model id s m)

-- The table in another order: the same entries, each once.
pub record Reordered (m : Map String Spec) : Type 0 where
  pub distinct : Distinct m
  pub same : (id : String) → get id m ≡ get id model_registry

find_prefix-Reordered :
    (model : List ℕ) (m : Map String Spec)
    → Reordered m
    → find_prefix model m ≡ find_prefix model model_registry
find_prefix-Reordered model m v = elim (Option-cases (find_prefix model m)) [
  | inl e ↦ elim (Option-cases (find_prefix model model_registry)) [
    | inl f ↦ e ∙ sym f
    | inr ((j, t), f) ↦
        let (g, p) = find_prefix-get model model_registry j t registry-Distinct f in
        absurd (ground (arith, find_prefix-none model j t m e (v.same j ∙ g)))
  ]
  | inr ((i, s), e) ↦
      let (g, p) = find_prefix-get model m i s v.distinct e in
      let g' = sym (v.same i) ∙ g in
      elim (Option-cases (find_prefix model model_registry)) [
        | inl f ↦ absurd (ground (arith, find_prefix-none model i s model_registry f g'))
        | inr ((j, t), f) ↦
            let (h, q) = find_prefix-get model model_registry j t registry-Distinct f in
            ground (arith, prefix_unique model i j s t g' h p q)
      ]
]

-- In whatever order the loop visits the table, the lookup bills a model name by the same entry: no
-- name of the table begins another, so at most one entry is a prefix of it.
pub lookup-Reordered :
    (id : String) (m : Map String Spec) → Reordered m → lookup_in id m ≡ lookup_model_spec id
unfolding lookup_model_spec lookup_in by_normalized by_prefix by_keyword registered
lookup-Reordered id m v = ground (
  arith,
  v.same id,
  v.same (normalize_model_id id),
  v.same "claude-fable-5",
  v.same "claude-opus-4-8",
  v.same "claude-haiku-4-5-20251001",
  v.same "claude-sonnet-4-6",
  find_prefix-Reordered (codes id) m v,
)
