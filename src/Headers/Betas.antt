-- ===== src/Headers/Betas.antt =====
-- What the `anthropic-beta` header of an OAuth account holds, whatever the client asked for.
use airgate_claude.Prelude.{
  ◌≡◌, refl, true, false, ◌||◌, List, [], ◌∷◌, ◌++◌, String, if◌then◌else◌, arith, All, All-append,
  Bool-cases, inl, inr,
}
use airgate_claude.Prelude.Space.{trim_left, trim_right, is_space}
use airgate_claude.Headers.{
  Text, text_eq, mem, split, trimmed, parts_of, dropped_betas, is_dropped, keep, collect,
  filter_dropped_betas, merge_betas, oauth_base, oauth_beta, is_haiku_model, haiku_beta_header,
  oauth_beta_header,
}
use airgate_claude.Headers.Parts.{IsPart, parts_of-join, parts_of-IsPart, text_eq_iff}

-- No part twice.
abbrev pub Unique : List Text → Type 0
Unique [] = Unit
Unique (p ∷ ps) = (mem p ps ≡ false) × Unique ps

mem-snoc : (p q : Text) (ps : List Text) → mem p (ps ++ q ∷ []) ≡ mem p ps || text_eq q p
mem-snoc p q [] = ground arith
mem-snoc p q (r ∷ ps) = ground (arith, mem-snoc p q ps)

snoc-Unique : (p : Text) (ps : List Text) → Unique ps → mem p ps ≡ false → Unique (ps ++ p ∷ [])
snoc-Unique p [] u h = (refl, tt)
snoc-Unique p (q ∷ ps) u h =
    ground (arith, mem-snoc q p ps, text_eq_iff p q, text_eq_iff q p, snoc-Unique p ps u.1)

module _ (P : Text → Type 0) where
  collect-All : (ps acc : List Text) → All P ps → All P acc → All P (collect ps acc)
  unfolding collect
  collect-All [] acc a b = b
  collect-All (p ∷ ps) acc a b = elim (Bool-cases (mem p acc)) [
    | inl e ↦ rw e (collect-All ps acc a.1 b)
    | inr e ↦ rw e (collect-All ps (acc ++ p ∷ []) a.1 (All-append P acc (p ∷ []) b (a.0, tt)))
  ]

  keep-All : (ps : List Text) → All P ps → All P (keep ps)
  unfolding keep
  keep-All [] a = tt
  keep-All (p ∷ ps) a = elim (Bool-cases (is_dropped p)) [
    | inl e ↦ rw e (keep-All ps a.1)
    | inr e ↦ rw e (a.0, keep-All ps a.1)
  ]

collect-Unique : (ps acc : List Text) → Unique acc → Unique (collect ps acc)
unfolding collect
collect-Unique [] acc u = u
collect-Unique (p ∷ ps) acc u = elim (Bool-cases (mem p acc)) [
  | inl e ↦ rw e (collect-Unique ps acc u)
  | inr e ↦ rw e (collect-Unique ps (acc ++ p ∷ []) (snoc-Unique p acc u e))
]

mem-collect : (q : Text) (ps acc : List Text) → mem q acc ≡ true → mem q (collect ps acc) ≡ true
unfolding collect
mem-collect q [] acc h = h
mem-collect q (p ∷ ps) acc h =
    ground (arith, mem-snoc q p acc, mem-collect q ps acc, mem-collect q ps (acc ++ p ∷ []))

abbrev Includes : List Text → List Text → Type 0
Includes all = All (λ p. mem p all ≡ true)

collect-Includes : (ps acc : List Text) → Includes (collect ps acc) ps
unfolding collect
collect-Includes [] acc = tt
collect-Includes (p ∷ ps) acc =
    let next : List Text = if mem p acc then acc else acc ++ p ∷ [] in
    let there : mem p next ≡ true = ground (arith, mem-snoc p p acc, text_eq_iff p p) in
    (mem-collect p ps next there, collect-Includes ps next)

Includes-collect : (qs ps acc : List Text) → Includes acc qs → Includes (collect ps acc) qs
Includes-collect [] ps acc a = tt
Includes-collect (q ∷ qs) ps acc a = (mem-collect q ps acc a.0, Includes-collect qs ps acc a.1)

keep-none_dropped : (ps : List Text) → All (λ p. is_dropped p ≡ false) (keep ps)
unfolding keep
keep-none_dropped [] = tt
keep-none_dropped (p ∷ ps) = elim (Bool-cases (is_dropped p)) [
  | inl e ↦ rw e (keep-none_dropped ps)
  | inr e ↦ rw e (e, keep-none_dropped ps)
]

filter-parts_of : (s : Text) → parts_of (filter_dropped_betas s) ≡ keep (parts_of s)
unfolding filter_dropped_betas
filter-parts_of s =
    parts_of-join (keep (parts_of s)) (keep-All IsPart (parts_of s) (parts_of-IsPart s))

merge-parts_of :
    (base extra : Text)
    → parts_of (merge_betas base extra) ≡ collect (parts_of extra) (collect (parts_of base) [])
unfolding merge_betas
merge-parts_of base extra = parts_of-join _ (
    collect-All IsPart (parts_of extra) _ (parts_of-IsPart extra)
      (collect-All IsPart (parts_of base) [] (parts_of-IsPart base) tt))

-- The parts of a header that Anthropic may see: none that is dropped, none twice, and all of a base.
pub record Safe (base ps : List Text) : Type 0 where
  pub none_dropped : All (λ p. is_dropped p ≡ false) ps
  pub unique : Unique ps
  pub whole_base : Includes ps base

haiku-Safe : Safe (parts_of haiku_beta_header) (parts_of haiku_beta_header)
unfolding haiku_beta_header split trimmed trim_left trim_right is_space dropped_betas
haiku-Safe = record {
  none_dropped = (refl, (refl, tt));
  unique = (refl, (refl, tt));
  whole_base = (refl, (refl, tt));
}

oauth-Safe : Safe (parts_of oauth_beta_header) (parts_of oauth_beta_header)
unfolding oauth_beta_header split trimmed trim_left trim_right is_space dropped_betas
oauth-Safe = record {
  none_dropped = (refl, (refl, (refl, (refl, (refl, (refl, tt))))));
  unique = (refl, (refl, (refl, (refl, (refl, (refl, tt))))));
  whole_base = (refl, (refl, (refl, (refl, (refl, (refl, tt))))));
}

base-Safe : (model : String) → Safe (parts_of (oauth_base model)) (parts_of (oauth_base model))
unfolding oauth_base
base-Safe model = elim (Bool-cases (is_haiku_model model)) [
  | inl e ↦ rw e haiku-Safe
  | inr e ↦ rw e oauth-Safe
]

merged-Safe :
    (base client : Text)
    → Safe (parts_of base) (parts_of base)
    → Safe (parts_of base) (parts_of (merge_betas base (filter_dropped_betas client)))
merged-Safe base client b =
    let IsKept : Text → Type 0 = λ p. is_dropped p ≡ false in
    let start = collect (parts_of base) [] in
    rw (merge-parts_of base (filter_dropped_betas client)) (
      rw (filter-parts_of client) (record {
        none_dropped =
            collect-All IsKept (keep (parts_of client)) start (keep-none_dropped (parts_of client))
              (collect-All IsKept (parts_of base) [] b.none_dropped tt);
        unique =
            collect-Unique (keep (parts_of client)) start (collect-Unique (parts_of base) [] tt);
        whole_base =
            Includes-collect (parts_of base) (keep (parts_of client)) start
              (collect-Includes (parts_of base) []);
      }))

-- Whatever beta names the client sends, those of an OAuth or session-key account's request hold none
-- of the dropped names and no name twice, and they hold all names of the model's own header.
pub oauth_beta-Safe :
    (model : String) (client : Text)
    → Safe (parts_of (oauth_base model)) (parts_of (oauth_beta model client))
unfolding oauth_beta
oauth_beta-Safe model client = elim (Bool-cases (text_eq client [])) [
  | inl e ↦ rw e (base-Safe model)
  | inr e ↦ rw e (merged-Safe (oauth_base model) client (base-Safe model))
]
