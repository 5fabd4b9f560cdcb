-- ===== src/Models/Listed/Laws.antt =====
-- The list of models is sorted, and it does not depend on the order in which the table is ranged over.
use airgate_claude.Prelude.{
  ◌++◌, ◌<◌, ◌⊎◌, nat_eq_iff, subst, nat_eq, ℕ, true, false, List, [], ◌∷◌, map, String, ◌≡◌, refl,
  arith, Bool-cases, inl, inr, ap, ◌∙◌,
}
use airgate_claude.Prelude.Text.{codes}
use airgate_claude.GoMap.{Map}
use airgate_claude.Headers.{text_eq}
use airgate_claude.Models.{Spec}
use airgate_claude.Models.Listed.{
  text_lt, NamedSpec, less, insert, sort, pricing_specs, all_model_specs, spec_to_model_info,
}

text_lt-asym : (s t : List ℕ) → text_lt s t ≡ true → text_lt t s ≡ false
unfolding text_lt
text_lt-asym s [] h = ground (arith, h)
text_lt-asym [] (d ∷ t) h = refl
text_lt-asym (c ∷ s) (d ∷ t) h = ground (arith, h, text_lt-asym s t)

text_lt_trans : (s t u : List ℕ) → text_lt s t ≡ true → text_lt t u ≡ true → text_lt s u ≡ true
unfolding text_lt
text_lt_trans s t [] h k = ground (arith, k)
text_lt_trans s [] (e ∷ u) h k = ground (arith, h)
text_lt_trans [] (d ∷ t) (e ∷ u) h k = refl
text_lt_trans (c ∷ s) (d ∷ t) (e ∷ u) h k = ground (arith, h, k, text_lt_trans s t u)

text_lt-total : (s t : List ℕ) → text_eq s t ≡ false → text_lt s t ≡ false → text_lt t s ≡ true
unfolding text_lt
text_lt-total [] [] n h = ground (arith, n)
text_lt-total (c ∷ s) [] n h = refl
text_lt-total [] (d ∷ t) n h = ground (arith, h)
text_lt-total (c ∷ s) (d ∷ t) n h = ground (arith, n, h, text_lt-total s t)

-- The orders in which a Go map may be ranged over: entries of different keys change places.
pub data Reorders : Map String Spec → Map String Spec → Type 0 where
  same : {m : Map String Spec} → Reorders m m
  skip : {m n : Map String Spec} → (e : String × Spec) → Reorders m n → Reorders (e ∷ m) (e ∷ n)
  swap :
      {m : Map String Spec}
      → (d e : String × Spec) → text_eq (codes d.0) (codes e.0) ≡ false
      → Reorders (d ∷ e ∷ m) (e ∷ d ∷ m)
  chain : {l m n : Map String Spec} → Reorders l m → Reorders m n → Reorders l n

insert_comm :
    (x y : NamedSpec) (l : List NamedSpec)
    → text_eq (codes x.id) (codes y.id) ≡ false
    → insert x (insert y l) ≡ insert y (insert x l)
unfolding insert
insert_comm x y [] n = elim (Bool-cases (less x y)) [
  | inl e ↦ rw (e, text_lt-asym (codes x.id) (codes y.id) e) refl
  | inr e ↦ rw (e, text_lt-total (codes x.id) (codes y.id) n e) refl
]
insert_comm x y (z ∷ l) n = ground (
  arith,
  n,
  text_lt-asym (codes x.id) (codes y.id),
  text_lt-total (codes x.id) (codes y.id),
  text_lt_trans (codes x.id) (codes y.id) (codes z.id),
  text_lt_trans (codes y.id) (codes x.id) (codes z.id),
  insert_comm x y l n,
)

-- An entry of the table with its identifier.
abbrev pub named : String × Spec → NamedSpec
named e = record { id = e.0; spec = e.1 }

sort-Reorders : {m n : Map String Spec} → Reorders m n → sort (map named m) ≡ sort (map named n)
unfolding sort
sort-Reorders same = refl
sort-Reorders (skip e r) = ap (insert (named e)) (sort-Reorders r)
sort-Reorders (swap {m = m} d e n) = insert_comm (named d) (named e) (sort (map named m)) n
sort-Reorders (chain r q) = sort-Reorders r ∙ sort-Reorders q

-- `s` comes before `t` in the order of the code points: it is a proper beginning of `t`, or at the first
-- place where they differ its code point is the smaller one.
abbrev pub Precedes : List ℕ → List ℕ → Type 0
Precedes s t =
    ((d : ℕ) × (rest : List ℕ) × (t ≡ s ++ d ∷ rest))
    ⊎ ((p : List ℕ) × (c : ℕ) × (d : ℕ) × (u : List ℕ) × (v : List ℕ) × (c < d)
        × (s ≡ p ++ c ∷ u)
        × (t ≡ p ++ d ∷ v))

abbrev pub AtMost : List ℕ → List ℕ → Type 0
AtMost s t = (s ≡ t) ⊎ Precedes s t

Precedes-cons : (c : ℕ) (s t : List ℕ) → AtMost s t → AtMost (c ∷ s) (c ∷ t)
Precedes-cons c s t (inl e) = inl (ap (◌∷◌ c) e)
Precedes-cons c s t (inr (inl (d, rest, e))) = inr (inl (d, rest, ap (◌∷◌ c) e))
Precedes-cons c s t (inr (inr (p, x, y, u, v, lt, e, f))) =
    inr (inr (c ∷ p, x, y, u, v, lt, ap (◌∷◌ c) e, ap (◌∷◌ c) f))

not_less-AtMost : (s t : List ℕ) → text_lt t s ≡ false → AtMost s t
unfolding text_lt
not_less-AtMost [] [] h = inl refl
not_less-AtMost [] (d ∷ t) h = inr (inl (d, t, refl))
not_less-AtMost (c ∷ s) [] h = absurd (cc)
not_less-AtMost (c ∷ s) (d ∷ t) h = elim (Bool-cases (nat_eq c d)) [
  | inl e ↦
      let same : c ≡ d = (nat_eq_iff c d).0 e in
      subst (λ x. AtMost (c ∷ s) (x ∷ t)) same
        (Precedes-cons c s t (not_less-AtMost s t (ground (arith, h, same))))
  | inr e ↦ inr (inr ([], c, d, s, t, ground (arith, h, e), refl, refl))
]

-- Each entry is at most the next one.
abbrev pub IsSorted : List NamedSpec → Type 0
IsSorted [] = Unit
IsSorted (x ∷ []) = Unit
IsSorted (x ∷ y ∷ l) = AtMost (codes x.id) (codes y.id) × IsSorted (y ∷ l)

abbrev InOrder : List NamedSpec → Type 0
InOrder [] = Unit
InOrder (x ∷ []) = Unit
InOrder (x ∷ y ∷ l) = (less y x ≡ false) × InOrder (y ∷ l)

InOrder-IsSorted : (l : List NamedSpec) → InOrder l → IsSorted l
InOrder-IsSorted [] h = tt
InOrder-IsSorted (x ∷ []) h = tt
InOrder-IsSorted (x ∷ y ∷ l) (h, k) =
    (not_less-AtMost (codes x.id) (codes y.id) h, InOrder-IsSorted (y ∷ l) k)

insert-InOrder : (x : NamedSpec) (l : List NamedSpec) → InOrder l → InOrder (insert x l)
unfolding insert
insert-InOrder x [] h = tt
insert-InOrder x (y ∷ []) h = ground (arith, text_lt-asym (codes x.id) (codes y.id))
insert-InOrder x (y ∷ z ∷ l) h = ground (
  arith,
  h,
  text_lt-asym (codes x.id) (codes y.id),
  text_lt-asym (codes x.id) (codes z.id),
  insert-InOrder x (z ∷ l) h.1,
)

sort-InOrder : (l : List NamedSpec) → InOrder (sort l)
unfolding sort
sort-InOrder [] = tt
sort-InOrder (x ∷ l) = insert-InOrder x (sort l) (sort-InOrder l)

-- The second list has the entries of the first in another order.
pub data Permutes : List NamedSpec → List NamedSpec → Type 0 where
  done : Permutes [] []
  keep : {l k : List NamedSpec} → (x : NamedSpec) → Permutes l k → Permutes (x ∷ l) (x ∷ k)
  move : {l : List NamedSpec} → (x y : NamedSpec) → Permutes (x ∷ y ∷ l) (y ∷ x ∷ l)
  follow : {l k j : List NamedSpec} → Permutes l k → Permutes k j → Permutes l j

Permutes-self : (l : List NamedSpec) → Permutes l l
Permutes-self [] = done
Permutes-self (x ∷ l) = keep x (Permutes-self l)

insert-Permutes : (x : NamedSpec) (l : List NamedSpec) → Permutes (x ∷ l) (insert x l)
unfolding insert
insert-Permutes x [] = keep x done
insert-Permutes x (y ∷ l) = elim (Bool-cases (less x y)) [
  | inl e ↦ rw e (Permutes-self (x ∷ y ∷ l))
  | inr e ↦ rw e (follow (move x y) (keep y (insert-Permutes x l)))
]

sort-Permutes : (l : List NamedSpec) → Permutes l (sort l)
unfolding sort
sort-Permutes [] = done
sort-Permutes (x ∷ l) = follow (keep x (sort-Permutes l)) (insert-Permutes x (sort l))

-- The list of prices has exactly the entries of the table, each as often as the table has it, and it is
-- sorted by identifier in the order of the code points, whatever the order in which Go ranges over the
-- table. Two orders give the same list of prices and the same list of models.
pub pricing_specs-Reorders :
    (caps : String × String) (m n : Map String Spec)
    → Reorders m n
    → Permutes (map named m) (pricing_specs m)
      × IsSorted (pricing_specs m)
      × (pricing_specs m ≡ pricing_specs n)
      × (all_model_specs caps m ≡ all_model_specs caps n)
unfolding pricing_specs all_model_specs
pricing_specs-Reorders caps m n r = (
  sort-Permutes (map named m),
  InOrder-IsSorted (sort (map named m)) (sort-InOrder (map named m)),
  sort-Reorders r,
  ap (map (λ x. spec_to_model_info x.id x.spec caps)) (sort-Reorders r),
)
