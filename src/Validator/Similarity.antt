-- ===== src/Validator/Similarity.antt =====
-- The similarity of two texts is symmetric, and it is at most one.
use airgate_claude.Prelude.{
  ℕ, true, false, List, [], ◌∷◌, map, if◌then◌else◌, length, ◌+◌, ◌≡◌, ◌≤◌, refl, sym, arith,
  Bool-cases, inl, inr, nat_eq_iff, ◌↔◌, subst,
}
use airgate_claude.Headers.{Text}
use airgate_claude.Headers.Parts.{text_eq_iff}
use airgate_claude.Validator.Dice.{pair_eq, in_set, bigram_set, shared, dice_coefficient}

pair_eq_iff : (p q : ℕ × ℕ) → (pair_eq p q ≡ true) ↔ (p ≡ q)
pair_eq_iff (a, b) (c, d) = ground (arith, nat_eq_iff a c, nat_eq_iff b d)

Distinct : List (ℕ × ℕ) → Type 0
Distinct [] = Unit
Distinct (p ∷ ps) = (in_set p ps ≡ false) × Distinct ps

bigram_set-Distinct : (s : Text) → Distinct (bigram_set s)
unfolding bigram_set Distinct
bigram_set-Distinct [] = tt
bigram_set-Distinct (c ∷ []) = tt
bigram_set-Distinct (c ∷ d ∷ s) = elim (Bool-cases (in_set (c, d) (bigram_set (d ∷ s)))) [
  | inl e ↦ rw e (bigram_set-Distinct (d ∷ s))
  | inr e ↦ rw e (e, bigram_set-Distinct (d ∷ s))
]

-- One more pair on the right is shared if it is on the left.
shared-cons :
    (ps qs : List (ℕ × ℕ)) (q : ℕ × ℕ)
    → Distinct ps
    → in_set q qs ≡ false
    → shared ps (q ∷ qs) ≡ (if in_set q ps then shared ps qs + 1 else shared ps qs)
unfolding shared in_set Distinct
shared-cons [] qs q d n = refl
shared-cons (p ∷ ps) qs q d n = elim (Bool-cases (pair_eq q p)) [
  | inl e ↦
      let same = (pair_eq_iff q p).0 e in
      let back = (pair_eq_iff p q).1 (sym same) in
      let out : in_set q ps ≡ false = subst (λ x. in_set x ps ≡ false) (sym same) d.0 in
      let gone : in_set p qs ≡ false = subst (λ x. in_set x qs ≡ false) same n in
      ground (arith, shared-cons ps qs q d.1 n, e, back, out, gone)
  | inr e ↦ ground (arith, shared-cons ps qs q d.1 n, e, pair_eq_iff q p, pair_eq_iff p q)
]

shared-sym : (ps qs : List (ℕ × ℕ)) → Distinct ps → Distinct qs → shared ps qs ≡ shared qs ps
unfolding shared Distinct
shared-sym [] [] d e = refl
shared-sym [] (q ∷ qs) d e = shared-sym [] qs d e.1
shared-sym (p ∷ ps) qs d e =
    let cons = shared-cons qs ps p e d.0 in
    let rest = shared-sym ps qs d.1 e in rw cons (rw rest refl)

shared-le : (ps qs : List (ℕ × ℕ)) → shared ps qs ≤ length ps
unfolding shared
shared-le [] qs = omega arith
shared-le (p ∷ ps) qs = ground (arith, shared-le ps qs)

module _ (lower : ℕ → ℕ) where
  -- The similarity does not depend on which text is given first, and its numerator is at most its
  -- denominator.
  pub dice_coefficient_lem :
      (a b : Text)
      → (dice_coefficient lower a b ≡ dice_coefficient lower b a)
        × ((dice_coefficient lower a b).0 ≤ (dice_coefficient lower a b).1)
  unfolding dice_coefficient
  dice_coefficient_lem a b =
      let x = bigram_set (map lower a) in
      let y = bigram_set (map lower b) in
      let s =
        shared-sym x y (bigram_set-Distinct (map lower a)) (bigram_set-Distinct (map lower b)) in
      ground (
        arith,
        s,
        shared-le x y,
        shared-le y x,
        text_eq_iff (map lower a) (map lower b),
        text_eq_iff (map lower b) (map lower a),
      )
