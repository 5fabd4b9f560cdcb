-- ===== src/Validator/Dice.antt =====
-- The similarity of two texts: twice the pairs of characters that they share, to the pairs they have.
-- It is a fraction, exact; the source's floating-point quotient is at least one half iff the fraction is.
use airgate_claude.Prelude.{
  ℕ, Bool, true, false, ◌&&◌, ◌||◌, List, [], ◌∷◌, map, if◌then◌else◌, leb, nat_eq, length, ◌+◌,
  ◌*◌,
}
use airgate_claude.Headers.{Text, text_eq}
use airgate_claude.Sanitize.{is_nil}

abbrev pub pair_eq : ℕ × ℕ → ℕ × ℕ → Bool
pair_eq p q = nat_eq p.0 q.0 && nat_eq p.1 q.1

-- `_, ok := set[k]`
unfoldable pub in_set : ℕ × ℕ → List (ℕ × ℕ) → Bool
in_set p [] = false
in_set p (q ∷ qs) = if pair_eq q p then true else in_set p qs

-- A set of pairs; a pair that is there is not added again.
unfoldable pub bigram_set : Text → List (ℕ × ℕ)
unfolding in_set
bigram_set [] = []
bigram_set (c ∷ []) = []
bigram_set (c ∷ d ∷ s) =
    let rest = bigram_set (d ∷ s) in if in_set (c, d) rest then rest else (c, d) ∷ rest

-- `for k := range setA { if _, ok := setB[k]; ok { inter++ } }`
unfoldable pub shared : List (ℕ × ℕ) → List (ℕ × ℕ) → ℕ
unfolding in_set
shared [] bs = 0
shared (a ∷ more) bs = let n = shared more bs in if in_set a bs then n + 1 else n

module _ (lower : ℕ → ℕ) where
  -- `lower` is `unicode.ToLower`.
  unfoldable pub dice_coefficient : Text → Text → ℕ × ℕ
  unfolding bigram_set shared
  dice_coefficient a b =
      let low_a = map lower a in
      let low_b = map lower b in
      let set_a = bigram_set low_a in
      let set_b = bigram_set low_b in
      if is_nil a || is_nil b
      then (0, 1)
      else if text_eq low_a low_b
      then (1, 1)
      else if is_nil set_a || is_nil set_b
      then (0, 1)
      else (2 * shared set_a set_b, length set_a + length set_b)

-- `q >= 0.5`
abbrev pub at_least_half : ℕ × ℕ → Bool
at_least_half q = leb q.1 (2 * q.0)
