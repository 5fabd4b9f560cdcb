-- ===== src/Prelude/Space.antt =====
-- `strings.TrimSpace` over code points, and that trimming twice is trimming once.
use airgate_claude.Prelude.{
  ℕ, ◌≡◌, refl, ap, ◌∙◌, Bool, false, ◌&&◌, ◌||◌, List, [], ◌∷◌, if◌then◌else◌, leb, nat_eq, arith,
  All, Bool-cases, inl, inr,
}

-- `unicode.IsSpace`, which `strings.TrimSpace` uses.
unfoldable pub is_space : ℕ → Bool
is_space c =
    (leb 9 c && leb c 13)
    || nat_eq c 32
    || nat_eq c 0x85
    || nat_eq c 0xa0
    || nat_eq c 0x1680
    || (leb 0x2000 c && leb c 0x200a)
    || nat_eq c 0x2028
    || nat_eq c 0x2029
    || nat_eq c 0x202f
    || nat_eq c 0x205f
    || nat_eq c 0x3000

unfoldable pub trim_left : List ℕ → List ℕ
unfolding is_space
trim_left [] = []
trim_left (c ∷ s) = let rest = trim_left s in if is_space c then rest else c ∷ s

snoc_space : ℕ → List ℕ → List ℕ
unfolding is_space
snoc_space c [] = if is_space c then [] else c ∷ []
snoc_space c (d ∷ s) = c ∷ d ∷ s

unfoldable pub trim_right : List ℕ → List ℕ
unfolding snoc_space
trim_right [] = []
trim_right (c ∷ s) = snoc_space c (trim_right s)

abbrev pub trim_space : List ℕ → List ℕ
trim_space s = trim_right (trim_left s)

trim_left-trim_left : (s : List ℕ) → trim_left (trim_left s) ≡ trim_left s
unfolding trim_left
trim_left-trim_left [] = refl
trim_left-trim_left (c ∷ s) = ground (arith, trim_left-trim_left s)

-- The text starts with no space.
Starts : List ℕ → Type 0
Starts [] = Unit
Starts (c ∷ s) = is_space c ≡ false

Starts-trim_left : (s : List ℕ) → Starts (trim_left s)
unfolding trim_left Starts
Starts-trim_left [] = tt
Starts-trim_left (c ∷ s) = elim (Bool-cases (is_space c)) [
  | inl e ↦ rw e (Starts-trim_left s)
  | inr e ↦ rw e e
]

trim_left-Starts : (s : List ℕ) → Starts s → trim_left s ≡ s
unfolding trim_left Starts
trim_left-Starts [] h = refl
trim_left-Starts (c ∷ s) h = rw h refl

snoc-Starts : (c : ℕ) (s : List ℕ) → is_space c ≡ false → Starts (snoc_space c s)
unfolding snoc_space Starts
snoc-Starts c [] h = rw h h
snoc-Starts c (d ∷ s) h = h

trim_right-Starts : (s : List ℕ) → Starts s → Starts (trim_right s)
unfolding trim_right Starts
trim_right-Starts [] h = tt
trim_right-Starts (c ∷ s) h = snoc-Starts c (trim_right s) h

trim_right-snoc :
    (c : ℕ) (s : List ℕ) → trim_right s ≡ s → trim_right (snoc_space c s) ≡ snoc_space c s
unfolding trim_right snoc_space
trim_right-snoc c [] h = elim (Bool-cases (is_space c)) [
  | inl e ↦ rw e refl
  | inr e ↦ rw e (rw e refl)
]
trim_right-snoc c (d ∷ s) h = rw h refl

trim_right-trim_right : (s : List ℕ) → trim_right (trim_right s) ≡ trim_right s
unfolding trim_right
trim_right-trim_right [] = refl
trim_right-trim_right (c ∷ s) = trim_right-snoc c (trim_right s) (trim_right-trim_right s)

pub trim_space-trim_space : (s : List ℕ) → trim_space (trim_space s) ≡ trim_space s
trim_space-trim_space s =
    let starts = trim_right-Starts (trim_left s) (Starts-trim_left s) in
    ap trim_right (trim_left-Starts (trim_right (trim_left s)) starts)
    ∙ trim_right-trim_right (trim_left s)

module _ (P : ℕ → Type 0) where
  All-trim_left : (s : List ℕ) → All P s → All P (trim_left s)
  unfolding trim_left
  All-trim_left [] a = tt
  All-trim_left (c ∷ s) a = elim (Bool-cases (is_space c)) [
    | inl e ↦ rw e (All-trim_left s a.1)
    | inr e ↦ rw e a
  ]

  All-snoc : (c : ℕ) (s : List ℕ) → P c → All P s → All P (snoc_space c s)
  unfolding snoc_space
  All-snoc c [] p a = elim (Bool-cases (is_space c)) [ inl e ↦ rw e tt | inr e ↦ rw e (p, tt) ]
  All-snoc c (d ∷ s) p a = (p, a)

  All-trim_right : (s : List ℕ) → All P s → All P (trim_right s)
  unfolding trim_right
  All-trim_right [] a = tt
  All-trim_right (c ∷ s) a = All-snoc c (trim_right s) a.0 (All-trim_right s a.1)

  pub All-trim_space : (s : List ℕ) → All P s → All P (trim_space s)
  All-trim_space s a = All-trim_right (trim_left s) (All-trim_left s a)
