-- ===== src/OAuth/Verifier.antt =====
-- `generateCodeVerifier`: characters drawn without bias from random bytes. The successive buffers that
-- `rand.Read` fills are an argument, the rounds of the outer loop are fuel; the Base64 text of the
-- characters is left out, and so is an error of `rand.Read`, which ends the loop.
use airgate_claude.Prelude.{
  ℕ, zero, suc, ◌+◌, ◌-◌, ◌%◌, ◌≤◌, ◌<◌, ◌≡◌, refl, Bool, true, false, List, [], ◌∷◌, ◌++◌, Option,
  none, some, if◌then◌else◌, ltb, leb, arith, nat_eq, nat_eq_iff, all_below_sound, All, any, length,
  length-append,
}

abbrev pub charset_len : ℕ
charset_len = 66

abbrev pub target_len : ℕ
target_len = 32

-- `256 - (256 % charsetLen)`
abbrev pub limit : ℕ
limit = 256 - 256 % charset_len

-- One pass over a buffer; the characters are given by their index in the charset, the first drawn
-- first, and the pass stops at the target length.
unfoldable pub draw : List ℕ → List ℕ → List ℕ
draw [] result = result
draw (b ∷ buffer) result =
    let next = result ++ b % charset_len ∷ [] in
    let skipped = draw buffer result in
    let rest = draw buffer next in
    if ltb b limit then if leb target_len (length next) then next else rest else skipped

-- The outer loop; `none` is a loop that still runs when the fuel is used up.
unfoldable pub generate : ℕ → (ℕ → List ℕ) → ℕ → List ℕ → Option (List ℕ)
unfolding draw
generate zero buffers i result = if ltb (length result) target_len then none else some result
generate (suc fuel) buffers i result =
    let rest = generate fuel buffers (suc i) (draw (buffers i) result) in
    if ltb (length result) target_len then rest else some result

unfoldable pub generate_code_verifier : ℕ → (ℕ → List ℕ) → Option (List ℕ)
unfolding generate
generate_code_verifier fuel buffers = generate fuel buffers 0 []

abbrev accepts : List ℕ → Bool
accepts = any (λ b. ltb b limit)

abbrev Index : List ℕ → Type 0
Index = All (λ c. c < charset_len)

snoc-Index : (xs : List ℕ) (b : ℕ) → Index xs → Index (xs ++ b % charset_len ∷ [])
snoc-Index [] b h = (omega arith, tt)
snoc-Index (x ∷ xs) b h = (h.0, snoc-Index xs b h.1)

length-snoc : (xs : List ℕ) (c : ℕ) → length (xs ++ c ∷ []) ≡ suc (length xs)
length-snoc xs c = omega (arith, length-append xs (c ∷ []))

length-draw :
    (bs xs : List ℕ)
    → length xs < target_len
    → (length xs ≤ length (draw bs xs)) × (length (draw bs xs) ≤ target_len)
unfolding draw
length-draw [] xs h = (omega arith, omega arith)
length-draw (b ∷ bs) xs h =
    let next = xs ++ b % charset_len ∷ [] in
    ground (arith, length-snoc xs (b % charset_len), length-draw bs next, length-draw bs xs h)

draw_grows :
    (bs xs : List ℕ) → length xs < target_len → accepts bs ≡ true → length xs < length (draw bs xs)
unfolding draw
draw_grows [] xs h a = absurd (cc)
draw_grows (b ∷ bs) xs h a =
    let next = xs ++ b % charset_len ∷ [] in
    ground (arith, length-snoc xs (b % charset_len), length-draw bs next, draw_grows bs xs h)

draw-Index : (bs xs : List ℕ) → Index xs → Index (draw bs xs)
unfolding draw
draw-Index [] xs h = h
draw-Index (b ∷ bs) xs h =
    let next = xs ++ b % charset_len ∷ [] in
    ground (arith, snoc-Index xs b h, draw-Index bs next, draw-Index bs xs h)

abbrev pub IsVerifier : Option (List ℕ) → Type 0
IsVerifier none = ⊥
IsVerifier (some r) = (length r ≡ target_len) × Index r

generate_lem :
    (fuel i : ℕ) (buffers : ℕ → List ℕ) (xs : List ℕ)
    → length xs ≤ target_len
    → Index xs
    → target_len ≤ length xs + fuel
    → ((j : ℕ) → accepts (buffers j) ≡ true)
    → IsVerifier (generate fuel buffers i xs)
unfolding generate
generate_lem zero i buffers xs b x f a = ground arith
generate_lem (suc fuel) i buffers xs b x f a =
    let ys = draw (buffers i) xs in
    ground (
      arith,
      length-draw (buffers i) xs,
      draw_grows (buffers i) xs,
      draw-Index (buffers i) xs x,
      generate_lem fuel (suc i) buffers ys,
      a i,
    )

-- With buffers that each hold a byte below the rejection limit, 32 rounds are enough, and the result
-- has 32 characters, all of the charset.
pub generate_code_verifier_lem :
    (buffers : ℕ → List ℕ)
    → ((j : ℕ) → accepts (buffers j) ≡ true)
    → IsVerifier (generate_code_verifier target_len buffers)
unfolding generate_code_verifier
generate_code_verifier_lem buffers a =
    generate_lem target_len 0 buffers [] (omega arith) tt (omega arith) a

-- The character that a byte alone gives is the one at the index `c`.
yields : ℕ → ℕ → Bool
unfolding draw
yields c b = elim (draw (b ∷ []) []) [ [] ↦ false | d ∷ ds ↦ nat_eq d c ]

-- How many of the bytes below `n` give the character at the index `c`.
pub count_yields : ℕ → ℕ → ℕ
unfolding yields
count_yields zero c = 0
count_yields (suc b) c = let rest = count_yields b c in if yields c b then suc rest else rest

-- The drawing has no bias: of the 256 bytes, exactly three give each character of the charset.
pub draw_uniform : (c : ℕ) → c < charset_len → count_yields 256 c ≡ 3
unfolding count_yields
draw_uniform c h =
    (nat_eq_iff _ _).0 (all_below_sound charset_len (λ c. nat_eq (count_yields 256 c) 3) c refl h)
