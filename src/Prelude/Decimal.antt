-- ===== src/Prelude/Decimal.antt =====
-- `strconv.FormatInt(n, 10)`: what `%d` prints for an account identifier.
use Prim.Native.Char.{Char, code}
use Prim.Native.Nat.{ℕ, zero, suc, ◌+◌, ◌-◌, ◌*◌, ◌/◌, ◌%◌, ◌≤◌, ◌<◌}
use Prim.Native.String
use Prim.Native.String.{String}
use mathlib.Core.List.{List, [], ◌∷◌, ◌++◌}
use mathlib.Core.Path.{◌≡◌, refl, sym, ap}
use mathlib.Core.Logic.{◌≢◌}
use native.Mathlib.Omega.{arith}
use text.Mathlib.TextLemmas.{nil-append, cons-append}
use airgate_claude.Prelude.Tests.{ltb, nat_eq, nat_eq_iff, all_below_sound, if◌then◌else◌}
use airgate_claude.Prelude.Lists.{All}
use airgate_claude.Prelude.Int.{ℤ, pos, negsuc}
use airgate_claude.Prelude.Text.{codes}

digit : ℕ → Char
digit d =
    if nat_eq d 0
    then "0"
    else if nat_eq d 1
    then "1"
    else if nat_eq d 2
    then "2"
    else if nat_eq d 3
    then "3"
    else if nat_eq d 4
    then "4"
    else if nat_eq d 5
    then "5"
    else if nat_eq d 6
    then "6"
    else if nat_eq d 7
    then "7"
    else if nat_eq d 8
    then "8"
    else "9"

code-digit : (d : ℕ) → d < 10 → code (digit d) ≡ 48 + d
unfolding digit
code-digit d h =
    (nat_eq_iff _ _).0 (all_below_sound 10 (λ n. nat_eq (code (digit n)) (48 + n)) d refl h)

-- Each round takes the last digit off; `n` rounds are more than enough.
unfoldable pub digits_from : ℕ → ℕ → String → String
unfolding digit
digits_from zero n s = s
digits_from (suc f) n s =
    let last = String.◌∷◌ (digit (n % 10)) s in
    let rest = digits_from f (n / 10) last in if ltb n 10 then last else rest

unfoldable pub decimal : ℤ → String
unfolding digits_from
decimal (pos n) = digits_from (suc n) n ""
decimal (negsuc n) = String.◌∷◌ "-" (digits_from (suc (suc n)) (suc n) "")

pub codes-append : (s t : String) → codes (String.◌++◌ s t) ≡ codes s ++ codes t
codes-append String.[] t = rw nil-append
codes-append (String.◌∷◌ c s) t = rw cons-append (ap (◌∷◌ (code c)) (codes-append s t))

-- The number that decimal digits write, read after the number `acc`.
unfoldable pub value : ℕ → List ℕ → ℕ
value acc [] = acc
value acc (c ∷ s) = value (acc * 10 + (c - 48)) s

value-digits_from :
    (f n : ℕ) (s : String) → n < f → value 0 (codes (digits_from f n s)) ≡ value n (codes s)
unfolding digits_from value
value-digits_from zero n s h = elim h [ ]
value-digits_from (suc f) n s h =
    let d : ℕ = n % 10 in
    ground
      (arith, code-digit (n % 10), value-digits_from f (n / 10) (String.◌∷◌ (digit (n % 10)) s))

-- Every character is a digit.
abbrev pub IsDigits : List ℕ → Type 0
IsDigits = All (λ c. (48 ≤ c) × (c ≤ 57))

digits_from-IsDigits :
    (f n : ℕ) (s : String) → IsDigits (codes s) → IsDigits (codes (digits_from f n s))
unfolding digits_from
digits_from-IsDigits zero n s h = h
digits_from-IsDigits (suc f) n s h =
    ground
      (arith, code-digit (n % 10), digits_from-IsDigits f (n / 10) (String.◌∷◌ (digit (n % 10)) s))

digits_from-injective :
    (m n : ℕ) → codes (digits_from (suc m) m "") ≡ codes (digits_from (suc n) n "") → m ≡ n
unfolding value
digits_from-injective m n e =
    omega (arith, value-digits_from (suc m) m "", value-digits_from (suc n) n "", ap (value 0) e)

minus_first : (s : List ℕ) {t : List ℕ} → IsDigits s → s ≡ 45 ∷ t → ⊥
minus_first [] h e = ground arith
minus_first (c ∷ s) h e = ground arith

-- Different identifiers are printed differently.
pub decimal-injective : (a b : ℤ) → codes (decimal a) ≡ codes (decimal b) → a ≡ b
unfolding decimal
decimal-injective (pos m) (pos n) e = ap pos (digits_from-injective m n e)
decimal-injective (negsuc m) (negsuc n) e = ground (arith, digits_from-injective (suc m) (suc n))
decimal-injective (pos m) (negsuc n) e =
    absurd (minus_first _ (digits_from-IsDigits (suc m) m "" tt) e)
decimal-injective (negsuc m) (pos n) e =
    absurd (minus_first _ (digits_from-IsDigits (suc n) n "" tt) (sym e))

digits_small : (s : List ℕ) → IsDigits s → All (λ c. c ≤ 57) s
digits_small [] h = tt
digits_small (c ∷ s) h = (h.0.1, digits_small s h.1)

-- Every character of a printed identifier stands at or below `9`.
decimal_small : (a : ℤ) → All (λ c. c ≤ 57) (codes (decimal a))
unfolding decimal
decimal_small (pos n) = digits_small _ (digits_from-IsDigits (suc n) n "" tt)
decimal_small (negsuc n) =
    (omega arith, digits_small _ (digits_from-IsDigits (suc (suc n)) (suc n) "" tt))

above : (sep : ℕ) (s : List ℕ) → 57 < sep → All (λ c. c ≤ 57) s → All (λ c. c ≢ sep) s
above sep [] h a = tt
above sep (c ∷ s) h a = (omega arith, above sep s h a.1)

-- No identifier is printed with a separator of the composed keys, such as `:` or `|`.
pub decimal_no_separator : (sep : ℕ) (a : ℤ) → 57 < sep → All (λ c. c ≢ sep) (codes (decimal a))
decimal_no_separator sep a h = above sep _ h (decimal_small a)

-- What stands before the first separator is determined, and so is the rest.
pub split_unique :
    (sep : ℕ) (s t r u : List ℕ)
    → All (λ c. c ≢ sep) s
    → All (λ c. c ≢ sep) t
    → s ++ sep ∷ r ≡ t ++ sep ∷ u
    → (s ≡ t) × (r ≡ u)
split_unique sep [] [] r u a b e = ground arith
split_unique sep [] (d ∷ t) r u a b e = absurd (ground arith)
split_unique sep (c ∷ s) [] r u a b e = absurd (ground arith)
split_unique sep (c ∷ s) (d ∷ t) r u a b e = ground (arith, split_unique sep s t r u a.1 b.1)

forty_two : decimal (negsuc 41) ≡ "-42"
unfolding decimal
forty_two = refl

-- Reading back what `%d` prints of a natural number.
pub value-decimal : (n : ℕ) → value 0 (codes (decimal (pos n))) ≡ n
unfolding decimal value
value-decimal n = omega (arith, value-digits_from (suc n) n "")

pub decimal-IsDigits : (n : ℕ) → IsDigits (codes (decimal (pos n)))
unfolding decimal
decimal-IsDigits n = digits_from-IsDigits (suc n) n "" tt

-- At least one digit is printed.
pub decimal_some : (n : ℕ) → codes (decimal (pos n)) ≢ []
unfolding decimal digits_from value
decimal_some zero h = ground arith
decimal_some (suc n) h = omega (arith, value-decimal (suc n), ap (value 0) h)
