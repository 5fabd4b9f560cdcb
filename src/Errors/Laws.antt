-- ===== src/Errors/Laws.antt =====
-- When an account is blamed, and what a Retry-After header means.
mod Examples
use airgate_claude.Prelude.{
  ℕ, suc, zero, ◌+◌, ◌-◌, ◌*◌, ◌%◌, ◌^◌, ◌≤◌, ◌<◌, ◌≡◌, refl, ◌≢◌, ◌↔◌, ◌⊎◌, inl, inr, Bool, true,
  false, not, ◌&&◌, ◌||◌, List, [], ◌∷◌, Option, none, some, String, string_key, ◌==◌,
  if◌then◌else◌, leb, ltb, nat_eq, arith, All, ap, ◌∙◌, subst, sym,
}
use text.Mathlib.TextEquality.{eq_iff}
use airgate_claude.Prelude.Int.{ℤ, pos}
use airgate_claude.Prelude.Text.{codes}
use airgate_claude.Prelude.Decimal.{
  decimal, value, value-decimal, IsDigits, decimal-IsDigits, decimal_some,
}
use airgate_claude.Limits.{second}
use airgate_claude.Errors.{
  OutcomeKind, success, account_dead, account_rate_limited, client_error, upstream_transient,
  classify_http_failure, is_disabled_account_text, failure_outcome, read_digits, all_digits, atoi,
  positive, extract_retry_after, to_duration, wrap, max_int, Outcome,
}

-- The upstream's answer blames the account.
abbrev pub BlamesAccount : ℕ → String → Type 0
BlamesAccount status message =
    (status ≡ 401) ⊎ (status ≡ 403) ⊎ ((status ≡ 400) × (is_disabled_account_text message ≡ true))

-- An account is declared dead exactly on the statuses 401 and 403, and on a 400 whose message says
-- that the account is disabled, deactivated or suspended. It is rate limited exactly on 429. No
-- status from 400 on is a success, and every status below is.
pub classify_http_failure_lem :
    (status : ℕ) (message : String)
    → ((classify_http_failure status message ≡ account_dead) ↔ BlamesAccount status message)
      × ((classify_http_failure status message ≡ account_rate_limited) ↔ (status ≡ 429))
      × ((classify_http_failure status message ≡ success) ↔ (status < 400))
unfolding classify_http_failure
classify_http_failure_lem status message = (ground arith, ground arith, ground arith)

read_digits-IsDigits : (n : ℕ) (s : List ℕ) → IsDigits s → read_digits n s ≡ (value n s, [])
unfolding read_digits value
read_digits-IsDigits n [] h = refl
read_digits-IsDigits n (c ∷ s) h = ground (arith, read_digits-IsDigits (n * 10 + (c - 48)) s h.1)

atoi-IsDigits :
    (s : List ℕ) → IsDigits s → s ≢ [] → value 0 s ≤ max_int → atoi s ≡ some (pos (value 0 s))
unfolding atoi all_digits positive
atoi-IsDigits [] h n b = absurd (n refl)
atoi-IsDigits (c ∷ s) h n b = ground (arith, read_digits-IsDigits 0 (c ∷ s) h)

to_duration_small : (n : ℕ) → n * second < 2 ^ 63 → to_duration (pos n) ≡ pos (n * second)
unfolding to_duration wrap
to_duration_small n h =
    let same : n * second % 2 ^ 64 ≡ n * second = omega arith in rw same (ground arith)

decimal_not_empty : (n : ℕ) → (decimal (pos n) == "") ≡ false
decimal_not_empty n =
    let clash : decimal (pos n) ≡ "" → ⊥ = λ e. decimal_some n (ap codes e) in
    ground (arith, eq_iff (decimal (pos n)) "", clash)

-- A Retry-After header that gives a number of seconds is that duration, for every number of seconds
-- that a duration can hold.
pub extract_retry_after-decimal :
    (n : ℕ) → n * second < 2 ^ 63 → extract_retry_after (decimal (pos n)) ≡ pos (n * second)
unfolding extract_retry_after
extract_retry_after-decimal n h =
    let digits = decimal-IsDigits n in
    let small : value 0 (codes (decimal (pos n))) ≤ max_int = omega (arith, value-decimal n) in
    let read : atoi (codes (decimal (pos n))) ≡ some (pos n) =
      atoi-IsDigits _ digits (decimal_some n) small ∙ ap (λ m. some (pos m)) (value-decimal n) in
    rw (decimal_not_empty n) (rw read (to_duration_small n h))
