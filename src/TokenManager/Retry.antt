-- ===== src/TokenManager/Retry.antt =====
-- The retry loop: how many requests it sends, and why it ends as it does.
use airgate_claude.Prelude.{
  ℕ, zero, suc, ◌+◌, ◌≤◌, ◌<◌, ◌≡◌, refl, true, false, Option, none, some, String, if◌then◌else◌,
  arith, ltb, ap, sym, ◌∙◌, inl, inr, Bool-cases, Option-cases,
}
use airgate_claude.TokenManager.{Result, TokenResponse, ok, err, is_non_retryable}
use airgate_claude.TokenManager.Refresh.{
  Attempt, Ending, refreshed, rejected, cancelled, exhausted, refresh_loop, one_more, after_answer,
  error_text,
}

-- The `j` requests from round `i` on were answered by errors that allow another try.
abbrev pub Retried : (ℕ → Attempt) → ℕ → ℕ → Type 0
Retried env i zero = Unit
Retried env i (suc j) =
    ((e : String) × ((env i).response ≡ err e) × (is_non_retryable e ≡ false))
    × Retried env (suc i) j

-- The error that is kept when all `left` rounds are used: that of the last of them, or the first one kept.
abbrev pub Kept : ℕ → ℕ → (ℕ → Attempt) → Option String → Option String → Type 0
Kept zero i env first last = last ≡ first
Kept (suc j) i env first last = (e : String) × (last ≡ some e) × ((env (i + j)).response ≡ err e)

-- Why a loop with `left` rounds from round `i`, which starts with the error `first`, ends so, after so
-- many requests.
abbrev pub Explains : ℕ → ℕ → (ℕ → Attempt) → Option String → Ending × ℕ → Type 0
Explains left i env first (refreshed r at, calls) =
    (j : ℕ) × (j < left)
    × (calls ≡ suc j)
    × Retried env i j
    × ((env (i + j)).response ≡ ok r)
    × (at ≡ (env (i + j)).at)
Explains left i env first (rejected e at, calls) =
    (j : ℕ) × (j < left)
    × (calls ≡ suc j)
    × Retried env i j
    × ((env (i + j)).response ≡ err e)
    × (is_non_retryable e ≡ true)
Explains left i env first (cancelled e, calls) =
    (j : ℕ) × (j < left)
    × (calls ≡ j)
    × Retried env i j
    × ((env (i + j)).ended ≡ some e)
    × (0 < i + j)
Explains left i env first (exhausted last at, calls) =
    (calls ≡ left)
    × Retried env i left
    × (is_non_retryable (error_text last) ≡ false)
    × Kept left i env first last

shift : (env : ℕ → Attempt) (i j : ℕ) → env (suc i + j) ≡ env (i + suc j)
shift env i j = ap env (omega arith)

zero_shift : (env : ℕ → Attempt) (i : ℕ) → env (i + 0) ≡ env i
zero_shift env i = ap env (omega arith)

Kept-suc :
    (left i : ℕ) (env : ℕ → Attempt) (first : Option String) (e : String) (last : Option String)
    → (env i).response ≡ err e
    → Kept left (suc i) env (some e) last
    → Kept (suc left) i env first last
Kept-suc zero i env first e last h k = (e, k, ap (λ x. x.response) (zero_shift env i) ∙ h)
Kept-suc (suc j) i env first e last h (f, k, g) =
    (f, k, ap (λ x. x.response) (sym (shift env i j)) ∙ g)

Explains-one_more :
    (left i : ℕ) (env : ℕ → Attempt) (first : Option String) (e : String) (p : Ending × ℕ)
    → (env i).response ≡ err e
    → is_non_retryable e ≡ false
    → Explains left (suc i) env (some e) p
    → Explains (suc left) i env first (one_more p)
unfolding one_more
Explains-one_more left i env first e (refreshed r at, calls) h n (j, lt, c, t, a, b) = (
  suc j,
  omega arith,
  ap suc c,
  ((e, h, n), t),
  ap (λ x. x.response) (sym (shift env i j)) ∙ a,
  b ∙ ap (λ x. x.at) (shift env i j),
)
Explains-one_more left i env first e (rejected f at, calls) h n (j, lt, c, t, a, b) = (
  suc j,
  omega arith,
  ap suc c,
  ((e, h, n), t),
  ap (λ x. x.response) (sym (shift env i j)) ∙ a,
  b,
)
Explains-one_more left i env first e (cancelled f, calls) h n (j, lt, c, t, a, b) = (
  suc j,
  omega arith,
  ap suc c,
  ((e, h, n), t),
  ap (λ x. x.ended) (sym (shift env i j)) ∙ a,
  omega arith,
)
Explains-one_more left i env first e (exhausted last at, calls) h n (c, t, b, k) =
    (ap suc c, ((e, h, n), t), b, Kept-suc left i env first e last h k)

ended_of_wait :
    (i : ℕ) (o : Option String) (e : String) → (if ltb 0 i then o else none) ≡ some e → o ≡ some e
ended_of_wait i o e h = ground arith

after_answer-Explains :
    (left i : ℕ) (env : ℕ → Attempt) (first : Option String) (a : Result TokenResponse)
    (rest : String → Ending × ℕ)
    → (env i).response ≡ a
    → ((e : String) → is_non_retryable e ≡ false → Explains left (suc i) env (some e) (rest e))
    → Explains (suc left) i env first (after_answer a (env i).at rest)
unfolding after_answer
after_answer-Explains left i env first (ok r) rest g ih = (
  0,
  omega arith,
  refl,
  tt,
  ap (λ x. x.response) (zero_shift env i) ∙ g,
  ap (λ x. x.at) (sym (zero_shift env i)),
)
after_answer-Explains left i env first (err e) rest g ih = elim (Bool-cases (is_non_retryable e)) [
  | inl final ↦
      rw (final, after_answer)
        (0, omega arith, refl, tt, ap (λ x. x.response) (zero_shift env i) ∙ g, final)
  | inr again ↦
      rw (again, after_answer) (Explains-one_more left i env first e (rest e) g again (ih e again))
]

pub refresh_loop-Explains :
    (left i : ℕ) (env : ℕ → Attempt) (last : Option String) (at : ℕ)
    → is_non_retryable (error_text last) ≡ false
    → Explains left i env last (refresh_loop left i env last at)
unfolding refresh_loop
refresh_loop-Explains zero i env last at h = (refl, tt, h, refl)
refresh_loop-Explains (suc left) i env last at h =
    elim (Option-cases (if ltb 0 i then (env i).ended else none)) [
      | inl going ↦
          rw (going, refresh_loop)
            (after_answer-Explains left i env last (env i).response _ refl
              (λ e n. refresh_loop-Explains left (suc i) env (some e) (env i).at n))
      | inr (e, stopped) ↦
          rw (stopped, refresh_loop)
            (
              0,
              omega arith,
              refl,
              tt,
              ap (λ x. x.ended) (zero_shift env i) ∙ ended_of_wait i (env i).ended e stopped,
              ground arith,
            )
    ]

pub calls-le :
    (left i : ℕ) (env : ℕ → Attempt) (first : Option String) (p : Ending × ℕ)
    → Explains left i env first p
    → p.1 ≤ left
calls-le left i env first (refreshed r at, calls) h = omega arith
calls-le left i env first (rejected e at, calls) h = omega arith
calls-le left i env first (cancelled e, calls) h = omega arith
calls-le left i env first (exhausted last at, calls) h = omega arith
