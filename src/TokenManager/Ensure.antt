-- ===== src/TokenManager/Ensure.antt =====
-- `ensureValidToken` as a whole: what it costs, what a failure leaves, and how failures are classed.
use airgate_claude.Prelude.{
  ℕ, suc, ◌-◌, ◌≤◌, ◌<◌, ◌≡◌, refl, true, false, Option, none, some, String, string_key, arith, sym,
  inl, inr, Option-cases,
}
use airgate_claude.TokenManager.{
  Account, State, refresh_error, context_error, is_non_retryable, fresh_credentials,
  token_refresh_skew, refresh_cooldown, max_refresh_retries,
}
use airgate_claude.TokenManager.States.{Manager, get_state}
use airgate_claude.TokenManager.Refresh.{
  Attempt, Ending, refreshed, rejected, cancelled, exhausted, Done, Reply, reuse, in_cooldown,
  accept, settle, refresh_loop, refresh_locked, do_refresh, exchange_locked, session_key_exchange,
  refresh_due, needs_exchange, ensure_valid_token,
}
use airgate_claude.TokenManager.Retry.{Explains, refresh_loop-Explains, calls-le}

module _ (format : ℕ → String) where
  -- The class of a failure is the one that its error text calls for, and the account is as before.
  abbrev pub Classed : Account → Done → Type 0
  Classed a d = elim d.result [
    | inl f ↦ elim f [
      | refresh_error e fault ↦ (fault ≡ is_non_retryable e) × (d.account ≡ a)
      | context_error e ↦ d.account ≡ a
    ]
    | inr updated ↦ Unit {0}
  ]

  settle-calls : (p : Ending × ℕ) (a : Account) (s : State) → (settle format p a s).calls ≡ p.1
  unfolding settle accept
  settle-calls (refreshed r at, calls) a s = refl
  settle-calls (rejected e at, calls) a s = refl
  settle-calls (cancelled e, calls) a s = refl
  settle-calls (exhausted last at, calls) a s = refl

  settle-Classed :
      (left i : ℕ) (env : ℕ → Attempt) (first : Option String) (p : Ending × ℕ) (a : Account)
      (s : State)
      → Explains left i env first p
      → Classed a (settle format p a s)
  unfolding settle accept
  settle-Classed left i env first (refreshed r at, calls) a s h = tt
  settle-Classed left i env first (rejected e at, calls) a s (j, lt, c, t, g, final) =
      (sym final, refl)
  settle-Classed left i env first (cancelled e, calls) a s h = refl
  settle-Classed left i env first (exhausted last at, calls) a s (c, t, again, kept) =
      (sym again, refl)

  cooldown-final :
      (now : ℕ) (s : State) (e : String) → in_cooldown now s ≡ some e → is_non_retryable e ≡ true
  unfolding in_cooldown
  cooldown-final now s e h = ground arith

  attempts : ℕ → (ℕ → Attempt) → Ending × ℕ
  attempts now env = refresh_loop (suc max_refresh_retries) 0 env none now

  empty_error : is_non_retryable "" ≡ false
  unfolding is_non_retryable
  empty_error = refl

  attempts-Explains :
      (now : ℕ) (env : ℕ → Attempt)
      → Explains (suc max_refresh_retries) 0 env none (attempts now env)
  unfolding attempts
  attempts-Explains now env =
      refresh_loop-Explains (suc max_refresh_retries) 0 env none now empty_error

  -- Under the lock a refresh sends at most three requests. If it fails, the account is as it was, and
  -- the failure counts against the account exactly when the error text is one that allows no retry.
  pub refresh_locked_lem :
      (now : ℕ) (env : ℕ → Attempt) (a : Account) (s : State)
      → let d = refresh_locked format now env a s in (d.calls ≤ 3) × Classed a d
  unfolding refresh_locked reuse attempts
  refresh_locked_lem now env a s =
      elim (Option-cases (fresh_credentials now token_refresh_skew s)) [
        | inr (updated, fresh) ↦ rw (fresh, refresh_locked) (omega arith, tt)
        | inl stale ↦ elim (Option-cases (in_cooldown now s)) [
          | inr (e, cool) ↦
              rw (stale, refresh_locked)
                (rw cool (omega arith, (sym (cooldown-final now s e cool), refl)))
          | inl warm ↦
              let why = attempts-Explains now env in
              rw (stale, refresh_locked)
                (rw warm (
                  omega (
                    arith,
                    calls-le 3 0 env none (attempts now env) why,
                    settle-calls (attempts now env) a s,
                  ),
                  settle-Classed 3 0 env none (attempts now env) a s why,
                ))
        ]
      ]

  -- A state in which no fresh token is known at one time knows none later.
  fresh_credentials-later :
      (now later : ℕ) (s : State)
      → now ≤ later
      → fresh_credentials now token_refresh_skew s ≡ none
      → fresh_credentials later token_refresh_skew s ≡ none
  unfolding fresh_credentials
  fresh_credentials-later now later s le h = ground (arith, le, h)

  -- What a loop that sent a request and ended with a failure of the account leaves.
  settle-rejected :
      (left i : ℕ) (env : ℕ → Attempt) (first : Option String) (p : Ending × ℕ) (a : Account)
      (s : State) (e : String)
      → Explains left i env first p
      → (settle format p a s).result ≡ inl (refresh_error e true)
      → ((settle format p a s).state.last_error ≡ some e)
        × (is_non_retryable e ≡ true)
        × ((settle format p a s).state.last_expires_at ≡ s.last_expires_at)
        × ((settle format p a s).state.last_token ≡ s.last_token)
  unfolding settle accept
  settle-rejected left i env first (refreshed r at, calls) a s e h g = absurd (cc)
  settle-rejected left i env first (rejected f at, calls) a s e (j, lt, c, t, k, final) g =
      ground (arith, g, final)
  settle-rejected left i env first (cancelled f, calls) a s e h g = absurd (cc)
  settle-rejected left i env first (exhausted last at, calls) a s e h g = absurd (ground (arith, g))

  stale_as :
      (s t : State) (now : ℕ)
      → t.last_expires_at ≡ s.last_expires_at
      → t.last_token ≡ s.last_token
      → fresh_credentials now token_refresh_skew s ≡ none
      → fresh_credentials now token_refresh_skew t ≡ none
  unfolding fresh_credentials
  stale_as s t now h k f = ground (arith, h, k, f)

  -- What a refresh that sent a request and failed by the account's fault leaves in the state.
  refresh_locked-rejected :
      (now : ℕ) (env : ℕ → Attempt) (a : Account) (s : State) (e : String)
      → let d = refresh_locked format now env a s in
        0 < d.calls
        → d.result ≡ inl (refresh_error e true)
        → (d.state.last_error ≡ some e)
          × (is_non_retryable e ≡ true)
          × (fresh_credentials now token_refresh_skew d.state ≡ none)
  unfolding refresh_locked reuse attempts
  refresh_locked-rejected now env a s e =
      elim (Option-cases (fresh_credentials now token_refresh_skew s)) [
        | inr (updated, fresh) ↦ rw (fresh, refresh_locked) (λ h g. absurd (omega (arith, h)))
        | inl stale ↦ elim (Option-cases (in_cooldown now s)) [
          | inr (f, cool) ↦ rw (stale, refresh_locked) (rw cool (λ h g. absurd (omega (arith, h))))
          | inl warm ↦
              rw (stale, refresh_locked)
                (rw warm (λ h g.
                  let (x, y, z, w) =
                    settle-rejected 3 0 env none (attempts now env) a s e
                      (attempts-Explains now env) g in
                  (x, y, stale_as s (settle format (attempts now env) a s).state now z w stale)))
        ]
      ]

  cools :
      (later at : ℕ) (e : String) (t : State)
      → t.last_error ≡ some e
      → is_non_retryable e ≡ true
      → t.last_error_at ≡ some at
      → later - at < refresh_cooldown
      → in_cooldown later t ≡ some e
  unfolding in_cooldown
  cools later at e t h k w soon = ground (arith, soon, h, k, w)

  -- After a refresh that was sent and that failed by the account's fault, every refresh of any copy of the
  -- account within the cooldown fails at once with the same error: it sends nothing and changes neither
  -- the copy nor the state, whatever the token endpoint would answer.
  pub refresh_locked_cooldown :
      (now later at : ℕ) (e : String) (env env' : ℕ → Attempt) (a b : Account) (s : State)
      → let d = refresh_locked format now env a s in
        0 < d.calls
        → d.result ≡ inl (refresh_error e true)
        → d.state.last_error_at ≡ some at
        → now ≤ later
        → later - at < refresh_cooldown
        → refresh_locked format later env' b d.state
          ≡ record { result = inl (refresh_error e true); account = b; state = d.state; calls = 0 }
  unfolding refresh_locked
  refresh_locked_cooldown now later at e env env' a b s sent failed when le soon =
      let d = refresh_locked format now env a s in
      let (error, final, stale) = refresh_locked-rejected now env a s e sent failed in
      rw (fresh_credentials-later now later d.state le stale, refresh_locked)
        (rw (cools later at e d.state error final when soon))

  module _ (parse : String → Option ℕ) where
    -- An account whose token is not near its expiry, or that lacks a refresh token or a readable
    -- expiry, is left alone: no request is sent, no state is looked up, and there is nothing to store.
    pub ensure_valid_token_idle :
        (now : ℕ) (env : ℕ → Attempt) (a : Account) (m : Manager)
        → needs_exchange format parse a ≡ false
        → refresh_due format parse now a ≡ false
        → ensure_valid_token format parse now env a m
          ≡ record { result = inr none; account = a; calls = 0; manager = m }
    unfolding ensure_valid_token
    ensure_valid_token_idle now env a m exchange due = ground arith

    abbrev pub KeepsOnFailure : Account → Reply → Type 0
    KeepsOnFailure a r = elim r.result [ inl f ↦ r.account ≡ a | inr updated ↦ Unit {0} ]

    abbrev DoneKeeps : Account → Done → Type 0
    DoneKeeps a d = elim d.result [ inl f ↦ d.account ≡ a | inr updated ↦ Unit {0} ]

    exchange_locked_lem :
        (now : ℕ) (env : ℕ → Attempt) (a : Account) (s : State)
        → let d = exchange_locked format now env a s in (d.calls ≤ 1) × DoneKeeps a d
    unfolding exchange_locked reuse
    exchange_locked_lem now env a s = ground arith

    -- Every call of `ensureValidToken` asks for a refresh at most three times, or for the exchange of the
    -- session key at most once where the account has no access token, and a call that fails leaves the
    -- account's credentials as they were.
    pub ensure_valid_token_lem :
        (now : ℕ) (env : ℕ → Attempt) (a : Account) (m : Manager)
        → let r = ensure_valid_token format parse now env a m in
          (r.calls ≤ 3) × (needs_exchange format parse a ≡ true → r.calls ≤ 1) × KeepsOnFailure a r
    unfolding ensure_valid_token do_refresh session_key_exchange
    ensure_valid_token_lem now env a m =
        let s = (get_state now a.id m).0 in
        let x = exchange_locked_lem now env a s in
        let y = refresh_locked_lem now env a s in ground (arith, x, y)
