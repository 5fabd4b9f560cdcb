-- ===== src/TokenManager/Refresh.antt =====
-- `doRefresh`, `ensureSessionKeyExchange` and `ensureValidToken`, each under the account's lock.
-- The network, the clock and the caller's context are an `Attempt` for each request; how an instant
-- is printed and read (RFC 3339) are the parameters `format` and `parse`. Logging is left out.
use Prim.Native.String
use airgate_claude.Prelude.{
  ℕ, zero, suc, ◌-◌, Bool, true, false, ◌&&◌, [], ◌∷◌, ◌⊎◌, inl, inr, Option, none, some, String,
  string_key, int_key, ◌==◌, if◌then◌else◌, ltb,
}
use airgate_claude.GoMap.{put}
use airgate_claude.Limits.{add_seconds}
use airgate_claude.TokenManager.{
  Credentials, credential, Account, TokenResponse, Result, ok, err, State, Failure, refresh_error,
  context_error, is_non_retryable, expires_within, refresh_entry, fresh_credentials, remember_token,
  apply_update, token_refresh_skew, refresh_cooldown, max_refresh_retries,
}
use airgate_claude.TokenManager.States.{Manager, get_state, write_back}

-- One round of the retry loop: `ended` is the error of the context if it ends during the wait
-- before the request, `response` the answer to the request, `at` the time after the answer.
pub record Attempt : Type 0 where
  pub ended : Option String
  pub response : Result TokenResponse
  pub at : ℕ

-- How the loop ends.
pub data Ending : Type 0 where
  refreshed : TokenResponse → ℕ → Ending
  rejected : String → ℕ → Ending
  cancelled : String → Ending
  exhausted : Option String → ℕ → Ending

-- What a call leaves: `calls` counts the calls of `RefreshTokenForAccount`, one request each, or of
-- `ExchangeSessionKeyForToken`, whose requests are in OAuth/SessionKey.
pub record Done : Type 0 where
  pub result : Failure ⊎ Option Credentials
  pub account : Account
  pub state : State
  pub calls : ℕ

-- What the caller sees, and the manager with the state written back.
pub record Reply : Type 0 where
  pub result : Failure ⊎ Option Credentials
  pub account : Account
  pub calls : ℕ
  pub manager : Manager

abbrev finish : Done → Manager → Reply
finish d m = record {
  result = d.result;
  account = d.account;
  calls = d.calls;
  manager = write_back d.account.id d.state m;
}

unfoldable pub one_more : Ending × ℕ → Ending × ℕ
one_more (ending, calls) = (ending, suc calls)

-- One answer: a success or a final error ends the loop, another error goes on with `rest`.
unfoldable pub after_answer : Result TokenResponse → ℕ → (String → Ending × ℕ) → Ending × ℕ
unfolding one_more
after_answer (ok r) now rest = (refreshed r now, 1)
after_answer (err e) now rest =
    if is_non_retryable e then (rejected e now, 1) else one_more (rest e)

-- The loop of `doRefresh` with `left` rounds to go; `attempt` is its variable.
unfoldable pub refresh_loop : ℕ → ℕ → (ℕ → Attempt) → Option String → ℕ → Ending × ℕ
unfolding after_answer
refresh_loop zero attempt env last at = (exhausted last at, 0)
refresh_loop (suc left) attempt env last at =
    let now = (env attempt).at in
    elim (if ltb 0 attempt then (env attempt).ended else none) [
      | none ↦
          after_answer (env attempt).response now
            (λ e. refresh_loop left (suc attempt) env (some e) now)
      | some e ↦ (cancelled e, 0)
    ]

-- The double check: another goroutine may have refreshed while this one waited for the lock.
unfoldable pub reuse : Credentials → Account → State → Done
reuse updated a s =
    let (creds, changed) = apply_update a.credentials updated in
    record {
      result = inr (if changed then some updated else none);
      account = record a { credentials = creds };
      state = s;
      calls = 0;
    }

abbrev recent : ℕ → Option ℕ → Bool
recent now none = false
recent now (some at) = ltb (now - at) refresh_cooldown

-- The error for which the account is in its cooldown.
unfoldable pub in_cooldown : ℕ → State → Option String
in_cooldown now s = elim s.last_error [
  | none ↦ none
  | some e ↦ if recent now s.last_error_at && is_non_retryable e then some e else none
]

abbrev fail : Failure → Account → State → ℕ → Done
fail f a s calls = record { result = inl f; account = a; state = s; calls = calls }

abbrev remember_error : Option String → ℕ → State → State
remember_error e at s = record s { last_error = e; last_error_at = some at }

abbrev pub error_text : Option String → String
error_text none = ""
error_text (some e) = e

abbrev put_refresh : String → Credentials → Credentials
put_refresh token creds = if token == "" then creds else put "refresh_token" token creds

module _ (format : ℕ → String) where
  -- A refresh that succeeded at the time `at`.
  unfoldable pub accept : TokenResponse → ℕ → ℕ → Account → State → Done
  accept r at calls a s =
      let expires_at = add_seconds at r.expires_in in
      let raw = format expires_at in
      let old = credential "refresh_token" a.credentials in
      let creds = put "expires_at" raw (put "access_token" r.access_token a.credentials) in
      record {
        result = inr (
            some (
              ("access_token", r.access_token)
              ∷ ("expires_at", raw)
              ∷ refresh_entry r.refresh_token));
        account = record a { credentials = put_refresh r.refresh_token creds };
        state =
            remember_token r.access_token (if r.refresh_token == "" then old else r.refresh_token)
              expires_at raw at s;
        calls = calls;
      }

  unfoldable pub settle : Ending × ℕ → Account → State → Done
  unfolding accept
  settle (refreshed r at, calls) a s = accept r at calls a s
  settle (rejected e at, calls) a s =
      fail (refresh_error e true) a (remember_error (some e) at s) calls
  settle (cancelled e, calls) a s = fail (context_error e) a s calls
  settle (exhausted last at, calls) a s =
      fail (refresh_error (error_text last) false) a (remember_error last at s) calls

  -- `doRefresh` under the lock of the account's state.
  unfoldable pub refresh_locked : ℕ → (ℕ → Attempt) → Account → State → Done
  unfolding reuse in_cooldown settle refresh_loop
  refresh_locked now env a s = elim (fresh_credentials now token_refresh_skew s) [
    | some updated ↦ reuse updated a s
    | none ↦ elim (in_cooldown now s) [
      | some e ↦ fail (refresh_error e true) a s 0
      | none ↦ settle (refresh_loop (suc max_refresh_retries) 0 env none now) a s
    ]
  ]

  unfoldable pub do_refresh : ℕ → (ℕ → Attempt) → Account → Manager → Reply
  unfolding refresh_locked
  do_refresh now env a m =
      let (s, m') = get_state now a.id m in finish (refresh_locked now env a s) m'

  abbrev unchanged : Account → State → Done
  unchanged a s = record { result = inr none; account = a; state = s; calls = 0 }

  -- The exchange that succeeded; it overwrites the refresh token even by an empty one.
  accept_exchange : TokenResponse → ℕ → Account → State → Done
  accept_exchange r at a s =
      let expires_at = add_seconds at r.expires_in in
      let raw = format expires_at in
      record {
        result = inr (
            some (
              ("access_token", r.access_token)
              ∷ ("refresh_token", r.refresh_token)
              ∷ ("expires_at", raw)
              ∷ []));
        account = record a {
          credentials = put "expires_at" raw (
              put "refresh_token" r.refresh_token
                (put "access_token" r.access_token a.credentials));
        };
        state = remember_token r.access_token r.refresh_token expires_at raw at s;
        calls = 1;
      }

  abbrev exchange_failed : String → Failure
  exchange_failed e = refresh_error (String.◌++◌ "session key 换取 token 失败: " e) (is_non_retryable e)

  -- `ensureSessionKeyExchange` under the lock; the first answer of `env` is the exchange's.
  unfoldable pub exchange_locked : ℕ → (ℕ → Attempt) → Account → State → Done
  unfolding reuse accept_exchange
  exchange_locked now env a s = elim (fresh_credentials now token_refresh_skew s) [
    | some updated ↦ reuse updated a s
    | none ↦
        if credential "access_token" a.credentials == ""
        then elim (env 0).response [
          | ok r ↦ accept_exchange r (env 0).at a s
          | err e ↦ fail (exchange_failed e) a s 1
        ]
        else unchanged a s
  ]

  unfoldable pub session_key_exchange : ℕ → (ℕ → Attempt) → Account → Manager → Reply
  unfolding exchange_locked
  session_key_exchange now env a m =
      if credential "session_key" a.credentials == ""
      then record {
        result = inl (refresh_error "session key 账号缺少 session_key" true);
        account = a;
        calls = 0;
        manager = m;
      }
      else let (s, m') = get_state now a.id m in finish (exchange_locked now env a s) m'

  module _ (parse : String → Option ℕ) where
    -- The guards of `ensureValidToken` behind the one for session keys: is a refresh due?
    unfoldable pub refresh_due : ℕ → Account → Bool
    refresh_due now a =
        if credential "refresh_token" a.credentials == ""
        then false
        else if credential "expires_at" a.credentials == ""
        then false
        else elim (parse (credential "expires_at" a.credentials)) [
          | none ↦ false
          | some at ↦ expires_within now token_refresh_skew at
        ]

    abbrev pub needs_exchange : Account → Bool
    needs_exchange a = a.kind == "session_key" && credential "access_token" a.credentials == ""

    unfoldable pub ensure_valid_token : ℕ → (ℕ → Attempt) → Account → Manager → Reply
    unfolding refresh_due
    ensure_valid_token now env a m =
        if needs_exchange a
        then session_key_exchange now env a m
        else if refresh_due now a
        then do_refresh now env a m
        else record { result = inr none; account = a; calls = 0; manager = m }
