-- ===== src/TokenManager/Examples.antt =====
-- Concrete accounts and upstream answers: the theorems at inputs that meet their hypotheses.
use airgate_claude.Prelude.{
  ℕ, ◌+◌, ◌*◌, ◌≤◌, ◌≡◌, refl, true, [], ◌∷◌, Option, none, some, String, string_key, arith, inl,
  inr,
}
use airgate_claude.Prelude.Int.{pos}
use airgate_claude.GoMap.{get}
use airgate_claude.Limits.{second, hour, add_seconds}
use airgate_claude.TokenManager.{
  Account, TokenResponse, ok, err, State, new_state, refresh_error, credential, is_non_retryable,
  fresh_credentials, remember_token, apply_update,
}
use airgate_claude.TokenManager.States.{new_manager, get_state, get_state-IsValid, IsValid}
use airgate_claude.TokenManager.Refresh.{
  Attempt, accept, refresh_loop, refresh_locked, ensure_valid_token, needs_exchange, after_answer,
  settle, in_cooldown, reuse,
}
use airgate_claude.TokenManager.Reuse.{refresh_locked_reuses}
use airgate_claude.TokenManager.Stored.{Holds, refresh_locked-Holds}
use airgate_claude.TokenManager.Ensure.{
  Classed, KeepsOnFailure, refresh_locked_lem, refresh_locked_cooldown, ensure_valid_token_lem,
}

abbrev printed : ℕ → String
printed t = "2026-01-01T00:00:00Z"

abbrev parsed : String → Option ℕ
parsed s = some (2 * hour)

abbrev account : Account
account = record {
  id = pos 7;
  kind = "oauth";
  proxy_url = "";
  credentials =
      ("access_token", "old")
      ∷ ("refresh_token", "r0")
      ∷ ("expires_at", "2026-01-01T00:00:00Z")
      ∷ [];
}

abbrev answer : TokenResponse
answer = record { access_token = "new"; refresh_token = "r1"; expires_in = 3600 }

abbrev works : ℕ → Attempt
works i = record { ended = none; response = ok answer; at = hour }

abbrev times_out : ℕ → Attempt
times_out i = record { ended = none; response = err "timeout"; at = hour }

abbrev empty : State
empty = new_state 0

refresh_locked_reuses_example :
    (refresh_locked printed hour times_out account
      (accept printed answer hour 1 account empty).state).calls
    ≡ 0
unfolding credential get add_seconds
refresh_locked_reuses_example =
    (refresh_locked_reuses printed (λ t. refl) answer hour 1 hour times_out account account empty
      refl refl (omega arith)).0

-- The state after a refresh, and the other copy that takes it over.
abbrev refreshed_state : State
refreshed_state = (accept printed answer hour 1 account empty).state

refresh_locked-Holds_example :
    Holds (refresh_locked printed hour times_out account refreshed_state).account.credentials (
      ("access_token", "new")
      ∷ ("expires_at", "2026-01-01T00:00:00Z")
      ∷ ("refresh_token", "r1")
      ∷ [])
unfolding refresh_locked fresh_credentials accept remember_token reuse apply_update credential get
    add_seconds
refresh_locked-Holds_example =
    (refresh_locked-Holds printed (λ t. refl) hour times_out account refreshed_state (inr refl)).0 _
      refl

refresh_locked_lem_example :
    ((refresh_locked printed 0 times_out account empty).calls ≤ 3)
    × Classed printed account (refresh_locked printed 0 times_out account empty)
refresh_locked_lem_example = refresh_locked_lem printed 0 times_out account empty

abbrev revoked : ℕ → Attempt
revoked i = record { ended = none; response = err "invalid_grant"; at = hour }

abbrev after_refusal : State
after_refusal = (refresh_locked printed hour revoked account empty).state

refresh_locked_cooldown_example :
    refresh_locked printed (hour + second) works account after_refusal ≡ record {
      result = inl (refresh_error "invalid_grant" true);
      account = account;
      state = after_refusal;
      calls = 0;
    }
unfolding refresh_locked refresh_loop after_answer settle in_cooldown is_non_retryable
    fresh_credentials
refresh_locked_cooldown_example =
    refresh_locked_cooldown printed hour (hour + second) hour "invalid_grant" revoked works account
      account empty (omega arith) refl refl (omega arith) (omega arith)

ensure_valid_token_lem_example :
    ((ensure_valid_token printed parsed (2 * hour) times_out account (new_manager 0)).calls ≤ 3)
    × (needs_exchange printed parsed account ≡ true
        → (ensure_valid_token printed parsed (2 * hour) times_out account (new_manager 0)).calls
          ≤ 1)
    × KeepsOnFailure printed parsed account
        (ensure_valid_token printed parsed (2 * hour) times_out account (new_manager 0))
ensure_valid_token_lem_example =
    ensure_valid_token_lem printed parsed (2 * hour) times_out account (new_manager 0)

get_state-IsValid_example : IsValid (get_state 5 (pos 7) (new_manager 0)).1
unfolding new_manager
get_state-IsValid_example =
    get_state-IsValid 5 (pos 7) (new_manager 0) (record { distinct = tt; bounded = omega arith })
