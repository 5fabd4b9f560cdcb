-- ===== src/TokenManager.antt =====
-- internal/gateway/token_manager.go: the refresh of OAuth tokens. This file has the data, the state
-- of one account and its helpers; `States` the map of the states, `Refresh` the operations.
-- Instants are nanoseconds; `none` for an instant is Go's zero time, `none` for an error is nil.
pub mod States
pub mod Refresh
pub mod Retry
pub mod Reuse
pub mod Stored
mod Examples
pub mod Ensure
use airgate_claude.Prelude.{
  ℕ, ◌+◌, ◌-◌, ◌*◌, ◌≡◌, Bool, true, false, ◌||◌, ◌&&◌, not, List, [], ◌∷◌, ◌++◌, Option, none,
  some, String, string_key, ◌==◌, if◌then◌else◌, leb, ltb, any,
}
use airgate_claude.Prelude.Int.{ℤ}
use airgate_claude.Prelude.Text.{codes, to_lower, contains}
use airgate_claude.GoMap.{Map, get, put}
use airgate_claude.Limits.{Limits, hour, minute, second}

abbrev pub token_refresh_skew : ℕ
token_refresh_skew = 3 * minute

abbrev pub refresh_cooldown : ℕ
refresh_cooldown = 60 * second

abbrev pub max_refresh_retries : ℕ
max_refresh_retries = 2

abbrev pub token_state_limits : Limits
token_state_limits = record {
  max_entries = 100000;
  idle_ttl = 24 * hour;
  cleanup_interval = 30 * minute;
}

-- A nil map of credentials is the empty one: both answer "" to every key.
abbrev pub Credentials : Type 0
Credentials = Map String String

-- `credentials[key]`
unfoldable pub credential : String → Credentials → String
credential key m = elim (get key m) [ none ↦ "" | some v ↦ v ]

-- The fields of `sdk.Account` that the gateway reads.
pub record Account : Type 0 where
  pub id : ℤ
  pub kind : String
  pub proxy_url : String
  pub credentials : Credentials

-- `TokenResponse`, as far as the manager reads it.
pub record TokenResponse : Type 0 where
  pub access_token : String
  pub refresh_token : String
  pub expires_in : ℕ

pub data Result (A : Type 0) : Type 0 where
  ok : A → Result A
  err : String → Result A

pub record State : Type 0 where
  pub last_refresh_at : Option ℕ
  pub last_token : String
  pub last_refresh_token : String
  pub last_expires_at : Option ℕ
  pub last_expires_at_raw : String
  pub last_error : Option String
  pub last_error_at : Option ℕ
  pub last_seen_at : ℕ

abbrev pub new_state : ℕ → State
new_state now = record {
  last_refresh_at = none;
  last_token = "";
  last_refresh_token = "";
  last_expires_at = none;
  last_expires_at_raw = "";
  last_error = none;
  last_error_at = none;
  last_seen_at = now;
}

-- What a failed call returns: a `tokenRefreshError`, or the error of a context that ended.
pub data Failure : Type 0 where
  refresh_error : String → Bool → Failure
  context_error : String → Failure

-- `isAccountTokenRefreshError`
unfoldable pub is_account_error : Failure → Bool
is_account_error (refresh_error message account_fault) = account_fault
is_account_error (context_error message) = false

abbrev pub non_retryable_keywords : List String
non_retryable_keywords =
    "invalid_grant" ∷ "invalid_client" ∷ "unauthorized_client" ∷ "access_denied"
    ∷ "missing_project_id" ∷ "no refresh token available" ∷ []

-- `isNonRetryableRefreshError` of an error that is not nil, by its text.
unfoldable pub is_non_retryable : String → Bool
unfolding to_lower contains
is_non_retryable message =
    any (λ keyword. contains (to_lower message) (codes keyword)) non_retryable_keywords

-- `time.Until(at) <= skew`
abbrev pub expires_within : ℕ → ℕ → ℕ → Bool
expires_within now skew at = leb (at - now) skew

abbrev pub refresh_entry : String → Credentials
refresh_entry token = if token == "" then [] else ("refresh_token", token) ∷ []

-- `none` is a nil map.
unfoldable pub fresh_credentials : ℕ → ℕ → State → Option Credentials
fresh_credentials now skew s = elim s.last_expires_at [
  | none ↦ none
  | some at ↦
      if s.last_token == "" || expires_within now skew at
      then none
      else some (
          ("access_token", s.last_token)
          ∷ ("expires_at", s.last_expires_at_raw)
          ∷ refresh_entry s.last_refresh_token)
]

unfoldable pub remember_token : String → String → ℕ → String → ℕ → State → State
remember_token access refresh expires_at raw now s = record s {
  last_refresh_at = some now;
  last_token = access;
  last_refresh_token = refresh;
  last_expires_at = some expires_at;
  last_expires_at_raw = raw;
  last_error = none;
  last_error_at = none;
}

-- `account.Credentials[key] != value`, for a value that is not skipped
abbrev pub differs : Credentials → String → String → Bool
differs creds key value = not (value == "") && not (credential key creds == value)

abbrev pub apply_one : Credentials → String → String → Credentials
apply_one creds key value = if differs creds key value then put key value creds else creds

-- The loop of `applyCredentialUpdate`; with an empty update it changes nothing.
unfoldable pub apply_update : Credentials → Credentials → Credentials × Bool
apply_update creds [] = (creds, false)
apply_update creds ((key, value) ∷ updated) =
    let (rest, changed) = apply_update (apply_one creds key value) updated in
    (rest, differs creds key value || changed)
