-- ===== src/TokenManager/Reuse.antt =====
-- The double check under the lock: who waits for a refresh takes over its tokens.
use airgate_claude.Prelude.{
  ℕ, ◌-◌, ◌<◌, ◌≡◌, refl, false, not, ◌&&◌, [], ◌∷◌, some, String, string_key, ◌==◌, if◌then◌else◌,
  arith, ap, ◌∙◌,
}
use text.Mathlib.TextEquality.{eq_iff}
use airgate_claude.GoMap.{put}
use airgate_claude.GoMap.Laws.{get-put}
use airgate_claude.Limits.{add_seconds}
use airgate_claude.TokenManager.{
  Credentials, credential, Account, TokenResponse, State, refresh_entry, fresh_credentials,
  remember_token, apply_one, apply_update, token_refresh_skew,
}
use airgate_claude.TokenManager.Refresh.{Attempt, reuse, accept, refresh_locked}

pub credential-put :
    (k j v : String) (m : Credentials)
    → credential j (put k v m) ≡ (if k == j then v else credential j m)
unfolding credential
credential-put k j v m = ground (arith, get-put k j v m)

-- What an update leaves under a key that had the value `old`: empty values are passed over.
abbrev pub updated_value : String → String → Credentials → String
updated_value j old [] = old
updated_value j old ((k, v) ∷ u) = updated_value j (if k == j && not (v == "") then v else old) u

apply_step :
    (j key value : String) (creds : Credentials)
    → credential j (apply_one creds key value)
      ≡ (if key == j && not (value == "") then value else credential j creds)
apply_step j key value creds = ground (
  arith,
  credential-put key j value creds,
  eq_iff key j,
  eq_iff value "",
  eq_iff (credential key creds) value,
)

-- `applyCredentialUpdate` leaves under every key the last value of the update that is not empty, and
-- the old value where there is none; when it reports no change, the credentials are the old ones.
pub credential-apply_update :
    (j : String) (creds u : Credentials)
    → credential j (apply_update creds u).0 ≡ updated_value j (credential j creds) u
unfolding apply_update
credential-apply_update j creds [] = refl
credential-apply_update j creds ((k, v) ∷ u) =
    credential-apply_update j (apply_one creds k v) u
    ∙ ap (λ old. updated_value j old u) (apply_step j k v creds)

pub apply_update_same :
    (creds u : Credentials) → (apply_update creds u).1 ≡ false → (apply_update creds u).0 ≡ creds
unfolding apply_update
apply_update_same creds [] h = refl
apply_update_same creds ((k, v) ∷ u) h =
    ground (arith, apply_update_same creds u, apply_update_same (put k v creds) u)

fresh_after_accept :
    (format : ℕ → String) (r : TokenResponse) (at calls now : ℕ) (a : Account) (s : State)
    → (r.access_token == "") ≡ false
    → token_refresh_skew < add_seconds at r.expires_in - now
    → fresh_credentials now token_refresh_skew (accept format r at calls a s).state
      ≡ some (
          ("access_token", r.access_token)
          ∷ ("expires_at", format (add_seconds at r.expires_in))
          ∷ refresh_entry (
              if r.refresh_token == ""
              then credential "refresh_token" a.credentials
              else r.refresh_token))
unfolding fresh_credentials accept remember_token
fresh_after_accept format r at calls now a s ne h = ground arith

pub reuse-credential :
    (j : String) (updated : Credentials) (a : Account) (s : State)
    → credential j (reuse updated a s).account.credentials
      ≡ updated_value j (credential j a.credentials) updated
unfolding reuse
reuse-credential j updated a s = credential-apply_update j a.credentials updated

module _ (format : ℕ → String) (format_ne : (t : ℕ) → (format t == "") ≡ false) where
  -- After a refresh whose answer has an access token, accepted for an account that had a refresh token,
  -- every other copy of the account that then asks for one, while the expiry that was computed from the
  -- answer is further away than the skew, gets the token without a request to the token endpoint: it ends
  -- with the access token and the expiry of the answer, and with its refresh token, or the one that the
  -- first copy kept where the answer brought none. `format` must print every instant as a text that is
  -- not empty. An `expires_in` that wraps around at 64 bits may give an expiry in the past.
  pub refresh_locked_reuses :
      (r : TokenResponse) (at calls now : ℕ) (env : ℕ → Attempt) (a b : Account) (s : State)
      → (r.access_token == "") ≡ false
      → (credential "refresh_token" a.credentials == "") ≡ false
      → token_refresh_skew < add_seconds at r.expires_in - now
      → let first = accept format r at calls a s in
        let second_call = refresh_locked format now env b first.state in
        (second_call.calls ≡ 0)
        × (credential "access_token" second_call.account.credentials ≡ r.access_token)
        × (credential "expires_at" second_call.account.credentials
            ≡ format (add_seconds at r.expires_in))
        × (credential "refresh_token" second_call.account.credentials ≡ (
            if r.refresh_token == ""
            then credential "refresh_token" a.credentials
            else r.refresh_token))
  unfolding refresh_locked
  refresh_locked_reuses r at calls now env a b s access refresh early =
      let fresh = fresh_after_accept format r at calls now a s access early in
      let first = accept format r at calls a s in
      rw (fresh, refresh_locked)
        (
          refl,
          reuse-credential "access_token" _ b first.state ∙ ground arith,
          reuse-credential "expires_at" _ b first.state
              ∙ ground (arith, format_ne (add_seconds at r.expires_in)),
          reuse-credential "refresh_token" _ b first.state ∙ ground arith,
        )
