-- ===== src/TokenManager/Stored.antt =====
-- What a refresh reports for storage is what the account holds.
use airgate_claude.Prelude.{
  ℕ, suc, ◌≡◌, refl, false, ◌∷◌, none, some, String, string_key, ◌==◌, arith, inl, inr,
  Option-cases, subst, All, ◌⊎◌,
}
use airgate_claude.GoMap.{put}
use airgate_claude.Limits.{add_seconds}
use airgate_claude.TokenManager.{
  Credentials, credential, Account, TokenResponse, State, refresh_entry, fresh_credentials,
  token_refresh_skew, max_refresh_retries, new_state, remember_token,
}
use airgate_claude.TokenManager.Reuse.{credential-put, reuse-credential}
use airgate_claude.TokenManager.Refresh.{
  Attempt, Ending, refreshed, rejected, cancelled, exhausted, reuse, in_cooldown, accept, settle,
  refresh_loop, refresh_locked,
}

-- Every entry of the update is what the credentials hold.
abbrev pub Holds : Credentials → Credentials → Type 0
Holds creds = All (λ e. credential e.0 creds ≡ e.1)

-- A state that remembers an expiry remembers its text too.
abbrev pub IsSane : State → Type 0
IsSane s = (s.last_expires_at ≡ none) ⊎ ((s.last_expires_at_raw == "") ≡ false)

reuse-Holds :
    (now : ℕ) (u : Credentials) (a : Account) (s : State)
    → IsSane s
    → fresh_credentials now token_refresh_skew s ≡ some u
    → Holds (reuse u a s).account.credentials u
unfolding fresh_credentials
reuse-Holds now u a s sane fresh = ground (
  arith,
  reuse-credential "access_token" u a s,
  reuse-credential "expires_at" u a s,
  reuse-credential "refresh_token" u a s,
)

module _ (format : ℕ → String) where
  accept-Holds :
      (r : TokenResponse) (at calls : ℕ) (a : Account) (s : State)
      → Holds (accept format r at calls a s).account.credentials (
          ("access_token", r.access_token)
          ∷ ("expires_at", format (add_seconds at r.expires_in))
          ∷ refresh_entry r.refresh_token)
  unfolding accept
  accept-Holds r at calls a s =
      let raw = format (add_seconds at r.expires_in) in
      let first = put "access_token" r.access_token a.credentials in
      let both = put "expires_at" raw first in
      ground (
        arith,
        credential-put "access_token" "access_token" r.access_token a.credentials,
        credential-put "expires_at" "access_token" raw first,
        credential-put "expires_at" "expires_at" raw first,
        credential-put "refresh_token" "access_token" r.refresh_token both,
        credential-put "refresh_token" "expires_at" r.refresh_token both,
        credential-put "refresh_token" "refresh_token" r.refresh_token both,
      )

  reuse-result :
      (updated u : Credentials) (a : Account) (s : State)
      → (reuse updated a s).result ≡ inr (some u)
      → updated ≡ u
  unfolding reuse
  reuse-result updated u a s e = ground arith

  accept-result :
      (r : TokenResponse) (at calls : ℕ) (a : Account) (s : State) (u : Credentials)
      → (accept format r at calls a s).result ≡ inr (some u)
      → ("access_token", r.access_token)
          ∷ ("expires_at", format (add_seconds at r.expires_in))
          ∷ refresh_entry r.refresh_token
        ≡ u
  unfolding accept
  accept-result r at calls a s u e = ground arith

  settle-Holds :
      (p : Ending × ℕ) (a : Account) (s : State) (u : Credentials)
      → (settle format p a s).result ≡ inr (some u)
      → Holds (settle format p a s).account.credentials u
  unfolding settle
  settle-Holds (refreshed r at, calls) a s u e =
      subst (Holds _) (accept-result r at calls a s u e) (accept-Holds r at calls a s)
  settle-Holds (rejected f at, calls) a s u e = absurd (cc)
  settle-Holds (cancelled f, calls) a s u e = absurd (cc)
  settle-Holds (exhausted last at, calls) a s u e = absurd (cc)

  settle-IsSane :
      ((t : ℕ) → (format t == "") ≡ false)
      → (p : Ending × ℕ) (a : Account) (s : State) → IsSane s
      → IsSane (settle format p a s).state
  unfolding settle accept remember_token
  settle-IsSane ne (refreshed r at, calls) a s h = inr (ne (add_seconds at r.expires_in))
  settle-IsSane ne (rejected f at, calls) a s h = h
  settle-IsSane ne (cancelled f, calls) a s h = h
  settle-IsSane ne (exhausted last at, calls) a s h = h

  -- The credentials that a refresh under the lock reports for storage, whether they come from the
  -- token endpoint or from the state of an earlier refresh, are those that the account then holds. The
  -- state must be sane: with an expiry it has a text for it that is not empty. Where `format` prints no
  -- instant as the empty text, a refresh leaves the state sane, and a new state is so.
  pub refresh_locked-Holds :
      ((t : ℕ) → (format t == "") ≡ false)
      → (now : ℕ) (env : ℕ → Attempt) (a : Account) (s : State) → IsSane s
      → let d = refresh_locked format now env a s in
        ((u : Credentials) → d.result ≡ inr (some u) → Holds d.account.credentials u)
        × IsSane d.state
        × IsSane (new_state now)
  unfolding refresh_locked reuse
  refresh_locked-Holds ne now env a s sane =
      elim (Option-cases (fresh_credentials now token_refresh_skew s)) [
        | inr (updated, fresh) ↦
            rw (fresh, refresh_locked)
              (
                (λ u e.
                    subst (Holds _) (reuse-result updated u a s e)
                      (reuse-Holds now updated a s sane fresh)),
                sane,
                inl refl,
              )
        | inl stale ↦ elim (Option-cases (in_cooldown now s)) [
          | inr (e, cool) ↦
              rw (stale, refresh_locked) (rw cool ((λ u h. absurd (cc)), sane, inl refl))
          | inl warm ↦
              let p = refresh_loop (suc max_refresh_retries) 0 env none now in
              rw (stale, refresh_locked)
                (rw warm (settle-Holds p a s, settle-IsSane ne p a s sane, inl refl))
        ]
      ]
