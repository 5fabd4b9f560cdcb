-- ===== src/Forward/Tokens.antt =====
-- What the host learns of a token refresh, and when an account is blamed for a request.
use airgate_claude.Prelude.{
  ℕ, ◌≡◌, refl, inl, inr, Bool, true, false, Option, none, some, String, string_key, ◌==◌,
  if◌then◌else◌, leb, Bool-cases, Option-cases, ◌&&◌, subst, sym,
}
use airgate_claude.Errors.{
  Outcome, upstream_transient, account_dead, transient_outcome, account_dead_outcome,
}
use airgate_claude.TokenManager.{Account, Credentials, credential, Failure, is_account_error}
use airgate_claude.TokenManager.Refresh.{Attempt, ensure_valid_token}
use airgate_claude.Sidecar.{Runner, schedule_count_tokens}
use airgate_claude.Sidecar.Events.{IsValid, Keeps-some, schedule-IsValid, probe-IsValid}
use airgate_claude.Forward.{
  Gateway, Sent, not_built, not_reached, answered, Forwarded, some_credentials, seen_by_registry,
  probe, count_tokens, exchange, with_token, forward_oauth, is_success, no_error,
}

-- The sidecar, if there is one, is valid.
abbrev pub IsValidSidecar : Option Runner → Type 0
IsValidSidecar none = Unit
IsValidSidecar (some s) = IsValid s

pub count_tokens-some :
    (b : Bool) (a : Account) (body : String) (g : Gateway)
    → IsValidSidecar g.sidecar
    → (g' : Gateway) × (count_tokens b a body g ≡ some g')
unfolding count_tokens
count_tokens-some false a body g v = (g, refl)
count_tokens-some true a body g v = elim (Option-cases g.sidecar) [
  | inl e ↦ rw (e, count_tokens) (g, refl)
  | inr (s, e) ↦
      let valid : IsValid s = subst IsValidSidecar e v in
      let (s', q, _) =
        Keeps-some (schedule_count_tokens a.id body s) (schedule-IsValid a.id body s valid) in
      rw (e, count_tokens) (rw q (record g { sidecar = some s' }, refl))
]

pub probe-IsValidSidecar :
    (u : Option Credentials) (a : Account) (g : Gateway)
    → IsValidSidecar g.sidecar
    → IsValidSidecar (probe u a g).sidecar
unfolding probe
probe-IsValidSidecar none a g v = v
probe-IsValidSidecar (some u) a g v = elim (Option-cases g.sidecar) [
  | inl e ↦ rw (e, probe) v
  | inr (s, e) ↦
      let valid : IsValid s = subst IsValidSidecar e v in
      rw (e, probe) (probe-IsValid (some a) s valid)
]

module _ {Body Headers Usage Response : Type 0} (send : Account → Sent Response)
    (on_error : Response → Outcome Body Headers Usage)
    (on_answer : Response → Outcome Body Headers Usage × Option String) (body : String) where
  -- The call ends. If the upstream answered, the host is handed the credentials `u`, whatever the
  -- status; if not, it is handed none and the request may be tried elsewhere.
  abbrev pub Reports :
      Option Credentials → Sent Response → Option (Forwarded Body Headers Usage) → Type 0
  Reports u sent none = ⊥
  Reports u (answered status r) (some f) = f.updated ≡ u
  Reports u (not_built e) (some f) = (f.updated ≡ none) × (f.outcome.kind ≡ upstream_transient)
  Reports u (not_reached e) (some f) = (f.updated ≡ none) × (f.outcome.kind ≡ upstream_transient)

  exchange-Reports :
      (sent : Sent Response) (u : Option Credentials) (a : Account) (g : Gateway)
      → IsValidSidecar g.sidecar
      → Reports u sent (exchange send on_error on_answer body sent u a g)
  unfolding exchange transient_outcome
  exchange-Reports (not_built e) u a g v = (refl, refl)
  exchange-Reports (not_reached e) u a g v = (refl, refl)
  exchange-Reports (answered status r) u a g v = elim (Bool-cases (leb 400 status)) [
    | inl e ↦ rw e refl
    | inr e ↦
        let (o, err) = on_answer r in
        let (g', q) = count_tokens-some (no_error err && is_success o.kind) a body g v in
        rw e (rw q refl)
  ]

  with_token-Reports :
      (u : Option Credentials) (a : Account) (g : Gateway)
      → IsValidSidecar g.sidecar
      → (credential "access_token" a.credentials == "") ≡ false
      → Reports u (send a) (with_token send on_error on_answer body u a g)
  unfolding with_token
  with_token-Reports u a g v t =
      rw t (exchange-Reports (send a) u a (probe u a g) (probe-IsValidSidecar u a g v))

  pub seen-sidecar :
      (now : ℕ) (a : Account) (g : Gateway) → (seen_by_registry now a g).sidecar ≡ g.sidecar
  unfolding seen_by_registry
  seen-sidecar now a g = elim (Option-cases g.registry) [
    | inl e ↦ rw (e, seen_by_registry) refl
    | inr (r, e) ↦ rw (e, seen_by_registry) refl
  ]

  module _ (format : ℕ → String) (parse : String → Option ℕ) where
    -- After a token check that returned no error and leaves an access token, the call ends. The host
    -- is handed the refreshed credentials, if there are any, whenever the upstream answers, be it with
    -- an error status. When the upstream cannot be reached, the outcome is transient and hands over no
    -- credentials, those just refreshed included.
    pub forward_oauth-Reports :
        (now : ℕ) (env : ℕ → Attempt) (a : Account) (g : Gateway) (updated : Option Credentials)
        → IsValidSidecar g.sidecar
        → (ensure_valid_token format parse now env a g.manager).result ≡ inr updated
        → (credential "access_token"
              (ensure_valid_token format parse now env a g.manager).account.credentials
            == "")
          ≡ false
        → Reports
            (some_credentials updated)
            (send (ensure_valid_token format parse now env a g.manager).account)
            (forward_oauth send on_error on_answer body format parse now env none a g)
    unfolding forward_oauth
    forward_oauth-Reports now env a g updated v h t =
        let r = ensure_valid_token format parse now env a g.manager in
        let g' : Gateway = record (seen_by_registry now a g) { manager = r.manager } in
        let v' : IsValidSidecar g'.sidecar = subst IsValidSidecar (sym (seen-sidecar now a g)) v in
        rw (h, forward_oauth) (with_token-Reports (some_credentials updated) r.account g' v' t)

    -- The call ends, and the account is declared dead or the upstream has a transient fault.
    abbrev pub Verdict : Option (Forwarded Body Headers Usage) → Bool → Type 0
    Verdict none dead = ⊥
    Verdict (some f) dead = f.outcome.kind ≡ (if dead then account_dead else upstream_transient)

    -- When the token check fails, the request ends before the upstream is asked; the account is declared
    -- dead if the failure is the account's, and the outcome is transient if not.
    pub forward_oauth_failed :
        (now : ℕ) (env : ℕ → Attempt) (a : Account) (g : Gateway) (f : Failure)
        → (ensure_valid_token format parse now env a g.manager).result ≡ inl f
        → Verdict
            (forward_oauth send on_error on_answer body format parse now env none a g)
            (is_account_error f)
    unfolding forward_oauth transient_outcome account_dead_outcome
    forward_oauth_failed now env a g f h = elim (Bool-cases (is_account_error f)) [
      | inl e ↦ rw (h, forward_oauth) (rw e refl)
      | inr e ↦ rw (h, forward_oauth) (rw e refl)
    ]
