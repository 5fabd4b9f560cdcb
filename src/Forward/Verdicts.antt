-- ===== src/Forward/Verdicts.antt =====
-- A forwarding ends, and its error agrees with its outcome, whatever the path and the account.
use airgate_claude.Prelude.{
  ℕ, true, false, ◌||◌, Option, none, some, String, string_key, ◌==◌, leb, ◌≡◌, refl, arith,
  Bool-cases, inl, inr, subst, sym, ◌⊎◌, ◌&&◌,
}
use airgate_claude.Errors.{Outcome, transient_outcome, account_dead_outcome}
use airgate_claude.Forward.{
  Gateway, Sent, not_built, not_reached, answered, Forwarded, some_credentials, seen_by_registry,
  probe, exchange, with_token, forward_oauth, is_success, no_error,
}
use airgate_claude.Forward.Tokens.{
  IsValidSidecar, count_tokens-some, probe-IsValidSidecar, seen-sidecar,
}
use airgate_claude.Forward.Dispatch.{
  Handlers, handle_error_response, forward_api_key, forward_count_tokens, unchanged, forward_http,
}
use airgate_claude.TokenManager.{
  Account, Credentials, credential, Result, ok, err, is_account_error,
}
use airgate_claude.TokenManager.Refresh.{Attempt, ensure_valid_token}

pub Result-cases :
    {A : Type 0} (r : Result A) → ((x : A) × (r ≡ ok x)) ⊎ ((e : String) × (r ≡ err e))
Result-cases (ok x) = inl (x, refl)
Result-cases (err e) = inr (e, refl)

Sum-cases : {A B : Type 0} (s : A ⊎ B) → ((a : A) × (s ≡ inl a)) ⊎ ((b : B) × (s ≡ inr b))
Sum-cases (inl a) = inl (a, refl)
Sum-cases (inr b) = inr (b, refl)

module _ {Body Headers Usage Response : Type 0} (e : Handlers Body Headers Usage Response) where
  -- The call ends, and an error does not come with a success.
  abbrev pub Consistent : Option (Forwarded Body Headers Usage) → Type 0
  Consistent none = ⊥
  Consistent (some f) = no_error f.error ≡ false → is_success f.outcome.kind ≡ false

  -- The handler of an answer keeps to it.
  abbrev pub ConsistentAnswer : Type 0
  ConsistentAnswer =
      (r : Response)
      → no_error (e.on_answer r).1 ≡ false
      → is_success (e.on_answer r).0.kind ≡ false

  api_key-Consistent :
      (s : Sent Response) (a : Account) (g : Gateway)
      → ConsistentAnswer
      → Consistent (unchanged e a g (forward_api_key e s))
  unfolding forward_api_key transient_outcome
  api_key-Consistent (not_built x) a g c = λ h. refl
  api_key-Consistent (not_reached x) a g c = λ h. refl
  api_key-Consistent (answered status r) a g c = elim (Bool-cases (leb 400 status)) [
    | inl l ↦ rw l (λ h. ground (arith, h))
    | inr l ↦ rw l (c r)
  ]

  count_tokens-Consistent :
      (s : Sent Response) (a : Account) (g : Gateway)
      → Consistent (unchanged e a g (forward_count_tokens e s))
  unfolding forward_count_tokens transient_outcome
  count_tokens-Consistent (not_built x) a g = λ h. refl
  count_tokens-Consistent (not_reached x) a g = λ h. refl
  count_tokens-Consistent (answered status r) a g = elim (Result-cases (e.read_count r)) [
    | inr (x, q) ↦ rw (q, forward_count_tokens) (λ h. refl)
    | inl (b, q) ↦ elim (Bool-cases (leb 400 status)) [
      | inl l ↦ rw (q, forward_count_tokens) (rw l (λ h. ground (arith, h)))
      | inr l ↦ rw (q, forward_count_tokens) (rw l (λ h. ground (arith, h)))
    ]
  ]

  abbrev on_error : Response → Outcome Body Headers Usage
  on_error r = handle_error_response e (e.read r)

  exchange-Consistent :
      (body : String) (s : Sent Response) (u : Option Credentials) (a : Account) (g : Gateway)
      → ConsistentAnswer
      → IsValidSidecar g.sidecar
      → Consistent (exchange e.send on_error e.on_answer body s u a g)
  unfolding exchange transient_outcome
  exchange-Consistent body (not_built x) u a g c v = λ h. refl
  exchange-Consistent body (not_reached x) u a g c v = λ h. refl
  exchange-Consistent body (answered status r) u a g c v = elim (Bool-cases (leb 400 status)) [
    | inl l ↦ rw l (λ h. ground (arith, h))
    | inr l ↦
        let (g', q) =
          count_tokens-some (no_error (e.on_answer r).1 && is_success (e.on_answer r).0.kind) a body
            g v in
        rw l (rw q (c r))
  ]

  with_token-Consistent :
      (body : String) (u : Option Credentials) (a : Account) (g : Gateway)
      → ConsistentAnswer
      → IsValidSidecar g.sidecar
      → Consistent (with_token e.send on_error e.on_answer body u a g)
  unfolding with_token account_dead_outcome
  with_token-Consistent body u a g c v =
      elim (Bool-cases (credential "access_token" a.credentials == "")) [
        | inl t ↦ rw t (λ h. refl)
        | inr t ↦
            rw t (
              exchange-Consistent body (e.send a) u a (probe u a g) c
                (probe-IsValidSidecar u a g v))
      ]

  oauth-Consistent :
      (now : ℕ) (env : ℕ → Attempt) (gate : Option (Outcome Body Headers Usage)) (body : String)
      (a : Account) (g : Gateway)
      → ConsistentAnswer
      → IsValidSidecar g.sidecar
      → Consistent
          (forward_oauth e.send on_error e.on_answer body e.format e.parse now env gate a g)
  unfolding forward_oauth transient_outcome account_dead_outcome
  oauth-Consistent now env (some o) body a g c v = λ h. ground (arith, h)
  oauth-Consistent now env none body a g c v =
      let r = ensure_valid_token e.format e.parse now env a g.manager in
      let g' : Gateway = record (seen_by_registry now a g) { manager = r.manager } in
      let v' : IsValidSidecar g'.sidecar =
        subst IsValidSidecar (sym (seen-sidecar e.send on_error e.on_answer body now a g)) v in
      elim (Sum-cases r.result) [
        | inr (u, q) ↦
            rw (q, forward_oauth)
              (with_token-Consistent body (some_credentials u) r.account g' c v')
        | inl (f, q) ↦ elim (Bool-cases (is_account_error f)) [
          | inl d ↦ rw (q, forward_oauth) (rw d (λ h. refl))
          | inr d ↦ rw (q, forward_oauth) (rw d (λ h. refl))
        ]
      ]

  -- Whatever the path and the type of the account, a forwarding does not panic, and when it returns an
  -- error its outcome is no success, if the handler of an upstream answer keeps to that.
  pub forward_http-Consistent_if :
      (now : ℕ) (env : ℕ → Attempt) (gate : Option (Outcome Body Headers Usage))
      (path body : String) (a : Account) (g : Gateway)
      → ConsistentAnswer
      → IsValidSidecar g.sidecar
      → Consistent (forward_http e now env gate path body a g)
  unfolding forward_http account_dead_outcome
  forward_http-Consistent_if now env gate path body a g c v =
      elim (Bool-cases (path == "/v1/models")) [
        | inl x ↦ rw x (λ h. ground (arith, h))
        | inr x ↦ elim (Bool-cases (path == "/v1/messages/count_tokens")) [
          | inl y ↦ rw x (rw y (count_tokens-Consistent (e.send_count a) a g))
          | inr y ↦ elim (Bool-cases (a.kind == "apikey")) [
            | inl k ↦ rw x (rw y (rw k (api_key-Consistent (e.send a) a g c)))
            | inr k ↦ elim (Bool-cases (a.kind == "oauth" || a.kind == "session_key")) [
              | inl t ↦ rw x (rw y (rw k (rw t (oauth-Consistent now env gate body a g c v))))
              | inr t ↦ rw x (rw y (rw k (rw t (λ h. refl))))
            ]
          ]
        ]
      ]

  -- A request for the models or for a count of tokens, and any for an API key, leaves the token
  -- manager, the registry and the sidecar alone and hands the host no credentials.
  abbrev pub LeavesAlone : Gateway → Option (Forwarded Body Headers Usage) → Type 0
  LeavesAlone g none = ⊥
  LeavesAlone g (some f) = (f.gateway ≡ g) × (f.updated ≡ none)

  pub forward_http-LeavesAlone :
      (now : ℕ) (env : ℕ → Attempt) (gate : Option (Outcome Body Headers Usage))
      (path body : String) (a : Account) (g : Gateway)
      → (path == "/v1/models" || path == "/v1/messages/count_tokens" || a.kind == "apikey") ≡ true
      → LeavesAlone g (forward_http e now env gate path body a g)
  unfolding forward_http
  forward_http-LeavesAlone now env gate path body a g h = elim (Bool-cases (path == "/v1/models")) [
    | inl x ↦ rw x (refl, refl)
    | inr x ↦ elim (Bool-cases (path == "/v1/messages/count_tokens")) [
      | inl y ↦ rw x (rw y (refl, refl))
      | inr y ↦
          let k : (a.kind == "apikey") ≡ true = ground (arith, h, x, y) in
          rw x (rw y (rw k (refl, refl)))
    ]
  ]
