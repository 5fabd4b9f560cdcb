-- ===== src/Requests/Laws.antt =====
-- Refused requests, session keys inside callback URLs, and callbacks that come twice.
use airgate_claude.Prelude.{
  ℕ, Bool, true, false, ◌||◌, List, [], ◌∷◌, String, string_key, ◌==◌, if◌then◌else◌, nat_eq, ◌≡◌,
  refl, arith, Bool-cases, Option-cases, inl, inr, ◌⊎◌,
}
use airgate_claude.Prelude.Int.{pos}
use airgate_claude.OAuth.Flow.{start_oauth}
use airgate_claude.OAuth.SessionKey.{Exchanged, value, read_token}
use airgate_claude.TokenManager.{Result, ok, err}
use airgate_claude.Requests.{
  Answer, answer, refuse, answered, callback, from_session_key, handle_start, exchange_params,
  handle_exchange,
}
use airgate_claude.Requests.Params.{ExchangeParams, Env, results_reply, Shared, unwrap}
use airgate_claude.Requests.Dispatch.{
  handle_refresh, handle_cookie, handle_batch, handle_usage, handle_request, batch_all,
  refresh_answer, connect,
}

-- The answer says that the request itself is wrong.
abbrev pub is_refusal : {U : Type 0} → Answer U → Bool
is_refusal a = nat_eq a.status 400 || nat_eq a.status 404

Result-cases : {A : Type 0} (r : Result A) → ((x : A) × (r ≡ ok x)) ⊎ ((e : String) × (r ≡ err e))
Result-cases (ok x) = inl (x, refl)
Result-cases (err e) = inr (e, refl)

module _ {Client T U : Type 0} (env : Env Client T U) where
  -- A refusal comes with the state `s` as it was.
  abbrev Keeps : Shared Client T → Answer U × Shared Client T → Type 0
  Keeps s r = is_refusal r.0 ≡ true → r.1 ≡ s

  answered-Keeps :
      (now : ℕ) (r : Result Exchanged × Shared Client T) (s : Shared Client T)
      → Keeps s (answered env now r)
  answered-Keeps now (ok x, s') s = λ h. ground arith
  answered-Keeps now (err e, s') s = λ h. ground arith

  start-Keeps :
      (now : ℕ) (verifier state : Result String) (s : Shared Client T)
      → Keeps s (handle_start env now verifier state s)
  unfolding handle_start start_oauth
  start-Keeps now (err e) state s = λ h. ground arith
  start-Keeps now (ok v) (err e) s = λ h. ground arith
  start-Keeps now (ok v) (ok t) s = λ h. ground arith

  exchange_params-Keeps :
      (now : ℕ) (verifier state : Result String) (p : ExchangeParams) (s : Shared Client T)
      → Keeps s (exchange_params env now verifier state p s)
  unfolding exchange_params
  exchange_params-Keeps now verifier state p s = elim (Bool-cases (p.callback_url == "")) [
    | inl e ↦ elim (Bool-cases (p.session_key == "")) [
      | inl f ↦ rw (e, exchange_params) (rw f (λ h. refl))
      | inr f ↦
          rw (e, exchange_params)
            (rw f (
              answered-Keeps now
                (from_session_key env now verifier state p.session_key p.proxy_url s) s))
    ]
    | inr e ↦ elim (Result-cases (env.servers.endpoints.parse_query p.callback_url)) [
      | inr (x, f) ↦ rw (e, exchange_params) (rw f (λ h. refl))
      | inl (q, f) ↦ elim (Bool-cases (value "code" q == "" || value "state" q == "")) [
        | inl g ↦ rw (e, exchange_params) (rw f (rw g (λ h. refl)))
        | inr g ↦
            rw (e, exchange_params)
              (rw f (
                rw g (
                  answered-Keeps now
                    (callback env now (value "code" q) (value "state" q) p.proxy_url s) s)))
      ]
    ]
  ]

  exchange-Keeps :
      (now : ℕ) (verifier state : Result String) (body : String) (s : Shared Client T)
      → Keeps s (handle_exchange env now verifier state body s)
  unfolding handle_exchange
  exchange-Keeps now verifier state body s = elim (Option-cases (env.decode.exchange body)) [
    | inl e ↦ rw (e, handle_exchange) (λ h. refl)
    | inr (p, e) ↦
        rw (e, handle_exchange)
          (exchange_params-Keeps now verifier state (unwrap env.decode.exchange p) s)
  ]

  refresh_answer-Keeps :
      (now : ℕ) (r : Result Exchanged) (s s' : Shared Client T)
      → Keeps s (refresh_answer env now r, s')
  refresh_answer-Keeps now (ok x) s s' = λ h. ground arith
  refresh_answer-Keeps now (err e) s s' = λ h. ground arith

  refresh-Keeps :
      (now : ℕ) (body : String) (s : Shared Client T) → Keeps s (handle_refresh env now body s)
  unfolding handle_refresh
  refresh-Keeps now body s = elim (Option-cases (env.decode.refresh body)) [
    | inl e ↦ rw (e, handle_refresh) (λ h. refl)
    | inr (p, e) ↦ elim (Bool-cases (p.refresh_token == "")) [
      | inl f ↦ rw (e, handle_refresh) (rw f (λ h. refl))
      | inr f ↦
          let (t, s') = connect env now (pos 0) p.proxy_url "" s in
          rw (e, handle_refresh)
            (rw f
              (refresh_answer-Keeps now (read_token (env.servers.refresh t p.refresh_token)) s s'))
    ]
  ]

  cookie-Keeps :
      (now : ℕ) (verifier state : Result String) (body : String) (s : Shared Client T)
      → Keeps s (handle_cookie env now verifier state body s)
  unfolding handle_cookie
  cookie-Keeps now verifier state body s = elim (Option-cases (env.decode.cookie body)) [
    | inl e ↦ rw (e, handle_cookie) (λ h. refl)
    | inr (p, e) ↦ elim (Bool-cases (p.session_key == "")) [
      | inl f ↦ rw (e, handle_cookie) (rw f (λ h. refl))
      | inr f ↦
          rw (e, handle_cookie)
            (rw f (
              answered-Keeps now
                (from_session_key env now verifier state p.session_key p.proxy_url s) s))
    ]
  ]

  batch-Keeps :
      (now : ℕ) (random : ℕ → Result String × Result String) (body : String) (s : Shared Client T)
      → Keeps s (handle_batch env now random body s)
  unfolding handle_batch
  batch-Keeps now random body s = elim (Option-cases (env.decode.batch body)) [
    | inl e ↦ rw (e, handle_batch) (λ h. refl)
    | inr (p, e) ↦ rw (e, handle_batch) (keys p.session_keys p.proxy_url)
  ]
    where
      keys :
          (ks : List String) (proxy_url : String)
          → Keeps s (elim ks [
            | [] ↦ (refuse "缺少 session_keys 参数", s)
            | k ∷ more ↦ (
              answer 200 (results_reply (batch_all env now random 0 proxy_url (k ∷ more) s).0),
              (batch_all env now random 0 proxy_url (k ∷ more) s).1,
            )
          ])
      keys [] proxy_url = λ h. refl
      keys (k ∷ ks) proxy_url = λ h. ground arith

  usage-Keeps :
      (now : ℕ) (body : String) (s : Shared Client T) → Keeps s (handle_usage env now body s)
  unfolding handle_usage
  usage-Keeps now body s = elim (Option-cases (env.decode.accounts body)) [
    | inl e ↦ rw (e, handle_usage) (λ h. refl)
    | inr (p, e) ↦ rw (e, handle_usage) (λ h. ground arith)
  ]

  if-Keeps :
      (b : Bool) (x y : Answer U × Shared Client T) (s : Shared Client T)
      → Keeps s x
      → Keeps s y
      → Keeps s (if b then x else y)
  if-Keeps true x y s h k = h
  if-Keeps false x y s h k = k

  -- A request that is refused, be its path unknown, its body unreadable or a parameter missing or
  -- malformed, leaves the pending sessions and the pools as they were.
  pub handle_request_refused :
      (now : ℕ) (random : ℕ → Result String × Result String) (path body : String)
      (s : Shared Client T)
      → is_refusal (handle_request env now random path body s).0 ≡ true
      → (handle_request env now random path body s).1 ≡ s
  unfolding handle_request
  handle_request_refused now random path body s =
      let v = (random 0).0 in
      let t = (random 0).1 in
      if-Keeps (path == "oauth/start") (handle_start env now v t s) _ s (start-Keeps now v t s) (
        if-Keeps (path == "oauth/exchange") (handle_exchange env now v t body s) _ s
          (exchange-Keeps now v t body s)
          (if-Keeps (path == "oauth/refresh") (handle_refresh env now body s) _ s
            (refresh-Keeps now body s)
            (if-Keeps (path == "usage/accounts") (handle_usage env now body s) _ s
              (usage-Keeps now body s)
              (if-Keeps (path == "console/cookie-auth") (handle_cookie env now v t body s) _ s
                (cookie-Keeps now v t body s)
                (if-Keeps (path == "console/batch-cookie-auth") (handle_batch env now random body s)
                  _ s (batch-Keeps now random body s) (λ h. refl))))))
