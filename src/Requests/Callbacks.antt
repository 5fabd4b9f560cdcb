-- ===== src/Requests/Callbacks.antt =====
-- A session key inside a callback URL, and a callback that comes twice.
use airgate_claude.Prelude.{
  ℕ, true, false, ◌||◌, List, some, String, string_key, ◌==◌, ◌≡◌, refl, All, ◌⊎◌, inl, inr, ap,
  sym, ◌∙◌, subst,
}
use airgate_claude.Prelude.Int.{pos}
use airgate_claude.Prelude.Text.{codes, starts}
use airgate_claude.Prelude.Space.{trim_space}
use airgate_claude.GoMap.{Map, delete}
use airgate_claude.OAuth.{consume}
use airgate_claude.OAuth.Flow.{
  Callback, handle_oauth_callback, unknown_session, expired_session, exchanged,
}
use airgate_claude.OAuth.Code.{TokenRequest}
use airgate_claude.OAuth.Flows.{callback_once, Event, Elsewhere, run}
use airgate_claude.OAuth.SessionKey.{Exchanged, value, read_token, failed_with}
use airgate_claude.TokenManager.{Result, ok, err}
use airgate_claude.TransportPool.Fingerprint.{fingerprint_transport}
use airgate_claude.Requests.{
  Answer, answer, account_answer, answered, callback, exchange_params, handle_exchange,
}
use airgate_claude.Requests.Params.{ExchangeParams, CookieParams, Env, error_reply, Shared, unwrap}
use airgate_claude.Requests.Dispatch.{handle_cookie}

Callback-cases :
    {A : Type 0} (c : Callback A)
    → (c ≡ unknown_session)
      ⊎ ((c ≡ expired_session) ⊎ ((r : TokenRequest) × (a : A) × (c ≡ exchanged r a)))
Callback-cases unknown_session = inl refl
Callback-cases expired_session = inr (inl refl)
Callback-cases (exchanged r a) = inr (inr (r, a, refl))

failed_with-state :
    {C : Type 0} (what : String) (r : Result Exchanged) (c : C) → (failed_with what (r, c)).1 ≡ c
failed_with-state what (ok x) c = refl
failed_with-state what (err e) c = refl

module _ {Client T U : Type 0} (env : Env Client T U) where
  -- The host's exchange of a session key, which it sends as JSON in the callback URL, is the cookie
  -- request for that session key with the proxy of the outer parameters.
  pub handle_exchange-cookie :
      (now : ℕ) (verifier state : Result String) (body cookie_body : String)
      (p inner : ExchangeParams) (c : CookieParams) (s : Shared Client T)
      → env.decode.exchange body ≡ some p
      → p.session_key ≡ ""
      → (p.callback_url == "") ≡ false
      → starts (trim_space (codes p.callback_url)) (codes "{") ≡ true
      → env.decode.exchange p.callback_url ≡ some inner
      → (inner.session_key == "") ≡ false
      → env.decode.cookie cookie_body ≡ some c
      → c.session_key ≡ inner.session_key
      → c.proxy_url ≡ p.proxy_url
      → handle_exchange env now verifier state body s
        ≡ handle_cookie env now verifier state cookie_body s
  unfolding handle_exchange handle_cookie unwrap exchange_params
  handle_exchange-cookie now verifier state body cookie_body p inner c s d k u b i n dc ck cp =
      rw (d, handle_exchange)
        (rw (dc, handle_cookie)
          (rw ck (rw cp (rw n (rw k (rw u (rw b (rw (i, unwrap) (rw n (rw n refl))))))))))

  -- The body is a callback with this code, state and proxy.
  pub record IsCallback (body code state proxy_url : String) : Type 0 where
    pub p : ExchangeParams
    pub q : Map String String
    pub decoded : env.decode.exchange body ≡ some p
    pub has_url : ((unwrap env.decode.exchange p).callback_url == "") ≡ false
    pub parsed :
        env.servers.endpoints.parse_query (unwrap env.decode.exchange p).callback_url ≡ ok q
    pub the_code : value "code" q ≡ code
    pub the_state : value "state" q ≡ state
    pub has_both : (code == "" || state == "") ≡ false
    pub the_proxy : (unwrap env.decode.exchange p).proxy_url ≡ proxy_url

  exchange-callback :
      (now : ℕ) (v t : Result String) (body code state proxy_url : String) (s : Shared Client T)
      → IsCallback body code state proxy_url
      → handle_exchange env now v t body s
        ≡ answered env now (callback env now code state proxy_url s)
  unfolding handle_exchange exchange_params
  exchange-callback now v t body code state proxy_url s i =
      rw (i.decoded, handle_exchange)
        (rw i.has_url (
          rw (i.parsed, exchange_params)
            (rw i.the_code (rw i.the_state (rw i.has_both (rw i.the_proxy refl))))))

  -- The token endpoint as a callback sees it.
  abbrev pub endpoint : ℕ → String → Shared Client T → TokenRequest → Result Exchanged
  endpoint now proxy_url s request = read_token (
      env.servers.endpoints.token
        (fingerprint_transport env.build now (pos 0) proxy_url "" s.connections.transports).0
        request)

  callback-sessions :
      (now : ℕ) (code state proxy_url : String) (s : Shared Client T)
      → (callback env now code state proxy_url s).1.sessions ≡ delete state s.sessions
  unfolding callback handle_oauth_callback consume
  callback-sessions now code state proxy_url s =
      elim (Callback-cases
        (handle_oauth_callback (endpoint now proxy_url s) now code state s.sessions).0) [
          | inl e ↦ rw (e, callback) refl
          | inr (inl e) ↦ rw (e, callback) refl
          | inr (inr (r, a, e)) ↦
              rw (e, callback)
                (ap (λ (x : Shared Client T). x.sessions) (failed_with-state "token 交换失败: " a _))
        ]

  callback-unknown :
      (now : ℕ) (code state proxy_url : String) (s : Shared Client T)
      → (handle_oauth_callback (endpoint now proxy_url s) now code state s.sessions).0
        ≡ unknown_session
      → (callback env now code state proxy_url s).0 ≡ err "无效或已过期的 OAuth 会话"
  unfolding callback handle_oauth_callback consume
  callback-unknown now code state proxy_url s h = rw (h, callback) refl

  -- A callback that comes again, after whatever other flows did that start none with its state, is
  -- answered with the error for an unknown session, and with no token, whether the first succeeded or
  -- not.
  pub handle_exchange_once :
      (now later : ℕ) (v t v' t' : Result String)
      (body body' code code' state proxy_url proxy_url' : String) (s s' : Shared Client T)
      (es : List (Event env.servers.endpoints.challenge (endpoint later proxy_url' s')))
      → IsCallback body code state proxy_url
      → IsCallback body' code' state proxy_url'
      → All (Elsewhere env.servers.endpoints.challenge (endpoint later proxy_url' s') state) es
      → s'.sessions
        ≡ run env.servers.endpoints.challenge
            (endpoint later proxy_url' s')
            es
            (handle_exchange env now v t body s).1.sessions
      → (handle_exchange env later v' t' body' s').0 ≡ answer 500 (error_reply "无效或已过期的 OAuth 会话")
  unfolding handle_oauth_callback consume
  handle_exchange_once now later v t v' t' body body' code code' state proxy_url proxy_url' s s' es
        i j a h =
      let ex = endpoint later proxy_url' s' in
      let first : (handle_exchange env now v t body s).1.sessions ≡ delete state s.sessions =
        ap (λ (r : Answer U × Shared Client T). r.1.sessions)
          (exchange-callback now v t body code state proxy_url s i)
        ∙ callback-sessions now code state proxy_url s in
      let again : s'.sessions
          ≡ run env.servers.endpoints.challenge ex es (delete state s.sessions) =
        subst (λ m. s'.sessions ≡ run env.servers.endpoints.challenge ex es m) first h in
      let once =
        callback_once env.servers.endpoints.challenge ex now later code code' state es s.sessions
          a in
      let gone : (handle_oauth_callback ex later code' state s'.sessions).0 ≡ unknown_session =
        subst (λ m. (handle_oauth_callback ex later code' state m).0 ≡ unknown_session) (sym again)
          once in
      ap (λ (r : Answer U × Shared Client T). r.0)
        (exchange-callback later v' t' body' code' state proxy_url' s' j)
      ∙ ap (λ r. account_answer env later r) (callback-unknown later code' state proxy_url' s' gone)
