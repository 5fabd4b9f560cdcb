-- ===== src/OAuth/Exchange.antt =====
-- What a successful exchange of a session key went through.
use airgate_claude.Prelude.{ℕ, true, false, [], String, ◌≡◌, refl, arith, Bool-cases, inl, inr}
use airgate_claude.Prelude.Int.{pos}
use airgate_claude.TransportPool.Fingerprint.{fingerprint_transport}
use airgate_claude.Prelude.Text.{codes}
use airgate_claude.Prelude.Space.{trim_space}
use airgate_claude.Limits.{Limits}
use airgate_claude.ClientPool.{get_client}
use airgate_claude.Headers.{text_eq}
use airgate_claude.TokenManager.{Result, ok, err}
use airgate_claude.OAuth.Code.{token_request}
use airgate_claude.OAuth.SessionKey.{
  Exchanged, Endpoints, AuthorizeRequest, Connections, get_organization_uuid,
  get_authorization_code, read_token, exchange_code_for_token, failed_with, token_step,
  authorize_step, organization_step, exchange_session_key_with_scope,
}

failed_with-ok :
    {C : Type 0} (what : String) (r : Result Exchanged) (c : C) (x : Exchanged)
    → (failed_with what (r, c)).0 ≡ ok x
    → r ≡ ok x
failed_with-ok what (ok y) c x h = h
failed_with-ok what (err e) c x h = ground arith

module _ {Client T : Type 0} (new_client : String → Client) (l : Limits)
    (build : String → String → T) (remote : Endpoints Client T) where
  abbrev pub authorize_request : String → String → String → String → String → AuthorizeRequest
  authorize_request session_key org verifier state scope = record {
    session_key = session_key;
    org_uuid = org;
    code_challenge = remote.challenge verifier;
    state = state;
    scope = scope;
  }

  -- The steps of an exchange that ends with `x`, taken with the client `client`.
  pub record Trail (client : Client) (verifier state : Result String) (session_key scope : String)
      (x : Exchanged) : Type 0 where
    pub org : String
    pub code_verifier : String
    pub sent_state : String
    pub code : String
    pub transport : T
    pub generated : verifier ≡ ok code_verifier
    pub stated : state ≡ ok sent_state
    pub found : get_organization_uuid (remote.organizations client session_key) ≡ ok org
    pub authorized :
        get_authorization_code remote.parse_query (
          remote.authorize client
            (authorize_request session_key org code_verifier sent_state scope))
        ≡ ok code
    pub answered : read_token (remote.token transport (token_request code code_verifier)) ≡ ok x

  token_step-ok :
      (now : ℕ) (proxy_url verifier : String) (code : Result String) (c : Connections Client T)
      (x : Exchanged)
      → (token_step new_client l build remote now proxy_url verifier code c).0 ≡ ok x
      → (k : String) × (t : T) × (code ≡ ok k)
        × (read_token (remote.token t (token_request k verifier)) ≡ ok x)
  unfolding token_step exchange_code_for_token
  token_step-ok now proxy_url verifier (err e) c x h = ground arith
  token_step-ok now proxy_url verifier (ok k) c x h =
      let r = fingerprint_transport build now (pos 0) proxy_url "" c.transports in
      (
        k,
        r.0,
        refl,
        failed_with-ok "换取 token 失败: " (read_token (remote.token r.0 (token_request k verifier)))
            (record c { transports = r.1 }) x h,
      )

  authorize_step-ok :
      (now : ℕ) (client : Client) (session_key proxy_url scope org : String)
      (verifier state : Result String) (c : Connections Client T) (x : Exchanged)
      → get_organization_uuid (remote.organizations client session_key) ≡ ok org
      → (authorize_step new_client l build remote now client session_key proxy_url scope org
          verifier state c).0
        ≡ ok x
      → Trail client verifier state session_key scope x
  unfolding authorize_step
  authorize_step-ok now client session_key proxy_url scope org (err e) state c x o h = ground arith
  authorize_step-ok now client session_key proxy_url scope org (ok v) (err e) c x o h = ground arith
  authorize_step-ok now client session_key proxy_url scope org (ok v) (ok st) c x o h =
      let code =
        get_authorization_code remote.parse_query
          (remote.authorize client (authorize_request session_key org v st scope)) in
      let (k, t, a, r) = token_step-ok now proxy_url v code c x h in
      record {
        org = org;
        code_verifier = v;
        sent_state = st;
        code = k;
        transport = t;
        generated = refl;
        stated = refl;
        found = o;
        authorized = a;
        answered = r;
      }

  organization_step-ok :
      (now : ℕ) (client : Client) (session_key proxy_url scope : String)
      (org verifier state : Result String) (c : Connections Client T) (x : Exchanged)
      → get_organization_uuid (remote.organizations client session_key) ≡ org
      → (organization_step new_client l build remote now client session_key proxy_url scope org
          verifier state c).0
        ≡ ok x
      → Trail client verifier state session_key scope x
  unfolding organization_step
  organization_step-ok now client session_key proxy_url scope (err e) verifier state c x o h =
      ground arith
  organization_step-ok now client session_key proxy_url scope (ok org) verifier state c x o h =
      authorize_step-ok now client session_key proxy_url scope org verifier state c x o h

  -- An exchange that succeeds had no proxy, and its token comes from the request with the code that the
  -- authorization answered for the organization of the session key, and with the verifier whose
  -- challenge the authorization was sent.
  pub exchange_session_key-ok :
      (now : ℕ) (verifier state : Result String) (session_key proxy_url scope : String)
      (c : Connections Client T) (x : Exchanged)
      → (exchange_session_key_with_scope new_client l build remote now verifier state session_key
          proxy_url scope c).0
        ≡ ok x
      → (text_eq (trim_space (codes proxy_url)) [] ≡ true)
        × Trail
            (get_client new_client l now proxy_url c.clients).0
            verifier
            state
            session_key
            scope
            x
  unfolding exchange_session_key_with_scope
  exchange_session_key-ok now verifier state session_key proxy_url scope c x =
      elim (Bool-cases (text_eq (trim_space (codes proxy_url)) [])) [
        | inl e ↦
            rw (e, exchange_session_key_with_scope)
              (λ h.
                let r = get_client new_client l now proxy_url c.clients in
                (
                  refl,
                  organization_step-ok now r.0 session_key proxy_url scope
                      (get_organization_uuid (remote.organizations r.0 session_key)) verifier state
                      (record c { clients = r.1 }) x refl h,
                ))
        | inr e ↦ rw (e, exchange_session_key_with_scope) (λ h. ground arith)
      ]

  -- A proxy is refused before a connection is taken.
  pub exchange_session_key-proxy :
      (now : ℕ) (verifier state : Result String) (session_key proxy_url scope : String)
      (c : Connections Client T)
      → text_eq (trim_space (codes proxy_url)) [] ≡ false
      → exchange_session_key_with_scope new_client l build remote now verifier state session_key
          proxy_url scope c
        ≡ (err "session_key exchange does not support proxy_url", c)
  unfolding exchange_session_key_with_scope
  exchange_session_key-proxy now verifier state session_key proxy_url scope c h = rw h refl
