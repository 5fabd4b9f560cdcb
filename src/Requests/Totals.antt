-- ===== src/Requests/Totals.antt =====
-- Answers for many accounts: every one that is asked for is answered for.
use airgate_claude.Prelude.{
  some, ℕ, suc, Bool, true, false, ◌||◌, List, [], ◌∷◌, ◌++◌, any, String, string_key, ◌==◌,
  if◌then◌else◌, ◌≡◌, refl, arith, Bool-cases, inl, inr, All, sym, subst, map,
}
use airgate_claude.Prelude.Int.{ℤ, int_beq, int_beq_iff}
use airgate_claude.Prelude.Decimal.{decimal}
use airgate_claude.GoMap.{Map, put, has}
use airgate_claude.GoMap.Laws.{get-put, has-get}
use airgate_claude.TokenManager.{credential, Result, ok, err}
use airgate_claude.OAuth.SessionKey.{Exchanged}
use airgate_claude.Requests.{answered, read_usage, from_session_key}
use airgate_claude.Requests.Params.{
  UsageAccount, Env, Shared, BatchResult, account_reply, error_reply, Reply,
}
use airgate_claude.Requests.Windows.{Usage, AccountsResponse, AccountUsageError, usage_info}
use airgate_claude.Requests.Dispatch.{
  record_usage, fetch_all, batch_all, batch_result, connect, handle_cookie,
}

abbrev has_error : ℤ → List AccountUsageError → Bool
has_error id es = any (λ e. int_beq e.id id) es

-- The response has an entry for the account, or an error.
abbrev pub is_answered : {U : Type 0} → ℤ → AccountsResponse U → Bool
is_answered id r = has (decimal id) r.accounts || has_error id r.errors

has-put :
    {V : Type 0} (k j : String) (v : V) (m : Map String V)
    → has j (put k v m) ≡ (if k == j then true else has j m)
has-put k j v m = ground (arith, has-get j (put k v m), has-get j m, get-put k j v m)

has_error-append :
    (id : ℤ) (es : List AccountUsageError) (e : AccountUsageError)
    → has_error id (es ++ e ∷ []) ≡ (has_error id es || int_beq e.id id)
has_error-append id [] e = ground arith
has_error-append id (f ∷ es) e = ground (arith, has_error-append id es e)

module _ {Client T U : Type 0} (env : Env Client T U) where
  record_usage-is_answered :
      (now : ℕ) (id j : ℤ) (u : Result (Usage U)) (r : AccountsResponse U)
      → (is_answered id (record_usage env now id u r) ≡ true)
        × (is_answered j r ≡ true → is_answered j (record_usage env now id u r) ≡ true)
  unfolding record_usage
  record_usage-is_answered now id j (err e) r = ground (
    arith,
    has_error-append id r.errors (record { id = id; message = e }),
    has_error-append j r.errors (record { id = id; message = e }),
    int_beq_iff id id,
  )
  record_usage-is_answered now id j (ok u) r =
      let info = usage_info env.format env.parse env.positive now u in
      ground (
        arith,
        has-put (decimal id) (decimal id) info r.accounts,
        has-put (decimal id) (decimal j) info r.accounts,
        string_key.same_iff (decimal id) (decimal id),
      )

  fetch_all-keeps :
      (now : ℕ) (j : ℤ) (accounts : List UsageAccount) (s : Shared Client T)
      (r : AccountsResponse U)
      → is_answered j r ≡ true
      → is_answered j (fetch_all env now accounts s r).0 ≡ true
  unfolding fetch_all
  fetch_all-keeps now j [] s r h = h
  fetch_all-keeps now j (a ∷ more) s r h =
      elim (Bool-cases (credential "access_token" a.credentials == "")) [
        | inl e ↦ rw e (fetch_all-keeps now j more s r h)
        | inr e ↦
            let c =
              connect env now a.id (credential "proxy_url" a.credentials)
                (credential "tls_profile" a.credentials) s in
            let u = read_usage (env.servers.usage c.0 (credential "access_token" a.credentials)) in
            rw e (
              fetch_all-keeps now j more c.1 (record_usage env now a.id u r)
                ((record_usage-is_answered now a.id j u r).1 h))
      ]

  -- Every account with an access token has an entry in the response, or an error.
  abbrev pub IsComplete : List UsageAccount → AccountsResponse U → Type 0
  IsComplete accounts r =
      All (λ a. (credential "access_token" a.credentials == "") ≡ false → is_answered a.id r ≡ true)
        accounts

  fetch_all-skip :
      (now : ℕ) (a : UsageAccount) (more : List UsageAccount) (s : Shared Client T)
      (r : AccountsResponse U)
      → (credential "access_token" a.credentials == "") ≡ true
      → fetch_all env now (a ∷ more) s r ≡ fetch_all env now more s r
  unfolding fetch_all
  fetch_all-skip now a more s r e = rw e refl

  fetch_all-next :
      (now : ℕ) (a : UsageAccount) (more : List UsageAccount) (s : Shared Client T)
      (r : AccountsResponse U)
      → (credential "access_token" a.credentials == "") ≡ false
      → (s' : Shared Client T) × (u : Result (Usage U)) × (fetch_all env now (a ∷ more) s r
          ≡ fetch_all env now more s' (record_usage env now a.id u r))
  unfolding fetch_all
  fetch_all-next now a more s r e =
      let c =
        connect env now a.id (credential "proxy_url" a.credentials)
          (credential "tls_profile" a.credentials) s in
      let u = read_usage (env.servers.usage c.0 (credential "access_token" a.credentials)) in
      (c.1, u, rw e refl)

  -- Every account that has an access token gets an entry in the response, or an error, whatever the
  -- servers answer.
  pub fetch_all-IsComplete :
      (now : ℕ) (accounts : List UsageAccount) (s : Shared Client T) (r : AccountsResponse U)
      → IsComplete accounts (fetch_all env now accounts s r).0
  fetch_all-IsComplete now [] s r = tt
  fetch_all-IsComplete now (a ∷ more) s r =
      elim (Bool-cases (credential "access_token" a.credentials == "")) [
        | inl e ↦ (
          (λ h. ground (arith, h, e)),
          subst (λ x. IsComplete more x.0) (sym (fetch_all-skip now a more s r e))
              (fetch_all-IsComplete now more s r),
        )
        | inr e ↦
            let (s', u, q) = fetch_all-next now a more s r e in
            subst
              (λ x.
                ((credential "access_token" a.credentials == "") ≡ false
                  → is_answered a.id x.0 ≡ true)
                × IsComplete more x.0)
              (sym q)
              (
                (λ h.
                    fetch_all-keeps now a.id more s' (record_usage env now a.id u r)
                      ((record_usage-is_answered now a.id a.id u r).0)),
                fetch_all-IsComplete now more s' (record_usage env now a.id u r),
              )
      ]

  -- What a batch says of one session key, as the cookie request says it.
  abbrev pub same_answer : BatchResult → Reply U
  same_answer b =
      if b.status == "ok"
      then account_reply b.account_type b.credentials b.account_name
      else error_reply b.error

  -- The answers of the cookie request to these bodies, one after the other.
  abbrev pub singles :
      ℕ
      → (ℕ → Result String × Result String)
      → ℕ
      → List String
      → Shared Client T
      → List (Reply U) × Shared Client T
  singles now random i [] s = ([], s)
  singles now random i (body ∷ bodies) s =
      let (a, s') = handle_cookie env now (random i).0 (random i).1 body s in
      let (more, s'') = singles now random (suc i) bodies s' in (a.body ∷ more, s'')

  -- Each body is the cookie request for the session key at its place, which is not empty.
  abbrev pub AskFor : String → List String → List String → Type 0
  AskFor proxy_url [] [] = Unit
  AskFor proxy_url [] (body ∷ bodies) = ⊥
  AskFor proxy_url (k ∷ ks) [] = ⊥
  AskFor proxy_url (k ∷ ks) (body ∷ bodies) =
      ((scope : String) × (env.decode.cookie body
          ≡ some (record { session_key = k; proxy_url = proxy_url; scope = scope }))
        × ((k == "") ≡ false))
      × AskFor proxy_url ks bodies

  batch_result-answered :
      (now : ℕ) (r : Result Exchanged) (s : Shared Client T)
      → same_answer (batch_result env now r) ≡ (answered env now (r, s)).0.body
  unfolding batch_result
  batch_result-answered now (ok x) s = refl
  batch_result-answered now (err e) s = refl

  handle_cookie-asked :
      (now : ℕ) (verifier state : Result String) (k proxy_url scope body : String)
      (s : Shared Client T)
      → env.decode.cookie body
        ≡ some (record { session_key = k; proxy_url = proxy_url; scope = scope })
      → (k == "") ≡ false
      → handle_cookie env now verifier state body s
        ≡ answered env now (from_session_key env now verifier state k proxy_url s)
  unfolding handle_cookie
  handle_cookie-asked now verifier state k proxy_url scope body s d n =
      rw (d, handle_cookie) (rw n refl)

  -- For session keys none of which is empty, a batch gives each key the answer, and leaves the state, of
  -- cookie requests for these keys made one after the other; a key that fails stops none that follow.
  pub batch_all-singles :
      (now : ℕ) (random : ℕ → Result String × Result String) (i : ℕ) (proxy_url : String)
      (ks bodies : List String) (s : Shared Client T)
      → AskFor proxy_url ks bodies
      → (
        map same_answer (batch_all env now random i proxy_url ks s).0,
        (batch_all env now random i proxy_url ks s).1,
      )
        ≡ singles now random i bodies s
  unfolding batch_all
  batch_all-singles now random i proxy_url [] [] s h = refl
  batch_all-singles now random i proxy_url [] (body ∷ bodies) s h = absurd h
  batch_all-singles now random i proxy_url (k ∷ ks) [] s h = absurd h
  batch_all-singles now random i proxy_url (k ∷ ks) (body ∷ bodies) s ((scope, d, n), more) =
      let r = from_session_key env now (random i).0 (random i).1 k proxy_url s in
      rw (handle_cookie-asked now (random i).0 (random i).1 k proxy_url scope body s d n) (
        rw (batch_result-answered now r.0 r.1)
          (rw (sym (batch_all-singles now random (suc i) proxy_url ks bodies r.1 more)) refl))
