-- ===== src/OAuth/Flows.antt =====
-- The life of an OAuth session: what a start stores is exchanged by the first callback in time, with
-- the verifier whose challenge was sent, and by no second one.
use airgate_claude.Prelude.{
  Bool-cases, ◌∙◌, ℕ, ◌-◌, ◌≤◌, ◌≡◌, refl, false, List, [], ◌∷◌, Option, none, some, String,
  string_key, ◌==◌, arith, All, inl, inr, Option-cases,
}
use text.Mathlib.TextEquality.{eq_iff}
use airgate_claude.GoMap.{Map, get, delete}
use airgate_claude.GoMap.Laws.{get-put_self, get-delete}
use airgate_claude.GoMap.Distinct.{Distinct, get-sweep, sweep-Distinct, delete-Distinct}
use airgate_claude.OAuth.{
  Session, expired, clean_expired, set_session, get_session, consume, oauth_session_ttl,
}
use airgate_claude.OAuth.Store.{
  get-set_session-none, get-clean_expired-none, get-delete-none, get-get_session-none, IsValid,
  set_session-IsValid, clean_expired-IsValid,
}
use airgate_claude.OAuth.Code.{TokenRequest, token_request}
use airgate_claude.OAuth.Flow.{
  started, start_oauth, authorize_query, unknown_session, exchanged, exchange_session,
  handle_oauth_callback,
}

module _ (challenge : String → String) {Answer : Type 0} (exchange : TokenRequest → Answer) where
  start-get :
      (now : ℕ) (verifier state : String) (m : Map String Session)
      → get state (start_oauth challenge now (some verifier) (some state) m).1
        ≡ some (record { state = state; code_verifier = verifier; created_at = some now })
  unfolding start_oauth set_session
  start-get now verifier state m = get-put_self state _ _

  -- What other flows and lookups do to the store.
  pub data Event : Type 0 where
    starting : ℕ → Option String → Option String → Event
    calling_back : ℕ → String → String → Event
    looking_up : ℕ → String → Event
    deleting : String → Event
    cleaning : ℕ → Event

  unfoldable pub step : Event → Map String Session → Map String Session
  unfolding start_oauth handle_oauth_callback get_session clean_expired
  step (starting now verifier state) m = (start_oauth challenge now verifier state m).1
  step (calling_back now code state) m = (handle_oauth_callback exchange now code state m).1
  step (looking_up now state) m = (get_session now state m).1
  step (deleting state) m = delete state m
  step (cleaning now) m = clean_expired now m

  unfoldable pub run : List Event → Map String Session → Map String Session
  unfolding step
  run [] m = m
  run (e ∷ es) m = run es (step e m)

  -- The event starts no flow, takes no session of this state, and looks at the clock not after `later`.
  abbrev pub Spares : String → ℕ → Event → Type 0
  Spares state later (starting now verifier s) = ⊥
  Spares state later (calling_back now code s) = (s == state) ≡ false
  Spares state later (looking_up now s) = now ≤ later
  Spares state later (deleting s) = (s == state) ≡ false
  Spares state later (cleaning now) = now ≤ later

  expired-later :
      (now later : ℕ) (s : Session) → now ≤ later → expired later s ≡ false → expired now s ≡ false
  unfolding expired
  expired-later now later s le h = ground (arith, le, h)

  -- The session under `state` is still there, and the keys of the store are distinct.
  abbrev Stored : String → Session → Map String Session → Type 0
  Stored state s m = (get state m ≡ some s) × Distinct m

  clean_expired-Stored :
      (now later : ℕ) (state : String) (s : Session) (m : Map String Session)
      → now ≤ later
      → expired later s ≡ false
      → Stored state s m
      → Stored state s (clean_expired now m)
  unfolding clean_expired
  clean_expired-Stored now later state s m le live (g, d) = (
    get-sweep (λ _ x. expired now x) state m d ∙ rw g (rw (expired-later now later s le live) refl),
    sweep-Distinct (λ _ x. expired now x) m d,
  )

  delete-Stored :
      (k state : String) (s : Session) (m : Map String Session)
      → (k == state) ≡ false
      → Stored state s m
      → Stored state s (delete k m)
  delete-Stored k state s m n (g, d) = (get-delete k state m ∙ rw n g, delete-Distinct k m d)

  get_session-Stored :
      (now later : ℕ) (k state : String) (s : Session) (m : Map String Session)
      → now ≤ later
      → expired later s ≡ false
      → Stored state s m
      → Stored state s (get_session now k m).1
  unfolding get_session
  get_session-Stored now later k state s m le live (g, d) = elim (Option-cases (get k m)) [
    | inl e ↦ rw (e, get_session) (g, d)
    | inr (t, e) ↦ elim (Bool-cases (expired now t)) [
      | inr x ↦ rw (e, get_session) (rw x (g, d))
      | inl x ↦
          let other : (k == state) ≡ false =
            ground (arith, x, e, g, expired-later now later s le live, eq_iff k state) in
          rw (e, get_session) (rw x (delete-Stored k state s m other (g, d)))
    ]
  ]

  step-Stored :
      (later : ℕ) (state : String) (s : Session) (e : Event) (m : Map String Session)
      → Spares state later e
      → expired later s ≡ false
      → Stored state s m
      → Stored state s (step e m)
  unfolding step handle_oauth_callback consume
  step-Stored later state s (starting now verifier k) m n live h = absurd n
  step-Stored later state s (calling_back now code k) m n live h = delete-Stored k state s m n h
  step-Stored later state s (looking_up now k) m n live h =
      get_session-Stored now later k state s m n live h
  step-Stored later state s (deleting k) m n live h = delete-Stored k state s m n h
  step-Stored later state s (cleaning now) m n live h =
      clean_expired-Stored now later state s m n live h

  run-Stored :
      (later : ℕ) (state : String) (s : Session) (es : List Event) (m : Map String Session)
      → All (Spares state later) es
      → expired later s ≡ false
      → Stored state s m
      → Stored state s (run es m)
  unfolding run
  run-Stored later state s [] m n live h = h
  run-Stored later state s (e ∷ es) m n live h =
      run-Stored later state s es (step e m) n.1 live (step-Stored later state s e m n.0 live h)

  start-Stored :
      (now : ℕ) (verifier state : String) (m : Map String Session)
      → (state == "") ≡ false
      → IsValid m
      → Stored state
          (record { state = state; code_verifier = verifier; created_at = some now })
          (start_oauth challenge now (some verifier) (some state) m).1
  unfolding start_oauth
  start-Stored now verifier state m n v = (
    start-get now verifier state m,
    (set_session-IsValid now state
        (record { state = state; code_verifier = verifier; created_at = some now })
        (clean_expired now m) n (clean_expired-IsValid now m v)).distinct,
  )

  -- A callback within the time to live after the start of its flow asks the token endpoint with the
  -- verifier whose challenge the start put into the authorization URL, whatever callbacks and deletions for
  -- other states, lookups and cleanups came between them, but no other start, which may evict the session
  -- from a full store. The state is not empty, and the store is valid at the start.
  pub callback-start :
      (now later : ℕ) (verifier state code : String) (es : List Event) (m : Map String Session)
      → (state == "") ≡ false
      → IsValid m
      → later - now ≤ oauth_session_ttl
      → All (Spares state later) es
      → let (r, m') = start_oauth challenge now (some verifier) (some state) m in
        (r ≡ started (record { query = authorize_query (challenge verifier) state; state = state }))
        × ((handle_oauth_callback exchange later code state (run es m')).0
            ≡ exchanged (token_request code verifier) (exchange (token_request code verifier)))
  unfolding start_oauth handle_oauth_callback exchange_session consume expired
  callback-start now later verifier state code es m n v h spared =
      let s : Session = record { state = state; code_verifier = verifier; created_at = some now } in
      let live : expired later s ≡ false = ground (arith, h) in
      (
        refl,
        rw
            (
              (run-Stored later state s es
                  (start_oauth challenge now (some verifier) (some state) m).1 spared live
                  (start-Stored now verifier state m n v)).0,
              exchange_session,
            )
            (ground (arith, h)),
      )

  -- The event starts no flow with this state.
  abbrev pub Elsewhere : String → Event → Type 0
  Elsewhere state (starting now (some verifier) (some s)) = (s == state) ≡ false
  Elsewhere state (starting now none s) = Unit
  Elsewhere state (starting now (some verifier) none) = Unit
  Elsewhere state (calling_back now code s) = Unit
  Elsewhere state (looking_up now s) = Unit
  Elsewhere state (deleting s) = Unit
  Elsewhere state (cleaning now) = Unit

  get-step-none :
      (state : String) (e : Event) (m : Map String Session)
      → Elsewhere state e
      → get state m ≡ none
      → get state (step e m) ≡ none
  unfolding step start_oauth handle_oauth_callback consume
  get-step-none state (starting now (some verifier) (some s)) m n h =
      get-set_session-none now state s
        (record { state = s; code_verifier = verifier; created_at = some now })
        (clean_expired now m) n (get-clean_expired-none now state m h)
  get-step-none state (starting now none s) m n h = get-clean_expired-none now state m h
  get-step-none state (starting now (some verifier) none) m n h =
      get-clean_expired-none now state m h
  get-step-none state (calling_back now code s) m n h = get-delete-none state s m h
  get-step-none state (looking_up now s) m n h = get-get_session-none now state s m h
  get-step-none state (deleting s) m n h = get-delete-none state s m h
  get-step-none state (cleaning now) m n h = get-clean_expired-none now state m h

  get-run-none :
      (state : String) (es : List Event) (m : Map String Session)
      → All (Elsewhere state) es
      → get state m ≡ none
      → get state (run es m) ≡ none
  unfolding run
  get-run-none state [] m a h = h
  get-run-none state (e ∷ es) m a h =
      get-run-none state es (step e m) a.1 (get-step-none state e m a.0 h)

  -- A session is used once: after a callback for its state, successful or not, every further callback
  -- for that state is turned away before the token endpoint is asked, whatever other flows do, until
  -- a flow starts with that state again.
  pub callback_once :
      (now later : ℕ) (code code' state : String) (es : List Event) (m : Map String Session)
      → All (Elsewhere state) es
      → (handle_oauth_callback exchange later code' state
          (run es (handle_oauth_callback exchange now code state m).1)).0
        ≡ unknown_session
  unfolding handle_oauth_callback consume
  callback_once now later code code' state es m a =
      let gone : get state (delete state m) ≡ none =
        ground (arith, get-delete state state m, eq_iff state state) in
      rw (get-run-none state es (delete state m) a gone, exchange_session) refl

  -- The token endpoint is asked only for a session that the store held under the state of the callback
  -- and that had not expired, and with the verifier of that session.
  pub callback-exchanged :
      (now : ℕ) (code state : String) (m : Map String Session) (r : TokenRequest) (a : Answer)
      → (handle_oauth_callback exchange now code state m).0 ≡ exchanged r a
      → (s : Session) × (get state m ≡ some s)
        × (expired now s ≡ false)
        × (r ≡ token_request code s.code_verifier)
        × (a ≡ exchange r)
  unfolding handle_oauth_callback consume exchange_session
  callback-exchanged now code state m r a h = elim (Option-cases (get state m)) [
    | inl e ↦ absurd (ground arith)
    | inr (s, e) ↦ (s, e, ground arith, ground arith, ground arith)
  ]
