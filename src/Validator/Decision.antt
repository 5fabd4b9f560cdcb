-- ===== src/Validator/Decision.antt =====
-- Which requests the validator accepts.
use airgate_claude.Prelude.{
  ℕ, Bool, true, false, not, ◌&&◌, ◌||◌, [], ◌∷◌, String, string_key, ◌==◌, if◌then◌else◌, ◌≡◌,
  refl, arith,
}
use airgate_claude.Prelude.Text.{codes}
use airgate_claude.Headers.{Text}
use airgate_claude.Headers.Http.{Header, header_get}
use airgate_claude.Json.{Json}
use airgate_claude.Validator.{
  accepted, refused, has, user_agent, has_suffix, is_startup_probe, system_prompt_matches_cc,
  validate_claude_code_request,
}
use airgate_claude.Validator.Patterns.{matches_user_agent, matches_user_id}

abbrev pub is_message : Text → Bool
is_message path = has_suffix path (codes "/v1/messages")

-- The guards in the order of the code, over the outcomes of their tests.
guards-ok :
    (internal agent message probe version beta app no_id id prompt : Bool)
    → (no_id ≡ true → id ≡ false)
    → (if internal
        then accepted
        else if not agent
        then refused "user-agent mismatch"
        else if not message
        then accepted
        else if probe
        then accepted
        else if not (app || (app || (beta || (version || false))))
        then refused "missing required CC headers"
        else if not version
        then refused "missing anthropic-version"
        else if not beta
        then refused "missing anthropic-beta"
        else if not app && not app
        then refused "missing x-app"
        else if no_id
        then refused "missing metadata.user_id"
        else if not id
        then refused "metadata.user_id format mismatch"
        else if not prompt
        then refused "system prompt mismatch"
        else accepted).ok
      ≡ (internal || (agent && (not message || probe || (version && beta && app && id && prompt))))
guards-ok true agent message probe version beta app no_id id prompt h = refl
guards-ok false false message probe version beta app no_id id prompt h = refl
guards-ok false true false probe version beta app no_id id prompt h = refl
guards-ok false true true true version beta app no_id id prompt h = refl
guards-ok false true true false false false false no_id id prompt h = refl
guards-ok false true true false false false true no_id id prompt h = refl
guards-ok false true true false false true false no_id id prompt h = refl
guards-ok false true true false false true true no_id id prompt h = refl
guards-ok false true true false true false false no_id id prompt h = refl
guards-ok false true true false true false true no_id id prompt h = refl
guards-ok false true true false true true false no_id id prompt h = refl
guards-ok false true true false true true true true id prompt h = rw (h refl) refl
guards-ok false true true false true true true false false prompt h = refl
guards-ok false true true false true true true false true false h = refl
guards-ok false true true false true true true false true true h = refl

no_user_id : (s : String) → (s == "") ≡ true → matches_user_id (codes s) ≡ false
unfolding matches_user_id
no_user_id s h = rw ((string_key.same_iff s "").0 h) refl

brace_refused : (rest : Text) → matches_user_id (b'{' ∷ rest) ≡ false
unfolding matches_user_id
brace_refused rest = refl

module _ {R J : Type 0} (g : Json R J) (lower : ℕ → ℕ) where
  -- Everything that a request for a message must have.
  abbrev pub is_complete : R → Header → Bool
  is_complete body h =
      has "anthropic-version" h
      && has "anthropic-beta" h
      && has "X-App" h
      && matches_user_id (codes (g.text (g.lookup body ("metadata" ∷ "user_id" ∷ []))))
      && system_prompt_matches_cc g lower body

  -- A request is accepted iff it is the host's own, or has the user agent of the client and is no
  -- message, or a startup probe, or complete: with the version, beta and app headers, a user identifier
  -- of the known form and a system prompt that is similar to one of the client's.
  pub validate_claude_code_request_lem :
      (path : Text) (body : R) (h : Header)
      → (validate_claude_code_request g lower path body h).ok ≡ (
          has "X-Airgate-Internal" h
          || (matches_user_agent (user_agent h)
              && (not (is_message path) || is_startup_probe g body || is_complete body h)))
  unfolding validate_claude_code_request header_get
  validate_claude_code_request_lem path body h =
      let id = g.text (g.lookup body ("metadata" ∷ "user_id" ∷ [])) in
      guards-ok (has "X-Airgate-Internal" h) (matches_user_agent (user_agent h)) (is_message path)
        (is_startup_probe g body) (has "anthropic-version" h) (has "anthropic-beta" h)
        (has "X-App" h) (id == "") (matches_user_id (codes id))
        (system_prompt_matches_cc g lower body) (no_user_id id)

  -- A user identifier in JSON, which starts with a brace, is refused: a message that is neither the
  -- host's own nor a startup probe is turned away when it has one.
  pub validate-json_id :
      (path : Text) (body : R) (h : Header) (rest : Text)
      → has "X-Airgate-Internal" h ≡ false
      → is_message path ≡ true
      → is_startup_probe g body ≡ false
      → codes (g.text (g.lookup body ("metadata" ∷ "user_id" ∷ []))) ≡ b'{' ∷ rest
      → (validate_claude_code_request g lower path body h).ok ≡ false
  validate-json_id path body h rest i m p j =
      let no : matches_user_id (codes (g.text (g.lookup body ("metadata" ∷ "user_id" ∷ []))))
          ≡ false =
        rw j (brace_refused rest) in
      ground (arith, validate_claude_code_request_lem path body h, no)
