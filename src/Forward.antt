-- ===== src/Forward.antt =====
-- internal/gateway/forward.go: the path of a request and `forwardOAuth`, which ties the token manager,
-- the registry, the sidecar and the verdicts together. The identity gate for Claude Code clients, the
-- upstream and the handlers of its answer are arguments; the upstream sees the account with the
-- credentials of that moment. The dispatch to the handlers is in Forward/Dispatch, the bodies in
-- Forward/Body; logging is left out.
pub mod Tokens
pub mod Dispatch
pub mod Verdicts
pub mod Whole
pub mod Body
pub mod Cloak
mod Examples
use Prim.Native.String
use airgate_claude.Prelude.{
  ℕ, Bool, true, false, ◌&&◌, [], ◌∷◌, ◌⊎◌, inl, inr, Option, none, some, String, string_key, ◌==◌,
  if◌then◌else◌, leb,
}
use airgate_claude.Errors.{Outcome, OutcomeKind, success, transient_outcome, account_dead_outcome}
use airgate_claude.TokenManager.{
  Account, Credentials, credential, Failure, refresh_error, context_error, is_account_error,
}
use airgate_claude.TokenManager.States.{Manager}
use airgate_claude.TokenManager.Refresh.{Attempt, Reply, ensure_valid_token}
use airgate_claude.Registry.{Registry, register}
use airgate_claude.Sidecar.{Runner, fire_refresh_probe, schedule_count_tokens}

-- `resolveRequestPath` of the original path, empty if the host sends none, and the body.
unfoldable pub resolve_request_path : String → String → String
resolve_request_path original body =
    if original == "" then if body == "" then "/v1/models" else "/v1/messages" else original

-- A nil registry or sidecar is `none`.
pub record Gateway : Type 0 where
  pub manager : Manager
  pub registry : Option Registry
  pub sidecar : Option Runner

-- How the upstream request goes: it cannot be built, it gets no answer, or an answer with a status.
pub data Sent (Response : Type 0) : Type 0 where
  not_built : String → Sent Response
  not_reached : String → Sent Response
  answered : ℕ → Response → Sent Response

-- The outcome, the credentials that it hands to the host, the error, and what the call leaves.
pub record Forwarded (Body Headers Usage : Type 0) : Type 0 where
  pub outcome : Outcome Body Headers Usage
  pub updated : Option Credentials
  pub error : Option String
  pub account : Account
  pub gateway : Gateway

abbrev fail :
    {Body Headers Usage : Type 0}
    → (String → Outcome Body Headers Usage)
    → String
    → Account
    → Gateway
    → Forwarded Body Headers Usage
fail verdict reason a g = record {
  outcome = verdict reason;
  updated = none;
  error = some reason;
  account = a;
  gateway = g;
}

abbrev failure_text : Failure → String
failure_text (refresh_error message fault) = message
failure_text (context_error message) = message

-- `len(updatedCreds) > 0`
abbrev pub some_credentials : Option Credentials → Option Credentials
some_credentials none = none
some_credentials (some []) = none
some_credentials (some (c ∷ cs)) = some (c ∷ cs)

unfoldable pub seen_by_registry : ℕ → Account → Gateway → Gateway
unfolding register
seen_by_registry now a g = elim g.registry [
  | none ↦ g
  | some r ↦ record g { registry = some (register now (some a) r) }
]

unfoldable pub probe : Option Credentials → Account → Gateway → Gateway
unfolding fire_refresh_probe
probe none a g = g
probe (some u) a g = elim g.sidecar [
  | none ↦ g
  | some s ↦ record g { sidecar = some (fire_refresh_probe (some a) s) }
]

-- The queue of the sidecar after an answer; `none` is the panic of the runner.
unfoldable pub count_tokens : Bool → Account → String → Gateway → Option Gateway
unfolding schedule_count_tokens
count_tokens false a body g = some g
count_tokens true a body g = elim g.sidecar [
  | none ↦ some g
  | some s ↦ elim (schedule_count_tokens a.id body s) [
    | none ↦ none
    | some s' ↦ some (record g { sidecar = some s' })
  ]
]

abbrev pub is_success : OutcomeKind → Bool
is_success k = elim k [ success ↦ true | _ ↦ false ]

abbrev pub no_error : Option String → Bool
no_error e = elim e [ none ↦ true | some _ ↦ false ]

module _ {Body Headers Usage Response : Type 0} (send : Account → Sent Response)
    (on_error : Response → Outcome Body Headers Usage)
    (on_answer : Response → Outcome Body Headers Usage × Option String) (body : String) where
  -- The call of the upstream and what follows it.
  unfoldable pub exchange :
      Sent Response → Option Credentials → Account → Gateway → Option (Forwarded Body Headers Usage)
  unfolding count_tokens
  exchange (not_built e) updated a g =
      some (fail transient_outcome (String.◌++◌ "构建上游请求失败: " e) a g)
  exchange (not_reached e) updated a g =
      some (record (fail transient_outcome e a g) { error = some (String.◌++◌ "请求上游失败: " e) })
  exchange (answered status r) updated a g =
      let (o, e) = on_answer r in
      if leb 400 status
      then some (record {
        outcome = on_error r;
        updated = updated;
        error = none;
        account = a;
        gateway = g;
      })
      else elim (count_tokens (no_error e && is_success o.kind) a body g) [
        | none ↦ none
        | some g' ↦
            some (record { outcome = o; updated = updated; error = e; account = a; gateway = g' })
      ]

  -- What follows a call of `ensureValidToken` that returned no error.
  unfoldable pub with_token :
      Option Credentials → Account → Gateway → Option (Forwarded Body Headers Usage)
  unfolding exchange probe
  with_token updated a g =
      let g' = probe updated a g in
      if credential "access_token" a.credentials == ""
      then some (fail account_dead_outcome "OAuth 账号缺少 access_token" a g')
      else exchange (send a) updated a g'

  module _ (format : ℕ → String) (parse : String → Option ℕ) where
    -- `gate` is the outcome of a request that the identity gate turns away.
    unfoldable pub forward_oauth :
        ℕ
        → (ℕ → Attempt)
        → Option (Outcome Body Headers Usage)
        → Account
        → Gateway
        → Option (Forwarded Body Headers Usage)
    unfolding with_token seen_by_registry
    forward_oauth now env (some refused) a g =
        some (record { outcome = refused; updated = none; error = none; account = a; gateway = g })
    forward_oauth now env none a g =
        let r = ensure_valid_token format parse now env a g.manager in
        let g' = record (seen_by_registry now a g) { manager = r.manager } in
        elim r.result [
          | inr updated ↦ with_token (some_credentials updated) r.account g'
          | inl f ↦ some (
              fail (if is_account_error f then account_dead_outcome else transient_outcome)
                (String.◌++◌ "token 刷新失败: " (failure_text f)) r.account g')
        ]
