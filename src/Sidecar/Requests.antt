-- ===== src/Sidecar/Requests.antt =====
-- `pollOne`, `runCountTokens` and `runProbe`: what the loops send for an account.
use airgate_claude.Prelude.{
  ℕ, suc, ◌+◌, ◌++◌, length, subst, ◌≡◌, refl, Bool, true, List, [], ◌∷◌, Option, none, some,
  String, string_key, int_key, ◌==◌, if◌then◌else◌, arith,
}
use airgate_claude.Prelude.Int.{ℤ}
use airgate_claude.GoMap.{Map, get}
use airgate_claude.TokenManager.{Account}
use airgate_claude.Registry.{Snapshot, Registry, register, uses_token}
use airgate_claude.Registry.Laws.{register-get}
use airgate_claude.Sidecar.{Job}

-- A credential, empty if it is missing.
unfoldable pub credential : String → Map String String → String
credential k m = elim (get k m) [ none ↦ "" | some v ↦ v ]

-- The arguments of a call of `fetchUsage`.
pub record UsageCall : Type 0 where
  pub account_id : ℤ
  pub access_token : String
  pub proxy_url : String
  pub tls_profile : String

unfoldable pub poll_one : Snapshot → Option UsageCall
unfolding credential
poll_one s =
    if credential "access_token" s.credentials == ""
    then none
    else some (record {
      account_id = s.id;
      access_token = credential "access_token" s.credentials;
      proxy_url = credential "proxy_url" s.credentials;
      tls_profile = credential "tls_profile" s.credentials;
    })

-- One round of the poller: `ctx.Err()` is read before each account, given for its index from here.
unfoldable pub poll_round : (ℕ → Bool) → ℕ → List Snapshot → List (Option UsageCall)
unfolding poll_one
poll_round ended i [] = []
poll_round ended i (s ∷ ss) =
    let rest = poll_round ended (suc i) ss in if ended i then [] else poll_one s ∷ rest

-- The account that a job or a probe is sent for.
abbrev pub account_of : Snapshot → Account
account_of s = record {
  id = s.id;
  kind = s.account_type;
  proxy_url = s.proxy_url;
  credentials = s.credentials;
}

unfoldable pub run_count_tokens : Job → Registry → Option (Account × String)
run_count_tokens j r = elim (get j.account_id r.accounts) [
  | none ↦ none
  | some s ↦ some (account_of s, j.body)
]

-- A job for an OAuth or session-key account is sent with the fields that the account had when it was
-- last registered, and with the job's body.
pub run_count_tokens-register :
    (now : ℕ) (a : Account) (r : Registry) (body : String)
    → uses_token a ≡ true
    → run_count_tokens (record { account_id = a.id; body = body }) (register now (some a) r)
      ≡ some (a, body)
unfolding run_count_tokens
run_count_tokens-register now a r body u = rw (register-get now a r u, run_count_tokens) refl

-- A round of the poller that is cancelled before an account polls none of those after it: what it
-- sends is what it sends for the accounts before.
pub poll_round_cancelled :
    (ended : ℕ → Bool) (i : ℕ) (ss ts : List Snapshot)
    → ended (i + length ss) ≡ true
    → poll_round ended i (ss ++ ts) ≡ poll_round ended i ss
unfolding poll_round
poll_round_cancelled ended i [] [] h = refl
poll_round_cancelled ended i [] (t ∷ ts) h =
    let same : i + 0 ≡ i = omega arith in
    let now : ended i ≡ true = subst (λ n. ended n ≡ true) same h in rw now refl
poll_round_cancelled ended i (s ∷ ss) ts h =
    let same : i + suc (length ss) ≡ suc i + length ss = omega arith in
    let later : ended (suc i + length ss) ≡ true = subst (λ n. ended n ≡ true) same h in
    rw (poll_round_cancelled ended (suc i) ss ts later) refl
