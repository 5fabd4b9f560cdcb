-- ===== src/OAuth/Code.antt =====
-- The authorization code on its way to the token endpoint: `getOrganizationUUID`,
-- `getAuthorizationCodeWithScope` and `exchangeCodeForToken` between the requests that they send.
use Prim.Native.String
use Prim.Native.Char.{Char, code}
use text.Mathlib.TextLemmas.{nil-append, cons-append}
use text.Mathlib.TextEquality.{eq_iff}
use airgate_claude.Prelude.{
  ◌≡◌, refl, Bool, true, false, List, [], ◌∷◌, ◌++◌, Option, none, some, String, string_key, ◌==◌,
  if◌then◌else◌, nat_eq, arith, ap, ◌∙◌, any,
}

pub record Org : Type 0 where
  pub uuid : String
  pub name : String
  pub raven_type : Option String

abbrev pub is_team : Org → Bool
is_team o = elim o.raven_type [ none ↦ false | some t ↦ t == "team" ]

unfoldable pub first_team : List Org → Option Org
first_team [] = none
first_team (o ∷ os) = if is_team o then some o else first_team os

-- The choice among the organizations of the answer; `none` is the error for an empty list.
unfoldable pub pick_organization : List Org → Option String
unfolding first_team
pick_organization [] = none
pick_organization (o ∷ os) = elim (first_team (o ∷ os)) [
  | some t ↦ some t.uuid
  | none ↦ some o.uuid
]

-- The code that the redirect carries, joined to the state that it carries; `none` is the error for
-- an empty code.
unfoldable pub full_code : String → String → Option String
full_code code state =
    if code == ""
    then none
    else if state == ""
    then some code
    else some (String.◌++◌ code (String.◌++◌ "#" state))

abbrev is_hash : Char → Bool
is_hash c = nat_eq (code c) b'#'

-- `code[:idx]` and `code[idx+1:]` at the first `#`; without one, the whole code and no state.
unfoldable pub split_code : String → String × String
split_code String.[] = (String.[], String.[])
split_code (String.◌∷◌ c s) =
    let (code, state) = split_code s in
    if is_hash c then (String.[], s) else (String.◌∷◌ c code, state)

pub record TokenRequest : Type 0 where
  pub code : String
  pub code_verifier : String
  pub state : Option String

unfoldable pub token_request : String → String → TokenRequest
unfolding split_code
token_request code verifier =
    let (auth_code, code_state) = split_code code in
    record {
      code = auth_code;
      code_verifier = verifier;
      state = if code_state == "" then none else some code_state;
    }

abbrev pub NoHash : String → Type 0
NoHash String.[] = Unit
NoHash (String.◌∷◌ c s) = (is_hash c ≡ false) × NoHash s

split_code-append :
    (a s : String) → NoHash a → split_code (String.◌++◌ a (String.◌++◌ "#" s)) ≡ (a, s)
unfolding split_code
split_code-append String.[] s h = rw nil-append (rw (cons-append) (rw nil-append refl))
split_code-append (String.◌∷◌ c a) s h =
    rw cons-append (rw (split_code-append a s h.1) (rw h.0 refl))

split_code_plain : (a : String) → NoHash a → split_code a ≡ (a, "")
unfolding split_code
split_code_plain String.[] h = refl
split_code_plain (String.◌∷◌ c a) h = rw (split_code_plain a h.1) (rw h.0 refl)

split_code-full_code :
    (auth_code state full : String)
    → NoHash auth_code
    → full_code auth_code state ≡ some full
    → split_code full ≡ (auth_code, state)
unfolding full_code
split_code-full_code auth_code state full n h =
    ground
      (arith, eq_iff state "", split_code-append auth_code state n, split_code_plain auth_code n)

-- The token endpoint is asked with the code and the state that the redirect carried, if that code is
-- not empty and has no `#` of its own: joining the two and splitting them again loses nothing.
pub token_request-full_code :
    (auth_code state verifier full : String)
    → NoHash auth_code
    → full_code auth_code state ≡ some full
    → token_request full verifier ≡ record {
      code = auth_code;
      code_verifier = verifier;
      state = if state == "" then none else some state;
    }
unfolding full_code token_request
token_request-full_code auth_code state verifier full n h =
    rw (split_code-full_code auth_code state full n h) refl

any-append :
    (before after : List Org) (o : Org)
    → any is_team before ≡ false
    → is_team o ≡ true
    → first_team (before ++ o ∷ after) ≡ some o
unfolding first_team
any-append [] after o n t = rw t refl
any-append (b ∷ before) after o n t = ground (arith, any-append before after o)

first_team-none : (os : List Org) → any is_team os ≡ false → first_team os ≡ none
unfolding first_team
first_team-none [] n = refl
first_team-none (o ∷ os) n = ground (arith, first_team-none os)

fallback :
    (os : List Org)
    → any is_team os ≡ false
    → pick_organization os ≡ elim os [ [] ↦ none | b ∷ bs ↦ some b.uuid ]
unfolding pick_organization
fallback [] n = refl
fallback (o ∷ os) n = rw (first_team-none (o ∷ os) n, pick_organization) refl

pick-first_team :
    (os : List Org) (o : Org) → first_team os ≡ some o → pick_organization os ≡ some o.uuid
unfolding pick_organization first_team
pick-first_team [] o h = absurd (cc)
pick-first_team (b ∷ os) o h = rw (h, pick_organization) refl

-- The organization chosen is the first of the type `team`, wherever in the answer it stands. When
-- there is none, it is the first of all, and there must be one.
pub pick_organization_lem :
    (os : List Org)
    → ((before after : List Org) (o : Org)
        → any is_team before ≡ false
        → is_team o ≡ true
        → os ≡ before ++ o ∷ after
        → pick_organization os ≡ some o.uuid)
      × (any is_team os ≡ false
          → pick_organization os ≡ elim os [ [] ↦ none | b ∷ bs ↦ some b.uuid ])
unfolding pick_organization
pick_organization_lem os = (
  (λ before after o n t e. pick-first_team os o (ap first_team e ∙ any-append before after o n t)),
  fallback os,
)
