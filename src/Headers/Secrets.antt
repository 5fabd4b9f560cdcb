-- ===== src/Headers/Secrets.antt =====
-- Which secrets the headers of an upstream request carry.
use airgate_claude.Prelude.{
  true, false, ◌||◌, List, [], ◌∷◌, some, String, string_key, ◌==◌, ◌≡◌, refl, arith, Bool-cases,
  inl, inr, All, any, subst, map, ap, ◌∙◌,
}
use airgate_claude.Prelude.Text.{codes}
use airgate_claude.GoMap.{get, delete}
use airgate_claude.GoMap.Laws.{get-put, get-delete}
use airgate_claude.Headers.{Text, text_eq, oauth_beta, apikey_beta}
use airgate_claude.Headers.Parts.{text_eq_iff}
use airgate_claude.Headers.Http.{
  Header, cased, text_key, header_get, header_set, set_raw_header, canonical, has_newline,
}
use airgate_claude.Headers.Auth.{
  default_headers, set_default, set_defaults, is_raw_case_header, set_common, set_api_key,
  set_token, bearer, set_account, version_of, set_anthropic_auth_headers, is_token_account,
}
use airgate_claude.TokenManager.{Account, credential}

-- A write under the name `k` does not touch `j`.
abbrev Apart : Text → Text → Type 0
Apart j k =
    (text_eq k j ≡ false)
    × (text_eq (canonical k) j ≡ false)
    × (text_eq (canonical (canonical k)) j ≡ false)

get-set_raw-apart : (j k v : Text) (h : Header) → Apart j k → get j (set_raw_header k v h) ≡ get j h
unfolding set_raw_header
get-set_raw-apart j k v h (a, b, c) =
    let h1 = delete (canonical (canonical k)) h in
    let h2 = delete (canonical k) h1 in
    ground (
      arith,
      get-put k j (v ∷ []) (delete k h2),
      get-delete k j h2,
      get-delete (canonical k) j h1,
      get-delete (canonical (canonical k)) j h,
    )

get-set_raw :
    (k v : Text) (h : Header)
    → (has_newline k || has_newline v) ≡ false
    → get k (set_raw_header k v h) ≡ some (v ∷ [])
unfolding set_raw_header
get-set_raw k v h n =
    let h2 = delete (canonical k) (delete (canonical (canonical k)) h) in
    ground (arith, get-put k k (v ∷ []) (delete k h2), text_eq_iff k k)

get-header_set-apart : (j k v : Text) (h : Header) → Apart j k → get j (header_set k v h) ≡ get j h
unfolding header_set
get-header_set-apart j k v h (a, b, c) = ground (arith, get-put (canonical k) j (v ∷ []) h)

get-set_default-apart :
    (j : Text) (e : Text × Text) (h : Header) → Apart j e.0 → get j (set_default e h) ≡ get j h
unfolding set_default
get-set_default-apart j (k, v) h a = elim (Bool-cases (is_raw_case_header k)) [
  | inl e ↦ rw e (get-set_raw-apart j k v h a)
  | inr e ↦ rw e (get-header_set-apart j k v h a)
]

get-set_defaults-apart :
    (j : Text) (es : List (Text × Text)) (h : Header)
    → All (λ e. Apart j e.0) es
    → get j (set_defaults es h) ≡ get j h
unfolding set_defaults
get-set_defaults-apart j [] h a = refl
get-set_defaults-apart j (e ∷ es) h a =
    get-set_defaults-apart j es (set_default e h) a.1 ∙ get-set_default-apart j e h a.0

-- Every header of `es` has the name of a default header.
abbrev pub AllDefault : List (Text × Text) → Type 0
AllDefault = All (λ e. any (λ d. text_eq d.0 e.0) default_headers ≡ true)

named :
    (P : Text → Type 0) (ds : List (Text × Text)) (k : Text)
    → All (λ d. P d.0) ds
    → any (λ d. text_eq d.0 k) ds ≡ true
    → P k
named P [] k a h = ground (arith, h)
named P (d ∷ ds) k a h = elim (Bool-cases (text_eq d.0 k)) [
  | inl e ↦ subst P ((text_eq_iff d.0 k).0 e) a.0
  | inr e ↦ named P ds k a.1 (ground (arith, h, e))
]

default-Apart :
    (j : Text) (es : List (Text × Text))
    → All (λ d. Apart j d.0) default_headers
    → AllDefault es
    → All (λ e. Apart j e.0) es
default-Apart j [] d a = tt
default-Apart j (e ∷ es) d a = (named (Apart j) default_headers e.0 d a.0, default-Apart j es d a.1)

abbrev auth : Text
auth = codes "authorization"

abbrev key : Text
key = codes "x-api-key"

abbrev beta_name : Text
beta_name = codes "anthropic-beta"

-- A name in small letters: `http.Header` is read without regard to the case.
abbrev pub folded : Text → Text
folded = map (cased false)

-- A write under the name `k` touches no name that is `t` in small letters.
abbrev Elsewhere : Text → Text → Type 0
Elsewhere t k =
    (text_eq (folded k) t ≡ false)
    × (text_eq (folded (canonical k)) t ≡ false)
    × (text_eq (folded (canonical (canonical k))) t ≡ false)

folded-apart : (t j k : Text) → folded j ≡ t → text_eq (folded k) t ≡ false → text_eq k j ≡ false
folded-apart t j k h n = elim (Bool-cases (text_eq k j)) [
  | inr e ↦ e
  | inl e ↦
      let same : folded k ≡ t = ap folded ((text_eq_iff k j).0 e) ∙ h in
      ground (arith, n, (text_eq_iff (folded k) t).1 same)
]

Elsewhere-Apart : (t j k : Text) → folded j ≡ t → Elsewhere t k → Apart j k
Elsewhere-Apart t j k h (a, b, c) = (
  folded-apart t j k h a,
  folded-apart t j (canonical k) h b,
  folded-apart t j (canonical (canonical k)) h c,
)

Elsewhere-All :
    (t j : Text) (ds : List (Text × Text))
    → folded j ≡ t
    → All (λ d. Elsewhere t d.0) ds
    → All (λ d. Apart j d.0) ds
Elsewhere-All t j [] h a = tt
Elsewhere-All t j (d ∷ ds) h a = (Elsewhere-Apart t j d.0 h a.0, Elsewhere-All t j ds h a.1)

-- None of the headers that are written beside the secrets touches `j`.
record IsSecret (j : Text) : Type 0 where
  defaults : All (λ d. Apart j d.0) default_headers
  retry : Apart j (codes "X-Stainless-Retry-Count")
  accept : Apart j (codes "Accept")
  version : Apart j (codes "anthropic-version")
  content : Apart j (codes "content-type")

-- None of them touches a name that is `t` in small letters.
record IsSecretName (t : Text) : Type 0 where
  defaults : All (λ d. Elsewhere t d.0) default_headers
  retry : Elsewhere t (codes "X-Stainless-Retry-Count")
  accept : Elsewhere t (codes "Accept")
  version : Elsewhere t (codes "anthropic-version")
  content : Elsewhere t (codes "content-type")

auth-IsSecretName : IsSecretName auth
unfolding default_headers canonical
auth-IsSecretName = record {
  defaults = ground arith;
  retry = (refl, refl, refl);
  accept = (refl, refl, refl);
  version = (refl, refl, refl);
  content = (refl, refl, refl);
}

key-IsSecretName : IsSecretName key
unfolding default_headers canonical
key-IsSecretName = record {
  defaults = ground arith;
  retry = (refl, refl, refl);
  accept = (refl, refl, refl);
  version = (refl, refl, refl);
  content = (refl, refl, refl);
}

spelled-IsSecret : (t j : Text) → folded j ≡ t → IsSecretName t → IsSecret j
spelled-IsSecret t j h n = record {
  defaults = Elsewhere-All t j default_headers h n.defaults;
  retry = Elsewhere-Apart t j (codes "X-Stainless-Retry-Count") h n.retry;
  accept = Elsewhere-Apart t j (codes "Accept") h n.accept;
  version = Elsewhere-Apart t j (codes "anthropic-version") h n.version;
  content = Elsewhere-Apart t j (codes "content-type") h n.content;
}

auth-IsSecret : IsSecret auth
auth-IsSecret = spelled-IsSecret auth auth refl auth-IsSecretName

key-IsSecret : IsSecret key
key-IsSecret = spelled-IsSecret key key refl key-IsSecretName

beta-IsSecret : IsSecret beta_name
unfolding default_headers canonical
beta-IsSecret = record {
  defaults = ground arith;
  retry = (refl, refl, refl);
  accept = (refl, refl, refl);
  version = (refl, refl, refl);
  content = (refl, refl, refl);
}

module _ (order : List (Text × Text)) (complete : AllDefault order) (retry : Text) where
  common-apart : (j : Text) (h : Header) → IsSecret j → get j (set_common order retry h) ≡ get j h
  unfolding set_common
  common-apart j h i =
      get-set_raw-apart j (codes "Accept") (codes "application/json") _ i.accept
      ∙ get-header_set-apart j (codes "X-Stainless-Retry-Count") retry _ i.retry
      ∙ get-set_defaults-apart j order h (default-Apart j order i.defaults complete)

  token_headers :
      (j : Text) (token : String) (beta : Text) (h : Header)
      → IsSecret j
      → get j (set_token order retry token beta h)
        ≡ get j (set_raw_header beta_name beta (set_raw_header auth (bearer token) h))
  unfolding set_token
  token_headers j token beta h i = common-apart j _ i

  key_headers :
      (j : Text) (api_key : String) (beta : Text) (h : Header)
      → IsSecret j
      → get j (set_api_key order retry api_key beta h)
        ≡ get j (set_raw_header beta_name beta (set_raw_header key (codes api_key) h))
  unfolding set_api_key
  key_headers j api_key beta h i = common-apart j _ i

  abbrev pub sent : Account → Header → String → Header → Header
  sent a client model h = set_anthropic_auth_headers order retry a client model h

  -- The two headers that are written last.
  sent-account :
      (j : Text) (a : Account) (client : Header) (model : String) (h : Header)
      → IsSecret j
      → get j (sent a client model h) ≡ get j (set_account order retry a client model h)
  unfolding set_anthropic_auth_headers
  sent-account j a client model h i =
      let v = version_of (header_get "anthropic-version" client) in
      let h' = set_account order retry a client model h in
      get-set_raw-apart j (codes "content-type") (codes "application/json")
        (set_raw_header (codes "anthropic-version") v h') i.content
      ∙ get-set_raw-apart j (codes "anthropic-version") v h' i.version

  sent-token :
      (j : Text) (a : Account) (client : Header) (model : String) (h : Header)
      → IsSecret j
      → (a.kind == "apikey") ≡ false
      → is_token_account a ≡ true
      → get j (sent a client model h)
        ≡ get j (
            set_raw_header beta_name
              (oauth_beta model (header_get "anthropic-beta" client))
              (set_raw_header auth (bearer (credential "access_token" a.credentials)) h))
  unfolding set_account
  sent-token j a client model h i k t =
      sent-account j a client model h i
      ∙ rw k (
          rw t (
            token_headers j (credential "access_token" a.credentials)
              (oauth_beta model (header_get "anthropic-beta" client)) h i))

  sent-key :
      (j : Text) (a : Account) (client : Header) (model : String) (h : Header)
      → IsSecret j
      → (a.kind == "apikey") ≡ true
      → get j (sent a client model h)
        ≡ get j (
            set_raw_header beta_name
              (apikey_beta model (header_get "anthropic-beta" client))
              (set_raw_header key (codes (credential "api_key" a.credentials)) h))
  unfolding set_account
  sent-key j a client model h i k =
      sent-account j a client model h i
      ∙ rw k (
          key_headers j (credential "api_key" a.credentials)
            (apikey_beta model (header_get "anthropic-beta" client)) h i)

  -- In whatever order the default headers are written: a request for an account with a token carries
  -- the token under `authorization`, and no header that spells `x-api-key` in small or capital letters is
  -- changed. A request for an API key carries the key under `x-api-key`, and no header that spells
  -- `authorization` so is changed. A secret must have no line break.
  pub auth_headers_lem :
      (a : Account) (client : Header) (model : String) (h : Header)
      → has_newline (codes (credential "access_token" a.credentials)) ≡ false
      → has_newline (codes (credential "api_key" a.credentials)) ≡ false
      → ((a.kind == "apikey") ≡ false
          → is_token_account a ≡ true
          → (get auth (sent a client model h)
              ≡ some (bearer (credential "access_token" a.credentials) ∷ []))
            × ((j : Text) → folded j ≡ key → get j (sent a client model h) ≡ get j h))
        × ((a.kind == "apikey") ≡ true
            → (get key (sent a client model h)
                ≡ some (codes (credential "api_key" a.credentials) ∷ []))
              × ((j : Text) → folded j ≡ auth → get j (sent a client model h) ≡ get j h))
  unfolding canonical
  auth_headers_lem a client model h n m = (
    (λ k t. (
      sent-token auth a client model h auth-IsSecret k t
          ∙ get-set_raw-apart auth beta_name _ _ (refl, refl, refl)
          ∙ get-set_raw auth _ h n,
      λ j f.
          sent-token j a client model h (spelled-IsSecret key j f key-IsSecretName) k t
          ∙ get-set_raw-apart j beta_name _ _ (Elsewhere-Apart key j beta_name f (refl, refl, refl))
          ∙ get-set_raw-apart j auth _ h (Elsewhere-Apart key j auth f (refl, refl, refl)),
    )),
    (λ k. (
      sent-key key a client model h key-IsSecret k
          ∙ get-set_raw-apart key beta_name _ _ (refl, refl, refl)
          ∙ get-set_raw key _ h m,
      λ j f.
          sent-key j a client model h (spelled-IsSecret auth j f auth-IsSecretName) k
          ∙ get-set_raw-apart j beta_name _ _
              (Elsewhere-Apart auth j beta_name f (refl, refl, refl))
          ∙ get-set_raw-apart j key _ h (Elsewhere-Apart auth j key f (refl, refl, refl)),
    )),
  )
