-- ===== src/Headers.antt =====
-- internal/gateway/headers.go: the `anthropic-beta` header, a list of names between commas. Texts are
-- lists of code points. The other headers are in Headers/Auth.
pub mod Parts
pub mod Betas
pub mod Http
pub mod Auth
pub mod Secrets
mod Examples
use airgate_claude.Prelude.{
  ℕ, Bool, true, false, not, ◌&&◌, ◌||◌, List, [], ◌∷◌, ◌++◌, map, String, if◌then◌else◌, nat_eq,
  leb,
}
use airgate_claude.Prelude.Text.{codes, to_lower, contains}
use airgate_claude.Prelude.Space.{trim_space}

abbrev pub Text : Type 0
Text = List ℕ

abbrev pub text_eq : Text → Text → Bool
text_eq [] [] = true
text_eq [] (d ∷ t) = false
text_eq (c ∷ s) [] = false
text_eq (c ∷ s) (d ∷ t) = nat_eq c d && text_eq s t

abbrev pub mem : Text → List Text → Bool
mem p [] = false
mem p (q ∷ qs) = text_eq q p || mem p qs

push : ℕ → List Text → List Text
push c [] = (c ∷ []) ∷ []
push c (p ∷ ps) = (c ∷ p) ∷ ps

-- `strings.Split(s, ",")`
unfoldable pub split : Text → List Text
unfolding push
split [] = [] ∷ []
split (c ∷ s) = let rest = split s in if nat_eq c b',' then [] ∷ rest else push c rest

-- `strings.Join(parts, ",")`
unfoldable pub join : List Text → Text
join [] = []
join (p ∷ []) = p
join (p ∷ q ∷ ps) = p ++ b',' ∷ join (q ∷ ps)

-- The pieces, trimmed, but for the empty ones.
unfoldable pub trimmed : List Text → List Text
trimmed [] = []
trimmed (p ∷ ps) =
    let rest = trimmed ps in if text_eq (trim_space p) [] then rest else trim_space p ∷ rest

abbrev pub parts_of : Text → List Text
parts_of s = trimmed (split s)

unfoldable pub dropped_betas : List Text
dropped_betas = map codes (
    "context-1m-2025-08-07" ∷ "fast-mode-2026-02-01" ∷ "redact-thinking-2026-02-12"
    ∷ "skills-2025-10-02" ∷ "advisor-tool-2026-03-01" ∷ "tool-search-tool-2025-10-19" ∷ [])

abbrev pub is_dropped : Text → Bool
is_dropped p = mem p dropped_betas

unfoldable pub keep : List Text → List Text
keep [] = []
keep (p ∷ ps) = let rest = keep ps in if is_dropped p then rest else p ∷ rest

unfoldable pub filter_dropped_betas : Text → Text
unfolding split join trimmed keep
filter_dropped_betas beta = join (keep (parts_of beta))

-- One loop of `mergeBetas`: `seen` holds exactly the parts collected so far.
unfoldable pub collect : List Text → List Text → List Text
collect [] parts = parts
collect (p ∷ ps) parts = collect ps (if mem p parts then parts else parts ++ p ∷ [])

unfoldable pub merge_betas : Text → Text → Text
unfolding split join trimmed collect
merge_betas base extra = join (collect (parts_of extra) (collect (parts_of base) []))

unfoldable pub is_haiku_model : String → Bool
is_haiku_model model = contains (to_lower model) (codes "haiku")

unfoldable pub oauth_beta_header : Text
unfolding join
oauth_beta_header = join (
    map codes (
      "claude-code-20250219" ∷ "oauth-2025-04-20" ∷ "interleaved-thinking-2025-05-14"
      ∷ "fine-grained-tool-streaming-2025-05-14" ∷ "context-management-2025-06-27"
      ∷ "prompt-caching-scope-2026-01-05" ∷ []))

unfoldable pub haiku_beta_header : Text
unfolding join
haiku_beta_header = join (map codes ("oauth-2025-04-20" ∷ "interleaved-thinking-2025-05-14" ∷ []))

unfoldable pub apikey_beta_header : Text
unfolding join
apikey_beta_header = join (
    map codes (
      "claude-code-20250219" ∷ "interleaved-thinking-2025-05-14"
      ∷ "fine-grained-tool-streaming-2025-05-14" ∷ "context-management-2025-06-27"
      ∷ "prompt-caching-scope-2026-01-05" ∷ []))

unfoldable pub apikey_haiku_beta_header : Text
apikey_haiku_beta_header = codes "interleaved-thinking-2025-05-14"

unfoldable pub oauth_base : String → Text
unfolding is_haiku_model haiku_beta_header oauth_beta_header
oauth_base model = if is_haiku_model model then haiku_beta_header else oauth_beta_header

-- The header of an OAuth or session-key account, given the client's; an absent one is empty.
unfoldable pub oauth_beta : String → Text → Text
unfolding oauth_base merge_betas filter_dropped_betas
oauth_beta model client =
    if text_eq client []
    then oauth_base model
    else merge_betas (oauth_base model) (filter_dropped_betas client)

-- The header of an API-key account.
unfoldable pub apikey_beta : String → Text → Text
unfolding is_haiku_model apikey_haiku_beta_header apikey_beta_header filter_dropped_betas
apikey_beta model client =
    if text_eq client []
    then if is_haiku_model model then apikey_haiku_beta_header else apikey_beta_header
    else filter_dropped_betas client
