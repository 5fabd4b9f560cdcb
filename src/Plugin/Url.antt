-- ===== src/Plugin/Url.antt =====
-- `resolveBaseURL` of forward.go. Texts are lists of code points.
use airgate_claude.Prelude.{
  ℕ, Bool, false, [], ◌∷◌, if◌then◌else◌, nat_eq, ◌≡◌, refl, Bool-cases, inl, inr,
}
use airgate_claude.Prelude.Text.{codes}
use airgate_claude.Prelude.Space.{trim_space}
use airgate_claude.Headers.{Text}
use airgate_claude.Sanitize.{is_nil}
use airgate_claude.TokenManager.{Credentials, credential}

abbrev snoc_slash : ℕ → Text → Text
snoc_slash c [] = if nat_eq c b'/' then [] else c ∷ []
snoc_slash c (d ∷ s) = c ∷ d ∷ s

-- `strings.TrimRight(s, "/")`
unfoldable pub trim_slashes : Text → Text
trim_slashes [] = []
trim_slashes (c ∷ s) = snoc_slash c (trim_slashes s)

abbrev pub default_base_url : Text
default_base_url = codes "https://api.anthropic.com"

unfoldable pub resolve_base_url : Credentials → Text
unfolding trim_slashes
resolve_base_url c =
    let u = trim_space (codes (credential "base_url" c)) in
    if is_nil u then default_base_url else trim_slashes u

abbrev pub ends_with_slash : Text → Bool
ends_with_slash [] = false
ends_with_slash (c ∷ []) = nat_eq c b'/'
ends_with_slash (c ∷ d ∷ s) = ends_with_slash (d ∷ s)

snoc-ends :
    (c : ℕ) (s : Text) → ends_with_slash s ≡ false → ends_with_slash (snoc_slash c s) ≡ false
snoc-ends c [] h = elim (Bool-cases (nat_eq c b'/')) [ inl e ↦ rw e refl | inr e ↦ rw e e ]
snoc-ends c (d ∷ s) h = h

trim_slashes-ends : (s : Text) → ends_with_slash (trim_slashes s) ≡ false
unfolding trim_slashes
trim_slashes-ends [] = refl
trim_slashes-ends (c ∷ s) = snoc-ends c (trim_slashes s) (trim_slashes-ends s)

-- The base of a URL never ends with a slash, so that a path can be put behind it.
pub resolve_base_url-ends : (c : Credentials) → ends_with_slash (resolve_base_url c) ≡ false
unfolding resolve_base_url
resolve_base_url-ends c =
    let u = trim_space (codes (credential "base_url" c)) in
    elim (Bool-cases (is_nil u)) [ inl e ↦ rw e refl | inr e ↦ rw e (trim_slashes-ends u) ]
