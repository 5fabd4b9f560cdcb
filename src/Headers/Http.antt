-- ===== src/Headers/Http.antt =====
-- Go's `http.Header`, a map from names to values, as headers.go and cc_validator.go use it, and
-- `setRawHeader`, which keeps the spelling of a name.
use airgate_claude.Prelude.{
  ℕ, Bool, true, false, ◌&&◌, ◌||◌, List, [], ◌∷◌, Option, none, some, String, if◌then◌else◌,
  nat_eq, leb, ◌+◌, ◌-◌, any, not, Key,
}
use airgate_claude.Prelude.Text.{codes}
use airgate_claude.GoMap.{Map, get, put, delete}
use airgate_claude.Headers.{Text, text_eq}
use airgate_claude.Headers.Parts.{text_eq_iff}

instance abbrev pub text_key : Key Text
text_key = record { same = text_eq; same_iff = text_eq_iff }

abbrev pub Header : Type 0
Header = Map Text (List Text)

abbrev pub is_digit : ℕ → Bool
is_digit c = leb b'0' c && leb c b'9'

abbrev is_upper : ℕ → Bool
is_upper c = leb b'A' c && leb c b'Z'

abbrev is_lower : ℕ → Bool
is_lower c = leb b'a' c && leb c b'z'

-- The bytes that a name may have.
unfoldable pub is_token : ℕ → Bool
is_token c = is_digit c || is_upper c || is_lower c || any (nat_eq c) (codes "!#$%&'*+-.^_`|~")

abbrev pub cased : Bool → ℕ → ℕ
cased true c = if is_lower c then c - 32 else c
cased false c = if is_upper c then c + 32 else c

unfoldable pub canonical_from : Bool → Text → Text
canonical_from up [] = []
canonical_from up (c ∷ s) = cased up c ∷ canonical_from (nat_eq c b'-') s

-- `http.CanonicalHeaderKey`: a name with another byte is left as it is.
unfoldable pub canonical : Text → Text
unfolding canonical_from is_token
canonical s = if any (λ c. not (is_token c)) s then s else canonical_from true s

abbrev first : Option (List Text) → Text
first none = []
first (some []) = []
first (some (v ∷ vs)) = v

-- `h.Get(name)`, the empty text if there is none.
unfoldable pub header_get : String → Header → Text
unfolding canonical
header_get name h = first (get (canonical (codes name)) h)

-- `h.Set(name, value)`
unfoldable pub header_set : Text → Text → Header → Header
unfolding canonical
header_set name value h = put (canonical name) (value ∷ []) h

-- `strings.ContainsAny(s, "\r\n")`
abbrev pub has_newline : Text → Bool
has_newline s = any (λ c. nat_eq c 13 || nat_eq c 10) s

unfoldable pub set_raw_header : Text → Text → Header → Header
unfolding canonical
set_raw_header key value h =
    let name = canonical key in
    if has_newline key || has_newline value
    then h
    else put key (value ∷ []) (delete key (delete name (delete (canonical name) h)))
