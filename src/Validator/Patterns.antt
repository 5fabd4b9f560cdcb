-- ===== src/Validator/Patterns.antt =====
-- The two regular expressions of cc_validator.go as functions that read a text from the front.
use airgate_claude.Prelude.{
  ℕ, Bool, true, false, ◌&&◌, ◌||◌, [], ◌∷◌, Option, none, some, if◌then◌else◌, leb, nat_eq, length,
}
use airgate_claude.Prelude.Text.{codes}
use airgate_claude.Headers.{Text}
use airgate_claude.Headers.Http.{is_digit, cased}
use airgate_claude.Sanitize.{is_nil}

-- The characters of a class from the front, as many as there are, and what follows them. No literal of
-- the expressions starts with a character of the class before it, so no shorter run can lead to a match.
unfoldable pub run : (ℕ → Bool) → Text → Text × Text
run p [] = ([], [])
run p (c ∷ s) = let (taken, rest) = run p s in if p c then (c ∷ taken, rest) else ([], c ∷ s)

-- A run of at least `n` characters, taken off.
unfoldable pub at_least : ℕ → (ℕ → Bool) → Text → Option Text
unfolding run
at_least n p s = let (taken, rest) = run p s in if leb n (length taken) then some rest else none

-- A literal, taken off.
unfoldable pub literal : Text → Text → Option Text
literal [] s = some s
literal (p ∷ ps) [] = none
literal (p ∷ ps) (c ∷ s) = if nat_eq c p then literal ps s else none

-- The same for lower-case letters that match in either case. None of them has a further case variant.
unfoldable pub folded : Text → Text → Option Text
folded [] s = some s
folded (p ∷ ps) [] = none
folded (p ∷ ps) (c ∷ s) = if nat_eq (cased false c) p then folded ps s else none

infixl 20 ◌▹◌
abbrev pub ◌▹◌ : Option Text → (Text → Option Text) → Option Text
◌▹◌ none f = none
◌▹◌ (some s) f = f s

abbrev is_some : Option Text → Bool
is_some none = false
is_some (some s) = true

abbrev pub at_end : Option Text → Bool
at_end none = false
at_end (some s) = is_nil s

-- `claudeCliUARegex.MatchString(ua)`
unfoldable pub matches_user_agent : Text → Bool
unfolding at_least folded literal
matches_user_agent ua = is_some (
    folded (codes "claude-cli/") ua
    ▹ at_least 1 is_digit
    ▹ literal (codes ".")
    ▹ at_least 1 is_digit
    ▹ literal (codes ".")
    ▹ at_least 1 is_digit)

abbrev pub is_hex : ℕ → Bool
is_hex c = is_digit c || (leb b'a' c && leb c b'f') || nat_eq c b'-'

abbrev pub is_any_hex : ℕ → Bool
is_any_hex c = is_hex c || (leb b'A' c && leb c b'F')

unfoldable pub user_id_rest : Text → Option Text
unfolding at_least literal
user_id_rest s =
    literal (codes "user_") s
    ▹ at_least 8 is_hex
    ▹ literal (codes "_account_")
    ▹ at_least 8 is_any_hex
    ▹ literal (codes "_session_")
    ▹ at_least 8 is_hex

-- `metadataUserIDRegex.MatchString(userID)`
unfoldable pub matches_user_id : Text → Bool
unfolding user_id_rest
matches_user_id s = at_end (user_id_rest s)
