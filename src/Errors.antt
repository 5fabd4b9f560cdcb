-- ===== src/Errors.antt =====
-- internal/gateway/errors.go and outcome.go: how an upstream answer becomes the verdict on the request
-- and its account that the host acts on. The host's outcome type has these kinds.
pub mod Laws
use Prim.Native.String
use airgate_claude.Prelude.{
  ℕ, suc, zero, ◌+◌, ◌-◌, ◌*◌, ◌%◌, ◌^◌, Bool, true, false, not, ◌&&◌, ◌||◌, List, [], ◌∷◌, ◌++◌,
  Option, none, some, String, string_key, ◌==◌, if◌then◌else◌, leb, ltb, nat_eq, length,
}
use airgate_claude.Prelude.Int.{ℤ, pos, negsuc}
use airgate_claude.Prelude.Text.{codes, to_lower, contains}
use airgate_claude.Prelude.Decimal.{decimal}
use airgate_claude.Limits.{second}

pub data OutcomeKind : Type 0 where
  success : OutcomeKind
  client_error : OutcomeKind
  account_rate_limited : OutcomeKind
  account_dead : OutcomeKind
  upstream_transient : OutcomeKind
  stream_aborted : OutcomeKind

unfoldable pub is_disabled_account_text : String → Bool
is_disabled_account_text s =
    contains (to_lower s) (codes "disabled")
    || contains (to_lower s) (codes "deactivated")
    || contains (to_lower s) (codes "suspended")

unfoldable pub classify_http_failure : ℕ → String → OutcomeKind
unfolding is_disabled_account_text
classify_http_failure status message =
    if nat_eq status 400 && is_disabled_account_text message
    then account_dead
    else if nat_eq status 429
    then account_rate_limited
    else if nat_eq status 401 || nat_eq status 403
    then account_dead
    else if leb 500 status
    then upstream_transient
    else if leb 400 status
    then client_error
    else success

-- `extractErrorMessage` of a body that is not empty, given `error.type` and `error.message`.
unfoldable pub extract_error_message : String → String → String
extract_error_message type message =
    if not (type == "") && not (message == "")
    then String.◌++◌ type (String.◌++◌ ": " message)
    else if not (message == "")
    then message
    else if not (type == "")
    then type
    else ""

-- The host's outcome and its upstream response. The duration, which a caller reads off the clock, is
-- left out.
pub record Outcome (Body Headers Usage : Type 0) : Type 0 where
  pub kind : OutcomeKind
  pub status : ℕ
  pub body : Option Body
  pub headers : Option Headers
  pub reason : String
  pub retry_after : ℤ
  pub usage : Option Usage

module _ {Body Headers Usage : Type 0} where
  unfoldable pub success_outcome : ℕ → Body → Headers → Option Usage → Outcome Body Headers Usage
  success_outcome status body headers usage = record {
    kind = success;
    status = status;
    body = some body;
    headers = some headers;
    reason = "";
    retry_after = pos 0;
    usage = usage;
  }

  unfoldable pub failure_outcome : ℕ → Body → Headers → String → ℤ → Outcome Body Headers Usage
  unfolding classify_http_failure
  failure_outcome status body headers message retry_after = record {
    kind = classify_http_failure status message;
    status = status;
    body = some body;
    headers = some headers;
    reason =
        if message == ""
        then message
        else String.◌++◌ "HTTP " (String.◌++◌ (decimal (pos status)) (String.◌++◌ ": " message));
    retry_after = retry_after;
    usage = none;
  }

  abbrev without_answer : OutcomeKind → ℕ → String → Option Usage → Outcome Body Headers Usage
  without_answer kind status reason usage = record {
    kind = kind;
    status = status;
    body = none;
    headers = none;
    reason = reason;
    retry_after = pos 0;
    usage = usage;
  }

  unfoldable pub transient_outcome : String → Outcome Body Headers Usage
  transient_outcome reason = without_answer upstream_transient 502 reason none

  unfoldable pub account_dead_outcome : String → Outcome Body Headers Usage
  account_dead_outcome reason = without_answer account_dead 401 reason none

  unfoldable pub stream_aborted_outcome : ℕ → String → Option Usage → Outcome Body Headers Usage
  stream_aborted_outcome status reason usage = without_answer stream_aborted status reason usage

abbrev is_digit : ℕ → Bool
is_digit c = leb b'0' c && leb c b'9'

-- `unicode`'s class `\s` of the regular expression.
abbrev is_space : ℕ → Bool
is_space c = nat_eq c b' ' || nat_eq c 9 || nat_eq c 10 || nat_eq c 12 || nat_eq c 13

-- The white space and the `s` that must follow the digits.
unfoldable pub seconds_follow : List ℕ → Bool
seconds_follow [] = false
seconds_follow (c ∷ t) = nat_eq c b's' || (is_space c && seconds_follow t)

-- The digits at the start of a text as a number after `n`, and the rest.
unfoldable pub read_digits : ℕ → List ℕ → ℕ × List ℕ
read_digits n [] = (n, [])
read_digits n (c ∷ t) =
    let more = read_digits (n * 10 + (c - b'0')) t in if is_digit c then more else (n, c ∷ t)

-- The leftmost match of `(\d+)\s*s`.
unfoldable pub find_seconds : List ℕ → Option ℕ
unfolding seconds_follow read_digits
find_seconds [] = none
find_seconds (c ∷ t) =
    let (n, rest) = read_digits 0 (c ∷ t) in
    let later = find_seconds t in if is_digit c && seconds_follow rest then some n else later

abbrev pub max_int : ℕ
max_int = 2 ^ 63 - 1

-- `time.Duration(seconds) * time.Second`, which wraps around at 64 bits.
unfoldable pub wrap : ℕ → ℤ
wrap r = if ltb r (2 ^ 63) then pos r else negsuc (2 ^ 64 - r - 1)

unfoldable pub to_duration : ℤ → ℤ
unfolding wrap
to_duration (pos n) = wrap (n * second % 2 ^ 64)
to_duration (negsuc n) = wrap ((2 ^ 64 - suc n * second % 2 ^ 64) % 2 ^ 64)

unfoldable pub parse_retry_delay : String → ℤ
unfolding find_seconds to_duration
parse_retry_delay text = elim (find_seconds (codes text)) [
  | none ↦ pos 0
  | some n ↦ if leb n max_int then to_duration (pos n) else pos 0
]

-- The digits of `strconv.Atoi`, all of the text and at least one.
unfoldable pub all_digits : List ℕ → Option ℕ
unfolding read_digits
all_digits [] = none
all_digits (c ∷ t) =
    let (n, rest) = read_digits 0 (c ∷ t) in elim rest [ [] ↦ some n | d ∷ r ↦ none ]

positive : Option ℕ → Option ℤ
positive none = none
positive (some n) = if leb n max_int then some (pos n) else none

negative : Option ℕ → Option ℤ
negative none = none
negative (some zero) = some (pos 0)
negative (some (suc n)) = if leb n max_int then some (negsuc n) else none

-- `strconv.Atoi`
unfoldable pub atoi : List ℕ → Option ℤ
unfolding all_digits positive negative
atoi [] = none
atoi (c ∷ t) =
    if nat_eq c b'-'
    then negative (all_digits t)
    else if nat_eq c b'+'
    then positive (all_digits t)
    else positive (all_digits (c ∷ t))

unfoldable pub extract_retry_after : String → ℤ
unfolding atoi parse_retry_delay
extract_retry_after text =
    if text == ""
    then pos 0
    else elim (atoi (codes text)) [ some n ↦ to_duration n | none ↦ parse_retry_delay text ]
