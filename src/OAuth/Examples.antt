-- ===== src/OAuth/Examples.antt =====
-- One flow from its start to its callback: the theorems at concrete inputs.
use airgate_claude.Prelude.{◌≡◌, refl, false, [], ◌∷◌, List, none, some, String, string_key, arith}
use airgate_claude.GoMap.{Map, get}
use airgate_claude.Limits.{minute, second}
use airgate_claude.OAuth.Store.{IsValid}
use airgate_claude.OAuth.{Session, expired}
use airgate_claude.OAuth.Code.{Org, TokenRequest, token_request}
use airgate_claude.OAuth.Flow.{start_oauth, handle_oauth_callback, exchanged}
use airgate_claude.OAuth.Flows.{
  Event, calling_back, looking_up, cleaning, run, callback-start, callback-exchanged,
}

abbrev session : Session
session = record { state = "s"; code_verifier = "v"; created_at = some 0 }

abbrev pending : Map String Session
pending = ("s", session) ∷ []

abbrev answer : TokenRequest → String
answer r = r.code

abbrev challenge : String → String
challenge v = "c"

abbrev orgs : List Org
orgs =
    record { uuid = "a"; name = "A"; raven_type = none }
    ∷ record { uuid = "b"; name = "B"; raven_type = some "team" }
    ∷ []

empty-IsValid : IsValid []
unfolding get
empty-IsValid = record { distinct = tt; no_empty = refl; bounded = omega arith }

abbrev between : List (Event challenge answer)
between = cleaning second ∷ calling_back minute "x" "other" ∷ looking_up minute "s" ∷ []

callback-start_example :
    (handle_oauth_callback answer minute "ab" "s"
      (run challenge answer between (start_oauth challenge 0 (some "v") (some "s") []).1)).0
    ≡ exchanged (token_request "ab" "v") (answer (token_request "ab" "v"))
unfolding get
callback-start_example =
    (callback-start challenge answer 0 minute "v" "s" "ab" between [] refl empty-IsValid
      (omega arith) (omega arith, (refl, (omega arith, tt)))).1

abbrev Asked : Type 0
Asked =
    (s : Session) × (get "s" pending ≡ some s)
    × (expired 1 s ≡ false)
    × (token_request "ab" "v" ≡ token_request "ab" s.code_verifier)
    × ("ab" ≡ answer (token_request "ab" "v"))

callback-exchanged_example : Asked
unfolding handle_oauth_callback get
callback-exchanged_example =
    callback-exchanged challenge answer 1 "ab" "s" pending (token_request "ab" "v") "ab" refl
