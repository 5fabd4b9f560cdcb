-- ===== src/Stream/Single/Examples.antt =====
-- Short bodies, with a small reading of their JSON: the theorems at concrete inputs.
use airgate_claude.Prelude.{
  ℕ, true, List, [], ◌∷◌, Option, none, some, String, string_key, ◌==◌, if◌then◌else◌, ◌≡◌, ◌≤◌,
  ◌<◌, length,
}
use airgate_claude.Stream.{Doc, Node}
use airgate_claude.Stream.Single.{max_non_stream_response_size, handle_non_stream_response}
use airgate_claude.Stream.Single.Laws.{Accepts, Rejects, handle_non_stream_response_lem}

abbrev usage_node : Node
usage_node path =
    if path == "output_tokens" then some 3 else if path == "input_tokens" then some 9 else none

abbrev whole : List ℕ → Doc
whole body = record {
  text = λ path. if path == "model" then "claude-opus-4-7" else "";
  exists = λ path. true;
  node = λ path. if path == "usage" then some usage_node else none;
}

abbrev start : Doc
start = record {
  text = λ path.
      if path == "type"
      then "message_start"
      else if path == "message.model"
      then "claude-opus-4-7"
      else "";
  exists = λ path. true;
  node = λ path. if path == "message.usage" then some usage_node else none;
}

abbrev json_type : Unit {0} → String
json_type u = "application/json"

abbrev two_bytes : List ℕ
two_bytes = 1 ∷ 2 ∷ []

abbrev no_failure : Option String
no_failure = none

abbrev no_text : ℕ → String
no_text p = ""

handle_non_stream_response_lem_example :
    (length two_bytes ≤ max_non_stream_response_size
      → no_failure ≡ none
      → Accepts json_type whole no_text 5 200 tt
          (some 2)
          two_bytes
          (handle_non_stream_response json_type whole no_text 5 200 tt (some 2) two_bytes none))
    × (max_non_stream_response_size < length two_bytes
        → Rejects json_type whole no_text 5 200 tt
            (handle_non_stream_response json_type whole no_text 5 200 tt (some 2) two_bytes none))
    × ((e : String)
        → no_failure ≡ some e
        → Rejects json_type whole no_text 5 200 tt
            (handle_non_stream_response json_type whole no_text 5 200 tt (some 2) two_bytes none))
handle_non_stream_response_lem_example =
    handle_non_stream_response_lem json_type whole no_text 5 200 tt (some 2) two_bytes none

-- Every text of data is the event.
abbrev events : List ℕ → Doc
events text = start
