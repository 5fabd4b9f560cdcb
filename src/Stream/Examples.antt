-- ===== src/Stream/Examples.antt =====
-- A short stream: the theorems at concrete lines.
use airgate_claude.Prelude.{
  ℕ, ◌*◌, refl, true, List, [], ◌∷◌, none, some, String, string_key, ◌==◌, if◌then◌else◌, nat_eq,
}
use airgate_claude.Stream.{Doc, Node}
use airgate_claude.Stream.Events.{no_billing, extract_lines}
use airgate_claude.Stream.Loop.{line, idle, run, initial}
use airgate_claude.Stream.Whole.{Delivers, inputs, run_whole}
use airgate_claude.Stream.PassThrough.{Sends, run-Sends}

abbrev usage_node : Node
usage_node path = if path == "output_tokens" then some 3 else none

-- Every text of data is a `message_delta` with three output tokens.
abbrev doc : List ℕ → Doc
doc text = record {
  text = λ path. if path == "type" then "message_delta" else "";
  exists = λ path. true;
  node = λ path. if path == "usage" then some usage_node else none;
}

abbrev no_text : ℕ → String
no_text p = ""

abbrev lines : List String
lines = "event: message_delta" ∷ "data: {}" ∷ "" ∷ "data: {}" ∷ []

run_whole_example :
    Delivers doc no_text
      (λ n. n * 10)
      200
      lines
      (extract_lines doc lines no_billing)
      (run doc no_text (λ n. true) (λ n. n * 10) 200 (inputs lines) initial)
run_whole_example = run_whole doc no_text (λ n. n * 10) 200 (λ n. true) (λ n. refl) lines

run-Sends_example :
    Sends doc no_text
      (λ n. nat_eq n 0)
      (λ n. n * 10)
      200
      ("a" ∷ "" ∷ [])
      (run doc no_text (λ n. nat_eq n 0) (λ n. n * 10) 200 (line "a" ∷ line "" ∷ idle ∷ []) initial)
run-Sends_example =
    run-Sends doc no_text (λ n. nat_eq n 0) (λ n. n * 10) 200 (line "a" ∷ line "" ∷ idle ∷ [])
      initial
