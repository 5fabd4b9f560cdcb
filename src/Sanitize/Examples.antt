-- ===== src/Sanitize/Examples.antt =====
-- A request with what sanitizing takes out.
use airgate_claude.Prelude.{[], ◌∷◌, ◌≡◌, refl, String, List}
use airgate_claude.Json.Tree.{Tree, string, array, object, member, end, trees, tree_json, tree-Laws}
use airgate_claude.Sanitize.{sanitize_body}
use airgate_claude.Sanitize.Bodies.{IsLegalBody, sanitize_body-IsLegal, sanitize_body-sanitize_body}

abbrev message : String → List Tree → Tree
message role blocks =
    object (member "role" (string role) (member "content" (array (trees blocks)) end))

abbrev block : String → String → Tree
block kind text = object (member "type" (string kind) (member "text" (string text) end))

abbrev body_of : List Tree → Tree
body_of ms = object (member "messages" (array (trees ms)) end)

abbrev body : Tree
body = body_of (
    message "user" (block "text" "hi" ∷ block "text" "" ∷ [])
    ∷ message "assistant" (block "thinking" "hm" ∷ block "text" "yes" ∷ block "thinking" "so" ∷ [])
    ∷ message "user" (block "thinking" "x" ∷ [])
    ∷ [])

sanitize_run :
    sanitize_body tree_json body
    ≡ body_of (
        message "user" (block "text" "hi" ∷ [])
        ∷ message "assistant" (block "text" "yes" ∷ block "thinking" "so" ∷ [])
        ∷ [])
unfolding sanitize_body
sanitize_run = refl

sanitize_body-IsLegal_example : IsLegalBody tree_json (sanitize_body tree_json body)
sanitize_body-IsLegal_example = sanitize_body-IsLegal tree_json tree-Laws body refl refl

sanitize_body-sanitize_body_example :
    sanitize_body tree_json (sanitize_body tree_json body) ≡ sanitize_body tree_json body
sanitize_body-sanitize_body_example = sanitize_body-sanitize_body tree_json tree-Laws body
