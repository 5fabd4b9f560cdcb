-- ===== src/Sessions/Conversation/Examples.antt =====
-- A conversation of two turns, with trees for JSON: the theorem at a concrete input.
use airgate_claude.Prelude.{ℕ, List, [], ◌∷◌, String, string_key, ◌≡◌, refl}
use airgate_claude.Json.Tree.{Tree, object, array, member, end, string, trees, tree_json}
use airgate_claude.Sessions.Conversation.{
  second_last, digest, before_last, conversation_fingerprint, conversation_fingerprint_changes,
}

-- A digest with a collision: of every text, only whether it is empty.
abbrev coarse : List ℕ → String
coarse [] = ""
coarse (n ∷ ns) = "x"

abbrev shape : String → ℕ
shape String.[] = 0
shape (String.◌∷◌ c s) = 1

abbrev said : String → Tree
said s = string s

abbrev bytes : Tree → List ℕ
bytes t = elim t [ string s ↦ shape s ∷ [] | _ ↦ [] ]

abbrev body : Tree
body = object (member "messages" (array (trees (said "a" ∷ []))) end)

abbrev next : Tree
next = object (member "messages" (array (trees (said "a" ∷ said "b" ∷ said "c" ∷ []))) end)

nothing_before : ¬ ([] ≡ bytes (said "b"))
nothing_before h = absurd (cc)

conversation_fingerprint_changes_example : (x y : List ℕ) × (¬ (x ≡ y)) × (coarse x ≡ coarse y)
unfolding before_last conversation_fingerprint digest second_last
conversation_fingerprint_changes_example =
    conversation_fingerprint_changes tree_json bytes coarse body next (said "a") (said "b")
      (said "c") [] (refl, refl) (refl, refl) nothing_before refl
