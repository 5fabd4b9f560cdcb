-- ===== src/Sanitize.antt =====
-- internal/gateway/sanitize.go: what is taken out of the messages of a request before it is forwarded.

pub mod Legal
pub mod Bodies
mod Examples
use airgate_claude.Prelude.{
  ℕ, Bool, true, false, not, ◌&&◌, ◌||◌, List, [], ◌∷◌, map, Option, none, some, String, string_key,
  ◌==◌, if◌then◌else◌, nat_eq, length,
}
use airgate_claude.Json.{Json}

abbrev pub is_nil {ℓ} : {A : Type ℓ} → List A → Bool
is_nil [] = true
is_nil (x ∷ xs) = false

abbrev pub add {ℓ} : {R : Type ℓ} → Option R → List R → List R
add none rs = rs
add (some r) rs = r ∷ rs

module _ {R J : Type 0} (g : Json R J) where
  abbrev pub block_type : J → String
  block_type b = g.text (g.field b "type")

  abbrev pub is_empty_text : J → Bool
  is_empty_text b = block_type b == "text" && g.text (g.field b "text") == ""

  abbrev pub is_thinking : J → Bool
  is_thinking b = block_type b == "thinking" || block_type b == "redacted_thinking"

  -- Whether the loop body reaches the append, for a block that stands last or not.
  unfoldable pub keeps : String → Bool → J → Bool
  keeps role last b =
      if is_empty_text b then false else if is_thinking b then role == "assistant" && last else true

  -- The loop; a block has the last index iff no block follows.
  unfoldable pub kept : String → List J → List J
  unfolding keeps
  kept role [] = []
  kept role (b ∷ bs) =
      let rest = kept role bs in if keeps role (is_nil bs) b then b ∷ rest else rest

  unfoldable pub filter_content_blocks : List J → String → List R
  unfolding kept
  filter_content_blocks blocks role = map g.raw (kept role blocks)

  -- One round of the loop over the messages: whether it sets `changed`, and the message it appends.
  unfoldable pub rewrite : J → List R → Bool × Option R
  rewrite msg [] = (true, none)
  rewrite msg (r ∷ rs) =
      if nat_eq (length (r ∷ rs)) (length (g.items (g.field msg "content")))
      then (false, some (g.raw msg))
      else elim (g.set_array (g.raw msg) "content" (r ∷ rs)) [
        | none ↦ (true, some (g.raw msg))
        | some r' ↦ (true, some r')
      ]

  unfoldable pub clean : J → Bool × Option R
  unfolding rewrite filter_content_blocks
  clean msg =
      let content = g.field msg "content" in
      if g.is_string content
      then if g.text content == "" then (true, none) else (false, some (g.raw msg))
      else if not (g.is_array content)
      then (false, some (g.raw msg))
      else rewrite msg (filter_content_blocks (g.items content) (g.text (g.field msg "role")))

  unfoldable pub clean_all : List J → Bool × List R
  unfolding clean
  clean_all [] = (false, [])
  clean_all (m ∷ ms) =
      let (changed, r) = clean m in let (later, rs) = clean_all ms in (changed || later, add r rs)

  unfoldable pub sanitize_body : R → R
  unfolding clean_all
  sanitize_body body =
      let msgs = g.lookup body ("messages" ∷ []) in
      let (changed, new_messages) = clean_all (g.items msgs) in
      if g.is_empty body
      then body
      else if not (g.is_array msgs)
      then body
      else if not changed
      then body
      else elim (g.set_array body "messages" new_messages) [ none ↦ body | some b ↦ b ]
