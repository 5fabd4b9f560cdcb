-- ===== src/Forward/Cloak.antt =====
-- What every body for an OAuth account has after `preprocessOAuthBody`.
mod Examples
use airgate_claude.Prelude.{
  ℕ, Bool, true, false, ◌&&◌, ◌||◌, not, List, [], ◌∷◌, Option, none, some, String, string_key,
  ◌==◌, if◌then◌else◌, ◌≡◌, refl, arith, Bool-cases, Option-cases, inl, inr, subst, sym, ap, ◌∙◌,
}
use airgate_claude.Prelude.Text.{codes, contains}
use airgate_claude.Headers.{Text}
use airgate_claude.Json.{Json}
use airgate_claude.Json.Tree.{Tree, array, trees}
use airgate_claude.Sessions.{Cache, sticky_user_id}
use airgate_claude.TokenManager.{Account}
use airgate_claude.Forward.Body.{
  Writes, has_member, move_system, needs_rewrite, rewrite_system, add_user_id,
  append_tools_ephemeral_cache, add_tools, drop_temperature, no_tools, drop_tool_choice,
  preprocess_oauth_body, cc_system, cc_blocks, original_system,
}

-- What the documents of the JSON library say of writes to a body for which `IsBody` holds: it is an object,
-- and no object in it writes a member twice. A write to such a body leaves such a body.
pub record WriteLaws {R J : Type 0} (g : Json R J) (w : Writes R J) (IsBody : R → Type 0)
    : Type 0 where
  pub set_body :
      (r : R) (k : String) (ks : List String) (v : Tree) → IsBody r → IsBody (w.set r (k ∷ ks) v)
  pub checked_body :
      (r r' : R) (k : String) (ks : List String) (v : Tree)
      → IsBody r
      → w.set_checked r (k ∷ ks) v ≡ some r'
      → IsBody r'
  pub delete_body : (r : R) (k : String) → IsBody r → IsBody (w.delete r (k ∷ []))
  -- An array that was written is there.
  pub set_array :
      (r : R) (k : String) (ts : List Tree)
      → IsBody r
      → (g.exists (g.lookup (w.set r (k ∷ []) (array (trees ts))) (k ∷ [])) ≡ true)
        × (g.is_string (g.lookup (w.set r (k ∷ []) (array (trees ts))) (k ∷ [])) ≡ false)
  -- A write below another member leaves a member alone.
  pub set_other :
      (r : R) (j k : String) (ks : List String) (v : Tree)
      → IsBody r
      → (j == k) ≡ false
      → g.lookup (w.set r (k ∷ ks) v) (j ∷ []) ≡ g.lookup r (j ∷ [])
  pub checked_other :
      (r r' : R) (j k : String) (ks : List String) (v : Tree)
      → IsBody r
      → (j == k) ≡ false
      → w.set_checked r (k ∷ ks) v ≡ some r'
      → g.lookup r' (j ∷ []) ≡ g.lookup r (j ∷ [])
  -- A write below a member that is there keeps it there.
  pub checked_below :
      (r r' : R) (k : String) (ks : List String) (v : Tree)
      → IsBody r
      → g.exists (g.lookup r (k ∷ [])) ≡ true
      → w.set_checked r (k ∷ ks) v ≡ some r'
      → g.exists (g.lookup r' (k ∷ [])) ≡ true
  pub delete_gone :
      (r : R) (k : String) → IsBody r → g.exists (g.lookup (w.delete r (k ∷ [])) (k ∷ [])) ≡ false
  pub delete_other :
      (r : R) (j k : String)
      → IsBody r
      → (j == k) ≡ false
      → g.lookup (w.delete r (k ∷ [])) (j ∷ []) ≡ g.lookup r (j ∷ [])

if-both : {R : Type 0} (P : R → Type 0) (b : Bool) (x y : R) → P x → P y → P (if b then x else y)
if-both P true x y h k = h
if-both P false x y h k = k

module _ {R J : Type 0} (g : Json R J) (w : Writes R J) {IsBody : R → Type 0}
    (law : WriteLaws g w IsBody) where
  abbrev Has : String → R → Type 0
  Has k r = has_member g w r k ≡ true

  abbrev Exists : J → Type 0
  Exists j = g.exists j ≡ true

  -- A member `system` that is left: it is there, and if it is a text, the text names Claude Code.
  abbrev pub IsPrompt : J → Type 0
  IsPrompt j =
      (g.exists j ≡ true)
      × (g.is_string j ≡ true → contains (codes (g.text j)) (codes "Claude Code") ≡ true)

  -- A body whose member `k` is so.
  abbrev With : (J → Type 0) → String → R → Type 0
  With P k r = IsBody r × P (g.lookup r (k ∷ []))

  With-set :
      (P : J → Type 0) (j k : String) (ks : List String) (v : Tree) (r : R)
      → (j == k) ≡ false
      → With P j r
      → With P j (w.set r (k ∷ ks) v)
  With-set P j k ks v r n (b, h) =
      (law.set_body r k ks v b, subst P (sym (law.set_other r j k ks v b n)) h)

  With-delete :
      (P : J → Type 0) (j k : String) (r : R)
      → (j == k) ≡ false
      → With P j r
      → With P j (w.delete r (k ∷ []))
  With-delete P j k r n (b, h) =
      (law.delete_body r k b, subst P (sym (law.delete_other r j k b n)) h)

  move_system-With :
      (original : Text) (r : R)
      → With IsPrompt "system" r
      → With IsPrompt "system" (move_system g w original r)
  unfolding move_system
  move_system-With original r h = if-both (With IsPrompt "system") _ _ _ h (
      if-both (With IsPrompt "system") _ _ _ (With-set IsPrompt "system" "messages" [] _ r refl h)
        h)

  -- What the test of the code says of a prompt that is left.
  rewrite_system-IsPrompt :
      (r : R) → needs_rewrite g w r ≡ false → IsPrompt (g.lookup r ("system" ∷ []))
  rewrite_system-IsPrompt r e = (ground (arith, e), λ h. ground (arith, e, h))

  rewrite_system-With : (r : R) → IsBody r → With IsPrompt "system" (rewrite_system g w r)
  unfolding rewrite_system
  rewrite_system-With r b = elim (Bool-cases (needs_rewrite g w r)) [
    | inl e ↦
        rw (e, rewrite_system)
          (move_system-With (original_system g w r) (w.set r ("system" ∷ []) (cc_system g w)) (
            law.set_body r "system" [] (cc_system g w) b,
            (
              (law.set_array r "system" (cc_blocks g w) b).0,
              (λ h. ground (arith, h, (law.set_array r "system" (cc_blocks g w) b).1)),
            ),
          ))
    | inr e ↦ rw (e, rewrite_system) (b, rewrite_system-IsPrompt r e)
  ]

  add_user_id-With :
      (u s : String) (now : ℕ) (a : Account) (r : R) (c : Cache)
      → With IsPrompt "system" r
      → With IsPrompt "system" (add_user_id g w u s now a r c).0
  unfolding add_user_id
  add_user_id-With u s now a r c h =
      elim (Bool-cases (g.exists (g.lookup r ("metadata" ∷ "user_id" ∷ [])))) [
        | inl e ↦ rw e h
        | inr e ↦ rw e (With-set IsPrompt "system" "metadata" ("user_id" ∷ []) _ r refl h)
      ]

  -- The tools, after the mark was set on the last of them.
  checked-With :
      (o : Option R) (r : R) (ks : List String) (v : Tree)
      → w.set_checked r ("tools" ∷ ks) v ≡ o
      → With IsPrompt "system" r
      → Has "tools" r
      → With IsPrompt "system" (elim o [ none ↦ r | some b ↦ b ])
        × Has "tools" (elim o [ none ↦ r | some b ↦ b ])
  checked-With none r ks v e h t = (h, t)
  checked-With (some b) r ks v e h t = (
    (
      law.checked_body r b "tools" ks v h.0 e,
      subst IsPrompt (sym (law.checked_other r b "system" "tools" ks v h.0 refl e)) h.1,
    ),
    law.checked_below r b "tools" ks v h.0 t e,
  )

  abbrev Both : R → Type 0
  Both r = With IsPrompt "system" r × Has "tools" r

  append_tools-Both : (r : R) → Both r → Both (append_tools_ephemeral_cache g w r)
  unfolding append_tools_ephemeral_cache
  append_tools-Both r h =
      if-both Both _ _ _ h (if-both Both _ _ _ h (checked-With _ r _ _ refl h.0 h.1))

  add_tools-Both : (r : R) → With IsPrompt "system" r → Both (add_tools g w r)
  unfolding add_tools
  add_tools-Both r h = elim (Bool-cases (has_member g w r "tools")) [
    | inl e ↦ rw e (append_tools-Both r (h, e))
    | inr e ↦
        rw e (With-set IsPrompt "system" "tools" [] _ r refl h, (law.set_array r "tools" [] h.0).0)
  ]

  -- The members `system` and `tools`, no temperature, and no choice among an empty list of tools.
  pub record IsCloaked (r : R) : Type 0 where
    pub system : IsPrompt (g.lookup r ("system" ∷ []))
    pub tools : has_member g w r "tools" ≡ true
    pub no_temperature : has_member g w r "temperature" ≡ false
    pub no_choice : no_tools g w r ≡ true → has_member g w r "tool_choice" ≡ false

  Both-delete :
      (k : String) (r : R)
      → ("system" == k) ≡ false
      → ("tools" == k) ≡ false
      → Both r
      → Both (w.delete r (k ∷ []))
  Both-delete k r n m (h, t) =
      (With-delete IsPrompt "system" k r n h, (With-delete Exists "tools" k r m (h.0, t)).1)

  abbrev Cool : R → Type 0
  Cool r = Both r × (has_member g w r "temperature" ≡ false)

  drop_temperature-Cool : (r : R) → Both r → Cool (drop_temperature g w r)
  unfolding drop_temperature
  drop_temperature-Cool r h = elim (Bool-cases (has_member g w r "temperature")) [
    | inl e ↦
        rw (e, drop_temperature)
          (Both-delete "temperature" r refl refl h, law.delete_gone r "temperature" h.0.0)
    | inr e ↦ rw (e, drop_temperature) (h, e)
  ]

  drop_tool_choice-IsCloaked : (r : R) → Cool r → IsCloaked (drop_tool_choice g w r)
  unfolding drop_tool_choice
  drop_tool_choice-IsCloaked r (h, t) =
      elim (Bool-cases (no_tools g w r && has_member g w r "tool_choice")) [
        | inl e ↦
            let d = Both-delete "tool_choice" r refl refl h in
            rw (e, drop_tool_choice)
              (record {
                system = d.0.1;
                tools = d.1;
                no_temperature =
                    ap g.exists (law.delete_other r "temperature" "tool_choice" h.0.0 refl) ∙ t;
                no_choice = λ _. law.delete_gone r "tool_choice" h.0.0;
              })
        | inr e ↦
            rw (e, drop_tool_choice)
              (record {
                system = h.0.1;
                tools = h.1;
                no_temperature = t;
                no_choice = λ n. ground (arith, n, e);
              })
      ]

  -- Whatever object the client sends, if no member is written twice in it: the body that goes to the
  -- upstream for an OAuth account has a member `system`, which names Claude Code if it is a text, and a
  -- member `tools`, whatever else they are; it has no temperature, and it has no choice of a tool when `tools` is an empty list.
  pub preprocess_oauth_body-IsCloaked :
      (u s : String) (now : ℕ) (a : Account) (r : R) (c : Cache)
      → IsBody r
      → IsCloaked (preprocess_oauth_body g w u s now a r c).0
  unfolding preprocess_oauth_body
  preprocess_oauth_body-IsCloaked u s now a r c b = drop_tool_choice-IsCloaked _ (
      drop_temperature-Cool _ (
        add_tools-Both _
          (add_user_id-With u s now a (rewrite_system g w r) c (rewrite_system-With r b))))
