-- ===== src/Sessions/Conversation.antt =====
-- `conversationFingerprint` of session.go. The digest is an argument, as are the bytes of a raw text.
mod Examples
use airgate_claude.Prelude.{
  ℕ, Bool, true, List, [], ◌∷◌, ◌++◌, Option, none, some, String, if◌then◌else◌, ◌≡◌, refl, ap, sym,
  ◌∙◌,
}
use airgate_claude.Json.{Json}

-- The element before the last one.
unfoldable pub second_last : {A : Type 0} → List A → Option A
second_last [] = none
second_last (x ∷ []) = none
second_last (x ∷ y ∷ []) = some x
second_last (x ∷ y ∷ z ∷ xs) = second_last (y ∷ z ∷ xs)

module _ {R J : Type 0} (g : Json R J) (bytes : R → List ℕ) (hash : List ℕ → String) where
  -- What is written to the digest behind the first message.
  unfoldable pub before_last : List J → List ℕ
  unfolding second_last
  before_last ms = elim (second_last ms) [ none ↦ [] | some m ↦ bytes (g.raw m) ]

  unfoldable pub digest : List J → String
  unfolding before_last
  digest [] = ""
  digest (m ∷ ms) = hash (bytes (g.raw m) ++ before_last (m ∷ ms))

  unfoldable pub conversation_fingerprint : R → String
  unfolding digest
  conversation_fingerprint body =
      let msgs = g.lookup body ("messages" ∷ []) in
      if g.is_array msgs then digest (g.items msgs) else ""

second_last-append :
    {A : Type 0} (x : A) (xs : List A) (y z : A) → second_last ((x ∷ xs) ++ y ∷ z ∷ []) ≡ some y
unfolding second_last
second_last-append x [] y z = refl
second_last-append x (w ∷ []) y z = refl
second_last-append x (w ∷ v ∷ xs) y z = second_last-append w (v ∷ xs) y z

append_cancel : (xs ys zs : List ℕ) → xs ++ ys ≡ xs ++ zs → ys ≡ zs
append_cancel [] ys zs h = h
append_cancel (x ∷ xs) ys zs h = append_cancel xs ys zs (ap tail_of h)
  where
    tail_of : List ℕ → List ℕ
    tail_of [] = []
    tail_of (x ∷ xs) = xs

module _ {R J : Type 0} (g : Json R J) (bytes : R → List ℕ) (hash : List ℕ → String) where
  abbrev Messages : R → List J → Type 0
  Messages body ms =
      (g.is_array (g.lookup body ("messages" ∷ [])) ≡ true)
      × (g.items (g.lookup body ("messages" ∷ [])) ≡ ms)

  fingerprint_of :
      (body : R) (ms : List J)
      → Messages body ms
      → conversation_fingerprint g bytes hash body ≡ digest g bytes hash ms
  unfolding conversation_fingerprint
  fingerprint_of body ms (h, k) = rw (h, k) refl

  -- Once an answer `a` and a further question `q` are added to the messages of a conversation, its
  -- fingerprint is another one, or the digest has a collision, which is at hand; unless the answer is
  -- written as the message before the last one was, or is empty, when there was none.
  pub conversation_fingerprint_changes :
      (body next : R) (m a q : J) (ms : List J)
      → Messages body (m ∷ ms)
      → Messages next ((m ∷ ms) ++ a ∷ q ∷ [])
      → ¬ (before_last g bytes hash (m ∷ ms) ≡ bytes (g.raw a))
      → conversation_fingerprint g bytes hash body ≡ conversation_fingerprint g bytes hash next
      → (x y : List ℕ) × (¬ (x ≡ y)) × (hash x ≡ hash y)
  unfolding before_last digest
  conversation_fingerprint_changes body next m a q ms h k different same = (
    bytes (g.raw m) ++ before_last g bytes hash (m ∷ ms),
    bytes (g.raw m) ++ bytes (g.raw a),
    (λ e.
        different (
          append_cancel (bytes (g.raw m)) (before_last g bytes hash (m ∷ ms)) (bytes (g.raw a)) e)),
    sym (fingerprint_of body (m ∷ ms) h)
        ∙ same
        ∙ fingerprint_of next ((m ∷ ms) ++ a ∷ q ∷ []) k
        ∙ ap (λ o. hash (bytes (g.raw m) ++ elim o [ none ↦ [] | some x ↦ bytes (g.raw x) ]))
            (second_last-append m ms a q),
  )
