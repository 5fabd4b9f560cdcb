-- ===== src/Sanitize/Bodies.antt =====
-- A request after sanitizing: its messages are legal, and a second pass leaves it as it is.
use airgate_claude.Prelude.{
  true, false, List, [], ◌∷◌, map, Option, none, some, string_key, ◌≡◌, refl, ap, sym, ◌∙◌, arith,
  All, Bool-cases, inl, inr, subst,
}
use airgate_claude.Json.{Json, Laws}
use airgate_claude.Sanitize.{clean, clean_all, sanitize_body, add}
use airgate_claude.Sanitize.Legal.{
  IsLegal, Appends, clean-IsLegal, clean_unchanged, clean-of-Legal, map-map_back,
}

module _ {R J : Type 0} (g : Json R J) where
  clean_all-of-Legal : (ms : List J) → All (IsLegal g) ms → clean_all g ms ≡ (false, map g.raw ms)
  unfolding clean_all
  clean_all-of-Legal [] a = refl
  clean_all-of-Legal (m ∷ ms) a = rw (clean-of-Legal g m a.0) (rw (clean_all-of-Legal ms a.1) refl)

  clean_all_unchanged :
      (ms : List J) → (clean_all g ms).0 ≡ false → (clean_all g ms).1 ≡ map g.raw ms
  unfolding clean_all
  clean_all_unchanged [] h = refl
  clean_all_unchanged (m ∷ ms) h = elim (Bool-cases (clean g m).0) [
    | inl e ↦ absurd (ground (arith, h, e))
    | inr e ↦
        let rest : (clean_all g ms).0 ≡ false = ground (arith, h, e) in
        rw (clean_unchanged g m e) (ap (◌∷◌ (g.raw m)) (clean_all_unchanged ms rest))
  ]

  add-IsLegal :
      (o : Option R) (rs : List R)
      → Appends g o
      → All (IsLegal g) (map g.parse rs)
      → All (IsLegal g) (map g.parse (add o rs))
  add-IsLegal none rs l a = a
  add-IsLegal (some r) rs l a = (l, a)

  -- The messages of a body.
  abbrev pub messages : R → J
  messages body = g.lookup body ("messages" ∷ [])

  -- A body with a list of messages, all legal.
  abbrev pub IsLegalBody : R → Type 0
  IsLegalBody body = (g.is_array (messages body) ≡ true) × All (IsLegal g) (g.items (messages body))

  sanitize_unchanged : (body : R) → IsLegalBody body → sanitize_body g body ≡ body
  unfolding sanitize_body
  sanitize_unchanged body (a, l) =
      rw (clean_all-of-Legal (g.items (messages body)) l) (rw a (ground arith))

  sanitize_empty : (body : R) → g.is_empty body ≡ true → sanitize_body g body ≡ body
  unfolding sanitize_body
  sanitize_empty body h = rw h refl

  sanitize_other : (body : R) → g.is_array (messages body) ≡ false → sanitize_body g body ≡ body
  unfolding sanitize_body
  sanitize_other body h = rw h (ground arith)

  module _ (law : Laws g) where
    clean_all-IsLegal : (ms : List J) → All (IsLegal g) (map g.parse (clean_all g ms).1)
    unfolding clean_all
    clean_all-IsLegal [] = tt
    clean_all-IsLegal (m ∷ ms) =
        add-IsLegal (clean g m).1 (clean_all g ms).1 (clean-IsLegal g law m) (clean_all-IsLegal ms)

    set-IsLegalBody :
        (body body' : R)
        → g.set_array body "messages" (clean_all g (g.items (messages body))).1 ≡ some body'
        → IsLegalBody body'
    set-IsLegalBody body body' h =
        let rs = (clean_all g (g.items (messages body))).1 in
        (
          law.set_is_array body body' "messages" rs h,
          subst (All (IsLegal g)) (sym (law.set_items body body' "messages" rs h))
              (clean_all-IsLegal (g.items (messages body))),
        )

    -- After sanitizing, a body with a list of messages has legal ones: none has an empty text for its
    -- content, a list of blocks has a block, none of them is an empty text, and a thinking block stands
    -- last in a message of the assistant.
    pub sanitize_body-IsLegal :
        (body : R)
        → g.is_empty body ≡ false
        → g.is_array (messages body) ≡ true
        → IsLegalBody (sanitize_body g body)
    unfolding sanitize_body
    sanitize_body-IsLegal body n a =
        let ms = g.items (messages body) in
        elim (Bool-cases (clean_all g ms).0) [
          | inl e ↦
              let (body', h) = law.set_member body "messages" (clean_all g ms).1 a in
              rw (n, sanitize_body) (rw a (rw e (rw h (set-IsLegalBody body body' h))))
          | inr e ↦
              let back : map g.parse (clean_all g ms).1 ≡ ms =
                ap (map g.parse) (clean_all_unchanged ms e)
                ∙ map-map_back g.raw g.parse law.parse_raw ms in
              rw (n, sanitize_body)
                (rw a (rw e (a, subst (All (IsLegal g)) back (clean_all-IsLegal ms))))
        ]

    -- A second pass changes nothing, whatever the body.
    pub sanitize_body-sanitize_body :
        (body : R) → sanitize_body g (sanitize_body g body) ≡ sanitize_body g body
    sanitize_body-sanitize_body body = elim (Bool-cases (g.is_empty body)) [
      | inl e ↦ ap (sanitize_body g) (sanitize_empty body e)
      | inr e ↦ elim (Bool-cases (g.is_array (messages body))) [
        | inl a ↦ sanitize_unchanged (sanitize_body g body) (sanitize_body-IsLegal body e a)
        | inr a ↦ ap (sanitize_body g) (sanitize_other body a)
      ]
    ]
