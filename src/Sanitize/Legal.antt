-- ===== src/Sanitize/Legal.antt =====
-- What sanitizing leaves of the content of a message.
use airgate_claude.Prelude.{
  true, false, List, [], ◌∷◌, map, Option, none, some, String, string_key, ◌==◌, nat_eq, length,
  ◌≡◌, ◌≤◌, suc, refl, ap, sym, ◌∙◌, arith, Bool-cases, inl, inr, subst,
}
use airgate_claude.Json.{Json, Laws}
use airgate_claude.Sanitize.{
  is_nil, is_empty_text, is_thinking, keeps, kept, filter_content_blocks, rewrite, clean,
}

pub map-map_back {ℓ κ} :
    {A : Type ℓ} {B : Type κ} (f : A → B) (h : B → A)
    → ((x : A) → h (f x) ≡ x)
    → (xs : List A) → map h (map f xs) ≡ xs
map-map_back f h e [] = refl
map-map_back f h e (x ∷ xs) = rw (e x) (ap (◌∷◌ x) (map-map_back f h e xs))

pub length-map {ℓ κ} :
    {A : Type ℓ} {B : Type κ} (f : A → B) (xs : List A) → length (map f xs) ≡ length xs
length-map f [] = refl
length-map f (x ∷ xs) = ap suc (length-map f xs)

module _ {R J : Type 0} (g : Json R J) where
  -- What the upstream accepts: no empty text block; a thinking block only in a message of the
  -- assistant, and there only as the last block.
  abbrev pub LegalBlocks : String → List J → Type 0
  LegalBlocks role [] = Unit
  LegalBlocks role (b ∷ bs) =
      (is_empty_text g b ≡ false)
      × (is_thinking g b ≡ true → ((role == "assistant") ≡ true) × (bs ≡ []))
      × LegalBlocks role bs

  kept-LegalBlocks : (role : String) (bs : List J) → LegalBlocks role (kept g role bs)
  unfolding kept keeps
  kept-LegalBlocks role [] = tt
  kept-LegalBlocks role (b ∷ []) = ground arith
  kept-LegalBlocks role (b ∷ c ∷ bs) = ground (arith, kept-LegalBlocks role (c ∷ bs))

  -- Legal blocks are kept, all of them.
  kept-of-Legal : (role : String) (bs : List J) → LegalBlocks role bs → kept g role bs ≡ bs
  unfolding kept keeps
  kept-of-Legal role [] l = refl
  kept-of-Legal role (b ∷ []) l = ground arith
  kept-of-Legal role (b ∷ c ∷ bs) l = ground (arith, kept-of-Legal role (c ∷ bs) l.2)

  length-kept-le : (role : String) (bs : List J) → length (kept g role bs) ≤ length bs
  unfolding kept
  length-kept-le role [] = omega arith
  length-kept-le role (b ∷ bs) = ground (arith, length-kept-le role bs)

  -- A filter that keeps the number of the blocks keeps the blocks.
  kept_all :
      (role : String) (bs : List J) → length (kept g role bs) ≡ length bs → kept g role bs ≡ bs
  unfolding kept
  kept_all role [] = λ h. refl
  kept_all role (b ∷ bs) = elim (Bool-cases (keeps g role (is_nil bs) b)) [
    | inl e ↦ rw e (λ h. ap (◌∷◌ b) (kept_all role bs (omega (arith, h))))
    | inr e ↦ rw e (λ h. absurd (omega (arith, h, length-kept-le role bs)))
  ]

  -- Its content is no empty text, and if it is a list of blocks, it has a block and all are legal.
  pub record IsLegal (msg : J) : Type 0 where
    pub has_text :
        g.is_string (g.field msg "content") ≡ true → (g.text (g.field msg "content") == "") ≡ false
    pub has_blocks :
        g.is_array (g.field msg "content") ≡ true → is_nil (g.items (g.field msg "content")) ≡ false
    pub blocks :
        g.is_array (g.field msg "content") ≡ true
        → LegalBlocks (g.text (g.field msg "role")) (g.items (g.field msg "content"))

  -- A legal message is left as it is.
  rewrite_all :
      (msg : J) (bs : List J)
      → g.items (g.field msg "content") ≡ bs
      → is_nil bs ≡ false
      → rewrite g msg (map g.raw bs) ≡ (false, some (g.raw msg))
  unfolding rewrite
  rewrite_all msg [] e h = absurd (ground (arith, h))
  rewrite_all msg (b ∷ bs) e h = ground (arith, e, length-map g.raw bs)

  pub clean-of-Legal : (msg : J) → IsLegal msg → clean g msg ≡ (false, some (g.raw msg))
  unfolding clean filter_content_blocks
  clean-of-Legal msg l = elim (Bool-cases (g.is_string (g.field msg "content"))) [
    | inl s ↦ rw (s, clean) (rw (l.has_text s) refl)
    | inr s ↦ elim (Bool-cases (g.is_array (g.field msg "content"))) [
      | inl a ↦
          rw (s, clean)
            (rw a (
              rw
                (kept-of-Legal (g.text (g.field msg "role")) (g.items (g.field msg "content"))
                  (l.blocks a))
                (rewrite_all msg (g.items (g.field msg "content")) refl (l.has_blocks a))))
      | inr a ↦ rw (s, clean) (rw a refl)
    ]
  ]

  -- What a round appends is legal.
  abbrev pub Appends : Option R → Type 0
  Appends none = Unit
  Appends (some r) = IsLegal (g.parse r)

  text-IsLegal :
      (msg : J)
      → g.is_array (g.field msg "content") ≡ false
      → (g.is_string (g.field msg "content") ≡ true
          → (g.text (g.field msg "content") == "") ≡ false)
      → IsLegal msg
  text-IsLegal msg a s = record {
    has_text = s;
    has_blocks = λ h. ground (arith, a, h);
    blocks = λ h. ground (arith, a, h);
  }

  rewrite_unchanged :
      (msg : J) (rs : List R)
      → (rewrite g msg rs).0 ≡ false
      → (rewrite g msg rs).1 ≡ some (g.raw msg)
  unfolding rewrite
  rewrite_unchanged msg [] h = ground arith
  rewrite_unchanged msg (r ∷ rs) h = ground arith

  -- Without a change the message is appended as it was.
  pub clean_unchanged : (msg : J) → (clean g msg).0 ≡ false → (clean g msg).1 ≡ some (g.raw msg)
  unfolding clean filter_content_blocks
  clean_unchanged msg h =
      let blocks = kept g (g.text (g.field msg "role")) (g.items (g.field msg "content")) in
      ground (arith, rewrite_unchanged msg (map g.raw blocks))

  module _ (law : Laws g) where
    raw-IsLegal : (msg : J) → IsLegal msg → Appends (some (g.raw msg))
    raw-IsLegal msg l = subst IsLegal (sym (law.parse_raw msg)) l

    -- A message read back after its blocks were replaced by legal ones.
    set-IsLegal :
        (msg : J) (r' : R) (b : J) (bs : List J)
        → g.set_array (g.raw msg) "content" (map g.raw (b ∷ bs)) ≡ some r'
        → LegalBlocks (g.text (g.field msg "role")) (b ∷ bs)
        → Appends (some r')
    set-IsLegal msg r' b bs h l =
        let k = law.set_items (g.raw msg) r' "content" (map g.raw (b ∷ bs)) h in
        let at : (j : String) → g.lookup r' (j ∷ []) ≡ g.field (g.parse r') j =
          λ j. law.lookup_field r' j in
        let items : g.items (g.field (g.parse r') "content") ≡ b ∷ bs =
          subst (λ x. g.items x ≡ b ∷ bs) (at "content")
            (k ∙ map-map_back g.raw g.parse law.parse_raw (b ∷ bs)) in
        let arr : g.is_array (g.field (g.parse r') "content") ≡ true =
          subst (λ x. g.is_array x ≡ true) (at "content")
            (law.set_is_array (g.raw msg) r' "content" (map g.raw (b ∷ bs)) h) in
        let role : g.field (g.parse r') "role" ≡ g.field msg "role" =
          sym (at "role")
          ∙ law.set_other (g.raw msg) r' "content" "role" (map g.raw (b ∷ bs)) h refl
          ∙ law.lookup_field (g.raw msg) "role"
          ∙ ap (λ x. g.field x "role") (law.parse_raw msg) in
        record {
          has_text = λ s. ground (arith, s, law.not_both (g.field (g.parse r') "content") arr);
          has_blocks = λ _. rw items refl;
          blocks = λ _. rw items (subst (λ x. LegalBlocks (g.text x) (b ∷ bs)) (sym role) l);
        }

    rewrite-IsLegal :
        (msg : J) (bs : List J)
        → kept g (g.text (g.field msg "role")) (g.items (g.field msg "content")) ≡ bs
        → g.is_array (g.field msg "content") ≡ true
        → Appends (rewrite g msg (map g.raw bs)).1
    unfolding rewrite
    rewrite-IsLegal msg [] e a = tt
    rewrite-IsLegal msg (b ∷ bs) e a =
        let role = g.text (g.field msg "role") in
        let l : LegalBlocks role (b ∷ bs) =
          subst (LegalBlocks role) e (kept-LegalBlocks role (g.items (g.field msg "content"))) in
        elim (Bool-cases
          (nat_eq (length (g.raw b ∷ map g.raw bs)) (length (g.items (g.field msg "content"))))) [
            | inl n ↦
                let same : length (g.raw b ∷ map g.raw bs)
                    ≡ length (g.items (g.field msg "content")) =
                  ground arith in
                let all : g.items (g.field msg "content") ≡ b ∷ bs =
                  sym (
                    kept_all role (g.items (g.field msg "content"))
                      (ap length e ∙ sym (length-map g.raw (b ∷ bs)) ∙ same))
                  ∙ e in
                rw (n, rewrite)
                  (raw-IsLegal msg (record {
                    has_text = λ s. ground (arith, s, law.not_both (g.field msg "content") a);
                    has_blocks = λ _. rw all refl;
                    blocks = λ _. rw all l;
                  }))
            | inr n ↦
                let can : g.is_array (g.lookup (g.raw msg) ("content" ∷ [])) ≡ true =
                  rw (law.lookup_field (g.raw msg) "content") (rw (law.parse_raw msg) a) in
                let (r', h) = law.set_member (g.raw msg) "content" (map g.raw (b ∷ bs)) can in
                rw (n, rewrite) (rw h (set-IsLegal msg r' b bs h l))
          ]

    pub clean-IsLegal : (msg : J) → Appends (clean g msg).1
    unfolding clean filter_content_blocks
    clean-IsLegal msg = elim (Bool-cases (g.is_string (g.field msg "content"))) [
      | inl s ↦ elim (Bool-cases (g.text (g.field msg "content") == "")) [
        | inl t ↦ rw (s, clean) (rw t tt)
        | inr t ↦
            rw (s, clean)
              (rw t (
                raw-IsLegal msg (
                  text-IsLegal msg (ground (arith, s, law.not_both (g.field msg "content")))
                    (λ _. t))))
      ]
      | inr s ↦ elim (Bool-cases (g.is_array (g.field msg "content"))) [
        | inl a ↦
            rw (s, clean)
              (rw a (
                rewrite-IsLegal msg
                  (kept g (g.text (g.field msg "role")) (g.items (g.field msg "content"))) refl a))
        | inr a ↦
            rw (s, clean) (rw a (raw-IsLegal msg (text-IsLegal msg a (λ h. ground (arith, s, h)))))
      ]
    ]
