-- ===== src/Stream/Single/Laws.antt =====
-- An answer in one piece: what reaches the client and the host, and what is refused.
use airgate_claude.Prelude.{
  ℕ, zero, suc, ◌+◌, List, [], ◌∷◌, ◌++◌, ap, Option, none, some, String, ltb, ◌<◌, ◌≤◌, length,
  ◌≡◌, refl, subst, arith, Bool-cases, inl, inr, sym, string_key,
}
use airgate_claude.Errors.{success, upstream_transient, transient_outcome}
use airgate_claude.Stream.{Doc}
use airgate_claude.Stream.Single.{
  max_non_stream_response_size, read_limited, Handled, handle_non_stream_response, usage_of,
  succeeded, first_bytes,
}
use airgate_claude.TokenManager.{ok, err}

-- Within the limit all bytes are read.
read_limited-ok : (n : ℕ) (bs : List ℕ) → length bs < n → read_limited n bs none ≡ ok bs
unfolding read_limited
read_limited-ok zero bs h = ground (arith, h)
read_limited-ok (suc n) [] h = refl
read_limited-ok (suc n) (b ∷ bs) h = rw (read_limited-ok n bs (ground (arith, h))) refl

read_limited-err :
    (n : ℕ) (bs : List ℕ) (e : String) → length bs < n → read_limited n bs (some e) ≡ err e
unfolding read_limited
read_limited-err zero bs e h = ground (arith, h)
read_limited-err (suc n) [] e h = refl
read_limited-err (suc n) (b ∷ bs) e h = rw (read_limited-err n bs e (ground (arith, h))) refl

-- A body that reaches the limit is cut off there.
read_limited-long :
    (n : ℕ) (bs : List ℕ) (f : Option String)
    → n ≤ length bs
    → (r : List ℕ) × (read_limited n bs f ≡ ok r) × (length r ≡ n)
unfolding read_limited
read_limited-long zero bs f h = ([], refl, refl)
read_limited-long (suc n) [] f h = ground (arith, h)
read_limited-long (suc n) (b ∷ bs) f h =
    let (r, e, l) = read_limited-long n bs f (ground (arith, h)) in
    (b ∷ r, rw e refl, ground (arith, l))

first_bytes-prefix : (n : ℕ) (bs : List ℕ) → (rest : List ℕ) × (first_bytes n bs ++ rest ≡ bs)
unfolding first_bytes
first_bytes-prefix zero bs = (bs, refl)
first_bytes-prefix (suc n) [] = ([], refl)
first_bytes-prefix (suc n) (b ∷ bs) =
    let (rest, e) = first_bytes-prefix n bs in (rest, ap (◌∷◌ b) e)

first_bytes-all : (n : ℕ) (bs : List ℕ) → length bs ≤ n → first_bytes n bs ≡ bs
unfolding first_bytes
first_bytes-all zero [] h = refl
first_bytes-all zero (b ∷ bs) h = ground (arith, h)
first_bytes-all (suc n) [] h = refl
first_bytes-all (suc n) (b ∷ bs) h = ap (◌∷◌ b) (first_bytes-all n bs (ground (arith, h)))

module _ {H : Type 0} (content_type : H → String) (doc : List ℕ → Doc) (format_price : ℕ → String)
    (elapsed status : ℕ) (headers : H) where
  abbrev ResultOf : Type 0
  ResultOf = Handled content_type doc format_price elapsed status headers

  -- All bytes are in the outcome, or the client got the first of them, and all if its write took them.
  abbrev pub Reaches : Option ℕ → List ℕ → ResultOf → Type 0
  Reaches none bytes (o, x, d) = (o.body ≡ some bytes) × (d ≡ none)
  Reaches (some n) bytes (o, x, none) = ⊥
  Reaches (some n) bytes (o, x, some d) =
      (o.body ≡ none)
      × (d.content_type ≡ content_type headers)
      × (d.status ≡ status)
      × ((rest : List ℕ) × (d.body ++ rest ≡ bytes))
      × (length bytes ≤ n → d.body ≡ bytes)

  abbrev pub Accepts : Option ℕ → List ℕ → ResultOf → Type 0
  Accepts w bytes (o, x, d) =
      (o.kind ≡ success)
      × (x ≡ none)
      × (o.usage ≡ some (usage_of content_type doc format_price elapsed status headers bytes))
      × Reaches w bytes (o, x, d)

  -- Nothing reaches the client, nothing is billed, and the host may try again.
  abbrev pub Rejects : ResultOf → Type 0
  Rejects (o, x, d) =
      (o.kind ≡ upstream_transient) × (o.usage ≡ none) × (x ≡ some o.reason) × (d ≡ none)

  abbrev handle : Option ℕ → List ℕ → Option String → ResultOf
  handle = handle_non_stream_response content_type doc format_price elapsed status headers

  succeeded-Accepts :
      (w : Option ℕ) (bytes : List ℕ)
      → Accepts w bytes (succeeded content_type doc format_price elapsed status headers w bytes)
  unfolding succeeded
  succeeded-Accepts none bytes = (refl, refl, refl, (refl, refl))
  succeeded-Accepts (some n) bytes =
      (refl, refl, refl, (refl, refl, refl, first_bytes-prefix n bytes, first_bytes-all n bytes))

  handle-Accepts :
      (w : Option ℕ) (bytes : List ℕ)
      → length bytes ≤ max_non_stream_response_size
      → Accepts w bytes (handle w bytes none)
  unfolding handle_non_stream_response
  handle-Accepts w bytes h =
      rw (read_limited-ok (max_non_stream_response_size + 1) bytes (ground (arith, h)))
        (elim (Bool-cases (ltb max_non_stream_response_size (length bytes))) [
          | inl e ↦ ground (arith, h, e)
          | inr e ↦ rw e (succeeded-Accepts w bytes)
        ])

  handle-err :
      (w : Option ℕ) (bytes : List ℕ) (e : String)
      → length bytes ≤ max_non_stream_response_size
      → Rejects (handle w bytes (some e))
  unfolding handle_non_stream_response transient_outcome
  handle-err w bytes e h =
      rw (read_limited-err (max_non_stream_response_size + 1) bytes e (ground (arith, h)))
        (refl, refl, refl, refl)

  handle-long :
      (w : Option ℕ) (bytes : List ℕ) (f : Option String)
      → max_non_stream_response_size < length bytes
      → Rejects (handle w bytes f)
  unfolding handle_non_stream_response transient_outcome
  handle-long w bytes f h =
      let (r, e, l) =
        read_limited-long (max_non_stream_response_size + 1) bytes f (ground (arith, h)) in
      rw e (elim (Bool-cases (ltb max_non_stream_response_size (length r))) [
        | inl b ↦ rw b (refl, refl, refl, refl)
        | inr b ↦ ground (arith, b, l)
      ])

  -- An answer of at most 64 MiB whose body ends without an error succeeds and is billed. Without a client
  -- to write to, the host gets its body whole; with one, the client alone gets it, from its start as far as
  -- the write goes, and whole if the write does not fail. A longer answer, or one whose body breaks off, is
  -- a transient failure: nothing of it is written to the client, and nothing is billed.
  pub handle_non_stream_response_lem :
      (w : Option ℕ) (bytes : List ℕ) (f : Option String)
      → (length bytes ≤ max_non_stream_response_size
          → f ≡ none
          → Accepts w bytes (handle w bytes f))
        × (max_non_stream_response_size < length bytes → Rejects (handle w bytes f))
        × ((e : String) → f ≡ some e → Rejects (handle w bytes f))
  handle_non_stream_response_lem w bytes f = (
    λ h k. subst (λ x. Accepts w bytes (handle w bytes x)) (sym k) (handle-Accepts w bytes h),
    handle-long w bytes f,
    (λ e k.
        subst (λ x. Rejects (handle w bytes x)) (sym k)
          (elim (Bool-cases (ltb max_non_stream_response_size (length bytes))) [
            | inl b ↦ handle-long w bytes (some e) (ground (arith, b))
            | inr b ↦ handle-err w bytes e (ground (arith, b))
          ])),
  )
