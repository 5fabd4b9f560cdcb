-- ===== src/Tunnel/Laws.antt =====
-- No connection to a proxy is left open after an error, and no byte behind the proxy's answer is lost.
use airgate_claude.Prelude.{
  ℕ, zero, suc, true, false, List, [], ◌∷◌, ◌++◌, ◌+◌, ◌≤◌, Option, none, some, String, string_key,
  nat_eq, ◌≡◌, refl, arith, Bool-cases, Option-cases, inl, inr, ap, ◌∙◌, sym,
}
use airgate_claude.Sanitize.{is_nil}
use airgate_claude.TokenManager.{Result, ok, err}
use airgate_claude.Tunnel.{
  Proxy, Answer, Network, plain, with_buffer, Dialed, proxy_handshake_deadline, http_dial_timeout,
  proxy_addr, answered, http_connect, take_bytes, read_buffered,
}

-- After an error the connection, if there is one, is closed; a tunnel is over an open connection, without
-- a deadline if it could be taken away.
abbrev pub Settled : Network → Dialed → Type 0
Settled net (err e, none) = Unit
Settled net (err e, some c) = c.closed ≡ true
Settled net (ok t, none) = ⊥
Settled net (ok (plain c), some d) =
    (c ≡ d) × (c.closed ≡ false) × (net.clear_deadline ≡ none → c.deadline ≡ none)
Settled net (ok (with_buffer c bs), some d) =
    (c ≡ d) × (c.closed ≡ false) × (net.clear_deadline ≡ none → c.deadline ≡ none)

module _ (net : Network) (now : ℕ) (ctx : Option ℕ) where
  answered-Settled : (r : Result Answer) → Settled net (answered net now ctx r)
  unfolding answered
  answered-Settled (err e) = refl
  answered-Settled (ok a) = elim (Bool-cases (nat_eq a.status_code 200)) [
    | inl e ↦ elim (Bool-cases (is_nil a.buffered)) [
      | inl b ↦ elim (Option-cases net.clear_deadline) [
        | inl d ↦ rw e (rw b (rw d (refl, refl, λ h. refl)))
        | inr (x, d) ↦ rw e (rw b (rw d (refl, refl, λ h. absurd (cc))))
      ]
      | inr b ↦ elim (Option-cases net.clear_deadline) [
        | inl d ↦ rw e (rw b (rw d (refl, refl, λ h. refl)))
        | inr (x, d) ↦ rw e (rw b (rw d (refl, refl, λ h. absurd (cc))))
      ]
    ]
    | inr e ↦ rw e refl
  ]

  -- However the dial, the deadline, the write or the answer of an HTTP proxy fails, the connection to it
  -- is closed; when a tunnel is returned, its connection is open, and it has no deadline unless the call
  -- that takes the deadline away failed.
  pub http_connect-Settled :
      (p : Proxy) (target : String) → Settled net (http_connect net now ctx p target)
  unfolding http_connect
  http_connect-Settled p target = elim (Option-cases (net.dial (proxy_addr net now ctx p))) [
    | inr (x, e) ↦ rw (e, http_connect) tt
    | inl e ↦ elim (Option-cases net.set_deadline) [
      | inr (x, f) ↦ rw (e, http_connect) (rw f refl)
      | inl f ↦ elim (Option-cases (net.write target p.user)) [
        | inr (x, g) ↦ rw (e, http_connect) (rw f (rw g refl))
        | inl g ↦ rw (e, http_connect) (rw f (rw g (answered-Settled net.read)))
      ]
    ]
  ]

-- The handshake with a proxy ends in time: not after the dial timeout, nor after the context's deadline.
pub proxy_handshake_deadline_lem :
    (now : ℕ) (ctx : Option ℕ)
    → (proxy_handshake_deadline now ctx ≤ now + http_dial_timeout)
      × ((d : ℕ) → ctx ≡ some d → proxy_handshake_deadline now ctx ≤ d)
unfolding proxy_handshake_deadline
proxy_handshake_deadline_lem now none = (omega arith, λ d h. ground (arith, h))
proxy_handshake_deadline_lem now (some e) = (ground arith, λ d h. ground (arith, h))

take_bytes-append : (n : ℕ) (bs : List ℕ) → (take_bytes n bs).0 ++ (take_bytes n bs).1 ≡ bs
unfolding take_bytes
take_bytes-append zero bs = refl
take_bytes-append (suc n) [] = refl
take_bytes-append (suc n) (b ∷ bs) = ap (◌∷◌ b) (take_bytes-append n bs)

append_assoc : (xs ys zs : List ℕ) → (xs ++ ys) ++ zs ≡ xs ++ (ys ++ zs)
append_assoc [] ys zs = refl
append_assoc (x ∷ xs) ys zs = ap (◌∷◌ x) (append_assoc xs ys zs)

-- Reads with buffers of these sizes: the bytes read, what is still buffered, and what is on the wire.
unfoldable pub read_all : List ℕ → List ℕ → List ℕ → List ℕ × List ℕ × List ℕ
unfolding read_buffered
read_all [] buffer wire = ([], buffer, wire)
read_all (n ∷ ns) buffer wire =
    let (t, buffer', wire') = read_buffered n buffer wire in
    let (more, b, w) = read_all ns buffer' wire' in (t ++ more, b, w)

read-append :
    (n : ℕ) (buffer wire : List ℕ)
    → let (t, b, w) = read_buffered n buffer wire in t ++ (b ++ w) ≡ buffer ++ wire
unfolding read_buffered
read-append n [] wire = take_bytes-append n wire
read-append n (c ∷ buffer) wire =
    sym (append_assoc (take_bytes n (c ∷ buffer)).0 (take_bytes n (c ∷ buffer)).1 wire)
    ∙ ap (λ x. x ++ wire) (take_bytes-append n (c ∷ buffer))

-- Whatever the sizes of the reads, the bytes come in the order in which the proxy sent them, those that
-- came with its answer first: what was read and what is left make up all of them.
pub read_all-append :
    (ns buffer wire : List ℕ)
    → let (t, b, w) = read_all ns buffer wire in t ++ (b ++ w) ≡ buffer ++ wire
unfolding read_all
read_all-append [] buffer wire = refl
read_all-append (n ∷ ns) buffer wire =
    let (t, b, w) = read_buffered n buffer wire in
    let (more, b', w') = read_all ns b w in
    append_assoc t more (b' ++ w')
    ∙ ap (λ x. t ++ x) (read_all-append ns b w)
    ∙ read-append n buffer wire
