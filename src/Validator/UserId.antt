-- ===== src/Validator/UserId.antt =====
-- The user identifiers that the regular expression of cc_validator.go matches.
use airgate_claude.Prelude.{
  ℕ, Bool, true, false, [], ◌∷◌, ◌++◌, leb, length, ◌≡◌, refl, arith, Bool-cases, inl, inr, Option,
  none, some, ap, ◌∙◌, sym, All, ◌≤◌, ◌↔◌,
}
use airgate_claude.Prelude.Text.{codes}
use airgate_claude.Headers.{Text}
use airgate_claude.Validator.Patterns.{
  run, at_least, literal, ◌▹◌, at_end, is_hex, is_any_hex, user_id_rest, matches_user_id,
}

literal-reads : (p s r : Text) → literal p s ≡ some r → s ≡ p ++ r
unfolding literal
literal-reads [] s r h = ground arith
literal-reads (c ∷ p) [] r h = ground arith
literal-reads (c ∷ p) (d ∷ s) r h = ground (arith, literal-reads p s r)

literal-append : (p r : Text) → literal p (p ++ r) ≡ some r
unfolding literal
literal-append [] r = refl
literal-append (c ∷ p) r = ground (arith, literal-append p r)

abbrev Class : (ℕ → Bool) → Text → Type 0
Class p = All (λ c. p c ≡ true)

run-reads : (p : ℕ → Bool) (s : Text) → (s ≡ (run p s).0 ++ (run p s).1) × Class p (run p s).0
unfolding run
run-reads p [] = (refl, tt)
run-reads p (c ∷ s) = ground (arith, run-reads p s)

-- At least `n` characters of the class.
abbrev pub IsRun : ℕ → (ℕ → Bool) → Text → Type 0
IsRun n p t = (n ≤ length t) × Class p t

at_least-reads :
    (n : ℕ) (p : ℕ → Bool) (s r : Text)
    → at_least n p s ≡ some r
    → (t : Text) × (s ≡ t ++ r) × IsRun n p t
unfolding at_least
at_least-reads n p s r h = elim (Bool-cases (leb n (length (run p s).0))) [
  | inl e ↦
      let same : (run p s).1 ≡ r = ground (arith, h, e) in
      (
        (run p s).0,
        (run-reads p s).0 ∙ ap (λ x. (run p s).0 ++ x) same,
        (ground arith, (run-reads p s).1),
      )
  | inr e ↦ absurd (ground (arith, h, e))
]

-- No character of the class is at the front.
abbrev Stops : (ℕ → Bool) → Text → Type 0
Stops p [] = Unit
Stops p (c ∷ s) = p c ≡ false

run-append : (p : ℕ → Bool) (t r : Text) → Class p t → Stops p r → run p (t ++ r) ≡ (t, r)
unfolding run
run-append p [] [] a s = refl
run-append p [] (c ∷ r) a s = rw s refl
run-append p (c ∷ t) r a s = rw a.0 (rw (run-append p t r a.1 s) refl)

at_least-append :
    (n : ℕ) (p : ℕ → Bool) (t r : Text) → IsRun n p t → Stops p r → at_least n p (t ++ r) ≡ some r
unfolding at_least
at_least-append n p t r (l, a) s = rw (run-append p t r a s) (ground arith)

-- `user_`, a run of hexadecimal digits and dashes, `_account_`, a run that may have capitals,
-- `_session_` and a run: each of at least eight characters, and nothing around them.
abbrev pub IsUserId : Text → Type 0
IsUserId s =
    (u a w : Text) × (s
      ≡ codes "user_" ++ (u ++ (codes "_account_" ++ (a ++ (codes "_session_" ++ w)))))
    × IsRun 8 is_hex u
    × IsRun 8 is_any_hex a
    × IsRun 8 is_hex w

then-some :
    (o : Option Text) (f : Text → Option Text) (r : Text)
    → (o ▹ f) ≡ some r
    → (s : Text) × (o ≡ some s) × (f s ≡ some r)
then-some none f r h = ground arith
then-some (some s) f r h = (s, refl, h)

append-nil : (s : Text) → s ++ [] ≡ s
append-nil [] = refl
append-nil (c ∷ s) = ap (◌∷◌ c) (append-nil s)

at_end-some : (o : Option Text) → at_end o ≡ true → o ≡ some []
at_end-some none h = ground arith
at_end-some (some []) h = refl
at_end-some (some (c ∷ s)) h = ground arith

-- One label and the run behind it.
abbrev labelled : Option Text → Text → (ℕ → Bool) → Option Text
labelled o p cls = o ▹ literal p ▹ at_least 8 cls

labelled-reads :
    (o : Option Text) (p : Text) (cls : ℕ → Bool) (r : Text)
    → labelled o p cls ≡ some r
    → (s t : Text) × (o ≡ some s) × (s ≡ p ++ (t ++ r)) × IsRun 8 cls t
labelled-reads o p cls r h =
    let (m, h1, h2) = then-some (o ▹ literal p) (at_least 8 cls) r h in
    let (s, h3, h4) = then-some o (literal p) m h1 in
    let (t, h5, h6) = at_least-reads 8 cls m r h2 in
    (s, t, h3, literal-reads p s m h4 ∙ ap (λ x. p ++ x) h5, h6)

labelled-append :
    (p : Text) (cls : ℕ → Bool) (t r : Text)
    → IsRun 8 cls t
    → Stops cls r
    → labelled (some (p ++ (t ++ r))) p cls ≡ some r
labelled-append p cls t r l s = rw (literal-append p (t ++ r)) (at_least-append 8 cls t r l s)

some-injective : (s t : Text) → some s ≡ some t → s ≡ t
some-injective s t h = ground (arith, h)

user_id_rest-IsUserId : (s : Text) → user_id_rest s ≡ some [] → IsUserId s
unfolding user_id_rest
user_id_rest-IsUserId s h =
    let first = labelled (some s) (codes "user_") is_hex in
    let second = labelled first (codes "_account_") is_any_hex in
    let (s3, w, e3, f3, g3) = labelled-reads second (codes "_session_") is_hex [] h in
    let (s2, a, e2, f2, g2) = labelled-reads first (codes "_account_") is_any_hex s3 e3 in
    let (s1, u, e1, f1, g1) = labelled-reads (some s) (codes "user_") is_hex s2 e2 in
    let last : s3 ≡ codes "_session_" ++ w = f3 ∙ ap (λ x. codes "_session_" ++ x) (append-nil w) in
    let mid : s2 ≡ codes "_account_" ++ (a ++ (codes "_session_" ++ w)) =
      f2 ∙ ap (λ x. codes "_account_" ++ (a ++ x)) last in
    (u, a, w, some-injective s s1 e1 ∙ f1 ∙ ap (λ x. codes "user_" ++ (u ++ x)) mid, g1, g2, g3)

IsUserId-user_id_rest : (s : Text) → IsUserId s → user_id_rest s ≡ some []
unfolding user_id_rest
IsUserId-user_id_rest s (u, a, w, e, hu, ha, hw) =
    let r2 = codes "_session_" ++ w in
    let r1 = codes "_account_" ++ (a ++ r2) in
    let nil = sym (append-nil w) in
    rw e (
      rw (labelled-append (codes "user_") is_hex u r1 hu refl) (
        rw (labelled-append (codes "_account_") is_any_hex a r2 ha refl)
          (rw nil (labelled-append (codes "_session_") is_hex w [] hw tt))))

-- The regular expression matches exactly these texts.
pub matches_user_id_iff : (s : Text) → (matches_user_id s ≡ true) ↔ IsUserId s
unfolding matches_user_id
matches_user_id_iff s = (
  (λ h. user_id_rest-IsUserId s (at_end-some (user_id_rest s) h)),
  (λ h. rw (IsUserId-user_id_rest s h) refl),
)
