-- ===== src/Headers/Parts.antt =====
-- Joining parts and taking them apart again: nothing is lost if the parts are trimmed, not empty and
-- without commas, and what is taken apart is such.
use airgate_claude.Prelude.{
  ℕ, ◌≡◌, refl, ap, ◌∙◌, ◌↔◌, true, false, List, [], ◌∷◌, ◌++◌, nat_eq, arith, All, Bool-cases, inl,
  inr,
}
use airgate_claude.Prelude.Space.{
  trim_space, trim_left, trim_right, trim_space-trim_space, All-trim_space,
}
use airgate_claude.Headers.{Text, text_eq, push, split, join, trimmed, parts_of}

abbrev NoComma : Text → Type 0
NoComma = All (λ c. nat_eq c b',' ≡ false)

-- A part as the header has them.
pub record IsPart (p : Text) : Type 0 where
  pub no_comma : NoComma p
  pub trims : trim_space p ≡ p
  pub some_text : text_eq p [] ≡ false

split_one : (p : Text) → NoComma p → split p ≡ p ∷ []
unfolding split push
split_one [] n = refl
split_one (c ∷ p) n = rw n.0 (rw (split_one p n.1) refl)

split-append : (p s : Text) → NoComma p → split (p ++ b',' ∷ s) ≡ p ∷ split s
unfolding split push
split-append [] s n = refl
split-append (c ∷ p) s n = rw n.0 (rw (split-append p s n.1) refl)

trimmed-IsPart : (p : Text) (ps : List Text) → IsPart p → trimmed (p ∷ ps) ≡ p ∷ trimmed ps
unfolding trimmed
trimmed-IsPart p ps i = rw i.trims (rw i.some_text refl)

pub parts_of-join : (ps : List Text) → All IsPart ps → parts_of (join ps) ≡ ps
unfolding join split trimmed trim_left trim_right
parts_of-join [] a = refl
parts_of-join (p ∷ []) (i, a) = ap trimmed (split_one p i.no_comma) ∙ trimmed-IsPart p [] i
parts_of-join (p ∷ q ∷ ps) (i, a) =
    ap trimmed (split-append p (join (q ∷ ps)) i.no_comma)
    ∙ trimmed-IsPart p (split (join (q ∷ ps))) i
    ∙ ap (◌∷◌ p) (parts_of-join (q ∷ ps) a)

push-NoComma :
    (c : ℕ) (ps : List Text) → nat_eq c b',' ≡ false → All NoComma ps → All NoComma (push c ps)
unfolding push
push-NoComma c [] h a = ((h, tt), tt)
push-NoComma c (p ∷ ps) h a = ((h, a.0), a.1)

split-NoComma : (s : Text) → All NoComma (split s)
unfolding split
split-NoComma [] = (tt, tt)
split-NoComma (c ∷ s) = elim (Bool-cases (nat_eq c b',')) [
  | inl e ↦ rw e (tt, split-NoComma s)
  | inr e ↦ rw e (push-NoComma c (split s) e (split-NoComma s))
]

trimmed_parts : (ps : List Text) → All NoComma ps → All IsPart (trimmed ps)
unfolding trimmed
trimmed_parts [] a = tt
trimmed_parts (p ∷ ps) a = elim (Bool-cases (text_eq (trim_space p) [])) [
  | inl e ↦ rw e (trimmed_parts ps a.1)
  | inr e ↦ rw e (
    record {
      no_comma = All-trim_space (λ c. nat_eq c b',' ≡ false) p a.0;
      trims = trim_space-trim_space p;
      some_text = e;
    },
    trimmed_parts ps a.1,
  )
]

pub parts_of-IsPart : (s : Text) → All IsPart (parts_of s)
parts_of-IsPart s = trimmed_parts (split s) (split-NoComma s)

pub text_eq_iff : (s t : Text) → (text_eq s t ≡ true) ↔ (s ≡ t)
text_eq_iff [] [] = ground arith
text_eq_iff [] (d ∷ t) = ground arith
text_eq_iff (c ∷ s) [] = ground arith
text_eq_iff (c ∷ s) (d ∷ t) = ground (arith, text_eq_iff s t)
