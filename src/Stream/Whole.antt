-- ===== src/Stream/Whole.antt =====
-- A stream that ends without an error, read by a client that stays: everything arrives, and the bill is
-- that of all its lines.
use airgate_claude.Prelude.{
  ℕ, ◌≡◌, refl, sym, ap, ◌∙◌, subst, Bool, true, List, [], ◌∷◌, ◌++◌, Option, none, some, String,
  string_key, ◌==◌, length, inl, inr, Bool-cases,
}
use mathlib.Core.List.{append_assoc, append-nil}
use airgate_claude.Errors.{success}
use airgate_claude.Models.Usage.{fill_usage_cost}
use airgate_claude.Stream.{Doc}
use airgate_claude.Stream.Events.{
  Billing, Observed, observe_event, observe_line, extract_line, extract_lines, no_billing,
}
use airgate_claude.Stream.Loop.{
  Input, line, ended, State, StreamOutcome, write_event, flush_event, finished, end_of_lines,
  append_line, run, initial,
}

-- The lines of a stream that then ends.
abbrev pub inputs : List String → List Input
inputs [] = ended none ∷ []
inputs (l ∷ ls) = line l ∷ inputs ls

write_event_all :
    (accepts : ℕ → Bool)
    → ((n : ℕ) → accepts n ≡ true)
    → (ls w : List String) → write_event accepts ls w ≡ (true, w ++ ls)
unfolding write_event
write_event_all accepts a [] w = ap (λ x. (true, x)) (sym (append-nil w))
write_event_all accepts a (l ∷ ls) w =
    rw (a (length w)) (
      write_event_all accepts a ls (w ++ l ∷ []) ∙ ap (λ x. (true, x)) (append_assoc w (l ∷ []) ls))

observe_event-billing :
    (doc : List ℕ → Doc) (now : ℕ) (ls : List String) (o : Observed)
    → (observe_event doc now ls o).billing ≡ extract_lines doc ls o.billing
unfolding observe_event observe_line extract_lines
observe_event-billing doc now [] o = refl
observe_event-billing doc now (l ∷ ls) o =
    observe_event-billing doc now ls (observe_line doc now l o)

extract_lines-append :
    (doc : List ℕ → Doc) (xs ys : List String) (b : Billing)
    → extract_lines doc (xs ++ ys) b ≡ extract_lines doc ys (extract_lines doc xs b)
unfolding extract_lines
extract_lines-append doc [] ys b = refl
extract_lines-append doc (x ∷ xs) ys b = extract_lines-append doc xs ys (extract_line doc x b)

module _ (doc : List ℕ → Doc) (format_price : ℕ → String) (clock : ℕ → ℕ) (status : ℕ) where
  abbrev pub Bills : Billing → Option Observed → Type 0
  Bills b none = ⊥
  Bills b (some o) = o.billing.usage ≡ fill_usage_cost format_price b.usage

  -- A success that brought these lines to the client and bills `b`.
  abbrev pub Delivers : List String → Billing → Option (StreamOutcome × List String) → Type 0
  Delivers ls b none = ⊥
  Delivers ls b (some (out, w)) = (out.kind ≡ success) × (w ≡ ls) × Bills b out.usage

  Delivers-ap :
      (ls ls' : List String) (b b' : Billing) (o : Option (StreamOutcome × List String))
      → ls ≡ ls'
      → b ≡ b'
      → Delivers ls b o
      → Delivers ls' b' o
  Delivers-ap ls ls' b b' o p q d =
      subst (λ x. Delivers x b' o) p (subst (λ x. Delivers ls x o) q d)

  module _ (accepts : ℕ → Bool) (a : (n : ℕ) → accepts n ≡ true) where
    after : State → State
    after st = record {
      event_lines = [];
      written = st.written ++ st.event_lines;
      observed =
          observe_event doc (clock (length (st.written ++ st.event_lines))) st.event_lines
            st.observed;
    }

    flush_all : (st : State) → flush_event doc format_price accepts clock status st ≡ inr (after st)
    unfolding flush_event after
    flush_all st = rw (write_event_all accepts a st.event_lines st.written) refl

    finished-Delivers :
        (st : State)
        → Delivers st.written st.observed.billing
            (some (finished doc format_price accepts clock status st))
    unfolding finished
    finished-Delivers st = (refl, refl, refl)

    after-Delivers :
        (st : State)
        → Delivers
            (st.written ++ st.event_lines)
            (extract_lines doc st.event_lines st.observed.billing)
            (some (finished doc format_price accepts clock status (after st)))
    unfolding after finished
    after-Delivers st =
        let now = clock (length (st.written ++ st.event_lines)) in
        (
          refl,
          refl,
          ap (λ b. fill_usage_cost format_price b.usage)
              (observe_event-billing doc now st.event_lines st.observed),
        )

    end-Delivers :
        (el : List String) (st : State)
        → st.event_lines ≡ el
        → Delivers
            (st.written ++ st.event_lines)
            (extract_lines doc st.event_lines st.observed.billing)
            (some (end_of_lines doc format_price accepts clock status none st))
    unfolding end_of_lines extract_lines
    end-Delivers [] st h = rw (h, end_of_lines) (rw (append-nil st.written) (finished-Delivers st))
    end-Delivers (l ∷ ls) st h =
        let full = after-Delivers st in
        let gone = flush_all st in
        rw (h, end_of_lines)
          (rw gone (
            subst
              (λ el.
                Delivers (st.written ++ el) (extract_lines doc el st.observed.billing)
                  (some (finished doc format_price accepts clock status (after st))))
              h full))

    run-Delivers :
        (ls : List String) (st : State)
        → Delivers
            (st.written ++ (st.event_lines ++ ls))
            (extract_lines doc (st.event_lines ++ ls) st.observed.billing)
            (run doc format_price accepts clock status (inputs ls) st)
    unfolding run after
    run-Delivers [] st = rw (append-nil st.event_lines) (end-Delivers st.event_lines st refl)
    run-Delivers (l ∷ ls) st =
        let st' = append_line l st in
        let w = st.written ++ st'.event_lines in
        let b = st.observed.billing in
        let now = clock (length w) in
        let shift = append_assoc st.event_lines (l ∷ []) ls in
        elim (Bool-cases (l == "")) [
          | inr more ↦ rw more (rw (sym shift) (run-Delivers ls st'))
          | inl stop ↦ rw stop (
              rw (flush_all st') (
                Delivers-ap _ _ _ _ _
                  (append_assoc st.written st'.event_lines ls ∙ ap (◌++◌ st.written) shift)
                  (ap (extract_lines doc ls)
                      (observe_event-billing doc now st'.event_lines st.observed)
                    ∙ sym (extract_lines-append doc st'.event_lines ls b)
                    ∙ ap (λ xs. extract_lines doc xs b) shift)
                  (run-Delivers ls (after st'))))
        ]

    -- When the upstream's lines end without an error and every write to the client succeeds, the outcome
    -- is a success, the client has received exactly the upstream's lines in their order, and the
    -- usage is what all these lines say, priced. The clock and the ends of events do not matter.
    pub run_whole :
        (ls : List String)
        → Delivers ls
            (extract_lines doc ls no_billing)
            (run doc format_price accepts clock status (inputs ls) initial)
    run_whole ls = run-Delivers ls initial
