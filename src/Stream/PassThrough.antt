-- ===== src/Stream/PassThrough.antt =====
-- What reaches the client is what the upstream sent, whatever interrupts the stream: the lines in
-- their order, none added, changed or repeated. And counts that a later event reports as zero stay.
use airgate_claude.Prelude.{
  ℕ, ◌≡◌, refl, sym, ap, ◌∙◌, subst, Bool, true, List, [], ◌∷◌, ◌++◌, Option, none, some, String,
  string_key, ◌==◌, length, ◌⊎◌, inl, inr, Bool-cases,
}
use mathlib.Core.List.{append_assoc, append-nil}
use airgate_claude.Errors.{success, stream_aborted, stream_aborted_outcome}
use airgate_claude.Stream.{Doc}
use airgate_claude.Stream.Loop.{
  Input, line, ended, idle, context_done, State, StreamOutcome, write_event, flush_event, finished,
  end_of_lines, append_line, run,
}

-- The lines that come before whatever ends the stream.
abbrev pub lines_of : List Input → List String
lines_of [] = []
lines_of (line l ∷ is) = l ∷ lines_of is
lines_of (ended err ∷ is) = []
lines_of (idle ∷ is) = []
lines_of (context_done err ∷ is) = []

-- Lines that are a beginning of others.
abbrev pub Begins : List String → List String → Type 0
Begins w all = (rest : List String) × (w ++ rest ≡ all)

write_event-Begins :
    (accepts : ℕ → Bool) (ls w : List String)
    → let (done, w') = write_event accepts ls w in
      Begins w' (w ++ ls) × (done ≡ true → w' ≡ w ++ ls)
unfolding write_event
write_event-Begins accepts [] w = (([], refl), λ h. sym (append-nil w))
write_event-Begins accepts (l ∷ ls) w = elim (Bool-cases (accepts (length w))) [
  | inr e ↦ rw e ((l ∷ ls, refl), λ h. absurd (cc))
  | inl e ↦
      rw e (rw (sym (append_assoc w (l ∷ []) ls)) (write_event-Begins accepts ls (w ++ l ∷ [])))
]

Begins-append :
    (w ls all more : List String) → Begins w (ls ++ all) → Begins w (ls ++ (all ++ more))
Begins-append w ls all more (rest, e) = (
  rest ++ more,
  sym (append_assoc w rest more) ∙ ap (λ x. x ++ more) e ∙ append_assoc ls all more,
)

module _ (doc : List ℕ → Doc) (format_price : ℕ → String) (accepts : ℕ → Bool) (clock : ℕ → ℕ)
    (status : ℕ) where
  -- The client has a beginning of the lines, all of them if the outcome is a success.
  abbrev pub Sends : List String → Option (StreamOutcome × List String) → Type 0
  Sends all none = Unit
  Sends all (some (out, w)) =
      Begins w all × ((out.kind ≡ stream_aborted) ⊎ ((out.kind ≡ success) × (w ≡ all)))

  Flushed : State → List String → StreamOutcome × List String ⊎ State → Type 0
  Flushed st more (inl r) = Sends (st.written ++ (st.event_lines ++ more)) (some r)
  Flushed st more (inr next) =
      (next.written ≡ st.written ++ st.event_lines) × (next.event_lines ≡ [])

  flush-Flushed :
      (st : State) (more : List String)
      → Flushed st more (flush_event doc format_price accepts clock status st)
  unfolding flush_event Flushed stream_aborted_outcome
  flush-Flushed st more =
      let (begins, whole) = write_event-Begins accepts st.event_lines st.written in
      elim (Bool-cases (write_event accepts st.event_lines st.written).0) [
        | inr e ↦ rw e (Begins-append _ st.written st.event_lines more begins, inl refl)
        | inl e ↦ rw e (whole e, refl)
      ]

  Flushed-end_of_lines :
      (st : State) (r : StreamOutcome × List String ⊎ State)
      → Flushed st [] r
      → Sends (st.written ++ st.event_lines) (
          some (elim r [
            | inl out ↦ out
            | inr next ↦ finished doc format_price accepts clock status next
          ]))
  unfolding Flushed finished
  Flushed-end_of_lines st (inl r) f = rw (sym (append-nil st.event_lines)) f
  Flushed-end_of_lines st (inr next) (w, e) = (([], append-nil _ ∙ w), inr (refl, w))

  none_left :
      (st : State)
      → st.event_lines ≡ []
      → Sends
          (st.written ++ st.event_lines)
          (some (finished doc format_price accepts clock status st))
  unfolding finished
  none_left st h =
      let all = ap (λ el. st.written ++ el) h ∙ append-nil st.written in
      ((st.event_lines, refl), inr (refl, sym all))

  -- What `end_of_lines` does without an error, when the pending lines are `el`.
  abbrev Ends : State → List String → Type 0
  Ends st el = Sends (st.written ++ st.event_lines) (
      some (elim el [
        | [] ↦ finished doc format_price accepts clock status st
        | l ∷ ls ↦ elim (flush_event doc format_price accepts clock status st) [
          | inl r ↦ r
          | inr next ↦ finished doc format_price accepts clock status next
        ]
      ]))

  end-Sends :
      (err : Option String) (st : State) (el : List String)
      → st.event_lines ≡ el
      → Sends
          (st.written ++ st.event_lines)
          (some (end_of_lines doc format_price accepts clock status err st))
  unfolding end_of_lines stream_aborted_outcome
  end-Sends (some err) st el h = ((st.event_lines, refl), inl refl)
  end-Sends none st [] h = subst (Ends st) (sym h) (none_left st h)
  end-Sends none st (l ∷ ls) h =
      let flushed = flush_event doc format_price accepts clock status st in
      subst (Ends st) (sym h) (Flushed-end_of_lines st flushed (flush-Flushed st []))

  Sends-ap :
      (all all' : List String) (o : Option (StreamOutcome × List String))
      → all ≡ all'
      → Sends all o
      → Sends all' o
  Sends-ap all all' o p s = subst (λ x. Sends x o) p s

  Flushed-run :
      (is : List Input) (st : State) (r : StreamOutcome × List String ⊎ State)
      → Flushed st (lines_of is) r
      → ((next : State)
          → Sends
              (next.written ++ (next.event_lines ++ lines_of is))
              (run doc format_price accepts clock status is next))
      → Sends (st.written ++ (st.event_lines ++ lines_of is)) (elim r [
        | inl out ↦ some out
        | inr next ↦ run doc format_price accepts clock status is next
      ])
  unfolding Flushed
  Flushed-run is st (inl r) f k = f
  Flushed-run is st (inr next) (w, e) k =
      Sends-ap _ _ _
        (ap (λ x. x ++ (next.event_lines ++ lines_of is)) w
          ∙ ap (λ x. (st.written ++ st.event_lines) ++ (x ++ lines_of is)) e
          ∙ append_assoc st.written st.event_lines (lines_of is))
        (k next)

  -- However the stream goes and ends, the client has received a beginning of the upstream's lines, in
  -- their order and unchanged, and has received all of them when the outcome is a success. There is
  -- no outcome but a success and an aborted stream, so the host never retries a request whose answer
  -- has begun.
  pub run-Sends :
      (is : List Input) (st : State)
      → Sends
          (st.written ++ (st.event_lines ++ lines_of is))
          (run doc format_price accepts clock status is st)
  unfolding run stream_aborted_outcome
  run-Sends [] st = tt
  run-Sends (ended err ∷ is) st =
      rw (append-nil st.event_lines) (end-Sends err st st.event_lines refl)
  run-Sends (idle ∷ is) st = ((_, refl), inl refl)
  run-Sends (context_done err ∷ is) st = ((_, refl), inl refl)
  run-Sends (line l ∷ is) st =
      let st' = append_line l st in
      let shift = ap (◌++◌ st.written) (append_assoc st.event_lines (l ∷ []) (lines_of is)) in
      elim (Bool-cases (l == "")) [
        | inr more ↦ rw more (Sends-ap _ _ _ shift (run-Sends is st'))
        | inl stop ↦ rw stop (
            Sends-ap _ _ _ shift (
              Flushed-run is st' (flush_event doc format_price accepts clock status st')
                (flush-Flushed st' (lines_of is)) (λ next. run-Sends is next)))
      ]
