-- ===== src/Stream/Loop.antt =====
-- The loop of `handleStreamResponse`. What its `select` receives is a list of inputs; `accepts` says
-- which of the writes to the client succeed, `clock` how many milliseconds have passed when so many
-- lines are written. The result pairs the outcome with the lines that reached the client.
use airgate_claude.Prelude.{
  ℕ, Bool, true, false, List, [], ◌∷◌, ◌++◌, Option, none, some, String, string_key, ◌==◌,
  if◌then◌else◌, length, ◌⊎◌, inl, inr,
}
use airgate_claude.Prelude.Int.{pos}
use airgate_claude.Errors.{Outcome, success, stream_aborted_outcome}
use airgate_claude.Models.Usage.{fill_usage_cost}
use airgate_claude.Stream.{Doc}
use airgate_claude.Stream.Events.{Observed, observe_event, no_billing}

-- A line, the end of the lines with the scanner's error if any, the idle timer, the context.
pub data Input : Type 0 where
  line : String → Input
  ended : Option String → Input
  idle : Input
  context_done : String → Input

pub record State : Type 0 where
  pub event_lines : List String
  pub written : List String
  pub observed : Observed

abbrev pub append_line : String → State → State
append_line l st = record st { event_lines = st.event_lines ++ l ∷ [] }

abbrev pub StreamOutcome : Type 0
StreamOutcome = Outcome Unit Unit Observed

module _ (accepts : ℕ → Bool) where
  -- `writeSSEEvent`: whether every line was written, and the lines written so far.
  unfoldable pub write_event : List String → List String → Bool × List String
  write_event [] w = (true, w)
  write_event (l ∷ ls) w =
      let rest = write_event ls (w ++ l ∷ []) in if accepts (length w) then rest else (false, w)

module _ (doc : List ℕ → Doc) (format_price : ℕ → String) (accepts : ℕ → Bool) (clock : ℕ → ℕ)
    (status : ℕ) where
  abbrev pub aborted : String → Observed → StreamOutcome
  aborted reason o = stream_aborted_outcome status reason (some o)

  -- The two branches that write an event: the outcome if the client is gone, or the next state. The
  -- text of the error of the failed write is fixed.
  unfoldable pub flush_event : State → StreamOutcome × List String ⊎ State
  unfolding write_event observe_event
  flush_event st =
      let (done, w) = write_event accepts st.event_lines st.written in
      if done
      then inr (record {
        event_lines = [];
        written = w;
        observed = observe_event doc (clock (length w)) st.event_lines st.observed;
      })
      else inl (aborted "write failed" st.observed, w)

  unfoldable pub finished : State → StreamOutcome × List String
  unfolding fill_usage_cost
  finished st =
      let o = st.observed in
      let usage = fill_usage_cost format_price o.billing.usage in
      (
        record {
          kind = success;
          status = status;
          body = none;
          headers = none;
          reason = "";
          retry_after = pos 0;
          usage = some (record o { billing = record o.billing { usage = usage } });
        },
        st.written,
      )

  -- The lines have ended: an event that is not closed by an empty line is still passed on.
  unfoldable pub end_of_lines : Option String → State → StreamOutcome × List String
  unfolding flush_event finished
  end_of_lines (some err) st = (aborted err st.observed, st.written)
  end_of_lines none st = elim st.event_lines [
    | [] ↦ finished st
    | l ∷ ls ↦ elim (flush_event st) [ inl r ↦ r | inr st' ↦ finished st' ]
  ]

  -- The loop; `none` while it waits for more.
  unfoldable pub run : List Input → State → Option (StreamOutcome × List String)
  unfolding end_of_lines
  run [] st = none
  run (ended err ∷ is) st = some (end_of_lines err st)
  run (idle ∷ is) st = some (aborted "上游 SSE 空闲超时" st.observed, st.written)
  run (context_done err ∷ is) st = some (aborted err st.observed, st.written)
  run (line l ∷ is) st =
      let st' = append_line l st in
      let waiting = run is st' in
      if l == ""
      then elim (flush_event st') [ inl r ↦ some r | inr next ↦ run is next ]
      else waiting

abbrev pub initial : State
initial = record {
  event_lines = [];
  written = [];
  observed = record { billing = no_billing; first_event_ms = none; first_token_ms = none };
}
