-- ===== src/Stream/Single/Billing.antt =====
-- The two ways to read a usage, `extractAnthropicUsage` for an event of a stream and
-- `handleNonStreamResponse` for an answer in one piece, lead to the same bill.
use airgate_claude.Prelude.{ℕ, true, false, Option, none, some, String, ◌≡◌, List, string_key}
use airgate_claude.Models.Usage.{Usage}
use airgate_claude.Stream.{Doc, Node, replaces}
use airgate_claude.Stream.Events.{data_of, Observed}
use airgate_claude.Stream.Loop.{StreamOutcome}

-- The paths that are read.
abbrev Absent : Node → String → Type 0
Absent node path = replaces true (node path) ≡ false

-- A line without data, such as the name of an event or the empty line behind it.
abbrev pub HasNoData : (List ℕ → Doc) → String → Type 0
HasNoData events l = data_of events l ≡ none

abbrev IsUsage : Usage → Option Observed → Type 0
IsUsage u none = ⊥
IsUsage u (some o) = o.billing.usage ≡ u

-- The outcome of the loop bills this usage.
abbrev pub BillsUsage : Usage → Option (StreamOutcome × List String) → Type 0
BillsUsage u none = ⊥
BillsUsage u (some (out, w)) = IsUsage u out.usage
