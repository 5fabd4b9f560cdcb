-- ===== src/Requests/Windows.antt =====
-- account_usage.go, and the windows of usage that `HandleRequest` builds. A utilization is a value of a
-- type `U`, of which only the sign is looked at; an instant is in nanoseconds.
use airgate_claude.Prelude.{
  ℕ, Bool, ◌||◌, not, List, [], ◌∷◌, ◌-◌, ◌/◌, Option, none, some, String, string_key, ◌==◌,
  if◌then◌else◌, ltb,
}
use airgate_claude.Prelude.Int.{ℤ}
use airgate_claude.GoMap.{Map}
use airgate_claude.Limits.{second}

-- One member of `UsageResponse`.
pub record UsageWindow (U : Type 0) : Type 0 where
  pub utilization : U
  pub resets_at : String

pub record Usage (U : Type 0) : Type 0 where
  pub five_hour : UsageWindow U
  pub seven_day : UsageWindow U
  pub seven_day_sonnet : UsageWindow U

pub record AccountUsageWindow (U : Type 0) : Type 0 where
  pub key : String
  pub label : String
  pub display_label : String
  pub slot : String
  pub group : String
  pub used_percent : U
  pub reset_at : String
  pub reset_seconds : ℕ
  pub updated_at : String

pub record AccountUsageInfo (U : Type 0) : Type 0 where
  pub updated_at : String
  pub windows : List (AccountUsageWindow U)

pub record AccountUsageError : Type 0 where
  pub id : ℤ
  pub message : String

pub record AccountsResponse (U : Type 0) : Type 0 where
  pub accounts : Map String (AccountUsageInfo U)
  pub errors : List AccountUsageError

-- The names of a window, in the order of the arguments of the source.
pub record Names : Type 0 where
  pub key : String
  pub label : String
  pub display_label : String
  pub slot : String
  pub group : String

abbrev five_hour_names : Names
five_hour_names = record {
  key = "5h";
  label = "5h";
  display_label = "5h";
  slot = "5h";
  group = "base";
}

abbrev seven_day_names : Names
seven_day_names = record {
  key = "7d";
  label = "7d";
  display_label = "7d";
  slot = "7d";
  group = "base";
}

abbrev sonnet_names : Names
sonnet_names = record {
  key = "model:7d:sonnet";
  label = "7d Sonnet";
  display_label = "7d";
  slot = "7d";
  group = "model:sonnet";
}

abbrev reset_text : (ℕ → String) → Option ℕ → String
reset_text format none = ""
reset_text format (some at) = format at

-- Whole seconds; the source's quotient is a floating-point number, cut to an integer.
abbrev seconds_left : ℕ → Option ℕ → ℕ
seconds_left now none = 0
seconds_left now (some at) = if ltb now at then (at - now) / second else 0

module _ {U : Type 0} (format : ℕ → String) where
  unfoldable pub new_account_usage_window : Names → U → Option ℕ → ℕ → AccountUsageWindow U
  new_account_usage_window n used reset now = record {
    key = n.key;
    label = n.label;
    display_label = n.display_label;
    slot = n.slot;
    group = n.group;
    used_percent = used;
    reset_at = reset_text format reset;
    reset_seconds = seconds_left now reset;
    updated_at = format now;
  }

  module _ (parse : String → Option ℕ) (positive : U → Bool) where
    -- `appendUsageWindow`: a time that cannot be read is left out.
    abbrev usage_window : ℕ → Names → UsageWindow U → AccountUsageWindow U
    usage_window now n w =
        new_account_usage_window n w.utilization
          (if w.resets_at == "" then none else parse w.resets_at) now

    -- The window for Sonnet is there only if the answer has data for it.
    unfoldable pub windows_of : ℕ → Usage U → List (AccountUsageWindow U)
    unfolding new_account_usage_window
    windows_of now u =
        usage_window now five_hour_names u.five_hour
        ∷ usage_window now seven_day_names u.seven_day
        ∷ (if not (u.seven_day_sonnet.resets_at == "") || positive u.seven_day_sonnet.utilization
            then usage_window now sonnet_names u.seven_day_sonnet ∷ []
            else [])

    unfoldable pub usage_info : ℕ → Usage U → AccountUsageInfo U
    unfolding windows_of
    usage_info now u = record { updated_at = format now; windows = windows_of now u }
