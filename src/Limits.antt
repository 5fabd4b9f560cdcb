-- ===== src/Limits.antt =====
-- The limits that every pool and cache of the gateway has, and the units of time: instants and
-- durations are nanoseconds, as in Go's `time`.
use airgate_claude.Prelude.{ℕ, ◌+◌, ◌-◌, ◌*◌, ◌%◌, ◌^◌, ltb, if◌then◌else◌}

abbrev pub millisecond : ℕ
millisecond = 10 ^ 6

abbrev pub second : ℕ
second = 10 ^ 9

abbrev pub minute : ℕ
minute = 60 * second

abbrev pub hour : ℕ
hour = 60 * minute

pub record Limits : Type 0 where
  pub max_entries : ℕ
  pub idle_ttl : ℕ
  pub cleanup_interval : ℕ

-- `t.Add(time.Duration(n) * time.Second)`: the product wraps around at 64 bits, and an instant is far
-- enough from the first one that a wrapped product leads to an earlier instant.
unfoldable pub add_seconds : ℕ → ℕ → ℕ
add_seconds t n = let d = n * second % 2 ^ 64 in if ltb d (2 ^ 63) then t + d else t - (2 ^ 64 - d)
