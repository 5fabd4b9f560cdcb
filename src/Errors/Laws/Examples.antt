-- ===== src/Errors/Laws/Examples.antt =====
-- Concrete answers of the upstream.
use airgate_claude.Prelude.{◌*◌, ◌≡◌, refl}
use airgate_claude.Prelude.Int.{pos}
use airgate_claude.Limits.{second}
use airgate_claude.Errors.{parse_retry_delay}

delay_in_a_text : parse_retry_delay "try again in 12x7 s" ≡ pos (7 * second)
unfolding parse_retry_delay
delay_in_a_text = refl
