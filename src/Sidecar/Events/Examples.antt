-- ===== src/Sidecar/Events/Examples.antt =====
-- Runs of the sidecar at concrete events.
use airgate_claude.Prelude.{refl, [], ◌∷◌, List, some}
use airgate_claude.Prelude.Int.{pos}
use airgate_claude.TokenManager.{Account}
use airgate_claude.Sidecar.{new_runner}
use airgate_claude.Sidecar.Events.{
  Event, starting, draining, scheduling, probing, probe_ending, loop_ending, taking, run, Keeps,
  Drains, new_runner-IsValid, run-IsValid, run-Drained,
}

abbrev account : Account
account = record { id = pos 7; kind = "oauth"; proxy_url = ""; credentials = [] }

abbrev busy : List Event
busy =
    starting
    ∷ scheduling (pos 7) "{}"
    ∷ probing (some account)
    ∷ draining
    ∷ scheduling (pos 7) "{}"
    ∷ probe_ending
    ∷ loop_ending
    ∷ starting
    ∷ taking
    ∷ []

run-IsValid_example : Keeps (run busy new_runner)
run-IsValid_example = run-IsValid busy new_runner new_runner-IsValid

run-Drained_example :
    Drains new_runner (run (scheduling (pos 7) "{}" ∷ probing (some account) ∷ []) new_runner)
unfolding new_runner
run-Drained_example =
    run-Drained (scheduling (pos 7) "{}" ∷ probing (some account) ∷ []) new_runner (tt, (tt, tt))
      new_runner-IsValid refl
