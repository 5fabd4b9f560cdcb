-- ===== src/Plugin/Examples.antt =====
-- A plugin that starts and stops.
use airgate_claude.Prelude.{List, [], ◌∷◌, none, some, String, ◌≡◌}
use airgate_claude.Plugin.{Plugin, stop}
use airgate_claude.Plugin.Life.{all_end, Stopped, stop-Stopped}
use airgate_claude.Sidecar.{new_runner}
use airgate_claude.Sidecar.Events.{Event, NoStart, new_runner-IsValid}
use airgate_claude.TokenManager.States.{new_manager}

abbrev plugin : Plugin String String
plugin = record {
  shared = record {
    sessions = [];
    connections = record {
      clients = some (record {
        clients = ("", record { client = "direct"; last_used = 3 }) ∷ [];
        last_cleanup = 1;
        closed = [];
      });
      transports = record {
        standard = none;
        fingerprint = some (record { pool = []; last_cleanup = 1; closed = [] });
      };
    };
  };
  gateway = record { manager = new_manager 1; registry = none; sidecar = some new_runner };
}

stop-Stopped_example :
    ((q : Plugin String String) × (stop 9 (all_end (some new_runner)) plugin ≡ some q))
    × ((ends : List Event) (q : Plugin String String)
        → NoStart ends
        → stop 9 ends plugin ≡ some q
        → Stopped plugin q)
stop-Stopped_example = stop-Stopped 9 plugin new_runner-IsValid
