-- ===== src/OAuth.antt =====
-- internal/gateway/oauth.go and shared_oauth.go: the store of pending OAuth sessions, kept in the
-- process. An operation takes the time at which it runs. The flows and exchanges are child modules.
pub mod Store
pub mod Flow
pub mod Flows
pub mod Code
pub mod Verifier
pub mod SessionKey
pub mod Exchange
mod Examples
use airgate_claude.Prelude.{
  ℕ, ◌-◌, ◌*◌, Bool, true, false, not, ◌&&◌, List, [], ◌∷◌, Option, none, some, String, string_key,
  if◌then◌else◌, ltb, leb,
}
use airgate_claude.GoMap.{Map, get, put, delete, has, sweep, size}
use airgate_claude.GoMap.Oldest.{delete_oldest_key}
use airgate_claude.Limits.{second}

abbrev pub oauth_session_ttl : ℕ
oauth_session_ttl = 3600 * second

abbrev pub oauth_session_max_entries : ℕ
oauth_session_max_entries = 1000000

-- `created_at` is `none` while the time is Go's zero time.
pub record Session : Type 0 where
  pub state : String
  pub code_verifier : String
  pub created_at : Option ℕ

-- The zero time lies so far back that every session from it has expired.
unfoldable pub expired : ℕ → Session → Bool
expired now s = elim s.created_at [ none ↦ true | some t ↦ ltb oauth_session_ttl (now - t) ]

abbrev pub created : Session → ℕ
created s = elim s.created_at [ none ↦ 0 | some t ↦ t ]

unfoldable pub clean_expired : ℕ → Map String Session → Map String Session
unfolding expired
clean_expired now m = sweep (λ state s. expired now s) m

unfoldable pub delete_oldest : Map String Session → Map String Session
delete_oldest m = delete_oldest_key created m

abbrev pub stamp : ℕ → Session → Session
stamp now s = elim s.created_at [ none ↦ record s { created_at = some now } | some t ↦ s ]

unfoldable pub make_room : String → Map String Session → Map String Session
unfolding delete_oldest
make_room state m =
    if not (has state m) && leb oauth_session_max_entries (size m) then delete_oldest m else m

unfoldable pub set_session : ℕ → String → Session → Map String Session → Map String Session
unfolding make_room clean_expired
set_session now state s m = put state (stamp now s) (make_room state (clean_expired now m))

-- `Get`; an expired session is deleted.
unfoldable pub get_session : ℕ → String → Map String Session → Option Session × Map String Session
unfolding expired
get_session now state m = elim (get state m) [
  | none ↦ (none, m)
  | some s ↦ if expired now s then (none, delete state m) else (some s, m)
]

-- `consume` without shared state.
unfoldable pub consume : String → Map String Session → Option Session × Map String Session
consume state m = (get state m, delete state m)
