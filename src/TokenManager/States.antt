-- ===== src/TokenManager/States.antt =====
-- `getState` and the bounded map of the accounts' states.
use airgate_claude.Prelude.{
  ℕ, ◌-◌, ◌≤◌, ◌≡◌, Bool, ◌&&◌, [], none, some, int_key, if◌then◌else◌, ltb, leb, arith, inl, inr,
  Option-cases,
}
use airgate_claude.Prelude.Int.{ℤ}
use airgate_claude.GoMap.{Map, get, put, sweep, size}
use airgate_claude.GoMap.Laws.{get-put_self, size-put, size-sweep-le, has-get}
use airgate_claude.GoMap.Distinct.{Distinct, put-Distinct, sweep-Distinct}
use airgate_claude.GoMap.Oldest
use airgate_claude.GoMap.Bounds.{put-make_room-size}
use airgate_claude.TokenManager.{State, new_state, token_state_limits}

pub record Manager : Type 0 where
  pub locks : Map ℤ State
  pub last_cleanup : ℕ

unfoldable pub new_manager : ℕ → Manager
new_manager now = record { locks = []; last_cleanup = now }

abbrev seen : State → ℕ
seen s = s.last_seen_at

abbrev is_idle : ℕ → ℤ → State → Bool
is_idle now account s = ltb token_state_limits.idle_ttl (now - s.last_seen_at)

unfoldable pub cleanup : ℕ → Manager → Manager
cleanup now m =
    if ltb (now - m.last_cleanup) token_state_limits.cleanup_interval
      && ltb (size m.locks) token_state_limits.max_entries
    then m
    else record { locks = sweep (is_idle now) m.locks; last_cleanup = now }

unfoldable pub delete_oldest : Manager → Manager
delete_oldest m = record m { locks = Oldest.delete_oldest seen m.locks }

make_room : Manager → Manager
unfolding delete_oldest
make_room m = if leb token_state_limits.max_entries (size m.locks) then delete_oldest m else m

-- The state under the account's lock is written back through the pointer that `get_state` returned.
unfoldable pub write_back : ℤ → State → Manager → Manager
write_back account s m = record m { locks = put account s m.locks }

look_up : ℕ → ℤ → Manager → State × Manager
unfolding make_room write_back
look_up now account m = elim (get account m.locks) [
  | some s ↦ let s' = record s { last_seen_at = now } in (s', write_back account s' m)
  | none ↦ (new_state now, write_back account (new_state now) (make_room m))
]

unfoldable pub get_state : ℕ → ℤ → Manager → State × Manager
unfolding look_up cleanup
get_state now account m = look_up now account (cleanup now m)

pub record IsValid (m : Manager) : Type 0 where
  pub distinct : Distinct m.locks
  pub bounded : size m.locks ≤ token_state_limits.max_entries

cleanup-IsValid : (now : ℕ) (m : Manager) → IsValid m → IsValid (cleanup now m)
unfolding cleanup
cleanup-IsValid now m v =
    ground
      (arith, sweep-Distinct (is_idle now) m.locks v.distinct, size-sweep-le (is_idle now) m.locks)

pub write_back-IsValid :
    (account : ℤ) (s t : State) (m : Manager)
    → get account m.locks ≡ some s
    → IsValid m
    → IsValid (write_back account t m)
unfolding write_back
write_back-IsValid account s t m g v = ground (
  arith,
  put-Distinct account t m.locks v.distinct,
  size-put account t m.locks,
  has-get account m.locks,
)

look_up-IsValid :
    (now : ℕ) (account : ℤ) (m : Manager) → IsValid m → IsValid (look_up now account m).1
unfolding look_up make_room
look_up-IsValid now account m v = elim (Option-cases (get account m.locks)) [
  | inl e ↦
      rw (e, look_up)
        (ground (
          arith,
          put-make_room-size seen token_state_limits.max_entries account (new_state now) m.locks
              v.distinct (omega arith) v.bounded,
          put-Distinct account (new_state now) m.locks v.distinct,
          put-Distinct account (new_state now) (Oldest.delete_oldest seen m.locks)
              (Oldest.delete_oldest-Distinct seen m.locks v.distinct),
        ))
  | inr (s, e) ↦ rw (e, look_up) (write_back-IsValid account s _ m e v)
]

-- The map of states keeps one state to an account and never holds more than its limit.
pub get_state-IsValid :
    (now : ℕ) (account : ℤ) (m : Manager) → IsValid m → IsValid (get_state now account m).1
unfolding get_state
get_state-IsValid now account m v = look_up-IsValid now account _ (cleanup-IsValid now m v)

look_up-get :
    (now : ℕ) (account : ℤ) (m : Manager)
    → get account (look_up now account m).1.locks ≡ some (look_up now account m).0
unfolding look_up write_back
look_up-get now account m = elim (Option-cases (get account m.locks)) [
  | inl e ↦ rw (e, look_up) (get-put_self account _ _)
  | inr (s, e) ↦ rw (e, look_up) (get-put_self account _ _)
]

-- The state that `getState` hands out is the one that the map then holds for the account.
pub get_state-get :
    (now : ℕ) (account : ℤ) (m : Manager)
    → get account (get_state now account m).1.locks ≡ some (get_state now account m).0
unfolding get_state
get_state-get now account m = look_up-get now account (cleanup now m)
