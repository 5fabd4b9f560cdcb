-- ===== src/Sessions/Examples.antt =====
-- A conversation of account 7: the theorems at concrete caches.
use airgate_claude.Prelude.{◌*◌, ◌≡◌, refl, [], ◌∷◌, string_key, arith}
use airgate_claude.Prelude.Int.{pos}
use airgate_claude.Prelude.Decimal.{decimal}
use airgate_claude.GoMap.{get}
use airgate_claude.Limits.{second, minute}
use airgate_claude.Sessions.{Entry, Cache, session_key, sticky_user_id}
use airgate_claude.Sessions.Laws.{IsValid, sticky_user_id_stays}

abbrev entry : Entry
entry = record { user_id = "u-1"; expires_at = 3600 * second }

abbrev cache : Cache
cache = record { entries = ("7:abc", entry) ∷ []; last_cleanup = 0 }

cache-IsValid : IsValid cache
unfolding get
cache-IsValid = record { distinct = (refl, tt); bounded = omega arith }

sticky_user_id_stays_example : (sticky_user_id "u-2" (2 * minute) (pos 7) "abc" cache).0 ≡ "u-1"
unfolding session_key get decimal
sticky_user_id_stays_example =
    sticky_user_id_stays "u-2" (2 * minute) (pos 7) "abc" cache entry cache-IsValid refl refl
      (omega arith)
