-- ===== src/Sessions.antt =====
-- internal/gateway/session.go: the session identifier that a conversation keeps. This file has the
-- in-process cache, Sessions/Conversation the fingerprint of a conversation. The random UUIDs are an
-- argument, `fresh`.
pub mod Laws
pub mod Conversation
mod Examples
use Prim.Native.String
use airgate_claude.Prelude.{
  ℕ, ◌+◌, ◌-◌, ◌*◌, Bool, true, false, ◌&&◌, List, [], ◌∷◌, Option, none, some, String, string_key,
  ◌==◌, if◌then◌else◌, ltb, leb,
}
use airgate_claude.Prelude.Int.{ℤ}
use airgate_claude.Prelude.Decimal.{decimal}
use airgate_claude.GoMap.{Map, get, put, delete, sweep, size}
use airgate_claude.Limits.{minute, second}

abbrev pub session_ttl : ℕ
session_ttl = 3600 * second

abbrev pub session_cache_max_entries : ℕ
session_cache_max_entries = 1000000

abbrev pub session_cleanup_interval : ℕ
session_cleanup_interval = minute

pub record Entry : Type 0 where
  pub user_id : String
  pub expires_at : ℕ

pub record Cache : Type 0 where
  pub entries : Map String Entry
  pub last_cleanup : ℕ

-- `now.After(e.expiresAt)`
abbrev pub expired : ℕ → String → Entry → Bool
expired now k e = ltb e.expires_at now

-- `fmt.Sprintf("%d:%s", accountID, fingerprint)`
unfoldable pub session_key : ℤ → String → String
session_key account fingerprint = String.◌++◌ (decimal account) (String.◌++◌ ":" fingerprint)

unfoldable pub cleanup_expired : ℕ → Cache → Cache
cleanup_expired now c =
    if ltb (now - c.last_cleanup) session_cleanup_interval
      && ltb (size c.entries) session_cache_max_entries
    then c
    else record { entries = sweep (expired now) c.entries; last_cleanup = now }

-- The first key that the loop deletes, if any.
unfoldable pub first_expired : ℕ → Map String Entry → Option String
first_expired now [] = none
first_expired now ((k, e) ∷ m) =
    let rest = first_expired now m in if expired now k e then some k else rest

abbrev pub any_key : Map String Entry → Option String
any_key [] = none
any_key ((k, e) ∷ m) = some k

abbrev pub delete_found : Option String → Map String Entry → Map String Entry
delete_found none m = m
delete_found (some k) m = delete k m

unfoldable pub delete_one : ℕ → Map String Entry → Map String Entry
unfolding first_expired
delete_one now m = elim (first_expired now m) [
  | some k ↦ delete k m
  | none ↦ delete_found (any_key m) m
]

unfoldable pub make_room : ℕ → Map String Entry → Map String Entry
unfolding delete_one
make_room now m = if leb session_cache_max_entries (size m) then delete_one now m else m

-- A new identifier under the key, once an expired entry there is deleted.
unfoldable pub renew : String → ℕ → String → Map String Entry → Map String Entry
unfolding make_room
renew fresh now key m =
    put key (record { user_id = fresh; expires_at = now + session_ttl })
      (make_room now (delete key m))

-- `stickyUserID` with a fingerprint, under the lock and behind the cleanup.
unfoldable pub look_up : String → ℕ → String → Cache → String × Cache
unfolding renew
look_up fresh now key c =
    let new : String × Cache = (fresh, record c { entries = renew fresh now key c.entries }) in
    elim (get key c.entries) [
      | none ↦ new
      | some e ↦ if ltb now e.expires_at then (e.user_id, c) else new
    ]

-- `stickyUserID` of a cache without shared state.
unfoldable pub sticky_user_id : String → ℕ → ℤ → String → Cache → String × Cache
unfolding look_up cleanup_expired session_key
sticky_user_id fresh now account fingerprint c =
    if fingerprint == ""
    then (fresh, c)
    else look_up fresh now (session_key account fingerprint) (cleanup_expired now c)
