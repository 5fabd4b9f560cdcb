-- ===== src/Sessions/Laws.antt =====
-- The cache keeps a conversation's identifier until it expires, apart from every other account's,
-- and stays within its limit.
use Prim.Native.String
use airgate_claude.Prelude.{
  ℕ, ◌+◌, ◌≤◌, ◌<◌, ◌≡◌, refl, true, false, [], ◌∷◌, ◌++◌, some, String, string_key, ◌==◌, ltb,
  arith, ap, ◌∙◌, sym, inl, inr, Bool-cases, Option-cases,
}
use text.Mathlib.TextEquality.{eq_iff}
use airgate_claude.Prelude.Int.{ℤ}
use airgate_claude.Prelude.Text.{codes}
use airgate_claude.Prelude.Decimal.{
  decimal, codes-append, decimal-injective, decimal_no_separator, split_unique,
}
use airgate_claude.GoMap.{Map, get, delete, has, size}
use airgate_claude.GoMap.Laws.{
  get-put_self, size-put-le, size-delete-le, size-delete-lt, size-sweep-le,
}
use airgate_claude.GoMap.Distinct.{
  Distinct, put-Distinct, delete-Distinct, sweep-Distinct, get-sweep,
}
use airgate_claude.Sessions.{
  Entry, Cache, expired, session_key, session_ttl, session_cache_max_entries, cleanup_expired,
  first_expired, any_key, delete_found, delete_one, make_room, renew, look_up, sticky_user_id,
}

pub record IsValid (c : Cache) : Type 0 where
  pub distinct : Distinct c.entries
  pub bounded : size c.entries ≤ session_cache_max_entries

cleanup-IsValid : (now : ℕ) (c : Cache) → IsValid c → IsValid (cleanup_expired now c)
unfolding cleanup_expired
cleanup-IsValid now c v = ground (
  arith,
  sweep-Distinct (expired now) c.entries v.distinct,
  size-sweep-le (expired now) c.entries,
)

first_expired-has :
    (now : ℕ) (m : Map String Entry) (k : String) → first_expired now m ≡ some k → has k m ≡ true
unfolding first_expired has
first_expired-has now [] k h = absurd (cc)
first_expired-has now ((j, e) ∷ m) k h = ground (arith, eq_iff j k, first_expired-has now m k)

size-delete_any : (m : Map String Entry) → 0 < size m → size (delete_found (any_key m) m) < size m
unfolding has
size-delete_any [] h = absurd (omega arith)
size-delete_any ((k, e) ∷ m) h = size-delete-lt k ((k, e) ∷ m) (ground (arith, eq_iff k k))

size-delete_one : (now : ℕ) (m : Map String Entry) → 0 < size m → size (delete_one now m) < size m
unfolding delete_one
size-delete_one now m h = elim (Option-cases (first_expired now m)) [
  | inr (k, e) ↦ rw (e, delete_one) (size-delete-lt k m (first_expired-has now m k e))
  | inl e ↦ rw (e, delete_one) (size-delete_any m h)
]

delete_one-Distinct : (now : ℕ) (m : Map String Entry) → Distinct m → Distinct (delete_one now m)
unfolding delete_one
delete_one-Distinct now m d = elim (Option-cases (first_expired now m)) [
  | inr (k, e) ↦ rw (e, delete_one) (delete-Distinct k m d)
  | inl e ↦ rw (e, delete_one) (any_Distinct m d)
]
  where
    any_Distinct : (m : Map String Entry) → Distinct m → Distinct (delete_found (any_key m) m)
    any_Distinct [] d = tt
    any_Distinct ((k, e) ∷ m) d = delete-Distinct k ((k, e) ∷ m) d

renew_bounded :
    (fresh : String) (now : ℕ) (key : String) (m : Map String Entry)
    → size m ≤ session_cache_max_entries
    → size (renew fresh now key m) ≤ session_cache_max_entries
unfolding renew make_room
renew_bounded fresh now key m h =
    let e : Entry = record { user_id = fresh; expires_at = now + session_ttl } in
    let rest = delete key m in
    ground (
      arith,
      size-put-le key e rest,
      size-put-le key e (delete_one now rest),
      size-delete-le key m,
      size-delete_one now rest,
    )

renew-Distinct :
    (fresh : String) (now : ℕ) (key : String) (m : Map String Entry)
    → Distinct m
    → Distinct (renew fresh now key m)
unfolding renew make_room
renew-Distinct fresh now key m d =
    let e : Entry = record { user_id = fresh; expires_at = now + session_ttl } in
    let rest = delete-Distinct key m d in
    ground (
      arith,
      put-Distinct key e (delete key m) rest,
      put-Distinct key e (delete_one now (delete key m))
          (delete_one-Distinct now (delete key m) rest),
    )

-- Every lookup keeps the keys distinct and the cache within its limit: an expired entry or, failing
-- that, any entry makes room.
pub sticky_user_id-IsValid :
    (fresh : String) (now : ℕ) (account : ℤ) (fingerprint : String) (c : Cache)
    → IsValid c
    → IsValid (sticky_user_id fresh now account fingerprint c).1
unfolding sticky_user_id look_up
sticky_user_id-IsValid fresh now account fingerprint c v =
    let clean = cleanup-IsValid now c v in
    let key = session_key account fingerprint in
    let m = (cleanup_expired now c).entries in
    ground (
      arith,
      clean,
      renew_bounded fresh now key m clean.bounded,
      renew-Distinct fresh now key m clean.distinct,
    )

look_up-get :
    (fresh : String) (now : ℕ) (key : String) (c : Cache)
    → (e : Entry) × (get key (look_up fresh now key c).1.entries ≡ some e)
      × (e.user_id ≡ (look_up fresh now key c).0)
      × (now < e.expires_at)
unfolding look_up renew
look_up-get fresh now key c =
    let new : Entry = record { user_id = fresh; expires_at = now + session_ttl } in
    let stored = get-put_self key new (make_room now (delete key c.entries)) in
    elim (Option-cases (get key c.entries)) [
      | inl e ↦ rw (e, look_up) (new, stored, refl, omega arith)
      | inr (old, e) ↦ elim (Bool-cases (ltb now old.expires_at)) [
        | inl live ↦ rw (e, look_up) (rw live (old, e, refl, ground arith))
        | inr dead ↦ rw (e, look_up) (rw dead (new, stored, refl, omega arith))
      ]
    ]

-- The identifier that a call returns is stored under the key of the account and the conversation, and
-- has not expired.
pub sticky_user_id-get :
    (fresh : String) (now : ℕ) (account : ℤ) (fingerprint : String) (c : Cache)
    → (fingerprint == "") ≡ false
    → let (id, c') = sticky_user_id fresh now account fingerprint c in
      (e : Entry) × (get (session_key account fingerprint) c'.entries ≡ some e)
      × (e.user_id ≡ id)
      × (now < e.expires_at)
unfolding sticky_user_id
sticky_user_id-get fresh now account fingerprint c h =
    rw h (look_up-get fresh now (session_key account fingerprint) (cleanup_expired now c))

cleanup-keeps :
    (now : ℕ) (key : String) (e : Entry) (c : Cache)
    → Distinct c.entries
    → get key c.entries ≡ some e
    → now < e.expires_at
    → get key (cleanup_expired now c).entries ≡ some e
unfolding cleanup_expired
cleanup-keeps now key e c d g h = ground (arith, get-sweep (expired now) key c.entries d)

-- As long as the stored identifier has not expired, a call returns it and not a new one, also when the
-- call cleans the cache up.
pub sticky_user_id_stays :
    (fresh : String) (now : ℕ) (account : ℤ) (fingerprint : String) (c : Cache) (e : Entry)
    → IsValid c
    → (fingerprint == "") ≡ false
    → get (session_key account fingerprint) c.entries ≡ some e
    → now < e.expires_at
    → (sticky_user_id fresh now account fingerprint c).0 ≡ e.user_id
unfolding sticky_user_id look_up
sticky_user_id_stays fresh now account fingerprint c e v h g live =
    let key = session_key account fingerprint in
    ground (arith, cleanup-keeps now key e c v.distinct g live)

-- Two conversations share a key only if account and fingerprint are the same.
pub session_key-injective :
    (a b : ℤ) (s t : String) → session_key a s ≡ session_key b t → (a ≡ b) × (codes s ≡ codes t)
unfolding session_key
session_key-injective a b s t e =
    let (same, rest) =
      split_unique 58 (codes (decimal a)) (codes (decimal b)) (codes s) (codes t)
        (decimal_no_separator 58 a (omega arith)) (decimal_no_separator 58 b (omega arith))
        (sym (form a s) ∙ ap codes e ∙ form b t) in
    (decimal-injective a b same, rest)
  where
    form :
        (a : ℤ) (s : String)
        → codes (String.◌++◌ (decimal a) (String.◌++◌ ":" s)) ≡ codes (decimal a) ++ 58 ∷ codes s
    form a s =
        codes-append (decimal a) (String.◌++◌ ":" s)
        ∙ ap (◌++◌ (codes (decimal a))) (codes-append ":" s)
