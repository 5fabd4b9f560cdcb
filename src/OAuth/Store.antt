-- ===== src/OAuth/Store.antt =====
-- The store of OAuth sessions: what an operation on one state leaves of the others, and the limit.
use airgate_claude.Prelude.{ℕ, ◌≤◌, ◌≡◌, false, none, String, string_key, ◌==◌, arith}
use airgate_claude.GoMap.{Map, get, put, delete, has, size}
use airgate_claude.GoMap.Laws.{get-put, get-delete, size-put, size-put-le, size-sweep-le, has-get}
use airgate_claude.GoMap.Distinct.{Distinct, put-Distinct, sweep-Distinct, get-sweep-none}
use airgate_claude.GoMap.Oldest.{
  delete_oldest_key, oldest_key_from, delete_unless_empty, delete_oldest_key-Distinct,
  delete_oldest_key-delete_oldest, size-delete_oldest,
}
use airgate_claude.OAuth.{
  Session, expired, clean_expired, set_session, make_room, delete_oldest, get_session, created,
  stamp, oauth_session_max_entries,
}

get-delete_oldest-none :
    (k : String) (m : Map String Session) → get k m ≡ none → get k (delete_oldest m) ≡ none
unfolding delete_oldest delete_oldest_key delete_unless_empty
get-delete_oldest-none k m h =
    let old = oldest_key_from created "" 0 m in ground (arith, get-delete old k m)

pub get-set_session-none :
    (now : ℕ) (k state : String) (s : Session) (m : Map String Session)
    → (state == k) ≡ false
    → get k m ≡ none
    → get k (set_session now state s m) ≡ none
unfolding set_session make_room clean_expired
get-set_session-none now k state s m n h =
    let c = clean_expired now m in
    let gone = get-sweep-none (λ _ s. expired now s) k m h in
    ground
      (arith, gone, get-put state k (stamp now s) (make_room state c), get-delete_oldest-none k c)

pub get-clean_expired-none :
    (now : ℕ) (k : String) (m : Map String Session)
    → get k m ≡ none
    → get k (clean_expired now m) ≡ none
unfolding clean_expired
get-clean_expired-none now k m h = get-sweep-none (λ _ s. expired now s) k m h

pub get-delete-none :
    (k state : String) (m : Map String Session) → get k m ≡ none → get k (delete state m) ≡ none
get-delete-none k state m h = ground (arith, get-delete state k m)

pub get-get_session-none :
    (now : ℕ) (k state : String) (m : Map String Session)
    → get k m ≡ none
    → get k (get_session now state m).1 ≡ none
unfolding get_session
get-get_session-none now k state m h = ground (arith, get-delete-none k state m h)

-- A state is a text that is not empty, so no session stands under the empty key.
pub record IsValid (m : Map String Session) : Type 0 where
  pub distinct : Distinct m
  pub no_empty : get "" m ≡ none
  pub bounded : size m ≤ oauth_session_max_entries

pub clean_expired-IsValid :
    (now : ℕ) (m : Map String Session) → IsValid m → IsValid (clean_expired now m)
unfolding clean_expired
clean_expired-IsValid now m v = ground (
  arith,
  sweep-Distinct (λ _ s. expired now s) m v.distinct,
  get-sweep-none (λ _ s. expired now s) "" m v.no_empty,
  size-sweep-le (λ _ s. expired now s) m,
)

make_room-IsValid :
    (state : String) (s : Session) (m : Map String Session)
    → (state == "") ≡ false
    → IsValid m
    → IsValid (put state s (make_room state m))
unfolding make_room delete_oldest
make_room-IsValid state s m n v =
    let absent : has "" m ≡ false = ground (arith, has-get "" m, v.no_empty) in
    let same = delete_oldest_key-delete_oldest created m absent in
    let rest = delete_oldest m in
    ground (
      arith,
      same,
      size-put state s m,
      size-put-le state s rest,
      size-delete_oldest created m v.distinct,
      put-Distinct state s m v.distinct,
      put-Distinct state s rest (delete_oldest_key-Distinct created m v.distinct),
      get-put state "" s m,
      get-put state "" s rest,
      get-delete_oldest-none "" m v.no_empty,
    )

-- Storing a session under a state that is not empty keeps the store within its limit and its states
-- distinct and not empty.
pub set_session-IsValid :
    (now : ℕ) (state : String) (s : Session) (m : Map String Session)
    → (state == "") ≡ false
    → IsValid m
    → IsValid (set_session now state s m)
unfolding set_session
set_session-IsValid now state s m n v =
    make_room-IsValid state (stamp now s) (clean_expired now m) n (clean_expired-IsValid now m v)
