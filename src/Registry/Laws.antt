-- ===== src/Registry/Laws.antt =====
-- The registry stays within its limit, holds the last account seen, and forgets the idle ones.
use airgate_claude.Prelude.{ℕ, ◌≤◌, ◌≡◌, true, some, int_key, string_key, arith}
use airgate_claude.Prelude.Int.{ℤ}
use airgate_claude.GoMap.{get, size}
use airgate_claude.GoMap.Laws.{get-put_self, size-put, size-put-le, size-sweep-le}
use airgate_claude.GoMap.Distinct.{Distinct, put-Distinct, sweep-Distinct}
use airgate_claude.GoMap.Oldest
use airgate_claude.TokenManager.{Account}
use airgate_claude.Registry.{
  Snapshot, Registry, registry_limits, seen, is_idle, snapshot_of, cleanup, delete_oldest, store,
  register, uses_token,
}

pub record IsValid (r : Registry) : Type 0 where
  pub distinct : Distinct r.accounts
  pub bounded : size r.accounts ≤ registry_limits.max_entries

cleanup-IsValid : (now : ℕ) (r : Registry) → IsValid r → IsValid (cleanup now r)
unfolding cleanup
cleanup-IsValid now r v = ground (
  arith,
  sweep-Distinct (is_idle now) r.accounts v.distinct,
  size-sweep-le (is_idle now) r.accounts,
)

store-IsValid :
    (account : ℤ) (s : Snapshot) (r : Registry) → IsValid r → IsValid (store account s r)
unfolding store delete_oldest
store-IsValid account s r v = ground (
  arith,
  size-put account s r.accounts,
  size-put-le account s (Oldest.delete_oldest seen r.accounts),
  Oldest.size-delete_oldest seen r.accounts v.distinct,
  put-Distinct account s r.accounts v.distinct,
  put-Distinct account s (Oldest.delete_oldest seen r.accounts)
      (Oldest.delete_oldest-Distinct seen r.accounts v.distinct),
)

-- Registering an account keeps one snapshot to an account and never more than the limit of them.
pub register-IsValid :
    (now : ℕ) (a : Account) (r : Registry) → IsValid r → IsValid (register now (some a) r)
unfolding register
register-IsValid now a r v =
    ground (arith, store-IsValid a.id (snapshot_of now a) (cleanup now r) (cleanup-IsValid now r v))

-- An OAuth or session-key account that is registered is found with the fields and the time of that
-- call, whatever was evicted to make room.
pub register-get :
    (now : ℕ) (a : Account) (r : Registry)
    → uses_token a ≡ true
    → get a.id (register now (some a) r).accounts ≡ some (snapshot_of now a)
unfolding register store
register-get now a r u = rw u (get-put_self a.id (snapshot_of now a) _)
