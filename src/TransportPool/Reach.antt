-- ===== src/TransportPool/Reach.antt =====
-- The fingerprint pool over its whole life: requests, removed accounts and shutdowns in any order.
use airgate_claude.Prelude.{
  ℕ, ◌≡◌, refl, Bool, false, List, [], ◌∷◌, ◌++◌, String, string_key, ◌==◌, arith, ap, ◌∙◌, sym,
  inl, inr, Option-cases, Bool-cases,
}
use text.Mathlib.TextEquality.{eq_iff}
use airgate_claude.Prelude.Int.{ℤ}
use airgate_claude.Prelude.Decimal.{decimal}
use airgate_claude.Prelude.Text.{codes}
use airgate_claude.GoMap.{Map, get, put, delete, sweep, has}
use airgate_claude.GoMap.Laws.{get-put, get-delete, has-get, size-sweep-le}
use airgate_claude.GoMap.Distinct.{sweep-Distinct, get-sweep-none}
use airgate_claude.GoMap.Oldest.{oldest_key_from, delete_oldest_key, delete_unless_empty}
use airgate_claude.Limits.{Limits}
use airgate_claude.TransportPool.{
  Pool, Entry, used, is_idle, cleanup_idle, make_room, delete_oldest, store, touch, get_slow,
  get_or_create, close,
}
use airgate_claude.TransportPool.Fingerprint.{
  fingerprint_limits, fp_key, of_account, get_fingerprint, remove_account_locked,
  new_fingerprint_pool,
}
use airgate_claude.TransportPool.Laws.{IsValid, get_or_create-IsValid}
use airgate_claude.TransportPool.Accounts.{codes-fp_key}

-- A key of the pool is never the empty text, which the eviction loop takes for "none seen yet".
fp_key-ne-empty :
    (account : ℤ) (proxy_url profile : String) → (fp_key account proxy_url profile == "") ≡ false
fp_key-ne-empty account proxy_url profile =
    elim (Bool-cases (fp_key account proxy_url profile == "")) [
      | inl same ↦ absurd (
          bar_not_last (codes (decimal account)) _
            (sym (codes-fp_key account proxy_url profile) ∙ ap codes ((eq_iff _ "").0 same)))
      | inr other ↦ other
    ]
  where
    bar_not_last : (s t : List ℕ) → s ++ 124 ∷ t ≡ [] → ⊥
    bar_not_last [] t e = ground arith
    bar_not_last (c ∷ s) t e = ground arith

module _ {T : Type 0} where
  abbrev NoEmpty : Map String (Entry T) → Type 0
  NoEmpty m = has "" m ≡ false

  put-NoEmpty :
      (k : String) (e : Entry T) (m : Map String (Entry T))
      → (k == "") ≡ false
      → NoEmpty m
      → NoEmpty (put k e m)
  put-NoEmpty k e m ne h = ground (arith, has-get "" m, has-get "" (put k e m), get-put k "" e m)

  sweep-NoEmpty :
      (drop : String → Entry T → Bool) (m : Map String (Entry T))
      → NoEmpty m
      → NoEmpty (sweep drop m)
  sweep-NoEmpty drop m h =
      ground (arith, has-get "" m, has-get "" (sweep drop m), get-sweep-none drop "" m)

  delete_oldest-NoEmpty :
      (m : Map String (Entry T)) → NoEmpty m → NoEmpty (delete_oldest_key used m)
  unfolding delete_oldest_key delete_unless_empty
  delete_oldest-NoEmpty m h =
      let k = oldest_key_from used "" 0 m in
      ground (arith, has-get "" m, has-get "" (delete k m), get-delete k "" m)

  module _ (l : Limits) where
    cleanup-NoEmpty : (now : ℕ) (p : Pool T) → NoEmpty p.pool → NoEmpty (cleanup_idle l now p).pool
    unfolding cleanup_idle
    cleanup-NoEmpty now p h = ground (arith, sweep-NoEmpty (is_idle l now) p.pool h)

    get_slow-NoEmpty :
        (fresh : T) (now : ℕ) (k : String) (p : Pool T)
        → (k == "") ≡ false
        → NoEmpty p.pool
        → NoEmpty (get_slow l fresh now k p).1.pool
    unfolding get_slow store make_room delete_oldest
    get_slow-NoEmpty fresh now k p ne h =
        let q = cleanup_idle l now p in
        let clean = cleanup-NoEmpty now p h in
        let e' : Entry T = record { transport = fresh; last_used = now } in
        elim (Option-cases (get k p.pool)) [
          | inl e ↦
              rw (e, get_slow)
                (ground (
                  arith,
                  put-NoEmpty k e' q.pool ne clean,
                  put-NoEmpty k e' (delete_oldest_key used q.pool) ne
                      (delete_oldest-NoEmpty q.pool clean),
                ))
          | inr (entry, e) ↦ rw (e, get_slow) (put-NoEmpty k _ p.pool ne h)
        ]

    touch-NoEmpty :
        (now : ℕ) (k : String) (p : Pool T)
        → (k == "") ≡ false
        → NoEmpty p.pool
        → NoEmpty (touch l now k p).pool
    unfolding touch store
    touch-NoEmpty now k p ne h = elim (Option-cases (get k p.pool)) [
      | inl e ↦ rw (e, touch) (cleanup-NoEmpty now p h)
      | inr (entry, e) ↦ rw (e, touch) (cleanup-NoEmpty now _ (put-NoEmpty k _ p.pool ne h))
    ]

    get_or_create-NoEmpty :
        (fresh : T) (now : ℕ) (k : String) (p : Pool T)
        → (k == "") ≡ false
        → NoEmpty p.pool
        → NoEmpty (get_or_create l fresh now k p).1.pool
    unfolding get_or_create
    get_or_create-NoEmpty fresh now k p ne h = elim (Option-cases (get k p.pool)) [
      | inl e ↦ rw (e, get_or_create) (get_slow-NoEmpty fresh now k p ne h)
      | inr (entry, e) ↦ rw (e, get_or_create) (touch-NoEmpty now k p ne h)
    ]

pub data Call : Type 0 where
  gets : ℤ → String → String → Call
  removes : ℤ → Call
  closes : Call

module _ {T : Type 0} (build : String → String → T) where
  pub step : Pool T → ℕ × Call → Pool T
  step p (now, gets account proxy_url profile) =
      (get_fingerprint build now account proxy_url profile p).1
  step p (now, removes account) = remove_account_locked account p
  step p (now, closes) = close now p

  pub run : Pool T → List (ℕ × Call) → Pool T
  run p [] = p
  run p (c ∷ cs) = run (step p c) cs

  pub record Inv (p : Pool T) : Type 0 where
    pub valid : IsValid fingerprint_limits p
    pub no_empty : NoEmpty p.pool

  step-Inv : (p : Pool T) (c : ℕ × Call) → Inv p → Inv (step p c)
  unfolding step get_fingerprint remove_account_locked close has
  step-Inv p (now, gets account proxy_url profile) v =
      let k = fp_key account proxy_url profile in
      record {
        valid =
            get_or_create-IsValid fingerprint_limits (build proxy_url profile) now k p (omega arith)
              v.no_empty v.valid;
        no_empty =
            get_or_create-NoEmpty fingerprint_limits (build proxy_url profile) now k p
              (fp_key-ne-empty account proxy_url profile) v.no_empty;
      }
  step-Inv p (now, removes account) v =
      let drop : String → Entry T → Bool = λ k e. of_account account k in
      record {
        valid = record {
          distinct = sweep-Distinct drop p.pool v.valid.distinct;
          bounded = omega (arith, size-sweep-le drop p.pool);
        };
        no_empty = sweep-NoEmpty drop p.pool v.no_empty;
      }
  step-Inv p (now, closes) v = record {
    valid = record { distinct = tt; bounded = omega arith };
    no_empty = refl;
  }

  -- Whatever requests, account removals and shutdowns happen, in any order and at any times, the
  -- fingerprint pool never holds more than its limit, holds each key once, and holds no empty key.
  pub run-Inv : (start : ℕ) (cs : List (ℕ × Call)) → Inv (run (new_fingerprint_pool start) cs)
  unfolding run new_fingerprint_pool has
  run-Inv start cs =
      go cs _ (record { valid = record { distinct = tt; bounded = omega arith }; no_empty = refl })
    where
      go : (cs : List (ℕ × Call)) (p : Pool T) → Inv p → Inv (run p cs)
      go [] p v = v
      go (c ∷ cs) p v = go cs (step p c) (step-Inv p c v)
