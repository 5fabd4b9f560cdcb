-- ===== src/TransportPool/Examples.antt =====
-- Concrete pools: the theorems at inputs that meet their hypotheses.
use airgate_claude.Prelude.{refl, [], ◌∷◌, String, string_key, arith}
use airgate_claude.Prelude.Int.{pos}
use airgate_claude.GoMap.{get}
use airgate_claude.TransportPool.{Pool, standard_limits}
use airgate_claude.TransportPool.Fingerprint.{new_fingerprint_pool}
use airgate_claude.TransportPool.Reach.{Inv, run, gets, removes, run-Inv}
use airgate_claude.TransportPool.Laws.{IsValid}

abbrev one_proxy : Pool String
one_proxy = record {
  pool = ("http://a", record { transport = "a"; last_used = 5 }) ∷ [];
  last_cleanup = 0;
  closed = [];
}

one_proxy-IsValid : IsValid standard_limits one_proxy
unfolding get
one_proxy-IsValid = record { distinct = (refl, tt); bounded = omega arith }

abbrev two_accounts : Pool String
two_accounts = record {
  pool =
      ("1||auto", record { transport = "one"; last_used = 5 })
      ∷ ("12||auto", record { transport = "twelve"; last_used = 6 })
      ∷ [];
  last_cleanup = 0;
  closed = [];
}

run-Inv_example :
    Inv
      (λ proxy profile. proxy)
      (run
        (λ proxy profile. proxy)
        (new_fingerprint_pool 0)
        ((1, gets (pos 1) "" "auto") ∷ (2, gets (pos 12) "" "auto") ∷ (3, removes (pos 1)) ∷ []))
run-Inv_example =
    run-Inv (λ proxy profile. proxy) 0
      ((1, gets (pos 1) "" "auto") ∷ (2, gets (pos 12) "" "auto") ∷ (3, removes (pos 1)) ∷ [])
