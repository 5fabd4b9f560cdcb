-- ===== src/TransportPool/Accounts.antt =====
-- `RemoveAccount` and the form of the keys: a prefix test on printed identifiers.
use Prim.Native.String
use airgate_claude.Prelude.{
  ℕ, ◌≡◌, refl, ◌≢◌, ◌↔◌, Bool, true, false, List, [], ◌∷◌, ◌++◌, none, some, String, string_key,
  if◌then◌else◌, arith, All, ap, subst, sym, ◌∙◌, Option,
}
use airgate_claude.Prelude.Int.{ℤ, int_beq, int_beq_iff}
use airgate_claude.Prelude.Decimal.{decimal, codes-append, decimal-injective, decimal_no_separator}
use airgate_claude.Prelude.Text.{codes, starts}
use airgate_claude.GoMap.{get}
use airgate_claude.GoMap.Distinct.{Distinct, get-sweep}
use airgate_claude.TransportPool.{Pool, Entry}
use airgate_claude.TransportPool.Fingerprint.{fp_key, of_account, remove_account_locked}

abbrev NoBar : List ℕ → Type 0
NoBar = All (λ c. c ≢ 124)

starts_bar :
    (s t rest : List ℕ)
    → NoBar s
    → NoBar t
    → starts (s ++ 124 ∷ rest) (t ++ 124 ∷ []) ≡ true
    → s ≡ t
unfolding starts
starts_bar [] [] rest a b h = refl
starts_bar [] (d ∷ t) rest a b h = absurd (ground arith)
starts_bar (c ∷ s) [] rest a b h = absurd (ground arith)
starts_bar (c ∷ s) (d ∷ t) rest a b h = ground (arith, starts_bar s t rest a.1 b.1)

starts_self : (s rest : List ℕ) → starts (s ++ 124 ∷ rest) (s ++ 124 ∷ []) ≡ true
unfolding starts
starts_self [] rest = ground arith
starts_self (c ∷ s) rest = ground (arith, starts_self s rest)

pub codes-fp_key :
    (account : ℤ) (proxy_url profile : String)
    → codes (fp_key account proxy_url profile)
      ≡ codes (decimal account) ++ 124 ∷ codes (String.◌++◌ proxy_url (String.◌++◌ "|" profile))
unfolding fp_key
codes-fp_key account proxy_url profile =
    rw (codes-append (decimal account)) (ap (◌++◌ (codes (decimal account))) (codes-append "|" _))

-- The prefix test accepts a key exactly when the key was composed for that account: no account's
-- number is taken for the beginning of another's.
pub of_account-fp_key :
    (a b : ℤ) (proxy_url profile : String)
    → (of_account b (fp_key a proxy_url profile) ≡ true) ↔ (a ≡ b)
unfolding of_account
of_account-fp_key a b proxy_url profile = (only, same)
  where
    test : Bool
    test = starts (codes (fp_key a proxy_url profile)) (codes (String.◌++◌ (decimal b) "|"))

    rest : List ℕ
    rest = codes (String.◌++◌ proxy_url (String.◌++◌ "|" profile))

    form : test ≡ starts (codes (decimal a) ++ 124 ∷ rest) (codes (decimal b) ++ 124 ∷ [])
    form = rw (codes-fp_key, codes-append (decimal b)) refl

    only : test ≡ true → a ≡ b
    only h = decimal-injective a b (
        starts_bar _ _ rest (decimal_no_separator 124 a (omega arith))
          (decimal_no_separator 124 b (omega arith)) (sym form ∙ h))

    same : a ≡ b → test ≡ true
    same e =
        form
        ∙ subst
            (λ c. starts (codes (decimal a) ++ 124 ∷ rest) (codes (decimal c) ++ 124 ∷ []) ≡ true) e
            (starts_self (codes (decimal a)) rest)

of_account-beq :
    (a b : ℤ) (proxy_url profile : String) → of_account b (fp_key a proxy_url profile) ≡ int_beq a b
of_account-beq a b proxy_url profile =
    let h = of_account-fp_key a b proxy_url profile in
    bool_eq _ _ (λ t. (int_beq_iff a b).1 (h.0 t)) (λ t. h.1 ((int_beq_iff a b).0 t))
  where
    bool_eq : (x y : Bool) → (x ≡ true → y ≡ true) → (y ≡ true → x ≡ true) → x ≡ y
    bool_eq true y f g = sym (f refl)
    bool_eq false true f g = g refl
    bool_eq false false f g = refl

-- `RemoveAccount` takes every transport of the account out of the pool, under whatever proxy and
-- profile, and leaves the transports of all other accounts where they are.
pub remove_account-get :
    {T : Type 0} (a b : ℤ) (proxy_url profile : String) (p : Pool T)
    → Distinct p.pool
    → get (fp_key a proxy_url profile) (remove_account_locked b p).pool
      ≡ (if int_beq a b then none else get (fp_key a proxy_url profile) p.pool)
unfolding remove_account_locked
remove_account-get {T} a b proxy_url profile p d =
    let k = fp_key a proxy_url profile in
    get-sweep (λ j e. of_account b j) k p.pool d ∙ dropped (get k p.pool)
  where
    dropped :
        (o : Option (Entry T))
        → elim o [
          | none ↦ none
          | some v ↦ if of_account b (fp_key a proxy_url profile) then none else some v
        ]
          ≡ (if int_beq a b then none else o)
    dropped none = ground arith
    dropped (some v) = rw (of_account-beq a b proxy_url profile) refl
