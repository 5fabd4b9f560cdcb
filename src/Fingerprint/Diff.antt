-- ===== src/Fingerprint/Diff.antt =====
-- `diffSnapshots`: nothing is reported iff the snapshots are equal.
use airgate_claude.Prelude.{
  Bool, true, false, ◌&&◌, List, [], ◌∷◌, none, some, String, if◌then◌else◌, nat_eq, nat_eq_iff,
  ◌≡◌, refl, ◌↔◌, arith, subst,
}
use airgate_claude.Headers.{Text, text_eq}
use airgate_claude.Headers.Parts.{text_eq_iff}
use airgate_claude.Fingerprint.{Slice, Snapshot}

abbrev texts_eq : List Text → List Text → Bool
texts_eq [] [] = true
texts_eq [] (t ∷ ts) = false
texts_eq (s ∷ ss) [] = false
texts_eq (s ∷ ss) (t ∷ ts) = text_eq s t && texts_eq ss ts

texts_eq_iff : (ss ts : List Text) → (texts_eq ss ts ≡ true) ↔ (ss ≡ ts)
texts_eq_iff [] [] = ground arith
texts_eq_iff [] (t ∷ ts) = ground arith
texts_eq_iff (s ∷ ss) [] = ground arith
texts_eq_iff (s ∷ ss) (t ∷ ts) = ground (arith, text_eq_iff s t, texts_eq_iff ss ts)

abbrev slice_eq : {A : Type 0} → (List A → List A → Bool) → Slice A → Slice A → Bool
slice_eq eq none none = true
slice_eq eq none (some t) = false
slice_eq eq (some s) none = false
slice_eq eq (some s) (some t) = eq s t

slice_eq_iff :
    {A : Type 0} (eq : List A → List A → Bool)
    → ((s t : List A) → (eq s t ≡ true) ↔ (s ≡ t))
    → (s t : Slice A) → (slice_eq eq s t ≡ true) ↔ (s ≡ t)
slice_eq_iff eq h none none = ground arith
slice_eq_iff eq h none (some t) = ground arith
slice_eq_iff eq h (some s) none = ground arith
slice_eq_iff eq h (some s) (some t) = ground (arith, h s t)

-- A field that differs is reported by its name.
abbrev pub check : String → Bool → List String → List String
check name same rest = if same then rest else name ∷ rest

unfoldable pub diff_snapshots : Snapshot → Snapshot → List String
diff_snapshots a b = check "cli_version" (text_eq a.cli_version b.cli_version) (
    check "runtime" (text_eq a.runtime b.runtime) (
      check "runtime_version" (text_eq a.runtime_version b.runtime_version) (
        check "tls_version_min" (nat_eq a.tls_version_min b.tls_version_min) (
          check "tls_version_max" (nat_eq a.tls_version_max b.tls_version_max) (
            check "cipher_suites" (slice_eq text_eq a.cipher_suites b.cipher_suites) (
              check "curves" (slice_eq text_eq a.curves b.curves) (
                check "signature_algorithms"
                  (slice_eq text_eq a.signature_algorithms b.signature_algorithms)
                  (check "alpn_protocols" (slice_eq texts_eq a.alpn_protocols b.alpn_protocols) (
                    check "extensions" (slice_eq texts_eq a.extensions b.extensions) (
                      check "extension_ids" (slice_eq text_eq a.extension_ids b.extension_ids) (
                        check "ja3" (text_eq a.ja3 b.ja3)
                          (check "ja3_hash" (text_eq a.ja3_hash b.ja3_hash) []))))))))))))

check_none :
    (name : String) (same : Bool) (rest : List String)
    → check name same rest ≡ []
    → (same ≡ true) × (rest ≡ [])
check_none name true rest h = (refl, h)
check_none name false rest h = ground (arith, h)

check_some :
    (name : String) (same : Bool) (rest : List String)
    → same ≡ true
    → rest ≡ []
    → check name same rest ≡ []
check_some name same rest h k = rw h k

snapshot_eta :
    (a b : Snapshot)
    → a.cli_version ≡ b.cli_version
    → a.runtime ≡ b.runtime
    → a.runtime_version ≡ b.runtime_version
    → a.tls_version_min ≡ b.tls_version_min
    → a.tls_version_max ≡ b.tls_version_max
    → a.cipher_suites ≡ b.cipher_suites
    → a.curves ≡ b.curves
    → a.signature_algorithms ≡ b.signature_algorithms
    → a.alpn_protocols ≡ b.alpn_protocols
    → a.extensions ≡ b.extensions
    → a.extension_ids ≡ b.extension_ids
    → a.ja3 ≡ b.ja3
    → a.ja3_hash ≡ b.ja3_hash
    → a ≡ b
snapshot_eta a b h1 h2 h3 h4 h5 h6 h7 h8 h9 h10 h11 h12 h13 = λ i. record {
  cli_version = h1 i;
  runtime = h2 i;
  runtime_version = h3 i;
  tls_version_min = h4 i;
  tls_version_max = h5 i;
  cipher_suites = h6 i;
  curves = h7 i;
  signature_algorithms = h8 i;
  alpn_protocols = h9 i;
  extensions = h10 i;
  extension_ids = h11 i;
  ja3 = h12 i;
  ja3_hash = h13 i;
}

diff_snapshots-none : (a b : Snapshot) → diff_snapshots a b ≡ [] → a ≡ b
unfolding diff_snapshots
diff_snapshots-none a b h =
    let (e1, h1) = check_none "cli_version" _ _ h in
    let (e2, h2) = check_none "runtime" _ _ h1 in
    let (e3, h3) = check_none "runtime_version" _ _ h2 in
    let (e4, h4) = check_none "tls_version_min" _ _ h3 in
    let (e5, h5) = check_none "tls_version_max" _ _ h4 in
    let (e6, h6) = check_none "cipher_suites" _ _ h5 in
    let (e7, h7) = check_none "curves" _ _ h6 in
    let (e8, h8) = check_none "signature_algorithms" _ _ h7 in
    let (e9, h9) = check_none "alpn_protocols" _ _ h8 in
    let (e10, h10) = check_none "extensions" _ _ h9 in
    let (e11, h11) = check_none "extension_ids" _ _ h10 in
    let (e12, h12) = check_none "ja3" _ _ h11 in
    let (e13, h13) = check_none "ja3_hash" _ _ h12 in
    snapshot_eta a b ((text_eq_iff _ _).0 e1) ((text_eq_iff _ _).0 e2) ((text_eq_iff _ _).0 e3)
      ((nat_eq_iff _ _).0 e4) ((nat_eq_iff _ _).0 e5) ((slice_eq_iff text_eq text_eq_iff _ _).0 e6)
      ((slice_eq_iff text_eq text_eq_iff _ _).0 e7) ((slice_eq_iff text_eq text_eq_iff _ _).0 e8)
      ((slice_eq_iff texts_eq texts_eq_iff _ _).0 e9)
      ((slice_eq_iff texts_eq texts_eq_iff _ _).0 e10)
      ((slice_eq_iff text_eq text_eq_iff _ _).0 e11) ((text_eq_iff _ _).0 e12)
      ((text_eq_iff _ _).0 e13)

diff_snapshots_self : (a : Snapshot) → diff_snapshots a a ≡ []
unfolding diff_snapshots
diff_snapshots_self a =
    check_some "cli_version" _ _ ((text_eq_iff a.cli_version a.cli_version).1 refl) (
      check_some "runtime" _ _ ((text_eq_iff a.runtime a.runtime).1 refl) (
        check_some "runtime_version" _ _ ((text_eq_iff a.runtime_version a.runtime_version).1 refl)
          (check_some "tls_version_min" _ _
            ((nat_eq_iff a.tls_version_min a.tls_version_min).1 refl)
            (check_some "tls_version_max" _ _
              ((nat_eq_iff a.tls_version_max a.tls_version_max).1 refl)
              (check_some "cipher_suites" _ _
                ((slice_eq_iff text_eq text_eq_iff a.cipher_suites a.cipher_suites).1 refl)
                (check_some "curves" _ _
                  ((slice_eq_iff text_eq text_eq_iff a.curves a.curves).1 refl)
                  (check_some "signature_algorithms" _ _
                    ((slice_eq_iff text_eq text_eq_iff a.signature_algorithms
                        a.signature_algorithms).1
                      refl)
                    (check_some "alpn_protocols" _ _
                      ((slice_eq_iff texts_eq texts_eq_iff a.alpn_protocols a.alpn_protocols).1
                        refl)
                      (check_some "extensions" _ _
                        ((slice_eq_iff texts_eq texts_eq_iff a.extensions a.extensions).1 refl)
                        (check_some "extension_ids" _ _
                          ((slice_eq_iff text_eq text_eq_iff a.extension_ids a.extension_ids).1
                            refl)
                          (check_some "ja3" _ _ ((text_eq_iff a.ja3 a.ja3).1 refl) (
                            check_some "ja3_hash" _ _ ((text_eq_iff a.ja3_hash a.ja3_hash).1 refl)
                              refl))))))))))))

-- The tool reports no field iff the two snapshots are equal.
pub diff_snapshots_iff : (a b : Snapshot) → (diff_snapshots a b ≡ []) ↔ (a ≡ b)
diff_snapshots_iff a b =
    (diff_snapshots-none a b, (λ e. subst (λ x. diff_snapshots a x ≡ []) e (diff_snapshots_self a)))
