-- ===== src/Fingerprint/Examples.antt =====
-- A small specification and its snapshot.
use airgate_claude.Prelude.{ℕ, [], ◌∷◌, ◌≡◌, refl, ◌↔◌, some, none, List}
use airgate_claude.Prelude.Text.{codes}
use airgate_claude.Fingerprint.{
  Spec, Snapshot, sni, supported_curves, alpn, other, snapshot_from_spec,
}
use airgate_claude.Fingerprint.Diff.{diff_snapshots, diff_snapshots_iff}

abbrev spec : Spec
spec = record {
  version_min = 0x0303;
  version_max = 0x0304;
  cipher_suites = 4865 ∷ 4866 ∷ [];
  extensions = other ∷ sni ∷ supported_curves (29 ∷ 23 ∷ []) ∷ alpn (codes "http/1.1" ∷ []) ∷ [];
}

abbrev snapshot : Snapshot
snapshot = snapshot_from_spec (λ e. codes "ext") (λ t. t) spec

ja3_runs : snapshot.ja3 ≡ codes "771,4865-4866,0-10-16,29-23,0"
unfolding snapshot_from_spec airgate_claude.Prelude.Decimal.decimal
ja3_runs = refl

diff_snapshots_iff_example : (diff_snapshots snapshot snapshot ≡ []) ↔ (snapshot ≡ snapshot)
diff_snapshots_iff_example = diff_snapshots_iff snapshot snapshot
