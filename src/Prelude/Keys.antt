-- ===== src/Prelude/Keys.antt =====
-- Equality of map keys as an interface, with its two implementations.
use Prim.Native.String.{String}
use mathlib.Core.Path.{◌≡◌}
use mathlib.Core.Logic.{◌↔◌}
use mathlib.Core.Bool.{Bool, true}
use text.Mathlib.Text.{◌==◌ as str_eq}
use text.Mathlib.TextEquality.{eq_iff}
use airgate_claude.Prelude.Int.{ℤ, int_beq, int_beq_iff}

-- A comparison of keys, and that it decides whether two keys are one.
pub record Key {ℓ} (K : Type ℓ) : Type ℓ where
  pub same : K → K → Bool
  pub same_iff : (j k : K) → (same j k ≡ true) ↔ (j ≡ k)

-- Account identifiers.
instance abbrev pub int_key : Key ℤ
int_key = record { same = int_beq; same_iff = int_beq_iff }

-- Proxy URLs, conversation keys, names of credentials.
instance abbrev pub string_key : Key String
string_key = record { same = str_eq; same_iff = eq_iff }

infix 50 ◌==◌
abbrev pub ◌==◌ {ℓ} : {K : Type ℓ} ⦃key : Key K⦄ → K → K → Bool
◌==◌ ⦃key⦄ = key.same
