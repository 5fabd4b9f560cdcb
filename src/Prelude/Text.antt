-- ===== src/Prelude/Text.antt =====
-- The parts of Go's `strings` that the gateway uses, over code points.
use Prim.Native.Nat.{ℕ, ◌+◌}
use Prim.Native.Char.{code}
use Prim.Native.String.{String}
use mathlib.Core.Bool.{Bool, true, false, ◌&&◌, ◌||◌}
use mathlib.Core.List.{List, [], ◌∷◌, map}
use airgate_claude.Prelude.Tests.{leb, nat_eq, if◌then◌else◌}

-- The code points of a text. `String` has its own `[]` and `∷`.
abbrev pub codes : String → List ℕ
codes String.[] = []
codes (String.◌∷◌ c s) = code c ∷ codes s

-- `unicode.ToLower` as far as ASCII text is concerned: the two code points outside ASCII whose
-- lower case lies in ASCII are U+0130 and the Kelvin sign U+212A.
unfoldable pub lower : ℕ → ℕ
lower c =
    if leb b'A' c && leb c b'Z'
    then c + 32
    else if nat_eq c 0x130
    then b'i'
    else if nat_eq c 0x212a
    then b'k'
    else c

unfoldable pub to_lower : String → List ℕ
unfolding lower
to_lower s = map lower (codes s)

unfoldable pub starts : List ℕ → List ℕ → Bool
starts s [] = true
starts [] (p ∷ ps) = false
starts (c ∷ s) (p ∷ ps) = nat_eq c p && starts s ps

-- `strings.Contains(s, sub)`.
unfoldable pub contains : List ℕ → List ℕ → Bool
unfolding starts
contains [] sub = starts [] sub
contains (c ∷ s) sub = starts (c ∷ s) sub || contains s sub
