-- ===== src/Base/Text.antt =====
-- Texts of the source as byte strings.
use Prim.Native.Nat.{ℕ}
use Prim.Native.Char.{code}
use Prim.Native.String.{String}
use mathlib.Core.List.{List, [], ◌∷◌}

-- The bytes of a text in ASCII. `String` has its own `[]` and `∷`.
abbrev pub codes : String → List ℕ
codes String.[] = []
codes (String.◌∷◌ c s) = code c ∷ codes s
