-- ===== src/Base/Text.antt =====
-- Texts as lists of code points: their bytes, where they are ASCII.
use Prim.Native.Nat.{ℕ}
use Prim.Native.Char.{code}
use Prim.Native.String.{String}
use mathlib.Core.List.{List, [], ◌∷◌}

abbrev pub codes : String → List ℕ
codes String.[] = []
codes (String.◌∷◌ first others) = code first ∷ codes others
