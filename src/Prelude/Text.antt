-- ===== src/Prelude/Text.antt =====
-- String literals as the lists of the numbers of their characters.
use Prim.Native.Nat.{ℕ}
use Prim.Native.Char.{code}
use Prim.Native.String.{String, [], ◌∷◌}
use mathlib.Core.List.{List, [] as none_left, ◌∷◌ as ◌then◌}

abbrev pub characters : String → List ℕ
characters [] = none_left
characters (c ∷ s) = code c then characters s
