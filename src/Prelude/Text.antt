-- ===== src/Prelude/Text.antt =====
-- Texts of the program, as their character codes.
use Prim.Native.Nat.{ℕ}
use Prim.Native.Char.{code}
use Prim.Native.String.{String}
use mathlib.Core.Bool.{Bool, true, false, ◌&&◌}
use mathlib.Core.List.{List, [], ◌∷◌}
use android2pc_stream.Prelude.Tests.{leb, ◌==◌}

-- The code points of a literal, which are its bytes where it is ASCII.
abbrev pub codes : String → List ℕ
codes String.[] = []
codes (String.◌∷◌ c s) = code c ∷ codes s

-- `value >= low && value <= high`.
abbrev pub between : ℕ → ℕ → ℕ → Bool
between lo hi c = leb lo c && leb c hi

-- `front()` and `back()` of a text that is not empty; an empty one has no such character.
abbrev pub front_is : ℕ → List ℕ → Bool
front_is c [] = false
front_is c (x ∷ xs) = x == c

abbrev pub back_is : ℕ → List ℕ → Bool
back_is c [] = false
back_is c (x ∷ []) = x == c
back_is c (x ∷ y ∷ ys) = back_is c (y ∷ ys)

-- `text.starts_with(prefix)`.
abbrev pub starts_with : List ℕ → List ℕ → Bool
starts_with text [] = true
starts_with [] (c ∷ cs) = false
starts_with (x ∷ xs) (c ∷ cs) = x == c && starts_with xs cs
