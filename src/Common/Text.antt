-- ===== src/Common/Text.antt =====
-- Go strings and byte slices as lists of numbers below 256, with their equality.
use Prim.Native.Char.{code}
use Prim.Native.Nat.{ℕ}
use Prim.Native.String.{String}
use mathlib.Core.Path.{◌≡◌, refl}
use mathlib.Core.Bool.{Bool, true, false, ◌&&◌}
use mathlib.Core.List.{List, [], ◌∷◌}
use native.Mathlib.Omega.{arith}
use radio_chatter.Common.Tests.{◌==◌}

abbrev pub Bytes : Type 0
Bytes = List ℕ

-- The code points of a text: its bytes, as every literal here is ASCII.
abbrev pub codes : String → Bytes
codes String.[] = []
codes (String.◌∷◌ c s) = code c ∷ codes s

-- `a == b` on strings
unfoldable pub equal : Bytes → Bytes → Bool
equal [] [] = true
equal (x ∷ xs) (y ∷ ys) = x == y && equal xs ys
equal _ _ = false

pub equal_self : (text : Bytes) → equal text text ≡ true
unfolding equal
equal_self [] = refl
equal_self (c ∷ text) = ground (arith, equal_self text)

pub equal-eq : (s t : Bytes) → equal s t ≡ true → s ≡ t
unfolding equal
equal-eq [] [] h = refl
equal-eq [] (d ∷ t) h = cc
equal-eq (c ∷ s) [] h = cc
equal-eq (c ∷ s) (d ∷ t) h = ground (arith, equal-eq s t)
