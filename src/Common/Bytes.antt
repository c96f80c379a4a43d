-- ===== src/Common/Bytes.antt =====
-- Byte strings as lists of character codes.
use Prim.Native.Nat.{ℕ, zero, suc, ◌≤◌}
use mathlib.Core.Path.{◌≡◌, refl, ap}
use mathlib.Core.List.{List, [], ◌∷◌, ◌++◌}
use mathlib.Core.Option.{Option, none, some}
use native.Mathlib.Omega.{arith}
use timer_benchmarks.Common.Tests.{◌==◌, if◌then◌else◌}
use timer_benchmarks.Common.Array.{length}

abbrev pub Text : Type 0
Text = List ℕ

abbrev pub take : ℕ → Text → Text
take zero s = []
take (suc n) [] = []
take (suc n) (c ∷ s) = c ∷ take n s

abbrev pub concat : List Text → Text
concat [] = []
concat (s ∷ ss) = s ++ concat ss

-- strrchr: the text from the last `c` on
abbrev pub from_last : ℕ → Text → Option Text
from_last c [] = none
from_last c (x ∷ s) = elim (from_last c s) [
  | some found ↦ some found
  | none ↦ if x == c then some (x ∷ s) else none
]

pub length-take : (n : ℕ) (s : Text) → length (take n s) ≤ n
length-take zero s = omega arith
length-take (suc n) [] = omega arith
length-take (suc n) (c ∷ s) = omega (arith, length-take n s)

pub take-all : (n : ℕ) (s : Text) → length s ≤ n → take n s ≡ s
take-all zero [] h = refl
take-all zero (c ∷ s) h = absurd (omega arith)
take-all (suc n) [] h = refl
take-all (suc n) (c ∷ s) h = ap (◌∷◌ c) (take-all n s (omega arith))
