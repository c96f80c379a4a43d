-- ===== src/Common/Int.antt =====
-- Integers over the native numbers, and the range of `int64_t`.
use Prim.Native.Nat.{ℕ, suc, ◌+◌, ◌-◌, ◌/◌, ◌%◌}
use mathlib.Core.Path.{◌≡◌, ap}
use mathlib.Core.Bool.{Bool, true, false}
use native.Mathlib.Omega.{arith}
use timer_benchmarks.Common.Tests.{ltb, leb, ◌==◌, if◌then◌else◌}

-- `negsuc n` is `-(n + 1)`
pub data ℤ : Type 0 where
  pos negsuc : ℕ → ℤ

-- `-n`
abbrev pub neg : ℕ → ℤ
neg n = if n == 0 then pos 0 else negsuc (n - 1)

-- `a - b`
abbrev pub difference : ℕ → ℕ → ℤ
difference a b = if ltb a b then negsuc (b - a - 1) else pos (a - b)

infixl 55 ◌+ℤ◌
abbrev pub ◌+ℤ◌ : ℤ → ℤ → ℤ
pos a +ℤ pos b = pos (a + b)
pos a +ℤ negsuc b = difference a (suc b)
negsuc a +ℤ pos b = difference b (suc a)
negsuc a +ℤ negsuc b = negsuc (suc (a + b))

abbrev pub negate : ℤ → ℤ
negate (pos n) = neg n
negate (negsuc n) = pos (suc n)

abbrev pub is_zero : ℤ → Bool
is_zero (pos n) = n == 0
is_zero (negsuc n) = false

-- division and remainder round to zero
abbrev pub quot : ℤ → ℕ → ℤ
quot (pos n) d = pos (n / d)
quot (negsuc n) d = neg (suc n / d)

abbrev pub rem : ℤ → ℕ → ℤ
rem (pos n) d = pos (n % d)
rem (negsuc n) d = neg (suc n % d)

-- whether an `int64_t` can hold the number
abbrev pub is_int64 : ℤ → Bool
is_int64 (pos n) = leb n 9223372036854775807
is_int64 (negsuc n) = leb n 9223372036854775807

-- the numbers that an `int64_t` holds
abbrev pub Int64 : Type 0
Int64 = (x : ℤ) × (is_int64 x ≡ true)

pub +ℤ-assoc : (x y z : ℤ) → x +ℤ y +ℤ z ≡ x +ℤ (y +ℤ z)
+ℤ-assoc (pos a) (pos b) (pos c) = ap pos (omega arith)
+ℤ-assoc (pos a) (pos b) (negsuc c) = ground arith
+ℤ-assoc (pos a) (negsuc b) (pos c) = ground arith
+ℤ-assoc (pos a) (negsuc b) (negsuc c) = ground arith
+ℤ-assoc (negsuc a) (pos b) (pos c) = ground arith
+ℤ-assoc (negsuc a) (pos b) (negsuc c) = ground arith
+ℤ-assoc (negsuc a) (negsuc b) (pos c) = ground arith
+ℤ-assoc (negsuc a) (negsuc b) (negsuc c) = ap negsuc (omega arith)

pub +ℤ-zero : (x : ℤ) → x +ℤ pos 0 ≡ x
+ℤ-zero (pos a) = ap pos (omega arith)
+ℤ-zero (negsuc a) = ground arith

pub +ℤ-cancel : (x y : ℤ) → x +ℤ y +ℤ negate y ≡ x
+ℤ-cancel (pos a) (pos b) = ground arith
+ℤ-cancel (pos a) (negsuc b) = ground arith
+ℤ-cancel (negsuc a) (pos b) = ground arith
+ℤ-cancel (negsuc a) (negsuc b) = ground arith
