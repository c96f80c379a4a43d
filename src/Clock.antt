-- ===== src/Clock.antt =====
-- src/Clock.h and src/Clock.cpp: the logic clock, the system's clock moved by an offset. The
-- readings of the system's clock, `localtime` and the formatting of numbers are parameters. An
-- `int64_t` that overflows is a fault.
pub mod Fly
use timer_benchmarks.Common.{
  ℕ, ◌+◌, Bool, List, [], ◌∷◌, Run, ok, overflow, require, ◌>>=◌, if◌then◌else◌, ℤ, pos, ◌+ℤ◌,
  is_zero, quot, rem, is_int64, Int64,
}

-- `clock_offset_` when the program starts
abbrev pub clock_offset : ℤ
clock_offset = pos 0

-- the sum of two values of `int64_t`
unfoldable pub add_int64 : ℤ → ℤ → Run ℤ
add_int64 a b = do _ ← require (is_int64 (a +ℤ b)) overflow; ok (a +ℤ b)

-- `now` is what the system's clock shows, in milliseconds
unfoldable pub current_time_millis : ℤ → ℤ → Run ℤ
unfolding add_int64
current_time_millis now offset = add_int64 now offset

unfoldable pub time_reset : ℤ → ℤ
time_reset offset = pos 0

unfoldable pub time_fly : Int64 → ℤ → Run ℤ
unfolding add_int64
time_fly ms offset = add_int64 offset ms.0

-- `struct tm`, for a year not before 1900
pub record Tm : Type 0 where
  pub tm_year : ℕ
  pub tm_mon : ℕ
  pub tm_mday : ℕ
  pub tm_hour : ℕ
  pub tm_min : ℕ
  pub tm_sec : ℕ

module _ {Text : Type 0} (localtime : ℤ → Tm) (format : List ℕ → ℤ → Text) where
  -- the arguments of snprintf, the milliseconds last, for a time point that is not zero
  unfoldable pub time_string : ℤ → Text
  time_string timepoint =
      let t = localtime (quot timepoint 1000) in
      format
        ((1900 + t.tm_year) ∷ (t.tm_mon + 1) ∷ t.tm_mday ∷ t.tm_hour ∷ t.tm_min ∷ t.tm_sec ∷ [])
        (rem timepoint 1000)

  unfoldable pub current_time_string : ℤ → ℤ → ℤ → Run Text
  unfolding current_time_millis time_string
  current_time_string now offset timepoint =
      if is_zero timepoint
      then (do t ← current_time_millis now offset; ok (time_string t))
      else ok (time_string timepoint)
