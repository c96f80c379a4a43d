-- ===== src/TimerList/Slot.antt =====
-- src/timer_list.cpp, __internal_add_timer: where a timer goes.
use timer_benchmarks.Common.{ℕ, ◌+◌, ◌<◌, ◌≤◌, ◌≡◌, ◌≢◌, ◌%◌, ◌/◌, arith}
use timer_benchmarks.TimerList.{slot}

pub slot_bound : (clk expires : ℕ) → slot clk expires < 512
unfolding slot
slot_bound clk expires = ground arith

-- The list that __internal_add_timer picks is one of the 512. A deadline less than 256 ticks after
-- the wheel's clock goes to the list of the first vector with its remainder by 256, and if it is
-- not before the clock, no tick from the clock on and before the deadline has that index. A
-- deadline 256 ticks or more after the clock goes to an upper vector, and to the second, by the
-- next six bits, if it is less than 16384 ticks after.
pub slot_lem :
    (clk expires : ℕ)
    → (slot clk expires < 512)
      × (expires < clk + 256 → slot clk expires ≡ expires % 256)
      × (clk ≤ expires
          → expires < clk + 256
          → (tick : ℕ) → clk ≤ tick
          → tick < expires
          → tick % 256 ≢ slot clk expires)
      × (clk + 256 ≤ expires → 256 ≤ slot clk expires)
      × (clk + 256 ≤ expires → expires < clk + 16384 → slot clk expires ≡ 256 + expires / 256 % 64)
unfolding slot
slot_lem clk expires = (
  ground arith,
  (λ h. ground arith),
  (λ h k tick l m. ground arith),
  (λ h. ground arith),
  (λ h k. ground arith),
)
