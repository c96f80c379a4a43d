-- ===== src/Timer.antt =====
-- src/TimerBase.h and src/TimerBase.cpp: the kinds of scheduler, the expiry actions, the counter of
-- ids, and the arithmetic of deadlines.
pub mod Action
pub mod Ids
pub mod Assoc
pub mod Contract
pub mod Emptied
pub mod Budget
pub mod Drained
pub mod Allows
use timer_benchmarks.Common.{
  ℕ, zero, suc, ◌+◌, ◌≤◌, ◌<◌, ◌≡◌, Bool, Run, ok, fault, overflow, ltb, leb, if◌then◌else◌, arith,
  Ends, value, stop, Fault, Ends-if, refl,
}

pub data TimerSchedType : Type 0 where
  timer_priority_queue timer_quad_heap timer_rbtree timer_hashed_wheel timer_hh_wheel :
      TimerSchedType

-- the largest `int` and the largest `int64_t`
abbrev pub int_max : ℕ
int_max = 2147483647

abbrev pub int64_max : ℕ
int64_max = 9223372036854775807

-- `next_id_` starts with a magic number
abbrev pub first_id : ℕ
first_id = 2020

-- `next_id_++`: the id, and the counter after it. Past the largest `int` the increment overflows.
unfoldable pub next_id : ℕ → Run (ℕ × ℕ)
next_id counter = if ltb counter int_max then ok (counter, counter + 1) else fault overflow

-- `Clock::CurrentTimeMillis() + (int64_t)duration`
unfoldable pub expiry : ℕ → ℕ → Run ℕ
expiry clock duration =
    if leb (clock + duration) int64_max then ok (clock + duration) else fault overflow

module _ {F : Fault → Type 0} (allowed : F overflow) where
  pub next_id-Ends :
      (counter : ℕ) → Ends F (λ r. (r.0 ≡ counter) × (r.1 ≡ counter + 1)) (next_id counter)
  unfolding next_id
  next_id-Ends counter = Ends-if (ltb counter int_max) (λ _. value (refl, refl)) (λ _. stop allowed)

  pub expiry-Ends :
      (clock duration : ℕ) → Ends F (λ t. t ≡ clock + duration) (expiry clock duration)
  unfolding expiry
  expiry-Ends clock duration =
      Ends-if (leb (clock + duration) int64_max) (λ _. value refl) (λ _. stop allowed)

pub next_id-ok : (counter : ℕ) → counter < int_max → next_id counter ≡ ok (counter, counter + 1)
unfolding next_id
next_id-ok counter h = ground arith

pub expiry-ok :
    (clock duration : ℕ)
    → clock + duration ≤ int64_max
    → expiry clock duration ≡ ok (clock + duration)
unfolding expiry
expiry-ok clock duration h = ground arith
