-- ===== src/HashedTimer/Early.antt =====
-- One timer on a new wheel of src/HashedWheelTimer.cpp: when its action is called, and what happens
-- when the action cancels its own timer.
use timer_benchmarks.Common.{
  ℕ, leb, suc, true, ◌+◌, ◌-◌, ◌/◌, ◌%◌, ◌≤◌, ◌<◌, ◌≡◌, refl, false, arith, ltb, Run, fault,
  null_pointer, check_failed, ◌≢◌, Returns, value, ◌>>=◌, ◌==◌,
}
use timer_benchmarks.Timer.{first_id, next_id, expiry-ok, int64_max}
use timer_benchmarks.Timer.Action.{Action, run, Body, finish, cancel_timer, invoke, perform}
use timer_benchmarks.Timer.Ids.{contains, remove, put, select}
use timer_benchmarks.HashedBucket.{add_timeout, remove_timeout, expire_timeouts}
use timer_benchmarks.HashedTimer.{
  HashedWheelTimer, create, start, update, cancel, expire, expire_all, tick, ticks_loop, size,
  calculated, to_int, stop_idx, tick_idx, wheel_size,
}

-- a Start on a new wheel, then an Update
abbrev pub start_then_update : ℕ → ℕ → Action → ℕ → Run (ℕ × HashedWheelTimer)
start_then_update clock duration action now = do
  (_, t) ← start clock duration action (create clock clock)
  update now t

calculated_soon : (clock duration : ℕ) → duration < 100 → calculated clock (clock + duration) ≡ 0
unfolding calculated to_int
calculated_soon clock duration h = ground arith

one_tick : (clock now : ℕ) → clock + 10 ≤ now → now < clock + 20 → (now - clock) / 10 ≡ 1
one_tick clock now h k = omega arith

some_ticks : (clock now : ℕ) → clock + 10 ≤ now → (n : ℕ) × ((now - clock) / 10 ≡ suc n)
some_ticks clock now h = ((now - clock) / 10 - 1, omega arith)

-- HashedWheelTimer calls a timer too early. Start a timer of less than 100 ms, whose action makes
-- no call, on a new wheel whose start and last Update have the clock of that Start. An Update at
-- least 10 and less than 20 ms later, and before the deadline, returns 1 and leaves no timer
-- pending (for a clock 100 ms or more before the largest `int64_t`).
pub update_early :
    (clock duration now : ℕ)
    → duration < 100
    → clock + 10 ≤ now
    → now < clock + 20
    → now < clock + duration
    → clock + 100 ≤ int64_max
    → Returns (λ r. (r.0 ≡ 1) × (size r.1 ≡ 0)) (start_then_update clock duration (run finish) now)
unfolding start create update add_timeout put next_id stop_idx remove select ticks_loop tick
    expire_timeouts expire_all expire remove_timeout invoke perform size
update_early clock duration now soon from until early room =
    let short : clock + duration ≤ int64_max = omega arith in
    let fits : leb (clock + 100) int64_max ≡ true = ground arith in
    let target = calculated_soon clock duration soon in
    let on_time : ltb (clock + 100) (clock + duration) ≡ false = ground arith in
    rw
      (expiry-ok clock duration short, target, one_tick clock now from until, target, fits, on_time)
      (value (refl, refl))

-- An action that cancels its own timer stops the program in HashedWheelTimer. Start a timer of less
-- than 100 ms with such an action, whatever it does after that, on a new wheel whose start and last
-- Update have the clock of that Start: an Update 10 ms later or more uses a null pointer, since
-- Cancel finds the id in `ref_` and the timeout in no bucket (for a clock 100 ms or more before the
-- largest `int64_t`).
pub self_cancel_faults :
    (clock duration now : ℕ) (rest : Body)
    → duration < 100
    → clock + 10 ≤ now
    → clock + 100 ≤ int64_max
    → start_then_update clock duration (run (cancel_timer first_id rest)) now ≡ fault null_pointer
unfolding start create update add_timeout put next_id stop_idx remove select ticks_loop tick
    expire_timeouts expire_all expire remove_timeout invoke perform size cancel contains
self_cancel_faults clock duration now rest soon from room =
    let short : clock + duration ≤ int64_max = omega arith in
    let fits : leb (clock + 100) int64_max ≡ true = ground arith in
    let target = calculated_soon clock duration soon in
    let on_time : ltb (clock + 100) (clock + duration) ≡ false = ground arith in
    let (n, ticks) = some_ticks clock now from in
    let some_left : (suc n == 0) ≡ false = ground arith in
    rw (expiry-ok clock duration short, target, ticks, some_left, target, fits, on_time) refl

calculated_long :
    (clock duration : ℕ)
    → 2147483648 ≤ duration
    → duration < 4294967296
    → calculated clock (clock + duration) ≡ 0
unfolding calculated to_int
calculated_long clock duration h k = ground arith

-- A timer of 2^31 ms or more that fits a `uint32_t` stops the program in HashedWheelTimer. Start
-- one on a new wheel whose start and last Update have the clock of that Start, with a deadline that
-- fits an `int64_t`: an Update 10 ms later or more ends in the message of a wrong slot, since the
-- distance turns negative as an `int`.
pub long_timer_faults :
    (clock duration now : ℕ) (action : Action)
    → 2147483648 ≤ duration
    → duration < 4294967296
    → clock + 10 ≤ now
    → clock + duration ≤ int64_max
    → start_then_update clock duration action now ≡ fault check_failed
unfolding start create update add_timeout put next_id stop_idx remove select ticks_loop tick
    tick_idx expire_timeouts remove_timeout size
long_timer_faults clock duration now action long fits from short =
    let target = calculated_long clock duration long fits in
    let fits : leb (clock + 100) int64_max ≡ true = ground arith in
    let late : ltb (clock + 100) (clock + duration) ≡ true = ground arith in
    let (n, ticks) = some_ticks clock now from in
    let some_left : (suc n == 0) ≡ false = ground arith in
    rw (expiry-ok clock duration short, target, ticks, some_left, target, fits, late) refl

-- Where Start computes a tick whose remainder by 512 is 511 and that is not before the current one,
-- no tick of HashedWheelTimer, whatever its number, visits the bucket that Start uses.
pub last_bucket_unvisited :
    (ticks target n : ℕ)
    → ticks ≤ target
    → target % wheel_size ≡ wheel_size - 1
    → tick_idx n ≢ stop_idx ticks target
unfolding tick_idx stop_idx
last_bucket_unvisited ticks target n h last = λ same. absurd (ground (arith, same))
