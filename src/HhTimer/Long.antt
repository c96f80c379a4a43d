-- ===== src/HhTimer/Long.antt =====
-- src/HHWheelTimer.cpp, Update over a tick that takes timers down from the second vector.
use timer_benchmarks.Common.{
  ℕ, zero, suc, ◌+◌, ◌-◌, ◌*◌, ◌/◌, ◌%◌, ◌≤◌, ◌<◌, ◌≡◌, ◌≢◌, true, false, List, [], ◌∷◌, ◌++◌, ◌==◌,
  arith, subst, sym, length, leb, runs_out, IfOk-bind, Ends-IfOk, ◌>>=◌,
}
use timer_benchmarks.Timer.Action.{Action, IsQuiet, Updated, nothing}
use timer_benchmarks.TimerList.{time_after_eq, slot}
use timer_benchmarks.TimerList.Slot.{slot_lem}
use timer_benchmarks.HhTimer.Started.{started_lists, started_home, started_quiet, started_enough}
use timer_benchmarks.TimerList.Ticks.{index_at, tick, run_ticks, run_timers}
use timer_benchmarks.TimerList.Stuck.{Stuck, begin_tick-Stuck}
use timer_benchmarks.TimerList.Wheel.{put_list}
use timer_benchmarks.HhTimer.{HhWheelTimer, start, handle_timer_expired, with_base, update}
use timer_benchmarks.HhTimer.Valid.{IsValid, start-HhStarted}
use timer_benchmarks.HhTimer.Expire.{action_of, AllQuiet}
use timer_benchmarks.HhTimer.Ticks.{get_base, leave, tick-returns}

-- where the `n`th tick from the clock takes a timer down, no tick from it on returns
run_ticks-Stuck :
    (n rounds fuel now : ℕ) (u : Updated HhWheelTimer) (lists : ℕ → List ℕ) (home : ℕ → ℕ)
    → IsValid 512 u.timer lists home
    → ((l : ℕ) → l < 256 → length (lists l) < suc fuel)
    → AllQuiet u.timer home
    → (u.timer.base.timer_clk + n) % 256 ≡ 0
    → lists (256 + index_at 8 (u.timer.base.timer_clk + n)) ≢ []
    → u.timer.base.timer_clk + n ≤ now
    → Stuck (run_ticks get_base with_base handle_timer_expired rounds (suc fuel) now u)
unfolding run_ticks time_after_eq tick
run_ticks-Stuck n zero fuel now u lists home v enough quiet boundary long reach = runs_out
run_ticks-Stuck zero (suc r) fuel now u lists home v enough quiet boundary long reach =
    let on : leb u.timer.base.timer_clk now ≡ true = ground (arith, reach) in
    let here : u.timer.base.timer_clk + 0 ≡ u.timer.base.timer_clk = omega arith in
    rw (on, run_ticks)
      (IfOk-bind
        (IfOk-bind
          (begin_tick-Stuck (suc fuel) v.wheel (rw here at boundary)
            (subst (λ c. lists (256 + index_at 8 c) ≢ []) here long))
          λ b stuck. absurd stuck)
        λ u' stuck. absurd stuck)
run_ticks-Stuck (suc n) (suc r) fuel now u lists home v enough quiet boundary long reach =
    let clk = u.timer.base.timer_clk in
    let i = clk % 256 in
    let on : leb clk now ≡ true = ground (arith, reach) in
    let next : clk + suc n ≡ clk + 1 + n = omega arith in
    rw (on, run_ticks)
      (IfOk-bind (tick-returns fuel u lists home v quiet (enough i (omega arith))) λ u1 t.
        let same : u1.timer.base.timer_clk + n ≡ clk + suc n = omega (arith, t.1) in
        let off : (256 + index_at 8 (clk + suc n) == i) ≡ false = ground arith in
        run_ticks-Stuck n r fuel now u1 (put_list i [] lists) (leave i home) t.0.valid
          (λ l hl. ground (arith, enough l hl))
          (λ j hj.
            subst (λ o. IsQuiet (action_of o)) (sym (t.0.actions j (ground (arith, hj))))
              (quiet j (ground (arith, hj))))
          (rw same boundary) (rw (same, off) long) (omega (arith, same, reach)))

append-not_nil : (x : ℕ) (xs : List ℕ) → xs ++ x ∷ [] ≢ []
append-not_nil x [] e = ground arith
append-not_nil x (y ∷ ys) e = ground arith

-- Take a HHWheelTimer where the invariant holds and no pending action calls the scheduler, with
-- fuel for the lists of the first vector. After a Start whose deadline lies 256 ticks or more, and
-- less than 16384, after the wheel's clock, with an action that does not call the scheduler, no
-- Update returns whose time has come to the last multiple of 256 up to the deadline, however many
-- rounds it is given.
pub long_timer_stops_update :
    (rounds fuel now clock duration : ℕ) (action : Action) (t : HhWheelTimer) (lists : ℕ → List ℕ)
    (home : ℕ → ℕ)
    → IsValid 512 t lists home
    → ((l : ℕ) → l < 256 → length (lists l) < fuel)
    → AllQuiet t home
    → IsQuiet action
    → t.base.timer_clk + 256 ≤ clock + duration
    → clock + duration < t.base.timer_clk + 16384
    → (clock + duration) / 256 * 256 ≤ now
    → Stuck (start clock duration action t >>= λ r. update rounds (suc fuel) now r.1)
unfolding update run_timers
long_timer_stops_update rounds fuel now clock duration action t lists home v enough quiet
      quiet_action low high reach =
    IfOk-bind (Ends-IfOk (start-HhStarted clock duration action t lists home v)) λ r s.
      let clk = t.base.timer_clk in
      let d = clock + duration in
      let n = d / 256 * 256 - clk in
      let bound : clk + n ≡ d / 256 * 256 = omega (arith, low) in
      let bound1 : r.1.base.timer_clk + n ≡ d / 256 * 256 = omega (arith, bound, s.base_clock) in
      let place : slot clk d ≡ 256 + d / 256 % 64 = (slot_lem clk d).4 low high in
      let index : 256 + index_at 8 (d / 256 * 256) ≡ slot clk d = omega (arith, place) in
      let same : (slot clk d == slot clk d) ≡ true = ground arith in
      IfOk-bind
        (run_ticks-Stuck n rounds fuel now (nothing r.1) (started_lists t d lists)
          (started_home t d home) s.valid
          (λ l hl.
            omega (arith, started_enough clock duration action t lists home v r s fuel enough l hl))
          (started_quiet clock duration action t lists home v r s quiet_action quiet)
          (rw bound1 (omega arith))
          (rw (bound1, index, same) (append-not_nil (515 + t.next_id) (lists (slot clk d))))
          (omega (arith, bound1, reach)))
        λ u' stuck. absurd stuck
