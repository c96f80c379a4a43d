-- ===== src/HhTimer/Sequence.antt =====
-- src/HHWheelTimer.cpp: Start followed by Cancel, and by Update.
use timer_benchmarks.Common.{
  ℕ, suc, ◌+◌, ◌-◌, ◌%◌, ◌≤◌, ◌<◌, ◌≡◌, inl, inr, true, List, [], Mem, some, ok, overflow, Ends,
  Returns-Ends, value, Ends-map, Ends-bind, ◌>>=◌, ◌==◌, Bool-cases, ==→≡, arith, subst, sym, ap,
  ◌∙◌, length,
}
use timer_benchmarks.Timer.{int64_max}
use timer_benchmarks.Timer.Action.{Action, IsQuiet, Updated}
use timer_benchmarks.Timer.Assoc.{find}
use timer_benchmarks.ListImpl.Ring.{Absent}
use timer_benchmarks.TimerList.{slot}
use timer_benchmarks.TimerList.Wheel.{Owned-Absent}
use timer_benchmarks.TimerList.Slot.{slot_bound}
use timer_benchmarks.HhTimer.{HhWheelTimer, address, start, cancel, update}
use timer_benchmarks.HhTimer.Valid.{IsValid, HhStarted, start-HhStarted}
use timer_benchmarks.HhTimer.Calls.{remove-Absent, cancel-HhCancelled}
use timer_benchmarks.HhTimer.Expire.{AllQuiet, IsValid-ext}
use timer_benchmarks.HhTimer.Rounds.{home_after, update-Rounds}
use timer_benchmarks.HhTimer.Deadlines.{OnTime}
use timer_benchmarks.HhTimer.OnTime.{CalledOnTime, update_fires-OnTime}
use timer_benchmarks.HhTimer.Started.{
  remove-last, started_lists, started_home, as_started, started_quiet, started_expiry,
  started_OnTime, started_upper, started_enough, started_entry, home_after-missed, slot-near,
}

-- With the invariant, a Start on a HHWheelTimer followed by a Cancel of the id that it gave ends,
-- and only an overflow in Start stops the program. Otherwise Cancel returns true, the invariant
-- holds for the lists before the Start, and the counter of ids is one higher.
pub start_cancel_restores :
    (clock duration : ℕ) (action : Action) (t : HhWheelTimer) (lists : ℕ → List ℕ) (home : ℕ → ℕ)
    → IsValid 512 t lists home
    → Ends
        (λ e. e ≡ overflow)
        (λ r. (r.0 ≡ true) × IsValid 512 r.1 lists home × (r.1.next_id ≡ t.next_id + 1))
        (start clock duration action t >>= λ s. cancel s.0 s.1)
start_cancel_restores clock duration action t lists home v =
    let n = address t.next_id in
    let m = slot t.base.timer_clk (clock + duration) in
    let free = v.fresh t.next_id (omega arith) in
    let same : (n == n) ≡ true = ground arith in
    let out : (l : ℕ) → l < 512 → Absent n (lists l) =
      λ l hl. Owned-Absent home l n (lists l) (v.wheel.owned l hl) (ground arith) in
    Ends-bind (start-HhStarted clock duration action t lists home v) λ r s. rw s.id (
      Ends-map (Returns-Ends (cancel-HhCancelled t.next_id s.valid (omega arith))) λ r' c. (
        c.known ∙ ground (arith, slot_bound t.base.timer_clk (clock + duration)),
        IsValid-ext c.valid
            (λ l hl. elim (Bool-cases (l == m)) [
              | inl e ↦ rw e (
                  ap lists (==→≡ l m e)
                  ∙ sym (
                      remove-last n (lists m)
                        (out m (slot_bound t.base.timer_clk (clock + duration)))))
              | inr e ↦ rw e (sym (remove-Absent n (lists l) (out l hl)))
            ])
            (λ x. ground arith),
        c.count ∙ s.count,
      ))

-- what the started timer needs of the scheduler: short lists in the first vector only, on time
module _ (clock duration : ℕ) (action : Action) (t : HhWheelTimer) (lists : ℕ → List ℕ)
    (home : ℕ → ℕ) (v : IsValid 512 t lists home)
    (upper : (l : ℕ) → 256 ≤ l → l < 512 → lists l ≡ []) (quiet : AllQuiet t home)
    (quiet_action : IsQuiet action) (high : clock + duration < t.base.timer_clk + 256)
    (rounds fuel now : ℕ) (enough : (l : ℕ) → l < 256 → length (lists l) < fuel)
    (room : now < int64_max) (more : now + 1 < t.base.timer_clk + rounds) where
  -- Take a HHWheelTimer where the invariant holds, no pending action calls the scheduler, the upper
  -- four vectors are empty and the timers of the first lie at their deadlines. Start a timer, with
  -- an action that does not call the scheduler, whose deadline lies in the 256 ticks from the
  -- wheel's clock, and call Update at a time that is not before the deadline and below the largest
  -- `int64_t`, with fuel for both. Only an overflow in Start may stop this; otherwise Update
  -- returns and has called the timer, with the id that Start gave, its deadline and its action.
  pub start_update_calls :
      OnTime t t.base.timer_clk lists
      → t.base.timer_clk ≤ clock + duration
      → clock + duration ≤ now
      → Ends
          (λ e. e ≡ overflow)
          (λ (q : ℕ × Updated HhWheelTimer).
            Mem (as_started q.0 (clock + duration) action) q.1.calls)
          (start clock duration action t >>= λ r.
            update rounds (suc fuel) now r.1 >>= λ u. ok (r.0, u))
  start_update_calls exact low due =
      Ends-bind (start-HhStarted clock duration action t lists home v) λ r s. rw s.id (
        Ends-bind
          (Returns-Ends (
            update_fires-OnTime rounds fuel now r.1 (started_lists t (clock + duration) lists)
              (started_home t (clock + duration) home) s.valid
              (started_upper clock duration action t lists home v r s upper high)
              (rw s.base_clock
                (started_OnTime clock duration action t lists home v r s exact low high))
              (started_quiet clock duration action t lists home v r s quiet_action quiet)
              (started_enough clock duration action t lists home v r s fuel enough)
              (omega (arith, s.base_clock)) room (omega (arith, s.base_clock, more))))
          λ u c. value (mem r s u c))
    where
      mem :
          (r : ℕ × HhWheelTimer)
          → (s : HhStarted clock duration action t lists home r) → (u : Updated HhWheelTimer)
          → CalledOnTime now r.1 (started_home t (clock + duration) home) u
          → Mem (as_started t.next_id (clock + duration) action) u.calls
      mem r s u c =
          subst (λ e. Mem e u.calls) (started_entry clock duration action t lists home v r s)
            (c.called (address t.next_id)
              (ground (arith, slot_bound t.base.timer_clk (clock + duration)))
              (omega (arith, started_expiry clock duration action t lists home v r s, due)))

  -- Take a HHWheelTimer where the invariant holds, no pending action calls the scheduler, and the
  -- upper four vectors are empty. Start a timer, with an action that does not call the scheduler,
  -- whose deadline lies before the wheel's clock, and call Update at a time less than 256 ticks
  -- after that deadline and not more than one tick behind the clock. Unless Start overflows, Update
  -- returns and the timer is still pending, although it may be due for up to 255 ticks.
  pub late_start_waits :
      clock + duration < t.base.timer_clk
      → t.base.timer_clk ≤ now + 1
      → now < clock + duration + 256
      → Ends
          (λ e. e ≡ overflow)
          (λ (q : ℕ × Updated HhWheelTimer). find q.0 q.1.timer.ref ≡ some (address q.0))
          (start clock duration action t >>= λ r.
            update rounds (suc fuel) now r.1 >>= λ u. ok (r.0, u))
  late_start_waits late begun early =
      Ends-bind (start-HhStarted clock duration action t lists home v) λ r s. rw s.id (
        let clk = t.base.timer_clk in
        let d = clock + duration in
        let x = address t.next_id in
        let n = now + 1 - clk in
        let home1 = started_home t d home in
        let near : slot clk d ≡ d % 256 = slot-near clk d (omega (arith, late)) in
        Ends-bind
          (Returns-Ends (
            update-Rounds n rounds fuel now r.1 (started_lists t d lists) home1 s.valid
              (started_upper clock duration action t lists home v r s upper high)
              (started_enough clock duration action t lists home v r s fuel enough) room
              (started_quiet clock duration action t lists home v r s quiet_action quiet)
              (omega (arith, s.base_clock, begun)) (omega (arith, more, begun))))
          λ u c. value (
            let at_home : home1 x ≡ d % 256 = ground (arith, near) in
            let missed : home_after home1 r.1.base.timer_clk n x ≡ home1 x =
              home_after-missed home1 n r.1.base.timer_clk x
                λ k hk. rw (s.base_clock, at_home) (omega (arith, late, early)) in
            c.valid.known t.next_id ∙ ground (arith, missed, at_home)))
