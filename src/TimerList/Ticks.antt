-- ===== src/TimerList/Ticks.antt =====
-- src/timer_list.cpp, run_timers. The state `S` stands for what `timer->function` works on, with the
-- base inside it; the function tells which action it took. The loops run on fuel, the same for each.
use timer_benchmarks.Common.{
  ℕ, zero, suc, ◌+◌, ◌/◌, ◌%◌, ◌^◌, true, false, none, some, ◌++◌, [], ◌∷◌, Run, ok, out_of_fuel,
  check_failed, overflow, require, ◌>>=◌, ltb, ◌==◌, if◌then◌else◌,
}
use timer_benchmarks.Timer.{int64_max}
use timer_benchmarks.Timer.Action.{Entry, Updated, nothing}
use timer_benchmarks.ListImpl.{follow, list_first_entry, list_empty, list_replace_init}
use timer_benchmarks.TimerList.{
  TvecBase, tv1, tv2, tv3, tv4, tv5, work_list, read_timer, detach_timer, detach_expired_timer,
  cascade, time_after_eq,
}

-- `INDEX(N)`, with `k = TVR_BITS + N * TVN_BITS`
abbrev pub index_at : ℕ → ℕ → ℕ
index_at k clk = clk / 2 ^ k % 64

-- the cascades of a tick whose index is `index`: each runs when the one before returned zero
unfoldable pub cascade_timers : ℕ → ℕ → TvecBase → Run TvecBase
unfolding cascade
cascade_timers fuel index b =
    if index == 0
    then (do
      (i0, b0) ← cascade fuel (tv2 0) (index_at 8 b.timer_clk) b
      if i0 == 0
          then (do
            (i1, b1) ← cascade fuel (tv3 0) (index_at 14 b0.timer_clk) b0
            if i1 == 0
                then (do
                  (i2, b2) ← cascade fuel (tv4 0) (index_at 20 b1.timer_clk) b1
                  if i2 == 0
                      then (do (_, b3) ← cascade fuel (tv5 0) (index_at 26 b2.timer_clk) b2; ok b3)
                      else ok b2)
                else ok b1)
          else ok b0)
    else ok b

-- a tick up to the loop over the expired timers: the cascades, the clock, the work list
unfoldable pub begin_tick : ℕ → TvecBase → Run TvecBase
unfolding cascade_timers list_replace_init
begin_tick fuel b = do
  let index = b.timer_clk % 256
  b' ← cascade_timers fuel index b
  _ ← require (ltb b'.timer_clk int64_max) overflow
  entries ← list_replace_init (tv1 index) work_list b'.entries
  ok (record b' { timer_clk = b'.timer_clk + 1; entries = entries })

-- the next expired timer is detached, and its function is checked
unfoldable pub take_expired : TvecBase → Run (ℕ × TvecBase)
unfolding follow detach_timer
take_expired b = do
  timer ← follow (list_first_entry work_list b.entries)
  info ← read_timer timer b
  b' ← detach_expired_timer timer (record b { running_timer = some timer })
  _ ← require info.function check_failed
  ok (timer, b')

module _ {S : Type 0} (base : S → TvecBase) (with_base : TvecBase → S → S)
    (function : ℕ → S → Run (Entry × S)) where
  unfoldable pub run_expired : ℕ → Updated S → Run (Updated S)
  unfolding list_empty take_expired
  run_expired zero u = out_of_fuel
  run_expired (suc fuel) u = elim (list_empty work_list (base u.timer).entries) [
    | true ↦ ok u
    | false ↦ do
      (timer, b) ← take_expired (base u.timer)
      (call, s) ← function timer (with_base b u.timer)
      run_expired fuel (record { fired = u.fired + 1; calls = u.calls ++ call ∷ []; timer = s })
  ]

  unfoldable pub tick : ℕ → Updated S → Run (Updated S)
  unfolding begin_tick run_expired
  tick fuel u = do
    b ← begin_tick fuel (base u.timer)
    run_expired fuel (record u { timer = with_base b u.timer })

  -- at most `rounds` ticks; `fuel` is for the loops inside a tick
  unfoldable pub run_ticks : ℕ → ℕ → ℕ → Updated S → Run (Updated S)
  unfolding time_after_eq tick
  run_ticks zero fuel clock u = out_of_fuel
  run_ticks (suc rounds) fuel clock u = elim (time_after_eq clock (base u.timer).timer_clk) [
    | true ↦ do u' ← tick fuel u; run_ticks rounds fuel clock u'
    | false ↦ ok u
  ]

  unfoldable pub run_timers : ℕ → ℕ → ℕ → S → Run (Updated S)
  unfolding run_ticks
  run_timers rounds fuel clock s = do
    u ← run_ticks rounds fuel clock (nothing s)
    ok (record u { timer = with_base (record (base u.timer) { running_timer = none }) u.timer })
