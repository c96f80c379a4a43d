-- ===== src/TimerList/Boundary.antt =====
-- src/timer_list.cpp, cascade and the start of a tick of run_timers, where they return: no timer has
-- come down.
use timer_benchmarks.Common.{
  ℕ, suc, ◌+◌, ◌%◌, ◌<◌, ◌≡◌, refl, List, [], ◌∷◌, IfOk, returns, faults, IfOk-bind, IfOk-map,
  IfOk-if, Ends-IfOk, ◌==◌, arith, ltb, ap, ◌∙◌, Bool-cases, inl, inr,
}
use timer_benchmarks.Timer.{int64_max}
use timer_benchmarks.TimerList.{TvecBase, cascade}
use timer_benchmarks.TimerList.Ticks.{cascade_timers, begin_tick, index_at}
use timer_benchmarks.TimerList.Wheel.{Wheel, Wheel-clock}
use timer_benchmarks.TimerList.Collect.{collect-Wheel}
use timer_benchmarks.TimerList.Cascade.{Same, Begun, cascade-empty}
use timer_benchmarks.TimerList.Stuck.{cascade-Stuck}

module _ {lists : ℕ → List ℕ} {home : ℕ → ℕ} (fuel : ℕ) where
  -- a cascade that returns has found its list empty
  cascade-Same :
      (b : TvecBase) (tv index : ℕ)
      → Wheel 512 b lists home
      → tv + index < 512
      → IfOk (λ r. Same b lists home r.1) (cascade (suc fuel) tv index b)
  cascade-Same b tv index w hl = by_list (lists (tv + index)) refl
    where
      by_list :
          (xs : List ℕ)
          → lists (tv + index) ≡ xs
          → IfOk (λ r. Same b lists home r.1) (cascade (suc fuel) tv index b)
      by_list [] e = IfOk-map (Ends-IfOk (cascade-empty fuel b tv index w hl e)) λ r s. s.1
      by_list (x ∷ xs) e =
          IfOk-map (cascade-Stuck (suc fuel) tv index w hl (λ q. ground arith))
            λ r stuck. absurd stuck

  module _ (b : TvecBase) where
    cascade-still :
        (b1 : TvecBase) (tv index : ℕ)
        → Same b lists home b1
        → tv + index < 512
        → IfOk (λ r. Same b lists home r.1) (cascade (suc fuel) tv index b1)
    cascade-still b1 tv index s hl =
        IfOk-map (cascade-Same b1 tv index s.wheel hl)
          λ r t. record { wheel = t.wheel; clock = t.clock ∙ s.clock; timers = t.timers ∙ s.timers }

    cascades-Same :
        (index : ℕ)
        → Wheel 512 b lists home
        → IfOk (Same b lists home) (cascade_timers (suc fuel) index b)
    unfolding cascade_timers
    cascades-Same index w =
        let start : Same b lists home b = record { wheel = w; clock = refl; timers = refl } in
        IfOk-if (index == 0)
          (IfOk-bind (cascade-still b 256 (index_at 8 b.timer_clk) start (omega arith)) λ r0 s0.
            IfOk-if (r0.0 == 0)
              (IfOk-bind (cascade-still r0.1 320 (index_at 14 r0.1.timer_clk) s0 (omega arith))
                λ r1 s1.
                  IfOk-if (r1.0 == 0)
                    (IfOk-bind
                      (cascade-still r1.1 384 (index_at 20 r1.1.timer_clk) s1 (omega arith))
                      λ r2 s2.
                        IfOk-if (r2.0 == 0)
                          (IfOk-bind
                            (cascade-still r2.1 448 (index_at 26 r2.1.timer_clk) s2 (omega arith))
                            λ r3 s3. returns s3)
                          (returns s2))
                    (returns s1))
              (returns s0))
          (returns start)

pub begin_tick-returns :
    {b : TvecBase} {lists : ℕ → List ℕ} {home : ℕ → ℕ} (fuel : ℕ)
    → Wheel 512 b lists home
    → IfOk (Begun b lists home) (begin_tick (suc fuel) b)
unfolding begin_tick
begin_tick-returns {b} fuel w = IfOk-bind (cascades-Same fuel b (b.timer_clk % 256) w) λ b1 s.
    elim (Bool-cases (ltb b1.timer_clk int64_max)) [
      | inr e ↦ rw e faults
      | inl e ↦ rw e (
          IfOk-bind (Ends-IfOk (collect-Wheel (b.timer_clk % 256) s.wheel (omega arith))) λ h r.
            returns (record {
              wheel = Wheel-clock b1.running_timer (b1.timer_clk + 1) r;
              clock = ap (λ (t : ℕ). t + 1) s.clock;
              timers = s.timers;
            }))
    ]
