-- ===== src/TimerList/Cascade.antt =====
-- src/timer_list.cpp, cascade and the start of a tick of run_timers.
use timer_benchmarks.Common.{
  ℕ, zero, suc, ◌+◌, ◌%◌, ◌≤◌, ◌<◌, ◌≡◌, refl, true, false, List, [], Returns, value, Ends-map,
  Ends-bind, Ends-if, ◌==◌, arith, subst, ltb, ap, ◌∙◌,
}
use timer_benchmarks.Timer.{int64_max}
use timer_benchmarks.ListImpl.{follow}
use timer_benchmarks.ListImpl.Ring.{Ring}
use timer_benchmarks.ListImpl.Replace.{list_replace_init-Ring}
use timer_benchmarks.TimerList.{TvecBase, cascade, cascade_loop}
use timer_benchmarks.TimerList.Ticks.{cascade_timers, begin_tick, index_at}
use timer_benchmarks.TimerList.Wheel.{Wheel, Wheel-clock}
use timer_benchmarks.TimerList.Collect.{cascaded, new_head, collect-Wheel, move_home, move_list}

-- the base holds the same lists, and is at the same tick with the same timers as `b`
pub record Same (b : TvecBase) (lists : ℕ → List ℕ) (home : ℕ → ℕ) (b' : TvecBase) : Type 0 where
  pub wheel : Wheel 512 b' lists home
  pub clock : b'.timer_clk ≡ b.timer_clk
  pub timers : b'.timers ≡ b.timers

module _ {lists : ℕ → List ℕ} {home : ℕ → ℕ} (fuel : ℕ) where
  pub cascade-empty :
      (b : TvecBase) (tv index : ℕ)
      → Wheel 512 b lists home
      → tv + index < 512
      → lists (tv + index) ≡ []
      → Returns (λ r. (r.0 ≡ index) × Same b lists home r.1) (cascade (suc fuel) tv index b)
  unfolding cascade cascade_loop follow
  cascade-empty b tv index w hl empty =
      Ends-bind
        (list_replace_init-Ring b.entries (tv + index) (lists (tv + index)) 513
          (w.rings (tv + index) hl) (new_head (tv + index) w hl 513 (omega arith) (omega arith))
          (omega arith))
        λ h r.
          let on_stack = subst (Ring h 513) empty r.0 in
          rw (on_stack.chain.0) (
            value (
              refl,
              record {
                wheel = cascaded (tv + index) w hl empty h r.1 r.2;
                clock = refl;
                timers = refl;
              },
            ))

  module _ (b : TvecBase) (empty : (l : ℕ) → 256 ≤ l → l < 512 → lists l ≡ []) where
    cascade-again :
        (b1 : TvecBase) (tv index : ℕ)
        → Same b lists home b1
        → 256 ≤ tv
        → tv + index < 512
        → Returns (λ r. Same b lists home r.1) (cascade (suc fuel) tv index b1)
    cascade-again b1 tv index s low high =
        Ends-map (cascade-empty b1 tv index s.wheel high (empty (tv + index) (omega arith) high))
          λ r t. record {
            wheel = t.1.wheel;
            clock = t.1.clock ∙ s.clock;
            timers = t.1.timers ∙ s.timers;
          }

    cascades-empty :
        (index : ℕ)
        → Wheel 512 b lists home
        → Returns (Same b lists home) (cascade_timers (suc fuel) index b)
    unfolding cascade_timers
    cascades-empty index w =
        let start : Same b lists home b = record { wheel = w; clock = refl; timers = refl } in
        Ends-if (index == 0)
          (λ _.
            Ends-bind
              (cascade-again b 256 (index_at 8 b.timer_clk) start (omega arith) (omega arith))
              λ r0 s0.
                Ends-if (r0.0 == 0)
                  (λ _.
                    Ends-bind
                      (cascade-again r0.1 320 (index_at 14 r0.1.timer_clk) s0 (omega arith)
                        (omega arith))
                      λ r1 s1.
                        Ends-if (r1.0 == 0)
                          (λ _.
                            Ends-bind
                              (cascade-again r1.1 384 (index_at 20 r1.1.timer_clk) s1 (omega arith)
                                (omega arith))
                              λ r2 s2.
                                Ends-if (r2.0 == 0)
                                  (λ _.
                                    Ends-bind
                                      (cascade-again r2.1 448 (index_at 26 r2.1.timer_clk) s2
                                        (omega arith) (omega arith))
                                      λ r3 s3. value s3)
                                  (λ _. value s2))
                          (λ _. value s1))
                  (λ _. value s0))
          (λ _. value start)

  -- the cascades of a tick at whose boundary the upper vectors are empty
  pub cascade_timers-Same :
      (b : TvecBase) (index : ℕ)
      → Wheel 512 b lists home
      → (index ≡ 0 → (l : ℕ) → 256 ≤ l → l < 512 → lists l ≡ [])
      → Returns (Same b lists home) (cascade_timers (suc fuel) index b)
  unfolding cascade_timers
  cascade_timers-Same b zero w empty = cascades-empty b (empty refl) 0 w
  cascade_timers-Same b (suc index) w empty =
      let later : (suc index == 0) ≡ false = ground arith in
      rw later (value (record { wheel = w; clock = refl; timers = refl }))

-- what the start of a tick leaves: the list of the slot is the work list, the clock is one on
pub record Begun (b : TvecBase) (lists : ℕ → List ℕ) (home : ℕ → ℕ) (b' : TvecBase) : Type 0 where
  pub wheel : let i = b.timer_clk % 256 in Wheel 513 b' (move_list i lists) (move_home i home)
  pub clock : b'.timer_clk ≡ b.timer_clk + 1
  pub timers : b'.timers ≡ b.timers

pub begin_tick-Begun :
    {b : TvecBase} {lists : ℕ → List ℕ} {home : ℕ → ℕ} (fuel : ℕ)
    → Wheel 512 b lists home
    → (b.timer_clk % 256 ≡ 0 → (l : ℕ) → 256 ≤ l → l < 512 → lists l ≡ [])
    → b.timer_clk < int64_max
    → Returns (Begun b lists home) (begin_tick (suc fuel) b)
unfolding begin_tick
begin_tick-Begun {b} fuel w empty room =
    Ends-bind (cascade_timers-Same fuel b (b.timer_clk % 256) w empty) λ b1 s.
      let fits : ltb b1.timer_clk int64_max ≡ true = ground (arith, s.clock) in
      rw fits (
        Ends-bind (collect-Wheel (b.timer_clk % 256) s.wheel (omega arith)) λ h r. value (record {
          wheel = Wheel-clock b1.running_timer (b1.timer_clk + 1) r;
          clock = ap (λ (t : ℕ). t + 1) s.clock;
          timers = s.timers;
        }))
