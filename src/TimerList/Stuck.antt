-- ===== src/TimerList/Stuck.antt =====
-- src/timer_list.cpp, cascade: the loop passes over the first timer of the list, and takes the head of
-- the list for a timer after the last.
use timer_benchmarks.Common.{
  ℕ, zero, suc, ◌+◌, ◌%◌, ◌<◌, ◌≡◌, ◌≢◌, inl, inr, refl, false, List, [], ◌∷◌, Option, none, some,
  Run, ok, IfOk, runs_out, faults, returns, IfOk-bind, Ends-IfOk, IfOk-any, Option-cases, ◌>>=◌,
  ◌==◌, arith,
}
use timer_benchmarks.ListImpl.{Memory, follow, list_add_tail}
use timer_benchmarks.ListImpl.Ring.{Ring}
use timer_benchmarks.ListImpl.Replace.{list_replace_init-Ring}
use timer_benchmarks.TimerList.{TvecBase, slot, internal_add_timer, cascade, cascade_loop}
use timer_benchmarks.TimerList.Ticks.{cascade_timers, begin_tick, index_at}
use timer_benchmarks.TimerList.Wheel.{Wheel}
use timer_benchmarks.TimerList.Collect.{new_head}

-- the run does not return
abbrev pub Stuck {ℓ} : {A : Type ℓ} → Run A → Type ℓ
Stuck = IfOk (λ _. ⊥)

internal_add_timer-timers :
    (timer : ℕ) (b : TvecBase)
    → IfOk (λ b'. (b'.timers ≡ b.timers) × (b.timers timer ≢ none)) (internal_add_timer timer b)
unfolding internal_add_timer
internal_add_timer-timers timer b = elim (Option-cases (b.timers timer)) [
  | inl e ↦ rw (e, internal_add_timer) faults
  | inr (info, e) ↦
      rw (e, internal_add_timer)
        (IfOk-bind
          (IfOk-any {P = λ _. Unit {0}} (λ _. tt)
            (list_add_tail timer (slot b.timer_clk info.expires) b.entries))
          λ h _. returns (refl, λ q. ground arith))
]

cascade_loop-Stuck :
    (fuel timer : ℕ) (tmp : Option ℕ) (b : TvecBase)
    → b.timers 513 ≡ none
    → timer ≢ 513
    → Stuck (cascade_loop fuel timer tmp b)
unfolding cascade_loop
cascade_loop-Stuck zero timer tmp b free ne = runs_out
cascade_loop-Stuck (suc fuel) timer tmp b free ne =
    let on : (timer == 513) ≡ false = ground arith in
    rw (on, cascade_loop)
      (IfOk-bind (IfOk-any {P = λ _. Unit {0}} (λ _. tt) (follow tmp)) λ t _.
        IfOk-bind (internal_add_timer-timers t b) λ b' r.
          cascade_loop-Stuck fuel t (b.entries t).next b' (ground (arith, r.0))
            (λ q. r.1 (rw q free)))

pub cascade-Stuck :
    {b : TvecBase} {lists : ℕ → List ℕ} {home : ℕ → ℕ} (fuel tv index : ℕ)
    → Wheel 512 b lists home
    → tv + index < 512
    → lists (tv + index) ≢ []
    → Stuck (cascade fuel tv index b)
unfolding cascade follow
cascade-Stuck {b} {lists} fuel tv index w hl some_timer =
    let l = tv + index in
    IfOk-bind
      (Ends-IfOk (
        list_replace_init-Ring b.entries l (lists l) 513 (w.rings l hl)
          (new_head l w hl 513 (omega arith) (omega arith)) (omega arith)))
      λ h r. walked h (lists l) r.0 some_timer
  where
    walked :
        (h : Memory) (xs : List ℕ)
        → Ring h 513 xs
        → xs ≢ []
        → Stuck {A = ℕ × TvecBase} (
            follow (h 513).next >>= λ timer.
            cascade_loop fuel timer (h timer).next (record b { entries = h }) >>= λ b'.
            ok (index, b'))
    walked h [] r ne = absurd (ne refl)
    walked h (x ∷ xs) r ne =
        let safe : follow (some x) ≡ ok x = ground (arith, r.sound.1.0) in
        rw (r.chain.0.0, safe)
          (IfOk-bind
            (cascade_loop-Stuck fuel x (h x).next (record b { entries = h })
              (w.above 513 (omega arith)) (ground (arith, r.distinct.0.0)))
            λ b' stuck. absurd stuck)

-- the lists that the tick at the clock's reading takes down from the second vector
abbrev pub first_bucket : TvecBase → ℕ
first_bucket b = 256 + index_at 8 b.timer_clk

pub begin_tick-Stuck :
    {b : TvecBase} {lists : ℕ → List ℕ} {home : ℕ → ℕ} (fuel : ℕ)
    → Wheel 512 b lists home
    → b.timer_clk % 256 ≡ 0
    → lists (first_bucket b) ≢ []
    → Stuck (begin_tick fuel b)
unfolding begin_tick cascade_timers
begin_tick-Stuck {b} fuel w boundary long =
    rw (boundary, begin_tick, cascade_timers)
      (IfOk-bind
        (IfOk-bind (cascade-Stuck fuel 256 (index_at 8 b.timer_clk) w (omega arith) long)
          λ r stuck. absurd stuck)
        λ b' stuck. absurd stuck)
