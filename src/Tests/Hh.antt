-- ===== src/Tests/Hh.antt =====
-- Runs of src/HHWheelTimer.cpp on a new wheel with one timer.
use timer_benchmarks.Common.{
  out_of_range, ℕ, ◌+◌, ◌≤◌, ◌<◌, ◌≡◌, refl, List, [], ◌∷◌, map, Mem, Run, ok, fault, out_of_fuel,
  overflow, true, Ends, Returns, Ends-IfOk, IfOk-at, length, arith, sym, subst, ◌>>=◌, some,
}
use timer_benchmarks.Timer.Action.{Action, run, finish, Updated, nothing}
use timer_benchmarks.Timer.{next_id, expiry}
use timer_benchmarks.Timer.Assoc.{find, assign}
use timer_benchmarks.TimerList.{init_timers, mod_timer}
use timer_benchmarks.TimerList.Modify.{del_and_add, mod_timer-del_and_add}
use timer_benchmarks.TimerList.Stuck.{Stuck}
use timer_benchmarks.HhTimer.{HhWheelTimer, address, create, start, cancel, update}
use timer_benchmarks.HhTimer.Valid.{IsValid, HhStarted, start-HhStarted}
use timer_benchmarks.HhTimer.Create.{create-IsValid}
use timer_benchmarks.HhTimer.Calls.{HhCancelled, cancel-HhCancelled}
use timer_benchmarks.HhTimer.Expire.{AllQuiet}
use timer_benchmarks.HhTimer.Rounds.{Rounds, update-Rounds}
use timer_benchmarks.HhTimer.Deadlines.{OnTime}
use timer_benchmarks.HhTimer.OnTime.{CalledOnTime, update_fires-OnTime}
use timer_benchmarks.HhTimer.Long.{long_timer_stops_update}
use timer_benchmarks.HhTimer.Started.{
  started_lists, started_home, as_started, started_quiet, started_OnTime, started_upper,
  started_enough,
}
use timer_benchmarks.HhTimer.Sequence.{start_cancel_restores, start_update_calls, late_start_waits}

abbrev no_lists : ℕ → List ℕ
no_lists l = []

abbrev no_home : ℕ → ℕ
no_home x = 514

abbrev quiet_action : Action
quiet_action = run finish

new_quiet : AllQuiet (create 1000) no_home
new_quiet j hj = absurd (hj refl)

start-HhStarted_example :
    Ends
      (λ e. e ≡ overflow)
      (HhStarted 1000 5 quiet_action (create 1000) no_lists no_home)
      (start 1000 5 quiet_action (create 1000))
start-HhStarted_example =
    start-HhStarted 1000 5 quiet_action (create 1000) no_lists no_home (create-IsValid 1000)

start_cancel_restores_example :
    Ends
      (λ e. e ≡ overflow)
      (λ r.
        (r.0 ≡ true) × IsValid 512 r.1 no_lists no_home × (r.1.next_id ≡ (create 1000).next_id + 1))
      (start 1000 5 quiet_action (create 1000) >>= λ s. cancel s.0 s.1)
start_cancel_restores_example =
    start_cancel_restores 1000 5 quiet_action (create 1000) no_lists no_home (create-IsValid 1000)

start_update_calls_example :
    Ends
      (λ e. e ≡ overflow)
      (λ (q : ℕ × Updated HhWheelTimer). Mem (as_started q.0 1005 quiet_action) q.1.calls)
      (start 1000 5 quiet_action (create 1000) >>= λ r. update 20 2 1010 r.1 >>= λ u. ok (r.0, u))
unfolding create init_timers
start_update_calls_example =
    start_update_calls 1000 5 quiet_action (create 1000) no_lists no_home (create-IsValid 1000)
      (λ l low high. refl) new_quiet tt (omega arith) 20 1 1010 (λ l hl. omega arith) (omega arith)
      (omega arith) (λ l hl. tt) (omega arith) (omega arith)

-- the wheel was made at 1000; after a step back of the clock a timer for 990 waits till 1246
late_start_waits_example :
    Ends
      (λ e. e ≡ overflow)
      (λ (q : ℕ × Updated HhWheelTimer). find q.0 q.1.timer.ref ≡ some (address q.0))
      (start 985 5 quiet_action (create 1000) >>= λ r. update 300 2 1245 r.1 >>= λ u. ok (r.0, u))
unfolding create init_timers
late_start_waits_example =
    late_start_waits 985 5 quiet_action (create 1000) no_lists no_home (create-IsValid 1000)
      (λ l low high. refl) new_quiet tt (omega arith) 300 1 1245 (λ l hl. omega arith) (omega arith)
      (omega arith) (omega arith) (omega arith) (omega arith)

long_timer_stops_update_example :
    Stuck (start 1000 300 quiet_action (create 1000) >>= λ r. update 400 2 1300 r.1)
unfolding create init_timers
long_timer_stops_update_example =
    long_timer_stops_update 400 1 1300 1000 300 quiet_action (create 1000) no_lists no_home
      (create-IsValid 1000) (λ l hl. omega arith) new_quiet tt (omega arith) (omega arith)
      (omega arith)

-- a new wheel with one timer
abbrev result_of : Run (ℕ × HhWheelTimer) → HhWheelTimer
result_of (ok r) = r.1
result_of (fault e) = create 0
result_of out_of_fuel = create 0

abbrev one : HhWheelTimer
one = result_of (start 1000 5 quiet_action (create 1000))

one_started : start 1000 5 quiet_action (create 1000) ≡ ok (2020, one)
unfolding start create next_id expiry
one_started = refl

one-HhStarted : HhStarted 1000 5 quiet_action (create 1000) no_lists no_home (2020, one)
one-HhStarted = IfOk-at (Ends-IfOk start-HhStarted_example) one_started

mod_timer-del_and_add_example : mod_timer 2535 1010 one.base ≡ del_and_add 2535 1010 one.base
unfolding start create next_id expiry
mod_timer-del_and_add_example =
    mod_timer-del_and_add 2535 2020 1005 1010 one.base refl (λ on q. omega (arith, q))

abbrev one_lists : ℕ → List ℕ
one_lists = started_lists (create 1000) 1005 no_lists

abbrev one_home : ℕ → ℕ
one_home = started_home (create 1000) 1005 no_home

one-IsValid : IsValid 512 one one_lists one_home
one-IsValid = one-HhStarted.valid

one_clock : one.base.timer_clk ≡ 1000
unfolding create init_timers
one_clock = one-HhStarted.base_clock

cancel-HhCancelled_example : Returns (HhCancelled 512 2020 one one_lists one_home) (cancel 2020 one)
cancel-HhCancelled_example = cancel-HhCancelled 2020 one-IsValid (omega arith)

one_upper : (l : ℕ) → 256 ≤ l → l < 512 → one_lists l ≡ []
unfolding create init_timers
one_upper =
    started_upper 1000 5 quiet_action (create 1000) no_lists no_home (create-IsValid 1000)
      (2020, one) one-HhStarted (λ l low high. refl) (omega arith)

one_short : (l : ℕ) → l < 256 → length (one_lists l) ≤ 1
one_short =
    started_enough 1000 5 quiet_action (create 1000) no_lists no_home (create-IsValid 1000)
      (2020, one) one-HhStarted 1 (λ l hl. omega arith)

one_quiet : AllQuiet one one_home
one_quiet =
    started_quiet 1000 5 quiet_action (create 1000) no_lists no_home (create-IsValid 1000)
      (2020, one) one-HhStarted tt new_quiet

one-OnTime : OnTime one one.base.timer_clk one_lists
unfolding create init_timers
one-OnTime =
    subst (λ c. OnTime one c one_lists) (sym one_clock)
      (started_OnTime 1000 5 quiet_action (create 1000) no_lists no_home (create-IsValid 1000)
        (2020, one) one-HhStarted (λ l hl. tt) (omega arith) (omega arith))

update-Rounds_example : Returns (Rounds 11 one_lists one_home (nothing one)) (update 20 2 1010 one)
update-Rounds_example =
    update-Rounds 11 20 1 1010 one one_lists one_home one-IsValid one_upper one_short (omega arith)
      one_quiet (omega (arith, one_clock)) (omega arith)

update_fires-OnTime_example : Returns (CalledOnTime 1010 one one_home) (update 20 2 1010 one)
update_fires-OnTime_example =
    update_fires-OnTime 20 1 1010 one one_lists one_home one-IsValid one_upper one-OnTime one_quiet
      one_short (omega (arith, one_clock)) (omega arith) (omega (arith, one_clock))

-- three timers, and the order in which Update calls them
abbrev three_calls : Run (ℕ × List ℕ)
three_calls = do
  (_, t1) ← start 1000 3 quiet_action (create 1000)
  (_, t2) ← start 1000 1 quiet_action t1
  (_, t3) ← start 1000 1 quiet_action t2
  u ← update 10 5 1003 t3
  ok (u.fired, map (λ e. e.id) u.calls)

three_calls_test : three_calls ≡ ok (3, 2021 ∷ 2022 ∷ 2020 ∷ [])
unfolding start create update next_id expiry find assign
three_calls_test = refl

-- the timer's list comes down at 1280, and the list head on the stack is read as a timer
long_timer_faults_at_1280 :
    (start 1270 260 quiet_action (create 1270) >>= λ r. update 20 3 1290 r.1) ≡ fault out_of_range
unfolding start create update next_id expiry
long_timer_faults_at_1280 = refl
