-- ===== src/Tests/Rb.antt =====
-- Runs of src/RBTreeTimer.cpp on two timers with one deadline.
use timer_benchmarks.Common.{
  ℕ, ◌≡◌, refl, [], ◌∷◌, Run, ok, Returns, Returns-at, Ends, arith, Each-nil, Each-cons, ◌>>=◌,
  length,
}
use timer_benchmarks.Timer.{next_id, expiry}
use timer_benchmarks.Timer.Action.{
  Action, null, run, finish, start_timer, cancel_timer, IsQuiet-prop, Updated, invoke,
}
use timer_benchmarks.Timer.Contract.{AllQuiet, IsStartFault}
use timer_benchmarks.Timer.Ids.{select}
use timer_benchmarks.Timer.Assoc.{erase, assign}
use timer_benchmarks.RbTimer.{
  NodeKey, less, insert, erase_key, RbTreeTimer, create, start, update, pending,
}
use timer_benchmarks.RbTimer.Valid.{IsValid}
use timer_benchmarks.RbTimer.Calls.{rb_start_accepts}
use timer_benchmarks.RbTimer.Tick.{RbDrained, rb_update_drains}
use timer_benchmarks.RbTimer.Quiet.{RbEmptied, Splits, IsLifo, update-Splits, update-IsLifo}
use timer_benchmarks.Session.Schedulers.{rb_create-IsValid}

abbrev job : Action
job = run finish

abbrev key : ℕ → ℕ → NodeKey
key id deadline = record { id = id; deadline = deadline }

abbrev one : RbTreeTimer
one = record { next_id = 2021; timers = (key 2020 110, job) ∷ []; ref = (2020, key 2020 110) ∷ [] }

abbrev two : RbTreeTimer
two = record {
  next_id = 2022;
  timers = (key 2021 110, job) ∷ (key 2020 110, job) ∷ [];
  ref = (2021, key 2021 110) ∷ (2020, key 2020 110) ∷ [];
}

create_start : start 100 10 job create ≡ ok (2020, one)
unfolding create start next_id expiry insert assign erase select
create_start = refl

one_start : start 100 10 job one ≡ ok (2021, two)
unfolding start next_id expiry insert assign erase select less
one_start = refl

one-IsValid : IsValid one
unfolding create
one-IsValid =
    (Returns-at (rb_start_accepts create 100 10 job rb_create-IsValid (omega arith) (omega arith))
      create_start).valid

two-IsValid : IsValid two
two-IsValid =
    (Returns-at (rb_start_accepts one 100 10 job one-IsValid (omega arith) (omega arith))
      one_start).valid

two-AllQuiet : AllQuiet (pending two)
two-AllQuiet =
    Each-cons (λ e. IsQuiet-prop e.action) tt
      (Each-cons (λ e. IsQuiet-prop e.action) tt (Each-nil _))

update-Splits_example :
    Returns (λ r. RbEmptied 150 2022 (pending two) r × Splits (pending two) r) (update 150 two)
update-Splits_example = update-Splits 150 two two-IsValid two-AllQuiet

update-IsLifo_example : Returns (λ r. IsLifo r.calls) (update 150 two)
update-IsLifo_example = update-IsLifo 150 two two-IsValid two-AllQuiet

-- an action that starts a timer, and cancels another one
abbrev busy_job : Action
busy_job = run (start_timer 150 0 job (cancel_timer 2020 finish))

abbrev busy : RbTreeTimer
busy = record {
  next_id = 2021;
  timers = (key 2020 110, busy_job) ∷ [];
  ref = (2020, key 2020 110) ∷ [];
}

busy_start : start 100 10 busy_job create ≡ ok (2020, busy)
unfolding create start next_id expiry insert assign erase select
busy_start = refl

busy-IsValid : IsValid busy
unfolding create
busy-IsValid =
    (Returns-at
      (rb_start_accepts create 100 10 busy_job rb_create-IsValid (omega arith) (omega arith))
      busy_start).valid

rb_update_drains_example : Ends IsStartFault (RbDrained 150 2021 2021) (update 150 busy)
rb_update_drains_example = rb_update_drains 150 busy busy-IsValid

-- An empty action is called, so to speak, but not counted.
abbrev counts : Run (Updated RbTreeTimer) → Run (ℕ × ℕ)
counts r = do u ← r; ok (u.fired, length u.calls)

null_update : counts (update 150 (record one { timers = (key 2020 110, null) ∷ [] })) ≡ ok (0, 1)
unfolding update invoke erase_key less erase select
null_update = refl
