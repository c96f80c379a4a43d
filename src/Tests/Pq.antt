-- ===== src/Tests/Pq.antt =====
-- Runs of src/PriorityQueueTimer.cpp, where the nodes' addresses rise with their ids.
use timer_benchmarks.Common.{
  ℕ, ◌+◌, ◌*◌, ◌≡◌, refl, [], ◌∷◌, ok, Returns, Returns-at, Ends, Mem, arith, Each-nil, Each-cons,
}
use timer_benchmarks.Timer.{next_id, expiry}
use timer_benchmarks.Timer.Action.{Action, run, finish, start_timer, cancel_timer, IsQuiet-prop}
use timer_benchmarks.Timer.Contract.{AllQuiet, IsStartFault}
use timer_benchmarks.Timer.Ids.{select, remove, put}
use timer_benchmarks.PqHeap.{TimerNode, siftup}
use timer_benchmarks.PqTimer.{PriorityQueueTimer, create, start, update, pending}
use timer_benchmarks.PqTimer.Valid.{IsValid}
use timer_benchmarks.PqTimer.Calls.{pq_start_accepts}
use timer_benchmarks.PqTimer.Tick.{PqDrained, pq_update_drains}
use timer_benchmarks.PqTimer.Order.{two_then_update, update_misses}
use timer_benchmarks.Session.Schedulers.{pq_create-IsValid}

abbrev job : Action
job = run finish

-- sixteen bytes for a node
abbrev addr : ℕ → ℕ
addr id = 4096 + 16 * id

abbrev node : ℕ → ℕ → ℕ → Action → TimerNode
node index id deadline action = record {
  index = index;
  id = id;
  deadline = deadline;
  action = action;
}

abbrev one : PriorityQueueTimer
one = record { next_id = 2021; timers = node 0 2020 110 job ∷ []; ref = 2020 ∷ [] }

abbrev two : PriorityQueueTimer
two = record {
  next_id = 2022;
  timers = node 0 2020 110 job ∷ node 1 2021 105 job ∷ [];
  ref = 2021 ∷ 2020 ∷ [];
}

create_start : start addr 100 10 job create ≡ ok (2020, one)
unfolding create start next_id expiry siftup put remove select
create_start = refl

one_start : start addr 100 5 job one ≡ ok (2021, two)
unfolding start next_id expiry siftup put remove select
one_start = refl

one-IsValid : IsValid one
unfolding create
one-IsValid =
    (Returns-at
      (pq_start_accepts addr create 100 10 job pq_create-IsValid (omega arith) (omega arith))
      create_start).valid

two-IsValid : IsValid two
two-IsValid =
    (Returns-at (pq_start_accepts addr one 100 5 job one-IsValid (omega arith) (omega arith))
      one_start).valid

two-AllQuiet : AllQuiet (pending two)
two-AllQuiet =
    Each-cons (λ e. IsQuiet-prop e.action) tt
      (Each-cons (λ e. IsQuiet-prop e.action) tt (Each-nil _))

-- an action that starts a timer, and cancels another one
abbrev busy_job : Action
busy_job = run (start_timer 150 0 job (cancel_timer 2020 finish))

abbrev busy : PriorityQueueTimer
busy = record { next_id = 2021; timers = node 0 2020 110 busy_job ∷ []; ref = 2020 ∷ [] }

busy_start : start addr 100 10 busy_job create ≡ ok (2020, busy)
unfolding create start next_id expiry siftup put remove select
busy_start = refl

busy-IsValid : IsValid busy
unfolding create
busy-IsValid =
    (Returns-at
      (pq_start_accepts addr create 100 10 busy_job pq_create-IsValid (omega arith) (omega arith))
      busy_start).valid

pq_update_drains_example : Ends IsStartFault (PqDrained 150 2021 2021) (update addr 150 busy)
pq_update_drains_example = pq_update_drains addr 150 busy busy-IsValid

update_misses_example :
    Returns
      (λ r.
        (r.fired ≡ 0)
        × (r.calls ≡ [])
        × Mem (record { id = 2021; deadline = 105; action = job }) (pending r.timer))
      (two_then_update addr 100 10 100 5 job job 107)
update_misses_example =
    update_misses addr 100 10 100 5 107 job job (omega arith) (omega arith) (omega arith)
      (omega arith)
