-- ===== src/Tests/Quad.antt =====
-- Runs of src/QuadHeapTimer.cpp on three timers, one of them cancelled.
use timer_benchmarks.Common.{
  Fault, overflow, out_of_range, null_pointer, ℕ, ◌≡◌, refl, List, [], ◌∷◌, Bool, true, false, ok,
  check_failed, Returns, Returns-at, Ends, arith, Each-nil, Each-cons, ◌>>=◌,
}
use timer_benchmarks.Timer.{next_id, expiry}
use timer_benchmarks.Timer.Action.{
  Action, run, finish, start_timer, cancel_timer, IsQuiet-prop, invoke, perform,
}
use timer_benchmarks.Timer.Contract.{AllQuiet}
use timer_benchmarks.Timer.Allows.{allows, IsAllowed}
use timer_benchmarks.Timer.Ids.{select, contains, remove, put}
use timer_benchmarks.QuadHeap.{TimerNode, siftup, siftdown, deltimer0}
use timer_benchmarks.QuadHeap.Order.{Heaped}
use timer_benchmarks.QuadHeap.Up.{siftup_restores}
use timer_benchmarks.QuadHeap.Down.{siftdown_restores}
use timer_benchmarks.QuadTimer.Tick.{AllAllowed, QuadDrained, quad_update_drains}
use timer_benchmarks.QuadTimer.Quiet.{QuadEmptied, update_empties}
use timer_benchmarks.QuadTimer.{QuadHeapTimer, create, start, cancel, update, mark_deleted, pending}
use timer_benchmarks.QuadTimer.Valid.{IsValid}
use timer_benchmarks.QuadTimer.Calls.{
  quad_start_accepts, quad_cancel_removes, quad_start_decides, Refused, Accepted,
}
use timer_benchmarks.Session.Schedulers.{quad_create-IsValid}

abbrev job : Action
job = run finish

abbrev node : ℕ → Bool → ℕ → TimerNode
node id deleted deadline = record { id = id; deleted = deleted; deadline = deadline; action = job }

abbrev one : QuadHeapTimer
one = record { next_id = 2021; timers = node 2020 false 110 ∷ []; ref = 2020 ∷ [] }

abbrev two : QuadHeapTimer
two = record {
  next_id = 2022;
  timers = node 2021 false 105 ∷ node 2020 false 110 ∷ [];
  ref = 2021 ∷ 2020 ∷ [];
}

abbrev two_marked : QuadHeapTimer
two_marked = record {
  next_id = 2022;
  timers = node 2021 true 105 ∷ node 2020 false 110 ∷ [];
  ref = 2020 ∷ [];
}

create_start : start 100 10 job create ≡ ok (2020, one)
unfolding create start siftup next_id expiry put remove select
create_start = refl

one_start : start 100 5 job one ≡ ok (2021, two)
unfolding start siftup next_id expiry put remove select
one_start = refl

two_cancel : cancel 2021 two ≡ ok (true, two_marked)
unfolding cancel mark_deleted remove select contains
two_cancel = refl

one-IsValid : IsValid one
unfolding create
one-IsValid =
    (Returns-at
      (quad_start_accepts create 100 10 job quad_create-IsValid (omega arith) (omega arith)
        (omega arith))
      create_start).valid

two-IsValid : IsValid two
two-IsValid =
    (Returns-at
      (quad_start_accepts one 100 5 job one-IsValid (omega arith) (omega arith) (omega arith))
      one_start).valid

two_marked-IsValid : IsValid two_marked
two_marked-IsValid = (Returns-at (quad_cancel_removes 2021 two two-IsValid) two_cancel).valid

quad_start_decides_example :
    Ends (Refused one 0 0 job one-IsValid) (Accepted one 0 0 job one-IsValid) (start 0 0 job one)
quad_start_decides_example = quad_start_decides one 0 0 job one-IsValid

-- a root that expires later than its children
abbrev sunk : List TimerNode
sunk = node 2020 false 200 ∷ node 2021 false 110 ∷ node 2022 false 105 ∷ []

siftdown_restores_example : Returns (Heaped sunk) (siftdown sunk 0)
siftdown_restores_example = siftdown_restores sunk 0 (omega arith) (omega arith) (record {
  edges = λ c pos inside other. absurd (other (omega arith));
  bridged = λ c pos inside e below. absurd (omega arith);
})

-- a last node that expires earlier than its parent
abbrev risen : List TimerNode
risen = node 2020 false 110 ∷ node 2021 false 105 ∷ []

siftup_restores_example : Returns (λ r. Heaped risen r.0) (siftup risen 1)
siftup_restores_example = siftup_restores risen 1 (omega arith) (record {
  inside = omega arith;
  edges = λ c other inside pos. absurd (other (omega arith));
  bridged = λ c pos inside e below. absurd (omega arith);
})

two_marked-AllQuiet : AllQuiet (pending two_marked)
unfolding select
two_marked-AllQuiet = Each-cons (λ e. IsQuiet-prop e.action) tt (Each-nil _)

update_empties_example : Returns (QuadEmptied 150 2022 (pending two_marked)) (update 150 two_marked)
update_empties_example = update_empties 150 two_marked two_marked-IsValid two_marked-AllQuiet

-- an action that starts a timer, and cancels that timer
abbrev busy_job : Action
busy_job = run (start_timer 150 0 job (cancel_timer 2020 finish))

abbrev busy : QuadHeapTimer
busy = record {
  next_id = 2021;
  timers = record { id = 2020; deleted = false; deadline = 110; action = busy_job } ∷ [];
  ref = 2020 ∷ [];
}

busy_start : start 100 10 busy_job create ≡ ok (2020, busy)
unfolding create start siftup next_id expiry put remove select
busy_start = refl

busy-IsValid : IsValid busy
unfolding create
busy-IsValid =
    (Returns-at
      (quad_start_accepts create 100 10 busy_job quad_create-IsValid (omega arith) (omega arith)
        (omega arith))
      busy_start).valid

-- the action's Start is not for the deadline 0
abbrev overflow_only : Fault → Bool
overflow_only overflow = true
overflow_only check_failed = false
overflow_only out_of_range = false
overflow_only null_pointer = false

busy-AllAllowed : AllAllowed overflow_only (pending busy)
unfolding select allows
busy-AllAllowed = Each-cons (λ e. hlevel) refl (Each-nil _)

quad_update_drains_example :
    Ends (IsAllowed overflow_only) (QuadDrained 150 2021 2021) (update 150 busy)
quad_update_drains_example = quad_update_drains overflow_only 150 busy busy-IsValid busy-AllAllowed

-- The timer that the action starts is called in the same Update.
busy_update : (update 150 busy >>= λ r. ok r.fired) ≡ ok 2
unfolding update invoke perform start cancel siftup deltimer0 next_id expiry put remove select
    contains
busy_update = refl
