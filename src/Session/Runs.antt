-- ===== src/Session/Runs.antt =====
-- Sessions with new schedulers of src/QuadHeapTimer.cpp, src/RBTreeTimer.cpp and
-- src/PriorityQueueTimer.cpp.
use mathlib.Core.List.Perm
use timer_benchmarks.Common.{ℕ, ◌+◌, ◌≤◌, List, [], Each-nil, Returns, Ends-map, length}
use timer_benchmarks.Timer.{int_max, first_id}
use timer_benchmarks.Timer.Action.{Entry}
use timer_benchmarks.QuadTimer
use timer_benchmarks.QuadTimer.{QuadHeapTimer}
use timer_benchmarks.RbTimer
use timer_benchmarks.RbTimer.{RbTreeTimer}
use timer_benchmarks.PqTimer
use timer_benchmarks.PqTimer.{PriorityQueueTimer}
use timer_benchmarks.Timer.Ids.{select}
use timer_benchmarks.Session.{Call, Answer, AllTame, Follows, run_calls}
use timer_benchmarks.Session.Refines.{session_refines}
use timer_benchmarks.Session.Agree.{IsPrompt, AllSame, sessions_agree}
use timer_benchmarks.Session.Schedulers.{
  quad_scheduler, quad_contract, quad_create-IsValid, rb_scheduler, rb_contract, rb_create-IsValid,
  pq_scheduler, pq_contract, pq_create-IsValid, Anything,
}

-- what a run of the calls on a new scheduler comes to
abbrev pub AfterCalls :
    (ℕ → List Entry → List Entry → Type 0)
    → {S : Type 0} → (S → ℕ)
    → (S → List Entry)
    → List Call
    → List Answer × S
    → Type 0
AfterCalls Left counter pending calls r =
    Follows Left first_id [] calls r.0 (counter r.1) (pending r.1)

module _ (calls : List Call) (room : first_id + length calls ≤ int_max) (tame : AllTame calls) where
  -- Take any calls of Start, Cancel and Update in which every started action is empty or makes no
  -- call on its scheduler, every deadline is positive and at most the largest `int64_t`, and there
  -- are no more calls than ids left. Made one after another on a new QuadHeapTimer, they return,
  -- and their answers and the timers that are pending after them are those that the relation
  -- `Follows` allows on lists of pending timers: Start gives the next id and adds a timer, Cancel
  -- tells whether the id is pending and takes that timer away, Update calls only due timers, which
  -- leave, and it calls them in the order of their deadlines and leaves none that is due.
  pub quad_scheduler-Follows :
      Returns
        (AfterCalls IsPrompt QuadTimer.Calls.counter QuadTimer.pending calls)
        (run_calls quad_scheduler calls QuadTimer.create)
  unfolding QuadTimer.create select
  quad_scheduler-Follows =
      Ends-map
        (session_refines quad_scheduler IsPrompt quad_contract calls QuadTimer.create
          quad_create-IsValid (Each-nil _) room tame)
        λ r f. f.1

  -- Take any calls of Start, Cancel and Update in which every started action is empty or makes no
  -- call on its scheduler, every deadline is positive and at most the largest `int64_t`, and there
  -- are no more calls than ids left. Made one after another on a new RBTreeTimer, they return, and
  -- their answers and the timers that are pending after them are those that the relation `Follows`
  -- allows on lists of pending timers: Start gives the next id and adds a timer, Cancel tells
  -- whether the id is pending and takes that timer away, Update calls only due timers, which leave,
  -- and it calls them in the order of their deadlines and leaves none that is due.
  pub rb_scheduler-Follows :
      Returns
        (AfterCalls IsPrompt RbTimer.Calls.counter RbTimer.pending calls)
        (run_calls rb_scheduler calls RbTimer.create)
  unfolding RbTimer.create
  rb_scheduler-Follows =
      Ends-map
        (session_refines rb_scheduler IsPrompt rb_contract calls RbTimer.create rb_create-IsValid
          (Each-nil _) room tame)
        λ r f. f.1

  -- For any addresses of the nodes. Take any calls of Start, Cancel and Update in which every
  -- started action is empty or makes no call on its scheduler, every deadline is positive and at
  -- most the largest `int64_t`, and there are no more calls than ids left. Made one after another
  -- on a new PriorityQueueTimer, they return, and their answers and the timers that are pending
  -- after them are those that the relation `Follows` allows on lists of pending timers: Start gives
  -- the next id and adds a timer, Cancel tells whether the id is pending and takes that timer away,
  -- Update calls only due timers, which leave, and the others stay; it may leave timers that are
  -- due.
  pub pq_scheduler-Follows :
      (addr : ℕ → ℕ)
      → Returns
          (AfterCalls Anything PqTimer.Calls.counter PqTimer.pending calls)
          (run_calls (pq_scheduler addr) calls PqTimer.create)
  unfolding PqTimer.create
  pq_scheduler-Follows addr =
      Ends-map
        (session_refines (pq_scheduler addr) Anything (pq_contract addr) calls PqTimer.create
          pq_create-IsValid (Each-nil _) room tame)
        λ r f. f.1

  -- Take any calls of Start, Cancel and Update in which every started action is empty or makes no
  -- call on its scheduler, every deadline is positive and at most the largest `int64_t`, and there
  -- are no more calls than ids left. Made one after another on a new QuadHeapTimer and on a new
  -- RBTreeTimer, they return on both and give the same answers: the same ids from Start, the same
  -- results of Cancel, and from each Update the same timers, up to their order.
  pub quad_rb_agree :
      Returns
        (λ a. Returns (λ b. AllSame a.0 b.0) (run_calls rb_scheduler calls RbTimer.create))
        (run_calls quad_scheduler calls QuadTimer.create)
  quad_rb_agree =
      Ends-map quad_scheduler-Follows
        λ a f. Ends-map rb_scheduler-Follows λ b g. (sessions_agree Perm.rfl f g).0
