-- ===== src/PqTimer.antt =====
-- src/PriorityQueueTimer.h and src/PriorityQueueTimer.cpp: the scheduler over the binary heap.
-- `ref` holds the keys of `ref_`; the node that the map has for an id is the node with that id in
-- `timers`, which lives as long as it stands there. `addr` gives the addresses of the nodes.
pub mod Valid
pub mod Calls
pub mod Tick
pub mod Quiet
pub mod Order
use timer_benchmarks.Common.{
  ℕ, zero, suc, ◌+◌, List, [], ◌∷◌, ◌++◌, Bool, true, false, Option, none, some, Run, ok,
  out_of_fuel, out_of_range, from_option, ◌>>=◌, ltb, ◌==◌, if◌then◌else◌, length,
}
use timer_benchmarks.Timer.{next_id, expiry, first_id}
use timer_benchmarks.Timer.Action.{Action, Entry, Updated, nothing, invoke}
use timer_benchmarks.Timer.Ids.{contains, remove, put}
use timer_benchmarks.PqHeap.{TimerNode, entry, entries, siftup, remove_timer}

pub record PriorityQueueTimer : Type 0 where
  pub next_id : ℕ
  pub timers : List TimerNode
  pub ref : List ℕ

-- the constructor
unfoldable pub create : PriorityQueueTimer
create = record { next_id = first_id; timers = []; ref = [] }

-- the destructor's clear(): the ids of the nodes that it frees, and the scheduler after it
unfoldable pub clear : PriorityQueueTimer → List ℕ × PriorityQueueTimer
clear q = (q.ref, record q { timers = []; ref = [] })

unfoldable pub size : PriorityQueueTimer → ℕ
size q = length q.timers

-- the node that a pointer of `ref_` refers to
unfoldable pub find_node : ℕ → List TimerNode → Option TimerNode
find_node id [] = none
find_node id (x ∷ a) = if x.id == id then some x else find_node id a

abbrev pub pending : PriorityQueueTimer → List Entry
pending q = entries q.timers

module _ (addr : ℕ → ℕ) where
  unfoldable pub start : ℕ → ℕ → Action → PriorityQueueTimer → Run (ℕ × PriorityQueueTimer)
  unfolding put
  start clock duration action q = do
    (id, counter) ← next_id q.next_id
    expire ← expiry clock duration
    let i = length q.timers
    let node : TimerNode = record { index = i; id = id; deadline = expire; action = action }
    timers ← siftup addr (q.timers ++ node ∷ []) i
    ok (id, record { next_id = counter; timers = timers; ref = put id q.ref })

  unfoldable pub cancel : ℕ → PriorityQueueTimer → Run (Bool × PriorityQueueTimer)
  unfolding contains find_node remove
  cancel id q =
      let erase : Run (Bool × PriorityQueueTimer) = do
        node ← from_option out_of_range (find_node id q.timers)
        timers ← remove_timer addr q.timers node.index
        ok (true, record q { timers = timers; ref = remove id q.ref })
      in if contains id q.ref then erase else ok (false, q)

  -- the `while` of Update; `max_id` is the counter when Update began
  pub update_loop : ℕ → ℕ → ℕ → PriorityQueueTimer → Run (Updated PriorityQueueTimer)
  update_loop zero now max_id q = out_of_fuel
  update_loop (suc fuel) now max_id q = elim q.timers [
    | [] ↦ ok (nothing q)
    | node ∷ _ ↦
        let fire : Run (Updated PriorityQueueTimer) = do
          timers ← remove_timer addr q.timers 0
          q' ←
              invoke start cancel node.action
                (record q { timers = timers; ref = remove node.id q.ref })
          r ← update_loop fuel now max_id q'
          ok (record r { fired = r.fired + 1; calls = entry node ∷ r.calls })
        in if ltb now node.deadline
          then ok (nothing q)
          else if ltb max_id node.id
          then ok (nothing q)
          else fire
  ]

  -- A round removes a node whose id is at most `max_id`, and at most one such node is added.
  unfoldable pub update : ℕ → PriorityQueueTimer → Run (Updated PriorityQueueTimer)
  unfolding update_loop
  update now q =
      if length q.timers == 0
      then ok (nothing q)
      else update_loop (length q.timers + 2) now q.next_id q
