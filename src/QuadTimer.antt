-- ===== src/QuadTimer.antt =====
-- src/QuadHeapTimer.h and src/QuadHeapTimer.cpp: the scheduler over the 4-ary heap, which cancels
-- lazily. `ref` holds the keys of `ref_`; the node that the map has for an id is the node with
-- that id in `timers`. The clock's reading is an argument.
pub mod Valid
pub mod Calls
pub mod Tick
pub mod Quiet
pub mod Size
use timer_benchmarks.Common.{
  ℕ, zero, suc, ◌+◌, ◌≡◌, List, [], ◌∷◌, ◌++◌, map, Bool, true, false, not, Run, ok, out_of_fuel,
  ◌>>=◌, ltb, ◌==◌, if◌then◌else◌, length,
}
use timer_benchmarks.Timer.{next_id, expiry, first_id}
use timer_benchmarks.Timer.Action.{Action, Entry, Updated, nothing, invoke}
use timer_benchmarks.Timer.Ids.{select, contains, remove, put}
use timer_benchmarks.QuadHeap.{TimerNode, siftup, deltimer0}

pub record QuadHeapTimer : Type 0 where
  pub next_id : ℕ
  pub timers : List TimerNode
  pub ref : List ℕ

-- the constructor
unfoldable pub create : QuadHeapTimer
create = record { next_id = first_id; timers = []; ref = [] }

-- the destructor's clear(): the ids of the nodes that it frees, and the scheduler after it
unfoldable pub clear : QuadHeapTimer → List ℕ × QuadHeapTimer
clear q = (q.ref, record q { timers = []; ref = [] })

unfoldable pub size : QuadHeapTimer → ℕ
size q = length q.timers

unfoldable pub start : ℕ → ℕ → Action → QuadHeapTimer → Run (ℕ × QuadHeapTimer)
start clock duration action q = do
  (id, counter) ← next_id q.next_id
  expire ← expiry clock duration
  let node : TimerNode = record { id = id; deleted = false; deadline = expire; action = action }
  (timers, _) ← siftup (q.timers ++ node ∷ []) (length q.timers)
  ok (id, record { next_id = counter; timers = timers; ref = put id q.ref })

-- `iter->second->deleted = 1`
unfoldable pub mark_deleted : ℕ → TimerNode → TimerNode
mark_deleted id node = if node.id == id then record node { deleted = true } else node

unfoldable pub cancel : ℕ → QuadHeapTimer → Run (Bool × QuadHeapTimer)
unfolding mark_deleted contains remove
cancel id q =
    if contains id q.ref
    then ok (true, record q { timers = map (mark_deleted id) q.timers; ref = remove id q.ref })
    else ok (false, q)

-- a node as the scheduler's user knows it
abbrev pub entry : TimerNode → Entry
entry node = record { id = node.id; deadline = node.deadline; action = node.action }

-- the `while` of Update; `max_id` is the counter when Update began
pub update_loop : ℕ → ℕ → ℕ → QuadHeapTimer → Run (Updated QuadHeapTimer)
update_loop zero now max_id q = out_of_fuel
update_loop (suc fuel) now max_id q = elim q.timers [
  | [] ↦ ok (nothing q)
  | node ∷ _ ↦
      let drop : Run (Updated QuadHeapTimer) = do
        timers ← deltimer0 q.timers
        update_loop fuel now max_id (record q { timers = timers; ref = remove node.id q.ref })
      in let fire : Run (Updated QuadHeapTimer) = do
        timers ← deltimer0 q.timers
        q' ←
            invoke start cancel node.action
              (record q { timers = timers; ref = remove node.id q.ref })
        r ← update_loop fuel now max_id q'
        ok (record r { fired = r.fired + 1; calls = entry node ∷ r.calls })
        in if ltb now node.deadline
          then ok (nothing q)
          else if ltb max_id node.id
          then ok (nothing q)
          else if node.deleted
          then drop
          else fire
]

-- A round removes a node whose id is at most `max_id`, and at most one such node is added.
unfoldable pub update : ℕ → QuadHeapTimer → Run (Updated QuadHeapTimer)
unfolding update_loop
update now q =
    if length q.timers == 0
    then ok (nothing q)
    else update_loop (length q.timers + 2) now q.next_id q

-- the nodes that are not cancelled, and the timers that a user waits for
abbrev pub live : List TimerNode → List TimerNode
live = select (λ node. not node.deleted)

abbrev pub pending : QuadHeapTimer → List Entry
pending q = map entry (live q.timers)
