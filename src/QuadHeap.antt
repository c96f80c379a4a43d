-- ===== src/QuadHeap.antt =====
-- src/QuadHeapTimer.cpp, the heap routines: a vector of timer nodes as a 4-ary heap.
-- A node stands in the vector itself, where the source has a pointer to it: every node in the
-- vector has an id of its own, and ids stand for addresses. The vector stays so short that an
-- index fits an `int`.
pub mod Order
pub mod Up
pub mod Down
pub mod Remove
pub mod Unused
use timer_benchmarks.Common.{
  ℕ, zero, suc, ◌+◌, ◌-◌, ◌*◌, ◌/◌, ◌<◌, ◌≡◌, List, ◌∷◌, Bool, false, Run, ok, fault, out_of_fuel,
  out_of_range, check_failed, require, from_option, ◌>>=◌, ◌>>◌, ltb, leb, ◌==◌, if◌then◌else◌,
  length, get_elem?, get_or, set, pop_back, get_elem?-get_or,
}
use timer_benchmarks.Timer.Action.{Action, null}

pub record TimerNode : Type 0 where
  pub id : ℕ
  pub deleted : Bool
  pub deadline : ℕ
  pub action : Action

-- a node with the values that the member initialisers give
abbrev pub blank : TimerNode
blank = record { id = 0; deleted = false; deadline = 0; action = null }

abbrev pub node_at : List TimerNode → ℕ → TimerNode
node_at timers i = get_or timers i blank

abbrev pub key : List TimerNode → ℕ → ℕ
key timers i = (node_at timers i).deadline

-- `timers[i]`
pub load : List TimerNode → ℕ → Run TimerNode
load timers i = from_option out_of_range (get_elem? timers i)

abbrev pub parent : ℕ → ℕ
parent i = (i - 1) / 4

-- the `while` of siftupTimer: the hole at `i` rises past the parents that expire later
pub siftup_loop : ℕ → ℕ → List TimerNode → ℕ → Run (List TimerNode × ℕ)
siftup_loop zero when timers i = out_of_fuel
siftup_loop (suc fuel) when timers i =
    let step : Run (List TimerNode × ℕ) = do
      above ← load timers (parent i)
      let rise = siftup_loop fuel when (set timers i above) (parent i)
      if leb above.deadline when then ok (timers, i) else rise
    in if ltb 0 i then step else ok (timers, i)

-- siftupTimer. Its last test only spares a write of the node over itself.
unfoldable pub siftup : List TimerNode → ℕ → Run (List TimerNode × ℕ)
unfolding siftup_loop load
siftup timers i = do
  require (ltb i (length timers)) check_failed
  tmp ← load timers i
  require (ltb 0 tmp.deadline) check_failed
  (moved, j) ← siftup_loop (i + 1) tmp.deadline timers i
  ok (set moved j tmp, j)

-- the earlier of the deadlines at `c` and `c + 1`, with its index; the second may be past the end
pub earlier : List TimerNode → ℕ → ℕ → Run (ℕ × ℕ)
earlier timers n c = do
  left ← load timers c
  if ltb (c + 1) n
      then (do
        right ← load timers (c + 1)
        ok (
            if ltb right.deadline left.deadline
            then (right.deadline, c + 1)
            else (left.deadline, c)))
      else ok (left.deadline, c)

-- the earliest child of `i`, whose first child exists: `w` and `c` of the source
pub earliest_child : List TimerNode → ℕ → ℕ → Run (ℕ × ℕ)
earliest_child timers n i = do
  (w, c) ← earlier timers n (i * 4 + 1)
  if ltb (i * 4 + 3) n
      then (do (w3, c3) ← earlier timers n (i * 4 + 3); ok (if ltb w3 w then (w3, c3) else (w, c)))
      else ok (w, c)

-- the `while` of siftdownTimer: the hole at `i` sinks past the children that expire earlier
pub siftdown_loop : ℕ → ℕ → List TimerNode → ℕ → ℕ → Run (List TimerNode × ℕ)
siftdown_loop zero when timers n i = out_of_fuel
siftdown_loop (suc fuel) when timers n i =
    let step : Run (List TimerNode × ℕ) = do
      (w, c) ← earliest_child timers n i
      below ← load timers c
      let sink = siftdown_loop fuel when (set timers i below) n c
      if leb when w then ok (timers, i) else sink
    in if leb n (i * 4 + 1) then ok (timers, i) else step

unfoldable pub siftdown : List TimerNode → ℕ → Run (List TimerNode)
unfolding siftdown_loop earliest_child earlier load
siftdown timers i = do
  require (ltb i (length timers)) check_failed
  tmp ← load timers i
  require (ltb 0 tmp.deadline) check_failed
  (moved, j) ← siftdown_loop (length timers + 1) tmp.deadline timers (length timers) i
  ok (set moved j tmp)

-- deltimer0. The null that it writes to the last place is dropped at once by `pop_back`.
unfoldable pub deltimer0 : List TimerNode → Run (List TimerNode)
deltimer0 timers =
    let last = length timers - 1 in
    if length timers == 0
    then fault out_of_range
    else if ltb 0 last
    then (do node ← load timers last; siftdown (pop_back (set timers 0 node)) 0)
    else ok (pop_back timers)

-- deltimer, which nothing calls: the vector, and the smallest changed index. It overwrites the root.
unfoldable pub deltimer : List TimerNode → ℕ → Run (List TimerNode × ℕ)
deltimer timers i =
    let last = length timers - 1 in
    if length timers == 0 then fault out_of_range else do
      node ← load timers last
      let cut = pop_back (if ltb 0 last then set timers 0 node else timers)
      if i == last then ok (cut, i) else (do
        (raised, smallest_changed) ← siftup cut i
        sunk ← siftdown raised i
        ok (sunk, smallest_changed))

pub load-ok :
    (timers : List TimerNode) (i : ℕ) → i < length timers → load timers i ≡ ok (node_at timers i)
unfolding load
load-ok timers i h = rw (get_elem?-get_or timers i blank h)
