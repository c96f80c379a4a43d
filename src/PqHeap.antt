-- ===== src/PqHeap.antt =====
-- src/PriorityQueueTimer.cpp, the heap routines. A node stands in the vector itself, where the
-- source has a pointer to it; `addr` gives the address that `new` returned for the node of an id.
-- The source compares the pointers themselves in two places, and so does the model. The vector
-- stays so short that an index fits an `int`.
pub mod Swap
pub mod Sift
pub mod Remove
use timer_benchmarks.Common.{
  ℕ, zero, suc, ◌+◌, ◌-◌, ◌*◌, ◌/◌, ◌<◌, ◌≡◌, List, ◌∷◌, [], map, Bool, true, false, not, ◌||◌, Run,
  ok, fault, out_of_fuel, out_of_range, from_option, ◌>>=◌, Option, ltb, leb, ◌==◌, if◌then◌else◌,
  length, get_elem?, get_or, set, pop_back, get_elem?-get_or,
}
use timer_benchmarks.Timer.Action.{Action, null, Entry}

pub record TimerNode : Type 0 where
  pub index : ℕ
  pub id : ℕ
  pub deadline : ℕ
  pub action : Action

-- TimerNode::lessThan
unfoldable pub less_than : TimerNode → TimerNode → Bool
less_than a b = if a.deadline == b.deadline then ltb b.id a.id else ltb a.deadline b.deadline

-- what stands where there is no node; no result depends on it
abbrev pub blank : TimerNode
blank = record { index = 0; id = 0; deadline = 0; action = null }

abbrev pub node_at : List TimerNode → ℕ → TimerNode
node_at timers i = get_or timers i blank

-- a node as the scheduler's user knows it
abbrev pub entry : TimerNode → Entry
entry x = record { id = x.id; deadline = x.deadline; action = x.action }

abbrev pub entries : List TimerNode → List Entry
entries = map entry

-- `timers[i]`
pub load : List TimerNode → ℕ → Run TimerNode
load timers i = from_option out_of_range (get_elem? timers i)

-- `std::swap(timers[i], timers[j])` and the two new indices
pub swap : List TimerNode → ℕ → ℕ → Run (List TimerNode)
swap timers i j = do
  a ← load timers i
  b ← load timers j
  ok (set (set timers i (record b { index = i })) j (record a { index = j }))

-- `std::swap(timers[i], timers[n])` and the new index of the first
pub swap_last : List TimerNode → ℕ → ℕ → Run (List TimerNode)
swap_last timers i n = do
  a ← load timers i
  b ← load timers n
  ok (set (set timers i (record b { index = i })) n a)

abbrev pub parent : ℕ → ℕ
parent j = (j - 1) / 2

module _ (addr : ℕ → ℕ) where
  -- `a < b` on pointers
  pub below : TimerNode → TimerNode → Bool
  below a b = ltb (addr a.id) (addr b.id)

  -- the child that the loop of siftdownTimer compares: the one at the lower address
  pub pick_child : List TimerNode → ℕ → ℕ → Run ℕ
  pick_child timers n i =
      let j1 = 2 * i + 1 in
      let j2 = j1 + 1 in
      if ltb j2 n
      then (do a ← load timers j1; b ← load timers j2; ok (if below a b then j1 else j2))
      else ok j1

  -- the `for` of siftdownTimer
  pub siftdown_loop : ℕ → List TimerNode → ℕ → ℕ → Run (List TimerNode × ℕ)
  siftdown_loop zero timers n i = out_of_fuel
  siftdown_loop (suc fuel) timers n i =
      let step : Run (List TimerNode × ℕ) = do
        j ← pick_child timers n i
        a ← load timers j
        b ← load timers i
        let sink = swap timers i j >>= λ moved. siftdown_loop fuel moved n j
        if less_than a b then sink else ok (timers, i)
      in if leb n (2 * i + 1) then ok (timers, i) else step

  -- siftdownTimer: the vector, and whether the node moved
  unfoldable pub siftdown : List TimerNode → ℕ → ℕ → Run (List TimerNode × Bool)
  unfolding siftdown_loop pick_child below swap load less_than
  siftdown timers x n = do (moved, i) ← siftdown_loop (n + 1) timers n x; ok (moved, ltb x i)

  -- the `for` of siftupTimer
  pub siftup_loop : ℕ → List TimerNode → ℕ → Run (List TimerNode)
  siftup_loop zero timers j = out_of_fuel
  siftup_loop (suc fuel) timers j =
      let i = parent j in
      let step : Run (List TimerNode) = do
        a ← load timers j
        b ← load timers i
        let rise = swap timers i j >>= λ moved. siftup_loop fuel moved i
        if below a b then rise else ok timers
      in if i == j then ok timers else step

  unfoldable pub siftup : List TimerNode → ℕ → Run (List TimerNode)
  unfolding siftup_loop below swap load
  siftup timers j = siftup_loop (j + 1) timers j

  -- removeTimer
  unfoldable pub remove_timer : List TimerNode → ℕ → Run (List TimerNode)
  unfolding swap_last load
  remove_timer timers i =
      let n = length timers - 1 in
      let rebalance : Run (List TimerNode) = do
        swapped ← swap_last timers i n
        (sunk, moved) ← siftdown swapped i n
        raised ← if moved then ok sunk else siftup sunk i
        ok (pop_back raised)
      in if length timers == 0
        then fault out_of_range
        else if i == n
        then ok (pop_back timers)
        else rebalance

pub load-ok :
    (timers : List TimerNode) (i : ℕ) → i < length timers → load timers i ≡ ok (node_at timers i)
unfolding load
load-ok timers i h = rw (get_elem?-get_or timers i blank h)
