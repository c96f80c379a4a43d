-- ===== src/QuadHeap/Order.antt =====
-- The heap order of the 4-ary heap of src/QuadHeapTimer.cpp.
use native.Mathlib.Bridge.{le_prop}
use timer_benchmarks.Common.{
  ℕ, zero, suc, ◌+◌, ◌*◌, ◌≤◌, ◌<◌, ◌≡◌, ◌⊎◌, List, Perm, Each, Each-of-get_or, length, arith, set,
  get_or-set, length-set, if◌then◌else◌, ◌==◌,
}
use timer_benchmarks.QuadHeap.{TimerNode, blank, node_at, key, parent}

-- no node expires before its parent
abbrev pub IsHeap : List TimerNode → Type 0
IsHeap timers = (c : ℕ) → 0 < c → c < length timers → key timers (parent c) ≤ key timers c

-- no child of `i` expires before the parent of `i`
abbrev pub IsBridged : List TimerNode → ℕ → Type 0
IsBridged timers i =
    (c : ℕ)
    → 0 < c
    → c < length timers
    → parent c ≡ i
    → 0 < i
    → key timers (parent i) ≤ key timers c

-- every node has a positive deadline, as the CHECKs of the sift routines demand
abbrev pub IsPositive : List TimerNode → Type 0
IsPositive timers = Each (λ x. 0 < x.deadline) timers

-- `b` is a heap of the nodes of `a`
abbrev pub Heaped : List TimerNode → List TimerNode → Type 0
Heaped a b = IsHeap b × Perm b a

pub key-set :
    (a : List TimerNode) (i c : ℕ) (x : TimerNode)
    → i < length a
    → key (set a i x) c ≡ (if i == c then x.deadline else key a c)
key-set a i c x h = ground (arith, get_or-set a i c x blank)

-- the keys once the hole at `i` has taken the node at `j` and moved there
pub key-move :
    (a : List TimerNode) (i j c : ℕ) (x : TimerNode)
    → i < length a
    → j < length a
    → key (set (set a i (node_at a j)) j x) c
      ≡ (if j == c then x.deadline else if i == c then key a j else key a c)
key-move a i j c x hi hj = ground (
  arith,
  key-set (set a i (node_at a j)) j c x,
  key-set a i c (node_at a j),
  length-set a i (node_at a j),
)

-- the four children of a node
pub child_cases :
    (c i : ℕ)
    → 0 < c
    → parent c ≡ i
    → (c ≡ i * 4 + 1) ⊎ ((c ≡ i * 4 + 1 + 1) ⊎ ((c ≡ i * 4 + 3) ⊎ (c ≡ i * 4 + 3 + 1)))
child_cases c i p e = omega arith

root_earliest_below :
    (fuel : ℕ) (timers : List TimerNode) (i : ℕ)
    → IsHeap timers
    → i < fuel
    → i < length timers
    → key timers 0 ≤ key timers i
root_earliest_below zero timers i h f p = absurd (omega arith)
root_earliest_below (suc fuel) timers i h f p =
    ground (arith, h i, root_earliest_below fuel timers (parent i) h)

pub root_earliest :
    (timers : List TimerNode) → IsHeap timers → Each (λ x. key timers 0 ≤ x.deadline) timers
root_earliest timers h =
    Each-of-get_or timers blank (λ x. le_prop)
      λ i p. root_earliest_below (suc i) timers i h (omega arith) p
