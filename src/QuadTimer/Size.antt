-- ===== src/QuadTimer/Size.antt =====
-- Size and clear of src/QuadHeapTimer.h and src/QuadHeapTimer.cpp, with cancelled nodes in the heap.
use timer_benchmarks.Common.{◌+◌, ◌≡◌, refl, List, [], ◌∷◌, arith, length, length-map, length-perm}
use timer_benchmarks.Timer.Ids.{select}
use timer_benchmarks.QuadHeap.{TimerNode}
use timer_benchmarks.QuadTimer.{QuadHeapTimer, size, clear, live, pending, entry}
use timer_benchmarks.QuadTimer.Valid.{IsValid}

-- the cancelled nodes that Update has not reached yet
abbrev pub cancelled : QuadHeapTimer → List TimerNode
cancelled q = select (λ node. node.deleted) q.timers

split_length :
    (a : List TimerNode) → length a ≡ length (live a) + length (select (λ node. node.deleted) a)
unfolding select
split_length [] = refl
split_length (x ∷ a) = ground (arith, split_length a)

-- QuadHeapTimer::Size counts the pending timers and the cancelled ones that are still in the heap.
pub size_counts : (q : QuadHeapTimer) → size q ≡ length (pending q) + length (cancelled q)
unfolding size
size_counts q = omega (arith, split_length q.timers, length-map entry (live q.timers))

-- With the invariant, clear of QuadHeapTimer frees as many nodes as the heap has less the cancelled
-- ones that are still in it: those are never freed.
pub clear_leaks :
    (q : QuadHeapTimer) → IsValid q → size q ≡ length (clear q).0 + length (cancelled q)
unfolding size clear
clear_leaks q v = omega (
  arith,
  split_length q.timers,
  length-perm v.refs,
  length-map (λ (x : TimerNode). x.id) (live q.timers),
)
