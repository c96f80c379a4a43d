-- ===== src/QuadHeap/Unused.antt =====
-- deltimer of src/QuadHeapTimer.cpp, which nothing calls.
use timer_benchmarks.Common.{
  ◌≡◌, refl, ap, List, [], ◌∷◌, ◌++◌, false, true, arith, length, length-append, get_or-append_last,
  ok, ltb, ◌==◌, pop_back, ◌-◌,
}
use timer_benchmarks.QuadHeap.{TimerNode, blank, deltimer, load-ok, node_at}

pop_back-append : (a : List TimerNode) (z : TimerNode) → pop_back (a ++ z ∷ []) ≡ a
pop_back-append [] z = refl
pop_back-append (x ∷ []) z = refl
pop_back-append (x ∷ y ∷ a) z = ap (◌∷◌ x) (pop_back-append (y ∷ a) z)

-- deltimer at the last index of a vector with two or more nodes does not remove the last node: it
-- puts that node in the place of the root, which is lost.
pub deltimer_drops_root :
    (x : TimerNode) (a : List TimerNode) (z : TimerNode)
    → deltimer (x ∷ (a ++ z ∷ [])) (length (x ∷ a)) ≡ ok (z ∷ a, length (x ∷ a))
unfolding deltimer
deltimer_drops_root x a z =
    let i = length (x ∷ a) in
    let timers = x ∷ (a ++ z ∷ []) in
    let size = length-append a (z ∷ []) in
    let last : length timers - 1 ≡ i = omega (arith, size) in
    let filled : (length timers == 0) ≡ false = ground arith in
    let same : (i == i) ≡ true = ground arith in
    let several : ltb 0 i ≡ true = ground arith in
    let found : node_at timers i ≡ z = get_or-append_last (x ∷ a) z blank in
    rw
      (
        last,
        load-ok timers i (omega (arith, size)),
        found,
        filled,
        same,
        several,
        pop_back-append (z ∷ a) z,
      )
      refl
