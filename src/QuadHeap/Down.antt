-- ===== src/QuadHeap/Down.antt =====
-- siftdownTimer of src/QuadHeapTimer.cpp.
use mathlib.Core.List.Perm
use timer_benchmarks.Common.{
  ℕ, zero, suc, ◌+◌, ◌-◌, ◌*◌, ◌≤◌, ◌<◌, ◌≡◌, ◌≢◌, ◌⊎◌, refl, sym, List, Perm, arith, leb, ltb,
  lt→ltb, length, length-set, set, set-get_or, move-perm, Returns, value, Ends-bind, Ends-if,
  Ends-map, inl, inr, Bool-cases,
}
use timer_benchmarks.QuadHeap.{
  TimerNode, blank, node_at, key, parent, earlier, earliest_child, siftdown_loop, siftdown, load-ok,
}
use timer_benchmarks.QuadHeap.Order.{IsHeap, IsBridged, Heaped, key-set, key-move, child_cases}

-- only the edges below `i` may be out of order
pub record DownInv (a : List TimerNode) (i : ℕ) : Type 0 where
  pub edges : (c : ℕ) → 0 < c → c < length a → parent c ≢ i → key a (parent c) ≤ key a c
  pub bridged : IsBridged a i

-- the earlier of two neighbours, with its deadline
record IsEarlier (a : List TimerNode) (c : ℕ) (r : ℕ × ℕ) : Type 0 where
  inside : r.1 < length a
  deadline : r.0 ≡ key a r.1
  place : (r.1 ≡ c) ⊎ (r.1 ≡ c + 1)
  first : r.0 ≤ key a c
  second : c + 1 < length a → r.0 ≤ key a (c + 1)

record IsEarliestChild (a : List TimerNode) (i : ℕ) (r : ℕ × ℕ) : Type 0 where
  inside : r.1 < length a
  deadline : r.0 ≡ key a r.1
  above : parent r.1 ≡ i
  positive : 0 < r.1
  least : (c : ℕ) → 0 < c → c < length a → parent c ≡ i → r.0 ≤ key a c

earlier-IsEarlier :
    (a : List TimerNode) (c : ℕ) → c < length a → Returns (IsEarlier a c) (earlier a (length a) c)
unfolding earlier
earlier-IsEarlier a c h = rw (load-ok a c h) (
    Ends-if (ltb (c + 1) (length a))
      (λ more. rw (load-ok a (c + 1) (ground arith)) (value (ground arith)))
      (λ last. value (ground arith)))

least_of_pair :
    (a : List TimerNode) (i : ℕ) (r : ℕ × ℕ)
    → IsEarlier a (i * 4 + 1) r
    → length a ≤ i * 4 + 3
    → (c : ℕ) → 0 < c
    → c < length a
    → parent c ≡ i
    → r.0 ≤ key a c
least_of_pair a i r p short c q t e = ground (arith, child_cases c i q e, p.second)

least_of_pairs :
    (a : List TimerNode) (i w : ℕ) (r r3 : ℕ × ℕ)
    → IsEarlier a (i * 4 + 1) r
    → IsEarlier a (i * 4 + 3) r3
    → w ≤ r.0
    → w ≤ r3.0
    → (c : ℕ) → 0 < c
    → c < length a
    → parent c ≡ i
    → w ≤ key a c
least_of_pairs a i w r r3 p p3 l l3 c q t e =
    ground (arith, child_cases c i q e, p.second, p3.second)

earliest_child-IsEarliestChild :
    (a : List TimerNode) (i : ℕ)
    → i * 4 + 1 < length a
    → Returns (IsEarliestChild a i) (earliest_child a (length a) i)
unfolding earliest_child
earliest_child-IsEarliestChild a i h = Ends-bind (earlier-IsEarlier a (i * 4 + 1) h) λ r p.
    Ends-if (ltb (i * 4 + 3) (length a))
      (λ more. Ends-bind (earlier-IsEarlier a (i * 4 + 3) (ground arith)) λ r3 p3.
        value (elim (Bool-cases (ltb r3.0 r.0)) [
          | inl e ↦ rw e (record {
            inside = p3.inside;
            deadline = p3.deadline;
            above = omega arith;
            positive = omega arith;
            least = least_of_pairs a i r3.0 r r3 p p3 (ground arith) (omega arith);
          })
          | inr e ↦ rw e (record {
            inside = p.inside;
            deadline = p.deadline;
            above = omega arith;
            positive = omega arith;
            least = least_of_pairs a i r.0 r r3 p p3 (omega arith) (ground arith);
          })
        ]))
      (λ none. value (record {
        inside = p.inside;
        deadline = p.deadline;
        above = omega arith;
        positive = omega arith;
        least = least_of_pair a i r p (ground arith);
      }))

sink-DownInv :
    (a : List TimerNode) (i : ℕ) (tmp : TimerNode) (r : ℕ × ℕ)
    → i < length a
    → DownInv (set a i tmp) i
    → IsEarliestChild a i r
    → r.0 < tmp.deadline
    → DownInv (set (set a i (node_at a r.1)) r.1 tmp) r.1
sink-DownInv a i tmp r hi v m early =
    let j = r.1 in
    let size = length-set a i tmp in
    let size' = length-set (set a i (node_at a j)) j tmp in
    let size'' = length-set a i (node_at a j) in
    let at = λ (c : ℕ). key-set a i c tmp hi in
    let at' = λ (c : ℕ). key-move a i j c tmp hi m.inside in
    record {
      edges = λ c q t n. ground (
        arith,
        size,
        size',
        size'',
        at c,
        at (parent c),
        at j,
        at' c,
        at' (parent c),
        v.edges c,
        v.bridged j,
        m.least c,
      );
      bridged = λ c q t e u.
          ground (arith, size, size', size'', at c, at j, at' c, at' (parent j), v.edges c);
    }

-- The loop returns the vector and a place in it; the node put there completes the heap.
abbrev Sunk : List TimerNode → TimerNode → List TimerNode × ℕ → Type 0
Sunk a tmp r = IsHeap (set r.0 r.1 tmp) × Perm (set r.0 r.1 tmp) a

siftdown_loop_restores :
    (fuel : ℕ) (a : List TimerNode) (n i : ℕ) (tmp : TimerNode)
    → n ≡ length a
    → n - i < fuel
    → i < n
    → DownInv (set a i tmp) i
    → Returns (Sunk (set a i tmp) tmp) (siftdown_loop fuel tmp.deadline a n i)
unfolding siftdown_loop
siftdown_loop_restores zero a n i tmp en f hi v = absurd (omega arith)
siftdown_loop_restores (suc fuel) a n i tmp en f hi v = rw en (
    Ends-if (leb (length a) (i * 4 + 1))
      (λ leaf. value ((λ c q r. ground (arith, length-set a i tmp, v.edges c)), Perm.rfl))
      (λ inner. Ends-bind (earliest_child-IsEarliestChild a i (ground arith)) λ r m.
        rw (load-ok a r.1 m.inside) (
          Ends-if (leb tmp.deadline r.0)
            (λ settled. value (
              (λ c q t. ground (
                arith,
                length-set a i tmp,
                key-set a i c tmp (omega arith),
                key-set a i (parent c) tmp (omega arith),
                v.edges c,
                m.least c,
              )),
              Perm.rfl,
            ))
            (λ early.
              let down = sink-DownInv a i tmp r (omega arith) v m (ground arith) in
              Ends-map
                (siftdown_loop_restores fuel (set a i (node_at a r.1)) (length a) r.1 tmp
                  (sym (length-set a i (node_at a r.1))) (omega arith) m.inside down)
                λ b t. (
                  t.0,
                  Perm.trans t.1 (move-perm a i r.1 tmp blank (omega arith) m.inside (omega arith)),
                )))))

-- siftdownTimer at an index in the vector whose deadline is positive, where only the edges below
-- that index may break the heap order and its parent is no later than its children: it returns, and
-- the vector is a 4-ary heap of the same nodes.
pub siftdown_restores :
    (a : List TimerNode) (i : ℕ)
    → i < length a
    → 0 < key a i
    → DownInv a i
    → Returns (Heaped a) (siftdown a i)
unfolding siftdown
siftdown_restores a i hi pos v =
    let same = set-get_or a i blank in
    rw (lt→ltb i (length a) hi, load-ok a i hi, lt→ltb 0 (key a i) pos)
      (Ends-bind
        (siftdown_loop_restores (length a + 1) a (length a) i (node_at a i) refl (omega arith) hi
          (rw same v))
        λ r t. value (rw same at t))
