-- ===== src/QuadHeap/Up.antt =====
-- siftupTimer of src/QuadHeapTimer.cpp.
use mathlib.Core.List.Perm
use mathlib.Core.List.{perm_append_singleton}
use timer_benchmarks.Common.{
  ℕ, zero, suc, ◌+◌, ◌≤◌, ◌<◌, ◌≡◌, ◌≢◌, List, arith, leb, ltb, length, length-set, set, set-get_or,
  move-perm, Returns, value, Ends-bind, Ends-if, Ends-map, lt→ltb, Perm, [], ◌∷◌, ◌++◌,
  length-append, get_or-append, get_or-append_last, fault, check_failed,
}
use timer_benchmarks.QuadHeap.{TimerNode, blank, node_at, key, parent, siftup_loop, siftup, load-ok}
use timer_benchmarks.QuadHeap.Order.{IsHeap, IsBridged, Heaped, key-set, key-move}

-- The node at `i` may expire before its parent; all other nodes do not, and the parent of `i` is no
-- later than the children of `i`.
pub record UpInv (timers : List TimerNode) (i : ℕ) : Type 0 where
  pub bridged : IsBridged timers i
  pub edges : (c : ℕ) → c ≢ i → c < length timers → 0 < c → key timers (parent c) ≤ key timers c
  pub inside : i < length timers

module _ (a : List TimerNode) (i : ℕ) (tmp : TimerNode) (hi : i < length a) where
  size : length (set a i tmp) ≡ length a
  size = length-set a i tmp

  rise-UpInv :
      UpInv (set a i tmp) i
      → 0 < i
      → tmp.deadline < key a (parent i)
      → UpInv (set (set a i (node_at a (parent i))) (parent i) tmp) (parent i)
  rise-UpInv v pos late =
      let p = parent i in
      let hp : p < length a = omega arith in
      let size' = length-set (set a i (node_at a p)) p tmp in
      let size'' = length-set a i (node_at a p) in
      let at = λ (c : ℕ). key-set a i c tmp hi in
      let at' = λ (c : ℕ). key-move a i p c tmp hi hp in
      record {
        inside = omega (arith, size', size'');
        edges = λ c n r q. ground (
          arith,
          size,
          size',
          size'',
          at c,
          at p,
          at (parent c),
          at' c,
          at' (parent c),
          v.edges c,
          v.bridged c,
        );
        bridged = λ c q r e t. ground (
          arith,
          size,
          size',
          size'',
          at c,
          at p,
          at (parent p),
          at' c,
          at' (parent p),
          v.edges c,
          v.edges p,
        );
      }

-- The loop returns the vector and a place in it; the node put there completes the heap.
abbrev Raised : List TimerNode → TimerNode → List TimerNode × ℕ → Type 0
Raised a tmp r = (r.1 < length r.0) × IsHeap (set r.0 r.1 tmp) × Perm (set r.0 r.1 tmp) a

siftup_loop_restores :
    (fuel : ℕ) (a : List TimerNode) (i : ℕ) (tmp : TimerNode)
    → i < fuel
    → i < length a
    → UpInv (set a i tmp) i
    → Returns (Raised (set a i tmp) tmp) (siftup_loop fuel tmp.deadline a i)
unfolding siftup_loop
siftup_loop_restores zero a i tmp f hi v = absurd (omega arith)
siftup_loop_restores (suc fuel) a i tmp f hi v =
    let p = parent i in
    let hp : p < length a = omega arith in
    let size = length-set a i tmp in
    rw (load-ok a p hp) (
      Ends-if (ltb 0 i)
        (λ pos.
          Ends-if (leb (key a p) tmp.deadline)
            (λ settled. value (
              hi,
              (λ c q r.
                  ground
                    (arith, size, key-set a i c tmp hi, key-set a i (parent c) tmp hi, v.edges c)),
              Perm.rfl,
            ))
            (λ late.
              let up = rise-UpInv a i tmp hi v (ground arith) (ground arith) in
              Ends-map
                (siftup_loop_restores fuel (set a i (node_at a p)) p tmp (ground arith)
                  (omega (arith, length-set a i (node_at a p))) up)
                λ r t. (t.0, t.1, Perm.trans t.2 (move-perm a i p tmp blank hi hp (ground arith)))))
        (λ root. value (hi, (λ c q r. v.edges c (ground arith) r q), Perm.rfl)))

-- siftupTimer at an index in the vector whose deadline is positive, where only the edge above that
-- index may break the heap order and its parent is no later than its children: it returns, and the
-- vector is a 4-ary heap of the same nodes.
pub siftup_restores :
    (a : List TimerNode) (i : ℕ)
    → 0 < key a i
    → UpInv a i
    → Returns (λ r. Heaped a r.0) (siftup a i)
unfolding siftup
siftup_restores a i pos v =
    let same = set-get_or a i blank in
    rw (lt→ltb i (length a) v.inside, load-ok a i v.inside, lt→ltb 0 (key a i) pos)
      (Ends-bind (siftup_loop_restores (i + 1) a i (node_at a i) (omega arith) v.inside (rw same v))
        λ r t. value (t.1, rw same at t.2))

-- To append a node with a positive deadline and sift it up adds exactly that node to the heap.
pub push_restores :
    (a : List TimerNode) (x : TimerNode)
    → IsHeap a
    → 0 < x.deadline
    → Returns (λ r. Heaped (x ∷ a) r.0) (siftup (a ++ x ∷ []) (length a))
push_restores a x h pos =
    let n = length a in
    let size = length-append a (x ∷ []) in
    let last = get_or-append_last a x blank in
    let old = λ (c : ℕ). get_or-append a (x ∷ []) c blank in
    Ends-map
      (siftup_restores (a ++ x ∷ []) n (rw (key, last) pos) (record {
        inside = omega (arith, size);
        edges = λ c r q p. ground (arith, size, h c, old c, old (parent c));
        bridged = λ c p q e r. absurd (omega (arith, size));
      }))
      λ r t. (t.0, Perm.trans t.1 (perm_append_singleton x a))

-- The CHECK on the deadline: a node with deadline 0 stops the program.
pub push-check_failed :
    (a : List TimerNode) (x : TimerNode)
    → x.deadline ≡ 0
    → siftup (a ++ x ∷ []) (length a) ≡ fault check_failed
unfolding siftup
push-check_failed a x zero_deadline =
    let size = length-append a (x ∷ []) in
    let last = get_or-append_last a x blank in
    let hi : length a < length (a ++ x ∷ []) = omega (arith, size) in
    rw (lt→ltb _ _ hi, load-ok (a ++ x ∷ []) (length a) hi, last, zero_deadline)
