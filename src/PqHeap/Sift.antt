-- ===== src/PqHeap/Sift.antt =====
-- siftdownTimer and siftupTimer of src/PriorityQueueTimer.cpp as rearrangements of the timers.
-- They compare addresses, so nothing is said of deadlines here.
use mathlib.Core.List.Perm
use timer_benchmarks.Common.{
  ℕ, zero, suc, ◌+◌, ◌-◌, ◌*◌, ◌≤◌, ◌<◌, ◌≡◌, ◌≢◌, refl, ◌∙◌, List, Perm, arith, leb, ltb, length,
  Returns, value, Ends-bind, Ends-map, Ends-if, Bool-cases, inl, inr, ◌==◌,
}
use timer_benchmarks.PqHeap.{
  TimerNode, node_at, entries, parent, below, less_than, pick_child, siftdown_loop, siftdown,
  siftup_loop, siftup, load-ok,
}
use timer_benchmarks.PqHeap.Swap.{
  IsIndexed, swapped, swapped-length, swapped-at, swapped-perm, swap-ok,
}

-- `b` has the timers of `a`, records its indices before `n`, and has the node of `a` at `n`
pub record Sifted (n : ℕ) (a b : List TimerNode) : Type 0 where
  pub size : length b ≡ length a
  pub indexed : IsIndexed n b
  pub last : node_at b n ≡ node_at a n
  pub same : Perm (entries b) (entries a)

pub Sifted-refl : (n : ℕ) (a : List TimerNode) → IsIndexed n a → Sifted n a a
Sifted-refl n a ix = record { size = refl; indexed = ix; last = refl; same = Perm.rfl }

pub Sifted-trans : (n : ℕ) (a b c : List TimerNode) → Sifted n a b → Sifted n b c → Sifted n a c
Sifted-trans n a b c s t = record {
  size = t.size ∙ s.size;
  indexed = t.indexed;
  last = t.last ∙ s.last;
  same = Perm.trans t.same s.same;
}

-- a swap before `n`
swapped-Sifted :
    (n : ℕ) (a : List TimerNode) (i j : ℕ) (hi : i < length a) (hj : j < length a) (ne : i ≢ j)
    → i < n
    → j < n
    → IsIndexed n a
    → Sifted n a (swapped a i j hi hj ne (record (node_at a i) { index = j }))
swapped-Sifted n a i j hi hj ne bi bj ix =
    let y = record (node_at a i) { index = j } in
    let at = swapped-at a i j hi hj ne y in
    record {
      size = swapped-length a i j hi hj ne y;
      indexed = λ k p. ground (arith, at k, ix k);
      last = ground (arith, at n);
      same = swapped-perm a i j hi hj ne y refl;
    }

module _ (addr : ℕ → ℕ) where
  pick_child-child :
      (a : List TimerNode) (n i : ℕ)
      → 2 * i + 1 < n
      → n ≤ length a
      → Returns (λ j. (i < j) × (j < n)) (pick_child addr a n i)
  unfolding pick_child
  pick_child-child a n i h l =
      Ends-if (ltb (2 * i + 1 + 1) n)
        (λ more.
          rw (load-ok a (2 * i + 1) (omega arith), load-ok a (2 * i + 1 + 1) (ground arith))
            (elim (Bool-cases (below addr (node_at a (2 * i + 1)) (node_at a (2 * i + 1 + 1)))) [
              | inl e ↦ rw e (value (omega arith, h))
              | inr e ↦ rw e (value (omega arith, ground arith))
            ]))
        (λ none. value (omega arith, h))

  siftdown_loop_keeps :
      (fuel : ℕ) (a : List TimerNode) (n i : ℕ)
      → n - i < fuel
      → n ≤ length a
      → i < n
      → IsIndexed n a
      → Returns (λ r. Sifted n a r.0 × (i ≤ r.1)) (siftdown_loop addr fuel a n i)
  unfolding siftdown_loop
  siftdown_loop_keeps zero a n i f l h ix = absurd (omega arith)
  siftdown_loop_keeps (suc fuel) a n i f l h ix =
      Ends-if (leb n (2 * i + 1)) (λ leaf. value (Sifted-refl n a ix, omega arith))
        (λ inner. Ends-bind (pick_child-child a n i (ground arith) l) λ j (lt, lt').
          let hi : i < length a = omega arith in
          let hj : j < length a = omega arith in
          let ne : i ≢ j = omega arith in
          let once = swapped-Sifted n a i j hi hj ne h lt' ix in
          rw (load-ok a j hj, load-ok a i hi, swap-ok a i j hi hj ne)
            (Ends-if (less_than (node_at a j) (node_at a i))
              (λ sinks.
                Ends-map
                  (siftdown_loop_keeps fuel _ n j (omega arith) (omega (arith, once.size)) lt'
                    once.indexed)
                  λ r (s, le). (Sifted-trans n a _ r.0 once s, omega arith))
              (λ settled. value (Sifted-refl n a ix, omega arith))))

  pub siftdown_keeps :
      (a : List TimerNode) (n i : ℕ)
      → n ≤ length a
      → i < n
      → IsIndexed n a
      → Returns (λ r. Sifted n a r.0) (siftdown addr a i n)
  unfolding siftdown
  siftdown_keeps a n i l h ix =
      Ends-bind (siftdown_loop_keeps (n + 1) a n i (omega arith) l h ix) λ r s. value s.0

  siftup_loop_keeps :
      (fuel : ℕ) (a : List TimerNode) (n j : ℕ)
      → j < fuel
      → n ≤ length a
      → j < n
      → IsIndexed n a
      → Returns (Sifted n a) (siftup_loop addr fuel a j)
  unfolding siftup_loop
  siftup_loop_keeps zero a n j f l h ix = absurd (omega arith)
  siftup_loop_keeps (suc fuel) a n j f l h ix =
      let i = parent j in
      Ends-if (i == j) (λ root. value (Sifted-refl n a ix))
        (λ inner.
          let lt : i < j = ground arith in
          let hi : i < length a = omega arith in
          let hj : j < length a = omega arith in
          let ne : i ≢ j = omega arith in
          let once = swapped-Sifted n a i j hi hj ne (omega arith) h ix in
          rw (load-ok a j hj, load-ok a i hi, swap-ok a i j hi hj ne)
            (Ends-if (below addr (node_at a j) (node_at a i))
              (λ rises.
                Ends-map
                  (siftup_loop_keeps fuel _ n i (omega arith) (omega (arith, once.size))
                    (omega arith) once.indexed)
                  λ b s. Sifted-trans n a _ b once s)
              (λ settled. value (Sifted-refl n a ix))))

  pub siftup_keeps :
      (a : List TimerNode) (n j : ℕ)
      → n ≤ length a
      → j < n
      → IsIndexed n a
      → Returns (Sifted n a) (siftup addr a j)
  unfolding siftup
  siftup_keeps a n j l h ix = siftup_loop_keeps (j + 1) a n j (omega arith) l h ix
