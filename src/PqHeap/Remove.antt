-- ===== src/PqHeap/Remove.antt =====
-- removeTimer of src/PriorityQueueTimer.cpp.
use mathlib.Core.List.Perm
use native.Mathlib.Decide.{ℕ_discrete}
use timer_benchmarks.Common.{
  ℕ, suc, ◌-◌, ◌<◌, ◌≡◌, ◌≢◌, refl, ap, ◌∙◌, List, ◌∷◌, Perm, false, arith, length, length-pop_back,
  pop_back, get_or-pop_back, last-perm, Returns, value, Ends-bind, Ends-map, Ends-if, ◌==◌,
}
use timer_benchmarks.PqHeap.{TimerNode, blank, node_at, entry, entries, remove_timer}
use timer_benchmarks.PqHeap.Swap.{
  IsIndexed, swapped, swapped-length, swapped-at, swapped-perm, swap_last-ok,
}
use timer_benchmarks.PqHeap.Sift.{Sifted, Sifted-trans, Sifted-refl, siftdown_keeps, siftup_keeps}

-- `b` is `a` without the timer at `i`, and records its indices
abbrev pub Removed : List TimerNode → ℕ → List TimerNode → Type 0
Removed a i b = IsIndexed (length b) b × Perm (entry (node_at a i) ∷ entries b) (entries a)

-- the last node goes
drop_last :
    (a b : List TimerNode) (i n : ℕ)
    → length b ≡ suc n
    → IsIndexed n b
    → entry (node_at b n) ≡ entry (node_at a i)
    → Perm (entries b) (entries a)
    → Removed a i (pop_back b)
drop_last a b i n size ix last same =
    let shorter = length-pop_back b in
    (
      (λ k p.
          rw (get_or-pop_back b k blank (omega (arith, shorter))) (ix k (omega (arith, shorter)))),
      rw (← last) (Perm.trans (Perm.map entry (last-perm b n blank size)) same),
    )

module _ (addr : ℕ → ℕ) (a : List TimerNode) (i n : ℕ) (size : length a ≡ suc n) (lt : i < n)
    (ix : IsIndexed (length a) a) where
  hi : i < length a
  hi = omega arith

  hn : n < length a
  hn = omega arith

  ne : i ≢ n
  ne = omega arith

  start : List TimerNode
  start = swapped a i n hi hn ne (node_at a i)

  start-Sifted : Sifted n start start
  unfolding start
  start-Sifted =
      Sifted-refl n start λ k p. ground (arith, swapped-at a i n hi hn ne (node_at a i) k, ix k)

  start-size : length start ≡ suc n
  unfolding start
  start-size = omega (arith, swapped-length a i n hi hn ne (node_at a i))

  start-perm : Perm (entries start) (entries a)
  unfolding start
  start-perm = swapped-perm a i n hi hn ne (node_at a i) refl

  start-last : node_at start n ≡ node_at a i
  unfolding start
  start-last = ground (arith, swapped-at a i n hi hn ne (node_at a i) n)

  Sifted-Removed : (b : List TimerNode) → Sifted n start b → Removed a i (pop_back b)
  Sifted-Removed b s =
      drop_last a b i n (s.size ∙ start-size) s.indexed (ap entry (s.last ∙ start-last))
        (Perm.trans s.same start-perm)

  remove_inner : Returns (Removed a i) (remove_timer addr a i)
  unfolding remove_timer start
  remove_inner =
      let last : length a - 1 ≡ n = omega arith in
      let not_last : (i == n) ≡ false = ground arith in
      let not_empty : (suc n == 0) ≡ false = ground arith in
      rw (last, size, not_last, not_empty, swap_last-ok a i n hi hn ne)
        (Ends-bind
          (siftdown_keeps addr start n i (omega (arith, start-size)) lt start-Sifted.indexed)
          λ r s.
            Ends-bind
              (Ends-if r.1 (λ moved. value s)
                λ stays.
                  Ends-map
                    (siftup_keeps addr r.0 n i (omega (arith, s.size, start-size)) lt s.indexed)
                    λ b t. Sifted-trans n start r.0 b s t)
              λ b t. value (Sifted-Removed b t))

remove_end :
    (addr : ℕ → ℕ) (a : List TimerNode) (i : ℕ)
    → i < length a
    → i ≡ length a - 1
    → IsIndexed (length a) a
    → Returns (Removed a i) (remove_timer addr a i)
unfolding remove_timer
remove_end addr a i h e ix =
    Ends-if (length a == 0) (λ none. absurd (ground arith))
      λ _.
        Ends-if (i == length a - 1)
          (λ _. value (drop_last a a i i (omega arith) (λ k p. ix k (omega arith)) refl Perm.rfl))
          (λ inner. absurd (ground arith))

-- For any addresses of the nodes, removeTimer at an index in a vector whose nodes record their own
-- indices returns, takes the timer at that index away and no other, and the remaining nodes record
-- their indices.
pub remove_removes :
    (addr : ℕ → ℕ) (a : List TimerNode) (i : ℕ)
    → i < length a
    → IsIndexed (length a) a
    → Returns (Removed a i) (remove_timer addr a i)
remove_removes addr a i h ix = elim (ℕ_discrete i (length a - 1)) [
  | yes e ↦ remove_end addr a i h e ix
  | no e ↦ remove_inner addr a i (length a - 1) (omega arith) (omega arith) ix
]
