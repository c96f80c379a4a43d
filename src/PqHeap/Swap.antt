-- ===== src/PqHeap/Swap.antt =====
-- The swaps of src/PriorityQueueTimer.cpp, the timers of a vector, and the indices that nodes
-- record.

use timer_benchmarks.Common.{
  ℕ, zero, suc, ◌<◌, ◌≡◌, ◌≢◌, refl, ap, List, [], ◌∷◌, Perm, ok, arith, length, length-set,
  length-map, set, get_or, get_or-set, move-perm, set-get_or, ◌==◌, if◌then◌else◌,
}
use timer_benchmarks.PqHeap.{TimerNode, blank, node_at, entry, entries, swap, swap_last, load-ok}

-- the nodes before `n` record their indices
abbrev pub IsIndexed : ℕ → List TimerNode → Type 0
IsIndexed n a = (k : ℕ) → k < n → (node_at a k).index ≡ k

map-set :
    (a : List TimerNode) (i : ℕ) (x : TimerNode) → entries (set a i x) ≡ set (entries a) i (entry x)
map-set [] i x = refl
map-set (y ∷ a) zero x = refl
map-set (y ∷ a) (suc i) x = ap (◌∷◌ (entry y)) (map-set a i x)

entry-at : (a : List TimerNode) (i : ℕ) → get_or (entries a) i (entry blank) ≡ entry (node_at a i)
entry-at [] i = refl
entry-at (x ∷ a) zero = refl
entry-at (x ∷ a) (suc i) = entry-at a i

module _ (a : List TimerNode) (i j : ℕ) (hi : i < length a) (hj : j < length a) (ne : i ≢ j) where
  -- the vector after `swap`, and after `swap_last` if `y` is the old node at `i`
  abbrev pub swapped : TimerNode → List TimerNode
  swapped y = set (set a i (record (node_at a j) { index = i })) j y

  pub swapped-length : (y : TimerNode) → length (swapped y) ≡ length a
  swapped-length y = omega (
    arith,
    length-set (set a i (record (node_at a j) { index = i })) j y,
    length-set a i (record (node_at a j) { index = i }),
  )

  pub swapped-at :
      (y : TimerNode) (k : ℕ)
      → node_at (swapped y) k
        ≡ (if j == k then y else if i == k then record (node_at a j) { index = i } else node_at a k)
  swapped-at y k =
      let b = record (node_at a j) { index = i } in
      rw (
        get_or-set (set a i b) j k y blank (omega (arith, length-set a i b)),
        get_or-set a i k b blank hi,
      )

  pub swapped-perm :
      (y : TimerNode) → entry y ≡ entry (node_at a i) → Perm (entries (swapped y)) (entries a)
  swapped-perm y same =
      let es = entries a in
      let b = record (node_at a j) { index = i } in
      let size = length-map entry a in
      let moved =
        move-perm es i j (get_or es i (entry blank)) (entry blank) (omega (arith, size))
          (omega (arith, size)) ne in
      let kept : Perm (set (set es i (get_or es j (entry blank))) j (get_or es i (entry blank)))
          es =
        rw (set-get_or es i (entry blank)) at moved in
      let step : Perm (set (set es i (entry (node_at a j))) j (entry (node_at a i))) es =
        rw (entry-at a j, entry-at a i) at kept in
      rw (map-set (set a i b) j y, map-set a i b, same) step

pub swap-ok :
    (a : List TimerNode) (i j : ℕ) (hi : i < length a) (hj : j < length a) (ne : i ≢ j)
    → swap a i j ≡ ok (swapped a i j hi hj ne (record (node_at a i) { index = j }))
unfolding swap
swap-ok a i j hi hj ne = rw (load-ok a i hi, load-ok a j hj)

pub swap_last-ok :
    (a : List TimerNode) (i j : ℕ) (hi : i < length a) (hj : j < length a) (ne : i ≢ j)
    → swap_last a i j ≡ ok (swapped a i j hi hj ne (node_at a i))
unfolding swap_last
swap_last-ok a i j hi hj ne = rw (load-ok a i hi, load-ok a j hj)
