-- ===== src/QuadHeap/Remove.antt =====
-- deltimer0 of src/QuadHeapTimer.cpp.
use mathlib.Core.List.Perm
use timer_benchmarks.Common.{
  ℕ, suc, ◌-◌, ◌<◌, ◌≡◌, List, [], ◌∷◌, Perm, arith, ◌==◌, length, length-set, length-pop_back, set,
  set-perm, last-perm, pop_back, get_or-pop_back, Each-get_or, get_or-set, refl, Returns, value,
  Ends-map, if◌then◌else◌,
}
use timer_benchmarks.QuadHeap.{TimerNode, blank, node_at, key, parent, siftdown, deltimer0, load-ok}
use timer_benchmarks.QuadHeap.Order.{IsHeap, IsPositive, key-set}
use timer_benchmarks.QuadHeap.Down.{DownInv, siftdown_restores}

-- `b` is a heap of the nodes of `a` but the root
abbrev pub Unrooted : List TimerNode → List TimerNode → Type 0
Unrooted a b = IsHeap b × Perm (node_at a 0 ∷ b) a

module _ (a : List TimerNode) (n : ℕ) (long : length a ≡ suc (suc n)) where
  last_node : TimerNode
  last_node = node_at a (suc n)

  -- the vector that deltimer0 hands to siftdownTimer
  cut : List TimerNode
  unfolding last_node
  cut = pop_back (set a 0 last_node)

  length-cut : length cut ≡ suc n
  unfolding cut
  length-cut = omega (arith, length-pop_back (set a 0 last_node), length-set a 0 last_node)

  key-cut : (c : ℕ) → c < suc n → key cut c ≡ (if 0 == c then last_node.deadline else key a c)
  unfolding cut
  key-cut c h = ground (
    arith,
    get_or-pop_back (set a 0 last_node) c blank,
    key-set a 0 c last_node,
    length-set a 0 last_node,
  )

  cut-perm : Perm (node_at a 0 ∷ cut) a
  unfolding cut last_node
  cut-perm =
      let moved = set a 0 last_node in
      let kept : node_at moved (suc n) ≡ last_node =
        ground (arith, get_or-set a 0 (suc n) last_node blank) in
      let shorter =
        rw kept at (last-perm moved (suc n) blank (omega (arith, length-set a 0 last_node))) in
      let traded = set-perm a 0 last_node blank (omega arith) in
      Perm.cons_inv {a = last_node}
        (Perm.trans (Perm.swap _ _ _) (Perm.trans (Perm.cons (node_at a 0) shorter) traded))

  deltimer0-cut : deltimer0 a ≡ siftdown cut 0
  unfolding deltimer0 cut last_node
  deltimer0-cut =
      let last : length a - 1 ≡ suc n = omega arith in
      rw (last, long, load-ok a (suc n) (omega arith)) (ground arith)

  cut-positive : IsPositive a → 0 < key cut 0
  unfolding last_node
  cut-positive pos = ground (arith, key-cut 0, Each-get_or a (suc n) blank pos)

  cut-DownInv : IsHeap a → DownInv cut 0
  cut-DownInv h = record {
    edges = λ c p q r. ground (arith, length-cut, key-cut c, key-cut (parent c), h c);
    bridged = λ c p q r s. absurd (omega arith);
  }

-- On a vector that is not empty, in the heap order and with positive deadlines, deltimer0 returns a
-- heap of all the nodes but the root.
pub deltimer0_removes :
    (a : List TimerNode)
    → 0 < length a
    → IsHeap a
    → IsPositive a
    → Returns (Unrooted a) (deltimer0 a)
unfolding deltimer0
deltimer0_removes [] h heap pos = absurd (omega arith)
deltimer0_removes (x ∷ []) h heap pos = value ((λ c p q. absurd (omega arith)), Perm.rfl)
deltimer0_removes (x ∷ y ∷ a) h heap pos =
    let n = length a in
    rw (deltimer0-cut (x ∷ y ∷ a) n refl) (
      Ends-map
        (siftdown_restores (cut (x ∷ y ∷ a) n refl) 0 (omega (arith, length-cut (x ∷ y ∷ a) n refl))
          (cut-positive (x ∷ y ∷ a) n refl pos) (cut-DownInv (x ∷ y ∷ a) n refl heap))
        λ b t. (t.0, Perm.trans (Perm.cons _ t.1) (cut-perm (x ∷ y ∷ a) n refl)))
