-- ===== src/HashedTimer/Purge.antt =====
-- purge of src/HashedWheelTimer.cpp.
use timer_benchmarks.Common.{
  ℕ, zero, suc, ◌+◌, ◌≤◌, ◌<◌, ◌≡◌, refl, ap, List, [], ◌∷◌, ◌++◌, Option, none, some, arith,
  Returns, value, Ends-bind, length,
}
use timer_benchmarks.HashedBucket.{HashedWheelBucket, Store}
use timer_benchmarks.HashedBucket.Chain.{IsLinked, first_or, Holds}
use timer_benchmarks.HashedTimer.{HashedWheelTimer, walk, walk_all, purge}

-- the buckets from the index `self` on hold these lists, none of which is longer than `bound`
pub data AllHold (s : Store) (bound : ℕ) : ℕ → List HashedWheelBucket → List ℕ → Type 0 where
  no_buckets : {self : ℕ} → AllHold s bound self [] []
  one_bucket :
      {self : ℕ} {b : HashedWheelBucket} {bs : List HashedWheelBucket} {xs ys : List ℕ}
      → Holds self b s xs
      → length xs ≤ bound
      → AllHold s bound (self + 1) bs ys
      → AllHold s bound self (b ∷ bs) (xs ++ ys)

walk_follows :
    (fuel : ℕ) (s : Store) (before : Option ℕ) (xs : List ℕ)
    → length xs < fuel
    → IsLinked s before xs none
    → Returns (λ r. r ≡ xs) (walk fuel (first_or xs none) s)
unfolding walk
walk_follows zero s before xs f h = absurd (omega arith)
walk_follows (suc fuel) s before [] f h = value refl
walk_follows (suc fuel) s before (x ∷ xs) f (prev, next, h) =
    rw next
      (Ends-bind (walk_follows fuel s (some x) xs (omega arith) h) λ r e. value (ap (◌∷◌ x) e))

walk_all_follows :
    {s : Store} {bound self : ℕ} {bs : List HashedWheelBucket} {xs : List ℕ}
    → AllHold s bound self bs xs
    → Returns (λ r. r ≡ xs) (walk_all (bound + 1) bs s)
unfolding walk_all
walk_all_follows no_buckets = value refl
walk_all_follows {s} {bound} (one_bucket {xs = xs} h short rest) = rw h.head (
    Ends-bind (walk_follows (bound + 1) s none xs (omega arith) h.linked)
      λ first e. Ends-bind (walk_all_follows rest) λ later e'. value (rw (e, e') refl))

-- Where the links of each bucket of the wheel spell out a list of different timeouts that it owns,
-- no list longer than `ref_`, purge of HashedWheelTimer returns, frees exactly the timeouts of
-- these lists, bucket by bucket and in their order, and leaves no bucket.
pub purge_frees :
    (t : HashedWheelTimer) (xs : List ℕ)
    → AllHold t.store (length t.ref) 0 t.wheel xs
    → Returns (λ r. (r.0 ≡ xs) × (r.1.wheel ≡ [])) (purge t)
unfolding purge
purge_frees t xs h = Ends-bind (walk_all_follows h) λ freed e. value (e, refl)
