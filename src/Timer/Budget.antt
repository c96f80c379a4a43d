-- ===== src/Timer/Budget.antt =====
-- Why the loops of Update end. `max_id` is the counter when Update begins, and the loop takes only
-- timers whose id is at most that. Of the ids that actions give out meanwhile only the first is.

use timer_benchmarks.Common.{
  ℕ, suc, ◌+◌, ◌-◌, ◌≤◌, ◌<◌, ◌≡◌, List, [], ◌∷◌, Perm, arith, leb, length, length-perm,
  if◌then◌else◌, Bool,
}
use timer_benchmarks.Timer.Ids.{select, select-perm}

-- how many of the ids are at most `m`
pub rank : ℕ → List ℕ → ℕ
rank m ks = length (select (λ k. leb k m) ks)

-- the rounds that are left with the counter `c` and the ids `ks`
pub budget : ℕ → ℕ → List ℕ → ℕ
unfolding rank
budget m c ks = rank m ks + (m + 1 - c)

rank-perm : (m : ℕ) {ks js : List ℕ} → Perm ks js → rank m ks ≡ rank m js
unfolding rank
rank-perm m p = length-perm (select-perm _ p)

rank-cons : (m k : ℕ) (ks : List ℕ) → rank m (k ∷ ks) ≡ (if leb k m then 1 else 0) + rank m ks
unfolding rank select
rank-cons m k ks = ground arith

rank-le-length : (m : ℕ) (ks : List ℕ) → rank m ks ≤ length ks
unfolding rank select
rank-le-length m [] = omega arith
rank-le-length m (k ∷ ks) = ground (arith, rank-le-length m ks)

rank-select-le : (m : ℕ) (test : ℕ → Bool) (ks : List ℕ) → rank m (select test ks) ≤ rank m ks
unfolding rank select
rank-select-le m test [] = omega arith
rank-select-le m test (k ∷ ks) = ground (arith, rank-select-le m test ks)

pub budget-perm : (m c : ℕ) {ks js : List ℕ} → Perm ks js → budget m c ks ≡ budget m c js
unfolding budget
budget-perm m c p = omega (arith, rank-perm m p)

-- a Start gives out the id `c`
pub budget-start :
    (m c : ℕ) {ks js : List ℕ} → Perm js (c ∷ ks) → budget m (c + 1) js ≤ budget m c ks
unfolding budget
budget-start m c {ks} p = ground (arith, rank-perm m p, rank-cons m c ks)

pub budget-select-le :
    (m c : ℕ) (test : ℕ → Bool) (ks : List ℕ) → budget m c (select test ks) ≤ budget m c ks
unfolding budget
budget-select-le m c test ks = omega (arith, rank-select-le m test ks)

-- a round takes the timer with the id `k`
pub budget-take :
    (m c k : ℕ) {ks js : List ℕ} → k ≤ m → Perm (k ∷ ks) js → budget m c js ≡ suc (budget m c ks)
unfolding budget
budget-take m c k {ks} old p = ground (arith, rank-perm m p, rank-cons m k ks)

-- the fuel that Update needs
pub budget-lt : (c : ℕ) (ks : List ℕ) → budget c c ks < length ks + 2
unfolding budget
budget-lt c ks = omega (arith, rank-le-length c ks)
