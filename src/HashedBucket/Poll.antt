-- ===== src/HashedBucket/Poll.antt =====
-- pollTimeout and ClearTimeouts of src/HashedWheelBucket.cpp.
use mathlib.Core.List.{mem-cons_of_mem, Nodup-cons}
use mathlib.Core.Path.{subst}
use timer_benchmarks.Common.{
  ℕ, zero, suc, ◌<◌, ◌≡◌, ◌≢◌, refl, sym, ap, ◌∙◌, List, [], ◌∷◌, Option, none, some, Each,
  Each-nil, Mem, arith, length, Returns, value, Ends-bind,
}
use timer_benchmarks.HashedBucket.{
  HashedWheelTimeout, HashedWheelBucket, Store, write, poll_timeout, clear_timeouts,
}
use timer_benchmarks.HashedBucket.Chain.{write-other, write-IsLinked, relink_first}
use timer_benchmarks.HashedBucket.Chain.{Holds}
use timer_benchmarks.HashedBucket.Bypass.{write-content}

-- `r` against the list `xs` behind the polled timeout
record Polled (self x : ℕ) (xs : List ℕ) (r : Option ℕ × HashedWheelBucket × Store) : Type 0 where
  first : r.0 ≡ some x
  holds : Holds self r.1 r.2 xs

poll_pops :
    (self : ℕ) (b : HashedWheelBucket) (s : Store) (x : ℕ) (xs : List ℕ)
    → Holds self b s (x ∷ xs)
    → Polled self x xs (poll_timeout b s)
unfolding poll_timeout
poll_pops self b s x [] h =
    rw (h.head, h.linked.1)
      (record {
        first = refl;
        holds = record {
          head = refl;
          tail = refl;
          linked = tt;
          distinct = (Nodup-cons.0 h.distinct).1;
          owned = Each-nil _;
        };
      })
poll_pops self b s x (y ∷ ys) h =
    let (new, distinct) = Nodup-cons.0 h.distinct in
    let (prev, next, (prev', next', linked)) = h.linked in
    let other : Each (λ z. x ≢ z) (y ∷ ys) = λ z m e. new (subst (λ w. Mem w (y ∷ ys)) (sym e) m) in
    let v : HashedWheelTimeout = record (s y) { prev = none } in
    let s' : Store = write y v s in
    let v' : HashedWheelTimeout = record (s' x) { prev = none; next = none; bucket = none } in
    rw (h.head, next)
      (record {
        first = refl;
        holds = record {
          head = refl;
          tail = h.tail;
          linked = write-IsLinked s' x v' none none (y ∷ ys) other (
              relink_first s (some x) none none y ys
                (λ z m e. (Nodup-cons.0 distinct).0 (subst (λ w. Mem w ys) (sym e) m))
                (prev', next', linked));
          distinct = distinct;
          owned = λ z m.
              ap (λ c. c.bucket) (write-other s' x z v' (other z m))
              ∙ ap (λ c. c.0) (write-content s y z v refl)
              ∙ h.owned z (mem-cons_of_mem x m);
        };
      })

poll_none : (b : HashedWheelBucket) (s : Store) → b.head ≡ none → poll_timeout b s ≡ (none, b, s)
unfolding poll_timeout
poll_none b s h = rw h refl

-- Where the links of a bucket spell out a list of different timeouts that the bucket owns, and the
-- fuel exceeds its length, HashedWheelBucket::ClearTimeouts returns, takes the timeouts of the list
-- in its order, and leaves the bucket empty.
pub clear_takes_all :
    (self fuel : ℕ) (b : HashedWheelBucket) (s : Store) (xs : List ℕ)
    → length xs < fuel
    → Holds self b s xs
    → Returns (λ r. (r.0 ≡ xs) × Holds self r.1 r.2 []) (clear_timeouts fuel b s)
unfolding clear_timeouts
clear_takes_all self zero b s xs f h = absurd (omega arith)
clear_takes_all self (suc fuel) b s [] f h =
    let nothing = poll_none b s h.head in
    rw (clear_timeouts, nothing) (value (refl, subst (λ r. Holds self r.1 r.2 []) (sym nothing) h))
clear_takes_all self (suc fuel) b s (x ∷ xs) f h =
    let polled = poll_pops self b s x xs h in
    rw (clear_timeouts, polled.first)
      (Ends-bind
        (clear_takes_all self fuel (poll_timeout b s).1 (poll_timeout b s).2 xs (omega arith)
          polled.holds)
        λ r e. value (ap (◌∷◌ x) e.0, e.1))
