-- ===== src/Tests/Wheel.antt =====
-- Runs of src/HashedWheelBucket.cpp on three timeouts and of src/HashedWheelTimer.cpp on one.
use mathlib.Core.List.{Nodup-nil, Nodup-cons, not-mem-nil, mem-cons}
use mathlib.Core.HLevel.{⊥_prop}
use mathlib.Core.Logic.Or
use native.Mathlib.Bridge.{le_prop}
use timer_benchmarks.Common.{
  ℕ, ◌++◌, ◌+◌, ◌≡◌, refl, [], ◌∷◌, some, ok, fault, null_pointer, check_failed, ◌≢◌, Returns,
  Returns-at, arith, Each-nil, Each-cons, Mem, if◌then◌else◌, ◌==◌,
}
use timer_benchmarks.Timer.{first_id}
use timer_benchmarks.Timer.Action.{null, run, finish, cancel_timer}
use timer_benchmarks.HashedBucket.{
  new_timeout, HashedWheelBucket, empty_bucket, Store, add_timeout, remove_timeout, expire_timeouts,
}
use timer_benchmarks.HashedBucket.Remove.{Unlinked, remove_unlinks}
use timer_benchmarks.HashedBucket.Chain.{Holds}
use timer_benchmarks.HashedBucket.Rounds.{AllInTime}
use timer_benchmarks.HashedBucket.Add.{add_appends}
use timer_benchmarks.HashedBucket.Expire.{Expired, expire_splits}
use timer_benchmarks.HashedTimer.{HashedWheelTimer, create, purge, size, tick_idx, stop_idx}
use timer_benchmarks.HashedTimer.Purge.{AllHold, no_buckets, one_bucket, purge_frees}
use timer_benchmarks.HashedTimer.Early.{
  start_then_update, update_early, self_cancel_faults, long_timer_faults, last_bucket_unvisited,
}

abbrev fresh : Store
fresh id = new_timeout (100 + id) null

empty-Holds : Holds 7 empty_bucket fresh []
empty-Holds = record {
  head = refl;
  tail = refl;
  linked = tt;
  distinct = Nodup-nil;
  owned = Each-nil _;
}

add_appends_example : Returns (λ r. Holds 7 r.0 r.1 (1 ∷ [])) (add_timeout 7 1 empty_bucket fresh)
add_appends_example = add_appends 7 1 empty_bucket fresh [] refl refl refl empty-Holds not-mem-nil

abbrev one : HashedWheelBucket × Store
one = (
  record { head = some 1; tail = some 1 },
  λ id. if 1 == id then record (fresh 1) { bucket = some 7 } else fresh id,
)

one_added : add_timeout 7 1 empty_bucket fresh ≡ ok one
unfolding add_timeout
one_added = refl

one-Holds : Holds 7 one.0 one.1 (1 ∷ [])
one-Holds = Returns-at add_appends_example one_added

-- two timeouts in the bucket, the second with a round to wait
abbrev two : HashedWheelBucket × Store
two = (
  record { head = some 1; tail = some 2 },
  λ id.
      if 1 == id
      then record (fresh 1) { next = some 2; bucket = some 7 }
      else if 2 == id
      then record (fresh 2) { prev = some 1; bucket = some 7; remaining_rounds = 1 }
      else fresh id,
)

two-Holds : Holds 7 two.0 two.1 (1 ∷ 2 ∷ [])
two-Holds = record {
  head = refl;
  tail = refl;
  linked = (refl, refl, (refl, refl, tt));
  distinct = Nodup-cons.1 (not-mem-cons, Nodup-cons.1 (not-mem-nil, Nodup-nil));
  owned = Each-cons (λ x. hlevel) refl (Each-cons (λ x. hlevel) refl (Each-nil _));
}
  where
    not-mem-cons : ¬ Mem {A = ℕ} 1 (2 ∷ [])
    not-mem-cons m = Or.elim ⊥_prop (mem-cons.0 m) (λ e. omega (arith, e)) not-mem-nil

remove_unlinks_example : Unlinked 7 two.1 (1 ∷ []) [] 2 (remove_timeout 2 two.0 two.1)
remove_unlinks_example = remove_unlinks 7 two.0 two.1 (1 ∷ []) [] 2 two-Holds

two-AllInTime : AllInTime two.1 150 (1 ∷ 2 ∷ [])
two-AllInTime =
    Each-cons (λ x. hlevel le_prop) (λ due. omega arith)
      (Each-cons (λ x. hlevel le_prop) (λ due. omega arith) (Each-nil _))

expire_splits_example :
    Returns (Expired 7 two.1 [] (1 ∷ 2 ∷ [])) (expire_timeouts 3 150 two.0 two.1)
expire_splits_example =
    expire_splits 7 150 3 two.0 two.1 (1 ∷ 2 ∷ []) (omega arith) two-Holds two-AllInTime

update_early_example :
    Returns (λ r. (r.0 ≡ 1) × (size r.1 ≡ 0)) (start_then_update 1000 95 (run finish) 1012)
update_early_example =
    update_early 1000 95 1012 (omega arith) (omega arith) (omega arith) (omega arith) (omega arith)

self_cancel_faults_example :
    start_then_update 1000 50 (run (cancel_timer first_id finish)) 1060 ≡ fault null_pointer
self_cancel_faults_example =
    self_cancel_faults 1000 50 1060 finish (omega arith) (omega arith) (omega arith)

long_timer_faults_example : start_then_update 1000 3000000000 (run finish) 1010 ≡ fault check_failed
long_timer_faults_example =
    long_timer_faults 1000 3000000000 1010 (run finish) (omega arith) (omega arith) (omega arith)
      (omega arith)

last_bucket_unvisited_example : tick_idx 511 ≢ stop_idx 3 1023
last_bucket_unvisited_example = last_bucket_unvisited 3 1023 511 (omega arith) refl

-- a wheel with one bucket, which holds one timeout
abbrev small : HashedWheelTimer
small = record (create 1000 1000) {
  wheel = record { head = some 1; tail = some 1 } ∷ [];
  store = λ id. if 1 == id then record (fresh 1) { bucket = some 0 } else fresh id;
  ref = 1 ∷ [];
}

small-AllHold : AllHold small.store 1 0 small.wheel ((1 ∷ []) ++ [])
small-AllHold =
    one_bucket
      (record {
        head = refl;
        tail = refl;
        linked = (refl, refl, tt);
        distinct = Nodup-cons.1 (not-mem-nil, Nodup-nil);
        owned = Each-cons (λ x. hlevel) refl (Each-nil _);
      })
      (omega arith) no_buckets

purge_frees_example : Returns (λ r. (r.0 ≡ 1 ∷ []) × (r.1.wheel ≡ [])) (purge small)
purge_frees_example = purge_frees small (1 ∷ []) small-AllHold
