-- ===== src/HashedTimer.antt =====
-- src/HashedWheelTimer.h and src/HashedWheelTimer.cpp: the scheduler over a wheel of 512 buckets.
-- `ref` holds the keys of `ref_`; the timeout that the map has for an id is the one with that id in
-- the store. A difference between a deadline and the start of the wheel that turns negative as an
-- `int` counts as zero: both lead to the tick that comes next, with no rounds to wait.
pub mod Early
pub mod Purge
use timer_benchmarks.Common.{
  ℕ, zero, suc, ◌+◌, ◌-◌, ◌*◌, ◌/◌, ◌%◌, ◌^◌, List, [], ◌∷◌, ◌++◌, Bool, true, false, Run, ok,
  fault, out_of_fuel, overflow, out_of_range, null_pointer, from_option, require, ◌>>=◌, ◌>>◌,
  Option, none, some, ltb, leb, ◌==◌, if◌then◌else◌, length, get_elem?, set,
}
use timer_benchmarks.Timer.{next_id, expiry, first_id, int_max, int64_max}
use timer_benchmarks.Timer.Action.{Action, null, run, Entry, Updated, nothing, invoke}
use timer_benchmarks.Timer.Ids.{contains, remove, put}
use timer_benchmarks.HashedBucket.{
  HashedWheelTimeout, new_timeout, HashedWheelBucket, empty_bucket, Store, write, add_timeout,
  remove_timeout, expire_timeouts,
}

abbrev pub wheel_size : ℕ
wheel_size = 512

abbrev pub tick_duration : ℕ
tick_duration = 100

abbrev pub time_unit : ℕ
time_unit = 10

pub record HashedWheelTimer : Type 0 where
  pub next_id : ℕ
  pub wheel : List HashedWheelBucket
  pub store : Store
  pub ref : List ℕ
  pub ticks : ℕ
  pub started_at : ℕ
  pub last_time : ℕ

abbrev pub buckets : ℕ → List HashedWheelBucket
buckets zero = []
buckets (suc n) = empty_bucket ∷ buckets n

-- the constructor, which reads the clock twice
unfoldable pub create : ℕ → ℕ → HashedWheelTimer
create clock clock' = record {
  next_id = first_id;
  wheel = buckets wheel_size;
  store = λ id. new_timeout 0 null;
  ref = [];
  ticks = 0;
  started_at = clock;
  last_time = clock';
}

unfoldable pub size : HashedWheelTimer → ℕ
size t = length t.ref

-- `(int)x`, where a negative result counts as zero
unfoldable pub to_int : ℕ → ℕ
to_int x = let r = x % 2 ^ 32 in if ltb r (2 ^ 31) then r else 0

-- `calculated` of Start; 2 ^ 64 keeps the difference of two times from stopping at 0
unfoldable pub calculated : ℕ → ℕ → ℕ
unfolding to_int
calculated started_at deadline = to_int (deadline + 2 ^ 64 - started_at) / tick_duration

-- `stop_idx` of Start; the mask is the remainder by the size, a power of two
unfoldable pub stop_idx : ℕ → ℕ → ℕ
stop_idx ticks target = (if ltb target ticks then ticks else target) % wheel_size

unfoldable pub start : ℕ → ℕ → Action → HashedWheelTimer → Run (ℕ × HashedWheelTimer)
unfolding calculated stop_idx add_timeout put
start clock duration action t = do
  (id, counter) ← next_id t.next_id
  deadline ← expiry clock duration
  let target = calculated t.started_at deadline
  let rounds = (target - t.ticks) / wheel_size
  let idx = stop_idx t.ticks target
  bucket ← from_option out_of_range (get_elem? t.wheel idx)
  let timeout : HashedWheelTimeout = record (new_timeout deadline action) {
    remaining_rounds = rounds;
  }
  (bucket', store) ← add_timeout idx id bucket (write id timeout t.store)
  ok (
    id,
    record t {
      next_id = counter;
      wheel = set t.wheel idx bucket';
      store = store;
      ref = put id t.ref;
    },
  )

-- `timeout->bucket->Remove(timeout)` takes the bucket's pointer as it is.
unfoldable pub cancel : ℕ → HashedWheelTimer → Run (Bool × HashedWheelTimer)
unfolding contains remove remove_timeout
cancel id t =
    let drop : Run (Bool × HashedWheelTimer) = do
      idx ← from_option null_pointer (t.store id).bucket
      bucket ← from_option out_of_range (get_elem? t.wheel idx)
      let removed = remove_timeout id bucket t.store
      ok (
        true,
        record t { wheel = set t.wheel idx removed.1; store = removed.2; ref = remove id t.ref },
      )
    in if contains id t.ref then drop else ok (false, t)

-- Expire of a timeout: the action is called, and then forgotten
unfoldable pub expire : ℕ → HashedWheelTimer → Run HashedWheelTimer
expire id t = elim (t.store id).action [
  | null ↦ ok t
  | run body ↦ do
    t' ← invoke start cancel (t.store id).action t
    ok (record t' { store = write id (record (t'.store id) { action = null }) t'.store })
]

-- the `for` of tick over the expired timeouts, each of which delTimeout takes out of `ref_`
unfoldable pub expire_all : List ℕ → HashedWheelTimer → Run HashedWheelTimer
unfolding expire
expire_all [] t = ok t
expire_all (id ∷ ids) t = do t' ← expire id t; expire_all ids (record t' { ref = remove id t'.ref })

-- `idx` of tick
unfoldable pub tick_idx : ℕ → ℕ
tick_idx ticks = ticks % (wheel_size - 1)

-- tick: the expired timeouts, in order. The bucket has no more timeouts than `ref_`.
unfoldable pub tick : HashedWheelTimer → Run (List ℕ × HashedWheelTimer)
unfolding expire_timeouts expire_all tick_idx
tick t = do
  require (ltb t.ticks int_max) overflow
  let deadline = t.started_at + tick_duration * (t.ticks + 1)
  require (leb deadline int64_max) overflow
  let idx = tick_idx t.ticks
  bucket ← from_option out_of_range (get_elem? t.wheel idx)
  (expired, bucket', store) ← expire_timeouts (length t.ref + 1) deadline bucket t.store
  t' ← expire_all expired (record t { wheel = set t.wheel idx bucket'; store = store })
  ok (expired, record t' { ticks = t'.ticks + 1 })

-- the `for` of Update: the number of expired timeouts
unfoldable pub ticks_loop : ℕ → HashedWheelTimer → Run (ℕ × HashedWheelTimer)
unfolding tick
ticks_loop zero t = ok (0, t)
ticks_loop (suc n) t = do
  (expired, t') ← tick t
  (fired, t'') ← ticks_loop n t'
  ok (length expired + fired, t'')

-- Update. A negative number of ticks counts as zero: both return at once.
unfoldable pub update : ℕ → HashedWheelTimer → Run (ℕ × HashedWheelTimer)
unfolding ticks_loop size
update now t =
    let ticks = (now - t.last_time) / time_unit in
    if size t == 0
    then ok (0, t)
    else if ticks == 0
    then ok (0, t)
    else ticks_loop ticks (record t { last_time = now })

-- the inner `while` of purge: the timeouts from `timeout` on, in order
pub walk : ℕ → Option ℕ → Store → Run (List ℕ)
walk zero timeout store = out_of_fuel
walk (suc fuel) none store = ok []
walk (suc fuel) (some p) store = do rest ← walk fuel (store p).next store; ok (p ∷ rest)

-- the `for` of purge over the buckets
pub walk_all : ℕ → List HashedWheelBucket → Store → Run (List ℕ)
walk_all fuel [] store = ok []
walk_all fuel (bucket ∷ buckets) store = do
  first ← walk fuel bucket.head store
  rest ← walk_all fuel buckets store
  ok (first ++ rest)

-- delTimeout of each of the timeouts
abbrev pub remove_all : List ℕ → List ℕ → List ℕ
remove_all [] ref = ref
remove_all (id ∷ ids) ref = remove_all ids (remove id ref)

-- purge: the timeouts that it frees, and the scheduler after it
unfoldable pub purge : HashedWheelTimer → Run (List ℕ × HashedWheelTimer)
unfolding walk walk_all
purge t = do
  freed ← walk_all (length t.ref + 1) t.wheel t.store
  ok (freed, record t { wheel = []; ref = remove_all freed t.ref })
