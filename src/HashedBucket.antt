-- ===== src/HashedBucket.antt =====
-- src/HashedWheelBucket.h and src/HashedWheelBucket.cpp: the doubly linked list of timeouts in a
-- bucket. Timeouts live in a store under their ids, which stand for their addresses. Rounds below
-- zero count as zero: the code only tests them against zero, and decrements positive ones.
pub mod Chain
pub mod Bypass
pub mod Rounds
pub mod Poll
pub mod Expire
pub mod Add
pub mod Remove
use timer_benchmarks.Common.{
  ℕ, zero, suc, ◌-◌, List, [], ◌∷◌, Bool, true, false, Run, ok, fault, out_of_fuel, check_failed,
  null_pointer, require, from_option, ◌>>=◌, ◌>>◌, Option, none, some, ltb, ◌==◌, if◌then◌else◌,
}
use timer_benchmarks.Timer.Action.{Action}

pub record HashedWheelTimeout : Type 0 where
  pub next : Option ℕ
  pub prev : Option ℕ
  pub bucket : Option ℕ
  pub remaining_rounds : ℕ
  pub deadline : ℕ
  pub action : Action

-- the constructor's call in allocTimeout
abbrev pub new_timeout : ℕ → Action → HashedWheelTimeout
new_timeout deadline action = record {
  next = none;
  prev = none;
  bucket = none;
  remaining_rounds = 0;
  deadline = deadline;
  action = action;
}

pub record HashedWheelBucket : Type 0 where
  pub head : Option ℕ
  pub tail : Option ℕ

abbrev pub empty_bucket : HashedWheelBucket
empty_bucket = record { head = none; tail = none }

abbrev pub Store : Type 0
Store = ℕ → HashedWheelTimeout

-- the store with `x` at the address `p`
abbrev pub write : ℕ → HashedWheelTimeout → Store → Store
write p x store q = if p == q then x else store q

-- `p->next = v` and `p->prev = v` where `p` is not null
abbrev pub write_next : Option ℕ → Option ℕ → Store → Store
write_next none v store = store
write_next (some p) v store = write p (record (store p) { next = v }) store

abbrev pub write_prev : Option ℕ → Option ℕ → Store → Store
write_prev none v store = store
write_prev (some p) v store = write p (record (store p) { prev = v }) store

-- `pointer == p`
abbrev pub points_to : Option ℕ → ℕ → Bool
points_to none p = false
points_to (some q) p = q == p

abbrev pub is_null : Option ℕ → Bool
is_null none = true
is_null (some q) = false

-- AddTimeout of the bucket with the index `self`
unfoldable pub add_timeout : ℕ → ℕ → HashedWheelBucket → Store → Run (HashedWheelBucket × Store)
add_timeout self p bucket store = do
  require (is_null (store p).bucket) check_failed
  let owned = write p (record (store p) { bucket = some self }) store
  elim bucket.head [
    | none ↦ ok (record { head = some p; tail = some p }, owned)
    | some _ ↦ do
      tail ← from_option null_pointer bucket.tail
      let linked = write tail (record (owned tail) { next = some p }) owned
      ok (record bucket { tail = some p }, write p (record (linked p) { prev = some tail }) linked)
  ]

-- the store after the neighbours of `p` are linked to each other
abbrev pub bypass : ℕ → Store → Store
bypass p store =
    let before = write_next (store p).prev (store p).next store in
    write_prev (before p).next (before p).prev before

-- the new ends of the bucket, once `p` is bypassed in `store`
abbrev pub ends_without : ℕ → HashedWheelBucket → Option ℕ → Store → HashedWheelBucket
ends_without p bucket next store =
    if points_to bucket.head p
    then (if points_to bucket.tail p then empty_bucket else record bucket { head = next })
    else (if points_to bucket.tail p then record bucket { tail = (store p).prev } else bucket)

-- Remove: the next timeout, the bucket and the store
unfoldable pub remove_timeout : ℕ → HashedWheelBucket → Store → Option ℕ × HashedWheelBucket × Store
remove_timeout p bucket store =
    let next = (store p).next in
    let linked = bypass p store in
    (
      next,
      ends_without p bucket next linked,
      write p (record (linked p) { prev = none; next = none; bucket = none }) linked,
    )

-- the `while` of ExpireTimeouts from `timeout` on: the expired timeouts, in order
pub expire_loop :
    ℕ → ℕ → Option ℕ → HashedWheelBucket → Store → Run (List ℕ × HashedWheelBucket × Store)
expire_loop zero deadline timeout bucket store = out_of_fuel
expire_loop (suc fuel) deadline none bucket store = ok ([], bucket, store)
expire_loop (suc fuel) deadline (some p) bucket store =
    let removed = remove_timeout p bucket store in
    let expire : Run (List ℕ × HashedWheelBucket × Store) = do
      let late = ltb deadline (removed.2 p).deadline
      (expired, bucket', store') ←
          if late
          then fault check_failed
          else expire_loop fuel deadline removed.0 removed.1 removed.2
      ok (p ∷ expired, bucket', store')
    in let keep : Run (List ℕ × HashedWheelBucket × Store) =
        expire_loop fuel deadline (store p).next bucket (
          write p (record (store p) { remaining_rounds = (store p).remaining_rounds - 1 }) store) in
      if (store p).remaining_rounds == 0 then expire else keep

-- ExpireTimeouts
unfoldable pub expire_timeouts :
    ℕ → ℕ → HashedWheelBucket → Store → Run (List ℕ × HashedWheelBucket × Store)
unfolding expire_loop remove_timeout
expire_timeouts fuel deadline bucket store = expire_loop fuel deadline bucket.head bucket store

-- pollTimeout
unfoldable pub poll_timeout : HashedWheelBucket → Store → Option ℕ × HashedWheelBucket × Store
poll_timeout bucket store = elim bucket.head [
  | none ↦ (none, bucket, store)
  | some p ↦
      let next = (store p).next in
      let linked = write_prev next none store in
      (
        some p,
        if is_null next then empty_bucket else record bucket { head = next },
        write p (record (linked p) { prev = none; next = none; bucket = none }) linked,
      )
]

-- ClearTimeouts: the timeouts that it puts into the set, in order
unfoldable pub clear_timeouts :
    ℕ → HashedWheelBucket → Store → Run (List ℕ × HashedWheelBucket × Store)
unfolding poll_timeout
clear_timeouts zero bucket store = out_of_fuel
clear_timeouts (suc fuel) bucket store =
    let polled = poll_timeout bucket store in
    let rest = clear_timeouts fuel polled.1 polled.2 in
    elim polled.0 [
      | none ↦ ok ([], polled.1, polled.2)
      | some p ↦ do (set, bucket', store') ← rest; ok (p ∷ set, bucket', store')
    ]
