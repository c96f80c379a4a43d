-- ===== src/PqTimer/Order.antt =====
-- The order in which src/PriorityQueueTimer.cpp calls timers: siftupTimer compares addresses.
use mathlib.Core.List.{mem-cons_self, mem-cons_of_mem}
use timer_benchmarks.Common.{
  ℕ, ◌+◌, ◌≤◌, ◌<◌, ◌≡◌, refl, [], Mem, false, arith, ltb, true, lt→ltb, Run, Returns, value, ◌>>=◌,
}
use timer_benchmarks.Timer.{first_id, next_id, expiry-ok, int64_max}
use timer_benchmarks.Timer.Action.{Action, Updated}
use timer_benchmarks.PqHeap.{siftup}
use timer_benchmarks.PqTimer.{PriorityQueueTimer, create, start, update, pending}

-- two timers, then one Update
abbrev pub two_then_update :
    (ℕ → ℕ) → ℕ → ℕ → ℕ → ℕ → Action → Action → ℕ → Run (Updated PriorityQueueTimer)
two_then_update addr clock duration clock' duration' action action' now = do
  (_, q) ← start addr clock duration action create
  (_, q') ← start addr clock' duration' action' q
  update addr now q'

-- A due timer is missed by PriorityQueueTimer. Start two timers on a new scheduler, where the
-- second node lies at the higher address. At a `now` where the second timer is due and the first is
-- not, and the first deadline fits an `int64_t`, Update returns 0, calls nothing, and the due timer
-- is still pending.
pub update_misses :
    (addr : ℕ → ℕ) (clock duration clock' duration' now : ℕ) (action action' : Action)
    → addr first_id < addr (first_id + 1)
    → now < clock + duration
    → clock' + duration' ≤ now
    → clock + duration ≤ int64_max
    → Returns
        (λ r.
          (r.fired ≡ 0)
          × (r.calls ≡ [])
          × Mem
              (record { id = first_id + 1; deadline = clock' + duration'; action = action' })
              (pending r.timer))
        (two_then_update addr clock duration clock' duration' action action' now)
unfolding create start update siftup next_id
update_misses addr clock duration clock' duration' now action action' low later due short =
    let higher : ltb (addr 2021) (addr 2020) ≡ false = ground arith in
    let early : ltb now (clock + duration) ≡ true = lt→ltb now (clock + duration) later in
    rw (expiry-ok clock duration short, expiry-ok clock' duration' (omega arith), higher, early)
      (value (refl, refl, mem-cons_of_mem _ mem-cons_self))
