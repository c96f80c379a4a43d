-- ===== src/QuadTimer/Quiet.antt =====
-- Update of src/QuadHeapTimer.cpp where no action calls the scheduler.
use native.Mathlib.Bridge.{le_prop}
use mathlib.Core.List.Perm
use timer_benchmarks.Common.{
  ℕ, inl, inr, zero, suc, ◌+◌, ◌≤◌, ◌<◌, List, [], ◌∷◌, map, Perm, Returns, value, Ends-bind,
  Ends-map, Ends-if, Each, Each-nil, Each-cons, Each-map, Each-perm, Each-head, Each-tail, length,
  length-perm, nil_of_length, arith, ltb, Bool-cases, ◌==◌,
}
use timer_benchmarks.Timer.Action.{Entry, Updated, invoke-quiet}
use timer_benchmarks.Timer.Ids.{select, select-perm, remove}
use timer_benchmarks.Timer.Contract.{AllQuiet}
use timer_benchmarks.Timer.Emptied.{Emptied, Emptied-nothing, Emptied-call, Emptied-perm}
use timer_benchmarks.QuadHeap.{TimerNode, deltimer0}
use timer_benchmarks.QuadHeap.Order.{root_earliest}
use timer_benchmarks.QuadHeap.Remove.{Unrooted, deltimer0_removes}
use timer_benchmarks.QuadTimer.{
  QuadHeapTimer, start, cancel, entry, live, pending, update_loop, update,
}
use timer_benchmarks.QuadTimer.Valid.{
  IsValid, state, unroot-IsValid, live-cons_alive, live-cons_deleted,
}
use timer_benchmarks.QuadTimer.Calls.{counter}

-- what holds of every node's entry holds of every pending timer
pub Each-entries :
    {P : Entry → Type 0}
    → ((e : Entry) → IsProp (P e))
    → (a : List TimerNode) → Each (λ x. P (entry x)) a
    → Each P (map entry (live a))
unfolding select
Each-entries {P} prop [] h = Each-nil P
Each-entries prop (x ∷ a) h = elim (Bool-cases x.deleted) [
  | inl e ↦ rw (e) (Each-entries prop a (Each-tail h))
  | inr e ↦ rw (e) (Each-cons prop (Each-head h) (Each-entries prop a (Each-tail h)))
]

abbrev pub QuadEmptied : ℕ → ℕ → List Entry → Updated QuadHeapTimer → Type 0
QuadEmptied = Emptied IsValid pending counter

pub entries-perm :
    {a b : List TimerNode} → Perm a b → Perm (map entry (live a)) (map entry (live b))
entries-perm p = Perm.map entry (select-perm _ p)

module _ (now : ℕ) where
  loop_empties :
      (fuel c : ℕ) (a : List TimerNode) (ref : List ℕ)
      → IsValid (state c a ref)
      → AllQuiet (map entry (live a))
      → length a < fuel
      → Returns (QuadEmptied now c (map entry (live a))) (update_loop fuel now c (state c a ref))
  unfolding update_loop
  loop_empties zero c a ref v q f = absurd (omega arith)
  loop_empties (suc fuel) c [] ref v q f = value (
      Emptied-nothing IsValid pending counter now (state c [] ref) v
        (Each-entries (λ e. le_prop) [] (Each-nil _)))
  loop_empties (suc fuel) c (x ∷ a) ref v q f =
      Ends-if (ltb now x.deadline)
        (λ early. value (
          Emptied-nothing IsValid pending counter now (state c (x ∷ a) ref) v
            (Each-entries (λ e. le_prop) (x ∷ a) (Each-map (λ y h. ground arith) earliest))))
        (λ due.
          Ends-if (ltb c x.id) (λ newer. absurd (ground (arith, Each-head v.fresh)))
            (λ old.
              Ends-if x.deleted
                (λ gone. rw (live-cons_deleted x a gone) (
                  Ends-bind removed λ b t.
                    settled b t (rw (live-cons_deleted x a gone) at q)
                      (loop_empties fuel c b (remove x.id ref))))
                (λ alive.
                  let quiet = rw (live-cons_alive x a alive) at q in
                  let least = rw (live-cons_alive x a alive) at earliest_entries in
                  rw (live-cons_alive x a alive) (
                    Ends-bind removed λ b t.
                      rw
                        (invoke-quiet start cancel x.action (state c b (remove x.id ref))
                          (Each-head quiet))
                        (Ends-bind
                          (settled b t (Each-tail quiet) (loop_empties fuel c b (remove x.id ref)))
                          λ r d. value (
                            Emptied-call IsValid pending counter now c (r.fired + 1) (entry x)
                              (map entry (live a)) r (ground arith) (Each-tail least) d))))))
    where
      removed : Returns (Unrooted (x ∷ a)) (deltimer0 (x ∷ a))
      removed = deltimer0_removes (x ∷ a) (omega arith) v.heap v.positive

      earliest : Each (λ y. x.deadline ≤ y.deadline) (x ∷ a)
      earliest = root_earliest (x ∷ a) v.heap

      earliest_entries : Each (λ e. x.deadline ≤ e.deadline) (map entry (live (x ∷ a)))
      earliest_entries = Each-entries (λ e. le_prop) (x ∷ a) earliest

      -- the rest of the loop, on the heap `b` without the root
      settled :
          (b : List TimerNode)
          → Unrooted (x ∷ a) b
          → AllQuiet (map entry (live a))
          → (IsValid (state c b (remove x.id ref))
              → AllQuiet (map entry (live b))
              → length b < fuel
              → Returns
                  (QuadEmptied now c (map entry (live b)))
                  (update_loop fuel now c (state c b (remove x.id ref))))
          → Returns
              (QuadEmptied now c (map entry (live a)))
              (update_loop fuel now c (state c b (remove x.id ref)))
      settled b t quiet rest =
          let same : Perm b a = Perm.cons_inv t.1 in
          Ends-map
            (rest (unroot-IsValid c x a b ref v t) (Each-perm (entries-perm same) quiet)
              (omega (arith, length-perm same)))
            λ r d.
              Emptied-perm IsValid pending counter now c (map entry (live b)) (map entry (live a)) r
                (entries-perm same) d

-- Where the invariant holds and no pending action calls the scheduler, QuadHeapTimer::Update(now)
-- returns. It calls exactly the pending timers whose deadline is at most `now`, once each and with
-- no timer before one that expires earlier. The others stay pending, the counter of ids does not
-- change, and the invariant holds again.
pub update_empties :
    (now : ℕ) (q : QuadHeapTimer)
    → IsValid q
    → AllQuiet (pending q)
    → Returns (QuadEmptied now q.next_id (pending q)) (update now q)
unfolding update
update_empties now q v quiet =
    Ends-if (length q.timers == 0)
      (λ none. value (
        Emptied-nothing IsValid pending counter now q v
          (Each-entries (λ e. le_prop) q.timers (rw (nil_of_length q.timers none) (Each-nil _)))))
      (λ _. loop_empties now (length q.timers + 2) q.next_id q.timers q.ref v quiet (omega arith))
