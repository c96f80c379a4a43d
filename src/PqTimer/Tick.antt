-- ===== src/PqTimer/Tick.antt =====
-- Update of src/PriorityQueueTimer.cpp, whatever the actions do.
use mathlib.Core.List.Perm
use timer_benchmarks.Common.{
  ℕ, zero, suc, ◌+◌, ◌<◌, ◌≡◌, inl, inr, refl, List, [], ◌∷◌, not, Option, none, some, Ends,
  Returns-Ends, value, Ends-bind, Ends-map, Ends-if, length, nil_of_length, length-map, arith, ltb,
  ◌==◌,
}
use timer_benchmarks.Timer.Action.{Action, Entry, Updated, nothing, invoke, invoke-Ends}
use timer_benchmarks.Timer.Ids.{select, remove}
use timer_benchmarks.Timer.Contract.{Ticked, IsStartFault, keys, without}
use timer_benchmarks.Timer.Budget.{
  budget, budget-perm, budget-select-le, budget-start, budget-take, budget-lt,
}
use timer_benchmarks.Timer.Drained.{
  Drained, Drained-nothing, Drained-call, Drained-Ticked, Kept, IsStuck,
}
use timer_benchmarks.PqHeap.{TimerNode, entry, entries}
use timer_benchmarks.PqHeap.Remove.{Removed, remove_removes}
use timer_benchmarks.PqTimer.{PriorityQueueTimer, start, cancel, pending, update_loop, update}
use timer_benchmarks.PqTimer.Valid.{IsValid, state, take-IsValid}
use timer_benchmarks.PqTimer.Calls.{counter, start_enters, pq_cancel_removes}

abbrev pub front_of : List TimerNode → Option Entry
front_of [] = none
front_of (x ∷ a) = some (entry x)

abbrev pub front : PriorityQueueTimer → Option Entry
front q = front_of q.timers

abbrev pub PqDrained : ℕ → ℕ → ℕ → Updated PriorityQueueTimer → Type 0
PqDrained = Drained IsValid counter front (λ a. 1)

abbrev PqKept : ℕ → ℕ → ℕ → PriorityQueueTimer → Type 0
PqKept = Kept IsValid counter (λ q. keys (pending q))

keys-without :
    (id : ℕ) (es : List Entry) → keys (without id es) ≡ select (λ k. not (k == id)) (keys es)
unfolding without select
keys-without id [] = refl
keys-without id (e ∷ es) = ground (arith, keys-without id es)

module _ (addr : ℕ → ℕ) (m c k : ℕ) where
  start-Kept :
      (clock duration : ℕ) (action : Action) (q : PriorityQueueTimer)
      → PqKept m c k q
      → Ends IsStartFault (λ r. PqKept m c k r.1) (start addr clock duration action q)
  start-Kept clock duration action q p =
      Ends-map (start_enters addr q clock duration action p.valid) λ r (s, perm). record {
        valid = s.valid;
        later = omega (arith, s.count, p.later);
        room =
            rw s.count
              (omega (arith, p.room, budget-start m q.next_id (Perm.map (λ x. x.id) perm)));
      }

  cancel-Kept :
      (id : ℕ) (q : PriorityQueueTimer)
      → PqKept m c k q
      → Ends IsStartFault (λ r. PqKept m c k r.1) (cancel addr id q)
  cancel-Kept id q p = Ends-map (Returns-Ends (pq_cancel_removes addr q id p.valid)) λ r s.
      let fewer = budget-select-le m q.next_id (λ j. not (j == id)) (keys (pending q)) in
      let same = budget-perm m q.next_id (Perm.map (λ x. x.id) s.removed) in
      record {
        valid = s.valid;
        later = omega (arith, s.count, p.later);
        room = rw s.count (omega (arith, rw (keys-without id (pending q)) at same, fewer, p.room));
      }

module _ (addr : ℕ → ℕ) (now m : ℕ) where
  loop_drains :
      (fuel c : ℕ) (a : List TimerNode) (ref : List ℕ)
      → IsValid (state c a ref)
      → budget m c (keys (entries a)) < fuel
      → Ends IsStartFault (PqDrained now m c) (update_loop addr fuel now m (state c a ref))
  unfolding update_loop
  loop_drains zero c a ref v f = absurd (omega arith)
  loop_drains (suc fuel) c [] ref v f =
      value (Drained-nothing IsValid counter front (λ a. 1) now m (state c [] ref) v tt)
  loop_drains (suc fuel) c (x ∷ a) ref v f =
      Ends-if (ltb now x.deadline) (λ early. value (halt (inl (ground arith))))
        (λ due.
          Ends-if (ltb m x.id) (λ newer. value (halt (inr (ground arith))))
            (λ old.
              Ends-bind (Returns-Ends (remove_removes addr (x ∷ a) 0 (omega arith) v.indexed))
                λ b t. Ends-bind (called b t) λ q' p.
                  Ends-bind
                    (loop_drains fuel q'.next_id q'.timers q'.ref p.valid (
                      omega (
                        arith,
                        p.room,
                        budget-take m c x.id (ground arith) (Perm.map (λ y. y.id) t.1),
                      )))
                    λ r d. value (
                      Drained-call IsValid counter front (λ a. 1) now m c q'.next_id (r.fired + 1)
                        (entry x) r (ground arith) (ground arith) p.later refl d)))
    where
      halt : IsStuck now m (some (entry x)) → PqDrained now m c (nothing (state c (x ∷ a) ref))
      halt = Drained-nothing IsValid counter front (λ a. 1) now m (state c (x ∷ a) ref) v

      called :
          (b : List TimerNode)
          → Removed (x ∷ a) 0 b
          → Ends IsStartFault
              (PqKept m c (budget m c (keys (entries b))))
              (invoke (start addr) (cancel addr) x.action (state c b (remove x.id ref)))
      called b t =
          let k = budget m c (keys (entries b)) in
          invoke-Ends (start addr) (cancel addr) IsStartFault (PqKept m c k) (start-Kept addr m c k)
            (cancel-Kept addr m c k) x.action (state c b (remove x.id ref))
            (record {
              valid = take-IsValid (state c (x ∷ a) ref) (entry x) b v t.0 t.1;
              later = omega arith;
              room = omega arith;
            })

length-keys : (a : List TimerNode) → length (keys (entries a)) ≡ length a
length-keys a = omega (arith, length-map (λ (e : Entry). e.id) (entries a), length-map entry a)

-- For any addresses of the nodes and whatever the actions start and cancel while it runs,
-- PriorityQueueTimer::Update on a state with the invariant ends, and only a Start of an action may
-- stop the program. Otherwise the invariant holds again, every called timer was due and has an id
-- of at most the counter before, `fired` is the number of the calls, and the vector is empty or its
-- first node is not due or has an id above that counter.
pub pq_update_drains :
    (addr : ℕ → ℕ) (now : ℕ) (q : PriorityQueueTimer)
    → IsValid q
    → Ends IsStartFault (PqDrained now q.next_id q.next_id) (update addr now q)
unfolding update
pq_update_drains addr now q v =
    Ends-if (length q.timers == 0)
      (λ none. value (
        Drained-nothing IsValid counter front (λ a. 1) now q.next_id q v
          (rw (nil_of_length q.timers none) tt)))
      (λ _.
        loop_drains addr now q.next_id (length q.timers + 2) q.next_id q.timers q.ref v
          (omega (arith, budget-lt q.next_id (keys (pending q)), length-keys q.timers)))

pub update_ticks :
    (addr : ℕ → ℕ) (now : ℕ) (q : PriorityQueueTimer)
    → IsValid q
    → Ends IsStartFault (Ticked IsValid pending counter now q) (update addr now q)
update_ticks addr now q v =
    Ends-map (pq_update_drains addr now q v)
      (Drained-Ticked IsValid counter front (λ a. 1) pending now q.next_id q)
