-- ===== src/QuadTimer/Tick.antt =====
-- Update of src/QuadHeapTimer.cpp, whatever the actions do.
use mathlib.Core.List.Perm
use timer_benchmarks.Common.{
  Fault, Bool, true, map, Each, Each-perm, Each-cons, Each-head, Each-tail, ℕ, zero, suc, ◌+◌, ◌≤◌,
  ◌<◌, ◌≡◌, inl, inr, refl, List, [], ◌∷◌, Option, none, some, Returns, Ends, value, Ends-bind,
  Ends-map, Ends-if, Returns-Ends, length, nil_of_length, length-map, arith, ltb, ◌==◌,
}
use timer_benchmarks.Timer.Action.{Action, Entry, Updated, nothing, invoke}
use timer_benchmarks.Timer.Ids.{contains, remove}
use timer_benchmarks.Timer.Contract.{Ticked, IsStartFault, Each-without}
use timer_benchmarks.Timer.Budget.{budget, budget-start, budget-take, budget-lt}
use timer_benchmarks.Timer.Drained.{
  Drained, Drained-nothing, Drained-call, Drained-Ticked, Kept, IsStuck,
}
use timer_benchmarks.QuadHeap.{TimerNode, deltimer0}
use timer_benchmarks.QuadHeap.Remove.{Unrooted, deltimer0_removes}
use timer_benchmarks.QuadTimer.{
  QuadHeapTimer, start, cancel, entry, pending, live, update_loop, update,
}
use timer_benchmarks.QuadTimer.Valid.{
  IsValid, ids, state, unroot-IsValid, mark-IsValid, ids-mark, live-cons_alive, live-cons_deleted,
}
use timer_benchmarks.QuadTimer.Calls.{counter, start_enters, pending-mark}
use timer_benchmarks.QuadTimer.Quiet.{entries-perm}
use timer_benchmarks.Timer.Allows.{
  allows, allows_start, IsAllowed, is_start_fault, allows-start_faults, Ends-start_faults,
  invoke-Allowed,
}

-- the root, cancelled or not
abbrev pub front_of : List TimerNode → Option Entry
front_of [] = none
front_of (x ∷ a) = some (entry x)

abbrev pub front : QuadHeapTimer → Option Entry
front q = front_of q.timers

abbrev pub QuadDrained : ℕ → ℕ → ℕ → Updated QuadHeapTimer → Type 0
QuadDrained = Drained IsValid counter front (λ a. 1)

module _ (allowed : Fault → Bool) where
  -- every fault that a Start of these timers' actions may end in is allowed
  abbrev pub AllAllowed : List Entry → Type 0
  AllAllowed = Each (λ e. allows allowed e.action ≡ true)

  allowed-prop : (e : Entry) → IsProp (allows allowed e.action ≡ true)
  allowed-prop e = hlevel

  abbrev QuadKept : ℕ → ℕ → ℕ → QuadHeapTimer → Type 0
  QuadKept = Kept (λ q. IsValid q × AllAllowed (pending q)) counter (λ q. ids q.timers)

  start-Kept :
      (m c k clock duration : ℕ) (action : Action) (q : QuadHeapTimer)
      → allows_start allowed clock duration ≡ true
      → allows allowed action ≡ true
      → QuadKept m c k q
      → Ends (IsAllowed allowed) (λ r. QuadKept m c k r.1) (start clock duration action q)
  start-Kept m c k clock duration action q may inside p =
      Ends-map (start_enters q clock duration action p.valid.0 allowed may) λ r (s, perm). record {
        valid = (s.valid, Each-perm s.added (Each-cons allowed-prop inside p.valid.1));
        later = omega (arith, s.count, p.later);
        room =
            rw (s.count)
              (omega (arith, p.room, budget-start m q.next_id (Perm.map (λ x. x.id) perm)));
      }

  cancel-Kept :
      (m c k id : ℕ) (q : QuadHeapTimer)
      → QuadKept m c k q
      → Ends (IsAllowed allowed) (λ r. QuadKept m c k r.1) (cancel id q)
  unfolding cancel
  cancel-Kept m c k id q p =
      Ends-if (contains id q.ref)
        (λ _. value (record {
          valid = (
            mark-IsValid q id p.valid.0,
            rw (pending-mark id q.timers) (Each-without id p.valid.1),
          );
          later = p.later;
          room = rw ids-mark p.room;
        }))
        (λ _. value p)

  module _ (now m : ℕ) where
    loop_drains :
        (fuel c : ℕ) (a : List TimerNode) (ref : List ℕ)
        → IsValid (state c a ref)
        → AllAllowed (map entry (live a))
        → budget m c (ids a) < fuel
        → Ends (IsAllowed allowed) (QuadDrained now m c) (update_loop fuel now m (state c a ref))
    unfolding update_loop
    loop_drains zero c a ref v may f = absurd (omega arith)
    loop_drains (suc fuel) c [] ref v may f =
        value (Drained-nothing IsValid counter front (λ a. 1) now m (state c [] ref) v tt)
    loop_drains (suc fuel) c (x ∷ a) ref v may f =
        Ends-if (ltb now x.deadline) (λ early. value (halt (inl (ground arith))))
          (λ due.
            Ends-if (ltb m x.id) (λ newer. value (halt (inr (ground arith))))
              (λ old.
                Ends-if x.deleted
                  (λ gone. Ends-bind (Returns-Ends removed) λ b t.
                    loop_drains fuel c b (remove x.id ref) (unroot-IsValid c x a b ref v t)
                      (left b t (rw (live-cons_deleted x a gone) at may))
                      (omega (arith, spent b t (ground arith))))
                  (λ alive.
                    let may' = rw (live-cons_alive x a alive) at may in
                    Ends-bind (Returns-Ends removed) λ b t.
                      Ends-bind (called b t (Each-head may') (Each-tail may')) λ q' p.
                        Ends-bind
                          (loop_drains fuel q'.next_id q'.timers q'.ref p.valid.0 p.valid.1
                            (omega (arith, p.room, spent b t (ground arith))))
                          λ r d. value (
                            Drained-call IsValid counter front (λ a. 1) now m c q'.next_id
                              (r.fired + 1) (entry x) r (ground arith) (ground arith) p.later refl
                              d))))
      where
        halt : IsStuck now m (some (entry x)) → QuadDrained now m c (nothing (state c (x ∷ a) ref))
        halt = Drained-nothing IsValid counter front (λ a. 1) now m (state c (x ∷ a) ref) v

        removed : Returns (Unrooted (x ∷ a)) (deltimer0 (x ∷ a))
        removed = deltimer0_removes (x ∷ a) (omega arith) v.heap v.positive

        spent :
            (b : List TimerNode)
            → Unrooted (x ∷ a) b
            → x.id ≤ m
            → budget m c (ids (x ∷ a)) ≡ suc (budget m c (ids b))
        spent b t old = budget-take m c x.id old (Perm.map (λ y. y.id) t.1)

        left :
            (b : List TimerNode)
            → Unrooted (x ∷ a) b
            → AllAllowed (map entry (live a))
            → AllAllowed (map entry (live b))
        left b t h = Each-perm (entries-perm (Perm.cons_inv t.1)) h

        called :
            (b : List TimerNode)
            → Unrooted (x ∷ a) b
            → allows allowed x.action ≡ true
            → AllAllowed (map entry (live a))
            → Ends
                (IsAllowed allowed)
                (QuadKept m c (budget m c (ids b)))
                (invoke start cancel x.action (state c b (remove x.id ref)))
        called b t here there =
            let k = budget m c (ids b) in
            invoke-Allowed start cancel allowed (QuadKept m c k) (start-Kept m c k)
              (cancel-Kept m c k) x.action (state c b (remove x.id ref)) here
              (record {
                valid = (unroot-IsValid c x a b ref v t, left b t there);
                later = omega arith;
                room = omega arith;
              })

-- Let a set of faults allow those of every Start that the actions of the pending timers make, and
-- that the actions started by these make: an overflow for any Start, a failed CHECK for one whose
-- deadline is 0. QuadHeapTimer::Update on a state with the invariant then ends, with an allowed
-- fault or with a value; without such Starts no fault need be allowed. Where it returns, the
-- invariant holds again, every called timer was due and has an id of at most the counter before,
-- `fired` is the number of the calls, and the heap is empty or its root is not due or has an id
-- above that counter.
pub quad_update_drains :
    (allowed : Fault → Bool) (now : ℕ) (q : QuadHeapTimer)
    → IsValid q
    → AllAllowed allowed (pending q)
    → Ends (IsAllowed allowed) (QuadDrained now q.next_id q.next_id) (update now q)
unfolding update
quad_update_drains allowed now q v may =
    Ends-if (length q.timers == 0)
      (λ none. value (
        Drained-nothing IsValid counter front (λ a. 1) now q.next_id q v
          (rw (nil_of_length q.timers none) tt)))
      (λ _. loop_drains allowed now q.next_id (length q.timers + 2) q.next_id q.timers q.ref v may (
        omega (
          arith,
          budget-lt q.next_id (ids q.timers),
          length-map (λ (x : TimerNode). x.id) q.timers,
        )))

pub update_ticks :
    (now : ℕ) (q : QuadHeapTimer)
    → IsValid q
    → Ends IsStartFault (Ticked IsValid pending counter now q) (update now q)
update_ticks now q v = Ends-start_faults (
    Ends-map (quad_update_drains is_start_fault now q v (λ e _. allows-start_faults e.action))
      (Drained-Ticked IsValid counter front (λ a. 1) pending now q.next_id q))
