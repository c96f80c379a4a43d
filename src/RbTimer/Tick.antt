-- ===== src/RbTimer/Tick.antt =====
-- Update of src/RBTreeTimer.cpp, whatever the actions do.
use mathlib.Core.List.Perm
use timer_benchmarks.Common.{
  ℕ, zero, suc, ◌+◌, ◌<◌, ◌≡◌, inl, inr, refl, sym, ◌∙◌, List, [], ◌∷◌, not, Option, none, some,
  Ends, value, Ends-bind, Ends-map, Ends-if, length, nil_of_length, length-map, arith, ltb, ◌==◌,
  Option-cases, Each-head,
}
use timer_benchmarks.Timer.Action.{Action, null, run, Entry, Updated, nothing, invoke, invoke-Ends}
use timer_benchmarks.Timer.Ids.{select}
use timer_benchmarks.Timer.Assoc.{find, erase}
use timer_benchmarks.Timer.Contract.{Ticked, IsStartFault}
use timer_benchmarks.Timer.Budget.{budget, budget-select-le, budget-start, budget-take, budget-lt}
use timer_benchmarks.Timer.Drained.{
  Drained, Drained-nothing, Drained-call, Drained-Ticked, Kept, IsStuck,
}
use timer_benchmarks.RbTimer.{
  NodeKey, Node, RbTreeTimer, start, cancel, entry, count_call, pending, update_loop, update,
}
use timer_benchmarks.RbTimer.Order.{erase_key-first}
use timer_benchmarks.RbTimer.Valid.{
  IsValid, ids, state, drop_id, erase_key-drop_id, drop_id-IsValid,
}
use timer_benchmarks.RbTimer.Calls.{counter, start_enters}

abbrev pub front_of : List Node → Option Entry
front_of [] = none
front_of (x ∷ xs) = some (entry x)

abbrev pub front : RbTreeTimer → Option Entry
front q = front_of q.timers

-- an empty action does not count
abbrev pub weigh : Action → ℕ
weigh null = 0
weigh (run body) = 1

abbrev pub RbDrained : ℕ → ℕ → ℕ → Updated RbTreeTimer → Type 0
RbDrained = Drained IsValid counter front weigh

abbrev RbKept : ℕ → ℕ → ℕ → RbTreeTimer → Type 0
RbKept = Kept IsValid counter (λ q. ids q.timers)

count_call-weigh : (a : Action) (n : ℕ) → count_call a n ≡ n + weigh a
count_call-weigh null n = omega arith
count_call-weigh (run body) n = refl

ids-drop_id : (id : ℕ) (xs : List Node) → ids (drop_id id xs) ≡ select (λ k. not (k == id)) (ids xs)
unfolding drop_id select
ids-drop_id id [] = refl
ids-drop_id id (x ∷ xs) = ground (arith, ids-drop_id id xs)

start-Kept :
    (m c k clock duration : ℕ) (action : Action) (q : RbTreeTimer)
    → RbKept m c k q
    → Ends IsStartFault (λ r. RbKept m c k r.1) (start clock duration action q)
start-Kept m c k clock duration action q p =
    Ends-map (start_enters q clock duration action p.valid) λ r (s, perm). record {
      valid = s.valid;
      later = omega (arith, s.count, p.later);
      room =
          rw s.count
            (omega (arith, p.room, budget-start m q.next_id (Perm.map (λ x. x.0.id) perm)));
    }

cancel-Kept :
    (m c k id : ℕ) (q : RbTreeTimer)
    → RbKept m c k q
    → Ends IsStartFault (λ r. RbKept m c k r.1) (cancel id q)
unfolding cancel
cancel-Kept m c k id q p = elim (Option-cases (find id q.ref)) [
  | inl e ↦ rw (e, cancel) (value p)
  | inr (key, e) ↦
      let fewer = budget-select-le m q.next_id (λ k. not (k == id)) (ids q.timers) in
      rw (e, cancel, erase_key-drop_id q id key p.valid e)
        (value (record {
          valid = drop_id-IsValid q id p.valid;
          later = p.later;
          room = rw ids-drop_id (omega (arith, p.room, fewer));
        }))
]

-- to take the first element keeps the invariant
pub tail-IsValid :
    (c : ℕ) (x : Node) (xs : List Node) (ref : List (ℕ × NodeKey))
    → IsValid (state c (x ∷ xs) ref)
    → IsValid (state c xs (erase x.0.id ref))
tail-IsValid c x xs ref v =
    let q = state c (x ∷ xs) ref in
    let dropped : drop_id x.0.id (x ∷ xs) ≡ xs =
      sym (erase_key-drop_id q x.0.id x.0 v (Each-head v.refs)) ∙ erase_key-first x xs v.sorted in
    rw dropped at (drop_id-IsValid q x.0.id v)

module _ (now m : ℕ) where
  loop_drains :
      (fuel c : ℕ) (xs : List Node) (ref : List (ℕ × NodeKey))
      → IsValid (state c xs ref)
      → budget m c (ids xs) < fuel
      → Ends IsStartFault (RbDrained now m c) (update_loop fuel now m (state c xs ref))
  unfolding update_loop
  loop_drains zero c xs ref v f = absurd (omega arith)
  loop_drains (suc fuel) c [] ref v f =
      value (Drained-nothing IsValid counter front weigh now m (state c [] ref) v tt)
  loop_drains (suc fuel) c (x ∷ xs) ref v f =
      Ends-if (ltb now x.0.deadline) (λ early. value (halt (inl (ground arith))))
        (λ due.
          Ends-if (ltb m x.0.id) (λ newer. value (halt (inr (ground arith))))
            (λ old. rw (erase_key-first x xs v.sorted) (
              Ends-bind called λ q' p.
                Ends-bind
                  (loop_drains fuel q'.next_id q'.timers q'.ref p.valid
                    (omega (arith, p.room, budget-take m c x.0.id (ground arith) Perm.rfl)))
                  λ r d. value (
                    Drained-call IsValid counter front weigh now m c q'.next_id
                      (count_call x.1 r.fired) (entry x) r (ground arith) (ground arith) p.later
                      (count_call-weigh x.1 r.fired) d))))
    where
      halt : IsStuck now m (some (entry x)) → RbDrained now m c (nothing (state c (x ∷ xs) ref))
      halt = Drained-nothing IsValid counter front weigh now m (state c (x ∷ xs) ref) v

      called :
          Ends IsStartFault
            (RbKept m c (budget m c (ids xs)))
            (invoke start cancel x.1 (state c xs (erase x.0.id ref)))
      called =
          let k = budget m c (ids xs) in
          invoke-Ends start cancel IsStartFault (RbKept m c k) (start-Kept m c k)
            (cancel-Kept m c k) x.1 (state c xs (erase x.0.id ref))
            (record { valid = tail-IsValid c x xs ref v; later = omega arith; room = omega arith })

-- Whatever the actions start and cancel while it runs, RBTreeTimer::Update on a state with the
-- invariant ends, and only a Start of an action may stop the program. Otherwise the invariant holds
-- again, every called timer was due and has an id of at most the counter before, `fired` is the
-- number of the calls whose action is not empty, and the tree is empty or its first timer is not
-- due or has an id above that counter.
pub rb_update_drains :
    (now : ℕ) (q : RbTreeTimer)
    → IsValid q
    → Ends IsStartFault (RbDrained now q.next_id q.next_id) (update now q)
unfolding update
rb_update_drains now q v =
    Ends-if (length q.timers == 0)
      (λ none. value (
        Drained-nothing IsValid counter front weigh now q.next_id q v
          (rw (nil_of_length q.timers none) tt)))
      (λ _. loop_drains now q.next_id (length q.timers + 2) q.next_id q.timers q.ref v (
        omega
          (arith, budget-lt q.next_id (ids q.timers), length-map (λ (x : Node). x.0.id) q.timers)))

pub update_ticks :
    (now : ℕ) (q : RbTreeTimer)
    → IsValid q
    → Ends IsStartFault (Ticked IsValid pending counter now q) (update now q)
update_ticks now q v =
    Ends-map (rb_update_drains now q v)
      (Drained-Ticked IsValid counter front weigh pending now q.next_id q)
