-- ===== src/RbTimer/Quiet.antt =====
-- Update of src/RBTreeTimer.cpp where no action calls the scheduler.
use native.Mathlib.Bridge.{le_prop}
use mathlib.Core.List.{Pairwise, Pairwise-cons, Pairwise-map, Pairwise-append}
use mathlib.Core.List.Pairwise
use timer_benchmarks.Common.{
  ℕ, zero, suc, ◌+◌, ◌≤◌, ◌<◌, ◌≡◌, refl, ap, List, [], ◌∷◌, ◌++◌, map, true, Returns, value,
  Ends-bind, Ends-map, Ends-if, length, nil_of_length, arith, ltb, ◌==◌, Each, Each-nil, Each-cons,
  Each-head, Each-tail, Each-map,
}
use timer_benchmarks.Timer.Action.{Entry, Updated, invoke-quiet}
use timer_benchmarks.Timer.Assoc.{erase}
use timer_benchmarks.Timer.Contract.{AllQuiet}
use timer_benchmarks.Timer.Emptied.{Emptied, Emptied-nothing, Emptied-call}
use timer_benchmarks.RbTimer.{
  NodeKey, less, Node, RbTreeTimer, start, cancel, entry, count_call, pending, update_loop, update,
}
use timer_benchmarks.RbTimer.Order.{IsSorted, erase_key-first}
use timer_benchmarks.RbTimer.Valid.{IsValid, state}
use timer_benchmarks.RbTimer.Calls.{counter}
use timer_benchmarks.RbTimer.Tick.{tail-IsValid}

abbrev pub RbEmptied : ℕ → ℕ → List Entry → Updated RbTreeTimer → Type 0
RbEmptied = Emptied IsValid pending counter

-- the calls and the timers that stay are the sequence before, in its order
abbrev pub Splits : List Entry → Updated RbTreeTimer → Type 0
Splits es r = r.calls ++ pending r.timer ≡ es

pub Each-entries :
    {P : Entry → Type 0}
    → ((e : Entry) → IsProp (P e))
    → (xs : List Node) → Each (λ x. P (entry x)) xs
    → Each P (map entry xs)
Each-entries {P} prop [] h = Each-nil P
Each-entries prop (x ∷ xs) h = Each-cons prop (Each-head h) (Each-entries prop xs (Each-tail h))

less-deadline : (a b : NodeKey) → less a b ≡ true → a.deadline ≤ b.deadline
unfolding less
less-deadline a b h = ground arith

first_earliest :
    (x : Node) (xs : List Node)
    → IsSorted (x ∷ xs)
    → Each (λ e. x.0.deadline ≤ e.deadline) (map entry xs)
first_earliest x xs s =
    Each-entries (λ e. le_prop) xs (Each-map (λ y h. less-deadline x.0 y.0 h) (Pairwise-cons.0 s).0)

module _ (now : ℕ) where
  loop_empties :
      (fuel c : ℕ) (xs : List Node) (ref : List (ℕ × NodeKey))
      → IsValid (state c xs ref)
      → AllQuiet (map entry xs)
      → length xs < fuel
      → Returns
          (λ r. RbEmptied now c (map entry xs) r × Splits (map entry xs) r)
          (update_loop fuel now c (state c xs ref))
  unfolding update_loop
  loop_empties zero c xs ref v q f = absurd (omega arith)
  loop_empties (suc fuel) c [] ref v q f =
      value (Emptied-nothing IsValid pending counter now (state c [] ref) v (Each-nil _), refl)
  loop_empties (suc fuel) c (x ∷ xs) ref v q f =
      Ends-if (ltb now x.0.deadline)
        (λ early. value (
          Emptied-nothing IsValid pending counter now (state c (x ∷ xs) ref) v (
              Each-cons (λ e. le_prop) (ground arith)
                (Each-map (λ e h. ground arith) (first_earliest x xs v.sorted))),
          refl,
        ))
        (λ due.
          Ends-if (ltb c x.0.id) (λ newer. absurd (ground (arith, Each-head v.fresh)))
            (λ old.
              rw
                (
                  erase_key-first x xs v.sorted,
                  invoke-quiet start cancel x.1 (state c xs (erase x.0.id ref)) (Each-head q),
                )
                (Ends-bind
                  (loop_empties fuel c xs (erase x.0.id ref) (tail-IsValid c x xs ref v)
                    (Each-tail q) (omega arith))
                  λ r (d, split). value (
                    Emptied-call IsValid pending counter now c (count_call x.1 r.fired) (entry x)
                        (map entry xs) r (ground arith) (first_earliest x xs v.sorted) d,
                    ap (◌∷◌ (entry x)) split,
                  ))))

-- Where the invariant holds and no pending action calls the scheduler, RBTreeTimer::Update(now)
-- returns. It calls exactly the pending timers whose deadline is at most `now`, in the order of the
-- deadlines, and the calls followed by the timers that stay are the sequence of pending timers
-- before, in its order. The counter does not change and the invariant holds again.
pub update-Splits :
    (now : ℕ) (q : RbTreeTimer)
    → IsValid q
    → AllQuiet (pending q)
    → Returns (λ r. RbEmptied now q.next_id (pending q) r × Splits (pending q) r) (update now q)
unfolding update
update-Splits now q v quiet =
    Ends-if (length q.timers == 0)
      (λ none. value (
        Emptied-nothing IsValid pending counter now q v
            (Each-entries (λ e. le_prop) q.timers (rw (nil_of_length q.timers none) (Each-nil _))),
        refl,
      ))
      (λ _. loop_empties now (length q.timers + 2) q.next_id q.timers q.ref v quiet (omega arith))

-- of two timers with one deadline the one with the larger id stands in front
abbrev pub Before : Entry → Entry → Type 0
Before e f = (e.deadline ≤ f.deadline) × (e.deadline ≡ f.deadline → f.id < e.id)

abbrev pub IsLifo : List Entry → Type 0
IsLifo = Pairwise Before

Before-prop : (e f : Entry) → IsProp (Before e f)
Before-prop e f = hlevel le_prop

less-lifo :
    (a b : NodeKey)
    → less a b ≡ true
    → (a.deadline ≤ b.deadline) × (a.deadline ≡ b.deadline → b.id < a.id)
unfolding less
less-lifo a b h = (ground arith, λ e. ground arith)

pending-IsLifo : (xs : List Node) → IsSorted xs → IsLifo (map entry xs)
pending-IsLifo xs s =
    (Pairwise-map Before-prop entry).1 (Pairwise.imp (λ x y h. less-lifo x.0 y.0 h) s)

-- Where the invariant holds and no pending action calls the scheduler, RBTreeTimer::Update returns,
-- and of the timers that it calls, any two come in the order of their deadlines, and two with equal
-- deadlines with the larger id, which was started later, first.
pub update-IsLifo :
    (now : ℕ) (q : RbTreeTimer)
    → IsValid q
    → AllQuiet (pending q)
    → Returns (λ r. IsLifo r.calls) (update now q)
update-IsLifo now q v quiet = Ends-map (update-Splits now q v quiet) λ r (d, split).
    let whole : IsLifo (r.calls ++ pending r.timer) = rw split (pending-IsLifo q.timers v.sorted) in
    ((Pairwise-append Before-prop).0 whole).0
