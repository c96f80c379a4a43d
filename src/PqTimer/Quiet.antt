-- ===== src/PqTimer/Quiet.antt =====
-- Update of src/PriorityQueueTimer.cpp where no action calls the scheduler.
use mathlib.Core.List.Perm
use native.Mathlib.Bridge.{le_prop}
use timer_benchmarks.Common.{
  ℕ, zero, suc, ◌+◌, ◌<◌, ◌≡◌, refl, List, [], ◌∷◌, Returns, value, Ends-bind, Ends-if, length,
  length-perm, length-map, arith, ltb, ◌==◌, Each-nil, Each-cons, Each-head, Each-tail, Each-perm,
}
use timer_benchmarks.Timer.Action.{Updated, nothing, invoke-quiet}
use timer_benchmarks.Timer.Ids.{remove}
use timer_benchmarks.Timer.Contract.{QuietlyTicked, AllQuiet}
use timer_benchmarks.PqHeap.{TimerNode, entry, entries}
use timer_benchmarks.PqHeap.Remove.{Removed, remove_removes}
use timer_benchmarks.PqTimer.{PriorityQueueTimer, start, cancel, pending, update_loop, update}
use timer_benchmarks.PqTimer.Valid.{IsValid, state, take-IsValid}
use timer_benchmarks.PqTimer.Calls.{counter}

abbrev pub PqQuiet : ℕ → PriorityQueueTimer → Updated PriorityQueueTimer → Type 0
PqQuiet = QuietlyTicked IsValid pending counter

quiet_nothing : (now : ℕ) (q : PriorityQueueTimer) → IsValid q → PqQuiet now q (nothing q)
quiet_nothing now q v = record { valid = v; due = Each-nil _; count = refl; kept = Perm.rfl }

module _ (addr : ℕ → ℕ) (now : ℕ) where
  loop_quiet :
      (fuel c : ℕ) (a : List TimerNode) (ref : List ℕ)
      → IsValid (state c a ref)
      → AllQuiet (entries a)
      → length a < fuel
      → Returns (PqQuiet now (state c a ref)) (update_loop addr fuel now c (state c a ref))
  unfolding update_loop
  loop_quiet zero c a ref v q f = absurd (omega arith)
  loop_quiet (suc fuel) c [] ref v q f = value (quiet_nothing now (state c [] ref) v)
  loop_quiet (suc fuel) c (x ∷ a) ref v q f =
      Ends-if (ltb now x.deadline) (λ early. value (quiet_nothing now (state c (x ∷ a) ref) v))
        (λ due.
          Ends-if (ltb c x.id) (λ newer. value (quiet_nothing now (state c (x ∷ a) ref) v))
            (λ old. Ends-bind (remove_removes addr (x ∷ a) 0 (omega arith) v.indexed) λ b t.
              rw
                (invoke-quiet (start addr) (cancel addr) x.action (state c b (remove x.id ref))
                  (Each-head q))
                (Ends-bind
                  (loop_quiet fuel c b (remove x.id ref)
                    (take-IsValid (state c (x ∷ a) ref) (entry x) b v t.0 t.1)
                    (Each-tail (Each-perm t.1 q)) (omega (arith, shorter b t)))
                  λ r d. value (record {
                    valid = d.valid;
                    due = Each-cons (λ e. le_prop) (ground arith) d.due;
                    count = d.count;
                    kept = Perm.trans (Perm.cons (entry x) d.kept) t.1;
                  }))))
    where
      shorter : (b : List TimerNode) → Removed (x ∷ a) 0 b → length b ≡ length a
      shorter b t = omega (arith, length-perm t.1, length-map entry a, length-map entry b)

-- For any addresses of the nodes, where the invariant holds and no pending action calls the
-- scheduler, PriorityQueueTimer::Update returns, the timers that it calls are due and leave, all
-- the others stay, the counter does not change, and the invariant holds again.
pub update_quiet :
    (addr : ℕ → ℕ) (now : ℕ) (q : PriorityQueueTimer)
    → IsValid q
    → AllQuiet (pending q)
    → Returns (PqQuiet now q) (update addr now q)
unfolding update
update_quiet addr now q v quiet =
    Ends-if (length q.timers == 0) (λ none. value (quiet_nothing now q v))
      (λ _.
        loop_quiet addr now (length q.timers + 2) q.next_id q.timers q.ref v quiet (omega arith))
