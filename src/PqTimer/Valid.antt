-- ===== src/PqTimer/Valid.antt =====
-- The invariant of the scheduler of src/PriorityQueueTimer.cpp.
use native.Mathlib.Bridge.{le_prop}
use mathlib.Core.List.Perm
use mathlib.Core.List.{Nodup-cons}
use timer_benchmarks.Common.{
  ℕ, suc, ◌+◌, ◌<◌, ◌≡◌, List, [], ◌∷◌, Mem, Perm, Nodup, true, some, arith, length, Bool-cases,
  inl, inr, Each, Each-cons, Each-perm, Each-tail, Each-map, ◌==◌,
}
use timer_benchmarks.Timer.Action.{Entry}
use timer_benchmarks.Timer.Ids.{
  contains, contains-absent, remove, put, put-fresh, remove-perm, remove-cons_self, not-mem_of_lt,
}
use timer_benchmarks.Timer.Contract.{keys, without, without-cons_self, without-perm}
use timer_benchmarks.PqHeap.{TimerNode, node_at, entries}
use timer_benchmarks.PqHeap.Swap.{IsIndexed}
use timer_benchmarks.PqTimer.{PriorityQueueTimer, find_node, pending}

pub record IsValid (q : PriorityQueueTimer) : Type 0 where
  pub indexed : IsIndexed (length q.timers) q.timers
  pub fresh : Each (λ e. e.id < q.next_id) (pending q)
  pub distinct : Nodup (keys (pending q))
  pub refs : Perm q.ref (keys (pending q))

abbrev pub state : ℕ → List TimerNode → List ℕ → PriorityQueueTimer
state c timers ref = record { next_id = c; timers = timers; ref = ref }

-- the vector `b` with one timer more
pub add-IsValid :
    (q : PriorityQueueTimer) (e : Entry) (b : List TimerNode)
    → IsValid q
    → e.id ≡ q.next_id
    → IsIndexed (length b) b
    → Perm (entries b) (e ∷ pending q)
    → IsValid (state (q.next_id + 1) b (put e.id q.ref))
add-IsValid q e b v named ix perm = record {
  indexed = ix;
  fresh =
      Each-perm perm
        (Each-cons (λ y. le_prop) (omega arith) (Each-map (λ y h. omega arith) v.fresh));
  distinct = Perm.nodup (Perm.symm (Perm.map _ perm)) (Nodup-cons.1 (new, v.distinct));
  refs =
      rw (put-fresh e.id q.ref λ m. new ((Perm.mem_iff v.refs).0 m))
        (Perm.trans (Perm.cons e.id v.refs) (Perm.symm (Perm.map (λ x. x.id) perm)));
}
  where
    new : ¬ Mem e.id (keys (pending q))
    new = rw named (not-mem_of_lt (λ x. x.id) q.next_id (pending q) v.fresh)

-- the vector `b` with one timer less
pub take-IsValid :
    (q : PriorityQueueTimer) (e : Entry) (b : List TimerNode)
    → IsValid q
    → IsIndexed (length b) b
    → Perm (e ∷ entries b) (pending q)
    → IsValid (state q.next_id b (remove e.id q.ref))
take-IsValid q e b v ix perm =
    let (gone, others) = Nodup-cons.0 (Perm.nodup (Perm.map _ (Perm.symm perm)) v.distinct) in
    let names = Perm.trans v.refs (Perm.symm (Perm.map (λ x. x.id) perm)) in
    record {
      indexed = ix;
      fresh = Each-tail (Each-perm perm v.fresh);
      distinct = others;
      refs = rw (remove-cons_self e.id (keys (entries b)) gone) at (remove-perm e.id names);
    }

-- what is left is what has another id
pub take-without :
    (q : PriorityQueueTimer) (e : Entry) (b : List TimerNode)
    → IsValid q
    → Perm (e ∷ entries b) (pending q)
    → Perm (entries b) (without e.id (pending q))
take-without q e b v perm =
    let gone = (Nodup-cons.0 (Perm.nodup (Perm.map _ (Perm.symm perm)) v.distinct)).0 in
    rw (without-cons_self e (entries b) (contains-absent e.id (keys (entries b)) gone)) at
      (without-perm e.id perm)

-- the node of an id that is pending
pub find_node-place :
    (id : ℕ) (a : List TimerNode)
    → contains id (keys (entries a)) ≡ true
    → (i : ℕ) × (i < length a) × (find_node id a ≡ some (node_at a i)) × ((node_at a i).id ≡ id)
unfolding contains find_node
find_node-place id [] h = absurd (ground arith)
find_node-place id (x ∷ a) h = elim (Bool-cases (x.id == id)) [
  | inl e ↦ (0, omega arith, rw e, ground arith)
  | inr e ↦
      let (i, inside, found, named) = find_node-place id a (rw e at h) in
      (suc i, omega arith, rw e found, named)
]
