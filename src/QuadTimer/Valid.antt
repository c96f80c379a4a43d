-- ===== src/QuadTimer/Valid.antt =====
-- The invariant of the scheduler of src/QuadHeapTimer.cpp.
use native.Mathlib.Bridge.{le_prop}
use mathlib.Core.List.Perm
use mathlib.Core.List.{Nodup-cons}
use timer_benchmarks.Common.{
  ℕ, zero, suc, ◌+◌, ◌<◌, ◌≡◌, inl, inr, refl, List, [], ◌∷◌, map, Mem, Perm, Nodup, true, false,
  Each, Each-cons, Each-perm, Each-head, Each-tail, Each-map, length, length-map, arith, Bool-cases,
}
use timer_benchmarks.Timer.Ids.{
  select, select-perm, remove, put, remove-fresh, not-mem_of_lt, mem-map-select, put-fresh,
  remove-perm, remove-cons_self,
}
use timer_benchmarks.QuadHeap.{TimerNode, key, parent}
use timer_benchmarks.QuadHeap.Order.{IsHeap, IsPositive, Heaped}
use timer_benchmarks.QuadHeap.Remove.{Unrooted}
use timer_benchmarks.QuadTimer.{QuadHeapTimer, mark_deleted, live}

abbrev pub ids : List TimerNode → List ℕ
ids = map (λ node. node.id)

pub record IsValid (q : QuadHeapTimer) : Type 0 where
  pub heap : IsHeap q.timers
  pub positive : IsPositive q.timers
  pub fresh : Each (λ node. node.id < q.next_id) q.timers
  pub distinct : Nodup (ids q.timers)
  pub refs : Perm q.ref (ids (live q.timers))

abbrev pub state : ℕ → List TimerNode → List ℕ → QuadHeapTimer
state c timers ref = record { next_id = c; timers = timers; ref = ref }

pub ids_live-perm : {a b : List TimerNode} → Perm b a → Perm (ids (live b)) (ids (live a))
ids_live-perm p = Perm.map _ (select-perm _ p)

pub live-cons_alive :
    (x : TimerNode) (a : List TimerNode) → x.deleted ≡ false → live (x ∷ a) ≡ x ∷ live a
unfolding select
live-cons_alive x a alive = rw alive

pub live-cons_deleted :
    (x : TimerNode) (a : List TimerNode) → x.deleted ≡ true → live (x ∷ a) ≡ live a
unfolding select
live-cons_deleted x a gone = rw gone

-- `ref_` has no id but those of the nodes in the heap
refs-mem : {q : QuadHeapTimer} {k : ℕ} → IsValid q → Mem k q.ref → Mem k (ids q.timers)
refs-mem v m = mem-map-select (λ node. node.id) _ _ _ ((Perm.mem_iff v.refs).0 m)

-- Start's new node, sifted into the heap `b`
pub push-IsValid :
    (q : QuadHeapTimer) (x : TimerNode) (b : List TimerNode)
    → IsValid q
    → x.id ≡ q.next_id
    → x.deleted ≡ false
    → 0 < x.deadline
    → Heaped (x ∷ q.timers) b
    → IsValid (state (q.next_id + 1) b (put x.id q.ref))
push-IsValid q x b v named alive pos (heap, perm) = record {
  heap = heap;
  positive = Each-perm perm (Each-cons (λ y. le_prop) pos v.positive);
  fresh =
      Each-perm perm
        (Each-cons (λ y. le_prop) (omega arith) (Each-map (λ y h. omega arith) v.fresh));
  distinct = Perm.nodup (Perm.symm (Perm.map _ perm)) (Nodup-cons.1 (new, v.distinct));
  refs = rw (put-fresh x.id q.ref λ m. new (refs-mem v m)) (
      Perm.trans (Perm.cons x.id v.refs)
        (Perm.symm (rw (live-cons_alive x q.timers alive) at (ids_live-perm perm))));
}
  where
    new : ¬ Mem x.id (ids q.timers)
    new = rw named (not-mem_of_lt (λ node. node.id) q.next_id q.timers v.fresh)

-- deltimer0 and the erasure of the root's id
pub unroot-IsValid :
    (c : ℕ) (x : TimerNode) (a b : List TimerNode) (ref : List ℕ)
    → IsValid (state c (x ∷ a) ref)
    → Unrooted (x ∷ a) b
    → IsValid (state c b (remove x.id ref))
unroot-IsValid c x a b ref v (heap, perm) =
    let same : Perm b a = Perm.cons_inv perm in
    let (new, others) = Nodup-cons.0 v.distinct in
    record {
      heap = heap;
      positive = Each-perm same (Each-tail v.positive);
      fresh = Each-perm same (Each-tail v.fresh);
      distinct = Perm.nodup (Perm.symm (Perm.map _ same)) others;
      refs =
          Perm.trans (remove-perm x.id v.refs)
            (rw (remove-root x a new) (Perm.symm (ids_live-perm same)));
    }
  where
    remove-root :
        (x : TimerNode) (a : List TimerNode)
        → ¬ Mem x.id (ids a)
        → remove x.id (ids (live (x ∷ a))) ≡ ids (live a)
    remove-root x a new =
        let gone : ¬ Mem x.id (ids (live a)) = λ m. new (mem-map-select _ _ _ _ m) in
        elim (Bool-cases x.deleted) [
          | inl e ↦ rw (live-cons_deleted x a e) (remove-fresh x.id (ids (live a)) gone)
          | inr e ↦ rw (live-cons_alive x a e) (remove-cons_self x.id (ids (live a)) gone)
        ]

mark-id : (k : ℕ) (x : TimerNode) → (mark_deleted k x).id ≡ x.id
unfolding mark_deleted
mark-id k x = ground arith

mark-deadline : (k : ℕ) (x : TimerNode) → (mark_deleted k x).deadline ≡ x.deadline
unfolding mark_deleted
mark-deadline k x = ground arith

length-mark : (k : ℕ) (a : List TimerNode) → length (map (mark_deleted k) a) ≡ length a
length-mark k a = length-map (mark_deleted k) a

mark-key : (k : ℕ) (a : List TimerNode) (i : ℕ) → key (map (mark_deleted k) a) i ≡ key a i
unfolding mark_deleted
mark-key k [] i = refl
mark-key k (x ∷ a) zero = ground arith
mark-key k (x ∷ a) (suc i) = mark-key k a i

pub ids-mark : (k : ℕ) (a : List TimerNode) → ids (map (mark_deleted k) a) ≡ ids a
ids-mark k [] = refl
ids-mark k (x ∷ a) = rw (mark-id, ids-mark k a)

Each-mark :
    {P : ℕ → ℕ → Type 0} (k : ℕ) (a : List TimerNode)
    → ((i d : ℕ) → IsProp (P i d))
    → Each (λ x. P x.id x.deadline) a
    → Each (λ x. P x.id x.deadline) (map (mark_deleted k) a)
Each-mark k [] prop h = h
Each-mark k (x ∷ a) prop h =
    Each-cons (λ y. prop _ _) (rw (mark-id, mark-deadline) (Each-head h))
      (Each-mark k a prop (Each-tail h))

-- to mark the node of an id takes the id off the live ones
ids-live-mark :
    (k : ℕ) (a : List TimerNode) → ids (live (map (mark_deleted k) a)) ≡ remove k (ids (live a))
unfolding mark_deleted select remove
ids-live-mark k [] = refl
ids-live-mark k (x ∷ a) = ground (arith, ids-live-mark k a)

pub mark-IsValid :
    (q : QuadHeapTimer) (k : ℕ)
    → IsValid q
    → IsValid (state q.next_id (map (mark_deleted k) q.timers) (remove k q.ref))
mark-IsValid q k v = record {
  heap = λ c p l.
      rw (mark-key k q.timers (parent c), mark-key k q.timers c) (v.heap c p (rw length-mark at l));
  positive = Each-mark {P = λ i d. 0 < d} k q.timers (λ i d. le_prop) v.positive;
  fresh = Each-mark {P = λ i d. i < q.next_id} k q.timers (λ i d. le_prop) v.fresh;
  distinct = rw ids-mark v.distinct;
  refs = rw ids-live-mark (remove-perm k v.refs);
}
