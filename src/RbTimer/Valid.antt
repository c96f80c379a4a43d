-- ===== src/RbTimer/Valid.antt =====
-- The invariant of the scheduler of src/RBTreeTimer.cpp.
use native.Mathlib.Bridge.{le_prop}
use mathlib.Core.List.Perm
use mathlib.Core.Logic.Or
use native.Mathlib.Decide.{ℕ_discrete}
use mathlib.Core.Logic.{∥∥₁_elim}
use mathlib.Core.List.{Mem-prop, mem-cons, mem-cons_self, mem-cons_of_mem, exists_of_mem-map}
use timer_benchmarks.Common.{
  ℕ, ◌+◌, ◌<◌, ◌≡◌, ◌≢◌, inl, inr, List, [], ◌∷◌, map, Mem, Perm, not, some, arith, Bool-cases,
  Each, Each-cons, Each-perm, ◌==◌,
}
use timer_benchmarks.Timer.Ids.{select, select-ext, mem-select, select-Pairwise}
use timer_benchmarks.Timer.Assoc.{find, erase, assign, find-erase, find-assign}
use timer_benchmarks.RbTimer.{NodeKey, Node, insert, erase_key, RbTreeTimer}
use timer_benchmarks.RbTimer.Order.{IsSorted, less-total, less_irrefl, insert-perm, insert-IsSorted}

abbrev pub ids : List Node → List ℕ
ids = map (λ x. x.0.id)

pub record IsValid (q : RbTreeTimer) : Type 0 where
  pub sorted : IsSorted q.timers
  pub fresh : Each (λ x. x.0.id < q.next_id) q.timers
  -- `ref_` has the key of every timer, and no others
  pub refs : Each (λ x. find x.0.id q.ref ≡ some x.0) q.timers
  pub known : (id : ℕ) (key : NodeKey) → find id q.ref ≡ some key → Mem id (ids q.timers)

abbrev pub state : ℕ → List Node → List (ℕ × NodeKey) → RbTreeTimer
state c timers ref = record { next_id = c; timers = timers; ref = ref }

-- the elements with another id
unfoldable pub drop_id : ℕ → List Node → List Node
drop_id id = select (λ x. not (x.0.id == id))

-- the key that `ref_` has for an id carries that id
refs-id :
    {q : RbTreeTimer}
    → IsValid q
    → (id : ℕ) (key : NodeKey) → find id q.ref ≡ some key
    → key.id ≡ id
refs-id {q} v id key e =
    ∥∥₁_elim (exists_of_mem-map (v.known id key e)) (hlevel)
      λ (w : (x : Node) × Mem x q.timers × (x.0.id ≡ id)). ground (arith, v.refs w.0 w.1)

-- To erase by the key that `ref_` has for an id is to drop the id.
pub erase_key-drop_id :
    (q : RbTreeTimer) (id : ℕ) (key : NodeKey)
    → IsValid q
    → find id q.ref ≡ some key
    → erase_key key q.timers ≡ drop_id id q.timers
unfolding erase_key drop_id
erase_key-drop_id q id key v e =
    select-ext _ _ q.timers
      λ x m. ground (arith, v.refs x m, refs-id v id key e, less_irrefl x.0, less-total key x.0)

mem-ids_drop_id :
    (id j : ℕ) (xs : List Node) → j ≢ id → Mem j (ids xs) → Mem j (ids (drop_id id xs))
unfolding drop_id select
mem-ids_drop_id id j [] ne m = m
mem-ids_drop_id id j (x ∷ xs) ne m = elim (Bool-cases (x.0.id == id)) [
  | inl e ↦
      rw e
        (Or.elim Mem-prop (mem-cons.0 m) (λ q. absurd (ground arith)) (mem-ids_drop_id id j xs ne))
  | inr e ↦ rw e (
      Or.elim Mem-prop (mem-cons.0 m) (λ q. rw q mem-cons_self)
        (λ n. mem-cons_of_mem x.0.id (mem-ids_drop_id id j xs ne n)))
]

-- To drop an id from the sequence and from the map keeps the invariant.
pub drop_id-IsValid :
    (q : RbTreeTimer) (id : ℕ)
    → IsValid q
    → IsValid (state q.next_id (drop_id id q.timers) (erase id q.ref))
unfolding drop_id
drop_id-IsValid q id v =
    let test = λ (x : Node). not (x.0.id == id) in
    record {
      sorted = select-Pairwise test q.timers v.sorted;
      fresh = λ x m. v.fresh x (mem-select test x q.timers m).0;
      refs = λ x m.
          let (there, other) = mem-select test x q.timers m in
          ground (arith, find-erase id x.0.id q.ref, v.refs x there);
      known = λ j key e.
          mem-ids_drop_id id j q.timers (λ same. ground (arith, find-erase id j q.ref))
            (v.known j key (ground (arith, find-erase id j q.ref)));
    }

-- Start's new element
pub insert-IsValid :
    (q : RbTreeTimer) (x : Node)
    → IsValid q
    → x.0.id ≡ q.next_id
    → IsValid (state (q.next_id + 1) (insert x q.timers) (assign x.0.id x.0 q.ref))
insert-IsValid q x v named = record {
  sorted = insert-IsSorted x q.timers (λ y m. omega (arith, v.fresh y m)) v.sorted;
  fresh =
      Each-perm perm (Each-cons (λ y. le_prop) (omega arith) (λ y m. omega (arith, v.fresh y m)));
  refs = Each-perm perm (
      Each-cons (λ y. hlevel) (ground (arith, find-assign x.0.id x.0.id x.0 q.ref))
        (λ y m. ground (arith, find-assign x.0.id y.0.id x.0 q.ref, v.refs y m, v.fresh y m)));
  known = λ j key e. (Perm.mem_iff (Perm.map (λ y. y.0.id) perm)).1 (elim (ℕ_discrete j x.0.id) [
    | yes same ↦ rw same mem-cons_self
    | no other ↦
        mem-cons_of_mem x.0.id (v.known j key (ground (arith, find-assign x.0.id j x.0 q.ref)))
  ]);
}
  where
    perm : Perm (insert x q.timers) (x ∷ q.timers)
    perm = insert-perm x q.timers
