-- ===== src/RbTimer/Calls.antt =====
-- Start and Cancel of src/RBTreeTimer.cpp.
use mathlib.Core.List.Perm
use mathlib.Core.HLevel.{⊥_prop}
use mathlib.Core.Logic.{∥∥₁_elim}
use mathlib.Core.List.{exists_of_mem-map}
use timer_benchmarks.Common.{
  ℕ, ◌+◌, ◌≤◌, ◌<◌, ◌≡◌, inl, inr, refl, sym, ap, List, [], ◌∷◌, map, Mem, Perm, true, false, none,
  some, Ends, Returns, value, Ends-bind, Ends-map, arith, Bool-cases, Option-cases,
}
use timer_benchmarks.Timer.{next_id-Ends, expiry-Ends, next_id-ok, expiry-ok, int_max, int64_max}
use timer_benchmarks.Timer.Action.{Action}
use timer_benchmarks.Timer.Ids.{select, contains, contains_iff}
use timer_benchmarks.Timer.Assoc.{find, assign}
use timer_benchmarks.Timer.Contract.{
  Started, Cancelled, IsStartFault, keys, without, without-absent,
}
use timer_benchmarks.RbTimer.{NodeKey, Node, RbTreeTimer, insert, start, cancel, entry, pending}
use timer_benchmarks.RbTimer.Order.{insert-perm}
use timer_benchmarks.RbTimer.Valid.{
  IsValid, ids, state, drop_id, erase_key-drop_id, drop_id-IsValid, insert-IsValid,
}

abbrev pub counter : RbTreeTimer → ℕ
counter q = q.next_id

abbrev pub key_of : ℕ → ℕ → NodeKey
key_of id deadline = record { id = id; deadline = deadline }

module _ (q : RbTreeTimer) (clock duration : ℕ) (action : Action) (v : IsValid q) where
  abbrev node : Node
  node = (key_of q.next_id (clock + duration), action)

  -- what Start promises, and the elements after it
  abbrev pub Entered : ℕ × RbTreeTimer → Type 0
  Entered r =
      Started IsValid pending counter clock duration action q r × Perm r.1.timers (node ∷ q.timers)

  entered :
      Entered
        (q.next_id, state (q.next_id + 1) (insert node q.timers) (assign q.next_id node.0 q.ref))
  entered = (
    record {
      id = refl;
      valid = insert-IsValid q node v refl;
      count = refl;
      added = Perm.map entry (insert-perm node q.timers);
    },
    insert-perm node q.timers,
  )

  pub start_enters : Ends IsStartFault Entered (start clock duration action q)
  unfolding start
  start_enters = Ends-bind (next_id-Ends (inl refl) q.next_id) λ r named.
      Ends-bind (expiry-Ends (inl refl) clock duration)
        λ deadline due. rw (due, named.0, named.1) (value entered)

  pub start_adds :
      Ends IsStartFault
        (Started IsValid pending counter clock duration action q)
        (start clock duration action q)
  start_adds = Ends-map start_enters λ r e. e.0

  -- With the invariant, an id left, and a deadline that fits an `int64_t`, RBTreeTimer::Start
  -- returns the counter as the id, the counter grows by one, the invariant holds, and the pending
  -- timers are those before and the new one with the deadline `clock + duration`.
  pub rb_start_accepts :
      q.next_id < int_max
      → clock + duration ≤ int64_max
      → Returns
          (Started IsValid pending counter clock duration action q)
          (start clock duration action q)
  unfolding start
  rb_start_accepts room short =
      rw (next_id-ok q.next_id room, expiry-ok clock duration short) (value entered.0)

pending-drop_id : (id : ℕ) (xs : List Node) → map entry (drop_id id xs) ≡ without id (map entry xs)
unfolding drop_id without select
pending-drop_id id [] = refl
pending-drop_id id (x ∷ xs) = ground (arith, pending-drop_id id xs)

keys-pending : (xs : List Node) → keys (map entry xs) ≡ ids xs
keys-pending [] = refl
keys-pending (x ∷ xs) = ap (◌∷◌ x.0.id) (keys-pending xs)

module _ (id : ℕ) (q : RbTreeTimer) (v : IsValid q) where
  found : (key : NodeKey) → find id q.ref ≡ some key → true ≡ contains id (keys (pending q))
  found key e = rw keys-pending (sym ((contains_iff id (ids q.timers)).1 (v.known id key e)))

  missing : find id q.ref ≡ none → ¬ Mem id (ids q.timers)
  missing e m =
      ∥∥₁_elim (exists_of_mem-map m) ⊥_prop
        λ (w : (x : Node) × Mem x q.timers × (x.0.id ≡ id)). ground (arith, v.refs w.0 w.1)

  not_found : find id q.ref ≡ none → contains id (keys (pending q)) ≡ false
  not_found e = rw keys-pending (elim (Bool-cases (contains id (ids q.timers))) [
    | inl t ↦ absurd (missing e ((contains_iff id (ids q.timers)).0 t))
    | inr f ↦ f
  ])

  -- With the invariant, RBTreeTimer::Cancel returns, tells whether the id is pending, and leaves
  -- the invariant, the counter and all pending timers but the one with that id.
  pub rb_cancel_removes : Returns (Cancelled IsValid pending counter id q) (cancel id q)
  unfolding cancel
  rb_cancel_removes = elim (Option-cases (find id q.ref)) [
    | inl e ↦
        rw (e, cancel)
          (value (record {
            found = sym (not_found e);
            valid = v;
            count = refl;
            removed = rw (without-absent id (pending q) (not_found e)) Perm.rfl;
          }))
    | inr (key, e) ↦
        rw (e, cancel, erase_key-drop_id q id key v e)
          (value (record {
            found = found key e;
            valid = drop_id-IsValid q id v;
            count = refl;
            removed = rw (pending-drop_id id q.timers) Perm.rfl;
          }))
  ]
