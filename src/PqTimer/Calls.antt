-- ===== src/PqTimer/Calls.antt =====
-- Start and Cancel of src/PriorityQueueTimer.cpp.
use mathlib.Core.List.Perm
use mathlib.Core.List.{perm_append_singleton}
use timer_benchmarks.Common.{
  ℕ, ◌+◌, ◌≤◌, ◌<◌, ◌≡◌, refl, sym, ◌∙◌, inl, inr, List, [], ◌∷◌, ◌++◌, Perm, true, ok, Ends,
  Returns, Returns-Ends, value, Ends-bind, Ends-map, arith, length, length-append, get_or-append,
  get_or-append_last, Bool-cases, ◌>>=◌,
}
use timer_benchmarks.Timer.{next_id-Ends, expiry-Ends, next_id-ok, expiry-ok, int_max, int64_max}
use timer_benchmarks.Timer.Action.{Action}
use timer_benchmarks.Timer.Ids.{contains, contains-perm, put}
use timer_benchmarks.Timer.Contract.{Started, Cancelled, IsStartFault, keys, without-absent}
use timer_benchmarks.PqHeap.{TimerNode, blank, node_at, entry, siftup}
use timer_benchmarks.PqHeap.Swap.{IsIndexed}
use timer_benchmarks.PqHeap.Sift.{siftup_keeps}
use timer_benchmarks.PqHeap.Remove.{remove_removes}
use timer_benchmarks.PqTimer.{PriorityQueueTimer, start, cancel, pending}
use timer_benchmarks.PqTimer.Valid.{
  IsValid, state, add-IsValid, take-IsValid, take-without, find_node-place,
}

abbrev pub counter : PriorityQueueTimer → ℕ
counter q = q.next_id

-- the vector that Start hands to siftupTimer records its indices
push-IsIndexed :
    (a : List TimerNode) (x : TimerNode)
    → x.index ≡ length a
    → IsIndexed (length a) a
    → IsIndexed (length (a ++ x ∷ [])) (a ++ x ∷ [])
push-IsIndexed a x here ix k p = ground (
  arith,
  ix k,
  length-append a (x ∷ []),
  get_or-append a (x ∷ []) k blank,
  get_or-append_last a x blank,
)

module _ (addr : ℕ → ℕ) (q : PriorityQueueTimer) where
  module _ (clock duration : ℕ) (action : Action) (v : IsValid q) where
    abbrev node : TimerNode
    node = record {
      index = length q.timers;
      id = q.next_id;
      deadline = clock + duration;
      action = action;
    }

    -- what Start promises, and the timers after it
    abbrev pub Entered : ℕ × PriorityQueueTimer → Type 0
    Entered r =
        Started IsValid pending counter clock duration action q r
        × Perm (pending r.1) (entry node ∷ pending q)

    entered : Returns Entered (
        siftup addr (q.timers ++ node ∷ []) (length q.timers) >>= λ b.
        ok (q.next_id, state (q.next_id + 1) b (put q.next_id q.ref)))
    entered =
        let grown = q.timers ++ node ∷ [] in
        let size = length-append q.timers (node ∷ []) in
        Ends-bind
          (siftup_keeps addr grown (length grown) (length q.timers) (omega arith)
            (omega (arith, size)) (push-IsIndexed q.timers node refl v.indexed))
          λ b s.
            let perm = Perm.trans s.same (Perm.map entry (perm_append_singleton node q.timers)) in
            value (
              record {
                id = refl;
                valid = add-IsValid q (entry node) b v refl (rw s.size s.indexed) perm;
                count = refl;
                added = perm;
              },
              perm,
            )

    pub start_enters : Ends IsStartFault Entered (start addr clock duration action q)
    unfolding start
    start_enters = Ends-bind (next_id-Ends (inl refl) q.next_id) λ r named.
        Ends-bind (expiry-Ends (inl refl) clock duration)
          λ deadline due. rw (due, named.0, named.1) (Returns-Ends entered)

    pub start_adds :
        Ends IsStartFault
          (Started IsValid pending counter clock duration action q)
          (start addr clock duration action q)
    start_adds = Ends-map start_enters λ r e. e.0

    -- For any addresses of the nodes, with the invariant, an id left, and a deadline that fits an
    -- `int64_t`, PriorityQueueTimer::Start returns the counter as the id, the counter grows by one,
    -- the invariant holds, and the pending timers are those before and the new one with the
    -- deadline `clock + duration`.
    pub pq_start_accepts :
        q.next_id < int_max
        → clock + duration ≤ int64_max
        → Returns
            (Started IsValid pending counter clock duration action q)
            (start addr clock duration action q)
    unfolding start
    pq_start_accepts room short =
        rw (next_id-ok q.next_id room, expiry-ok clock duration short) (Ends-map entered λ r e. e.0)

  module _ (id : ℕ) (v : IsValid q) where
    found : contains id q.ref ≡ contains id (keys (pending q))
    found = contains-perm id v.refs

    cancel_found :
        contains id q.ref ≡ true
        → Returns (Cancelled IsValid pending counter id q) (cancel addr id q)
    unfolding cancel
    cancel_found e =
        let (i, inside, there, named) = find_node-place id q.timers (sym found ∙ e) in
        rw (e, there, v.indexed i inside)
          (Ends-bind (remove_removes addr q.timers i inside v.indexed) λ b (ix, perm).
            let e' = entry (node_at q.timers i) in
            value (record {
              found = sym e ∙ found;
              valid = rw named at (take-IsValid q e' b v ix perm);
              count = refl;
              removed = rw named at (take-without q e' b v perm);
            }))

    -- For any addresses of the nodes, with the invariant, PriorityQueueTimer::Cancel returns, tells
    -- whether the id is pending, and leaves the invariant, the counter and all pending timers but
    -- the one with that id.
    pub pq_cancel_removes : Returns (Cancelled IsValid pending counter id q) (cancel addr id q)
    unfolding cancel
    pq_cancel_removes = elim (Bool-cases (contains id q.ref)) [
      | inl e ↦ cancel_found e
      | inr e ↦ rw e (
          value (record {
            found = sym e ∙ found;
            valid = v;
            count = refl;
            removed = rw (without-absent id (pending q) (sym found ∙ e)) Perm.rfl;
          }))
    ]
