-- ===== src/QuadTimer/Calls.antt =====
-- Start and Cancel of src/QuadHeapTimer.cpp.
use mathlib.Core.List.Perm
use native.Mathlib.Decide.{ℕ_discrete}
use timer_benchmarks.Common.{
  ℕ, ◌+◌, ◌≤◌, ◌<◌, ◌≡◌, inl, inr, refl, sym, ap, ◌∙◌, List, [], ◌∷◌, ◌++◌, map, Perm, false, not,
  ok, fault, ltb, leb, Bool-cases, ◌⊎◌, inl, inr, Fault, Bool, true, overflow, check_failed, Ends,
  Returns, value, stop, Ends-bind, Ends-map, Ends-if, Returns-Ends, Run, ◌>>=◌, length, arith,
}
use timer_benchmarks.Timer.{
  next_id, expiry, next_id-ok, expiry-ok, next_id-Ends, expiry-Ends, int_max, int64_max,
}
use timer_benchmarks.Timer.Action.{Action}
use timer_benchmarks.Timer.Ids.{select, select-perm, contains, put, contains-perm}
use timer_benchmarks.Timer.Contract.{
  Started, Cancelled, IsStartFault, keys, without, without-absent,
}
use timer_benchmarks.Timer.Allows.{allows_start, IsAllowed, is_start_fault, Ends-start_faults, both}
use timer_benchmarks.QuadHeap.{TimerNode, siftup}
use timer_benchmarks.QuadHeap.Up.{push_restores, push-check_failed}
use timer_benchmarks.QuadTimer.{QuadHeapTimer, start, cancel, mark_deleted, entry, live, pending}
use timer_benchmarks.QuadTimer.Valid.{
  IsValid, ids, state, live-cons_alive, push-IsValid, mark-IsValid,
}

abbrev pub counter : QuadHeapTimer → ℕ
counter q = q.next_id

abbrev pub new_node : ℕ → ℕ → Action → TimerNode
new_node id deadline action = record {
  id = id;
  deleted = false;
  deadline = deadline;
  action = action;
}

-- the end of Start, from the id, the counter after it and the deadline on
abbrev enter : QuadHeapTimer → Action → ℕ → ℕ → ℕ → Run (ℕ × QuadHeapTimer)
enter q action id c deadline =
    siftup (q.timers ++ new_node id deadline action ∷ []) (length q.timers) >>= λ r.
    ok (id, state c r.0 (put id q.ref))

module _ (q : QuadHeapTimer) (clock duration : ℕ) (action : Action) (v : IsValid q) where
  -- what Start promises, and the nodes after it
  abbrev pub Entered : ℕ × QuadHeapTimer → Type 0
  Entered r =
      Started IsValid pending counter clock duration action q r
      × Perm r.1.timers (new_node q.next_id (clock + duration) action ∷ q.timers)

  enter_adds :
      0 < clock + duration
      → Returns Entered (enter q action q.next_id (q.next_id + 1) (clock + duration))
  enter_adds pos =
      let node = new_node q.next_id (clock + duration) action in
      Ends-bind (push_restores q.timers node v.heap pos) λ r heaped. value (
        record {
          id = refl;
          valid = push-IsValid q node r.0 v refl refl pos heaped;
          count = refl;
          added =
              rw (live-cons_alive node q.timers refl) at
                (Perm.map entry (select-perm (λ x. not x.deleted) heaped.1));
        },
        heaped.1,
      )

  -- Start ends in a fault that its deadline and the counter allow, or returns.
  pub start_enters :
      (allowed : Fault → Bool)
      → allows_start allowed clock duration ≡ true
      → Ends (IsAllowed allowed) Entered (start clock duration action q)
  unfolding start
  start_enters allowed h =
      let (over, zero_too) = both (allowed overflow) _ h in
      Ends-bind (next_id-Ends over q.next_id) λ r named.
        Ends-bind (expiry-Ends over clock duration) λ deadline due.
          rw (due, named.0, named.1)
            (elim (ℕ_discrete (clock + duration) 0) [
              | yes e ↦
                  rw (push-check_failed q.timers (new_node q.next_id (clock + duration) action) e)
                    (stop (ground (arith, e, zero_too)))
              | no e ↦ Returns-Ends (enter_adds (omega arith))
            ])

  pub start_adds :
      Ends IsStartFault
        (Started IsValid pending counter clock duration action q)
        (start clock duration action q)
  start_adds = Ends-start_faults (Ends-map (start_enters is_start_fault (ground arith)) λ r e. e.0)

  -- With the invariant, an id left, and a deadline that is positive and fits an `int64_t`,
  -- QuadHeapTimer::Start returns the counter as the id, the counter grows by one, the invariant
  -- holds, and the pending timers are those before and the new one with the deadline `clock +
  -- duration`.
  pub quad_start_accepts :
      q.next_id < int_max
      → 0 < clock + duration
      → clock + duration ≤ int64_max
      → Returns
          (Started IsValid pending counter clock duration action q)
          (start clock duration action q)
  unfolding start
  quad_start_accepts room pos short =
      rw (next_id-ok q.next_id room, expiry-ok clock duration short)
        (Ends-map (enter_adds pos) λ r e. e.0)

  -- With the invariant and an id left, a QuadHeapTimer::Start whose deadline `clock + duration` is
  -- 0 ends in the failed CHECK of siftupTimer.
  pub start_at_zero :
      q.next_id < int_max
      → clock + duration ≡ 0
      → start clock duration action q ≡ fault check_failed
  unfolding start
  start_at_zero room none = rw (
    next_id-ok q.next_id room,
    expiry-ok clock duration (omega arith),
    push-check_failed q.timers (new_node q.next_id (clock + duration) action) none,
  )

  -- why Start stops the program
  abbrev pub Refused : Fault → Type 0
  Refused e =
      ((e ≡ overflow) × ((int_max ≤ q.next_id) ⊎ (int64_max < clock + duration)))
      ⊎ ((e ≡ check_failed) × (clock + duration ≡ 0))

  -- when Start returns, and what
  abbrev pub Accepted : ℕ × QuadHeapTimer → Type 0
  Accepted r =
      (q.next_id < int_max)
      × (0 < clock + duration)
      × (clock + duration ≤ int64_max)
      × Started IsValid pending counter clock duration action q r

  -- With the invariant, QuadHeapTimer::Start ends. It stops with an overflow only if no id is left
  -- or the deadline `clock + duration` does not fit an `int64_t`, and with a failed CHECK only if
  -- the deadline is 0. It returns only if an id is left and the deadline is positive and fits, and
  -- then it returns the counter as the id, the counter grows by one, the invariant holds, and the
  -- pending timers are those before and the new one with that deadline.
  pub quad_start_decides : Ends Refused Accepted (start clock duration action q)
  unfolding start next_id expiry
  quad_start_decides = elim (Bool-cases (ltb q.next_id int_max)) [
    | inr full ↦ rw (full, start) (stop (inl (refl, inl (ground (arith, full)))))
    | inl room ↦ elim (Bool-cases (leb (clock + duration) int64_max)) [
      | inr far ↦ rw (room, far, start) (stop (inl (refl, inr (ground (arith, far)))))
      | inl near ↦ elim (ℕ_discrete (clock + duration) 0) [
        | yes zero ↦ rw (start_at_zero (ground (arith, room)) zero) (stop (inr (refl, zero)))
        | no pos ↦
            Ends-map
              (Returns-Ends
                (quad_start_accepts (ground (arith, room)) (omega arith) (ground (arith, near))))
              λ r s. (ground (arith, room), omega arith, ground (arith, near), s)
      ]
    ]
  ]

-- the entries of the marked nodes
pub pending-mark :
    (k : ℕ) (a : List TimerNode)
    → map entry (live (map (mark_deleted k) a)) ≡ without k (map entry (live a))
unfolding mark_deleted select without
pending-mark k [] = refl
pending-mark k (x ∷ a) = ground (arith, pending-mark k a)

keys-pending : (a : List TimerNode) → keys (map entry a) ≡ ids a
keys-pending [] = refl
keys-pending (x ∷ a) = ap (◌∷◌ x.id) (keys-pending a)

module _ (id : ℕ) (q : QuadHeapTimer) (v : IsValid q) where
  found : contains id q.ref ≡ contains id (keys (pending q))
  found = rw keys-pending (contains-perm id v.refs)

  -- With the invariant, QuadHeapTimer::Cancel returns, tells whether the id is pending, and leaves
  -- the invariant, the counter and all pending timers but the one with that id.
  pub quad_cancel_removes : Returns (Cancelled IsValid pending counter id q) (cancel id q)
  unfolding cancel
  quad_cancel_removes =
      Ends-if (contains id q.ref)
        (λ e. value (record {
          found = sym e ∙ found;
          valid = mark-IsValid q id v;
          count = refl;
          removed = rw pending-mark Perm.rfl;
        }))
        (λ e. value (record {
          found = sym e ∙ found;
          valid = v;
          count = refl;
          removed = rw (without-absent id (pending q) (sym found ∙ e)) Perm.rfl;
        }))
