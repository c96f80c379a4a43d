-- ===== src/HhTimer/Valid.antt =====
-- src/HHWheelTimer.cpp: what holds of the scheduler between its calls, and Start.
use timer_benchmarks.Common.{
  ℕ, ◌+◌, ◌≤◌, ◌≡◌, inl, inr, refl, true, List, [], ◌∷◌, ◌++◌, none, some, overflow, Ends,
  Returns-Ends, value, Ends-bind, ◌==◌, if◌then◌else◌, Bool-cases, ==→≡, arith, subst, sym,
}
use timer_benchmarks.Timer.{next_id-Ends, expiry-Ends}
use timer_benchmarks.Timer.Action.{Action}
use timer_benchmarks.Timer.Assoc.{find, find-assign}
use timer_benchmarks.ListImpl.Ring.{Absent}
use timer_benchmarks.ListImpl.Ops.{Ring-frame}
use timer_benchmarks.TimerList.{TvecBase, TimerList, slot, write_timer}
use timer_benchmarks.TimerList.Slot.{slot_bound}
use timer_benchmarks.TimerList.Wheel.{Wheel, put_list, put_home, Owned-Absent}
use timer_benchmarks.TimerList.Attach.{armed, add_timer-Added}
use timer_benchmarks.HhTimer.{HhWheelTimer, address, new_timer, start}

-- the map of the timers knows those that are in a list
pub record IsValid (k : ℕ) (t : HhWheelTimer) (lists : ℕ → List ℕ) (home : ℕ → ℕ) : Type 0 where
  pub wheel : Wheel k t.base lists home
  pub known :
      (id : ℕ) → find id t.ref ≡ (if home (address id) == 514 then none else some (address id))
  pub sound :
      (x : ℕ) (info : TimerList)
      → t.base.timers x ≡ some info
      → (x ≡ address info.id) × (info ≡ armed info.id info.expires)
  pub fresh : (id : ℕ) → t.next_id ≤ id → home (address id) ≡ 514

Wheel-new_timer :
    {k : ℕ} {b : TvecBase} {lists : ℕ → List ℕ} {home : ℕ → ℕ} (id expires : ℕ)
    → Wheel k b lists home
    → k ≤ 513
    → home (address id) ≡ 514
    → Wheel k (new_timer id expires b) lists home
unfolding new_timer write_timer
Wheel-new_timer {b} {lists} {home} id expires w small free = record {
  rings = λ l hl.
      let out : Absent (address id) (l ∷ lists l) =
        (omega arith, Owned-Absent home l (address id) (lists l) (w.owned l hl) (ground arith)) in
      Ring-frame b.entries (new_timer id expires b).entries (address id ∷ []) l (lists l)
        (λ a off. (ground (arith, off.0), ground (arith, off.0)))
        (λ c i. ((λ q. i (subst (λ a. Absent a (l ∷ lists l)) (sym q) out)), tt)) (w.rings l hl);
  owned = w.owned;
  found = w.found;
  heads = w.heads;
  kept = λ x hx. ground (arith, w.kept x hx);
  idle = λ x hx alloc. ground (arith, w.idle x hx);
  above = λ x h. ground (arith, w.above x h);
}

-- what Start returns: the timer is the last of its slot's list, with its deadline and its action
pub record HhStarted (clock duration : ℕ) (action : Action) (t : HhWheelTimer) (lists : ℕ → List ℕ)
    (home : ℕ → ℕ) (r : ℕ × HhWheelTimer) : Type 0 where
  pub id : r.0 ≡ t.next_id
  pub valid :
      let m = slot t.base.timer_clk (clock + duration) in
      let n = address t.next_id in
      IsValid 512 r.1 (put_list m (lists m ++ n ∷ []) lists) (put_home n m home)
  pub count : r.1.next_id ≡ t.next_id + 1
  pub base_clock : r.1.base.timer_clk ≡ t.base.timer_clk
  pub timers :
      (a : ℕ)
      → r.1.base.timers a ≡ (
          if a == address t.next_id
          then some (armed t.next_id (clock + duration))
          else t.base.timers a)
  pub actions :
      (j : ℕ) → find j r.1.actions ≡ (if t.next_id == j then some action else find j t.actions)

-- With the invariant, HHWheelTimer::Start ends, and only an overflow of the id or of the deadline
-- stops the program. Otherwise it returns the counter as the id, the counter grows by one, and the
-- invariant holds for the lists where the timer is the last of the list at the slot of its deadline
-- and every other list is as before. The timer has its id, its deadline and its action, and those
-- of the others do not change; nor does the wheel's clock.
pub start-HhStarted :
    (clock duration : ℕ) (action : Action) (t : HhWheelTimer) (lists : ℕ → List ℕ) (home : ℕ → ℕ)
    → IsValid 512 t lists home
    → Ends
        (λ e. e ≡ overflow)
        (HhStarted clock duration action t lists home)
        (start clock duration action t)
unfolding start new_timer write_timer
start-HhStarted clock duration action t lists home v =
    Ends-bind (next_id-Ends refl t.next_id) λ r e.
      Ends-bind (expiry-Ends refl clock duration) λ deadline d.
        rw (e.0, e.1, d)
          (let n = address t.next_id in
            let same : (n == n) ≡ true = ground arith in
            let free = v.fresh t.next_id (omega arith) in
            Ends-bind
              (Returns-Ends (
                add_timer-Added n t.next_id (clock + duration)
                  (Wheel-new_timer t.next_id (clock + duration) v.wheel (omega arith) free)
                  (omega arith) (omega arith) free (omega arith) (rw same refl)))
              λ b a. value (record {
                id = refl;
                valid = record {
                  wheel = a.wheel;
                  known = λ j. ground (
                    arith,
                    find-assign t.next_id j n t.ref,
                    v.known j,
                    slot_bound t.base.timer_clk (clock + duration),
                  );
                  sound = λ x info q. elim (Bool-cases (x == n)) [
                    | inl at_n ↦
                        let q' : some (armed t.next_id (clock + duration)) ≡ some info =
                          ground (arith, a.timers x, q) in
                        let e : armed t.next_id (clock + duration) ≡ info = cc in
                        subst (λ i. (x ≡ address i.id) × (i ≡ armed i.id i.expires)) e
                          (==→≡ x n at_n, refl)
                    | inr off ↦ v.sound x info (ground (arith, a.timers x, q))
                  ];
                  fresh = λ j h. ground (arith, v.fresh j);
                };
                count = refl;
                base_clock = a.clock;
                timers = a.timers;
                actions = λ j. find-assign t.next_id j action t.actions;
              }))
