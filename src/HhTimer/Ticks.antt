-- ===== src/HhTimer/Ticks.antt =====
-- src/HHWheelTimer.cpp and run_timers of src/timer_list.cpp: a tick, and Update, where no action calls
-- the scheduler.
use timer_benchmarks.Common.{
  ℕ, zero, suc, ◌+◌, ◌-◌, ◌%◌, ◌≤◌, ◌<◌, ◌≡◌, ◌≢◌, inl, inr, refl, true, false, List, [], ◌∷◌, ◌++◌,
  map, Returns, value, Ends-map, Ends-bind, ◌==◌, if◌then◌else◌, Bool-cases, ==→≡, arith, subst,
  sym, ap, ◌∙◌, length, IfOk, IfOk-bind, Ends-IfOk,
}
use mathlib.Core.List.{append_assoc, append-nil}
use timer_benchmarks.Timer.{int64_max}
use timer_benchmarks.Timer.Action.{IsQuiet, Updated}
use timer_benchmarks.Timer.Assoc.{find}
use timer_benchmarks.ListImpl.{list_empty}
use timer_benchmarks.ListImpl.Ring.{Absent}
use timer_benchmarks.ListImpl.Ops.{list_empty-Ring}
use timer_benchmarks.TimerList.{TvecBase}
use timer_benchmarks.TimerList.Ticks.{run_expired, tick}
use timer_benchmarks.TimerList.Wheel.{put_list, put_home, Owned, Member}
use timer_benchmarks.TimerList.Collect.{settle, move_list, move_home}
use timer_benchmarks.TimerList.Cascade.{Begun, begin_tick-Begun}
use timer_benchmarks.TimerList.Boundary.{begin_tick-returns}
use timer_benchmarks.HhTimer.{HhWheelTimer, address, handle_timer_expired, with_base}
use timer_benchmarks.HhTimer.Valid.{IsValid}
use timer_benchmarks.HhTimer.Expire.{
  action_of, entry_of, AllQuiet, take_expired-Taken, handled, at_work, work-Ring, IsValid-ext,
}

abbrev pub get_base : HhWheelTimer → TvecBase
get_base s = s.base

-- the timers whose home is `l` are in no list
abbrev pub leave : ℕ → (ℕ → ℕ) → ℕ → ℕ
leave l home = λ y. if home y == l then 514 else home y

-- `xs` are called, those whose home is `l`
pub record Ran (l : ℕ) (xs : List ℕ) (lists : ℕ → List ℕ) (home : ℕ → ℕ)
    (u u' : Updated HhWheelTimer) : Type 0 where
  pub calls : u'.calls ≡ u.calls ++ map (entry_of u.timer) xs
  pub fired : u'.fired ≡ u.fired + length xs
  pub valid : IsValid 512 u'.timer lists (leave l home)
  pub count : u'.timer.next_id ≡ u.timer.next_id
  pub timers : (a : ℕ) → home a ≢ l → u'.timer.base.timers a ≡ u.timer.base.timers a
  pub actions : (j : ℕ) → home (address j) ≢ l → find j u'.timer.actions ≡ find j u.timer.actions

-- another timer is the same after one is handled
entries-kept :
    (t t' : HhWheelTimer) (x : ℕ) (xs : List ℕ) (home : ℕ → ℕ)
    → Owned home 512 xs
    → ((y : ℕ) → y < 515 → home y ≡ 514)
    → 515 ≤ x
    → Absent x xs
    → ((a : ℕ) → a ≢ x → t'.base.timers a ≡ t.base.timers a)
    → ((j : ℕ) → address j ≢ x → find j t'.actions ≡ find j t.actions)
    → map (entry_of t') xs ≡ map (entry_of t) xs
entries-kept t t' x [] home o low far out timers actions = refl
entries-kept t t' x (y ∷ ys) home o low far out timers actions =
    let high : 515 ≤ y = ground (arith, low y, o.0) in
    rw
      (
        timers y (ground (arith, out.0)),
        actions (y - 515) (ground (arith, out.0)),
        entries-kept t t' x ys home o.1 low far out.1 timers actions,
      )
      refl

-- nothing is left to call
settled :
    (t : HhWheelTimer) (lists : ℕ → List ℕ) (home : ℕ → ℕ)
    → IsValid 513 t lists home
    → lists 512 ≡ []
    → IsValid 512 t lists (leave 512 home)
settled t lists home v e =
    IsValid-ext
      (record { wheel = settle v.wheel e; known = v.known; sound = v.sound; fresh = v.fresh })
      (λ l hl. refl)
      (λ y. elim (Bool-cases (home y == 512)) [
        | inl at_work ↦
            let old = v.wheel.found y (ground arith) in
            absurd (
              subst (Member y) e
                (subst (λ q. Member y (lists q)) (==→≡ (home y) 512 at_work) old.1))
        | inr off ↦ rw off refl
      ])

run_expired-Ran :
    (fuel : ℕ) (xs : List ℕ) (u : Updated HhWheelTimer) (lists : ℕ → List ℕ) (home : ℕ → ℕ)
    → IsValid 513 u.timer lists home
    → lists 512 ≡ xs
    → AllQuiet u.timer home
    → length xs < fuel
    → Returns
        (λ u'. Ran 512 xs lists home u u' × (u'.timer.base.timer_clk ≡ u.timer.base.timer_clk))
        (run_expired get_base with_base handle_timer_expired fuel u)
unfolding run_expired
run_expired-Ran zero xs u lists home v e quiet enough = absurd (omega arith)
run_expired-Ran (suc fuel) [] u lists home v e quiet enough =
    let stop : list_empty 512 u.timer.base.entries ≡ true = ground (
      arith,
      list_empty-Ring u.timer.base.entries 512 (lists 512) (v.wheel.rings 512 (omega arith)),
    ) in
    rw (stop, run_expired)
      (value (
        record {
          calls = sym (append-nil u.calls);
          fired = omega arith;
          valid = settled u.timer lists home v e;
          count = refl;
          timers = λ a ne. refl;
          actions = λ j ne. refl;
        },
        refl,
      ))
run_expired-Ran (suc fuel) (x ∷ xs) u lists home v e quiet enough =
    let t = u.timer in
    let on : list_empty 512 t.base.entries ≡ false =
      ground
        (arith, list_empty-Ring t.base.entries 512 (lists 512) (v.wheel.rings 512 (omega arith))) in
    let here = at_work x xs v e in
    let high : 515 ≤ x = ground (arith, v.wheel.heads x, here) in
    rw (on, run_expired)
      (Ends-bind (take_expired-Taken x xs v e) λ p taken. rw taken.0 (
        Ends-bind
          (handled x xs v e p.1 taken.1 (
            let back : address (x - 515) ≡ x = omega (arith, high) in
            quiet (x - 515) (λ q. ground (arith, ap home back))))
          λ q h.
            Ends-map
              (run_expired-Ran fuel xs
                (record { fired = u.fired + 1; calls = u.calls ++ q.0 ∷ []; timer = q.1 })
                (put_list 512 xs lists) (put_home x 514 home) h.valid refl
                (λ j hj.
                  subst (λ o. IsQuiet (action_of o)) (sym (h.actions j (ground (arith, hj))))
                    (quiet j (ground (arith, hj))))
                (omega arith))
              λ u' r. (
                record {
                  calls =
                      r.0.calls
                      ∙ append_assoc u.calls (q.0 ∷ []) (map (entry_of q.1) xs)
                      ∙ rw
                          (
                            h.call,
                            entries-kept t q.1 x xs home
                                (subst (Owned home 512) e (v.wheel.owned 512 (omega arith))).1
                                v.wheel.heads high (work-Ring x xs v e).distinct.1.0 h.timers
                                h.actions,
                          )
                          refl;
                  fired = omega (arith, r.0.fired);
                  valid = IsValid-ext r.0.valid (λ l hl. ground arith) (λ y. ground arith);
                  count = r.0.count ∙ h.count;
                  timers = λ a ne. r.0.timers a (ground arith) ∙ h.timers a (ground arith);
                  actions = λ j ne. r.0.actions j (ground arith) ∙ h.actions j (ground arith);
                },
                r.1 ∙ h.clock,
              )))

module _ (fuel : ℕ) (u : Updated HhWheelTimer) (lists : ℕ → List ℕ) (home : ℕ → ℕ)
    (v : IsValid 512 u.timer lists home) where
  -- no timer is at work between two ticks
  not_at_work : (y : ℕ) → home y ≢ 512
  not_at_work y e = ground (arith, v.wheel.found y, e)

  module _ (b : TvecBase) (begun : Begun u.timer.base lists home b) where
    begun-IsValid :
        let i = u.timer.base.timer_clk % 256 in
        IsValid 513 (with_base b u.timer) (move_list i lists) (move_home i home)
    begun-IsValid = record {
      wheel = begun.wheel;
      known = λ id. ground (arith, v.known id);
      sound = λ x info q. v.sound x info (ap (λ g. g x) (sym begun.timers) ∙ q);
      fresh = λ id h. ground (arith, v.fresh id);
    }

    begun-entries :
        (xs : List ℕ) → map (entry_of (with_base b u.timer)) xs ≡ map (entry_of u.timer) xs
    begun-entries [] = refl
    begun-entries (x ∷ xs) = rw (ap (λ g. g x) begun.timers, begun-entries xs) refl

  -- what a tick comes to
  abbrev pub Ticked : Updated HhWheelTimer → Type 0
  Ticked u' =
      let i = u.timer.base.timer_clk % 256 in
      Ran i (lists i) (put_list i [] lists) home u u'
      × (u'.timer.base.timer_clk ≡ u.timer.base.timer_clk + 1)

  module _ (quiet : AllQuiet u.timer home)
      (enough : length (lists (u.timer.base.timer_clk % 256)) < suc fuel) where
    rest_of_tick :
        (b : TvecBase)
        → Begun u.timer.base lists home b
        → Returns Ticked (
            run_expired get_base with_base handle_timer_expired
              (suc fuel)
              (record u { timer = with_base b u.timer }))
    rest_of_tick b begun =
        let i = u.timer.base.timer_clk % 256 in
        Ends-map
          (run_expired-Ran (suc fuel) (lists i) (record u { timer = with_base b u.timer })
            (move_list i lists) (move_home i home) (begun-IsValid b begun) refl
            (λ j hj. quiet j (ground arith)) enough)
          λ u' r. (
            record {
              calls = r.0.calls ∙ ap (λ es. u.calls ++ es) (begun-entries b begun (lists i));
              fired = r.0.fired;
              valid =
                  IsValid-ext r.0.valid (λ l hl. ground arith) (λ y. ground (arith, not_at_work y));
              count = r.0.count;
              timers =
                  λ a ne. r.0.timers a (ground (arith, not_at_work a)) ∙ ap (λ g. g a) begun.timers;
              actions = λ j ne. r.0.actions j (ground (arith, not_at_work (address j)));
            },
            r.1 ∙ begun.clock,
          )

    pub tick-Ticked :
        (u.timer.base.timer_clk % 256 ≡ 0 → (l : ℕ) → 256 ≤ l → l < 512 → lists l ≡ [])
        → u.timer.base.timer_clk < int64_max
        → Returns Ticked (tick get_base with_base handle_timer_expired (suc fuel) u)
    unfolding tick
    tick-Ticked empty room = Ends-bind (begin_tick-Begun fuel v.wheel empty room) rest_of_tick

    -- whatever the upper vectors hold
    pub tick-returns : IfOk Ticked (tick get_base with_base handle_timer_expired (suc fuel) u)
    unfolding tick
    tick-returns =
        IfOk-bind (begin_tick-returns fuel v.wheel) λ b begun. Ends-IfOk (rest_of_tick b begun)
