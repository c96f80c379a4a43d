-- ===== src/HhTimer/Calls.antt =====
-- src/HHWheelTimer.cpp: Cancel.
use timer_benchmarks.Common.{
  ℕ, ◌≤◌, ◌≡◌, ◌≢◌, inl, inr, refl, Bool, true, false, not, if◌then◌else◌, List, [], ◌∷◌, ◌++◌,
  none, some, ok, Returns, value, Ends-bind, ◌>>=◌, ◌==◌, Bool-cases, Option-cases, ==→≡, arith,
  subst, sym, ap, ◌∙◌,
}
use timer_benchmarks.Timer.Assoc.{find, erase, find-erase}
use timer_benchmarks.Timer.Ids.{remove, select}
use timer_benchmarks.ListImpl.Ring.{Absent, Ring, next-mid}
use timer_benchmarks.TimerList.{
  TvecBase, timer_pending, detach_if_pending, del_timer, write_timer, read_timer,
}
use timer_benchmarks.TimerList.Wheel.{Wheel, put_home, Member-split, Owned-Absent, Wheel-ext}
use timer_benchmarks.TimerList.Detach.{detach_timer-Wheel, Distinct-Absent}
use timer_benchmarks.HhTimer.{HhWheelTimer, address, drop_timer, cancel}
use timer_benchmarks.HhTimer.Valid.{IsValid}

pub remove-Absent : (n : ℕ) (xs : List ℕ) → Absent n xs → remove n xs ≡ xs
unfolding remove select
remove-Absent n [] out = refl
remove-Absent n (x ∷ xs) out = ground (arith, remove-Absent n xs out.1)

remove-once : (n : ℕ) (us vs : List ℕ) → Absent n (us ++ vs) → remove n (us ++ n ∷ vs) ≡ us ++ vs
unfolding remove select
remove-once n [] vs out = ground (arith, remove-Absent n vs out)
remove-once n (u ∷ us) vs out = ground (arith, remove-once n us vs out.1)

-- a timer that is in no list is freed
pub Wheel-freed :
    {k : ℕ} {b : TvecBase} {lists : ℕ → List ℕ} {home : ℕ → ℕ} (n : ℕ)
    → Wheel k b lists home
    → home n ≡ 514
    → Wheel k (write_timer n none b) lists home
unfolding write_timer
Wheel-freed n w free = record {
  rings = w.rings;
  owned = w.owned;
  found = w.found;
  heads = w.heads;
  kept = λ x hx. ground (arith, w.kept x hx);
  idle = λ x hx alloc. w.idle x hx (ground (arith, alloc));
  above = λ x h. ground (arith, w.above x h);
}

module _ {k : ℕ} {b : TvecBase} {lists : ℕ → List ℕ} {home : ℕ → ℕ} (n : ℕ)
    (w : Wheel k b lists home) (small : k ≤ 513) (homed : home n ≢ 514) where
  -- del_timer takes a timer out of its list, and tells so
  pub del_timer-Wheel :
      Returns
        (λ r.
          (r.0 ≡ true)
          × Wheel k r.1 (λ l. remove n (lists l)) (put_home n 514 home)
          × (r.1.timer_clk ≡ b.timer_clk)
          × (r.1.timers ≡ b.timers))
        (del_timer n b)
  unfolding del_timer detach_if_pending timer_pending
  del_timer-Wheel =
      let l = home n in
      let at_l = w.found n homed in
      let (us, vs, e) = Member-split n (lists l) at_l.1 in
      let ring = subst (Ring b.entries l) e (w.rings l at_l.0) in
      let mid = next-mid b.entries l us n vs l ring.chain in
      let on : timer_pending n b ≡ true = rw (mid.1, timer_pending) refl in
      rw on (
        Ends-bind (detach_timer-Wheel n l us vs w small at_l.0 e) λ b' r. value (
          refl,
          Wheel-ext r.0
              (λ m hm. elim (Bool-cases (m == l)) [
                | inl q ↦ rw q (
                    ap (λ j. remove n (lists j)) (==→≡ m l q)
                    ∙ ap (remove n) e
                    ∙ remove-once n us vs (Distinct-Absent n us vs ring.distinct.1))
                | inr q ↦ rw q (
                    remove-Absent n (lists m)
                      (Owned-Absent home m n (lists m) (w.owned m hm) (ground arith)))
              ])
              (λ x. refl),
          r.1,
          r.2,
        ))

-- what Cancel returns: the timer with the id leaves the lists and the maps, if it is in one
pub record HhCancelled (k id : ℕ) (t : HhWheelTimer) (lists : ℕ → List ℕ) (home : ℕ → ℕ)
    (r : Bool × HhWheelTimer) : Type 0 where
  pub known : r.0 ≡ not (home (address id) == 514)
  pub valid : IsValid k r.1 (λ l. remove (address id) (lists l)) (put_home (address id) 514 home)
  pub count : r.1.next_id ≡ t.next_id
  pub clock : r.1.base.timer_clk ≡ t.base.timer_clk
  pub unknown : r.0 ≡ false → r.1 ≡ t
  pub freed :
      r.0 ≡ true → (x : ℕ) → r.1.base.timers x ≡ (if x == address id then none else t.base.timers x)
  pub forgotten :
      r.0 ≡ true
      → (j : ℕ)
      → (find j r.1.ref ≡ (if id == j then none else find j t.ref))
        × (find j r.1.actions ≡ (if id == j then none else find j t.actions))

module _ {k : ℕ} {t : HhWheelTimer} {lists : ℕ → List ℕ} {home : ℕ → ℕ} (id : ℕ)
    (v : IsValid k t lists home) (small : k ≤ 513) where
  absent_id :
      home (address id) ≡ 514
      → IsValid k t (λ l. remove (address id) (lists l)) (put_home (address id) 514 home)
  absent_id free = record {
    wheel =
        Wheel-ext v.wheel
          (λ l hl.
            remove-Absent (address id) (lists l)
              (Owned-Absent home l (address id) (lists l) (v.wheel.owned l hl) (ground arith)))
          (λ x. ground arith);
    known = λ j. ground (arith, v.known j);
    sound = v.sound;
    fresh = λ j h. ground (arith, v.fresh j);
  }

  dropped :
      (b : TvecBase)
      → Wheel k b (λ l. remove (address id) (lists l)) (put_home (address id) 514 home)
      → b.timers ≡ t.base.timers
      → IsValid k
          (record t {
            base = write_timer (address id) none b;
            ref = erase id t.ref;
            actions = erase id t.actions;
          })
          (λ l. remove (address id) (lists l))
          (put_home (address id) 514 home)
  unfolding write_timer
  dropped b w same = record {
    wheel = Wheel-freed (address id) w (ground arith);
    known = λ j. ground (arith, find-erase id j t.ref, v.known j);
    sound = λ x info q. v.sound x info (ground (arith, q, ap (λ f. f x) same));
    fresh = λ j h. ground (arith, v.fresh j);
  }

  freed :
      (b : TvecBase)
      → Wheel k b (λ l. remove (address id) (lists l)) (put_home (address id) 514 home)
      → b.timers ≡ t.base.timers
      → b.timer_clk ≡ t.base.timer_clk
      → t.base.timers (address id) ≢ none
      → Returns
          (λ t'.
            IsValid k t' (λ l. remove (address id) (lists l)) (put_home (address id) 514 home)
            × (t'.next_id ≡ t.next_id)
            × (t'.base.timer_clk ≡ t.base.timer_clk)
            × ((x : ℕ) → t'.base.timers x ≡ (if x == address id then none else t.base.timers x))
            × (t'.ref ≡ erase id t.ref)
            × (t'.actions ≡ erase id t.actions))
          (read_timer (address id) b >>= λ _. ok (record t {
            base = write_timer (address id) none b;
            ref = erase id t.ref;
            actions = erase id t.actions;
          }))
  unfolding write_timer
  freed b w same clock there = elim (Option-cases (b.timers (address id))) [
    | inl e ↦ absurd (there (ap (λ f. f (address id)) (sym same) ∙ e))
    | inr (info, e) ↦ rw e (value (dropped b w same, refl, clock, (λ x. rw same refl), refl, refl))
  ]

  -- With the invariant, HHWheelTimer::Cancel returns, between two calls as well as during a tick,
  -- and tells whether the timer with the id is in a list. The invariant holds for the lists without
  -- that timer. If it is in one, it is freed, its id leaves both maps, with its action, and no
  -- other timer, id or action changes; if not, nothing changes at all. The counter and the wheel's
  -- clock do not change.
  pub cancel-HhCancelled : Returns (HhCancelled k id t lists home) (cancel id t)
  unfolding cancel drop_timer
  cancel-HhCancelled = elim (Bool-cases (home (address id) == 514)) [
    | inl e ↦
        let unknown : find id t.ref ≡ none = ground (arith, v.known id) in
        rw (unknown, cancel)
          (value (record {
            known = ground arith;
            valid = absent_id (ground arith);
            count = refl;
            clock = refl;
            unknown = λ q. refl;
            freed = λ q. absurd (ground (arith, q));
            forgotten = λ q. absurd (ground (arith, q));
          }))
    | inr e ↦
        let homed : home (address id) ≢ 514 = ground arith in
        let there : find id t.ref ≡ some (address id) = ground (arith, v.known id) in
        rw (there, cancel, drop_timer)
          (Ends-bind
            (Ends-bind (del_timer-Wheel (address id) v.wheel small homed)
              λ r d. freed r.1 d.1 d.3 d.2 (v.wheel.kept (address id) homed))
            λ t' c. value (record {
              known = ground arith;
              valid = c.0;
              count = c.1;
              clock = c.2;
              unknown = λ q. absurd (ground (arith, q));
              freed = λ q. c.3;
              forgotten =
                  λ q j. (rw c.4 (find-erase id j t.ref), rw c.5 (find-erase id j t.actions));
            }))
  ]
