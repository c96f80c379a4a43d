-- ===== src/HhTimer/Expire.antt =====
-- src/HHWheelTimer.cpp, handleTimerExpired, in the loop of run_timers over the expired timers, where
-- no action calls the scheduler.
use timer_benchmarks.Common.{
  ℕ, ◌-◌, ◌<◌, ◌≡◌, ◌≢◌, inl, inr, refl, Bool, true, false, List, [], ◌∷◌, Option, none, some, ok,
  Returns, value, Ends-bind, ◌==◌, if◌then◌else◌, Option-cases, arith, subst, ap, ◌∙◌,
}
use timer_benchmarks.Timer.Action.{Action, null, IsQuiet, Entry, invoke-quiet}
use timer_benchmarks.Timer.Assoc.{find, erase, find-erase}
use timer_benchmarks.ListImpl.{follow}
use timer_benchmarks.ListImpl.Ring.{Ring}
use timer_benchmarks.TimerList.{TvecBase, TimerList, timer_pending, del_timer, write_timer}
use timer_benchmarks.TimerList.Ticks.{take_expired}
use timer_benchmarks.TimerList.Wheel.{Wheel, Wheel-clock, Wheel-ext, put_list, put_home, Owned}
use timer_benchmarks.TimerList.Attach.{not_pending}
use timer_benchmarks.TimerList.Detach.{detach_timer-Wheel}
use timer_benchmarks.HhTimer.{
  HhWheelTimer, address, start, cancel, drop_timer, find_and_del_action, handle_timer_expired,
  with_base,
}
use timer_benchmarks.HhTimer.Valid.{IsValid}
use timer_benchmarks.HhTimer.Calls.{Wheel-freed}

-- the timer at an address, as a user knows it
abbrev pub deadline_of : Option TimerList → ℕ
deadline_of none = 0
deadline_of (some info) = info.expires

abbrev pub action_of : Option Action → Action
action_of none = null
action_of (some action) = action

abbrev pub entry_of : HhWheelTimer → ℕ → Entry
entry_of t x = record {
  id = x - 515;
  deadline = deadline_of (t.base.timers x);
  action = action_of (find (x - 515) t.actions);
}

-- no action of a timer in a list calls the scheduler
abbrev pub AllQuiet : HhWheelTimer → (ℕ → ℕ) → Type 0
AllQuiet t home = (j : ℕ) → home (address j) ≢ 514 → IsQuiet (action_of (find j t.actions))

-- findAndDelAction takes the action of the id, empty where there is none
record Found (id : ℕ) (t : HhWheelTimer) (left : List (ℕ × Action)) : Type 0 where
  pub result :
      find_and_del_action id t ≡ (action_of (find id t.actions), record t { actions = left })
  pub erased : (j : ℕ) → find j (erase id left) ≡ (if id == j then none else find j t.actions)

find_and_del_action-Found :
    (id : ℕ) (t : HhWheelTimer) → (left : List (ℕ × Action)) × Found id t left
unfolding find_and_del_action
find_and_del_action-Found id t = elim (Option-cases (find id t.actions)) [
  | inl e ↦ (
    t.actions,
    record { result = rw (e, find_and_del_action) refl; erased = λ j. find-erase id j t.actions },
  )
  | inr (action, e) ↦ (
    erase id t.actions,
    record {
      result = rw (e, find_and_del_action) refl;
      erased = λ j. ground (arith, find-erase id j (erase id t.actions), find-erase id j t.actions);
    },
  )
]

-- handleTimerExpired, where the callees' results are known
handle_eq :
    (x : ℕ) (t : HhWheelTimer) (info : TimerList) (action : Action) (t1 t2 : HhWheelTimer)
    (known : Bool)
    → t.base.timers x ≡ some info
    → find_and_del_action info.id t ≡ (action, t1)
    → cancel info.id t1 ≡ ok (known, t2)
    → IsQuiet action
    → handle_timer_expired x t
      ≡ ok (record { id = info.id; deadline = info.expires; action = action }, t2)
unfolding handle_timer_expired
handle_eq x t info action t1 t2 known e f c q =
    ground (arith, invoke-quiet start cancel action t2 q)

-- Cancel of a timer that is in no list frees it
cancel_eq :
    (id x : ℕ) (t : HhWheelTimer) (info : TimerList)
    → find id t.ref ≡ some x
    → timer_pending x t.base ≡ false
    → t.base.timers x ≡ some info
    → cancel id t
      ≡ ok (
        true,
        record t {
          base = write_timer x none t.base;
          ref = erase id t.ref;
          actions = erase id t.actions;
        },
      )
unfolding cancel drop_timer del_timer
cancel_eq id x t info f p e = ground arith

-- what the handling of the timer `x` leaves
pub record Handled (t : HhWheelTimer) (x : ℕ) (xs : List ℕ) (lists : ℕ → List ℕ) (home : ℕ → ℕ)
    (r : Entry × HhWheelTimer) : Type 0 where
  pub call : r.0 ≡ entry_of t x
  pub valid : IsValid 513 r.1 (put_list 512 xs lists) (put_home x 514 home)
  pub clock : r.1.base.timer_clk ≡ t.base.timer_clk
  pub count : r.1.next_id ≡ t.next_id
  pub timers : (a : ℕ) → a ≢ x → r.1.base.timers a ≡ t.base.timers a
  pub actions : (j : ℕ) → address j ≢ x → find j r.1.actions ≡ find j t.actions

module _ {t : HhWheelTimer} {lists : ℕ → List ℕ} {home : ℕ → ℕ} (x : ℕ) (xs : List ℕ)
    (v : IsValid 513 t lists home) (next : lists 512 ≡ x ∷ xs) where
  pub at_work : home x ≡ 512
  at_work = (subst (Owned home 512) next (v.wheel.owned 512 (omega arith))).0

  pub work-Ring : Ring t.base.entries 512 (x ∷ xs)
  work-Ring = subst (Ring t.base.entries 512) next (v.wheel.rings 512 (omega arith))

  -- the base after the timer is taken from the work list
  abbrev pub Taken : TvecBase → Type 0
  Taken b =
      Wheel 513 b (put_list 512 xs lists) (put_home x 514 home)
      × (b.timer_clk ≡ t.base.timer_clk)
      × (b.timers ≡ t.base.timers)

  pub take_expired-Taken : Returns (λ r. (r.0 ≡ x) × Taken r.1) (take_expired t.base)
  unfolding take_expired
  take_expired-Taken = elim (Option-cases (t.base.timers x)) [
    | inl e ↦ absurd (v.wheel.kept x (ground (arith, at_work)) e)
    | inr (info, e) ↦
        let safe : follow (some x) ≡ ok x = ground (arith, work-Ring.sound.1.0) in
        rw (work-Ring.chain.0.0, safe, e)
          (Ends-bind
            (detach_timer-Wheel x 512 [] xs (Wheel-clock (some x) t.base.timer_clk v.wheel)
              (omega arith) (omega arith) next)
            λ b r. rw (ap (λ i. i.function) (v.sound x info e).1) (value (refl, r)))
  ]

  pub handled :
      (b : TvecBase)
      → Taken b
      → IsQuiet (action_of (find (x - 515) t.actions))
      → Returns (Handled t x xs lists home) (handle_timer_expired x (with_base b t))
  unfolding write_timer
  handled b taken quiet = elim (Option-cases (t.base.timers x)) [
    | inl e ↦ absurd (v.wheel.kept x (ground (arith, at_work)) e)
    | inr (info, e) ↦
        let there : b.timers x ≡ some info = ap (λ f. f x) taken.2 ∙ e in
        let at_id : x ≡ address info.id = (v.sound x info e).0 in
        let same_id : x - 515 ≡ info.id = omega (arith, at_id) in
        let (left, f) = find_and_del_action-Found info.id (with_base b t) in
        let rest = not_pending x taken.0 (ground arith) (λ q. ground arith) in
        let in_ref : find info.id t.ref ≡ some x = ground (arith, v.known info.id, at_work) in
        let t1 : HhWheelTimer = record (with_base b t) { actions = left } in
        rw
          (handle_eq x (with_base b t) info (action_of (find info.id t.actions)) t1 _ true there
            f.result (cancel_eq info.id x t1 info in_ref rest there)
            (subst (λ i. IsQuiet (action_of (find i t.actions))) same_id quiet))
          (value (record {
            call = rw (e, same_id) refl;
            valid = record {
              wheel = Wheel-freed x taken.0 (ground arith);
              known = λ j. ground (arith, find-erase info.id j t.ref, v.known j);
              sound = λ y i q. v.sound y i (ground (arith, q, ap (λ g. g y) taken.2));
              fresh = λ j h. ground (arith, v.fresh j);
            };
            clock = taken.1;
            count = refl;
            timers = λ a ne. ground (arith, ap (λ g. g a) taken.2);
            actions = λ j ne. ground (arith, f.erased j);
          }))
  ]

pub IsValid-ext :
    {k : ℕ} {t : HhWheelTimer} {lists lists' : ℕ → List ℕ} {home home' : ℕ → ℕ}
    → IsValid k t lists home
    → ((l : ℕ) → l < k → lists' l ≡ lists l)
    → ((x : ℕ) → home' x ≡ home x)
    → IsValid k t lists' home'
IsValid-ext v same_lists same_home = record {
  wheel = Wheel-ext v.wheel same_lists same_home;
  known = λ id. rw (same_home (address id)) (v.known id);
  sound = v.sound;
  fresh = λ id h. ground (arith, same_home (address id), v.fresh id);
}
