-- ===== src/HhTimer/Rounds.antt =====
-- src/HHWheelTimer.cpp, Update, where no action calls the scheduler and the upper vectors are empty:
-- against ticks on plain lists.
use timer_benchmarks.Common.{
  ℕ, zero, suc, ◌+◌, ◌-◌, ◌%◌, ◌≤◌, ◌<◌, ◌≡◌, ◌≢◌, inl, inr, refl, true, false, List, [], ◌∷◌, ◌++◌,
  map, none, Returns, value, Ends-map, Ends-bind, ◌==◌, Bool-cases, arith, subst, sym, ap, ◌∙◌,
  length, length-append, leb,
}
use mathlib.Core.List.{append_assoc, append-nil, map-append}
use timer_benchmarks.Timer.{int64_max}
use timer_benchmarks.Timer.Action.{IsQuiet, Updated, nothing}
use timer_benchmarks.Timer.Assoc.{find}
use timer_benchmarks.TimerList.{time_after_eq}
use timer_benchmarks.TimerList.Ticks.{run_ticks, run_timers}
use timer_benchmarks.TimerList.Wheel.{put_list, Owned, Wheel-clock}
use timer_benchmarks.HhTimer.{HhWheelTimer, address, handle_timer_expired, with_base, update}
use timer_benchmarks.HhTimer.Valid.{IsValid}
use timer_benchmarks.HhTimer.Expire.{action_of, entry_of, AllQuiet}
use timer_benchmarks.HhTimer.Ticks.{get_base, tick-Ticked, leave}

-- `n` ticks from `clk` on plain lists: the timers called, the lists after, and who is in none
unfoldable pub due : (ℕ → List ℕ) → ℕ → ℕ → List ℕ
due lists clk zero = []
due lists clk (suc n) = lists (clk % 256) ++ due (put_list (clk % 256) [] lists) (clk + 1) n

unfoldable pub lists_after : (ℕ → List ℕ) → ℕ → ℕ → ℕ → List ℕ
lists_after lists clk zero = lists
lists_after lists clk (suc n) = lists_after (put_list (clk % 256) [] lists) (clk + 1) n

unfoldable pub home_after : (ℕ → ℕ) → ℕ → ℕ → ℕ → ℕ
home_after home clk zero = home
home_after home clk (suc n) = home_after (leave (clk % 256) home) (clk + 1) n

abbrev pub AllHomed : (ℕ → ℕ) → List ℕ → Type 0
AllHomed home [] = Unit
AllHomed home (x ∷ xs) = (home x ≢ 514) × AllHomed home xs

AllHomed-append :
    (home : ℕ → ℕ) (xs ys : List ℕ) → AllHomed home xs → AllHomed home ys → AllHomed home (xs ++ ys)
AllHomed-append home [] ys h k = k
AllHomed-append home (x ∷ xs) ys h k = (h.0, AllHomed-append home xs ys h.1 k)

pub Owned-AllHomed :
    (home : ℕ → ℕ) (l : ℕ) (xs : List ℕ) → l < 512 → Owned home l xs → AllHomed home xs
Owned-AllHomed home l [] small o = tt
Owned-AllHomed home l (x ∷ xs) small o = (ground (arith, o.0), Owned-AllHomed home l xs small o.1)

pub due-AllHomed :
    (home : ℕ → ℕ) (lists : ℕ → List ℕ) (clk n : ℕ)
    → ((l : ℕ) → l < 512 → AllHomed home (lists l))
    → AllHomed home (due lists clk n)
unfolding due
due-AllHomed home lists clk zero h = tt
due-AllHomed home lists clk (suc n) h =
    AllHomed-append home (lists (clk % 256)) (due (put_list (clk % 256) [] lists) (clk + 1) n)
      (h (clk % 256) (omega arith))
      (due-AllHomed home (put_list (clk % 256) [] lists) (clk + 1) n
        (λ l hl. elim (Bool-cases (l == clk % 256)) [ inl e ↦ rw e tt | inr e ↦ rw e (h l hl) ]))

-- timers in a list are the same after a tick that leaves them
entries-same :
    (t t' : HhWheelTimer) (l : ℕ) (home : ℕ → ℕ) (xs : List ℕ)
    → AllHomed (leave l home) xs
    → ((y : ℕ) → y < 515 → home y ≡ 514)
    → ((a : ℕ) → home a ≢ l → t'.base.timers a ≡ t.base.timers a)
    → ((j : ℕ) → home (address j) ≢ l → find j t'.actions ≡ find j t.actions)
    → map (entry_of t') xs ≡ map (entry_of t) xs
entries-same t t' l home [] h low timers actions = refl
entries-same t t' l home (y ∷ ys) h low timers actions =
    let high : 515 ≤ y = ground (arith, low y, h.0) in
    let back : address (y - 515) ≡ y = omega (arith, high) in
    let stays : home y ≢ l = ground (arith, h.0) in
    rw
      (
        timers y stays,
        actions (y - 515) (λ e. stays (ap home (sym back) ∙ e)),
        entries-same t t' l home ys h.1 low timers actions,
      )
      refl

-- what `n` ticks come to
pub record Rounds (n : ℕ) (lists : ℕ → List ℕ) (home : ℕ → ℕ) (u u' : Updated HhWheelTimer)
    : Type 0 where
  pub calls : u'.calls ≡ u.calls ++ map (entry_of u.timer) (due lists u.timer.base.timer_clk n)
  pub fired : u'.fired ≡ u.fired + length (due lists u.timer.base.timer_clk n)
  pub valid :
      IsValid 512 u'.timer
        (lists_after lists u.timer.base.timer_clk n)
        (home_after home u.timer.base.timer_clk n)
  pub clock : u'.timer.base.timer_clk ≡ u.timer.base.timer_clk + n
  pub count : u'.timer.next_id ≡ u.timer.next_id

run_ticks-Rounds :
    (n rounds fuel now : ℕ) (u : Updated HhWheelTimer) (lists : ℕ → List ℕ) (home : ℕ → ℕ)
    → IsValid 512 u.timer lists home
    → ((l : ℕ) → 256 ≤ l → l < 512 → lists l ≡ [])
    → ((l : ℕ) → l < 256 → length (lists l) < suc fuel)
    → now < int64_max
    → AllQuiet u.timer home
    → u.timer.base.timer_clk + n ≡ now + 1
    → n < rounds
    → Returns
        (Rounds n lists home u)
        (run_ticks get_base with_base handle_timer_expired rounds (suc fuel) now u)
unfolding run_ticks time_after_eq due lists_after home_after
run_ticks-Rounds n zero fuel now u lists home v upper enough room quiet steps more =
    absurd (omega arith)
run_ticks-Rounds zero (suc r) fuel now u lists home v upper enough room quiet steps more =
    let stop : leb u.timer.base.timer_clk now ≡ false = ground (arith, steps) in
    rw (stop, run_ticks)
      (value (record {
        calls = sym (append-nil u.calls);
        fired = omega arith;
        valid = v;
        clock = omega arith;
        count = refl;
      }))
run_ticks-Rounds (suc n) (suc r) fuel now u lists home v upper enough room quiet steps more =
    let clk = u.timer.base.timer_clk in
    let i = clk % 256 in
    let on : leb clk now ≡ true = ground (arith, steps) in
    let lists1 = put_list i [] lists in
    let home1 = leave i home in
    rw (on, run_ticks)
      (Ends-bind
        (tick-Ticked fuel u lists home v quiet (enough i (omega arith)) (λ _. upper)
          (omega (arith, steps)))
        λ u1 t.
          Ends-map
            (run_ticks-Rounds n r fuel now u1 lists1 home1 t.0.valid
              (λ l low high. ground (arith, upper l low high)) (λ l hl. ground (arith, enough l hl))
              room
              (λ j hj.
                subst (λ o. IsQuiet (action_of o)) (sym (t.0.actions j (ground (arith, hj))))
                  (quiet j (ground (arith, hj))))
              (omega (arith, steps, t.1)) (omega (arith, more)))
            λ u' d.
              let later = due lists1 (clk + 1) n in
              let homed : AllHomed home1 later =
                due-AllHomed home1 lists1 (clk + 1) n
                  λ l hl. Owned-AllHomed home1 l (lists1 l) hl (t.0.valid.wheel.owned l hl) in
              record {
                calls =
                    subst (λ c. u'.calls ≡ u1.calls ++ map (entry_of u1.timer) (due lists1 c n)) t.1
                      d.calls
                    ∙ rw
                        (
                          t.0.calls,
                          entries-same u.timer u1.timer i home later homed v.wheel.heads t.0.timers
                              t.0.actions,
                        )
                        (append_assoc u.calls (map (entry_of u.timer) (lists i))
                            (map (entry_of u.timer) later)
                          ∙ ap (λ es. u.calls ++ es)
                              (sym (map-append (entry_of u.timer) (lists i) later)));
                fired = omega (
                  arith,
                  subst (λ c. u'.fired ≡ u1.fired + length (due lists1 c n)) t.1 d.fired,
                  t.0.fired,
                  length-append (lists i) later,
                );
                valid =
                    subst
                      (λ c. IsValid 512 u'.timer (lists_after lists1 c n) (home_after home1 c n))
                      t.1 d.valid;
                clock = omega (arith, d.clock, t.1);
                count = d.count ∙ t.0.count;
              })

-- Where the invariant holds, no pending action calls the scheduler and the upper four vectors are
-- empty, HHWheelTimer::Update(now) returns when it has more rounds than ticks from the wheel's
-- clock to `now`, and more fuel than a list has timers. It does what as many ticks on plain lists
-- do, each of which takes the whole list of its index: it calls the same timers in the same order,
-- counts them, and the lists and homes of the timers after it are the same. The clock goes on by
-- the number of the ticks, and the invariant holds again.
pub update-Rounds :
    (n rounds fuel now : ℕ) (t : HhWheelTimer) (lists : ℕ → List ℕ) (home : ℕ → ℕ)
    → IsValid 512 t lists home
    → ((l : ℕ) → 256 ≤ l → l < 512 → lists l ≡ [])
    → ((l : ℕ) → l < 256 → length (lists l) ≤ fuel)
    → now < int64_max
    → AllQuiet t home
    → t.base.timer_clk + n ≡ now + 1
    → n < rounds
    → Returns (Rounds n lists home (nothing t)) (update rounds (suc fuel) now t)
unfolding update run_timers
update-Rounds n rounds fuel now t lists home v upper enough room quiet steps more =
    Ends-bind
      (run_ticks-Rounds n rounds fuel now (nothing t) lists home v upper
        (λ l hl. omega (arith, enough l hl)) room quiet steps more)
      λ u r. value (record {
        calls = r.calls;
        fired = r.fired;
        valid = record {
          wheel = Wheel-clock none u.timer.base.timer_clk r.valid.wheel;
          known = r.valid.known;
          sound = r.valid.sound;
          fresh = r.valid.fresh;
        };
        clock = r.clock;
        count = r.count;
      })
