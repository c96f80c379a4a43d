-- ===== src/HhTimer/OnTime.antt =====
-- src/HHWheelTimer.cpp, Update: which timers of the first vector it calls, and which stay.
use timer_benchmarks.Common.{
  ℕ, zero, suc, ◌+◌, ◌-◌, ◌%◌, ◌≤◌, ◌<◌, ◌≡◌, ◌≢◌, inl, inr, List, [], ◌∷◌, ◌++◌, map, Mem, Returns,
  Ends-map, ◌==◌, if◌then◌else◌, ltb, Bool-cases, ==→≡, arith, subst, ap, ◌∙◌, length, length-map,
}
use mathlib.Core.List.{mem-cons_self, mem-cons_of_mem}
use timer_benchmarks.Timer.{int64_max}
use timer_benchmarks.Timer.Action.{Updated}
use timer_benchmarks.ListImpl.Ring.{Absent, Distinct, Absent-append}
use timer_benchmarks.TimerList.Wheel.{put_list, Owned, Member, Member-append}
use timer_benchmarks.HhTimer.{HhWheelTimer, update}
use timer_benchmarks.HhTimer.Valid.{IsValid}
use timer_benchmarks.HhTimer.Expire.{entry_of, AllQuiet}
use timer_benchmarks.HhTimer.Ticks.{leave}
use timer_benchmarks.HhTimer.Rounds.{
  due, lists_after, home_after, AllHomed, Owned-AllHomed, due-AllHomed, update-Rounds,
}
use timer_benchmarks.HhTimer.Deadlines.{
  InOrder, expiry_of, AllAt-at, OnTime, OnTime-tick, due-InOrder,
}

home_after-free : (home : ℕ → ℕ) (clk n x : ℕ) → home x ≡ 514 → home_after home clk n x ≡ 514
unfolding home_after
home_after-free home clk zero x e = e
home_after-free home clk (suc n) x e =
    home_after-free (leave (clk % 256) home) (clk + 1) n x (ground (arith, e))

module _ (t : HhWheelTimer) (x : ℕ) where
  -- the ticks from `clk` call the timer if they reach its deadline, and leave it where it is if not
  due-reached :
      (n clk : ℕ) (lists : ℕ → List ℕ) (home : ℕ → ℕ)
      → OnTime t clk lists
      → home x < 256
      → Member x (lists (home x))
      → expiry_of t x < clk + n
      → Member x (due lists clk n)
  unfolding due
  due-reached zero clk lists home h low m reach =
      absurd
        (omega (arith, AllAt-at (expiry_of t) clk (home x) x (lists (home x)) (h (home x) low) m))
  due-reached (suc n) clk lists home h low m reach = elim (Bool-cases (home x == clk % 256)) [
    | inl e ↦
        Member-append x (lists (clk % 256)) (due (put_list (clk % 256) [] lists) (clk + 1) n)
          (inl (subst (λ l. Member x (lists l)) (==→≡ (home x) (clk % 256) e) m))
    | inr e ↦
        Member-append x (lists (clk % 256)) (due (put_list (clk % 256) [] lists) (clk + 1) n) (
          inr (
            due-reached n (clk + 1) (put_list (clk % 256) [] lists) home (OnTime-tick t clk lists h)
              low (rw e m) (omega (arith, reach))))
  ]

  home_after-lem :
      (n clk : ℕ) (lists : ℕ → List ℕ) (home : ℕ → ℕ)
      → OnTime t clk lists
      → home x < 256
      → Member x (lists (home x))
      → home_after home clk n x ≡ (if ltb (expiry_of t x) (clk + n) then 514 else home x)
  unfolding home_after
  home_after-lem zero clk lists home h low m =
      ground (arith, AllAt-at (expiry_of t) clk (home x) x (lists (home x)) (h (home x) low) m)
  home_after-lem (suc n) clk lists home h low m =
      let place = AllAt-at (expiry_of t) clk (home x) x (lists (home x)) (h (home x) low) m in
      elim (Bool-cases (home x == clk % 256)) [
        | inl e ↦
            let now : expiry_of t x ≡ clk = ground (arith, place) in
            ground (arith, home_after-free (leave (clk % 256) home) (clk + 1) n x (ground arith))
        | inr e ↦
            let stays : leave (clk % 256) home x ≡ home x = ground arith in
            home_after-lem n (clk + 1) (put_list (clk % 256) [] lists) (leave (clk % 256) home)
              (OnTime-tick t clk lists h) (ground arith) (rw (stays, e) m)
            ∙ ground arith
      ]

Distinct-append :
    (home : ℕ → ℕ) (l : ℕ) (xs ys : List ℕ)
    → Distinct xs
    → Distinct ys
    → Owned home l xs
    → AllHomed (leave l home) ys
    → Distinct (xs ++ ys)
Distinct-append home l [] ys d d' o h = d'
Distinct-append home l (x ∷ xs) ys d d' o h =
    (Absent-append x xs ys d.0 (apart ys h), Distinct-append home l xs ys d.1 d' o.1 h)
  where
    apart : (zs : List ℕ) → AllHomed (leave l home) zs → Absent x zs
    apart [] k = tt
    apart (z ∷ zs) k = ((λ q. k.0 (ground (arith, o.0, ap home q))), apart zs k.1)

Owned-leave :
    (home : ℕ → ℕ) (i l : ℕ) (xs : List ℕ) → l ≢ i → Owned home l xs → Owned (leave i home) l xs
Owned-leave home i l [] ne o = tt
Owned-leave home i l (x ∷ xs) ne o = (ground (arith, o.0), Owned-leave home i l xs ne o.1)

due-Distinct :
    (home : ℕ → ℕ) (n clk : ℕ) (lists : ℕ → List ℕ)
    → ((l : ℕ) → l < 512 → Distinct (lists l))
    → ((l : ℕ) → l < 512 → Owned home l (lists l))
    → Distinct (due lists clk n)
unfolding due
due-Distinct home zero clk lists d o = tt
due-Distinct home (suc n) clk lists d o =
    let i = clk % 256 in
    let lists1 = put_list i [] lists in
    let d1 : (l : ℕ) → l < 512 → Distinct (lists1 l) =
      λ l hl. elim (Bool-cases (l == i)) [ inl e ↦ rw e tt | inr e ↦ rw e (d l hl) ] in
    let o1 : (l : ℕ) → l < 512 → Owned (leave i home) l (lists1 l) = λ l hl.
      elim (Bool-cases (l == i)) [
        | inl e ↦ rw e tt
        | inr e ↦ rw e (Owned-leave home i l (lists l) (ground arith) (o l hl))
      ] in
    Distinct-append home i (lists i) (due lists1 (clk + 1) n) (d i (omega arith))
      (due-Distinct (leave i home) n (clk + 1) lists1 d1 o1) (o i (omega arith))
      (due-AllHomed (leave i home) lists1 (clk + 1) n
        λ l hl. Owned-AllHomed (leave i home) l (lists1 l) hl (o1 l hl))

mem-entry :
    (t : HhWheelTimer) (x : ℕ) (xs : List ℕ)
    → Member x xs
    → Mem (entry_of t x) (map (entry_of t) xs)
mem-entry t x [] m = absurd m
mem-entry t x (y ∷ ys) (inl e) = rw e mem-cons_self
mem-entry t x (y ∷ ys) (inr m) = mem-cons_of_mem (entry_of t y) (mem-entry t x ys m)

-- the timers that are in a list are in one of the first vector
in_first :
    (t : HhWheelTimer) (lists : ℕ → List ℕ) (home : ℕ → ℕ)
    → IsValid 512 t lists home
    → ((l : ℕ) → 256 ≤ l → l < 512 → lists l ≡ [])
    → (x : ℕ) → home x ≢ 514
    → (home x < 256) × Member x (lists (home x))
in_first t lists home v upper x hx =
    let old = v.wheel.found x hx in
    elim (Bool-cases (ltb (home x) 256)) [
      | inl e ↦ (ground arith, old.1)
      | inr e ↦ absurd (subst (Member x) (upper (home x) (ground arith) old.0) old.1)
    ]

-- Update called the timers of the lists that were due by `now`, once each, in the order of their
-- deadlines; they are in no list, and the others are where they were
pub record CalledOnTime (now : ℕ) (t : HhWheelTimer) (home : ℕ → ℕ) (u : Updated HhWheelTimer)
    : Type 0 where
  pub order : InOrder t.base.timer_clk now u.calls
  pub count : u.fired ≡ length u.calls
  pub once : (xs : List ℕ) × Distinct xs × AllHomed home xs × (u.calls ≡ map (entry_of t) xs)
  pub called : (x : ℕ) → home x ≢ 514 → expiry_of t x ≤ now → Mem (entry_of t x) u.calls
  pub lists' : ℕ → List ℕ
  pub home' : ℕ → ℕ
  pub left : (x : ℕ) → home x ≢ 514 → home' x ≡ (if ltb now (expiry_of t x) then home x else 514)
  pub valid : IsValid 512 u.timer lists' home'
  pub clock : u.timer.base.timer_clk ≡ now + 1

-- Take a HHWheelTimer where the invariant holds, no pending action calls the scheduler, the upper
-- four vectors are empty, and every list of the first vector holds timers whose deadline has the
-- list's index and lies in the 256 ticks from the wheel's clock. With fuel for the lists and the
-- ticks, Update(now) from a `now` that is at most one tick behind the clock and below the largest
-- `int64_t` returns. It calls the timers whose deadline is at most `now`, each once and in the
-- order of the deadlines, and counts them. They leave the lists, the others stay where they were,
-- the clock is one past `now`, and the invariant holds again.
pub update_fires-OnTime :
    (rounds fuel now : ℕ) (t : HhWheelTimer) (lists : ℕ → List ℕ) (home : ℕ → ℕ)
    → IsValid 512 t lists home
    → ((l : ℕ) → 256 ≤ l → l < 512 → lists l ≡ [])
    → OnTime t t.base.timer_clk lists
    → AllQuiet t home
    → ((l : ℕ) → l < 256 → length (lists l) ≤ fuel)
    → t.base.timer_clk ≤ now + 1
    → now < int64_max
    → now + 1 < t.base.timer_clk + rounds
    → Returns (CalledOnTime now t home) (update rounds (suc fuel) now t)
update_fires-OnTime rounds fuel now t lists home v upper exact quiet enough start room more =
    let clk = t.base.timer_clk in
    let n = now + 1 - clk in
    let steps : clk + n ≡ now + 1 = omega (arith, start) in
    let first = in_first t lists home v upper in
    Ends-map
      (update-Rounds n rounds fuel now t lists home v upper enough room quiet steps
        (omega (arith, more, start)))
      λ u r. record {
        order = rw r.calls (due-InOrder t n clk clk now lists exact (omega arith) steps);
        count =
            omega (arith, r.fired, length-map (entry_of t) (due lists clk n), ap length r.calls);
        once = (
          due lists clk n,
          due-Distinct home n clk lists (λ l hl. (v.wheel.rings l hl).distinct.1) v.wheel.owned,
          due-AllHomed home lists clk n
              (λ l hl. Owned-AllHomed home l (lists l) hl (v.wheel.owned l hl)),
          r.calls,
        );
        called = λ x hx le. rw r.calls (
            mem-entry t x (due lists clk n) (
              due-reached t x n clk lists home exact (first x hx).0 (first x hx).1
                (omega (arith, le, steps))));
        lists' = lists_after lists clk n;
        home' = home_after home clk n;
        left = λ x hx.
            home_after-lem t x n clk lists home exact (first x hx).0 (first x hx).1
            ∙ ground (arith, steps);
        valid = r.valid;
        clock = r.clock ∙ steps;
      }
