-- ===== src/HhTimer/Deadlines.antt =====
-- src/HHWheelTimer.cpp: Update calls the timers of the first vector at their deadlines.
use timer_benchmarks.Common.{
  ℕ, zero, suc, ◌+◌, ◌%◌, ◌≤◌, ◌<◌, ◌≡◌, ◌≢◌, inl, inr, List, [], ◌∷◌, ◌++◌, map, ◌==◌, Bool-cases,
  arith,
}
use timer_benchmarks.Timer.Action.{Entry}
use timer_benchmarks.TimerList.Wheel.{put_list, Member}
use timer_benchmarks.HhTimer.{HhWheelTimer}
use timer_benchmarks.HhTimer.Expire.{deadline_of, entry_of}
use timer_benchmarks.HhTimer.Rounds.{due}

-- the deadlines do not fall, from `lo` on, and none is after `hi`
abbrev pub InOrder : ℕ → ℕ → List Entry → Type 0
InOrder lo hi [] = Unit
InOrder lo hi (e ∷ es) = (lo ≤ e.deadline) × (e.deadline ≤ hi) × InOrder e.deadline hi es

-- the deadlines of the list at `l` are those that the tick with that index comes to next
abbrev pub AllAt : (ℕ → ℕ) → ℕ → ℕ → List ℕ → Type 0
AllAt e clk l [] = Unit
AllAt e clk l (x ∷ xs) = ((clk ≤ e x) × (e x < clk + 256) × (e x % 256 ≡ l)) × AllAt e clk l xs

-- the deadline of the timer at an address
abbrev pub expiry_of : HhWheelTimer → ℕ → ℕ
expiry_of t x = deadline_of (t.base.timers x)

pub AllAt-later :
    (e : ℕ → ℕ) (clk l : ℕ) (xs : List ℕ)
    → l ≢ clk % 256
    → AllAt e clk l xs
    → AllAt e (clk + 1) l xs
AllAt-later e clk l [] ne h = tt
AllAt-later e clk l (x ∷ xs) ne h =
    ((ground (arith, h.0), omega (arith, h.0), h.0.2), AllAt-later e clk l xs ne h.1)

pub AllAt-at :
    (e : ℕ → ℕ) (clk l x : ℕ) (xs : List ℕ)
    → AllAt e clk l xs
    → Member x xs
    → (clk ≤ e x) × (e x < clk + 256) × (e x % 256 ≡ l)
AllAt-at e clk l x [] h m = absurd m
AllAt-at e clk l x (y ∷ ys) h (inl q) = rw q h.0
AllAt-at e clk l x (y ∷ ys) h (inr m) = AllAt-at e clk l x ys h.1 m

module _ (t : HhWheelTimer) where
  InOrder-earlier :
      (lo lo' hi : ℕ) (es : List Entry) → lo ≤ lo' → InOrder lo' hi es → InOrder lo hi es
  InOrder-earlier lo lo' hi [] le o = tt
  InOrder-earlier lo lo' hi (e ∷ es) le o = (omega (arith, o.0), o.1, o.2)

  -- the timers of one tick, before those of later ticks
  InOrder-tick :
      (clk lo hi : ℕ) (xs : List ℕ) (ys : List ℕ)
      → lo ≤ clk
      → clk ≤ hi
      → AllAt (expiry_of t) clk (clk % 256) xs
      → InOrder clk hi (map (entry_of t) ys)
      → InOrder lo hi (map (entry_of t) (xs ++ ys))
  InOrder-tick clk lo hi [] ys low high h o = InOrder-earlier lo clk hi (map (entry_of t) ys) low o
  InOrder-tick clk lo hi (x ∷ xs) ys low high h o =
      let exact : expiry_of t x ≡ clk = omega (arith, h.0) in
      (
        rw exact low,
        rw exact high,
        rw exact (InOrder-tick clk clk hi xs ys (omega arith) high h.1 o),
      )

  abbrev pub OnTime : ℕ → (ℕ → List ℕ) → Type 0
  OnTime clk lists = (l : ℕ) → l < 256 → AllAt (expiry_of t) clk l (lists l)

  pub OnTime-tick :
      (clk : ℕ) (lists : ℕ → List ℕ)
      → OnTime clk lists
      → OnTime (clk + 1) (put_list (clk % 256) [] lists)
  OnTime-tick clk lists h l hl = elim (Bool-cases (l == clk % 256)) [
    | inl e ↦ rw e tt
    | inr e ↦ rw e (AllAt-later (expiry_of t) clk l (lists l) (ground arith) (h l hl))
  ]

  pub due-InOrder :
      (n clk lo hi : ℕ) (lists : ℕ → List ℕ)
      → OnTime clk lists
      → lo ≤ clk
      → clk + n ≡ hi + 1
      → InOrder lo hi (map (entry_of t) (due lists clk n))
  unfolding due
  due-InOrder zero clk lo hi lists h low e = tt
  due-InOrder (suc n) clk lo hi lists h low e =
      InOrder-tick clk lo hi (lists (clk % 256)) _ low (omega (arith, e))
        (h (clk % 256) (omega arith))
        (due-InOrder n (clk + 1) clk hi (put_list (clk % 256) [] lists) (OnTime-tick clk lists h)
          (omega arith) (omega (arith, e)))
