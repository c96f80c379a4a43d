-- ===== src/HhTimer/Started.antt =====
-- src/HHWheelTimer.cpp: the lists after a Start that lands in the first vector.
use timer_benchmarks.Common.{
  ℕ, zero, suc, ◌+◌, ◌-◌, ◌%◌, ◌≤◌, ◌<◌, ◌≡◌, ◌≢◌, inl, inr, refl, List, [], ◌∷◌, ◌++◌, some, ◌==◌,
  Bool-cases, ==→≡, arith, subst, sym, ap, ◌∙◌, length, length-append,
}
use timer_benchmarks.Timer.Action.{Action, IsQuiet, Entry}
use timer_benchmarks.Timer.Assoc.{find}
use timer_benchmarks.Timer.Ids.{remove, select}
use timer_benchmarks.ListImpl.Ring.{Absent}
use timer_benchmarks.TimerList.{slot}
use timer_benchmarks.TimerList.Wheel.{put_list, put_home, Owned-Absent}
use timer_benchmarks.HhTimer.{HhWheelTimer, address}
use timer_benchmarks.HhTimer.Valid.{IsValid, HhStarted}
use timer_benchmarks.HhTimer.Expire.{entry_of, AllQuiet}
use timer_benchmarks.HhTimer.Ticks.{leave}
use timer_benchmarks.HhTimer.Rounds.{home_after}
use timer_benchmarks.HhTimer.Deadlines.{AllAt, expiry_of, OnTime}

pub remove-last : (n : ℕ) (xs : List ℕ) → Absent n xs → remove n (xs ++ n ∷ []) ≡ xs
unfolding remove select
remove-last n [] out = ground arith
remove-last n (x ∷ xs) out = ground (arith, remove-last n xs out.1)

AllAt-same :
    (e e' : ℕ → ℕ) (clk l n : ℕ) (xs : List ℕ)
    → ((x : ℕ) → n ≢ x → e' x ≡ e x)
    → Absent n xs
    → AllAt e clk l xs
    → AllAt e' clk l xs
AllAt-same e e' clk l n [] same out h = tt
AllAt-same e e' clk l n (x ∷ xs) same out h =
    (rw (same x out.0) h.0, AllAt-same e e' clk l n xs same out.1 h.1)

AllAt-snoc :
    (e : ℕ → ℕ) (clk l n : ℕ) (xs : List ℕ)
    → AllAt e clk l xs
    → (clk ≤ e n) × (e n < clk + 256) × (e n % 256 ≡ l)
    → AllAt e clk l (xs ++ n ∷ [])
AllAt-snoc e clk l n [] h p = (p, tt)
AllAt-snoc e clk l n (x ∷ xs) h p = (h.0, AllAt-snoc e clk l n xs h.1 p)

pub slot-near : (clk expires : ℕ) → expires < clk + 256 → slot clk expires ≡ expires % 256
unfolding slot
slot-near clk expires h = ground arith

-- the lists and the homes after a Start with the deadline `d`
abbrev pub started_lists : HhWheelTimer → ℕ → (ℕ → List ℕ) → ℕ → List ℕ
started_lists t d lists =
    let m = slot t.base.timer_clk d in put_list m (lists m ++ address t.next_id ∷ []) lists

abbrev pub started_home : HhWheelTimer → ℕ → (ℕ → ℕ) → ℕ → ℕ
started_home t d home = put_home (address t.next_id) (slot t.base.timer_clk d) home

abbrev pub as_started : ℕ → ℕ → Action → Entry
as_started id deadline action = record { id = id; deadline = deadline; action = action }

module _ (clock duration : ℕ) (action : Action) (t : HhWheelTimer) (lists : ℕ → List ℕ)
    (home : ℕ → ℕ) (v : IsValid 512 t lists home) (r : ℕ × HhWheelTimer)
    (s : HhStarted clock duration action t lists home r) where
  new-Absent : (l : ℕ) → l < 512 → Absent (address t.next_id) (lists l)
  new-Absent l hl =
      Owned-Absent home l (address t.next_id) (lists l) (v.wheel.owned l hl)
        (ground (arith, v.fresh t.next_id (omega arith)))

  pub started_quiet :
      IsQuiet action → AllQuiet t home → AllQuiet r.1 (started_home t (clock + duration) home)
  started_quiet q quiet j hj = elim (Bool-cases (t.next_id == j)) [
    | inl e ↦
        let there : find j r.1.actions ≡ some action = ground (arith, s.actions j) in rw there q
    | inr e ↦
        let there : find j r.1.actions ≡ find j t.actions = ground (arith, s.actions j) in
        rw there (quiet j (ground (arith, hj)))
  ]

  pub started_expiry : expiry_of r.1 (address t.next_id) ≡ clock + duration
  started_expiry = ground (arith, s.timers (address t.next_id))

  pub started_OnTime :
      OnTime t t.base.timer_clk lists
      → t.base.timer_clk ≤ clock + duration
      → clock + duration < t.base.timer_clk + 256
      → OnTime r.1 t.base.timer_clk (started_lists t (clock + duration) lists)
  started_OnTime exact low high l hl =
      let clk = t.base.timer_clk in
      let n = address t.next_id in
      let m = slot clk (clock + duration) in
      let near = slot-near clk (clock + duration) high in
      let before : AllAt (expiry_of r.1) clk l (lists l) =
        AllAt-same (expiry_of t) (expiry_of r.1) clk l n (lists l)
          (λ x ne. ground (arith, s.timers x)) (new-Absent l (omega arith)) (exact l hl) in
      elim (Bool-cases (l == m)) [
        | inl e ↦
            let at_l = ==→≡ l m e in
            rw e (
              subst (λ q. AllAt (expiry_of r.1) clk l (lists q ++ n ∷ [])) at_l
                (AllAt-snoc (expiry_of r.1) clk l n (lists l) before (
                  omega (arith, started_expiry, low),
                  omega (arith, started_expiry, high),
                  rw started_expiry (sym (at_l ∙ near)),
                )))
        | inr e ↦ rw e before
      ]

  pub started_upper :
      ((l : ℕ) → 256 ≤ l → l < 512 → lists l ≡ [])
      → clock + duration < t.base.timer_clk + 256
      → (l : ℕ) → 256 ≤ l
      → l < 512
      → started_lists t (clock + duration) lists l ≡ []
  started_upper upper high l large hl =
      let near = slot-near t.base.timer_clk (clock + duration) high in
      ground (arith, upper l large hl)

  pub started_enough :
      (fuel : ℕ)
      → ((l : ℕ) → l < 256 → length (lists l) < fuel)
      → (l : ℕ) → l < 256
      → length (started_lists t (clock + duration) lists l) ≤ fuel
  started_enough fuel enough l hl =
      let m = slot t.base.timer_clk (clock + duration) in
      elim (Bool-cases (l == m)) [
        | inl e ↦ rw e (
            subst (λ q. length (lists q ++ address t.next_id ∷ []) ≤ fuel) (==→≡ l m e)
              (omega (arith, length-append (lists l) (address t.next_id ∷ []), enough l hl)))
        | inr e ↦ rw e (omega (arith, enough l hl))
      ]

  pub started_entry :
      entry_of r.1 (address t.next_id) ≡ as_started t.next_id (clock + duration) action
  started_entry =
      let back : address t.next_id - 515 ≡ t.next_id = omega arith in
      let there : find t.next_id r.1.actions ≡ some action = ground (arith, s.actions t.next_id) in
      rw (started_expiry, back, there) refl

-- ticks that do not come to the index of a timer's list leave it
pub home_after-missed :
    (home : ℕ → ℕ) (n clk x : ℕ)
    → ((k : ℕ) → k < n → (clk + k) % 256 ≢ home x)
    → home_after home clk n x ≡ home x
unfolding home_after
home_after-missed home zero clk x miss = refl
home_after-missed home (suc n) clk x miss =
    let off : clk % 256 ≢ home x =
      λ q. miss 0 (omega arith) (ap (λ (c : ℕ). c % 256) (omega arith) ∙ q) in
    let stays : leave (clk % 256) home x ≡ home x = ground arith in
    home_after-missed (leave (clk % 256) home) n (clk + 1) x
      (λ k hk q. miss (k + 1) (omega arith) (ap (λ (c : ℕ). c % 256) (omega arith) ∙ q ∙ stays))
    ∙ stays
