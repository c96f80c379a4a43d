-- ===== src/TimerList/Attach.antt =====
-- src/timer_list.cpp, __internal_add_timer and add_timer: the timer becomes the last of its slot's list.
use timer_benchmarks.Common.{
  ℕ, ◌≤◌, ◌<◌, ◌≡◌, ◌≢◌, inl, inr, refl, Bool, true, false, List, [], ◌∷◌, ◌++◌, none, some, Run,
  ok, fault, out_of_fuel, Returns, value, Ends-map, Ends-bind, ◌>>=◌, ◌==◌, Bool-cases, ==→≡, arith,
  subst,
}
use timer_benchmarks.ListImpl.{Memory, list_add_tail}
use timer_benchmarks.ListImpl.Ring.{Absent, Ring}
use timer_benchmarks.ListImpl.Ops.{SameOutside, list_add_tail-Ring}
use timer_benchmarks.TimerList.{
  TvecBase, TimerList, slot, write_timer, timer_pending, internal_add_timer, rearm,
  detach_if_pending, mod_timer_if, mod_timer, add_timer,
}
use timer_benchmarks.TimerList.Slot.{slot_bound}
use timer_benchmarks.TimerList.Wheel.{
  Member, Wheel, put_list, put_home, Member-append, Owned-Absent, Owned-append, Owned-put,
  Wheel-frame,
}

module _ {k : ℕ} {b : TvecBase} {lists : ℕ → List ℕ} {home : ℕ → ℕ} (n m : ℕ)
    (w : Wheel k b lists home) (small : k ≤ 513) (hm : m < k) (free : home n ≡ 514) (far : 515 ≤ n)
    (there : b.timers n ≢ none) where
  Absent-free : (l : ℕ) → l < k → Absent n (lists l)
  Absent-free l hl = Owned-Absent home l n (lists l) (w.owned l hl) (ground arith)

  put_list_found :
      (x l : ℕ) → Member x (lists l) → Member x (put_list m (lists m ++ n ∷ []) lists l)
  put_list_found x l i = elim (Bool-cases (l == m)) [
    | inl e ↦
        rw e (
          Member-append x (lists m) (n ∷ []) (inl (subst (λ q. Member x (lists q)) (==→≡ l m e) i)))
    | inr e ↦ rw e i
  ]

  attached :
      (h' : Memory)
      → Ring h' m (lists m ++ n ∷ [])
      → SameOutside (n ∷ m ∷ lists m) b.entries h'
      → Wheel k
          (record b { entries = h' })
          (put_list m (lists m ++ n ∷ []) lists)
          (put_home n m home)
  attached h' ring same = record {
    rings = λ l hl. elim (Bool-cases (l == m)) [
      | inl e ↦ rw (e, ==→≡ l m e) ring
      | inr e ↦
          rw e (Wheel-frame h' n m l w small hm hl (ground arith) (omega arith) (ground arith) same)
    ];
    owned = λ l hl. elim (Bool-cases (l == m)) [
      | inl e ↦
          rw (e, ==→≡ l m e)
            (Owned-append (put_home n m home) m (lists m) (n ∷ [])
              (Owned-put home m n m (lists m) (w.owned m hm) (Absent-free m hm)) (ground arith, tt))
      | inr e ↦ rw e (Owned-put home l n m (lists l) (w.owned l hl) (Absent-free l hl))
    ];
    found = λ x hx. elim (Bool-cases (x == n)) [
      | inl e ↦
          let same_m : (m == m) ≡ true = ground arith in
          rw (e, same_m, ==→≡ x n e) (hm, Member-append n (lists m) (n ∷ []) (inr (inl refl)))
      | inr e ↦
          let old = w.found x (ground (arith, hx)) in rw e (old.0, put_list_found x (home x) old.1)
    ];
    heads = λ x h. ground (arith, w.heads x h);
    kept = λ x hx. elim (Bool-cases (x == n)) [
      | inl e ↦ rw (==→≡ x n e) there
      | inr e ↦ w.kept x (ground arith)
    ];
    idle = λ x hx alloc.
        let out = Owned-Absent home m x (lists m) (w.owned m hm) (ground (arith, hx)) in
        let off : Absent x (n ∷ m ∷ lists m) =
          (ground (arith, hx), ((λ q. alloc (rw q (w.above m (omega arith)))), out)) in
        ground (arith, (same x off).0, w.idle x (ground (arith, hx)) alloc);
    above = w.above;
  }

  pub list_add_tail-Wheel :
      Returns
        (λ h'.
          Wheel k
            (record b { entries = h' })
            (put_list m (lists m ++ n ∷ []) lists)
            (put_home n m home))
        (list_add_tail n m b.entries)
  list_add_tail-Wheel =
      Ends-map
        (list_add_tail-Ring b.entries m (lists m) n (w.rings m hm)
          ((ground arith), Absent-free m hm) (omega arith))
        λ h' r. attached h' r.0 r.1

-- another content of an allocated timer changes no list
Wheel-write_timer :
    {k : ℕ} {b : TvecBase} {lists : ℕ → List ℕ} {home : ℕ → ℕ} (n : ℕ) (info : TimerList)
    → Wheel k b lists home
    → b.timers n ≢ none
    → 515 ≤ n
    → Wheel k (write_timer n (some info) b) lists home
unfolding write_timer
Wheel-write_timer n info w there far = record {
  rings = w.rings;
  owned = w.owned;
  found = w.found;
  heads = w.heads;
  kept = λ x hx. ground (arith, w.kept x hx);
  idle = λ x hx alloc. w.idle x hx (ground (arith, alloc, there));
  above = λ x h. ground (arith, w.above x h);
}

-- what add_timer makes of a timer `n` that is in no list
pub record Added (k : ℕ) (n : ℕ) (info : TimerList) (b : TvecBase) (lists : ℕ → List ℕ)
    (home : ℕ → ℕ) (b' : TvecBase) : Type 0 where
  pub wheel :
      let m = slot b.timer_clk info.expires in
      Wheel k b' (put_list m (lists m ++ n ∷ []) lists) (put_home n m home)
  pub clock : b'.timer_clk ≡ b.timer_clk
  pub timers : (a : ℕ) → b'.timers a ≡ b.timers a

module _ {k : ℕ} {b : TvecBase} {lists : ℕ → List ℕ} {home : ℕ → ℕ} (n : ℕ) (info : TimerList)
    (w : Wheel k b lists home) (large : 512 ≤ k) (small : k ≤ 513) (free : home n ≡ 514)
    (far : 515 ≤ n) (there : b.timers n ≡ some info) where
  pub internal_add_timer-Added : Returns (Added k n info b lists home) (internal_add_timer n b)
  unfolding internal_add_timer
  internal_add_timer-Added = rw there (
      Ends-bind
        (list_add_tail-Wheel n (slot b.timer_clk info.expires) w small
          (omega (arith, slot_bound b.timer_clk info.expires)) free far (λ q. ground arith))
        λ h' r. value (record { wheel = r; clock = refl; timers = λ a. refl }))

-- a timer with both of its pointers set
abbrev pub armed : ℕ → ℕ → TimerList
armed id expires = record { id = id; expires = expires; base = true; function = true }

pub not_pending :
    {k : ℕ} {b : TvecBase} {lists : ℕ → List ℕ} {home : ℕ → ℕ} (n : ℕ)
    → Wheel k b lists home
    → home n ≡ 514
    → b.timers n ≢ none
    → timer_pending n b ≡ false
unfolding timer_pending
not_pending n w free there = rw (w.idle n free there, timer_pending) refl

module _ (n id expires : ℕ) (b : TvecBase) (there : b.timers n ≡ some (armed id expires)) where
  rearm-armed : (e : ℕ) → rearm n e b ≡ internal_add_timer n (write_timer n (some (armed id e)) b)
  unfolding rearm
  rearm-armed e = rw there refl

  -- of a timer that is not pending
  pub mod_timer_if-idle :
      (e : ℕ)
      → timer_pending n b ≡ false
      → mod_timer_if n e false b ≡ (rearm n e b >>= λ b''. ok (false, b''))
  unfolding mod_timer_if detach_if_pending
  mod_timer_if-idle e rest = ground arith

  pub add_timer-idle :
      timer_pending n b ≡ false
      → add_timer n b
        ≡ (internal_add_timer n (write_timer n (some (armed id expires)) b) >>= λ b'. ok b')
  unfolding add_timer mod_timer
  add_timer-idle rest = ground (
    arith,
    mod_timer_if-idle expires rest,
    rearm-armed expires,
    joined (internal_add_timer n (write_timer n (some (armed id expires)) b)),
  )
    where
      joined :
          (r : Run TvecBase)
          → (r >>= (λ b''. ok (false, b'')) >>= λ (p : Bool × TvecBase). ok p.1)
            ≡ (r >>= λ b'. ok b')
      joined out_of_fuel = refl
      joined (fault e) = refl
      joined (ok x) = refl

module _ {k : ℕ} {b : TvecBase} {lists : ℕ → List ℕ} {home : ℕ → ℕ} (n id expires : ℕ)
    (w : Wheel k b lists home) (large : 512 ≤ k) (small : k ≤ 513) (free : home n ≡ 514)
    (far : 515 ≤ n) (there : b.timers n ≡ some (armed id expires)) where
  pub add_timer-Added : Returns (Added k n (armed id expires) b lists home) (add_timer n b)
  unfolding write_timer
  add_timer-Added =
      let alloc : b.timers n ≢ none = λ q. ground arith in
      let same : (n == n) ≡ true = ground arith in
      rw (add_timer-idle n id expires b there (not_pending n w free alloc)) (
        Ends-bind
          (internal_add_timer-Added n (armed id expires)
            (Wheel-write_timer n (armed id expires) w alloc far) large small free far
            (rw same refl))
          λ b' r.
            value (record {
              wheel = r.wheel;
              clock = r.clock;
              timers = λ a. ground (arith, r.timers a);
            }))
