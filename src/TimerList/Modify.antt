-- ===== src/TimerList/Modify.antt =====
-- src/timer_list.cpp, mod_timer: against del_timer, a new deadline and add_timer, which
-- src/timer_list.h gives for its meaning.
use mathlib.Core.Path.{fun_ext}
use timer_benchmarks.Common.{
  ℕ, Fault, ◌⊎◌, ◌≡◌, ◌≢◌, inl, inr, refl, Bool, true, false, none, some, Option, Run, ok, fault,
  out_of_fuel, ◌>>=◌, ◌==◌, Bool-cases, arith, ap, if◌then◌else◌,
}
use timer_benchmarks.ListImpl.{
  list_del, Memory, list_add_tail, list_add, write_next, write_prev, follow,
}
use timer_benchmarks.TimerList.{
  TvecBase, TimerList, slot, write_timer, timer_pending, internal_add_timer, rearm, detach_timer,
  detach_if_pending, mod_timer_if, mod_timer, add_timer, del_timer, read_timer,
}
use timer_benchmarks.TimerList.Attach.{armed, add_timer-idle}

Run-cases {ℓ} :
    {A : Type ℓ} (r : Run A)
    → ((r ≡ out_of_fuel) ⊎ ((why : Fault) × (r ≡ fault why))) ⊎ ((a : A) × (r ≡ ok a))
Run-cases out_of_fuel = inl (inl refl)
Run-cases (fault why) = inl (inr (why, refl))
Run-cases (ok a) = inr (a, refl)

-- what a new entry pointed to before it is added makes no difference
added_over :
    (n p m : ℕ) (prev q : Option ℕ) (h : Memory) (x : ℕ)
    → write_next p
        (some n)
        (write_prev n prev (write_next n (some m) (write_prev m (some n) (write_next n q h))))
        x
      ≡ write_next p
          (some n)
          (write_prev n prev (write_next n (some m) (write_prev m (some n) h)))
          x
unfolding write_next write_prev
added_over n p m prev q h x = elim (Bool-cases (x == n)) [ inl e ↦ rw e refl | inr e ↦ rw e refl ]

list_add-over :
    (n m : ℕ) (prev q : Option ℕ) (h : Memory)
    → list_add n prev m (write_next n q h) ≡ list_add n prev m h
unfolding list_add follow
list_add-over n m none q h = refl
list_add-over n m (some p) q h = elim (Bool-cases (p == 514)) [
  | inl e ↦ rw e refl
  | inr e ↦ rw e (ap ok (fun_ext (added_over n p m (some p) q h)))
]

-- a new entry's links before it is added
list_add_tail-over :
    (n m : ℕ) (p q : Option ℕ) (h : Memory)
    → list_add_tail n m (write_prev n p (write_next n q h)) ≡ list_add_tail n m (write_prev n p h)
unfolding list_add_tail write_prev write_next
list_add_tail-over n m p q h =
    list_add-over n m (if m == n then p else (h m).prev) q (write_prev n p h)

written_twice :
    (n : ℕ) (i j : Option TimerList) (b : TvecBase)
    → write_timer n i (write_timer n j b) ≡ write_timer n i b
unfolding write_timer
written_twice n i j b =
    ap (λ f. record b { timers = f })
      (fun_ext λ a. elim (Bool-cases (a == n)) [ inl e ↦ rw e refl | inr e ↦ rw e refl ])

-- del_timer, the new deadline, add_timer
abbrev pub del_and_add : ℕ → ℕ → TvecBase → Run (Bool × TvecBase)
del_and_add timer expires b = do
  (ret, b1) ← del_timer timer b
  info ← read_timer timer b1
  b2 ← add_timer timer (write_timer timer (some (record info { expires = expires })) b1)
  ok (ret, b2)

module _ (n id old e : ℕ) where
  -- with a new deadline
  abbrev renewed : TvecBase → TvecBase
  renewed c = write_timer n (some (armed id e)) c

  then_ok : (r : Run TvecBase) → (r >>= λ b'. ok b') ≡ r
  then_ok out_of_fuel = refl
  then_ok (fault why) = refl
  then_ok (ok x) = refl

  add_timer-renewed :
      (c : TvecBase)
      → timer_pending n c ≡ false
      → add_timer n (renewed c) ≡ internal_add_timer n (renewed c)
  unfolding write_timer timer_pending
  add_timer-renewed c rest =
      let same : (n == n) ≡ true = ground arith in
      let there : (renewed c).timers n ≡ some (armed id e) = rw same refl in
      rw
        (
          add_timer-idle n id e (renewed c) there rest,
          written_twice n (some (armed id e)) (some (armed id e)) c,
          then_ok (internal_add_timer n (renewed c)),
        )
        refl

  internal_add_timer-over :
      (b : TvecBase) (h : Memory)
      → internal_add_timer n
          (renewed (record b { entries = write_prev n (some 514) (write_next n none h) }))
        ≡ internal_add_timer n (renewed (record b { entries = write_prev n (some 514) h }))
  unfolding internal_add_timer write_timer
  internal_add_timer-over b h =
      let same : (n == n) ≡ true = ground arith in
      rw (same, list_add_tail-over n (slot b.timer_clk e) (some 514) none h) refl

  rearm-renewed :
      (c : TvecBase)
      → c.timers n ≡ some (armed id old)
      → rearm n e c ≡ internal_add_timer n (renewed c)
  unfolding rearm
  rearm-renewed c there = rw there refl

  -- what the functions return with the base
  abbrev with_ret : Bool → TvecBase → Run (Bool × TvecBase)
  with_ret ret c = ok (ret, c)

  read_and_add :
      (ret : Bool) (c : TvecBase)
      → c.timers n ≡ some (armed id old)
      → timer_pending n c ≡ false
      → (read_timer n c >>= λ info.
          add_timer n (write_timer n (some (record info { expires = e })) c) >>= with_ret ret)
        ≡ (internal_add_timer n (renewed c) >>= with_ret ret)
  read_and_add ret c there rest = rw (there, add_timer-renewed c rest) refl

  cleared :
      (b : TvecBase) (h : Memory)
      → timer_pending n (record b { entries = write_prev n (some 514) (write_next n none h) })
        ≡ false
  unfolding timer_pending write_prev write_next
  cleared b h = let same : (n == n) ≡ true = ground arith in rw (timer_pending, same) refl

  module _ (b : TvecBase) (there : b.timers n ≡ some (armed id old)) where
    modified_idle : timer_pending n b ≡ false → mod_timer n e b ≡ del_and_add n e b
    unfolding mod_timer del_timer
    modified_idle rest =
        rw (there, rest, rearm-renewed b there, read_and_add false b there rest) refl

    modified_pending : timer_pending n b ≡ true → old ≢ e → mod_timer n e b ≡ del_and_add n e b
    unfolding mod_timer del_timer mod_timer_if detach_if_pending detach_timer
    modified_pending on ne =
        let differs : (old == e) ≡ false = ground arith in
        let links = list_del (b.entries n).prev (b.entries n).next b.entries in
        elim (Run-cases links) [
          | inl (inl q) ↦ rw (there, on, differs, q) refl
          | inl (inr (why, q)) ↦ rw (there, on, differs, q) refl
          | inr (h, q) ↦
              let c1 = record b { entries = write_prev n (some 514) h } in
              let c2 = record b { entries = write_prev n (some 514) (write_next n none h) } in
              rw
                (
                  there,
                  on,
                  differs,
                  q,
                  rearm-renewed c1 there,
                  detach_timer,
                  read_and_add true c2 there (cleared b h),
                  internal_add_timer-over b h,
                )
                refl
        ]

-- For a timer that belongs to the base and has its function set, mod_timer does and returns what
-- del_timer, a write of the new deadline, and add_timer after it do and return, a fault included,
-- unless the timer is pending with that deadline already.
pub mod_timer-del_and_add :
    (timer id old expires : ℕ) (b : TvecBase)
    → b.timers timer ≡ some (armed id old)
    → (timer_pending timer b ≡ true → old ≢ expires)
    → mod_timer timer expires b ≡ del_and_add timer expires b
mod_timer-del_and_add timer id old expires b there changes =
    elim (Bool-cases (timer_pending timer b)) [
      | inl on ↦ modified_pending timer id old expires b there on (changes on)
      | inr rest ↦ modified_idle timer id old expires b there rest
    ]
