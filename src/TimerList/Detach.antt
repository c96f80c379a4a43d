-- ===== src/TimerList/Detach.antt =====
-- src/timer_list.cpp, detach_timer and del_timer: the timer leaves its list, with a null entry.
use timer_benchmarks.Common.{
  ℕ, ◌≤◌, ◌<◌, ◌≡◌, ◌≢◌, inl, inr, refl, true, List, [], ◌∷◌, ◌++◌, none, some, Returns, value,
  Ends-bind, ◌==◌, Bool-cases, ==→≡, arith, subst,
}
use timer_benchmarks.ListImpl.{Memory, list_poison2, write_next, write_prev}
use timer_benchmarks.ListImpl.Ring.{
  Absent, Distinct, Ring, Chain-write_next, Chain-write_prev, Absent-append, Absent-left,
  Absent-right,
}
use timer_benchmarks.ListImpl.Ops.{SameOutside, list_del-Ring}
use timer_benchmarks.TimerList.{TvecBase, detach_timer}
use timer_benchmarks.TimerList.Wheel.{
  Owned, Member, Wheel, put_list, put_home, Member-drop, Owned-Absent, Owned-drop, Owned-at,
  Owned-put, Wheel-frame,
}

-- the writes to the entry of `n` itself spare a list that `n` is not in
Ring-nulled :
    (h : Memory) (n l : ℕ) (xs : List ℕ)
    → Ring h l xs
    → Absent n (l ∷ xs)
    → Ring (write_prev n (some list_poison2) (write_next n none h)) l xs
Ring-nulled h n l xs r out = record {
  chain =
      Chain-write_prev (write_next n none h) n (some list_poison2) l xs l
        (Chain-write_next h n none l xs l r.chain out) out.1 out.0;
  distinct = r.distinct;
  sound = r.sound;
}

-- an entry of a list without repetitions stands in it once
pub Distinct-Absent : (n : ℕ) (us vs : List ℕ) → Distinct (us ++ n ∷ vs) → Absent n (us ++ vs)
Distinct-Absent n [] vs d = d.0
Distinct-Absent n (u ∷ us) vs d =
    (ground (arith, (Absent-right u us (n ∷ vs) d.0).0), Distinct-Absent n us vs d.1)

module _ {k : ℕ} {b : TvecBase} {lists : ℕ → List ℕ} {home : ℕ → ℕ} (n l : ℕ) (us vs : List ℕ)
    (w : Wheel k b lists home) (small : k ≤ 513) (hl : l < k) (at_l : lists l ≡ us ++ n ∷ vs) where
  home_n : home n ≡ l
  home_n = Owned-at home l n us vs (subst (Owned home l) at_l (w.owned l hl))

  far_n : 515 ≤ n
  far_n = ground (arith, w.heads n, home_n)

  once : Absent n (us ++ vs)
  once =
      let ring = subst (Ring b.entries l) at_l (w.rings l hl) in
      Distinct-Absent n us vs ring.distinct.1

  rest-Owned : Owned home l (us ++ vs)
  rest-Owned = Owned-drop home l n us vs (subst (Owned home l) at_l (w.owned l hl))

  wider : (a : ℕ) → Absent a (n ∷ l ∷ lists l) → Absent a (l ∷ us ++ vs)
  wider a out =
      let within = subst (Absent a) at_l out.1.1 in
      (
        out.1.0,
        Absent-append a us vs (Absent-left a us (n ∷ vs) within)
            (Absent-right a us (n ∷ vs) within).1,
      )

  still : (x m : ℕ) → x ≢ n → Member x (lists m) → Member x (put_list l (us ++ vs) lists m)
  still x m ne i = elim (Bool-cases (m == l)) [
    | inl e ↦ rw e (
        Member-drop x n us vs
          (subst (Member x) at_l (subst (λ q. Member x (lists q)) (==→≡ m l e) i)) ne)
    | inr e ↦ rw e i
  ]

  detached :
      (h' : Memory)
      → Ring h' l (us ++ vs)
      → SameOutside (l ∷ us ++ vs) b.entries h'
      → Wheel k
          (record b { entries = write_prev n (some list_poison2) (write_next n none h') })
          (put_list l (us ++ vs) lists)
          (put_home n 514 home)
  unfolding write_next write_prev
  detached h' ring same = record {
    rings = λ m hm. elim (Bool-cases (m == l)) [
      | inl e ↦ rw (e, ==→≡ m l e) (Ring-nulled h' n l (us ++ vs) ring (omega (arith, far_n), once))
      | inr e ↦
          let out : Absent n (m ∷ lists m) = (
            omega (arith, far_n),
            Owned-Absent home m n (lists m) (w.owned m hm) (ground (arith, home_n)),
          ) in
          rw e (
            Ring-nulled h' n m (lists m)
              (Wheel-frame h' n l m w small hl hm (ground arith) (omega (arith, far_n))
                (ground (arith, home_n)) λ a off. same a (wider a off))
              out)
    ];
    owned = λ m hm. elim (Bool-cases (m == l)) [
      | inl e ↦ rw (e, ==→≡ m l e) (Owned-put home l n 514 (us ++ vs) rest-Owned once)
      | inr e ↦ rw e (
          Owned-put home m n 514 (lists m) (w.owned m hm)
            (Owned-Absent home m n (lists m) (w.owned m hm) (ground (arith, home_n))))
    ];
    found = λ x hx. elim (Bool-cases (x == n)) [
      | inl e ↦ absurd (ground (arith, hx))
      | inr e ↦
          let old = w.found x (ground (arith, hx)) in
          rw e (old.0, still x (home x) (ground arith) old.1)
    ];
    heads = λ x h. ground (arith, w.heads x h);
    kept = λ x hx. w.kept x (ground (arith, hx));
    idle = λ x hx alloc. elim (Bool-cases (x == n)) [
      | inl e ↦ ground arith
      | inr e ↦
          let free : home x ≡ 514 = ground (arith, hx) in
          let off : Absent x (l ∷ us ++ vs) = (
            (λ q. alloc (rw q (w.above l (omega arith)))),
            Owned-Absent home l x (us ++ vs) rest-Owned (ground arith),
          ) in
          rw e (ground (arith, (same x off).0, w.idle x free alloc))
    ];
    above = w.above;
  }

  -- the timer is taken out of its list
  pub detach_timer-Wheel :
      Returns
        (λ b'.
          Wheel k b' (put_list l (us ++ vs) lists) (put_home n 514 home)
          × (b'.timer_clk ≡ b.timer_clk)
          × (b'.timers ≡ b.timers))
        (detach_timer n true b)
  unfolding detach_timer
  detach_timer-Wheel =
      Ends-bind (list_del-Ring b.entries l us n vs (subst (Ring b.entries l) at_l (w.rings l hl)))
        λ h' r. value (detached h' r.0 r.1, refl, refl)
