-- ===== src/TimerList/Collect.antt =====
-- src/timer_list.cpp: the lists that cascade and run_timers move to a head on the stack.
use timer_benchmarks.Common.{
  ℕ, ◌≤◌, ◌<◌, ◌≡◌, ◌≢◌, inl, inr, false, List, [], ◌∷◌, none, Returns, Ends-map, ◌==◌,
  if◌then◌else◌, Bool-cases, ==→≡, arith, subst,
}
use timer_benchmarks.ListImpl.{Memory, list_replace_init}
use timer_benchmarks.ListImpl.Ring.{Absent, Ring}
use timer_benchmarks.ListImpl.Ops.{SameOutside}
use timer_benchmarks.ListImpl.Replace.{list_replace_init-Ring}
use timer_benchmarks.TimerList.{TvecBase}
use timer_benchmarks.TimerList.Wheel.{Owned, Member, Wheel, put_list, Owned-Absent, Wheel-frame}

-- `home` after the list at `l` has moved to the work list
abbrev pub move_home : ℕ → (ℕ → ℕ) → ℕ → ℕ
move_home l home = λ x. if home x == l then 512 else home x

abbrev pub move_list : ℕ → (ℕ → List ℕ) → ℕ → List ℕ
move_list l lists = put_list 512 (lists l) (put_list l [] lists)

module _ (l : ℕ) (home : ℕ → ℕ) where
  Owned-moved : (xs : List ℕ) → Owned home l xs → Owned (move_home l home) 512 xs
  Owned-moved [] o = tt
  Owned-moved (x ∷ xs) o = (ground (arith, o.0), Owned-moved xs o.1)

  Owned-stays : (m : ℕ) (xs : List ℕ) → m ≢ l → Owned home m xs → Owned (move_home l home) m xs
  Owned-stays m [] ne o = tt
  Owned-stays m (x ∷ xs) ne o = (ground (arith, o.0), Owned-stays m xs ne o.1)

module _ {b : TvecBase} {lists : ℕ → List ℕ} {home : ℕ → ℕ} (l : ℕ) (w : Wheel 512 b lists home)
    (hl : l < 512) where
  -- what holds outside the list at `l` and the head `n` holds of the timers that are in no list
  idle_kept :
      (n : ℕ) (h' : Memory)
      → n < 515
      → SameOutside (n ∷ l ∷ lists l) b.entries h'
      → (x : ℕ) → home x ≡ 514
      → b.timers x ≢ none
      → (h' x).next ≡ none
  idle_kept n h' low same x hx alloc =
      let off : Absent x (n ∷ l ∷ lists l) = (
        (λ q. alloc (rw q (w.above n (omega arith)))),
        (
          (λ q. alloc (rw q (w.above l (omega arith)))),
          Owned-Absent home l x (lists l) (w.owned l hl) (ground arith),
        ),
      ) in
      ground (arith, (same x off).0, w.idle x hx alloc)

  pub new_head : (n : ℕ) → 512 ≤ n → n < 514 → Absent n (l ∷ lists l)
  new_head n large low =
      (omega arith, Owned-Absent home l n (lists l) (w.owned l hl) (ground (arith, w.heads n)))

  kept_list :
      (n : ℕ) (h' : Memory) (m : ℕ)
      → 512 ≤ n
      → n < 514
      → m < 512
      → m ≢ l
      → SameOutside (n ∷ l ∷ lists l) b.entries h'
      → Ring h' m (lists m)
  kept_list n h' m large low hm ne same =
      Wheel-frame h' n l m w (omega arith) hl hm ne (omega arith) (ground (arith, w.heads n)) same

  collected :
      (h' : Memory)
      → Ring h' 512 (lists l)
      → Ring h' l []
      → SameOutside (512 ∷ l ∷ lists l) b.entries h'
      → Wheel 513 (record b { entries = h' }) (move_list l lists) (move_home l home)
  collected h' work emptied same = record {
    rings = λ m hm. elim (Bool-cases (m == 512)) [
      | inl e ↦ rw (e, ==→≡ m 512 e) work
      | inr e ↦ elim (Bool-cases (m == l)) [
        | inl q ↦ rw (e, q, ==→≡ m l q) emptied
        | inr q ↦
            rw (e, q)
              (kept_list 512 h' m (omega arith) (omega arith) (ground arith) (ground arith) same)
      ]
    ];
    owned = λ m hm. elim (Bool-cases (m == 512)) [
      | inl e ↦ rw (e, ==→≡ m 512 e) (Owned-moved l home (lists l) (w.owned l hl))
      | inr e ↦ elim (Bool-cases (m == l)) [
        | inl q ↦ rw (e, q) tt
        | inr q ↦
            rw (e, q) (Owned-stays l home m (lists m) (ground arith) (w.owned m (ground arith)))
      ]
    ];
    found = λ x hx. elim (Bool-cases (home x == l)) [
      | inl e ↦
          let old = w.found x (ground arith) in
          rw e (omega arith, subst (λ q. Member x (lists q)) (==→≡ (home x) l e) old.1)
      | inr e ↦
          let old = w.found x (ground (arith, hx)) in
          let below : (home x == 512) ≡ false = ground (arith, old.0) in
          rw e (omega (arith, old.0), rw (below, e) old.1)
    ];
    heads = λ x h. ground (arith, w.heads x h);
    kept = λ x hx. w.kept x (ground (arith, hx));
    idle = λ x hx alloc. idle_kept 512 h' (omega arith) same x (ground (arith, hx)) alloc;
    above = w.above;
  }

  pub collect-Wheel :
      Returns
        (λ h'. Wheel 513 (record b { entries = h' }) (move_list l lists) (move_home l home))
        (list_replace_init l 512 b.entries)
  collect-Wheel =
      Ends-map
        (list_replace_init-Ring b.entries l (lists l) 512 (w.rings l hl)
          (new_head 512 (omega arith) (omega arith)) (omega arith))
        λ h' r. collected h' r.0 r.1 r.2

  -- cascade of an empty list changes nothing but the memory of its head
  module _ (empty : lists l ≡ []) where
    pub cascaded :
        (h' : Memory)
        → Ring h' l []
        → SameOutside (513 ∷ l ∷ lists l) b.entries h'
        → Wheel 512 (record b { entries = h' }) lists home
    cascaded h' emptied same = record {
      rings = λ m hm. elim (Bool-cases (m == l)) [
        | inl e ↦ rw (==→≡ m l e, empty) emptied
        | inr e ↦ kept_list 513 h' m (omega arith) (omega arith) hm (ground arith) same
      ];
      owned = w.owned;
      found = w.found;
      heads = w.heads;
      kept = w.kept;
      idle = idle_kept 513 h' (omega arith) same;
      above = w.above;
    }

-- the work list is empty again
pub settle :
    {b : TvecBase} {lists : ℕ → List ℕ} {home : ℕ → ℕ}
    → Wheel 513 b lists home
    → lists 512 ≡ []
    → Wheel 512 b lists home
settle {lists} {home} w empty = record {
  rings = λ m hm. w.rings m (omega arith);
  owned = λ m hm. w.owned m (omega arith);
  found = λ x hx. elim (Bool-cases (home x == 512)) [
    | inl e ↦
        let old = w.found x hx in
        absurd
          (subst (Member x) empty (subst (λ q. Member x (lists q)) (==→≡ (home x) 512 e) old.1))
    | inr e ↦ let old = w.found x hx in (ground (arith, old.0), old.1)
  ];
  heads = w.heads;
  kept = w.kept;
  idle = w.idle;
  above = w.above;
}
