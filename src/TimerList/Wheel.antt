-- ===== src/TimerList/Wheel.antt =====
-- src/timer_list.cpp: what holds of a base and the lists of its vectors. `lists` gives the timers of
-- the list at each head, in order, `home` the head whose list holds a timer, or the poisoned address
-- for one that is in no list.
use timer_benchmarks.Common.{
  ℕ, ◌≤◌, ◌<◌, ◌≡◌, ◌≢◌, ◌⊎◌, inl, inr, refl, List, [], ◌∷◌, ◌++◌, Option, none, ◌==◌,
  if◌then◌else◌, Bool-cases, ==→≡, arith, ap, sym,
}
use timer_benchmarks.ListImpl.{Memory}
use timer_benchmarks.ListImpl.Ring.{Absent, Ring}
use timer_benchmarks.ListImpl.Ops.{SameOutside, Ring-frame}
use timer_benchmarks.TimerList.{TvecBase}

abbrev pub Owned : (ℕ → ℕ) → ℕ → List ℕ → Type 0
Owned home l [] = Unit
Owned home l (x ∷ xs) = (home x ≡ l) × Owned home l xs

abbrev pub Member : ℕ → List ℕ → Type 0
Member x [] = ⊥
Member x (y ∷ ys) = (x ≡ y) ⊎ Member x ys

-- the heads below `k` hold the lists, and every timer that is allocated and in none of them has a
-- null entry
pub record Wheel (k : ℕ) (b : TvecBase) (lists : ℕ → List ℕ) (home : ℕ → ℕ) : Type 0 where
  pub rings : (l : ℕ) → l < k → Ring b.entries l (lists l)
  pub owned : (l : ℕ) → l < k → Owned home l (lists l)
  pub found : (x : ℕ) → home x ≢ 514 → (home x < k) × Member x (lists (home x))
  pub heads : (x : ℕ) → x < 515 → home x ≡ 514
  pub kept : (x : ℕ) → home x ≢ 514 → b.timers x ≢ none
  pub idle : (x : ℕ) → home x ≡ 514 → b.timers x ≢ none → (b.entries x).next ≡ none
  pub above : (x : ℕ) → x < 515 → b.timers x ≡ none

-- the clock and the running timer have no part in it
pub Wheel-clock :
    {k : ℕ} {b : TvecBase} {lists : ℕ → List ℕ} {home : ℕ → ℕ} (running : Option ℕ) (clock : ℕ)
    → Wheel k b lists home
    → Wheel k (record b { running_timer = running; timer_clk = clock }) lists home
Wheel-clock running clock w = record {
  rings = w.rings;
  owned = w.owned;
  found = w.found;
  heads = w.heads;
  kept = w.kept;
  idle = w.idle;
  above = w.above;
}

abbrev pub put_list : ℕ → List ℕ → (ℕ → List ℕ) → ℕ → List ℕ
put_list l xs lists = λ m. if m == l then xs else lists m

abbrev pub put_home : ℕ → ℕ → (ℕ → ℕ) → ℕ → ℕ
put_home n l home = λ x. if x == n then l else home x

pub Member-append : (x : ℕ) (xs ys : List ℕ) → Member x xs ⊎ Member x ys → Member x (xs ++ ys)
Member-append x [] ys (inl m) = absurd m
Member-append x [] ys (inr m) = m
Member-append x (z ∷ xs) ys (inl (inl e)) = inl e
Member-append x (z ∷ xs) ys (inl (inr m)) = inr (Member-append x xs ys (inl m))
Member-append x (z ∷ xs) ys (inr m) = inr (Member-append x xs ys (inr m))

-- the places before and after a member
pub Member-split :
    (x : ℕ) (xs : List ℕ) → Member x xs → (us : List ℕ) × (vs : List ℕ) × (xs ≡ us ++ x ∷ vs)
Member-split x [] m = absurd m
Member-split x (y ∷ ys) (inl e) = ([], ys, rw e refl)
Member-split x (y ∷ ys) (inr m) =
    let (us, vs, e) = Member-split x ys m in (y ∷ us, vs, ap (◌∷◌ y) e)

pub Member-drop : (x n : ℕ) (us vs : List ℕ) → Member x (us ++ n ∷ vs) → x ≢ n → Member x (us ++ vs)
Member-drop x n [] vs (inl e) ne = absurd (ne e)
Member-drop x n [] vs (inr m) ne = m
Member-drop x n (u ∷ us) vs (inl e) ne = inl e
Member-drop x n (u ∷ us) vs (inr m) ne = inr (Member-drop x n us vs m ne)

module _ (home : ℕ → ℕ) where
  pub Owned-Absent : (l a : ℕ) (xs : List ℕ) → Owned home l xs → home a ≢ l → Absent a xs
  Owned-Absent l a [] o ne = tt
  Owned-Absent l a (x ∷ xs) o ne = ((λ e. ne (rw e o.0)), Owned-Absent l a xs o.1 ne)

  pub Owned-append :
      (l : ℕ) (xs ys : List ℕ) → Owned home l xs → Owned home l ys → Owned home l (xs ++ ys)
  Owned-append l [] ys o p = p
  Owned-append l (x ∷ xs) ys o p = (o.0, Owned-append l xs ys o.1 p)

  pub Owned-drop :
      (l n : ℕ) (us vs : List ℕ) → Owned home l (us ++ n ∷ vs) → Owned home l (us ++ vs)
  Owned-drop l n [] vs o = o.1
  Owned-drop l n (u ∷ us) vs o = (o.0, Owned-drop l n us vs o.1)

  pub Owned-at : (l n : ℕ) (us vs : List ℕ) → Owned home l (us ++ n ∷ vs) → home n ≡ l
  Owned-at l n [] vs o = o.0
  Owned-at l n (u ∷ us) vs o = Owned-at l n us vs o.1

  pub Owned-put :
      (l n m : ℕ) (xs : List ℕ) → Owned home l xs → Absent n xs → Owned (put_home n m home) l xs
  Owned-put l n m [] o out = tt
  Owned-put l n m (x ∷ xs) o out = (ground (arith, o.0, out.0), Owned-put l n m xs o.1 out.1)

-- a list is kept by a change of another list, its head and one address that is not in it
pub Wheel-frame :
    {k : ℕ} {b : TvecBase} {lists : ℕ → List ℕ} {home : ℕ → ℕ} (h' : Memory) (n l m : ℕ)
    → Wheel k b lists home
    → k ≤ 513
    → l < k
    → m < k
    → m ≢ l
    → n ≢ m
    → home n ≢ m
    → SameOutside (n ∷ l ∷ lists l) b.entries h'
    → Ring h' m (lists m)
Wheel-frame {b} {lists} {home} h' n l m w small hl hm ne far other same =
    Ring-frame b.entries h' (n ∷ l ∷ lists l) m (lists m) same apart (w.rings m hm)
  where
    outside : (b : ℕ) → (b ≡ m) ⊎ (home b ≡ m) → Absent b (n ∷ l ∷ lists l)
    outside b (inl e) =
        let h = w.heads m (omega arith) in
        (
          (λ q. far (rw (sym q) e)),
          (ground arith, Owned-Absent home l b (lists l) (w.owned l hl) (λ q. ground arith)),
        )
    outside b (inr e) =
        let h = w.heads l (omega arith) in
        (
          (λ q. other (rw (sym q) e)),
          (
            (λ q. ground (arith, ap home q)),
            Owned-Absent home l b (lists l) (w.owned l hl) (λ q. ground arith),
          ),
        )

    apart : (b : ℕ) → ¬ Absent b (m ∷ lists m) → Absent b (n ∷ l ∷ lists l)
    apart b i = elim (Bool-cases (b == m)) [
      | inl e ↦ outside b (inl (==→≡ b m e))
      | inr e ↦ elim (Bool-cases (home b == m)) [
        | inl q ↦ outside b (inr (==→≡ (home b) m q))
        | inr q ↦
            absurd (i (ground arith, Owned-Absent home m b (lists m) (w.owned m hm) (ground arith)))
      ]
    ]

-- equal lists and homes are as good
pub Wheel-ext :
    {k : ℕ} {b : TvecBase} {lists lists' : ℕ → List ℕ} {home home' : ℕ → ℕ}
    → Wheel k b lists home
    → ((l : ℕ) → l < k → lists' l ≡ lists l)
    → ((x : ℕ) → home' x ≡ home x)
    → Wheel k b lists' home'
Wheel-ext {b} {lists} {lists'} {home} {home'} w same_lists same_home = record {
  rings = λ l hl. rw (same_lists l hl) (w.rings l hl);
  owned = λ l hl. rw (same_lists l hl) (Owned-ext l (lists l) (w.owned l hl));
  found = λ x hx.
      let old = w.found x (ground (arith, same_home x)) in
      rw (same_home x) (old.0, rw (same_lists (home x) old.0) old.1);
  heads = λ x h. ground (arith, same_home x, w.heads x h);
  kept = λ x hx. w.kept x (ground (arith, same_home x));
  idle = λ x hx alloc. w.idle x (ground (arith, same_home x)) alloc;
  above = w.above;
}
  where
    Owned-ext : (l : ℕ) (xs : List ℕ) → Owned home l xs → Owned home' l xs
    Owned-ext l [] o = tt
    Owned-ext l (x ∷ xs) o = (ground (arith, same_home x, o.0), Owned-ext l xs o.1)
