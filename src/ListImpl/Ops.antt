-- ===== src/ListImpl/Ops.antt =====
-- src/list_impl.h: what the operations make of the list of entries that a head holds.
use timer_benchmarks.Common.{
  ℕ, ◌≡◌, ◌≢◌, refl, List, [], ◌∷◌, ◌++◌, Option, some, ok, Returns, value, arith, length, ◌==◌,
}
use timer_benchmarks.ListImpl.{
  Memory, list_poison2, follow, write_next, write_prev, list_empty, list_replace, list_add,
  list_add_tail, list_del,
}
use timer_benchmarks.ListImpl.Ring.{
  Absent, Distinct, Chain, last, first, Ring, Absent-last, Absent-append, Absent-left, Absent-right,
  Distinct-snoc, Distinct-drop, prev-last, next-mid, Chain-write_next, Chain-write_prev,
}

-- the memories agree on every entry outside `xs`
abbrev pub SameOutside : List ℕ → Memory → Memory → Type 0
SameOutside xs h h' =
    (a : ℕ) → Absent a xs → ((h' a).next ≡ (h a).next) × ((h' a).prev ≡ (h a).prev)

follow-ok : (p : ℕ) → list_poison2 ≢ p → follow (some p) ≡ ok p
unfolding follow
follow-ok p safe = ground arith

module _ (h : Memory) (n : ℕ) where
  -- the writes of list_add_tail, the last entry being linked to `n` and `n` to `z`
  Chain-snoc :
      (a : ℕ) (xs : List ℕ) (z : ℕ) (v : Option ℕ)
      → Chain h a xs z
      → Distinct (a ∷ xs)
      → Absent n (a ∷ xs)
      → Absent z xs
      → n ≢ z
      → Chain
          (write_next
            (last a xs)
            (some n)
            (write_prev n (some (last a xs)) (write_next n (some z) (write_prev z (some n) h))))
          a
          (xs ++ n ∷ [])
          z
  unfolding write_next write_prev
  Chain-snoc a [] z v c d out far apart =
      ((ground arith, ground arith), (ground arith, ground arith))
  Chain-snoc a (x ∷ xs) z v c d out far apart = (
    (ground (arith, Absent-last a x xs d.0), ground arith),
    Chain-snoc x xs z v c.1 d.1 out.1 far.1 apart,
  )

-- Let a head hold the entries of a list, and let an address be neither among them nor poisoned.
-- list_add_tail returns, the head holds the entries with that address after the last, and nothing
-- outside these entries and the head changes.
pub list_add_tail-Ring :
    (h : Memory) (l : ℕ) (xs : List ℕ) (n : ℕ)
    → Ring h l xs
    → Absent n (l ∷ xs)
    → n ≢ list_poison2
    → Returns (λ h'. Ring h' l (xs ++ n ∷ []) × SameOutside (n ∷ l ∷ xs) h h') (list_add_tail n l h)
unfolding list_add_tail list_add write_next write_prev
list_add_tail-Ring h l xs n r out safe =
    rw (prev-last h l xs l r.chain, follow-ok (last l xs) (Absent-last list_poison2 l xs r.sound))
      (value (
        record {
          chain = Chain-snoc h n l xs l (some n) r.chain r.distinct out r.distinct.0 out.0;
          distinct = (
            Absent-append l xs (n ∷ []) r.distinct.0 (ground (arith, out.0), tt),
            Distinct-snoc n xs r.distinct.1 out.1,
          );
          sound = (r.sound.0, Absent-append list_poison2 xs (n ∷ []) r.sound.1 (ground arith, tt));
        },
        λ a far.
            (ground (arith, Absent-last a l xs far.1), ground (arith, Absent-last a l xs far.1)),
      ))

Absent-first : (w : ℕ) (ys : List ℕ) (z : ℕ) → Absent w ys → z ≢ w → w ≢ first ys z
Absent-first w [] z out far = ground arith
Absent-first w (y ∷ ys) z out far = out.0

module _ (h : Memory) (x : ℕ) where
  Chain-skip :
      (a : ℕ) (xs ys : List ℕ) (z : ℕ)
      → Chain h a (xs ++ x ∷ ys) z
      → Distinct (a ∷ xs ++ x ∷ ys)
      → Absent z (xs ++ x ∷ ys)
      → Chain
          (write_next
            (last a xs)
            (some (first ys z))
            (write_prev (first ys z) (some (last a xs)) h))
          a
          (xs ++ ys)
          z
  unfolding write_next write_prev
  Chain-skip a [] [] z c d far = (ground arith, ground arith)
  Chain-skip a [] (y ∷ ys) z c d far = (
    (ground arith, ground arith),
    Chain-write_next (write_prev y (some a) h) a (some y) y ys z
        (Chain-write_prev h y (some a) y ys z c.1.1 d.1.1.0 (ground (arith, far.1.0))) d.0.1,
  )
  Chain-skip a (w ∷ xs) ys z c d far = (
    (
      ground (arith, Absent-last a w xs (Absent-left a (w ∷ xs) (x ∷ ys) d.0)),
      ground (arith, Absent-first w ys z (Absent-right w xs (x ∷ ys) d.1.0).1 far.0),
    ),
    Chain-skip w xs ys z c.1 d.1 far.1,
  )

-- Let a head hold the entries of a list, and take one of them. __list_del with the neighbours that
-- the entry points to returns, the head holds the other entries in their order, and nothing outside
-- these entries and the head changes.
pub list_del-Ring :
    (h : Memory) (l : ℕ) (xs : List ℕ) (x : ℕ) (ys : List ℕ)
    → Ring h l (xs ++ x ∷ ys)
    → Returns
        (λ h'. Ring h' l (xs ++ ys) × SameOutside (l ∷ xs ++ ys) h h')
        (list_del (h x).prev (h x).next h)
unfolding list_del write_next write_prev
list_del-Ring h l xs x ys r =
    let mid = next-mid h l xs x ys l r.chain in
    let left = Absent-left list_poison2 xs (x ∷ ys) r.sound.1 in
    let right = (Absent-right list_poison2 xs (x ∷ ys) r.sound.1).1 in
    rw
      (
        mid.0,
        mid.1,
        follow-ok (last l xs) (Absent-last list_poison2 l xs (r.sound.0, left)),
        follow-ok (first ys l) (Absent-first list_poison2 ys l right (ground (arith, r.sound.0))),
      )
      (value (
        record {
          chain = Chain-skip h x l xs ys l r.chain r.distinct r.distinct.0;
          distinct = (
            Absent-append l xs ys (Absent-left l xs (x ∷ ys) r.distinct.0)
                (Absent-right l xs (x ∷ ys) r.distinct.0).1,
            Distinct-drop x xs ys r.distinct.1,
          );
          sound = (r.sound.0, Absent-append list_poison2 xs ys left right);
        },
        λ a far. (
          ground (arith, Absent-last a l xs (far.0, Absent-left a xs ys far.1)),
          ground (arith, Absent-first a ys l (Absent-right a xs ys far.1) (ground (arith, far.0))),
        ),
      ))

-- list_empty tells whether the list has no entry
pub list_empty-Ring :
    (h : Memory) (l : ℕ) (xs : List ℕ) → Ring h l xs → list_empty l h ≡ (length xs == 0)
unfolding list_empty
list_empty-Ring h l [] r = rw r.chain.0 (ground arith)
list_empty-Ring h l (x ∷ xs) r = rw r.chain.0.0 (ground (arith, r.distinct.0.0))

-- a chain survives where the memory agrees on it
pub Chain-frame :
    (h h' : Memory) (out : List ℕ) (a : ℕ) (xs : List ℕ) (z : ℕ)
    → SameOutside out h h'
    → ((b : ℕ) → ¬ Absent b (a ∷ z ∷ xs) → Absent b out)
    → Chain h a xs z
    → Chain h' a xs z
Chain-frame h h' out a [] z same apart c = (
  ground (arith, (same a (apart a (λ k. k.0 refl))).0),
  ground (arith, (same z (apart z (λ k. k.1.0 refl))).1),
)
Chain-frame h h' out a (x ∷ xs) z same apart c = (
  (
    ground (arith, (same a (apart a (λ k. k.0 refl))).0),
    ground (arith, (same x (apart x (λ k. k.1.1.0 refl))).1),
  ),
  Chain-frame h h' out x xs z same (λ b i. apart b (λ k. i (k.1.1.0, (k.1.0, k.1.1.1)))) c.1,
)

-- a list that shares no entry with `out` is kept by what changes `out` alone
pub Ring-frame :
    (h h' : Memory) (out : List ℕ) (l : ℕ) (xs : List ℕ)
    → SameOutside out h h'
    → ((b : ℕ) → ¬ Absent b (l ∷ xs) → Absent b out)
    → Ring h l xs
    → Ring h' l xs
Ring-frame h h' out l xs same apart r = record {
  chain = Chain-frame h h' out l xs l same (λ b i. apart b (λ k. i (k.0, (k.0, k.1)))) r.chain;
  distinct = r.distinct;
  sound = r.sound;
}

-- what list_replace writes, given the two pointers that it follows
pub list_replace-writes :
    (h : Memory) (l n x q : ℕ)
    → (h l).next ≡ some x
    → (write_prev x (some n) h l).prev ≡ some q
    → list_poison2 ≢ x
    → list_poison2 ≢ q
    → list_replace l n h
      ≡ ok (
          write_next q
            (some n)
            (write_prev n (some q) (write_prev x (some n) (write_next n (some x) h))))
unfolding list_replace write_next write_prev follow
list_replace-writes h l n x q e1 e2 s1 s2 =
    let f : follow (some x) ≡ ok x = follow-ok x s1 in
    let g : follow (some q) ≡ ok q = follow-ok q s2 in ground arith
