-- ===== src/HashedBucket/Remove.antt =====
-- Remove of src/HashedWheelBucket.cpp.
use mathlib.Core.List.{mem-cons_self, Nodup-cons, append-nil, perm_middle}
use mathlib.Core.Path.{subst}
use mathlib.Core.List.Perm
use timer_benchmarks.Common.{
  ℕ, ◌≡◌, ◌≢◌, refl, sym, ap, ◌∙◌, List, [], ◌∷◌, ◌++◌, Option, none, some, arith, Each-tail,
  Each-perm, Perm, Mem,
}
use timer_benchmarks.HashedBucket.{
  HashedWheelTimeout, HashedWheelBucket, Store, write, bypass, remove_timeout, ends_without,
}
use timer_benchmarks.HashedBucket.Chain.{
  first_or, last_or, last_of, last_or-some, mem-last_of, IsLinked-append, append-IsLinked,
  write-other, write_self, write-IsLinked, last_or-append,
}
use timer_benchmarks.HashedBucket.Chain.{Holds}
use timer_benchmarks.HashedBucket.Bypass.{Apart, apart, content, bypass-content, bypass-IsLinked}

-- the ends of the bucket without `p`
ends :
    (xs ys : List ℕ) (p : ℕ) (b : HashedWheelBucket) (s : Store)
    → Apart xs ys p
    → b.head ≡ first_or (xs ++ p ∷ ys) none
    → b.tail ≡ last_or none (xs ++ p ∷ ys)
    → (s p).prev ≡ last_or none xs
    → ((ends_without p b (first_or ys none) s).head ≡ first_or (xs ++ ys) none)
      × ((ends_without p b (first_or ys none) s).tail ≡ last_or none (xs ++ ys))
ends [] [] p b s a h t before = rw (h, t) (ground arith, ground arith)
ends [] (y ∷ ys) p b s a h t before =
    let other = a.right (last_of y ys) (mem-last_of y ys) in
    rw (h, t, last_or-some y ys) (ground arith, ground (arith, other, t, last_or-some y ys))
ends (x ∷ xs) [] p b s a h t before =
    let other = a.left x mem-cons_self in
    let last = t ∙ last_or-append (some x) xs (p ∷ []) in
    rw (h, last, append-nil) (ground (arith, other, h), ground (arith, other, before))
ends (x ∷ xs) (y ∷ ys) p b s a h t before =
    let other = a.left x mem-cons_self in
    let other' = a.right (last_of y ys) (mem-last_of y ys) in
    let last = t ∙ last_or-append (some x) xs (p ∷ y ∷ ys) ∙ last_or-some y ys in
    let last' = last_or-append (some x) xs (y ∷ ys) ∙ last_or-some y ys in
    rw (h, last, last') (ground (arith, other, other', h), ground (arith, other, other', last))

-- `r` against the bucket that held `xs`, `p` and `ys`
pub record Unlinked (self : ℕ) (s : Store) (xs ys : List ℕ) (p : ℕ)
    (r : Option ℕ × HashedWheelBucket × Store) : Type 0 where
  pub next : r.0 ≡ first_or ys none
  pub holds : Holds self r.1 r.2 (xs ++ ys)
  pub alone : ((r.2 p).next ≡ none) × ((r.2 p).prev ≡ none) × ((r.2 p).bucket ≡ none)
  pub others : (x : ℕ) → p ≢ x → content (r.2 x) ≡ content (s x)
  pub deadline : (r.2 p).deadline ≡ (s p).deadline

-- Where the links of a bucket spell out a list of different timeouts that the bucket owns,
-- HashedWheelBucket::Remove of one of them returns the timeout behind it and leaves the links
-- spelling out the list without it. Its own links and its bucket are null then, and the fields of
-- the other timeouts that are not links do not change.
pub remove_unlinks :
    (self : ℕ) (b : HashedWheelBucket) (s : Store) (xs ys : List ℕ) (p : ℕ)
    → Holds self b s (xs ++ p ∷ ys)
    → Unlinked self s xs ys p (remove_timeout p b s)
unfolding remove_timeout
remove_unlinks self b s xs ys p h =
    let a = apart xs ys p h.distinct in
    let (left, (pp, pn, right)) = IsLinked-append s none none xs (p ∷ ys) h.linked in
    let (left', right', before) = bypass-IsLinked s xs ys p h.distinct h.linked in
    let linked = bypass p s in
    let v : HashedWheelTimeout = record (linked p) { prev = none; next = none; bucket = none } in
    let others : (x : ℕ) → p ≢ x → content (write p v linked x) ≡ content (s x) =
      λ x e. ap content (write-other linked p x v e) ∙ bypass-content p s x in
    let around : Perm (xs ++ p ∷ ys) (p ∷ (xs ++ ys)) = perm_middle xs ys in
    let alone : ¬ Mem p (xs ++ ys) = (Nodup-cons.0 (Perm.nodup around h.distinct)).0 in
    let (head, tail) = ends xs ys p b linked a h.head h.tail before in
    record {
      next = pn;
      holds = record {
        head =
            subst (λ n. (ends_without p b n linked).head ≡ first_or (xs ++ ys) none) (sym pn) head;
        tail =
            subst (λ n. (ends_without p b n linked).tail ≡ last_or none (xs ++ ys)) (sym pn) tail;
        linked =
            append-IsLinked (write p v linked) none none xs ys
              (write-IsLinked linked p v none (first_or ys none) xs (λ x m e. a.left x m (sym e))
                left')
              (write-IsLinked linked p v (last_or none xs) none ys (λ x m e. a.right x m (sym e))
                right');
        distinct = a.distinct;
        owned = λ x m.
            ap (λ c. c.0) (others x (λ e. alone (subst (λ z. Mem z (xs ++ ys)) (sym e) m)))
            ∙ Each-tail (Each-perm (Perm.symm around) h.owned) x m;
      };
      alone = rw (write_self linked p v) (refl, refl, refl);
      others = others;
      deadline =
          ap (λ c. c.deadline) (write_self linked p v) ∙ ap (λ c. c.2) (bypass-content p s p);
    }
