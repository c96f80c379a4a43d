-- ===== src/HashedBucket/Bypass.antt =====
-- The links of src/HashedWheelBucket.cpp while Remove takes a timeout out.
use mathlib.Core.List.{mem-cons_self, mem-cons_of_mem, Nodup-cons, Nodup-append}
use mathlib.Core.Path.{subst}
use native.Mathlib.Decide.{ℕ_discrete}
use timer_benchmarks.Timer.Action.{Action}
use timer_benchmarks.Common.{
  ℕ, ◌≡◌, ◌≢◌, refl, sym, ap, ◌∙◌, List, [], ◌∷◌, ◌++◌, Option, none, some, Each, Mem, Nodup,
}
use timer_benchmarks.HashedBucket.{HashedWheelTimeout, Store, write, write_next, write_prev, bypass}
use timer_benchmarks.HashedBucket.Chain.{
  IsLinked, first_or, last_or, last_of, last_or-some, mem-last_of, IsLinked-append, write-other,
  write_self, write-IsLinked, relink_first, relink_last,
}

-- `p` stands apart from both sides, and the sides from each other
pub record Apart (xs ys : List ℕ) (p : ℕ) : Type 0 where
  pub left : Each (λ x. x ≢ p) xs
  pub right : Each (λ y. y ≢ p) ys
  pub sides : (x : ℕ) → Mem x xs → (y : ℕ) → Mem y ys → x ≢ y
  pub distinct : Nodup (xs ++ ys)

pub apart : (xs ys : List ℕ) (p : ℕ) → Nodup (xs ++ p ∷ ys) → Apart xs ys p
apart xs ys p d =
    let (xs', tail, disjoint) = (Nodup-append {l₁ = xs} {l₂ = p ∷ ys}).0 d in
    let (new, ys') = Nodup-cons.0 tail in
    record {
      left = λ x m e. disjoint x m (subst (λ z. Mem z (p ∷ ys)) (sym e) mem-cons_self);
      right = λ y m e. new (subst (λ z. Mem z ys) e m);
      sides = λ x m y n e. disjoint x m (mem-cons_of_mem p (subst (λ z. Mem z ys) (sym e) n));
      distinct = Nodup-append.1 (xs', ys', λ x m n. disjoint x m (mem-cons_of_mem p n));
    }

-- `last` now points to `after`, and `p` and what stands behind it are as they were
abbrev RelinkedLeft : Store → List ℕ → List ℕ → ℕ → Option ℕ → Option ℕ → Type 0
RelinkedLeft s xs ys p after last =
    IsLinked (write_next last after s) none xs after
    × IsLinked (write_next last after s) (some p) ys none
    × (write_next last after s p ≡ s p)

-- the last timeout before `p` points to `after`
link_left :
    (s : Store) (xs ys : List ℕ) (p : ℕ) (after : Option ℕ)
    → Apart xs ys p
    → Nodup xs
    → IsLinked s none xs (some p)
    → IsLinked s (some p) ys none
    → RelinkedLeft s xs ys p after (last_or none xs)
link_left s [] ys p after a d left right = (tt, right, refl)
link_left s (x ∷ xs) ys p after a d left right =
    let q = last_of x xs in
    let v : HashedWheelTimeout = record (s q) { next = after } in
    subst (RelinkedLeft s (x ∷ xs) ys p after) (sym (last_or-some x xs)) (
      relink_last s none (some p) after x xs d left,
      write-IsLinked s q v (some p) none ys (a.sides q (mem-last_of x xs)) right,
      write-other s q p v (a.left q (mem-last_of x xs)),
    )

-- the first timeout after `p` points back to `before`
link_right :
    (s : Store) (xs ys : List ℕ) (p : ℕ) (before after : Option ℕ)
    → Apart xs ys p
    → Nodup ys
    → IsLinked s none xs after
    → IsLinked s (some p) ys none
    → IsLinked (write_prev (first_or ys none) before s) none xs after
      × IsLinked (write_prev (first_or ys none) before s) before ys none
      × (write_prev (first_or ys none) before s p ≡ s p)
link_right s xs [] p before after a d left right = (left, tt, refl)
link_right s xs (y ∷ ys) p before after a d left right =
    let v : HashedWheelTimeout = record (s y) { prev = before } in
    (
      write-IsLinked s y v none after xs (λ x m e. a.sides x m y mem-cons_self (sym e)) left,
      relink_first s (some p) before none y ys
          (λ z m e. (Nodup-cons.0 d).0 (subst (λ w. Mem w ys) (sym e) m)) right,
      write-other s y p v (a.right y mem-cons_self),
    )

-- what is not a link
abbrev pub content : HashedWheelTimeout → Option ℕ × ℕ × ℕ × Action
content c = (c.bucket, c.remaining_rounds, c.deadline, c.action)

pub write-content :
    (s : Store) (q x : ℕ) (v : HashedWheelTimeout)
    → content v ≡ content (s q)
    → content (write q v s x) ≡ content (s x)
write-content s q x v h = elim (ℕ_discrete q x) [
  | yes e ↦ rw (e, write_self s x v) (rw e at h)
  | no e ↦ ap content (write-other s q x v e)
]

write_next-content :
    (q v : Option ℕ) (s : Store) (x : ℕ) → content (write_next q v s x) ≡ content (s x)
write_next-content none v s x = refl
write_next-content (some q) v s x = write-content s q x (record (s q) { next = v }) refl

write_prev-content :
    (q v : Option ℕ) (s : Store) (x : ℕ) → content (write_prev q v s x) ≡ content (s x)
write_prev-content none v s x = refl
write_prev-content (some q) v s x = write-content s q x (record (s q) { prev = v }) refl

pub bypass-content : (p : ℕ) (s : Store) (x : ℕ) → content (bypass p s x) ≡ content (s x)
bypass-content p s x =
    let before = write_next (s p).prev (s p).next s in
    write_prev-content (before p).next (before p).prev before x
    ∙ write_next-content (s p).prev (s p).next s x

-- both sides of `p` are linked to each other
pub bypass-IsLinked :
    (s : Store) (xs ys : List ℕ) (p : ℕ)
    → Nodup (xs ++ p ∷ ys)
    → IsLinked s none (xs ++ p ∷ ys) none
    → IsLinked (bypass p s) none xs (first_or ys none)
      × IsLinked (bypass p s) (last_or none xs) ys none
      × ((bypass p s p).prev ≡ last_or none xs)
bypass-IsLinked s xs ys p d h =
    let a = apart xs ys p d in
    let (xs', tail, disjoint) = (Nodup-append {l₁ = xs} {l₂ = p ∷ ys}).0 d in
    let (left, (pp, pn, right)) = IsLinked-append s none none xs (p ∷ ys) h in
    let (left', right', same) = link_left s xs ys p (first_or ys none) a xs' left right in
    let s' = write_next (last_or none xs) (first_or ys none) s in
    let (left'', right'', same') =
      link_right s' xs ys p (last_or none xs) (first_or ys none) a (Nodup-cons.0 tail).1 left'
        right' in
    rw (pp, pn, same, pp, pn) (left'', right'', ap (λ c. c.prev) (same' ∙ same) ∙ pp)
