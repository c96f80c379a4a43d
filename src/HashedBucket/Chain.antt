-- ===== src/HashedBucket/Chain.antt =====
-- The list of timeouts that the links of a bucket of src/HashedWheelBucket.h spell out.
use mathlib.Core.List.{mem-cons_self, mem-cons_of_mem, Nodup-cons}
use mathlib.Core.Path.{subst}
use timer_benchmarks.Common.{
  ℕ, ◌≡◌, refl, sym, ap, ◌∙◌, Nodup, List, [], ◌∷◌, ◌++◌, Option, some, none, arith, Each,
  Each-head, Each-tail, Mem, ◌≢◌,
}
use timer_benchmarks.HashedBucket.{HashedWheelTimeout, HashedWheelBucket, Store, write}

-- the first of the timeouts, or what follows them; the last, or what stands before them
abbrev pub first_or : List ℕ → Option ℕ → Option ℕ
first_or [] after = after
first_or (x ∷ xs) after = some x

abbrev pub last_or : Option ℕ → List ℕ → Option ℕ
last_or before [] = before
last_or before (x ∷ xs) = last_or (some x) xs

-- each of the timeouts points to its neighbours; the ends point to `before` and `after`
abbrev pub IsLinked : Store → Option ℕ → List ℕ → Option ℕ → Type 0
IsLinked store before [] after = Unit
IsLinked store before (x ∷ xs) after =
    ((store x).prev ≡ before)
    × ((store x).next ≡ first_or xs after)
    × IsLinked store (some x) xs after

pub first_or-append :
    (xs ys : List ℕ) (after : Option ℕ)
    → first_or (xs ++ ys) after ≡ first_or xs (first_or ys after)
first_or-append [] ys after = refl
first_or-append (x ∷ xs) ys after = refl

pub last_or-append :
    (before : Option ℕ) (xs ys : List ℕ)
    → last_or before (xs ++ ys) ≡ last_or (last_or before xs) ys
last_or-append before [] ys = refl
last_or-append before (x ∷ xs) ys = last_or-append (some x) xs ys

abbrev pub last_of : ℕ → List ℕ → ℕ
last_of x [] = x
last_of x (y ∷ ys) = last_of y ys

pub last_or-some : (x : ℕ) (xs : List ℕ) → last_or (some x) xs ≡ some (last_of x xs)
last_or-some x [] = refl
last_or-some x (y ∷ ys) = last_or-some y ys

pub mem-last_of : (x : ℕ) (xs : List ℕ) → Mem (last_of x xs) (x ∷ xs)
mem-last_of x [] = mem-cons_self
mem-last_of x (y ∷ ys) = mem-cons_of_mem x (mem-last_of y ys)

module _ (s : Store) where
  pub IsLinked-append :
      (before after : Option ℕ) (xs ys : List ℕ)
      → IsLinked s before (xs ++ ys) after
      → IsLinked s before xs (first_or ys after) × IsLinked s (last_or before xs) ys after
  IsLinked-append before after [] ys h = (tt, h)
  IsLinked-append before after (x ∷ xs) ys (p, n, h) =
      let (left, right) = IsLinked-append (some x) after xs ys h in
      ((p, n ∙ first_or-append xs ys after, left), right)

  pub append-IsLinked :
      (before after : Option ℕ) (xs ys : List ℕ)
      → IsLinked s before xs (first_or ys after)
      → IsLinked s (last_or before xs) ys after
      → IsLinked s before (xs ++ ys) after
  append-IsLinked before after [] ys h k = k
  append-IsLinked before after (x ∷ xs) ys (p, n, h) k =
      (p, n ∙ sym (first_or-append xs ys after), append-IsLinked (some x) after xs ys h k)

pub write-other : (s : Store) (q x : ℕ) (v : HashedWheelTimeout) → q ≢ x → write q v s x ≡ s x
write-other s q x v h = ground arith

pub write_self : (s : Store) (q : ℕ) (v : HashedWheelTimeout) → write q v s q ≡ v
write_self s q v = ground arith

-- a change at another address
pub write-IsLinked :
    (s : Store) (q : ℕ) (v : HashedWheelTimeout) (before after : Option ℕ) (xs : List ℕ)
    → Each (λ x. q ≢ x) xs
    → IsLinked s before xs after
    → IsLinked (write q v s) before xs after
write-IsLinked s q v before after [] new h = tt
write-IsLinked s q v before after (x ∷ xs) new (p, n, h) =
    let same = write-other s q x v (Each-head new) in
    (
      ap (λ c. c.prev) same ∙ p,
      ap (λ c. c.next) same ∙ n,
      write-IsLinked s q v (some x) after xs (Each-tail new) h,
    )

pub relink_first :
    (s : Store) (before before' after : Option ℕ) (x : ℕ) (xs : List ℕ)
    → Each (λ y. x ≢ y) xs
    → IsLinked s before (x ∷ xs) after
    → IsLinked (write x (record (s x) { prev = before' }) s) before' (x ∷ xs) after
relink_first s before before' after x xs new (p, n, h) =
    let same = write_self s x (record (s x) { prev = before' }) in
    (
      ap (λ c. c.prev) same,
      ap (λ c. c.next) same ∙ n,
      write-IsLinked s x (record (s x) { prev = before' }) (some x) after xs new h,
    )

pub relink_last :
    (s : Store) (before after after' : Option ℕ) (x : ℕ) (xs : List ℕ)
    → Nodup (x ∷ xs)
    → IsLinked s before (x ∷ xs) after
    → IsLinked
        (write (last_of x xs) (record (s (last_of x xs)) { next = after' }) s)
        before
        (x ∷ xs)
        after'
relink_last s before after after' x [] distinct (p, n, h) =
    let same = write_self s x (record (s x) { next = after' }) in
    (ap (λ c. c.prev) same ∙ p, ap (λ c. c.next) same, tt)
relink_last s before after after' x (y ∷ ys) distinct (p, n, h) =
    let q = last_of y ys in
    let same =
      write-other s q x (record (s q) { next = after' })
        (λ e. (Nodup-cons.0 distinct).0 (subst (λ z. Mem z (y ∷ ys)) e (mem-last_of y ys))) in
    (
      ap (λ c. c.prev) same ∙ p,
      ap (λ c. c.next) same ∙ n,
      relink_last s (some x) after after' y ys (Nodup-cons.0 distinct).1 h,
    )

-- the links of `s` spell out `xs`, and the bucket with the index `self` owns these timeouts
pub record Holds (self : ℕ) (b : HashedWheelBucket) (s : Store) (xs : List ℕ) : Type 0 where
  pub head : b.head ≡ first_or xs none
  pub tail : b.tail ≡ last_or none xs
  pub linked : IsLinked s none xs none
  pub distinct : Nodup xs
  pub owned : Each (λ x. (s x).bucket ≡ some self) xs
