-- ===== src/Common/Array.antt =====
-- Vectors: lists under native indices.
use Prim.Native.Nat.{ℕ, zero, suc, ◌+◌, ◌-◌, ◌<◌}
use mathlib.Core.Path.{◌≡◌, refl, ap}
use mathlib.Core.Logic.{◌≢◌}
use mathlib.Core.Bool.{true}
use mathlib.Core.List.{List, [], ◌∷◌, ◌++◌, Mem, Perm, mem-cons_self, mem-cons_of_mem, map}
use mathlib.Core.List.Perm
use mathlib.Core.Option.{Option, none, some}
use native.Mathlib.Omega.{arith}
use timer_benchmarks.Common.Tests.{◌==◌, if◌then◌else◌}

module _ {ℓ} {A : Type ℓ} where
  abbrev pub length : List A → ℕ
  length [] = 0
  length (x ∷ xs) = suc (length xs)

  abbrev pub get_elem? : List A → ℕ → Option A
  get_elem? [] i = none
  get_elem? (x ∷ xs) zero = some x
  get_elem? (x ∷ xs) (suc i) = get_elem? xs i

  abbrev pub get_or : List A → ℕ → A → A
  get_or [] i d = d
  get_or (x ∷ xs) zero d = x
  get_or (x ∷ xs) (suc i) d = get_or xs i d

  -- A write out of bounds changes nothing.
  abbrev pub set : List A → ℕ → A → List A
  set [] i v = []
  set (x ∷ xs) zero v = v ∷ xs
  set (x ∷ xs) (suc i) v = x ∷ set xs i v

  -- the vector without its last entry
  abbrev pub pop_back : List A → List A
  pop_back [] = []
  pop_back (x ∷ []) = []
  pop_back (x ∷ y ∷ xs) = x ∷ pop_back (y ∷ xs)

module _ {ℓ} {A : Type ℓ} where
  pub nil_of_length : (xs : List A) → (length xs == 0) ≡ true → xs ≡ []
  nil_of_length [] h = refl
  nil_of_length (x ∷ xs) h = absurd (ground arith)

  pub length-append : (xs ys : List A) → length (xs ++ ys) ≡ length xs + length ys
  length-append [] ys = omega arith
  length-append (x ∷ xs) ys = omega (arith, length-append xs ys)

  pub length-set : (xs : List A) (i : ℕ) (v : A) → length (set xs i v) ≡ length xs
  length-set [] i v = refl
  length-set (x ∷ xs) zero v = refl
  length-set (x ∷ xs) (suc i) v = ap suc (length-set xs i v)

  pub length-pop_back : (xs : List A) → length (pop_back xs) ≡ length xs - 1
  length-pop_back [] = omega arith
  length-pop_back (x ∷ []) = omega arith
  length-pop_back (x ∷ y ∷ xs) = omega (arith, length-pop_back (y ∷ xs))

  pub length-map {κ} : {B : Type κ} (f : A → B) (xs : List A) → length (map f xs) ≡ length xs
  length-map f [] = refl
  length-map f (x ∷ xs) = ap suc (length-map f xs)

  pub get_elem?-get_or :
      (xs : List A) (i : ℕ) (d : A) → i < length xs → get_elem? xs i ≡ some (get_or xs i d)
  get_elem?-get_or [] i d h = absurd (omega arith)
  get_elem?-get_or (x ∷ xs) zero d h = refl
  get_elem?-get_or (x ∷ xs) (suc i) d h = get_elem?-get_or xs i d (omega arith)

  pub get_or-set :
      (xs : List A) (i j : ℕ) (v d : A)
      → i < length xs
      → get_or (set xs i v) j d ≡ (if i == j then v else get_or xs j d)
  get_or-set [] i j v d h = absurd (omega arith)
  get_or-set (x ∷ xs) zero zero v d h = refl
  get_or-set (x ∷ xs) zero (suc j) v d h = ground arith
  get_or-set (x ∷ xs) (suc i) zero v d h = ground arith
  get_or-set (x ∷ xs) (suc i) (suc j) v d h = ground (arith, get_or-set xs i j v d)

  pub set-get_or : (xs : List A) (i : ℕ) (d : A) → set xs i (get_or xs i d) ≡ xs
  set-get_or [] i d = refl
  set-get_or (x ∷ xs) zero d = refl
  set-get_or (x ∷ xs) (suc i) d = ap (◌∷◌ x) (set-get_or xs i d)

  pub get_or-mem : (xs : List A) (i : ℕ) (d : A) → i < length xs → Mem (get_or xs i d) xs
  get_or-mem [] i d h = absurd (omega arith)
  get_or-mem (x ∷ xs) zero d h = mem-cons_self
  get_or-mem (x ∷ xs) (suc i) d h = mem-cons_of_mem x (get_or-mem xs i d (omega arith))

  pub get_or-append :
      (xs ys : List A) (i : ℕ) (d : A) → i < length xs → get_or (xs ++ ys) i d ≡ get_or xs i d
  get_or-append [] ys i d h = absurd (omega arith)
  get_or-append (x ∷ xs) ys zero d h = refl
  get_or-append (x ∷ xs) ys (suc i) d h = get_or-append xs ys i d (omega arith)

  pub get_or-append_last : (xs : List A) (x d : A) → get_or (xs ++ x ∷ []) (length xs) d ≡ x
  get_or-append_last [] x d = refl
  get_or-append_last (y ∷ xs) x d = get_or-append_last xs x d

  pub get_or-pop_back :
      (xs : List A) (i : ℕ) (d : A) → i + 1 < length xs → get_or (pop_back xs) i d ≡ get_or xs i d
  get_or-pop_back [] i d h = absurd (omega arith)
  get_or-pop_back (x ∷ []) i d h = absurd (omega arith)
  get_or-pop_back (x ∷ y ∷ xs) zero d h = refl
  get_or-pop_back (x ∷ y ∷ xs) (suc i) d h = get_or-pop_back (y ∷ xs) i d (omega arith)

  -- a write trades the old entry for the new one
  pub set-perm :
      (xs : List A) (i : ℕ) (v d : A) → i < length xs → Perm (get_or xs i d ∷ set xs i v) (v ∷ xs)
  set-perm [] i v d h = absurd (omega arith)
  set-perm (x ∷ xs) zero v d h = Perm.swap v x xs
  set-perm (x ∷ xs) (suc i) v d h =
      Perm.trans (Perm.swap x _ _)
        (Perm.trans (Perm.cons x (set-perm xs i v d (omega arith))) (Perm.swap v x xs))

  pub last-perm :
      (xs : List A) (n : ℕ) (d : A) → length xs ≡ suc n → Perm (get_or xs n d ∷ pop_back xs) xs
  last-perm [] n d h = absurd (omega arith)
  last-perm (x ∷ []) zero d h = Perm.rfl
  last-perm (x ∷ []) (suc n) d h = absurd (omega arith)
  last-perm (x ∷ y ∷ xs) zero d h = absurd (omega arith)
  last-perm (x ∷ y ∷ xs) (suc n) d h =
      Perm.trans (Perm.swap x _ _) (Perm.cons x (last-perm (y ∷ xs) n d (omega arith)))

  -- to move an entry from `j` into the hole at `i` moves the hole to `j`
  pub move-perm :
      (xs : List A) (i j : ℕ) (v d : A)
      → i < length xs
      → j < length xs
      → i ≢ j
      → Perm (set (set xs i (get_or xs j d)) j v) (set xs i v)
  move-perm xs i j v d hi hj ne =
      let w = get_or xs j d in
      let ys = set xs i w in
      let kept : get_or ys j d ≡ w = ground (arith, get_or-set xs i j w d) in
      let second = rw kept at (set-perm ys j v d (omega (arith, length-set xs i w))) in
      let first = Perm.trans (Perm.swap v _ _) (Perm.cons v (set-perm xs i w d hi)) in
      let third = Perm.trans (Perm.swap w _ _) (Perm.cons w (set-perm xs i v d hi)) in
      Perm.cons_inv {a = w} (
        Perm.cons_inv {a = get_or xs i d} (
          Perm.trans (Perm.cons _ second)
            (Perm.trans first (Perm.trans (Perm.swap w v xs) (Perm.symm third)))))
