-- ===== src/Timer/Ids.antt =====
-- Selections from a list by a Boolean test, and the maps from ids to timers by their keys.
use mathlib.Core.Logic.{∥∥₁_elim}
use mathlib.Core.Logic.Or
use mathlib.Core.HLevel.{⊥_prop}
use mathlib.Core.List.Perm
use mathlib.Core.List.{
  Permᴰ, mem-cons, mem-cons_self, mem-cons_of_mem, not-mem-nil, exists_of_mem-map, Mem-prop,
  Pairwise, Pairwise-cons,
}
use timer_benchmarks.Common.{
  ℕ, ◌≡◌, ◌↔◌, refl, Bool, true, false, not, ◌||◌, List, [], ◌∷◌, Mem, Perm, map, ◌==◌,
  if◌then◌else◌, arith, ap, sym, ◌∙◌, ◌<◌, Each, Each-head, Each-tail, ◌++◌, Bool-cases, inl, inr,
  ==→≡,
}

module _ {ℓ} {A : Type ℓ} where
  -- the entries that pass the test, in order
  unfoldable pub select : (A → Bool) → List A → List A
  select test [] = []
  select test (x ∷ xs) = if test x then x ∷ select test xs else select test xs

  keep-perm :
      (b : Bool) (x : A) {xs ys : List A}
      → Perm xs ys
      → Perm (if b then x ∷ xs else xs) (if b then x ∷ ys else ys)
  keep-perm true x p = Perm.cons x p
  keep-perm false x p = p

  keep-swap :
      (b c : Bool) (x y : A) (l : List A)
      → Perm
          (if b then x ∷ (if c then y ∷ l else l) else (if c then y ∷ l else l))
          (if c then y ∷ (if b then x ∷ l else l) else (if b then x ∷ l else l))
  keep-swap true true x y l = Perm.swap y x l
  keep-swap true false x y l = Perm.rfl
  keep-swap false c x y l = Perm.rfl

  select-permᴰ :
      (test : A → Bool) {xs ys : List A} → Permᴰ xs ys → Perm (select test xs) (select test ys)
  unfolding select
  select-permᴰ test Permᴰ.nil = Perm.rfl
  select-permᴰ test (Permᴰ.cons {a = x} e p) = rw (← e) (keep-perm (test x) x (select-permᴰ test p))
  select-permᴰ test (Permᴰ.swap {a = x} {b = y} {l = l} e f) =
      rw (← e, ← f) (keep-swap (test x) (test y) x y (select test l))
  select-permᴰ test (Permᴰ.trans p q) = Perm.trans (select-permᴰ test p) (select-permᴰ test q)

  pub select-perm :
      (test : A → Bool) {xs ys : List A} → Perm xs ys → Perm (select test xs) (select test ys)
  select-perm test p = ∥∥₁_elim p squash₁ (select-permᴰ test)

  pub select-append :
      (test : A → Bool) (xs ys : List A) → select test (xs ++ ys) ≡ select test xs ++ select test ys
  unfolding select
  select-append test [] ys = refl
  select-append test (x ∷ xs) ys = ground (arith, select-append test xs ys)

  -- the selection depends on the tests of the entries alone
  pub select-ext :
      (test test' : A → Bool) (xs : List A)
      → Each (λ x. test x ≡ test' x) xs
      → select test xs ≡ select test' xs
  unfolding select
  select-ext test test' [] h = refl
  select-ext test test' (x ∷ xs) h = rw (Each-head h, select-ext test test' xs (Each-tail h))

  pub select-all :
      (test : A → Bool) (xs : List A) → Each (λ x. test x ≡ true) xs → select test xs ≡ xs
  unfolding select
  select-all test [] h = refl
  select-all test (x ∷ xs) h = rw (Each-head h, select-all test xs (Each-tail h))

  pub select-none :
      (test : A → Bool) (xs : List A) → Each (λ x. test x ≡ false) xs → select test xs ≡ []
  unfolding select
  select-none test [] h = refl
  select-none test (x ∷ xs) h = rw (Each-head h, select-none test xs (Each-tail h))

  pub mem-select :
      (test : A → Bool) (x : A) (xs : List A) → Mem x (select test xs) → Mem x xs × (test x ≡ true)
  unfolding select
  mem-select test x [] m = absurd (not-mem-nil m)
  mem-select test x (y ∷ ys) m = elim (Bool-cases (test y)) [
    | inl e ↦
        Or.elim (hlevel Mem-prop) (mem-cons.0 (rw e at m)) (λ q. rw q (mem-cons_self, e))
          (λ n. let (there, kept) = mem-select test x ys n in (mem-cons_of_mem y there, kept))
    | inr e ↦
        let (there, kept) = mem-select test x ys (rw e at m) in (mem-cons_of_mem y there, kept)
  ]

  pub select-Pairwise {κ} :
      {R : A → A → Type κ} (test : A → Bool) (xs : List A)
      → Pairwise R xs
      → Pairwise R (select test xs)
  unfolding select
  select-Pairwise test [] p = p
  select-Pairwise test (x ∷ xs) p =
      let (after, p') = Pairwise-cons.0 p in
      elim (Bool-cases (test x)) [
        | inl e ↦
            rw e (
              Pairwise.cons (λ y m. after y (mem-select test y xs m).0)
                (select-Pairwise test xs p'))
        | inr e ↦ rw e (select-Pairwise test xs p')
      ]

-- `find(id) != end()`
unfoldable pub contains : ℕ → List ℕ → Bool
contains id [] = false
contains id (k ∷ ks) = k == id || contains id ks

-- `erase(id)`
unfoldable pub remove : ℕ → List ℕ → List ℕ
unfolding select
remove id = select (λ k. not (k == id))

-- `ref_[id] = node`
unfoldable pub put : ℕ → List ℕ → List ℕ
unfolding remove
put id ks = id ∷ remove id ks

pub contains_iff : (id : ℕ) (ks : List ℕ) → (contains id ks ≡ true) ↔ Mem id ks
unfolding contains
contains_iff id [] = ((λ e. absurd (ground arith)), λ m. absurd (not-mem-nil m))
contains_iff id (k ∷ ks) = elim (Bool-cases (k == id)) [
  | inl e ↦ ((λ _. rw (==→≡ k id e) mem-cons_self), λ _. rw e)
  | inr e ↦ (
    (λ h. mem-cons_of_mem k ((contains_iff id ks).0 (rw e at h))),
    λ m. rw e (Or.elim (hlevel) (mem-cons.0 m) (λ q. ground arith) (contains_iff id ks).1),
  )
]

pub remove-fresh : (id : ℕ) (ks : List ℕ) → ¬ Mem id ks → remove id ks ≡ ks
unfolding remove select
remove-fresh id [] h = refl
remove-fresh id (k ∷ ks) h = elim (Bool-cases (k == id)) [
  | inl e ↦ absurd (h (rw (==→≡ k id e) mem-cons_self))
  | inr e ↦ rw (e, remove-fresh id ks (λ m. h (mem-cons_of_mem k m)))
]

pub put-fresh : (id : ℕ) (ks : List ℕ) → ¬ Mem id ks → put id ks ≡ id ∷ ks
unfolding put
put-fresh id ks h = ap (◌∷◌ id) (remove-fresh id ks h)

pub remove-perm : (id : ℕ) {xs ys : List ℕ} → Perm xs ys → Perm (remove id xs) (remove id ys)
unfolding remove
remove-perm id p = select-perm _ p

pub remove-cons_self : (id : ℕ) (ks : List ℕ) → ¬ Mem id ks → remove id (id ∷ ks) ≡ ks
unfolding remove select
remove-cons_self id ks h = ground (arith, remove-fresh id ks h)

module _ {ℓ} {A : Type ℓ} (f : A → ℕ) where
  -- an id that is larger than all the others is new
  pub not-mem_of_lt : (c : ℕ) (xs : List A) → Each (λ x. f x < c) xs → ¬ Mem c (map f xs)
  not-mem_of_lt c xs h m =
      ∥∥₁_elim (exists_of_mem-map m) ⊥_prop
        λ (w : (x : A) × Mem x xs × (f x ≡ c)). omega (arith, h w.0 w.1)

  pub mem-map-select :
      (test : A → Bool) (k : ℕ) (xs : List A) → Mem k (map f (select test xs)) → Mem k (map f xs)
  unfolding select
  mem-map-select test k [] m = m
  mem-map-select test k (x ∷ xs) m = elim (Bool-cases (test x)) [
    | inl e ↦
        Or.elim Mem-prop (mem-cons.0 (rw e at m)) (λ q. rw q mem-cons_self)
          (λ n. mem-cons_of_mem _ (mem-map-select test k xs n))
    | inr e ↦ mem-cons_of_mem _ (mem-map-select test k xs (rw e at m))
  ]

-- a map from ids is the same in any order
pub contains-perm : (id : ℕ) {xs ys : List ℕ} → Perm xs ys → contains id xs ≡ contains id ys
contains-perm id {xs} {ys} p = elim (Bool-cases (contains id ys)) [
  | inl e ↦ rw e ((contains_iff id xs).1 ((Perm.mem_iff p).1 ((contains_iff id ys).0 e)))
  | inr e ↦ elim (Bool-cases (contains id xs)) [
    | inl f ↦ cc ((contains_iff id ys).1 ((Perm.mem_iff p).0 ((contains_iff id xs).0 f)))
    | inr f ↦ f ∙ sym e
  ]
]

pub contains-absent : (id : ℕ) (ks : List ℕ) → ¬ Mem id ks → contains id ks ≡ false
contains-absent id ks h = elim (Bool-cases (contains id ks)) [
  | inl e ↦ absurd (h ((contains_iff id ks).0 e))
  | inr e ↦ e
]
