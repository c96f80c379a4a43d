-- ===== src/Common/Bag.antt =====
-- Predicates on every entry of a list, and lists whose entries have different keys.
use Prim.Native.Nat.{ℕ, suc, ◌<◌}
use mathlib.Core.Path.{◌≡◌, refl, ap}
use mathlib.Core.Logic.{∥∥₁_elim}
use mathlib.Core.Logic.Or
use mathlib.Core.List.{
  List, [], ◌∷◌, Mem, Perm, Permᴰ, mem-cons_self, mem-cons_of_mem, mem-cons, not-mem-nil,
}
use mathlib.Core.List.Perm
use native.Mathlib.Nat.{ℕ_set}
use native.Mathlib.Omega.{arith}
use timer_benchmarks.Common.Array.{length, get_or, get_or-mem}

abbrev pub Each {ℓ κ} : {A : Type ℓ} → (A → Type κ) → List A → Type (ℓ ⊔ κ)
Each {A = A} P xs = (x : A) → Mem x xs → P x

pub Each-nil {ℓ κ} : {A : Type ℓ} (P : A → Type κ) → Each P []
Each-nil P x m = absurd (not-mem-nil m)

module _ {ℓ κ} {A : Type ℓ} {P : A → Type κ} where
  pub Each-perm : {xs ys : List A} → Perm ys xs → Each P xs → Each P ys
  Each-perm p h x m = h x ((Perm.mem_iff p).0 m)

  pub Each-tail : {x : A} {xs : List A} → Each P (x ∷ xs) → Each P xs
  Each-tail h y m = h y (mem-cons_of_mem _ m)

  pub Each-head : {x : A} {xs : List A} → Each P (x ∷ xs) → P x
  Each-head h = h _ mem-cons_self

  pub Each-cons :
      {x : A} {xs : List A} → ((y : A) → IsProp (P y)) → P x → Each P xs → Each P (x ∷ xs)
  Each-cons prop p h y m = Or.elim (prop y) (mem-cons.0 m) (λ e. rw e p) (h y)

  pub Each-map {κ'} :
      {Q : A → Type κ'} {xs : List A} → ((x : A) → P x → Q x) → Each P xs → Each Q xs
  Each-map f h x m = f x (h x m)

  pub Each-get_or : (xs : List A) (i : ℕ) (d : A) → Each P xs → i < length xs → P (get_or xs i d)
  Each-get_or xs i d h p = h _ (get_or-mem xs i d p)

  -- what holds at every index holds of every entry
  pub Each-of-get_or :
      (xs : List A) (d : A)
      → ((y : A) → IsProp (P y))
      → ((i : ℕ) → i < length xs → P (get_or xs i d))
      → Each P xs
  Each-of-get_or [] d prop h = Each-nil P
  Each-of-get_or (x ∷ xs) d prop h =
      Each-cons prop (h 0 (omega arith)) (Each-of-get_or xs d prop (λ i p. h (suc i) (omega arith)))

module _ {ℓ} {A : Type ℓ} where
  length-permᴰ : {xs ys : List A} → Permᴰ xs ys → length xs ≡ length ys
  length-permᴰ Permᴰ.nil = refl
  length-permᴰ (Permᴰ.cons _ p) = ap suc (length-permᴰ p)
  length-permᴰ (Permᴰ.swap _ _) = refl
  length-permᴰ (Permᴰ.trans p q) = omega (arith, length-permᴰ p, length-permᴰ q)

  pub length-perm : {xs ys : List A} → Perm xs ys → length xs ≡ length ys
  length-perm p = ∥∥₁_elim p (ℕ_set _ _) length-permᴰ
