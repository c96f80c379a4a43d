-- ===== src/RbTimer/Order.antt =====
-- The order of the keys of src/RBTreeTimer.h, insertion and removal.
use mathlib.Core.List.Perm
use mathlib.Core.List.{Pairwise, Pairwise-cons, not-mem-nil}
use timer_benchmarks.Common.{
  ◌≡◌, ◌≢◌, inl, inr, List, [], ◌∷◌, Perm, true, false, ◌||◌, arith, Bool-cases, Each, Each-cons,
  Each-head, Each-tail, Each-perm, Each-map,
}
use timer_benchmarks.Timer.Ids.{select, select-all}
use timer_benchmarks.RbTimer.{NodeKey, less, Node, insert, erase_key}

pub less_irrefl : (a : NodeKey) → less a a ≡ false
unfolding less
less_irrefl a = ground arith

pub less-total : (a b : NodeKey) → a.id ≢ b.id → (less a b || less b a) ≡ true
unfolding less
less-total a b h = ground arith

pub less-flip : (a b : NodeKey) → a.id ≢ b.id → less a b ≡ false → less b a ≡ true
unfolding less
less-flip a b h = ground arith

pub less_trans : (a b c : NodeKey) → less a b ≡ true → less b c ≡ true → less a c ≡ true
unfolding less
less_trans a b c p q = ground arith

abbrev pub Precedes : Node → Node → Type 0
Precedes x y = less x.0 y.0 ≡ true

abbrev pub IsSorted : List Node → Type 0
IsSorted = Pairwise Precedes

Precedes-prop : (x y : Node) → IsProp (Precedes x y)
Precedes-prop x y = hlevel

pub insert-perm : (x : Node) (ys : List Node) → Perm (insert x ys) (x ∷ ys)
unfolding insert
insert-perm x [] = Perm.rfl
insert-perm x (y ∷ ys) = elim (Bool-cases (less x.0 y.0)) [
  | inl e ↦ rw e Perm.rfl
  | inr e ↦ rw e (Perm.trans (Perm.cons y (insert-perm x ys)) (Perm.swap x y ys))
]

-- To insert an element whose id no element has keeps a sequence in the strict order of its keys.
pub insert-IsSorted :
    (x : Node) (ys : List Node)
    → Each (λ y. x.0.id ≢ y.0.id) ys
    → IsSorted ys
    → IsSorted (insert x ys)
unfolding insert
insert-IsSorted x [] new s = Pairwise.cons (λ y m. absurd (not-mem-nil m)) Pairwise.nil
insert-IsSorted x (y ∷ ys) new s =
    let (after, s') = Pairwise-cons.0 s in
    elim (Bool-cases (less x.0 y.0)) [
      | inl e ↦ rw e (
          Pairwise.cons
            (Each-cons (Precedes-prop x) e (Each-map (λ z h. less_trans x.0 y.0 z.0 e h) after)) s)
      | inr e ↦ rw e (
          Pairwise.cons
            (Each-perm (insert-perm x ys)
              (Each-cons (Precedes-prop y) (less-flip x.0 y.0 (Each-head new) e) after))
            (insert-IsSorted x ys (Each-tail new) s'))
    ]

-- The key of the first element is the key of no other one.
pub erase_key-first : (x : Node) (ys : List Node) → IsSorted (x ∷ ys) → erase_key x.0 (x ∷ ys) ≡ ys
unfolding erase_key select
erase_key-first x ys s =
    let after = (Pairwise-cons.0 s).0 in
    rw (less_irrefl x.0) (select-all _ ys (Each-map (λ y h. rw h) after))
