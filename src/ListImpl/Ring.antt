-- ===== src/ListImpl/Ring.antt =====
-- src/list_impl.h: chains of linked entries, and what writes to the memory leave of them.
use timer_benchmarks.Common.{ℕ, ◌≡◌, ◌≢◌, List, [], ◌∷◌, ◌++◌, Option, some, arith}
use timer_benchmarks.ListImpl.{Memory, list_poison2, write_next, write_prev}

abbrev pub Absent : ℕ → List ℕ → Type 0
Absent a [] = Unit
Absent a (x ∷ xs) = (a ≢ x) × Absent a xs

abbrev pub Distinct : List ℕ → Type 0
Distinct [] = Unit
Distinct (x ∷ xs) = Absent x xs × Distinct xs

-- `a` and `b` are neighbours
abbrev pub Linked : Memory → ℕ → ℕ → Type 0
Linked h a b = ((h a).next ≡ some b) × ((h b).prev ≡ some a)

-- from `a` through `xs` to `z`, each entry linked to the next
abbrev pub Chain : Memory → ℕ → List ℕ → ℕ → Type 0
Chain h a [] z = Linked h a z
Chain h a (x ∷ xs) z = Linked h a x × Chain h x xs z

-- the last of `a ∷ xs`, and the first of `xs` before `z`
abbrev pub last : ℕ → List ℕ → ℕ
last a [] = a
last a (x ∷ xs) = last x xs

abbrev pub first : List ℕ → ℕ → ℕ
first [] z = z
first (x ∷ xs) z = x

-- the list with head `l` holds the entries `xs`
pub record Ring (h : Memory) (l : ℕ) (xs : List ℕ) : Type 0 where
  pub chain : Chain h l xs l
  pub distinct : Distinct (l ∷ xs)
  pub sound : Absent list_poison2 (l ∷ xs)

pub Absent-last : (a b : ℕ) (xs : List ℕ) → Absent a (b ∷ xs) → a ≢ last b xs
Absent-last a b [] h = h.0
Absent-last a b (x ∷ xs) h = Absent-last a x xs h.1

pub Absent-append : (a : ℕ) (xs ys : List ℕ) → Absent a xs → Absent a ys → Absent a (xs ++ ys)
Absent-append a [] ys h k = k
Absent-append a (x ∷ xs) ys h k = (h.0, Absent-append a xs ys h.1 k)

pub Absent-left : (a : ℕ) (xs ys : List ℕ) → Absent a (xs ++ ys) → Absent a xs
Absent-left a [] ys h = tt
Absent-left a (x ∷ xs) ys h = (h.0, Absent-left a xs ys h.1)

pub Absent-right : (a : ℕ) (xs ys : List ℕ) → Absent a (xs ++ ys) → Absent a ys
Absent-right a [] ys h = h
Absent-right a (x ∷ xs) ys h = Absent-right a xs ys h.1

pub Distinct-snoc : (n : ℕ) (xs : List ℕ) → Distinct xs → Absent n xs → Distinct (xs ++ n ∷ [])
Distinct-snoc n [] d out = (tt, tt)
Distinct-snoc n (x ∷ xs) d out =
    (Absent-append x xs (n ∷ []) d.0 (ground arith, tt), Distinct-snoc n xs d.1 out.1)

pub Distinct-drop : (x : ℕ) (xs ys : List ℕ) → Distinct (xs ++ x ∷ ys) → Distinct (xs ++ ys)
Distinct-drop x [] ys d = d.1
Distinct-drop x (w ∷ xs) ys d = (
  Absent-append w xs ys (Absent-left w xs (x ∷ ys) d.0) (Absent-right w xs (x ∷ ys) d.0).1,
  Distinct-drop x xs ys d.1,
)

module _ (h : Memory) where
  pub prev-last : (a : ℕ) (xs : List ℕ) (z : ℕ) → Chain h a xs z → (h z).prev ≡ some (last a xs)
  prev-last a [] z c = c.1
  prev-last a (x ∷ xs) z c = prev-last x xs z c.1

  pub next-first : (a : ℕ) (xs : List ℕ) (z : ℕ) → Chain h a xs z → (h a).next ≡ some (first xs z)
  next-first a [] z c = c.0
  next-first a (x ∷ xs) z c = c.0.0

  -- the neighbours of an entry in the midst of a chain
  pub next-mid :
      (a : ℕ) (xs : List ℕ) (x : ℕ) (ys : List ℕ) (z : ℕ)
      → Chain h a (xs ++ x ∷ ys) z
      → ((h x).prev ≡ some (last a xs)) × ((h x).next ≡ some (first ys z))
  next-mid a [] x ys z c = (c.0.1, next-first x ys z c.1)
  next-mid a (w ∷ xs) x ys z c = next-mid w xs x ys z c.1

  -- a write to a `next` outside `a ∷ xs`, and one to a `prev` outside `xs` and `z`
  pub Chain-write_next :
      (p : ℕ) (v : Option ℕ) (a : ℕ) (xs : List ℕ) (z : ℕ)
      → Chain h a xs z
      → Absent p (a ∷ xs)
      → Chain (write_next p v h) a xs z
  unfolding write_next
  Chain-write_next p v a [] z c out = (ground arith, c.1)
  Chain-write_next p v a (x ∷ xs) z c out =
      ((ground arith, c.0.1), Chain-write_next p v x xs z c.1 out.1)

  pub Chain-write_prev :
      (p : ℕ) (v : Option ℕ) (a : ℕ) (xs : List ℕ) (z : ℕ)
      → Chain h a xs z
      → Absent p xs
      → p ≢ z
      → Chain (write_prev p v h) a xs z
  unfolding write_prev
  Chain-write_prev p v a [] z c out far = (c.0, ground arith)
  Chain-write_prev p v a (x ∷ xs) z c out far =
      ((c.0.0, ground arith), Chain-write_prev p v x xs z c.1 out.1 far)

  -- the last entry is linked to `n` in place of `z`
  pub Chain-retarget :
      (n a : ℕ) (xs : List ℕ) (z : ℕ)
      → Chain h a xs z
      → Distinct (a ∷ xs)
      → Absent n xs
      → Chain (write_next (last a xs) (some n) (write_prev n (some (last a xs)) h)) a xs n
  unfolding write_next write_prev
  Chain-retarget n a [] z c d out = (ground arith, ground arith)
  Chain-retarget n a (x ∷ xs) z c d out = (
    (ground (arith, Absent-last a x xs d.0), ground arith),
    Chain-retarget n x xs z c.1 d.1 out.1,
  )
