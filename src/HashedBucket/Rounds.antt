-- ===== src/HashedBucket/Rounds.antt =====
-- The rounds that timeouts of src/HashedWheelBucket.cpp wait, while ExpireTimeouts passes them.
use mathlib.Core.List.{mem-cons_self, mem-cons_of_mem}
use mathlib.Core.Path.{subst}
use timer_benchmarks.Common.{
  ℕ, ◌-◌, ◌≤◌, ◌≡◌, ◌≢◌, sym, ap, ◌∙◌, List, [], ◌∷◌, Bool, true, false, not, Option, none, some,
  arith, Each, Mem, ◌==◌,
}
use timer_benchmarks.Timer.Ids.{select, select-ext}
use timer_benchmarks.HashedBucket.{HashedWheelBucket, Store, write}
use timer_benchmarks.HashedBucket.Chain.{IsLinked, write-other}
use timer_benchmarks.HashedBucket.Chain.{Holds}
use timer_benchmarks.HashedBucket.Bypass.{content}

-- the store with one round less for `p`
abbrev pub count_down : ℕ → Store → Store
count_down p s = write p (record (s p) { remaining_rounds = (s p).remaining_rounds - 1 }) s

abbrev pub is_due : Store → ℕ → Bool
is_due s x = (s x).remaining_rounds == 0

module _ (p : ℕ) (s : Store) where
  count_down-prev : (x : ℕ) → (count_down p s x).prev ≡ (s x).prev
  count_down-prev x = ground arith

  count_down-next : (x : ℕ) → (count_down p s x).next ≡ (s x).next
  count_down-next x = ground arith

  count_down-bucket : (x : ℕ) → (count_down p s x).bucket ≡ (s x).bucket
  count_down-bucket x = ground arith

  count_down-deadline : (x : ℕ) → (count_down p s x).deadline ≡ (s x).deadline
  count_down-deadline x = ground arith

  count_down-IsLinked :
      (before after : Option ℕ) (xs : List ℕ)
      → IsLinked s before xs after
      → IsLinked (count_down p s) before xs after
  count_down-IsLinked before after [] h = tt
  count_down-IsLinked before after (x ∷ xs) (prev, next, h) =
      (count_down-prev x ∙ prev, count_down-next x ∙ next, count_down-IsLinked (some x) after xs h)

  pub count_down-Holds :
      (self : ℕ) (b : HashedWheelBucket) (xs : List ℕ)
      → Holds self b s xs
      → Holds self b (count_down p s) xs
  count_down-Holds self b xs h = record {
    head = h.head;
    tail = h.tail;
    linked = count_down-IsLinked none none xs h.linked;
    distinct = h.distinct;
    owned = λ x m. count_down-bucket x ∙ h.owned x m;
  }

-- every timeout without rounds is due
abbrev pub AllInTime : Store → ℕ → List ℕ → Type 0
AllInTime s deadline xs = Each (λ x. is_due s x ≡ true → (s x).deadline ≤ deadline) xs

-- a store that differs from `s` at `p` only, for timeouts that are not `p`
module _ (s s' : Store) (p : ℕ) (ys : List ℕ) (new : ¬ Mem p ys)
    (same : (x : ℕ) → p ≢ x → content (s' x) ≡ content (s x)) where
  other_than : (x : ℕ) → Mem x ys → p ≢ x
  other_than x m e = new (subst (λ z. Mem z ys) (sym e) m)

  due_same : Each (λ x. is_due s' x ≡ is_due s x) ys
  due_same x m = ap (λ c. c.1 == 0) (same x (other_than x m))

  pub due_select : select (is_due s') ys ≡ select (is_due s) ys
  due_select = select-ext (is_due s') (is_due s) ys due_same

  pub kept_select : select (λ x. not (is_due s' x)) ys ≡ select (λ x. not (is_due s x)) ys
  kept_select =
      select-ext (λ x. not (is_due s' x)) (λ x. not (is_due s x)) ys (λ x m. ap not (due_same x m))

  pub in_time : (deadline : ℕ) → AllInTime s deadline (p ∷ ys) → AllInTime s' deadline ys
  in_time deadline t x m due =
      let date = ap (λ c. c.2) (same x (other_than x m)) in
      omega (arith, date, t x (mem-cons_of_mem p m) (sym (due_same x m) ∙ due))

  -- the rounds of the timeouts behind `p`, and what is not in the list
  pub counted_behind :
      (r : Store)
      → ((x : ℕ)
          → Mem x ys
          → is_due s' x ≡ false
          → (r x).remaining_rounds ≡ (s' x).remaining_rounds - 1)
      → (x : ℕ) → Mem x ys
      → is_due s x ≡ false
      → (r x).remaining_rounds ≡ (s x).remaining_rounds - 1
  counted_behind r h x m waits =
      h x m (due_same x m ∙ waits) ∙ ap (λ c. c.1 - 1) (same x (other_than x m))

  pub others_behind :
      (r : Store)
      → ((x : ℕ) → ¬ Mem x ys → content (r x) ≡ content (s' x))
      → (x : ℕ) → ¬ Mem x (p ∷ ys)
      → content (r x) ≡ content (s x)
  others_behind r h x out =
      h x (λ m. out (mem-cons_of_mem p m))
      ∙ same x (λ e. out (subst (λ z. Mem z (p ∷ ys)) e mem-cons_self))

pub count_down-others :
    (p : ℕ) (s : Store) (x : ℕ) → p ≢ x → content (count_down p s x) ≡ content (s x)
count_down-others p s x other =
    ap content
      (write-other s p x (record (s p) { remaining_rounds = (s p).remaining_rounds - 1 }) other)
