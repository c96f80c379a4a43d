-- ===== src/HashedBucket/Expire.antt =====
-- ExpireTimeouts of src/HashedWheelBucket.cpp.
use mathlib.Core.List.{mem-cons_self, mem-cons, not-mem-nil, Nodup-cons, append_assoc, Nodup-append}
use mathlib.Core.Path.{subst}
use mathlib.Core.Logic.Or
use timer_benchmarks.Common.{
  ℕ, zero, suc, ◌-◌, ◌<◌, ◌≡◌, refl, sym, ap, ◌∙◌, List, [], ◌∷◌, ◌++◌, true, false, not, Option,
  none, arith, Mem, length, Returns, value, Ends-bind, Ends-map, Ends-if, ltb,
}
use timer_benchmarks.Timer.Ids.{select}
use timer_benchmarks.HashedBucket.{
  HashedWheelBucket, Store, remove_timeout, expire_loop, expire_timeouts,
}
use timer_benchmarks.HashedBucket.Chain.{IsLinked-append, first_or, write_self}
use timer_benchmarks.HashedBucket.Chain.{Holds}
use timer_benchmarks.HashedBucket.Bypass.{content}
use timer_benchmarks.HashedBucket.Remove.{Unlinked, remove_unlinks}
use timer_benchmarks.HashedBucket.Rounds.{
  count_down, is_due, count_down-Holds, due_select, kept_select, in_time, counted_behind,
  others_behind, count_down-others, AllInTime,
}

-- `r` against the list of `kept` and `todo`, where the loop has passed `kept`
pub record Expired (self : ℕ) (s : Store) (kept todo : List ℕ)
    (r : List ℕ × HashedWheelBucket × Store) : Type 0 where
  pub expired : r.0 ≡ select (is_due s) todo
  pub holds : Holds self r.1 r.2 (kept ++ select (λ x. not (is_due s x)) todo)
  pub counted :
      (x : ℕ)
      → Mem x todo
      → is_due s x ≡ false
      → (r.2 x).remaining_rounds ≡ (s x).remaining_rounds - 1
  pub others : (x : ℕ) → ¬ Mem x todo → content (r.2 x) ≡ content (s x)

split_mem :
    (p x : ℕ) (ys : List ℕ) (P : Type 0)
    → IsProp P
    → Mem x (p ∷ ys)
    → (x ≡ p → P)
    → (Mem x ys → P)
    → P
split_mem p x ys P prop m first rest = Or.elim prop (mem-cons.0 m) first rest

Expired-due :
    (self p : ℕ) (s : Store) (kept ys : List ℕ) (removed : Option ℕ × HashedWheelBucket × Store)
    (r : List ℕ × HashedWheelBucket × Store)
    → ¬ Mem p ys
    → is_due s p ≡ true
    → Unlinked self s kept ys p removed
    → Expired self removed.2 kept ys r
    → Expired self s kept (p ∷ ys) (p ∷ r.0, r.1, r.2)
unfolding select
Expired-due self p s kept ys removed r new due u e = record {
  expired = rw (due, e.expired, due_select s removed.2 p ys new u.others) refl;
  holds = rw due (
      subst (λ zs. Holds self r.1 r.2 (kept ++ zs)) (kept_select s removed.2 p ys new u.others)
        e.holds);
  counted = λ x m waits.
      split_mem p x ys _ (hlevel) m (λ q. absurd (ground (arith, q, due, waits)))
        (λ n. counted_behind s removed.2 p ys new u.others r.2 e.counted x n waits);
  others = others_behind s removed.2 p ys new u.others r.2 e.others;
}

Expired-wait :
    (self p : ℕ) (s : Store) (kept ys : List ℕ) (r : List ℕ × HashedWheelBucket × Store)
    → ¬ Mem p ys
    → is_due s p ≡ false
    → Expired self (count_down p s) (kept ++ p ∷ []) ys r
    → Expired self s kept (p ∷ ys) r
unfolding select
Expired-wait self p s kept ys r new waits e =
    let s' = count_down p s in
    let same = count_down-others p s in
    record {
      expired = rw (waits, e.expired, due_select s s' p ys new same) refl;
      holds = rw waits (
          subst (Holds self r.1 r.2)
            (append_assoc kept (p ∷ []) _
              ∙ ap (λ zs. kept ++ p ∷ zs) (kept_select s s' p ys new same))
            e.holds);
      counted = λ x m wait.
          split_mem p x ys _ (hlevel) m
            (λ q. rw q (
              ap (λ c. c.1) (e.others p new)
              ∙ ap (λ c. c.remaining_rounds)
                  (write_self s p
                    (record (s p) { remaining_rounds = (s p).remaining_rounds - 1 }))))
            (λ n. counted_behind s s' p ys new same r.2 e.counted x n wait);
      others = others_behind s s' p ys new same r.2 e.others;
    }

module _ (self deadline : ℕ) where
  loop_expires :
      (fuel : ℕ) (b : HashedWheelBucket) (s : Store) (kept todo : List ℕ)
      → length todo < fuel
      → Holds self b s (kept ++ todo)
      → AllInTime s deadline todo
      → Returns (Expired self s kept todo) (expire_loop fuel deadline (first_or todo none) b s)
  unfolding expire_loop select
  loop_expires zero b s kept todo f h t = absurd (omega arith)
  loop_expires (suc fuel) b s kept [] f h t = value (record {
    expired = refl;
    holds = h;
    counted = λ x m. absurd (not-mem-nil m);
    others = λ x out. refl;
  })
  loop_expires (suc fuel) b s kept (p ∷ ys) f h t =
      let (kept', tail, disjoint) = (Nodup-append {l₁ = kept} {l₂ = p ∷ ys}).0 h.distinct in
      let new : ¬ Mem p ys = (Nodup-cons.0 tail).0 in
      let u = remove_unlinks self b s kept ys p h in
      let removed = remove_timeout p b s in
      Ends-if (is_due s p)
        (λ due.
          let date = t p mem-cons_self due in
          let on_time : ltb deadline (removed.2 p).deadline ≡ false =
            ground (arith, u.deadline, date) in
          rw (on_time, u.next)
            (Ends-bind
              (loop_expires fuel removed.1 removed.2 kept ys (omega arith) u.holds
                (in_time s removed.2 p ys new u.others deadline t))
              λ r e. value (Expired-due self p s kept ys removed r new due u e)))
        (λ waits.
          let (left, (prev, next, right)) = IsLinked-append s none none kept (p ∷ ys) h.linked in
          let s' = count_down p s in
          let passed : Holds self b s' ((kept ++ p ∷ []) ++ ys) =
            subst (Holds self b s') (sym (append_assoc kept (p ∷ []) ys))
              (count_down-Holds p s self b (kept ++ p ∷ ys) h) in
          let rest =
            loop_expires fuel b s' (kept ++ p ∷ []) ys (omega arith) passed
              (in_time s s' p ys new (count_down-others p s) deadline t) in
          Ends-map
            (subst
              (λ n.
                Returns (Expired self s' (kept ++ p ∷ []) ys) (expire_loop fuel deadline n b s'))
              (sym next) rest)
            λ r e. Expired-wait self p s kept ys r new waits e)

-- Where the links of a bucket spell out a list of different timeouts that the bucket owns, those
-- without rounds left are due at the deadline given, and the fuel exceeds the length of the list:
-- HashedWheelBucket::ExpireTimeouts returns exactly the timeouts without rounds left, in the order
-- of the list, the links spell out the others, each of which has one round less, and no other
-- timeout changes its bucket, rounds, deadline or action.
pub expire_splits :
    (self deadline fuel : ℕ) (b : HashedWheelBucket) (s : Store) (xs : List ℕ)
    → length xs < fuel
    → Holds self b s xs
    → AllInTime s deadline xs
    → Returns (Expired self s [] xs) (expire_timeouts fuel deadline b s)
unfolding expire_timeouts
expire_splits self deadline fuel b s xs f h t =
    subst (λ n. Returns (Expired self s [] xs) (expire_loop fuel deadline n b s)) (sym h.head)
      (loop_expires self deadline fuel b s [] xs f h t)
