-- ===== src/HashedBucket/Add.antt =====
-- AddTimeout and pollTimeout of src/HashedWheelBucket.cpp.
use mathlib.Core.List.Perm
use mathlib.Core.List.{Mem-prop, mem-cons, not-mem-nil, Nodup-cons, perm_append_singleton}
use mathlib.Core.Path.{subst}
use mathlib.Core.Logic.Or
use native.Mathlib.Decide.{ℕ_discrete}
use timer_benchmarks.Common.{
  ℕ, ◌≡◌, ◌≢◌, refl, sym, ap, ◌∙◌, List, [], ◌∷◌, ◌++◌, none, some, Each, Mem, Perm, Returns, value,
  arith,
}
use timer_benchmarks.HashedBucket.{HashedWheelBucket, Store, write, add_timeout}
use timer_benchmarks.HashedBucket.Chain.{
  last_of, last_or-some, mem-last_of, append-IsLinked, write_self, write-IsLinked, relink_last,
  last_or-append,
}
use timer_benchmarks.HashedBucket.Chain.{Holds}

-- the store after AddTimeout behind the last timeout `q`
abbrev added_store : ℕ → ℕ → ℕ → Store → Store
added_store self p q s =
    let owned = write p (record (s p) { bucket = some self }) s in
    let linked = write q (record (owned q) { next = some p }) owned in
    write p (record (linked p) { prev = some q }) linked

added-content :
    (self p q : ℕ) (s : Store) (x : ℕ)
    → q ≢ p
    → (p ≢ x → (s x).bucket ≡ some self)
    → (added_store self p q s x).bucket ≡ some self
added-content self p q s x apart h = ground (arith, h)

added-node :
    (self p q : ℕ) (s : Store)
    → q ≢ p
    → ((added_store self p q s p).prev ≡ some q) × ((added_store self p q s p).next ≡ (s p).next)
added-node self p q s apart = (ground arith, ground arith)

mem-behind : (p y : ℕ) (xs : List ℕ) → Mem y (p ∷ xs) → p ≢ y → Mem y xs
mem-behind p y xs m other = Or.elim Mem-prop (mem-cons.0 m) (λ e. absurd (other (sym e))) (λ n. n)

-- HashedWheelBucket::AddTimeout of a timeout that no bucket owns, whose links are null and that is
-- not in the bucket's list, returns, and the links of the bucket spell out the list with the
-- timeout at its end, all owned by the bucket.
pub add_appends :
    (self p : ℕ) (b : HashedWheelBucket) (s : Store) (xs : List ℕ)
    → (s p).bucket ≡ none
    → (s p).next ≡ none
    → (s p).prev ≡ none
    → Holds self b s xs
    → ¬ Mem p xs
    → Returns (λ r. Holds self r.0 r.1 (xs ++ p ∷ [])) (add_timeout self p b s)
unfolding add_timeout
add_appends self p b s [] free unlinked first h new =
    let same = write_self s p (record (s p) { bucket = some self }) in
    rw (free, h.head)
      (value (record {
        head = refl;
        tail = refl;
        linked = (ap (λ c. c.prev) same ∙ first, ap (λ c. c.next) same ∙ unlinked, tt);
        distinct = Nodup-cons.1 (new, h.distinct);
        owned = λ x m. elim (ℕ_discrete p x) [
          | yes e ↦
              subst (λ z. (write p (record (s p) { bucket = some self }) s z).bucket ≡ some self) e
                (ap (λ c. c.bucket) same)
          | no e ↦ absurd (not-mem-nil (mem-behind p x [] m e))
        ];
      }))
add_appends self p b s (x ∷ xs) free unlinked first h new =
    let q = last_of x xs in
    let member = mem-last_of x xs in
    let apart : Each (λ y. p ≢ y) (x ∷ xs) = λ y m e. new (subst (λ z. Mem z (x ∷ xs)) (sym e) m) in
    let other : q ≢ p = λ e. apart q member (sym e) in
    let owned : Store = write p (record (s p) { bucket = some self }) s in
    let linked : Store = write q (record (owned q) { next = some p }) owned in
    let (prev, next) = added-node self p q s other in
    let behind : Perm ((x ∷ xs) ++ p ∷ []) (p ∷ x ∷ xs) = perm_append_singleton p (x ∷ xs) in
    rw (free, h.head, h.tail, last_or-some x xs)
      (value (record {
        head = h.head;
        tail = sym (last_or-append (some x) xs (p ∷ []));
        linked =
            append-IsLinked (added_store self p q s) none none (x ∷ xs) (p ∷ [])
              (write-IsLinked linked p (record (linked p) { prev = some q }) none (some p) (x ∷ xs)
                apart
                (relink_last owned none none (some p) x xs h.distinct (
                  write-IsLinked s p (record (s p) { bucket = some self }) none none (x ∷ xs) apart
                    h.linked)))
              (prev ∙ sym (last_or-some x xs), next ∙ unlinked, tt);
        distinct = Perm.nodup (Perm.symm behind) (Nodup-cons.1 (new, h.distinct));
        owned = λ y m.
            added-content self p q s y other
              λ e. h.owned y (mem-behind p y (x ∷ xs) ((Perm.mem_iff behind).0 m) e);
      }))
