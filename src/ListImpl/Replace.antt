-- ===== src/ListImpl/Replace.antt =====
-- src/list_impl.h: list_replace_init moves the entries of a list to another head.
use timer_benchmarks.Common.{ℕ, ◌≡◌, ◌≢◌, List, [], ◌∷◌, some, Returns, value, arith}
use timer_benchmarks.ListImpl.{
  Memory, list_poison2, write_next, write_prev, init_list_head, list_replace_init,
}
use timer_benchmarks.ListImpl.Ring.{
  Absent, Chain, last, Ring, Absent-last, prev-last, Chain-write_next, Chain-write_prev,
  Chain-retarget,
}
use timer_benchmarks.ListImpl.Ops.{SameOutside, list_replace-writes}

pub init_list_head-Ring : (h : Memory) (l : ℕ) → l ≢ list_poison2 → Ring (init_list_head l h) l []
unfolding init_list_head write_next write_prev
init_list_head-Ring h l safe = record {
  chain = (ground arith, ground arith);
  distinct = (tt, tt);
  sound = (ground arith, tt);
}

-- the memory after list_replace_init, where `x` is the first entry and `q` the last
abbrev moved : Memory → ℕ → ℕ → ℕ → ℕ → Memory
moved h l n x q = init_list_head l (
    write_next q (some n) (write_prev n (some q) (write_prev x (some n) (write_next n (some x) h))))

moved-Chain :
    (h : Memory) (l x : ℕ) (xs : List ℕ) (n : ℕ)
    → Ring h l (x ∷ xs)
    → Absent n (l ∷ x ∷ xs)
    → Chain (moved h l n x (last x xs)) x xs n
unfolding init_list_head
moved-Chain h l x xs n r out =
    let q = last x xs in
    let h1 = write_next n (some x) h in
    let h2 = write_prev x (some n) h1 in
    let h4 = write_next q (some n) (write_prev n (some q) h2) in
    let c1 = Chain-write_next h n (some x) x xs l r.chain.1 out.1 in
    let c2 =
      Chain-write_prev h1 x (some n) x xs l c1 r.distinct.1.0 (ground (arith, r.distinct.0.0)) in
    let c4 = Chain-retarget h2 n x xs l c2 r.distinct.1 out.1.1 in
    Chain-write_prev (write_next l (some l) h4) l (some l) x xs n
      (Chain-write_next h4 l (some l) x xs n c4 r.distinct.0) r.distinct.0.1 (ground (arith, out.0))

-- Let a head hold the entries of a list, and let another address be neither among them nor
-- poisoned. list_replace_init returns, the new head holds the same entries in the same order, the
-- old head is empty, and no other entry in memory changes. The list may be empty.
pub list_replace_init-Ring :
    (h : Memory) (l : ℕ) (xs : List ℕ) (n : ℕ)
    → Ring h l xs
    → Absent n (l ∷ xs)
    → n ≢ list_poison2
    → Returns
        (λ h'. Ring h' n xs × Ring h' l [] × SameOutside (n ∷ l ∷ xs) h h')
        (list_replace_init l n h)
unfolding list_replace_init write_next write_prev init_list_head
list_replace_init-Ring h l [] n r out safe =
    rw (list_replace-writes h l n l n r.chain.0 (ground arith) r.sound.0 (ground arith)) (
      value (
        record {
          chain = (ground (arith, out.0), ground (arith, out.0));
          distinct = (tt, tt);
          sound = (ground arith, tt);
        },
        init_list_head-Ring _ l (ground (arith, r.sound.0)),
        λ a far. (ground (arith, far.0, far.1.0), ground (arith, far.0, far.1.0)),
      ))
list_replace_init-Ring h l (x ∷ xs) n r out safe =
    let q = last x xs in
    let away = Absent-last l x xs r.distinct.0 in
    let tail : (write_prev x (some n) h l).prev ≡ some q =
      ground (arith, prev-last h l (x ∷ xs) l r.chain, r.distinct.0.0) in
    rw
      (list_replace-writes h l n x q r.chain.0.0 tail r.sound.1.0
        (Absent-last list_poison2 x xs r.sound.1))
      (value (
        record {
          chain = (
            (ground (arith, Absent-last n x xs out.1), ground arith),
            moved-Chain h l x xs n r out,
          );
          distinct = (out.1, r.distinct.1);
          sound = (ground arith, r.sound.1);
        },
        init_list_head-Ring _ l (ground (arith, r.sound.0)),
        λ a far. (
          ground (arith, far.0, far.1.0, Absent-last a x xs far.1.1),
          ground (arith, far.0, far.1.0, far.1.1.0),
        ),
      ))
