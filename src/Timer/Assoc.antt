-- ===== src/Timer/Assoc.antt =====
-- `std::unordered_map<int, V>` as an association list that holds a key at most once.
use timer_benchmarks.Common.{
  ℕ, ◌≡◌, List, [], ◌∷◌, not, Option, none, some, ◌==◌, if◌then◌else◌, arith,
}
use timer_benchmarks.Timer.Ids.{select}

module _ {ℓ} {V : Type ℓ} where
  unfoldable pub find : ℕ → List (ℕ × V) → Option V
  find k [] = none
  find k ((j, v) ∷ m) = if j == k then some v else find k m

  unfoldable pub erase : ℕ → List (ℕ × V) → List (ℕ × V)
  unfolding select
  erase k = select (λ e. not (e.0 == k))

  unfoldable pub assign : ℕ → V → List (ℕ × V) → List (ℕ × V)
  unfolding erase
  assign k v m = (k, v) ∷ erase k m

  pub find-erase :
      (k j : ℕ) (m : List (ℕ × V)) → find j (erase k m) ≡ (if k == j then none else find j m)
  unfolding find erase
  find-erase k j [] = ground arith
  find-erase k j ((i, v) ∷ m) = ground (arith, find-erase k j m)

  pub find-assign :
      (k j : ℕ) (v : V) (m : List (ℕ × V))
      → find j (assign k v m) ≡ (if k == j then some v else find j m)
  unfolding find assign
  find-assign k j v m = ground (arith, find-erase k j m)
