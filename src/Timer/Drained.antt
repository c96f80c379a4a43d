-- ===== src/Timer/Drained.antt =====
-- How an Update ends, whatever the actions do meanwhile, and the rules for the rounds of its loop.
use native.Mathlib.Bridge.{le_prop}
use timer_benchmarks.Common.{
  ℕ, ◌+◌, ◌≤◌, ◌<◌, ◌≡◌, ◌⊎◌, refl, List, [], ◌∷◌, Option, none, some, arith, Each, Each-nil,
  Each-cons, length,
}
use timer_benchmarks.Timer.Action.{Action, Entry, Updated, nothing}
use timer_benchmarks.Timer.Budget.{budget}
use timer_benchmarks.Timer.Contract.{Ticked}

-- what the calls add to `fired`, where a call adds what `weigh` gives
abbrev pub tally : (Action → ℕ) → List Entry → ℕ
tally weigh [] = 0
tally weigh (e ∷ es) = tally weigh es + weigh e.action

pub tally-one : (es : List Entry) → tally (λ a. 1) es ≡ length es
tally-one [] = refl
tally-one (e ∷ es) = omega (arith, tally-one es)

-- the next timer cannot be taken: it is not due, or an action started it while Update ran
abbrev pub IsStuck : ℕ → ℕ → Option Entry → Type 0
IsStuck now max_id none = Unit
IsStuck now max_id (some e) = (now < e.deadline) ⊎ (max_id < e.id)

module _ {S : Type 0} (Valid : S → Type 0) (counter : S → ℕ) (front : S → Option Entry)
    (weigh : Action → ℕ) where
  -- `max_id` and `c` are the counter when Update, and the loop, began
  pub record Drained (now max_id c : ℕ) (r : Updated S) : Type 0 where
    pub valid : Valid r.timer
    pub due : Each (λ e. e.deadline ≤ now) r.calls
    pub older : Each (λ e. e.id ≤ max_id) r.calls
    pub count : c ≤ counter r.timer
    pub counted : r.fired ≡ tally weigh r.calls
    pub stuck : IsStuck now max_id (front r.timer)

  pub Drained-nothing :
      (now m : ℕ) (t : S)
      → Valid t
      → IsStuck now m (front t)
      → Drained now m (counter t) (nothing t)
  Drained-nothing now m t v why = record {
    valid = v;
    due = Each-nil _;
    older = Each-nil _;
    count = omega arith;
    counted = refl;
    stuck = why;
  }

  pub Drained-call :
      (now m c c' n : ℕ) (e : Entry) (r : Updated S)
      → e.deadline ≤ now
      → e.id ≤ m
      → c ≤ c'
      → n ≡ r.fired + weigh e.action
      → Drained now m c' r
      → Drained now m c (record { fired = n; calls = e ∷ r.calls; timer = r.timer })
  Drained-call now m c c' n e r due old later counted d = record {
    valid = d.valid;
    due = Each-cons (λ f. le_prop) due d.due;
    older = Each-cons (λ f. le_prop) old d.older;
    count = omega (arith, d.count);
    counted = omega (arith, d.counted);
    stuck = d.stuck;
  }

  pub Drained-Ticked :
      (pending : S → List Entry) (now m : ℕ) (t : S) (r : Updated S)
      → Drained now m (counter t) r
      → Ticked Valid pending counter now t r
  Drained-Ticked pending now m t r d = record { valid = d.valid; due = d.due; count = d.count }

-- What the calls of an action keep: the counter does not fall, and the loop's rounds suffice.
pub record Kept {S : Type 0} (Valid : S → Type 0) (counter : S → ℕ) (ids : S → List ℕ) (m c k : ℕ)
    (t : S) : Type 0 where
  pub valid : Valid t
  pub later : c ≤ counter t
  pub room : budget m (counter t) (ids t) ≤ k
