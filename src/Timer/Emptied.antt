-- ===== src/Timer/Emptied.antt =====
-- How an Update ends that leaves no due timer behind, and the rules for the rounds of its loop.
use native.Mathlib.Bridge.{le_prop}
use mathlib.Core.List.Perm
use mathlib.Core.List.{Pairwise, mem-append_left}
use timer_benchmarks.Common.{
  ℕ, ◌≤◌, ◌<◌, ◌≡◌, refl, List, ◌∷◌, ◌++◌, Perm, Each, Each-nil, Each-cons,
}
use timer_benchmarks.Timer.Action.{Entry, Updated, nothing}
use timer_benchmarks.Timer.Contract.{QuietlyTicked}

-- no timer expires before one that stands in front of it
abbrev pub IsOrdered : List Entry → Type 0
IsOrdered = Pairwise (λ e f. e.deadline ≤ f.deadline)

module _ {S : Type 0} (Valid : S → Type 0) (pending : S → List Entry) (counter : S → ℕ) where
  -- `r` against the timers `es` that were pending before it and the counter `c`
  pub record Emptied (now c : ℕ) (es : List Entry) (r : Updated S) : Type 0 where
    pub valid : Valid r.timer
    pub due : Each (λ e. e.deadline ≤ now) r.calls
    pub ordered : IsOrdered r.calls
    pub count : counter r.timer ≡ c
    pub kept : Perm (r.calls ++ pending r.timer) es
    pub none_due : Each (λ e. now < e.deadline) (pending r.timer)

  pub Emptied-nothing :
      (now : ℕ) (t : S)
      → Valid t
      → Each (λ e. now < e.deadline) (pending t)
      → Emptied now (counter t) (pending t) (nothing t)
  Emptied-nothing now t v late = record {
    valid = v;
    due = Each-nil _;
    ordered = Pairwise.nil;
    count = refl;
    kept = Perm.rfl;
    none_due = late;
  }

  -- a round that calls the earliest timer; how it counts does not matter
  pub Emptied-call :
      (now c n : ℕ) (e : Entry) (es : List Entry) (r : Updated S)
      → e.deadline ≤ now
      → Each (λ f. e.deadline ≤ f.deadline) es
      → Emptied now c es r
      → Emptied now c (e ∷ es) (record { fired = n; calls = e ∷ r.calls; timer = r.timer })
  Emptied-call now c n e es r due least d = record {
    valid = d.valid;
    due = Each-cons (λ f. le_prop) due d.due;
    ordered =
        Pairwise.cons (λ f m. least f ((Perm.mem_iff d.kept).0 (mem-append_left _ m))) d.ordered;
    count = d.count;
    kept = Perm.cons e d.kept;
    none_due = d.none_due;
  }

  pub Emptied-perm :
      (now c : ℕ) (es fs : List Entry) (r : Updated S)
      → Perm es fs
      → Emptied now c es r
      → Emptied now c fs r
  Emptied-perm now c es fs r p d = record {
    valid = d.valid;
    due = d.due;
    ordered = d.ordered;
    count = d.count;
    kept = Perm.trans d.kept p;
    none_due = d.none_due;
  }

  pub Emptied-QuietlyTicked :
      (now : ℕ) (t : S) (r : Updated S)
      → Emptied now (counter t) (pending t) r
      → QuietlyTicked Valid pending counter now t r
  Emptied-QuietlyTicked now t r d = record {
    valid = d.valid;
    due = d.due;
    count = d.count;
    kept = d.kept;
  }
