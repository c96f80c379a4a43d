-- ===== src/Timer/Contract.antt =====
-- What a scheduler promises (the virtual methods of TimerBase in src/TimerBase.h), on the timers
-- that a user waits for: a list of entries whose order means nothing.
use timer_benchmarks.Common.{
  ℕ, ◌+◌, ◌≤◌, ◌<◌, ◌≡◌, ◌⊎◌, List, [], ◌∷◌, ◌++◌, map, Perm, refl, arith, Bool, false, not, Run,
  Fault, overflow, check_failed, Ends, Returns, ◌==◌, Each,
}
use timer_benchmarks.Timer.{first_id, int_max, int64_max}
use timer_benchmarks.Timer.Action.{Action, IsQuiet, Entry, Updated}
use timer_benchmarks.Timer.Ids.{select, select-perm, mem-select, contains}

-- the class, with the methods' state passed along
pub record Scheduler : Type 1 where
  pub State : Type 0
  pub create : State
  pub start : ℕ → ℕ → Action → State → Run (ℕ × State)
  pub cancel : ℕ → State → Run (Bool × State)
  pub update : ℕ → State → Run (Updated State)

-- the only faults of a call: those of a Start, by the user or by an action
abbrev pub IsStartFault : Fault → Type 0
IsStartFault e = (e ≡ overflow) ⊎ (e ≡ check_failed)

abbrev pub keys : List Entry → List ℕ
keys = map (λ e. e.id)

-- the entries with another id
unfoldable pub without : ℕ → List Entry → List Entry
unfolding select
without id = select (λ e. not (e.id == id))

pub without-absent : (id : ℕ) (es : List Entry) → contains id (keys es) ≡ false → without id es ≡ es
unfolding without select contains
without-absent id [] h = refl
without-absent id (e ∷ es) h = ground (arith, without-absent id es)

pub without-cons_self :
    (e : Entry) (es : List Entry) → contains e.id (keys es) ≡ false → without e.id (e ∷ es) ≡ es
unfolding without select
without-cons_self e es h = ground (arith, without-absent e.id es)

pub without-perm : (id : ℕ) {es fs : List Entry} → Perm es fs → Perm (without id es) (without id fs)
unfolding without
without-perm id p = select-perm _ p

abbrev pub AllQuiet : List Entry → Type 0
AllQuiet = Each (λ e. IsQuiet e.action)

pub Each-without :
    {P : Entry → Type 0} (id : ℕ) {es : List Entry} → Each P es → Each P (without id es)
unfolding without
Each-without id h e m = h e (mem-select _ e _ m).0

module _ {S : Type 0} (Valid : S → Type 0) (pending : S → List Entry) (counter : S → ℕ) where
  -- Start returns the counter as the id, and adds one timer.
  pub record Started (clock duration : ℕ) (action : Action) (t : S) (r : ℕ × S) : Type 0 where
    pub id : r.0 ≡ counter t
    pub valid : Valid r.1
    pub count : counter r.1 ≡ counter t + 1
    pub added :
        Perm
          (pending r.1)
          (record { id = counter t; deadline = clock + duration; action = action } ∷ pending t)

  -- Cancel tells whether the id is pending, and takes that timer away.
  pub record Cancelled (id : ℕ) (t : S) (r : Bool × S) : Type 0 where
    pub found : r.0 ≡ contains id (keys (pending t))
    pub valid : Valid r.1
    pub count : counter r.1 ≡ counter t
    pub removed : Perm (pending r.1) (without id (pending t))

  -- Update calls only timers that are due.
  pub record Ticked (now : ℕ) (t : S) (r : Updated S) : Type 0 where
    pub valid : Valid r.timer
    pub due : Each (λ e. e.deadline ≤ now) r.calls
    pub count : counter t ≤ counter r.timer

  -- Where no action calls the scheduler, the called timers leave and the others stay.
  pub record QuietlyTicked (now : ℕ) (t : S) (r : Updated S) : Type 0 where
    pub valid : Valid r.timer
    pub due : Each (λ e. e.deadline ≤ now) r.calls
    pub count : counter r.timer ≡ counter t
    pub kept : Perm (r.calls ++ pending r.timer) (pending t)

-- `Left now calls rest` is what a scheduler promises of an Update besides: of the timers that it
-- calls, in order, and of those that stay.
pub record Contract (s : Scheduler) (Left : ℕ → List Entry → List Entry → Type 0) : Type 1 where
  pub Valid : s.State → Type 0
  pub pending : s.State → List Entry
  pub counter : s.State → ℕ
  pub created : Valid s.create × (pending s.create ≡ []) × (counter s.create ≡ first_id)
  pub known : (t : s.State) → Valid t → Each (λ e. e.id < counter t) (pending t)
  pub started :
      (clock duration : ℕ) (action : Action) (t : s.State)
      → Valid t
      → Ends IsStartFault
          (Started Valid pending counter clock duration action t)
          (s.start clock duration action t)
  -- with room for the id and the deadline Start returns
  pub accepted :
      (clock duration : ℕ) (action : Action) (t : s.State)
      → Valid t
      → counter t < int_max
      → 0 < clock + duration
      → clock + duration ≤ int64_max
      → Returns
          (Started Valid pending counter clock duration action t)
          (s.start clock duration action t)
  pub cancelled :
      (id : ℕ) (t : s.State)
      → Valid t
      → Returns (Cancelled Valid pending counter id t) (s.cancel id t)
  pub ticked :
      (now : ℕ) (t : s.State)
      → Valid t
      → Ends IsStartFault (Ticked Valid pending counter now t) (s.update now t)
  pub quietly_ticked :
      (now : ℕ) (t : s.State)
      → Valid t
      → AllQuiet (pending t)
      → Returns
          (λ r. QuietlyTicked Valid pending counter now t r × Left now r.calls (pending r.timer))
          (s.update now t)
