-- ===== src/Timer/Allows.antt =====
-- Which faults the Start calls of an action may lead to: the rules of QuadHeapTimer::Start in
-- src/QuadHeapTimer.cpp, for a whole action, the actions that it starts included.
use timer_benchmarks.Common.{
  ℕ, ◌+◌, ◌≡◌, refl, arith, Bool, true, false, ◌&&◌, Run, Fault, overflow, check_failed,
  out_of_range, null_pointer, inl, inr, Ends, value, stop, Ends-bind, if◌then◌else◌, ◌==◌,
}
use timer_benchmarks.Timer.Contract.{IsStartFault}
use timer_benchmarks.Timer.Action.{
  Action, Body, null, run, finish, start_timer, cancel_timer, invoke, perform,
}

-- A Start may overflow, by its id or its deadline, and fails the CHECK at the deadline 0.
abbrev pub allows_start : (Fault → Bool) → ℕ → ℕ → Bool
allows_start allowed clock duration =
    allowed overflow && (if clock + duration == 0 then allowed check_failed else true)

unfoldable mutual
  -- whether all faults that the action's Starts may end in are allowed
  pub allows : (Fault → Bool) → Action → Bool
  allows allowed null = true
  allows allowed (run body) = allows_body allowed body

  pub allows_body : (Fault → Bool) → Body → Bool
  allows_body allowed finish = true
  allows_body allowed (start_timer clock duration action rest) =
      allows_start allowed clock duration && (allows allowed action && allows_body allowed rest)
  allows_body allowed (cancel_timer id rest) = allows_body allowed rest

abbrev pub IsAllowed : (Fault → Bool) → Fault → Type 0
IsAllowed allowed e = allowed e ≡ true

-- the faults of a Start
abbrev pub is_start_fault : Fault → Bool
is_start_fault overflow = true
is_start_fault check_failed = true
is_start_fault out_of_range = false
is_start_fault null_pointer = false

mutual
  unfolding allows

  pub allows-start_faults : (action : Action) → allows is_start_fault action ≡ true
  allows-start_faults null = refl
  allows-start_faults (run body) = allows_body-start_faults body

  allows_body-start_faults : (body : Body) → allows_body is_start_fault body ≡ true
  allows_body-start_faults finish = refl
  allows_body-start_faults (start_timer clock duration action rest) =
      ground (arith, allows-start_faults action, allows_body-start_faults rest)
  allows_body-start_faults (cancel_timer id rest) = allows_body-start_faults rest

start_fault : (e : Fault) → is_start_fault e ≡ true → IsStartFault e
start_fault overflow h = inl refl
start_fault check_failed h = inr refl
start_fault out_of_range h = absurd (ground (arith, h))
start_fault null_pointer h = absurd (ground (arith, h))

pub Ends-start_faults {ℓ κ} :
    {A : Type ℓ} {P : A → Type κ} {run : Run A}
    → Ends (IsAllowed is_start_fault) P run
    → Ends IsStartFault P run
Ends-start_faults (value p) = value p
Ends-start_faults (stop h) = stop (start_fault _ h)

pub both : (a b : Bool) → a && b ≡ true → (a ≡ true) × (b ≡ true)
both false b h = absurd (ground (arith, h))
both true b h = (refl, h)

module _ {ℓ κ} {S : Type ℓ} (start : ℕ → ℕ → Action → S → Run (ℕ × S))
    (cancel : ℕ → S → Run (Bool × S)) (allowed : Fault → Bool) (Inv : S → Type κ)
    (keep_start : (clock duration : ℕ) (action : Action) (s : S)
      → allows_start allowed clock duration ≡ true
      → allows allowed action ≡ true
      → Inv s
      → Ends (IsAllowed allowed) (λ r. Inv r.1) (start clock duration action s))
    (keep_cancel : (id : ℕ) (s : S)
      → Inv s
      → Ends (IsAllowed allowed) (λ r. Inv r.1) (cancel id s)) where
  perform-Allowed :
      (body : Body) (s : S)
      → allows_body allowed body ≡ true
      → Inv s
      → Ends (IsAllowed allowed) Inv (perform start cancel body s)
  unfolding perform allows
  perform-Allowed finish s h v = value v
  perform-Allowed (start_timer clock duration action rest) s h v =
      let (here, there) = both (allows_start allowed clock duration) _ h in
      let (inside, after) = both (allows allowed action) _ there in
      Ends-bind (keep_start clock duration action s here inside v)
        λ r w. perform-Allowed rest r.1 after w
  perform-Allowed (cancel_timer id rest) s h v =
      Ends-bind (keep_cancel id s v) λ r w. perform-Allowed rest r.1 h w

  -- An action keeps what Start and Cancel keep.
  pub invoke-Allowed :
      (action : Action) (s : S)
      → allows allowed action ≡ true
      → Inv s
      → Ends (IsAllowed allowed) Inv (invoke start cancel action s)
  unfolding invoke allows
  invoke-Allowed null s h v = value v
  invoke-Allowed (run body) s h v = perform-Allowed body s h v
