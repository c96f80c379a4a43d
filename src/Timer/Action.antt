-- ===== src/Timer/Action.antt =====
-- Expiry actions. A `TimeoutAction` is user code; what a scheduler sees of it are the calls that it
-- makes on the scheduler while it runs, each with the clock's reading. Any run of an action makes a
-- finite sequence of such calls. An action that calls Update is left out.
use timer_benchmarks.Common.{
  ℕ, ◌≡◌, refl, List, [], Bool, Run, ok, ◌>>=◌, Ends, value, Ends-bind, Fault,
}

mutual
  -- an empty `std::function`, or one that can be called
  pub data Action : Type 0 where
    null : Action
    run : Body → Action

  -- the calls of an action, in order: Start(duration, action) at a clock reading, and Cancel(id)
  pub data Body : Type 0 where
    finish : Body
    start_timer : ℕ → ℕ → Action → Body → Body
    cancel_timer : ℕ → Body → Body

-- an action that makes no call on its scheduler
abbrev pub IsQuiet : Action → Type 0
IsQuiet null = Unit
IsQuiet (run finish) = Unit
IsQuiet (run (start_timer _ _ _ _)) = ⊥
IsQuiet (run (cancel_timer _ _)) = ⊥

pub IsQuiet-prop : (action : Action) → IsProp (IsQuiet action)
IsQuiet-prop null = λ p q. refl
IsQuiet-prop (run finish) = λ p q. refl
IsQuiet-prop (run (start_timer _ _ _ _)) = λ p q. absurd p
IsQuiet-prop (run (cancel_timer _ _)) = λ p q. absurd p

-- a timer as a scheduler's user knows it
pub record Entry : Type 0 where
  pub id : ℕ
  pub deadline : ℕ
  pub action : Action

-- what Update returns, the timers whose action it took, in order, and the scheduler after it
pub record Updated {ℓ} (S : Type ℓ) : Type ℓ where
  pub fired : ℕ
  pub calls : List Entry
  pub timer : S

-- the loop of Update before its first round
abbrev pub nothing {ℓ} : {S : Type ℓ} → S → Updated S
nothing s = record { fired = 0; calls = []; timer = s }

module _ {ℓ} {S : Type ℓ} (start : ℕ → ℕ → Action → S → Run (ℕ × S))
    (cancel : ℕ → S → Run (Bool × S)) where
  unfoldable pub perform : Body → S → Run S
  perform finish s = ok s
  perform (start_timer clock duration action rest) s = do
    (_, s') ← start clock duration action s
    perform rest s'
  perform (cancel_timer id rest) s = do (_, s') ← cancel id s; perform rest s'

  -- `if (action) { action(); }`
  unfoldable pub invoke : Action → S → Run S
  unfolding perform
  invoke null s = ok s
  invoke (run body) s = perform body s

  module _ {κ} (F : Fault → Type 0) (Inv : S → Type κ)
      (keep_start : (clock duration : ℕ) (action : Action) (s : S)
        → Inv s
        → Ends F (λ r. Inv r.1) (start clock duration action s))
      (keep_cancel : (id : ℕ) (s : S) → Inv s → Ends F (λ r. Inv r.1) (cancel id s)) where
    perform-Ends : (body : Body) (s : S) → Inv s → Ends F Inv (perform body s)
    unfolding perform
    perform-Ends finish s v = value v
    perform-Ends (start_timer clock duration action rest) s v =
        Ends-bind (keep_start clock duration action s v) λ r w. perform-Ends rest r.1 w
    perform-Ends (cancel_timer id rest) s v =
        Ends-bind (keep_cancel id s v) λ r w. perform-Ends rest r.1 w

    -- An action keeps what Start and Cancel keep.
    pub invoke-Ends : (action : Action) (s : S) → Inv s → Ends F Inv (invoke action s)
    unfolding invoke
    invoke-Ends null s v = value v
    invoke-Ends (run body) s v = perform-Ends body s v

  pub invoke-quiet : (action : Action) (s : S) → IsQuiet action → invoke action s ≡ ok s
  unfolding invoke
  invoke-quiet null s q = refl
  invoke-quiet (run finish) s q = refl
  invoke-quiet (run (start_timer _ _ _ _)) s q = absurd q
  invoke-quiet (run (cancel_timer _ _)) s q = absurd q
