-- ===== src/Session.antt =====
-- A user's session with a scheduler: calls of Start, Cancel and Update (src/TimerBase.h) one after
-- another, and what a user may rely on, as a relation on lists of pending timers.
pub mod Refines
pub mod Agree
pub mod Schedulers
pub mod Runs
use mathlib.Core.List.Perm
use timer_benchmarks.Common.{
  ℕ, zero, suc, ◌+◌, ◌≤◌, ◌<◌, ◌≡◌, List, [], ◌∷◌, ◌++◌, Perm, Bool, Run, ok, ◌>>=◌, Each, length,
}
use timer_benchmarks.Timer.{int64_max}
use timer_benchmarks.Timer.Action.{Action, IsQuiet, Entry}
use timer_benchmarks.Timer.Ids.{contains}
use timer_benchmarks.Timer.Contract.{Scheduler, keys, without}

pub data Call : Type 0 where
  start_call : ℕ → ℕ → Action → Call
  cancel_call : ℕ → Call
  update_call : ℕ → Call

-- what a call tells: an id, whether the id was known, the timers that were called
pub data Answer : Type 0 where
  given : ℕ → Answer
  known : Bool → Answer
  called : List Entry → Answer

-- an action that does not call the scheduler, and a deadline that is neither zero nor too large
abbrev pub IsTame : Call → Type 0
IsTame (start_call clock duration action) =
    IsQuiet action × (0 < clock + duration) × (clock + duration ≤ int64_max)
IsTame (cancel_call id) = Unit
IsTame (update_call now) = Unit

abbrev pub AllTame : List Call → Type 0
AllTame [] = Unit
AllTame (c ∷ cs) = IsTame c × AllTame cs

-- `Left` is what the scheduler promises of an Update besides.
module _ (Left : ℕ → List Entry → List Entry → Type 0) where
  -- from the counter `c` and the pending timers `es` a call may give the answer, and lead to others
  pub data Allows (c : ℕ) (es : List Entry) : Call → Answer → ℕ → List Entry → Type 0 where
    may_start :
        {clock duration : ℕ} {action : Action} {c' : ℕ} {fs : List Entry}
        → c' ≡ c + 1
        → Perm fs (record { id = c; deadline = clock + duration; action = action } ∷ es)
        → Allows c es (start_call clock duration action) (given c) c' fs
    may_cancel :
        {id : ℕ} {b : Bool} {fs : List Entry}
        → b ≡ contains id (keys es)
        → Perm fs (without id es)
        → Allows c es (cancel_call id) (known b) c fs
    may_update :
        {now : ℕ} {calls fs : List Entry}
        → Each (λ e. e.deadline ≤ now) calls
        → Perm (calls ++ fs) es
        → Left now calls fs
        → Allows c es (update_call now) (called calls) c fs

  -- so for several calls, one after another
  pub data Follows : ℕ → List Entry → List Call → List Answer → ℕ → List Entry → Type 0 where
    stays : {c : ℕ} {es : List Entry} → Follows c es [] [] c es
    goes :
        {c c' c'' : ℕ} {es fs gs : List Entry} {call : Call} {calls : List Call} {answer : Answer}
        {answers : List Answer}
        → Allows c es call answer c' fs
        → Follows c' fs calls answers c'' gs
        → Follows c es (call ∷ calls) (answer ∷ answers) c'' gs

module _ (s : Scheduler) where
  open s use {State, start, cancel, update}

  unfoldable pub answer : Call → State → Run (Answer × State)
  answer (start_call clock duration action) t = do
    (id, t') ← start clock duration action t
    ok (given id, t')
  answer (cancel_call id) t = do (found, t') ← cancel id t; ok (known found, t')
  answer (update_call now) t = do r ← update now t; ok (called r.calls, r.timer)

  unfoldable pub run_calls : List Call → State → Run (List Answer × State)
  unfolding answer
  run_calls [] t = ok ([], t)
  run_calls (c ∷ cs) t = do (a, t') ← answer c t; (as', t'') ← run_calls cs t'; ok (a ∷ as', t'')
