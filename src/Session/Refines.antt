-- ===== src/Session/Refines.antt =====
-- A session (src/TimerBase.h) with a scheduler that meets its contract, against the relation.
use mathlib.Core.List.Perm
use mathlib.Core.List.{mem-append_right}
use timer_benchmarks.Common.{
  ℕ, ◌+◌, ◌≤◌, ◌<◌, List, [], ◌∷◌, arith, Returns, value, Ends-bind, length, Each-perm, Each-cons,
}
use timer_benchmarks.Timer.{int_max}
use timer_benchmarks.Timer.Action.{IsQuiet-prop, Entry}
use timer_benchmarks.Timer.Contract.{Scheduler, Contract, AllQuiet, Each-without}
use timer_benchmarks.Session.{
  Call, start_call, cancel_call, update_call, Answer, AllTame, IsTame, Allows, may_start,
  may_cancel, may_update, Follows, stays, goes, answer, run_calls,
}

module _ (s : Scheduler) (Left : ℕ → List Entry → List Entry → Type 0) (k : Contract s Left) where
  open s use {State}
  open k use {Valid, pending, counter}

  -- one call
  record Answered (t : State) (call : Call) (r : Answer × State) : Type 0 where
    valid : Valid r.1
    quiet : AllQuiet (pending r.1)
    few : counter r.1 ≤ counter t + 1
    allowed : Allows Left (counter t) (pending t) call r.0 (counter r.1) (pending r.1)

  answer_allowed :
      (call : Call) (t : State)
      → Valid t
      → AllQuiet (pending t)
      → counter t < int_max
      → IsTame call
      → Returns (Answered t call) (answer s call t)
  unfolding answer
  answer_allowed (start_call clock duration action) t v q room (quiet, pos, short) =
      Ends-bind (k.accepted clock duration action t v room pos short) λ r d. value (record {
        valid = d.valid;
        quiet = Each-perm d.added (Each-cons (λ e. IsQuiet-prop e.action) quiet q);
        few = omega (arith, d.count);
        allowed = rw d.id (may_start d.count d.added);
      })
  answer_allowed (cancel_call id) t v q room tame = Ends-bind (k.cancelled id t v) λ r d.
      value (record {
        valid = d.valid;
        quiet = Each-perm d.removed (Each-without id q);
        few = omega (arith, d.count);
        allowed = rw d.count (may_cancel d.found d.removed);
      })
  answer_allowed (update_call now) t v q room tame =
      Ends-bind (k.quietly_ticked now t v q) λ r (d, left). value (record {
        valid = d.valid;
        quiet = λ e m. q e ((Perm.mem_iff d.kept).0 (mem-append_right r.calls m));
        few = omega (arith, d.count);
        allowed = rw d.count (may_update d.due d.kept left);
      })

  -- For a scheduler that meets the contract, a state in which the invariant holds and no pending
  -- action calls the scheduler, and calls that start only quiet actions with positive deadlines
  -- that fit an `int64_t`, with ids left for all of them: the calls return, the invariant holds
  -- after them, and the answers and the pending timers are those that the relation `Follows`
  -- allows, on lists of pending timers whose order does not count.
  pub session_refines :
      (calls : List Call) (t : State)
      → Valid t
      → AllQuiet (pending t)
      → counter t + length calls ≤ int_max
      → AllTame calls
      → Returns
          (λ r.
            Valid r.1 × Follows Left (counter t) (pending t) calls r.0 (counter r.1) (pending r.1))
          (run_calls s calls t)
  unfolding run_calls
  session_refines [] t v q room tame = value (v, stays)
  session_refines (c ∷ cs) t v q room (tame, rest) =
      Ends-bind (answer_allowed c t v q (omega arith) tame) λ r d.
        Ends-bind (session_refines cs r.1 d.valid d.quiet (omega (arith, d.few)) rest)
          λ r' (v', f). value (v', goes d.allowed f)
