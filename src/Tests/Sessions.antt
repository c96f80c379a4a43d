-- ===== src/Tests/Sessions.antt =====
-- A session of four calls.
use timer_benchmarks.Common.{◌*◌, List, [], ◌∷◌, Returns, arith}
use timer_benchmarks.Timer.Action.{run, finish}
use timer_benchmarks.Session.{Call, start_call, cancel_call, update_call, AllTame, run_calls}
use timer_benchmarks.Session.Agree.{IsPrompt, AllSame}
use timer_benchmarks.Session.Schedulers.{quad_scheduler, Anything, pq_scheduler, rb_scheduler}
use timer_benchmarks.Session.Runs.{
  AfterCalls, quad_scheduler-Follows, rb_scheduler-Follows, pq_scheduler-Follows, quad_rb_agree,
}
use timer_benchmarks.QuadTimer
use timer_benchmarks.PqTimer
use timer_benchmarks.RbTimer

abbrev calls : List Call
calls =
    start_call 100 10 (run finish)
    ∷ start_call 100 5 (run finish)
    ∷ cancel_call 2020
    ∷ update_call 107
    ∷ []

calls-AllTame : AllTame calls
calls-AllTame = ((tt, omega arith, omega arith), ((tt, omega arith, omega arith), (tt, (tt, tt))))

quad_scheduler-Follows_example :
    Returns
      (AfterCalls IsPrompt QuadTimer.Calls.counter QuadTimer.pending calls)
      (run_calls quad_scheduler calls QuadTimer.create)
quad_scheduler-Follows_example = quad_scheduler-Follows calls (omega arith) calls-AllTame

rb_scheduler-Follows_example :
    Returns
      (AfterCalls IsPrompt RbTimer.Calls.counter RbTimer.pending calls)
      (run_calls rb_scheduler calls RbTimer.create)
rb_scheduler-Follows_example = rb_scheduler-Follows calls (omega arith) calls-AllTame

pq_scheduler-Follows_example :
    Returns
      (AfterCalls Anything PqTimer.Calls.counter PqTimer.pending calls)
      (run_calls (pq_scheduler (λ id. 16 * id)) calls PqTimer.create)
pq_scheduler-Follows_example =
    pq_scheduler-Follows calls (omega arith) calls-AllTame (λ id. 16 * id)

quad_rb_agree_example :
    Returns
      (λ a. Returns (λ b. AllSame a.0 b.0) (run_calls rb_scheduler calls RbTimer.create))
      (run_calls quad_scheduler calls QuadTimer.create)
quad_rb_agree_example = quad_rb_agree calls (omega arith) calls-AllTame
