-- ===== src/HhTimer.antt =====
-- src/HHWheelTimer.h and src/HHWheelTimer.cpp: the scheduler over the hierarchical wheel. The timer
-- with id `k` is allocated at the address `515 + k`; ids are handed out once.
pub mod Valid
pub mod Create
pub mod Calls
pub mod Expire
pub mod Ticks
pub mod Rounds
pub mod Deadlines
pub mod OnTime
pub mod Started
pub mod Sequence
pub mod Long
use timer_benchmarks.Common.{
  ℕ, ◌+◌, ◌-◌, ◌%◌, ◌^◌, Bool, true, false, Option, none, some, List, [], ◌∷◌, Run, ok,
  out_of_range, require, from_option, ◌>>=◌, length, if◌then◌else◌, ◌==◌,
}
use timer_benchmarks.Timer.{next_id, expiry, first_id}
use timer_benchmarks.Timer.Action.{Action, null, Entry, Updated, invoke}
use timer_benchmarks.Timer.Assoc.{find, erase, assign}
use timer_benchmarks.ListImpl.{ListHead, null_head, Memory}
use timer_benchmarks.TimerList.{
  TimerList, TvecBase, read_timer, write_timer, init_timers, add_timer, del_timer,
}
use timer_benchmarks.TimerList.Ticks.{run_timers}

pub record HhWheelTimer : Type 0 where
  pub next_id : ℕ
  pub started_at : ℕ
  pub base : TvecBase
  pub ref : List (ℕ × ℕ)
  pub actions : List (ℕ × Action)

-- the address of the timer that `new timer_list()` gives to an id
abbrev pub address : ℕ → ℕ
address id = 515 + id

abbrev pub no_base : TvecBase
no_base = record {
  running_timer = none;
  timer_clk = 0;
  entries = λ a. null_head;
  timers = λ a. none;
}

unfoldable pub create : ℕ → HhWheelTimer
unfolding init_timers
create clock = record {
  next_id = first_id;
  started_at = clock;
  base = init_timers clock no_base;
  ref = [];
  actions = [];
}

-- `delete kv.second` for each entry of `ref_`
unfoldable pub free_timers : List (ℕ × ℕ) → TvecBase → TvecBase
unfolding write_timer
free_timers [] b = b
free_timers ((id, timer) ∷ ref) b = free_timers ref (write_timer timer none b)

unfoldable pub clear : HhWheelTimer → HhWheelTimer
unfolding init_timers free_timers
clear t = record t { base = free_timers t.ref (init_timers 0 t.base); ref = [] }

unfoldable pub size : HhWheelTimer → ℕ
size t = length t.ref

-- `new timer_list()` with its fields set: the entry is null
unfoldable pub new_timer : ℕ → ℕ → TvecBase → TvecBase
unfolding write_timer
new_timer id expires b =
    let timer = address id in
    let info : TimerList = record { id = id; expires = expires; base = true; function = true } in
    write_timer timer (some info)
      (record b { entries = λ a. if a == timer then null_head else b.entries a })

unfoldable pub start : ℕ → ℕ → Action → HhWheelTimer → Run (ℕ × HhWheelTimer)
unfolding new_timer add_timer
start clock duration action t = do
  (id, counter) ← next_id t.next_id
  expires ← expiry clock duration
  base ← add_timer (address id) (new_timer id expires t.base)
  ok (
    id,
    record t {
      next_id = counter;
      base = base;
      ref = assign id (address id) t.ref;
      actions = assign id action t.actions;
    },
  )

-- Cancel from where the timer is found; `delete timer` frees it
unfoldable pub drop_timer : ℕ → ℕ → HhWheelTimer → Run HhWheelTimer
unfolding del_timer write_timer
drop_timer id timer t = do
  (_, b) ← del_timer timer t.base
  _ ← read_timer timer b
  ok (record t {
    base = write_timer timer none b;
    ref = erase id t.ref;
    actions = erase id t.actions;
  })

unfoldable pub cancel : ℕ → HhWheelTimer → Run (Bool × HhWheelTimer)
unfolding drop_timer
cancel timer_id t = elim (find timer_id t.ref) [
  | none ↦ ok (false, t)
  | some timer ↦ do t' ← drop_timer timer_id timer t; ok (true, t')
]

unfoldable pub find_and_del_action : ℕ → HhWheelTimer → Action × HhWheelTimer
find_and_del_action id t = elim (find id t.actions) [
  | some action ↦ (action, record t { actions = erase id t.actions })
  | none ↦ (null, t)
]

unfoldable pub handle_timer_expired : ℕ → HhWheelTimer → Run (Entry × HhWheelTimer)
unfolding find_and_del_action cancel invoke
handle_timer_expired timer t = do
  info ← read_timer timer t.base
  let found = find_and_del_action info.id t
  (_, t1) ← cancel info.id found.1
  t2 ← invoke start cancel found.0 t1
  ok (record { id = info.id; deadline = info.expires; action = found.0 }, t2)

abbrev pub with_base : TvecBase → HhWheelTimer → HhWheelTimer
with_base b t = record t { base = b }

unfoldable pub update : ℕ → ℕ → ℕ → HhWheelTimer → Run (Updated HhWheelTimer)
unfolding run_timers handle_timer_expired
update rounds fuel ticks t =
    run_timers (λ s. s.base) with_base handle_timer_expired rounds fuel ticks t
