-- ===== src/TimerList.antt =====
-- src/timer_list.h and src/timer_list.cpp: the hierarchical wheel. One `tvec_base` is modelled, with
-- the timers that point to it; a timer is known by the address of its entry. The heads of the vectors
-- stand at the addresses 0 to 511 in the order of the struct's members, and the two lists that the
-- functions keep on the stack at 512 and 513. A failed assert is a failed check. Times are
-- not negative, so `idx < K` is `expires < timer_clk + K`.
pub mod Slot
pub mod Modify
pub mod Ticks
pub mod Wheel
pub mod Attach
pub mod Detach
pub mod Collect
pub mod Cascade
pub mod Stuck
pub mod Boundary
use timer_benchmarks.Common.{
  ℕ, zero, suc, ◌+◌, ◌-◌, ◌/◌, ◌%◌, Bool, true, false, not, Option, none, some, List, ◌++◌, [], ◌∷◌,
  Run, ok, out_of_fuel, fault, out_of_range, null_pointer, check_failed, overflow, require,
  from_option, ◌>>=◌, ◌>>◌, ltb, leb, ◌==◌, if◌then◌else◌,
}
use timer_benchmarks.Timer.{int64_max}
use timer_benchmarks.ListImpl.{
  ListHead, null_head, Memory, list_poison2, follow, list_entry, list_first_entry, write_next,
  write_prev, init_list_head, list_empty, list_replace_init, list_add_tail, list_del,
}

abbrev pub tvn_size : ℕ
tvn_size = 64

abbrev pub tvr_size : ℕ
tvr_size = 256

abbrev pub max_tval : ℕ
max_tval = 4294967295

-- the addresses of `base->tv1.vec + i` to `base->tv5.vec + i`, of `work_list` and of `tv_list`
abbrev pub tv1 : ℕ → ℕ
tv1 i = i

abbrev pub tv2 : ℕ → ℕ
tv2 i = 256 + i

abbrev pub tv3 : ℕ → ℕ
tv3 i = 320 + i

abbrev pub tv4 : ℕ → ℕ
tv4 i = 384 + i

abbrev pub tv5 : ℕ → ℕ
tv5 i = 448 + i

abbrev pub work_list : ℕ
work_list = 512

abbrev pub tv_list : ℕ
tv_list = 513

-- `struct timer_list` but for its entry: whether `base` and `function` are set
pub record TimerList : Type 0 where
  pub id : ℕ
  pub expires : ℕ
  pub base : Bool
  pub function : Bool

-- `struct tvec_base` with the entries and the allocated timers in memory
pub record TvecBase : Type 0 where
  pub running_timer : Option ℕ
  pub timer_clk : ℕ
  pub entries : Memory
  pub timers : ℕ → Option TimerList

-- `timer->...`
abbrev pub read_timer : ℕ → TvecBase → Run TimerList
read_timer timer b = from_option out_of_range (b.timers timer)

unfoldable pub write_timer : ℕ → Option TimerList → TvecBase → TvecBase
write_timer timer info b = record b { timers = λ a. if a == timer then info else b.timers a }

unfoldable pub timer_pending : ℕ → TvecBase → Bool
timer_pending timer b = elim (b.entries timer).next [ none ↦ false | some _ ↦ true ]

unfoldable pub time_after_eq : ℕ → ℕ → Bool
time_after_eq a b = leb b a

unfoldable time_after : ℕ → ℕ → Bool
time_after a b = ltb b a

abbrev time_before : ℕ → ℕ → Bool
time_before a b = time_after b a

abbrev time_before_eq : ℕ → ℕ → Bool
time_before_eq a b = time_after_eq b a

-- the vectors' part of init_timers: the heads before `n`, counted down
unfoldable pub init_vectors : ℕ → Memory → Memory
unfolding init_list_head
init_vectors zero h = h
init_vectors (suc j) h = init_list_head j (init_vectors j h)

unfoldable pub init_timers : ℕ → TvecBase → TvecBase
unfolding init_vectors
init_timers clock b = record b { timer_clk = clock; entries = init_vectors 512 b.entries }

-- `new_base` being the base of the model
unfoldable timer_set_base : ℕ → TvecBase → Run TvecBase
unfolding write_timer
timer_set_base timer b = do
  info ← read_timer timer b
  ok (write_timer timer (some (record info { base = true })) b)

-- `vec` of __internal_add_timer
unfoldable pub slot : ℕ → ℕ → ℕ
slot clk expires =
    if ltb expires (clk + 256)
    then tv1 (expires % 256)
    else if ltb expires (clk + 16384)
    then tv2 (expires / 256 % 64)
    else if ltb expires (clk + 1048576)
    then tv3 (expires / 16384 % 64)
    else if ltb expires (clk + 67108864)
    then tv4 (expires / 1048576 % 64)
    else if ltb expires clk
    then tv1 (clk % 256)
    else tv5 ((if ltb (clk + max_tval) expires then max_tval + clk else expires) / 67108864 % 64)

unfoldable pub internal_add_timer : ℕ → TvecBase → Run TvecBase
unfolding slot list_add_tail
internal_add_timer timer b = do
  info ← read_timer timer b
  entries ← list_add_tail timer (slot b.timer_clk info.expires) b.entries
  ok (record b { entries = entries })

unfoldable pub detach_timer : ℕ → Bool → TvecBase → Run TvecBase
unfolding list_del write_next write_prev
detach_timer timer clear_pending b = do
  h ← list_del (b.entries timer).prev (b.entries timer).next b.entries
  let h' = if clear_pending then write_next timer none h else h
  ok (record b { entries = write_prev timer (some list_poison2) h' })

abbrev pub detach_expired_timer : ℕ → TvecBase → Run TvecBase
detach_expired_timer timer b = detach_timer timer true b

unfoldable pub detach_if_pending : ℕ → Bool → TvecBase → Run (Bool × TvecBase)
unfolding timer_pending detach_timer
detach_if_pending timer clear_pending b =
    if timer_pending timer b
    then (do b' ← detach_timer timer clear_pending b; ok (true, b'))
    else ok (false, b)

-- the rest of __mod_timer, after the timer is detached
unfoldable pub rearm : ℕ → ℕ → TvecBase → Run TvecBase
unfolding write_timer internal_add_timer
rearm timer expires b = do
  info ← read_timer timer b
  _ ← require info.base null_pointer
  internal_add_timer timer (write_timer timer (some (record info { expires = expires })) b)

-- `__mod_timer`
unfoldable pub mod_timer_if : ℕ → ℕ → Bool → TvecBase → Run (Bool × TvecBase)
unfolding detach_if_pending rearm
mod_timer_if timer expires pending_only b = do
  info ← read_timer timer b
  _ ← require info.function check_failed
  (ret, b') ← detach_if_pending timer false b
  if ret
      then (do b'' ← rearm timer expires b'; ok (ret, b''))
      else if pending_only
      then ok (ret, b')
      else (do b'' ← rearm timer expires b'; ok (ret, b''))

unfoldable pub mod_timer_pending : ℕ → ℕ → TvecBase → Run (Bool × TvecBase)
unfolding mod_timer_if
mod_timer_pending timer expires b = mod_timer_if timer expires true b

unfoldable pub mod_timer : ℕ → ℕ → TvecBase → Run (Bool × TvecBase)
unfolding timer_pending mod_timer_if
mod_timer timer expires b = do
  info ← read_timer timer b
  if timer_pending timer b
      then (if info.expires == expires then ok (true, b) else mod_timer_if timer expires false b)
      else mod_timer_if timer expires false b

unfoldable pub add_timer : ℕ → TvecBase → Run TvecBase
unfolding timer_pending mod_timer
add_timer timer b = do
  _ ← require (not (timer_pending timer b)) check_failed
  info ← read_timer timer b
  (_, b') ← mod_timer timer info.expires b
  ok b'

unfoldable pub del_timer : ℕ → TvecBase → Run (Bool × TvecBase)
unfolding timer_pending detach_if_pending
del_timer timer b = if timer_pending timer b then detach_if_pending timer true b else ok (false, b)

-- the loop of migrate_timer_list, `new_base` being the base of the model
unfoldable pub migrate_timer_list : ℕ → ℕ → TvecBase → Run TvecBase
unfolding list_empty detach_timer follow timer_set_base internal_add_timer
migrate_timer_list zero head b = out_of_fuel
migrate_timer_list (suc fuel) head b = elim (list_empty head b.entries) [
  | true ↦ ok b
  | false ↦ do
    timer ← follow (list_first_entry head b.entries)
    b1 ← detach_timer timer false b
    b2 ← timer_set_base timer b1
    b3 ← internal_add_timer timer b2
    migrate_timer_list fuel head b3
]

-- the loop of cascade
unfoldable pub cascade_loop : ℕ → ℕ → Option ℕ → TvecBase → Run TvecBase
unfolding follow internal_add_timer
cascade_loop zero timer tmp b = out_of_fuel
cascade_loop (suc fuel) timer tmp b = elim (timer == tv_list) [
  | true ↦ ok b
  | false ↦ do
    timer' ← follow tmp
    let tmp' = list_entry (b.entries timer').next
    b' ← internal_add_timer timer' b
    cascade_loop fuel timer' tmp' b'
]

-- `tv` is the address of the vector
unfoldable pub cascade : ℕ → ℕ → ℕ → TvecBase → Run (ℕ × TvecBase)
unfolding list_replace_init follow cascade_loop
cascade fuel tv index b = do
  h ← list_replace_init (tv + index) tv_list b.entries
  timer ← follow (list_entry (h tv_list).next)
  let tmp = list_entry (h timer).next
  b' ← cascade_loop fuel timer tmp (record b { entries = h })
  ok (index, b')
