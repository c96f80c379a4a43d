-- ===== src/Factory.antt =====
-- src/TimerBase.cpp, CreateTimer: the schedulers behind the interface.
use timer_benchmarks.Common.{ℕ, Option, none, some, ◌==◌, if◌then◌else◌}
use timer_benchmarks.Timer.{
  TimerSchedType, timer_priority_queue, timer_quad_heap, timer_rbtree, timer_hashed_wheel,
  timer_hh_wheel,
}
use timer_benchmarks.QuadTimer
use timer_benchmarks.RbTimer
use timer_benchmarks.PqTimer
use timer_benchmarks.HashedTimer
use timer_benchmarks.HhTimer

-- the values of the enumeration
unfoldable pub type_code : TimerSchedType → ℕ
type_code timer_priority_queue = 1
type_code timer_quad_heap = 2
type_code timer_rbtree = 3
type_code timer_hashed_wheel = 4
type_code timer_hh_wheel = 5

-- an object that a `TimerBase*` points to
pub data AnyTimer : Type 0 where
  priority_queue : PqTimer.PriorityQueueTimer → AnyTimer
  quad_heap : QuadTimer.QuadHeapTimer → AnyTimer
  rbtree : RbTimer.RbTreeTimer → AnyTimer
  hashed_wheel : HashedTimer.HashedWheelTimer → AnyTimer
  hh_wheel : HhTimer.HhWheelTimer → AnyTimer

-- `Type()` of each class
abbrev priority_queue_type : TimerSchedType
priority_queue_type = timer_priority_queue

abbrev quad_heap_type : TimerSchedType
quad_heap_type = timer_quad_heap

abbrev rbtree_type : TimerSchedType
rbtree_type = timer_rbtree

abbrev hashed_wheel_type : TimerSchedType
hashed_wheel_type = timer_hashed_wheel

abbrev hh_wheel_type : TimerSchedType
hh_wheel_type = timer_hh_wheel

-- the call of the virtual `Type()`
unfoldable pub timer_type : AnyTimer → TimerSchedType
timer_type (priority_queue t) = priority_queue_type
timer_type (quad_heap t) = quad_heap_type
timer_type (rbtree t) = rbtree_type
timer_type (hashed_wheel t) = hashed_wheel_type
timer_type (hh_wheel t) = hh_wheel_type

-- `Size()`
unfoldable pub timer_size : AnyTimer → ℕ
unfolding PqTimer.size QuadTimer.size RbTimer.size HashedTimer.size HhTimer.size
timer_size (priority_queue t) = PqTimer.size t
timer_size (quad_heap t) = QuadTimer.size t
timer_size (rbtree t) = RbTimer.size t
timer_size (hashed_wheel t) = HashedTimer.size t
timer_size (hh_wheel t) = HhTimer.size t

-- by the value of the enumeration, and the two readings of the clock that a constructor may make
unfoldable pub create_timer : ℕ → ℕ → ℕ → Option AnyTimer
unfolding PqTimer.create QuadTimer.create RbTimer.create HashedTimer.create HhTimer.create
create_timer sched_type clock clock' =
    if sched_type == 1
    then some (priority_queue PqTimer.create)
    else if sched_type == 2
    then some (quad_heap QuadTimer.create)
    else if sched_type == 3
    then some (rbtree RbTimer.create)
    else if sched_type == 4
    then some (hashed_wheel (HashedTimer.create clock clock'))
    else if sched_type == 5
    then some (hh_wheel (HhTimer.create clock))
    else none
