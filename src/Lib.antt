-- ===== src/Lib.antt =====
-- Timer schedulers (src/TimerBase.h and its implementations). A scheduler starts a timer that expires
-- after some milliseconds, cancels a timer by its id, and, once per tick, calls the actions of the
-- timers that are due. An action may start and cancel timers of its own scheduler while Update runs.
--
-- The files, and the code that each models:
--   Timer            src/TimerBase.h, src/TimerBase.cpp: the counter of ids (`nextId` is next_id),
--                    deadlines (the sum in Start is expiry), and, in its children, expiry actions
--                    (Timer/Action), the unordered maps (Timer/Ids, Timer/Assoc), and the interface
--                    with the contract that a user relies on (Timer/Contract)
--   QuadHeap         src/QuadHeapTimer.cpp: siftupTimer (siftup), siftdownTimer (siftdown),
--                    deltimer0, deltimer
--   QuadTimer        src/QuadHeapTimer.h, src/QuadHeapTimer.cpp: class QuadHeapTimer
--   RbTimer          src/RBTreeTimer.h, src/RBTreeTimer.cpp: class RBTreeTimer
--   PqHeap, PqTimer  src/PriorityQueueTimer.h, src/PriorityQueueTimer.cpp: siftupTimer,
--                    siftdownTimer and removeTimer, and class PriorityQueueTimer
--   HashedBucket     src/HashedWheelBucket.h, src/HashedWheelBucket.cpp: the doubly linked list of a
--                    bucket (remove_timeout is Remove)
--   HashedTimer      src/HashedWheelTimer.h, src/HashedWheelTimer.cpp: class HashedWheelTimer
--   ListImpl         src/list_impl.h: the circular lists of the hierarchical wheel, in a memory of
--                    list heads (`__list_add` is list_add, `__list_del` is list_del)
--   TimerList        src/timer_list.h, src/timer_list.cpp: the hierarchical wheel (`__mod_timer` is
--                    mod_timer_if); run_timers is in TimerList/Ticks
--   HhTimer          src/HHWheelTimer.h, src/HHWheelTimer.cpp: class HHWheelTimer, which is a client
--                    of TimerList: handleTimerExpired is the function of its timers
--   Factory          src/TimerBase.h, src/TimerBase.cpp: CreateTimer
--   Clock            src/Clock.h, src/Clock.cpp: the clock that is moved by TimeFly
--   Logging          src/Logging.h, src/Logging.cpp: messages, handlers, CHECK and its variants
--   CmdFlag          src/CmdFlag.h: flags with values from the environment
--   Session          sequences of calls on a scheduler, against a relation on lists of pending timers
--   Common           lists as arrays, Boolean tests, predicates on lists, integers, texts, and the
--                    monad of runs
--   Tests            runs on concrete inputs
-- Start, Cancel, Update, Size and the constructors are start, cancel, update, size and create of each
-- scheduler's file.
--
-- A run returns, stops with a fault (a signed overflow, a failed CHECK or assert, an index out of
-- range, a null or poisoned pointer, a pointer to no object) or runs out of fuel. A theorem that says
-- that a call returns or ends rules the last of these out. The sift loops have as much fuel as the
-- vector has entries. The loop of Update has two rounds more than there are timers: a round removes a
-- timer whose id is at most the counter before, and of the timers that actions start only one can
-- have such an id. ExpireTimeouts has one round more than there are timers. Update of HHWheelTimer
-- takes the number of ticks and the fuel of the loops in a tick as arguments: a tick moves the wheel's
-- clock by one, so that `now + 1 - clock` ticks are enough, and a loop over a list takes one round
-- more than the list has timers.
--
-- The memory of the hierarchical wheel has the heads of its five vectors at the addresses 0 to 511,
-- the two list heads on the stack at 512 and 513, the poison address 514, and the timer with id `k`
-- at 515 + k. The other heads of a stack frame and other objects are not in it.
--
-- An action is the list of the Start and Cancel calls that it makes, each Start with the reading of
-- the clock at that time, or the empty function. Times are milliseconds since the epoch, as natural
-- numbers: a clock before 1970 is left out, but for Clock itself, whose offset, steps and readings are
-- integers. Ids and deadlines that pass the largest `int` or `int64_t` are overflows. Nodes stand in
-- the vectors themselves, since every node has its own id; where the code compares addresses
-- (PqHeap), the addresses are a parameter. So are `localtime` and the formatting in Clock, the text of
-- a number in Logging, and the environment in CmdFlag.
--
-- Not modelled: Clock::GetNowTickCount, which only reads a clock of the system; the macros of
-- src/Preprocessor.h; flags of type double; the mutex in Logging; test programs and benchmarks; the
-- copies of googletest and benchmark; an action that calls Update, or that throws.
pub mod ListImpl
pub mod Common
pub mod Timer
pub mod TimerList
pub mod HhTimer
pub mod Clock
pub mod Logging
pub mod CmdFlag
pub mod QuadHeap
pub mod QuadTimer
pub mod RbTimer
pub mod PqHeap
pub mod PqTimer
pub mod HashedBucket
pub mod HashedTimer
pub mod Factory
pub mod Session
pub mod Tests
