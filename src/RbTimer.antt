-- ===== src/RbTimer.antt =====
-- src/RBTreeTimer.h and src/RBTreeTimer.cpp: the scheduler over a red-black tree. The tree is a
-- `std::multimap`, a sequence in the order of its keys; `ref_` is a `std::unordered_map`.
pub mod Order
pub mod Valid
pub mod Calls
pub mod Tick
pub mod Quiet
use timer_benchmarks.Common.{
  ℕ, zero, suc, ◌+◌, ◌≡◌, List, [], ◌∷◌, map, Bool, true, false, ◌||◌, Run, ok, out_of_fuel, ◌>>=◌,
  Option, none, some, ltb, ◌==◌, if◌then◌else◌, length,
}
use timer_benchmarks.Timer.{next_id, expiry, first_id}
use timer_benchmarks.Timer.Action.{Action, null, run, Entry, Updated, nothing, invoke}
use timer_benchmarks.Timer.Ids.{select}
use timer_benchmarks.Timer.Assoc.{find, erase, assign}

pub record NodeKey : Type 0 where
  pub id : ℕ
  pub deadline : ℕ

-- NodeKey::operator<. Of two equal deadlines the one with the larger id comes first.
unfoldable pub less : NodeKey → NodeKey → Bool
less a b = if a.deadline == b.deadline then ltb b.id a.id else ltb a.deadline b.deadline

-- an element of the multimap
abbrev pub Node : Type 0
Node = NodeKey × Action

-- `insert`: behind the elements whose keys are not greater
unfoldable pub insert : Node → List Node → List Node
insert x [] = x ∷ []
insert x (y ∷ ys) = if less x.0 y.0 then x ∷ y ∷ ys else y ∷ insert x ys

-- `erase(key)`: every element whose key is neither less nor greater goes
unfoldable pub erase_key : NodeKey → List Node → List Node
unfolding select
erase_key key = select (λ x. less key x.0 || less x.0 key)

pub record RbTreeTimer : Type 0 where
  pub next_id : ℕ
  pub timers : List Node
  pub ref : List (ℕ × NodeKey)

unfoldable pub create : RbTreeTimer
create = record { next_id = first_id; timers = []; ref = [] }

unfoldable pub clear : RbTreeTimer → RbTreeTimer
clear q = record q { timers = []; ref = [] }

unfoldable pub size : RbTreeTimer → ℕ
size q = length q.timers

unfoldable pub start : ℕ → ℕ → Action → RbTreeTimer → Run (ℕ × RbTreeTimer)
unfolding insert assign
start clock duration action q = do
  (id, counter) ← next_id q.next_id
  deadline ← expiry clock duration
  let key : NodeKey = record { id = id; deadline = deadline }
  ok (
    id,
    record { next_id = counter; timers = insert (key, action) q.timers; ref = assign id key q.ref },
  )

unfoldable pub cancel : ℕ → RbTreeTimer → Run (Bool × RbTreeTimer)
unfolding find erase erase_key
cancel id q = elim (find id q.ref) [
  | none ↦ ok (false, q)
  | some key ↦ ok (true, record q { timers = erase_key key q.timers; ref = erase id q.ref })
]

abbrev pub entry : Node → Entry
entry x = record { id = x.0.id; deadline = x.0.deadline; action = x.1 }

-- `fired++` stands under `if (action)`
abbrev pub count_call : Action → ℕ → ℕ
count_call null n = n
count_call (run body) n = n + 1

-- The `while` of Update. Its iterator stands at the first element whenever there is one.
pub update_loop : ℕ → ℕ → ℕ → RbTreeTimer → Run (Updated RbTreeTimer)
update_loop zero now max_id q = out_of_fuel
update_loop (suc fuel) now max_id q = elim q.timers [
  | [] ↦ ok (nothing q)
  | x ∷ _ ↦
      let fire : Run (Updated RbTreeTimer) = do
        q' ←
            invoke start cancel x.1
              (record q { timers = erase_key x.0 q.timers; ref = erase x.0.id q.ref })
        r ← update_loop fuel now max_id q'
        ok (record r { fired = count_call x.1 r.fired; calls = entry x ∷ r.calls })
      in if ltb now x.0.deadline
        then ok (nothing q)
        else if ltb max_id x.0.id
        then ok (nothing q)
        else fire
]

-- A round removes a timer whose id is at most `max_id`, and at most one such timer is added.
unfoldable pub update : ℕ → RbTreeTimer → Run (Updated RbTreeTimer)
unfolding update_loop
update now q =
    if length q.timers == 0
    then ok (nothing q)
    else update_loop (length q.timers + 2) now q.next_id q

abbrev pub pending : RbTreeTimer → List Entry
pending q = map entry q.timers
