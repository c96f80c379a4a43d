-- ===== src/Session/Schedulers.antt =====
-- The schedulers of src/QuadHeapTimer.cpp, src/RBTreeTimer.cpp and src/PriorityQueueTimer.cpp as
-- instances of the interface, and their contracts.
use mathlib.Core.List.Perm
use mathlib.Core.List.{Pairwise, Nodup-nil}
use native.Mathlib.Bridge.{le_prop}
use timer_benchmarks.Common.{ℕ, ◌≡◌, refl, List, [], Each-nil, Ends-map, arith}
use timer_benchmarks.Timer.{first_id}
use timer_benchmarks.Timer.Action.{Entry}
use timer_benchmarks.Timer.Emptied.{Emptied-QuietlyTicked}
use timer_benchmarks.Timer.Contract.{Scheduler, Contract}
use timer_benchmarks.QuadTimer
use timer_benchmarks.QuadTimer.{QuadHeapTimer}
use timer_benchmarks.RbTimer
use timer_benchmarks.RbTimer.{RbTreeTimer}
use timer_benchmarks.PqTimer
use timer_benchmarks.PqTimer.{PriorityQueueTimer}
use timer_benchmarks.Timer.Ids.{select}
use timer_benchmarks.Timer.Assoc.{find}
use timer_benchmarks.Session.Agree.{IsPrompt}

abbrev pub quad_scheduler : Scheduler
quad_scheduler = record {
  State = QuadHeapTimer;
  create = QuadTimer.create;
  start = QuadTimer.start;
  cancel = QuadTimer.cancel;
  update = QuadTimer.update;
}

pub quad_create-IsValid : QuadTimer.Valid.IsValid QuadTimer.create
unfolding QuadTimer.create select
quad_create-IsValid = record {
  heap = λ c pos inside. absurd (omega arith);
  positive = Each-nil _;
  fresh = Each-nil _;
  distinct = Nodup-nil;
  refs = Perm.rfl;
}

pub quad_create-pending :
    (QuadTimer.pending QuadTimer.create ≡ [])
    × (QuadTimer.Calls.counter QuadTimer.create ≡ first_id)
unfolding QuadTimer.create select
quad_create-pending = (refl, refl)

abbrev pub quad_contract : Contract quad_scheduler IsPrompt
quad_contract = record {
  Valid = QuadTimer.Valid.IsValid;
  pending = QuadTimer.pending;
  counter = QuadTimer.Calls.counter;
  created = (quad_create-IsValid, quad_create-pending.0, quad_create-pending.1);
  known = λ q v. QuadTimer.Quiet.Each-entries (λ e. le_prop) q.timers v.fresh;
  started = λ clock duration action q v. QuadTimer.Calls.start_adds q clock duration action v;
  accepted = λ clock duration action q v room pos short.
      QuadTimer.Calls.quad_start_accepts q clock duration action v room pos short;
  cancelled = λ id q v. QuadTimer.Calls.quad_cancel_removes id q v;
  ticked = QuadTimer.Tick.update_ticks;
  quietly_ticked = λ now q v quiet.
      Ends-map (QuadTimer.Quiet.update_empties now q v quiet)
        λ r d. (Emptied-QuietlyTicked _ _ _ now q r d, (d.ordered, d.none_due));
}

abbrev pub rb_scheduler : Scheduler
rb_scheduler = record {
  State = RbTreeTimer;
  create = RbTimer.create;
  start = RbTimer.start;
  cancel = RbTimer.cancel;
  update = RbTimer.update;
}

pub rb_create-IsValid : RbTimer.Valid.IsValid RbTimer.create
unfolding RbTimer.create find
rb_create-IsValid = record {
  sorted = Pairwise.nil;
  fresh = Each-nil _;
  refs = Each-nil _;
  known = λ id key e. absurd (ground arith);
}

pub rb_create-pending :
    (RbTimer.pending RbTimer.create ≡ []) × (RbTimer.Calls.counter RbTimer.create ≡ first_id)
unfolding RbTimer.create
rb_create-pending = (refl, refl)

abbrev pub rb_contract : Contract rb_scheduler IsPrompt
rb_contract = record {
  Valid = RbTimer.Valid.IsValid;
  pending = RbTimer.pending;
  counter = RbTimer.Calls.counter;
  created = (rb_create-IsValid, rb_create-pending.0, rb_create-pending.1);
  known = λ q v. RbTimer.Quiet.Each-entries (λ e. le_prop) q.timers v.fresh;
  started = λ clock duration action q v. RbTimer.Calls.start_adds q clock duration action v;
  accepted = λ clock duration action q v room pos short.
      RbTimer.Calls.rb_start_accepts q clock duration action v room short;
  cancelled = λ id q v. RbTimer.Calls.rb_cancel_removes id q v;
  ticked = RbTimer.Tick.update_ticks;
  quietly_ticked = λ now q v quiet.
      Ends-map (RbTimer.Quiet.update-Splits now q v quiet)
        λ r (d, split). (Emptied-QuietlyTicked _ _ _ now q r d, (d.ordered, d.none_due));
}

abbrev pub pq_scheduler : (ℕ → ℕ) → Scheduler
pq_scheduler addr = record {
  State = PriorityQueueTimer;
  create = PqTimer.create;
  start = PqTimer.start addr;
  cancel = PqTimer.cancel addr;
  update = PqTimer.update addr;
}

pub pq_create-IsValid : PqTimer.Valid.IsValid PqTimer.create
unfolding PqTimer.create
pq_create-IsValid = record {
  indexed = λ k inside. absurd (omega arith);
  fresh = Each-nil _;
  distinct = Nodup-nil;
  refs = Perm.rfl;
}

-- no promise beyond the contract's
abbrev pub Anything : ℕ → List Entry → List Entry → Type 0
Anything now calls rest = Unit

pub pq_create-pending :
    (PqTimer.pending PqTimer.create ≡ []) × (PqTimer.Calls.counter PqTimer.create ≡ first_id)
unfolding PqTimer.create
pq_create-pending = (refl, refl)

abbrev pub pq_contract : (addr : ℕ → ℕ) → Contract (pq_scheduler addr) Anything
pq_contract addr = record {
  Valid = PqTimer.Valid.IsValid;
  pending = PqTimer.pending;
  counter = PqTimer.Calls.counter;
  created = (pq_create-IsValid, pq_create-pending.0, pq_create-pending.1);
  known = λ q v. v.fresh;
  started = λ clock duration action q v. PqTimer.Calls.start_adds addr q clock duration action v;
  accepted = λ clock duration action q v room pos short.
      PqTimer.Calls.pq_start_accepts addr q clock duration action v room short;
  cancelled = λ id q v. PqTimer.Calls.pq_cancel_removes addr q id v;
  ticked = PqTimer.Tick.update_ticks addr;
  quietly_ticked =
      λ now q v quiet. Ends-map (PqTimer.Quiet.update_quiet addr now q v quiet) λ r d. (d, tt);
}
