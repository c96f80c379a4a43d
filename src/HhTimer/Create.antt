-- ===== src/HhTimer/Create.antt =====
-- src/HHWheelTimer.cpp: the constructor makes a wheel of empty lists.
use timer_benchmarks.Common.{
  ℕ, zero, suc, ◌≤◌, ◌<◌, ◌≢◌, inl, inr, refl, [], ◌==◌, Bool-cases, ==→≡, arith,
}
use timer_benchmarks.Timer.Assoc.{find}
use timer_benchmarks.ListImpl.{Memory, null_head, init_list_head}
use timer_benchmarks.ListImpl.Replace.{init_list_head-Ring}
use timer_benchmarks.ListImpl.Ring.{Ring}
use timer_benchmarks.TimerList.{init_vectors, init_timers}
use timer_benchmarks.HhTimer.{create}
use timer_benchmarks.HhTimer.Valid.{IsValid}

init_list_head-spares :
    (g : Memory) (j l : ℕ) → l ≢ j → Ring g l [] → Ring (init_list_head j g) l []
unfolding init_list_head
init_list_head-spares g j l ne r = record {
  chain = (ground (arith, r.chain.0), ground (arith, r.chain.1));
  distinct = r.distinct;
  sound = r.sound;
}

init_vectors-Ring : (n : ℕ) (h : Memory) (l : ℕ) → n ≤ 512 → l < n → Ring (init_vectors n h) l []
unfolding init_vectors
init_vectors-Ring zero h l small hl = absurd (omega arith)
init_vectors-Ring (suc j) h l small hl = elim (Bool-cases (l == j)) [
  | inl e ↦ rw (==→≡ l j e) (init_list_head-Ring (init_vectors j h) j (omega arith))
  | inr e ↦
      init_list_head-spares (init_vectors j h) j l (ground arith)
        (init_vectors-Ring j h l (omega arith) (ground arith))
]

pub create-IsValid : (clock : ℕ) → IsValid 512 (create clock) (λ l. []) (λ x. 514)
unfolding create init_timers find
create-IsValid clock = record {
  wheel = record {
    rings = λ l hl. init_vectors-Ring 512 (λ a. null_head) l (omega arith) hl;
    owned = λ l hl. tt;
    found = λ x hx. absurd (hx refl);
    heads = λ x h. refl;
    kept = λ x hx. absurd (hx refl);
    idle = λ x hx alloc. absurd (alloc refl);
    above = λ x h. refl;
  };
  known = λ id. refl;
  sound = λ x info q. absurd (ground arith);
  fresh = λ id h. refl;
}
