-- ===== src/Tests/Lists.antt =====
-- Runs of src/list_impl.h on a list of two entries, and slots of src/timer_list.cpp.
use timer_benchmarks.Common.{
  ℕ, ◌+◌, ◌%◌, ◌/◌, ◌≤◌, ◌<◌, ◌≡◌, ◌≢◌, refl, [], ◌∷◌, some, Returns, arith, ◌==◌, if◌then◌else◌,
}
use timer_benchmarks.ListImpl.{
  Memory, null_head, init_list_head, list_add_tail, list_del, list_replace_init,
}
use timer_benchmarks.ListImpl.Ring.{Ring}
use timer_benchmarks.ListImpl.Ops.{SameOutside, list_add_tail-Ring, list_del-Ring}
use timer_benchmarks.ListImpl.Replace.{init_list_head-Ring, list_replace_init-Ring}
use timer_benchmarks.TimerList.{slot}
use timer_benchmarks.TimerList.Slot.{slot_lem}

abbrev new_memory : Memory
new_memory = init_list_head 0 (λ a. null_head)

list_add_tail-Ring_example :
    Returns
      (λ h'. Ring h' 0 (600 ∷ []) × SameOutside (600 ∷ 0 ∷ []) new_memory h')
      (list_add_tail 600 0 new_memory)
list_add_tail-Ring_example =
    list_add_tail-Ring new_memory 0 [] 600 (init_list_head-Ring (λ a. null_head) 0 (omega arith))
      (omega arith, tt) (omega arith)

-- the head 0 with the entries 600 and 601
abbrev two : Memory
two = λ a.
    if a == 0
    then record { next = some 600; prev = some 601 }
    else if a == 600
    then record { next = some 601; prev = some 0 }
    else if a == 601
    then record { next = some 0; prev = some 600 }
    else null_head

two-Ring : Ring two 0 (600 ∷ 601 ∷ [])
two-Ring = record {
  chain = ((refl, refl), ((refl, refl), (refl, refl)));
  distinct = omega arith;
  sound = omega arith;
}

list_del-Ring_example :
    Returns
      (λ h'. Ring h' 0 (601 ∷ []) × SameOutside (0 ∷ 601 ∷ []) two h')
      (list_del (two 600).prev (two 600).next two)
list_del-Ring_example = list_del-Ring two 0 [] 600 (601 ∷ []) two-Ring

list_replace_init-Ring_example :
    Returns
      (λ h'.
        Ring h' 512 (600 ∷ 601 ∷ []) × Ring h' 0 [] × SameOutside (512 ∷ 0 ∷ 600 ∷ 601 ∷ []) two h')
      (list_replace_init 0 512 two)
list_replace_init-Ring_example =
    list_replace_init-Ring two 0 (600 ∷ 601 ∷ []) 512 two-Ring (omega arith) (omega arith)

slot_lem_example :
    (slot 1000 1300 < 512)
    × (1300 < 1000 + 256 → slot 1000 1300 ≡ 1300 % 256)
    × (1000 ≤ 1300
        → 1300 < 1000 + 256
        → (tick : ℕ) → 1000 ≤ tick
        → tick < 1300
        → tick % 256 ≢ slot 1000 1300)
    × (1000 + 256 ≤ 1300 → 256 ≤ slot 1000 1300)
    × (1000 + 256 ≤ 1300 → 1300 < 1000 + 16384 → slot 1000 1300 ≡ 256 + 1300 / 256 % 64)
slot_lem_example = slot_lem 1000 1300
