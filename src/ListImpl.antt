-- ===== src/ListImpl.antt =====
-- src/list_impl.h: circular doubly linked lists threaded through their entries. Memory maps an address
-- to the `list_head` there; an entry of a list and the structure that contains it share an address, so
-- `list_entry` and `container_of` change nothing. A pointer that is null or poisoned faults when it is
-- followed.
pub mod Ring
pub mod Ops
pub mod Replace
use timer_benchmarks.Common.{
  ℕ, Bool, true, false, Option, none, some, Run, ok, fault, null_pointer, out_of_range, ◌>>=◌, ◌==◌,
  if◌then◌else◌,
}

-- `struct list_head`; a null pointer is `none`
pub record ListHead : Type 0 where
  pub next : Option ℕ
  pub prev : Option ℕ

abbrev pub null_head : ListHead
null_head = record { next = none; prev = none }

abbrev pub Memory : Type 0
Memory = ℕ → ListHead

-- LIST_POISON2, an address that holds no entry
abbrev pub list_poison2 : ℕ
list_poison2 = 514

-- `p->...` for a pointer `p`
unfoldable pub follow : Option ℕ → Run ℕ
follow none = fault null_pointer
follow (some p) = if p == list_poison2 then fault out_of_range else ok p

-- `list_entry(ptr, ...)`, and `container_of`
abbrev pub list_entry : Option ℕ → Option ℕ
list_entry ptr = ptr

-- `list_first_entry(ptr, ...)`
abbrev pub list_first_entry : ℕ → Memory → Option ℕ
list_first_entry ptr h = list_entry (h ptr).next

-- `a->next = p` and `a->prev = p`
unfoldable pub write_next : ℕ → Option ℕ → Memory → Memory
write_next a p h = λ x. record { next = if x == a then p else (h x).next; prev = (h x).prev }

unfoldable pub write_prev : ℕ → Option ℕ → Memory → Memory
write_prev a p h = λ x. record { next = (h x).next; prev = if x == a then p else (h x).prev }

unfoldable pub init_list_head : ℕ → Memory → Memory
unfolding write_next write_prev
init_list_head list h = write_prev list (some list) (write_next list (some list) h)

-- `p == a`
abbrev pub is_address : ℕ → Option ℕ → Bool
is_address a none = false
is_address a (some p) = p == a

unfoldable pub list_empty : ℕ → Memory → Bool
list_empty head h = is_address head (h head).next

unfoldable pub list_replace : ℕ → ℕ → Memory → Run Memory
unfolding follow write_next write_prev
list_replace old new_ h = do
  let h1 = write_next new_ (h old).next h
  first ← follow (h1 new_).next
  let h2 = write_prev first (some new_) h1
  let h3 = write_prev new_ (h2 old).prev h2
  last ← follow (h3 new_).prev
  ok (write_next last (some new_) h3)

unfoldable pub list_replace_init : ℕ → ℕ → Memory → Run Memory
unfolding list_replace init_list_head
list_replace_init old new_ h = do h' ← list_replace old new_ h; ok (init_list_head old h')

-- `__list_add`
unfoldable pub list_add : ℕ → Option ℕ → ℕ → Memory → Run Memory
unfolding follow write_next write_prev
list_add new_ prev next h = do
  let h1 = write_prev next (some new_) h
  let h2 = write_next new_ (some next) h1
  let h3 = write_prev new_ prev h2
  p ← follow prev
  ok (write_next p (some new_) h3)

-- `__list_del`
unfoldable pub list_del : Option ℕ → Option ℕ → Memory → Run Memory
unfolding follow write_next write_prev
list_del prev next h = do
  n ← follow next
  let h1 = write_prev n prev h
  p ← follow prev
  ok (write_next p next h1)

unfoldable pub list_add_tail : ℕ → ℕ → Memory → Run Memory
unfolding list_add
list_add_tail new_ head h = list_add new_ (h head).prev head h
