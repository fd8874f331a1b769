-- ===== src/Malloc/Memlib.antt =====
-- malloclab/memlib.c: the heap between two addresses, which `mem_sbrk` extends.
use csapp.Common.{
  arith, ◌≡◌, refl, ◌<◌, ◌≤◌, ℕ, ◌+◌, ◌-◌, ◌*◌, ◌^◌, false, ◌||◌, Option, none, some, ltb, leb,
  if◌then◌else◌,
}

abbrev pub max_heap : ℕ
max_heap = 20 * 2 ^ 20

-- `mem_start_brk`, `mem_brk` and `mem_max_addr`.
pub record Memory : Type 0 where
  pub start_brk : ℕ
  pub brk : ℕ
  pub max_addr : ℕ

-- `mem_init`, for the address that `malloc` returns; without one the program ends.
pub mem_init : Option ℕ → Option Memory
mem_init none = none
mem_init (some address) =
    some (record { start_brk = address; brk = address; max_addr = address + max_heap })

pub mem_reset_brk : Memory → Memory
mem_reset_brk m = record m { brk = m.start_brk }

-- The argument is an `int`, as its pattern below 2 ^ 32; `none` is the result -1.
unfoldable pub mem_sbrk : ℕ → Memory → Option ℕ × Memory
mem_sbrk incr m =
    if leb (2 ^ 31) incr || ltb m.max_addr (m.brk + incr)
    then (none, m)
    else (some m.brk, record m { brk = m.brk + incr })

abbrev pub mem_heap_lo : Memory → ℕ
mem_heap_lo m = m.start_brk

abbrev pub mem_heap_hi : Memory → ℕ
mem_heap_hi m = m.brk - 1

abbrev pub mem_heapsize : Memory → ℕ
mem_heapsize m = m.brk - m.start_brk

-- Within the limit, `mem_sbrk` returns the old end and moves the end.
pub mem_sbrk_lem :
    (m : Memory) (incr : ℕ)
    → incr < 2 ^ 31
    → m.brk + incr ≤ m.max_addr
    → mem_sbrk incr m ≡ (some m.brk, record m { brk = m.brk + incr })
unfolding mem_sbrk
mem_sbrk_lem m incr h l =
    let a : leb (2 ^ 31) incr ≡ false = ground arith in
    let b : ltb m.max_addr (m.brk + incr) ≡ false = ground arith in rw (a, b) refl
