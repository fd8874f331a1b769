-- ===== src/Malloc/Ranges.antt =====
-- malloclab/mdriver.c: the list of the payloads in use, the newest first. Addresses are numbers.
pub mod Laws
pub mod Checked
use csapp.Common.{
  ℕ, zero, suc, ◌+◌, ◌-◌, ◌%◌, Bool, true, false, not, ◌&&◌, ◌||◌, Option, none, some, List, [],
  ◌∷◌, ltb, leb, ◌==◌, if◌then◌else◌,
}
use csapp.Malloc.Memlib.{Memory, mem_heap_lo, mem_heap_hi}

abbrev pub alignment : ℕ
alignment = 4

pub record Range : Type 0 where
  pub lo : ℕ
  pub hi : ℕ

-- `IS_ALIGNED`, on the 32 low bits of the address.
abbrev pub is_aligned : ℕ → Bool
is_aligned p = p % 4294967296 % alignment == 0

abbrev pub outside_heap : Memory → ℕ → ℕ → Bool
outside_heap m lo hi =
    ltb lo (mem_heap_lo m)
    || ltb (mem_heap_hi m) lo
    || ltb hi (mem_heap_lo m)
    || ltb (mem_heap_hi m) hi

abbrev pub overlaps : ℕ → ℕ → Range → Bool
overlaps lo hi p = (leb p.lo lo && leb lo p.hi) || (leb p.lo hi && leb hi p.hi)

-- The loop of `add_range`.
pub any_overlap : ℕ → ℕ → List Range → Bool
any_overlap lo hi [] = false
any_overlap lo hi (p ∷ ps) = overlaps lo hi p || any_overlap lo hi ps

-- The result and the new list; `none` is the failure of the assertion.
unfoldable pub add_range : Memory → ℕ → ℕ → List Range → Option (Bool × List Range)
unfolding any_overlap
add_range m lo zero ranges = none
add_range m lo (suc n) ranges =
    let hi = lo + suc n - 1 in
    if not (is_aligned lo)
    then some (false, ranges)
    else if outside_heap m lo hi
    then some (false, ranges)
    else if any_overlap lo hi ranges
    then some (false, ranges)
    else some (true, record { lo = lo; hi = hi } ∷ ranges)

unfoldable pub remove_range : ℕ → List Range → List Range
remove_range lo [] = []
remove_range lo (p ∷ ps) = let rest = p ∷ remove_range lo ps in if p.lo == lo then ps else rest

abbrev pub clear_ranges : List Range → List Range
clear_ranges ranges = []
