-- ===== src/Malloc/Driver.antt =====
-- malloclab/mdriver.c: the replay of a trace against an allocator. The allocator is an argument:
-- mm.c for the `eval_mm` functions, libc for the others. `none` is a crash, a failed assertion, an
-- access out of the trace's arrays, or the exit of `app_error` and `unix_error`. The sizes of a trace
-- are below 2 ^ 31, where `int` and `unsigned` agree.
pub mod Plays
pub mod Sound
pub mod Trace
mod Tests
use mathlib.Core.Option
use csapp.Common.{
  ℕ, zero, suc, ◌+◌, ◌-◌, ◌%◌, ◌^◌, Bool, true, false, not, ◌&&◌, Option, none, some, List, [], ◌∷◌,
  ltb, ◌==◌, if◌then◌else◌, get_elem?, set, length, replicate, min, ◌>>=◌,
}
use csapp.Malloc.Memlib.{Memory, mem_heapsize}
use csapp.Malloc.Ranges.{Range, add_range, remove_range, clear_ranges}

-- What the driver calls. A pointer of 0 is `NULL`; `byte` and `fill` are the reads and the `memset`
-- of the driver itself.
pub record Allocator : Type 1 where
  pub State : Type 0
  pub reset_brk : State → State
  pub init : State → Option (Bool × State)
  pub malloc : ℕ → State → Option (ℕ × State)
  pub realloc : ℕ → ℕ → State → Option (ℕ × State)
  pub free : ℕ → State → Option State
  pub heap : State → Memory
  pub byte : State → ℕ → ℕ
  pub fill : ℕ → ℕ → ℕ → State → State

-- A request: the index of the block, and the size.
pub data TraceOp : Type 0 where
  alloc : ℕ → ℕ → TraceOp
  realloc : ℕ → ℕ → TraceOp
  free : ℕ → TraceOp

pub data Problem : Type 0 where
  init_failed : Problem
  malloc_failed : Problem
  realloc_failed : Problem
  bad_range : Problem
  not_preserved : Problem

abbrev write_elem : List ℕ → ℕ → ℕ → Option (List ℕ)
write_elem xs i v = if ltb i (length xs) then some (set xs i v) else none

module _ (A : Allocator) where
  -- The allocator's state, the list of payloads, and the arrays of the trace.
  pub record Replay : Type 0 where
    pub state : A.State
    pub ranges : List Range
    pub blocks : List ℕ
    pub block_sizes : List ℕ

  -- `return 0` with the message, or the next state.
  pub data Verdict : Type 0 where
    failed : Problem → Verdict
    passed : Replay → Verdict

  -- "Remember region"
  pub remember : ℕ → ℕ → ℕ → A.State → List Range → Replay → Option Replay
  remember index p size s ranges r = do
    blocks ← write_elem r.blocks index p
    sizes ← write_elem r.block_sizes index size
    some (record { state = s; ranges = ranges; blocks = blocks; block_sizes = sizes })

  -- `newp[j] != (index & 0xFF)` for the j from `from` on: a byte from 128 on is a negative `char`.
  pub preserved : A.State → ℕ → ℕ → ℕ → Bool
  preserved s v p zero = true
  preserved s v p (suc n) = ltb (A.byte s p) 128 && (A.byte s p == v) && preserved s v (p + 1) n

  -- The check of a new block, and what is done with one that passes.
  pub accept : ℕ → ℕ → ℕ → A.State → Bool × List Range → Replay → Option Verdict
  unfolding remember
  accept index p size s (false, ranges) r = some (failed bad_range)
  accept index p size s (true, ranges) r =
      Option.map passed (remember index p size (A.fill p (index % 256) size s) ranges r)

  pub valid_alloc : ℕ → ℕ → Replay → Option Verdict
  unfolding accept
  valid_alloc index size r = do
    (p, s) ← A.malloc size r.state
    if p == 0
        then some (failed malloc_failed)
        else do checked ← add_range (A.heap s) p size r.ranges; accept index p size s checked r

  pub accept_moved : ℕ → ℕ → ℕ → A.State → Bool × List Range → Replay → Option Verdict
  unfolding remember preserved
  accept_moved index p size s (false, ranges) r = some (failed bad_range)
  accept_moved index p size s (true, ranges) r = do
    oldsize ← get_elem? r.block_sizes index
    if preserved s (index % 256) p (if ltb size oldsize then size else oldsize)
        then Option.map passed (remember index p size (A.fill p (index % 256) size s) ranges r)
        else some (failed not_preserved)

  pub valid_realloc : ℕ → ℕ → Replay → Option Verdict
  unfolding accept_moved
  valid_realloc index size r = do
    oldp ← get_elem? r.blocks index
    (newp, s) ← A.realloc oldp size r.state
    if newp == 0 then some (failed realloc_failed) else do
      checked ← add_range (A.heap s) newp size (remove_range oldp r.ranges)
      accept_moved index newp size s checked r

  pub valid_free : ℕ → Replay → Option Verdict
  valid_free index r = do
    p ← get_elem? r.blocks index
    s ← A.free p r.state
    some (passed (record r { state = s; ranges = remove_range p r.ranges }))

  pub valid_step : TraceOp → Replay → Option Verdict
  unfolding valid_alloc valid_realloc valid_free
  valid_step (alloc index size) r = valid_alloc index size r
  valid_step (realloc index size) r = valid_realloc index size r
  valid_step (free index) r = valid_free index r

  -- The loop of `eval_mm_valid`.
  pub valid_steps : List TraceOp → Replay → Option Verdict
  unfolding valid_step
  valid_steps [] r = some (passed r)
  valid_steps (op ∷ ops) r = elim (valid_step op r) [
    | none ↦ none
    | some (failed problem) ↦ some (failed problem)
    | some (passed r') ↦ valid_steps ops r'
  ]

  pub eval_mm_valid : List TraceOp → Replay → Option Verdict
  unfolding valid_steps
  eval_mm_valid ops r = do
    (ok, s) ← A.init (A.reset_brk r.state)
    if ok
        then valid_steps ops (record r { state = s; ranges = clear_ranges r.ranges })
        else some (failed init_failed)

  -- `eval_mm_speed` and the loops on libc: the requests with no check, where a `NULL` ends the
  -- program.
  pub speed_step : TraceOp → Replay → Option Replay
  speed_step (alloc index size) r = do
    (p, s) ← A.malloc size r.state
    if p == 0
        then none
        else do blocks ← write_elem r.blocks index p; some (record r { state = s; blocks = blocks })
  speed_step (realloc index size) r = do
    oldp ← get_elem? r.blocks index
    (newp, s) ← A.realloc oldp size r.state
    if newp == 0 then none else do
      blocks ← write_elem r.blocks index newp
      some (record r { state = s; blocks = blocks })
  speed_step (free index) r = do
    p ← get_elem? r.blocks index
    s ← A.free p r.state
    some (record r { state = s })

  pub speed_steps : List TraceOp → Replay → Option Replay
  unfolding speed_step
  speed_steps [] r = some r
  speed_steps (op ∷ ops) r = do r' ← speed_step op r; speed_steps ops r'

  pub eval_mm_speed : List TraceOp → Replay → Option Replay
  unfolding speed_steps
  eval_mm_speed ops r = do
    (ok, s) ← A.init (A.reset_brk r.state)
    if ok then speed_steps ops (record r { state = s }) else none

  abbrev pub eval_libc_valid : List TraceOp → Replay → Option Replay
  eval_libc_valid ops r = speed_steps ops r

  abbrev pub eval_libc_speed : List TraceOp → Replay → Option Replay
  eval_libc_speed ops r = speed_steps ops r

  -- `total_size` and `max_total_size` of `eval_mm_util`, which are `int`s: a total below 0 is a
  -- pattern from 2 ^ 31 on.
  pub record Usage : Type 0 where
    pub replay : Replay
    pub total_size : ℕ
    pub max_total_size : ℕ

  abbrev pub larger : ℕ → ℕ → ℕ
  larger a b = if ltb ((b + 2 ^ 31) % 2 ^ 32) ((a + 2 ^ 31) % 2 ^ 32) then a else b

  abbrev pub grown : Usage → ℕ → Replay → Usage
  grown u total r = record {
    replay = r;
    total_size = total;
    max_total_size = larger total u.max_total_size;
  }

  pub util_step : TraceOp → Usage → Option Usage
  unfolding remember
  util_step (alloc index size) u = do
    (p, s) ← A.malloc size u.replay.state
    if p == 0 then none else do
      r ← remember index p size s u.replay.ranges u.replay
      some (grown u ((u.total_size + size) % 2 ^ 32) r)
  util_step (realloc index size) u = do
    oldsize ← get_elem? u.replay.block_sizes index
    oldp ← get_elem? u.replay.blocks index
    (newp, s) ← A.realloc oldp size u.replay.state
    if newp == 0 then none else do
      r ← remember index newp size s u.replay.ranges u.replay
      some (grown u ((u.total_size + size + (2 ^ 32 - oldsize)) % 2 ^ 32) r)
  util_step (free index) u = do
    size ← get_elem? u.replay.block_sizes index
    p ← get_elem? u.replay.blocks index
    s ← A.free p u.replay.state
    some (record u {
      replay = record u.replay { state = s };
      total_size = (u.total_size + (2 ^ 32 - size)) % 2 ^ 32;
    })

  pub util_steps : List TraceOp → Usage → Option Usage
  unfolding util_step
  util_steps [] u = some u
  util_steps (op ∷ ops) u = do u' ← util_step op u; util_steps ops u'

  -- The quotient that `eval_mm_util` returns, as its two numbers.
  pub eval_mm_util : List TraceOp → Replay → Option (ℕ × ℕ)
  unfolding util_steps
  eval_mm_util ops r = do
    (ok, s) ← A.init (A.reset_brk r.state)
    if ok
        then (do
          u ←
              util_steps ops
                (record { replay = record r { state = s }; total_size = 0; max_total_size = 0 })
          some (u.max_total_size, mem_heapsize (A.heap u.replay.state)))
        else none
