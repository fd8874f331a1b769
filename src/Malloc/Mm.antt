-- ===== src/Malloc/Mm.antt =====
-- malloclab/mm.c: blocks, the list of the free ones, and their merging. A `Block` is its address:
-- `size` is the word there, with the lowest bit set while the block is allocated, `prev` and `next`
-- are the two words behind it, and the footer is the block's last word. `size_t` and pointers have
-- 32 bits, as the Makefile says. `head` is the address of the global block.
pub mod Requests
pub mod Ring
pub mod Lists
pub mod Fit
pub mod Tags
pub mod Split
pub mod Take
pub mod Merge
pub mod Heap
mod Tests
use csapp.Common.{
  ℕ, zero, suc, ◌+◌, ◌-◌, ◌%◌, ◌^◌, Bool, true, false, not, ◌&&◌, Option, none, some, ltb, leb,
  ◌==◌, if◌then◌else◌,
}
use csapp.Malloc.Memlib.{Memory}
use csapp.Malloc.Word.{
  Mm, Result, done, fault, aborts, exits, out_of_fuel, Cmd, pure, ◌>>=◌, ◌>>◌, add32, sub32, load,
  store, assert, sbrk, clear_words, memcpy,
}

abbrev pub size_of_block : ℕ
size_of_block = 16

abbrev pub expand_heap_size : ℕ
expand_heap_size = 4096

-- `IS_ALLOCATED` and `BLOCK_SIZE`, on the word `size`.
abbrev pub is_allocated : ℕ → Bool
is_allocated w = w % 2 == 1

abbrev pub block_size : ℕ → ℕ
block_size w = w - w % 2

-- The request with the block's header and footer, rounded up to a multiple of 4.
pub get_block_size : ℕ → ℕ
get_block_size size = let n = (size + size_of_block + 3) % 2 ^ 32 in n - n % 4

-- The pointer that `mem_sbrk` returns; its -1 is the largest one.
abbrev pub pointer_of : Option ℕ → ℕ
pointer_of none = 2 ^ 32 - 1
pointer_of (some p) = p

module _ (head : ℕ) where
  -- `FOOTER(b)`
  pub footer : ℕ → Cmd ℕ
  footer b = do w ← load head b; pure (sub32 (add32 b (block_size w)) 4)

  pub set_free : ℕ → Cmd (Unit {0})
  set_free b = do w ← load head b; store head b (block_size w)

  pub set_allocated : ℕ → Cmd (Unit {0})
  set_allocated b = do w ← load head b; store head b (block_size w + 1)

  -- `*FOOTER(b) = BLOCK_SIZE(b)`
  pub write_footer : ℕ → Cmd (Unit {0})
  unfolding footer
  write_footer b = do w ← load head b; f ← footer b; store head f (block_size w)

  pub clear_block : ℕ → Cmd (Unit {0})
  unfolding footer
  clear_block b = do
    f ← footer b
    store head f 0
    store head b 0
    store head (b + 4) 0
    store head (b + 8) 0

  pub remove_from_list : ℕ → Cmd (Unit {0})
  remove_from_list b = do
    p ← load head (b + 4)
    n ← load head (b + 8)
    store head (p + 8) n
    n' ← load head (b + 8)
    p' ← load head (b + 4)
    store head (n' + 4) p'

  pub insert_to_list : ℕ → ℕ → Cmd (Unit {0})
  insert_to_list b prev_block = do
    store head (b + 4) prev_block
    n ← load head (prev_block + 8)
    store head (b + 8) n
    n' ← load head (prev_block + 8)
    store head (n' + 4) b
    store head (prev_block + 8) b

  -- The headers and footers of the two halves.
  pub split_tags : ℕ → ℕ → Cmd (Unit {0})
  unfolding footer set_free write_footer
  split_tags b size = do
    w ← load head b
    store head (add32 b size) (sub32 (block_size w) size)
    write_footer (add32 b size)
    set_free (add32 b size)
    store head b size
    f ← footer b
    store head f size

  pub split_block : ℕ → ℕ → Bool → Cmd (Unit {0})
  unfolding split_tags insert_to_list
  split_block b size from_allocated = do
    split_tags b size
    insert_to_list (add32 b size) (if from_allocated then head else b)

  -- The block fits: what is too much is split off, and the block leaves the list.
  pub take_fit : ℕ → ℕ → Cmd ℕ
  unfolding split_block remove_from_list
  take_fit b size = do
    w ← load head b
    assert (w % 4 == 0)
    assert (size % 4 == 0)
    if ltb (add32 size size_of_block) (block_size w) then split_block b size false else pure tt
    remove_from_list b
    pure b

  pub find_from : ℕ → ℕ → ℕ → Cmd (Option ℕ)
  unfolding take_fit
  find_from zero b size = λ m. out_of_fuel
  find_from (suc k) b size = if b == head then pure none else do
    w ← load head b
    assert (not (is_allocated w))
    n ← load head (b + 8)
    if leb size (block_size w)
        then (do b' ← take_fit b size; pure (some b'))
        else find_from k n size

  -- A neighbour can be merged.
  pub is_free : ℕ → Cmd Bool
  is_free b =
      if b == head
      then pure false
      else do w ← load head b; pure (not (is_allocated w) && not (w == 0))

  -- `BLOCK_SIZE(b)`
  pub size_at : ℕ → Cmd ℕ
  size_at b = do w ← load head b; pure (block_size w)

  -- The three writes with which `coalesce` makes a block larger, by the sizes of its neighbours.
  pub grow : ℕ → Cmd ℕ → Cmd (Unit {0})
  unfolding footer write_footer
  grow b more = do
    f ← footer b
    store head f 0
    n ← more
    w ← load head b
    store head b (add32 w n)
    write_footer b

  pub merge : ℕ → ℕ → ℕ → Bool → Bool → Bool → Cmd ℕ
  unfolding grow size_at remove_from_list clear_block
  merge b prev_block next_block from_allocated true true = do
    grow prev_block (do n ← size_at b; n' ← size_at next_block; pure (add32 n n'))
    remove_from_list next_block
    if from_allocated then pure tt else remove_from_list b
    clear_block next_block
    clear_block b
    pure prev_block
  merge b prev_block next_block from_allocated true false = do
    grow prev_block (size_at b)
    if from_allocated then pure tt else remove_from_list b
    clear_block b
    pure prev_block
  merge b prev_block next_block from_allocated false true = do
    grow b (size_at next_block)
    remove_from_list next_block
    clear_block next_block
    pure b
  merge b prev_block next_block from_allocated false false = pure b

  pub coalesce : ℕ → Bool → Cmd ℕ
  unfolding is_free merge
  coalesce b from_allocated = do
    w ← load head b
    prev_block_size ← load head (sub32 b 4)
    prev_free ← if prev_block_size == 0 then pure false else is_free (sub32 b prev_block_size)
    next_free ← is_free (add32 b (block_size w))
    merge b (sub32 b prev_block_size) (add32 b (block_size w)) from_allocated prev_free next_free
