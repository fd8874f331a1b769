-- ===== src/Malloc/Mm/Requests.antt =====
-- malloclab/mm.c: the growth of the heap, and the requests of the allocator's clients. `rounds` is
-- the fuel of the loops along the list of free blocks.
pub mod Allocate
pub mod Release
pub mod Growth
pub mod Init
pub mod Renewal
pub mod Join
pub mod Blank
pub mod Between
pub mod Resize
mod Tests
use csapp.Common.{
  ℕ, zero, suc, ◌+◌, ◌-◌, ◌%◌, ◌^◌, Bool, true, false, not, ◌&&◌, Option, none, some, ltb, leb,
  ◌==◌, if◌then◌else◌,
}
use csapp.Malloc.Word.{
  Mm, Result, exits, out_of_fuel, Cmd, pure, ◌>>=◌, ◌>>◌, add32, sub32, load, store, assert, sbrk,
  clear_words, memcpy,
}
use csapp.Malloc.Mm.{
  size_of_block, expand_heap_size, is_allocated, block_size, get_block_size, pointer_of, set_free,
  set_allocated, write_footer, clear_block, remove_from_list, insert_to_list, split_block,
  find_from, is_free, size_at, grow, coalesce,
}

module _ (head : ℕ) where
  -- The loop of `expand_heap`.
  pub coalesce_all : ℕ → ℕ → Cmd (Unit {0})
  unfolding coalesce
  coalesce_all zero b = λ m. out_of_fuel
  coalesce_all (suc k) b = if b == head then pure tt else do
    assert (not (b == 0))
    b' ← coalesce head b false
    n ← load head (b' + 8)
    coalesce_all k n

  -- The end of `expand_heap`: the new area, or with the epilogue before it, is a free block.
  pub new_block : ℕ → ℕ → Cmd (Unit {0})
  unfolding write_footer insert_to_list set_allocated
  new_block b size = do
    store head b (sub32 size 4)
    write_footer head b
    insert_to_list head b head
    w ← load head b
    store head (add32 b (block_size w)) 0
    set_allocated head (add32 b (block_size w))

  pub extend : ℕ → ℕ → Option ℕ → Cmd (Unit {0})
  unfolding new_block
  extend last_block size none = λ m. exits
  extend last_block size (some b) = do
    clear_words b size
    w ← load head last_block
    if is_allocated w && block_size w == 0
        then new_block last_block (add32 size 4)
        else new_block b size

  -- The loop of `mm_init`.
  pub clear_from : ℕ → ℕ → Cmd (Unit {0})
  unfolding clear_block
  clear_from zero b = λ m. out_of_fuel
  clear_from (suc k) b =
      if b == head then pure tt else do n ← load head (b + 8); clear_block head b; clear_from k n

  module _ (rounds : ℕ) where
    pub find_fit : ℕ → Cmd (Option ℕ)
    unfolding find_from
    find_fit size = do b ← load head (head + 8); find_from head rounds b size

    pub expand_heap : ℕ → Cmd (Unit {0})
    unfolding coalesce_all extend
    expand_heap size = do
      assert (ltb size_of_block size)
      b ← load head (head + 8)
      coalesce_all rounds b
      brk ← sbrk 0
      area ← sbrk size
      extend (sub32 (pointer_of brk) 4) size area

    pub mm_init : Cmd ℕ
    unfolding clear_from write_footer set_allocated expand_heap
    mm_init = do
      b ← load head (head + 8)
      clear_from rounds b
      store head head 0
      store head (head + 4) head
      store head (head + 8) head
      area ← sbrk 8
      let prologue = pointer_of area
      store head prologue 8
      set_allocated head prologue
      write_footer head prologue
      expand_heap expand_heap_size
      pure 0

    -- The result of `find_fit`, as `mm_malloc` returns it; `NULL` is 0.
    pub hand_out : Option ℕ → Cmd ℕ
    unfolding set_allocated
    hand_out none = pure 0
    hand_out (some b) = do set_allocated head b; pure (b + 12)

    pub malloc_block : ℕ → Option ℕ → Cmd ℕ
    unfolding hand_out expand_heap find_fit
    malloc_block size (some b) = hand_out (some b)
    malloc_block size none = do
      expand_heap (if ltb expand_heap_size size then size else expand_heap_size)
      b ← find_fit size
      hand_out b

    pub mm_malloc : ℕ → Cmd ℕ
    unfolding malloc_block find_fit get_block_size
    mm_malloc size = do b ← find_fit (get_block_size size); malloc_block (get_block_size size) b

    pub mm_free : ℕ → Cmd (Unit {0})
    unfolding set_free coalesce insert_to_list
    mm_free ptr = if ptr == 0 then pure tt else do
      set_free head (sub32 ptr 12)
      b ← coalesce head (sub32 ptr 12) true
      if b == sub32 ptr 12 then insert_to_list head b head else pure tt

    -- Case 4: a new block takes the content.
    pub realloc_copy : ℕ → ℕ → Cmd ℕ
    unfolding mm_malloc mm_free
    realloc_copy ptr size = do
      new_ptr ← mm_malloc size
      if new_ptr == 0 then pure 0 else do memcpy new_ptr ptr size; mm_free ptr; pure new_ptr

    pub realloc_split : ℕ → ℕ → ℕ → Cmd ℕ
    unfolding split_block set_allocated
    realloc_split ptr b need = do split_block head b need true; set_allocated head b; pure ptr

    -- Case 3: the next block is free.
    pub realloc_next : ℕ → ℕ → ℕ → ℕ → Bool → Cmd ℕ
    unfolding realloc_copy realloc_split grow size_at remove_from_list clear_block
    realloc_next ptr b need size false = realloc_copy ptr size
    realloc_next ptr b need size true = do
      w ← load head b
      grow head b (size_at head (add32 b (block_size w)))
      remove_from_list head (add32 b (block_size w))
      clear_block head (add32 b (block_size w))
      w' ← load head b
      if ltb (add32 need size_of_block) (block_size w')
          then realloc_split ptr b need
          else realloc_copy ptr size

    -- Case 2: the last block grows with the heap.
    pub realloc_last : ℕ → ℕ → ℕ → ℕ → Cmd ℕ
    unfolding expand_heap remove_from_list set_allocated
    realloc_last ptr b need extra = do
      expand_heap extra
      n ← load head (head + 8)
      remove_from_list head n
      store head b need
      set_allocated head b
      pure ptr

    pub realloc_block : ℕ → ℕ → ℕ → ℕ → Cmd ℕ
    unfolding realloc_last realloc_next is_free
    realloc_block ptr b need size = do
      w ← load head b
      brk ← sbrk 0
      let next_block = add32 b (block_size w)
      let epilogue = sub32 (pointer_of brk) 4
      let extra = sub32 need (block_size w)
      if next_block == epilogue && ltb size_of_block extra
          then realloc_last ptr b need extra
          else (do free ← is_free head next_block; realloc_next ptr b need size free)

    pub mm_realloc : ℕ → ℕ → Cmd ℕ
    unfolding mm_malloc mm_free realloc_block realloc_split get_block_size
    mm_realloc ptr size =
        if ptr == 0 then mm_malloc size else if size == 0 then (do mm_free ptr; pure 0) else do
          let b = sub32 ptr 12
          let need = get_block_size size
          w ← load head b
          assert (is_allocated w)
          store head (b + 8) 0
          store head (b + 4) 0
          if ltb (add32 need size_of_block) (block_size w)
              then realloc_split ptr b need
              else realloc_block ptr b need size
