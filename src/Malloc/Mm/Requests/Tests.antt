-- ===== src/Malloc/Mm/Requests/Tests.antt =====
-- Runs of the allocator of malloclab/mm.c, and the theorems at small heaps that meet their hypotheses.
use csapp.Common.{ℕ, ◌≡◌, ◌<◌, ◌≤◌, ◌⊎◌, refl, inl, ◌||◌, ◌==◌, if◌then◌else◌, [], ◌∷◌, All, arith}
use csapp.Malloc.Memlib.{Memory, mem_sbrk}
use csapp.Malloc.Word.{
  Mm, Result, done, fault, aborts, exits, out_of_fuel, ◌>>=◌, ◌>>◌, load, store, sbrk, clear_words,
}
use csapp.Malloc.Mm.{find_from}
use csapp.Malloc.Mm.Tags.{with_word}
use csapp.Malloc.Mm.Ring.{Clear, Chain, Spread}
use csapp.Malloc.Mm.Lists.{Ring}
use csapp.Malloc.Mm.Fit.{first_fit, found, find_from-first_fit}
use csapp.Malloc.Mm.Merge.{BeforeFree}
use csapp.Malloc.Mm.Requests.{mm_init, mm_malloc, mm_free, mm_realloc}
use csapp.Malloc.Mm.Requests.Release.{InUse, mm_free-next}

-- `head` is at 16, and the heap begins at 4096.
abbrev fresh : Mm
fresh = record {
  word = λ q. 16;
  memory = record { start_brk = 4096; brk = 4096; max_addr = 2000000 };
}

abbrev value : Result ℕ → ℕ
value (done a m) = a
value fault = 1
value aborts = 2
value exits = 3
value out_of_fuel = 4

-- The third block fits where the first one was.
reuses_freed :
    value (
      (do
        mm_init 16 9
        p ← mm_malloc 16 9 10
        q ← mm_malloc 16 9 100
        mm_free 16 9 p
        mm_malloc 16 9 8)
        fresh)
    ≡ 4116
unfolding mm_init mm_malloc mm_free load store sbrk clear_words mem_sbrk
reuses_freed = refl

-- The last block of the heap is made smaller by 8 bytes, and the program exits.
shrinks_last : value ((do mm_init 16 9; p ← mm_malloc 16 9 4080; mm_realloc 16 9 p 4072) fresh) ≡ 3
unfolding mm_init mm_malloc mm_realloc load store sbrk clear_words mem_sbrk
shrinks_last = refl

abbrev memory : Memory
memory = record { start_brk = 4096; brk = 4208; max_addr = 8192 }

-- A free block of 64 bytes at 4112.
abbrev one_free : Mm
one_free = record {
  word = λ q.
      if q == 20 || q == 24
      then 4112
      else if q == 4116 || q == 4120
      then 16
      else if q == 4112 || q == 4172
      then 64
      else 0;
  memory = memory;
}

one_free-Ring : Ring 16 one_free (4112 ∷ [])
unfolding Chain Spread
one_free-Ring = record {
  chain = ((refl, refl), (refl, refl));
  spread = ((omega arith, tt), (tt, tt));
  nodes = ((refl, refl, refl), ((refl, refl, refl), tt));
}

find_from-first_fit_example :
    find_from 16 9 (one_free.word 24) 28 one_free
    ≡ found 16 28 (first_fit one_free.word 28 (4112 ∷ [])) one_free
find_from-first_fit_example =
    find_from-first_fit 16 one_free 28 9 16 (4112 ∷ []) (omega arith) one_free-Ring.chain
      (omega arith, tt) one_free-Ring.nodes.1 (refl, tt)

-- A block of 32 bytes in use at 4112, and a free one of 64 bytes behind it.
abbrev next_free : Mm
next_free = record {
  word = λ q.
      if q == 20 || q == 24
      then 4144
      else if q == 4148 || q == 4152
      then 16
      else if q == 4112
      then 33
      else if q == 4144 || q == 4204
      then 64
      else 0;
  memory = memory;
}

next_free-InUse : InUse 16 next_free 4112 32
next_free-InUse = record {
  size = refl;
  aligned = refl;
  bounds = (omega arith, omega arith, omega arith);
  node = (refl, refl, refl);
  front = refl;
  before = inl refl;
}

next_free-BeforeFree : BeforeFree 16 (with_word next_free 4112 32) 4112 32 64 [] []
unfolding Chain Spread
next_free-BeforeFree = record {
  ring = record {
    chain = ((refl, refl), (refl, refl));
    spread = ((omega arith, tt), (tt, tt));
    nodes = ((refl, refl, refl), ((refl, refl, refl), tt));
  };
  size = refl;
  next_size = refl;
  aligned = (refl, refl);
  large = (omega arith, omega arith, omega arith);
  node = (refl, refl, refl);
  footers = (refl, refl);
  apart = (omega arith, (omega arith, tt));
  not_head = omega arith;
}

mm_free-next_example :
    (m' : Mm) × (mm_free 16 9 4124 next_free ≡ done tt m')
    × Ring 16 m' (4112 ∷ [])
    × (m'.word 4112 ≡ 96)
    × (m'.word 4204 ≡ 0)
    × (m'.memory ≡ next_free.memory)
    × ((q : ℕ)
        → (q < 4112) ⊎ (4208 ≤ q)
        → All (Clear q) (16 ∷ 4144 ∷ [])
        → m'.word q ≡ next_free.word q)
mm_free-next_example =
    mm_free-next 16 9 next_free 4112 32 64 [] [] next_free-InUse next_free-BeforeFree
