-- ===== src/Malloc/Mm/Tests.antt =====
-- Resizing and extending in malloclab/mm.c at small heaps that meet the theorems' hypotheses. `head` is
-- at 16.
use csapp.Common.{◌+◌, ◌≡◌, refl, ◌||◌, ◌==◌, if◌then◌else◌, [], ◌∷◌, arith}
use csapp.Malloc.Memlib.{Memory}
use csapp.Malloc.Word.{Mm, done, exits}
use csapp.Malloc.Mm.{get_block_size}
use csapp.Malloc.Mm.Ring.{Chain, Spread}
use csapp.Malloc.Mm.Lists.{Ring}
use csapp.Malloc.Mm.Split.{Halved, Holds}
use csapp.Malloc.Mm.Requests.{mm_realloc}
use csapp.Malloc.Mm.Requests.Resize.{mm_realloc-exits, mm_realloc-Halved}

abbrev memory : Memory
memory = record { start_brk = 4096; brk = 4208; max_addr = 8192 }

rounded : get_block_size 10 ≡ 28
unfolding get_block_size
rounded = refl

-- A block of 96 bytes in use at 4112.
abbrev large_used : Mm
large_used = record {
  word = λ q. if q == 20 || q == 24 then 16 else if q == 4112 then 97 else 0;
  memory = memory;
}

large_used-Ring : Ring 16 large_used []
unfolding Chain Spread
large_used-Ring = record {
  chain = (refl, refl);
  spread = (tt, tt);
  nodes = ((refl, refl, refl), tt);
}

large_used-Holds : Holds 16 memory 4112 96 28
large_used-Holds = record {
  header = refl;
  half = (refl, refl, refl);
  half_footer = refl;
  footer = refl;
}

mm_realloc-Halved_example :
    (m' : Mm) × (mm_realloc 16 9 4124 10 large_used ≡ done 4124 m')
    × Ring 16 m' ((4112 + get_block_size 10) ∷ [])
    × Halved 16 4112 96 (get_block_size 10) (get_block_size 10 + 1) [] large_used m'
mm_realloc-Halved_example =
    mm_realloc-Halved 16 9 large_used 4112 96 10 [] (omega arith) (omega arith) refl refl
      (rw rounded (omega arith)) (omega arith) (refl, refl, refl) (rw rounded large_used-Holds)
      (omega arith, tt) (omega arith, tt) large_used-Ring

-- A block of 32 bytes in use at the end of the heap.
abbrev last_used : Mm
last_used = record {
  word = λ q. if q == 20 || q == 24 then 16 else if q == 4112 then 33 else 0;
  memory = record { start_brk = 4096; brk = 4148; max_addr = 8192 };
}

mm_realloc-exits_example : mm_realloc 16 9 4124 10 last_used ≡ exits
mm_realloc-exits_example =
    mm_realloc-exits 16 9 last_used 4112 32 10 (omega arith) (omega arith) (omega arith) refl refl
      (rw rounded (omega arith)) (rw rounded (omega arith)) (omega arith) refl (omega arith)
      (omega arith) (refl, refl, refl) refl refl (omega arith)
