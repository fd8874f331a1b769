-- ===== src/Malloc/Mm/Heap/Tests.antt =====
-- malloclab/mm.c on a whole heap with three blocks.
use csapp.Common.{
  ℕ, ◌+◌, ◌<◌, ◌≤◌, ◌≡◌, refl, sym, ap, inl, inr, ◌||◌, List, [], ◌∷◌, ◌==◌, if◌then◌else◌, arith,
}
use csapp.Malloc.Word.{Mm, done}
use csapp.Malloc.Mm.{get_block_size}
use csapp.Malloc.Mm.Requests.Renewal.{amount}
use csapp.Malloc.Mm.Heap.Extend.{Growable, mm_malloc-Growable}
use csapp.Malloc.Mm.Ring.{Chain, Spread}
use csapp.Malloc.Mm.Requests.{mm_init, mm_malloc}
use csapp.Malloc.Mm.Heap.{Tile, Tiles, At, UsedAt, In, Heap}
use csapp.Malloc.Mm.Heap.Blocks.{free_tile, used_tile}
use csapp.Malloc.Mm.Heap.Allocate.{mm_malloc-Heap}
use csapp.Malloc.Mm.Heap.Served.{Served}
use csapp.Malloc.Mm.Heap.Freed.{Freed}
use csapp.Malloc.Mm.Heap.Free.{mm_free-Heap}
use csapp.Malloc.Mm.Heap.Init.{mm_init-Heap}
use csapp.Malloc.Mm.Heap.Order.{AllFreed, mm_free-any_order}

-- The list is at 16. A block of 32 bytes in use stands at 4112, a free one of 64 bytes behind it, and
-- one of 48 bytes in use behind that.
abbrev three_blocks : Mm
three_blocks = record {
  word = λ q.
      if q == 20 || q == 24
      then 4144
      else if q == 4148 || q == 4152
      then 16
      else if q == 4104
      then 9
      else if q == 4108
      then 8
      else if q == 4112
      then 33
      else if q == 4140
      then 32
      else if q == 4144 || q == 4204
      then 64
      else if q == 4208
      then 49
      else if q == 4252
      then 48
      else if q == 4256
      then 1
      else 0;
  memory = record { start_brk = 4096; brk = 4260; max_addr = 8192 };
}

abbrev blocks : List Tile
blocks = used_tile 32 ∷ free_tile 64 ∷ used_tile 48 ∷ []

free_one : At 4112 blocks 4144 (free_tile 64)
unfolding At
free_one = inr (inl (refl, refl))

used_last : At 4112 blocks 4208 (used_tile 48)
unfolding At
used_last = inr (inr (inl (refl, refl)))

used_one : At 4112 blocks 4112 (used_tile 32)
unfolding At
used_one = inl (refl, refl)

three_blocks-Heap : Heap 16 4112 4256 blocks (4144 ∷ []) three_blocks
unfolding Tiles At In
three_blocks-Heap = record {
  ring = record {
    chain = unfold Chain in ((refl, refl), (refl, refl));
    spread = unfold Spread in ((omega arith, tt), (tt, tt));
    nodes = ((refl, refl, refl), ((refl, refl, refl), tt));
  };
  tiles = (
    record { large = omega arith; aligned = refl; header = refl; footer = inl refl },
    (
      record { large = omega arith; aligned = refl; header = refl; footer = inl refl },
      (record { large = omega arith; aligned = refl; header = refl; footer = inl refl }, refl),
    ),
  );
  listed = ((64, free_one), tt);
  complete = λ y (k, f). elim f [
    | inl (_, g) ↦ let t = ap (λ (t : Tile). t.used) g in cc
    | inr (inl (p, _)) ↦ inl (sym p)
    | inr (inr (inl (_, g))) ↦ let t = ap (λ (t : Tile). t.used) g in cc
    | inr (inr (inr g)) ↦ absurd g
  ];
  prologue = (refl, refl);
  epilogue = refl;
  start = omega arith;
  end = (refl, omega arith, omega arith);
  away = inl (omega arith);
}

request : get_block_size 10 ≤ 64
unfolding get_block_size
request = omega arith

mm_malloc-Heap_example : Served 16 9 10 4112 4256 blocks three_blocks
mm_malloc-Heap_example =
    mm_malloc-Heap 16 9 10 4112 4256 blocks (4144 ∷ []) three_blocks 4144 64 three_blocks-Heap
      (omega arith) (omega arith) free_one request

mm_free-Heap_example : Freed 16 9 4112 32 4112 4256 blocks three_blocks
mm_free-Heap_example =
    mm_free-Heap 16 9 4112 4256 blocks (4144 ∷ []) three_blocks 4112 32 three_blocks-Heap used_one

mm_free-any_order_example : AllFreed 16 9 4112 4256 blocks three_blocks (4208 ∷ 4112 ∷ [])
mm_free-any_order_example =
    mm_free-any_order 16 9 4112 4256 (4208 ∷ 4112 ∷ []) blocks (4144 ∷ []) three_blocks
      three_blocks-Heap ((48, used_last), ((32, used_one), tt)) ((omega arith, tt), (tt, tt))

-- A memory in which nothing has been allocated yet.
abbrev empty : Mm
empty = record {
  word = λ q. if q == 24 then 16 else 0;
  memory = record { start_brk = 4096; brk = 4096; max_addr = 20000 };
}

mm_init-Heap_example :
    (m' : Mm) × (mm_init 16 9 empty ≡ done 0 m')
    × Heap 16 4104 8196 (free_tile 4092 ∷ []) (4104 ∷ []) m'
mm_init-Heap_example = mm_init-Heap 16 9 empty (omega arith) refl (record {
  start = omega arith;
  room = omega arith;
  top = omega arith;
  away = inl (omega arith);
})

-- A block of 32 bytes in use is the whole heap.
abbrev one_block : Mm
one_block = record {
  word = λ q.
      if q == 20 || q == 24
      then 16
      else if q == 4104
      then 9
      else if q == 4108
      then 8
      else if q == 4112
      then 33
      else if q == 4140
      then 32
      else if q == 4144
      then 1
      else 0;
  memory = record { start_brk = 4096; brk = 4148; max_addr = 20000 };
}

one_block-Heap : Heap 16 4112 4144 (used_tile 32 ∷ []) [] one_block
unfolding Tiles At In
one_block-Heap = record {
  ring = record {
    chain = unfold Chain in (refl, refl);
    spread = unfold Spread in (tt, tt);
    nodes = ((refl, refl, refl), tt);
  };
  tiles = (record { large = omega arith; aligned = refl; header = refl; footer = inl refl }, refl);
  listed = tt;
  complete = λ y (k, f). elim f [
    | inl (_, g) ↦ let t = ap (λ (t : Tile). t.used) g in cc
    | inr g ↦ absurd g
  ];
  prologue = (refl, refl);
  epilogue = refl;
  start = omega arith;
  end = (refl, omega arith, omega arith);
  away = inl (omega arith);
}

rounded : get_block_size 10 ≡ 28
unfolding get_block_size
rounded = refl

one_block-Growable : Growable 16 4112 (amount 28) one_block.memory
one_block-Growable = record {
  low = omega arith;
  room = omega arith;
  top = omega arith;
  away = inl (omega arith);
}

mm_malloc-Growable_example :
    (m₁ : Mm) × (mm_malloc 16 9 10 one_block ≡ mm_malloc 16 9 10 m₁)
    × Served 16 9 10 4112
        (4144 + amount (get_block_size 10))
        (used_tile 32 ∷ free_tile (amount (get_block_size 10)) ∷ [])
        m₁
    × ((y n : ℕ)
        → UsedAt 4112 (used_tile 32 ∷ []) y n
        → UsedAt 4112 (used_tile 32 ∷ free_tile (amount (get_block_size 10)) ∷ []) y n
          × ((q : ℕ) → y + 12 ≤ q → q < y + n → m₁.word q ≡ one_block.word q))
mm_malloc-Growable_example =
    mm_malloc-Growable 16 9 10 4112 4144 (used_tile 32 ∷ []) one_block one_block-Heap (omega arith)
      (omega arith) (rw rounded one_block-Growable)
