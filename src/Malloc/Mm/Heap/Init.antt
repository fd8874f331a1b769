-- ===== src/Malloc/Mm/Heap/Init.antt =====
-- The heap that `mm_init` of malloclab/mm.c makes.
use csapp.Common.{ℕ, ◌+◌, ◌-◌, ◌<◌, ◌≡◌, refl, sym, ap, ◌∙◌, inl, inr, [], ◌∷◌, arith}
use csapp.Malloc.Memlib.{Memory}
use csapp.Malloc.Word.{Mm, done}
use csapp.Malloc.Mm.Requests.{mm_init}
use csapp.Malloc.Mm.Requests.Init.{Unused, mm_init-Ring}
use csapp.Malloc.Mm.Heap.{Tiles, At, FreeAt, In, Heap}
use csapp.Malloc.Mm.Heap.Blocks.{free_tile}

-- With one round at least, `mm_init` on an empty list and a memory with room makes a heap of one free block of 4092 bytes between
-- the prologue and the epilogue, with that block in the list.
pub mm_init-Heap :
    (head rounds : ℕ) (m : Mm)
    → 0 < rounds
    → m.word (head + 8) ≡ head
    → Unused head m.memory
    → (m' : Mm) × (mm_init head rounds m ≡ done 0 m')
      × Heap head
          (m.memory.brk + 8)
          (m.memory.brk + 4100)
          (free_tile 4092 ∷ [])
          ((m.memory.brk + 8) ∷ [])
          m'
unfolding Tiles At In
mm_init-Heap head rounds m p empty u =
    let (m', f, ring, nine, eight, size, foot, one, memory) =
      mm_init-Ring head rounds m p empty u in
    let b = m.memory.brk in
    let start = u.start in
    let room = u.room in
    let top = u.top in
    let away = u.away in
    let last : b + 8 + 4092 - 4 ≡ b + 4096 = omega arith in
    let p₀ : b + 8 - 8 ≡ b = omega arith in
    let p₄ : b + 8 - 4 ≡ b + 4 = omega arith in
    let brk : m'.memory.brk ≡ b + 4104 = ap (λ (x : Memory). x.brk) memory in
    let low : m'.memory.start_brk ≡ m.memory.start_brk = ap (λ (x : Memory). x.start_brk) memory in
    let max : m'.memory.max_addr ≡ m.memory.max_addr = ap (λ (x : Memory). x.max_addr) memory in
    let at : FreeAt (b + 8) (free_tile 4092 ∷ []) (b + 8) = (4092, inl (refl, refl)) in
    (
      m',
      f,
      record {
        ring = ring;
        tiles = (
          record {
            large = omega arith;
            aligned = refl;
            header = size;
            footer = inl (ap m'.word last ∙ foot);
          },
          omega arith,
        );
        listed = (at, tt);
        complete = λ y (k, g). elim g [ inl (q, _) ↦ inl (sym q) | inr n ↦ absurd n ];
        prologue = (ap m'.word p₀ ∙ nine, ap m'.word p₄ ∙ eight);
        epilogue = one;
        start = omega arith;
        end = (omega arith, omega arith, omega arith);
        away = omega arith;
      },
    )
