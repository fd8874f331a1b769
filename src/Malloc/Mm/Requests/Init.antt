-- ===== src/Malloc/Mm/Requests/Init.antt =====
-- `mm_init` of malloclab/mm.c on an empty list.
use csapp.Common.{
  ℕ, zero, suc, ◌+◌, ◌-◌, ◌^◌, ◌≤◌, ◌<◌, ◌≡◌, ◌⊎◌, refl, sym, ap, ◌∙◌, inl, true, [], ◌∷◌, ◌==◌,
  arith,
}
use csapp.Malloc.Memlib.{Memory}
use csapp.Malloc.Word.{Mm, done, clear_words, reaches, sub32}
use csapp.Malloc.Mm.{block_size}
use csapp.Malloc.Mm.Tags.{
  with_word, load-run, store-run, set_allocated-run, write_footer-run, update-same,
}
use csapp.Malloc.Mm.Ring.{Chain, Spread}
use csapp.Malloc.Mm.Lists.{IsNode, Ring}
use csapp.Malloc.Mm.Requests.Resize.{sbrk-zero}
use csapp.Malloc.Mm.Requests.{new_block, mm_init}
use csapp.Malloc.Mm.Requests.Growth.{extended, emptied, sbrk-run, new_block-Fresh}

module _ (head : ℕ) where
  -- A memory with room for the prologue and 4096 bytes, away from `head`.
  pub record Unused (m : Memory) : Type 0 where
    pub start : m.start_brk ≤ m.brk
    pub room : m.brk + 4104 ≤ m.max_addr
    pub top : m.brk + 4104 < 2 ^ 32
    pub away : (head + 12 ≤ m.brk) ⊎ (m.brk + 4104 ≤ head)

  -- The list is reset, and the heap has room for the prologue.
  abbrev reset : Mm → Mm
  reset m = with_word (with_word (with_word m head 0) (head + 4) head) (head + 8) head

  -- The prologue stands at s.
  abbrev prologue : Mm → ℕ → Mm
  prologue m s = with_word (with_word (with_word m s 8) s 9) (s + 4) 8

  -- The state in which the block of `mm_init` is made.
  abbrev ready : Mm → Mm
  ready m =
      emptied head (extended head (prologue (extended head (reset m) 8) m.memory.brk) 4096)
        (m.memory.brk + 8) 4096

  ready_foot : (m : Mm) → (ready m).word (m.memory.brk + 4) ≡ 8
  ready_foot m = ground arith

  ready_next : (m : Mm) → Unused m.memory → (ready m).word (head + 8) ≡ head
  ready_next m u = let away = u.away in ground arith

  ready_prev : (m : Mm) → Unused m.memory → (ready m).word (head + 4) ≡ head
  ready_prev m u = let away = u.away in ground arith

  before_next :
      (m : Mm)
      → Unused m.memory
      → (prologue (extended head (reset m) 8) m.memory.brk).word (head + 8) ≡ head
  before_next m u = let away = u.away in ground arith

  module _ (m : Mm) (u : Unused m.memory) where
    reaches-heap :
        (q : ℕ) → m.memory.brk ≤ q → q + 4 ≤ m.memory.brk + 4104 → reaches head m.memory q ≡ true
    reaches-heap q h l = let start = u.start in let room = u.room in ground arith

    reaches-head : (q : ℕ) → head ≤ q → q + 4 ≤ head + 12 → reaches head m.memory q ≡ true
    reaches-head q h l = ground arith

    prologue-run :
        (k : ℕ) (m' : Mm)
        → m.word (head + 8) ≡ head
        → new_block head (m.memory.brk + 8) 4096 (ready m) ≡ done tt m'
        → mm_init head (suc k) m ≡ done 0 m'
    unfolding mm_init clear_words
    prologue-run k m' e f =
        let b = m.memory.brk in
        let top = u.top in
        let room = u.room in
        let itself : (head == head) ≡ true = ground arith in
        let h0 = reaches-head head (omega arith) (omega arith) in
        let h4 = reaches-head (head + 4) (omega arith) (omega arith) in
        let h8 = reaches-head (head + 8) (omega arith) (omega arith) in
        let b0 = reaches-heap b (omega arith) (omega arith) in
        let b4 = reaches-heap (b + 4) (omega arith) (omega arith) in
        let m₁ = with_word m head 0 in
        let m₂ = with_word m₁ (head + 4) head in
        let m₄ = extended head (reset m) 8 in
        let m₅ = with_word m₄ b 8 in
        let m₆ = with_word m₅ b 9 in
        let m₇ = prologue m₄ b in
        let eight : block_size (m₅.word b) ≡ 8 = rw (update-same m₄.word b 8) refl in
        let nine : block_size (m₆.word b) ≡ 8 = rw (update-same m₅.word b 9) refl in
        let foot : b + 8 - 4 ≡ b + 4 = omega arith in
        let last : sub32 (b + 8) 4 ≡ b + 4 = omega arith in
        rw
          (
            load-run head m (head + 8) head h8 e,
            itself,
            store-run head m head 0 h0,
            store-run head m₁ (head + 4) head h4,
            store-run head m₂ (head + 8) head h8,
            sbrk-run head (reset m) 8 (omega arith) (omega arith),
            store-run head m₄ b 8 b0,
            set_allocated-run head m₅ b 8 b0 eight,
            write_footer-run head m₆ b 8 b0 nine (omega arith) (omega arith) (rw foot b4),
            foot,
            load-run head m₇ (head + 8) head h8 (before_next m u),
            itself,
            sbrk-zero m₇ (omega arith),
            sbrk-run head m₇ 4096 (omega arith) (omega arith),
            last,
            load-run head (ready m) (b + 4) 8 b4 (ready_foot m),
            f,
          )
          refl

  ready_prologue : (m : Mm) → (ready m).word m.memory.brk ≡ 9
  ready_prologue m = ground arith

  -- `mm_init` on an empty list puts the prologue at the break, with its size and the mark of a block
  -- in use, behind it a free block of 4092 bytes with its footer, and at the end of the heap the
  -- epilogue; the free block is then the list.
  pub mm_init-Ring :
      (rounds : ℕ) (m : Mm)
      → 0 < rounds
      → m.word (head + 8) ≡ head
      → Unused m.memory
      → (m' : Mm) × (mm_init head rounds m ≡ done 0 m')
        × Ring head m' ((m.memory.brk + 8) ∷ [])
        × (m'.word m.memory.brk ≡ 9)
        × (m'.word (m.memory.brk + 4) ≡ 8)
        × (m'.word (m.memory.brk + 8) ≡ 4092)
        × (m'.word (m.memory.brk + 4096) ≡ 4092)
        × (m'.word (m.memory.brk + 4100) ≡ 1)
        × (m'.memory ≡ record m.memory { brk = m.memory.brk + 4104 })
  mm_init-Ring zero m h e u = absurd (omega arith)
  mm_init-Ring (suc k) m h e u =
      let b = m.memory.brk in
      let top = u.top in
      let away = u.away in
      let inside = reaches-heap m u in
      let of_head = reaches-head m u in
      let head_node : IsNode head m.memory head = (
        of_head head (omega arith) (omega arith),
        of_head (head + 4) (omega arith) (omega arith),
        of_head (head + 8) (omega arith) (omega arith),
      ) in
      let node : IsNode head m.memory (b + 8) = (
        inside (b + 8) (omega arith) (omega arith),
        inside (b + 8 + 4) (omega arith) (omega arith),
        inside (b + 8 + 8) (omega arith) (omega arith),
      ) in
      let ring : Ring head (ready m) [] = record {
        chain = unfold Chain in (ready_next m u, ready_prev m u);
        spread = unfold Spread in (tt, tt);
        nodes = (head_node, tt);
      } in
      let (m', f, ring', fresh) =
        new_block-Fresh head (ready m) (b + 8) 4092 [] refl (omega arith) (omega arith) node
          (inside (b + 8 + 4092 - 4) (omega arith) (omega arith))
          (inside (b + 8 + 4092) (omega arith) (omega arith)) (omega arith, tt) ring in
      let foot : b + 8 + 4092 - 4 ≡ b + 4096 = omega arith in
      let end : b + 8 + 4092 ≡ b + 4100 = omega arith in
      (
        m',
        prologue-run m u k m' e f,
        ring',
        fresh.others b (inl (omega arith)) ((omega arith, omega arith), tt) ∙ ready_prologue m,
        fresh.others (b + 4) (inl (omega arith)) ((omega arith, omega arith), tt) ∙ ready_foot m,
        fresh.size,
        ap m'.word (sym foot) ∙ fresh.footer,
        ap m'.word (sym end) ∙ fresh.epilogue,
        fresh.same_memory ∙ ap (λ (i : ℕ). record m.memory { brk = i }) (omega arith),
      )
