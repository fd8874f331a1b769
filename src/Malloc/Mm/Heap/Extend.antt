-- ===== src/Malloc/Mm/Heap/Extend.antt =====
-- `mm_malloc` of malloclab/mm.c on a whole heap without a free block: the heap is extended.
use mathlib.Core.Path.{subst}
use csapp.Common.{
  ℕ, zero, suc, ◌+◌, ◌-◌, ◌%◌, ◌^◌, ◌≤◌, ◌<◌, ◌≡◌, ◌⊎◌, refl, sym, ap, ◌∙◌, inl, inr, List, [], ◌∷◌,
  ◌++◌, arith,
}
use csapp.Malloc.Memlib.{Memory}
use csapp.Malloc.Word.{Mm, done}
use csapp.Malloc.Mm.{get_block_size}
use csapp.Malloc.Mm.Lists.{Ring}
use csapp.Malloc.Mm.Fit.{get_block_size_lem}
use csapp.Malloc.Mm.Split.{Holds}
use csapp.Malloc.Mm.Requests.{expand_heap, mm_malloc}
use csapp.Malloc.Mm.Requests.Renewal.{
  amount, amount_lem, Full, grown-elsewhere, expand_heap-Fresh, served, find_fit-empty,
  mm_malloc-expand_heap,
}
use csapp.Malloc.Mm.Heap.{Tile, Stands, Tiles, At, FreeAt, UsedAt, In, Heap}
use csapp.Malloc.Mm.Heap.Tiles.{
  Tiles_order, Tiles-At, Tiles-append, At-left, At-right, At-append, Tiles-kept,
}
use csapp.Malloc.Mm.Heap.Blocks.{free_tile, used_tile, Heap-reaches, Heap-FreeAt}
use csapp.Malloc.Mm.Heap.Served.{Served}
use csapp.Malloc.Mm.Heap.Allocate.{mm_malloc-Heap}

-- The memory has room for `more` bytes behind the heap, away from `head`.
pub record Growable (head a more : ℕ) (m : Memory) : Type 0 where
  pub low : 16 ≤ a
  pub room : m.brk + more ≤ m.max_addr
  pub top : m.brk + more < 2 ^ 32
  pub away : (head + 12 ≤ a - 8) ⊎ (m.brk + more ≤ head)

module _ (head rounds a e more : ℕ) (ts : List Tile) (m : Mm) (h : Heap head a e ts [] m)
    (g : Growable head a more m.memory) (m4 : more % 4 ≡ 0) (big : 4096 ≤ more)
    (small : more < 2 ^ 31) where
  heap-Full : Full head m more
  heap-Full =
      let low = g.low in
      let end = h.end in
      let start = h.start in
      let order = Tiles_order m.word a ts e h.tiles in
      let last : e ≡ m.memory.brk - 4 = omega arith in
      let away = g.away in
      record {
        ring = h.ring;
        epilogue = ap m.word (sym last) ∙ h.epilogue;
        start = omega arith;
        low = omega arith;
        room = g.room;
        top = g.top;
        away = omega arith;
      }

  -- `expand_heap` leaves the heap with a free block of `more` bytes at its end, and nothing else changed.
  pub expand_heap-Heap :
      (m₁ : Mm) × (expand_heap head (suc rounds) more m ≡ done tt m₁)
      × Heap head a (e + more) (ts ++ (free_tile more ∷ [])) (e ∷ []) m₁
      × ((q : ℕ) → a ≤ q + 8 → q < e → m₁.word q ≡ m.word q)
      × (m₁.memory ≡ record m.memory { brk = m.memory.brk + more })
  unfolding At In Tiles
  expand_heap-Heap =
      let full = heap-Full in
      let low = g.low in
      let end = h.end in
      let start = h.start in
      let away = g.away in
      let order = Tiles_order m.word a ts e h.tiles in
      let b = m.memory.brk - 4 in
      let last : b ≡ e = omega arith in
      let (m₁, f, ring, fresh) = expand_heap-Fresh head m more full m4 big small rounds in
      let same : (q : ℕ) → a ≤ q + 8 → q < e → m₁.word q ≡ m.word q = λ q l k.
        fresh.others q (inl (omega arith)) ((omega arith, omega arith), tt)
        ∙ grown-elsewhere head m more full m4 big small q (inl (omega arith)) in
      let kept : Tiles m₁.word a ts e =
        Tiles-kept m.word m₁.word a ts e
          (λ y t k.
            let (s, l, r) = Tiles-At m.word a ts e y t h.tiles k in
            let large = s.large in
            (same y (omega arith) (omega arith), same (y + t.size - 4) (omega arith) (omega arith)))
          h.tiles in
      let stands : Stands m₁.word e (free_tile more) = record {
        large = omega arith;
        aligned = m4;
        header = ap m₁.word (sym last) ∙ fresh.size;
        footer = inl (ap (λ (i : ℕ). m₁.word (i + more - 4)) (sym last) ∙ fresh.footer);
      } in
      let brk : m₁.memory.brk ≡ m.memory.brk + more =
        ap (λ (x : Memory). x.brk) fresh.same_memory in
      let first : m₁.memory.start_brk ≡ m.memory.start_brk =
        ap (λ (x : Memory). x.start_brk) fresh.same_memory in
      let max : m₁.memory.max_addr ≡ m.memory.max_addr =
        ap (λ (x : Memory). x.max_addr) fresh.same_memory in
      let room = g.room in
      let top = g.top in
      let at : FreeAt a (ts ++ (free_tile more ∷ [])) e = (
        more,
        At-right m₁.word a ts e (free_tile more ∷ []) e (free_tile more) kept (inl (refl, refl)),
      ) in
      (
        m₁,
        f,
        record {
          ring = subst (λ i. Ring head m₁ (i ∷ [])) last ring;
          tiles = Tiles-append m₁.word a ts e (free_tile more ∷ []) (e + more) kept (stands, refl);
          listed = (at, tt);
          complete = λ y (k, i).
              elim (At-append m₁.word a ts e (free_tile more ∷ []) y (free_tile k) kept i) [
                | inl j ↦ absurd (h.complete y (k, j))
                | inr (inl (p, _)) ↦ inl (sym p)
                | inr (inr n) ↦ absurd n
              ];
          prologue = (
            same (a - 8) (omega arith) (omega arith) ∙ h.prologue.0,
            same (a - 4) (omega arith) (omega arith) ∙ h.prologue.1,
          );
          epilogue = ap (λ (i : ℕ). m₁.word (i + more)) (sym last) ∙ fresh.epilogue;
          start = omega arith;
          end = (omega arith, omega arith, omega arith);
          away = omega arith;
        },
        same,
        fresh.same_memory,
      )

-- With no free block and room behind the heap, for a request of fewer than 2^31 - 35 bytes and with two
-- rounds, `mm_malloc` first extends the heap by one free block, of 4096
-- bytes or more where the request needs them, and then serves the request as on the extended heap, which
-- is well formed. All blocks in use are in use in the extended heap, with the same words.
pub mm_malloc-Growable :
    (head rounds size a e : ℕ) (ts : List Tile) (m : Mm)
    → Heap head a e ts [] m
    → 1 < rounds
    → size + 35 < 2 ^ 31
    → Growable head a (amount (get_block_size size)) m.memory
    → (m₁ : Mm) × (mm_malloc head rounds size m ≡ mm_malloc head rounds size m₁)
      × Served head rounds size a
          (e + amount (get_block_size size))
          (ts ++ (free_tile (amount (get_block_size size)) ∷ []))
          m₁
      × ((y n : ℕ)
          → UsedAt a ts y n
          → UsedAt a (ts ++ (free_tile (amount (get_block_size size)) ∷ [])) y n
            × ((q : ℕ) → y + 12 ≤ q → q < y + n → m₁.word q ≡ m.word q))
unfolding At
mm_malloc-Growable head zero size a e ts m h k q g = absurd (omega arith)
mm_malloc-Growable head (suc rounds) size a e ts m h k q g =
    let need = get_block_size size in
    let more = amount need in
    let (big, close, s4) = get_block_size_lem size (omega arith) in
    let (enough, large, m4) = amount_lem need s4 in
    let small : more < 2 ^ 31 = ground arith in
    let low = g.low in
    let order = Tiles_order m.word a ts e h.tiles in
    let (m₁, f, h₁, same, _) = expand_heap-Heap head rounds a e more ts m h g m4 large small in
    let ts₁ = ts ++ (free_tile more ∷ []) in
    let end₁ = h₁.end in
    let inside = Heap-reaches head a (e + more) ts₁ (e ∷ []) m₁ h₁ in
    let free = h₁.listed.0 in
    let kept : Tiles m₁.word a ts e =
      Tiles-kept m.word m₁.word a ts e
        (λ y t i.
          let (s, l, r) = Tiles-At m.word a ts e y t h.tiles i in
          let wide = s.large in
          (same y (omega arith) (omega arith), same (y + t.size - 4) (omega arith) (omega arith)))
        h.tiles in
    let at : At a ts₁ e (free_tile more) =
      At-right m₁.word a ts e (free_tile more ∷ []) e (free_tile more) kept (inl (refl, refl)) in
    let header = (Heap-FreeAt head a (e + more) ts₁ (e ∷ []) m₁ h₁ e more at).0.header in
    let holds : need + 16 < more → Holds head m₁.memory e more need = λ wide. record {
      header = inside e (omega arith) (omega arith);
      half = (
        inside (e + need) (omega arith) (omega (arith, wide)),
        inside (e + need + 4) (omega arith) (omega (arith, wide)),
        inside (e + need + 8) (omega arith) (omega (arith, wide)),
      );
      half_footer = inside (e + need - 4) (omega arith) (omega (arith, wide));
      footer = inside (e + more - 4) (omega arith) (omega arith);
    } in
    let away = h₁.away in
    let (m₂, t, found, _, _, _) =
      served head (suc rounds) m₁ size e more k (omega arith) h₁.ring header m4 enough (omega arith)
        (omega arith) holds (omega arith, (inl refl, tt)) in
    (
      m₁,
      mm_malloc-expand_heap head (suc rounds) m m₁ m₂ size e
          (find_fit-empty head (suc rounds) m need (omega arith) h.ring) f found,
      mm_malloc-Heap head (suc rounds) size a (e + more) ts₁ (e ∷ []) m₁ e more h₁ (omega arith) k
          at enough,
      λ y n u.
          let (s, l, r) = Tiles-At m.word a ts e y (used_tile n) h.tiles u in
          (
            At-left a ts (free_tile more ∷ []) y (used_tile n) u,
            λ p i j. same p (omega arith) (omega arith),
          ),
    )
