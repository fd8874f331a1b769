-- ===== src/Malloc/Mm/Heap/Allocate.antt =====
-- `mm_malloc` of malloclab/mm.c on the whole heap, where a free block is large enough.
use mathlib.Core.Path.{subst}
use csapp.Common.{
  ℕ, ◌+◌, ◌-◌, ◌^◌, ◌≤◌, ◌<◌, ◌≡◌, ◌⊎◌, refl, sym, ap, ◌∙◌, inl, inr, leb, List, [], ◌∷◌, ◌++◌,
  length, All, All-map, Bool-cases, arith,
}
use csapp.Malloc.Word.{Mm}
use csapp.Malloc.Mm.{get_block_size}
use csapp.Malloc.Mm.Fit.{get_block_size_lem}
use csapp.Malloc.Mm.Split.{Room, Holds}
use csapp.Malloc.Mm.Take.{Clear-among}
use csapp.Malloc.Mm.Requests.Allocate.{mm_malloc-whole, mm_malloc-Halved}
use csapp.Malloc.Mm.Heap.{Tile, Stands, Tiles, At, FreeAt, In, Heap}
use csapp.Malloc.Mm.Heap.Tiles.{Tiles-split}
use csapp.Malloc.Mm.Heap.Replace.{Heap-Clear}
use csapp.Malloc.Mm.Heap.Listed.{All-In, In-here, In-with, In-without, first_large}
use csapp.Malloc.Mm.Heap.Blocks.{
  free_tile, used_tile, Heap-reaches, Heap-FreeAt, Heap-Room, Heap-IsFree,
}
use csapp.Malloc.Mm.Heap.Served.{Served, b-At, b-Stands, b-word, served}

module _ (head rounds size a e b n : ℕ) (us vs : List Tile) (ys zs : List ℕ) (m : Mm)
    (h : Heap head a e (us ++ (free_tile n ∷ vs)) (ys ++ (b ∷ zs)) m) (front : Tiles m.word a us b)
    (behind : Tiles m.word (b + n) vs e) (small_request : size + 35 < 2 ^ 32)
    (enough : length (ys ++ (b ∷ zs)) < rounds)
    (too_small : All (λ z. m.word z < get_block_size size) ys)
    (fits : get_block_size size ≤ m.word b) where
  abbrev ts : List Tile
  ts = us ++ (free_tile n ∷ vs)

  abbrev xs : List ℕ
  xs = ys ++ (b ∷ zs)

  b_here : At a ts b (free_tile n)
  b_here =
      b-At head rounds size a e b n us vs ys zs m h front behind small_request enough too_small fits

  b_block : Stands m.word b (free_tile n)
  b_block =
      b-Stands head rounds size a e b n us vs ys zs m h front behind small_request enough too_small
        fits

  -- The whole block is handed out.
  Served-whole : n ≤ get_block_size size + 16 → Served head rounds size a e ts m
  unfolding Tiles At
  Served-whole close =
      let (big, less, _) = get_block_size_lem size (omega arith) in
      let large = b_block.large in
      let word =
        b-word head rounds size a e b n us vs ys zs m h front behind small_request enough too_small
          fits in
      let room = Heap-Room head a e ts xs m h b (free_tile n) b_here in
      let (m', f, ring, header, memory, others) =
        mm_malloc-whole head rounds m size ys b zs (omega arith) h.ring
          (Heap-IsFree head a e ts xs m h) enough too_small fits (omega arith) (omega arith)
          (All-map (λ x. (x ≡ b) ⊎ (x + 12 ≤ b) ⊎ (b + n ≤ x))
            (λ x. (x ≡ b) ⊎ (x + 12 ≤ b) ⊎ (b + 16 ≤ x)) (head ∷ xs) (λ x c. omega arith) room) in
      let at_foot =
        Heap-Clear head a e ts xs m h b (free_tile n) (b + n - 4) b_here
          (inr (omega arith, omega arith)) in
      let foot : m'.word (b + n - 4) ≡ m.word (b + n - 4) =
        others (b + n - 4) (omega arith) at_foot in
      let stands : Stands m'.word b (used_tile n) = record {
        large = large;
        aligned = b_block.aligned;
        header = omega arith;
        footer = elim b_block.footer [ inl k ↦ inl (foot ∙ k) | inr k ↦ inr (foot ∙ k) ];
      } in
      served head rounds size a e b n us vs ys zs m h front behind small_request enough too_small
        fits m' (used_tile n ∷ []) (ys ++ zs) n f (stands, refl) memory
        (λ q out c. others q (omega arith) c) ring (λ y i. inl i)
        (λ y i. elim i [
          | inl j ↦ j
          | inr (k, inl (_, g)) ↦ let t = ap (λ (t : Tile). t.used) g in cc
          | inr (k, inr g) ↦ absurd g
        ])
        (inl (refl, refl)) (omega arith)

  -- The front of the block is handed out.
  Served-Halved : get_block_size size + 16 < n → Served head rounds size a e ts m
  unfolding Tiles At
  Served-Halved more =
      let need = get_block_size size in
      let (big, less, need4) = get_block_size_lem size (omega arith) in
      let large = b_block.large in
      let aligned = b_block.aligned in
      let word =
        b-word head rounds size a e b n us vs ys zs m h front behind small_request enough too_small
          fits in
      let (_, low, high) = Heap-FreeAt head a e ts xs m h b n b_here in
      let end = h.end in
      let inside = Heap-reaches head a e ts xs m h in
      let holds : Holds head m.memory b n need = record {
        header = inside b (omega arith) (omega arith);
        half = (
          inside (b + need) (omega arith) (omega arith),
          inside (b + need + 4) (omega arith) (omega arith),
          inside (b + need + 8) (omega arith) (omega arith),
        );
        half_footer = inside (b + need - 4) (omega arith) (omega arith);
        footer = inside (b + n - 4) (omega arith) (omega arith);
      } in
      let room = Heap-Room head a e ts xs m h b (free_tile n) b_here in
      let (m', f, ring, halved) =
        mm_malloc-Halved head rounds m size ys b zs (omega arith) h.ring
          (Heap-IsFree head a e ts xs m h) enough too_small fits (omega arith) (omega arith)
          (subst (λ i. Holds head m.memory b i need) (sym word) holds)
          (subst (λ i. Room head b i (head ∷ xs)) (sym word) room) in
      let c = b + need in
      let first : Stands m'.word b (used_tile need) = record {
        large = omega arith;
        aligned = need4;
        header = halved.first;
        footer = inl halved.first_footer;
      } in
      let last_word : b + need + (n - need) - 4 ≡ b + m.word b - 4 = omega arith in
      let rest : n - need ≡ m.word b - need = omega arith in
      let second : Stands m'.word c (free_tile (n - need)) = record {
        large = omega arith;
        aligned = omega arith;
        header = halved.second ∙ sym rest;
        footer = inl (ap m'.word last_word ∙ halved.second_footer ∙ sym rest);
      } in
      served head rounds size a e b n us vs ys zs m h front behind small_request enough too_small
        fits m' (used_tile need ∷ free_tile (n - need) ∷ []) (ys ++ (c ∷ zs)) need f
        (first, (second, omega arith)) halved.same_memory
        (λ q out clear.
          halved.others q (omega arith)
            (clear.0, Clear-among q b c ys zs clear.1 (omega arith, omega arith)))
        ring
        (λ y i. elim (In-without y ys c zs i) [
          | inl p ↦ inr (n - need, inr (inl (sym p, refl)))
          | inr j ↦ inl j
        ])
        (λ y i. elim i [
          | inl j ↦ In-with y ys c zs j
          | inr (k, inl (_, g)) ↦ let t = ap (λ (t : Tile). t.used) g in cc
          | inr (k, inr (inl (p, _))) ↦ subst (λ i. In i (ys ++ (c ∷ zs))) p (In-here ys c zs)
          | inr (k, inr (inr g)) ↦ absurd g
        ])
        (inl (refl, refl)) (omega arith)

-- On a heap whose blocks lie side by side, with a free one that is large enough for a request of fewer
-- than 2^32 - 35 bytes, and with more rounds than the list has blocks, `mm_malloc` returns the payload of a block that was free and is in use now, with room for the request. The heap is as well
-- formed as before: the blocks fill it, with their headers and footers, and the list has just the free
-- ones. All blocks in use stay, and the words of their payload.
pub mm_malloc-Heap :
    (head rounds size a e : ℕ) (ts : List Tile) (xs : List ℕ) (m : Mm) (y n : ℕ)
    → Heap head a e ts xs m
    → size + 35 < 2 ^ 32
    → length xs < rounds
    → At a ts y (free_tile n)
    → get_block_size size ≤ n
    → Served head rounds size a e ts m
mm_malloc-Heap head rounds size a e ts xs m y n h small enough free fits =
    let there = (Heap-FreeAt head a e ts xs m h y n free).0.header in
    let (ys, b, zs, f, too_small, large) =
      first_large m.word (get_block_size size) y xs (h.complete y (n, free)) (omega arith) in
    let h₁ = subst (λ l. Heap head a e ts l m) f h in
    let (k, at) = All-In (FreeAt a ts) (ys ++ (b ∷ zs)) b h₁.listed (In-here ys b zs) in
    let (us, vs, g, front, behind) = Tiles-split m.word a ts e b (free_tile k) h.tiles at in
    let h₂ = subst (λ l. Heap head a e l (ys ++ (b ∷ zs)) m) g h₁ in
    let enough₁ = subst (λ (l : List ℕ). length l < rounds) f enough in
    subst (λ l. Served head rounds size a e l m) (sym g)
      (elim (Bool-cases (leb k (get_block_size size + 16))) [
        | inl c ↦
            Served-whole head rounds size a e b k us vs ys zs m h₂ front behind small enough₁
              too_small large (ground arith)
        | inr c ↦
            Served-Halved head rounds size a e b k us vs ys zs m h₂ front behind small enough₁
              too_small large (ground arith)
      ])
