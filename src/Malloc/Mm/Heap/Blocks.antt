-- ===== src/Malloc/Mm/Heap/Blocks.antt =====
-- The blocks of the heap of malloclab/mm.c: what its invariant says of each.
use csapp.Common.{ℕ, ◌+◌, ◌≤◌, ◌≡◌, ◌⊎◌, inl, inr, true, false, List, ◌∷◌, All, All-map, arith}
use csapp.Malloc.Word.{Mm, reaches}
use csapp.Malloc.Mm.Fit.{IsFree}
use csapp.Malloc.Mm.Split.{Room}
use csapp.Malloc.Mm.Heap.{Tile, Stands, At, FreeAt, Heap}
use csapp.Malloc.Mm.Heap.Tiles.{Tiles-At, At-apart}

abbrev pub free_tile : ℕ → Tile
free_tile n = record { size = n; used = false }

abbrev pub used_tile : ℕ → Tile
used_tile n = record { size = n; used = true }

module _ (head a e : ℕ) (ts : List Tile) (xs : List ℕ) (m : Mm) (h : Heap head a e ts xs m) where
  -- What lies between the prologue and the end of the heap is in memory.
  pub Heap-reaches : (q : ℕ) → a ≤ q + 8 → q ≤ e → reaches head m.memory q ≡ true
  Heap-reaches q l g = let start = h.start in let end = h.end in ground arith

  pub Heap-FreeAt :
      (y n : ℕ) → At a ts y (free_tile n) → Stands m.word y (free_tile n) × (a ≤ y) × (y + n ≤ e)
  Heap-FreeAt y n k = Tiles-At m.word a ts e y (free_tile n) h.tiles k

  -- No other header of the list stands in a free block.
  pub Heap-Room : (y : ℕ) (t : Tile) → At a ts y t → Room head y t.size (head ∷ xs)
  Heap-Room y t k =
      let (s, l, g) = Tiles-At m.word a ts e y t h.tiles k in
      let large = s.large in
      let away = h.away in
      (
        omega arith,
        All-map (FreeAt a ts) (λ x. (x ≡ y) ⊎ (x + 12 ≤ y) ⊎ (y + t.size ≤ x)) xs
            (λ x (n, f).
              let large' = (Heap-FreeAt x n f).0.large in
              elim (At-apart m.word a ts e x (free_tile n) y t h.tiles f k) [
                | inl (p, _) ↦ inl p
                | inr c ↦ inr (omega arith)
              ])
            h.listed,
      )

  pub Heap-IsFree : All (IsFree m.word) xs
  Heap-IsFree =
      All-map (FreeAt a ts) (IsFree m.word) xs
        (λ x (n, f).
          let s = (Heap-FreeAt x n f).0 in
          let aligned = s.aligned in let header = s.header in omega arith)
        h.listed
