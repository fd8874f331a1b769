-- ===== src/Malloc/Mm/Heap/Replace.antt =====
-- A change of some blocks of malloclab/mm.c that leaves the rest of the heap.
use csapp.Common.{
  ℕ, ◌+◌, ◌-◌, ◌≤◌, ◌<◌, ◌≡◌, ◌⊎◌, refl, ◌∙◌, inl, inr, false, List, ◌∷◌, ◌++◌, All, All-map, arith,
}
use csapp.Malloc.Word.{Mm}
use csapp.Malloc.Mm.Ring.{Clear}
use csapp.Malloc.Mm.Lists.{Ring}
use csapp.Malloc.Mm.Heap.{Tile, Tiles, At, FreeAt, In, Heap}
use csapp.Malloc.Mm.Heap.Tiles.{
  Tiles_order, Tiles-At, Tiles-append, At-left, At-right, At-append, Tiles-kept, Clear-At,
}

module _ (head a e : ℕ) (ts : List Tile) (xs : List ℕ) (m : Mm) (h : Heap head a e ts xs m) where
  -- A word of a block that is none of its links is no link of the list.
  pub Heap-Clear :
      (y : ℕ) (t : Tile) (q : ℕ)
      → At a ts y t
      → (q ≡ y) ⊎ ((y + 12 ≤ q) × (q < y + t.size))
      → All (Clear q) (head ∷ xs)
  Heap-Clear y t q k at =
      let (s, l, g) = Tiles-At m.word a ts e y t h.tiles k in
      let large = s.large in
      let away = h.away in
      (
        (omega arith, omega arith),
        All-map (FreeAt a ts) (Clear q) xs (λ x f. Clear-At m.word a ts e y t q x h.tiles k f at)
            h.listed,
      )

  -- Nor is a word in front of the blocks or behind them.
  pub Outside-Clear : (q : ℕ) → ((a ≤ q + 8) × (q < a)) ⊎ (q ≡ e) → All (Clear q) (head ∷ xs)
  Outside-Clear q out =
      let away = h.away in
      let start = h.start in
      let order = Tiles_order m.word a ts e h.tiles in
      (
        (omega arith, omega arith),
        All-map (FreeAt a ts) (Clear q) xs
            (λ x (n, f).
              let (s, l, g) =
                Tiles-At m.word a ts e x (record { size = n; used = false }) h.tiles f in
              let large = s.large in (omega arith, omega arith))
            h.listed,
      )

module _ (head a e b d : ℕ) (us ms ns vs : List Tile) (xs xs' : List ℕ) (m m' : Mm)
    (h : Heap head a e (us ++ (ms ++ vs)) xs m) (front : Tiles m.word a us b)
    (old : Tiles m.word b ms d) (behind : Tiles m.word d vs e) (new : Tiles m'.word b ns d)
    (others : (q : ℕ) → (q < b) ⊎ (d ≤ q) → All (Clear q) (head ∷ xs) → m'.word q ≡ m.word q) where
  -- A block that stays.
  abbrev pub Stays : ℕ → Tile → Type 0
  Stays y t = At a us y t ⊎ At d vs y t

  Stays-At : (y : ℕ) (t : Tile) → Stays y t → At a (us ++ (ms ++ vs)) y t
  Stays-At y t k = elim k [
    | inl l ↦ At-left a us (ms ++ vs) y t l
    | inr r ↦ At-right m.word a us b (ms ++ vs) y t front (At-right m.word b ms d vs y t old r)
  ]

  -- Its words but its links stay.
  pub Stays-word :
      (y : ℕ) (t : Tile) (q : ℕ)
      → Stays y t
      → (q ≡ y) ⊎ ((y + 12 ≤ q) × (q < y + t.size))
      → m'.word q ≡ m.word q
  Stays-word y t q k at =
      let out : (q < b) ⊎ (d ≤ q) = elim k [
        | inl l ↦
            let (s, _, g) = Tiles-At m.word a us b y t front l in let large = s.large in omega arith
        | inr r ↦
            let (s, g, _) = Tiles-At m.word d vs e y t behind r in
            let large = s.large in omega arith
      ] in
      others q out (Heap-Clear head a e (us ++ (ms ++ vs)) xs m h y t q (Stays-At y t k) at)

  -- The new blocks and those that stay.
  pub Tiles-replaced :
      Tiles m'.word a us b × Tiles m'.word d vs e × Tiles m'.word a (us ++ (ns ++ vs)) e
  Tiles-replaced =
      let l : Tiles m'.word a us b =
        Tiles-kept m.word m'.word a us b
          (λ y t k.
            let large = (Tiles-At m.word a us b y t front k).0.large in
            (
              Stays-word y t y (inl k) (inl refl),
              Stays-word y t (y + t.size - 4) (inl k) (inr (omega arith, omega arith)),
            ))
          front in
      let r : Tiles m'.word d vs e =
        Tiles-kept m.word m'.word d vs e
          (λ y t k.
            let large = (Tiles-At m.word d vs e y t behind k).0.large in
            (
              Stays-word y t y (inr k) (inl refl),
              Stays-word y t (y + t.size - 4) (inr k) (inr (omega arith, omega arith)),
            ))
          behind in
      (l, r, Tiles-append m'.word a us b (ns ++ vs) e l (Tiles-append m'.word b ns d vs e new r))

  -- A free block afterwards.
  abbrev pub FreeNow : ℕ → Type 0
  FreeNow y = FreeAt a us y ⊎ FreeAt b ns y ⊎ FreeAt d vs y

  FreeNow-At : (y : ℕ) → FreeNow y → FreeAt a (us ++ (ns ++ vs)) y
  FreeNow-At y k =
      let (l, r, _) = Tiles-replaced in
      elim k [
        | inl (n, f) ↦ (n, At-left a us (ns ++ vs) y (record { size = n; used = false }) f)
        | inr (inl (n, f)) ↦
            let t : Tile = record { size = n; used = false } in
            (n, At-right m'.word a us b (ns ++ vs) y t l (At-left b ns vs y t f))
        | inr (inr (n, f)) ↦
            let t : Tile = record { size = n; used = false } in
            (n, At-right m'.word a us b (ns ++ vs) y t l (At-right m'.word b ns d vs y t new f))
      ]

  At-FreeNow : (y : ℕ) → FreeAt a (us ++ (ns ++ vs)) y → FreeNow y
  At-FreeNow y (n, f) =
      let (l, r, _) = Tiles-replaced in
      let t : Tile = record { size = n; used = false } in
      elim (At-append m'.word a us b (ns ++ vs) y t l f) [
        | inl k ↦ inl (n, k)
        | inr k ↦ elim (At-append m'.word b ns d vs y t new k) [
          | inl i ↦ inr (inl (n, i))
          | inr i ↦ inr (inr (n, i))
        ]
      ]

  pub Heap-replaced :
      m'.memory ≡ m.memory
      → Ring head m' xs'
      → All FreeNow xs'
      → ((y : ℕ) → FreeNow y → In y xs')
      → Heap head a e (us ++ (ns ++ vs)) xs' m'
  Heap-replaced memory ring listed complete =
      let (l, r, whole) = Tiles-replaced in
      let low = Tiles_order m.word a us b front in
      let high = Tiles_order m.word d vs e behind in
      let start = h.start in
      let outside = Outside-Clear head a e (us ++ (ms ++ vs)) xs m h in
      record {
        ring = ring;
        tiles = whole;
        listed = All-map FreeNow (FreeAt a (us ++ (ns ++ vs))) xs' FreeNow-At listed;
        complete = λ y f. complete y (At-FreeNow y f);
        prologue = (
          others (a - 8) (inl (omega arith)) (outside (a - 8) (inl (omega arith, omega arith)))
              ∙ h.prologue.0,
          others (a - 4) (inl (omega arith)) (outside (a - 4) (inl (omega arith, omega arith)))
              ∙ h.prologue.1,
        );
        epilogue = others e (inr high) (outside e (inr refl)) ∙ h.epilogue;
        start = rw memory h.start;
        end = rw memory h.end;
        away = h.away;
      }
