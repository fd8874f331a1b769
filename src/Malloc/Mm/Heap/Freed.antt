-- ===== src/Malloc/Mm/Heap/Freed.antt =====
-- The heap of malloclab/mm.c after a block and its free neighbours have become one free block.
use csapp.Common.{
  ℕ, ◌+◌, ◌≤◌, ◌<◌, ◌≡◌, ◌≢◌, ◌⊎◌, refl, sym, inl, inr, List, [], ◌∷◌, ◌++◌, All, arith,
}
use csapp.Malloc.Word.{Mm, done}
use csapp.Malloc.Mm.Ring.{Clear}
use csapp.Malloc.Mm.Lists.{Ring}
use csapp.Malloc.Mm.Requests.{mm_free}
use csapp.Malloc.Mm.Heap.{Tile, Stands, Tiles, At, FreeAt, UsedAt, In, Heap}
use csapp.Malloc.Mm.Heap.Tiles.{Tiles-At, At-left, At-right, At-append}
use csapp.Malloc.Mm.Heap.Replace.{FreeNow, Stays-word, Tiles-replaced, Heap-replaced}
use csapp.Malloc.Mm.Heap.Listed.{All-In, In-All}
use csapp.Malloc.Mm.Heap.Blocks.{free_tile, used_tile}

-- `mm_free` has freed the block of n bytes at b: it lies in a free block. The other blocks in use are
-- still in use, with the same words in their payload.
pub record Freed (head rounds b n a e : ℕ) (ts : List Tile) (m : Mm) : Type 0 where
  pub after : Mm
  pub blocks : List Tile
  pub list : List ℕ
  pub run : mm_free head rounds (b + 12) m ≡ done tt after
  pub heap : Heap head a e blocks list after
  pub start : ℕ
  pub size : ℕ
  pub free : At a blocks start (free_tile size)
  pub around : (start ≤ b) × (b + n ≤ start + size)
  pub kept :
      (y k : ℕ)
      → UsedAt a ts y k
      → y ≢ b
      → UsedAt a blocks y k × ((q : ℕ) → y + 12 ≤ q → q < y + k → after.word q ≡ m.word q)

-- The blocks ms from `first` to d, among them the one at b, become one free block of t bytes.
module _ (head rounds a e b n first d t : ℕ) (us ms vs : List Tile) (xs xs' : List ℕ) (m m' : Mm)
    (h : Heap head a e (us ++ (ms ++ vs)) xs m) (front : Tiles m.word a us first)
    (old : Tiles m.word first ms d) (behind : Tiles m.word d vs e)
    (run : mm_free head rounds (b + 12) m ≡ done tt m')
    (stands : Stands m'.word first (free_tile t)) (whole : first + t ≡ d)
    (memory : m'.memory ≡ m.memory)
    (others : (q : ℕ) → (q < first) ⊎ (d ≤ q) → All (Clear q) (head ∷ xs) → m'.word q ≡ m.word q)
    (ring : Ring head m' xs') (only : (y k : ℕ) → UsedAt first ms y k → y ≡ b)
    (around : (first ≤ b) × (b + n ≤ d))
    (listed : (y : ℕ) → In y xs' → (In y xs × ((y < first) ⊎ (d ≤ y))) ⊎ (y ≡ first))
    (complete : (y : ℕ) → (In y xs × ((y < first) ⊎ (d ≤ y))) ⊎ (y ≡ first) → In y xs') where
  abbrev ts : List Tile
  ts = us ++ (ms ++ vs)

  abbrev ns : List Tile
  ns = free_tile t ∷ []

  new : Tiles m'.word first ns d
  unfolding Tiles
  new = (stands, whole)

  -- A block stands in front, among those that change, or behind.
  where_At : (y : ℕ) (u : Tile) → At a ts y u → At a us y u ⊎ At first ms y u ⊎ At d vs y u
  where_At y u f = elim (At-append m.word a us first (ms ++ vs) y u front f) [
    | inl l ↦ inl l
    | inr r ↦ inr (At-append m.word first ms d vs y u old r)
  ]

  abbrev Now : ℕ → Type 0
  Now = FreeNow head a e first d us ms ns vs xs xs' m m' h front old behind new others

  now : (y : ℕ) → In y xs' → Now y
  unfolding At
  now y i = elim (listed y i) [
    | inr p ↦ inr (inl (t, inl (sym p, refl)))
    | inl (j, out) ↦
        let (k, f) = All-In (FreeAt a ts) xs y h.listed j in
        elim (where_At y (free_tile k) f) [
          | inl l ↦ inl (k, l)
          | inr (inl g) ↦
              let (s, low, high) = Tiles-At m.word first ms d y (free_tile k) old g in
              let large = s.large in absurd (omega arith)
          | inr (inr r) ↦ inr (inr (k, r))
        ]
  ]

  all : (y : ℕ) → Now y → In y xs'
  unfolding At
  all y f = elim f [
    | inl (k, l) ↦
        let (s, low, high) = Tiles-At m.word a us first y (free_tile k) front l in
        let large = s.large in
        complete y
          (inl (h.complete y (k, At-left a us (ms ++ vs) y (free_tile k) l), inl (omega arith)))
    | inr (inl (k, inl (p, _))) ↦ complete y (inr (sym p))
    | inr (inl (k, inr g)) ↦ absurd g
    | inr (inr (k, r)) ↦
        let (s, low, high) = Tiles-At m.word d vs e y (free_tile k) behind r in
        complete y (
          inl (
            h.complete y (
              k,
              At-right m.word a us first (ms ++ vs) y (free_tile k) front
                  (At-right m.word first ms d vs y (free_tile k) old r),
            ),
            inr low,
          ))
  ]

  pub freed : Freed head rounds b n a e ts m
  unfolding At
  freed =
      let (l, r, _) =
        Tiles-replaced head a e first d us ms ns vs xs xs' m m' h front old behind new others in
      record {
        after = m';
        blocks = us ++ (ns ++ vs);
        list = xs';
        run = run;
        heap =
            Heap-replaced head a e first d us ms ns vs xs xs' m m' h front old behind new others
              memory ring (In-All Now xs' now) all;
        start = first;
        size = t;
        free = At-right m'.word a us first (ns ++ vs) first (free_tile t) l (inl (refl, refl));
        around = (around.0, omega arith);
        kept = λ y k f ne.
            let stays : At a us y (used_tile k) ⊎ At d vs y (used_tile k) =
              elim (where_At y (used_tile k) f) [
                | inl i ↦ inl i
                | inr (inl i) ↦ absurd (ne (only y k i))
                | inr (inr i) ↦ inr i
              ] in
            (
              elim stays [
                | inl i ↦ At-left a us (ns ++ vs) y (used_tile k) i
                | inr i ↦
                    At-right m'.word a us first (ns ++ vs) y (used_tile k) l
                      (At-right m'.word first ns d vs y (used_tile k) new i)
              ],
              λ q low high.
                  Stays-word head a e first d us ms ns vs xs xs' m m' h front old behind new others
                    y (used_tile k) q stays (inr (low, high)),
            );
      }
