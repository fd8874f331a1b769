-- ===== src/Malloc/Mm/Heap/Served.antt =====
-- The heap of malloclab/mm.c after a free block has given room for a request.
use csapp.Common.{
  ℕ, ◌+◌, ◌^◌, ◌≤◌, ◌<◌, ◌≡◌, ◌≢◌, ◌⊎◌, refl, ap, inl, inr, List, [], ◌∷◌, ◌++◌, length, All, arith,
}
use csapp.Malloc.Word.{Mm, done}
use csapp.Malloc.Mm.{get_block_size}
use csapp.Malloc.Mm.Ring.{Clear, Spread}
use csapp.Malloc.Mm.Lists.{Ring}
use csapp.Malloc.Mm.Requests.{mm_malloc}
use csapp.Malloc.Mm.Heap.{Tile, Stands, Tiles, At, FreeAt, UsedAt, In, Heap}
use csapp.Malloc.Mm.Heap.Tiles.{Tiles-At, At-left, At-right, At-append}
use csapp.Malloc.Mm.Heap.Replace.{FreeNow, Stays-word, Tiles-replaced, Heap-replaced}
use csapp.Malloc.Mm.Heap.Listed.{All-In, In-All, In-with, In-without, Spread-In}
use csapp.Malloc.Mm.Heap.Blocks.{free_tile, used_tile, Heap-FreeAt}

-- `mm_malloc` has served `size` bytes at b + 12. Its block was free; the blocks in use before are still
-- in use, with the same words in their payload.
pub record Served (head rounds size a e : ℕ) (ts : List Tile) (m : Mm) : Type 0 where
  pub b : ℕ
  pub block : ℕ
  pub after : Mm
  pub blocks : List Tile
  pub list : List ℕ
  pub run : mm_malloc head rounds size m ≡ done (b + 12) after
  pub heap : Heap head a e blocks list after
  pub was_free : FreeAt a ts b
  pub in_use : UsedAt a blocks b block
  pub enough : size + 16 ≤ block
  pub kept :
      (y n : ℕ)
      → UsedAt a ts y n
      → UsedAt a blocks y n × ((q : ℕ) → y + 12 ≤ q → q < y + n → after.word q ≡ m.word q)

module _ (head rounds size a e b n : ℕ) (us vs : List Tile) (ys zs : List ℕ) (m : Mm)
    (h : Heap head a e (us ++ (free_tile n ∷ vs)) (ys ++ (b ∷ zs)) m) (front : Tiles m.word a us b)
    (behind : Tiles m.word (b + n) vs e) (small_request : size + 35 < 2 ^ 32)
    (enough : length (ys ++ (b ∷ zs)) < rounds)
    (too_small : All (λ z. m.word z < get_block_size size) ys)
    (fits : get_block_size size ≤ m.word b) where
  abbrev ts : List Tile
  ts = us ++ (free_tile n ∷ vs)

  abbrev xs : List ℕ
  xs = ys ++ (b ∷ zs)

  pub b-At : At a ts b (free_tile n)
  unfolding At
  b-At = At-right m.word a us b (free_tile n ∷ vs) b (free_tile n) front (inl (refl, refl))

  pub b-Stands : Stands m.word b (free_tile n)
  b-Stands = (Heap-FreeAt head a e ts xs m h b n b-At).0

  old : Tiles m.word b (free_tile n ∷ []) (b + n)
  unfolding Tiles
  old = (b-Stands, refl)

  -- The blocks of the list but b are free, in front of b or behind it.
  listed-others : (y : ℕ) → In y (ys ++ zs) → FreeAt a us y ⊎ FreeAt (b + n) vs y
  unfolding At Spread
  listed-others y k =
      let apart = let r = h.ring in Spread-In y ys b zs r.spread.1 k in
      let (n', f) = All-In (FreeAt a ts) xs y h.listed (In-with y ys b zs k) in
      elim (At-append m.word a us b (free_tile n ∷ vs) y (free_tile n') front f) [
        | inl l ↦ inl (n', l)
        | inr (inl (p, _)) ↦ absurd (omega arith)
        | inr (inr r) ↦ inr (n', r)
      ]

  others-listed : (y : ℕ) → FreeAt a us y ⊎ FreeAt (b + n) vs y → In y (ys ++ zs)
  unfolding At
  others-listed y k =
      let large = b-Stands.large in
      let stays : FreeAt a ts y × (y ≢ b) = elim k [
        | inl (n', f) ↦
            let (s, _, l) = Tiles-At m.word a us b y (free_tile n') front f in
            let large' = s.large in
            ((n', At-left a us (free_tile n ∷ vs) y (free_tile n') f), omega arith)
        | inr (n', f) ↦
            let (s, l, _) = Tiles-At m.word (b + n) vs e y (free_tile n') behind f in
            (
              (n', At-right m.word a us b (free_tile n ∷ vs) y (free_tile n') front (inr f)),
              omega arith,
            )
      ] in
      elim (In-without y ys b zs (h.complete y stays.0)) [ inl p ↦ absurd (stays.1 p) | inr r ↦ r ]

  UsedAt-others :
      (y k : ℕ) → UsedAt a ts y k → At a us y (used_tile k) ⊎ At (b + n) vs y (used_tile k)
  unfolding At
  UsedAt-others y k f = elim (At-append m.word a us b (free_tile n ∷ vs) y (used_tile k) front f) [
    | inl l ↦ inl l
    | inr (inl (_, p)) ↦ let q = ap (λ (t : Tile). t.used) p in cc
    | inr (inr r) ↦ inr r
  ]

  pub b-word : m.word b ≡ n
  b-word = b-Stands.header

  -- The blocks ns take the place of b, and the list gets their free ones.
  pub served :
      (m' : Mm) (ns : List Tile) (xs' : List ℕ) (k : ℕ)
      → mm_malloc head rounds size m ≡ done (b + 12) m'
      → Tiles m'.word b ns (b + n)
      → m'.memory ≡ m.memory
      → ((q : ℕ) → (q < b) ⊎ (b + n ≤ q) → All (Clear q) (head ∷ xs) → m'.word q ≡ m.word q)
      → Ring head m' xs'
      → ((y : ℕ) → In y xs' → In y (ys ++ zs) ⊎ FreeAt b ns y)
      → ((y : ℕ) → In y (ys ++ zs) ⊎ FreeAt b ns y → In y xs')
      → UsedAt b ns b k
      → size + 16 ≤ k
      → Served head rounds size a e ts m
  served m' ns xs' k run new memory others ring listed complete used big =
      let d = b + n in
      let ms = free_tile n ∷ [] in
      let Now = FreeNow head a e b d us ms ns vs xs xs' m m' h front old behind new others in
      let now : (y : ℕ) → In y xs' → Now y = λ y i. elim (listed y i) [
        | inl j ↦ elim (listed-others y j) [ inl l ↦ inl l | inr r ↦ inr (inr r) ]
        | inr f ↦ inr (inl f)
      ] in
      let all : (y : ℕ) → Now y → In y xs' = λ y f. complete y (elim f [
        | inl l ↦ inl (others-listed y (inl l))
        | inr (inl g) ↦ inr g
        | inr (inr r) ↦ inl (others-listed y (inr r))
      ]) in
      let (l, r, _) =
        Tiles-replaced head a e b d us ms ns vs xs xs' m m' h front old behind new others in
      record {
        b = b;
        block = k;
        after = m';
        blocks = us ++ (ns ++ vs);
        list = xs';
        run = run;
        heap =
            Heap-replaced head a e b d us ms ns vs xs xs' m m' h front old behind new others memory
              ring (In-All Now xs' now) all;
        was_free = (n, b-At);
        in_use =
            At-right m'.word a us b (ns ++ vs) b (used_tile k) l
              (At-left b ns vs b (used_tile k) used);
        enough = big;
        kept = λ y j f.
            let stays = UsedAt-others y j f in
            (
              elim stays [
                | inl i ↦ At-left a us (ns ++ vs) y (used_tile j) i
                | inr i ↦
                    At-right m'.word a us b (ns ++ vs) y (used_tile j) l
                      (At-right m'.word b ns d vs y (used_tile j) new i)
              ],
              λ q low high.
                  Stays-word head a e b d us ms ns vs xs xs' m m' h front old behind new others y
                    (used_tile j) q stays (inr (low, high)),
            );
      }
