-- ===== src/Malloc/Mm/Heap/Release.antt =====
-- `mm_free` of malloclab/mm.c on the whole heap, where no block in front is merged.
use csapp.Common.{
  ℕ, ◌+◌, ◌-◌, ◌≤◌, ◌<◌, ◌≡◌, ◌⊎◌, refl, sym, ap, ◌∙◌, inl, inr, List, [], ◌∷◌, ◌++◌, All, All-map,
  arith,
}
use csapp.Malloc.Word.{Mm}
use csapp.Malloc.Mm.Tags.{with_word, update-same, update-other}
use csapp.Malloc.Mm.Ring.{Clear, Far, Spread}
use csapp.Malloc.Mm.Split.{Ring-with_word}
use csapp.Malloc.Mm.Merge.{Taken, TakenBefore, BeforeFree}
use csapp.Malloc.Mm.Requests.Release.{InUse, mm_free-alone, mm_free-next}
use csapp.Malloc.Mm.Heap.{Tile, Stands, Tiles, At, FreeAt, In, Heap}
use csapp.Malloc.Mm.Heap.Tiles.{Tiles_order, Tiles-At, At-append, At-right}
use csapp.Malloc.Mm.Heap.Replace.{Heap-Clear}
use csapp.Malloc.Mm.Heap.Listed.{All-In, In-with, In-without, Spread-In}
use csapp.Malloc.Mm.Heap.Blocks.{free_tile, used_tile, Heap-reaches}
use csapp.Malloc.Mm.Heap.Freed.{Freed, freed}

-- What is said of a part of the heap: the blocks ms from `first` to d.
module _ (head a e first d : ℕ) (us ms vs : List Tile) (xs : List ℕ) (m : Mm)
    (h : Heap head a e (us ++ (ms ++ vs)) xs m) (front : Tiles m.word a us first)
    (old : Tiles m.word first ms d) (behind : Tiles m.word d vs e) where
  -- A block of the list stands outside, or among them.
  pub listed-around :
      (P : ℕ → Type 0)
      → ((x : ℕ) → FreeAt first ms x → P x)
      → ((x : ℕ) → (x + 12 ≤ first) ⊎ (d ≤ x) → P x)
      → All P (head ∷ xs)
  listed-around P among outside =
      let away = h.away in
      let start = h.start in
      let low = Tiles_order m.word a us first front in
      let high = Tiles_order m.word d vs e behind in
      (
        outside head (omega arith),
        All-map (FreeAt a (us ++ (ms ++ vs))) P xs
            (λ x (k, f). elim (At-append m.word a us first (ms ++ vs) x (free_tile k) front f) [
              | inl l ↦
                  let (s, _, g) = Tiles-At m.word a us first x (free_tile k) front l in
                  let large = s.large in outside x (inl (omega arith))
              | inr r ↦ elim (At-append m.word first ms d vs x (free_tile k) old r) [
                | inl i ↦ among x (k, i)
                | inr i ↦
                    let (s, g, _) = Tiles-At m.word d vs e x (free_tile k) behind i in
                    outside x (inr g)
              ]
            ])
            h.listed,
      )

module _ (head rounds a e b n : ℕ) (us vs : List Tile) (xs : List ℕ) (m : Mm)
    (h : Heap head a e (us ++ (used_tile n ∷ vs)) xs m) (front : Tiles m.word a us b)
    (behind : Tiles m.word (b + n) vs e) where
  abbrev ts : List Tile
  ts = us ++ (used_tile n ∷ vs)

  pub b-At : At a ts b (used_tile n)
  unfolding At
  b-At = At-right m.word a us b (used_tile n ∷ vs) b (used_tile n) front (inl (refl, refl))

  pub b-Stands : Stands m.word b (used_tile n)
  b-Stands = (Tiles-At m.word a ts e b (used_tile n) h.tiles b-At).0

  old : Tiles m.word b (used_tile n ∷ []) (b + n)
  unfolding Tiles
  old = (b-Stands, refl)

  bounds : (a ≤ b) × (b + n ≤ e)
  bounds = let (_, l, g) = Tiles-At m.word a ts e b (used_tile n) h.tiles b-At in (l, g)

  b_outside : All (λ x. (x + 12 ≤ b) ⊎ (b + n ≤ x)) (head ∷ xs)
  unfolding At
  b_outside =
      listed-around head a e b (b + n) us (used_tile n ∷ []) vs xs m h front old behind
        (λ x. (x + 12 ≤ b) ⊎ (b + n ≤ x))
        (λ x (k, f). elim f [
          | inl (_, g) ↦ let t = ap (λ (t : Tile). t.used) g in cc
          | inr g ↦ absurd g
        ])
        (λ x o. o)

  b-Far : All (Far b) (head ∷ xs)
  b-Far =
      let large = b-Stands.large in
      All-map (λ x. (x + 12 ≤ b) ⊎ (b + n ≤ x)) (Far b) (head ∷ xs) (λ x o. omega arith) b_outside

  pub b-InUse : TakenBefore head (with_word m b n) b → InUse head m b n
  b-InUse before =
      let large = b-Stands.large in
      let aligned = b-Stands.aligned in
      let header = b-Stands.header in
      let start = h.start in
      let end = h.end in
      let bound = bounds in
      let inside = Heap-reaches head a e ts xs m h in
      record {
        size = omega arith;
        aligned = aligned;
        bounds = (large, omega arith, omega arith);
        node = (
          inside b (omega arith) (omega arith),
          inside (b + 4) (omega arith) (omega arith),
          inside (b + 8) (omega arith) (omega arith),
        );
        front = inside (b - 4) (omega arith) (omega arith);
        before = before;
      }

  -- Between two blocks that are not merged.
  pub Freed-alone :
      TakenBefore head (with_word m b n) b → Taken head m b (b + n) → Freed head rounds b n a e ts m
  unfolding At In
  Freed-alone before next =
      let large = b-Stands.large in
      let (m', f, ring, size, others, memory) =
        mm_free-alone head rounds m b n xs (b-InUse before) next h.ring b-Far in
      let clear : (q : ℕ)
          → All (Clear q) (head ∷ xs)
          → (q < b) ⊎ (b + 12 ≤ q)
          → All (Clear q) (b ∷ head ∷ xs) =
        λ q c o. ((omega arith, omega arith), c) in
      let foot : m'.word (b + n - 4) ≡ m.word (b + n - 4) = others (b + n - 4) (omega arith) (
        clear (b + n - 4)
          (Heap-Clear head a e ts xs m h b (used_tile n) (b + n - 4) b-At
            (inr (omega arith, omega arith)))
          (inr (omega arith))) in
      let stands : Stands m'.word b (free_tile n) = record {
        large = large;
        aligned = b-Stands.aligned;
        header = size;
        footer = elim b-Stands.footer [ inl k ↦ inl (foot ∙ k) | inr k ↦ inr (foot ∙ k) ];
      } in
      freed head rounds a e b n b (b + n) n us (used_tile n ∷ []) vs xs (b ∷ xs) m m' h front old
        behind f stands refl memory (λ q out c. others q (omega arith) (clear q c (omega arith)))
        ring (λ y k i. elim i [ inl (p, _) ↦ sym p | inr g ↦ absurd g ]) (omega arith, omega arith)
        (λ y i. elim i [
          | inl p ↦ inr p
          | inr j ↦ inl (
            j,
            let out = All-In (λ x. (x + 12 ≤ b) ⊎ (b + n ≤ x)) xs y b_outside.1 j in omega arith,
          )
        ])
        (λ y i. elim i [ inl (j, _) ↦ inr j | inr p ↦ inl p ])

module _ (head rounds a e b n k : ℕ) (us vs : List Tile) (ys zs : List ℕ) (m : Mm)
    (h : Heap head a e (us ++ (used_tile n ∷ free_tile k ∷ vs)) (ys ++ ((b + n) ∷ zs)) m)
    (front : Tiles m.word a us b) (next : Stands m.word (b + n) (free_tile k))
    (behind : Tiles m.word (b + n + k) vs e) where
  abbrev xs : List ℕ
  xs = ys ++ ((b + n) ∷ zs)

  next_behind : Tiles m.word (b + n) (free_tile k ∷ vs) e
  unfolding Tiles
  next_behind = (next, behind)

  two : Tiles m.word b (used_tile n ∷ free_tile k ∷ []) (b + n + k)
  unfolding Tiles
  two = (b-Stands head rounds a e b n us (free_tile k ∷ vs) xs m h front next_behind, (next, refl))

  -- In front of a free block, and behind one that is not merged.
  pub Freed-next :
      TakenBefore head (with_word m b n) b
      → Freed head rounds b n a e (us ++ (used_tile n ∷ free_tile k ∷ vs)) m
  unfolding At In
  Freed-next before =
      let ts = us ++ (used_tile n ∷ free_tile k ∷ vs) in
      let ms = used_tile n ∷ free_tile k ∷ [] in
      let d = b + n + k in
      let stands = b-Stands head rounds a e b n us (free_tile k ∷ vs) xs m h front next_behind in
      let used =
        b-InUse head rounds a e b n us (free_tile k ∷ vs) xs m h front next_behind before in
      let large = stands.large in
      let aligned = stands.aligned in
      let large' = next.large in
      let aligned' = next.aligned in
      let start = h.start in
      let end = h.end in
      let low = Tiles_order m.word a us b front in
      let high = Tiles_order m.word d vs e behind in
      let inside = Heap-reaches head a e ts xs m h in
      let P : ℕ → Type 0 = λ x. (x ≡ b + n) ⊎ (x + 12 ≤ b) ⊎ (b + (n + k) ≤ x) in
      let apart : All P (head ∷ xs) =
        listed-around head a e b d us ms vs xs m h front two behind P
          (λ x (k', f). elim f [
            | inl (_, g) ↦ let t = ap (λ (t : Tile). t.used) g in cc
            | inr (inl (p, _)) ↦ inl (sym p)
            | inr (inr g) ↦ absurd g
          ])
          (λ x o. inr (omega arith)) in
      let far = All-map P (Clear b) (head ∷ xs) (λ x c. (omega arith, omega arith)) apart in
      let marked = with_word m b n in
      let before_free : BeforeFree head marked b n k ys zs = record {
        ring = Ring-with_word head m xs b n far h.ring;
        size = update-same m.word b n;
        next_size = update-other m.word b n (b + n) (omega arith) ∙ next.header;
        aligned = (aligned, aligned');
        large = (large, large', omega arith);
        node = used.node;
        footers = (
          inside (b + n - 4) (omega arith) (omega arith),
          inside (b + (n + k) - 4) (omega arith) (omega arith),
        );
        apart = apart;
        not_head = let away = h.away in (λ p. absurd (omega (arith, p)));
      } in
      let (m', f, ring, size, foot, memory, others) =
        mm_free-next head rounds m b n k ys zs used before_free in
      let free : Stands m'.word b (free_tile (n + k)) = record {
        large = omega arith;
        aligned = omega arith;
        header = size;
        footer = inr foot;
      } in
      let spread = let r = h.ring in r.spread in
      freed head rounds a e b n b d (n + k) us ms vs xs (b ∷ (ys ++ zs)) m m' h front two behind f
        free (omega arith) memory (λ q out c. others q (omega arith) c) ring
        (λ y k' i. elim i [
          | inl (p, _) ↦ sym p
          | inr (inl (_, g)) ↦ let t = ap (λ (t : Tile). t.used) g in cc
          | inr (inr g) ↦ absurd g
        ])
        (omega arith, omega arith)
        (λ y i. elim i [
          | inl p ↦ inr p
          | inr j ↦
              let at = In-with y ys (b + n) zs j in
              let off = Spread-In y ys (b + n) zs (unfold Spread in spread.1) j in
              let out = All-In P xs y apart.1 at in inl (at, omega arith)
        ])
        (λ y i. elim i [
          | inl (j, out) ↦ elim (In-without y ys (b + n) zs j) [
            | inl p ↦ absurd (omega arith)
            | inr r ↦ inr r
          ]
          | inr p ↦ inl p
        ])
