-- ===== src/Malloc/Mm/Heap/Join.antt =====
-- `mm_free` of malloclab/mm.c on the whole heap, for a block behind a free one.
use mathlib.Core.Path.{subst}
use csapp.Common.{
  ℕ, ◌+◌, ◌-◌, ◌≤◌, ◌≡◌, ◌≢◌, ◌⊎◌, refl, sym, ap, ◌∙◌, inl, inr, List, [], ◌∷◌, ◌++◌, All, arith,
}
use csapp.Malloc.Word.{Mm}
use csapp.Malloc.Mm.Ring.{Spread}
use csapp.Malloc.Mm.Split.{Room}
use csapp.Malloc.Mm.Merge.{Taken}
use csapp.Malloc.Mm.Requests.Join.{BehindFree, mm_free-previous}
use csapp.Malloc.Mm.Requests.Between.{BetweenFree, mm_free-between}
use csapp.Malloc.Mm.Heap.{Tile, Stands, Tiles, At, FreeAt, In, Heap}
use csapp.Malloc.Mm.Heap.Tiles.{Tiles_order, At-right}
use csapp.Malloc.Mm.Heap.Listed.{All-In, In-All, In-with, In-without, Spread-In}
use csapp.Malloc.Mm.Heap.Blocks.{free_tile, used_tile, Heap-reaches}
use csapp.Malloc.Mm.Heap.Freed.{Freed, freed}
use csapp.Malloc.Mm.Heap.Release.{listed-around}

module _ (head rounds a e b p n : ℕ) (us vs : List Tile) (m : Mm) (front : Tiles m.word a us b)
    (prev : Stands m.word b (free_tile p)) (footer : m.word (b + p - 4) ≡ p)
    (block : Stands m.word (b + p) (used_tile n)) where
  module _ (xs : List ℕ) (h : Heap head a e (us ++ (free_tile p ∷ used_tile n ∷ vs)) xs m)
      (behind : Tiles m.word (b + p + n) vs e) where
    abbrev ts : List Tile
    ts = us ++ (free_tile p ∷ used_tile n ∷ vs)

    two : Tiles m.word b (free_tile p ∷ used_tile n ∷ []) (b + p + n)
    unfolding Tiles
    two = (prev, (block, refl))

    b-At : FreeAt a ts b
    unfolding At
    b-At = (
      p,
      At-right m.word a us b (free_tile p ∷ used_tile n ∷ vs) b (free_tile p) front
          (inl (refl, refl)),
    )

    two-Room : Room head b (p + n) (head ∷ xs)
    unfolding At
    two-Room =
        listed-around head a e b (b + p + n) us (free_tile p ∷ used_tile n ∷ []) vs xs m h front two
          behind (λ x. (x ≡ b) ⊎ (x + 12 ≤ b) ⊎ (b + (p + n) ≤ x))
          (λ x (k, f). elim f [
            | inl (q, _) ↦ inl (sym q)
            | inr (inl (_, g)) ↦ let t = ap (λ (t : Tile). t.used) g in cc
            | inr (inr g) ↦ absurd g
          ])
          (λ x o. inr (omega arith))

    -- In front of a block that is not merged.
    pub Freed-previous : Taken head m (b + p) (b + (p + n)) → Freed head rounds (b + p) n a e ts m
    unfolding At In
    Freed-previous next =
        let ms = free_tile p ∷ used_tile n ∷ [] in
        let d = b + p + n in
        let large = prev.large in
        let aligned = prev.aligned in
        let large' = block.large in
        let aligned' = block.aligned in
        let header = block.header in
        let start = h.start in
        let end = h.end in
        let away = h.away in
        let low = Tiles_order m.word a us b front in
        let high = Tiles_order m.word d vs e behind in
        let inside = Heap-reaches head a e ts xs m h in
        let room = two-Room in
        let behind_free : BehindFree head m b p n xs = record {
          ring = h.ring;
          size = prev.header;
          footer = footer;
          used_size = omega arith;
          aligned = (aligned, aligned');
          large = (large, large', omega arith);
          header = inside b (omega arith) (omega arith);
          used = (
            inside (b + p) (omega arith) (omega arith),
            inside (b + p + 4) (omega arith) (omega arith),
            inside (b + p + 8) (omega arith) (omega arith),
          );
          footers = (
            inside (b + p - 4) (omega arith) (omega arith),
            inside (b + (p + n) - 4) (omega arith) (omega arith),
          );
          room = room;
          not_head = λ q. absurd (omega (arith, q));
          next = next;
        } in
        let (m', f, ring, size, foot, memory, others) =
          mm_free-previous head m b p n xs behind_free rounds in
        let free : Stands m'.word b (free_tile (p + n)) = record {
          large = omega arith;
          aligned = omega arith;
          header = size;
          footer = inr foot;
        } in
        freed head rounds a e (b + p) n b d (p + n) us ms vs xs xs m m' h front two behind f free
          (omega arith) memory (λ q out c. others q (omega arith)) ring
          (λ y k i. elim i [
            | inl (_, g) ↦ let t = ap (λ (t : Tile). t.used) g in cc
            | inr (inl (q, _)) ↦ sym q
            | inr (inr g) ↦ absurd g
          ])
          (omega arith, omega arith)
          (λ y i.
            let out = All-In (λ x. (x ≡ b) ⊎ (x + 12 ≤ b) ⊎ (b + (p + n) ≤ x)) xs y room.1 i in
            elim out [ inl q ↦ inr q | inr o ↦ inl (i, omega arith) ])
          (λ y i. elim i [
            | inl (j, _) ↦ j
            | inr q ↦ subst (λ x. In x xs) (sym q) (h.complete b b-At)
          ])

  -- In front of a free block.
  module _ (k : ℕ) (ys zs : List ℕ)
      (h : Heap head a e
        (us ++ (free_tile p ∷ used_tile n ∷ free_tile k ∷ vs))
        (ys ++ ((b + (p + n)) ∷ zs))
        m)
      (next : Stands m.word (b + p + n) (free_tile k))
      (behind : Tiles m.word (b + p + n + k) vs e) where
    abbrev all_ts : List Tile
    all_ts = us ++ (free_tile p ∷ used_tile n ∷ free_tile k ∷ vs)

    abbrev c : ℕ
    c = b + (p + n)

    abbrev xs : List ℕ
    xs = ys ++ (c ∷ zs)

    three : Tiles m.word b (free_tile p ∷ used_tile n ∷ free_tile k ∷ []) (b + p + n + k)
    unfolding Tiles
    three = (prev, (block, (next, refl)))

    first-At : FreeAt a all_ts b
    unfolding At
    first-At = (
      p,
      At-right m.word a us b (free_tile p ∷ used_tile n ∷ free_tile k ∷ vs) b (free_tile p) front
          (inl (refl, refl)),
    )

    abbrev Apart3 : ℕ → Type 0
    Apart3 x = (x ≡ c) ⊎ (x ≡ b) ⊎ (x + 12 ≤ b) ⊎ (b + (p + n + k) ≤ x)

    apart : All Apart3 (head ∷ xs)
    unfolding At
    apart =
        listed-around head a e b (b + p + n + k) us (free_tile p ∷ used_tile n ∷ free_tile k ∷ [])
          vs xs m h front three behind Apart3
          (λ x (k', f). elim f [
            | inl (q, _) ↦ inr (inl (sym q))
            | inr (inl (_, g)) ↦ let t = ap (λ (t : Tile). t.used) g in cc
            | inr (inr (inl (q, _))) ↦ inl (omega arith)
            | inr (inr (inr g)) ↦ absurd g
          ])
          (λ x o. inr (inr (omega arith)))

    three-Room : Room head b (p + n + k) (head ∷ (ys ++ zs))
    three-Room =
        let large = prev.large in
        let large' = block.large in
        let r = h.ring in
        let away = h.away in
        let end = h.end in
        let start = h.start in
        let low = Tiles_order m.word a us b front in
        let high = Tiles_order m.word (b + p + n + k) vs e behind in
        (
          omega arith,
          In-All (λ x. (x ≡ b) ⊎ (x + 12 ≤ b) ⊎ (b + (p + n + k) ≤ x)) (ys ++ zs)
              (λ x i.
                let off = Spread-In x ys c zs (unfold Spread in r.spread.1) i in
                elim (All-In Apart3 xs x apart.1 (In-with x ys c zs i)) [
                  | inl q ↦ absurd (omega arith)
                  | inr o ↦ o
                ]),
        )

    pub Freed-between : Freed head rounds (b + p) n a e all_ts m
    unfolding At In
    Freed-between =
        let ms = free_tile p ∷ used_tile n ∷ free_tile k ∷ [] in
        let d = b + p + n + k in
        let large = prev.large in
        let aligned = prev.aligned in
        let large' = block.large in
        let aligned' = block.aligned in
        let large3 = next.large in
        let aligned3 = next.aligned in
        let header = block.header in
        let start = h.start in
        let end = h.end in
        let away = h.away in
        let low = Tiles_order m.word a us b front in
        let high = Tiles_order m.word d vs e behind in
        let inside = Heap-reaches head a e all_ts xs m h in
        let room = three-Room in
        let same : b + (p + n) ≡ b + p + n = omega arith in
        let between : BetweenFree head m b p n k ys zs = record {
          ring = h.ring;
          size = prev.header;
          footer = footer;
          used_size = omega arith;
          next_size = ap m.word same ∙ next.header;
          aligned = (aligned, aligned', aligned3);
          large = (large, large', large3, omega arith);
          header = inside b (omega arith) (omega arith);
          used = (
            inside (b + p) (omega arith) (omega arith),
            inside (b + p + 4) (omega arith) (omega arith),
            inside (b + p + 8) (omega arith) (omega arith),
          );
          footers = (
            inside (b + p - 4) (omega arith) (omega arith),
            inside (b + (p + n) - 4) (omega arith) (omega arith),
            inside (b + (p + n + k) - 4) (omega arith) (omega arith),
          );
          room = room;
          not_head = ((λ q. absurd (omega (arith, q))), (λ q. absurd (omega (arith, q))));
        } in
        let (m', f, ring, size, foot, memory, others) =
          mm_free-between head m b p n k ys zs between rounds in
        let free : Stands m'.word b (free_tile (p + n + k)) = record {
          large = omega arith;
          aligned = omega arith;
          header = size;
          footer = inr foot;
        } in
        freed head rounds a e (b + p) n b d (p + n + k) us ms vs xs (ys ++ zs) m m' h front three
          behind f free (omega arith) memory (λ q out cl. others q (omega arith) cl) ring
          (λ y k' i. elim i [
            | inl (_, g) ↦ let t = ap (λ (t : Tile). t.used) g in cc
            | inr (inl (q, _)) ↦ sym q
            | inr (inr (inl (_, g))) ↦ let t = ap (λ (t : Tile). t.used) g in cc
            | inr (inr (inr g)) ↦ absurd g
          ])
          (omega arith, omega arith)
          (λ y i.
            let out =
              All-In (λ x. (x ≡ b) ⊎ (x + 12 ≤ b) ⊎ (b + (p + n + k) ≤ x)) (ys ++ zs) y room.1 i in
            elim out [ inl q ↦ inr q | inr o ↦ inl (In-with y ys c zs i, omega arith) ])
          (λ y i.
            let at : In y xs × (y ≢ c) = elim i [
              | inl (j, o) ↦ (j, omega arith)
              | inr q ↦ (subst (λ x. In x xs) (sym q) (h.complete b first-At), omega arith)
            ] in
            elim (In-without y ys c zs at.0) [ inl q ↦ absurd (at.1 q) | inr r ↦ r ])
