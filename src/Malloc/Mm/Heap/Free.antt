-- ===== src/Malloc/Mm/Heap/Free.antt =====
-- `mm_free` of malloclab/mm.c on the whole heap, with the neighbours of the block in any state.
use mathlib.Core.Path.{subst}
use mathlib.Core.List.{append_assoc}
use csapp.Common.{ℕ, ◌+◌, ◌-◌, ◌≡◌, refl, sym, ap, ◌∙◌, inl, inr, List, [], ◌∷◌, ◌++◌, arith}
use csapp.Malloc.Word.{Mm}
use csapp.Malloc.Mm.Tags.{with_word}
use csapp.Malloc.Mm.Merge.{Taken, TakenBefore}
use csapp.Malloc.Mm.Heap.{Tile, Stands, Tiles, At, UsedAt, Heap}
use csapp.Malloc.Mm.Heap.Tiles.{At-right, Tiles-split}
use csapp.Malloc.Mm.Heap.Listed.{In-split}
use csapp.Malloc.Mm.Heap.Blocks.{free_tile, used_tile}
use csapp.Malloc.Mm.Heap.Freed.{Freed}
use csapp.Malloc.Mm.Heap.Release.{Freed-alone, Freed-next}
use csapp.Malloc.Mm.Heap.Join.{Freed-previous, Freed-between}
use csapp.Malloc.Mm.Heap.Sides.{block-Stands, behind-cases, front-cases}

module _ (head rounds a e b n : ℕ) (us vs : List Tile) (xs : List ℕ) (m : Mm)
    (h : Heap head a e (us ++ (used_tile n ∷ vs)) xs m) (front : Tiles m.word a us b)
    (behind : Tiles m.word (b + n) vs e) where
  abbrev ts : List Tile
  ts = us ++ (used_tile n ∷ vs)

  -- The block behind is in the list where it is free.
  next-In :
      (k : ℕ) (vs' : List Tile)
      → vs ≡ free_tile k ∷ vs'
      → (ys : List ℕ) × (zs : List ℕ) × (xs ≡ ys ++ ((b + n) ∷ zs))
  unfolding At
  next-In k vs' f =
      let at : At (b + n) vs (b + n) (free_tile k) =
        subst (λ (l : List Tile). At (b + n) l (b + n) (free_tile k)) (sym f) (inl (refl, refl)) in
      In-split (b + n) xs (
        h.complete (b + n)
          (k, At-right m.word a us b (used_tile n ∷ vs) (b + n) (free_tile k) front (inr at)))

  -- No free block in front.
  free-behind : TakenBefore head (with_word m b n) b → Freed head rounds b n a e ts m
  free-behind before = elim (behind-cases head rounds a e b n us vs xs m h front behind) [
    | inl taken ↦ Freed-alone head rounds a e b n us vs xs m h front behind before taken
    | inr (k, vs', f, next, rest) ↦
        let (ys, zs, g) = next-In k vs' f in
        let h₁ = subst (λ (l : List ℕ). Heap head a e ts l m) g h in
        let h₂ =
          subst
            (λ (l : List Tile). Heap head a e (us ++ (used_tile n ∷ l)) (ys ++ ((b + n) ∷ zs)) m) f
            h₁ in
        subst (λ (l : List Tile). Freed head rounds b n a e (us ++ (used_tile n ∷ l)) m) (sym f)
          (Freed-next head rounds a e b n k us vs' ys zs m h₂ front next rest before)
  ]

  -- A free block in front.
  free-in-front :
      (p : ℕ) (us' : List Tile) (c : ℕ)
      → us ≡ us' ++ (free_tile p ∷ [])
      → b ≡ c + p
      → Tiles m.word a us' c
      → Stands m.word c (free_tile p)
      → m.word (c + p - 4) ≡ p
      → Freed head rounds b n a e ts m
  free-in-front p us' c f g l s foot =
      let join = append_assoc us' (free_tile p ∷ []) (used_tile n ∷ vs) in
      let all : ts ≡ us' ++ (free_tile p ∷ used_tile n ∷ vs) =
        ap (λ (t : List Tile). t ++ (used_tile n ∷ vs)) f ∙ join in
      let h₁ = subst (λ (t : List Tile). Heap head a e t xs m) all h in
      let block₁ =
        subst (λ i. Stands m.word i (used_tile n)) g
          (block-Stands head rounds a e b n us vs xs m h front behind) in
      let assoc : c + p + n ≡ c + (p + n) = omega arith in
      subst (λ i. Freed head rounds i n a e ts m) (sym g)
        (subst (λ (t : List Tile). Freed head rounds (c + p) n a e t m) (sym all)
          (elim (behind-cases head rounds a e b n us vs xs m h front behind) [
            | inl taken ↦
                let taken₁ = subst (λ i. Taken head m i (i + n)) g taken in
                Freed-previous head rounds a e c p n us' vs m l s foot block₁ xs h₁
                  (subst (λ i. Tiles m.word (i + n) vs e) g behind)
                  (subst (λ i. Taken head m (c + p) i) assoc taken₁)
            | inr (k, vs', v, next, rest) ↦
                let (ys, zs, w) = next-In k vs' v in
                let at : b + n ≡ c + (p + n) = omega arith in
                let w₁ = w ∙ ap (λ (i : ℕ). ys ++ (i ∷ zs)) at in
                let h₂ =
                  subst
                    (λ (x : List ℕ). Heap head a e (us' ++ (free_tile p ∷ used_tile n ∷ vs)) x m) w₁
                    h₁ in
                let h₃ =
                  subst
                    (λ (t : List Tile).
                      Heap head a e (us' ++ (free_tile p ∷ used_tile n ∷ t))
                        (ys ++ ((c + (p + n)) ∷ zs)) m)
                    v h₂ in
                subst
                  (λ (t : List Tile).
                    Freed head rounds (c + p) n a e (us' ++ (free_tile p ∷ used_tile n ∷ t)) m)
                  (sym v)
                  (Freed-between head rounds a e c p n us' vs' m l s foot block₁ k ys zs h₃
                    (subst (λ i. Stands m.word (i + n) (free_tile k)) g next)
                    (subst (λ i. Tiles m.word (i + n + k) vs' e) g rest))
          ]))

-- On a heap whose blocks lie side by side, `mm_free` of the payload of a block in use returns, whatever stands
-- in front of the block and behind it. The block then lies in a free one, the heap is as well formed as
-- before, with the list of just the free blocks, and the other blocks in use stay, and the words of
-- their payload.
pub mm_free-Heap :
    (head rounds a e : ℕ) (ts : List Tile) (xs : List ℕ) (m : Mm) (b n : ℕ)
    → Heap head a e ts xs m
    → UsedAt a ts b n
    → Freed head rounds b n a e ts m
mm_free-Heap head rounds a e ts xs m b n h used =
    let (us, vs, f, front, behind) = Tiles-split m.word a ts e b (used_tile n) h.tiles used in
    let h₁ = subst (λ (t : List Tile). Heap head a e t xs m) f h in
    subst (λ (t : List Tile). Freed head rounds b n a e t m) (sym f)
      (elim (front-cases head rounds a e b n us vs xs m h₁ front behind) [
        | inl before ↦ free-behind head rounds a e b n us vs xs m h₁ front behind before
        | inr (p, us', c, g, at, l, s, foot) ↦
            free-in-front head rounds a e b n us vs xs m h₁ front behind p us' c g at l s foot
      ])
