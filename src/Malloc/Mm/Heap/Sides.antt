-- ===== src/Malloc/Mm/Heap/Sides.antt =====
-- What can stand in front of a block in use of malloclab/mm.c, and behind it.
use mathlib.Core.Path.{subst}
use csapp.Common.{
  ℕ, ◌+◌, ◌-◌, ◌%◌, ◌≤◌, ◌≡◌, ◌⊎◌, refl, sym, ap, ◌∙◌, inl, inr, Bool, true, Bool-cases, List, [],
  ◌∷◌, ◌++◌, last-cases, arith,
}
use csapp.Malloc.Word.{Mm, sub32, reaches}
use csapp.Malloc.Mm.Tags.{with_word, update-other}
use csapp.Malloc.Mm.Merge.{Taken, TakenBefore}
use csapp.Malloc.Mm.Heap.{Tile, Stands, Tiles, Heap}
use csapp.Malloc.Mm.Heap.Tiles.{Tiles_order}
use csapp.Malloc.Mm.Heap.Blocks.{free_tile, used_tile, Heap-reaches}
use csapp.Malloc.Mm.Heap.Release.{b-Stands}

-- The last of the blocks.
Tiles-last :
    (w : ℕ → ℕ) (a : ℕ) (us : List Tile) (u : Tile) (b : ℕ)
    → Tiles w a (us ++ (u ∷ [])) b
    → (c : ℕ) × Tiles w a us c × Stands w c u × (c + u.size ≡ b)
unfolding Tiles
Tiles-last w a [] u b (s, h) = (a, refl, s, h)
Tiles-last w a (v ∷ us) u b (s, h) =
    let (c, l, t, g) = Tiles-last w (a + v.size) us u b h in (c, (s, l), t, g)

free_or_used : (t : Tile) → (t ≡ free_tile t.size) ⊎ (t ≡ used_tile t.size)
free_or_used t = elim (Bool-cases t.used) [
  | inl e ↦ inr (ap (λ (u : Bool). record { size = t.size; used = u }) e)
  | inr e ↦ inl (ap (λ (u : Bool). record { size = t.size; used = u }) e)
]

module _ (head rounds a e b n : ℕ) (us vs : List Tile) (xs : List ℕ) (m : Mm)
    (h : Heap head a e (us ++ (used_tile n ∷ vs)) xs m) (front : Tiles m.word a us b)
    (behind : Tiles m.word (b + n) vs e) where
  abbrev ts : List Tile
  ts = us ++ (used_tile n ∷ vs)

  pub block-Stands : Stands m.word b (used_tile n)
  block-Stands = b-Stands head rounds a e b n us vs xs m h front behind

  b_bounds : (a ≤ b) × (b + n ≤ e)
  b_bounds = (Tiles_order m.word a us b front, Tiles_order m.word (b + n) vs e behind)

  b_reaches : (q : ℕ) → a ≤ q + 8 → q ≤ e → reaches head m.memory q ≡ true
  b_reaches = Heap-reaches head a e ts xs m h

  -- What stands behind the block.
  abbrev pub Behind : Type 0
  Behind =
      Taken head m b (b + n)
      ⊎ ((k : ℕ) × (vs' : List Tile) × (vs ≡ free_tile k ∷ vs')
          × Stands m.word (b + n) (free_tile k)
          × Tiles m.word (b + n + k) vs' e)

  pub behind-cases : Behind
  unfolding Tiles
  behind-cases = go vs behind
    where
      go :
          (ws : List Tile)
          → Tiles m.word (b + n) ws e
          → Taken head m b (b + n)
            ⊎ ((k : ℕ) × (vs' : List Tile) × (ws ≡ free_tile k ∷ vs')
                × Stands m.word (b + n) (free_tile k)
                × Tiles m.word (b + n + k) vs' e)
      go [] t =
          let bound = b_bounds in
          let large = block-Stands.large in
          let one : m.word (b + n) ≡ 1 = ap m.word t ∙ h.epilogue in
          inl (
            b_reaches (b + n) (omega arith) (omega arith),
            (λ q. absurd (omega (arith, q))),
            inr (inl (rw one refl)),
          )
      go (t ∷ ws) (s, r) = elim (free_or_used t) [
        | inl f ↦
            inr
              (t.size, ws, ap (λ (v : Tile). v ∷ ws) f, subst (λ v. Stands m.word (b + n) v) f s, r)
        | inr f ↦
            let bound = b_bounds in
            let stands = subst (λ v. Stands m.word (b + n) v) f s in
            let header = stands.header in
            let aligned = stands.aligned in
            let large = block-Stands.large in
            inl (
              b_reaches (b + n) (omega arith) (omega arith),
              (λ q. absurd (omega (arith, q))),
              inr (inl (omega arith)),
            )
      ]

  -- What stands in front of it.
  abbrev pub Front : Type 0
  Front =
      TakenBefore head (with_word m b n) b
      ⊎ ((p : ℕ) × (us' : List Tile) × (c : ℕ) × (us ≡ us' ++ (free_tile p ∷ []))
          × (b ≡ c + p)
          × Tiles m.word a us' c
          × Stands m.word c (free_tile p)
          × (m.word (c + p - 4) ≡ p))

  -- A block in use, or the prologue, of p bytes with its size in its footer.
  taken-before :
      (c p : ℕ)
      → c + p ≡ b
      → 8 ≤ p
      → a ≤ c + 8
      → m.word (b - 4) ≡ p
      → m.word c % 2 ≡ 1
      → TakenBefore head (with_word m b n) b
  taken-before c p g large low foot odd =
      let start = h.start in
      let end = h.end in
      let bound = b_bounds in
      let same : (with_word m b n).word (b - 4) ≡ p =
        update-other m.word b n (b - 4) (omega arith) ∙ foot in
      let at : sub32 b ((with_word m b n).word (b - 4)) ≡ c = rw same (omega arith) in
      let other : (with_word m b n).word c ≡ m.word c = update-other m.word b n c (omega arith) in
      let taken : Taken head (with_word m b n) b c = (
        b_reaches c (omega arith) (omega arith),
        (λ q. absurd (omega (arith, q))),
        inr (inl (rw other odd)),
      ) in
      inr (subst (λ i. Taken head (with_word m b n) b i) (sym at) taken)

  pub front-cases : Front
  unfolding Tiles
  front-cases = elim (last-cases us) [
    | inl f ↦
        let at : a ≡ b = subst (λ t. Tiles m.word a t b) f front in
        let start = h.start in
        let nine : m.word (b - 8) ≡ 9 = subst (λ i. m.word (i - 8) ≡ 9) at h.prologue.0 in
        let eight : m.word (b - 4) ≡ 8 = subst (λ i. m.word (i - 4) ≡ 8) at h.prologue.1 in
        inl (taken-before (b - 8) 8 (omega arith) (omega arith) (omega arith) eight (rw nine refl))
    | inr (us', u, f) ↦
        let (c, l, s, g) = Tiles-last m.word a us' u b (subst (λ t. Tiles m.word a t b) f front) in
        let large = s.large in
        let start = h.start in
        let order = Tiles_order m.word a us' c l in
        let foot : c + u.size - 4 ≡ b - 4 = omega arith in
        elim s.footer [
          | inr z ↦
              inl (inl (update-other m.word b n (b - 4) (omega arith) ∙ ap m.word (sym foot) ∙ z))
          | inl q ↦ elim (free_or_used u) [
            | inl k ↦ inr (
              u.size,
              us',
              c,
              f ∙ ap (λ (v : Tile). us' ++ (v ∷ [])) k,
              sym g,
              l,
              subst (λ v. Stands m.word c v) k s,
              q,
            )
            | inr k ↦
                let stands = subst (λ v. Stands m.word c v) k s in
                let header = stands.header in
                let aligned = stands.aligned in
                inl (
                  taken-before c u.size g (omega arith) (omega arith) (ap m.word (sym foot) ∙ q)
                    (omega arith))
          ]
        ]
  ]
