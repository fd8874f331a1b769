-- ===== src/Malloc/Mm/Heap/Tiles.antt =====
-- Lemmas on the blocks of malloclab/mm.c side by side.
use mathlib.Core.Path.{subst}
use csapp.Common.{
  ℕ, ◌+◌, ◌-◌, ◌≤◌, ◌<◌, ◌≡◌, ◌⊎◌, refl, sym, ap, ◌∙◌, inl, inr, false, List, [], ◌∷◌, ◌++◌, arith,
}
use csapp.Malloc.Mm.Ring.{Clear}
use csapp.Malloc.Mm.Heap.{Tile, Stands, Tiles, At, FreeAt}

-- The blocks end where they begin or behind.
pub Tiles_order : (w : ℕ → ℕ) (a : ℕ) (ts : List Tile) (e : ℕ) → Tiles w a ts e → a ≤ e
unfolding Tiles
Tiles_order w a [] e h = omega arith
Tiles_order w a (t ∷ ts) e (s, h) = let l = Tiles_order w (a + t.size) ts e h in omega arith

-- A block of the heap, and where it stands.
pub Tiles-At :
    (w : ℕ → ℕ) (a : ℕ) (ts : List Tile) (e y : ℕ) (t : Tile)
    → Tiles w a ts e
    → At a ts y t
    → Stands w y t × (a ≤ y) × (y + t.size ≤ e)
unfolding Tiles At
Tiles-At w a [] e y t h k = absurd k
Tiles-At w a (u ∷ ts) e y t (s, h) (inl (p, q)) =
    let l = Tiles_order w (a + u.size) ts e h in
    let same = ap (λ (v : Tile). v.size) q in
    (
      subst (λ v. Stands w y v) q (subst (λ i. Stands w i u) p s),
      omega arith,
      omega (arith, p, l, same),
    )
Tiles-At w a (u ∷ ts) e y t (s, h) (inr k) =
    let (r, l, g) = Tiles-At w (a + u.size) ts e y t h k in (r, omega arith, g)

-- Two blocks of the heap are the same, or one lies behind the other.
pub At-apart :
    (w : ℕ → ℕ) (a : ℕ) (ts : List Tile) (e y : ℕ) (t : Tile) (c : ℕ) (u : Tile)
    → Tiles w a ts e
    → At a ts y t
    → At a ts c u
    → ((y ≡ c) × (t ≡ u)) ⊎ (y + t.size ≤ c) ⊎ (c + u.size ≤ y)
unfolding Tiles At
At-apart w a [] e y t c u h i j = absurd i
At-apart w a (v ∷ ts) e y t c u (s, h) (inl (p, q)) (inl (p', q')) = inl (sym p ∙ p', sym q ∙ q')
At-apart w a (v ∷ ts) e y t c u (s, h) (inl (p, q)) (inr j) =
    let (_, l, _) = Tiles-At w (a + v.size) ts e c u h j in
    let same = ap (λ (x : Tile). x.size) q in inr (inl (omega (arith, l, p, same)))
At-apart w a (v ∷ ts) e y t c u (s, h) (inr i) (inl (p, q)) =
    let (_, l, _) = Tiles-At w (a + v.size) ts e y t h i in
    let same = ap (λ (x : Tile). x.size) q in inr (inr (omega (arith, l, p, same)))
At-apart w a (v ∷ ts) e y t c u (s, h) (inr i) (inr j) = At-apart w (a + v.size) ts e y t c u h i j

pub Tiles-append :
    (w : ℕ → ℕ) (a : ℕ) (us : List Tile) (b : ℕ) (vs : List Tile) (e : ℕ)
    → Tiles w a us b
    → Tiles w b vs e
    → Tiles w a (us ++ vs) e
unfolding Tiles
Tiles-append w a [] b vs e h k = subst (λ i. Tiles w i vs e) (sym h) k
Tiles-append w a (u ∷ us) b vs e (s, h) k = (s, Tiles-append w (a + u.size) us b vs e h k)

-- The blocks in front and those behind.
pub At-left : (a : ℕ) (us vs : List Tile) (y : ℕ) (t : Tile) → At a us y t → At a (us ++ vs) y t
unfolding At
At-left a [] vs y t k = absurd k
At-left a (u ∷ us) vs y t (inl k) = inl k
At-left a (u ∷ us) vs y t (inr k) = inr (At-left (a + u.size) us vs y t k)

module _ (w : ℕ → ℕ) where
  pub At-right :
      (a : ℕ) (us : List Tile) (b : ℕ) (vs : List Tile) (y : ℕ) (t : Tile)
      → Tiles w a us b
      → At b vs y t
      → At a (us ++ vs) y t
  unfolding At Tiles
  At-right a [] b vs y t h k = subst (λ i. At i vs y t) (sym h) k
  At-right a (u ∷ us) b vs y t (s, h) k = inr (At-right (a + u.size) us b vs y t h k)

  pub At-append :
      (a : ℕ) (us : List Tile) (b : ℕ) (vs : List Tile) (y : ℕ) (t : Tile)
      → Tiles w a us b
      → At a (us ++ vs) y t
      → At a us y t ⊎ At b vs y t
  unfolding At Tiles
  At-append a [] b vs y t h k = inr (subst (λ i. At i vs y t) h k)
  At-append a (u ∷ us) b vs y t (s, h) (inl k) = inl (inl k)
  At-append a (u ∷ us) b vs y t (s, h) (inr k) = elim (At-append (a + u.size) us b vs y t h k) [
    | inl l ↦ inl (inr l)
    | inr r ↦ inr r
  ]

  -- A block divides the others into those in front and those behind.
  pub Tiles-split :
      (a : ℕ) (ts : List Tile) (e b : ℕ) (t : Tile)
      → Tiles w a ts e
      → At a ts b t
      → (us : List Tile) × (vs : List Tile) × (ts ≡ us ++ (t ∷ vs))
        × Tiles w a us b
        × Tiles w (b + t.size) vs e
  unfolding At Tiles
  Tiles-split a [] e b t h k = absurd k
  Tiles-split a (u ∷ ts) e b t (s, h) (inl (p, q)) = (
    [],
    ts,
    ap (λ (v : Tile). v ∷ ts) q,
    p,
    subst (λ (v : Tile). Tiles w (b + v.size) ts e) q (subst (λ i. Tiles w (i + u.size) ts e) p h),
  )
  Tiles-split a (u ∷ ts) e b t (s, h) (inr k) =
      let (us, vs, f, l, r) = Tiles-split (a + u.size) ts e b t h k in
      (u ∷ us, vs, ap (λ (l : List Tile). u ∷ l) f, (s, l), r)

  -- The blocks stay where their headers and footers do.
  pub Tiles-kept :
      (w' : ℕ → ℕ) (a : ℕ) (ts : List Tile) (e : ℕ)
      → ((y : ℕ) (t : Tile)
          → At a ts y t
          → (w' y ≡ w y) × (w' (y + t.size - 4) ≡ w (y + t.size - 4)))
      → Tiles w a ts e
      → Tiles w' a ts e
  unfolding At Tiles
  Tiles-kept w' a [] e f h = h
  Tiles-kept w' a (t ∷ ts) e f (s, h) =
      let (p, q) = f a t (inl (refl, refl)) in
      (
        record {
          large = s.large;
          aligned = s.aligned;
          header = p ∙ s.header;
          footer = elim s.footer [ inl k ↦ inl (q ∙ k) | inr k ↦ inr (q ∙ k) ];
        },
        Tiles-kept w' (a + t.size) ts e (λ y u k. f y u (inr k)) h,
      )

  -- A word of a block that is none of its links is no link of a free block.
  pub Clear-At :
      (a : ℕ) (ts : List Tile) (e y : ℕ) (t : Tile) (q x : ℕ)
      → Tiles w a ts e
      → At a ts y t
      → FreeAt a ts x
      → (q ≡ y) ⊎ ((y + 12 ≤ q) × (q < y + t.size))
      → Clear q x
  Clear-At a ts e y t q x h k (n, f) at =
      let free : Tile = record { size = n; used = false } in
      let large = (Tiles-At w a ts e x free h f).0.large in
      let large' = (Tiles-At w a ts e y t h k).0.large in
      elim (At-apart w a ts e y t x free h k f) [
        | inl (p, _) ↦ (omega arith, omega arith)
        | inr (inl l) ↦ (omega arith, omega arith)
        | inr (inr l) ↦ (omega arith, omega arith)
      ]
