-- ===== src/Malloc/Mm/Heap/Listed.antt =====
-- Lists of addresses of blocks of malloclab/mm.c, by what is in them.
use csapp.Common.{
  ℕ, ◌≤◌, ◌<◌, ◌≡◌, ◌⊎◌, refl, sym, ap, inl, inr, leb, List, [], ◌∷◌, ◌++◌, All, Bool-cases, arith,
}
use mathlib.Core.Path.{subst}
use csapp.Malloc.Mm.Ring.{Far, Spread}
use csapp.Malloc.Mm.Heap.{In}

pub All-In : (P : ℕ → Type 0) (xs : List ℕ) (y : ℕ) → All P xs → In y xs → P y
unfolding In
All-In P [] y h k = absurd k
All-In P (x ∷ xs) y (h, hs) (inl k) = subst P (sym k) h
All-In P (x ∷ xs) y (h, hs) (inr k) = All-In P xs y hs k

pub In-All : (P : ℕ → Type 0) (xs : List ℕ) → ((y : ℕ) → In y xs → P y) → All P xs
unfolding In
In-All P [] f = tt
In-All P (x ∷ xs) f = (f x (inl refl), In-All P xs (λ y k. f y (inr k)))

pub In-here : (ys : List ℕ) (b : ℕ) (zs : List ℕ) → In b (ys ++ (b ∷ zs))
unfolding In
In-here [] b zs = inl refl
In-here (y ∷ ys) b zs = inr (In-here ys b zs)

pub In-with : (y : ℕ) (ys : List ℕ) (b : ℕ) (zs : List ℕ) → In y (ys ++ zs) → In y (ys ++ (b ∷ zs))
unfolding In
In-with y [] b zs k = inr k
In-with y (x ∷ ys) b zs (inl k) = inl k
In-with y (x ∷ ys) b zs (inr k) = inr (In-with y ys b zs k)

pub In-without :
    (y : ℕ) (ys : List ℕ) (b : ℕ) (zs : List ℕ) → In y (ys ++ (b ∷ zs)) → (y ≡ b) ⊎ In y (ys ++ zs)
unfolding In
In-without y [] b zs k = k
In-without y (x ∷ ys) b zs (inl k) = inr (inl k)
In-without y (x ∷ ys) b zs (inr k) = elim (In-without y ys b zs k) [
  | inl l ↦ inl l
  | inr r ↦ inr (inr r)
]

pub In-split :
    (y : ℕ) (xs : List ℕ) → In y xs → (ys : List ℕ) × (zs : List ℕ) × (xs ≡ ys ++ (y ∷ zs))
unfolding In
In-split y [] k = absurd k
In-split y (x ∷ xs) (inl k) = ([], xs, ap (λ (z : ℕ). z ∷ xs) (sym k))
In-split y (x ∷ xs) (inr k) =
    let (ys, zs, e) = In-split y xs k in (x ∷ ys, zs, ap (λ (l : List ℕ). x ∷ l) e)

-- The other blocks of a list are apart from b.
pub Spread-In :
    (y : ℕ) (ys : List ℕ) (b : ℕ) (zs : List ℕ)
    → Spread (ys ++ (b ∷ zs))
    → In y (ys ++ zs)
    → Far y b
unfolding In Spread
Spread-In y [] b zs (f, s) k = let g = All-In (Far b) zs y f k in omega arith
Spread-In y (x ∷ ys) b zs (f, s) (inl k) =
    subst (λ z. Far z b) (sym k) (All-In (Far x) (ys ++ (b ∷ zs)) b f (In-here ys b zs))
Spread-In y (x ∷ ys) b zs (f, s) (inr k) = Spread-In y ys b zs s k

-- The first block that holds `size` bytes.
pub first_large :
    (w : ℕ → ℕ) (size y : ℕ) (xs : List ℕ)
    → In y xs
    → size ≤ w y
    → (ys : List ℕ) × (b : ℕ) × (zs : List ℕ) × (xs ≡ ys ++ (b ∷ zs))
      × All (λ z. w z < size) ys
      × (size ≤ w b)
unfolding In
first_large w size y [] k h = absurd k
first_large w size y (x ∷ xs) k h = elim (Bool-cases (leb size (w x))) [
  | inl e ↦ ([], x, xs, refl, tt, ground arith)
  | inr e ↦ elim k [
    | inl p ↦ let q = ap w p in absurd (ground (arith, q, h, e))
    | inr l ↦
        let (ys, b, zs, f, small, large) = first_large w size y xs l h in
        (x ∷ ys, b, zs, ap (λ (l : List ℕ). x ∷ l) f, (ground arith, small), large)
  ]
]
