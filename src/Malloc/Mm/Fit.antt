-- ===== src/Malloc/Mm/Fit.antt =====
-- The search of malloclab/mm.c for a free block that is large enough, and the size it searches for.
use csapp.Common.{
  ℕ, zero, suc, ◌+◌, ◌%◌, ◌^◌, ◌≤◌, ◌<◌, ◌≡◌, refl, inl, inr, true, false, Option, none, some, List,
  [], ◌∷◌, ◌++◌, leb, ◌==◌, if◌then◌else◌, length, All, Bool-cases, arith,
}
use csapp.Malloc.Word.{Mm, Cmd, pure, ◌>>=◌, load}
use csapp.Malloc.Mm.{get_block_size, is_allocated, block_size, take_fit, find_from}
use csapp.Malloc.Mm.Ring.{Chain, Far}
use csapp.Malloc.Mm.Lists.{IsNode}

-- `get_block_size` adds the 16 bytes of a block and rounds up to a multiple of 4, where the sum
-- does not overflow.
pub get_block_size_lem :
    (size : ℕ)
    → size + 19 < 2 ^ 32
    → (size + 16 ≤ get_block_size size)
      × (get_block_size size < size + 20)
      × (get_block_size size % 4 ≡ 0)
unfolding get_block_size
get_block_size_lem size h = (omega arith, omega arith, omega arith)

-- A request near 2 ^ 32 overflows to a block that has no room for its own header and footer.
pub get_block_size_overflow :
    (size : ℕ) → 2 ^ 32 ≤ size + 19 → size < 2 ^ 32 → get_block_size size < 20
unfolding get_block_size
get_block_size_overflow size h l = omega arith

-- The first block of the list that holds `size` bytes.
unfoldable pub first_fit : (ℕ → ℕ) → ℕ → List ℕ → Option ℕ
first_fit w size [] = none
first_fit w size (z ∷ zs) = if leb size (w z) then some z else first_fit w size zs

pub first_fit-first :
    (w : ℕ → ℕ) (size : ℕ) (ys : List ℕ) (b : ℕ) (zs : List ℕ)
    → All (λ z. w z < size) ys
    → size ≤ w b
    → first_fit w size (ys ++ (b ∷ zs)) ≡ some b
unfolding first_fit
first_fit-first w size [] b zs small fits =
    let e : leb size (w b) ≡ true = ground arith in rw e refl
first_fit-first w size (y ∷ ys) b zs (h, small) fits =
    let e : leb size (w y) ≡ false = ground arith in
    rw (e, first_fit-first w size ys b zs small fits) refl

-- The block is free, and its size a multiple of 4.
abbrev pub IsFree : (ℕ → ℕ) → ℕ → Type 0
IsFree w b = w b % 4 ≡ 0

module _ (head : ℕ) where
  -- What `find_fit` does with the block it finds.
  abbrev pub found : ℕ → Option ℕ → Cmd (Option ℕ)
  found size none = pure none
  found size (some b) = do b' ← take_fit head b size; pure (some b')

  -- `find_fit` walks the list to the first free block that is large enough, and takes that one.
  pub find_from-first_fit :
      (m : Mm) (size k p : ℕ) (zs : List ℕ)
      → length zs < k
      → Chain m.word p zs head
      → All (Far head) zs
      → All (IsNode head m.memory) zs
      → All (IsFree m.word) zs
      → find_from head k (m.word (p + 8)) size m ≡ found size (first_fit m.word size zs) m
  unfolding find_from first_fit Chain load
  find_from-first_fit m size zero p zs h ch far nodes free = absurd (omega arith)
  find_from-first_fit m size (suc k) p [] h ch far nodes free =
      let e : (m.word (p + 8) == head) ≡ true = ground (arith, ch.0) in rw e refl
  find_from-first_fit m size (suc k) p (z ∷ zs) h ch far nodes free =
      let e : m.word (p + 8) ≡ z = ch.0.0 in
      let ne : (z == head) ≡ false = ground arith in
      let fr : is_allocated (m.word z) ≡ false = ground arith in
      let same : block_size (m.word z) ≡ m.word z = omega arith in
      let rest = find_from-first_fit m size k z zs (omega arith) ch.1 far.1 nodes.1 free.1 in
      elim (Bool-cases (leb size (m.word z))) [
        | inl f ↦ rw (e, ne, nodes.0.0, fr, nodes.0.2, same, f) refl
        | inr f ↦ rw (e, ne, nodes.0.0, fr, nodes.0.2, same, f) rest
      ]
