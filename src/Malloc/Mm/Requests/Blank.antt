-- ===== src/Malloc/Mm/Requests/Blank.antt =====
-- Blocks of malloclab/mm.c whose words are cleared by a merge, and the list.
use csapp.Common.{ℕ, ◌+◌, ◌-◌, ◌≤◌, ◌<◌, ◌≡◌, ◌⊎◌, List, [], ◌∷◌, ◌++◌, All, arith}
use csapp.Malloc.Word.{Mm}
use csapp.Malloc.Mm.Tags.{with_word}
use csapp.Malloc.Mm.Ring.{Clear}
use csapp.Malloc.Mm.Lists.{Ring}
use csapp.Malloc.Mm.Split.{Ring-with_word}

pub All-put :
    (P : ℕ → Type 0) (ys : List ℕ) (c : ℕ) (zs : List ℕ)
    → P c
    → All P (ys ++ zs)
    → All P (ys ++ (c ∷ zs))
All-put P [] c zs h hs = (h, hs)
All-put P (y ∷ ys) c zs h (k, hs) = (k, All-put P ys c zs h hs)

-- The front block has taken the two behind it, where `total` is the size of all three.
abbrev pub grown : Mm → ℕ → ℕ → ℕ → Mm
grown m b p total = with_word (with_word (with_word m (b + p - 4) 0) b total) (b + total - 4) total

-- The block at c of k bytes is cleared.
abbrev pub blank : Mm → ℕ → ℕ → Mm
blank m c k = with_word (with_word (with_word (with_word m (c + k - 4) 0) c 0) (c + 4) 0) (c + 8) 0

pub blank-other :
    (m : Mm) (c k q : ℕ) → (q < c) ⊎ (c + k ≤ q) → 16 ≤ k → (blank m c k).word q ≡ m.word q
blank-other m c k q h l = ground arith

pub blank_footer : (m : Mm) (c k : ℕ) → 16 ≤ k → (blank m c k).word (c + k - 4) ≡ 0
blank_footer m c k l = ground arith

module _ (head : ℕ) where
  pub blank-Ring :
      (m : Mm) (c k : ℕ) (xs : List ℕ)
      → 16 ≤ k
      → ((q : ℕ) → c ≤ q → q < c + k → All (Clear q) (head ∷ xs))
      → Ring head m xs
      → Ring head (blank m c k) xs
  blank-Ring m c k xs l off r =
      let m₁ = with_word m (c + k - 4) 0 in
      let m₂ = with_word m₁ c 0 in
      let m₃ = with_word m₂ (c + 4) 0 in
      Ring-with_word head m₃ xs (c + 8) 0 (off (c + 8) (omega arith) (omega arith)) (
        Ring-with_word head m₂ xs (c + 4) 0 (off (c + 4) (omega arith) (omega arith)) (
          Ring-with_word head m₁ xs c 0 (off c (omega arith) (omega arith)) (
            Ring-with_word head m xs (c + k - 4) 0 (off (c + k - 4) (omega arith) (omega arith))
              r)))
