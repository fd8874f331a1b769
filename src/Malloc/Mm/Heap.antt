-- ===== src/Malloc/Mm/Heap.antt =====
-- The heap of malloclab/mm.c as a whole: blocks that lie side by side from behind the prologue to the
-- epilogue, and the list of the free ones.
pub mod Tiles
pub mod Replace
pub mod Listed
pub mod Blocks
pub mod Served
pub mod Allocate
pub mod Freed
pub mod Release
pub mod Join
pub mod Sides
pub mod Free
pub mod Init
pub mod Order
pub mod Extend
mod Tests
use csapp.Common.{
  ℕ, ◌+◌, ◌-◌, ◌%◌, ◌^◌, ◌≤◌, ◌<◌, ◌≡◌, ◌≢◌, ◌⊎◌, Bool, true, false, List, [], ◌∷◌, All,
  if◌then◌else◌,
}
use csapp.Malloc.Word.{Mm}
use csapp.Malloc.Mm.Lists.{Ring}

-- A block, by its bytes and whether it is in use.
pub record Tile : Type 0 where
  pub size : ℕ
  pub used : Bool

-- The header of the block.
abbrev pub tag : Tile → ℕ
tag t = if t.used then t.size + 1 else t.size

-- The block t stands at a. Its footer is its size, or 0 where a merge left that.
pub record Stands (w : ℕ → ℕ) (a : ℕ) (t : Tile) : Type 0 where
  pub large : 16 ≤ t.size
  pub aligned : t.size % 4 ≡ 0
  pub header : w a ≡ tag t
  pub footer : (w (a + t.size - 4) ≡ t.size) ⊎ (w (a + t.size - 4) ≡ 0)

-- The blocks ts fill the bytes from a to e.
unfoldable pub Tiles : (ℕ → ℕ) → ℕ → List Tile → ℕ → Type 0
Tiles w a [] e = a ≡ e
Tiles w a (t ∷ ts) e = Stands w a t × Tiles w (a + t.size) ts e

-- Among the blocks ts from a there is the block t at y.
unfoldable pub At : ℕ → List Tile → ℕ → Tile → Type 0
At a [] y t = ⊥
At a (u ∷ ts) y t = ((a ≡ y) × (u ≡ t)) ⊎ At (a + u.size) ts y t

abbrev pub FreeAt : ℕ → List Tile → ℕ → Type 0
FreeAt a ts y = (n : ℕ) × At a ts y (record { size = n; used = false })

abbrev pub UsedAt : ℕ → List Tile → ℕ → ℕ → Type 0
UsedAt a ts y n = At a ts y (record { size = n; used = true })

unfoldable pub In : ℕ → List ℕ → Type 0
In y [] = ⊥
In y (x ∷ xs) = (y ≡ x) ⊎ In y xs

-- The heap from a to e has the blocks ts, and xs is the list of the free ones.
pub record Heap (head : ℕ) (a e : ℕ) (ts : List Tile) (xs : List ℕ) (m : Mm) : Type 0 where
  pub ring : Ring head m xs
  pub tiles : Tiles m.word a ts e
  pub listed : All (FreeAt a ts) xs
  pub complete : (y : ℕ) → FreeAt a ts y → In y xs
  pub prologue : (m.word (a - 8) ≡ 9) × (m.word (a - 4) ≡ 8)
  pub epilogue : m.word e ≡ 1
  pub start : m.memory.start_brk + 8 ≤ a
  pub end : (e + 4 ≡ m.memory.brk) × (m.memory.brk ≤ m.memory.max_addr) × (m.memory.brk < 2 ^ 32)
  pub away : (head + 12 ≤ a - 8) ⊎ (e + 4 ≤ head)
