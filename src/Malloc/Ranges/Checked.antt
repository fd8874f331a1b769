-- ===== src/Malloc/Ranges/Checked.antt =====
-- What the list of payloads of malloclab/mdriver.c keeps for any allocator.
use csapp.Common.{
  ℕ, zero, suc, ◌%◌, ◌≤◌, ◌≡◌, ◌⊎◌, inl, inr, Bool, Option, none, some, List, [], ◌∷◌, ◌==◌, All,
  Bool-cases, arith,
}
use csapp.Malloc.Memlib.{Memory}
use csapp.Malloc.Ranges.{Range, alignment, add_range, remove_range}
use csapp.Malloc.Ranges.Laws.{Apart, Encloses, add_range_iff, All-remove_range}

-- Each payload is aligned, and shares no byte with an older one that it does not enclose.
unfoldable pub Checked : List Range → Type 0
Checked [] = Unit
Checked (p ∷ ps) =
    (p.lo ≤ p.hi) × (p.lo % alignment ≡ 0) × All (λ q. Apart p q ⊎ Encloses p q) ps × Checked ps

pub remove_range-Checked :
    (lo : ℕ) (ranges : List Range) → Checked ranges → Checked (remove_range lo ranges)
unfolding Checked remove_range
remove_range-Checked lo [] c = tt
remove_range-Checked lo (p ∷ ps) (h, a, o, c) = elim (Bool-cases (p.lo == lo)) [
  | inl e ↦ rw e c
  | inr e ↦
      rw e (
        h,
        a,
        All-remove_range (λ q. Apart p q ⊎ Encloses p q) lo ps o,
        remove_range-Checked lo ps c,
      )
]

pub Checked-ordered : (ranges : List Range) → Checked ranges → All (λ p. p.lo ≤ p.hi) ranges
unfolding Checked
Checked-ordered [] c = tt
Checked-ordered (p ∷ ps) (h, a, o, c) = (h, Checked-ordered ps c)

abbrev pub CheckedResult : Option (Bool × List Range) → Type 0
CheckedResult none = Unit
CheckedResult (some (ok, ranges)) = Checked ranges

pub add_range-Checked :
    (m : Memory) (lo size : ℕ) (ranges : List Range)
    → Checked ranges
    → CheckedResult (add_range m lo size ranges)
unfolding Checked add_range
add_range-Checked m lo zero ranges c = tt
add_range-Checked m lo (suc n) ranges c =
    elim (add_range_iff m lo n ranges (Checked-ordered ranges c)) [
      | inl (e, a) ↦ rw (e, CheckedResult) (omega arith, a.aligned, a.others, c)
      | inr (e, _) ↦ rw (e, CheckedResult) c
    ]
