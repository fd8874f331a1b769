-- ===== src/Malloc/Mm/Requests/Join.antt =====
-- `mm_free` of malloclab/mm.c, for a block behind a free one.
use csapp.Common.{
  ℕ, ◌+◌, ◌-◌, ◌%◌, ◌^◌, ◌≤◌, ◌<◌, ◌≡◌, ◌≢◌, ◌⊎◌, refl, ◌∙◌, inl, inr, true, false, List, ◌∷◌, ◌==◌,
  All, arith,
}
use csapp.Malloc.Word.{Mm, done, reaches, add32, sub32}
use csapp.Malloc.Mm.{block_size, merge, coalesce}
use csapp.Malloc.Mm.Tags.{with_word, load-run, set_free-run, update-same, update-other}
use csapp.Malloc.Mm.Ring.{Clear}
use csapp.Malloc.Mm.Lists.{IsNode, Ring}
use csapp.Malloc.Mm.Split.{Room, Room-Clear, Ring-with_word}
use csapp.Malloc.Mm.Merge.{
  Taken, is_free-Taken, clear_block-run, widened, grow-run, cleared, widened-next, widened-block,
  cleared-block, cleared-footer, cleared-outside, widened-outside,
}
use csapp.Malloc.Mm.Requests.{mm_free}
use csapp.Malloc.Mm.Requests.Release.{is_free-free}

module _ (head : ℕ) where
  -- A free block at b, of p bytes, in front of a block in use with n bytes; no other header of the
  -- list stands in them, and the block behind is in use.
  pub record BehindFree (m : Mm) (b p n : ℕ) (xs : List ℕ) : Type 0 where
    pub ring : Ring head m xs
    pub size : m.word b ≡ p
    pub footer : m.word (b + p - 4) ≡ p
    pub used_size : block_size (m.word (b + p)) ≡ n
    pub aligned : (p % 4 ≡ 0) × (n % 4 ≡ 0)
    pub large : (16 ≤ p) × (16 ≤ n) × (b + (p + n) < 2 ^ 32)
    pub header : reaches head m.memory b ≡ true
    pub used : IsNode head m.memory (b + p)
    pub footers :
        (reaches head m.memory (b + p - 4) ≡ true)
        × (reaches head m.memory (b + (p + n) - 4) ≡ true)
    pub room : Room head b (p + n) (head ∷ xs)
    pub not_head : b ≢ head
    pub next : Taken head m (b + p) (b + (p + n))

  module _ (m : Mm) (b p n : ℕ) (xs : List ℕ) (h : BehindFree m b p n xs) where
    -- The block is marked as free.
    abbrev marked : Mm
    marked = with_word m (b + p) n

    -- The state that `mm_free` leaves.
    abbrev joined : Mm
    joined = cleared (widened marked b p n) b p n

    clear : (q : ℕ) → (q ≡ b) ⊎ ((b + 12 ≤ q) × (q < b + (p + n))) → All (Clear q) (head ∷ xs)
    clear q k =
        let large = h.large in Room-Clear head b (p + n) (head ∷ xs) q k (omega arith) h.room

    joined-Ring : Ring head joined xs
    joined-Ring =
        let large = h.large in
        let put = Ring-with_word head in
        let end = b + (p + n) - 4 in
        let m₁ = marked in
        let m₂ = with_word m₁ (b + p - 4) 0 in
        let m₃ = with_word m₂ b (p + n) in
        let m₄ = widened marked b p n in
        let m₅ = with_word m₄ end 0 in
        let m₆ = with_word m₅ (b + p) 0 in
        let m₇ = with_word m₆ (b + p + 4) 0 in
        let at_end = clear end (inr (omega arith, omega arith)) in
        let at_used = clear (b + p) (inr (omega arith, omega arith)) in
        put m₇ xs (b + p + 8) 0 (clear (b + p + 8) (inr (omega arith, omega arith))) (
          put m₆ xs (b + p + 4) 0 (clear (b + p + 4) (inr (omega arith, omega arith))) (
            put m₅ xs (b + p) 0 at_used (
              put m₄ xs end 0 at_end (
                put m₃ xs end (p + n) at_end (
                  put m₂ xs b (p + n) (clear b (inl refl)) (
                    put m₁ xs (b + p - 4) 0 (clear (b + p - 4) (inr (omega arith, omega arith)))
                      (put m xs (b + p) n at_used h.ring)))))))

    merge-run :
        (next_block : ℕ) → merge head (b + p) b next_block true true false marked ≡ done b joined
    unfolding merge
    merge-run next_block =
        let large = h.large in
        let aligned = h.aligned in
        let size : marked.word b ≡ p = update-other m.word (b + p) n b (omega arith) ∙ h.size in
        let used : marked.word (b + p) ≡ n = update-same m.word (b + p) n in
        let grown =
          grow-run head marked b p n size used aligned.0 aligned.1 (omega arith) (omega arith)
            h.header h.used.0 h.footers.0 h.footers.1 in
        let kept : (widened marked b p n).word (b + p) ≡ n =
          widened-next marked b p n (large.0, large.1) ∙ used in
        let whole : block_size ((widened marked b p n).word (b + p)) ≡ n = rw kept (omega arith) in
        let same : b + p + n - 4 ≡ b + (p + n) - 4 = omega arith in
        let emptied =
          clear_block-run head (widened marked b p n) (b + p) n h.used whole (omega arith)
            (omega arith) (rw same h.footers.1) in
        rw (grown, emptied, same) refl

    coalesce-run : coalesce head (b + p) true marked ≡ done b joined
    unfolding coalesce
    coalesce-run =
        let large = h.large in
        let used : marked.word (b + p) ≡ n = update-same m.word (b + p) n in
        let size : marked.word b ≡ p = update-other m.word (b + p) n b (omega arith) ∙ h.size in
        let foot : marked.word (b + p - 4) ≡ p =
          update-other m.word (b + p) n (b + p - 4) (omega arith) ∙ h.footer in
        let back : sub32 (b + p) 4 ≡ b + p - 4 = omega arith in
        let previous : sub32 (b + p) p ≡ b = omega arith in
        let aligned = h.aligned in
        let whole : block_size n ≡ n = omega arith in
        let at : add32 (b + p) n ≡ b + (p + n) = omega arith in
        let some_size : (p == 0) ≡ false = ground arith in
        let (reach, ne, taken) = h.next in
        let other : marked.word (b + (p + n)) ≡ m.word (b + (p + n)) =
          update-other m.word (b + p) n (b + (p + n)) ne in
        let free = is_free-free head marked b p h.not_head h.header size aligned.0 (omega arith) in
        let next : Taken head marked (b + p) (b + (p + n)) = (reach, ne, rw other taken) in
        let next_used = is_free-Taken head marked (b + p) (b + (p + n)) next in
        rw
          (
            load-run head marked (b + p) n h.used.0 used,
            back,
            load-run head marked (b + p - 4) p h.footers.0 foot,
            some_size,
            previous,
            free,
            whole,
            at,
            next_used,
          )
          (merge-run (b + (p + n)))

    -- `mm_free` of a block behind a free one and in front of one in use adds its size to the free block,
    -- which stays where it is in the list. The footer of the whole is 0 in the end, not its size.
    pub mm_free-previous :
        (rounds : ℕ)
        → (m' : Mm) × (mm_free head rounds (b + p + 12) m ≡ done tt m')
          × Ring head m' xs
          × (m'.word b ≡ p + n)
          × (m'.word (b + (p + n) - 4) ≡ 0)
          × (m'.memory ≡ m.memory)
          × ((q : ℕ) → (q < b) ⊎ (b + (p + n) ≤ q) → m'.word q ≡ m.word q)
    unfolding mm_free
    mm_free-previous rounds =
        let large = h.large in
        let at : sub32 (b + p + 12) 12 ≡ b + p = omega arith in
        let some_ptr : (b + p + 12 == 0) ≡ false = ground arith in
        let moved : (b == b + p) ≡ false = ground arith in
        (
          joined,
          rw (some_ptr, at, set_free-run head m (b + p) n h.used.0 h.used_size, coalesce-run, moved)
              refl,
          joined-Ring,
          cleared-block (widened marked b p n) b p n (large.0, large.1)
              ∙ widened-block marked b p n (large.0, large.1),
          cleared-footer (widened marked b p n) b p n (large.0, large.1),
          refl,
          λ q out.
              cleared-outside (widened marked b p n) b p n (large.0, large.1) q out
              ∙ widened-outside marked b p n (large.0, large.1) q out
              ∙ update-other m.word (b + p) n q (omega arith),
        )
