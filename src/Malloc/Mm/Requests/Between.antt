-- ===== src/Malloc/Mm/Requests/Between.antt =====
-- `mm_free` of malloclab/mm.c, for a block between two free ones.
use csapp.Common.{
  ℕ, ◌+◌, ◌-◌, ◌%◌, ◌^◌, ◌≤◌, ◌<◌, ◌≡◌, ◌≢◌, ◌⊎◌, refl, sym, ap, ◌∙◌, inl, inr, true, false, List,
  ◌∷◌, ◌++◌, ◌==◌, All, All-at, arith,
}
use csapp.Malloc.Word.{Mm, done, reaches, add32, sub32, pure, ◌>>=◌}
use csapp.Malloc.Mm.{block_size, size_at, grow, merge, coalesce}
use csapp.Malloc.Mm.Tags.{
  with_word, load-run, store-run, set_free-run, size_at-run, footer-run, write_footer-run,
  update-same, update-other,
}
use csapp.Malloc.Mm.Ring.{Clear}
use csapp.Malloc.Mm.Lists.{IsNode, Ring}
use csapp.Malloc.Mm.Lists.Removal.{remove_from_list-Ring}
use csapp.Malloc.Mm.Split.{Room, Room-Clear, Ring-with_word}
use csapp.Malloc.Mm.Merge.{clear_block-run}
use csapp.Malloc.Mm.Requests.{mm_free}
use csapp.Malloc.Mm.Requests.Release.{is_free-free}
use csapp.Malloc.Mm.Requests.Blank.{All-put, grown, blank, blank-other, blank_footer, blank-Ring}

module _ (head : ℕ) where
  -- A free block at b of p bytes, a block in use of n bytes, and a free one of k bytes, side by side. No
  -- other header of the list stands in them.
  pub record BetweenFree (m : Mm) (b p n k : ℕ) (ys zs : List ℕ) : Type 0 where
    pub ring : Ring head m (ys ++ ((b + (p + n)) ∷ zs))
    pub size : m.word b ≡ p
    pub footer : m.word (b + p - 4) ≡ p
    pub used_size : block_size (m.word (b + p)) ≡ n
    pub next_size : m.word (b + (p + n)) ≡ k
    pub aligned : (p % 4 ≡ 0) × (n % 4 ≡ 0) × (k % 4 ≡ 0)
    pub large : (16 ≤ p) × (16 ≤ n) × (16 ≤ k) × (b + (p + n + k) < 2 ^ 32)
    pub header : reaches head m.memory b ≡ true
    pub used : IsNode head m.memory (b + p)
    pub footers :
        (reaches head m.memory (b + p - 4) ≡ true)
        × (reaches head m.memory (b + (p + n) - 4) ≡ true)
        × (reaches head m.memory (b + (p + n + k) - 4) ≡ true)
    pub room : Room head b (p + n + k) (head ∷ (ys ++ zs))
    pub not_head : (b ≢ head) × (b + (p + n) ≢ head)

  module _ (m : Mm) (b p n k : ℕ) (ys zs : List ℕ) (h : BetweenFree m b p n k ys zs) where
    -- The block behind.
    abbrev c : ℕ
    c = b + (p + n)

    abbrev total : ℕ
    total = p + n + k

    abbrev marked : Mm
    marked = with_word m (b + p) n

    abbrev wide : Mm
    wide = grown marked b p total

    off : (q : ℕ) → (q ≡ b) ⊎ ((b + 12 ≤ q) × (q < b + total)) → All (Clear q) (head ∷ (ys ++ zs))
    off q i =
        let large = h.large in Room-Clear head b total (head ∷ (ys ++ zs)) q i (omega arith) h.room

    off_among :
        (q : ℕ)
        → (q ≡ b) ⊎ ((b + 12 ≤ q) × (q < b + total))
        → (q < c + 4) ⊎ (c + 12 ≤ q)
        → All (Clear q) (head ∷ (ys ++ (c ∷ zs)))
    off_among q i j =
        let r = off q i in (r.0, All-put (Clear q) ys c zs (omega arith, omega arith) r.1)

    wide-Ring : Ring head wide (ys ++ (c ∷ zs))
    wide-Ring =
        let large = h.large in
        let xs = ys ++ (c ∷ zs) in
        let m₂ = with_word marked (b + p - 4) 0 in
        let m₃ = with_word m₂ b total in
        Ring-with_word head m₃ xs (b + total - 4) total
          (off_among (b + total - 4) (inr (omega arith, omega arith)) (inr (omega arith)))
          (Ring-with_word head m₂ xs b total (off_among b (inl refl) (inl (omega arith))) (
            Ring-with_word head marked xs (b + p - 4) 0
              (off_among (b + p - 4) (inr (omega arith, omega arith)) (inl (omega arith)))
              (Ring-with_word head m xs (b + p) n
                (off_among (b + p) (inr (omega arith, omega arith)) (inl (omega arith))) h.ring)))

    wide-at : (q : ℕ) → (q ≡ b + p) ⊎ (q ≡ c) → wide.word q ≡ marked.word q
    wide-at q at = let large = h.large in ground arith

    wide-size : wide.word b ≡ total
    wide-size = let large = h.large in ground arith

    wide-out : (q : ℕ) → (q < b) ⊎ (b + total ≤ q) → wide.word q ≡ m.word q
    wide-out q out = let large = h.large in ground arith

    used-word : wide.word (b + p) ≡ n
    used-word = wide-at (b + p) (inl refl) ∙ update-same m.word (b + p) n

    next-word : wide.word c ≡ k
    next-word =
        let large = h.large in
        wide-at c (inr refl) ∙ update-other m.word (b + p) n c (omega arith) ∙ h.next_size

    c-IsNode : IsNode head m.memory c
    c-IsNode = All-at (IsNode head m.memory) ys c zs h.ring.nodes.1

    grow-both :
        grow head b
          (size_at head (b + p) >>= λ i. size_at head c >>= λ i'. pure (add32 i i'))
          marked
        ≡ done tt wide
    unfolding grow
    grow-both =
        let large = h.large in
        let aligned = h.aligned in
        let m₂ = with_word marked (b + p - 4) 0 in
        let m₃ = with_word m₂ b total in
        let front : marked.word b ≡ p = update-other m.word (b + p) n b (omega arith) ∙ h.size in
        let w₁ : block_size (marked.word b) ≡ p = rw front (omega arith) in
        let u₂ : m₂.word (b + p) ≡ n =
          update-other marked.word (b + p - 4) 0 (b + p) (omega arith)
          ∙ update-same m.word (b + p) n in
        let v₂ : m₂.word c ≡ k =
          update-other marked.word (b + p - 4) 0 c (omega arith)
          ∙ update-other m.word (b + p) n c (omega arith)
          ∙ h.next_size in
        let w₂ : block_size (m₂.word (b + p)) ≡ n = rw u₂ (omega arith) in
        let w₃ : block_size (m₂.word c) ≡ k = rw v₂ (omega arith) in
        let f₂ : m₂.word b ≡ p = update-other marked.word (b + p - 4) 0 b (omega arith) ∙ front in
        let w₄ : block_size (m₃.word b) ≡ total = rw (update-same m₂.word b total) (omega arith) in
        let more : add32 n k ≡ n + k = omega arith in
        let sum : add32 p (n + k) ≡ total = omega arith in
        rw
          (
            footer-run head marked b p h.header w₁ (omega arith) (omega arith),
            store-run head marked (b + p - 4) 0 h.footers.0,
            size_at-run head m₂ (b + p) n h.used.0 w₂,
            size_at-run head m₂ c k c-IsNode.0 w₃,
            load-run head m₂ b p h.header f₂,
            more,
            sum,
            store-run head m₂ b total h.header,
            write_footer-run head m₃ b total h.header w₄ (omega arith) (omega arith) h.footers.2,
          )
          refl

    merge-both :
        (m' : Mm) × (merge head (b + p) b c true true true marked ≡ done b m')
        × Ring head m' (ys ++ zs)
        × (m'.word b ≡ total)
        × (m'.word (b + total - 4) ≡ 0)
        × (m'.memory ≡ m.memory)
        × ((q : ℕ)
            → (q < b) ⊎ (b + total ≤ q)
            → All (Clear q) (head ∷ (ys ++ (c ∷ zs)))
            → m'.word q ≡ m.word q)
    unfolding merge
    merge-both =
        let large = h.large in
        let aligned = h.aligned in
        let (m₅, f, ring, links) = remove_from_list-Ring head wide c ys zs wide-Ring in
        let memory = links.same_memory in
        let at_c : m₅.word c ≡ k =
          links.same_words c (off_among c (inr (omega arith, omega arith)) (inl (omega arith)))
          ∙ next-word in
        let at_used : m₅.word (b + p) ≡ n =
          links.same_words (b + p)
            (off_among (b + p) (inr (omega arith, omega arith)) (inl (omega arith)))
          ∙ used-word in
        let at_b : m₅.word b ≡ total =
          links.same_words b (off_among b (inl refl) (inl (omega arith))) ∙ wide-size in
        let node : IsNode head m₅.memory c = rw memory c-IsNode in
        let used : IsNode head m₅.memory (b + p) = rw memory h.used in
        let end : c + k - 4 ≡ b + total - 4 = omega arith in
        let end' : b + p + n - 4 ≡ c - 4 = omega arith in
        let r₅ : reaches head m₅.memory (c + k - 4) ≡ true = rw (memory, end) h.footers.2 in
        let r₆ : reaches head m₅.memory (b + p + n - 4) ≡ true = rw (memory, end') h.footers.1 in
        let w₅ : block_size (m₅.word c) ≡ k = rw at_c (omega arith) in
        let m₆ = blank m₅ c k in
        let w₆ : block_size (m₆.word (b + p)) ≡ n =
          rw (blank-other m₅ c k (b + p) (inl (omega arith)) (omega arith), at_used)
            (omega arith) in
        let run₅ = clear_block-run head m₅ c k node w₅ (omega arith) (omega arith) r₅ in
        let run₆ = clear_block-run head m₆ (b + p) n used w₆ (omega arith) (omega arith) r₆ in
        let m₇ = blank m₆ (b + p) n in
        let inside : (q : ℕ) → b + 12 ≤ q → q < b + total → All (Clear q) (head ∷ (ys ++ zs)) =
          λ q l g. off q (inr (l, g)) in
        let ring₆ =
          blank-Ring head m₅ c k (ys ++ zs) (omega arith)
            (λ q l g. inside q (omega arith) (omega arith)) ring in
        let ring₇ =
          blank-Ring head m₆ (b + p) n (ys ++ zs) (omega arith)
            (λ q l g. inside q (omega arith) (omega arith)) ring₆ in
        let same : (q : ℕ) → (q < b + p) ⊎ (c ≤ q) → m₇.word q ≡ m₆.word q =
          λ q o. blank-other m₆ (b + p) n q (omega arith) (omega arith) in
        (
          m₇,
          rw (grow-both, f, run₅, run₆) refl,
          ring₇,
          same b (inl (omega arith))
              ∙ blank-other m₅ c k b (inl (omega arith)) (omega arith)
              ∙ at_b,
          same (b + total - 4) (inr (omega arith))
              ∙ ap m₆.word (sym end)
              ∙ blank_footer m₅ c k (omega arith),
          memory,
          λ q out clear.
              same q (omega arith)
              ∙ blank-other m₅ c k q (omega arith) (omega arith)
              ∙ links.same_words q clear
              ∙ wide-out q out,
        )

    coalesce-run : coalesce head (b + p) true marked ≡ merge head (b + p) b c true true true marked
    unfolding coalesce
    coalesce-run =
        let large = h.large in
        let aligned = h.aligned in
        let not_head = h.not_head in
        let used : marked.word (b + p) ≡ n = update-same m.word (b + p) n in
        let size : marked.word b ≡ p = update-other m.word (b + p) n b (omega arith) ∙ h.size in
        let foot : marked.word (b + p - 4) ≡ p =
          update-other m.word (b + p) n (b + p - 4) (omega arith) ∙ h.footer in
        let behind : marked.word c ≡ k =
          update-other m.word (b + p) n c (omega arith) ∙ h.next_size in
        let back : sub32 (b + p) 4 ≡ b + p - 4 = omega arith in
        let previous : sub32 (b + p) p ≡ b = omega arith in
        let whole : block_size n ≡ n = omega arith in
        let at : add32 (b + p) n ≡ c = omega arith in
        let some_size : (p == 0) ≡ false = ground arith in
        let prev_free = is_free-free head marked b p not_head.0 h.header size aligned.0 large.0 in
        let next_free =
          is_free-free head marked c k not_head.1 c-IsNode.0 behind aligned.2 (omega arith) in
        rw
          (
            load-run head marked (b + p) n h.used.0 used,
            back,
            load-run head marked (b + p - 4) p h.footers.0 foot,
            some_size,
            previous,
            prev_free,
            whole,
            at,
            next_free,
          )
          refl

    -- `mm_free` of a block between two free ones takes the one behind out of the list, and adds both sizes to
    -- the one in front, which stays where it is in the list. The footer of the whole is 0 in the end.
    pub mm_free-between :
        (rounds : ℕ)
        → (m' : Mm) × (mm_free head rounds (b + p + 12) m ≡ done tt m')
          × Ring head m' (ys ++ zs)
          × (m'.word b ≡ total)
          × (m'.word (b + total - 4) ≡ 0)
          × (m'.memory ≡ m.memory)
          × ((q : ℕ)
              → (q < b) ⊎ (b + total ≤ q)
              → All (Clear q) (head ∷ (ys ++ (c ∷ zs)))
              → m'.word q ≡ m.word q)
    unfolding mm_free
    mm_free-between rounds =
        let large = h.large in
        let at : sub32 (b + p + 12) 12 ≡ b + p = omega arith in
        let some_ptr : (b + p + 12 == 0) ≡ false = ground arith in
        let moved : (b == b + p) ≡ false = ground arith in
        let (m', f, ring, size, foot, memory, others) = merge-both in
        (
          m',
          rw
              (
                some_ptr,
                at,
                set_free-run head m (b + p) n h.used.0 h.used_size,
                coalesce-run,
                f,
                moved,
              )
              refl,
          ring,
          size,
          foot,
          memory,
          others,
        )
