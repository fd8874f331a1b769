-- ===== src/Malloc/Mm/Split.antt =====
-- `split_block` of malloclab/mm.c: the two halves, and the list.
use csapp.Common.{
  ℕ, ◌+◌, ◌-◌, ◌%◌, ◌^◌, ◌≤◌, ◌<◌, ◌≡◌, ◌⊎◌, refl, ◌∙◌, inl, inr, true, false, List, ◌∷◌, ◌++◌, All,
  All-map, arith,
}
use csapp.Malloc.Memlib.{Memory}
use csapp.Malloc.Word.{Mm, done, add32, sub32, reaches, update}
use csapp.Malloc.Mm.{block_size, split_tags, split_block}
use csapp.Malloc.Mm.Tags.{
  with_word, load-run, store-run, footer-run, write_footer-run, set_free-run,
}
use csapp.Malloc.Mm.Ring.{Far, Clear, Chain-update}
use csapp.Malloc.Mm.Lists.{IsNode, Ring, Relinked, insert_to_list-front, insert_to_list-behind}

-- The words after the tags of a block of n bytes are set for its halves.
abbrev pub tagged : (ℕ → ℕ) → ℕ → ℕ → ℕ → (ℕ → ℕ)
tagged w b n size =
    update
      (update
        (update (update (update w (b + size) (n - size)) (b + n - 4) (n - size)) (b + size)
          (n - size))
        b size)
      (b + size - 4) size

module _ (head : ℕ) where
  split_tags-run :
      (m : Mm) (b n size : ℕ)
      → block_size (m.word b) ≡ n
      → n % 4 ≡ 0
      → size % 4 ≡ 0
      → 16 ≤ size
      → size + 16 < n
      → b + n < 2 ^ 32
      → reaches head m.memory b ≡ true
      → reaches head m.memory (b + size) ≡ true
      → reaches head m.memory (b + n - 4) ≡ true
      → reaches head m.memory (b + size - 4) ≡ true
      → split_tags head b size m ≡ done tt (record m { word = tagged m.word b n size })
  unfolding split_tags
  split_tags-run m b n size e n4 s4 big fits top r0 r1 r2 r3 =
      let at : add32 b size ≡ b + size = omega arith in
      let half : sub32 n size ≡ n - size = omega arith in
      let end : b + size + (n - size) - 4 ≡ b + n - 4 = omega arith in
      let m₁ = with_word m (b + size) (n - size) in
      let m₂ = with_word m₁ (b + n - 4) (n - size) in
      let m₃ = with_word m₂ (b + size) (n - size) in
      let m₄ = with_word m₃ b size in
      let read₁ : block_size (m₁.word (b + size)) ≡ n - size = ground arith in
      let read₂ : block_size (m₂.word (b + size)) ≡ n - size = ground arith in
      let read₄ : block_size (m₄.word b) ≡ size = ground arith in
      let foot =
        write_footer-run head m₁ (b + size) (n - size) r1 read₁ (omega arith) (omega arith)
          (rw end r2) in
      rw
        (
          load-run head m b (m.word b) r0 refl,
          e,
          at,
          half,
          store-run head m (b + size) (n - size) r1,
          foot,
          end,
          set_free-run head m₂ (b + size) (n - size) r1 read₂,
          store-run head m₃ b size r0,
          footer-run head m₄ b size r0 read₄ (omega arith) (omega arith),
          store-run head m₄ (b + size - 4) size r3,
        )
        refl

  pub Ring-with_word :
      (m : Mm) (xs : List ℕ) (q v : ℕ)
      → All (Clear q) (head ∷ xs)
      → Ring head m xs
      → Ring head (with_word m q v) xs
  Ring-with_word m xs q v c r = record {
    chain = Chain-update m.word head xs head q v c.0.1 c.1 c.0.0 r.chain;
    spread = r.spread;
    nodes = r.nodes;
  }

  -- No other header stands in the n bytes of the block b.
  abbrev pub Room : ℕ → ℕ → List ℕ → Type 0
  Room b n xs = All (λ x. (x ≡ b) ⊎ (x + 12 ≤ b) ⊎ (b + n ≤ x)) xs

  -- A word in the block, but not in its links, is no link.
  pub Room-Clear :
      (b n : ℕ) (xs : List ℕ) (q : ℕ)
      → (q ≡ b) ⊎ ((b + 12 ≤ q) × (q < b + n))
      → 0 < n
      → Room b n xs
      → All (Clear q) xs
  Room-Clear b n xs q h p room =
      All-map (λ x. (x ≡ b) ⊎ (x + 12 ≤ b) ⊎ (b + n ≤ x)) (Clear q) xs
        (λ x c. (omega (arith, h), omega (arith, h))) room

  Room-Far :
      (b n : ℕ) (xs : List ℕ) (c : ℕ) → b + 12 ≤ c → c + 12 ≤ b + n → Room b n xs → All (Far c) xs
  Room-Far b n xs c h l room =
      All-map (λ x. (x ≡ b) ⊎ (x + 12 ≤ b) ⊎ (b + n ≤ x)) (Far c) xs (λ x r. omega arith) room

  -- The block b of n bytes has become one of `size` bytes, with `tag` in its header, and one of the
  -- rest behind it, each with its footer; the words of its payload are as before, and outside of it
  -- only links have changed.
  pub record Halved (b n size tag : ℕ) (xs : List ℕ) (m m' : Mm) : Type 0 where
    pub first : m'.word b ≡ tag
    pub first_footer : m'.word (b + size - 4) ≡ size
    pub second : m'.word (b + size) ≡ n - size
    pub second_footer : m'.word (b + n - 4) ≡ n - size
    pub content : (q : ℕ) → b + 12 ≤ q → q < b + size - 4 → m'.word q ≡ m.word q
    pub same_memory : m'.memory ≡ m.memory
    pub others : (q : ℕ) → (q < b) ⊎ (b + n ≤ q) → All (Clear q) (head ∷ xs) → m'.word q ≡ m.word q

  -- The header and the footers that a block of n bytes needs for its halves are in memory.
  pub record Holds (m : Memory) (b n size : ℕ) : Type 0 where
    pub header : reaches head m b ≡ true
    pub half : IsNode head m (b + size)
    pub half_footer : reaches head m (b + size - 4) ≡ true
    pub footer : reaches head m (b + n - 4) ≡ true

  module _ (m : Mm) (b n size : ℕ) (xs : List ℕ) (e : block_size (m.word b) ≡ n) (n4 : n % 4 ≡ 0)
      (s4 : size % 4 ≡ 0) (big : 16 ≤ size) (fits : size + 16 < n) (top : b + n < 2 ^ 32)
      (mem : Holds m.memory b n size) (room : Room b n (head ∷ xs)) (r : Ring head m xs) where
    clear : (q : ℕ) → (q ≡ b) ⊎ ((b + 12 ≤ q) × (q < b + n)) → All (Clear q) (head ∷ xs)
    clear q h = Room-Clear b n (head ∷ xs) q h (omega arith) room

    tagged-Ring : Ring head (record m { word = tagged m.word b n size }) xs
    tagged-Ring =
        let m₁ = with_word m (b + size) (n - size) in
        let m₂ = with_word m₁ (b + n - 4) (n - size) in
        let m₃ = with_word m₂ (b + size) (n - size) in
        let m₄ = with_word m₃ b size in
        Ring-with_word m₄ xs (b + size - 4) size
          (clear (b + size - 4) (inr (omega arith, omega arith)))
          (Ring-with_word m₃ xs b size (clear b (inl refl)) (
            Ring-with_word m₂ xs (b + size) (n - size)
              (clear (b + size) (inr (omega arith, omega arith)))
              (Ring-with_word m₁ xs (b + n - 4) (n - size)
                (clear (b + n - 4) (inr (omega arith, omega arith)))
                (Ring-with_word m xs (b + size) (n - size)
                  (clear (b + size) (inr (omega arith, omega arith))) r))))

    halves :
        (m' : Mm)
        → Relinked head ((b + size) ∷ head ∷ xs) (record m { word = tagged m.word b n size }) m'
        → Halved b n size size xs m m'
    halves m' links = record {
      first = links.same_words b ((omega arith, omega arith), clear b (inl refl)) ∙ ground arith;
      first_footer =
          links.same_words (b + size - 4)
            ((omega arith, omega arith), clear (b + size - 4) (inr (omega arith, omega arith)))
          ∙ ground arith;
      second =
          links.same_words (b + size)
            ((omega arith, omega arith), clear (b + size) (inr (omega arith, omega arith)))
          ∙ ground arith;
      second_footer =
          links.same_words (b + n - 4)
            ((omega arith, omega arith), clear (b + n - 4) (inr (omega arith, omega arith)))
          ∙ ground arith;
      content = λ q l k.
          links.same_words q ((omega arith, omega arith), clear q (inr (l, omega arith)))
          ∙ ground (arith, l, k);
      same_memory = links.same_memory;
      others = λ q out c.
          links.same_words q ((omega (arith, out), omega (arith, out)), c) ∙ ground (arith, out);
    }

    half-Far : All (Far (b + size)) (head ∷ xs)
    half-Far = Room-Far b n (head ∷ xs) (b + size) (omega arith) (omega arith) room

    half_at : add32 b size ≡ b + size
    half_at = omega arith

    tags-run : split_tags head b size m ≡ done tt (record m { word = tagged m.word b n size })
    tags-run =
        split_tags-run m b n size e n4 s4 big fits top mem.header mem.half.0 mem.footer
          mem.half_footer

    -- `split_block` of an allocated block puts its second half in front of the list.
    pub split_block-front :
        (m' : Mm) × (split_block head b size true m ≡ done tt m')
        × Ring head m' ((b + size) ∷ xs)
        × Halved b n size size xs m m'
    unfolding split_block
    split_block-front =
        let m₁ : Mm = record m { word = tagged m.word b n size } in
        let (m', f, ring, links) =
          insert_to_list-front head m₁ (b + size) xs tagged-Ring mem.half half-Far in
        (m', rw (tags-run, half_at) f, ring, halves m' links)

  -- `split_block` of a free block puts its second half behind it in the list.
  pub split_block-Halved :
      (m : Mm) (b n size : ℕ) (ys zs : List ℕ)
      → m.word b ≡ n
      → n % 4 ≡ 0
      → size % 4 ≡ 0
      → 16 ≤ size
      → size + 16 < n
      → b + n < 2 ^ 32
      → Holds m.memory b n size
      → Room b n (head ∷ (ys ++ (b ∷ zs)))
      → Ring head m (ys ++ (b ∷ zs))
      → (m' : Mm) × (split_block head b size false m ≡ done tt m')
        × Ring head m' (ys ++ (b ∷ (b + size) ∷ zs))
        × Halved b n size size (ys ++ (b ∷ zs)) m m'
  unfolding split_block
  split_block-Halved m b n size ys zs e n4 s4 big fits top mem room r =
      let xs = ys ++ (b ∷ zs) in
      let whole : block_size (m.word b) ≡ n = rw e (omega arith) in
      let m₁ : Mm = record m { word = tagged m.word b n size } in
      let (m', f, ring, links) =
        insert_to_list-behind head m₁ (b + size) ys b zs
          (tagged-Ring m b n size xs whole n4 s4 big fits top mem room r) mem.half
          (Room-Far b n (head ∷ xs) (b + size) (omega arith) (omega arith) room) in
      let at : add32 b size ≡ b + size = omega arith in
      (
        m',
        rw (tags-run m b n size xs whole n4 s4 big fits top mem room r, at) f,
        ring,
        halves m b n size xs whole n4 s4 big fits top mem room r m' links,
      )
