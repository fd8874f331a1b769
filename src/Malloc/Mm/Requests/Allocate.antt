-- ===== src/Malloc/Mm/Requests/Allocate.antt =====
-- `mm_malloc` of malloclab/mm.c where a free block is large enough.
use csapp.Common.{
  ℕ, ◌+◌, ◌%◌, ◌^◌, ◌≤◌, ◌<◌, ◌≡◌, ◌≢◌, refl, ◌∙◌, inl, true, some, List, ◌∷◌, ◌++◌, length, All,
  All-at, All-without, arith,
}
use csapp.Malloc.Word.{Mm, done, reaches}
use csapp.Malloc.Mm.{block_size, get_block_size}
use csapp.Malloc.Mm.Tags.{with_word, update-same, load-run, set_allocated-run}
use csapp.Malloc.Mm.Ring.{Clear, Spread}
use csapp.Malloc.Mm.Lists.{IsNode, Ring}
use csapp.Malloc.Mm.Fit.{IsFree, first_fit-first, found, find_from-first_fit, get_block_size_lem}
use csapp.Malloc.Mm.Split.{Room, Room-Clear, Ring-with_word, Halved, Holds}
use csapp.Malloc.Mm.Take.{take_fit-whole, take_fit-Halved, Clear-among}
use csapp.Malloc.Mm.Requests.{find_fit, malloc_block, hand_out, mm_malloc}

module _ (head rounds : ℕ) (m : Mm) (size : ℕ) (ys : List ℕ) (b : ℕ) (zs : List ℕ)
    (small_request : size + 19 < 2 ^ 32) (r : Ring head m (ys ++ (b ∷ zs)))
    (free : All (IsFree m.word) (ys ++ (b ∷ zs))) (enough : length (ys ++ (b ∷ zs)) < rounds)
    (too_small : All (λ z. m.word z < get_block_size size) ys)
    (fits : get_block_size size ≤ m.word b) where
  pub find_fit-first :
      find_fit head rounds (get_block_size size) m ≡ found head (get_block_size size) (some b) m
  unfolding find_fit Spread
  find_fit-first =
      let run =
        find_from-first_fit head m (get_block_size size) rounds head (ys ++ (b ∷ zs)) enough r.chain
          r.spread.0 r.nodes.1 free in
      rw
        (
          load-run head m (head + 8) (m.word (head + 8)) r.nodes.0.2 refl,
          run,
          first_fit-first m.word (get_block_size size) ys b zs too_small fits,
        )
        refl

  here : reaches head m.memory b ≡ true
  here = (All-at (IsNode head m.memory) ys b zs r.nodes.1).0

  -- Where the first block that is large enough has at most 16 bytes more, `mm_malloc` returns its
  -- payload, takes the block from the list, and marks it as allocated.
  pub mm_malloc-whole :
      m.word b ≤ get_block_size size + 16
      → get_block_size size + 16 < 2 ^ 32
      → Room head b 16 (head ∷ (ys ++ (b ∷ zs)))
      → (m' : Mm) × (mm_malloc head rounds size m ≡ done (b + 12) m')
        × Ring head m' (ys ++ zs)
        × (m'.word b ≡ m.word b + 1)
        × (m'.memory ≡ m.memory)
        × ((q : ℕ) → q ≢ b → All (Clear q) (head ∷ (ys ++ (b ∷ zs))) → m'.word q ≡ m.word q)
  unfolding mm_malloc malloc_block hand_out
  mm_malloc-whole close top room =
      let (_, _, s4) = get_block_size_lem size small_request in
      let (m₁, f, ring, links) =
        take_fit-whole head m b (m.word b) (get_block_size size) ys zs refl
          (All-at (IsFree m.word) ys b zs free) s4 r here close top in
      let at_b = Room-Clear head b 16 (head ∷ (ys ++ (b ∷ zs))) b (inl refl) (omega arith) room in
      let free_b : m.word b % 4 ≡ 0 = All-at (IsFree m.word) ys b zs free in
      let same : m₁.word b ≡ m.word b = links.same_words b at_b in
      let whole : block_size (m₁.word b) ≡ m.word b = rw same (omega arith) in
      let here₁ : reaches head m₁.memory b ≡ true = rw links.same_memory here in
      (
        with_word m₁ b (m.word b + 1),
        rw (find_fit-first, f, set_allocated-run head m₁ b (m.word b) here₁ whole) refl,
        Ring-with_word head m₁ (ys ++ zs) b (m.word b + 1)
            (at_b.0, All-without (Clear b) ys b zs at_b.1) ring,
        update-same m₁.word b (m.word b + 1),
        links.same_memory,
        λ q ne c. ground arith ∙ links.same_words q c,
      )

  -- Where the block has more, `mm_malloc` cuts the request off its front, and leaves the rest in the
  -- list in its place; both get their header and footer, and all else keeps its words.
  pub mm_malloc-Halved :
      get_block_size size + 16 < m.word b
      → b + m.word b < 2 ^ 32
      → Holds head m.memory b (m.word b) (get_block_size size)
      → Room head b (m.word b) (head ∷ (ys ++ (b ∷ zs)))
      → (m' : Mm) × (mm_malloc head rounds size m ≡ done (b + 12) m')
        × Ring head m' (ys ++ ((b + get_block_size size) ∷ zs))
        × Halved head b
            (m.word b)
            (get_block_size size)
            (get_block_size size + 1)
            (ys ++ (b ∷ (b + get_block_size size) ∷ zs))
            m
            m'
  unfolding mm_malloc malloc_block hand_out
  mm_malloc-Halved more top mem room =
      let n = m.word b in
      let need = get_block_size size in
      let (big, _, s4) = get_block_size_lem size small_request in
      let (m₁, f, ring, h) =
        take_fit-Halved head m b n need ys zs refl (All-at (IsFree m.word) ys b zs free) s4 r here
          (omega arith) more top mem room in
      let at_b = Room-Clear head b n (head ∷ (ys ++ (b ∷ zs))) b (inl refl) (omega arith) room in
      let whole : block_size (m₁.word b) ≡ need = ground (arith, h.first) in
      let here₁ : reaches head m₁.memory b ≡ true = rw h.same_memory here in
      let clear = Clear-among b b (b + need) ys zs at_b.1 (omega arith, omega arith) in
      (
        with_word m₁ b (need + 1),
        rw (find_fit-first, f, set_allocated-run head m₁ b need here₁ whole) refl,
        Ring-with_word head m₁ (ys ++ ((b + need) ∷ zs)) b (need + 1)
            (at_b.0, All-without (Clear b) ys b ((b + need) ∷ zs) clear) ring,
        record {
          first = update-same m₁.word b (need + 1);
          first_footer = ground arith ∙ h.first_footer;
          second = ground arith ∙ h.second;
          second_footer = ground arith ∙ h.second_footer;
          content = λ q l k. ground (arith, l) ∙ h.content q l k;
          same_memory = h.same_memory;
          others = λ q out c. ground (arith, out) ∙ h.others q out c;
        },
      )
