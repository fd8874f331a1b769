-- ===== src/Malloc/Mm/Requests/Renewal.antt =====
-- `mm_malloc` of malloclab/mm.c where there is no free block, and the heap has room to grow.
use csapp.Common.{
  ℕ, zero, suc, ◌+◌, ◌-◌, ◌%◌, ◌^◌, ◌≤◌, ◌<◌, ◌≡◌, ◌⊎◌, refl, ◌∙◌, inl, inr, true, Bool-cases, none,
  some, [], ◌∷◌, ◌==◌, ltb, if◌then◌else◌, arith,
}
use csapp.Malloc.Word.{Mm, done, clear_words, reaches, add32, sub32}
use csapp.Malloc.Mm.{block_size, get_block_size}
use csapp.Malloc.Mm.Tags.{with_word, load-run, set_allocated-run, update-same}
use csapp.Malloc.Mm.Ring.{Chain, Spread}
use csapp.Malloc.Mm.Lists.{IsNode, Ring}
use csapp.Malloc.Mm.Fit.{first_fit, get_block_size_lem, find_from-first_fit}
use csapp.Malloc.Mm.Split.{Room, Room-Clear, Holds}
use csapp.Malloc.Mm.Take.{take_fit-whole, take_fit-Halved}
use csapp.Malloc.Mm.Requests.{new_block, hand_out, malloc_block, expand_heap, find_fit, mm_malloc}
use csapp.Malloc.Mm.Requests.Growth.{extended, emptied, sbrk-run, Fresh, new_block-Fresh}
use csapp.Malloc.Mm.Requests.Resize.{sbrk-zero}
use csapp.Malloc.Mm.Requests.Allocate.{find_fit-first}

-- By how much `mm_malloc` extends the heap.
abbrev pub amount : ℕ → ℕ
amount need = if ltb 4096 need then need else 4096

pub amount_lem :
    (need : ℕ) → need % 4 ≡ 0 → (need ≤ amount need) × (4096 ≤ amount need) × (amount need % 4 ≡ 0)
amount_lem need h = elim (Bool-cases (ltb 4096 need)) [
  | inl e ↦ rw e (omega arith, ground arith, h)
  | inr e ↦ rw e (ground arith, omega arith, refl)
]

module _ (head : ℕ) where
  -- The heap ends with the epilogue, has room for `more` bytes, and is away from `head`; there is no
  -- free block.
  pub record Full (m : Mm) (more : ℕ) : Type 0 where
    pub ring : Ring head m []
    pub epilogue : m.word (m.memory.brk - 4) ≡ 1
    pub start : m.memory.start_brk + 4 ≤ m.memory.brk
    pub low : 20 ≤ m.memory.brk
    pub room : m.memory.brk + more ≤ m.memory.max_addr
    pub top : m.memory.brk + more < 2 ^ 32
    pub away : (head + 12 ≤ m.memory.brk - 4) ⊎ (m.memory.brk + more ≤ head)

  module _ (m : Mm) (more : ℕ) (u : Full m more) (m4 : more % 4 ≡ 0) (big : 4096 ≤ more)
      (small : more < 2 ^ 31) where
    abbrev pub grown : Mm
    grown = emptied head (extended head m more) m.memory.brk more

    pub reaches-heap :
        (q : ℕ)
        → m.memory.brk ≤ q + 4
        → q + 4 ≤ m.memory.brk + more
        → reaches head m.memory q ≡ true
    reaches-heap q h l = let start = u.start in let room = u.room in ground arith

    pub grown-elsewhere :
        (q : ℕ) → (q < m.memory.brk) ⊎ (m.memory.brk + more ≤ q) → grown.word q ≡ m.word q
    grown-elsewhere q h = ground (arith, h)

    links : (m.word (head + 8) ≡ head) × (m.word (head + 4) ≡ head)
    unfolding Chain
    links = u.ring.chain

    expand_heap-run :
        (k : ℕ) (m' : Mm)
        → new_block head (m.memory.brk - 4) (more + 4) grown ≡ done tt m'
        → expand_heap head (suc k) more m ≡ done tt m'
    unfolding expand_heap clear_words
    expand_heap-run k m' f =
        let top = u.top in
        let room = u.room in
        let low = u.low in
        let b = m.memory.brk - 4 in
        let large : ltb 16 more ≡ true = ground arith in
        let itself : (head == head) ≡ true = ground arith in
        let chain = links in
        let last : sub32 m.memory.brk 4 ≡ b = omega arith in
        let sum : add32 more 4 ≡ more + 4 = omega arith in
        let end : grown.word b ≡ 1 = grown-elsewhere b (inl (omega arith)) ∙ u.epilogue in
        rw
          (
            large,
            load-run head m (head + 8) head u.ring.nodes.0.2 chain.0,
            itself,
            sbrk-zero m (omega arith),
            sbrk-run head m more small room,
            last,
            load-run head grown b 1 (reaches-heap b (omega arith) (omega arith)) end,
            sum,
            f,
          )
          refl

    pub expand_heap-Fresh :
        (k : ℕ)
        → (m' : Mm) × (expand_heap head (suc k) more m ≡ done tt m')
          × Ring head m' ((m.memory.brk - 4) ∷ [])
          × Fresh head (m.memory.brk - 4) more [] grown m'
    expand_heap-Fresh k =
        let top = u.top in
        let low = u.low in
        let away = u.away in
        let b = m.memory.brk - 4 in
        let chain = links in
        let node : IsNode head m.memory b = (
          reaches-heap b (omega arith) (omega arith),
          reaches-heap (b + 4) (omega arith) (omega arith),
          reaches-heap (b + 8) (omega arith) (omega arith),
        ) in
        let ring : Ring head grown [] = record {
          chain =
              unfold Chain in
              (
                grown-elsewhere (head + 8) (omega arith) ∙ chain.0,
                grown-elsewhere (head + 4) (omega arith) ∙ chain.1,
              );
          spread = unfold Spread in (tt, tt);
          nodes = u.ring.nodes;
        } in
        let (m', f, ring', fresh) =
          new_block-Fresh head grown b more [] m4 (omega arith) (omega arith) node
            (reaches-heap (b + more - 4) (omega arith) (omega arith))
            (reaches-heap (b + more) (omega arith) (omega arith)) (omega arith, tt) ring in
        (m', expand_heap-run k m' f, ring', fresh)

  -- The search on a list of one block that is large enough.
  pub served :
      (rounds : ℕ) (m : Mm) (size b n : ℕ)
      → 1 < rounds
      → size + 19 < 2 ^ 32
      → Ring head m (b ∷ [])
      → m.word b ≡ n
      → n % 4 ≡ 0
      → get_block_size size ≤ n
      → 16 ≤ b
      → b + n < 2 ^ 32
      → (get_block_size size + 16 < n → Holds head m.memory b n (get_block_size size))
      → Room head b n (head ∷ b ∷ [])
      → (m₂ : Mm) × (t : ℕ) × (find_fit head rounds (get_block_size size) m ≡ done (some b) m₂)
        × (reaches head m₂.memory b ≡ true)
        × (block_size (m₂.word b) ≡ t)
        × (get_block_size size ≤ t)
  served rounds m size b n k q ring e n4 fits low top holds room =
      let need = get_block_size size in
      let (big, _, s4) = get_block_size_lem size q in
      let free : m.word b % 4 ≡ 0 = rw e n4 in
      let here = ring.nodes.1.0.0 in
      let run =
        find_fit-first head rounds m size [] b [] q ring (free, tt) (omega arith) tt (rw e fits) in
      elim (Bool-cases (ltb (need + 16) n)) [
        | inl more ↦
            let (m₂, f, _, h) =
              take_fit-Halved head m b n need [] [] e n4 s4 ring here (omega arith) (ground arith)
                top (holds (ground arith)) room in
            (
              m₂,
              need,
              rw (run, f) refl,
              rw h.same_memory here,
              rw h.first (omega arith),
              omega arith,
            )
        | inr less ↦
            let (m₂, f, _, links) =
              take_fit-whole head m b n need [] [] e n4 s4 ring here (ground arith) (omega arith) in
            let same : m₂.word b ≡ n =
              links.same_words b
                (Room-Clear head b n (head ∷ b ∷ []) b (inl refl) (omega arith) room)
              ∙ e in
            (m₂, n, rw (run, f) refl, rw links.same_memory here, rw same (omega arith), fits)
      ]

  -- The branch of `mm_malloc` that extends the heap.
  extends-run :
      (rounds : ℕ) (m m₁ m₂ : Mm) (size b t : ℕ)
      → find_fit head rounds (get_block_size size) m ≡ done none m
      → expand_heap head rounds (amount (get_block_size size)) m ≡ done tt m₁
      → find_fit head rounds (get_block_size size) m₁ ≡ done (some b) m₂
      → reaches head m₂.memory b ≡ true
      → block_size (m₂.word b) ≡ t
      → mm_malloc head rounds size m ≡ done (b + 12) (with_word m₂ b (t + 1))
  unfolding mm_malloc malloc_block hand_out
  extends-run rounds m m₁ m₂ size b t none_fits extended found here e =
      rw (none_fits, extended, found, set_allocated-run head m₂ b t here e) refl

  -- Where the search finds a block only after the extension, `mm_malloc` does what it does on the
  -- extended heap.
  pub mm_malloc-expand_heap :
      (rounds : ℕ) (m m₁ m₂ : Mm) (size b : ℕ)
      → find_fit head rounds (get_block_size size) m ≡ done none m
      → expand_heap head rounds (amount (get_block_size size)) m ≡ done tt m₁
      → find_fit head rounds (get_block_size size) m₁ ≡ done (some b) m₂
      → mm_malloc head rounds size m ≡ mm_malloc head rounds size m₁
  unfolding mm_malloc malloc_block
  mm_malloc-expand_heap rounds m m₁ m₂ size b none_fits extended found =
      rw (none_fits, extended, found) refl

  pub find_fit-empty :
      (rounds : ℕ) (m : Mm) (size : ℕ)
      → 0 < rounds
      → Ring head m []
      → find_fit head rounds size m ≡ done none m
  unfolding find_fit first_fit
  find_fit-empty rounds m size h r =
      let run = find_from-first_fit head m size rounds head [] h r.chain tt tt tt in
      rw (load-run head m (head + 8) (m.word (head + 8)) r.nodes.0.2 refl, run) refl

  -- With no free block and room in the heap, `mm_malloc` extends the heap and returns the payload of a
  -- block in use, at the end of the old heap, that is large enough.
  pub mm_malloc-extends :
      (rounds : ℕ) (m : Mm) (size : ℕ)
      → 1 < rounds
      → size + 19 < 2 ^ 31
      → Full m (amount (get_block_size size))
      → (m' : Mm) × (mm_malloc head rounds size m ≡ done (m.memory.brk + 8) m')
        × (m'.word (m.memory.brk - 4) % 2 ≡ 1)
        × (get_block_size size < m'.word (m.memory.brk - 4))
  mm_malloc-extends zero m size k q u = absurd (omega arith)
  mm_malloc-extends (suc rounds) m size k q u =
      let need = get_block_size size in
      let more = amount need in
      let (big, close, s4) = get_block_size_lem size (omega arith) in
      let (enough, large, m4) = amount_lem need s4 in
      let top = u.top in
      let low = u.low in
      let away = u.away in
      let small : more < 2 ^ 31 = ground arith in
      let b = m.memory.brk - 4 in
      let (m₁, f, ring, fresh) = expand_heap-Fresh m more u m4 large small rounds in
      let inside : (p : ℕ)
          → m.memory.brk ≤ p + 4
          → p + 4 ≤ m.memory.brk + more
          → reaches head m₁.memory p ≡ true =
        λ p h l. rw fresh.same_memory (reaches-heap m more u m4 large small p h l) in
      let holds : need + 16 < more → Holds head m₁.memory b more need = λ wide. record {
        header = inside b (omega arith) (omega arith);
        half = (
          inside (b + need) (omega arith) (omega (arith, wide)),
          inside (b + need + 4) (omega arith) (omega (arith, wide)),
          inside (b + need + 8) (omega arith) (omega (arith, wide)),
        );
        half_footer = inside (b + need - 4) (omega arith) (omega (arith, wide));
        footer = inside (b + more - 4) (omega arith) (omega arith);
      } in
      let (m₂, t, g, here, e, fits) =
        served (suc rounds) m₁ size b more k (omega arith) ring fresh.size m4 enough (omega arith)
          (omega arith) holds (omega arith, (inl refl, tt)) in
      let run =
        extends-run (suc rounds) m m₁ m₂ size b t
          (find_fit-empty (suc rounds) m need (omega arith) u.ring) f g here e in
      let at : b + 12 ≡ m.memory.brk + 8 = omega arith in
      let even : t % 2 ≡ 0 = omega (arith, e) in
      let tag : (with_word m₂ b (t + 1)).word b ≡ t + 1 = update-same m₂.word b (t + 1) in
      (
        with_word m₂ b (t + 1),
        rw (← at) run,
        rw tag (omega (arith, even)),
        rw tag (omega (arith, fits)),
      )
