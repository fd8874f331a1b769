-- ===== src/Malloc/Mm/Requests/Resize.antt =====
-- `mm_realloc` of malloclab/mm.c on a block that is made smaller.
use csapp.Common.{
  ℕ, zero, suc, ◌+◌, ◌-◌, ◌%◌, ◌^◌, ◌≤◌, ◌<◌, ◌≡◌, ◌⊎◌, refl, ◌∙◌, true, false, none, some, List,
  ◌∷◌, ◌==◌, ltb, leb, All, All-map, arith,
}
use csapp.Malloc.Memlib.{mem_sbrk, mem_sbrk_lem}
use csapp.Malloc.Word.{Mm, done, exits, sbrk, reaches, add32, sub32}
use csapp.Malloc.Mm.{block_size, is_allocated, get_block_size, split_block}
use csapp.Malloc.Mm.Tags.{
  with_word, load-run, store-run, set_allocated-run, update-same, update-other,
}
use csapp.Malloc.Mm.Fit.{get_block_size_lem}
use csapp.Malloc.Mm.Ring.{Clear, Far}
use csapp.Malloc.Mm.Lists.{IsNode, Ring}
use csapp.Malloc.Mm.Split.{Room, Ring-with_word, Halved, Holds, split_block-front}
use csapp.Malloc.Mm.Requests.Release.{Far-Clear}
use csapp.Malloc.Mm.Requests.{realloc_split, mm_realloc}

pub sbrk-zero : (m : Mm) → m.memory.brk ≤ m.memory.max_addr → sbrk 0 m ≡ done (some m.memory.brk) m
unfolding sbrk
sbrk-zero m h =
    let e : m.memory.brk + 0 ≡ m.memory.brk = omega arith in
    rw (mem_sbrk_lem m.memory 0 (omega arith) (omega arith), e) refl

sbrk-negative : (m : Mm) (incr : ℕ) → 2 ^ 31 ≤ incr → sbrk incr m ≡ done none m
unfolding sbrk mem_sbrk
sbrk-negative m incr h = let e : leb (2 ^ 31) incr ≡ true = ground arith in rw e refl

module _ (head : ℕ) where
  -- The state in which `mm_realloc` has cleared the links of the block.
  abbrev unlinked : Mm → ℕ → Mm
  unlinked m b = with_word (with_word m (b + 8) 0) (b + 4) 0

  unlinked-elsewhere :
      (m : Mm) (b q : ℕ) → (q < b) ⊎ (b + 12 ≤ q) → (unlinked m b).word q ≡ m.word q
  unlinked-elsewhere m b q h = ground arith

  Far-links :
      (b : ℕ) (xs : List ℕ) → All (Far b) xs → All (Clear (b + 4)) xs × All (Clear (b + 8)) xs
  Far-links b xs far = (
    All-map (Far b) (Clear (b + 4)) xs (λ x f. (omega arith, omega arith)) far,
    All-map (Far b) (Clear (b + 8)) xs (λ x f. (omega arith, omega arith)) far,
  )

  -- Where the list is empty, the last block of the heap cannot be made smaller by up to 16 bytes: the
  -- size to add wraps, the heap does not grow by it, and the program exits.
  pub mm_realloc-exits :
      (rounds : ℕ) (m : Mm) (b n size : ℕ)
      → 0 < rounds
      → 0 < size
      → size + 19 < 2 ^ 32
      → m.word b ≡ n + 1
      → n % 4 ≡ 0
      → get_block_size size < n
      → n ≤ get_block_size size + 16
      → n < 2 ^ 31
      → b + n + 4 ≡ m.memory.brk
      → m.memory.brk ≤ m.memory.max_addr
      → m.memory.brk < 2 ^ 32
      → IsNode head m.memory b
      → reaches head m.memory (head + 8) ≡ true
      → m.word (head + 8) ≡ head
      → (head + 12 ≤ b) ⊎ (b + 12 ≤ head)
      → mm_realloc head rounds (b + 12) size m ≡ exits
  unfolding mm_realloc
  mm_realloc-exits zero m b n size k p q e n4 less close small end limit top node hr he far =
      absurd (omega arith)
  mm_realloc-exits (suc rounds) m b n size k p q e n4 less close small end limit top node hr he
        far =
      let need = get_block_size size in
      let (big, _, s4) = get_block_size_lem size q in
      let m₁ = with_word m (b + 8) 0 in
      let m₂ = unlinked m b in
      let some_ptr : (b + 12 == 0) ≡ false = ground arith in
      let some_size : (size == 0) ≡ false = ground arith in
      let at : sub32 (b + 12) 12 ≡ b = omega arith in
      let used : is_allocated (n + 1) ≡ true = ground arith in
      let whole : block_size (n + 1) ≡ n = omega arith in
      let narrow : ltb (add32 need 16) n ≡ false = ground arith in
      let same : m₂.word b ≡ n + 1 = ground arith in
      let next : add32 b n ≡ b + n = omega arith in
      let last : sub32 m.memory.brk 4 ≡ b + n = omega arith in
      let itself : (b + n == b + n) ≡ true = ground arith in
      let head_itself : (head == head) ≡ true = ground arith in
      let extra : 2 ^ 31 ≤ sub32 need n = omega arith in
      let wide : ltb 16 (sub32 need n) ≡ true = ground arith in
      let empty : m₂.word (head + 8) ≡ head = ground arith in
      rw
        (
          some_ptr,
          some_size,
          at,
          load-run head m b (n + 1) node.0 e,
          used,
          store-run head m (b + 8) 0 node.2,
          store-run head m₁ (b + 4) 0 node.1,
          whole,
          narrow,
          load-run head m₂ b (n + 1) node.0 same,
          sbrk-zero m₂ limit,
          whole,
          next,
          last,
          itself,
          wide,
          load-run head m₂ (head + 8) head hr empty,
          head_itself,
          sbrk-zero m₂ limit,
          sbrk-negative m₂ (sub32 need n) extra,
        )
        refl

  -- The branch of `mm_realloc` that splits, with what `split_block` leaves.
  realloc_split-run :
      (rounds : ℕ) (m m₃ : Mm) (b n size : ℕ)
      → 0 < size
      → m.word b ≡ n + 1
      → n % 4 ≡ 0
      → 16 ≤ get_block_size size
      → get_block_size size + 16 < n
      → b + n < 2 ^ 32
      → IsNode head m.memory b
      → split_block head b (get_block_size size) true (unlinked m b) ≡ done tt m₃
      → reaches head m₃.memory b ≡ true
      → block_size (m₃.word b) ≡ get_block_size size
      → mm_realloc head rounds (b + 12) size m
        ≡ done (b + 12) (with_word m₃ b (get_block_size size + 1))
  unfolding mm_realloc realloc_split
  realloc_split-run rounds m m₃ b n size p e n4 big fits top node f here first =
      let need = get_block_size size in
      let m₁ = with_word m (b + 8) 0 in
      let some_ptr : (b + 12 == 0) ≡ false = ground arith in
      let some_size : (size == 0) ≡ false = ground arith in
      let at : sub32 (b + 12) 12 ≡ b = omega arith in
      let used : is_allocated (n + 1) ≡ true = ground arith in
      let whole : block_size (n + 1) ≡ n = omega arith in
      let much : ltb (add32 need 16) n ≡ true = ground arith in
      rw
        (
          some_ptr,
          some_size,
          at,
          load-run head m b (n + 1) node.0 e,
          used,
          store-run head m (b + 8) 0 node.2,
          store-run head m₁ (b + 4) 0 node.1,
          whole,
          much,
          f,
          set_allocated-run head m₃ b need here first,
        )
        refl

  -- A block that is made smaller by more than 16 bytes stays where it is and keeps its content; the
  -- rest becomes a free block in front of the list.
  pub mm_realloc-Halved :
      (rounds : ℕ) (m : Mm) (b n size : ℕ) (zs : List ℕ)
      → 0 < size
      → size + 19 < 2 ^ 32
      → m.word b ≡ n + 1
      → n % 4 ≡ 0
      → get_block_size size + 16 < n
      → b + n < 2 ^ 32
      → IsNode head m.memory b
      → Holds head m.memory b n (get_block_size size)
      → Room head b n (head ∷ zs)
      → All (Far b) (head ∷ zs)
      → Ring head m zs
      → (m' : Mm) × (mm_realloc head rounds (b + 12) size m ≡ done (b + 12) m')
        × Ring head m' ((b + get_block_size size) ∷ zs)
        × Halved head b n (get_block_size size) (get_block_size size + 1) zs m m'
  mm_realloc-Halved rounds m b n size zs p q e n4 fits top node mem room far ring =
      let need = get_block_size size in
      let (big, _, s4) = get_block_size_lem size q in
      let m₁ = with_word m (b + 8) 0 in
      let m₂ = unlinked m b in
      let whole : block_size (n + 1) ≡ n = omega arith in
      let same : m₂.word b ≡ n + 1 =
        update-other m₁.word (b + 4) 0 b (omega arith)
        ∙ update-other m.word (b + 8) 0 b (omega arith)
        ∙ e in
      let size₂ : block_size (m₂.word b) ≡ n = rw same whole in
      let ring₂ =
        Ring-with_word head m₁ zs (b + 4) 0 (Far-links b (head ∷ zs) far).0
          (Ring-with_word head m zs (b + 8) 0 (Far-links b (head ∷ zs) far).1 ring) in
      let (m₃, f, ring₃, h) =
        split_block-front head m₂ b n need zs size₂ n4 s4 (omega arith) fits top mem room ring₂ in
      let first : block_size (m₃.word b) ≡ need = rw h.first (omega arith) in
      let here : reaches head m₃.memory b ≡ true = rw h.same_memory node.0 in
      let clear_b = Far-Clear b (head ∷ zs) far in
      (
        with_word m₃ b (need + 1),
        realloc_split-run rounds m m₃ b n size p e n4 (omega arith) fits top node f here first,
        Ring-with_word head m₃ ((b + need) ∷ zs) b (need + 1)
            (clear_b.0, ((omega arith, omega arith), clear_b.1)) ring₃,
        record {
          first = update-same m₃.word b (need + 1);
          first_footer =
              update-other m₃.word b (need + 1) (b + need - 4) (omega arith) ∙ h.first_footer;
          second = update-other m₃.word b (need + 1) (b + need) (omega arith) ∙ h.second;
          second_footer =
              update-other m₃.word b (need + 1) (b + n - 4) (omega arith) ∙ h.second_footer;
          content = λ c l k.
              update-other m₃.word b (need + 1) c (omega arith)
              ∙ h.content c l k
              ∙ unlinked-elsewhere m b c (omega arith);
          same_memory = h.same_memory;
          others = λ c out clear.
              update-other m₃.word b (need + 1) c (omega (arith, out))
              ∙ h.others c out clear
              ∙ unlinked-elsewhere m b c (omega (arith, out));
        },
      )
