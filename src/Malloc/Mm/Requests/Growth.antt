-- ===== src/Malloc/Mm/Requests/Growth.antt =====
-- The end of `expand_heap` of malloclab/mm.c: a new block at the end of the heap.
use csapp.Common.{
  ℕ, ◌+◌, ◌-◌, ◌%◌, ◌^◌, ◌≤◌, ◌<◌, ◌≡◌, ◌⊎◌, refl, ◌∙◌, inl, inr, true, some, List, ◌∷◌, ltb, leb,
  ◌&&◌, if◌then◌else◌, All, All-map, arith,
}
use csapp.Malloc.Memlib.{mem_sbrk_lem}
use csapp.Malloc.Word.{Mm, done, sbrk, reaches, add32, sub32}
use csapp.Malloc.Mm.{block_size, insert_to_list}
use csapp.Malloc.Mm.Tags.{
  with_word, load-run, store-run, set_allocated-run, write_footer-run, update-same, update-other,
}
use csapp.Malloc.Mm.Ring.{Clear, Far}
use csapp.Malloc.Mm.Lists.{IsNode, Ring, insert_to_list-front}
use csapp.Malloc.Mm.Split.{Ring-with_word}
use csapp.Malloc.Mm.Requests.{new_block}

module _ (head : ℕ) where
  -- No header stands in the `size` bytes from b on.
  abbrev pub Outside : ℕ → ℕ → List ℕ → Type 0
  Outside b size xs = All (λ x. (x + 12 ≤ b) ⊎ (b + size ≤ x)) xs

  Outside-Clear :
      (b size : ℕ) (xs : List ℕ) (q : ℕ)
      → b ≤ q
      → q < b + size
      → Outside b size xs
      → All (Clear q) xs
  Outside-Clear b size xs q h l out =
      All-map (λ x. (x + 12 ≤ b) ⊎ (b + size ≤ x)) (Clear q) xs (λ x o. (omega arith, omega arith))
        out

  -- A new free block at b with n bytes, before the word of the epilogue.
  pub record Fresh (b n : ℕ) (xs : List ℕ) (m m' : Mm) : Type 0 where
    pub size : m'.word b ≡ n
    pub footer : m'.word (b + n - 4) ≡ n
    pub epilogue : m'.word (b + n) ≡ 1
    pub same_memory : m'.memory ≡ m.memory
    pub others :
        (q : ℕ) → (q < b) ⊎ (b + n + 4 ≤ q) → All (Clear q) (head ∷ xs) → m'.word q ≡ m.word q

  module _ (m : Mm) (b n : ℕ) (zs : List ℕ) (n4 : n % 4 ≡ 0) (big : 16 ≤ n)
      (top : b + n + 4 < 2 ^ 32) (node : IsNode head m.memory b)
      (foot : reaches head m.memory (b + n - 4) ≡ true) (end : reaches head m.memory (b + n) ≡ true)
      (out : Outside b (n + 4) (head ∷ zs)) (ring : Ring head m zs) where
    clear : (q : ℕ) → b ≤ q → q < b + n + 4 → All (Clear q) (head ∷ zs)
    clear q h l = Outside-Clear b (n + 4) (head ∷ zs) q h (omega arith) out

    new_block-run :
        (m₃ : Mm)
        → insert_to_list head b head (with_word (with_word m b n) (b + n - 4) n) ≡ done tt m₃
        → m₃.word b ≡ n
        → reaches head m₃.memory b ≡ true
        → reaches head m₃.memory (b + n) ≡ true
        → new_block head b (n + 4) m ≡ done tt (with_word (with_word m₃ (b + n) 0) (b + n) 1)
    unfolding new_block
    new_block-run m₃ f size₃ here₃ end₃ =
        let m₁ = with_word m b n in
        let m₄ = with_word m₃ (b + n) 0 in
        let less : sub32 (n + 4) 4 ≡ n = omega arith in
        let whole : block_size n ≡ n = omega arith in
        let at : add32 b n ≡ b + n = omega arith in
        let written : block_size (m₁.word b) ≡ n = rw (update-same m.word b n) whole in
        let zeroed : block_size (m₄.word (b + n)) ≡ 0 = rw (update-same m₃.word (b + n) 0) refl in
        rw
          (
            less,
            store-run head m b n node.0,
            write_footer-run head m₁ b n node.0 written (omega arith) (omega arith) foot,
            f,
            load-run head m₃ b n here₃ size₃,
            whole,
            at,
            store-run head m₃ (b + n) 0 end₃,
            set_allocated-run head m₄ (b + n) 0 end₃ zeroed,
          )
          refl

    pub new_block-Fresh :
        (m' : Mm) × (new_block head b (n + 4) m ≡ done tt m')
        × Ring head m' (b ∷ zs)
        × Fresh b n zs m m'
    new_block-Fresh =
        let m₁ = with_word m b n in
        let m₂ = with_word m₁ (b + n - 4) n in
        let ring₂ =
          Ring-with_word head m₁ zs (b + n - 4) n (clear (b + n - 4) (omega arith) (omega arith))
            (Ring-with_word head m zs b n (clear b (omega arith) (omega arith)) ring) in
        let far =
          All-map (λ x. (x + 12 ≤ b) ⊎ (b + (n + 4) ≤ x)) (Far b) (head ∷ zs) (λ x o. omega arith)
            out in
        let (m₃, f, ring₃, links) = insert_to_list-front head m₂ b zs ring₂ node far in
        let kept : (q : ℕ) → (q ≡ b) ⊎ ((b + 12 ≤ q) × (q < b + n + 4)) → m₃.word q ≡ m₂.word q =
          λ q h.
            links.same_words q (
              (omega (arith, h), omega (arith, h)),
              clear q (omega (arith, h)) (omega (arith, h)),
            ) in
        let size₃ : m₃.word b ≡ n =
          kept b (inl refl)
          ∙ update-other m₁.word (b + n - 4) n b (omega arith)
          ∙ update-same m.word b n in
        let foot₃ : m₃.word (b + n - 4) ≡ n =
          kept (b + n - 4) (inr (omega arith, omega arith)) ∙ update-same m₁.word (b + n - 4) n in
        let m₄ = with_word m₃ (b + n) 0 in
        let clear_end = clear (b + n) (omega arith) (omega arith) in
        let clear_all : All (Clear (b + n)) (head ∷ b ∷ zs) =
          (clear_end.0, ((omega arith, omega arith), clear_end.1)) in
        (
          with_word m₄ (b + n) 1,
          new_block-run m₃ f size₃ (rw links.same_memory node.0) (rw links.same_memory end),
          Ring-with_word head m₄ (b ∷ zs) (b + n) 1 clear_all
              (Ring-with_word head m₃ (b ∷ zs) (b + n) 0 clear_all ring₃),
          record {
            size =
                update-other m₄.word (b + n) 1 b (omega arith)
                ∙ update-other m₃.word (b + n) 0 b (omega arith)
                ∙ size₃;
            footer =
                update-other m₄.word (b + n) 1 (b + n - 4) (omega arith)
                ∙ update-other m₃.word (b + n) 0 (b + n - 4) (omega arith)
                ∙ foot₃;
            epilogue = update-same m₄.word (b + n) 1;
            same_memory = links.same_memory;
            others = λ q o c.
                update-other m₄.word (b + n) 1 q (omega (arith, o))
                ∙ update-other m₃.word (b + n) 0 q (omega (arith, o))
                ∙ links.same_words q ((omega (arith, o), omega (arith, o)), c)
                ∙ update-other m₁.word (b + n - 4) n q (omega (arith, o))
                ∙ update-other m.word b n q (omega (arith, o));
          },
        )

  -- The heap has n more bytes, and n bytes from p on are 0.
  abbrev pub extended : Mm → ℕ → Mm
  extended m n = record m { memory = record m.memory { brk = m.memory.brk + n } }

  abbrev pub emptied : Mm → ℕ → ℕ → Mm
  emptied m p n = record m { word = λ q. if leb p q && ltb q (p + n) then 0 else m.word q }

  pub sbrk-run :
      (m : Mm) (incr : ℕ)
      → incr < 2 ^ 31
      → m.memory.brk + incr ≤ m.memory.max_addr
      → sbrk incr m ≡ done (some m.memory.brk) (extended m incr)
  unfolding sbrk
  sbrk-run m incr h l = rw (mem_sbrk_lem m.memory incr h l) refl
