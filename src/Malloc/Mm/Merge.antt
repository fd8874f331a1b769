-- ===== src/Malloc/Mm/Merge.antt =====
-- `coalesce` of malloclab/mm.c, where no block in front can be merged.
use csapp.Common.{
  ℕ, ◌+◌, ◌-◌, ◌%◌, ◌^◌, ◌≤◌, ◌<◌, ◌≡◌, ◌≢◌, ◌⊎◌, refl, ◌∙◌, inl, inr, Bool, true, false, not, ◌&&◌,
  List, ◌∷◌, ◌++◌, ◌==◌, All, All-append, All-map, All-at, All-without, Bool-cases, arith,
}
use csapp.Malloc.Word.{Mm, done, reaches, add32, sub32}
use csapp.Malloc.Mm.{block_size, is_allocated, clear_block, is_free, size_at, grow, merge}
use csapp.Malloc.Mm.Tags.{with_word, load-run, store-run, size_at-run, footer-run, write_footer-run}
use csapp.Malloc.Mm.Ring.{Clear, Far, Spread, Spread-split, Apart-cons}
use csapp.Malloc.Mm.Lists.{IsNode, Ring}
use csapp.Malloc.Mm.Lists.Removal.{remove_from_list-Ring}
use csapp.Malloc.Mm.Split.{Ring-with_word}

-- A block of n bytes in front of one of n' bytes has taken its size.
abbrev pub widened : Mm → ℕ → ℕ → ℕ → Mm
widened m b n n' =
    with_word (with_word (with_word m (b + n - 4) 0) b (n + n')) (b + (n + n') - 4) (n + n')

-- The block behind has been cleared.
abbrev pub cleared : Mm → ℕ → ℕ → ℕ → Mm
cleared m b n n' =
    with_word (with_word (with_word (with_word m (b + (n + n') - 4) 0) (b + n) 0) (b + n + 4) 0)
      (b + n + 8) 0

module _ (m : Mm) (b n n' : ℕ) (large : (16 ≤ n) × (16 ≤ n')) where
  pub widened-next : (widened m b n n').word (b + n) ≡ m.word (b + n)
  widened-next = ground arith

  pub widened-block : (widened m b n n').word b ≡ n + n'
  widened-block = ground arith

  pub widened-outside :
      (q : ℕ) → (q < b) ⊎ (b + (n + n') ≤ q) → (widened m b n n').word q ≡ m.word q
  widened-outside q out = ground arith

  pub cleared-block : (cleared m b n n').word b ≡ m.word b
  cleared-block = ground arith

  pub cleared-footer : (cleared m b n n').word (b + (n + n') - 4) ≡ 0
  cleared-footer = ground arith

  pub cleared-outside :
      (q : ℕ) → (q < b) ⊎ (b + (n + n') ≤ q) → (cleared m b n n').word q ≡ m.word q
  cleared-outside q out = ground arith

module _ (head : ℕ) where
  -- The block q is not one to merge with, whatever is written to the header of b.
  abbrev pub Taken : Mm → ℕ → ℕ → Type 0
  Taken m b q =
      (reaches head m.memory q ≡ true)
      × (q ≢ b)
      × ((q ≡ head) ⊎ (m.word q % 2 ≡ 1) ⊎ (m.word q ≡ 0))

  pub is_free-Taken : (m : Mm) (b q : ℕ) → Taken m b q → is_free head q m ≡ done false m
  unfolding is_free
  is_free-Taken m b q (r, ne, t) = elim t [
    | inl e ↦ let h : (q == head) ≡ true = ground arith in rw h refl
    | inr k ↦
        let f : (not (is_allocated (m.word q)) && not (m.word q == 0)) ≡ false = ground arith in
        elim (Bool-cases (q == head)) [
          | inl h ↦ rw h refl
          | inr h ↦ rw (h, load-run head m q (m.word q) r refl, f) refl
        ]
  ]

  -- The footer in front of b leads to no block to merge with.
  abbrev pub TakenBefore : Mm → ℕ → Type 0
  TakenBefore m b = (m.word (b - 4) ≡ 0) ⊎ Taken m b (sub32 b (m.word (b - 4)))

  pub clear_block-run :
      (m : Mm) (b n : ℕ)
      → IsNode head m.memory b
      → block_size (m.word b) ≡ n
      → 4 ≤ n
      → b + n < 2 ^ 32
      → reaches head m.memory (b + n - 4) ≡ true
      → clear_block head b m
        ≡ done tt
            (with_word (with_word (with_word (with_word m (b + n - 4) 0) b 0) (b + 4) 0) (b + 8) 0)
  unfolding clear_block
  clear_block-run m b n (r0, r4, r8) e h l f =
      rw
        (
          footer-run head m b n r0 e h l,
          store-run head m (b + n - 4) 0 f,
          store-run head (with_word m (b + n - 4) 0) b 0 r0,
          store-run head (with_word (with_word m (b + n - 4) 0) b 0) (b + 4) 0 r4,
          store-run head (with_word (with_word (with_word m (b + n - 4) 0) b 0) (b + 4) 0) (b + 8) 0
              r8,
        )
        refl

  pub grow-run :
      (m : Mm) (b n n' : ℕ)
      → m.word b ≡ n
      → m.word (b + n) ≡ n'
      → n % 4 ≡ 0
      → n' % 4 ≡ 0
      → 16 ≤ n
      → b + (n + n') < 2 ^ 32
      → reaches head m.memory b ≡ true
      → reaches head m.memory (b + n) ≡ true
      → reaches head m.memory (b + n - 4) ≡ true
      → reaches head m.memory (b + (n + n') - 4) ≡ true
      → grow head b (size_at head (b + n)) m ≡ done tt (widened m b n n')
  unfolding grow
  grow-run m b n n' e e' n4 n4' big top r rn rf re =
      let m₁ = with_word m (b + n - 4) 0 in
      let m₂ = with_word m₁ b (n + n') in
      let w₁ : block_size (m.word b) ≡ n = rw e (omega arith) in
      let w₂ : block_size (m₁.word (b + n)) ≡ n' = ground arith in
      let w₃ : m₁.word b ≡ n = ground arith in
      let w₄ : block_size (m₂.word b) ≡ n + n' = ground arith in
      let sum : add32 n n' ≡ n + n' = omega arith in
      rw
        (
          footer-run head m b n r w₁ (omega arith) (omega arith),
          store-run head m (b + n - 4) 0 rf,
          size_at-run head m₁ (b + n) n' rn w₂,
          load-run head m₁ b n r w₃,
          sum,
          store-run head m₁ b (n + n') r,
          write_footer-run head m₂ b (n + n') r w₄ (omega arith) top re,
        )
        refl

  Spread-without :
      (ys : List ℕ) (b : ℕ) (zs : List ℕ) → Spread (ys ++ (b ∷ zs)) → All (Far b) (ys ++ zs)
  unfolding Spread
  Spread-without ys b zs s =
      let (_, sz, a) = Spread-split ys (b ∷ zs) s in
      All-append (Far b) ys zs (Apart-cons ys b zs a).0 sz.0

  -- A free block with its header at b, of n bytes, in front of a free block of the list with n'
  -- bytes; no other header of the list stands in them.
  pub record BeforeFree (m : Mm) (b n n' : ℕ) (ys zs : List ℕ) : Type 0 where
    pub ring : Ring head m (ys ++ ((b + n) ∷ zs))
    pub size : m.word b ≡ n
    pub next_size : m.word (b + n) ≡ n'
    pub aligned : (n % 4 ≡ 0) × (n' % 4 ≡ 0)
    pub large : (16 ≤ n) × (16 ≤ n') × (b + (n + n') < 2 ^ 32)
    pub node : IsNode head m.memory b
    pub footers :
        (reaches head m.memory (b + n - 4) ≡ true)
        × (reaches head m.memory (b + (n + n') - 4) ≡ true)
    pub apart :
        All (λ x. (x ≡ b + n) ⊎ (x + 12 ≤ b) ⊎ (b + (n + n') ≤ x)) (head ∷ (ys ++ ((b + n) ∷ zs)))
    pub not_head : b + n ≢ head

  module _ (m : Mm) (b n n' : ℕ) (ys zs : List ℕ) (h : BeforeFree m b n n' ys zs) where
    abbrev xs : List ℕ
    xs = ys ++ ((b + n) ∷ zs)

    clear :
        (q : ℕ)
        → (b ≤ q)
        → (q < b + (n + n'))
        → (q < b + n + 4) ⊎ (b + n + 12 ≤ q)
        → All (Clear q) (head ∷ xs)
    clear q l r o =
        let large = h.large in
        All-map (λ x. (x ≡ b + n) ⊎ (x + 12 ≤ b) ⊎ (b + (n + n') ≤ x)) (Clear q) (head ∷ xs)
          (λ x c. (omega arith, omega arith)) h.apart

    widened-Ring : Ring head (widened m b n n') xs
    widened-Ring =
        let large = h.large in
        let m₁ = with_word m (b + n - 4) 0 in
        let m₂ = with_word m₁ b (n + n') in
        Ring-with_word head m₂ xs (b + (n + n') - 4) (n + n')
          (clear (b + (n + n') - 4) (omega arith) (omega arith) (inr (omega arith)))
          (Ring-with_word head m₁ xs b (n + n')
            (clear b (omega arith) (omega arith) (inl (omega arith)))
            (Ring-with_word head m xs (b + n - 4) 0
              (clear (b + n - 4) (omega arith) (omega arith) (inl (omega arith))) h.ring))

    cleared-Ring : (m₂ : Mm) → Ring head m₂ (ys ++ zs) → Ring head (cleared m₂ b n n') (ys ++ zs)
    cleared-Ring m₂ r =
        let large = h.large in
        let not_head = h.not_head in
        let next = b + n in
        let at_head = h.apart.0 in
        let far : All (Far next) (head ∷ (ys ++ zs)) =
          (omega arith, Spread-without ys next zs (unfold Spread in h.ring.spread.1)) in
        let m₃ = with_word m₂ (b + (n + n') - 4) 0 in
        let m₄ = with_word m₃ next 0 in
        let m₅ = with_word m₄ (next + 4) 0 in
        let off : (q : ℕ) → next ≤ q → q < next + 12 → All (Clear q) (head ∷ (ys ++ zs)) = λ q l k.
          All-map (Far next) (Clear q) (head ∷ (ys ++ zs)) (λ x f. (omega arith, omega arith))
            far in
        let end = clear (b + (n + n') - 4) (omega arith) (omega arith) (inr (omega arith)) in
        Ring-with_word head m₅ (ys ++ zs) (next + 8) 0 (off (next + 8) (omega arith) (omega arith))
          (Ring-with_word head m₄ (ys ++ zs) (next + 4) 0
            (off (next + 4) (omega arith) (omega arith))
            (Ring-with_word head m₃ (ys ++ zs) next 0 (off next (omega arith) (omega arith)) (
              Ring-with_word head m₂ (ys ++ zs) (b + (n + n') - 4) 0
                (end.0, All-without (Clear (b + (n + n') - 4)) ys next zs end.1) r)))

    -- The block takes the free one behind it: that one leaves the list, and the sizes add up. But the
    -- footer of the whole, which is the footer of the block behind, is 0 in the end.
    pub merge-next :
        (prev_block : ℕ) (from_allocated : Bool)
        → (m' : Mm) × (merge head b prev_block (b + n) from_allocated false true m ≡ done b m')
          × Ring head m' (ys ++ zs)
          × (m'.word b ≡ n + n')
          × (m'.word (b + (n + n') - 4) ≡ 0)
          × (m'.memory ≡ m.memory)
          × ((q : ℕ)
              → (q < b) ⊎ (b + (n + n') ≤ q)
              → All (Clear q) (head ∷ xs)
              → m'.word q ≡ m.word q)
    unfolding merge
    merge-next prev_block from_allocated =
        let next = b + n in
        let end = b + (n + n') - 4 in
        let large = h.large in
        let both : (16 ≤ n) × (16 ≤ n') = (large.0, large.1) in
        let aligned = h.aligned in
        let node = All-at (IsNode head m.memory) ys next zs h.ring.nodes.1 in
        let run₁ =
          grow-run m b n n' h.size h.next_size h.aligned.0 h.aligned.1 (omega arith) (omega arith)
            h.node.0 node.0 h.footers.0 h.footers.1 in
        let m₁ = widened m b n n' in
        let (m₂, f, ring, links) = remove_from_list-Ring head m₁ next ys zs widened-Ring in
        let kept : (q : ℕ)
            → b ≤ q
            → q < b + (n + n')
            → (q < next + 4) ⊎ (next + 12 ≤ q)
            → m₂.word q ≡ m₁.word q =
          λ q l r o. links.same_words q (clear q l r o) in
        let e : m₁.word next ≡ n' = widened-next m b n n' both ∙ h.next_size in
        let e₂ : m₂.word next ≡ n' =
          kept next (omega arith) (omega arith) (inl (omega arith)) ∙ e in
        let w : block_size (m₂.word next) ≡ n' = rw e₂ (omega arith) in
        let same : next + n' - 4 ≡ end = omega arith in
        let node₂ : IsNode head m₂.memory next = rw links.same_memory node in
        let end₂ : reaches head m₂.memory (next + n' - 4) ≡ true =
          rw (links.same_memory, same) h.footers.1 in
        let run₂ = clear_block-run m₂ next n' node₂ w (omega arith) (omega arith) end₂ in
        let wide : m₂.word b ≡ n + n' =
          kept b (omega arith) (omega arith) (inl (omega arith)) ∙ widened-block m b n n' both in
        (
          cleared m₂ b n n',
          rw (run₁, f, run₂, same) refl,
          cleared-Ring m₂ ring,
          cleared-block m₂ b n n' both ∙ wide,
          cleared-footer m₂ b n n' both,
          links.same_memory,
          λ q out c.
              cleared-outside m₂ b n n' both q out
              ∙ links.same_words q c
              ∙ widened-outside m b n n' both q out,
        )
