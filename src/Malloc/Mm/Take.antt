-- ===== src/Malloc/Mm/Take.antt =====
-- What `find_fit` of malloclab/mm.c does with a block that fits: with and without a rest to split off.
use csapp.Common.{
  ℕ, ◌+◌, ◌-◌, ◌%◌, ◌^◌, ◌≤◌, ◌<◌, ◌≡◌, ◌⊎◌, refl, ◌∙◌, inl, inr, true, false, List, [], ◌∷◌, ◌++◌,
  ltb, ◌==◌, All, arith,
}
use csapp.Malloc.Word.{Mm, done, reaches}
use csapp.Malloc.Mm.{block_size, take_fit}
use csapp.Malloc.Mm.Tags.{load-run}
use csapp.Malloc.Mm.Ring.{Clear}
use csapp.Malloc.Mm.Lists.{Ring, Relinked}
use csapp.Malloc.Mm.Lists.Removal.{remove_from_list-Ring}
use csapp.Malloc.Mm.Split.{Room, Room-Clear, Halved, Holds, split_block-Halved}

pub Clear-among :
    (q b c : ℕ) (ys zs : List ℕ)
    → All (Clear q) (ys ++ (b ∷ zs))
    → Clear q c
    → All (Clear q) (ys ++ (b ∷ c ∷ zs))
Clear-among q b c [] zs (h, t) k = (h, (k, t))
Clear-among q b c (y ∷ ys) zs (h, t) k = (h, Clear-among q b c ys zs t k)

Clear-less :
    (q b c : ℕ) (ys zs : List ℕ)
    → All (Clear q) (ys ++ (b ∷ c ∷ zs))
    → All (Clear q) (ys ++ (b ∷ zs))
Clear-less q b c [] zs (h, (_, t)) = (h, t)
Clear-less q b c (y ∷ ys) zs (h, t) = (h, Clear-less q b c ys zs t)

module _ (head : ℕ) (m : Mm) (b n size : ℕ) (ys zs : List ℕ) (e : m.word b ≡ n) (n4 : n % 4 ≡ 0)
    (s4 : size % 4 ≡ 0) (r : Ring head m (ys ++ (b ∷ zs)))
    (here : reaches head m.memory b ≡ true) where
  -- A block with at most 16 bytes more leaves the list as a whole.
  pub take_fit-whole :
      n ≤ size + 16
      → size + 16 < 2 ^ 32
      → (m' : Mm) × (take_fit head b size m ≡ done b m')
        × Ring head m' (ys ++ zs)
        × Relinked head (head ∷ (ys ++ (b ∷ zs))) m m'
  unfolding take_fit
  take_fit-whole h l =
      let (m', f, ring, links) = remove_from_list-Ring head m b ys zs r in
      let small : ltb ((size + 16) % 2 ^ 32) (block_size n) ≡ false = ground arith in
      let n0 : (n % 4 == 0) ≡ true = ground arith in
      let s0 : (size % 4 == 0) ≡ true = ground arith in
      (m', rw (load-run head m b n here e, n0, s0, small, f) refl, ring, links)

  -- Of a larger block the rest stays in the list, in its place.
  pub take_fit-Halved :
      16 ≤ size
      → size + 16 < n
      → b + n < 2 ^ 32
      → Holds head m.memory b n size
      → Room head b n (head ∷ (ys ++ (b ∷ zs)))
      → (m' : Mm) × (take_fit head b size m ≡ done b m')
        × Ring head m' (ys ++ ((b + size) ∷ zs))
        × Halved head b n size size (ys ++ (b ∷ (b + size) ∷ zs)) m m'
  unfolding take_fit
  take_fit-Halved big fits top mem room =
      let (m₁, f, ring₁, h) =
        split_block-Halved head m b n size ys zs e n4 s4 big fits top mem room r in
      let (m', g, ring, links) = remove_from_list-Ring head m₁ b ys ((b + size) ∷ zs) ring₁ in
      let much : ltb ((size + 16) % 2 ^ 32) (block_size n) ≡ true = ground arith in
      let n0 : (n % 4 == 0) ≡ true = ground arith in
      let s0 : (size % 4 == 0) ≡ true = ground arith in
      let kept : (q : ℕ)
          → (q ≡ b) ⊎ ((b + 12 ≤ q) × (q < b + n))
          → Clear q (b + size)
          → m'.word q ≡ m₁.word q =
        λ q i c.
          let (ch, cs) = Room-Clear head b n (head ∷ (ys ++ (b ∷ zs))) q i (omega arith) room in
          links.same_words q (ch, Clear-among q b (b + size) ys zs cs c) in
      (
        m',
        rw (load-run head m b n here e, n0, s0, much, f, g) refl,
        ring,
        record {
          first = kept b (inl refl) (omega arith, omega arith) ∙ h.first;
          first_footer =
              kept (b + size - 4) (inr (omega arith, omega arith)) (omega arith, omega arith)
              ∙ h.first_footer;
          second =
              kept (b + size) (inr (omega arith, omega arith)) (omega arith, omega arith)
              ∙ h.second;
          second_footer =
              kept (b + n - 4) (inr (omega arith, omega arith)) (omega arith, omega arith)
              ∙ h.second_footer;
          content =
              λ q l k. kept q (inr (l, omega arith)) (omega arith, omega arith) ∙ h.content q l k;
          same_memory = links.same_memory ∙ h.same_memory;
          others = λ q out c.
              links.same_words q c ∙ h.others q out (c.0, Clear-less q b (b + size) ys zs c.1);
        },
      )
