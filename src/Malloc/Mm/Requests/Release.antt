-- ===== src/Malloc/Mm/Requests/Release.antt =====
-- `mm_free` of malloclab/mm.c, for a block behind one that is in use.
use csapp.Common.{
  ℕ, ◌+◌, ◌-◌, ◌%◌, ◌^◌, ◌≤◌, ◌<◌, ◌≡◌, ◌≢◌, ◌⊎◌, refl, ◌∙◌, inl, inr, Bool, true, false, not, ◌&&◌,
  List, ◌∷◌, ◌++◌, ◌==◌, All, Bool-cases, All-map, All-at, All-without, arith,
}
use csapp.Malloc.Word.{Mm, done, reaches, add32, sub32}
use csapp.Malloc.Mm.{block_size, is_allocated, is_free, merge, coalesce}
use csapp.Malloc.Mm.Tags.{with_word, update-same, update-other, load-run, set_free-run}
use csapp.Malloc.Mm.Ring.{Clear, Far}
use csapp.Malloc.Mm.Lists.{IsNode, Ring, Relinked, insert_to_list-front}
use csapp.Malloc.Mm.Split.{Ring-with_word}
use csapp.Malloc.Mm.Merge.{Taken, TakenBefore, is_free-Taken, BeforeFree, merge-next}
use csapp.Malloc.Mm.Requests.{mm_free}

pub Far-Clear : (b : ℕ) (xs : List ℕ) → All (Far b) xs → All (Clear b) xs
Far-Clear b xs far = All-map (Far b) (Clear b) xs (λ x f. (omega arith, omega arith)) far

module _ (head : ℕ) where
  pub is_free-free :
      (m : Mm) (b n : ℕ)
      → b ≢ head
      → reaches head m.memory b ≡ true
      → m.word b ≡ n
      → n % 4 ≡ 0
      → 16 ≤ n
      → is_free head b m ≡ done true m
  unfolding is_free
  is_free-free m b n ne r e n4 big =
      let other : (b == head) ≡ false = ground arith in
      let free : (not (is_allocated n) && not (n == 0)) ≡ true = ground arith in
      rw (other, load-run head m b n r e, free) refl

  module _ (m : Mm) (b n : ℕ) (next_free : Bool) (e : m.word b ≡ n) (n4 : n % 4 ≡ 0)
      (top : b + n < 2 ^ 32) (here : reaches head m.memory b ≡ true)
      (front : reaches head m.memory (b - 4) ≡ true) (low : 4 ≤ b) (before : TakenBefore head m b)
      (next : is_free head (b + n) m ≡ done next_free m) where
    pub coalesce-run :
        (from_allocated : Bool)
        → coalesce head b from_allocated m
          ≡ merge head b (sub32 b (m.word (b - 4))) (b + n) from_allocated false next_free m
    unfolding coalesce
    coalesce-run from_allocated =
        let back : sub32 b 4 ≡ b - 4 = omega arith in
        let size : block_size n ≡ n = omega arith in
        let at : add32 b n ≡ b + n = omega arith in
        elim before [
          | inl z ↦
              rw
                (
                  load-run head m b n here e,
                  back,
                  load-run head m (b - 4) 0 front z,
                  size,
                  at,
                  next,
                  z,
                )
                refl
          | inr t ↦
              let taken = is_free-Taken head m b (sub32 b (m.word (b - 4))) t in
              elim (Bool-cases (m.word (b - 4) == 0)) [
                | inl z ↦
                    rw
                      (
                        load-run head m b n here e,
                        back,
                        load-run head m (b - 4) (m.word (b - 4)) front refl,
                        z,
                        size,
                        at,
                        next,
                      )
                      refl
                | inr z ↦
                    rw
                      (
                        load-run head m b n here e,
                        back,
                        load-run head m (b - 4) (m.word (b - 4)) front refl,
                        z,
                        taken,
                        size,
                        at,
                        next,
                      )
                      refl
              ]
        ]

  -- A block in use at b, with `tag` in its header, behind a block that is in use as well.
  pub record InUse (m : Mm) (b n : ℕ) : Type 0 where
    pub size : block_size (m.word b) ≡ n
    pub aligned : n % 4 ≡ 0
    pub bounds : (16 ≤ n) × (4 ≤ b) × (b + n < 2 ^ 32)
    pub node : IsNode head m.memory b
    pub front : reaches head m.memory (b - 4) ≡ true
    pub before : TakenBefore head (with_word m b n) b

  -- The block that `coalesce` leaves at b goes to the front of the list.
  mm_free-inserts :
      (rounds : ℕ) (m m₂ : Mm) (b n : ℕ) (zs : List ℕ)
      → InUse m b n
      → coalesce head b true (with_word m b n) ≡ done b m₂
      → m₂.memory ≡ m.memory
      → Ring head m₂ zs
      → All (Far b) (head ∷ zs)
      → (m' : Mm) × (mm_free head rounds (b + 12) m ≡ done tt m')
        × Ring head m' (b ∷ zs)
        × Relinked head (b ∷ head ∷ zs) m₂ m'
  unfolding mm_free
  mm_free-inserts rounds m m₂ b n zs u run memory ring far =
      let bounds = u.bounds in
      let at : sub32 (b + 12) 12 ≡ b = omega arith in
      let some_ptr : (b + 12 == 0) ≡ false = ground arith in
      let itself : (b == b) ≡ true = ground arith in
      let node₂ : IsNode head m₂.memory b = rw memory u.node in
      let (m', f, ring', links) = insert_to_list-front head m₂ b zs ring node₂ far in
      (
        m',
        rw (some_ptr, at, set_free-run head m b n u.node.0 u.size, run, itself, f) refl,
        ring',
        links,
      )

  -- Behind a block in use and in front of another, `mm_free` marks the block as free and puts it in
  -- front of the list; no other word changes but links of the list.
  pub mm_free-alone :
      (rounds : ℕ) (m : Mm) (b n : ℕ) (zs : List ℕ)
      → InUse m b n
      → Taken head m b (b + n)
      → Ring head m zs
      → All (Far b) (head ∷ zs)
      → (m' : Mm) × (mm_free head rounds (b + 12) m ≡ done tt m')
        × Ring head m' (b ∷ zs)
        × (m'.word b ≡ n)
        × ((q : ℕ) → q ≢ b → All (Clear q) (b ∷ head ∷ zs) → m'.word q ≡ m.word q)
        × (m'.memory ≡ m.memory)
  unfolding merge
  mm_free-alone rounds m b n zs u (reach, ne, taken) ring far =
      let bounds = u.bounds in
      let m₁ = with_word m b n in
      let set : m₁.word b ≡ n = update-same m.word b n in
      let other : m₁.word (b + n) ≡ m.word (b + n) = update-other m.word b n (b + n) ne in
      let next : Taken head m₁ b (b + n) = (reach, ne, rw other taken) in
      let run =
        coalesce-run m₁ b n false set u.aligned (omega arith) u.node.0 u.front (omega arith)
          u.before (is_free-Taken head m₁ b (b + n) next) true in
      let ring₁ = Ring-with_word head m zs b n (Far-Clear b (head ∷ zs) far) ring in
      let (m', f, ring', links) = mm_free-inserts rounds m m₁ b n zs u run refl ring₁ far in
      (
        m',
        f,
        ring',
        links.same_words b ((omega arith, omega arith), Far-Clear b (head ∷ zs) far) ∙ set,
        (λ q ne c. links.same_words q c ∙ update-other m.word b n q ne),
        links.same_memory,
      )

  -- Behind a block that is not merged (in use, or its footer is 0) and in front of a free block,
  -- `mm_free` takes the free one out of the list, adds its size, and puts the
  -- whole in front of the list. The footer of the whole is 0 in the end, not its size. Outside of the
  -- two blocks only links of the list change.
  pub mm_free-next :
      (rounds : ℕ) (m : Mm) (b n n' : ℕ) (ys zs : List ℕ)
      → InUse m b n
      → BeforeFree head (with_word m b n) b n n' ys zs
      → (m' : Mm) × (mm_free head rounds (b + 12) m ≡ done tt m')
        × Ring head m' (b ∷ (ys ++ zs))
        × (m'.word b ≡ n + n')
        × (m'.word (b + (n + n') - 4) ≡ 0)
        × (m'.memory ≡ m.memory)
        × ((q : ℕ)
            → (q < b) ⊎ (b + (n + n') ≤ q)
            → All (Clear q) (head ∷ (ys ++ ((b + n) ∷ zs)))
            → m'.word q ≡ m.word q)
  mm_free-next rounds m b n n' ys zs u h =
      let bounds = u.bounds in
      let large = h.large in
      let m₁ = with_word m b n in
      let node = All-at (IsNode head m₁.memory) ys (b + n) zs h.ring.nodes.1 in
      let free = is_free-free m₁ (b + n) n' h.not_head node.0 h.next_size h.aligned.1 large.1 in
      let run =
        coalesce-run m₁ b n true h.size u.aligned (omega arith) u.node.0 u.front (omega arith)
          u.before free true in
      let (m₂, f, ring, wide, foot, memory, others) =
        merge-next head m₁ b n n' ys zs h (sub32 b (m₁.word (b - 4))) true in
      let end = b + (n + n') - 4 in
      let (far, clear) = both_apart b n n' ys zs large.0 large.1 h.apart in
      let (m', g, ring', links) =
        mm_free-inserts rounds m m₂ b n (ys ++ zs) u (run ∙ f) memory ring far in
      (
        m',
        g,
        ring',
        links.same_words b ((omega arith, omega arith), Far-Clear b (head ∷ (ys ++ zs)) far) ∙ wide,
        links.same_words end ((omega arith, omega arith), clear) ∙ foot,
        links.same_memory ∙ memory,
        λ q out c.
            links.same_words q
              ((omega arith, omega arith), (c.0, All-without (Clear q) ys (b + n) zs c.1))
            ∙ others q out c
            ∙ update-other m.word b n q (omega arith),
      )
    where
      both_apart :
          (b n n' : ℕ) (ys zs : List ℕ)
          → 16 ≤ n
          → 16 ≤ n'
          → All
              (λ x. (x ≡ b + n) ⊎ (x + 12 ≤ b) ⊎ (b + (n + n') ≤ x))
              (head ∷ (ys ++ ((b + n) ∷ zs)))
          → All (Far b) (head ∷ (ys ++ zs)) × All (Clear (b + (n + n') - 4)) (head ∷ (ys ++ zs))
      both_apart b n n' ys zs big big' apart =
          let P : ℕ → Type 0 = λ x. (x ≡ b + n) ⊎ (x + 12 ≤ b) ⊎ (b + (n + n') ≤ x) in
          let all = All-map P (Far b) (head ∷ (ys ++ ((b + n) ∷ zs))) (λ x c. omega arith) apart in
          let all' =
            All-map P (Clear (b + (n + n') - 4)) (head ∷ (ys ++ ((b + n) ∷ zs)))
              (λ x c. (omega arith, omega arith)) apart in
          (
            (all.0, All-without (Far b) ys (b + n) zs all.1),
            (all'.0, All-without (Clear (b + (n + n') - 4)) ys (b + n) zs all'.1),
          )
