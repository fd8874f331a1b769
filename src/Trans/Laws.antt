-- ===== src/Trans/Laws.antt =====
-- Every transpose of trans.c transposes, for all the sizes that it is meant for.
use csapp.Common.{
  ℕ, ◌+◌, ◌*◌, ◌/◌, ◌%◌, ◌≤◌, ◌<◌, ◌≡◌, ◌⊎◌, ◌∙◌, inl, inr, Option, some, ◌==◌, arith, Bool-cases,
  min,
}
use csapp.Trans.{
  Matrix, update, copy, copy_four, copy_eight, transpose_32, transpose_64, transpose_any,
  transpose_submit, trans,
}
use csapp.Trans.Fill.{Fills, Runs, Rounds, Fills-widen, for_loop-Runs}

module _ (M N : ℕ) (A : Matrix) where
  abbrev Cell : ℕ → ℕ → ℕ → ℕ → Type 0
  Cell j i a b = (a ≡ j) × (b ≡ i)

  update-Fills :
      (B : Matrix) (j i : ℕ) → j < M → i < N → Fills M N A (Cell j i) B (update B j i (A i j))
  update-Fills B j i p q = record {
    keeps = λ a b e. ground arith;
    fills = λ a b (e, f). ground arith;
    frame = λ a b o. ground arith;
  }

  Fills-then :
      {R S : ℕ → ℕ → Type 0} {B B₁ B₂ : Matrix}
      → Fills M N A R B B₁
      → Fills M N A S B₁ B₂
      → Fills M N A (λ a b. R a b ⊎ S a b) B B₂
  Fills-then f g = record {
    keeps = λ a b e. g.keeps a b (f.keeps a b e);
    fills = λ a b c. elim c [ inl r ↦ g.keeps a b (f.fills a b r) | inr s ↦ g.fills a b s ];
    frame = λ a b o. g.frame a b o ∙ f.frame a b o;
  }

  copy-Runs : (i j : ℕ) → i < N → j < M → Runs M N A (Cell j i) (copy M N A i j)
  unfolding copy
  copy-Runs i j p q B = (update B j i (A i j), ground arith, update-Fills B j i q p)

  copy_four-Runs :
      (j k : ℕ)
      → j + 3 < M
      → k < N
      → Runs M N A (λ a b. (j ≤ a) × (a < j + 4) × (b ≡ k)) (copy_four M N A j k)
  unfolding copy_four
  copy_four-Runs j k p q B =
      let f₀ = update-Fills B j k (omega arith) q in
      let f₁ = Fills-then f₀ (update-Fills (update B j k (A k j)) (j + 1) k (omega arith) q) in
      let f₂ = Fills-then f₁ (update-Fills _ (j + 2) k (omega arith) q) in
      let f₃ = Fills-then f₂ (update-Fills _ (j + 3) k (omega arith) q) in
      (_, ground arith, Fills-widen M N A (λ a b h. ground arith) f₃)

  copy_eight-Runs :
      (j k : ℕ)
      → j + 7 < M
      → k < N
      → Runs M N A (λ a b. (j ≤ a) × (a < j + 8) × (b ≡ k)) (copy_eight M N A j k)
  unfolding copy_eight
  copy_eight-Runs j k p q B =
      let f₀ = update-Fills B j k (omega arith) q in
      let f₁ = Fills-then f₀ (update-Fills (update B j k (A k j)) (j + 1) k (omega arith) q) in
      let f₂ = Fills-then f₁ (update-Fills _ (j + 2) k (omega arith) q) in
      let f₃ = Fills-then f₂ (update-Fills _ (j + 3) k (omega arith) q) in
      let f₄ = Fills-then f₃ (update-Fills _ (j + 4) k (omega arith) q) in
      let f₅ = Fills-then f₄ (update-Fills _ (j + 5) k (omega arith) q) in
      let f₆ = Fills-then f₅ (update-Fills _ (j + 6) k (omega arith) q) in
      let f₇ = Fills-then f₆ (update-Fills _ (j + 7) k (omega arith) q) in
      (_, ground arith, Fills-widen M N A (λ a b h. ground arith) f₇)

  abbrev Inside : ℕ → ℕ → Type 0
  Inside a b = (a < M) × (b < N)

  Runs-widen :
      (R S : ℕ → ℕ → Type 0) {body : Matrix → Option Matrix}
      → ((a b : ℕ) → S a b → R a b)
      → Runs M N A R body
      → Runs M N A S body
  Runs-widen R S w r B = let (B', e, f) = r B in (B', e, Fills-widen M N A w f)

  trans-Runs : Runs M N A Inside (trans M N A)
  unfolding trans
  trans-Runs =
      Runs-widen (Rounds M N A (λ i. Rounds M N A (λ j. Cell j i) 0 M 1) 0 N 1) Inside
        (λ a b (p, q). (b, omega arith, (a, omega arith, (omega arith, omega arith))))
        (for_loop-Runs M N A (λ i. Rounds M N A (λ j. Cell j i) 0 M 1) _ N 0 N 1 (omega arith)
          (omega arith)
          λ n q.
            for_loop-Runs M N A (λ j. Cell j (0 + n * 1)) _ M 0 M 1 (omega arith) (omega arith)
              λ m p. copy-Runs (0 + n * 1) (0 + m * 1) q p)

  abbrev Strip : ℕ → ℕ → ℕ → ℕ → Type 0
  Strip i j =
      Rounds M N A (λ k. Rounds M N A (λ l. Cell l k) j (min (j + 17) M) 1) i (min (i + 17) N) 1

  transpose_any-Runs : Runs M N A Inside (transpose_any M N A)
  unfolding transpose_any
  transpose_any-Runs =
      Runs-widen (Rounds M N A (λ i. Rounds M N A (λ j. Strip i j) 0 M 17) 0 N 17) Inside
        (λ a b (p, q). (
          b / 17,
          omega arith,
          (
            a / 17,
            omega arith,
            (b % 17, omega arith, (a % 17, omega arith, (omega arith, omega arith))),
          ),
        ))
        (for_loop-Runs M N A (λ i. Rounds M N A (λ j. Strip i j) 0 M 17) _ N 0 N 17 (omega arith)
          (omega arith)
          λ n q.
            for_loop-Runs M N A (λ j. Strip (0 + n * 17) j) _ M 0 M 17 (omega arith) (omega arith)
              λ m p.
                for_loop-Runs M N A
                  (λ k. Rounds M N A (λ l. Cell l k) (0 + m * 17) (min (0 + m * 17 + 17) M) 1) _ 17
                  (0 + n * 17) (min (0 + n * 17 + 17) N) 1 (omega arith) (omega arith)
                  λ x r.
                    for_loop-Runs M N A (λ l. Cell l (0 + n * 17 + x * 1)) _ 17 (0 + m * 17)
                      (min (0 + m * 17 + 17) M) 1 (omega arith) (omega arith)
                      λ y t.
                        copy-Runs (0 + n * 17 + x * 1) (0 + m * 17 + y * 1) (omega arith)
                          (omega arith))

  abbrev Eights : ℕ → ℕ → ℕ → ℕ → Type 0
  Eights i j = Rounds M N A (λ k a b. (j ≤ a) × (a < j + 8) × (b ≡ k)) i (i + 8) 1

  transpose_32-Runs : M ≡ 32 → N ≡ 32 → Runs M N A Inside (transpose_32 M N A)
  unfolding transpose_32
  transpose_32-Runs m n =
      Runs-widen (Rounds M N A (λ i. Rounds M N A (λ j. Eights i j) 0 32 8) 0 32 8) Inside
        (λ a b (p, q). (
          b / 8,
          omega arith,
          (a / 8, omega arith, (b % 8, omega arith, (omega arith, omega arith, omega arith))),
        ))
        (for_loop-Runs M N A (λ i. Rounds M N A (λ j. Eights i j) 0 32 8) _ 32 0 32 8 (omega arith)
          (omega arith)
          λ x q.
            for_loop-Runs M N A (λ j. Eights (0 + x * 8) j) _ 32 0 32 8 (omega arith) (omega arith)
              λ y p.
                for_loop-Runs M N A (λ k a b. (0 + y * 8 ≤ a) × (a < 0 + y * 8 + 8) × (b ≡ k)) _ 8
                  (0 + x * 8) (0 + x * 8 + 8) 1 (omega arith) (omega arith)
                  λ z r.
                    copy_eight-Runs (0 + y * 8) (0 + x * 8 + z * 1) (omega arith) (omega arith))

  abbrev Fours : ℕ → ℕ → ℕ → ℕ → Type 0
  Fours i j = Rounds M N A (λ k a b. (j ≤ a) × (a < j + 4) × (b ≡ k)) i (i + 4) 1

  transpose_64-Runs : M ≡ 64 → N ≡ 64 → Runs M N A Inside (transpose_64 M N A)
  unfolding transpose_64
  transpose_64-Runs m n =
      Runs-widen (Rounds M N A (λ i. Rounds M N A (λ j. Fours i j) 0 M 4) 0 M 4) Inside
        (λ a b (p, q). (
          b / 4,
          omega arith,
          (a / 4, omega arith, (b % 4, omega arith, (omega arith, omega arith, omega arith))),
        ))
        (for_loop-Runs M N A (λ i. Rounds M N A (λ j. Fours i j) 0 M 4) _ M 0 M 4 (omega arith)
          (omega arith)
          λ x q.
            for_loop-Runs M N A (λ j. Fours (0 + x * 4) j) _ M 0 M 4 (omega arith) (omega arith)
              λ y p.
                for_loop-Runs M N A (λ k a b. (0 + y * 4 ≤ a) × (a < 0 + y * 4 + 4) × (b ≡ k)) _ 4
                  (0 + x * 4) (0 + x * 4 + 4) 1 (omega arith) (omega arith)
                  λ z r. copy_four-Runs (0 + y * 4) (0 + x * 4 + z * 1) (omega arith) (omega arith))

  -- What a transpose promises: B' is A^T within the bounds, and B outside.
  pub record Transposed (B B' : Matrix) : Type 0 where
    pub inside : (j i : ℕ) → j < M → i < N → B' j i ≡ A i j
    pub outside : (j i : ℕ) → (M ≤ j) ⊎ (N ≤ i) → B' j i ≡ B j i

  Runs-Transposed :
      {body : Matrix → Option Matrix}
      → Runs M N A Inside body
      → (B : Matrix) → (B' : Matrix) × (body B ≡ some B') × Transposed B B'
  Runs-Transposed r B =
      let (B', e, f) = r B in
      (B', e, record { inside = λ j i p q. f.fills j i (p, q); outside = f.frame })

  -- Where a matrix of 32 or of 64 columns is square, `transpose_submit` returns, makes no access
  -- out of bounds, and leaves A^T in B, with nothing written outside.
  pub transpose_submit-Transposed :
      (M ≡ 32 → N ≡ 32)
      → (M ≡ 64 → N ≡ 64)
      → (B : Matrix) → (B' : Matrix) × (transpose_submit M N A B ≡ some B') × Transposed B B'
  unfolding transpose_submit
  transpose_submit-Transposed m n B = elim (Bool-cases (M == 32)) [
    | inl e ↦ rw e (Runs-Transposed (transpose_32-Runs (ground arith) (m (ground arith))) B)
    | inr e ↦ elim (Bool-cases (M == 64)) [
      | inl f ↦ rw (e, f) (Runs-Transposed (transpose_64-Runs (ground arith) (n (ground arith))) B)
      | inr f ↦ rw (e, f) (Runs-Transposed transpose_any-Runs B)
    ]
  ]

  -- The row-wise `trans` transposes matrices of every size.
  pub trans-Transposed : (B : Matrix) → (B' : Matrix) × (trans M N A B ≡ some B') × Transposed B B'
  trans-Transposed = Runs-Transposed trans-Runs
