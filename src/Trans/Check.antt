-- ===== src/Trans/Check.antt =====
-- `is_transpose` decides whether B is A^T, and accepts what the transposes leave.
use csapp.Common.{ℕ, zero, suc, ◌+◌, ◌<◌, ◌≡◌, ◌↔◌, refl, sym, ◌∙◌, true, some, arith}
use native.Mathlib.Nat.{add-zero, zero-add}
use csapp.Trans.{
  Matrix, copy, transpose_submit, trans, correct_trans, row_matches, rows_match, is_transpose,
}
use csapp.Trans.Laws.{trans-Transposed, transpose_submit-Transposed}

module _ (M N : ℕ) (A B : Matrix) where
  row_matches_sound :
      (i j left : ℕ)
      → row_matches M N A B i j left ≡ true
      → (a : ℕ) → a < left
      → A i (j + a) ≡ B (j + a) i
  unfolding row_matches
  row_matches_sound i j zero h a p = elim p [ ]
  row_matches_sound i j (suc left) h zero p = rw add-zero (ground arith)
  row_matches_sound i j (suc left) h (suc a) p =
      let e : j + suc a ≡ j + 1 + a = omega arith in
      rw e (row_matches_sound i (j + 1) left (ground arith) a (omega arith))

  row_matches_complete :
      (i j left : ℕ)
      → ((a : ℕ) → a < j + left → A i a ≡ B a i)
      → row_matches M N A B i j left ≡ true
  unfolding row_matches
  row_matches_complete i j zero h = refl
  row_matches_complete i j (suc left) h =
      ground
        (arith, h j (omega arith), row_matches_complete i (j + 1) left (λ a p. h a (omega arith)))

  rows_match_sound :
      (i left : ℕ)
      → rows_match M N A B i left ≡ true
      → (k a : ℕ) → k < left
      → a < M
      → A (i + k) a ≡ B a (i + k)
  unfolding rows_match
  rows_match_sound i zero h k a p q = elim p [ ]
  rows_match_sound i (suc left) h zero a p q =
      rw add-zero (rw zero-add at (row_matches_sound i 0 M (ground arith) a q))
  rows_match_sound i (suc left) h (suc k) a p q =
      let e : i + suc k ≡ i + 1 + k = omega arith in
      rw e (rows_match_sound (i + 1) left (ground arith) k a (omega arith) q)

  rows_match_complete :
      (i left : ℕ)
      → ((k a : ℕ) → k < i + left → a < M → A k a ≡ B a k)
      → rows_match M N A B i left ≡ true
  unfolding rows_match
  rows_match_complete i zero h = refl
  rows_match_complete i (suc left) h = ground (
    arith,
    row_matches_complete i 0 M (λ a p. h i a (omega arith) (omega arith)),
    rows_match_complete (i + 1) left (λ k a p. h k a (omega arith)),
  )

  -- `is_transpose` returns 1 exactly when every entry of B within the bounds is that of A^T.
  pub is_transpose_iff : (is_transpose M N A B ≡ true) ↔ ((i j : ℕ) → i < N → j < M → A i j ≡ B j i)
  unfolding is_transpose
  is_transpose_iff = (
    λ h i j p q. rw zero-add at (rows_match_sound 0 N h i j p q),
    λ h. rows_match_complete 0 N (λ k a p. h k a (omega arith)),
  )

-- The submitted transpose and `correctTrans` both return, and leave the same entries within the
-- bounds, which `is_transpose` accepts.
pub transpose_submit-correct_trans :
    (M N : ℕ) (A B : Matrix)
    → (M ≡ 32 → N ≡ 32)
    → (M ≡ 64 → N ≡ 64)
    → (B₁ B₂ : Matrix) × (transpose_submit M N A B ≡ some B₁)
      × (correct_trans M N A B ≡ some B₂)
      × ((j i : ℕ) → j < M → i < N → B₁ j i ≡ B₂ j i)
      × (is_transpose M N A B₁ ≡ true)
transpose_submit-correct_trans M N A B m n =
    let (B₁, e₁, t₁) = transpose_submit-Transposed M N A m n B in
    let (B₂, e₂, t₂) = trans-Transposed M N A B in
    (
      B₁,
      B₂,
      e₁,
      unfold correct_trans in (unfold trans in (unfold copy in e₂)),
      λ j i p q. t₁.inside j i p q ∙ sym (t₂.inside j i p q),
      (is_transpose_iff M N A B₁).1 (λ i j p q. sym (t₁.inside j i q p)),
    )
