-- ===== src/Trans.antt =====
-- cachelab/trans.c: the matrix transposes B = A^T, and the check of one. `int A[N][M]` and
-- `int B[M][N]` are functions of two indices; an access outside the bounds is the result `none`.
-- The two arrays do not overlap.
pub mod Fill
pub mod Laws
pub mod Check
mod Tests
use csapp.Common.{
  ℕ, zero, suc, ◌+◌, min, Bool, true, false, ◌&&◌, Option, none, some, ltb, ◌==◌, if◌then◌else◌,
  ◌>>=◌,
}
use csapp.Common.Loop.{for_loop}

abbrev pub Matrix : Type 0
Matrix = ℕ → ℕ → ℕ

abbrev pub update : Matrix → ℕ → ℕ → ℕ → Matrix
update B j i v j' i' = if j' == j && i' == i then v else B j' i'

module _ (M N : ℕ) (A : Matrix) where
  -- `A[i][j]` as a value, and `B[j][i] = v`.
  abbrev pub load : ℕ → ℕ → Option ℕ
  load i j = if ltb i N && ltb j M then some (A i j) else none

  abbrev pub store : ℕ → ℕ → ℕ → Matrix → Option Matrix
  store j i v B = if ltb j M && ltb i N then some (update B j i v) else none

  -- `B[j][i] = A[i][j]`
  pub copy : ℕ → ℕ → Matrix → Option Matrix
  copy i j B = load i j >>= λ v. store j i v B

  -- The body of the innermost loop at M == 32: eight reads, then eight writes.
  pub copy_eight : ℕ → ℕ → Matrix → Option Matrix
  copy_eight j k B = do
    v1 ← load k j
    v2 ← load k (j + 1)
    v3 ← load k (j + 2)
    v4 ← load k (j + 3)
    v5 ← load k (j + 4)
    v6 ← load k (j + 5)
    v7 ← load k (j + 6)
    v8 ← load k (j + 7)
    B ← store j k v1 B
    B ← store (j + 1) k v2 B
    B ← store (j + 2) k v3 B
    B ← store (j + 3) k v4 B
    B ← store (j + 4) k v5 B
    B ← store (j + 5) k v6 B
    B ← store (j + 6) k v7 B
    store (j + 7) k v8 B

  -- The body at M == 64.
  pub copy_four : ℕ → ℕ → Matrix → Option Matrix
  copy_four j k B = do
    v1 ← load k j
    v2 ← load k (j + 1)
    v3 ← load k (j + 2)
    v4 ← load k (j + 3)
    B ← store j k v1 B
    B ← store (j + 1) k v2 B
    B ← store (j + 2) k v3 B
    store (j + 3) k v4 B

  pub transpose_32 : Matrix → Option Matrix
  transpose_32 =
      for_loop 32 0 32 8 λ i. for_loop 32 0 32 8 λ j. for_loop 8 i (i + 8) 1 λ k. copy_eight j k

  pub transpose_64 : Matrix → Option Matrix
  transpose_64 =
      for_loop M 0 M 4 λ i. for_loop M 0 M 4 λ j. for_loop 4 i (i + 4) 1 λ k. copy_four j k

  -- `k < i + 17 && k < N` is `k < min (i + 17) N`.
  pub transpose_any : Matrix → Option Matrix
  transpose_any = for_loop N 0 N 17 λ i.
      for_loop M 0 M 17
        λ j. for_loop 17 i (min (i + 17) N) 1 λ k. for_loop 17 j (min (j + 17) M) 1 λ l. copy k l

  pub transpose_submit : Matrix → Option Matrix
  unfolding transpose_32 transpose_64 transpose_any
  transpose_submit B =
      if M == 32 then transpose_32 B else if M == 64 then transpose_64 B else transpose_any B

  -- The row-wise baseline.
  pub trans : Matrix → Option Matrix
  trans = for_loop N 0 N 1 λ i. for_loop M 0 M 1 λ j. copy i j

  -- `correctTrans` of cachelab/cachelab.c, which the tests compare with.
  pub correct_trans : Matrix → Option Matrix
  correct_trans = for_loop N 0 N 1 λ i. for_loop M 0 M 1 λ j B. do tmp ← load i j; store j i tmp B

  -- The loops of `is_transpose` return 0 at the first difference: `rows_left` of the N rows and
  -- `left` of the M columns are still to compare.
  pub row_matches : Matrix → ℕ → ℕ → ℕ → Bool
  row_matches B i j zero = true
  row_matches B i j (suc left) = A i j == B j i && row_matches B i (j + 1) left

  pub rows_match : Matrix → ℕ → ℕ → Bool
  unfolding row_matches
  rows_match B i zero = true
  rows_match B i (suc rows_left) = row_matches B i 0 M && rows_match B (i + 1) rows_left

  pub is_transpose : Matrix → Bool
  unfolding rows_match
  is_transpose B = rows_match B 0 N
