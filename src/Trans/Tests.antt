-- ===== src/Trans/Tests.antt =====
-- The transposes on small matrices, and the theorems at inputs that meet their hypotheses.
use csapp.Common.{ℕ, ◌+◌, ◌*◌, ◌<◌, ◌≡◌, ◌↔◌, refl, true, false, some, arith}
use csapp.Trans.{Matrix, transpose_submit, is_transpose, rows_match, row_matches}
use csapp.Trans.Laws.{Transposed, transpose_submit-Transposed}
use csapp.Trans.Check.{is_transpose_iff}

abbrev grid : Matrix
grid i j = 10 * i + j

abbrev flipped : Matrix
flipped j i = 10 * i + j

accepts_flipped : (is_transpose 3 2 grid flipped ≡ true) × (is_transpose 3 2 grid grid ≡ false)
unfolding is_transpose rows_match row_matches
accepts_flipped = (refl, refl)

transpose_submit-Transposed_example :
    (B' : Matrix) × (transpose_submit 32 32 grid grid ≡ some B') × Transposed 32 32 grid grid B'
transpose_submit-Transposed_example =
    transpose_submit-Transposed 32 32 grid (λ e. refl) (λ e. absurd (omega arith)) grid

is_transpose_iff_example :
    (is_transpose 3 2 grid flipped ≡ true) ↔ ((i j : ℕ) → i < 2 → j < 3 → grid i j ≡ flipped j i)
is_transpose_iff_example = is_transpose_iff 3 2 grid flipped
