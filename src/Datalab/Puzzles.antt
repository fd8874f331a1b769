-- ===== src/Datalab/Puzzles.antt =====
-- The integer puzzles of datalab/bits.c together, on all words.
use csapp.Common.{ℕ, ◌-◌, ◌^◌, ◌<◌, ◌≡◌, ◌↔◌, bit_xor as xor, leb, ◌==◌, ◌&&◌, if◌then◌else◌}
use csapp.Datalab.{
  add, not, leb_int, bit_xor, is_tmax, all_odd_bits, negate, is_ascii_digit, conditional,
  is_less_or_equal, logical_neg,
}
use csapp.Datalab.Logic.{
  bit_xor_lem, is_tmax_lem, negate_lem, is_ascii_digit_lem, conditional_lem, logical_neg_lem,
}
use csapp.Datalab.OddBits.{HasOddBits, all_odd_bits_iff}
use csapp.Datalab.Compare.{is_less_or_equal_lem}

-- The integer puzzles on all words, in the order of the file: `bitXor` is `^`; `isTmax` is 1 for the
-- largest int only, and else 0; `allOddBits` is 1 when each of the sixteen odd-numbered bits is set,
-- and else 0; `negate` gives the sum 0, and twice gives the word back; `isAsciiDigit` is 1 for
-- the patterns from 0x30 to 0x39 only, and else 0; `conditional` is `x ? y : z`; `isLessOrEqual` is 1
-- when x ≤ y as ints, and else 0; `logicalNeg` is `!`.
pub integer_puzzles :
    (x y z : ℕ)
    → x < 2 ^ 32
    → y < 2 ^ 32
    → z < 2 ^ 32
    → (bit_xor x y ≡ xor x y)
      × (is_tmax x ≡ (if x == 2 ^ 31 - 1 then 1 else 0))
      × ((all_odd_bits x ≡ 1) ↔ HasOddBits 16 x)
      × ((all_odd_bits x ≡ 0) ↔ ¬ HasOddBits 16 x)
      × (add (negate x) x ≡ 0)
      × (negate (negate x) ≡ x)
      × (is_ascii_digit x ≡ (if leb 0x30 x && leb x 0x39 then 1 else 0))
      × (conditional x y z ≡ (if x == 0 then z else y))
      × (is_less_or_equal x y ≡ (if leb_int x y then 1 else 0))
      × (logical_neg x ≡ not x)
integer_puzzles x y z p q r =
    let (odd, not_odd) = all_odd_bits_iff x p in
    let (sum, twice, _) = negate_lem x p in
    (
      bit_xor_lem x y p q,
      is_tmax_lem x p,
      odd,
      not_odd,
      sum,
      twice,
      is_ascii_digit_lem x p,
      conditional_lem x y z q r,
      is_less_or_equal_lem x y p q,
      logical_neg_lem x p,
    )
