-- ===== src/Datalab/Logic.antt =====
-- The puzzles on single bits and masks: bitXor, isTmax, allOddBits, negate, isAsciiDigit,
-- conditional and logicalNeg.
use csapp.Common.{
  ℕ, ◌-◌, ◌^◌, ◌<◌, ◌≡◌, ◌∙◌, bit_xor as xor, leb, ◌==◌, ◌&&◌, if◌then◌else◌, Bool-cases, inl, inr,
  arith,
}
use csapp.Datalab.Words.{
  xor_of_ands_32, not-xor, and_ones, zero-and, zero-or, or_bits, sign-or, or-lt,
}
use csapp.Common.Bits.{bit_or-zero}
use csapp.Datalab.{
  bit_not, add, sar, not, bit_xor, is_tmax, negate, is_ascii_digit, conditional, logical_neg,
}

-- `bitXor` is `^` on all words.
pub bit_xor_lem : (x y : ℕ) → x < 2 ^ 32 → y < 2 ^ 32 → bit_xor x y ≡ xor x y
unfolding bit_xor
bit_xor_lem x y p q = xor_of_ands_32 x y p q

-- `isTmax` returns 1 for the largest int, 2 ^ 31 - 1, and 0 for every other word.
pub is_tmax_lem : (x : ℕ) → x < 2 ^ 32 → is_tmax x ≡ (if x == 2 ^ 31 - 1 then 1 else 0)
unfolding is_tmax
is_tmax_lem x p =
    not-xor (add (add (not (add x 1)) x) 1) (bit_not (add (not (add x 1)) x)) (omega arith)
      (omega arith)
    ∙ ground arith

-- `negate` is the negation modulo 2 ^ 32: adding x to it gives 0, and twice it gives x back.
pub negate_lem :
    (x : ℕ) → x < 2 ^ 32 → (add (negate x) x ≡ 0) × (negate (negate x) ≡ x) × (negate x < 2 ^ 32)
unfolding negate
negate_lem x p = (omega arith, omega arith, omega arith)

-- `isAsciiDigit` returns 1 for the patterns from 0x30 to 0x39, and 0 for every other word.
pub is_ascii_digit_lem :
    (x : ℕ) → x < 2 ^ 32 → is_ascii_digit x ≡ (if leb 0x30 x && leb x 0x39 then 1 else 0)
unfolding is_ascii_digit
is_ascii_digit_lem x p =
    or_bits (not (xor (sar x 3) 0x06)) (not (xor (sar x 1) 0x1c)) (ground arith) (ground arith)
    ∙ rw
        (
          not-xor (sar x 3) 0x06 (ground arith) (omega arith),
          not-xor (sar x 1) 0x1c (ground arith) (omega arith),
        )
        (ground arith)

-- `conditional` is `x ? y : z`.
pub conditional_lem :
    (x y z : ℕ) → y < 2 ^ 32 → z < 2 ^ 32 → conditional x y z ≡ (if x == 0 then z else y)
unfolding conditional
conditional_lem x y z p q = elim (Bool-cases (x == 0)) [
  | inl e ↦ rw (e, zero-and y, and_ones z q, zero-or z)
  | inr e ↦ rw (e, zero-and z, and_ones y p, bit_or-zero y)
]

-- `logicalNeg` is `!` on all words.
pub logical_neg_lem : (x : ℕ) → x < 2 ^ 32 → logical_neg x ≡ not x
unfolding logical_neg
logical_neg_lem x p =
    let s = sign-or x (add (bit_not x) 1) p (omega arith) in
    let b = or-lt x (add (bit_not x) 1) p (omega arith) in ground arith
