-- ===== src/Datalab/Compare.antt =====
-- isLessOrEqual.
use csapp.Common.{
  ℕ, ◌-◌, ◌%◌, ◌^◌, ◌<◌, ◌≡◌, bit_and as and, bit_or as or, ltb, if◌then◌else◌, Bool-cases, inl,
  inr, arith,
}
use csapp.Datalab.Words.{zero-and, zero-or, and_one, one-and}
use csapp.Datalab.{bit_not, add, sar, not, leb_int, is_less_or_equal}

sign_word : (x : ℕ) → x < 2 ^ 32 → sar x 31 ≡ (if ltb x (2 ^ 31) then 0 else 2 ^ 32 - 1)
sign_word x p = ground arith

-- With equal signs the difference does not overflow, and its sign decides.
same_sign :
    (x y : ℕ)
    → x < 2 ^ 32
    → y < 2 ^ 32
    → ltb x (2 ^ 31) ≡ ltb y (2 ^ 31)
    → or 0 (and 1 (not (and (sar (add y (add (bit_not x) 1)) 31) 1)))
      ≡ (if leb_int x y then 1 else 0)
same_sign x y p q e =
    rw
      (
        zero-or (and 1 (not (and (sar (add y (add (bit_not x) 1)) 31) 1))),
        and_one (sar (add y (add (bit_not x) 1)) 31),
        one-and (not (sar (add y (add (bit_not x) 1)) 31 % 2)) (ground arith),
      )
      (ground arith)

-- `isLessOrEqual` returns 1 when x ≤ y as ints, and else 0, over- and underflow included.
pub is_less_or_equal_lem :
    (x y : ℕ) → x < 2 ^ 32 → y < 2 ^ 32 → is_less_or_equal x y ≡ (if leb_int x y then 1 else 0)
unfolding is_less_or_equal
is_less_or_equal_lem x y p q = elim (Bool-cases (ltb x (2 ^ 31))) [
  | inl e ↦ elim (Bool-cases (ltb y (2 ^ 31))) [
    | inl f ↦ rw (sign_word x p, sign_word y q, e, f) (same_sign x y p q (ground arith))
    | inr f ↦
        rw (sign_word x p, sign_word y q, e, f)
          (rw (zero-and (not (and (sar (add y (add (bit_not x) 1)) 31) 1))) (ground arith))
  ]
  | inr e ↦ elim (Bool-cases (ltb y (2 ^ 31))) [
    | inl f ↦
        rw (sign_word x p, sign_word y q, e, f)
          (rw (zero-and (not (and (sar (add y (add (bit_not x) 1)) 31) 1))) (ground arith))
    | inr f ↦ rw (sign_word x p, sign_word y q, e, f) (same_sign x y p q (ground arith))
  ]
]
