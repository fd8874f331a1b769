-- ===== src/Datalab/Words.antt =====
-- The operators on words at variables.
use csapp.Common.{
  ℕ, zero, suc, ◌-◌, ◌/◌, ◌%◌, ◌^◌, ◌<◌, ◌≡◌, refl, ◌∙◌, ap₂, bit_and as and, bit_or as or,
  bit_xor as xor, min, max, ◌==◌, if◌then◌else◌, arith,
}
use Prim.Native.Nat.{bit_and-bitwise, bit_or-bitwise, bit_xor-bitwise}
use native.Mathlib.Nat.{pow-suc}
use csapp.Common.Bits.{
  bit_and_digit, bit_xor_digit, bit_and_mask, bit_and-le, bit_and_comm, bit_or-div, bit_xor_ones,
  bit_xor_comm, bit_xor-eq-zero, bit_xor_self, bit_or-lt,
}
use csapp.Datalab.{bit_not, not}

half_not : (w a b : ℕ) → a < 2 ^ suc w → a / 2 ≡ b → (2 ^ suc w - 1 - a) / 2 ≡ 2 ^ w - 1 - b
half_not w a b p e = omega (arith, pow-suc 2 w)

digit_not : (w a : ℕ) → a < 2 ^ suc w → (2 ^ suc w - 1 - a) % 2 ≡ 1 - a % 2
digit_not w a p = omega (arith, pow-suc 2 w)

half_and : (a b c d : ℕ) → a / 2 ≡ c → b / 2 ≡ d → and a b / 2 ≡ and c d
half_and a b c d e f = rw (← e, ← f) (omega (arith, bit_and_digit a b))

digit_and : (a b : ℕ) → and a b % 2 ≡ min (a % 2) (b % 2)
digit_and a b = omega (arith, bit_and_digit a b)

-- `&` of complements, digit by digit: the complement is taken at each width.
xor_of_ands :
    (w x y : ℕ)
    → x < 2 ^ w
    → y < 2 ^ w
    → and (2 ^ w - 1 - and x y) (2 ^ w - 1 - and (2 ^ w - 1 - x) (2 ^ w - 1 - y)) ≡ xor x y
xor_of_ands zero x y p q = let e : x ≡ 0 = omega arith in let f : y ≡ 0 = omega arith in rw (e, f)
xor_of_ands (suc w) x y p q =
    let b : and x y < 2 ^ suc w = omega (arith, bit_and-le (suc w) x y p) in
    let nx : ℕ = 2 ^ suc w - 1 - x in
    let ny : ℕ = 2 ^ suc w - 1 - y in
    let c : and nx ny < 2 ^ suc w = omega (arith, bit_and-le (suc w) nx ny (omega arith)) in
    omega (
      arith,
      bit_and_digit (2 ^ suc w - 1 - and x y) (2 ^ suc w - 1 - and nx ny),
      ap₂ and
          (half_not w (and x y) (and (x / 2) (y / 2)) b (half_and x y (x / 2) (y / 2) refl refl))
          (half_not w (and nx ny) (and (2 ^ w - 1 - x / 2) (2 ^ w - 1 - y / 2)) c (
            half_and nx ny (2 ^ w - 1 - x / 2) (2 ^ w - 1 - y / 2) (half_not w x (x / 2) p refl)
              (half_not w y (y / 2) q refl))),
      xor_of_ands w (x / 2) (y / 2) (omega (arith, pow-suc 2 w)) (omega (arith, pow-suc 2 w)),
      digit_not w (and x y) b,
      digit_not w (and nx ny) c,
      digit_and x y,
      digit_and nx ny,
      digit_not w x p,
      digit_not w y q,
      bit_xor_digit x y,
    )

pub xor_of_ands_32 :
    (x y : ℕ)
    → x < 2 ^ 32
    → y < 2 ^ 32
    → and (bit_not (and x y)) (bit_not (and (bit_not x) (bit_not y))) ≡ xor x y
xor_of_ands_32 x y p q = xor_of_ands 32 x y p q

-- `!(x ^ y)` tests that x and y are equal.
pub not-xor : (x y : ℕ) → x < 2 ^ 32 → y < 2 ^ 32 → not (xor x y) ≡ (if x == y then 1 else 0)
not-xor x y p q = ground (arith, bit_xor-eq-zero 32 x y p q, bit_xor_self 32 x p)

pub and_ones : (x : ℕ) → x < 2 ^ 32 → and (2 ^ 32 - 1) x ≡ x
and_ones x p = bit_and_comm 32 (2 ^ 32 - 1) x (omega arith) p ∙ (bit_and_mask 32 x ∙ omega arith)

pub zero-and : (x : ℕ) → and 0 x ≡ 0
zero-and x = bit_and-bitwise 0 x

pub zero-or : (x : ℕ) → or 0 x ≡ x
zero-or x = bit_or-bitwise 0 x

pub and_one : (x : ℕ) → and x 1 ≡ x % 2
and_one x = bit_and_mask 1 x

-- `^` with the copies of a sign bit.
pub zero-xor : (x : ℕ) → xor 0 x ≡ x
zero-xor x = bit_xor-bitwise 0 x

pub ones-xor : (x : ℕ) → x < 2 ^ 32 → xor (2 ^ 32 - 1) x ≡ bit_not x
ones-xor x p = bit_xor_comm 32 (2 ^ 32 - 1) x (omega arith) p ∙ bit_xor_ones 32 x p

-- `!` of two tests and `|` of them.
pub or_bits : (a b : ℕ) → a < 2 → b < 2 → or a b ≡ max a b
or_bits zero b h k = omega (arith, zero-or b)
or_bits (suc zero) zero h k = refl
or_bits (suc zero) (suc zero) h k = refl
or_bits (suc zero) (suc (suc b)) h k = absurd (omega arith)
or_bits (suc (suc a)) b h k = absurd (omega arith)

-- The sign bit of `|`.
pub sign-or : (x y : ℕ) → x < 2 ^ 32 → y < 2 ^ 32 → or x y / 2 ^ 31 ≡ max (x / 2 ^ 31) (y / 2 ^ 31)
sign-or x y p q = bit_or-div 31 x y ∙ or_bits (x / 2 ^ 31) (y / 2 ^ 31) (omega arith) (omega arith)

pub or-lt : (x y : ℕ) → x < 2 ^ 32 → y < 2 ^ 32 → or x y < 2 ^ 32
or-lt x y p q = bit_or-lt 32 x y p q

pub one-and : (b : ℕ) → b < 2 → and 1 b ≡ b
one-and b h = bit_and_comm 1 1 b (omega arith) h ∙ (and_one b ∙ omega arith)
