-- ===== src/Datalab.antt =====
-- datalab/bits.c: the puzzles on 32-bit words. An `int` or `unsigned` is its bit pattern, a number
-- below 2 ^ 32; the operators are those of C on such patterns, with `>>` arithmetic on `int`.
pub mod Words
pub mod Logic
pub mod OddBits
pub mod Compare
pub mod Puzzles
pub mod BitCount
pub mod Floats
pub mod Powers
pub mod FloatPuzzles
mod Tests
use csapp.Common.{
  ℕ, zero, suc, ◌+◌, ◌-◌, ◌*◌, ◌/◌, ◌%◌, ◌^◌, bit_and as and, bit_or as or, bit_xor as xor, Bool,
  true, false, ◌&&◌, ltb, leb, ◌==◌, if◌then◌else◌,
}

abbrev pub bit_not : ℕ → ℕ
bit_not x = 2 ^ 32 - 1 - x

abbrev pub add : ℕ → ℕ → ℕ
add x y = (x + y) % 2 ^ 32

abbrev pub shl : ℕ → ℕ → ℕ
shl x k = x * 2 ^ k % 2 ^ 32

-- `>>` of an `unsigned`.
abbrev pub shr : ℕ → ℕ → ℕ
shr x k = x / 2 ^ k

-- `>>` of an `int` copies the sign.
abbrev pub sar : ℕ → ℕ → ℕ
sar x k = if ltb x (2 ^ 31) then x / 2 ^ k else bit_not (bit_not x / 2 ^ k)

-- `!`
abbrev pub not : ℕ → ℕ
not x = if x == 0 then 1 else 0

-- `<` of two `int`s.
abbrev pub lt_int : ℕ → ℕ → Bool
lt_int x y = ltb (add x (2 ^ 31)) (add y (2 ^ 31))

abbrev pub leb_int : ℕ → ℕ → Bool
leb_int x y = leb (add x (2 ^ 31)) (add y (2 ^ 31))

pub bit_xor : ℕ → ℕ → ℕ
bit_xor x y = and (bit_not (and x y)) (bit_not (and (bit_not x) (bit_not y)))

pub tmin : ℕ
tmin = shl 1 31

pub is_tmax : ℕ → ℕ
is_tmax x = let new_x = add (not (add x 1)) x in not (xor (add new_x 1) (bit_not new_x))

pub all_odd_bits : ℕ → ℕ
all_odd_bits x =
    let tmp = or (shl (or (shl (or (shl 0xaa 8) 0xaa) 8) 0xaa) 8) 0xaa in not (xor (and tmp x) tmp)

pub negate : ℕ → ℕ
negate x = add (bit_not x) 1

pub is_ascii_digit : ℕ → ℕ
is_ascii_digit x = or (not (xor (sar x 3) 0x06)) (not (xor (sar x 1) 0x1c))

pub conditional : ℕ → ℕ → ℕ → ℕ
conditional x y z = let tmp = add (bit_not (not x)) 1 in or (and (bit_not tmp) y) (and tmp z)

pub is_less_or_equal : ℕ → ℕ → ℕ
is_less_or_equal x y =
    let sign_x = sar x 31 in
    let sign_y = sar y 31 in
    let cond_1 = and (xor sign_x sign_y) (and sign_x 1) in
    let cond_2 = and (not (xor sign_x sign_y)) (not (and (sar (add y (add (bit_not x) 1)) 31) 1)) in
    or cond_1 cond_2

pub logical_neg : ℕ → ℕ
logical_neg x = add (sar (or x (add (bit_not x) 1)) 31) 1

-- One halving of `howManyBits`: `m = !!(x >> k) << s` and the `x >> m` that follows.
abbrev pub half_width : ℕ → ℕ → ℕ → ℕ
half_width x k s = shl (not (not (sar x k))) s

pub how_many_bits : ℕ → ℕ
how_many_bits x₀ =
    let x = xor (sar x₀ 31) x₀ in
    let m16 = half_width x 16 4 in
    let x₁ = sar x m16 in
    let m8 = half_width x₁ 8 3 in
    let x₂ = sar x₁ m8 in
    let m4 = half_width x₂ 4 2 in
    let x₃ = sar x₂ m4 in
    let m2 = half_width x₃ 2 1 in
    let x₄ = sar x₃ m2 in
    let m1 = not (not (sar x₄ 1)) in
    let m0 = sar x₄ m1 in add (add (add (add (add (add m16 m8) m4) m2) m1) m0) 1

pub float_scale2 : ℕ → ℕ
float_scale2 uf =
    if not (xor (shr (shl uf 1) 24) 0xff) == 0
    then if not (xor (shr (shl uf 1) 24) 0) == 0
      then add uf 0x00800000
      else add (shl (shr uf 31) 31) (shl uf 1)
    else uf

-- The loop of `floatFloat2Int`, on the rounds left.
pub double_times : ℕ → ℕ → ℕ
double_times zero p = p
double_times (suc e) p = double_times e (p * 2 % 2 ^ 32)

-- `E` is the exponent field less the bias of 127, so the tests `E >= 31` and `E < 0` are tests of
-- the field.
pub float_float2int : ℕ → ℕ
unfolding double_times
float_float2int uf =
    let field = shr (shl uf 1) 24 in
    if leb (31 + 127) field
    then 0x80000000
    else if ltb field 127
    then 0
    else if shr uf 31 == 0
    then double_times (field - 127) 1
    else add (bit_not (double_times (field - 127) 1)) 1

-- The negative constants are the patterns below 2 ^ 32.
pub float_power2 : ℕ → ℕ
float_power2 x =
    if lt_int 127 x
    then 0x7f800000
    else if leb_int (2 ^ 32 - 126) x && leb_int x 127
    then shl (add x 127) 23
    else if leb_int (2 ^ 32 - 149) x && leb_int x (2 ^ 32 - 127)
    then shl 1 (add x 149)
    else 0
