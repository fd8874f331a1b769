-- ===== src/Datalab/Tests.antt =====
-- The puzzles of bits.c on single words, and the theorems at words below 2 ^ 32.
use csapp.Common.{
  ℕ, suc, ◌-◌, ◌≤◌, ◌<◌, ◌≡◌, ◌^◌, ◌↔◌, refl, bit_xor as xor, leb, ◌==◌, ◌&&◌, if◌then◌else◌, arith,
}
use csapp.Datalab.{
  add, not, leb_int, bit_xor, is_tmax, all_odd_bits, negate, is_ascii_digit, conditional,
  is_less_or_equal, logical_neg, how_many_bits, float_scale2, float_float2int, float_power2,
}
use csapp.Datalab.OddBits.{HasOddBits}
use csapp.Datalab.Puzzles.{integer_puzzles}
use csapp.Datalab.BitCount.{magnitude, how_many_bits_lem}
use csapp.Datalab.Floats.{Scaled}
use csapp.Datalab.Powers.{Converted, Power2}
use csapp.Datalab.FloatPuzzles.{float_puzzles}

integer_puzzles_example :
    (bit_xor 12 10 ≡ xor 12 10)
    × (is_tmax 12 ≡ (if 12 == 2 ^ 31 - 1 then 1 else 0))
    × ((all_odd_bits 12 ≡ 1) ↔ HasOddBits 16 12)
    × ((all_odd_bits 12 ≡ 0) ↔ ¬ HasOddBits 16 12)
    × (add (negate 12) 12 ≡ 0)
    × (negate (negate 12) ≡ 12)
    × (is_ascii_digit 12 ≡ (if leb 0x30 12 && leb 12 0x39 then 1 else 0))
    × (conditional 12 10 5 ≡ (if 12 == 0 then 5 else 10))
    × (is_less_or_equal 12 10 ≡ (if leb_int 12 10 then 1 else 0))
    × (logical_neg 12 ≡ not 12)
integer_puzzles_example = integer_puzzles 12 10 5 (omega arith) (omega arith) (omega arith)

how_many_bits_lem_example :
    (d : ℕ) × (how_many_bits 298 ≡ suc d)
    × (d < 32)
    × (magnitude 298 < 2 ^ d)
    × ((e : ℕ) → magnitude 298 < 2 ^ e → d ≤ e)
how_many_bits_lem_example = how_many_bits_lem 298 (omega arith)

-- 3.0
float_puzzles_example :
    Scaled 0x4040_0000 (float_scale2 0x4040_0000)
    × Converted 0x4040_0000 (float_float2int 0x4040_0000)
    × Power2 0x4040_0000 (float_power2 0x4040_0000)
float_puzzles_example = float_puzzles 0x4040_0000 (omega arith)

three_becomes_two : float_float2int 0x4040_0000 ≡ 2
unfolding float_float2int
three_becomes_two = refl
