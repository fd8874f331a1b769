-- ===== src/Datalab/FloatPuzzles.antt =====
-- The float puzzles of datalab/bits.c together, on all words.
use csapp.Common.{ℕ, ◌^◌, ◌<◌}
use csapp.Datalab.{float_scale2, float_float2int, float_power2}
use csapp.Datalab.Floats.{Scaled, float_scale2_lem}
use csapp.Datalab.Powers.{Converted, Power2, float_float2int_lem, float_power2_lem}

-- The float puzzles on all words. `floatScale2` returns infinities and NaN unchanged and doubles every
-- float below 2 ^ 127 with its sign; a float of the largest finite exponent gets the exponent field
-- 0xff and keeps its fraction. `floatFloat2Int` gives 0x80000000 out of range and 0 below 1, and
-- otherwise the sign and the power of two of the exponent alone, without what the fraction adds.
-- `floatPower2` returns 2 ^ x for every int x, infinity above 127 and 0 below -149.
pub float_puzzles :
    (u : ℕ)
    → u < 2 ^ 32
    → Scaled u (float_scale2 u) × Converted u (float_float2int u) × Power2 u (float_power2 u)
float_puzzles u p = (float_scale2_lem u p, float_float2int_lem u p, float_power2_lem u p)
