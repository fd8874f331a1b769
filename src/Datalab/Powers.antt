-- ===== src/Datalab/Powers.antt =====
-- Floats and powers of two: `floatFloat2Int` and `floatPower2` of datalab/bits.c.
use csapp.Common.{
  ℕ, zero, suc, ◌+◌, ◌-◌, ◌*◌, ◌/◌, ◌%◌, ◌^◌, ◌≤◌, ◌<◌, ◌≡◌, ◌⊎◌, refl, sym, ◌∙◌, ap, ltb, leb,
  ◌==◌, ◌&&◌, if◌then◌else◌, true, false, Bool-cases, inl, inr, arith,
}
use mathlib.Core.Path.{subst}
use native.Mathlib.Nat.{pow-suc, one-le-pow}
use native.Mathlib.Decide.{dec_lt}
use csapp.Datalab.BitCount.{pow-add, pow_mono}
use csapp.Datalab.{
  bit_not, add, shl, shr, lt_int, leb_int, double_times, float_float2int, float_power2,
}
use csapp.Datalab.Floats.{sign, field, fraction, units, field_lem}

double_times_lem : (e f p : ℕ) → p ≡ 2 ^ f → e + f < 32 → double_times e p ≡ 2 ^ (e + f)
unfolding double_times
double_times_lem zero f p h l = h ∙ ap (λ (t : ℕ). 2 ^ t) (omega arith)
double_times_lem (suc e) f p h l =
    let d : suc e + f ≡ e + suc f = omega arith in
    let b : 2 ^ f ≤ 2 ^ 30 = pow_mono f 30 (omega arith) in
    rw d (double_times_lem e (suc f) (p * 2 % 2 ^ 32) (omega (arith, pow-suc 2 f)) (omega arith))

-- What `floatFloat2Int` makes of u, by its exponent field.
pub data Converted (u r : ℕ) : Type 0 where
  out_of_range : 158 ≤ field u → r ≡ 0x80000000 → Converted u r
  below_one : field u < 127 → r ≡ 0 → Converted u r
  power :
      (e : ℕ)
      → field u ≡ e + 127
      → e < 31
      → r ≡ (if sign u == 0 then 2 ^ e else 2 ^ 32 - 2 ^ e)
      → (2 ^ 23 + fraction u) * 2 ^ e / 2 ^ 23 ≡ 2 ^ e + fraction u * 2 ^ e / 2 ^ 23
      → Converted u r

-- `floatFloat2Int` by cases of the exponent field: out of range gives 0x80000000 and a value below
-- 1 gives 0; otherwise the result is the sign and the power of two of the exponent alone. The
-- truncation of the float is that power plus what the fraction contributes, so the result is
-- right exactly where the fraction contributes nothing.
pub float_float2int_lem : (u : ℕ) → u < 2 ^ 32 → Converted u (float_float2int u)
unfolding float_float2int
float_float2int_lem u p = rw (field_lem u p) (choose (dec_lt (field u) 127) (dec_lt (field u) 158))
  where
    truncation : (f t : ℕ) → (2 ^ 23 + f) * t / 2 ^ 23 ≡ t + f * t / 2 ^ 23
    truncation f t = omega arith

    in_range :
        127 ≤ field u
        → field u < 158
        → (if leb (31 + 127) (field u)
            then 0x80000000
            else if ltb (field u) 127
            then 0
            else if shr u 31 == 0
            then double_times (field u - 127) 1
            else add (bit_not (double_times (field u - 127) 1)) 1)
          ≡ (if sign u == 0 then 2 ^ (field u - 127) else 2 ^ 32 - 2 ^ (field u - 127))
    in_range h l =
        let e : double_times (field u - 127) 1 ≡ 2 ^ (field u - 127) =
          double_times_lem (field u - 127) 0 1 refl (omega arith)
          ∙ ap (λ (t : ℕ). 2 ^ t) (omega arith) in
        let b : 2 ^ (field u - 127) ≤ 2 ^ 30 = pow_mono (field u - 127) 30 (omega arith) in
        let c : 1 ≤ 2 ^ (field u - 127) = one-le-pow (field u - 127) 2 (omega arith) in
        rw e (ground arith)

    choose :
        Dec (field u < 127)
        → Dec (field u < 158)
        → Converted u (
            if leb (31 + 127) (field u)
            then 0x80000000
            else if ltb (field u) 127
            then 0
            else if shr u 31 == 0
            then double_times (field u - 127) 1
            else add (bit_not (double_times (field u - 127) 1)) 1)
    choose (yes l) d = below_one l (ground arith)
    choose (no l) (no g) = out_of_range (omega arith) (ground arith)
    choose (no l) (yes g) =
        power (field u - 127) (omega arith) (omega arith) (in_range (omega arith) g)
          (truncation (fraction u) (2 ^ (field u - 127)))

abbrev IsPower : ℕ → ℕ → Type 0
IsPower n v = (sign v ≡ 0) × (field v < 255) × (units v ≡ 2 ^ n)

IsPower-denormal : (n : ℕ) → n < 23 → IsPower n (shl 1 n)
IsPower-denormal n h =
    let b : 2 ^ n ≤ 2 ^ 22 = pow_mono n 22 (omega arith) in
    let z : field (shl 1 n) ≡ 0 = omega arith in (omega arith, omega arith, rw z (omega arith))

IsPower-normal : (n w : ℕ) → 23 ≤ n → n < 277 → w + 22 ≡ n → IsPower n (shl w 23)
IsPower-normal n w h l e =
    let z : field (shl w 23) ≡ w = omega arith in
    let f : fraction (shl w 23) ≡ 0 = omega arith in
    let d : n ≡ 23 + (w - 1) = omega arith in
    (omega arith, omega arith, ground (arith, ap (λ (t : ℕ). 2 ^ t) d, pow-add 23 (w - 1), z, f))

-- The float for 2 ^ x, by the range of the int x.
pub data Power2 (x r : ℕ) : Type 0 where
  infinite : lt_int 127 x ≡ true → r ≡ 0x7f800000 → Power2 x r
  too_small : lt_int x (2 ^ 32 - 149) ≡ true → r ≡ 0 → Power2 x r
  exact :
      leb_int (2 ^ 32 - 149) x ≡ true
      → leb_int x 127 ≡ true
      → sign r ≡ 0
      → field r < 255
      → units r ≡ 2 ^ add x 149
      → Power2 x r

-- `floatPower2` returns 2 ^ x for every int x: infinity above 127, 0 below -149, and between them
-- the positive float whose value is 2 ^ (x + 149) units.
pub float_power2_lem : (x : ℕ) → x < 2 ^ 32 → Power2 x (float_power2 x)
unfolding float_power2
float_power2_lem x p = choose (Bool-cases (lt_int 127 x)) (Bool-cases (lt_int x (2 ^ 32 - 149)))
  where
    result : ℕ
    result =
        if lt_int 127 x
        then 0x7f800000
        else if leb_int (2 ^ 32 - 126) x && leb_int x 127
        then shl (add x 127) 23
        else if leb_int (2 ^ 32 - 149) x && leb_int x (2 ^ 32 - 127)
        then shl 1 (add x 149)
        else 0

    between :
        leb_int (2 ^ 32 - 149) x ≡ true
        → leb_int x 127 ≡ true
        → Dec (add x 149 < 23)
        → IsPower (add x 149) result
    between h l (yes q) =
        let e : result ≡ shl 1 (add x 149) = ground arith in
        subst (IsPower (add x 149)) (sym e) (IsPower-denormal (add x 149) q)
    between h l (no q) =
        let e : result ≡ shl (add x 127) 23 = ground arith in
        subst (IsPower (add x 149)) (sym e)
          (IsPower-normal (add x 149) (add x 127) (ground arith) (ground arith) (ground arith))

    choose :
        (lt_int 127 x ≡ true) ⊎ (lt_int 127 x ≡ false)
        → (lt_int x (2 ^ 32 - 149) ≡ true) ⊎ (lt_int x (2 ^ 32 - 149) ≡ false)
        → Power2 x result
    choose (inl e) d = infinite e (ground arith)
    choose (inr e) (inl f) = too_small f (ground arith)
    choose (inr e) (inr f) =
        let h : leb_int (2 ^ 32 - 149) x ≡ true = ground arith in
        let l : leb_int x 127 ≡ true = ground arith in
        let (a, b, c) = between h l (dec_lt (add x 149) 23) in exact h l a b c
