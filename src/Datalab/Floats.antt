-- ===== src/Datalab/Floats.antt =====
-- floatScale2, floatFloat2Int and floatPower2 on the patterns of single-precision floats.
use csapp.Common.{
  ℕ, zero, suc, ◌+◌, ◌-◌, ◌*◌, ◌/◌, ◌%◌, ◌^◌, ◌<◌, ◌≡◌, sym, ◌∙◌, ap, ◌==◌, if◌then◌else◌, arith,
}
use mathlib.Core.Path.{subst}
use native.Mathlib.Nat.{pow-suc}
use native.Mathlib.Decide.{dec_lt, ℕ_discrete}
use csapp.Datalab.Words.{not-xor}
use csapp.Datalab.{add, shl, shr, float_scale2}

-- The three fields of a float.
abbrev pub sign : ℕ → ℕ
sign u = u / 2 ^ 31

abbrev pub field : ℕ → ℕ
field u = u / 2 ^ 23 % 2 ^ 8

abbrev pub fraction : ℕ → ℕ
fraction u = u % 2 ^ 23

-- The absolute value of a finite float, in units of 2 ^ -149.
abbrev pub units : ℕ → ℕ
units u = if field u == 0 then fraction u else (2 ^ 23 + fraction u) * 2 ^ (field u - 1)

pub field_lem : (u : ℕ) → u < 2 ^ 32 → shr (shl u 1) 24 ≡ field u
field_lem u p = omega arith

scale2_cases :
    (u : ℕ)
    → u < 2 ^ 32
    → float_scale2 u ≡ (
        if field u == 0xff
        then u
        else if field u == 0
        then add (shl (shr u 31) 31) (shl u 1)
        else add u 0x00800000)
unfolding float_scale2
scale2_cases u p =
    rw
      (
        field_lem u p,
        not-xor (field u) 0xff (omega arith) (omega arith),
        not-xor (field u) 0 (omega arith) (omega arith),
      )
      (ground arith)

abbrev Doubled : ℕ → ℕ → Type 0
Doubled u v = (sign v ≡ sign u) × (units v ≡ 2 * units u) × (field v < 255)

-- A float without a leading 1 is shifted, and may gain one.
double_denormal : (u : ℕ) → u < 2 ^ 32 → field u ≡ 0 → Doubled u (add (shl (shr u 31) 31) (shl u 1))
double_denormal u p e =
    let v : ℕ = add (shl (shr u 31) 31) (shl u 1) in
    (omega arith, rw e (by_field (ℕ_discrete (field v) 0)), omega arith)
  where
    v : ℕ
    v = add (shl (shr u 31) 31) (shl u 1)

    by_field : Dec (field v ≡ 0) → units v ≡ 2 * fraction u
    by_field (yes z) = rw z (omega arith)
    by_field (no z) = let o : field v ≡ 1 = omega arith in rw o (omega arith)

double_power : (f n : ℕ) → 0 < n → (2 ^ 23 + f) * 2 ^ (n + 1 - 1) ≡ 2 * ((2 ^ 23 + f) * 2 ^ (n - 1))
double_power f zero h = elim h [ ]
double_power f (suc n) h =
    let e : suc n + 1 - 1 ≡ suc n = omega arith in
    let g : suc n - 1 ≡ n = omega arith in rw (e, g, pow-suc 2 n) (grind arith)

-- Any other gets the next exponent.
double_normal : (u : ℕ) → u < 2 ^ 32 → 0 < field u → field u < 254 → Doubled u (add u 0x00800000)
double_normal u p h l =
    let a : field (add u 0x00800000) ≡ field u + 1 = omega arith in
    let b : fraction (add u 0x00800000) ≡ fraction u = omega arith in
    (
      omega arith,
      units_of (add u 0x00800000) (omega arith)
          ∙ (rw (a, b) (double_power (fraction u) (field u) h)
              ∙ ap (λ (t : ℕ). 2 * t) (sym (units_of u h))),
      omega arith,
    )
  where
    units_of : (w : ℕ) → 0 < field w → units w ≡ (2 ^ 23 + fraction w) * 2 ^ (field w - 1)
    units_of w q = ground arith

-- What `floatScale2` does to u, by its exponent field.
pub data Scaled (u r : ℕ) : Type 0 where
  special : field u ≡ 0xff → r ≡ u → Scaled u r
  doubled : field u < 254 → sign r ≡ sign u → units r ≡ 2 * units u → field r < 255 → Scaled u r
  overflowed :
      field u ≡ 254 → sign r ≡ sign u → field r ≡ 0xff → fraction r ≡ fraction u → Scaled u r

-- `floatScale2` returns infinities and NaN unchanged, and doubles every float below 2 ^ 127 with
-- its sign; a float of the largest finite exponent gets the exponent field 0xff and keeps its
-- fraction, so it becomes infinity only where the fraction is 0.
pub float_scale2_lem : (u : ℕ) → u < 2 ^ 32 → Scaled u (float_scale2 u)
float_scale2_lem u p =
    rw (scale2_cases u p) (choose (dec_lt (field u) 254) (ℕ_discrete (field u) 254))
  where
    result : ℕ
    result =
        if field u == 0xff
        then u
        else if field u == 0
        then add (shl (shr u 31) 31) (shl u 1)
        else add u 0x00800000

    below : Dec (field u ≡ 0) → field u < 254 → Doubled u result
    below (yes z) l =
        let e : result ≡ add (shl (shr u 31) 31) (shl u 1) = ground arith in
        subst (Doubled u) (sym e) (double_denormal u p z)
    below (no z) l =
        let e : result ≡ add u 0x00800000 = ground arith in
        subst (Doubled u) (sym e) (double_normal u p (omega arith) l)

    choose : Dec (field u < 254) → Dec (field u ≡ 254) → Scaled u result
    choose (yes l) d = let (a, b, c) = below (ℕ_discrete (field u) 0) l in doubled l a b c
    choose (no l) (yes e) = overflowed e (ground arith) (ground arith) (ground arith)
    choose (no l) (no n) = let f : field u ≡ 0xff = omega arith in special f (ground arith)
