-- ===== src/Datalab/BitCount.antt =====
-- howManyBits: the search for the first 1 halves the width five times.
use csapp.Common.{
  ℕ, zero, suc, ◌+◌, ◌-◌, ◌*◌, ◌/◌, ◌^◌, ◌≤◌, ◌<◌, ◌≡◌, refl, ◌∙◌, ap, bit_xor as xor, ltb, ◌==◌,
  if◌then◌else◌, Bool-cases, inl, inr, arith,
}
use native.Mathlib.Nat.{pow-suc, one-le-pow}
use native.Mathlib.Decide.{dec_lt}
use csapp.Datalab.Words.{zero-xor, ones-xor}
use csapp.Datalab.{bit_not, add, sar, not, half_width, how_many_bits}

pub pow-add : (k n : ℕ) → 2 ^ (k + n) ≡ 2 ^ k * 2 ^ n
pow-add zero n = let e : 0 + n ≡ n = omega arith in rw e (omega arith)
pow-add (suc k) n =
    let e : suc k + n ≡ suc (k + n) = omega arith in
    rw (e, pow-suc 2 (k + n), pow-suc 2 k, pow-add k n) (grind arith)

-- `n` is the number of binary digits of y.
abbrev IsLength : ℕ → ℕ → Type 0
IsLength zero y = y ≡ 0
IsLength (suc n) y = (2 ^ n ≤ y) × (y < 2 ^ suc n)

div_bounds : (y d s : ℕ) → 0 < d → (y / d < s → y < d * s) × (s ≤ y / d → d * s ≤ y)
div_bounds y d s h = ((λ p. grind arith), (λ p. grind arith))

div_lt : (y d s : ℕ) → y < d * s → y / d < s
div_lt y d s p = grind arith

-- The digits of `y >> k`, when it is not zero, are those of y but the k lowest.
IsLength-shift : (k n y : ℕ) → 1 ≤ y / 2 ^ k → IsLength n (y / 2 ^ k) → IsLength (k + n) y
IsLength-shift k zero y p q = absurd (omega arith)
IsLength-shift k (suc n) y p (q, r) =
    let e : k + suc n ≡ suc (k + n) = omega arith in
    let d : 0 < 2 ^ k = one-le-pow k 2 (omega arith) in
    rw e (
      rw (pow-add k n) ((div_bounds y (2 ^ k) (2 ^ n) d).1 q),
      rw (← e, pow-add k (suc n)) ((div_bounds y (2 ^ k) (2 ^ suc n) d).0 r),
    )

-- One halving on a value below 2 ^ 31: `m` is 0 or k, and the value left is below 2 ^ k if the
-- value was below its square.
record Halved (k y m : ℕ) : Type 0 where
  small : m < 32
  less : y < 2 ^ k * 2 ^ k → sar y m < 2 ^ k
  word : sar y m < 2 ^ 31
  counts : (n : ℕ) → IsLength n (sar y m) → IsLength (m + n) y

Halved-at :
    (k y m : ℕ) → 0 < k → k < 32 → y < 2 ^ 31 → m ≡ (if y / 2 ^ k == 0 then 0 else k) → Halved k y m
Halved-at k y m k0 k1 h e = elim (Bool-cases (y / 2 ^ k == 0)) [
  | inl z ↦
      let m0 : m ≡ 0 = ground arith in
      let same : sar y m ≡ y = rw m0 (ground arith) in
      let low : y < 2 ^ k * 1 =
        (div_bounds y (2 ^ k) 1 (one-le-pow k 2 (omega arith))).0 (ground arith) in
      record {
        small = omega arith;
        less = λ q. rw same (omega arith);
        word = rw same h;
        counts = λ n l. rw m0 (let e' : 0 + n ≡ n = omega arith in rw e' (rw same at l));
      }
  | inr z ↦
      let mk : m ≡ k = ground arith in
      let same : sar y m ≡ y / 2 ^ k = rw mk (ground arith) in
      record {
        small = omega arith;
        less = λ q. rw same (div_lt y (2 ^ k) (2 ^ k) q);
        word = rw same (omega arith);
        counts = λ n l. rw mk (IsLength-shift k n y (ground arith) (rw same at l));
      }
]

half_width_lem :
    (y k s : ℕ)
    → y < 2 ^ 31
    → k < 32
    → 2 ^ s ≡ k
    → half_width y k s ≡ (if y / 2 ^ k == 0 then 0 else k)
half_width_lem y k s h l e = rw e (ground arith)

-- x, or ~x for a negative x: it takes the same number of digits besides the sign.
abbrev pub magnitude : ℕ → ℕ
magnitude x = if ltb x (2 ^ 31) then x else bit_not x

magnitude_lem : (x : ℕ) → x < 2 ^ 32 → xor (sar x 31) x ≡ magnitude x
magnitude_lem x p = elim (Bool-cases (ltb x (2 ^ 31))) [
  | inl e ↦ let z : sar x 31 ≡ 0 = ground arith in rw (z, zero-xor x, e)
  | inr e ↦ let z : sar x 31 ≡ 2 ^ 32 - 1 = ground arith in rw (z, ones-xor x p, e)
]

-- The five halvings and the last digit, on a value below 2 ^ 31.
search : ℕ → ℕ
search x =
    let m16 = half_width x 16 4 in
    let x₁ = sar x m16 in
    let m8 = half_width x₁ 8 3 in
    let x₂ = sar x₁ m8 in
    let m4 = half_width x₂ 4 2 in
    let x₃ = sar x₂ m4 in
    let m2 = half_width x₃ 2 1 in
    let x₄ = sar x₃ m2 in
    let m1 = not (not (sar x₄ 1)) in
    let m0 = sar x₄ m1 in add (add (add (add (add (add m16 m8) m4) m2) m1) m0) 1

last_digit : (y : ℕ) → y < 2 → IsLength y y
last_digit zero h = refl
last_digit (suc zero) h = omega arith
last_digit (suc (suc y)) h = absurd (omega arith)

pub pow_mono : (a b : ℕ) → a ≤ b → 2 ^ a ≤ 2 ^ b
pow_mono a b h =
    let e : a + (b - a) ≡ b = omega arith in
    rw (← e, pow-add a (b - a)) (grind (arith, one-le-pow (b - a) 2))

length_small : (d y : ℕ) → y < 2 ^ 31 → IsLength d y → d < 32
length_small zero y h l = omega arith
length_small (suc n) y h (l, m) = elim (dec_lt n 31) [
  | yes q ↦ omega arith
  | no q ↦ absurd (omega (arith, pow_mono 31 n (omega arith)))
]

add_all :
    (a b c d e f : ℕ)
    → a < 32
    → b < 32
    → c < 32
    → d < 32
    → e < 32
    → f < 2
    → add (add (add (add (add (add a b) c) d) e) f) 1 ≡ suc (a + (b + (c + (d + (e + f)))))
add_all a b c d e f p q r s t u = omega arith

search_lem : (y : ℕ) → y < 2 ^ 31 → (d : ℕ) × (search y ≡ suc d) × (d < 32) × IsLength d y
unfolding search
search_lem y h =
    let m16 : ℕ = half_width y 16 4 in
    let a =
      Halved-at 16 y m16 (omega arith) (omega arith) h
        (half_width_lem y 16 4 h (omega arith) refl) in
    let y₁ : ℕ = sar y m16 in
    let m8 : ℕ = half_width y₁ 8 3 in
    let b =
      Halved-at 8 y₁ m8 (omega arith) (omega arith) a.word
        (half_width_lem y₁ 8 3 a.word (omega arith) refl) in
    let y₂ : ℕ = sar y₁ m8 in
    let m4 : ℕ = half_width y₂ 4 2 in
    let c =
      Halved-at 4 y₂ m4 (omega arith) (omega arith) b.word
        (half_width_lem y₂ 4 2 b.word (omega arith) refl) in
    let y₃ : ℕ = sar y₂ m4 in
    let m2 : ℕ = half_width y₃ 2 1 in
    let d =
      Halved-at 2 y₃ m2 (omega arith) (omega arith) c.word
        (half_width_lem y₃ 2 1 c.word (omega arith) refl) in
    let y₄ : ℕ = sar y₃ m2 in
    let m1 : ℕ = not (not (sar y₄ 1)) in
    let e = Halved-at 1 y₄ m1 (omega arith) (omega arith) d.word (last_width y₄ d.word) in
    let m0 : ℕ = sar y₄ m1 in
    let m0_bit : m0 < 2 = e.less (d.less (c.less (b.less (a.less (omega arith))))) in
    let l = a.counts (m8 + (m4 + (m2 + (m1 + m0)))) (
      b.counts (m4 + (m2 + (m1 + m0)))
        (c.counts (m2 + (m1 + m0)) (d.counts (m1 + m0) (e.counts m0 (last_digit m0 m0_bit))))) in
    (
      m16 + (m8 + (m4 + (m2 + (m1 + m0)))),
      add_all m16 m8 m4 m2 m1 m0 a.small b.small c.small d.small e.small m0_bit,
      length_small (m16 + (m8 + (m4 + (m2 + (m1 + m0))))) y h l,
      l,
    )
  where
    last_width : (y : ℕ) → y < 2 ^ 31 → not (not (sar y 1)) ≡ (if y / 2 ^ 1 == 0 then 0 else 1)
    last_width y h = ground arith

length_lt : (d y : ℕ) → IsLength d y → y < 2 ^ d
length_lt zero y e = omega arith
length_lt (suc d) y l = l.1

length_least : (d f y : ℕ) → IsLength d y → y < 2 ^ f → d ≤ f
length_least zero f y l q = omega arith
length_least (suc d) f y (l, m) q = elim (dec_lt d f) [
  | yes t ↦ t
  | no t ↦ absurd (omega (arith, pow_mono f d (omega arith)))
]

-- `howManyBits` returns the least width, from 1 to 32, of a two's complement that holds x: one more
-- than the digits of x, or of ~x when x is negative.
pub how_many_bits_lem :
    (x : ℕ)
    → x < 2 ^ 32
    → (d : ℕ) × (how_many_bits x ≡ suc d)
      × (d < 32)
      × (magnitude x < 2 ^ d)
      × ((e : ℕ) → magnitude x < 2 ^ e → d ≤ e)
unfolding how_many_bits search
how_many_bits_lem x p =
    let (d, e, s, l) = search_lem (magnitude x) (ground arith) in
    (
      d,
      ap search (magnitude_lem x p) ∙ e,
      s,
      length_lt d (magnitude x) l,
      λ f q. length_least d f (magnitude x) l q,
    )
