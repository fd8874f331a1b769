-- ===== src/Datalab/OddBits.antt =====
-- allOddBits, bit by bit.
use csapp.Common.{
  ℕ, zero, suc, ◌+◌, ◌*◌, ◌/◌, ◌%◌, ◌^◌, ◌≤◌, ◌<◌, ◌≡◌, ◌↔◌, refl, sym, ◌∙◌, ap, ap₂,
  bit_and as and, ◌==◌, Bool-cases, inl, inr, arith,
}
use csapp.Datalab.Words.{not-xor, zero-and}
use csapp.Common.Bits.{bit_and_digit, bit_and-le}
use native.Mathlib.Nat.{pow-suc, div-div-eq-div-mul}
use csapp.Datalab.{all_odd_bits}

-- `k` copies of the bits 10.
abbrev odd_mask : ℕ → ℕ
odd_mask zero = 0
odd_mask (suc k) = 4 * odd_mask k + 2

abbrev pub HasOddBits : ℕ → ℕ → Type 0
HasOddBits k x = (i : ℕ) → i < k → x / 2 ^ (2 * i + 1) % 2 ≡ 1

odd_mask-and : (k x : ℕ) → and (odd_mask (suc k)) x ≡ 4 * and (odd_mask k) (x / 4) + 2 * (x / 2 % 2)
odd_mask-and k x =
    let e : (4 * odd_mask k + 2) / 2 / 2 ≡ odd_mask k = omega arith in
    let f : x / 2 / 2 ≡ x / 4 = omega arith in
    omega (
      arith,
      bit_and_digit (4 * odd_mask k + 2) x,
      bit_and_digit ((4 * odd_mask k + 2) / 2) (x / 2),
      ap₂ and e f,
    )

next_odd : (i x : ℕ) → x / 4 / 2 ^ (2 * i + 1) ≡ x / 2 ^ (2 * suc i + 1)
next_odd i x =
    let e : 2 * suc i + 1 ≡ suc (suc (2 * i + 1)) = omega arith in
    div-div-eq-div-mul x 4 (2 ^ (2 * i + 1))
    ∙ ap (λ (d : ℕ). x / d)
        (rw (e, pow-suc 2 (suc (2 * i + 1)), pow-suc 2 (2 * i + 1)) (omega arith))

odd_mask-and-le : (k x : ℕ) → and (odd_mask k) x ≤ odd_mask k
odd_mask-and-le zero x = omega (arith, zero-and x)
odd_mask-and-le (suc k) x = omega (arith, odd_mask-and k x, odd_mask-and-le k (x / 4))

first_odd :
    (k x : ℕ)
    → and (odd_mask (suc k)) x ≡ odd_mask (suc k)
    → (and (odd_mask k) (x / 4) ≡ odd_mask k → HasOddBits k (x / 4))
    → HasOddBits (suc k) x
first_odd k x e rest zero p = omega (arith, odd_mask-and k x, odd_mask-and-le k (x / 4), e)
first_odd k x e rest (suc i) p =
    ap (λ (d : ℕ). d % 2) (sym (next_odd i x))
    ∙ rest (omega (arith, odd_mask-and k x, odd_mask-and-le k (x / 4), e)) i (omega arith)

odd_mask_iff : (k x : ℕ) → (and (odd_mask k) x ≡ odd_mask k) ↔ HasOddBits k x
odd_mask_iff zero x = ((λ e i p. elim p [ ]), (λ h. zero-and x))
odd_mask_iff (suc k) x = (
  (λ e i p. first_odd k x e (λ f. (odd_mask_iff k (x / 4)).0 f) i p),
  (λ h. omega (
    arith,
    odd_mask-and k x,
    h 0 (omega arith),
    (odd_mask_iff k (x / 4)).1
        (λ i p. ap (λ (d : ℕ). d % 2) (next_odd i x) ∙ h (suc i) (omega arith)),
  )),
)

-- `allOddBits` returns 1 when each of the sixteen odd-numbered bits is set, and else 0.
pub all_odd_bits_iff :
    (x : ℕ)
    → x < 2 ^ 32
    → ((all_odd_bits x ≡ 1) ↔ HasOddBits 16 x) × ((all_odd_bits x ≡ 0) ↔ ¬ HasOddBits 16 x)
unfolding all_odd_bits
all_odd_bits_iff x p =
    let b : and 0xaaaa_aaaa x < 2 ^ 32 = omega (arith, bit_and-le 32 0xaaaa_aaaa x (omega arith)) in
    let e = not-xor (and 0xaaaa_aaaa x) 0xaaaa_aaaa b (omega arith) in
    let m = odd_mask_iff 16 x in
    elim (Bool-cases (and 0xaaaa_aaaa x == 0xaaaa_aaaa)) [
      | inl t ↦
          let yes_bits : HasOddBits 16 x = m.0 (ground arith) in
          rw (e, t)
            (
              ((λ f. yes_bits), (λ f. refl)),
              ((λ f. absurd (omega arith)), (λ f. absurd (f yes_bits))),
            )
      | inr t ↦
          let no_bits : ¬ HasOddBits 16 x = λ h. absurd (ground (arith, m.1 h)) in
          rw (e, t)
            (
              ((λ f. absurd (omega arith)), (λ h. absurd (no_bits h))),
              ((λ f. no_bits), (λ f. refl)),
            )
    ]
