-- ===== src/Trans/Fill.antt =====
-- What a loop of the transposes does to B, and the rule that carries it through a counted loop.
use csapp.Common.{
  ℕ, zero, suc, ◌+◌, ◌*◌, ◌≤◌, ◌<◌, ◌≡◌, ◌⊎◌, refl, sym, ◌∙◌, inl, inr, false, Option, some, ltb,
  arith, Bool-cases,
}
use mathlib.Core.Path.{subst}
use csapp.Common.Loop.{for_loop}
use csapp.Trans.{Matrix}

ltb-false : (a b : ℕ) → b ≤ a → ltb a b ≡ false
ltb-false a b h = ground arith

module _ (M N : ℕ) (A : Matrix) where
  -- From B to B': right entries stay right, those of `R` become right, and nothing outside the
  -- bounds changes.
  pub record Fills (R : ℕ → ℕ → Type 0) (B B' : Matrix) : Type 0 where
    pub keeps : (j i : ℕ) → B j i ≡ A i j → B' j i ≡ A i j
    pub fills : (j i : ℕ) → R j i → B' j i ≡ A i j
    pub frame : (j i : ℕ) → (M ≤ j) ⊎ (N ≤ i) → B' j i ≡ B j i

  -- The body returns, and fills `R`.
  abbrev pub Runs : (ℕ → ℕ → Type 0) → (Matrix → Option Matrix) → Type 0
  Runs R body = (B : Matrix) → (B' : Matrix) × (body B ≡ some B') × Fills R B B'

  -- The entries that one of the rounds from `i` on fills.
  abbrev pub Rounds : (ℕ → ℕ → ℕ → Type 0) → ℕ → ℕ → ℕ → ℕ → ℕ → Type 0
  Rounds R i stop step a b = (n : ℕ) × (i + n * step < stop) × R (i + n * step) a b

  pub Fills-widen :
      {R S : ℕ → ℕ → Type 0} {B B' : Matrix}
      → ((j i : ℕ) → S j i → R j i)
      → Fills R B B'
      → Fills S B B'
  Fills-widen f h = record {
    keeps = h.keeps;
    fills = λ j i s. h.fills j i (f j i s);
    frame = h.frame;
  }

  Rounds-split :
      (R : ℕ → ℕ → ℕ → Type 0) (i stop step : ℕ) {B B₁ B₂ : Matrix}
      → Fills (R i) B B₁
      → Fills (Rounds R (i + step) stop step) B₁ B₂
      → (j k n : ℕ) → i + n * step < stop
      → R (i + n * step) j k
      → B₂ j k ≡ A k j
  Rounds-split R i stop step f₁ f₂ j k zero q r =
      let e : i + 0 * step ≡ i = omega arith in
      f₂.keeps j k (f₁.fills j k (subst (λ a. R a j k) e r))
  Rounds-split R i stop step f₁ f₂ j k (suc n) q r =
      let e : i + suc n * step ≡ i + step + n * step = grind arith in
      f₂.fills j k (n, rw (← e) q, subst (λ a. R a j k) e r)

  -- A loop whose every round runs fills what its rounds fill. `stop - i` rounds are enough fuel.
  pub for_loop-Runs :
      (R : ℕ → ℕ → ℕ → Type 0) (body : ℕ → Matrix → Option Matrix) (fuel i stop step : ℕ)
      → 0 < step
      → stop ≤ i + fuel
      → ((n : ℕ) → i + n * step < stop → Runs (R (i + n * step)) (body (i + n * step)))
      → Runs (Rounds R i stop step) (for_loop fuel i stop step body)
  unfolding for_loop
  for_loop-Runs R body zero i stop step p h runs B = (
    B,
    rw (ltb-false i stop (omega arith)),
    record {
      keeps = λ j k e. e;
      fills = λ j k (n, q, r). absurd (omega arith);
      frame = λ j k o. refl;
    },
  )
  for_loop-Runs R body (suc fuel) i stop step p h runs B = elim (Bool-cases (ltb i stop)) [
    | inr stopped ↦ (
      B,
      rw stopped,
      record {
        keeps = λ j k e. e;
        fills = λ j k (n, q, r). absurd (ground arith);
        frame = λ j k o. refl;
      },
    )
    | inl more ↦
        let now : i + 0 * step ≡ i = omega arith in
        let first : Runs (R i) (body i) =
          subst (λ k. Runs (R k) (body k)) now (runs 0 (ground arith)) in
        let later : (n : ℕ) → i + step + n * step ≡ i + suc n * step = λ n. grind arith in
        let (B₁, e₁, f₁) = first B in
        let (B₂, e₂, f₂) =
          for_loop-Runs R body fuel (i + step) stop step p (omega arith)
            (λ n q.
              subst (λ k. Runs (R k) (body k)) (sym (later n)) (runs (suc n) (rw (← later n) q)))
            B₁ in
        (
          B₂,
          rw (more, e₁) e₂,
          record {
            keeps = λ j k e. f₂.keeps j k (f₁.keeps j k e);
            fills = λ j k (n, q, r). Rounds-split R i stop step f₁ f₂ j k n q r;
            frame = λ j k o. f₂.frame j k o ∙ f₁.frame j k o;
          },
        )
  ]
