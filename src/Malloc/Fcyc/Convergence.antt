-- ===== src/Malloc/Fcyc/Convergence.antt =====
-- The loop of `fcyc` in malloclab/fcyc.c: where it ends, and what it returns.
use mathlib.Core.Path.{subst}
use mathlib.Core.Option.{some-injective}
use csapp.Common.{
  ℕ, zero, suc, ◌+◌, ◌-◌, ◌≤◌, ◌<◌, ◌≡◌, ◌⊎◌, refl, sym, ap, ◌∙◌, inl, inr, Bool, true, false,
  Bool-cases, some, List, [], ◌∷◌, ltb, leb, get_elem?, get_elem?-some, length, arith,
}
use csapp.Malloc.Fcyc.{Sampler, init_sampler, add_sample, has_converged, sample, fcyc}
use csapp.Malloc.Fcyc.Best.{insert}
use csapp.Malloc.Fcyc.Sampling.{
  sorted, length-sorted, Best, init_sampler-Best, add_sample-Best, get_elem?-Best,
}

-- The first of a list after an insertion.
first-insert :
    (v r : ℕ) (xs : List ℕ)
    → get_elem? (insert v xs) 0 ≡ some r
    → ((v ≡ r) ⊎ (get_elem? xs 0 ≡ some r)) × (r ≤ v) × ((x : ℕ) → get_elem? xs 0 ≡ some x → r ≤ x)
first-insert v r [] e = let f = some-injective v r e in (inl f, (omega arith), (λ x k. cc))
first-insert v r (x ∷ xs) e = elim (Bool-cases (ltb v x)) [
  | inl f ↦
      let g : v ≡ r = some-injective v r (rw f at e) in
      (inl g, omega arith, (λ y k. let j = some-injective x y k in ground arith))
  | inr f ↦
      let g : x ≡ r = some-injective x r (rw f at e) in
      (inr (ap some g), (ground arith), (λ y k. let j = some-injective x y k in omega arith))
]

module _ (kbest : ℕ) (within : ℕ → ℕ → Bool) where
  -- There are kbest samples, and the smallest and the kbest-th are close.
  pub Converged : List ℕ → Type 0
  Converged vs =
      (kbest ≤ length vs)
      × (a : ℕ) × (b : ℕ) × (get_elem? (sorted vs) 0 ≡ some a)
      × (get_elem? (sorted vs) (kbest - 1) ≡ some b)
      × (within a b ≡ true)

  pub has_converged_lem :
      (vs : List ℕ) (s : Sampler)
      → 0 < kbest
      → Best kbest vs s
      → (c : Bool) × (has_converged kbest within s ≡ some c)
        × ((c ≡ true) → Converged vs)
        × (Converged vs → c ≡ true)
  unfolding has_converged Converged
  has_converged_lem vs s p h = elim (Bool-cases (leb kbest (length vs))) [
    | inr e ↦ (false, rw (h.count, e) refl, (λ f. cc), (λ c. let l = c.0 in absurd (ground arith)))
    | inl e ↦
        let many : kbest ≤ length vs = ground arith in
        let n = length-sorted vs in
        let (a, x) = get_elem?-some (sorted vs) 0 (omega arith) in
        let (b, y) = get_elem?-some (sorted vs) (kbest - 1) (omega arith) in
        (
          within a b,
          rw
              (
                h.count,
                e,
                get_elem?-Best kbest vs s 0 h p (omega arith),
                get_elem?-Best kbest vs s (kbest - 1) h (omega arith) (omega arith),
                x,
                y,
              )
              refl,
          (λ f. (many, a, b, x, y, f)),
          (λ (m, a', b', x', y', f').
              rw (some-injective a a' (sym x ∙ x'), some-injective b b' (sym y ∙ y')) f'),
        )
  ]

  module _ (maxsamples : ℕ) (measure : ℕ → ℕ) where
    -- The times of the first n runs, the newest first.
    abbrev pub times : ℕ → List ℕ
    times zero = []
    times (suc n) = measure n ∷ times n

    length-times : (n : ℕ) → length (times n) ≡ n
    length-times zero = refl
    length-times (suc n) = ap suc (length-times n)

    -- r is the smallest of the first n times.
    pub Least : ℕ → ℕ → Type 0
    Least n r = ((i : ℕ) × (i < n) × (measure i ≡ r)) × ((i : ℕ) → i < n → r ≤ measure i)

    sorted-Least : (n r : ℕ) → get_elem? (sorted (times n)) 0 ≡ some r → Least n r
    unfolding Least
    sorted-Least zero r e = cc
    sorted-Least (suc zero) r e =
        let f : measure 0 ≡ r = some-injective (measure 0) r e in
        ((0, (ground arith), f), (λ i h. let z : i ≡ 0 = omega arith in rw z (omega arith)))
    sorted-Least (suc (suc n)) r e =
        let vs = sorted (times (suc n)) in
        let (x, f) =
          get_elem?-some vs 0
            (omega (arith, length-sorted (times (suc n)), length-times (suc n))) in
        let ((j, l, at), below) = sorted-Least (suc n) x f in
        let (which, small, smaller) = first-insert (measure (suc n)) r vs e in
        (
          elim which [
            | inl g ↦ (suc n, (omega arith), g)
            | inr g ↦ (j, (omega arith), at ∙ some-injective x r (sym f ∙ g))
          ],
          (λ i h. elim (Bool-cases (ltb i (suc n))) [
            | inl g ↦ let lower = below i (ground arith) in let lowest = smaller x f in omega arith
            | inr g ↦ let last : i ≡ suc n = ground arith in rw last small
          ]),
        )

    -- After n runs the loop ends.
    pub Enough : ℕ → Type 0
    Enough n = (maxsamples ≤ n) ⊎ Converged (times n)

    -- Run n is the first after k that is enough, and the array then holds the samples.
    record Ended (k rounds : ℕ) (s : Sampler) : Type 0 where
      runs : ℕ
      after : Sampler
      run : sample kbest within maxsamples measure rounds s ≡ some after
      best : Best kbest (times runs) after
      later : k < runs
      enough : Enough runs
      not_before : (m : ℕ) → k < m → m < runs → ¬ Enough m

    sample-Ended :
        (rounds k : ℕ) (s : Sampler)
        → 0 < kbest
        → 0 < rounds
        → maxsamples ≤ k + rounds
        → Best kbest (times k) s
        → Ended k rounds s
    unfolding sample Enough
    sample-Ended zero k s p h f b = absurd (omega arith)
    sample-Ended (suc rounds) k s p h f b =
        let count : s.samplecount ≡ k = b.count ∙ length-times k in
        let (s', added, b') = add_sample-Best kbest (measure k) (times k) s p b in
        let step : add_sample kbest (measure s.samplecount) s ≡ some s' =
          subst (λ i. add_sample kbest (measure i) s ≡ some s') (sym count) added in
        let count' : s'.samplecount ≡ suc k = b'.count ∙ length-times (suc k) in
        let (c, tested, right, needed) = has_converged_lem (times (suc k)) s' p b' in
        elim (Bool-cases c) [
          | inl e ↦ record {
            runs = suc k;
            after = s';
            run = rw (step, tested, e) refl;
            best = b';
            later = omega arith;
            enough = inr (right e);
            not_before = λ m l u. absurd (omega arith);
          }
          | inr e ↦ elim (Bool-cases (ltb s'.samplecount maxsamples)) [
            | inr g ↦ record {
              runs = suc k;
              after = s';
              run = rw (step, tested, e, g) refl;
              best = b';
              later = omega arith;
              enough = inl (ground arith);
              not_before = λ m l u. absurd (omega arith);
            }
            | inl g ↦
                let rest = sample-Ended rounds (suc k) s' p (ground arith) (omega arith) b' in
                record {
                  runs = rest.runs;
                  after = rest.after;
                  run = rw (step, tested, e, g) rest.run;
                  best = rest.best;
                  later = let l = rest.later in omega arith;
                  enough = rest.enough;
                  not_before = λ m l u. elim (Bool-cases (ltb (suc k) m)) [
                    | inl i ↦ rest.not_before m (ground arith) u
                    | inr i ↦
                        let here : m ≡ suc k = ground arith in
                        rw here (λ d. elim d [
                          | inl j ↦ absurd (ground arith)
                          | inr j ↦ let t = needed j in cc
                        ])
                  ];
                }
          ]
        ]

    -- What `fcyc` measures: `runs` is the first number of runs, from one on, that is enough, and the result
    -- is the smallest of their times.
    pub record Measured (r : ℕ) : Type 0 where
      pub runs : ℕ
      pub some_run : 0 < runs
      pub enough : Enough runs
      pub not_before : (m : ℕ) → 0 < m → m < runs → ¬ Enough m
      pub least : Least runs r

    -- With a kbest above 0, and maxsamples rounds and one at least, the measurement ends, with at most maxsamples runs (or one), and never faults. It runs
    -- until there are maxsamples times or the smallest and the kbest-th smallest are close, not longer, and
    -- returns the smallest of all the times.
    pub fcyc-Measured :
        (rounds : ℕ)
        → 0 < kbest
        → 0 < rounds
        → maxsamples ≤ rounds
        → (r : ℕ) × (fcyc kbest within maxsamples measure rounds ≡ some r) × Measured r
    unfolding fcyc
    fcyc-Measured rounds p h f =
        let e =
          sample-Ended rounds 0 (init_sampler kbest) p h (omega arith) (init_sampler-Best kbest) in
        let l = e.later in
        let n = length-times e.runs in
        let (r, g) =
          get_elem?-some (sorted (times e.runs)) 0 (omega (arith, length-sorted (times e.runs))) in
        (
          r,
          rw e.run (get_elem?-Best kbest (times e.runs) e.after 0 e.best p (omega arith) ∙ g),
          record {
            runs = e.runs;
            some_run = e.later;
            enough = e.enough;
            not_before = e.not_before;
            least = sorted-Least e.runs r g;
          },
        )
