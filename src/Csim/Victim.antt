-- ===== src/Csim/Victim.antt =====
-- The line that the second loop of `access_cache` picks: the first with the biggest counter.
use csapp.Common.{
  ℕ, zero, suc, ◌+◌, ◌≤◌, ◌<◌, ◌≡◌, refl, ap, ◌∙◌, some, none, List, [], ◌∷◌, ltb, length, arith,
  Bool-cases, inl, inr,
}
use native.Mathlib.Nat.{add-zero}
use native.Mathlib.Decide.{ℕ_discrete}
use csapp.Csim.{Line, age}

abbrev counter_at : List Line → ℕ → ℕ
counter_at [] i = 0
counter_at (l ∷ ls) zero = l.lru_counter
counter_at (l ∷ ls) (suc i) = counter_at ls i

-- Index `i` is in range, no counter is above its own, and every one before it is below.
pub record IsVictim (ls : List Line) (i : ℕ) : Type 0 where
  pub in_range : i < length ls
  pub biggest : (j : ℕ) → j < length ls → counter_at ls j ≤ counter_at ls i
  pub first : (j : ℕ) → j < i → counter_at ls j < counter_at ls i

-- The loop at index `k` of the set `all`, with `ls` still to read and the best so far at `i`.
record Scan (all ls : List Line) (k i : ℕ) : Type 0 where
  rest : (j : ℕ) → counter_at ls j ≡ counter_at all (k + j)
  size : k + length ls ≡ length all
  seen : i < k
  biggest : (j : ℕ) → j < k → counter_at all j ≤ counter_at all i
  first : (j : ℕ) → j < i → counter_at all j < counter_at all i

Scan-keep :
    {all : List Line} {l : Line} {ls : List Line} {k i : ℕ}
    → Scan all (l ∷ ls) k i
    → l.lru_counter ≤ counter_at all i
    → Scan all ls (k + 1) i
Scan-keep {all} {l} {ls} {k} {i} s h = record {
  rest = λ j. s.rest (suc j) ∙ ap (counter_at all) (omega arith);
  size = omega (arith, s.size);
  seen = omega (arith, s.seen);
  biggest = λ j p. elim (ℕ_discrete j k) [
    | yes e ↦ rw e (omega (arith, s.rest 0, ap (counter_at all) (add-zero k)))
    | no n ↦ s.biggest j (omega arith)
  ];
  first = s.first;
}

Scan-take :
    {all : List Line} {l : Line} {ls : List Line} {k i : ℕ}
    → Scan all (l ∷ ls) k i
    → counter_at all i < l.lru_counter
    → Scan all ls (k + 1) k
Scan-take {all} {l} {ls} {k} {i} s h = record {
  rest = λ j. s.rest (suc j) ∙ ap (counter_at all) (omega arith);
  size = omega (arith, s.size);
  seen = omega arith;
  biggest = λ j p. elim (ℕ_discrete j k) [
    | yes e ↦ rw e (omega arith)
    | no n ↦ omega (arith, s.biggest j (omega arith), s.rest 0, ap (counter_at all) (add-zero k))
  ];
  first = λ j p. omega (arith, s.biggest j p, s.rest 0, ap (counter_at all) (add-zero k));
}

Scan-IsVictim :
    (all ls : List Line) (k i : ℕ)
    → Scan all ls k i
    → (v : ℕ) × ((age k (some (i, counter_at all i)) ls).0 ≡ some (v, counter_at all v))
      × IsVictim all v
unfolding age
Scan-IsVictim all [] k i s = (
  i,
  refl,
  record {
    in_range = omega (arith, s.size, s.seen);
    biggest = λ j p. s.biggest j (omega (arith, s.size));
    first = s.first;
  },
)
Scan-IsVictim all (l ∷ ls) k i s = elim (Bool-cases (ltb (counter_at all i) l.lru_counter)) [
  | inl more ↦
      let e : l.lru_counter ≡ counter_at all k = s.rest 0 ∙ ap (counter_at all) (add-zero k) in
      rw (more, e) (Scan-IsVictim all ls (k + 1) k (Scan-take s (ground arith)))
  | inr less ↦ rw less (Scan-IsVictim all ls (k + 1) i (Scan-keep s (ground arith)))
]

-- In a set that has lines the second loop picks a victim.
pub age-IsVictim :
    (ls : List Line)
    → 0 < length ls
    → (v : ℕ) × ((age 0 none ls).0 ≡ some (v, counter_at ls v)) × IsVictim ls v
unfolding age
age-IsVictim [] h = elim h [ ]
age-IsVictim (l ∷ ls) h = Scan-IsVictim (l ∷ ls) ls 1 0 (record {
  rest = λ j. let e : suc j ≡ 1 + j = omega arith in ap (counter_at (l ∷ ls)) e;
  size = omega arith;
  seen = omega arith;
  biggest = λ j p. let e : j ≡ 0 = omega arith in rw e (omega arith);
  first = λ j p. elim p [ ];
})
