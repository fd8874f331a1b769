-- ===== src/Malloc/Fcyc/Sampling.antt =====
-- `add_sample` and `fcyc` of malloclab/fcyc.c against the sorted list of all samples.
use mathlib.Core.Path.{subst}
use mathlib.Core.List.{append-nil}
use csapp.Common.{
  ℕ, zero, suc, ◌+◌, ◌-◌, ◌≤◌, ◌<◌, ◌≡◌, refl, sym, ap, ◌∙◌, inl, inr, true, false, Bool-cases,
  some, List, [], ◌∷◌, ◌++◌, ltb, All, All-map, All-append, get_elem?, set, length, take, replicate,
  length-append, length-replicate, last-cases, get_elem?-append, set-append, take-all, take-append,
  length-take, get_elem?-take, All-take, arith,
}
use csapp.Malloc.Fcyc.{Sampler, sift, init_sampler, add_sample}
use csapp.Malloc.Fcyc.Best.{
  insert, IsSorted, insert-IsSorted, length-insert, insert-before, insert_last, IsSorted-append,
  sift-insert,
}

-- All samples in order, of a list that has the newest one first.
abbrev pub sorted : List ℕ → List ℕ
sorted [] = []
sorted (v ∷ vs) = insert v (sorted vs)

pub sorted-IsSorted : (vs : List ℕ) → IsSorted (sorted vs)
sorted-IsSorted [] = tt
sorted-IsSorted (v ∷ vs) = insert-IsSorted v (sorted vs) (sorted-IsSorted vs)

pub length-sorted : (vs : List ℕ) → length (sorted vs) ≡ length vs
length-sorted [] = refl
length-sorted (v ∷ vs) = omega (arith, length-insert v (sorted vs), length-sorted vs)

take-insert : (k v : ℕ) (xs : List ℕ) → take k (insert v xs) ≡ take k (insert v (take k xs))
take-insert zero v xs = refl
take-insert (suc k) v [] = refl
take-insert (suc k) v (x ∷ xs) = elim (Bool-cases (ltb v x)) [
  | inl e ↦ rw e (ap (λ (l : List ℕ). v ∷ l) (again k x xs))
  | inr e ↦ rw e (ap (λ (l : List ℕ). x ∷ l) (take-insert k v xs))
]
  where
    again : (k x : ℕ) (xs : List ℕ) → take k (x ∷ xs) ≡ take k (x ∷ take k xs)
    again zero x xs = refl
    again (suc k) x xs = ap (λ (l : List ℕ). x ∷ l) (once k xs)
      where
        once : (k : ℕ) (xs : List ℕ) → take k xs ≡ take k (take (suc k) xs)
        once zero xs = refl
        once (suc k) [] = refl
        once (suc k) (x ∷ xs) = ap (λ (l : List ℕ). x ∷ l) (once k xs)

IsSorted-take : (k : ℕ) (xs : List ℕ) → IsSorted xs → IsSorted (take k xs)
IsSorted-take zero xs s = tt
IsSorted-take (suc k) [] s = tt
IsSorted-take (suc k) (x ∷ xs) (h, s) = (All-take (λ y. x ≤ y) k xs h, IsSorted-take k xs s)

module _ (kbest : ℕ) where
  -- `values` holds the kbest smallest samples in order, and zeros where there are fewer.
  pub record Best (vs : List ℕ) (s : Sampler) : Type 0 where
    pub count : s.samplecount ≡ length vs
    pub best : s.values ≡ take kbest (sorted vs) ++ replicate (kbest - length vs) 0

  pub init_sampler-Best : Best [] (init_sampler kbest)
  unfolding init_sampler
  init_sampler-Best = record {
    count = refl;
    best =
        let e : take kbest [] ≡ [] = take-all {A = ℕ} kbest [] (omega arith) in
        let k : kbest - 0 ≡ kbest = omega arith in rw (e, k) refl;
  }

  -- With room left the sample is put behind the others, and sorted in.
  add_sample-room :
      (v : ℕ) (vs : List ℕ) (s : Sampler)
      → length vs < kbest
      → Best vs s
      → (s' : Sampler) × (add_sample kbest v s ≡ some s') × Best (v ∷ vs) s'
  unfolding add_sample
  add_sample-room v vs s h b =
      let n = length vs in
      let xs = sorted vs in
      let l = length-sorted vs in
      let more : kbest - n ≡ suc (kbest - suc n) = omega arith in
      let rest = replicate (kbest - suc n) 0 in
      let before : s.values ≡ xs ++ (0 ∷ rest) =
        b.best ∙ rw (take-all kbest xs (omega (arith, l)), more) refl in
      let count : s.samplecount ≡ n = b.count in
      let room : ltb n kbest ≡ true = ground arith in
      let long : length (xs ++ (0 ∷ rest)) ≡ kbest =
        omega (arith, l, length-append xs (0 ∷ rest), length-replicate {A = ℕ} (kbest - suc n) 0) in
      let put : set (xs ++ (0 ∷ rest)) n v ≡ xs ++ (v ∷ rest) =
        subst (λ i. set (xs ++ (0 ∷ rest)) i v ≡ xs ++ (v ∷ rest)) (omega (arith, l))
          (set-append xs (0 ∷ rest) 0 v) in
      let run = sift-insert n v xs rest l (sorted-IsSorted vs) in
      (
        record { values = insert v xs ++ rest; samplecount = n + 1 },
        rw (count, room, before, long, room, put, run) refl,
        record {
          count = omega arith;
          best = rw (take-all kbest (insert v xs) (omega (arith, l, length-insert v xs))) refl;
        },
      )

  -- With no room left the sample takes the last place if it is smaller, and is dropped otherwise.
  add_sample-full :
      (v : ℕ) (vs : List ℕ) (s : Sampler)
      → 0 < kbest
      → kbest ≤ length vs
      → Best vs s
      → (s' : Sampler) × (add_sample kbest v s ≡ some s') × Best (v ∷ vs) s'
  unfolding add_sample sift
  add_sample-full v vs s p h b =
      let l : length (take kbest (sorted vs)) ≡ kbest =
        length-take kbest (sorted vs) (omega (arith, length-sorted vs)) in
      elim (last-cases (take kbest (sorted vs))) [
        | inl e ↦ absurd (omega (arith, l, ap length e))
        | inr (ys, z, e) ↦
            let zero_left : kbest - length vs ≡ 0 = omega arith in
            let below : s.values ≡ ys ++ (z ∷ []) =
              b.best ∙ rw (zero_left, append-nil (take kbest (sorted vs))) e in
            let (s', run, n', held) =
              replace v s ys z (omega (arith, l, ap length e, length-append ys (z ∷ [])))
                (IsSorted-append ys z
                  (subst IsSorted e (IsSorted-take kbest (sorted vs) (sorted-IsSorted vs))))
                below (omega (arith, b.count)) in
            let zero_left' : kbest - suc (length vs) ≡ 0 = omega arith in
            (
              s',
              run,
              record {
                count = n' ∙ (omega (arith, b.count));
                best =
                    rw (zero_left', append-nil (take kbest (insert v (sorted vs))))
                      (held
                        ∙ (ap (λ (l : List ℕ). take kbest (insert v l)) (sym e)
                            ∙ sym (take-insert kbest v (sorted vs))));
              },
            )
      ]
    where
      replace :
          (v : ℕ) (s : Sampler) (ys : List ℕ) (z : ℕ)
          → suc (length ys) ≡ kbest
          → IsSorted ys × All (λ y. y ≤ z) ys
          → s.values ≡ ys ++ (z ∷ [])
          → kbest ≤ s.samplecount
          → (s' : Sampler) × (add_sample kbest v s ≡ some s')
            × (s'.samplecount ≡ s.samplecount + 1)
            × (s'.values ≡ take kbest (insert v (ys ++ (z ∷ []))))
      replace v s ys z k (o, below) held full =
          let full' : ltb s.samplecount kbest ≡ false = ground arith in
          let at : kbest - 1 ≡ length ys + 0 = omega arith in
          let last = get_elem?-append ys (z ∷ []) 0 in
          let put = set-append ys (z ∷ []) 0 v in
          let long : ltb (length ys + 0) (length (ys ++ (z ∷ []))) ≡ true =
            let n = length-append ys (z ∷ []) in ground arith in
          elim (Bool-cases (ltb v z)) [
            | inl f ↦
                let run = sift-insert (length ys + 0) v ys [] (omega arith) o in
                (
                  record { values = insert v ys ++ []; samplecount = s.samplecount + 1 },
                  rw (full', at, held, last, f, long, put, run) refl,
                  refl,
                  rw
                      (
                        insert-before v ys z f,
                        take-append kbest (insert v ys) (z ∷ [])
                            (omega (arith, length-insert v ys)),
                        append-nil (insert v ys),
                      )
                      refl,
                )
            | inr f ↦
                let small =
                  All-append (λ x. x ≤ v) ys (z ∷ [])
                    (All-map (λ x. x ≤ z) (λ x. x ≤ v) ys (λ x h. ground arith) below)
                    (ground arith, tt) in
                (
                  record { values = ys ++ (z ∷ []); samplecount = s.samplecount + 1 },
                  rw (full', at, held, last, f) refl,
                  refl,
                  rw
                      (
                        insert_last v (ys ++ (z ∷ [])) small,
                        take-append kbest (ys ++ (z ∷ [])) (v ∷ [])
                            (omega (arith, length-append ys (z ∷ []))),
                      )
                      refl,
                )
          ]

  -- With a kbest above 0 adding a sample never faults, and keeps the kbest smallest of all samples so far in order, with zeros behind
  -- them while there are fewer, and counts the sample.
  pub add_sample-Best :
      (v : ℕ) (vs : List ℕ) (s : Sampler)
      → 0 < kbest
      → Best vs s
      → (s' : Sampler) × (add_sample kbest v s ≡ some s') × Best (v ∷ vs) s'
  add_sample-Best v vs s p b = elim (Bool-cases (ltb (length vs) kbest)) [
    | inl e ↦ add_sample-room v vs s (ground arith) b
    | inr e ↦ add_sample-full v vs s p (ground arith) b
  ]

  -- The smallest samples of the array are those of the sorted list.
  pub get_elem?-Best :
      (vs : List ℕ) (s : Sampler) (i : ℕ)
      → Best vs s
      → i < kbest
      → i < length vs
      → get_elem? s.values i ≡ get_elem? (sorted vs) i
  get_elem?-Best vs s i b h k = rw b.best (
      get_elem?-take kbest (sorted vs) (replicate (kbest - length vs) 0) i h
        (omega (arith, length-sorted vs)))
