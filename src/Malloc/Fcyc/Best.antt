-- ===== src/Malloc/Fcyc/Best.antt =====
-- The insertion sort of malloclab/fcyc.c, and insertion into a sorted list.
use mathlib.Core.Path.{subst}
use mathlib.Core.List.{append_assoc}
use csapp.Common.{
  ℕ, zero, suc, ◌+◌, ◌≤◌, ◌≡◌, refl, sym, ap, ◌∙◌, inl, inr, true, false, Bool-cases, some, List,
  [], ◌∷◌, ◌++◌, ltb, if◌then◌else◌, All, All-map, All-append, get_elem?, set, length,
  length-append, last-cases, get_elem?-append, set-append, arith,
}
use csapp.Malloc.Fcyc.{sift}

-- Insertion into a sorted list.
abbrev pub insert : ℕ → List ℕ → List ℕ
insert v [] = v ∷ []
insert v (x ∷ xs) = if ltb v x then v ∷ x ∷ xs else x ∷ insert v xs

abbrev pub IsSorted : List ℕ → Type 0
IsSorted [] = Unit
IsSorted (x ∷ xs) = All (λ y. x ≤ y) xs × IsSorted xs

All-insert : (a v : ℕ) (xs : List ℕ) → a ≤ v → All (λ y. a ≤ y) xs → All (λ y. a ≤ y) (insert v xs)
All-insert a v [] h k = (h, tt)
All-insert a v (x ∷ xs) h (k, ks) = elim (Bool-cases (ltb v x)) [
  | inl e ↦ rw e (h, (k, ks))
  | inr e ↦ rw e (k, All-insert a v xs h ks)
]

pub insert-IsSorted : (v : ℕ) (xs : List ℕ) → IsSorted xs → IsSorted (insert v xs)
insert-IsSorted v [] s = (tt, tt)
insert-IsSorted v (x ∷ xs) (h, s) = elim (Bool-cases (ltb v x)) [
  | inl e ↦
      rw e ((ground arith, All-map (λ y. x ≤ y) (λ y. v ≤ y) xs (λ y k. ground arith) h), (h, s))
  | inr e ↦ rw e (All-insert x v xs (ground arith) h, insert-IsSorted v xs s)
]

pub length-insert : (v : ℕ) (xs : List ℕ) → length (insert v xs) ≡ length xs + 1
length-insert v [] = omega arith
length-insert v (x ∷ xs) = elim (Bool-cases (ltb v x)) [
  | inl e ↦ rw e (omega arith)
  | inr e ↦ rw e (omega (arith, length-insert v xs))
]

pub insert-before :
    (v : ℕ) (ys : List ℕ) (y : ℕ)
    → ltb v y ≡ true
    → insert v (ys ++ (y ∷ [])) ≡ insert v ys ++ (y ∷ [])
insert-before v [] y e = rw e refl
insert-before v (x ∷ ys) y e = elim (Bool-cases (ltb v x)) [
  | inl f ↦ rw f refl
  | inr f ↦ rw f (ap (λ (l : List ℕ). x ∷ l) (insert-before v ys y e))
]

pub insert_last : (v : ℕ) (xs : List ℕ) → All (λ x. x ≤ v) xs → insert v xs ≡ xs ++ (v ∷ [])
insert_last v [] h = refl
insert_last v (x ∷ xs) (h, hs) =
    let e : ltb v x ≡ false = ground arith in
    rw e (ap (λ (l : List ℕ). x ∷ l) (insert_last v xs hs))

pub IsSorted-append :
    (ys : List ℕ) (y : ℕ) → IsSorted (ys ++ (y ∷ [])) → IsSorted ys × All (λ x. x ≤ y) ys
IsSorted-append [] y s = (tt, tt)
IsSorted-append (x ∷ ys) y (h, s) =
    let (s', t) = IsSorted-append ys y s in ((first ys h, s'), (last ys h, t))
  where
    first : (ys : List ℕ) → All (λ z. x ≤ z) (ys ++ (y ∷ [])) → All (λ z. x ≤ z) ys
    first [] h = tt
    first (z ∷ zs) (h, t) = (h, first zs t)

    last : (ys : List ℕ) → All (λ z. x ≤ z) (ys ++ (y ∷ [])) → x ≤ y
    last [] h = h.0
    last (z ∷ zs) (h, t) = last zs t

-- From the place behind a sorted list the sort makes the insertion.
pub sift-insert :
    (n v : ℕ) (xs rest : List ℕ)
    → length xs ≡ n
    → IsSorted xs
    → sift n (xs ++ (v ∷ rest)) ≡ some (insert v xs ++ rest)
unfolding sift
sift-insert zero v [] rest e s = refl
sift-insert zero v (x ∷ xs) rest e s = absurd (omega arith)
sift-insert (suc n) v xs rest e s = elim (last-cases xs) [
  | inl f ↦ absurd (omega (arith, ap length f))
  | inr (ys, y, f) ↦
      subst (λ (l : List ℕ). sift (suc n) (l ++ (v ∷ rest)) ≡ some (insert v l ++ rest)) (sym f)
        (step ys y (omega (arith, e, ap length f, length-append ys (y ∷ [])))
          (IsSorted-append ys y (subst IsSorted f s)) (λ rest' k s'. sift-insert n v ys rest' k s'))
]
  where
    step :
        (ys : List ℕ) (y : ℕ)
        → length ys ≡ n
        → IsSorted ys × All (λ x. x ≤ y) ys
        → ((rest' : List ℕ)
            → length ys ≡ n
            → IsSorted ys
            → sift n (ys ++ (v ∷ rest')) ≡ some (insert v ys ++ rest'))
        → sift (suc n) ((ys ++ (y ∷ [])) ++ (v ∷ rest)) ≡ some (insert v (ys ++ (y ∷ [])) ++ rest)
    step ys y k (s', below) ih =
        let zs = y ∷ v ∷ rest in
        let before : get_elem? (ys ++ zs) n ≡ some y =
          subst (λ i. get_elem? (ys ++ zs) i ≡ some y) (omega (arith, k))
            (get_elem?-append ys zs 0) in
        let here : get_elem? (ys ++ zs) (suc n) ≡ some v =
          subst (λ i. get_elem? (ys ++ zs) i ≡ some v) (omega (arith, k))
            (get_elem?-append ys zs 1) in
        let once : set (ys ++ zs) n v ≡ ys ++ (v ∷ v ∷ rest) =
          subst (λ i. set (ys ++ zs) i v ≡ ys ++ (v ∷ v ∷ rest)) (omega (arith, k))
            (set-append ys zs 0 v) in
        let twice : set (ys ++ (v ∷ v ∷ rest)) (suc n) y ≡ ys ++ (v ∷ y ∷ rest) =
          subst (λ i. set (ys ++ (v ∷ v ∷ rest)) i y ≡ ys ++ (v ∷ y ∷ rest)) (omega (arith, k))
            (set-append ys (v ∷ v ∷ rest) 1 y) in
        elim (Bool-cases (ltb v y)) [
          | inl f ↦
              rw (append_assoc ys (y ∷ []) (v ∷ rest), before, here, once, twice, f)
                (ih (y ∷ rest) k s'
                  ∙ rw (insert-before v ys y f, append_assoc (insert v ys) (y ∷ []) rest) refl)
          | inr f ↦
              let small =
                All-append (λ x. x ≤ v) ys (y ∷ [])
                  (All-map (λ x. x ≤ y) (λ x. x ≤ v) ys (λ x h. ground arith) below)
                  (ground arith, tt) in
              rw
                (
                  append_assoc ys (y ∷ []) (v ∷ rest),
                  before,
                  here,
                  once,
                  twice,
                  f,
                  insert_last v (ys ++ (y ∷ [])) small,
                  append_assoc (ys ++ (y ∷ [])) (v ∷ []) rest,
                  append_assoc ys (y ∷ []) (v ∷ rest),
                )
                refl
        ]
