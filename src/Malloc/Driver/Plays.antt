-- ===== src/Malloc/Driver/Plays.antt =====
-- What the requests that pass `eval_mm_valid` of malloclab/mdriver.c do, step by step.
use mathlib.Core.Option
use csapp.Common.{
  ℕ, suc, ◌+◌, ◌%◌, ◌<◌, ◌≡◌, ◌≢◌, ◌⊎◌, refl, ap, inl, inr, Option, none, some, List, [], ◌∷◌, ◌++◌,
  ltb, ◌==◌, get_elem?, set, length, All, Bool-cases, arith,
}
use csapp.Malloc.Ranges.{Range, remove_range}
use csapp.Malloc.Ranges.Laws.{Accepts, payload}
use csapp.Malloc.Ranges.Checked.{Checked}
use csapp.Malloc.Driver.{
  Allocator, TraceOp, alloc, realloc, free, Replay, Verdict, failed, passed, remember,
}

-- The first payload that starts at the address is gone, and there is none in front of it.
abbrev pub Removed : ℕ → List Range → List Range → Type 0
Removed lo old new =
    ((new ≡ old) × All (λ q. q.lo ≢ lo) old)
    ⊎ ((xs : List Range) × (q : Range) × (ys : List Range) × (old ≡ xs ++ (q ∷ ys))
        × (q.lo ≡ lo)
        × All (λ x. x.lo ≢ lo) xs
        × (new ≡ xs ++ ys))

pub remove_range-Removed :
    (lo : ℕ) (ranges : List Range) → Removed lo ranges (remove_range lo ranges)
unfolding remove_range
remove_range-Removed lo [] = inl (refl, tt)
remove_range-Removed lo (p ∷ ps) = elim (Bool-cases (p.lo == lo)) [
  | inl e ↦ rw e (inr ([], p, ps, refl, ground arith, tt, refl))
  | inr e ↦ elim (remove_range-Removed lo ps) [
    | inl (same, all) ↦
        rw e (inl (ap (λ (r : List Range). p ∷ r) same, ((λ f. absurd (ground arith)), all)))
    | inr (xs, q, ys, split, at, all, rest) ↦ rw e (
        inr (
          p ∷ xs,
          q,
          ys,
          ap (λ (r : List Range). p ∷ r) split,
          at,
          ((λ f. absurd (ground arith)), all),
          ap (λ (r : List Range). p ∷ r) rest,
        ))
  ]
]

module _ (A : Allocator) where
  -- A new block at p, for a request with the index and the size: it is not NULL, its payload is
  -- aligned, in the heap, and shares no byte with a payload of `others` that it does not enclose. The
  -- payload is added to them, the arrays of the trace remember the block, and it is filled with the
  -- index's low byte.
  pub record Placed (index count p : ℕ) (s : A.State) (others : List Range) (r r' : Replay A)
      : Type 0 where
    pub not_null : p ≢ 0
    pub not_empty : 0 < count
    pub accepted : Accepts (A.heap s) (payload p count) others
    pub in_blocks : index < length r.blocks
    pub in_sizes : index < length r.block_sizes
    pub filled : r'.state ≡ A.fill p (index % 256) count s
    pub ranges : r'.ranges ≡ payload p count ∷ others
    pub blocks : r'.blocks ≡ set r.blocks index p
    pub block_sizes : r'.block_sizes ≡ set r.block_sizes index count

  -- What a request that passes means. A block that `realloc` returns holds the bytes that the old
  -- one was filled with, as far as the smaller of the two sizes.
  abbrev pub Plays : TraceOp → Replay A → Replay A → Type 0
  Plays (alloc index size) r r' =
      (p : ℕ) × (s : A.State) × (A.malloc size r.state ≡ some (p, s))
      × Placed index size p s r.ranges r r'
  Plays (realloc index size) r r' =
      (oldp oldsize p : ℕ) × (s : A.State) × (others : List Range) × (get_elem? r.blocks index
        ≡ some oldp)
      × (get_elem? r.block_sizes index ≡ some oldsize)
      × (A.realloc oldp size r.state ≡ some (p, s))
      × ((j : ℕ) → j < size → j < oldsize → (A.byte s (p + j) ≡ index % 256) × (index % 256 < 128))
      × Removed oldp r.ranges others
      × Placed index size p s others r r'
  Plays (free index) r r' =
      (p : ℕ) × (s : A.State) × (others : List Range) × (get_elem? r.blocks index ≡ some p)
      × (A.free p r.state ≡ some s)
      × Removed p r.ranges others
      × (r' ≡ record r { state = s; ranges = others })

  -- The requests one after another.
  abbrev pub Played : List TraceOp → Replay A → Replay A → Type 0
  Played [] r r' = r' ≡ r
  Played (op ∷ ops) r r' = (m : Replay A) × Plays op r m × Played ops m r'

  -- No claim about a crash or a reported problem.
  abbrev pub Passes : (Replay A → Type 0) → Option (Verdict A) → Type 0
  Passes P none = Unit
  Passes P (some (failed problem)) = Unit
  Passes P (some (passed r)) = P r

  remember-Passes :
      (P : Replay A → Type 0) (index p size : ℕ) (s : A.State) (ranges : List Range) (r : Replay A)
      → (index < length r.blocks
          → index < length r.block_sizes
          → P (record {
            state = s;
            ranges = ranges;
            blocks = set r.blocks index p;
            block_sizes = set r.block_sizes index size;
          }))
      → Passes P (Option.map passed (remember A index p size s ranges r))
  unfolding remember
  remember-Passes P index p size s ranges r h = elim (Bool-cases (ltb index (length r.blocks))) [
    | inr e ↦ rw e tt
    | inl e ↦ elim (Bool-cases (ltb index (length r.block_sizes))) [
      | inr f ↦ rw (e, f) tt
      | inl f ↦ rw (e, f) (h (ground arith) (ground arith))
    ]
  ]

  -- A block that the check of the driver accepts is placed.
  pub place-Passes :
      (P : Replay A → Type 0) (index n p : ℕ) (s : A.State) (others : List Range) (r : Replay A)
      → p ≢ 0
      → Checked others
      → Accepts (A.heap s) (payload p (suc n)) others
      → ((r' : Replay A) → Placed index (suc n) p s others r r' → Checked r'.ranges → P r')
      → Passes P (
          Option.map passed (
            remember A index p
              (suc n)
              (A.fill p (index % 256) (suc n) s)
              (payload p (suc n) ∷ others)
              r))
  unfolding Checked
  place-Passes P index n p s others r ne c acc finish =
      remember-Passes P index p (suc n) (A.fill p (index % 256) (suc n) s)
        (payload p (suc n) ∷ others) r
        λ b z.
          finish _
            (record {
              not_null = ne;
              not_empty = omega arith;
              accepted = acc;
              in_blocks = b;
              in_sizes = z;
              filled = refl;
              ranges = refl;
              blocks = refl;
              block_sizes = refl;
            })
            (omega arith, acc.aligned, acc.others, c)
