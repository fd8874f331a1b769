-- ===== src/Malloc/Driver/Sound.antt =====
-- What a trace that passes `eval_mm_valid` of malloclab/mdriver.c says of any allocator.
use mathlib.Core.Path.{subst}
use csapp.Common.{
  ℕ, zero, suc, ◌+◌, ◌%◌, ◌≤◌, ◌<◌, ◌≡◌, ◌≢◌, refl, inl, inr, true, false, Option, none, some, List,
  [], ◌∷◌, ltb, ◌==◌, if◌then◌else◌, get_elem?, Bool-cases, Option-cases, arith, ◌>>=◌,
}
use csapp.Malloc.Ranges.{Range, add_range, remove_range}
use csapp.Malloc.Ranges.Laws.{add_range_iff}
use csapp.Malloc.Ranges.Checked.{Checked, Checked-ordered, remove_range-Checked}
use csapp.Malloc.Driver.Plays.{remove_range-Removed, Plays, Played, Passes, place-Passes}
use csapp.Malloc.Driver.{
  Allocator, TraceOp, alloc, realloc, free, Replay, Verdict, not_preserved, failed, passed,
  preserved, accept, valid_alloc, accept_moved, valid_realloc, valid_free, valid_step, valid_steps,
  eval_mm_valid,
}

module _ (A : Allocator) where
  -- What holds of the replay after a request.
  abbrev Stepped : TraceOp → Replay A → Replay A → Type 0
  Stepped op r r' = Plays A op r r' × Checked r'.ranges

  valid_alloc-Passes :
      (index size : ℕ) (r : Replay A)
      → Checked r.ranges
      → Passes A (Stepped (alloc index size) r) (valid_alloc A index size r)
  unfolding valid_alloc accept add_range
  valid_alloc-Passes index size r c = elim (Option-cases (A.malloc size r.state)) [
    | inl e ↦ rw e tt
    | inr ((p, s), e) ↦ elim (Bool-cases (p == 0)) [
      | inl f ↦ rw (e, f) tt
      | inr f ↦ rw (e, f) (checked size p s e (ground arith))
    ]
  ]
    where
      checked :
          (size p : ℕ) (s : A.State)
          → A.malloc size r.state ≡ some (p, s)
          → p ≢ 0
          → Passes A
              (Stepped (alloc index size) r)
              (add_range (A.heap s) p size r.ranges >>= λ found. accept A index p size s found r)
      checked zero p s e ne = tt
      checked (suc n) p s e ne =
          elim (add_range_iff (A.heap s) p n r.ranges (Checked-ordered r.ranges c)) [
            | inr (f, _) ↦ rw f tt
            | inl (f, acc) ↦ rw f (
                place-Passes A (Stepped (alloc index (suc n)) r) index n p s r.ranges r ne c acc
                  λ r' placed c'. ((p, s, e, placed), c'))
          ]

  preserved_lem :
      (s : A.State) (v p n : ℕ)
      → preserved A s v p n ≡ true
      → (j : ℕ) → j < n
      → (A.byte s (p + j) ≡ v) × (v < 128)
  unfolding preserved
  preserved_lem s v p zero e j h = absurd (omega arith)
  preserved_lem s v p (suc n) e zero h =
      let same : p + 0 ≡ p = omega arith in rw same (ground arith, ground arith)
  preserved_lem s v p (suc n) e (suc j) h =
      let same : p + suc j ≡ p + 1 + j = omega arith in
      rw same (preserved_lem s v (p + 1) n (ground arith) j (omega arith))

  preserved-both :
      (s : A.State) (v p size oldsize : ℕ)
      → preserved A s v p (if ltb size oldsize then size else oldsize) ≡ true
      → (j : ℕ) → j < size
      → j < oldsize
      → (A.byte s (p + j) ≡ v) × (v < 128)
  preserved-both s v p size oldsize e j h k = elim (Bool-cases (ltb size oldsize)) [
    | inl f ↦ preserved_lem s v p size (rw f at e) j h
    | inr f ↦ preserved_lem s v p oldsize (rw f at e) j k
  ]

  valid_realloc-Passes :
      (index size : ℕ) (r : Replay A)
      → Checked r.ranges
      → Passes A (Stepped (realloc index size) r) (valid_realloc A index size r)
  unfolding valid_realloc accept_moved add_range
  valid_realloc-Passes index size r c = elim (Option-cases (get_elem? r.blocks index)) [
    | inl b ↦ rw b tt
    | inr (oldp, b) ↦ elim (Option-cases (A.realloc oldp size r.state)) [
      | inl e ↦ rw (b, e) tt
      | inr ((p, s), e) ↦ elim (Bool-cases (p == 0)) [
        | inl f ↦ rw (b, e, f) tt
        | inr f ↦ rw (b, e, f) (checked size oldp p s b e (ground arith))
      ]
    ]
  ]
    where
      checked :
          (size oldp p : ℕ) (s : A.State)
          → get_elem? r.blocks index ≡ some oldp
          → A.realloc oldp size r.state ≡ some (p, s)
          → p ≢ 0
          → Passes A (Stepped (realloc index size) r) (
              add_range (A.heap s) p size (remove_range oldp r.ranges) >>= λ found.
              accept_moved A index p size s found r)
      checked zero oldp p s b e ne = tt
      checked (suc n) oldp p s b e ne =
          let others = remove_range oldp r.ranges in
          let oc : Checked others = remove_range-Checked oldp r.ranges c in
          elim (add_range_iff (A.heap s) p n others (Checked-ordered others oc)) [
            | inr (f, _) ↦ rw f tt
            | inl (f, acc) ↦ elim (Option-cases (get_elem? r.block_sizes index)) [
              | inl z ↦ rw (f, z) tt
              | inr (oldsize, z) ↦
                  elim (Bool-cases (
                    preserved A s (index % 256) p
                      (if ltb (suc n) oldsize then suc n else oldsize))) [
                        | inr q ↦ rw (f, z, q) tt
                        | inl q ↦
                            rw (f, z, q)
                              (place-Passes A (Stepped (realloc index (suc n)) r) index n p s others
                                r ne oc acc
                                λ r' placed c'. (
                                  (
                                    oldp,
                                    oldsize,
                                    p,
                                    s,
                                    others,
                                    b,
                                    z,
                                    e,
                                    preserved-both s (index % 256) p (suc n) oldsize q,
                                    remove_range-Removed oldp r.ranges,
                                    placed,
                                  ),
                                  c',
                                ))
                      ]
            ]
          ]

  valid_step-Passes :
      (op : TraceOp) (r : Replay A) → Checked r.ranges → Passes A (Stepped op r) (valid_step A op r)
  unfolding valid_step valid_free
  valid_step-Passes (alloc index size) r c = valid_alloc-Passes index size r c
  valid_step-Passes (realloc index size) r c = valid_realloc-Passes index size r c
  valid_step-Passes (free index) r c = elim (Option-cases (get_elem? r.blocks index)) [
    | inl b ↦ rw b tt
    | inr (p, b) ↦ elim (Option-cases (A.free p r.state)) [
      | inl e ↦ rw (b, e) tt
      | inr (s, e) ↦
          rw (b, e)
            (
              (p, s, remove_range p r.ranges, b, e, remove_range-Removed p r.ranges, refl),
              remove_range-Checked p r.ranges c,
            )
    ]
  ]

  -- What holds of the replay after the requests.
  abbrev Ended : List TraceOp → Replay A → Replay A → Type 0
  Ended ops r r' = Played A ops r r' × Checked r'.ranges

  valid_steps-Passes :
      (ops : List TraceOp) (r : Replay A)
      → Checked r.ranges
      → Passes A (Ended ops r) (valid_steps A ops r)
  unfolding valid_steps
  valid_steps-Passes [] r c = (refl, c)
  valid_steps-Passes (op ∷ ops) r c =
      go_on (valid_step A op r) (valid_step-Passes op r c) (λ m d. valid_steps-Passes ops m d)
    where
      join :
          (m : Replay A) (v : Option (Verdict A))
          → Plays A op r m
          → Passes A (Ended ops m) v
          → Passes A (Ended (op ∷ ops) r) v
      join m none p h = tt
      join m (some (failed problem)) p h = tt
      join m (some (passed r')) p (h, d) = ((m, p, h), d)

      go_on :
          (v : Option (Verdict A))
          → Passes A (Stepped op r) v
          → ((m : Replay A) → Checked m.ranges → Passes A (Ended ops m) (valid_steps A ops m))
          → Passes A (Ended (op ∷ ops) r) (elim v [
            | none ↦ none
            | some (failed problem) ↦ some (failed problem)
            | some (passed m) ↦ valid_steps A ops m
          ])
      go_on none h k = tt
      go_on (some (failed problem)) h k = tt
      go_on (some (passed m)) (p, d) k = join m (valid_steps A ops m) p (k m d)

  -- Whatever the allocator does: where `eval_mm_valid` replays a trace with no problem, the allocator
  -- was initialised and each request was served as `Plays` says: a block is not NULL, aligned, in the
  -- heap and shares no byte with another block in use that it does not enclose, one from `realloc`
  -- has the bytes of the old one as far as the smaller size, and a block that is freed or moved is
  -- no longer in use. In the end each payload in use is aligned, and shares no byte with an older one
  -- that it does not enclose.
  pub eval_mm_valid-Played :
      (ops : List TraceOp) (r r' : Replay A)
      → eval_mm_valid A ops r ≡ some (passed r')
      → (s : A.State) × (A.init (A.reset_brk r.state) ≡ some (true, s))
        × Played A ops (record r { state = s; ranges = [] }) r'
        × Checked r'.ranges
  unfolding eval_mm_valid
  eval_mm_valid-Played ops r r' e = elim (Option-cases (A.init (A.reset_brk r.state))) [
    | inl f ↦ absurd (cc (f, e))
    | inr ((false, s), f) ↦ absurd (cc (rw f at e))
    | inr ((true, s), f) ↦
        let start : Replay A = record r { state = s; ranges = [] } in
        let h : Passes A (Ended ops start) (valid_steps A ops start) =
          valid_steps-Passes ops start (unfold Checked in tt) in
        let run : valid_steps A ops start ≡ some (passed r') = rw f at e in
        let (p, c) = subst (Passes A (Ended ops start)) run h in (s, f, p, c)
  ]

  preserved_fails : (s : A.State) (v p n : ℕ) → 128 ≤ v → preserved A s v p (suc n) ≡ false
  unfolding preserved
  preserved_fails s v p n h = ground arith

  -- A block with content and an index whose low byte is 128 or more fails the test of its content
  -- when it is reallocated, whatever the allocator put there: a `char` is never that number.
  pub valid_realloc-not_preserved :
      (index oldp p old n : ℕ) (s : A.State) (ranges : List Range) (r : Replay A)
      → 128 ≤ index % 256
      → get_elem? r.blocks index ≡ some oldp
      → get_elem? r.block_sizes index ≡ some (suc old)
      → A.realloc oldp (suc n) r.state ≡ some (p, s)
      → p ≢ 0
      → add_range (A.heap s) p (suc n) (remove_range oldp r.ranges) ≡ some (true, ranges)
      → valid_realloc A index (suc n) r ≡ some (failed not_preserved)
  unfolding valid_realloc accept_moved preserved
  valid_realloc-not_preserved index oldp p old n s ranges r h b z e ne a =
      let nonzero : (p == 0) ≡ false = ground arith in
      rw (b, e, nonzero, a, z)
        (elim (Bool-cases (ltb (suc n) (suc old))) [
          | inl f ↦ rw (f, preserved_fails s (index % 256) p n h) refl
          | inr f ↦ rw (f, preserved_fails s (index % 256) p old h) refl
        ])
