-- ===== src/Malloc/Mm/Heap/Order.antt =====
-- Many calls of `mm_free` of malloclab/mm.c, in any order.
use csapp.Common.{ℕ, ◌+◌, ◌≤◌, ◌<◌, ◌≡◌, ◌≢◌, refl, ◌∙◌, inl, inr, List, [], ◌∷◌, All}
use csapp.Malloc.Word.{Mm, done, Cmd, pure, ◌>>◌}
use csapp.Malloc.Mm.Requests.{mm_free}
use csapp.Malloc.Mm.Heap.{Tile, UsedAt, In, Heap}
use csapp.Malloc.Mm.Heap.Freed.{Freed}
use csapp.Malloc.Mm.Heap.Free.{mm_free-Heap}

-- `mm_free` of the payload of each block of the list.
pub free_all : ℕ → ℕ → List ℕ → Cmd (Unit {0})
free_all head rounds [] = pure tt
free_all head rounds (b ∷ bs) = do mm_free head rounds (b + 12); free_all head rounds bs

abbrev pub Distinct : List ℕ → Type 0
Distinct [] = Unit
Distinct (b ∷ bs) = All (λ c. c ≢ b) bs × Distinct bs

-- The heap after the frees. The other blocks in use stay, with the words of their payload.
pub record AllFreed (head rounds a e : ℕ) (ts : List Tile) (m : Mm) (bs : List ℕ) : Type 0 where
  pub after : Mm
  pub blocks : List Tile
  pub list : List ℕ
  pub run : free_all head rounds bs m ≡ done tt after
  pub heap : Heap head a e blocks list after
  pub kept :
      (y n : ℕ)
      → UsedAt a ts y n
      → ¬ In y bs
      → UsedAt a blocks y n × ((q : ℕ) → y + 12 ≤ q → q < y + n → after.word q ≡ m.word q)

-- Different blocks in use can be freed one after the other in any order: every call returns, the heap is
-- well formed in the end, and the other blocks in use stay, and the words of their payload.
pub mm_free-any_order :
    (head rounds a e : ℕ) (bs : List ℕ) (ts : List Tile) (xs : List ℕ) (m : Mm)
    → Heap head a e ts xs m
    → All (λ b. (n : ℕ) × UsedAt a ts b n) bs
    → Distinct bs
    → AllFreed head rounds a e ts m bs
unfolding free_all In
mm_free-any_order head rounds a e [] ts xs m h used d = record {
  after = m;
  blocks = ts;
  list = xs;
  run = refl;
  heap = h;
  kept = λ y n u out. (u, λ q l g. refl);
}
mm_free-any_order head rounds a e (b ∷ bs) ts xs m h ((n, u), used) (apart, d) =
    let f = mm_free-Heap head rounds a e ts xs m b n h u in
    let rest =
      mm_free-any_order head rounds a e bs f.blocks f.list f.after f.heap (still bs f used apart)
        d in
    record {
      after = rest.after;
      blocks = rest.blocks;
      list = rest.list;
      run = rw f.run rest.run;
      heap = rest.heap;
      kept = λ y k v out.
          let (v₁, same) = f.kept y k v (λ p. out (inl p)) in
          let (v₂, same') = rest.kept y k v₁ (λ i. out (inr i)) in
          (v₂, λ q l g. same' q l g ∙ same q l g);
    }
  where
    still :
        (cs : List ℕ) (f : Freed head rounds b n a e ts m)
        → All (λ c. (k : ℕ) × UsedAt a ts c k) cs
        → All (λ c. c ≢ b) cs
        → All (λ c. (k : ℕ) × UsedAt a f.blocks c k) cs
    still [] f us ne = tt
    still (c ∷ cs) f ((k, v), us) (p, ne) = ((k, (f.kept c k v p).0), still cs f us ne)
