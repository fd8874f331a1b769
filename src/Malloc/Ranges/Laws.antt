-- ===== src/Malloc/Ranges/Laws.antt =====
-- What the driver's check of a block accepts, and that blocks cut from fresh memory pass it.
use csapp.Common.{
  ℕ, suc, ◌+◌, ◌-◌, ◌%◌, ◌^◌, ◌≤◌, ◌<◌, ◌≡◌, ◌≢◌, ◌⊎◌, ◌↔◌, refl, inl, inr, true, false, some, List,
  [], ◌∷◌, ◌==◌, All, arith, Bool-cases,
}
use native.Mathlib.Decide.{dec_lt}
use csapp.Malloc.Memlib.{Memory, mem_heap_lo, mem_heap_hi, mem_sbrk, mem_sbrk_lem}
use csapp.Malloc.Ranges.{
  Range, alignment, is_aligned, outside_heap, overlaps, any_overlap, add_range, remove_range,
}

-- Two payloads share no byte.
abbrev pub Apart : Range → Range → Type 0
Apart p q = (p.hi < q.lo) ⊎ (q.hi < p.lo)

-- q lies strictly inside p.
abbrev pub Encloses : Range → Range → Type 0
Encloses p q = (p.lo < q.lo) × (q.hi < p.hi)

abbrev pub Inside : Memory → Range → Type 0
Inside m p =
    (p.lo ≤ p.hi) × (mem_heap_lo m ≤ p.lo) × (p.hi ≤ mem_heap_hi m) × (p.lo % alignment ≡ 0)

-- The payloads lie in the heap and share no byte.
unfoldable pub Disjoint : List Range → Type 0
Disjoint [] = Unit
Disjoint (p ∷ ps) = All (Apart p) ps × Disjoint ps

any_overlap_iff :
    (lo hi : ℕ) (ps : List Range)
    → lo ≤ hi
    → All (λ p. p.lo ≤ p.hi) ps
    → (any_overlap lo hi ps ≡ false)
      ↔ All
          (λ q. Apart (record { lo = lo; hi = hi }) q ⊎ Encloses (record { lo = lo; hi = hi }) q)
          ps
unfolding any_overlap
any_overlap_iff lo hi [] h w = ((λ e. tt), (λ a. refl))
any_overlap_iff lo hi (p ∷ ps) h w =
    let rest = any_overlap_iff lo hi ps h w.1 in
    (
      (λ e. (apart (omega (arith, w.0)) (ground arith), rest.0 (ground arith))),
      (λ a. elim a.0 [
        | inl (inl b) ↦ ground (arith, rest.1 a.1)
        | inl (inr b) ↦ ground (arith, rest.1 a.1)
        | inr b ↦ ground (arith, rest.1 a.1)
      ]),
    )
  where
    apart :
        p.lo ≤ p.hi
        → overlaps lo hi p ≡ false
        → Apart (record { lo = lo; hi = hi }) p ⊎ Encloses (record { lo = lo; hi = hi }) p
    apart v e = elim (dec_lt hi p.lo) [
      | yes q ↦ inl (inl q)
      | no q ↦ elim (dec_lt p.hi lo) [
        | yes r ↦ inl (inr r)
        | no r ↦ inr (ground arith, ground arith)
      ]
    ]

-- What `add_range` asks of a payload: aligned, in the heap, and each other payload either shares no
-- byte with it or lies strictly inside it.
pub record Accepts (m : Memory) (new : Range) (ranges : List Range) : Type 0 where
  pub aligned : new.lo % alignment ≡ 0
  pub above : mem_heap_lo m ≤ new.lo
  pub below : new.hi ≤ mem_heap_hi m
  pub others : All (λ q. Apart new q ⊎ Encloses new q) ranges

abbrev pub payload : ℕ → ℕ → Range
payload lo size = record { lo = lo; hi = lo + size - 1 }

-- For a size above 0, `add_range` puts the payload in front of the list and returns 1 exactly when
-- it is aligned, in the heap, and no other payload has a byte in common with it without lying
-- strictly inside it; else it returns 0 and leaves the list.
pub add_range_iff :
    (m : Memory) (lo n : ℕ) (ranges : List Range)
    → All (λ p. p.lo ≤ p.hi) ranges
    → ((add_range m lo (suc n) ranges ≡ some (true, payload lo (suc n) ∷ ranges))
        × Accepts m (payload lo (suc n)) ranges)
      ⊎ ((add_range m lo (suc n) ranges ≡ some (false, ranges))
          × ¬ Accepts m (payload lo (suc n)) ranges)
unfolding add_range
add_range_iff m lo n ranges w = elim (Bool-cases (is_aligned lo)) [
  | inr e ↦ inr (rw e, λ a. absurd (ground (arith, a.aligned)))
  | inl e ↦ elim (Bool-cases (outside_heap m lo (lo + suc n - 1))) [
    | inl f ↦ inr (rw (e, f), λ a. absurd (ground (arith, a.above, a.below)))
    | inr f ↦ elim (Bool-cases (any_overlap lo (lo + suc n - 1) ranges)) [
      | inl g ↦ inr (rw (e, f, g), λ a. absurd (cc (g, iff.1 a.others)))
      | inr g ↦ inl (
        rw (e, f, g),
        record {
          aligned = ground arith;
          above = ground arith;
          below = ground arith;
          others = iff.0 g;
        },
      )
    ]
  ]
]
  where
    iff :
        (any_overlap lo (lo + suc n - 1) ranges ≡ false)
        ↔ All (λ q. Apart (payload lo (suc n)) q ⊎ Encloses (payload lo (suc n)) q) ranges
    iff = any_overlap_iff lo (lo + suc n - 1) ranges (omega arith) w

-- `add_range` does not see a payload that the new one encloses: where it is aligned and in the
-- heap, it is accepted although it overlaps that payload.
pub add_range_misses_enclosed :
    (m : Memory) (lo n : ℕ) (q : Range)
    → lo % alignment ≡ 0
    → mem_heap_lo m ≤ lo
    → lo + n ≤ mem_heap_hi m
    → lo < q.lo
    → q.lo ≤ q.hi
    → q.hi < lo + n
    → (add_range m lo (suc n) (q ∷ []) ≡ some (true, payload lo (suc n) ∷ q ∷ []))
      × ¬ Apart (payload lo (suc n)) q
add_range_misses_enclosed m lo n q a l h c v d = elim (add_range_iff m lo n (q ∷ []) (v, tt)) [
  | inl (e, _) ↦ (e, λ p. absurd (ground arith))
  | inr (e, no_accept) ↦ absurd (
      no_accept (record {
        aligned = a;
        above = l;
        below = omega arith;
        others = (inr (omega arith, omega arith), tt);
      }))
]

All-map-Inside :
    (m m' : Memory) (ranges : List Range)
    → m'.start_brk ≡ m.start_brk
    → m.brk ≤ m'.brk
    → All (Inside m) ranges
    → All (Inside m') ranges
All-map-Inside m m' [] e h a = tt
All-map-Inside m m' (p ∷ ps) e h (a, rest) = (omega arith, All-map-Inside m m' ps e h rest)

Apart-All :
    (m : Memory) (n : ℕ) (ranges : List Range)
    → 0 < m.brk
    → All (Inside m) ranges
    → All (λ p. p.lo ≤ p.hi) ranges
      × All (Apart (payload m.brk n)) ranges
      × All (λ q. Apart (payload m.brk n) q ⊎ Encloses (payload m.brk n) q) ranges
Apart-All m n [] h a = (tt, tt, tt)
Apart-All m n (p ∷ ps) h (a, rest) =
    let (x, y, z) = Apart-All m n ps h rest in
    let far : p.hi < m.brk = omega arith in ((omega arith, x), (inr far, y), (inl (inr far), z))

-- Where the heap's end is aligned and the payloads in use lie in the heap and share no byte, the
-- area of `mem_sbrk` for a positive size within the limit passes the check of the driver, and the
-- payloads still lie in the heap and share no byte.
pub mem_sbrk-add_range :
    (m : Memory) (n : ℕ) (ranges : List Range)
    → 0 < m.start_brk
    → m.start_brk ≤ m.brk
    → m.brk % alignment ≡ 0
    → n + 1 < 2 ^ 31
    → m.brk + (n + 1) ≤ m.max_addr
    → All (Inside m) ranges
    → Disjoint ranges
    → (m' : Memory) × (ranges' : List Range) × (mem_sbrk (n + 1) m ≡ (some m.brk, m'))
      × (add_range m' m.brk (suc n) ranges ≡ some (true, ranges'))
      × All (Inside m') ranges'
      × Disjoint ranges'
unfolding Disjoint
mem_sbrk-add_range m n ranges p s a w l inside d =
    let m' : Memory = record m { brk = m.brk + (n + 1) } in
    let (x, y, z) = Apart-All m (suc n) ranges (omega arith) inside in
    let accepts : Accepts m' (payload m.brk (suc n)) ranges = record {
      aligned = a;
      above = s;
      below = omega arith;
      others = z;
    } in
    let new : Inside m' (payload m.brk (suc n)) = omega arith in
    elim (add_range_iff m' m.brk n ranges x) [
      | inl (e, _) ↦ (
        m',
        payload m.brk (suc n) ∷ ranges,
        extended,
        e,
        (new, All-map-Inside m m' ranges refl (omega arith) inside),
        (y, d),
      )
      | inr (e, no_accept) ↦ absurd (no_accept accepts)
    ]
  where
    extended : mem_sbrk (n + 1) m ≡ (some m.brk, record m { brk = m.brk + (n + 1) })
    extended = mem_sbrk_lem m (n + 1) w l

pub All-remove_range {ℓ} :
    (P : Range → Type ℓ) (lo : ℕ) (ranges : List Range)
    → All P ranges
    → All P (remove_range lo ranges)
unfolding remove_range
All-remove_range P lo [] a = tt
All-remove_range P lo (p ∷ ps) (a, rest) = elim (Bool-cases (p.lo == lo)) [
  | inl e ↦ rw e rest
  | inr e ↦ rw e (a, All-remove_range P lo ps rest)
]

Apart-others :
    (m : Memory) (p : Range) (ps : List Range)
    → Inside m p
    → All (Inside m) ps
    → All (Apart p) ps
    → All (λ q. q.lo ≢ p.lo) ps
Apart-others m p [] i a d = tt
Apart-others m p (q ∷ qs) i (a, rest) (d, ds) =
    ((λ e. absurd (ground arith)), Apart-others m p qs i rest ds)

-- `remove_range` leaves no payload that starts at the address, and what is left still lies in the
-- heap and shares no byte.
pub remove_range-Disjoint :
    (m : Memory) (lo : ℕ) (ranges : List Range)
    → All (Inside m) ranges
    → Disjoint ranges
    → All (λ p. p.lo ≢ lo) (remove_range lo ranges)
      × All (Inside m) (remove_range lo ranges)
      × Disjoint (remove_range lo ranges)
unfolding remove_range Disjoint
remove_range-Disjoint m lo [] inside d = (tt, tt, tt)
remove_range-Disjoint m lo (p ∷ ps) inside d = elim (Bool-cases (p.lo == lo)) [
  | inl e ↦
      let same : p.lo ≡ lo = ground arith in
      rw e (rw same at (Apart-others m p ps inside.0 inside.1 d.0), inside.1, d.1)
  | inr e ↦
      let (x, y, z) = remove_range-Disjoint m lo ps inside.1 d.1 in
      rw e ((ground arith, x), (inside.0, y), (All-remove_range (Apart p) lo ps d.0, z))
]
