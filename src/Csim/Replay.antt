-- ===== src/Csim/Replay.antt =====
-- The trace loop of `main` of csim.c: what each line of a trace does, and the totals.
use csapp.Common.{
  ℕ, zero, suc, ◌+◌, ◌^◌, ◌≤◌, ◌<◌, ◌≡◌, refl, sym, ◌∙◌, ap, true, false, some, List, [], ◌∷◌, ◌==◌,
  if◌then◌else◌, length, arith, Bool-cases, inl, inr, some, All,
}
use mathlib.Core.Option.{some-injective}
use csapp.Csim.{
  Line, Log, hit, miss, miss_eviction, Sim, tag_of, index_of, run_once, run_twice, run_line, replay,
  rows, tables, start,
}
use csapp.Csim.Lines.{resident, is_vacant, WfLines}
use csapp.Csim.Cache.{Valid, WfSet, Ran, Counted, access_cache-Ran}

-- The characters that `strcat` appends to `access_log`.
abbrev pub width : Log → ℕ
width hit = 4
width miss = 5
width miss_eviction = 14

abbrev pub total_width : List Log → ℕ
total_width [] = 0
total_width (l ∷ ls) = width l + total_width ls

-- The accesses that a line of the trace makes.
abbrev pub accesses : ℕ → ℕ
accesses access_type =
    if access_type == b'L'
    then 1
    else if access_type == b'M'
    then 2
    else if access_type == b'S'
    then 1
    else 0

-- An access to the address just accessed hits.
again-hit :
    {sim sim' sim'' : Sim} {address : ℕ} {log log' : Log}
    → Ran sim address log sim'
    → Ran sim' address log' sim''
    → log' ≡ hit
again-hit {sim} {sim'} {address = address} r r' =
    let t : tag_of sim' address ≡ tag_of sim address = rw (r.counted.same_s, r.counted.same_b) in
    let i : index_of sim' address ≡ index_of sim address =
      rw (r.counted.same_s, r.counted.same_b) in
    let e : r'.before ≡ r.after =
      some-injective r'.before r.after (sym r'.selected ∙ rw i r.stored) in
    let h : resident (tag_of sim' address) r'.before ≡ true = rw (t, e) r.accessed.held in
    r'.accessed.logged ∙ rw h

-- What one line of the trace does: the counts grow by its accesses.
pub record LineRan (sim : Sim) (access_type : ℕ) (logs : List Log) (sim' : Sim) : Type 0 where
  pub valid : Valid sim'
  pub total :
      sim'.hit_count + sim'.miss_count ≡ sim.hit_count + sim.miss_count + accesses access_type
  pub evictions : sim'.eviction_count + sim.miss_count ≤ sim'.miss_count + sim.eviction_count
  pub fits : total_width logs < 20
  pub logged : length logs ≡ accesses access_type

Counted-total :
    (log : Log) {sim sim' : Sim}
    → Counted sim log sim'
    → (sim'.hit_count + sim'.miss_count ≡ sim.hit_count + sim.miss_count + 1)
      × (sim'.eviction_count + sim.miss_count ≤ sim'.miss_count + sim.eviction_count)
      × (width log ≤ 14)
Counted-total hit c = ground arith
Counted-total miss c = ground arith
Counted-total miss_eviction c = ground arith

run_once-LineRan :
    (access_type : ℕ)
    → accesses access_type ≡ 1
    → (sim : Sim) (address : ℕ) → Valid sim
    → (logs : List Log) × (sim' : Sim) × (run_once sim address ≡ some (logs, sim'))
      × LineRan sim access_type logs sim'
unfolding run_once
run_once-LineRan access_type one sim address v =
    let (log, sim', e, r) = access_cache-Ran sim address v in
    let c = Counted-total log r.counted in
    (
      log ∷ [],
      sim',
      rw e,
      record {
        valid = r.valid;
        total = c.0 ∙ rw one;
        evictions = c.1;
        fits = omega (arith, c.2);
        logged = rw one;
      },
    )

run_twice-LineRan :
    (access_type : ℕ)
    → accesses access_type ≡ 2
    → (sim : Sim) (address : ℕ) → Valid sim
    → (logs : List Log) × (sim' : Sim) × (run_twice sim address ≡ some (logs, sim'))
      × LineRan sim access_type logs sim'
unfolding run_twice
run_twice-LineRan access_type two sim address v =
    let (log, sim₁, e, r) = access_cache-Ran sim address v in
    let (log', sim₂, e', r') = access_cache-Ran sim₁ address r.valid in
    let c = Counted-total log r.counted in
    let c' = Counted-total log' r'.counted in
    (
      log ∷ log' ∷ [],
      sim₂,
      rw (e, e'),
      record {
        valid = r'.valid;
        total = omega (arith, c.0, c'.0, two);
        evictions = omega (arith, c.1, c'.1);
        fits = rw (again-hit r r') (omega (arith, c.2));
        logged = rw two;
      },
    )

-- On a valid simulator every line of a trace runs. It makes one access for `L` and `S`, two for `M` and none for any
-- other character; each counts once as a hit or a miss; the evictions grow by no more than the misses; and what it
-- appends to `access_log` fits the 20 bytes with the closing null.
pub run_line-LineRan :
    (sim : Sim) (access_type address : ℕ)
    → Valid sim
    → (logs : List Log) × (sim' : Sim) × (run_line sim access_type address ≡ some (logs, sim'))
      × LineRan sim access_type logs sim'
unfolding run_line
run_line-LineRan sim access_type address v = elim (Bool-cases (access_type == b'L')) [
  | inl l ↦ rw l (run_once-LineRan access_type (rw l) sim address v)
  | inr l ↦ elim (Bool-cases (access_type == b'M')) [
    | inl m ↦ rw (l, m) (run_twice-LineRan access_type (rw (l, m)) sim address v)
    | inr m ↦ elim (Bool-cases (access_type == b'S')) [
      | inl s ↦ rw (l, m, s) (run_once-LineRan access_type (rw (l, m, s)) sim address v)
      | inr s ↦ (
        [],
        sim,
        rw (l, m, s),
        record {
          valid = v;
          total = ground arith;
          evictions = omega arith;
          fits = omega arith;
          logged = ground arith;
        },
      )
    ]
  ]
]

pub total_accesses : List (ℕ × ℕ) → ℕ
total_accesses [] = 0
total_accesses ((access_type, address) ∷ lines) = accesses access_type + total_accesses lines

-- The replay of a trace from a well-formed simulator ends, in a well-formed one. Every access of
-- the trace is counted exactly once, as a hit or as a miss, and evictions stay within the misses.
replay_counts :
    (lines : List (ℕ × ℕ)) (sim : Sim)
    → Valid sim
    → sim.eviction_count ≤ sim.miss_count
    → (sim' : Sim) × (replay sim lines ≡ some sim')
      × Valid sim'
      × (sim'.hit_count + sim'.miss_count ≡ sim.hit_count + sim.miss_count + total_accesses lines)
      × (sim'.eviction_count ≤ sim'.miss_count)
unfolding replay total_accesses
replay_counts [] sim v h = (sim, refl, v, omega arith, h)
replay_counts ((access_type, address) ∷ lines) sim v h =
    let (logs, sim₁, e, r) = run_line-LineRan sim access_type address v in
    let (sim₂, e', v', total, below) =
      replay_counts lines sim₁ r.valid (omega (arith, r.evictions)) in
    (sim₂, rw e e', v', omega (arith, total, r.total), below)

length-rows : (memory : ℕ → Line) (j n : ℕ) → length (rows memory j n) ≡ n
unfolding rows
length-rows memory j zero = refl
length-rows memory j (suc n) = ap suc (length-rows memory (j + 1) n)

length-tables : (memory : ℕ → ℕ → Line) (E i n : ℕ) → length (tables memory E i n) ≡ n
unfolding tables
length-tables memory E i zero = refl
length-tables memory E i (suc n) = ap suc (length-tables memory E (i + 1) n)

module _ (memory : ℕ → ℕ → Line) (zeroed : (i j : ℕ) → (memory i j).valid ≡ false) where
  vacant-rows : (i j n : ℕ) → is_vacant (rows (memory i) j n) ≡ true
  unfolding rows
  vacant-rows i j zero = refl
  vacant-rows i j (suc n) = rw (zeroed i j) (vacant-rows i (j + 1) n)

  WfLines-rows : (i j n : ℕ) → WfLines (rows (memory i) j n)
  unfolding rows
  WfLines-rows i j zero = tt
  WfLines-rows i j (suc n) = (
    λ e. vacant-rows i (j + 1) n,
    λ e. absurd (ground (arith, zeroed i j)),
    WfLines-rows i (j + 1) n,
  )

  WfSet-tables : (E i n : ℕ) → All (WfSet E) (tables memory E i n)
  unfolding tables
  WfSet-tables E i zero = tt
  WfSet-tables E i (suc n) = (
    record { lines = WfLines-rows i 0 E; size = length-rows (memory i) 0 E },
    WfSet-tables E (i + 1) n,
  )

  -- Where the memory for the lines comes with every `valid` clear, and a set has a line, the
  -- simulator that `main` sets up replays every trace, and its summary counts every access once.
  pub start-replay :
      (s E b : ℕ) (lines : List (ℕ × ℕ))
      → 0 < E
      → (sim' : Sim) × (replay (start memory s E b) lines ≡ some sim')
        × Valid sim'
        × (sim'.hit_count + sim'.miss_count ≡ total_accesses lines)
        × (sim'.eviction_count ≤ sim'.miss_count)
  unfolding start
  start-replay s E b lines h =
      let v : Valid (start memory s E b) = record {
        associative = h;
        set_count = length-tables memory E 0 (2 ^ s);
        each_set = WfSet-tables E 0 (2 ^ s);
      } in
      let (sim', e, v', total, below) = replay_counts lines (start memory s E b) v (omega arith) in
      (sim', e, v', omega (arith, total), below)
