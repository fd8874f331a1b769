-- ===== src/Csim.antt =====
-- cachelab/csim.c: the cache simulator. The global counters and the sets are one record; a write
-- through `eviction_index == -1` or an index outside the sets is the result `none`.
pub mod Lines
pub mod Victim
pub mod Access
pub mod Cache
pub mod Replay
pub mod Lru
mod Tests
use csapp.Common.{
  ℕ, zero, suc, ◌+◌, ◌-◌, ◌/◌, ◌%◌, ◌^◌, bit_and, Bool, true, false, Option, none, some, List, [],
  ◌∷◌, ltb, ◌==◌, if◌then◌else◌, get_elem?, set, ◌>>=◌,
}

pub record Line : Type 0 where
  pub valid : Bool
  pub tag : ℕ
  pub lru_counter : ℕ

-- What one access appends to `access_log`.
pub data Log : Type 0 where
  hit miss miss_eviction : Log

abbrev pub filled : ℕ → Line
filled tag = record { valid = true; tag = tag; lru_counter = 0 }

-- The first loop: it stops at a valid line with the tag, or at the first invalid line, which it
-- fills. `none` is `need_evict` left at 1.
pub probe : ℕ → List Line → List Line × Option Log
probe tag [] = ([], none)
probe tag (l ∷ ls) =
    let (ls', log) = probe tag ls in
    if l.valid
    then if l.tag == tag then (record l { lru_counter = 0 } ∷ ls, some hit) else (l ∷ ls', log)
    else (filled tag ∷ ls, some miss)

-- `eviction_index` and `max_counter`; `none` is the initial pair of -1.
abbrev pub Best : Type 0
Best = Option (ℕ × ℕ)

abbrev pub exceeds : Best → ℕ → Bool
exceeds none c = true
exceeds (some (i, m)) c = ltb m c

-- The second loop at index `i`.
pub age : ℕ → Best → List Line → Best × List Line
age i best [] = (best, [])
age i best (l ∷ ls) =
    let best' : Best = if exceeds best l.lru_counter then some (i, l.lru_counter) else best in
    let (b, ls') = age (i + 1) best' ls in (b, record l { lru_counter = l.lru_counter + 1 } ∷ ls')

-- The write at `eviction_index`.
pub evict : ℕ → Best → List Line → Option (Log × List Line)
evict tag none ls = none
evict tag (some (i, m)) ls = some (miss_eviction, set ls i (filled tag))

pub finish : ℕ → Option Log → Best → List Line → Option (Log × List Line)
finish tag (some log) best ls = some (log, ls)
finish tag none best ls = evict tag best ls

-- `access_cache` on the lines of the selected set.
pub access_set : ℕ → List Line → Option (Log × List Line)
access_set tag ls =
    let (ls', log) = probe tag ls in let (best, aged) = age 0 none ls' in finish tag log best aged

-- The globals: the geometry, the sets and the three counts.
pub record Sim : Type 0 where
  pub s : ℕ
  pub E : ℕ
  pub b : ℕ
  pub sets : List (List Line)
  pub hit_count : ℕ
  pub miss_count : ℕ
  pub eviction_count : ℕ

-- `unsigned int tag` and `int s_index`.
abbrev pub tag_of : Sim → ℕ → ℕ
tag_of sim address = address / 2 ^ (sim.s + sim.b) % 2 ^ 32

abbrev pub index_of : Sim → ℕ → ℕ
index_of sim address = bit_and (address / 2 ^ sim.b) (2 ^ sim.s - 1)

pub count : Log → Sim → Sim
count hit sim = record sim { hit_count = sim.hit_count + 1 }
count miss sim = record sim { miss_count = sim.miss_count + 1 }
count miss_eviction sim = record sim {
  miss_count = sim.miss_count + 1;
  eviction_count = sim.eviction_count + 1;
}

pub access_cache : Sim → ℕ → Option (Log × Sim)
access_cache sim address = do
  ls ← get_elem? sim.sets (index_of sim address)
  r ← access_set (tag_of sim address) ls
  some (r.0, count r.0 (record sim { sets = set sim.sets (index_of sim address) r.1 }))

run_once : Sim → ℕ → Option (List Log × Sim)
run_once sim address = do r ← access_cache sim address; some (r.0 ∷ [], r.1)

run_twice : Sim → ℕ → Option (List Log × Sim)
run_twice sim address = do
  r ← access_cache sim address
  r' ← access_cache r.1 address
  some (r.0 ∷ r'.0 ∷ [], r'.1)

-- The `switch` of `main` on one line of the trace, with what it leaves in `access_log`.
pub run_line : Sim → ℕ → ℕ → Option (List Log × Sim)
unfolding run_once run_twice
run_line sim access_type address =
    if access_type == b'L'
    then run_once sim address
    else if access_type == b'M'
    then run_twice sim address
    else if access_type == b'S'
    then run_once sim address
    else some ([], sim)

-- The `while` loop of `main`, over the lines that `fscanf` reads.
pub replay : Sim → List (ℕ × ℕ) → Option Sim
replay sim [] = some sim
replay sim ((access_type, address) ∷ lines) = do
  r ← run_line sim access_type address
  replay r.1 lines

-- `lines` as `malloc` returns it: `memory i j` is what stands there for line `j` of set `i`.
rows : (ℕ → Line) → ℕ → ℕ → List Line
rows memory j zero = []
rows memory j (suc n) = memory j ∷ rows memory (j + 1) n

tables : (ℕ → ℕ → Line) → ℕ → ℕ → ℕ → List (List Line)
unfolding rows
tables memory E i zero = []
tables memory E i (suc n) = rows (memory i) 0 E ∷ tables memory E (i + 1) n

-- The state of `main` before the first line of the trace. `1 << s` is an `int` shift, which is
-- 2 ^ s for s below 31.
pub start : (ℕ → ℕ → Line) → ℕ → ℕ → ℕ → Sim
unfolding tables
start memory s E b = record {
  s = s;
  E = E;
  b = b;
  sets = tables memory E 0 (2 ^ s);
  hit_count = 0;
  miss_count = 0;
  eviction_count = 0;
}
