-- ===== src/Csim/Tests.antt =====
-- Runs of csim.c on small inputs, and the theorems at inputs that meet their hypotheses.
use csapp.Common.{ℕ, ◌+◌, ◌≤◌, ◌≡◌, refl, true, false, some, List, [], ◌∷◌, arith}
use csapp.Csim.{
  Line, Log, hit, miss_eviction, Sim, probe, age, finish, evict, access_set, access_cache, run_line,
  replay, start,
}
use csapp.Csim.Lines.{resident, WfLines}
use csapp.Csim.Cache.{Valid, Ran, access_cache-Ran}
use csapp.Csim.Replay.{LineRan, run_line-LineRan, total_accesses, start-replay}
use csapp.Csim.Lru.{access_tags, access_tags_not_lru}

abbrev two_lines : List Line
two_lines =
    record { valid = true; tag = 5; lru_counter = 1 }
    ∷ record { valid = true; tag = 9; lru_counter = 2 }
    ∷ []

abbrev small : Sim
small = record {
  s = 0;
  E = 2;
  b = 4;
  sets = two_lines ∷ [];
  hit_count = 3;
  miss_count = 2;
  eviction_count = 0;
}

abbrev cold : ℕ → ℕ → Line
cold i j = record { valid = false; tag = 77; lru_counter = 13 }

abbrev trace : List (ℕ × ℕ)
trace = (b'L', 0x10) ∷ (b'M', 0x20) ∷ (b'I', 0x30) ∷ (b'S', 0x10) ∷ []

two_lines-WfLines : WfLines two_lines
two_lines-WfLines = ground arith

small-Valid : Valid small
small-Valid = record {
  associative = omega arith;
  set_count = refl;
  each_set = (record { lines = two_lines-WfLines; size = refl }, tt);
}

-- The line with the bigger counter goes.
evicts_second :
    access_set 7 two_lines
    ≡ some (
      miss_eviction,
      record { valid = true; tag = 5; lru_counter = 2 }
          ∷ record { valid = true; tag = 7; lru_counter = 0 }
          ∷ [],
    )
unfolding access_set probe age finish evict
evicts_second = refl

access_cache-Ran_example :
    (log : Log) × (sim' : Sim) × (access_cache small 0x72 ≡ some (log, sim'))
    × Ran small 0x72 log sim'
access_cache-Ran_example = access_cache-Ran small 0x72 small-Valid

run_line-LineRan_example :
    (logs : List Log) × (sim' : Sim) × (run_line small b'M' 0x72 ≡ some (logs, sim'))
    × LineRan small b'M' logs sim'
run_line-LineRan_example = run_line-LineRan small b'M' 0x72 small-Valid

start-replay_example :
    (sim' : Sim) × (replay (start cold 1 2 4) trace ≡ some sim')
    × Valid sim'
    × (sim'.hit_count + sim'.miss_count ≡ total_accesses trace)
    × (sim'.eviction_count ≤ sim'.miss_count)
start-replay_example = start-replay cold (λ i j. refl) 1 2 4 trace (omega arith)

access_tags_not_lru_example :
    (ls' : List Line) × (access_tags (7 ∷ 5 ∷ 8 ∷ []) two_lines
      ≡ some (miss_eviction ∷ hit ∷ miss_eviction ∷ [], ls'))
    × (resident 5 ls' ≡ false)
    × (resident 7 ls' ≡ true)
access_tags_not_lru_example =
    access_tags_not_lru 5 9 7 8 1 2 (omega arith) (omega arith) (omega arith) (omega arith)
      (omega arith) (omega arith)
