-- ===== src/Malloc/Driver/Tests.antt =====
-- The driver of malloclab on an allocator that cuts every block from fresh memory, and the theorems
-- at inputs that meet their hypotheses.
use csapp.Common.{
  ℕ, ◌+◌, ◌-◌, ◌%◌, ◌≡◌, refl, true, ◌&&◌, Option, none, some, List, [], ◌∷◌, ltb, leb,
  if◌then◌else◌, arith, replicate,
}
use csapp.Malloc.Memlib.{Memory, mem_sbrk}
use csapp.Malloc.Ranges.{add_range, remove_range}
use csapp.Malloc.Ranges.Checked.{Checked}
use csapp.Malloc.Driver.{
  Allocator, TraceOp, alloc, realloc, free, Replay, Verdict, failed, passed, eval_mm_valid,
}
use csapp.Malloc.Driver.Plays.{Played}
use csapp.Malloc.Driver.Sound.{eval_mm_valid-Played}
use csapp.Malloc.Driver.Trace.{read_trace, Traced, read_trace-Traced, lines_of, read_trace-lines_of}

record Bump : Type 0 where
  memory : Memory
  byte : ℕ → ℕ

abbrev from_sbrk : Bump → Option ℕ × Memory → Option (ℕ × Bump)
from_sbrk b (none, memory) = some (0, b)
from_sbrk b (some p, memory) = some (p, record b { memory = memory })

abbrev copied : (ℕ → ℕ) → ℕ → ℕ → ℕ → ℕ → ℕ
copied byte p q n a = if leb q a && ltb a (q + n) then byte (p + (a - q)) else byte a

abbrev moved : ℕ → ℕ → Option (ℕ × Bump) → Option (ℕ × Bump)
moved p size none = none
moved p size (some (q, b)) = some (q, record b { byte = copied b.byte p q size })

abbrev round_up : ℕ → ℕ
round_up n = n + 3 - (n + 3) % 4

abbrev bump : Allocator
bump = record {
  State = Bump;
  reset_brk = λ b. record b { memory = record b.memory { brk = b.memory.start_brk } };
  init = λ b. some (true, b);
  malloc = λ size b. from_sbrk b (mem_sbrk (round_up size) b.memory);
  realloc = λ p size b. moved p size (from_sbrk b (mem_sbrk (round_up size) b.memory));
  free = λ p b. some b;
  heap = λ b. b.memory;
  byte = λ b. b.byte;
  fill = λ p v n b. record b { byte = λ a. if leb p a && ltb a (p + n) then v else b.byte a };
}

abbrev fresh : Replay bump
fresh = record {
  state = record {
    memory = record { start_brk = 4096; brk = 4096; max_addr = 8192 };
    byte = λ a. 0;
  };
  ranges = [];
  blocks = 0 ∷ 0 ∷ [];
  block_sizes = 0 ∷ 0 ∷ [];
}

abbrev requests : List TraceOp
requests = alloc 0 10 ∷ alloc 1 6 ∷ realloc 0 20 ∷ free 1 ∷ realloc 0 5 ∷ []

-- The replay at the end of a run that passes.
abbrev at_end : Option (Verdict bump) → Replay bump
at_end none = fresh
at_end (some (failed problem)) = fresh
at_end (some (passed r)) = r

abbrev played : Replay bump
played = at_end (eval_mm_valid bump requests fresh)

played_passes : eval_mm_valid bump requests fresh ≡ some (passed played)
unfolding eval_mm_valid mem_sbrk add_range remove_range
played_passes = refl

eval_mm_valid-Played_example :
    (s : Bump) × (bump.init (bump.reset_brk fresh.state) ≡ some (true, s))
    × Played bump requests (record fresh { state = s; ranges = [] }) played
    × Checked played.ranges
eval_mm_valid-Played_example = eval_mm_valid-Played bump requests fresh played played_passes

requests-Traced : Traced 2 5 (read_trace 2 5 (lines_of requests))
requests-Traced = read_trace-Traced 2 5 (lines_of requests) (omega arith) (omega arith)

reads_back : read_trace 2 5 (lines_of requests) ≡ some requests
reads_back = read_trace-lines_of requests 2 refl (omega arith)

abbrev many_blocks : Replay bump
many_blocks = record {
  state = record {
    memory = record { start_brk = 4096; brk = 4100; max_addr = 8192 };
    byte = λ a. 200;
  };
  ranges = record { lo = 4096; hi = 4099 } ∷ [];
  blocks = replicate 201 4096;
  block_sizes = replicate 201 4;
}

abbrev moved_bump : Bump
moved_bump = record {
  memory = record { start_brk = 4096; brk = 4104; max_addr = 8192 };
  byte = copied (λ a. 200) 4096 4100 4;
}

moved_once : bump.realloc 4096 4 many_blocks.state ≡ some (4100, moved_bump)
unfolding mem_sbrk
moved_once = refl

accepted_once :
    add_range moved_bump.memory 4100 4 (remove_range 4096 many_blocks.ranges)
    ≡ some (true, record { lo = 4100; hi = 4103 } ∷ [])
unfolding add_range remove_range
accepted_once = refl
