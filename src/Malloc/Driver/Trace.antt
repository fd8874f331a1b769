-- ===== src/Malloc/Driver/Trace.antt =====
-- malloclab/mdriver.c: `read_trace`, from the header and the request lines that `fscanf` reads, a
-- line as its first character and its numbers. `none` is a bogus character, a write past the array
-- of requests, or a failed assertion.
use csapp.Common.{
  ℕ, zero, suc, ◌+◌, ◌-◌, ◌%◌, ◌^◌, ◌≤◌, ◌<◌, ◌≡◌, refl, inl, inr, true, ◌&&◌, Option, none, some,
  List, [], ◌∷◌, ltb, ◌==◌, if◌then◌else◌, length, All, Bool-cases, arith, ◌>>=◌,
}
use mathlib.Core.Path.{subst}
use csapp.Malloc.Driver.{TraceOp, alloc, realloc, free}

abbrev larger_index : ℕ → ℕ → ℕ
larger_index index max_index = if ltb max_index index then index else max_index

-- A request, and `max_index` after it.
pub read_op : ℕ × ℕ × ℕ → ℕ → Option (TraceOp × ℕ)
read_op (type, index, size) max_index =
    if type == b'a'
    then some (alloc index size, larger_index index max_index)
    else if type == b'r'
    then some (realloc index size, larger_index index max_index)
    else if type == b'f'
    then some (free index, max_index)
    else none

-- The loop, with the room left in `ops`: the requests, and `max_index` at the end.
pub read_ops : ℕ → List (ℕ × ℕ × ℕ) → ℕ → Option (List TraceOp × ℕ)
unfolding read_op
read_ops room [] max_index = some ([], max_index)
read_ops zero (line ∷ lines) max_index = none
read_ops (suc room) (line ∷ lines) max_index = do
  (op, largest) ← read_op line max_index
  (ops, last) ← read_ops room lines largest
  some (op ∷ ops, last)

pub read_trace : ℕ → ℕ → List (ℕ × ℕ × ℕ) → Option (List TraceOp)
unfolding read_ops
read_trace num_ids num_ops lines = do
  (ops, max_index) ← read_ops num_ops lines 0
  if max_index == (num_ids + (2 ^ 32 - 1)) % 2 ^ 32 && length ops == num_ops then some ops else none

-- The index of a request that `read_trace` checks: `f` lines are not.
abbrev pub Indexed : ℕ → TraceOp → Type 0
Indexed n (alloc index size) = index < n
Indexed n (realloc index size) = index < n
Indexed n (free index) = Unit

abbrev pub Read : ℕ → Option (List TraceOp × ℕ) → Type 0
Read max_index none = Unit
Read max_index (some (ops, last)) = (max_index ≤ last) × All (Indexed (last + 1)) ops

abbrev OpRead : ℕ → Option (TraceOp × ℕ) → Type 0
OpRead max_index none = Unit
OpRead max_index (some (op, largest)) =
    (max_index ≤ largest) × ((last : ℕ) → largest ≤ last → Indexed (last + 1) op)

read_op-OpRead : (line : ℕ × ℕ × ℕ) (max_index : ℕ) → OpRead max_index (read_op line max_index)
unfolding read_op
read_op-OpRead (type, index, size) max_index = elim (Bool-cases (type == b'a')) [
  | inl e ↦ rw e (ground arith, λ last h. ground arith)
  | inr e ↦ elim (Bool-cases (type == b'r')) [
    | inl f ↦ rw (e, f) (ground arith, λ last h. ground arith)
    | inr f ↦ elim (Bool-cases (type == b'f')) [
      | inl g ↦ rw (e, f, g) (omega arith, λ last h. tt)
      | inr g ↦ rw (e, f, g) tt
    ]
  ]
]

read_ops-Read :
    (room : ℕ) (lines : List (ℕ × ℕ × ℕ)) (max_index : ℕ)
    → Read max_index (read_ops room lines max_index)
unfolding read_ops
read_ops-Read room [] max_index = (omega arith, tt)
read_ops-Read zero (line ∷ lines) max_index = tt
read_ops-Read (suc room) (line ∷ lines) max_index =
    join (read_op line max_index) (λ largest. read_ops room lines largest)
      (read_op-OpRead line max_index) (λ largest. read_ops-Read room lines largest)
  where
    join :
        (o : Option (TraceOp × ℕ)) (rest : ℕ → Option (List TraceOp × ℕ))
        → OpRead max_index o
        → ((largest : ℕ) → Read largest (rest largest))
        → Read max_index
            (o >>= λ (op, largest). rest largest >>= λ (ops, last). some (op ∷ ops, last))
    join none rest h k = tt
    join (some (op, largest)) rest (h, l) k = finish (rest largest) (k largest)
      where
        finish :
            (r : Option (List TraceOp × ℕ))
            → Read largest r
            → Read max_index (r >>= λ (ops, last). some (op ∷ ops, last))
        finish none q = tt
        finish (some (ops, last)) (q, a) = (omega (arith, h), (l last q, a))

-- As many requests as the header says, with indices within the arrays.
abbrev pub Traced : ℕ → ℕ → Option (List TraceOp) → Type 0
Traced num_ids num_ops none = Unit
Traced num_ids num_ops (some ops) = (length ops ≡ num_ops) × All (Indexed num_ids) ops

-- What `read_trace` returns has as many requests as the header says, and the indices of its
-- allocations and reallocations are within the arrays of the header's size; those of its frees are
-- not checked.
pub read_trace-Traced :
    (num_ids num_ops : ℕ) (lines : List (ℕ × ℕ × ℕ))
    → 0 < num_ids
    → num_ids < 2 ^ 31
    → Traced num_ids num_ops (read_trace num_ids num_ops lines)
unfolding read_trace
read_trace-Traced num_ids num_ops lines h l =
    finish (read_ops num_ops lines 0) (read_ops-Read num_ops lines 0)
  where
    finish :
        (r : Option (List TraceOp × ℕ))
        → Read 0 r
        → Traced num_ids num_ops (
            r >>= λ (ops, max_index).
            if max_index == (num_ids + (2 ^ 32 - 1)) % 2 ^ 32 && length ops == num_ops
            then some ops
            else none)
    finish none q = tt
    finish (some (ops, last)) (q, a) =
        elim (Bool-cases (last == (num_ids + (2 ^ 32 - 1)) % 2 ^ 32 && length ops == num_ops)) [
          | inr e ↦ rw e tt
          | inl e ↦
              let exact : last + 1 ≡ num_ids = ground arith in
              rw e (ground arith, subst (λ n. All (Indexed n) ops) exact a)
        ]

-- The line of a request in a trace file, and the largest index of allocations and reallocations.
abbrev pub line_of : TraceOp → ℕ × ℕ × ℕ
line_of (alloc index size) = (b'a', index, size)
line_of (realloc index size) = (b'r', index, size)
line_of (free index) = (b'f', index, 0)

abbrev pub lines_of : List TraceOp → List (ℕ × ℕ × ℕ)
lines_of [] = []
lines_of (op ∷ ops) = line_of op ∷ lines_of ops

abbrev top_of : TraceOp → ℕ → ℕ
top_of (alloc index size) m = larger_index index m
top_of (realloc index size) m = larger_index index m
top_of (free index) m = m

abbrev pub top_index : ℕ → List TraceOp → ℕ
top_index m [] = m
top_index m (op ∷ ops) = top_index (top_of op m) ops

read_op-line_of : (op : TraceOp) (m : ℕ) → read_op (line_of op) m ≡ some (op, top_of op m)
unfolding read_op
read_op-line_of (alloc index size) m = refl
read_op-line_of (realloc index size) m = refl
read_op-line_of (free index) m = refl

read_ops-lines_of :
    (ops : List TraceOp) (m : ℕ)
    → read_ops (length ops) (lines_of ops) m ≡ some (ops, top_index m ops)
unfolding read_ops
read_ops-lines_of [] m = refl
read_ops-lines_of (op ∷ ops) m = rw (read_op-line_of op m, read_ops-lines_of ops (top_of op m)) refl

-- `read_trace` reads back the lines of every list of requests under a header with their number, and
-- with one id more than their largest index.
pub read_trace-lines_of :
    (ops : List TraceOp) (num_ids : ℕ)
    → top_index 0 ops + 1 ≡ num_ids
    → num_ids < 2 ^ 32
    → read_trace num_ids (length ops) (lines_of ops) ≡ some ops
unfolding read_trace
read_trace-lines_of ops num_ids h l =
    let e : (top_index 0 ops == (num_ids + (2 ^ 32 - 1)) % 2 ^ 32) ≡ true = ground arith in
    let n : (length ops == length ops) ≡ true = ground arith in
    rw (read_ops-lines_of ops 0, e, n) refl
