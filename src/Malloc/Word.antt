-- ===== src/Malloc/Word.antt =====
-- The memory that malloclab/mm.c works on, by 32-bit words at their addresses, and commands that
-- read and write it. An access outside the region of malloclab/memlib.c and the block `head` is a
-- fault. The addresses of mm.c are multiples of 4, so that no two words overlap.
use csapp.Common.{
  ℕ, ◌+◌, ◌-◌, ◌*◌, ◌/◌, ◌%◌, ◌^◌, Bool, true, false, ◌&&◌, ◌||◌, Option, ltb, leb, ◌==◌,
  if◌then◌else◌,
}
use csapp.Malloc.Memlib.{Memory, mem_sbrk}

pub record Mm : Type 0 where
  pub word : ℕ → ℕ
  pub memory : Memory

-- `aborts` is a failed assertion, and `exits` the call `exit(1)`.
pub data Result (A : Type 0) : Type 0 where
  done : A → Mm → Result A
  fault : Result A
  aborts : Result A
  exits : Result A
  out_of_fuel : Result A

abbrev pub Cmd : Type 0 → Type 0
Cmd A = Mm → Result A

abbrev pub pure : {A : Type 0} → A → Cmd A
pure = done

module _ {A B : Type 0} where
  abbrev pub and_then : Result A → (A → Cmd B) → Result B
  and_then (done a m) k = k a m
  and_then fault k = fault
  and_then aborts k = aborts
  and_then exits k = exits
  and_then out_of_fuel k = out_of_fuel

  infixl 5 ◌>>=◌ ◌>>◌
  abbrev pub ◌>>=◌ : Cmd A → (A → Cmd B) → Cmd B
  m >>= k = λ s. and_then (m s) k

  abbrev pub ◌>>◌ : Cmd A → Cmd B → Cmd B
  m >> n = m >>= λ _. n

-- `size_t` and pointer arithmetic.
abbrev pub add32 : ℕ → ℕ → ℕ
add32 a b = (a + b) % 2 ^ 32

abbrev pub sub32 : ℕ → ℕ → ℕ
sub32 a b = (a + (2 ^ 32 - b)) % 2 ^ 32

abbrev pub update : (ℕ → ℕ) → ℕ → ℕ → ℕ → ℕ
update word p v q = if q == p then v else word q

-- `head` is a block of three words.
abbrev pub reaches : ℕ → Memory → ℕ → Bool
reaches head m p =
    (leb m.start_brk p && leb (p + 4) m.max_addr) || (leb head p && leb (p + 4) (head + 12))

unfoldable pub load : ℕ → ℕ → Cmd ℕ
load head p m = if reaches head m.memory p then done (m.word p) m else fault

unfoldable pub store : ℕ → ℕ → ℕ → Cmd (Unit {0})
store head p v m =
    if reaches head m.memory p then done tt (record m { word = update m.word p v }) else fault

abbrev pub assert : Bool → Cmd (Unit {0})
assert true = pure tt
assert false = λ m. aborts

-- `mem_sbrk`, with its result of -1 as `none`.
unfoldable pub sbrk : ℕ → Cmd (Option ℕ)
sbrk incr m = let (p, memory) = mem_sbrk incr m.memory in done p (record m { memory = memory })

-- `memset(p, 0, n)` on whole words.
unfoldable pub clear_words : ℕ → ℕ → Cmd (Unit {0})
clear_words p n m =
    done tt (record m { word = λ q. if leb p q && ltb q (p + n) then 0 else m.word q })

-- The word at q after `memcpy` of n bytes from `source` to `target`: the last word may keep its
-- upper bytes.
abbrev pub copied : (ℕ → ℕ) → ℕ → ℕ → ℕ → ℕ → ℕ
copied word target source n q =
    let i = q - target in
    let kept = 2 ^ (8 * (n - i)) in
    if ltb q target || leb n i
    then word q
    else if leb (i + 4) n
    then word (source + i)
    else word q / kept * kept + word (source + i) % kept

unfoldable pub memcpy : ℕ → ℕ → ℕ → Cmd (Unit {0})
memcpy target source n m =
    if leb m.memory.start_brk source
      && leb (source + n) m.memory.max_addr
      && leb (target + n) m.memory.max_addr
    then done tt (record m { word = copied m.word target source n })
    else fault
