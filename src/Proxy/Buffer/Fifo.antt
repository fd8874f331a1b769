-- ===== src/Proxy/Buffer/Fifo.antt =====
-- The connection buffer of proxy.c is a queue, for every interleaving of its threads.
use csapp.Common.{
  ℕ, zero, suc, ◌+◌, ◌-◌, ◌%◌, ◌≤◌, ◌<◌, ◌≡◌, refl, sym, ap, List, [], ◌∷◌, ◌++◌, ◌==◌, length,
  arith, false,
}
use mathlib.Core.List.{append-nil, append_assoc}
use native.Mathlib.Decide.{dec_lt}
use csapp.Proxy.Buffer.{
  Buffer, buffer_size, write_at, init_buffer, reserve, put, post_item, claim, take_item, post_slot,
  Step, reserves, puts, posts_item, claims, takes, posts_slot,
}

-- The items at n places of the buffer, from the place i on.
pub items_from : (ℕ → ℕ) → ℕ → ℕ → List ℕ
items_from d i zero = []
items_from d i (suc n) = d (i % buffer_size) ∷ items_from d (i + 1) n

pub contents : Buffer → List ℕ
unfolding items_from
contents b = items_from b.data_at (b.front + 1) (b.tail - b.front)

-- The semaphores and the threads on their way account for every place.
pub record Accounted (b : Buffer) : Type 0 where
  pub order : b.front ≤ b.tail
  pub occupied : b.tail ≡ b.front + b.filled + b.items + b.claimed
  pub places : b.slots + b.reserved + b.filled + b.items + b.claimed + b.emptied ≡ buffer_size

-- What the threads put and took, in the order of their critical sections.
pub data Run (memory : ℕ → ℕ) : List ℕ → List ℕ → Buffer → Type 0 where
  begin : Run memory [] [] (init_buffer memory)
  onward :
      {produced consumed ins outs : List ℕ} {b b' : Buffer}
      → Run memory produced consumed b
      → Step b ins outs b'
      → Run memory (produced ++ ins) (consumed ++ outs) b'

length-items_from : (d : ℕ → ℕ) (i n : ℕ) → length (items_from d i n) ≡ n
unfolding items_from
length-items_from d i zero = refl
length-items_from d i (suc n) = ap suc (length-items_from d (i + 1) n)

-- A write behind the n places changes none of them, and is the item of the next place.
items_from-write_at :
    (d : ℕ → ℕ) (i n j v : ℕ)
    → j ≡ i + n
    → n < buffer_size
    → items_from (write_at d (j % buffer_size) v) i (suc n) ≡ items_from d i n ++ (v ∷ [])
unfolding items_from
items_from-write_at d i zero j v e h = ground arith
items_from-write_at d i (suc n) j v e h =
    let other : (i % buffer_size == j % buffer_size) ≡ false = ground arith in
    rw other (
      ap (λ r. d (i % buffer_size) ∷ r)
        (items_from-write_at d (i + 1) n j v (omega arith) (omega arith)))

Step-Accounted :
    {b b' : Buffer} {ins outs : List ℕ} → Step b ins outs b' → Accounted b → Accounted b'
unfolding reserve put post_item claim take_item post_slot
Step-Accounted (reserves h) a = record {
  order = a.order;
  occupied = a.occupied;
  places = omega (arith, a.places);
}
Step-Accounted (puts item h) a = record {
  order = omega (arith, a.order);
  occupied = omega (arith, a.occupied);
  places = omega (arith, a.places);
}
Step-Accounted (posts_item h) a = record {
  order = a.order;
  occupied = omega (arith, a.occupied);
  places = omega (arith, a.places);
}
Step-Accounted (claims h) a = record {
  order = a.order;
  occupied = omega (arith, a.occupied);
  places = omega (arith, a.places);
}
Step-Accounted (takes h) a = record {
  order = omega (arith, a.occupied);
  occupied = omega (arith, a.occupied);
  places = omega (arith, a.places);
}
Step-Accounted (posts_slot h) a = record {
  order = a.order;
  occupied = a.occupied;
  places = omega (arith, a.places);
}

-- A step takes from the front of the queue and puts at its end.
Step-contents :
    {b b' : Buffer} {ins outs : List ℕ}
    → Step b ins outs b'
    → Accounted b
    → contents b ++ ins ≡ outs ++ contents b'
unfolding contents reserve put post_item claim take_item post_slot
Step-contents {b} (reserves h) a = append-nil (contents b)
Step-contents {b} (puts item h) a =
    let n : ℕ = b.tail - b.front in
    let grown : b.tail + 1 - b.front ≡ suc n = omega (arith, a.order) in
    rw grown (
      sym (
        items_from-write_at b.data_at (b.front + 1) n (b.tail + 1) item (omega (arith, a.order))
          (omega (arith, a.occupied, a.places))))
Step-contents {b} (posts_item h) a = append-nil (contents b)
Step-contents {b} (claims h) a = append-nil (contents b)
Step-contents {b} (takes h) a =
    let shrunk : b.tail - b.front ≡ suc (b.tail - (b.front + 1)) = omega (arith, a.occupied) in
    rw (append-nil (contents b), shrunk)
Step-contents {b} (posts_slot h) a = append-nil (contents b)

Run-Accounted :
    {memory : ℕ → ℕ} {produced consumed : List ℕ} {b : Buffer}
    → Run memory produced consumed b
    → Accounted b
Run-Accounted begin = record { order = omega arith; occupied = refl; places = refl }
Run-Accounted (onward r s) = Step-Accounted s (Run-Accounted r)

Run-order :
    {memory : ℕ → ℕ} {produced consumed : List ℕ} {b : Buffer}
    → Run memory produced consumed b
    → produced ≡ consumed ++ contents b
unfolding contents items_from
Run-order begin = refl
Run-order (onward {produced} {consumed} {ins} {outs} {b} {b'} q s) =
    rw
      (
        Run-order q,
        append_assoc consumed (contents b) ins,
        append_assoc consumed outs (contents b'),
      )
      (ap (λ (l : List ℕ). consumed ++ l) (Step-contents s (Run-Accounted q)))

-- For every interleaving of producers and consumers, the items taken are the items put, in the
-- same order, without those still in the buffer, of which there are 32 at most: no item is lost,
-- taken twice or overwritten.
pub Run-fifo :
    {memory : ℕ → ℕ} {produced consumed : List ℕ} {b : Buffer}
    → Run memory produced consumed b
    → (produced ≡ consumed ++ contents b) × (length (contents b) ≤ buffer_size)
unfolding contents
Run-fifo {b = b} r =
    let a = Run-Accounted r in
    (
      Run-order r,
      omega (
        arith,
        a.occupied,
        a.places,
        length-items_from b.data_at (b.front + 1) (b.tail - b.front),
      ),
    )

-- No deadlock: in every state that the threads reach, some thread that produces or consumes has a
-- step.
pub Run_open :
    {memory : ℕ → ℕ} {produced consumed : List ℕ} {b : Buffer}
    → Run memory produced consumed b
    → (ins outs : List ℕ) × (b' : Buffer) × Step b ins outs b'
Run_open {b = b} r = elim (dec_lt 0 b.slots) [
  | yes h ↦ ([], [], reserve b, reserves h)
  | no h ↦ elim (dec_lt 0 b.reserved) [
    | yes p ↦ (0 ∷ [], [], put 0 b, puts 0 p)
    | no p ↦ elim (dec_lt 0 b.filled) [
      | yes f ↦ ([], [], post_item b, posts_item f)
      | no f ↦ elim (dec_lt 0 b.items) [
        | yes i ↦ ([], [], claim b, claims i)
        | no i ↦ elim (dec_lt 0 b.claimed) [
          | yes c ↦ ([], (take_item b).0 ∷ [], (take_item b).1, takes c)
          | no c ↦
              ([], [], post_slot b, posts_slot (let a = Run-Accounted r in omega (arith, a.places)))
        ]
      ]
    ]
  ]
]
