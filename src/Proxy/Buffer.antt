-- ===== src/Proxy/Buffer.antt =====
-- proxylab/proxy.c: `produce` and `consume` on the connection buffer, as the steps of the threads
-- that run them. A thread is between two steps where another can run: after `P` of its semaphore
-- (`reserved`, `claimed`), and after its critical section under `mutex`, before its last `V`
-- (`filled`, `emptied`); the fields count the threads there.
pub mod Fifo
use csapp.Common.{ℕ, zero, suc, ◌+◌, ◌-◌, ◌%◌, ◌<◌, List, [], ◌∷◌, ◌==◌, if◌then◌else◌}

abbrev pub buffer_size : ℕ
buffer_size = 32

pub record Buffer : Type 0 where
  pub data_at : ℕ → ℕ
  pub front : ℕ
  pub tail : ℕ
  pub slots : ℕ
  pub items : ℕ
  pub reserved : ℕ
  pub filled : ℕ
  pub claimed : ℕ
  pub emptied : ℕ

abbrev pub write_at : (ℕ → ℕ) → ℕ → ℕ → ℕ → ℕ
write_at d i v j = if j == i then v else d j

-- `init_buffer`, with `memory` for what `Calloc` returns.
abbrev pub init_buffer : (ℕ → ℕ) → Buffer
init_buffer memory = record {
  data_at = memory;
  front = 0;
  tail = 0;
  slots = buffer_size;
  items = 0;
  reserved = 0;
  filled = 0;
  claimed = 0;
  emptied = 0;
}

-- `produce`: `P(&slots)`, the critical section, `V(&items)`.
unfoldable pub reserve : Buffer → Buffer
reserve b = record b { slots = b.slots - 1; reserved = b.reserved + 1 }

unfoldable pub put : ℕ → Buffer → Buffer
put item b = record b {
  data_at = write_at b.data_at ((b.tail + 1) % buffer_size) item;
  tail = b.tail + 1;
  reserved = b.reserved - 1;
  filled = b.filled + 1;
}

unfoldable pub post_item : Buffer → Buffer
post_item b = record b { filled = b.filled - 1; items = b.items + 1 }

-- `consume`: `P(&items)`, the critical section with the item it returns, `V(&slots)`.
pub claim : Buffer → Buffer
claim b = record b { items = b.items - 1; claimed = b.claimed + 1 }

pub take_item : Buffer → ℕ × Buffer
take_item b = (
  b.data_at ((b.front + 1) % buffer_size),
  record b { front = b.front + 1; claimed = b.claimed - 1; emptied = b.emptied + 1 },
)

pub post_slot : Buffer → Buffer
post_slot b = record b { emptied = b.emptied - 1; slots = b.slots + 1 }

-- One step of some thread, with the items put and taken by it. `P` passes where the semaphore is
-- positive, and the other steps need a thread that has come to them.
pub data Step (b : Buffer) : List ℕ → List ℕ → Buffer → Type 0 where
  reserves : 0 < b.slots → Step b [] [] (reserve b)
  puts : (item : ℕ) → 0 < b.reserved → Step b (item ∷ []) [] (put item b)
  posts_item : 0 < b.filled → Step b [] [] (post_item b)
  claims : 0 < b.items → Step b [] [] (claim b)
  takes : 0 < b.claimed → Step b [] ((take_item b).0 ∷ []) (take_item b).1
  posts_slot : 0 < b.emptied → Step b [] [] (post_slot b)
