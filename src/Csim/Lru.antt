-- ===== src/Csim/Lru.antt =====
-- The order in which csim.c evicts lines.
use csapp.Common.{ℕ, ◌<◌, ◌≡◌, ◌≢◌, true, false, some, Option, List, [], ◌∷◌, arith, ◌>>=◌}
use csapp.Csim.{Line, Log, hit, miss_eviction, access_set, probe, age, finish, evict}
use csapp.Csim.Lines.{resident}

-- A run of accesses to one set.
pub access_tags : List ℕ → List Line → Option (List Log × List Line)
access_tags [] ls = some ([], ls)
access_tags (t ∷ ts) ls = do r ← access_set t ls; r' ← access_tags ts r.1; some (r.0 ∷ r'.0, r'.1)

-- The eviction order is not least recently used. In a full set of two lines whose second is the
-- older, accesses to a new tag `a`, to the first line's `p` and to a new `c` evict `p`, which was
-- just used, and keep `a`: the second loop leaves `p` and `a` with equal counters.
pub access_tags_not_lru :
    (p q a c m n : ℕ)
    → m < n
    → p ≢ q
    → p ≢ a
    → q ≢ a
    → p ≢ c
    → a ≢ c
    → (ls' : List Line) × (access_tags (a ∷ p ∷ c ∷ []) (
          record { valid = true; tag = p; lru_counter = m }
          ∷ record { valid = true; tag = q; lru_counter = n }
          ∷ [])
        ≡ some (miss_eviction ∷ hit ∷ miss_eviction ∷ [], ls'))
      × (resident p ls' ≡ false)
      × (resident a ls' ≡ true)
unfolding access_tags access_set probe age evict finish
access_tags_not_lru p q a c m n h pq pa qa pc ac = (
  record { valid = true; tag = c; lru_counter = 0 }
      ∷ record { valid = true; tag = a; lru_counter = 2 }
      ∷ [],
  ground arith,
  ground arith,
  ground arith,
)
