-- ===== src/Proxy/Store.antt =====
-- proxylab/proxy.c: the cache of objects. A line's buffer is a function of the index; a C string is
-- the list of its bytes, without the closing null.
pub mod Oldest
pub mod Written
pub mod Served
use mathlib.Core.Option
use csapp.Common.{
  ℕ, zero, suc, ◌+◌, ◌-◌, Bool, true, false, not, ◌&&◌, Option, none, some, List, [], ◌∷◌, ltb,
  ◌==◌, if◌then◌else◌, get_elem?, set, length, replicate,
}

abbrev pub max_object_size : ℕ
max_object_size = 102400

-- The bytes of `url`.
abbrev pub max_url : ℕ
max_url = 8192

abbrev pub cache_lines : ℕ
cache_lines = 10

pub record CacheLine : Type 0 where
  pub buf : ℕ → ℕ
  pub url : List ℕ
  pub size : ℕ
  pub valid : Bool
  pub timestamp : ℕ

pub record Cache : Type 0 where
  pub line : List CacheLine
  pub current_time : ℕ

abbrev pub reset_line : CacheLine → CacheLine
reset_line l = record l { valid = false; timestamp = 0; size = 0 }

-- The loop of `cache_init`.
pub reset_lines : List CacheLine → List CacheLine
reset_lines [] = []
reset_lines (l ∷ ls) = reset_line l ∷ reset_lines ls

pub cache_init : Cache → Cache
unfolding reset_lines
cache_init c = record { line = reset_lines c.line; current_time = 0 }

-- `!strcmp(s, t)`
pub same_url : List ℕ → List ℕ → Bool
same_url [] [] = true
same_url [] (c ∷ cs) = false
same_url (b ∷ bs) [] = false
same_url (b ∷ bs) (c ∷ cs) = b == c && same_url bs cs

-- The loop of `find_cache_hit` goes on after a hit, so the last one counts.
pub find_from : List ℕ → ℕ → Option ℕ → List CacheLine → Option ℕ
find_from url i ret [] = ret
find_from url i ret (l ∷ ls) =
    find_from url (i + 1) (if l.valid && same_url l.url url then some i else ret) ls

unfoldable pub find_cache_hit : List ℕ → Cache → Option ℕ
unfolding find_from same_url
find_cache_hit url c = find_from url 0 none c.line

-- The first loop of `write_cache`.
pub first_free : ℕ → List CacheLine → Option ℕ
first_free i [] = none
first_free i (l ∷ ls) = let rest = first_free (i + 1) ls in if l.valid then rest else some i

-- The second loop, from the index i on. An int difference below 0 is not above `max_time`, as the
-- difference 0 is not.
pub oldest : ℕ → ℕ → ℕ → Option ℕ → List CacheLine → Option ℕ
oldest now i max_time idx [] = idx
oldest now i max_time idx (l ∷ ls) =
    let kept = oldest now (i + 1) max_time idx ls in
    let newer = oldest now (i + 1) (now - l.timestamp) (some i) ls in
    if l.valid && ltb max_time (now - l.timestamp) then newer else kept

-- `strcpy(dst, src)`: what stands behind the closing null stays.
pub strcpy : (ℕ → ℕ) → List ℕ → ℕ → ℕ
strcpy dst [] zero = 0
strcpy dst [] (suc i) = dst (suc i)
strcpy dst (c ∷ cs) zero = c
strcpy dst (c ∷ cs) (suc i) = strcpy (λ j. dst (suc j)) cs i

abbrev pub index_to_write : Cache → Option ℕ
index_to_write c = elim (first_free 0 c.line) [
  | some i ↦ some i
  | none ↦ oldest c.current_time 0 0 none c.line
]

abbrev pub written : CacheLine → List ℕ → List ℕ → ℕ → ℕ → CacheLine
written l buf url size now = record {
  buf = strcpy l.buf buf;
  url = url;
  size = size;
  valid = true;
  timestamp = now;
}

-- The two strings of `strcpy` with their null, in the arrays of a line.
abbrev pub fits_line : List ℕ → List ℕ → Bool
fits_line buf url = ltb (length buf) max_object_size && ltb (length url) max_url

-- The writes at the index; the index -1, one behind the lines, and a string that is too long for its
-- array are the result `none`.
abbrev pub write_at_index : List ℕ → List ℕ → ℕ → Cache → Option ℕ → Option Cache
write_at_index buf url size c none = none
write_at_index buf url size c (some i) =
    if fits_line buf url
    then Option.map
        (λ (l : CacheLine). record {
          line = set c.line i (written l buf url size (c.current_time + 1));
          current_time = c.current_time + 1;
        })
        (get_elem? c.line i)
    else none

pub write_cache : List ℕ → List ℕ → ℕ → Cache → Option Cache
unfolding first_free oldest
write_cache buf url size c =
    if ltb max_object_size size then some c else write_at_index buf url size c (index_to_write c)

-- What `doit` sends to the client on a hit: the first `size` bytes of the buffer.
pub bytes_of : (ℕ → ℕ) → ℕ → List ℕ
bytes_of buf zero = []
bytes_of buf (suc n) = buf 0 ∷ bytes_of (λ j. buf (suc j)) n

pub cached_reply : List ℕ → Cache → Option (List ℕ)
unfolding find_cache_hit bytes_of
cached_reply url c = elim (find_cache_hit url c) [
  | none ↦ none
  | some i ↦ Option.map (λ (l : CacheLine). bytes_of l.buf l.size) (get_elem? c.line i)
]
