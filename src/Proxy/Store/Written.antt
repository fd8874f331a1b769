-- ===== src/Proxy/Store/Written.antt =====
-- What `write_cache` of proxy.c does to the cache, and what a later request reads from it.
use mathlib.Core.Option.{some-injective}
use native.Mathlib.Decide.{ℕ_discrete}
use csapp.Common.{
  ℕ, zero, suc, ◌+◌, ◌≤◌, ◌<◌, ◌≡◌, ◌≢◌, ◌⊎◌, refl, sym, ◌∙◌, ap, inl, inr, true, false, none, some,
  List, [], ◌∷◌, ltb, get_elem?, set, length, arith, length-set, get_elem?-set_self,
  get_elem?-set_ne, get_elem?-some,
}
use csapp.Proxy.Store.{
  CacheLine, Cache, oldest, max_object_size, cache_lines, written, write_at_index, index_to_write,
  write_cache, max_url, fits_line, bytes_of,
}
use csapp.Proxy.Store.Oldest.{IsOldest, first_free_lem, oldest_lem, bytes_of-strcpy, null-strcpy}

-- Ten lines; the valid ones have different times, none of them in the future.
pub record Stamped (c : Cache) : Type 0 where
  pub size : length c.line ≡ cache_lines
  pub past :
      (i : ℕ) (l : CacheLine)
      → get_elem? c.line i ≡ some l
      → l.valid ≡ true
      → l.timestamp ≤ c.current_time
  pub distinct :
      (i j : ℕ) (l m : CacheLine)
      → get_elem? c.line i ≡ some l
      → get_elem? c.line j ≡ some m
      → l.valid ≡ true
      → m.valid ≡ true
      → l.timestamp ≡ m.timestamp
      → i ≡ j

-- A write goes to a free line, and where there is none to the line that was written first.
abbrev pub IsPlace : List CacheLine → ℕ → CacheLine → Type 0
IsPlace ls i l = ((get_elem? ls i ≡ some l) × (l.valid ≡ false)) ⊎ IsOldest ls i l

-- A valid line that holds the text with its null, the URL, the size and the time.
pub record Holds (l : CacheLine) (text address : List ℕ) (count now : ℕ) : Type 0 where
  pub content : bytes_of l.buf (length text) ≡ text
  pub null : l.buf (length text) ≡ 0
  pub url : l.url ≡ address
  pub size : l.size ≡ count
  pub valid : l.valid ≡ true
  pub timestamp : l.timestamp ≡ now

pub record Written (c : Cache) (buf url : List ℕ) (size : ℕ) (c' : Cache) : Type 0 where
  pub index : ℕ
  pub old : CacheLine
  pub place : IsPlace c.line index old
  pub now : c'.current_time ≡ c.current_time + 1
  pub new : CacheLine
  pub there : get_elem? c'.line index ≡ some new
  pub holds : Holds new buf url size (c.current_time + 1)
  pub others : (j : ℕ) → index ≢ j → get_elem? c'.line j ≡ get_elem? c.line j
  pub stamped : Stamped c'

written-Holds :
    (l : CacheLine) (buf url : List ℕ) (size now : ℕ)
    → Holds (written l buf url size now) buf url size now
written-Holds l buf url size now = record {
  content = bytes_of-strcpy l.buf buf;
  null = null-strcpy l.buf buf;
  url = refl;
  size = refl;
  valid = refl;
  timestamp = refl;
}

get_elem?-lt :
    (ls : List CacheLine) (i : ℕ) {l : CacheLine} → get_elem? ls i ≡ some l → i < length ls
get_elem?-lt [] i e = absurd (cc e)
get_elem?-lt (x ∷ xs) zero e = omega arith
get_elem?-lt (x ∷ xs) (suc i) e = omega (arith, get_elem?-lt xs i e)

-- Two of ten valid lines have different times, so one is older than now, and the second loop of
-- `write_cache` finds a line.
oldest-IsOldest :
    (c : Cache)
    → Stamped c
    → ((j : ℕ) (l : CacheLine) → get_elem? c.line j ≡ some l → l.valid ≡ true)
    → (i : ℕ) × (l : CacheLine) × (oldest c.current_time 0 0 none c.line ≡ some i)
      × IsOldest c.line i l
oldest-IsOldest c w full = elim (oldest_lem c.current_time 0 0 none c.line) [
  | inl (e, a) ↦
      let (l, g) = get_elem?-some c.line 0 (omega (arith, w.size)) in
      let (m, h) = get_elem?-some c.line 1 (omega (arith, w.size)) in
      let p = w.past 0 l g (full 0 l g) in
      let q = w.past 1 m h (full 1 m h) in
      let x = a 0 l g (full 0 l g) in
      let y = a 1 m h (full 1 m h) in
      absurd (omega (arith, w.distinct 0 1 l m g h (full 0 l g) (full 1 m h) (omega arith)))
  | inr (k, l, e, g, v, b, a) ↦ (
    k,
    l,
    e ∙ ap (λ (n : ℕ). some n) (omega arith),
    record {
      stands = g;
      is_valid = v;
      first = λ j l' h u. let x = a j l' h u in let p = w.past j l' h u in omega (arith, b);
    },
  )
]

IsPlace-found :
    (c : Cache)
    → Stamped c
    → (i : ℕ) × (l : CacheLine) × (index_to_write c ≡ some i)
      × (get_elem? c.line i ≡ some l)
      × IsPlace c.line i l
IsPlace-found c w = elim (first_free_lem 0 c.line) [
  | inr (i, l, e, g, v) ↦
      (i, l, rw (e, index_to_write) (ap (λ (n : ℕ). some n) (omega arith)), g, inl (g, v))
  | inl (e, full) ↦
      let (i, l, f, o) = oldest-IsOldest c w full in
      (i, l, rw (e, index_to_write) f, o.stands, inr o)
]

module _ (c : Cache) (w : Stamped c) (buf url : List ℕ) (size : ℕ) where
  abbrev after : ℕ → CacheLine → Cache
  after i old = record {
    line = set c.line i (written old buf url size (c.current_time + 1));
    current_time = c.current_time + 1;
  }

  after-Written :
      (i : ℕ) (old : CacheLine)
      → get_elem? c.line i ≡ some old
      → IsPlace c.line i old
      → Written c buf url size (after i old)
  after-Written i old g p = record {
    index = i;
    old = old;
    place = p;
    now = refl;
    new = new;
    there = there;
    holds = written-Holds old buf url size (c.current_time + 1);
    others = λ j n. get_elem?-set_ne c.line i j new n;
    stamped = record {
      size = length-set c.line i new ∙ w.size;
      past = λ j l h v. past_at j l (ℕ_discrete i j) h v;
      distinct =
          λ j k l m h q v u e. distinct_at j k l m (ℕ_discrete i j) (ℕ_discrete i k) h q v u e;
    };
  }
    where
      new : CacheLine
      new = written old buf url size (c.current_time + 1)

      there : get_elem? (set c.line i new) i ≡ some new
      there = get_elem?-set_self c.line i new (get_elem?-lt c.line i g)

      newest :
          (j : ℕ) (l : CacheLine)
          → i ≡ j
          → get_elem? (set c.line i new) j ≡ some l
          → l.timestamp ≡ c.current_time + 1
      newest j l e h =
          ap (λ (x : CacheLine). x.timestamp) (some-injective l new (sym h ∙ (rw (sym e) there)))

      past_at :
          (j : ℕ) (l : CacheLine)
          → Dec (i ≡ j)
          → get_elem? (set c.line i new) j ≡ some l
          → l.valid ≡ true
          → l.timestamp ≤ c.current_time + 1
      past_at j l (yes e) h v = omega (arith, newest j l e h)
      past_at j l (no n) h v =
          omega (arith, w.past j l (sym (get_elem?-set_ne c.line i j new n) ∙ h) v)

      distinct_at :
          (j k : ℕ) (l m : CacheLine)
          → Dec (i ≡ j)
          → Dec (i ≡ k)
          → get_elem? (set c.line i new) j ≡ some l
          → get_elem? (set c.line i new) k ≡ some m
          → l.valid ≡ true
          → m.valid ≡ true
          → l.timestamp ≡ m.timestamp
          → j ≡ k
      distinct_at j k l m (yes a) (yes b) h q v u e = sym a ∙ b
      distinct_at j k l m (yes a) (no b) h q v u e = absurd (
          omega (arith, newest j l a h, w.past k m (sym (get_elem?-set_ne c.line i k new b) ∙ q) u))
      distinct_at j k l m (no a) (yes b) h q v u e = absurd (
          omega (arith, newest k m b q, w.past j l (sym (get_elem?-set_ne c.line i j new a) ∙ h) v))
      distinct_at j k l m (no a) (no b) h q v u e =
          w.distinct j k l m (sym (get_elem?-set_ne c.line i j new a) ∙ h)
            (sym (get_elem?-set_ne c.line i k new b) ∙ q) v u e

  -- On a cache of ten lines whose valid lines have different times up to now, `write_cache` of an
  -- size that is not too large, with a text and a URL that fit their arrays, writes to one line, never
  -- to the index -1: a free line, or the one written first when all are valid. The line is valid then
  -- and holds the text with its null, the URL, the size and the new time; the other lines stay.
  pub write_cache-Written :
      size ≤ max_object_size
      → length buf < max_object_size
      → length url < max_url
      → (c' : Cache) × (write_cache buf url size c ≡ some c') × Written c buf url size c'
  unfolding write_cache
  write_cache-Written fits short short_url =
      let room : fits_line buf url ≡ true = ground arith in
      let small : ltb max_object_size size ≡ false = ground arith in
      let (i, l, e, g, p) = IsPlace-found c w in
      let stored : write_at_index buf url size c (some i) ≡ some (after i l) = rw (room, g) refl in
      (after i l, rw small (ap (write_at_index buf url size c) e ∙ stored), after-Written i l g p)
