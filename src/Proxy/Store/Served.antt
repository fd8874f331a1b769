-- ===== src/Proxy/Store/Served.antt =====
-- What a later request reads from the cache of proxy.c, and sequences of writes to it.
use mathlib.Core.Option.{some-injective}
use csapp.Common.{
  ℕ, zero, suc, ◌≤◌, ◌<◌, All, ◌≡◌, refl, sym, ◌∙◌, ap, inl, inr, true, false, Option, none, some,
  List, [], ◌∷◌, ltb, get_elem?, length, arith, Bool-cases, Option-cases, ◌>>=◌,
}
use csapp.Proxy.Store.{
  CacheLine, Cache, reset_lines, cache_init, find_cache_hit, bytes_of, max_object_size, max_url,
  cache_lines, write_cache, cached_reply,
}
use csapp.Proxy.Store.Oldest.{same_url_refl, find_from-none, find_from_unique}
use csapp.Proxy.Store.Written.{Stamped, write_cache-Written}

bytes_served :
    (c : Cache) (url buf : List ℕ) (i : ℕ) {l : CacheLine}
    → find_cache_hit url c ≡ some i
    → get_elem? c.line i ≡ some l
    → bytes_of l.buf l.size ≡ buf
    → cached_reply url c ≡ some buf
unfolding cached_reply
bytes_served c url buf i e g h = rw (e, cached_reply, g) (ap (λ (r : List ℕ). some r) h)

-- A cached reply comes from a line that is found.
pub cached_reply-found :
    (c : Cache) (url reply : List ℕ)
    → cached_reply url c ≡ some reply
    → (i : ℕ) × (l : CacheLine) × (find_cache_hit url c ≡ some i)
      × (get_elem? c.line i ≡ some l)
      × (bytes_of l.buf l.size ≡ reply)
unfolding cached_reply
cached_reply-found c url reply h = elim (Option-cases (find_cache_hit url c)) [
  | inl e ↦ absurd (cc (h, e))
  | inr (i, e) ↦ elim (Option-cases (get_elem? c.line i)) [
    | inl g ↦ absurd (cc (h, e, g))
    | inr (l, g) ↦ (i, l, e, g, cc (h, e, g))
  ]
]

-- A URL that the cache does not have, stored with an object and its length, is then answered with
-- that object, where the object and the URL fit their arrays: the same bytes in the same order.
pub write_cache-cached_reply :
    (c : Cache) (buf url : List ℕ)
    → Stamped c
    → find_cache_hit url c ≡ none
    → length buf < max_object_size
    → length url < max_url
    → (c' : Cache) × (write_cache buf url (length buf) c ≡ some c')
      × (cached_reply url c' ≡ some buf)
unfolding find_cache_hit
write_cache-cached_reply c buf url w missing fits fits_url =
    let (c', e, r) = write_cache-Written c w buf url (length buf) (omega arith) fits fits_url in
    let absent = find_from-none url 0 c.line missing in
    let found : find_cache_hit url c' ≡ some r.index =
      find_from_unique url 0 none c'.line r.index r.new r.there
        (rw (r.holds.valid, r.holds.url) (same_url_refl url))
        (λ j m n g. absent j m (sym (r.others j (λ q. n (sym q))) ∙ g))
      ∙ ap (λ (n : ℕ). some n) (omega arith) in
    (c', e, bytes_served c' url buf r.index found r.there (rw r.holds.size r.holds.content))

-- The writes of a sequence of objects, each with its URL and size.
pub write_all : List (List ℕ × List ℕ × ℕ) → Cache → Option Cache
write_all [] c = some c
write_all ((buf, url, size) ∷ objects) c = write_cache buf url size c >>= λ c'. write_all objects c'

-- The strings of each object whose size is not too large fit the arrays of a line.
abbrev pub Fits : List (List ℕ × List ℕ × ℕ) → Type 0
Fits objects =
    All
      (λ ((buf, url, size) : List ℕ × List ℕ × ℕ).
        size ≤ max_object_size → (length buf < max_object_size) × (length url < max_url))
      objects

write_all-Stamped :
    (objects : List (List ℕ × List ℕ × ℕ)) (c : Cache)
    → Fits objects
    → Stamped c
    → (c' : Cache) × (write_all objects c ≡ some c') × Stamped c'
unfolding write_all write_cache
write_all-Stamped [] c f w = (c, refl, w)
write_all-Stamped ((buf, url, size) ∷ objects) c (k, ks) w =
    elim (Bool-cases (ltb max_object_size size)) [
      | inl e ↦
          let (c', f, v) = write_all-Stamped objects c ks w in
          let same : write_cache buf url size c ≡ some c = skipped e in (c', rw same f, v)
      | inr e ↦
          let small : size ≤ max_object_size = ground arith in
          let (c₁, f, r) = write_cache-Written c w buf url size small (k small).0 (k small).1 in
          let (c₂, g, v) = write_all-Stamped objects c₁ ks r.stamped in (c₂, rw f g, v)
    ]
  where
    skipped : ltb max_object_size size ≡ true → write_cache buf url size c ≡ some c
    skipped e = rw (e, write_cache)

length-reset_lines : (ls : List CacheLine) → length (reset_lines ls) ≡ length ls
unfolding reset_lines
length-reset_lines [] = refl
length-reset_lines (l ∷ ls) = ap suc (length-reset_lines ls)

reset_lines-invalid :
    (ls : List CacheLine) (i : ℕ) (l : CacheLine)
    → get_elem? (reset_lines ls) i ≡ some l
    → l.valid ≡ false
unfolding reset_lines
reset_lines-invalid [] i l e = absurd (cc e)
reset_lines-invalid (x ∷ ls) zero l e = sym (ap (λ (y : CacheLine). y.valid) (some-injective _ l e))
reset_lines-invalid (x ∷ ls) (suc i) l e = reset_lines-invalid ls i l e

-- From the state that `cache_init` leaves of ten lines, every sequence of `write_cache` calls
-- returns, objects that are too large among them, where the text and the URL of the others fit
-- their arrays: no write is out of the ten lines, and the times of the valid lines stay different
-- and in the past.
pub cache_init-write_all :
    (c : Cache) (objects : List (List ℕ × List ℕ × ℕ))
    → Fits objects
    → length c.line ≡ cache_lines
    → (c' : Cache) × (write_all objects (cache_init c) ≡ some c') × Stamped c'
unfolding cache_init
cache_init-write_all c objects fits h = write_all-Stamped objects (cache_init c) fits (record {
  size = length-reset_lines c.line ∙ h;
  past = λ i l g v. absurd (ground (arith, reset_lines-invalid c.line i l g));
  distinct = λ i j l m g k v u e. absurd (ground (arith, reset_lines-invalid c.line i l g));
})
