-- ===== src/Proxy/Store/Oldest.antt =====
-- The loops of proxy.c's cache: the free line, the oldest line, and the line of a URL.
use mathlib.Core.Option.{some-injective}
use csapp.Common.{
  ℕ, zero, suc, ◌+◌, ◌-◌, ◌≤◌, ◌<◌, ◌≡◌, ◌≢◌, ◌⊎◌, refl, sym, ◌∙◌, ap, inl, inr, Bool, true, false,
  ◌&&◌, Option, none, some, List, [], ◌∷◌, ltb, get_elem?, length, arith, Bool-cases,
}
use csapp.Proxy.Store.{CacheLine, same_url, find_from, first_free, oldest, strcpy, bytes_of}

-- A valid line has the URL.
abbrev pub serves : List ℕ → CacheLine → Bool
serves url l = l.valid && same_url l.url url

-- The line at k is valid and no valid line of the list was written before it.
pub record IsOldest (ls : List CacheLine) (k : ℕ) (l : CacheLine) : Type 0 where
  pub stands : get_elem? ls k ≡ some l
  pub is_valid : l.valid ≡ true
  pub first :
      (j : ℕ) (l' : CacheLine)
      → get_elem? ls j ≡ some l'
      → l'.valid ≡ true
      → l.timestamp ≤ l'.timestamp

pub first_free_lem :
    (i : ℕ) (ls : List CacheLine)
    → ((first_free i ls ≡ none)
        × ((j : ℕ) (l : CacheLine) → get_elem? ls j ≡ some l → l.valid ≡ true))
      ⊎ ((k : ℕ) × (l : CacheLine) × (first_free i ls ≡ some (i + k))
          × (get_elem? ls k ≡ some l)
          × (l.valid ≡ false))
unfolding first_free
first_free_lem i [] = inl (refl, λ j l e. absurd (cc e))
first_free_lem i (l ∷ ls) = elim (Bool-cases l.valid) [
  | inr e ↦ inr (0, l, rw e (ap (λ (n : ℕ). some n) (omega arith)), refl, e)
  | inl e ↦ elim (first_free_lem (i + 1) ls) [
    | inl (f, h) ↦ inl (rw e f, λ j l' g. at_all e h j l' g)
    | inr (k, l', f, g, h) ↦ inr (suc k, l', rw e (f ∙ ap (λ (n : ℕ). some n) (omega arith)), g, h)
  ]
]
  where
    at_all :
        l.valid ≡ true
        → ((j : ℕ) (l' : CacheLine) → get_elem? ls j ≡ some l' → l'.valid ≡ true)
        → (j : ℕ) (l' : CacheLine) → get_elem? (l ∷ ls) j ≡ some l'
        → l'.valid ≡ true
    at_all e h zero l' g = rw (sym (some-injective l l' g)) e
    at_all e h (suc j) l' g = h j l' g

-- The second loop ends with its start, when no valid line is older than `max_time`, or else with
-- the line of the greatest age.
abbrev Aged : ℕ → ℕ → List CacheLine → Type 0
Aged now m ls =
    (j : ℕ) (l : CacheLine) → get_elem? ls j ≡ some l → l.valid ≡ true → now - l.timestamp ≤ m

Aged-cons :
    (now m : ℕ) (l : CacheLine) (ls : List CacheLine)
    → (l.valid ≡ true → now - l.timestamp ≤ m)
    → Aged now m ls
    → Aged now m (l ∷ ls)
Aged-cons now m l ls h a zero l' g v = let e = some-injective l l' g in rw (sym e) (h (rw e v))
Aged-cons now m l ls h a (suc j) l' g v = a j l' g v

pub oldest_lem :
    (now i m : ℕ) (idx : Option ℕ) (ls : List CacheLine)
    → ((oldest now i m idx ls ≡ idx) × Aged now m ls)
      ⊎ ((k : ℕ) × (l : CacheLine) × (oldest now i m idx ls ≡ some (i + k))
          × (get_elem? ls k ≡ some l)
          × (l.valid ≡ true)
          × (m < now - l.timestamp)
          × Aged now (now - l.timestamp) ls)
unfolding oldest
oldest_lem now i m idx [] = inl (refl, λ j l e. absurd (cc e))
oldest_lem now i m idx (l ∷ ls) = elim (Bool-cases (l.valid && ltb m (now - l.timestamp))) [
  | inl e ↦ elim (oldest_lem now (i + 1) (now - l.timestamp) (some i) ls) [
    | inl (f, a) ↦ inr (
      0,
      l,
      rw e (f ∙ ap (λ (n : ℕ). some n) (omega arith)),
      refl,
      ground arith,
      ground arith,
      Aged-cons now _ l ls (λ v. omega arith) a,
    )
    | inr (k, l', f, g, v, b, a) ↦ inr (
      suc k,
      l',
      rw e (f ∙ ap (λ (n : ℕ). some n) (omega arith)),
      g,
      v,
      ground arith,
      Aged-cons now _ l ls (λ w. omega (arith, b)) a,
    )
  ]
  | inr e ↦ elim (oldest_lem now (i + 1) m idx ls) [
    | inl (f, a) ↦ inl (rw e f, Aged-cons now _ l ls (λ v. ground arith) a)
    | inr (k, l', f, g, v, b, a) ↦ inr (
      suc k,
      l',
      rw e (f ∙ ap (λ (n : ℕ). some n) (omega arith)),
      g,
      v,
      b,
      Aged-cons now _ l ls (λ w. ground arith) a,
    )
  ]
]

pub same_url_refl : (url : List ℕ) → same_url url url ≡ true
unfolding same_url
same_url_refl [] = refl
same_url_refl (c ∷ cs) = ground (arith, same_url_refl cs)

find_from-some : (url : List ℕ) (i r : ℕ) (ls : List CacheLine) → find_from url i (some r) ls ≢ none
unfolding find_from
find_from-some url i r [] e = absurd (cc e)
find_from-some url i r (l ∷ ls) e = elim (Bool-cases (serves url l)) [
  | inl s ↦ find_from-some url (i + 1) i ls (rw s at e)
  | inr s ↦ find_from-some url (i + 1) r ls (rw s at e)
]

pub find_from-none :
    (url : List ℕ) (i : ℕ) (ls : List CacheLine)
    → find_from url i none ls ≡ none
    → (j : ℕ) (l : CacheLine) → get_elem? ls j ≡ some l
    → serves url l ≡ false
unfolding find_from
find_from-none url i [] e j l g = absurd (cc g)
find_from-none url i (m ∷ ls) e j l g = elim (Bool-cases (serves url m)) [
  | inl s ↦ absurd (find_from-some url (i + 1) i ls (rw s at e))
  | inr s ↦ at_index s (find_from-none url (i + 1) ls (rw s at e)) j g
]
  where
    at_index :
        serves url m ≡ false
        → ((k : ℕ) (n : CacheLine) → get_elem? ls k ≡ some n → serves url n ≡ false)
        → (j : ℕ) → get_elem? (m ∷ ls) j ≡ some l
        → serves url l ≡ false
    at_index s rest zero h = rw (sym (some-injective m l h)) s
    at_index s rest (suc k) h = rest k l h

find_from-kept :
    (url : List ℕ) (i : ℕ) (ret : Option ℕ) (ls : List CacheLine)
    → ((j : ℕ) (l : CacheLine) → get_elem? ls j ≡ some l → serves url l ≡ false)
    → find_from url i ret ls ≡ ret
unfolding find_from
find_from-kept url i ret [] h = refl
find_from-kept url i ret (l ∷ ls) h =
    rw (h 0 l refl) (find_from-kept url (i + 1) ret ls (λ j m g. h (suc j) m g))

-- Where one line alone has the URL, it is found.
pub find_from_unique :
    (url : List ℕ) (i : ℕ) (ret : Option ℕ) (ls : List CacheLine) (k : ℕ) (l : CacheLine)
    → get_elem? ls k ≡ some l
    → serves url l ≡ true
    → ((j : ℕ) (m : CacheLine) → j ≢ k → get_elem? ls j ≡ some m → serves url m ≡ false)
    → find_from url i ret ls ≡ some (i + k)
unfolding find_from
find_from_unique url i ret [] k l g s h = absurd (cc g)
find_from_unique url i ret (m ∷ ls) zero l g s h =
    let e : serves url m ≡ true = rw (some-injective m l g) s in
    rw e (
      find_from-kept url (i + 1) (some i) ls (λ j n f. h (suc j) n (omega arith) f)
      ∙ ap (λ (n : ℕ). some n) (omega arith))
find_from_unique url i ret (m ∷ ls) (suc k) l g s h = rw (h 0 m (omega arith) refl) (
    find_from_unique url (i + 1) ret ls k l g s (λ j n q f. h (suc j) n (omega (arith, q)) f)
    ∙ ap (λ (n : ℕ). some n) (omega arith))

-- A string that is copied into a buffer is what the buffer begins with.
pub bytes_of-strcpy : (dst : ℕ → ℕ) (src : List ℕ) → bytes_of (strcpy dst src) (length src) ≡ src
unfolding bytes_of strcpy
bytes_of-strcpy dst [] = refl
bytes_of-strcpy dst (c ∷ cs) = ap (λ r. c ∷ r) (bytes_of-strcpy (λ j. dst (suc j)) cs)

-- The null behind it.
pub null-strcpy : (dst : ℕ → ℕ) (src : List ℕ) → strcpy dst src (length src) ≡ 0
unfolding strcpy
null-strcpy dst [] = refl
null-strcpy dst (c ∷ cs) = null-strcpy (λ j. dst (suc j)) cs
