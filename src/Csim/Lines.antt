-- ===== src/Csim/Lines.antt =====
-- What the loops of `access_cache` do to the lines of one set.
use csapp.Common.{
  ℕ, zero, suc, ◌+◌, ◌<◌, ◌≡◌, refl, Bool, true, false, ◌&&◌, ◌||◌, Option, none, some, List, [],
  ◌∷◌, ◌==◌, if◌then◌else◌, ap, ◌∙◌, not, set, length, arith,
}
use csapp.Csim.{Line, Log, hit, miss, Best, exceeds, filled, probe, age}

-- A valid line holds the tag.
abbrev pub resident : ℕ → List Line → Bool
resident t [] = false
resident t (l ∷ ls) = (l.valid && l.tag == t) || resident t ls

abbrev pub is_full : List Line → Bool
is_full [] = true
is_full (l ∷ ls) = l.valid && is_full ls

abbrev pub is_vacant : List Line → Bool
is_vacant [] = true
is_vacant (l ∷ ls) = if l.valid then false else is_vacant ls

-- The valid lines come first, and no tag is held twice.
abbrev pub WfLines : List Line → Type 0
WfLines [] = Unit
WfLines (l ∷ ls) =
    (l.valid ≡ false → is_vacant ls ≡ true)
    × (l.valid ≡ true → resident l.tag ls ≡ false)
    × WfLines ls

resident-vacant : (t : ℕ) (ls : List Line) → is_vacant ls ≡ true → resident t ls ≡ false
resident-vacant t [] h = refl
resident-vacant t (l ∷ ls) h = ground (arith, resident-vacant t ls)

-- The log of the first loop, by what the set held.
abbrev pub probe_log : Bool → Bool → Option Log
probe_log true full = some hit
probe_log false true = none
probe_log false false = some miss

pub probe-log :
    (t : ℕ) (ls : List Line) → WfLines ls → (probe t ls).1 ≡ probe_log (resident t ls) (is_full ls)
unfolding probe
probe-log t [] w = refl
probe-log t (l ∷ ls) w = ground (arith, probe-log t ls w.2, resident-vacant t ls)

pub length-probe : (t : ℕ) (ls : List Line) → length (probe t ls).0 ≡ length ls
unfolding probe
length-probe t [] = refl
length-probe t (l ∷ ls) = ground (arith, length-probe t ls)

pub resident-probe :
    (t u : ℕ) (ls : List Line)
    → WfLines ls
    → resident u (probe t ls).0
      ≡ (resident u ls || (u == t && (if is_full ls then resident u ls else true)))
unfolding probe
resident-probe t u [] w = ground arith
resident-probe t u (l ∷ ls) w =
    ground (arith, resident-probe t u ls w.2, resident-vacant t ls, resident-vacant u ls)

pub WfLines-probe : (t : ℕ) (ls : List Line) → WfLines ls → WfLines (probe t ls).0
unfolding probe
WfLines-probe t [] w = tt
WfLines-probe t (l ∷ ls) w =
    ground (arith, WfLines-probe t ls w.2, resident-probe t l.tag ls w.2, resident-vacant t ls)

pub probe-full :
    (t : ℕ) (ls : List Line)
    → WfLines ls
    → is_full ls ≡ true
    → resident t ls ≡ false
    → (probe t ls).0 ≡ ls
unfolding probe
probe-full t [] w f r = refl
probe-full t (l ∷ ls) w f r = ground (arith, probe-full t ls w.2)

-- The second loop changes neither the tags nor the valid bits.
pub length-age : (i : ℕ) (b : Best) (ls : List Line) → length (age i b ls).1 ≡ length ls
unfolding age
length-age i b [] = refl
length-age i b (l ∷ ls) = ap suc (length-age (i + 1) _ ls)

pub resident-age : (u i : ℕ) (b : Best) (ls : List Line) → resident u (age i b ls).1 ≡ resident u ls
unfolding age
resident-age u i b [] = refl
resident-age u i b (l ∷ ls) = ap (λ r. (l.valid && l.tag == u) || r) (resident-age u (i + 1) _ ls)

vacant-age : (i : ℕ) (b : Best) (ls : List Line) → is_vacant (age i b ls).1 ≡ is_vacant ls
unfolding age
vacant-age i b [] = refl
vacant-age i b (l ∷ ls) = ap (λ r. if l.valid then false else r) (vacant-age (i + 1) _ ls)

pub full-age : (i : ℕ) (b : Best) (ls : List Line) → is_full (age i b ls).1 ≡ is_full ls
unfolding age
full-age i b [] = refl
full-age i b (l ∷ ls) = ap (λ r. l.valid && r) (full-age (i + 1) _ ls)

pub WfLines-age : (i : ℕ) (b : Best) (ls : List Line) → WfLines ls → WfLines (age i b ls).1
unfolding age
WfLines-age i b [] w = w
WfLines-age i b (l ∷ ls) w = (
  λ v. vacant-age _ _ ls ∙ w.0 v,
  λ v. resident-age l.tag _ _ ls ∙ w.1 v,
  WfLines-age (i + 1) (if exceeds b l.lru_counter then some (i, l.lru_counter) else b) ls w.2,
)

-- The tag at an index, and the write of a filled line there.
abbrev pub tag_at : List Line → ℕ → ℕ
tag_at [] i = 0
tag_at (l ∷ ls) zero = l.tag
tag_at (l ∷ ls) (suc i) = tag_at ls i

full-set : (ls : List Line) (i t : ℕ) → is_full ls ≡ true → is_full (set ls i (filled t)) ≡ true
full-set [] i t f = refl
full-set (l ∷ ls) zero t f = ground arith
full-set (l ∷ ls) (suc i) t f = ground (arith, full-set ls i t)

resident-tag_at :
    (ls : List Line) (i : ℕ) → i < length ls → is_full ls ≡ true → resident (tag_at ls i) ls ≡ true
resident-tag_at [] i h f = elim h [ ]
resident-tag_at (l ∷ ls) zero h f = ground arith
resident-tag_at (l ∷ ls) (suc i) h f = ground (arith, resident-tag_at ls i)

pub resident-set :
    (ls : List Line) (i t u : ℕ)
    → WfLines ls
    → is_full ls ≡ true
    → i < length ls
    → resident t ls ≡ false
    → resident u (set ls i (filled t)) ≡ (u == t || (resident u ls && not (u == tag_at ls i)))
resident-set [] i t u w f h r = elim h [ ]
resident-set (l ∷ ls) zero t u w f h r = ground arith
resident-set (l ∷ ls) (suc i) t u w f h r =
    ground (arith, resident-set ls i t u w.2, resident-tag_at ls i)

pub WfLines-set :
    (ls : List Line) (i t : ℕ)
    → WfLines ls
    → is_full ls ≡ true
    → i < length ls
    → resident t ls ≡ false
    → WfLines (set ls i (filled t))
WfLines-set [] i t w f h r = elim h [ ]
WfLines-set (l ∷ ls) zero t w f h r = ground arith
WfLines-set (l ∷ ls) (suc i) t w f h r =
    ground (arith, WfLines-set ls i t w.2, resident-set ls i t l.tag w.2)

pub tag_at-age : (v i : ℕ) (b : Best) (ls : List Line) → tag_at (age i b ls).1 v ≡ tag_at ls v
unfolding age
tag_at-age v i b [] = refl
tag_at-age zero i b (l ∷ ls) = refl
tag_at-age (suc v) i b (l ∷ ls) =
    tag_at-age v (i + 1) (if exceeds b l.lru_counter then some (i, l.lru_counter) else b) ls
