-- ===== src/Csim/Cache.antt =====
-- `access_cache` on the whole cache: it returns, and keeps the simulator well-formed.
use csapp.Common.{
  ℕ, ◌+◌, ◌/◌, ◌^◌, ◌<◌, ◌≡◌, ◌≢◌, refl, sym, ◌∙◌, ap, some, List, get_elem?, set, length, arith,
  length-set, get_elem?-some, get_elem?-set_self, get_elem?-set_ne, All, All-get_elem?, All-set,
}
use csapp.Common.Bits.{bit_and_mask}
use native.Mathlib.Nat.{mod-lt, one-le-pow}
use csapp.Csim.{Line, Log, hit, miss, miss_eviction, Sim, tag_of, index_of, count, access_cache}
use csapp.Csim.Lines.{WfLines}
use csapp.Csim.Access.{Accessed, access_set-Accessed}

pub record WfSet (E : ℕ) (ls : List Line) : Type 0 where
  pub lines : WfLines ls
  pub size : length ls ≡ E

pub record Valid (sim : Sim) : Type 0 where
  pub associative : 0 < sim.E
  pub set_count : length sim.sets ≡ 2 ^ sim.s
  pub each_set : All (WfSet sim.E) sim.sets

-- The set index stays below the number of sets.
index_of-lt : (sim : Sim) (address : ℕ) → index_of sim address < 2 ^ sim.s
index_of-lt sim address =
    rw (bit_and_mask sim.s (address / 2 ^ sim.b))
      (mod-lt (address / 2 ^ sim.b) (one-le-pow sim.s 2 (omega arith)))

-- What an access changes of the counts.
pub record Counted (sim : Sim) (log : Log) (sim' : Sim) : Type 0 where
  pub hits :
      (log ≡ hit → sim'.hit_count ≡ sim.hit_count + 1)
      × (log ≢ hit → sim'.hit_count ≡ sim.hit_count)
  pub misses :
      (log ≡ hit → sim'.miss_count ≡ sim.miss_count)
      × (log ≢ hit → sim'.miss_count ≡ sim.miss_count + 1)
  pub evictions :
      (log ≡ miss_eviction → sim'.eviction_count ≡ sim.eviction_count + 1)
      × (log ≢ miss_eviction → sim'.eviction_count ≡ sim.eviction_count)
  pub same_s : sim'.s ≡ sim.s
  pub same_E : sim'.E ≡ sim.E
  pub same_b : sim'.b ≡ sim.b

count-Counted : (log : Log) (sim : Sim) → Counted sim log (count log sim)
unfolding count
count-Counted hit sim = ground arith
count-Counted miss sim = ground arith
count-Counted miss_eviction sim = ground arith

sets-count : (log : Log) (sim : Sim) → (count log sim).sets ≡ sim.sets
unfolding count
sets-count hit sim = refl
sets-count miss sim = refl
sets-count miss_eviction sim = refl

-- The run of one access: the set that it selects goes from `before` to `after`.
pub record Ran (sim : Sim) (address : ℕ) (log : Log) (sim' : Sim) : Type 0 where
  pub before : List Line
  pub after : List Line
  pub selected : get_elem? sim.sets (index_of sim address) ≡ some before
  pub stored : get_elem? sim'.sets (index_of sim address) ≡ some after
  pub accessed : Accessed (tag_of sim address) before log after
  pub other_sets : (i : ℕ) → i ≢ index_of sim address → get_elem? sim'.sets i ≡ get_elem? sim.sets i
  pub counted : Counted sim log sim'
  pub valid : Valid sim'

-- On a well-formed simulator `access_cache` returns: no index is out of range. It does to the
-- selected set what `Accessed` says, leaves the other sets alone, counts one hit, or one miss with
-- an eviction if there was one, and keeps the simulator well-formed.
pub access_cache-Ran :
    (sim : Sim) (address : ℕ)
    → Valid sim
    → (log : Log) × (sim' : Sim) × (access_cache sim address ≡ some (log, sim'))
      × Ran sim address log sim'
unfolding access_cache
access_cache-Ran sim address v =
    let i : ℕ = index_of sim address in
    let inside : i < length sim.sets = omega (arith, v.set_count, index_of-lt sim address) in
    let (ls, e) = get_elem?-some sim.sets i inside in
    let wf : WfSet sim.E ls = All-get_elem? (WfSet sim.E) sim.sets i v.each_set e in
    let (log, ls', e', acc) =
      access_set-Accessed (tag_of sim address) ls wf.lines
        (omega (arith, wf.size, v.associative)) in
    let sim₁ : Sim = record sim { sets = set sim.sets i ls' } in
    let c : Counted sim₁ log (count log sim₁) = count-Counted log sim₁ in
    (
      log,
      count log sim₁,
      rw (e, e'),
      record {
        before = ls;
        after = ls';
        selected = e;
        stored = rw (sets-count log sim₁) (get_elem?-set_self sim.sets i ls' inside);
        accessed = acc;
        other_sets =
            λ j n. rw (sets-count log sim₁) (get_elem?-set_ne sim.sets i j ls' (λ f. n (sym f)));
        counted = record {
          hits = c.hits;
          misses = c.misses;
          evictions = c.evictions;
          same_s = c.same_s;
          same_E = c.same_E;
          same_b = c.same_b;
        };
        valid = record {
          associative = omega (arith, c.same_E, v.associative);
          set_count =
              rw (sets-count log sim₁, length-set sim.sets i ls')
                (v.set_count ∙ ap (λ (k : ℕ). 2 ^ k) (sym c.same_s));
          each_set =
              rw (sets-count log sim₁, c.same_E)
                (All-set (WfSet sim.E) sim.sets i ls' v.each_set
                  (record { lines = acc.well_formed; size = acc.same_length ∙ wf.size }));
        };
      },
    )
