-- ===== src/Malloc/Fcyc.antt =====
-- malloclab/fcyc.c: the K-best sampling of running times. Times are numbers of cycles, which the code
-- only compares. `none` is an access outside `values`.
pub mod Best
pub mod Sampling
pub mod Convergence
mod Tests
use mathlib.Core.Option
use csapp.Common.{
  ℕ, zero, suc, ◌+◌, ◌-◌, Bool, true, false, not, ◌&&◌, Option, none, some, List, [], ltb, leb,
  if◌then◌else◌, get_elem?, set, length, replicate, ◌>>=◌,
}

-- `values` and `samplecount`.
pub record Sampler : Type 0 where
  pub values : List ℕ
  pub samplecount : ℕ

-- A write outside the array is a fault.
abbrev put_value : List ℕ → ℕ → ℕ → Option (List ℕ)
put_value values pos val = if ltb pos (length values) then some (set values pos val) else none

-- The insertion sort of `add_sample`, from `pos` down.
pub sift : ℕ → List ℕ → Option (List ℕ)
sift zero values = some values
sift (suc pos) values = do
  before ← get_elem? values pos
  here ← get_elem? values (suc pos)
  let rest = sift pos (set (set values pos here) (suc pos) before)
  if ltb here before then rest else some values

module _ (kbest : ℕ) where
  pub init_sampler : Sampler
  init_sampler = record { values = replicate kbest 0; samplecount = 0 }

  -- The values with the sample in its first place, and `pos`.
  abbrev placed : ℕ → Sampler → Option (ℕ × List ℕ)
  placed val s =
      if ltb s.samplecount kbest
      then Option.map (λ (vs : List ℕ). (s.samplecount, vs)) (put_value s.values s.samplecount val)
      else (do
        last ← get_elem? s.values (kbest - 1)
        if ltb val last
            then Option.map (λ (vs : List ℕ). (kbest - 1, vs)) (put_value s.values (kbest - 1) val)
            else some (0, s.values))

  pub add_sample : ℕ → Sampler → Option Sampler
  unfolding sift
  add_sample val s = do
    (pos, values) ← placed val s
    sorted ← sift pos values
    some (record { values = sorted; samplecount = s.samplecount + 1 })

  -- `within a b` is the test `(1 + epsilon) * a >= b` on doubles.
  module _ (within : ℕ → ℕ → Bool) where
    pub has_converged : Sampler → Option Bool
    has_converged s =
        if leb kbest s.samplecount
        then (do
          first ← get_elem? s.values 0
          last ← get_elem? s.values (kbest - 1)
          some (within first last))
        else some false

    module _ (maxsamples : ℕ) (measure : ℕ → ℕ) where
      -- The loop of `fcyc`, where `measure i` is the time of the run after i samples. `rounds` is fuel;
      -- without it there is no result.
      pub sample : ℕ → Sampler → Option Sampler
      unfolding add_sample has_converged
      sample zero s = none
      sample (suc rounds) s = do
        s' ← add_sample (measure s.samplecount) s
        converged ← has_converged s'
        let rest = sample rounds s'
        if not converged && ltb s'.samplecount maxsamples then rest else some s'

      -- The result of `fcyc`.
      pub fcyc : ℕ → Option ℕ
      unfolding sample init_sampler
      fcyc rounds = do s ← sample rounds init_sampler; get_elem? s.values 0
