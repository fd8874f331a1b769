-- ===== src/Malloc/Fcyc/Tests.antt =====
-- malloclab/fcyc.c on concrete times.
use csapp.Common.{ℕ, zero, suc, ◌*◌, ◌≡◌, refl, Bool, none, some, List, [], ◌∷◌, leb, arith}
use csapp.Malloc.Fcyc.{Sampler, init_sampler, sift, add_sample, has_converged, sample, fcyc}
use csapp.Malloc.Fcyc.Sampling.{Best, add_sample-Best}
use csapp.Malloc.Fcyc.Convergence.{Measured, fcyc-Measured}

-- Within a tenth of the first.
abbrev close : ℕ → ℕ → Bool
close a b = leb (10 * b) (11 * a)

abbrev times_of : List ℕ → ℕ → ℕ
times_of [] i = 50
times_of (t ∷ ts) zero = t
times_of (t ∷ ts) (suc i) = times_of ts i

-- The first run is slow, and the three smallest of five are close.
abbrev cold_start : ℕ → ℕ
cold_start = times_of (90 ∷ 40 ∷ 60 ∷ 42 ∷ 41 ∷ [])

cold_start_converges :
    sample 3 close 20 cold_start 20 (init_sampler 3)
    ≡ some (record { values = 40 ∷ 41 ∷ 42 ∷ []; samplecount = 5 })
unfolding sample init_sampler add_sample has_converged sift
cold_start_converges = refl

-- Two runs are the most, and the third place stays zero.
cut_short :
    sample 3 close 2 cold_start 2 (init_sampler 3)
    ≡ some (record { values = 40 ∷ 90 ∷ 0 ∷ []; samplecount = 2 })
unfolding sample init_sampler add_sample has_converged sift
cut_short = refl

-- With no place for a sample the code reads in front of the array.
no_room : fcyc 0 close 5 cold_start 5 ≡ none
unfolding fcyc sample init_sampler add_sample has_converged sift
no_room = refl

abbrev one_sample : Sampler
one_sample = record { values = 90 ∷ 0 ∷ []; samplecount = 1 }

one_sample-Best : Best 2 (90 ∷ []) one_sample
one_sample-Best = record { count = refl; best = refl }

add_sample-Best_example :
    (s' : Sampler) × (add_sample 2 40 one_sample ≡ some s') × Best 2 (40 ∷ 90 ∷ []) s'
add_sample-Best_example = add_sample-Best 2 40 (90 ∷ []) one_sample (omega arith) one_sample-Best

fcyc-Measured_example :
    (r : ℕ) × (fcyc 3 close 20 cold_start 20 ≡ some r) × Measured 3 close 20 cold_start r
fcyc-Measured_example =
    fcyc-Measured 3 close 20 cold_start 20 (omega arith) (omega arith) (omega arith)
