-- ===== src/Malloc/Tests.antt =====
-- The driver's check on small lists of payloads, and the theorems at inputs that meet their
-- hypotheses.
use csapp.Common.{◌≡◌, ◌⊎◌, refl, true, false, some, List, [], ◌∷◌, All, arith}
use csapp.Malloc.Memlib.{Memory, mem_sbrk}
use csapp.Malloc.Ranges.{Range, add_range}
use csapp.Malloc.Ranges.Laws.{Accepts, Inside, Disjoint, payload, add_range_iff, mem_sbrk-add_range}

abbrev heap : Memory
heap = record { start_brk = 4096; brk = 4160; max_addr = 8192 }

abbrev two_payloads : List Range
two_payloads = record { lo = 4128; hi = 4131 } ∷ record { lo = 4100; hi = 4119 } ∷ []

two_payloads-Inside : All (Inside heap) two_payloads
two_payloads-Inside = omega arith

two_payloads-Disjoint : Disjoint two_payloads
unfolding Disjoint
two_payloads-Disjoint = ground arith

add_range_iff_example :
    ((add_range heap 4132 8 two_payloads ≡ some (true, payload 4132 8 ∷ two_payloads))
      × Accepts heap (payload 4132 8) two_payloads)
    ⊎ ((add_range heap 4132 8 two_payloads ≡ some (false, two_payloads))
        × ¬ Accepts heap (payload 4132 8) two_payloads)
add_range_iff_example = add_range_iff heap 4132 7 two_payloads (omega arith)

mem_sbrk-add_range_example :
    (m' : Memory) × (ranges' : List Range) × (mem_sbrk 24 heap ≡ (some 4160, m'))
    × (add_range m' 4160 24 two_payloads ≡ some (true, ranges'))
    × All (Inside m') ranges'
    × Disjoint ranges'
mem_sbrk-add_range_example =
    mem_sbrk-add_range heap 23 two_payloads (omega arith) (omega arith) refl (omega arith)
      (omega arith) two_payloads-Inside two_payloads-Disjoint
