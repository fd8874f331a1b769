-- ===== src/Common/Loop.antt =====
-- C's counted loop, `for (i = start; i < stop; i += step)`, whose body may fault.
use Prim.Native.Nat.{ℕ, zero, suc, ◌+◌}
use mathlib.Core.Option.{Option, none, some}
use csapp.Common.Tests.{ltb, if◌then◌else◌, ◌>>=◌}

-- On fuel; `none` is a fault of the body, or that the fuel ran out.
unfoldable pub for_loop {ℓ} : {S : Type ℓ} → ℕ → ℕ → ℕ → ℕ → (ℕ → S → Option S) → S → Option S
for_loop zero i stop step body s = if ltb i stop then none else some s
for_loop (suc fuel) i stop step body s =
    let rest = body i s >>= (λ s'. for_loop fuel (i + step) stop step body s') in
    if ltb i stop then rest else some s
