-- ===== src/Buffer/Rdrand.antt =====
-- The range of the random numbers (Concurrency1/concurrency.c).
use cs444_operating_systems.Prelude.{ℕ, ◌+◌, ◌-◌, ◌%◌, ◌^◌, ◌≤◌, ◌<◌, Bool, true, false, arith}
use native.Mathlib.Nat.{mod-lt, mod-eq_of_lt}
use cs444_operating_systems.Buffer.{rdrand}

in_range :
    (n min max : ℕ)
    → min ≤ max
    → max < 2 ^ 31
    → (min ≤ (n % (max - min + 1) + min) % 2 ^ 32) × ((n % (max - min + 1) + min) % 2 ^ 32 ≤ max)
in_range n min max h small =
    let rest = mod-lt n {m = max - min + 1} (omega arith) in
    let fits = mod-eq_of_lt {n = n % (max - min + 1) + min} {m = 2 ^ 32} (omega arith) in
    (omega arith, omega arith)

-- For bounds that an int holds, `rdrand` gives a number between them, both included, whichever
-- generator it uses.
pub rdrand-range :
    (has_rdrand : Bool) (tmp genrand_int32 min max : ℕ)
    → min ≤ max
    → max < 2 ^ 31
    → (min ≤ rdrand has_rdrand tmp genrand_int32 min max)
      × (rdrand has_rdrand tmp genrand_int32 min max ≤ max)
unfolding rdrand
rdrand-range true tmp genrand_int32 min max h small = in_range tmp min max h small
rdrand-range false tmp genrand_int32 min max h small = in_range genrand_int32 min max h small
