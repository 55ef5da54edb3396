-- ===== src/Prelude/Bits.antt =====
-- Masks: `y & ~(2^k - 1)` on the native numbers.
use Prim.Native.Nat.{min, digits, bit_and, bit_and-bitwise}
use native.Mathlib.Nat.{div-div-eq-div-mul, zero-div, mul_assoc, pow-suc, pow-succ'}
use cs444_operating_systems.Prelude.{
  ℕ, zero, suc, ◌+◌, ◌-◌, ◌*◌, ◌/◌, ◌%◌, ◌^◌, ◌≤◌, ◌≡◌, sym, ap, ◌∙◌, arith,
}

-- y & ~m
abbrev pub and_not : ℕ → ℕ → ℕ
and_not y m = y - bit_and y m

pub pow_positive : (k : ℕ) → 1 ≤ 2 ^ k
pow_positive zero = omega arith
pow_positive (suc k) = let h = pow_positive k in omega (arith, pow-suc 2 k)

abbrev masked : ℕ → ℕ → ℕ → ℕ
masked n y m = digits (λ b. zero) min n y m

-- Below the mask stands the remainder.
masked_lem : (k n y : ℕ) → y ≤ n → masked n y (2 ^ k - 1) + y / 2 ^ k * 2 ^ k ≡ y
masked_lem k zero zero h = rw (zero-div (2 ^ k)) (omega arith)
masked_lem k (suc n) zero h = rw (zero-div (2 ^ k)) (omega arith)
masked_lem k zero (suc y) h = absurd (omega arith)
masked_lem zero (suc n) (suc y) h =
    let rest = masked_lem zero n (suc y / 2) (omega arith) in omega (arith, rest)
masked_lem (suc k) (suc n) (suc y) h =
    let p = pow_positive k in
    let double = pow-suc 2 k in
    let rest = masked_lem k n (suc y / 2) (omega arith) in
    let half : (2 ^ suc k - 1) / 2 ≡ 2 ^ k - 1 = omega (arith, double, p) in
    let odd : (2 ^ suc k - 1) % 2 ≡ 1 = omega (arith, double, p) in
    let quotient : suc y / 2 ^ suc k ≡ suc y / 2 / 2 ^ k =
      ap (λ t. suc y / t) (pow-succ' 2 k) ∙ sym (div-div-eq-div-mul (suc y) 2 (2 ^ k)) in
    let multiple : suc y / 2 / 2 ^ k * 2 ^ suc k ≡ suc y / 2 / 2 ^ k * 2 ^ k * 2 =
      ap (λ t. suc y / 2 / 2 ^ k * t) double ∙ sym (mul_assoc (suc y / 2 / 2 ^ k) (2 ^ k) 2) in
    rw (half, odd, quotient) (omega (arith, multiple, rest))

-- Without the bits of the mask stands the greatest multiple of `2 ^ k` that is at most `y`.
pub and_not-mask : (k y : ℕ) → and_not y (2 ^ k - 1) ≡ y / 2 ^ k * 2 ^ k
and_not-mask k y =
    let e = bit_and-bitwise y (2 ^ k - 1) in
    let l = masked_lem k y y (omega arith) in omega (arith, e, l)
