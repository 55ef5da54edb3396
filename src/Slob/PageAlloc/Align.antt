-- ===== src/Slob/PageAlloc/Align.antt =====
-- ALIGN for an alignment that is a power of two (CS444_project4_46/slob.c).
use native.Mathlib.Nat.{pow-suc, mul_assoc}
use cs444_operating_systems.Prelude.{
  ℕ, zero, suc, ◌+◌, ◌-◌, ◌*◌, ◌/◌, ◌^◌, ◌≤◌, ◌≡◌, sym, ap, ◌∙◌, arith,
}
use cs444_operating_systems.Prelude.Bits.{and_not-mask}
use cs444_operating_systems.Slob.PageAlloc.{align_up}

-- It is the least multiple that is at least `x`.
pub align_up-multiple : (k x : ℕ) → align_up x (2 ^ k) ≡ (x + (2 ^ k - 1)) / 2 ^ k * 2 ^ k
unfolding align_up
align_up-multiple k x = and_not-mask k (x + (2 ^ k - 1))

-- A power of two divides the greater ones.
pub pow-divides : (k n : ℕ) → k ≤ n → (j : ℕ) × (j * 2 ^ k ≡ 2 ^ n)
pow-divides zero n h = (2 ^ n, omega arith)
pow-divides (suc k) zero h = absurd (omega arith)
pow-divides (suc k) (suc n) h =
    let (j, e) = pow-divides k n (omega (arith, h)) in
    let more : j * 2 ^ suc k ≡ j * 2 ^ k * 2 =
      ap (λ t. j * t) (pow-suc 2 k) ∙ sym (mul_assoc j (2 ^ k) 2) in
    (j, omega (arith, more, e, pow-suc 2 n))
