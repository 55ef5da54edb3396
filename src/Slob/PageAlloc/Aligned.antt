-- ===== src/Slob/PageAlloc/Aligned.antt =====
-- The address of a block from `slob_page_alloc` is aligned.
use native.Mathlib.Nat.{lt-div-mul-add, mul-mod_left, pow-succ'}
use cs444_operating_systems.Prelude.{
  ℕ, suc, ◌+◌, ◌-◌, ◌*◌, ◌/◌, ◌%◌, ◌^◌, ◌≤◌, ◌≡◌, subst, arith, some, true, false, ◌==◌,
}
use cs444_operating_systems.Prelude.Bits.{pow_positive}
use cs444_operating_systems.Slob.PageAlloc.Align.{align_up-multiple}
use cs444_operating_systems.Slob.Block.{Ptr, slob_units_of}
use cs444_operating_systems.Slob.Segment.{Blocks}
use cs444_operating_systems.Slob.State.{Slob}
use cs444_operating_systems.Slob.PageAlloc.{align_up, aligned_at, delta_at, slob_page_alloc}
use cs444_operating_systems.Slob.PageAlloc.Correct.{IsPage, slob_page_alloc_lem, Outcome}

module _ (j a : ℕ) where
  abbrev k : ℕ
  k = 2 ^ j

  some_unit : 1 ≤ k
  some_unit = pow_positive j

  q : ℕ
  q = (2 * a + (2 * k - 1)) / (2 * k)

  q-ge : a ≤ q * k
  unfolding q
  q-ge = omega (
    arith,
    some_unit,
    lt-div-mul-add {a = 2 * a + (2 * k - 1)} {b = 2 * k} (omega (arith, some_unit)),
  )

  align_up-eq : align_up (2 * a) (2 * k) ≡ q * (2 * k)
  unfolding q
  align_up-eq =
      subst (λ t. align_up (2 * a) t ≡ (2 * a + (t - 1)) / t * t) (pow-succ' 2 j)
        (align_up-multiple (suc j) (2 * a))

  delta_at-eq : a + delta_at (2 * k) a ≡ q * k
  unfolding delta_at aligned_at
  delta_at-eq =
      let positive : (2 * k == 0) ≡ false = ground (arith, some_unit) in
      let half : q * (2 * k) / 2 ≡ q * k = omega (arith) in
      rw (positive, align_up-eq) (omega (arith, half, q-ge))

  -- With the units in front of it the block starts at a multiple of `2 * k` bytes.
  pub delta_at-aligned : (2 * (a + delta_at (2 * k) a)) % (2 * k) ≡ 0
  delta_at-aligned =
      let e : 2 * (a + delta_at (2 * k) a) ≡ q * (2 * k) = omega (arith, delta_at-eq) in
      rw (e, mul-mod_left q (2 * k))

-- On a page that is on a list, the byte address of a block of positive size that `slob_page_alloc`
-- returns is a multiple of the alignment, for an alignment that is a power of two and at least two
-- bytes.
pub slob_page_alloc-aligned :
    (s : Slob) (sp size j : ℕ) (bs : Blocks) (s' : Slob) (b : Ptr)
    → IsPage s.mem sp (s.page sp) bs
    → (s.page sp).is_free ≡ true
    → 1 ≤ size
    → slob_page_alloc s sp size (2 * 2 ^ j) ≡ some (s', some b)
    → (2 * b) % (2 * 2 ^ j) ≡ 0
slob_page_alloc-aligned s sp size j bs s' b page free some_size e =
    let h : Outcome s sp (slob_units_of size) (2 * 2 ^ j) bs (some (s', some b)) =
      rw e at (slob_page_alloc_lem s sp size (2 * 2 ^ j) bs page free some_size) in
    let start : b ≡ h.1.cur + delta_at (2 * 2 ^ j) h.1.cur = omega (arith, h.3, h.2.fits.delta) in
    rw start (delta_at-aligned j h.1.cur)
