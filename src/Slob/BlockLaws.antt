-- ===== src/Slob/BlockLaws.antt =====
-- What `set_slob` writes, `slob_units` and `slob_next` read back; all other units stay.
use cs444_operating_systems.Prelude.{
  ℕ, ◌+◌, ◌-◌, ◌*◌, ◌%◌, ◌≤◌, ◌<◌, ◌≡◌, refl, ◌⊎◌, true, ltb, ◌==◌, if◌then◌else◌, arith,
}
use cs444_operating_systems.Prelude.Int.{pos, negsuc, sub_ℕ, neg, to_s16}
use cs444_operating_systems.Slob.Block.{
  Ptr, Mem, write, page_base, set_slob, slob_units, slob_next, is_negative, slob_last,
}

-- A block of `size` units at `s` in page `g`, and an address behind its start that is in the page
-- or is the start of the next one.
pub record Fits (g : ℕ) (s : Ptr) (size : ℕ) (next : Ptr) : Type 0 where
  pub low : g * 2048 ≤ s
  pub high : s + size ≤ g * 2048 + 2048
  pub some_unit : 1 ≤ size
  pub behind : s < next
  pub near : next ≤ g * 2048 + 2048

module _ {g s size next : ℕ} (f : Fits g s size next) where
  page_base-of : page_base s ≡ g * 2048
  page_base-of = omega arith

  offset-of : to_s16 (sub_ℕ next (page_base s)) ≡ pos (next - g * 2048)
  offset-of = ground arith

  neg_offset : to_s16 (neg (pos (next - g * 2048))) ≡ negsuc (next - g * 2048 - 1)
  neg_offset = ground arith

  size-of : to_s16 (pos size) ≡ pos size
  size-of = ground arith

  -- The form of the write that proofs use.
  set_slob-eq :
      (m : Mem)
      → set_slob m s size next ≡ (
          if ltb 1 size
          then write (write m s (pos size)) (s + 1) (pos (next - g * 2048))
          else write m s (negsuc (next - g * 2048 - 1)))
  unfolding set_slob
  set_slob-eq m = rw (size-of, offset-of, neg_offset) (ground arith)

  -- `slob_units` reads the size that `set_slob` wrote.
  pub slob_units-set_slob : (m : Mem) → slob_units (set_slob m s size next) s ≡ size
  unfolding slob_units
  slob_units-set_slob m = rw (set_slob-eq m) (ground arith)

  -- `slob_next` reads the successor that `set_slob` wrote.
  pub slob_next-set_slob : (m : Mem) → slob_next (set_slob m s size next) s ≡ next
  unfolding slob_next
  slob_next-set_slob m = rw (set_slob-eq m) (ground arith)

  -- A unit outside the block keeps its content.
  pub set_slob-outside :
      (m : Mem) (x : ℕ) → (x < s) ⊎ (s + size ≤ x) → set_slob m s size next x ≡ m x
  set_slob-outside m x out = rw (set_slob-eq m) (ground arith)

  -- A block of one unit is marked by a negative content.
  pub set_slob-short : (m : Mem) → (1 < size) ⊎ (is_negative (set_slob m s size next s) ≡ true)
  set_slob-short m = rw (set_slob-eq m) (ground arith)

-- A free block is the last one exactly when its successor is the start of the next page.
pub slob_last-eq : (m : Mem) (s : Ptr) → slob_last m s ≡ (slob_next m s % 2048 == 0)
unfolding slob_last
slob_last-eq m s = refl

-- A free block that `set_slob` has written reads back: its size, its successor, and that it is the
-- last one exactly if the successor starts a page; the units outside the block keep their content.
pub set_slob_roundtrip :
    (m : Mem) (g s size next : ℕ)
    → Fits g s size next
    → (slob_units (set_slob m s size next) s ≡ size)
      × (slob_next (set_slob m s size next) s ≡ next)
      × (slob_last (set_slob m s size next) s ≡ (next % 2048 == 0))
      × ((x : ℕ) → (x < s) ⊎ (s + size ≤ x) → set_slob m s size next x ≡ m x)
set_slob_roundtrip m g s size next f = (
  slob_units-set_slob f m,
  slob_next-set_slob f m,
  rw (slob_last-eq, slob_next-set_slob f m),
  set_slob-outside f m,
)
