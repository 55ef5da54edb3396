-- ===== src/Slob/Cover.antt =====
-- The units that a list of free blocks holds: an abstract view of the free list of a page, which
-- forgets how the units are grouped into blocks.
use cs444_operating_systems.Prelude.{
  ℕ, ◌+◌, ◌*◌, ◌≤◌, ◌<◌, ◌≡◌, refl, inl, inr, Bool, true, false, ◌&&◌, ◌||◌, [], ◌∷◌, ◌++◌, arith,
  length, ◌==◌, ltb, leb, Bool-cases,
}
use cs444_operating_systems.Slob.Block.{Ptr, Mem, slob_next}
use cs444_operating_systems.Slob.Segment.{Blocks, Seg}

-- Whether the unit `x` is one of the `n` units from `a` on.
abbrev pub inside : (a n x : ℕ) → Bool
inside a n x = leb a x && ltb x (a + n)

unfoldable pub covers : Blocks → ℕ → Bool
covers [] x = false
covers ((a, n) ∷ bs) x = inside a n x || covers bs x

unfoldable pub total : Blocks → ℕ
total [] = 0
total ((a, n) ∷ bs) = n + total bs

abbrev pub is_empty : Blocks → Bool
is_empty [] = true
is_empty (_ ∷ _) = false

pub covers-append : (bs cs : Blocks) (x : ℕ) → covers (bs ++ cs) x ≡ (covers bs x || covers cs x)
unfolding covers
covers-append [] cs x = refl
covers-append ((a, n) ∷ bs) cs x = ground (arith, covers-append bs cs x)

pub total-append : (bs cs : Blocks) → total (bs ++ cs) ≡ total bs + total cs
unfolding total
total-append [] cs = omega arith
total-append ((a, n) ∷ bs) cs = omega (arith, total-append bs cs)

-- The units of a list lie in its range.
pub covers_range :
    (m : Mem) (lo hi : ℕ) (p r : Ptr) (bs : Blocks) (x : ℕ)
    → Seg m lo hi p bs r
    → covers bs x ≡ true
    → (lo ≤ x) × (x + 1 < hi)
unfolding covers
covers_range m lo hi p r [] x s c = absurd (ground arith)
covers_range m lo hi p r ((a, n) ∷ bs) x (e, low, some_unit, high, h, rest) c =
    elim (Bool-cases (inside a n x)) [
      | inl here ↦ ground arith
      | inr there ↦
          let (l, k) = covers_range m (a + n + 1) hi (slob_next m a) r bs x rest (ground arith) in
          (omega arith, k)
    ]

-- They are at most as many as the range has room for, and some if there is a block.
pub total_range :
    (m : Mem) (lo hi : ℕ) (p r : Ptr) (bs : Blocks)
    → Seg m lo hi p bs r
    → lo + total bs + length bs ≤ hi
unfolding total
total_range m lo hi p r [] (e, w) = omega arith
total_range m lo hi p r ((a, n) ∷ bs) (e, low, some_unit, high, h, rest) =
    omega (arith, total_range m (a + n + 1) hi (slob_next m a) r bs rest)

pub total_zero :
    (m : Mem) (lo hi : ℕ) (p r : Ptr) (bs : Blocks)
    → Seg m lo hi p bs r
    → (total bs == 0) ≡ is_empty bs
unfolding total
total_zero m lo hi p r [] s = refl
total_zero m lo hi p r ((a, n) ∷ bs) (e, low, some_unit, high, h, rest) = ground arith

pub length_range :
    (m : Mem) (lo hi : ℕ) (p r : Ptr) (bs : Blocks) → Seg m lo hi p bs r → lo + 2 * length bs ≤ hi
length_range m lo hi p r [] (e, w) = omega arith
length_range m lo hi p r ((a, n) ∷ bs) (e, low, some_unit, high, h, rest) =
    omega (arith, length_range m (a + n + 1) hi (slob_next m a) r bs rest)
