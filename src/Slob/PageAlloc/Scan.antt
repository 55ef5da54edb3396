-- ===== src/Slob/PageAlloc/Scan.antt =====
-- The loops of `slob_page_alloc` over memory, and the same scans over the list of blocks.
use cs444_operating_systems.Prelude.{
  ℕ, zero, suc, ◌+◌, ◌*◌, ◌≤◌, ◌<◌, ◌≡◌, [], ◌∷◌, Option, none, some, arith, length,
}
use cs444_operating_systems.Slob.Block.{Ptr, Mem, slob_next, slob_last}
use cs444_operating_systems.Slob.BlockLaws.{slob_last-eq}
use cs444_operating_systems.Slob.Segment.{Blocks, Seg}
use cs444_operating_systems.Slob.Cover.{is_empty}
use cs444_operating_systems.Slob.PageAlloc.{Candidate, consider, best_fit, first_fit}

-- The candidate that a scan of the blocks keeps.
unfoldable pub pick : (units align : ℕ) → Option Ptr → Blocks → Option Candidate → Option Candidate
pick units align prev [] best = best
pick units align prev ((a, n) ∷ bs) best =
    pick units align (some a) bs (consider units align prev a n best)

-- The first block that is a candidate.
unfoldable pub pick_first : (units align : ℕ) → Option Ptr → Blocks → Option Candidate
pick_first units align prev [] = none
pick_first units align prev ((a, n) ∷ bs) =
    let rest = pick_first units align (some a) bs in
    elim (consider units align prev a n none) [ some b ↦ some b | none ↦ rest ]

-- The last block of a list is found to be last, and no other.
pub last_of :
    (m : Mem) (g lo a n : ℕ) (bs : Blocks)
    → g * 2048 ≤ lo
    → lo ≤ a
    → Seg m (a + n + 1) (g * 2048 + 2049) (slob_next m a) bs (g * 2048 + 2048)
    → slob_last m a ≡ is_empty bs
last_of m g lo a n [] l k (e, w) = rw (slob_last-eq m a, e) (ground arith)
last_of m g lo a n ((b, j) ∷ bs) l k (e, low, some_unit, high, h, rest) =
    rw (slob_last-eq m a, e) (ground arith)

-- With fuel for every block, the best-fit loop ends and is the scan of the blocks.
pub best_fit-pick :
    (fuel : ℕ) (m : Mem) (g lo : ℕ) (units align : ℕ) (prev : Option Ptr) (p a n : ℕ) (bs : Blocks)
    (best : Option Candidate)
    → length bs < fuel
    → g * 2048 ≤ lo
    → Seg m lo (g * 2048 + 2049) p ((a, n) ∷ bs) (g * 2048 + 2048)
    → best_fit fuel m units align prev p best ≡ some (pick units align prev ((a, n) ∷ bs) best)
unfolding best_fit pick
best_fit-pick zero m g lo units align prev p a n bs best f l s = absurd (omega arith)
best_fit-pick (suc fuel) m g lo units align prev p a n [] best f l
      (e, low, some_unit, high, h, rest) =
    rw (e, h.units, last_of m g lo a n [] l low rest)
best_fit-pick (suc fuel) m g lo units align prev p a n ((b, k) ∷ bs) best f l
      (e, low, some_unit, high, h, rest) =
    rw (e, h.units, last_of m g lo a n ((b, k) ∷ bs) l low rest)
      (best_fit-pick fuel m g (a + n + 1) units align (some a) (slob_next m a) b k bs
        (consider units align prev a n best) (omega arith) (omega arith) rest)

-- So is the first-fit loop.
pub first_fit-pick_first :
    (fuel : ℕ) (m : Mem) (g lo : ℕ) (units align : ℕ) (prev : Option Ptr) (p a n : ℕ) (bs : Blocks)
    → length bs < fuel
    → g * 2048 ≤ lo
    → Seg m lo (g * 2048 + 2049) p ((a, n) ∷ bs) (g * 2048 + 2048)
    → first_fit fuel m units align prev p ≡ some (pick_first units align prev ((a, n) ∷ bs))
unfolding first_fit pick_first
first_fit-pick_first zero m g lo units align prev p a n bs f l s = absurd (omega arith)
first_fit-pick_first (suc fuel) m g lo units align prev p a n [] f l
      (e, low, some_unit, high, h, rest) =
    rw e (ground (arith, h.units, last_of m g lo a n [] l low rest))
first_fit-pick_first (suc fuel) m g lo units align prev p a n ((b, k) ∷ bs) f l
      (e, low, some_unit, high, h, rest) =
    let ih =
      first_fit-pick_first fuel m g (a + n + 1) units align (some a) (slob_next m a) b k bs
        (omega arith) (omega arith) rest in
    rw e (ground (arith, h.units, last_of m g lo a n ((b, k) ∷ bs) l low rest, ih))
