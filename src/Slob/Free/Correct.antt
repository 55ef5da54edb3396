-- ===== src/Slob/Free/Correct.antt =====
-- What `slob_free` does to a page and to the units that are free on it.
use cs444_operating_systems.Prelude.{
  ℕ, ◌+◌, ◌*◌, ◌≤◌, ◌<◌, ◌≡◌, refl, subst, true, false, [], ◌∷◌, ◌++◌, arith, ◌||◌,
}
use cs444_operating_systems.Slob.Block.{Ptr, Mem, slob_next}
use cs444_operating_systems.Slob.Segment.{Blocks, Seg, Seg-frame, Seg-range, Seg-append, Seg-split}
use cs444_operating_systems.Slob.Cover.{
  inside, covers, total, covers-append, total-append, covers_range, length_range,
}
use cs444_operating_systems.Slob.Free.{find_prev, free_before, join_next, join_prev, free_fuel}
use cs444_operating_systems.Slob.Free.Place.{Place, find_prev-Place}
use cs444_operating_systems.Slob.Free.Insert.{free_before-Added, join_next-Added}
use cs444_operating_systems.Slob.Free.Join.{Joined, join_prev-Joined}

-- The units from `b` on are in page `g`, and are not free.
pub record IsInUse (g b units : ℕ) (bs : Blocks) : Type 0 where
  pub some_unit : 1 ≤ units
  pub low : g * 2048 ≤ b
  pub high : b + units ≤ g * 2048 + 2048
  pub in_use : (x : ℕ) → inside b units x ≡ true → covers bs x ≡ false

-- The free list of page `g` after the units from `b` on have been added to the blocks `bs`.
pub record Inserted (m m' : Mem) (g b units : ℕ) (bs : Blocks) (p' : Ptr) : Type 0 where
  pub blocks : Blocks
  pub list : Seg m' (g * 2048) (g * 2048 + 2049) p' blocks (g * 2048 + 2048)
  pub added : (x : ℕ) → covers blocks x ≡ (covers bs x || inside b units x)
  pub more : total blocks ≡ total bs + units
  pub same : (x : ℕ) → covers bs x ≡ false → inside b units x ≡ false → m' x ≡ m x

module _ (m : Mem) (g p b units : ℕ) (a n : ℕ) (bs : Blocks)
    (list : Seg m (g * 2048) (g * 2048 + 2049) p ((a, n) ∷ bs) (g * 2048 + 2048))
    (u : IsInUse g b units ((a, n) ∷ bs)) where
  open u use {some_unit, low, high, in_use}

  pub insert_front :
      b < a
      → Inserted m (free_before m p b units).0 g b units ((a, n) ∷ bs) (free_before m p b units).1
  unfolding covers
  insert_front l =
      let gap : b + units ≤ a = ground (arith, in_use a, list.2) in
      let (r, e) =
        free_before-Added m g (g * 2048) b units p a n bs (g * 2048) (omega arith) low some_unit
          list gap in
      record {
        blocks = (b, r.size) ∷ r.rest;
        list = rw e r.list;
        added = r.added;
        more = r.more;
        same = r.same;
      }

  module _ (l : a ≤ b) where
    behind_first : a < b
    unfolding covers
    behind_first = ground (arith, in_use a, in_use b, list.2)

    pub place : Place m b ((a, n) ∷ bs) (find_prev free_fuel m b a (slob_next m a))
    place = find_prev-Place free_fuel m g (g * 2048) b p a n bs list behind_first (omega arith) (
        omega (
          arith,
          length_range m (g * 2048) (g * 2048 + 2049) p (g * 2048 + 2048) ((a, n) ∷ bs) list,
        ))

    open place use {front, prev, size, back, split, behind, before}

    parts :
        Seg m (g * 2048) prev p front prev
        × Seg m prev (g * 2048 + 2049) prev ((prev, size) ∷ back) (g * 2048 + 2048)
    parts =
        Seg-split m (g * 2048) (g * 2048 + 2049) p (g * 2048 + 2048) front prev size back
          (subst (λ x. Seg m (g * 2048) (g * 2048 + 2049) p x (g * 2048 + 2048)) split list)

    covers-place :
        (x : ℕ) → covers ((a, n) ∷ bs) x ≡ (covers front x || covers ((prev, size) ∷ back) x)
    covers-place x = rw split (covers-append front ((prev, size) ∷ back) x)

    ahead : prev + size ≤ b
    unfolding covers
    ahead = ground (arith, in_use b, covers-place b)

    gap_behind :
        (cs : Blocks)
        → back ≡ cs
        → Seg m (prev + size + 1) (g * 2048 + 2049) (slob_next m prev) cs (g * 2048 + 2048)
        → b + units ≤ slob_next m prev
    unfolding covers
    gap_behind [] e s = omega (arith, s.0)
    gap_behind ((c, j) ∷ cs) e s =
        let at : covers ((prev, size) ∷ back) c ≡ true = rw e (ground (arith, s.2)) in
        ground (arith, in_use c, covers-place c, at, s.0, before)

    low_prev : g * 2048 ≤ prev
    low_prev = Seg-range m (g * 2048) prev p prev front parts.0

    abbrev pub m' : Mem
    m' = join_prev (join_next m prev (slob_next m prev) b units) prev b

    joined : Joined m m' g prev prev b units ((prev, size) ∷ back)
    joined =
        join_prev-Joined m (join_next m prev (slob_next m prev) b units) g prev prev size b units
          back low_prev (omega arith) ahead parts.1.2 parts.1.4
          (λ x c.
            (covers_range m (prev + size + 1) (g * 2048 + 2049) (slob_next m prev) (g * 2048 + 2048)
              back x parts.1.5 c).0)
          (join_next-Added m g prev prev size b units back low_prev (omega arith) ahead some_unit
            parts.1.5 (gap_behind back refl parts.1.5))

    pub insert_behind : Inserted m m' g b units ((a, n) ∷ bs) p
    insert_behind =
        let in_front = covers_range m (g * 2048) prev p prev front in
        let back_range =
          covers_range m prev (g * 2048 + 2049) prev (g * 2048 + 2048) ((prev, size) ∷ back) in
        let whole : total ((a, n) ∷ bs) ≡ total front + total ((prev, size) ∷ back) =
          rw split (total-append front ((prev, size) ∷ back)) in
        record {
          blocks = front ++ joined.blocks;
          list =
              Seg-append m' (g * 2048) prev (g * 2048 + 2049) p prev (g * 2048 + 2048) front
                joined.blocks
                (Seg-frame m m' (g * 2048) prev p prev front
                  (λ x l k. joined.same x (ground (arith, back_range x parts.1)) (ground arith))
                  parts.0)
                joined.list;
          added = λ x.
              ground (arith, covers-append front joined.blocks x, joined.added x, covers-place x);
          more = omega (arith, whole, total-append front joined.blocks, joined.more);
          same = λ x o i. joined.same x (ground (arith, covers-place x)) i;
        }
