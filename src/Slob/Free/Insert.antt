-- ===== src/Slob/Free/Insert.antt =====
-- `slob_free` puts a block in front of others of its page.
use cs444_operating_systems.Prelude.{
  ℕ, ◌+◌, ◌*◌, ◌≤◌, ◌<◌, ◌≡◌, refl, sym, subst, inl, inr, true, false, [], ◌∷◌, arith, ◌==◌,
  Bool-cases, ◌||◌,
}
use cs444_operating_systems.Slob.Block.{Ptr, Mem, set_slob, slob_units, slob_next}
use cs444_operating_systems.Slob.BlockLaws.{Fits, set_slob-outside}
use cs444_operating_systems.Slob.Segment.{
  Blocks, Seg, Header-set_slob, Seg-frame, Seg-widen, Seg-first,
}
use cs444_operating_systems.Slob.Cover.{inside, covers, total}
use cs444_operating_systems.Slob.PageAlloc.Scan.{last_of}
use cs444_operating_systems.Slob.Free.{free_before, join_next}

-- From `b` on there is a free list with the units from `b` on added to `bs`, and starting there.
pub record Added (m m' : Mem) (g lo : ℕ) (b units : ℕ) (bs : Blocks) : Type 0 where
  pub size : ℕ
  pub rest : Blocks
  pub list : Seg m' lo (g * 2048 + 2049) b ((b, size) ∷ rest) (g * 2048 + 2048)
  pub added : (x : ℕ) → covers ((b, size) ∷ rest) x ≡ (covers bs x || inside b units x)
  pub more : total ((b, size) ∷ rest) ≡ total bs + units
  pub same : (x : ℕ) → covers bs x ≡ false → inside b units x ≡ false → m' x ≡ m x

-- A block is put in front of a list of blocks behind it.
module _ (m : Mem) (g lo b units : ℕ) (q : Ptr) (back : Blocks) (in_page : g * 2048 ≤ lo)
    (above : lo ≤ b) (some_unit : 1 ≤ units) (ends : b + units ≤ g * 2048 + 2048) where
  top : ℕ
  top = g * 2048 + 2048

  fits :
      (u : ℕ)
      → units ≤ u
      → b + u ≤ g * 2048 + 2048
      → (r : Ptr) → b < r
      → r ≤ g * 2048 + 2048
      → Fits g b u r
  fits u l e r k j = record {
    low = omega arith;
    high = e;
    some_unit = omega arith;
    behind = k;
    near = j;
  }

  -- They do not touch.
  put_before :
      (lo' : ℕ)
      → b + units + 1 ≤ lo'
      → Seg m lo' (g * 2048 + 2049) q back (g * 2048 + 2048)
      → Added m (set_slob m b units q) g lo b units back
  unfolding covers total
  put_before lo' apart s =
      let after = Seg-first m lo' (g * 2048 + 2049) q (g * 2048 + 2048) back s (omega arith) in
      let f = fits units (omega arith) ends q (omega (arith, after)) after.1 in
      let h = Header-set_slob m f in
      let m' = set_slob m b units q in
      record {
        size = units;
        rest = back;
        list = (
          refl,
          above,
          some_unit,
          omega arith,
          record { units = h.units; next = refl; short = h.short },
          rw h.next (
              Seg-widen m' lo' (b + units + 1) (g * 2048 + 2049) (g * 2048 + 2049) q
                (g * 2048 + 2048) back apart (omega arith)
                (Seg-frame m m' lo' (g * 2048 + 2049) q (g * 2048 + 2048) back
                  (λ x l k. set_slob-outside f m x (inr (omega arith))) s)),
        );
        added = λ x. ground arith;
        more = omega arith;
        same = λ x o i. set_slob-outside f m x (ground arith);
      }

  -- They touch, and are joined.
  put_joined :
      (j : ℕ)
      → Seg m (b + units) (g * 2048 + 2049) q ((b + units, j) ∷ back) (g * 2048 + 2048)
      → Added m (set_slob m b (units + j) (slob_next m q)) g lo b units ((b + units, j) ∷ back)
  unfolding covers total
  put_joined j (e, low, some_unit', high, h, s) =
      let r = slob_next m (b + units) in
      let after =
        Seg-first m (b + units + j + 1) (g * 2048 + 2049) r (g * 2048 + 2048) back s
          (omega arith) in
      let f = fits (units + j) (omega arith) (omega arith) r (omega (arith, after)) after.1 in
      let h' = Header-set_slob m f in
      let m' = set_slob m b (units + j) r in
      rw e (record {
        size = units + j;
        rest = back;
        list = (
          refl,
          above,
          omega arith,
          omega arith,
          record { units = h'.units; next = refl; short = h'.short },
          rw h'.next (
              Seg-widen m' (b + units + j + 1) (b + (units + j) + 1) (g * 2048 + 2049)
                (g * 2048 + 2049) r (g * 2048 + 2048) back (omega arith) (omega arith)
                (Seg-frame m m' (b + units + j + 1) (g * 2048 + 2049) r (g * 2048 + 2048) back
                  (λ x l k. set_slob-outside f m x (inr (omega arith))) s)),
        );
        added = λ x. ground arith;
        more = omega arith;
        same = λ x o i. set_slob-outside f m x (ground arith);
      })

module _ (m : Mem) (g lo b units : ℕ) (q : Ptr) (c j : ℕ) (back : Blocks) (lo' : ℕ)
    (in_page : g * 2048 ≤ lo) (above : lo ≤ b) (some_unit : 1 ≤ units)
    (s : Seg m lo' (g * 2048 + 2049) q ((c, j) ∷ back) (g * 2048 + 2048))
    (before : b + units ≤ c) where
  -- `b` lies in front of the block `c` and touches it.
  touching :
      (b + units == q) ≡ true
      → Added m (set_slob m b (units + slob_units m q) (slob_next m q)) g lo b units ((c, j) ∷ back)
  touching t =
      let e : c ≡ b + units = ground (arith, s.0) in
      let s' : Seg m (b + units) (g * 2048 + 2049) q ((b + units, j) ∷ back) (g * 2048 + 2048) =
        subst (λ x. Seg m (b + units) (g * 2048 + 2049) q ((x, j) ∷ back) (g * 2048 + 2048)) e
          (s.0, omega arith, s.2, s.3, s.4, s.5) in
      let units_eq : slob_units m q ≡ j = rw s.0 (s.4.units) in
      rw units_eq (
        subst (λ x. Added m (set_slob m b (units + j) (slob_next m q)) g lo b units ((x, j) ∷ back))
          (sym e) (put_joined m g lo b units q back in_page above some_unit (omega arith) j s'))

  -- `b` lies in front of the block `c` and does not touch it.
  apart : (b + units == q) ≡ false → Added m (set_slob m b units q) g lo b units ((c, j) ∷ back)
  apart t =
      put_before m g lo b units q ((c, j) ∷ back) in_page above some_unit (omega arith) c
        (ground (arith, s.0)) (s.0, omega arith, s.2, s.3, s.4, s.5)

  -- `free_before` puts `b` in front of the list, and joins it with the first block where they
  -- touch.
  pub free_before-Added :
      Added m (free_before m q b units).0 g lo b units ((c, j) ∷ back)
      × ((free_before m q b units).1 ≡ b)
  unfolding free_before
  free_before-Added = elim (Bool-cases (b + units == q)) [
    | inl t ↦ rw t (touching t, refl)
    | inr t ↦ rw t (apart t, refl)
  ]

-- `join_next` puts `b` in front of the blocks behind `prev`, and joins it with the first of them
-- where they touch.
pub join_next-Added :
    (m : Mem) (g lo prev k b units : ℕ) (back : Blocks)
    → g * 2048 ≤ lo
    → lo ≤ prev
    → prev + k ≤ b
    → 1 ≤ units
    → Seg m (prev + k + 1) (g * 2048 + 2049) (slob_next m prev) back (g * 2048 + 2048)
    → b + units ≤ slob_next m prev
    → Added m (join_next m prev (slob_next m prev) b units) g b b units back
unfolding join_next
join_next-Added m g lo prev k b units [] in_page above ahead some_unit s before =
    rw (last_of m g lo prev k [] in_page above s) (
      put_before m g b b units (slob_next m prev) [] (omega arith) (omega arith) some_unit
        (omega (arith, s.0)) (g * 2048 + 2049) (omega (arith, s.0)) (s.0, omega arith))
join_next-Added m g lo prev k b units ((c, j) ∷ back) in_page above ahead some_unit s before =
    rw (last_of m g lo prev k ((c, j) ∷ back) in_page above s)
      (elim (Bool-cases (b + units == slob_next m prev)) [
        | inl t ↦ rw t (
            touching m g b b units (slob_next m prev) c j back (prev + k + 1) (omega arith)
              (omega arith) some_unit s (omega (arith, s.0)) t)
        | inr t ↦ rw t (
            apart m g b b units (slob_next m prev) c j back (prev + k + 1) (omega arith)
              (omega arith) some_unit s (omega (arith, s.0)) t)
      ])
