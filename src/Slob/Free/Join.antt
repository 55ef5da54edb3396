-- ===== src/Slob/Free/Join.antt =====
-- `slob_free` links a block to the block in front of it.
use cs444_operating_systems.Prelude.{
  ℕ, ◌+◌, ◌*◌, ◌≤◌, ◌≡◌, refl, inl, inr, true, false, ◌∷◌, arith, ◌==◌, Bool-cases, ◌∙◌, ◌||◌,
}
use cs444_operating_systems.Slob.Block.{Mem, set_slob, slob_next}
use cs444_operating_systems.Slob.BlockLaws.{Fits, set_slob-outside}
use cs444_operating_systems.Slob.Segment.{
  Blocks, Header, Seg, Header-frame, Header-set_slob, Seg-frame, Seg-widen, Seg-first,
}
use cs444_operating_systems.Slob.Cover.{inside, covers, total}
use cs444_operating_systems.Slob.Free.{join_prev}
use cs444_operating_systems.Slob.Free.Insert.{Added}

-- The list from `prev` on with the units from `b` on added to the blocks `bs`.
pub record Joined (m m' : Mem) (g lo prev : ℕ) (b units : ℕ) (bs : Blocks) : Type 0 where
  pub blocks : Blocks
  pub list : Seg m' lo (g * 2048 + 2049) prev blocks (g * 2048 + 2048)
  pub added : (x : ℕ) → covers blocks x ≡ (covers bs x || inside b units x)
  pub more : total blocks ≡ total bs + units
  pub same : (x : ℕ) → covers bs x ≡ false → inside b units x ≡ false → m' x ≡ m x

module _ (m m₁ : Mem) (g lo prev k b units : ℕ) (back : Blocks) (in_page : g * 2048 ≤ lo)
    (above : lo ≤ prev) (ahead : prev + k ≤ b) (some_before : 1 ≤ k)
    (h : Header m prev k (slob_next m prev))
    (range : (x : ℕ) → covers back x ≡ true → prev + k + 1 ≤ x)
    (a : Added m m₁ g b b units back) where
  -- `prev` is as before.
  h₁ : Header m₁ prev k (slob_next m prev)
  h₁ = Header-frame (λ x l j. a.same x (ground (arith, range x)) (ground arith)) some_before h

  after : (b + a.size + 1 ≤ slob_next m₁ b + 1) × (slob_next m₁ b ≤ g * 2048 + 2048)
  after =
      Seg-first m₁ (b + a.size + 1) (g * 2048 + 2049) (slob_next m₁ b) (g * 2048 + 2048) a.rest
        a.list.5 (omega arith)

  -- They touch, and are one block.
  joined :
      (prev + k == b) ≡ true
      → Joined m
          (set_slob m₁ prev (a.size + k) (slob_next m₁ b))
          g
          lo
          prev
          b
          units
          ((prev, k) ∷ back)
  unfolding covers total
  joined t =
      let f : Fits g prev (a.size + k) (slob_next m₁ b) = record {
        low = omega arith;
        high = ground (arith, a.list.3);
        some_unit = omega arith;
        behind = omega (arith, after);
        near = after.1;
      } in
      let h' = Header-set_slob m₁ f in
      let m' = set_slob m₁ prev (a.size + k) (slob_next m₁ b) in
      record {
        blocks = (prev, a.size + k) ∷ a.rest;
        list = (
          refl,
          above,
          omega arith,
          ground (arith, a.list.3),
          record { units = h'.units; next = refl; short = h'.short },
          rw h'.next (
              Seg-widen m' (b + a.size + 1) (prev + (a.size + k) + 1) (g * 2048 + 2049)
                (g * 2048 + 2049) (slob_next m₁ b) (g * 2048 + 2048) a.rest (ground arith)
                (omega arith)
                (Seg-frame m₁ m' (b + a.size + 1) (g * 2048 + 2049) (slob_next m₁ b)
                  (g * 2048 + 2048) a.rest (λ x l j. set_slob-outside f m₁ x (inr (ground arith)))
                  a.list.5)),
        );
        added = λ x. ground (arith, a.added x);
        more = omega (arith, a.more);
        same = λ x o i.
            set_slob-outside f m₁ x (ground (arith, a.added x)) ∙ a.same x (ground arith) i;
      }

  -- They do not touch.
  separate :
      (prev + k == b) ≡ false → Joined m (set_slob m₁ prev k b) g lo prev b units ((prev, k) ∷ back)
  unfolding covers total
  separate t =
      let f : Fits g prev k b = record {
        low = omega arith;
        high = omega (arith, a.list.3);
        some_unit = some_before;
        behind = omega arith;
        near = omega (arith, a.list.3);
      } in
      let h' = Header-set_slob m₁ f in
      let m' = set_slob m₁ prev k b in
      record {
        blocks = (prev, k) ∷ (b, a.size) ∷ a.rest;
        list = (
          refl,
          above,
          omega arith,
          omega (arith, a.list.3),
          record { units = h'.units; next = refl; short = h'.short },
          rw h'.next (
              Seg-widen m' b (prev + k + 1) (g * 2048 + 2049) (g * 2048 + 2049) b (g * 2048 + 2048)
                ((b, a.size) ∷ a.rest) (ground arith) (omega arith)
                (Seg-frame m₁ m' b (g * 2048 + 2049) b (g * 2048 + 2048) ((b, a.size) ∷ a.rest)
                  (λ x l j. set_slob-outside f m₁ x (inr (omega arith))) a.list)),
        );
        added = λ x. ground (arith, a.added x);
        more = omega (arith, a.more);
        same = λ x o i. set_slob-outside f m₁ x (ground arith) ∙ a.same x (ground arith) i;
      }

  -- `join_prev` links `prev` to `b`, and joins them where they touch.
  pub join_prev-Joined : Joined m (join_prev m₁ prev b) g lo prev b units ((prev, k) ∷ back)
  unfolding join_prev
  join_prev-Joined = rw h₁.units (elim (Bool-cases (prev + k == b)) [
    | inl t ↦ rw (t, a.list.4.units) (joined t)
    | inr t ↦ rw t (separate t)
  ])
