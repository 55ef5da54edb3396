-- ===== src/Slob/Free/Place.antt =====
-- The loop of `slob_free` that finds where a block belongs.
use cs444_operating_systems.Prelude.{
  ℕ, zero, suc, ◌+◌, ◌*◌, ◌≤◌, ◌<◌, ◌≡◌, refl, inl, inr, [], ◌∷◌, ◌++◌, Option, some, arith, length,
  ltb, Bool-cases, ltb→lt, ap,
}
use cs444_operating_systems.Slob.Block.{Ptr, Mem, slob_next}
use cs444_operating_systems.Slob.Segment.{Blocks, Seg}
use cs444_operating_systems.Slob.Free.{find_prev}

-- The place of `b` in a list: between the blocks `prev` and `next`, or `next` is the end.
pub record Place (m : Mem) (b : Ptr) (bs : Blocks) (found : Option (Ptr × Ptr)) : Type 0 where
  pub front : Blocks
  pub prev : Ptr
  pub size : ℕ
  pub back : Blocks
  pub result : found ≡ some (prev, slob_next m prev)
  pub split : bs ≡ front ++ (prev, size) ∷ back
  pub behind : prev < b
  pub before : b ≤ slob_next m prev

-- The loop ends, and finds the place.
pub find_prev-Place :
    (fuel : ℕ) (m : Mem) (g lo b p a n : ℕ) (bs : Blocks)
    → Seg m lo (g * 2048 + 2049) p ((a, n) ∷ bs) (g * 2048 + 2048)
    → a < b
    → b < g * 2048 + 2048
    → length bs < fuel
    → Place m b ((a, n) ∷ bs) (find_prev fuel m b a (slob_next m a))
unfolding find_prev
find_prev-Place zero m g lo b p a n bs s l k f = absurd (omega arith)
find_prev-Place (suc fuel) m g lo b p a n [] s l k f = record {
  front = [];
  prev = a;
  size = n;
  back = [];
  result = ground (arith, s.5.0);
  split = refl;
  behind = l;
  before = omega (arith, s.5.0);
}
find_prev-Place (suc fuel) m g lo b p a n ((c, j) ∷ bs) s l k f =
    elim (Bool-cases (ltb (slob_next m a) b)) [
      | inr stop ↦ record {
        front = [];
        prev = a;
        size = n;
        back = (c, j) ∷ bs;
        result = ground arith;
        split = refl;
        behind = l;
        before = ground arith;
      }
      | inl more ↦
          let e : slob_next m a ≡ c = s.5.0 in
          let less : c < b = omega (arith, ltb→lt _ b more) in
          let ih =
            find_prev-Place fuel m g (a + n + 1) b (slob_next m a) c j bs s.5 less k
              (omega arith) in
          record {
            front = (a, n) ∷ ih.front;
            prev = ih.prev;
            size = ih.size;
            back = ih.back;
            result = ground (arith, ih.result, e);
            split = ap (λ x. (a, n) ∷ x) ih.split;
            behind = ih.behind;
            before = ih.before;
          }
    ]
