-- ===== src/Slob/Segment.antt =====
-- The free list of a page (CS444_project4_46/slob.c) as a list of blocks, in address order.
use cs444_operating_systems.Prelude.{
  ℕ, ◌+◌, ◌≤◌, ◌<◌, ◌≡◌, refl, ◌⊎◌, true, List, [], ◌∷◌, ◌++◌, arith,
}
use cs444_operating_systems.Slob.Block.{Ptr, Mem, is_negative, set_slob, slob_units, slob_next}
use cs444_operating_systems.Slob.BlockLaws.{
  Fits, slob_units-set_slob, slob_next-set_slob, set_slob-short,
}

-- Start and size of each block.
abbrev pub Blocks : Type 0
Blocks = List (ℕ × ℕ)

-- `m` holds at `a` the header of a free block of `n` units with successor `q`.
pub record Header (m : Mem) (a n : ℕ) (q : Ptr) : Type 0 where
  pub units : slob_units m a ≡ n
  pub next : slob_next m a ≡ q
  pub short : (1 < n) ⊎ (is_negative (m a) ≡ true)

-- From `p` the successors lead through the blocks `bs` to `r`. The blocks lie in order between
-- `lo` and `hi`, and each is followed by a unit that is in no block.
abbrev pub Seg : Mem → (lo hi : ℕ) → Ptr → Blocks → Ptr → Type 0
Seg m lo hi p [] r = (p ≡ r) × (lo ≤ hi)
Seg m lo hi p ((a, n) ∷ bs) r =
    (p ≡ a)
    × (lo ≤ a)
    × (1 ≤ n)
    × (a + n < hi)
    × Header m a n (slob_next m a)
    × Seg m (a + n + 1) hi (slob_next m a) bs r

pub Header-frame :
    {m m' : Mem} {a n : ℕ} {q : Ptr}
    → ((x : ℕ) → a ≤ x → x < a + n → m' x ≡ m x)
    → 1 ≤ n
    → Header m a n q
    → Header m' a n q
unfolding slob_units slob_next
Header-frame {a} same some_unit h = record {
  units = ground (arith, same a, h.units);
  next = ground (arith, same a, same (a + 1), h.next, h.short);
  short = ground (arith, same a, h.short);
}

pub Header-set_slob : {g a n q : ℕ} (m : Mem) → Fits g a n q → Header (set_slob m a n q) a n q
Header-set_slob m f = record {
  units = slob_units-set_slob f m;
  next = slob_next-set_slob f m;
  short = set_slob-short f m;
}

-- The list is unchanged where the memory of its blocks is.
pub Seg-frame :
    (m m' : Mem) (lo hi : ℕ) (p r : Ptr) (bs : Blocks)
    → ((x : ℕ) → lo ≤ x → x + 1 < hi → m' x ≡ m x)
    → Seg m lo hi p bs r
    → Seg m' lo hi p bs r
Seg-frame m m' lo hi p r [] same s = s
Seg-frame m m' lo hi p r ((a, n) ∷ bs) same (e, low, some_unit, high, h, rest) =
    let h' : Header m' a n (slob_next m a) =
      Header-frame (λ x l k. same x (omega arith) (omega arith)) some_unit h in
    (
      e,
      low,
      some_unit,
      high,
      record { units = h'.units; next = refl; short = h'.short },
      rw h'.next (
          Seg-frame m m' (a + n + 1) hi (slob_next m a) r bs (λ x l k. same x (omega arith) k)
            rest),
    )

-- A wider range holds the list too.
pub Seg-widen :
    (m : Mem) (lo lo' hi hi' : ℕ) (p r : Ptr) (bs : Blocks)
    → lo' ≤ lo
    → hi ≤ hi'
    → Seg m lo hi p bs r
    → Seg m lo' hi' p bs r
Seg-widen m lo lo' hi hi' p r [] l k (e, w) = (e, omega arith)
Seg-widen m lo lo' hi hi' p r ((a, n) ∷ bs) l k (e, low, some_unit, high, h, rest) = (
  e,
  omega arith,
  some_unit,
  omega arith,
  h,
  Seg-widen m (a + n + 1) (a + n + 1) hi hi' (slob_next m a) r bs (omega arith) k rest,
)

pub Seg-range : (m : Mem) (lo hi : ℕ) (p r : Ptr) (bs : Blocks) → Seg m lo hi p bs r → lo ≤ hi
Seg-range m lo hi p r [] s = s.1
Seg-range m lo hi p r ((a, n) ∷ bs) (e, low, some_unit, high, h, rest) = omega arith

-- Where a list starts: in its range, or at its end.
pub Seg-first :
    (m : Mem) (lo hi : ℕ) (p r : Ptr) (bs : Blocks)
    → Seg m lo hi p bs r
    → hi ≤ r + 1
    → (lo ≤ p + 1) × (p ≤ r)
Seg-first m lo hi p r [] s k = omega arith
Seg-first m lo hi p r ((a, n) ∷ bs) (e, low, some_unit, high, h, rest) k = omega arith

pub Seg-append :
    (m : Mem) (lo mid hi : ℕ) (p q r : Ptr) (bs cs : Blocks)
    → Seg m lo mid p bs q
    → Seg m mid hi q cs r
    → Seg m lo hi p (bs ++ cs) r
Seg-append m lo mid hi p q r [] cs (e, l) t =
    rw e (Seg-widen m mid lo hi hi q r cs l (omega arith) t)
Seg-append m lo mid hi p q r ((a, n) ∷ bs) cs (e, low, some_unit, high, h, rest) t = (
  e,
  low,
  some_unit,
  omega (arith, Seg-range m mid hi q r cs t),
  h,
  Seg-append m (a + n + 1) mid hi (slob_next m a) q r bs cs rest t,
)

pub Seg-split :
    (m : Mem) (lo hi : ℕ) (p r : Ptr) (bs : Blocks) (a n : ℕ) (cs : Blocks)
    → Seg m lo hi p (bs ++ (a, n) ∷ cs) r
    → Seg m lo a p bs a × Seg m a hi a ((a, n) ∷ cs) r
Seg-split m lo hi p r [] a n cs (e, low, some_unit, high, h, rest) =
    ((e, low), (refl, omega arith, some_unit, high, h, rest))
Seg-split m lo hi p r ((b, k) ∷ bs) a n cs (e, low, some_unit, high, h, rest) =
    let (front, back) = Seg-split m (b + k + 1) hi (slob_next m b) r bs a n cs rest in
    (
      (
        e,
        low,
        some_unit,
        omega (arith, Seg-range m (b + k + 1) a (slob_next m b) a bs front),
        h,
        front,
      ),
      back,
    )
