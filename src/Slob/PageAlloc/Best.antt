-- ===== src/Slob/PageAlloc/Best.antt =====
-- Which block the best-fit scan of `slob_page_alloc` chooses.
use mathlib.Core.List.{append_assoc, append-nil}
use cs444_operating_systems.Prelude.{
  ℕ, ◌+◌, ◌-◌, ◌≤◌, ◌<◌, ◌≡◌, refl, subst, inl, inr, [], ◌∷◌, ◌++◌, Option, none, some, arith, ltb,
  leb, All, All-append, All-map, Bool-cases, leb→le, ltb→lt,
}
use cs444_operating_systems.Slob.Block.{Ptr}
use cs444_operating_systems.Slob.Segment.{Blocks}
use cs444_operating_systems.Slob.PageAlloc.{Candidate, consider, delta_at, aligned_at}
use cs444_operating_systems.Slob.PageAlloc.Scan.{pick}

-- The address of the last block, `prev` if there is none.
abbrev pub last_ptr : Option Ptr → Blocks → Option Ptr
last_ptr prev [] = prev
last_ptr prev ((a, n) ∷ bs) = last_ptr (some a) bs

pub last_ptr-snoc :
    (prev : Option Ptr) (bs : Blocks) (a n : ℕ) → last_ptr prev (bs ++ (a, n) ∷ []) ≡ some a
last_ptr-snoc prev [] a n = refl
last_ptr-snoc prev ((b, k) ∷ bs) a n = last_ptr-snoc (some b) bs a n

-- The units that a block needs for the request, those in front of an aligned address included.
abbrev pub need : (units align : ℕ) → ℕ → ℕ
need units align a = units + delta_at align a

-- `b` is a block of `bs` with room, seen by a loop.
pub record Fits (units align : ℕ) (bs : Blocks) (b : Candidate) : Type 0 where
  pub front : Blocks
  pub size : ℕ
  pub back : Blocks
  pub split : bs ≡ front ++ (b.cur, size) ∷ back
  pub prev : b.prev ≡ last_ptr none front
  pub delta : b.delta ≡ delta_at align b.cur
  pub aligned : b.aligned ≡ aligned_at align b.cur
  pub room : need units align b.cur ≤ size

-- `b` is the block of `bs` with room that has the fewest units to spare, and the first such.
pub record Chosen (units align : ℕ) (bs : Blocks) (b : Candidate) : Type 0 where
  pub fits : Fits units align bs b
  pub diff : b.diff + need units align b.cur ≡ fits.size
  pub least : All (λ x. need units align x.0 ≤ x.1 → b.diff + need units align x.0 ≤ x.1) bs
  pub first : All (λ x. need units align x.0 ≤ x.1 → b.diff + need units align x.0 < x.1) fits.front

-- The scan has seen `bs` and holds `best`.
abbrev pub Seen : (units align : ℕ) → Blocks → Option Candidate → Type 0
Seen units align bs none = All (λ x. x.1 < need units align x.0) bs
Seen units align bs (some b) = Chosen units align bs b

module _ (units align : ℕ) (bs : Blocks) (a n : ℕ) where
  abbrev candidate : Candidate
  candidate = record {
    prev = last_ptr none bs;
    cur = a;
    aligned = aligned_at align a;
    delta = delta_at align a;
    diff = n - (units + delta_at align a);
  }

  abbrev bs' : Blocks
  bs' = bs ++ (a, n) ∷ []

  -- A block with more to spare, or with no room, leaves the choice.
  Chosen-keep :
      (b : Candidate)
      → Chosen units align bs b
      → (need units align a ≤ n → b.diff + need units align a ≤ n)
      → Chosen units align bs' b
  Chosen-keep b c h = record {
    fits = record {
      front = c.fits.front;
      size = c.fits.size;
      back = c.fits.back ++ (a, n) ∷ [];
      split = rw (c.fits.split, append_assoc) refl;
      prev = c.fits.prev;
      delta = c.fits.delta;
      aligned = c.fits.aligned;
      room = c.fits.room;
    };
    diff = c.diff;
    first = c.first;
    least = All-append _ bs ((a, n) ∷ []) c.least (h, tt);
  }

  abbrev candidate-Fits : need units align a ≤ n → Fits units align bs' candidate
  candidate-Fits room = record {
    front = bs;
    size = n;
    back = [];
    split = refl;
    prev = refl;
    delta = refl;
    aligned = refl;
    room = room;
  }

  Chosen-new :
      need units align a ≤ n
      → All
          (λ x.
            need units align x.0 ≤ x.1
            → (n - (units + delta_at align a)) + need units align x.0 < x.1)
          bs
      → Chosen units align bs' candidate
  Chosen-new room h = record {
    fits = candidate-Fits room;
    diff = omega arith;
    least =
        All-append _ bs ((a, n) ∷ []) (All-map _ _ (λ x f r. omega (arith, f r)) bs h)
          ((λ r. omega arith), tt);
    first = h;
  }

  consider-Seen :
      (best : Option Candidate)
      → Seen units align bs best
      → Seen units align bs' (consider units align (last_ptr none bs) a n best)
  unfolding consider
  consider-Seen none s = elim (Bool-cases (leb (units + delta_at align a) n)) [
    | inr full ↦ rw full (All-append _ bs ((a, n) ∷ []) s ((ground arith), tt))
    | inl room ↦
        rw room (Chosen-new (leb→le _ n room) (All-map _ _ (λ x f r. absurd (omega arith)) bs s))
  ]
  consider-Seen (some b) s = elim (Bool-cases (leb (units + delta_at align a) n)) [
    | inr full ↦ rw full (Chosen-keep b s (λ r. absurd (ground arith)))
    | inl room ↦ elim (Bool-cases (ltb (n - (units + delta_at align a)) b.diff)) [
      | inl less ↦
          rw (room, less)
            (Chosen-new (leb→le _ n room)
              (All-map _ _ (λ x f r. omega (arith, f r, ltb→lt _ b.diff less)) bs s.least))
      | inr more ↦ rw (room, more) (Chosen-keep b s (λ r. ground arith))
    ]
  ]

-- The whole scan, behind the blocks `bs`.
pick-Seen_from :
    (units align : ℕ) (bs cs : Blocks) (best : Option Candidate)
    → Seen units align bs best
    → Seen units align (bs ++ cs) (pick units align (last_ptr none bs) cs best)
unfolding pick
pick-Seen_from units align bs [] best s = rw append-nil s
pick-Seen_from units align bs ((a, n) ∷ cs) best s =
    let ih =
      pick-Seen_from units align (bs ++ (a, n) ∷ []) cs _
        (consider-Seen units align bs a n best s) in
    subst
      (λ x.
        Seen units align x
          (pick units align (some a) cs (consider units align (last_ptr none bs) a n best)))
      (append_assoc bs ((a, n) ∷ []) cs) (rw last_ptr-snoc at ih)

-- The scan of a list of blocks chooses the block with room that has the fewest units to spare,
-- the first such, and none only if no block has room.
pub pick-Seen :
    (units align : ℕ) (bs : Blocks) → Seen units align bs (pick units align none bs none)
pick-Seen units align bs = pick-Seen_from units align [] bs none tt
