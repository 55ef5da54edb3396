-- ===== src/Slob/PageAlloc/Correct.antt =====
-- What `slob_page_alloc` does to a page and to the units that are free on it.
use cs444_operating_systems.Prelude.{
  ℕ, ◌+◌, ◌-◌, ◌*◌, ◌≤◌, ◌<◌, ◌≡◌, refl, ◌≢◌, true, [], ◌∷◌, ◌++◌, Option, none, some, arith,
  if◌then◌else◌, ◌==◌, All, ◌∙◌, ◌&&◌, ◌||◌, not,
}
use cs444_operating_systems.Slob.Block.{Ptr, Mem, slob_units_of, slob_next}
use cs444_operating_systems.Slob.Segment.{Blocks, Seg, Seg-split}
use cs444_operating_systems.Slob.State.{Slob, Page, Size, remove, clear_slob_page_free}
use cs444_operating_systems.Slob.Cover.{
  inside, covers, total, is_empty, covers-append, total-append, covers_range, total_zero,
  length_range,
}
use cs444_operating_systems.Slob.PageAlloc.{
  Candidate, carve, delta_at, finish, page_fuel, slob_page_alloc,
}
use cs444_operating_systems.Slob.PageAlloc.Scan.{pick, best_fit-pick}
use cs444_operating_systems.Slob.PageAlloc.Best.{need, Fits, Chosen, Seen, pick-Seen}
use cs444_operating_systems.Slob.PageAlloc.Relink.{Becomes, SameUncovered}
use cs444_operating_systems.Slob.PageAlloc.Carve.{left_of, carve-Becomes}

-- Page `g` has the free blocks `bs`; it is on a list while it has any.
pub record IsPage (m : Mem) (g : ℕ) (pg : Page) (bs : Blocks) : Type 0 where
  pub chain :
      pg.is_free ≡ true → Seg m (g * 2048) (g * 2048 + 2049) pg.freelist bs (g * 2048 + 2048)
  pub counted : pg.units ≡ total bs
  pub listed : pg.is_free ≡ not (is_empty bs)

covers-left_of :
    (c n delta units x : ℕ)
    → units + delta ≤ n
    → covers (left_of c n delta units) x ≡ (inside c n x && not (inside (c + delta) units x))
unfolding covers
covers-left_of c n delta units x room = ground arith

total-left_of :
    (c n delta units : ℕ) → units + delta ≤ n → total (left_of c n delta units) + units ≡ n
unfolding total
total-left_of c n delta units room = ground arith

-- The fields of the state that `finish` leaves.
module _ (s : Slob) (sp units : ℕ) (b : Candidate) where
  abbrev cut : Mem × Ptr × Ptr
  cut = carve s.mem (s.page sp).freelist units b

  abbrev end : Slob
  end = (finish s sp units (some b)).0

  finish-mem : end.mem ≡ cut.0
  unfolding clear_slob_page_free
  finish-mem = ground arith

  finish-freelist : (end.page sp).freelist ≡ cut.1
  unfolding clear_slob_page_free
  finish-freelist = ground arith

  finish-units : (end.page sp).units ≡ (s.page sp).units - units
  unfolding clear_slob_page_free
  finish-units = ground arith

  finish-is_free :
      (s.page sp).is_free ≡ true → (end.page sp).is_free ≡ not ((s.page sp).units - units == 0)
  unfolding clear_slob_page_free
  finish-is_free free = ground arith

  finish-page : (i : ℕ) → i ≢ sp → end.page i ≡ s.page i
  unfolding clear_slob_page_free
  finish-page i ne = ground arith

  finish-is_slab : (end.page sp).is_slab ≡ (s.page sp).is_slab
  unfolding clear_slob_page_free
  finish-is_slab = ground arith

  finish-lists :
      (s.page sp).is_free ≡ true
      → (k : Size)
      → end.lists k ≡ (if (end.page sp).is_free then s.lists k else remove sp (s.lists k))
  unfolding clear_slob_page_free
  finish-lists free k = ground arith

-- `b` is taken from page `sp`: afterwards the free units of the page are those of before without
-- the `units` from `b` on, which were free. No other page changes, and no unit that was not free is written.
pub record Taken (s : Slob) (sp units : ℕ) (bs : Blocks) (b : Ptr) (s' : Slob) : Type 0 where
  pub left : Blocks
  pub page : IsPage s'.mem sp (s'.page sp) left
  pub taken : (x : ℕ) → covers left x ≡ (covers bs x && not (inside b units x))
  pub were_free : (x : ℕ) → inside b units x ≡ true → covers bs x ≡ true
  pub fewer : total left + units ≡ total bs
  pub same_mem : SameUncovered bs s.mem s'.mem
  pub same_page : (i : ℕ) → i ≢ sp → s'.page i ≡ s.page i
  pub same_slab : (s'.page sp).is_slab ≡ (s.page sp).is_slab
  pub lists :
      (k : Size) → s'.lists k ≡ (if (s'.page sp).is_free then s.lists k else remove sp (s.lists k))

module _ (s : Slob) (sp units align : ℕ) (bs : Blocks) (page : IsPage s.mem sp (s.page sp) bs)
    (free : (s.page sp).is_free ≡ true) (some_unit : 1 ≤ units) (b : Candidate)
    (c : Fits units align bs b) where
  abbrev after : Blocks
  after = c.front ++ (left_of b.cur c.size b.delta units ++ c.back)

  -- The address where the taken units start.
  abbrev start : Ptr
  start = b.cur + b.delta

  top : ℕ
  top = sp * 2048 + 2049

  list :
      Seg s.mem
        (sp * 2048)
        (sp * 2048 + 2049)
        (s.page sp).freelist
        (c.front ++ (b.cur, c.size) ∷ c.back)
        (sp * 2048 + 2048)
  list = rw c.split at (page.chain free)

  room : units + b.delta ≤ c.size
  room = omega (arith, c.delta, c.room)

  aligned_ahead : 1 ≤ b.delta → b.aligned ≡ b.cur + b.delta
  unfolding delta_at
  aligned_ahead h = ground (arith, c.delta, c.aligned)

  pub carved :
      Becomes s.mem sp
        (sp * 2048)
        (b.cur + c.size)
        ((b.cur, c.size) ∷ c.front)
        after
        ((cut s sp units b).0, (cut s sp units b).1)
      × ((cut s sp units b).2 ≡ b.cur + b.delta)
  carved =
      carve-Becomes s.mem sp (sp * 2048) (s.page sp).freelist units c.size b c.front c.back
        (omega arith) list c.prev some_unit room aligned_ahead

  parts :
      Seg s.mem (sp * 2048) b.cur (s.page sp).freelist c.front b.cur
      × Seg s.mem b.cur (sp * 2048 + 2049) b.cur ((b.cur, c.size) ∷ c.back) (sp * 2048 + 2048)
  parts =
      Seg-split s.mem (sp * 2048) (sp * 2048 + 2049) (s.page sp).freelist (sp * 2048 + 2048) c.front
        b.cur c.size c.back list

  covers-split :
      (x : ℕ) → covers bs x ≡ (covers c.front x || (inside b.cur c.size x || covers c.back x))
  covers-split x =
      rw c.split (covers-append c.front ((b.cur, c.size) ∷ c.back) x ∙ unfold covers in refl)

  in_front : (x : ℕ) → covers c.front x ≡ true → x + 1 < b.cur
  in_front x h =
      (covers_range s.mem (sp * 2048) b.cur (s.page sp).freelist b.cur c.front x parts.0 h).1

  in_back : (x : ℕ) → covers c.back x ≡ true → b.cur + c.size + 1 ≤ x
  in_back x h =
      (covers_range s.mem (b.cur + c.size + 1) (sp * 2048 + 2049) (slob_next s.mem b.cur)
        (sp * 2048 + 2048) c.back x parts.1.5 h).0

  after-covers : (x : ℕ) → covers after x ≡ (covers bs x && not (inside start units x))
  after-covers x = ground (
    arith,
    covers-split x,
    covers-append c.front (left_of b.cur c.size b.delta units ++ c.back) x,
    covers-append (left_of b.cur c.size b.delta units) c.back x,
    covers-left_of b.cur c.size b.delta units x room,
    in_front x,
    in_back x,
  )

  after-total : total after + units ≡ total bs
  after-total =
      let back = (b.cur, c.size) ∷ c.back in
      let whole : total bs ≡ total c.front + (c.size + total c.back) =
        rw c.split (total-append c.front ((b.cur, c.size) ∷ c.back) ∙ unfold total in refl) in
      omega (
        arith,
        whole,
        total-append c.front (left_of b.cur c.size b.delta units ++ c.back),
        total-append (left_of b.cur c.size b.delta units) c.back,
        total-left_of b.cur c.size b.delta units room,
      )

  end-IsPage : IsPage (end s sp units b).mem sp ((end s sp units b).page sp) after
  end-IsPage =
      let seg = carved.0.0 in
      let left : (s.page sp).units - units ≡ total after =
        omega (arith, page.counted, after-total) in
      let empty =
        total_zero (cut s sp units b).0 (sp * 2048) (sp * 2048 + 2049) (cut s sp units b).1
          (sp * 2048 + 2048) after seg in
      record {
        chain = λ f. rw (finish-mem s sp units b, finish-freelist s sp units b) seg;
        counted = finish-units s sp units b ∙ left;
        listed = finish-is_free s sp units b free ∙ rw (left, empty);
      }

  pub finish-Taken : Taken s sp units bs start (end s sp units b)
  unfolding covers
  finish-Taken = record {
    left = after;
    page = end-IsPage;
    taken = after-covers;
    were_free = λ x h. ground (arith, covers-split x, room);
    fewer = after-total;
    same_mem = λ x o. rw (finish-mem s sp units b) (carved.0.2 x (ground (arith, covers-split x)));
    same_page = finish-page s sp units b;
    same_slab = finish-is_slab s sp units b;
    lists = finish-lists s sp units b free;
  }

-- The result of `slob_page_alloc` for `units` units at an alignment: a block of the free units,
-- where best fit puts it; or NULL and no change, and then no block has room.
abbrev pub Outcome : Slob → (sp units align : ℕ) → Blocks → Option (Slob × Option Ptr) → Type 0
Outcome s sp units align bs none = ⊥
Outcome s sp units align bs (some (s', none)) = (s' ≡ s) × All (λ x. x.1 < need units align x.0) bs
Outcome s sp units align bs (some (s', some b)) =
    Taken s sp units bs b s' × (c : Candidate) × Chosen units align bs c × (b ≡ c.cur + c.delta)

finish-Outcome :
    (s : Slob) (sp units align : ℕ) (bs : Blocks)
    → IsPage s.mem sp (s.page sp) bs
    → (s.page sp).is_free ≡ true
    → 1 ≤ units
    → (found : Option Candidate) → Seen units align bs found
    → Outcome s sp units align bs (some (finish s sp units found))
finish-Outcome s sp units align bs page free some_unit none seen = (refl, seen)
finish-Outcome s sp units align bs page free some_unit (some b) c =
    let start_eq = (carved s sp units align bs page free some_unit b c.fits).1 in
    rw start_eq (finish-Taken s sp units align bs page free some_unit b c.fits, b, c, refl)

-- On a page that is on a list, `slob_page_alloc` ends.
slob_page_alloc-finish :
    (s : Slob) (sp size align : ℕ) (bs : Blocks)
    → IsPage s.mem sp (s.page sp) bs
    → (s.page sp).is_free ≡ true
    → slob_page_alloc s sp size align
      ≡ some (finish s sp (slob_units_of size) (pick (slob_units_of size) align none bs none))
unfolding slob_page_alloc
slob_page_alloc-finish s sp size align [] page free = cc (page.listed)
slob_page_alloc-finish s sp size align ((a, n) ∷ bs) page free =
    let chain = page.chain free in
    let short =
      length_range s.mem (sp * 2048) (sp * 2048 + 2049) (s.page sp).freelist (sp * 2048 + 2048)
        ((a, n) ∷ bs) chain in
    rw (
      best_fit-pick page_fuel s.mem sp (sp * 2048) (slob_units_of size) align none
        (s.page sp).freelist a n bs none (omega arith) (omega arith) chain)

-- On a page that is on a list, `slob_page_alloc` of a positive size ends; its result is a block
-- that best fit chooses, or NULL where no block has room.
pub slob_page_alloc_lem :
    (s : Slob) (sp size align : ℕ) (bs : Blocks)
    → IsPage s.mem sp (s.page sp) bs
    → (s.page sp).is_free ≡ true
    → 1 ≤ size
    → Outcome s sp (slob_units_of size) align bs (slob_page_alloc s sp size align)
slob_page_alloc_lem s sp size align bs page free some_size =
    rw (slob_page_alloc-finish s sp size align bs page free) (
      finish-Outcome s sp (slob_units_of size) align bs page free (omega arith) _
        (pick-Seen (slob_units_of size) align bs))
