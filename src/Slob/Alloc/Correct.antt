-- ===== src/Slob/Alloc/Correct.antt =====
-- `slob_alloc` on every branch.
use cs444_operating_systems.Prelude.{
  ℕ, ◌≢◌, ◌+◌, ◌*◌, ◌/◌, ◌%◌, ◌^◌, ◌≤◌, ◌<◌, ◌==◌, ltb, if◌then◌else◌, ◌≡◌, refl, sym, ◌⊎◌, inl,
  inr, true, false, [], ◌∷◌, Option, none, some, arith, Bool-cases, ==-refl, ◌∙◌, All-map,
}
use cs444_operating_systems.Prelude.Int.{ℤ, pos, negsuc, to_u16}
use cs444_operating_systems.Slob.Block.{Ptr, Mem, slob_units_of}
use cs444_operating_systems.Slob.Segment.{Blocks}
use cs444_operating_systems.Slob.State.{Slob, Size, Run, ok, bug, out_of_fuel, page_of, slob_list}
use cs444_operating_systems.Slob.Cover.{inside, covers}
use cs444_operating_systems.Slob.PageAlloc.{slob_page_alloc, delta_at}
use cs444_operating_systems.Slob.PageAlloc.Correct.{IsPage, Outcome, slob_page_alloc_lem}
use cs444_operating_systems.Slob.Heap.{IsHeap, IsPage-range, IsPage-frame}
use cs444_operating_systems.Slob.Free.{zero_or_null}
use cs444_operating_systems.Slob.Free.Correct.{IsInUse}
use cs444_operating_systems.Slob.Alloc.{
  Node, Gfp, PageAllocator, new_page, alloc_fresh, from_new_page, clear_low_byte, memset_zero,
  cleared, zeroed, or_new_page, slob_alloc,
}
use cs444_operating_systems.Slob.Alloc.Search.{Allocated, SearchOutcome, search_pages-Outcome}
use cs444_operating_systems.Slob.Alloc.NewPage.{
  delta_at-page, new_page-IsPage, new_page-free, new_page-Allocated, new_page-start,
}

-- An alignment that the allocator is asked for: none, or a power of two, up to the page size.
abbrev pub IsAlignment : ℕ → Type 0
IsAlignment align = (align ≡ 0) ⊎ ((k : ℕ) × (align ≡ 2 ^ k) × (k ≤ 12))

delta_at-start : (align sp : ℕ) → IsAlignment align → delta_at align (sp * 2048) ≡ 0
unfolding delta_at
delta_at-start align sp (inl e) = rw e
delta_at-start align sp (inr (k, e, high)) = rw e (delta_at-page sp k high)

-- The page allocator answers with the start of a page that the heap does not hold, and not NULL.
abbrev pub GivesFresh : Slob → Option Ptr → Type 0
GivesFresh s answer =
    (b : Ptr)
    → answer ≡ some b
    → (b ≡ page_of b * 2048) × ((s.page (page_of b)).is_slab ≡ false) × (1 ≤ page_of b)

-- The result of `slob_alloc` but for the content of the block: a block, or none and no change
-- where the page allocator has no page.
abbrev pub AllocOutcome : Slob → (ℕ → Blocks) → ℕ → Option Ptr → Run (Slob × Option Ptr) → Type 0
AllocOutcome s bs units answer (ok (s', none)) = (s' ≡ s) × (answer ≡ none)
AllocOutcome s bs units answer (ok (s', some b)) = Allocated s bs b units s'
AllocOutcome s bs units answer bug = ⊥
AllocOutcome s bs units answer out_of_fuel = ⊥

-- The result on a page that has been got: a block on it.
abbrev pub PageOutcome : Slob → (ℕ → Blocks) → ℕ → Ptr → Run (Slob × Option Ptr) → Type 0
PageOutcome s bs units page (ok (s', some b)) =
    Allocated s bs b units s' × (page_of b ≡ page_of page)
PageOutcome s bs units page (ok (s', none)) = ⊥
PageOutcome s bs units page bug = ⊥
PageOutcome s bs units page out_of_fuel = ⊥

PageOutcome-AllocOutcome :
    (s : Slob) (bs : ℕ → Blocks) (units page : ℕ) (answer : Option Ptr)
    (r : Run (Slob × Option Ptr))
    → PageOutcome s bs units page r
    → AllocOutcome s bs units answer r
PageOutcome-AllocOutcome s bs units page answer (ok (s', some b)) h = h.0
PageOutcome-AllocOutcome s bs units page answer (ok (s', none)) h = absurd h
PageOutcome-AllocOutcome s bs units page answer bug h = h
PageOutcome-AllocOutcome s bs units page answer out_of_fuel h = h

module _ (s : Slob) (bs : ℕ → Blocks) (size align : ℕ) (heap : IsHeap s bs) (some_size : 1 ≤ size)
    (small : size ≤ 4096) (divides : IsAlignment align) where
  -- A page that is added gives a block.
  pub fresh_Outcome :
      (k : Size) (b : Ptr)
      → (b ≡ page_of b * 2048) × ((s.page (page_of b)).is_slab ≡ false) × (1 ≤ page_of b)
      → PageOutcome s bs
          (slob_units_of size)
          b
          (alloc_fresh (slob_page_alloc (new_page s k b) (page_of b) size align))
  fresh_Outcome k b (start, unknown, not_null) =
      go (slob_page_alloc (new_page s k b) (page_of b) size align) (
        slob_page_alloc_lem (new_page s k b) (page_of b) size align ((b, 2048) ∷ [])
          (new_page-IsPage s bs k (page_of b) b heap start unknown not_null)
          (new_page-free s bs k (page_of b) b heap start unknown not_null) some_size)
    where
      go :
          (r : Option (Slob × Option Ptr))
          → Outcome (new_page s k b) (page_of b) (slob_units_of size) align ((b, 2048) ∷ []) r
          → PageOutcome s bs (slob_units_of size) b (alloc_fresh r)
      go none h = absurd h
      go (some (s', none)) h =
          let no_head : delta_at align b ≡ 0 =
            rw start (delta_at-start align (page_of b) divides) in
          absurd (omega (arith, h.1.0, no_head))
      go (some (s', some c)) h = (
        new_page-Allocated s bs k (page_of b) b heap start unknown not_null (slob_units_of size) c
            s' (rw (==-refl (page_of b)) h.0) (omega arith),
        new_page-start s bs k (page_of b) b heap start unknown not_null (slob_units_of size) c s'
            (rw (==-refl (page_of b)) h.0) (omega arith),
      )

  from_new_page-Outcome :
      (alloc : PageAllocator) (gfp : Gfp) (nid : Node)
      → GivesFresh s (alloc (record gfp { is_zero = false }) 0 nid)
      → AllocOutcome s bs
          (slob_units_of size)
          (alloc (record gfp { is_zero = false }) 0 nid)
          (from_new_page alloc s size gfp align nid)
  unfolding from_new_page
  from_new_page-Outcome alloc gfp nid fresh =
      go (alloc (record gfp { is_zero = false }) 0 nid) fresh
    where
      go :
          (answer : Option Ptr)
          → GivesFresh s answer
          → AllocOutcome s bs (slob_units_of size) answer (elim answer [
            | none ↦ ok (s, none)
            | some b ↦
                alloc_fresh (slob_page_alloc (new_page s (slob_list size) b) (page_of b) size align)
          ])
      go none f = (refl, refl)
      go (some b) f =
          PageOutcome-AllocOutcome s bs (slob_units_of size) b (some b) _
            (fresh_Outcome (slob_list size) b (f b refl))

  or_new_page-Outcome :
      (alloc : PageAllocator) (gfp : Gfp) (nid : Node)
      → GivesFresh s (alloc (record gfp { is_zero = false }) 0 nid)
      → (r : Run (Slob × Option Ptr)) → SearchOutcome s bs (slob_units_of size) r
      → AllocOutcome s bs
          (slob_units_of size)
          (alloc (record gfp { is_zero = false }) 0 nid)
          (or_new_page alloc size gfp align nid r)
  or_new_page-Outcome alloc gfp nid fresh bug h = absurd h
  or_new_page-Outcome alloc gfp nid fresh out_of_fuel h = absurd h
  or_new_page-Outcome alloc gfp nid fresh (ok (s', none)) h =
      rw h (from_new_page-Outcome alloc gfp nid fresh)
  or_new_page-Outcome alloc gfp nid fresh (ok (s', some b)) h = h.0

-- `memset` writes the block only.
memset_outside :
    (m : Mem) (b size x : ℕ)
    → inside b (slob_units_of size) x ≡ false
    → memset_zero m b size x ≡ m x
unfolding memset_zero
memset_outside m b size x out = ground arith

-- The byte at an address; the low byte of a unit comes first.
abbrev pub byte_at : Mem → ℕ → ℕ
byte_at m y = if y % 2 == 0 then to_u16 (m (y / 2)) % 256 else to_u16 (m (y / 2)) / 256

to_u16-clear_low_byte : (z : ℤ) → to_u16 (clear_low_byte z) % 256 ≡ 0
to_u16-clear_low_byte (pos n) = omega arith
to_u16-clear_low_byte (negsuc n) = omega arith

memset_zero-last :
    (m : Mem) (b size : ℕ)
    → size % 2 ≡ 1
    → memset_zero m b size (b + size / 2) ≡ clear_low_byte (m (b + size / 2))
unfolding memset_zero
memset_zero-last m b size odd = ground (arith, odd)

memset_zero-unit :
    (m : Mem) (b size x : ℕ) → b ≤ x → x < b + size / 2 → memset_zero m b size x ≡ pos 0
unfolding memset_zero
memset_zero-unit m b size x low high = ground (arith, low, high)

-- Each byte that `memset` is asked for is 0.
memset_zero-byte_at :
    (m : Mem) (b size y : ℕ) → 2 * b ≤ y → y < 2 * b + size → byte_at (memset_zero m b size) y ≡ 0
memset_zero-byte_at m b size y low high = elim (Bool-cases (ltb (y / 2) (b + size / 2))) [
  | inl whole ↦
      let zero_unit =
        memset_zero-unit m b size (y / 2) (omega (arith, low)) (ground (arith, whole)) in
      rw zero_unit (ground arith)
  | inr last ↦
      let at : y / 2 ≡ b + size / 2 = ground (arith, last, low, high) in
      let odd : size % 2 ≡ 1 = ground (arith, last, low, high) in
      let even : (y % 2 == 0) ≡ true = ground (arith, last, low, high) in
      rw (even, at, memset_zero-last m b size odd) (to_u16-clear_low_byte (m (b + size / 2)))
]

-- Writes to a block in use keep a heap.
pub write-IsHeap :
    (s : Slob) (bs : ℕ → Blocks) (b units : ℕ) (m : Mem)
    → IsInUse (page_of b) b units (bs (page_of b))
    → ((x : ℕ) → inside b units x ≡ false → m x ≡ s.mem x)
    → IsHeap s bs
    → IsHeap (record s { mem = m }) bs
write-IsHeap s bs b units m u same heap = record {
  null = heap.null;
  pages = λ i slab.
      let page = heap.pages i slab in
      IsPage-frame s.mem m i (s.page i) (bs i) (λ x c. same x (apart i page x c)) page;
  listed = λ j. All-map _ _ (λ i o. record { slab = o.slab; free = o.free }) _ (heap.listed j);
}
  where
    apart :
        (i : ℕ)
        → IsPage s.mem i (s.page i) (bs i)
        → (x : ℕ) → covers (bs i) x ≡ true
        → inside b units x ≡ false
    apart i page x c =
        let e = IsPage-range s.mem i (s.page i) (bs i) x page c in
        elim (Bool-cases (inside b units x)) [
          | inr out ↦ out
          | inl here ↦
              let at : i ≡ page_of b = sym e ∙ ground (arith, u.low, u.high) in
              let f : covers (bs i) x ≡ false = rw at (u.in_use x here) in absurd (cc)
        ]

-- Writes to an allocated block leave it allocated.
pub write-Allocated :
    (s : Slob) (bs : ℕ → Blocks) (b units : ℕ) (s' : Slob) (m : Mem)
    → ((x : ℕ) → inside b units x ≡ false → m x ≡ s'.mem x)
    → Allocated s bs b units s'
    → Allocated s bs b units (record s' { mem = m })
write-Allocated s bs b units s' m same a = record {
  blocks = a.blocks;
  heap = write-IsHeap s' a.blocks b units m a.in_use same a.heap;
  slab = a.slab;
  in_use = a.in_use;
  fewer = a.fewer;
  apart =
      λ i x slab h o. let (out, unwritten) = a.apart i x slab h o in (out, same x out ∙ unwritten);
  slabs = a.slabs;
  whole = a.whole;
}

-- An allocated block is neither NULL nor ZERO_SIZE_PTR.
pub Allocated-not_null :
    (s : Slob) (bs : ℕ → Blocks) (b units : ℕ) (s' : Slob)
    → Allocated s bs b units s'
    → (page_of b ≢ 0) × (zero_or_null b ≡ false)
Allocated-not_null s bs b units s' a =
    let page_ne_zero : page_of b ≢ 0 =
      λ e. (let h : (s'.page 0).is_slab ≡ true = rw (sym e) a.slab in let g = a.heap.null in cc) in
    (page_ne_zero, ground (arith, page_ne_zero))

-- The result of `slob_alloc`: as above, and each byte of a block that was asked for with __GFP_ZERO
-- is 0.
abbrev pub ZeroedOutcome :
    Slob → (ℕ → Blocks) → ℕ → Gfp → Option Ptr → Run (Slob × Option Ptr) → Type 0
ZeroedOutcome s bs size gfp answer (ok (s', none)) = (s' ≡ s) × (answer ≡ none)
ZeroedOutcome s bs size gfp answer (ok (s', some b)) =
    Allocated s bs b (slob_units_of size) s'
    × (gfp.is_zero ≡ true → (y : ℕ) → 2 * b ≤ y → y < 2 * b + size → byte_at s'.mem y ≡ 0)
ZeroedOutcome s bs size gfp answer bug = ⊥
ZeroedOutcome s bs size gfp answer out_of_fuel = ⊥

zeroed-Outcome :
    (s : Slob) (bs : ℕ → Blocks) (size : ℕ) (gfp : Gfp) (answer : Option Ptr)
    (r : Run (Slob × Option Ptr))
    → AllocOutcome s bs (slob_units_of size) answer r
    → ZeroedOutcome s bs size gfp answer (zeroed gfp size r)
zeroed-Outcome s bs size gfp answer bug h = h
zeroed-Outcome s bs size gfp answer out_of_fuel h = h
zeroed-Outcome s bs size gfp answer (ok (s', none)) h = h
zeroed-Outcome s bs size gfp answer (ok (s', some b)) h = elim (Bool-cases gfp.is_zero) [
  | inl z ↦ rw z (
    write-Allocated s bs b (slob_units_of size) s' _ (memset_outside s'.mem b size) h,
    λ e. memset_zero-byte_at s'.mem b size,
  )
  | inr z ↦ rw z (h, λ e. absurd (cc))
]

-- A block that is cleared stays allocated.
pub cleared-Allocated :
    (s : Slob) (bs : ℕ → Blocks) (size : ℕ) (gfp : Gfp) (b : Ptr) (s' : Slob)
    → Allocated s bs b (slob_units_of size) s'
    → Allocated s bs b (slob_units_of size) (cleared gfp size s' b)
cleared-Allocated s bs size gfp b s' h = (zeroed-Outcome s bs size gfp none (ok (s', some b)) h).0

-- `slob_alloc` of 1 to 4096 bytes at an alignment that is a power of two up to the page size, or at
-- none, on a heap and with a page allocator that gives pages the heap does not hold: it ends, meets
-- no BUG_ON, and returns a block that was not in use, of which each of the `size` bytes is 0 where
-- __GFP_ZERO asks for that; or NULL and no change, and then the page allocator had no page.
pub slob_alloc_lem :
    (page_to_nid : ℕ → ℕ) (alloc : PageAllocator) (s : Slob) (bs : ℕ → Blocks) (size : ℕ)
    (gfp : Gfp) (align : ℕ) (nid : Node)
    → IsHeap s bs
    → 1 ≤ size
    → size ≤ 4096
    → IsAlignment align
    → GivesFresh s (alloc (record gfp { is_zero = false }) 0 nid)
    → ZeroedOutcome s bs size gfp
        (alloc (record gfp { is_zero = false }) 0 nid)
        (slob_alloc page_to_nid alloc s size gfp align nid)
unfolding slob_alloc
slob_alloc_lem page_to_nid alloc s bs size gfp align nid heap some_size small divides fresh =
    zeroed-Outcome s bs size gfp _ _ (
      or_new_page-Outcome s bs size align heap some_size small divides alloc gfp nid fresh _ (
        search_pages-Outcome page_to_nid s bs size align nid (slob_list size) heap some_size 0
          (s.lists (slob_list size)) (heap.listed (slob_list size))))
