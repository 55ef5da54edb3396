-- ===== src/Slob/PageAlloc.antt =====
-- CS444_project4_46/slob.c, `slob_page_alloc`: a block within one page, by best fit or, where
-- USE_BEST_FIT is not 1, by first fit.
-- The two `for` loops run on fuel, since a damaged free list could be a cycle: `none` is a loop
-- that has not ended. `units` stays a natural number: no caller asks for more than
-- a page, so that the `int` of the source holds it; and `avail` is at least 1 and at most
-- 32767, and differences are taken behind the test that keeps them from falling below 0.
pub mod Scan
pub mod Best
pub mod Relink
pub mod Carve
pub mod Correct
pub mod Align
pub mod Aligned
pub mod FirstFit
use cs444_operating_systems.Prelude.{
  ℕ, zero, suc, ◌+◌, ◌-◌, ◌*◌, ◌/◌, Bool, true, false, Option, none, some, ◌==◌, ltb, leb,
  if◌then◌else◌,
}
use cs444_operating_systems.Prelude.Bits.{and_not}
use cs444_operating_systems.Slob.Block.{
  Ptr, Mem, slob_units_of, set_slob, slob_units, slob_next, slob_last,
}
use cs444_operating_systems.Slob.State.{Slob, Page, set_page, clear_slob_page_free}

abbrev pub use_best_fit : Bool
use_best_fit = true

-- ALIGN(x, a): `(x + (a - 1)) & ~(a - 1)`.
unfoldable pub align_up : ℕ → ℕ → ℕ
align_up x a = and_not (x + (a - 1)) (a - 1)

-- (slob_t *)ALIGN((unsigned long)cur, align), NULL where no alignment is asked for. A unit is two
-- bytes.
unfoldable pub aligned_at : ℕ → Ptr → Ptr
unfolding align_up
aligned_at align cur = if align == 0 then 0 else align_up (2 * cur) align / 2

-- The units that have to be left at the head of `cur`.
unfoldable pub delta_at : ℕ → Ptr → ℕ
unfolding aligned_at
delta_at align cur = if align == 0 then 0 else aligned_at align cur - cur

-- best_fit_prev, best_fit_cur, best_fit_aligned, best_fit_delta, best_fit_diff; `prev` is none
-- for NULL.
pub record Candidate : Type 0 where
  pub prev : Option Ptr
  pub cur : Ptr
  pub aligned : Ptr
  pub delta : ℕ
  pub diff : ℕ

abbrev pub better : Option Candidate → ℕ → Bool
better none diff = true
better (some b) diff = ltb diff b.diff

-- The body of the loop, for a block at `cur` of `avail` units.
unfoldable pub consider :
    (units align : ℕ) → Option Ptr → (cur avail : ℕ) → Option Candidate → Option Candidate
consider units align prev cur avail best =
    let delta = delta_at align cur in
    let found : Candidate = record {
      prev = prev;
      cur = cur;
      aligned = aligned_at align cur;
      delta = delta;
      diff = avail - (units + delta);
    } in
    if leb (units + delta) avail
    then (if better best (avail - (units + delta)) then some found else best)
    else best

-- The best-fit loop; its result is the candidate at the last block.
unfoldable pub best_fit :
    ℕ → Mem → (units align : ℕ) → Option Ptr → Ptr → Option Candidate → Option (Option Candidate)
best_fit zero m units align prev cur best = none
best_fit (suc fuel) m units align prev cur best =
    let best' = consider units align prev cur (slob_units m cur) best in
    let rest = best_fit fuel m units align (some cur) (slob_next m cur) best' in
    if slob_last m cur then some best' else rest

-- The first-fit loop; its result is the first block with room.
unfoldable pub first_fit :
    ℕ → Mem → (units align : ℕ) → Option Ptr → Ptr → Option (Option Candidate)
first_fit zero m units align prev cur = none
first_fit (suc fuel) m units align prev cur =
    let found = consider units align prev cur (slob_units m cur) none in
    let rest = first_fit fuel m units align (some cur) (slob_next m cur) in
    elim found [ some b ↦ some (some b) | none ↦ if slob_last m cur then some none else rest ]

-- What `prev` points to from now on; `sp->freelist` where there is no `prev`.
unfoldable pub relink : Mem → Ptr → Option Ptr → Ptr → Mem × Ptr
relink m freelist none q = (m, q)
relink m freelist (some p) q = (set_slob m p (slob_units m p) q, freelist)

-- Unlink `units` units from the start of the block `cur`: the whole block, or all but its rest.
unfoldable pub take_units : Mem → Ptr → Option Ptr → (cur avail units : ℕ) → Mem × Ptr
unfolding relink
take_units m freelist prev cur avail units =
    let next = slob_next m cur in
    let rest = relink m freelist prev (cur + units) in
    if avail == units
    then relink m freelist prev next
    else (set_slob rest.0 (cur + units) (avail - units) next, rest.1)

-- Fragment the head to align, where needed, and take the units: the new memory, the new head of
-- the free list and the block.
unfoldable pub carve : Mem → Ptr → ℕ → Candidate → Mem × Ptr × Ptr
unfolding take_units
carve m freelist units b =
    let avail = slob_units m b.cur in
    let next = slob_next m b.cur in
    let split = set_slob (set_slob m b.aligned (avail - b.delta) next) b.cur b.delta b.aligned in
    let whole = take_units m freelist b.prev b.cur avail units in
    let tail =
      take_units split freelist (some b.cur) b.aligned (slob_units split b.aligned) units in
    if b.delta == 0 then (whole.0, whole.1, b.cur) else (tail.0, tail.1, b.aligned)

-- The writes to the page, and the block as the result; nothing at all where no block has room.
abbrev pub finish : Slob → (sp units : ℕ) → Option Candidate → Slob × Option Ptr
finish s sp units none = (s, none)
finish s sp units (some b) =
    let r = carve s.mem (s.page sp).freelist units b in
    let left = (s.page sp).units - units in
    let s' =
      set_page (record s { mem = r.0 }) sp (record (s.page sp) { freelist = r.1; units = left }) in
    (if left == 0 then clear_slob_page_free s' sp else s', some r.2)

abbrev pub finish? : Slob → (sp units : ℕ) → Option (Option Candidate) → Option (Slob × Option Ptr)
finish? s sp units none = none
finish? s sp units (some found) = some (finish s sp units found)

-- A page has at most 1024 free blocks: two of them never touch.
abbrev pub page_fuel : ℕ
page_fuel = 2048

-- `none` is a loop that has not ended; the block is none for NULL.
unfoldable pub slob_page_alloc : Slob → (sp size align : ℕ) → Option (Slob × Option Ptr)
slob_page_alloc s sp size align =
    let units = slob_units_of size in
    let first = (s.page sp).freelist in
    finish? s sp units (
      if use_best_fit
      then best_fit page_fuel s.mem units align none first none
      else first_fit page_fuel s.mem units align none first)
