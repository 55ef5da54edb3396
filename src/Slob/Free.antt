-- ===== src/Slob/Free.antt =====
-- CS444_project4_46/slob.c, `slob_free`: a block goes back to the free list of its page, or the
-- page goes back to the page allocator. The `while` loop runs on fuel.
pub mod Place
pub mod Insert
pub mod Join
pub mod Correct
pub mod Outcome
pub mod Heap
use cs444_operating_systems.Prelude.{
  ℕ, zero, suc, ◌+◌, ◌-◌, ◌*◌, ◌/◌, Bool, true, false, Option, none, some, ◌==◌, ltb, leb, not,
  ◌&&◌, if◌then◌else◌,
}
use cs444_operating_systems.Slob.Block.{
  Ptr, Mem, slob_units_of, set_slob, slob_units, slob_next, slob_last, page_units, page_base,
}
use cs444_operating_systems.Slob.State.{
  Slob, Page, Run, ok, bug, out_of_fuel, set_page, page_of, slob_list, set_slob_page_free,
  clear_slob_page_free, slob_free_pages,
}

-- ZERO_OR_NULL_PTR: at most the address 16, which is unit 8.
abbrev pub zero_or_null : Ptr → Bool
zero_or_null b = leb b 8

-- The `while` loop: the blocks between which `b` belongs.
unfoldable pub find_prev : ℕ → Mem → Ptr → (prev next : Ptr) → Option (Ptr × Ptr)
find_prev zero m b prev next = none
find_prev (suc fuel) m b prev next =
    let rest = find_prev fuel m b next (slob_next m next) in
    if ltb next b then rest else some (prev, next)

-- In front of the whole free list, which starts at `freelist`.
unfoldable pub free_before : Mem → (freelist b units : ℕ) → Mem × Ptr
free_before m freelist b units =
    if b + units == freelist
    then (set_slob m b (units + slob_units m freelist) (slob_next m freelist), b)
    else (set_slob m b units freelist, b)

-- Join `b` with the block behind it, where they touch.
unfoldable pub join_next : Mem → (prev next b units : ℕ) → Mem
join_next m prev next b units =
    if not (slob_last m prev) && (b + units == next)
    then set_slob m b (units + slob_units m next) (slob_next m next)
    else set_slob m b units next

-- Join it with the block in front, where they touch.
unfoldable pub join_prev : Mem → (prev b : ℕ) → Mem
join_prev m prev b =
    if prev + slob_units m prev == b
    then set_slob m prev (slob_units m b + slob_units m prev) (slob_next m b)
    else set_slob m prev (slob_units m prev) b

-- The page is partially free: put `b` where it belongs.
abbrev pub linked : Slob → (sp b units : ℕ) → Option (Ptr × Ptr) → Run Slob
linked s sp b units none = out_of_fuel
linked s sp b units (some (prev, next)) =
    ok (record s { mem = join_prev (join_next s.mem prev next b units) prev b })

unfoldable pub reinsert : ℕ → Slob → (sp b units : ℕ) → Run Slob
reinsert fuel s sp b units =
    let first = (s.page sp).freelist in
    let before = free_before s.mem first b units in
    if ltb b first
    then ok (set_page (record s { mem = before.0 }) sp (record (s.page sp) { freelist = before.1 }))
    else linked s sp b units (find_prev fuel s.mem b first (slob_next s.mem first))

-- The page was full: `b` is its only free block.
unfoldable pub first_free : Slob → (sp b units size : ℕ) → Slob
first_free s sp b units size =
    let s' =
      set_page (record s { mem = set_slob s.mem b units (page_base (b + page_units)) }) sp
        (record (s.page sp) { units = units; freelist = b }) in
    set_slob_page_free s' sp (slob_list size)

-- All of the page is free now: it goes back to the page allocator.
unfoldable pub release_page : Slob → (sp b : ℕ) → Slob
release_page s sp b =
    let s' = if (s.page sp).is_free then clear_slob_page_free s sp else s in
    slob_free_pages (set_page s' sp (record (s'.page sp) { is_slab = false })) b 0

abbrev pub free_fuel : ℕ
free_fuel = 2048

unfoldable pub slob_free : Slob → (b size : ℕ) → Run Slob
slob_free s b size =
    let sp = page_of b in
    let units = slob_units_of size in
    let pg = s.page sp in
    let s' = set_page s sp (record pg { units = pg.units + units }) in
    if zero_or_null b
    then ok s
    else if size == 0
    then bug
    else if pg.units + units == page_units
    then ok (release_page s sp b)
    else if not pg.is_free
    then ok (first_free s sp b units size)
    else reinsert free_fuel s' sp b units
