-- ===== src/Slob/Alloc.antt =====
-- CS444_project4_46/slob.c, `slob_new_pages` and `slob_alloc`: a block from a page that is partially
-- free, or from a new page.
-- The page allocator is a parameter: `alloc` is what `alloc_pages` answers at this call, for the
-- flags, the order and, with CONFIG_NUMA, the node that is asked for (none for NUMA_NO_NODE), as
-- the unit where the pages start. `page_to_nid` is the node of a page.
pub mod Search
pub mod NewPage
pub mod Correct
use cs444_operating_systems.Prelude.{
  ℕ, zero, suc, ◌+◌, ◌-◌, ◌*◌, ◌/◌, ◌%◌, Bool, true, false, Option, none, some, List, [], ◌∷◌, ◌++◌,
  take, drop, ◌==◌, ltb, leb, not, ◌&&◌, ◌||◌, if◌then◌else◌,
}
use cs444_operating_systems.Prelude.Int.{ℤ, pos, negsuc}
use cs444_operating_systems.Slob.Block.{Ptr, Mem, write, slob_units_of, set_slob, page_units}
use cs444_operating_systems.Slob.State.{
  Slob, Page, Size, Run, ok, bug, out_of_fuel, small, medium, large, set_page, page_of, slob_list,
  set_slob_page_free,
}
use cs444_operating_systems.Slob.PageAlloc.{slob_page_alloc}

-- The flags that the allocator looks at: __GFP_ZERO and __GFP_COMP.
pub record Gfp : Type 0 where
  pub is_zero : Bool
  pub is_comp : Bool

abbrev pub Node : Type 0
Node = Option ℕ

abbrev pub PageAllocator : Type 0
PageAllocator = Gfp → ℕ → Node → Option Ptr

-- slob_new_pages
abbrev pub slob_new_pages : PageAllocator → Gfp → (order : ℕ) → Node → Option Ptr
slob_new_pages alloc gfp order nid = alloc gfp order nid

-- The low byte of a unit, the first in memory, set to 0.
abbrev pub clear_low_byte : ℤ → ℤ
clear_low_byte (pos n) = pos (n / 256 * 256)
clear_low_byte (negsuc n) = negsuc (n / 256 * 256 + 255)

-- memset(b, 0, size), for a size in bytes
unfoldable pub memset_zero : Mem → Ptr → ℕ → Mem
memset_zero m b size x =
    if leb b x && ltb x (b + size / 2)
    then pos 0
    else if (x == b + size / 2) && (size % 2 == 1)
    then clear_low_byte (m x)
    else m x

-- `list_move_tail(slob_list, prev->next)`: the list starts behind the `n` pages in front of the one
-- that was used from now on. It stays as it is where there is none in front (`prev` is the list's
-- head), or none behind (`prev` is the last page).
unfoldable pub start_behind : ℕ → List ℕ → List ℕ
start_behind n l = drop n l ++ take n l

abbrev pub set_list : (Size → List ℕ) → Size → List ℕ → Size → List ℕ
set_list lists small l small = l
set_list lists medium l medium = l
set_list lists large l large = l
set_list lists _ l k = lists k

unfoldable pub restart : Slob → Size → ℕ → Slob
unfolding start_behind
restart s k n = record s { lists = set_list s.lists k (start_behind n (s.lists k)) }

-- A page of which all units are free, put on the list `k`.
unfoldable pub new_page : Slob → Size → Ptr → Slob
new_page s k b =
    let sp = page_of b in
    let pg = record (s.page sp) { is_slab = true; units = page_units; freelist = b } in
    set_slob_page_free
      (set_page (record s { mem = set_slob s.mem b page_units (b + page_units) }) sp pg) sp k

abbrev pub alloc_fresh : Option (Slob × Option Ptr) → Run (Slob × Option Ptr)
alloc_fresh none = out_of_fuel
alloc_fresh (some (s, none)) = bug
alloc_fresh (some (s, some b)) = ok (s, some b)

-- memset for __GFP_ZERO
abbrev pub cleared : Gfp → (size : ℕ) → Slob → Ptr → Slob
cleared gfp size s b = if gfp.is_zero then record s { mem = memset_zero s.mem b size } else s

abbrev pub zeroed : Gfp → (size : ℕ) → Run (Slob × Option Ptr) → Run (Slob × Option Ptr)
zeroed gfp size bug = bug
zeroed gfp size out_of_fuel = out_of_fuel
zeroed gfp size (ok (s, none)) = ok (s, none)
zeroed gfp size (ok (s, some b)) = ok (cleared gfp size s b, some b)

module _ (page_to_nid : ℕ → ℕ) where
  -- Whether the node is not the one that is asked for.
  abbrev pub wrong_node : Node → ℕ → Bool
  wrong_node none sp = false
  wrong_node (some nid) sp = not (page_to_nid sp == nid)

  -- The loop over the pages of the list `k`; it has passed `n` of them.
  unfoldable pub search_pages :
      Slob → (size align : ℕ) → Node → Size → ℕ → List ℕ → Run (Slob × Option Ptr)
  search_pages s size align nid k n [] = ok (s, none)
  search_pages s size align nid k n (sp ∷ rest) =
      let next = search_pages s size align nid k (suc n) rest in
      if wrong_node nid sp || ltb (s.page sp).units (slob_units_of size)
      then next
      else elim (slob_page_alloc s sp size align) [
        | none ↦ out_of_fuel
        | some (s', none) ↦ search_pages s' size align nid k (suc n) rest
        | some (s', some b) ↦ ok (restart s' k n, some b)
      ]

module _ (alloc : PageAllocator) where
  unfoldable pub from_new_page :
      Slob → (size : ℕ) → Gfp → (align : ℕ) → Node → Run (Slob × Option Ptr)
  from_new_page s size gfp align nid =
      elim (slob_new_pages alloc (record gfp { is_zero = false }) 0 nid) [
        | none ↦ ok (s, none)
        | some b ↦
            alloc_fresh (slob_page_alloc (new_page s (slob_list size) b) (page_of b) size align)
      ]

  abbrev pub or_new_page :
      (size : ℕ) → Gfp → (align : ℕ) → Node → Run (Slob × Option Ptr) → Run (Slob × Option Ptr)
  or_new_page size gfp align nid bug = bug
  or_new_page size gfp align nid out_of_fuel = out_of_fuel
  or_new_page size gfp align nid (ok (s, none)) = from_new_page s size gfp align nid
  or_new_page size gfp align nid (ok (s, some b)) = ok (s, some b)

module _ (page_to_nid : ℕ → ℕ) (alloc : PageAllocator) where
  unfoldable pub slob_alloc : Slob → (size : ℕ) → Gfp → (align : ℕ) → Node → Run (Slob × Option Ptr)
  slob_alloc s size gfp align nid =
      let k = slob_list size in
      zeroed gfp size (
        or_new_page alloc size gfp align nid
          (search_pages page_to_nid s size align nid k 0 (s.lists k)))
