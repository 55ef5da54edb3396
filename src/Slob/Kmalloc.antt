-- ===== src/Slob/Kmalloc.antt =====
-- CS444_project4_46/slob.c, the frontend: `__do_kmalloc_node`, `kfree` and `ksize`.
-- Parameters: the configuration's alignments ARCH_KMALLOC_MINALIGN and ARCH_SLAB_MINALIGN, of which
-- `minalign` is the larger; `allowed` is `gfp & gfp_allowed_mask`; `get_order` is the kernel's;
-- `compound_order` is the order of a page that is not the allocator's. Tracing and kmemleak are
-- left out.
pub mod Correct
pub mod User
use cs444_operating_systems.Prelude.{
  ℕ, zero, suc, ◌+◌, ◌-◌, ◌*◌, ◌/◌, ◌%◌, ◌^◌, Bool, true, false, Option, none, some, List, [], ◌∷◌,
  ◌==◌, ltb, leb, not, ◌&&◌, ◌||◌, if◌then◌else◌,
}
use cs444_operating_systems.Prelude.Int.{pos, to_s16, to_u16}
use cs444_operating_systems.Slob.Block.{
  Ptr, Mem, write, slob_units_of, slob_unit, page_size, page_units,
}
use cs444_operating_systems.Slob.State.{Slob, Page, Run, ok, bug, out_of_fuel, page_of}
use cs444_operating_systems.Slob.Free.{slob_free, zero_or_null}
use cs444_operating_systems.Slob.Alloc.{Gfp, Node, PageAllocator, slob_alloc, slob_new_pages}

pub record Config : Type 0 where
  pub minalign : ℕ
  pub allowed : Gfp → Gfp
  pub get_order : ℕ → ℕ
  pub compound_order : ℕ → ℕ
  pub page_to_nid : ℕ → ℕ

-- ZERO_SIZE_PTR, the address 16
abbrev pub zero_size_ptr : Ptr
zero_size_ptr = 8

-- `*m = size`, for an `unsigned int *m`: four bytes, the low half first.
unfoldable pub store_size : Mem → Ptr → ℕ → Mem
store_size mem m size =
    write (write mem m (to_s16 (pos (size % 2 ^ 16)))) (m + 1)
      (to_s16 (pos (size / 2 ^ 16 % 2 ^ 16)))

-- `*m`
unfoldable pub load_size : Mem → Ptr → ℕ
load_size mem m = to_u16 (mem m) + 2 ^ 16 * to_u16 (mem (m + 1))

module _ (c : Config) where
  -- `m + align`, for an alignment in bytes
  abbrev pub payload : Ptr → Ptr
  payload m = m + c.minalign / slob_unit

  abbrev pub header : Ptr → Ptr
  header block = block - c.minalign / slob_unit

  abbrev pub with_header : (size : ℕ) → Run (Slob × Option Ptr) → Run (Slob × Option Ptr)
  with_header size bug = bug
  with_header size out_of_fuel = out_of_fuel
  with_header size (ok (s, none)) = ok (s, none)
  with_header size (ok (s, some m)) =
      ok (record s { mem = store_size s.mem m size }, some (payload m))

  unfoldable pub do_kmalloc_node :
      PageAllocator → Slob → (size : ℕ) → Gfp → Node → Run (Slob × Option Ptr)
  do_kmalloc_node alloc s size gfp nid =
      let gfp' = c.allowed gfp in
      let order = c.get_order size in
      let comp : Gfp = if order == 0 then gfp' else record gfp' { is_comp = true } in
      if ltb size (page_size - c.minalign)
      then if size == 0
        then ok (s, some zero_size_ptr)
        else with_header size
            (slob_alloc c.page_to_nid alloc s (size + c.minalign) gfp' c.minalign nid)
      else ok (s, slob_new_pages alloc comp order nid)

  -- `__kmalloc` and `__kmalloc_track_caller` ask for any node; `__kmalloc_node` and
  -- `__kmalloc_node_track_caller` are `__do_kmalloc_node` itself: the caller is for tracing only.
  abbrev pub kmalloc : PageAllocator → Slob → (size : ℕ) → Gfp → Run (Slob × Option Ptr)
  kmalloc alloc s size gfp = do_kmalloc_node alloc s size gfp none

  abbrev pub kmalloc_track_caller :
      PageAllocator → Slob → (size : ℕ) → Gfp → (caller : ℕ) → Run (Slob × Option Ptr)
  kmalloc_track_caller alloc s size gfp caller = do_kmalloc_node alloc s size gfp none

  abbrev pub kmalloc_node_track_caller :
      PageAllocator → Slob → (size : ℕ) → Gfp → Node → (caller : ℕ) → Run (Slob × Option Ptr)
  kmalloc_node_track_caller alloc s size gfp node caller = do_kmalloc_node alloc s size gfp node

  abbrev pub kmalloc_node : PageAllocator → Slob → (size : ℕ) → Gfp → Node → Run (Slob × Option Ptr)
  kmalloc_node alloc s size gfp node = do_kmalloc_node alloc s size gfp node

  unfoldable pub kfree : Slob → Ptr → Run Slob
  kfree s block =
      let sp = page_of block in
      if zero_or_null block
      then ok s
      else if (s.page sp).is_slab
      then slob_free s (header block) (load_size s.mem (header block) + c.minalign)
      else ok (record s { released = (sp * page_units, c.compound_order sp) ∷ s.released })

  unfoldable pub ksize : Slob → Ptr → Run ℕ
  ksize s block =
      let sp = page_of block in
      if block == 0
      then bug
      else if block == zero_size_ptr
      then ok 0
      else if not (s.page sp).is_slab
      then ok (page_size * 2 ^ c.compound_order sp)
      else ok (slob_units_of (load_size s.mem (header block)) * slob_unit)
