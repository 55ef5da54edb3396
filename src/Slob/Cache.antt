-- ===== src/Slob/Cache.antt =====
-- CS444_project4_46/slob.c, the `kmem_cache` functions.
-- Parameters, besides those of `kmalloc`: `rcu_bytes` and `size_offset` are `sizeof(struct
-- slob_rcu)` and the offset of its field `size`; `call_rcu` is what the kernel's RCU writes into
-- the `rcu_head` at a pointer. The callbacks that RCU still has to make are in `pending`, the
-- oldest first. The names of a cache and its other flags play no part; tracing is left out.
pub mod Correct
use cs444_operating_systems.Prelude.{
  ℕ, ◌+◌, ◌-◌, ◌/◌, ◌%◌, ◌^◌, Bool, true, false, Option, none, some, List, [], ◌∷◌, ◌++◌, ltb,
  if◌then◌else◌,
}
use cs444_operating_systems.Slob.Block.{Ptr, Mem, page_size, slob_unit}
use cs444_operating_systems.Slob.State.{Slob, Run, ok, bug, out_of_fuel, slob_free_pages}
use cs444_operating_systems.Slob.Free.{slob_free}
use cs444_operating_systems.Slob.Alloc.{Gfp, Node, PageAllocator, slob_new_pages, slob_alloc}
use cs444_operating_systems.Slob.Kmalloc.{Config, store_size, load_size}

pub record RcuConfig : Type 0 where
  pub config : Config
  pub rcu_bytes : ℕ
  pub size_offset : ℕ
  pub call_rcu : Mem → Ptr → Mem

-- `struct kmem_cache`; `destroy_by_rcu` is the flag SLAB_DESTROY_BY_RCU, and a constructor is what
-- it makes of the memory, given the object.
pub record KmemCache : Type 0 where
  pub size : ℕ
  pub align : ℕ
  pub destroy_by_rcu : Bool
  pub ctor : Option (Mem → Ptr → Mem)

pub record Caches : Type 0 where
  pub slob : Slob
  pub pending : List Ptr

abbrev pub construct : Option (Mem → Ptr → Mem) → Run (Slob × Option Ptr) → Run (Slob × Option Ptr)
construct ctor bug = bug
construct ctor out_of_fuel = out_of_fuel
construct ctor (ok (s, none)) = ok (s, none)
construct none (ok (s, some b)) = ok (s, some b)
construct (some ctor) (ok (s, some b)) = ok (record s { mem = ctor s.mem b }, some b)

abbrev pub with_pending : List Ptr → Run Slob → Run Caches
with_pending pending bug = bug
with_pending pending out_of_fuel = out_of_fuel
with_pending pending (ok s) = ok (record { slob = s; pending = pending })

module _ (rc : RcuConfig) where
  open rc use {config, rcu_bytes, size_offset}

  -- `flags & SLAB_DESTROY_BY_RCU` is given; `size` is an `unsigned int`.
  unfoldable pub kmem_cache_create : KmemCache → (destroy_by_rcu : Bool) → KmemCache
  kmem_cache_create c destroy_by_rcu = record c {
    size = if destroy_by_rcu then (c.size + rcu_bytes) % 2 ^ 32 else c.size;
    destroy_by_rcu = destroy_by_rcu;
  }

  unfoldable pub slob_alloc_node :
      PageAllocator → KmemCache → Slob → Gfp → Node → Run (Slob × Option Ptr)
  slob_alloc_node alloc c s flags nid =
      let flags' = config.allowed flags in
      construct c.ctor (
        if ltb c.size page_size
        then slob_alloc config.page_to_nid alloc s c.size flags' c.align nid
        else ok (s, slob_new_pages alloc flags' (config.get_order c.size) nid))

  -- NUMA_NO_NODE
  abbrev pub kmem_cache_alloc : PageAllocator → KmemCache → Slob → Gfp → Run (Slob × Option Ptr)
  kmem_cache_alloc alloc c s flags = slob_alloc_node alloc c s flags none

  abbrev pub kmem_cache_alloc_node :
      PageAllocator → KmemCache → Slob → Gfp → Node → Run (Slob × Option Ptr)
  kmem_cache_alloc_node alloc c s gfp nid = slob_alloc_node alloc c s gfp nid

  -- The cache of the caches, of objects of `sizeof(struct kmem_cache)` bytes. It is aligned to
  -- ARCH_KMALLOC_MINALIGN.
  abbrev pub kmem_cache_boot : (sizeof_kmem_cache kmalloc_minalign : ℕ) → KmemCache
  kmem_cache_boot sizeof_kmem_cache kmalloc_minalign = record {
    size = sizeof_kmem_cache;
    align = kmalloc_minalign;
    destroy_by_rcu = false;
    ctor = none;
  }

  -- `__kmem_cache_free`
  unfoldable pub free_object : Slob → Ptr → (size : ℕ) → Run Slob
  free_object s b size =
      if ltb size page_size
      then slob_free s b size
      else ok (slob_free_pages s b (config.get_order size))

  -- The footer of an object, `b + (size - sizeof(struct slob_rcu))`, and back.
  abbrev pub footer : Ptr → (size : ℕ) → Ptr
  footer b size = b + (size - rcu_bytes) / slob_unit

  abbrev pub object : Ptr → (size : ℕ) → Ptr
  object head size = head - (size - rcu_bytes) / slob_unit

  abbrev pub size_field : Ptr → Ptr
  size_field head = head + size_offset / slob_unit

  unfoldable pub kmem_rcu_free : Slob → (head : Ptr) → Run Slob
  unfolding free_object
  kmem_rcu_free s head =
      let size = load_size s.mem (size_field head) in free_object s (object head size) size

  unfoldable pub kmem_cache_free : KmemCache → Caches → Ptr → Run Caches
  unfolding free_object
  kmem_cache_free c k b =
      let head = footer b c.size in
      let sized = store_size k.slob.mem (size_field head) c.size in
      if c.destroy_by_rcu
      then ok (record {
        slob = record (k.slob) { mem = rc.call_rcu sized head };
        pending = k.pending ++ head ∷ [];
      })
      else with_pending k.pending (free_object k.slob b c.size)

  -- RCU makes the callback that waits longest.
  abbrev pub grace_period : Caches → Run Caches
  grace_period k = elim k.pending [
    | [] ↦ ok k
    | head ∷ rest ↦ with_pending rest (kmem_rcu_free k.slob head)
  ]
