-- ===== src/Slob/Cache/Correct.antt =====
-- Objects of a cache: allocated, freed, and freed through RCU (CS444_project4_46/slob.c).
use cs444_operating_systems.Prelude.{
  ℕ, ◌+◌, ◌*◌, ◌≤◌, ◌<◌, ◌≡◌, refl, true, false, Option, none, some, [], arith, le→ltb,
}
use cs444_operating_systems.Slob.Block.{Ptr, Mem, slob_units_of}
use cs444_operating_systems.Slob.Segment.{Blocks}
use cs444_operating_systems.Slob.State.{Slob, Run, ok, bug, out_of_fuel, slob_free_pages}
use cs444_operating_systems.Slob.Cover.{inside}
use cs444_operating_systems.Slob.Heap.{IsHeap}
use cs444_operating_systems.Slob.Alloc.{Gfp, Node, PageAllocator}
use cs444_operating_systems.Slob.Alloc.Search.{Allocated}
use cs444_operating_systems.Slob.Alloc.Correct.{IsAlignment}
use cs444_operating_systems.Slob.Kmalloc.{store_size}
use cs444_operating_systems.Slob.Cache.{
  RcuConfig, KmemCache, kmem_cache_create, Caches, slob_alloc_node, free_object, footer, size_field,
  kmem_cache_free, grace_period,
}

-- A footer is made of whole units, and RCU writes to its `rcu_head` only, the bytes in front of the
-- size.
pub record IsRcu (rc : RcuConfig) : Type 0 where
  pub units : ℕ
  pub head_units : ℕ
  pub even : rc.rcu_bytes ≡ 2 * units
  pub even_offset : rc.size_offset ≡ 2 * head_units
  pub room : head_units + 2 ≤ units
  pub writes :
      (m : Mem) (head : Ptr) (x : ℕ) → inside head head_units x ≡ false → rc.call_rcu m head x ≡ m x

-- A constructor writes to the object only.
abbrev pub WritesWithin : ℕ → Option (Mem → Ptr → Mem) → Type 0
WritesWithin units none = Unit
WritesWithin units (some ctor) =
    (m : Mem) (b : Ptr) (x : ℕ) → inside b units x ≡ false → ctor m b x ≡ m x

-- A cache of objects that are smaller than a page; with SLAB_DESTROY_BY_RCU they are made of whole
-- units and have room for the footer.
pub record IsCache (rc : RcuConfig) (c : KmemCache) : Type 0 where
  pub some_size : 1 ≤ c.size
  pub small : c.size < 4096
  pub divides : IsAlignment c.align
  pub constructs : WritesWithin (slob_units_of c.size) c.ctor
  pub footer_fits : c.destroy_by_rcu ≡ true → (k : ℕ) × (c.size ≡ 2 * k) × (rc.rcu_bytes ≤ c.size)

-- No callback is left, and the allocator has a heap.
abbrev pub Settled : Run Caches → Type 0
Settled (ok k) = (k.pending ≡ []) × ((bs : ℕ → Blocks) × IsHeap k.slob bs)
Settled bug = ⊥
Settled out_of_fuel = ⊥

-- So it is after the callback.
abbrev pub SettledByRcu : RcuConfig → Run Caches → Type 0
SettledByRcu rc (ok k) = Settled (grace_period rc k)
SettledByRcu rc bug = ⊥
SettledByRcu rc out_of_fuel = ⊥

module _ (rc : RcuConfig) (c : KmemCache) (rcu : IsRcu rc) (cache : IsCache rc c) (s : Slob)
    (bs : ℕ → Blocks) (b : Ptr) where
  -- The memory with the footer written.
  module _ (s' : Slob) (flagged : c.destroy_by_rcu ≡ true) where
    abbrev head : Ptr
    head = footer rc b c.size

    abbrev queued : Mem
    queued = rc.call_rcu (store_size s'.mem (size_field rc head) c.size) head

-- The state behind is the one in front with the constructor run once on the object, or the same
-- where the cache has no constructor.
abbrev pub IsBuilt : Option (Mem → Ptr → Mem) → (before s' : Slob) → Ptr → Type 0
IsBuilt none before s' b = s' ≡ before
IsBuilt (some ctor) before s' b = s' ≡ record before { mem = ctor before.mem b }

-- An object for a caller: the block that the allocator gave, `taken`, with the constructor run on
-- it; its units were not in use, the constructor's writes stayed inside, and the caller can give it
-- back, after which the callback, if there is one, leaves a heap.
pub record Object (rc : RcuConfig) (c : KmemCache) (s : Slob) (bs : ℕ → Blocks)
    (taken : Run (Slob × Option Ptr)) (s' : Slob) (b : Ptr) : Type 0 where
  pub before : Slob
  pub gave : taken ≡ ok (before, some b)
  pub built : IsBuilt c.ctor before s' b
  pub allocated : Allocated s bs b (slob_units_of c.size) s'
  pub freed : SettledByRcu rc (kmem_cache_free rc c (record { slob = s'; pending = [] }) b)

abbrev pub ObjectOutcome :
    RcuConfig
    → KmemCache
    → Slob
    → (ℕ → Blocks)
    → Option Ptr
    → Run (Slob × Option Ptr)
    → Run (Slob × Option Ptr)
    → Type 0
ObjectOutcome rc c s bs answer taken (ok (s', none)) = (s' ≡ s) × (answer ≡ none)
ObjectOutcome rc c s bs answer taken (ok (s', some b)) = Object rc c s bs taken s' b
ObjectOutcome rc c s bs answer taken bug = ⊥
ObjectOutcome rc c s bs answer taken out_of_fuel = ⊥

-- Objects of a page and more come from the page allocator, and go back to it as they came: the
-- address, and the order that was asked for.
pub slob_alloc_node-large :
    (rc : RcuConfig) (c : KmemCache) (alloc : PageAllocator) (s : Slob) (flags : Gfp) (nid : Node)
    (b : Ptr)
    → 4096 ≤ c.size
    → c.ctor ≡ none
    → c.destroy_by_rcu ≡ false
    → alloc (rc.config.allowed flags) (rc.config.get_order c.size) nid ≡ some b
    → (slob_alloc_node rc alloc c s flags nid ≡ ok (s, some b))
      × (kmem_cache_free rc c (record { slob = s; pending = [] }) b
          ≡ ok (record { slob = slob_free_pages s b (rc.config.get_order c.size); pending = [] }))
unfolding slob_alloc_node kmem_cache_free free_object
slob_alloc_node-large rc c alloc s flags nid b large no_ctor no_rcu given =
    let pages = le→ltb c.size 4096 large in
    (rw (no_ctor, pages, given) refl, rw (no_rcu, pages) refl)

-- A cache made with SLAB_DESTROY_BY_RCU, of objects in whole units, has room for the footer.
pub kmem_cache_create-IsCache :
    (rc : RcuConfig) (c : KmemCache) (k : ℕ)
    → IsRcu rc
    → c.size ≡ 2 * k
    → c.size + rc.rcu_bytes < 4096
    → IsAlignment c.align
    → WritesWithin (slob_units_of (kmem_cache_create rc c true).size) c.ctor
    → IsCache rc (kmem_cache_create rc c true)
unfolding kmem_cache_create
kmem_cache_create-IsCache rc c k rcu whole small divides constructs = record {
  some_size = omega (arith, rcu.even, rcu.room);
  small = omega arith;
  divides = divides;
  constructs = constructs;
  footer_fits = λ flagged. (k + rcu.units, omega (arith, rcu.even), omega arith);
}
