-- ===== src/Slob/Kmalloc/Correct.antt =====
-- `kmalloc`, then `ksize` and `kfree`.
use cs444_operating_systems.Prelude.{
  ℕ, ◌+◌, ◌-◌, ◌*◌, ◌/◌, ◌^◌, ◌≤◌, ◌<◌, ◌≡◌, true, false, Option, none, some, arith, ltb, lt→ltb,
  ◌==◌, ◌≢◌,
}
use cs444_operating_systems.Slob.Block.{Ptr, Mem, slob_units_of}
use cs444_operating_systems.Slob.Segment.{Blocks}
use cs444_operating_systems.Slob.State.{Slob, Run, ok, bug, out_of_fuel, page_of}
use cs444_operating_systems.Slob.Cover.{inside, covers}
use cs444_operating_systems.Slob.Heap.{IsHeap}
use cs444_operating_systems.Slob.Free.{zero_or_null, slob_free}
use cs444_operating_systems.Slob.Free.Heap.{HeapAfter, slob_free-IsHeap}
use cs444_operating_systems.Slob.Alloc.{Gfp, Node, PageAllocator}
use cs444_operating_systems.Slob.Alloc.Search.{Allocated}
use cs444_operating_systems.Slob.Alloc.Correct.{
  IsAlignment, GivesFresh, ZeroedOutcome, slob_alloc_lem, write-Allocated, Allocated-not_null,
}
use cs444_operating_systems.Slob.Kmalloc.{
  Config, store_size, load_size, with_header, header, do_kmalloc_node, kfree, ksize,
}

pub load_size-store_size :
    (m : Mem) (b size : ℕ) → size < 2 ^ 32 → load_size (store_size m b size) b ≡ size
unfolding load_size store_size
load_size-store_size m b size h = ground arith

-- The header stands in the first two units.
pub store_size-outside :
    (m : Mem) (b size units x : ℕ)
    → 2 ≤ units
    → inside b units x ≡ false
    → store_size m b size x ≡ m x
unfolding store_size
store_size-outside m b size units x two out = ground arith

-- A block for a caller: `ksize` is the size that was asked for, rounded up to an even number,
-- `kfree` returns and leaves a heap, and the bytes of the block that the caller was given were not
-- in use.
pub record Usable (c : Config) (s : Slob) (bs : ℕ → Blocks) (size : ℕ) (s' : Slob) (p : Ptr)
    : Type 0 where
  pub size_known : ksize c s' p ≡ ok (slob_units_of size * 2)
  pub can_free : HeapAfter (kfree c s' p)
  pub not_in_use :
      (i x : ℕ)
      → (s.page i).is_slab ≡ true
      → x / 2048 ≡ i
      → covers (bs i) x ≡ false
      → (inside p (slob_units_of size) x ≡ false) × (s'.mem x ≡ s.mem x)
  pub heap : (bs' : ℕ → Blocks) × IsHeap s' bs'

abbrev pub KmallocOutcome :
    Config → Slob → (ℕ → Blocks) → ℕ → Option Ptr → Run (Slob × Option Ptr) → Type 0
KmallocOutcome c s bs size answer (ok (s', none)) = (s' ≡ s) × (answer ≡ none)
KmallocOutcome c s bs size answer (ok (s', some p)) = Usable c s bs size s' p
KmallocOutcome c s bs size answer bug = ⊥
KmallocOutcome c s bs size answer out_of_fuel = ⊥

module _ (c : Config) (s : Slob) (bs : ℕ → Blocks) (size a : ℕ) (even : c.minalign ≡ 2 * a)
    (wide : 2 ≤ a) (some_size : 1 ≤ size) (small : size + c.minalign < 4096) where
  module _ (s₁ : Slob) (m : Ptr)
      (al : Allocated s bs m (slob_units_of (size + c.minalign)) s₁) where
    abbrev s₂ : Slob
    s₂ = record s₁ { mem = store_size s₁.mem m size }

    abbrev p : Ptr
    p = m + c.minalign / 2

    al₂ : Allocated s bs m (slob_units_of (size + c.minalign)) s₂
    al₂ =
        write-Allocated s bs m (slob_units_of (size + c.minalign)) s₁ (store_size s₁.mem m size)
          (λ x o.
            store_size-outside s₁.mem m size (slob_units_of (size + c.minalign)) x (omega arith) o)
          al

    same_page : page_of p ≡ page_of m
    same_page = omega (arith, al.in_use.low, al.in_use.high)

    page_ne_zero : page_of m ≢ 0
    page_ne_zero = (Allocated-not_null s bs m (slob_units_of (size + c.minalign)) s₁ al).0

    not_null : zero_or_null m ≡ false
    not_null = (Allocated-not_null s bs m (slob_units_of (size + c.minalign)) s₁ al).1

    header-p : header c p ≡ m
    header-p = omega arith

    stored : load_size (store_size s₁.mem m size) m ≡ size
    stored = load_size-store_size s₁.mem m size (omega arith)

    kfree-p : kfree c s₂ p ≡ slob_free s₂ m (size + c.minalign)
    unfolding kfree
    kfree-p =
        let nn : zero_or_null p ≡ false = ground (arith, page_ne_zero) in
        rw (nn, same_page, al.slab, header-p, stored)

    ksize-p : ksize c s₂ p ≡ ok (slob_units_of size * 2)
    unfolding ksize
    ksize-p =
        let n0 : (p == 0) ≡ false = ground (arith, page_ne_zero) in
        let n8 : (p == 8) ≡ false = ground (arith, page_ne_zero) in
        rw (n0, n8, same_page, al.slab, header-p, stored)

    block-Usable : Usable c s bs size s₂ p
    block-Usable = record {
      size_known = ksize-p;
      can_free = rw kfree-p (
          slob_free-IsHeap s₂ al₂.blocks m (size + c.minalign) al₂.heap al₂.slab al₂.in_use
            (omega arith) not_null);
      not_in_use = λ i x slab h o. let (out, same) = al₂.apart i x slab h o in (ground arith, same);
      heap = (al₂.blocks, al₂.heap);
    }

  with_header-Outcome :
      (gfp : Gfp) (answer : Option Ptr) (r : Run (Slob × Option Ptr))
      → ZeroedOutcome s bs (size + c.minalign) gfp answer r
      → KmallocOutcome c s bs size answer (with_header c size r)
  with_header-Outcome gfp answer bug h = h
  with_header-Outcome gfp answer out_of_fuel h = h
  with_header-Outcome gfp answer (ok (s', none)) h = h
  with_header-Outcome gfp answer (ok (s', some m)) h = block-Usable s' m h.0

pub do_kmalloc_node_lem :
    (c : Config) (alloc : PageAllocator) (s : Slob) (bs : ℕ → Blocks) (size a : ℕ) (gfp : Gfp)
    (nid : Node)
    → c.minalign ≡ 2 * a
    → 2 ≤ a
    → IsAlignment c.minalign
    → 1 ≤ size
    → size + c.minalign < 4096
    → IsHeap s bs
    → GivesFresh s (alloc (record (c.allowed gfp) { is_zero = false }) 0 nid)
    → KmallocOutcome c s bs size
        (alloc (record (c.allowed gfp) { is_zero = false }) 0 nid)
        (do_kmalloc_node c alloc s size gfp nid)
unfolding do_kmalloc_node
do_kmalloc_node_lem c alloc s bs size a gfp nid even wide divides some_size small heap fresh =
    let in_page : ltb size (4096 - c.minalign) ≡ true = lt→ltb size _ (omega arith) in
    let positive : (size == 0) ≡ false = ground arith in
    rw (in_page, positive)
      (with_header-Outcome c s bs size a even wide some_size small (c.allowed gfp) _ _ (
        slob_alloc_lem c.page_to_nid alloc s bs (size + c.minalign) (c.allowed gfp) c.minalign nid
          heap (omega arith) (omega arith) divides fresh))
