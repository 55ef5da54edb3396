-- ===== src/Slob/Client.antt =====
-- A client of the allocator (CS444_project4_46/slob.c), to state what the allocator promises: it
-- allocates, writes to its blocks, and frees each block once, with the size it asked for.
pub mod Count
pub mod Sound
pub mod Safe
pub mod Promise
pub mod Leak
use cs444_operating_systems.Prelude.{
  ℕ, ◌≤◌, ◌≡◌, Bool, true, false, Option, none, some, List, [], ◌∷◌, ◌++◌,
}
use cs444_operating_systems.Slob.Block.{Ptr, Mem, slob_units_of}
use cs444_operating_systems.Slob.State.{Slob, Run, ok}
use cs444_operating_systems.Slob.Cover.{inside}
use cs444_operating_systems.Slob.Free.{slob_free}
use cs444_operating_systems.Slob.Alloc.{Gfp, Node, PageAllocator, slob_alloc}
use cs444_operating_systems.Slob.Alloc.Correct.{IsAlignment, GivesFresh}

-- A block that a client has, with the size it asked for.
pub record Live : Type 0 where
  pub block : Ptr
  pub size : ℕ

abbrev pub holds : Live → ℕ → Bool
holds y x = inside y.block (slob_units_of y.size) x

pub record Client : Type 0 where
  pub slob : Slob
  pub live : List Live

-- A call of `slob_alloc` that the client may make: 1 to 4096 bytes, at an alignment that divides
-- the page size, while the page allocator gives pages that are not the allocator's.
pub record Call (s : Slob) : Type 0 where
  pub page_to_nid : ℕ → ℕ
  pub alloc : PageAllocator
  pub size : ℕ
  pub gfp : Gfp
  pub align : ℕ
  pub nid : Node
  pub some_size : 1 ≤ size
  pub small : size ≤ 4096
  pub divides : IsAlignment align
  pub fresh : GivesFresh s (alloc (record gfp { is_zero = false }) 0 nid)

abbrev pub make : {s : Slob} → Call s → Run (Slob × Option Ptr)
make {s} c = slob_alloc c.page_to_nid c.alloc s c.size c.gfp c.align c.nid

pub data Step (k : Client) : Client → Type 0 where
  allocate :
      {s' : Slob} {b : Ptr} (c : Call k.slob)
      → make c ≡ ok (s', some b)
      → Step k (record { slob = s'; live = record { block = b; size = c.size } ∷ k.live })
  refused : {s' : Slob} (c : Call k.slob) → make c ≡ ok (s', none) → Step k (record k { slob = s' })
  write :
      (front : List Live) (y : Live) (back : List Live) (m : Mem)
      → k.live ≡ front ++ y ∷ back
      → ((x : ℕ) → holds y x ≡ false → m x ≡ k.slob.mem x)
      → Step k (record k { slob = record (k.slob) { mem = m } })
  free :
      {s' : Slob} (front : List Live) (y : Live) (back : List Live)
      → k.live ≡ front ++ y ∷ back
      → slob_free k.slob y.block y.size ≡ ok s'
      → Step k (record { slob = s'; live = front ++ back })

pub data Steps (k : Client) : Client → Type 0 where
  here : Steps k k
  later : {l n : Client} → Steps k l → Step l n → Steps k n
