-- ===== src/Slob/Kmalloc/User.antt =====
-- A user of `kmalloc` and `kfree` (CS444_project4_46/slob.c), to state what they promise together: it
-- allocates less than a page, writes to what it was given, and frees each block once.
pub mod Header
pub mod Served
pub mod After
pub mod Promise
use cs444_operating_systems.Prelude.{
  ℕ, ◌+◌, ◌≤◌, ◌<◌, ◌≡◌, Option, none, some, List, [], ◌∷◌, ◌++◌, false,
}
use cs444_operating_systems.Slob.Block.{Ptr, Mem, slob_units_of}
use cs444_operating_systems.Slob.State.{Slob, Run, ok}
use cs444_operating_systems.Slob.Cover.{inside}
use cs444_operating_systems.Slob.Alloc.{Gfp, Node, PageAllocator}
use cs444_operating_systems.Slob.Alloc.Correct.{GivesFresh}
use cs444_operating_systems.Slob.Kmalloc.{Config, header, do_kmalloc_node, kfree}
use cs444_operating_systems.Slob.Client.{Live, Client}

-- What a user was given, with the size it asked for.
pub record Held : Type 0 where
  pub block : Ptr
  pub size : ℕ

pub record User : Type 0 where
  pub slob : Slob
  pub held : List Held

module _ (c : Config) where
  -- A call of `kmalloc` that the user may make, while the page allocator gives pages that are not
  -- the allocator's.
  pub record Request (s : Slob) : Type 0 where
    pub alloc : PageAllocator
    pub size : ℕ
    pub gfp : Gfp
    pub nid : Node
    pub some_size : 1 ≤ size
    pub small : size + c.minalign < 4096
    pub fresh : GivesFresh s (alloc (record (c.allowed gfp) { is_zero = false }) 0 nid)

  abbrev pub request : {s : Slob} → Request s → Run (Slob × Option Ptr)
  request {s} r = do_kmalloc_node c r.alloc s r.size r.gfp r.nid

  pub data Step (k : User) : User → Type 0 where
    kmallocs :
        {s' : Slob} {b : Ptr} (r : Request k.slob)
        → request r ≡ ok (s', some b)
        → Step k (record { slob = s'; held = record { block = b; size = r.size } ∷ k.held })
    refused :
        {s' : Slob} (r : Request k.slob)
        → request r ≡ ok (s', none)
        → Step k (record k { slob = s' })
    writes :
        (front : List Held) (y : Held) (back : List Held) (m : Mem)
        → k.held ≡ front ++ y ∷ back
        → ((x : ℕ) → inside y.block (slob_units_of y.size) x ≡ false → m x ≡ k.slob.mem x)
        → Step k (record k { slob = record (k.slob) { mem = m } })
    kfrees :
        {s' : Slob} (front : List Held) (y : Held) (back : List Held)
        → k.held ≡ front ++ y ∷ back
        → kfree c k.slob y.block ≡ ok s'
        → Step k (record { slob = s'; held = front ++ back })

  pub data Steps (k : User) : User → Type 0 where
    here : Steps k k
    later : {l n : User} → Steps k l → Step l n → Steps k n

  -- The block of the allocator that stands behind it, with the header.
  abbrev pub below : Held → Live
  below y = record { block = header c y.block; size = y.size + c.minalign }

  abbrev pub below_all : List Held → List Live
  below_all [] = []
  below_all (y ∷ ys) = below y ∷ below_all ys

  abbrev pub client : User → Client
  client k = record { slob = k.slob; live = below_all k.held }
