-- ===== src/Slob/Threads.antt =====
-- Threads in the allocator (CS444_project4_46/slob.c). `slob_alloc` holds `slob_lock` while it
-- searches the lists, gets a page from the page allocator without the lock, and takes the lock
-- again to add the page; other threads go on in between. What holds the lock is one step.
-- `__SetPageSlab` and `memset` come without the lock, on a page and a block that no other thread
-- has yet: they are done with the step next to them, and so is the return of a free page.
pub mod Sound
pub mod Safe
pub mod Tight
use cs444_operating_systems.Prelude.{
  ℕ, ◌+◌, ◌*◌, ◌≤◌, ◌<◌, ◌≡◌, ◌≢◌, Bool, true, false, Option, none, some, List, [], ◌∷◌, ◌++◌,
}
use cs444_operating_systems.Prelude.Sums.{update}
use cs444_operating_systems.Slob.Block.{Ptr, Mem}
use cs444_operating_systems.Slob.State.{Slob, Run, ok, page_of, slob_list}
use cs444_operating_systems.Slob.PageAlloc.{slob_page_alloc}
use cs444_operating_systems.Slob.Free.{slob_free}
use cs444_operating_systems.Slob.Alloc.{Gfp, Node, new_page, alloc_fresh, cleared, search_pages}
use cs444_operating_systems.Slob.Alloc.Correct.{IsAlignment}
use cs444_operating_systems.Slob.Client.{Live, holds}

-- A call of `slob_alloc` that a thread may make.
pub record Ask : Type 0 where
  pub size : ℕ
  pub gfp : Gfp
  pub align : ℕ
  pub nid : Node
  pub some_size : 1 ≤ size
  pub small : size ≤ 4096
  pub divides : IsAlignment align

-- Where a thread stands: outside of `slob_alloc`, behind a search that found nothing, or with a
-- new page.
pub data Pc : Type 0 where
  outside : Pc
  searched : Ask → Pc
  has_page : Ask → Ptr → Pc

pub record System : Type 0 where
  pub slob : Slob
  pub live : List Live
  pub pc : ℕ → Pc

abbrev pub live_block : Ask → Ptr → Live
live_block a b = record { block = b; size = a.size }

-- The first part of `slob_alloc`, with the lock held.
abbrev pub search : (page_to_nid : ℕ → ℕ) → Slob → Ask → Run (Slob × Option Ptr)
search page_to_nid s a =
    search_pages page_to_nid s a.size a.align a.nid (slob_list a.size) 0
      (s.lists (slob_list a.size))

-- The second, with a page that starts at `b`.
abbrev pub add_page : Slob → Ask → Ptr → Run (Slob × Option Ptr)
add_page s a b =
    alloc_fresh (slob_page_alloc (new_page s (slob_list a.size) b) (page_of b) a.size a.align)

-- The page allocator gives the start of a page that neither the allocator has nor a thread.
pub record IsNew (s : System) (b : Ptr) : Type 0 where
  pub start : b ≡ page_of b * 2048
  pub unknown : (s.slob.page (page_of b)).is_slab ≡ false
  pub not_null : 1 ≤ page_of b
  pub nobody : (j : ℕ) (a : Ask) (c : Ptr) → s.pc j ≡ has_page a c → page_of c ≢ page_of b

-- One step of thread `i`. `page_to_nid` is the kernel's.
pub data Step (page_to_nid : ℕ → ℕ) (s : System) : System → Type 0 where
  find :
      (i : ℕ) (a : Ask) {s' : Slob} {b : Ptr}
      → s.pc i ≡ outside
      → search page_to_nid s.slob a ≡ ok (s', some b)
      → Step page_to_nid s
          (record s { slob = cleared a.gfp a.size s' b; live = live_block a b ∷ s.live })
  miss :
      (i : ℕ) (a : Ask) {s' : Slob}
      → s.pc i ≡ outside
      → search page_to_nid s.slob a ≡ ok (s', none)
      → Step page_to_nid s (record s { slob = s'; pc = update s.pc i (searched a) })
  no_page :
      (i : ℕ) (a : Ask)
      → s.pc i ≡ searched a
      → Step page_to_nid s (record s { pc = update s.pc i outside })
  get_page :
      (i : ℕ) (a : Ask) (b : Ptr)
      → s.pc i ≡ searched a
      → IsNew s b
      → Step page_to_nid s (record s { pc = update s.pc i (has_page a b) })
  add :
      (i : ℕ) (a : Ask) (b : Ptr) {s' : Slob} {c : Ptr}
      → s.pc i ≡ has_page a b
      → add_page s.slob a b ≡ ok (s', some c)
      → Step page_to_nid s (record {
        slob = cleared a.gfp a.size s' c;
        live = live_block a c ∷ s.live;
        pc = update s.pc i outside;
      })
  write :
      (front : List Live) (y : Live) (back : List Live) (m : Mem)
      → s.live ≡ front ++ y ∷ back
      → ((x : ℕ) → holds y x ≡ false → m x ≡ s.slob.mem x)
      → Step page_to_nid s (record s { slob = record (s.slob) { mem = m } })
  free :
      (front : List Live) (y : Live) (back : List Live) {s' : Slob}
      → s.live ≡ front ++ y ∷ back
      → slob_free s.slob y.block y.size ≡ ok s'
      → Step page_to_nid s (record s { slob = s'; live = front ++ back })

abbrev pub start : Slob → System
start s = record { slob = s; live = []; pc = λ i. outside }

pub data Reach (page_to_nid : ℕ → ℕ) (s : Slob) : System → Type 0 where
  init : Reach page_to_nid s (start s)
  later : {t u : System} → Reach page_to_nid s t → Step page_to_nid t u → Reach page_to_nid s u
