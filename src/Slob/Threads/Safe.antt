-- ===== src/Slob/Threads/Safe.antt =====
-- The allocator's promises to threads that use it at once (CS444_project4_46/slob.c).
use cs444_operating_systems.Prelude.{
  ℕ, ◌≡◌, refl, ap, true, Option, none, some, List, ◌++◌, All, All-map,
}
use cs444_operating_systems.Slob.Block.{Ptr, slob_units_of}
use cs444_operating_systems.Slob.Segment.{Blocks}
use cs444_operating_systems.Slob.State.{Slob, Run, ok, bug, out_of_fuel, page_of, slob_list}
use cs444_operating_systems.Slob.Heap.{IsHeap}
use cs444_operating_systems.Slob.Free.{slob_free}
use cs444_operating_systems.Slob.Alloc.{cleared}
use cs444_operating_systems.Slob.Alloc.Search.{Allocated, SearchOutcome, search_pages-Outcome}
use cs444_operating_systems.Slob.Alloc.Correct.{PageOutcome, cleared-Allocated}
use cs444_operating_systems.Slob.Client as Client
use cs444_operating_systems.Slob.Client.{Live, holds}
use cs444_operating_systems.Slob.Client.Sound.{units, IsLive, allocated-same}
use cs444_operating_systems.Slob.Client.Safe.{Step-Same, freed}
use cs444_operating_systems.Slob.Client.Promise.{FreedHeap-returns}
use cs444_operating_systems.Slob.Threads.{
  Ask, has_page, System, search, add_page, Step, find, miss, no_page, get_page, add, write, free,
  Reach,
}
use cs444_operating_systems.Slob.Threads.Sound.{
  together, IsSafe, found, not_found, added, page_gives, Reach-IsSafe,
}

-- What a search gives: a block, or none and no change.
abbrev pub Searches : Slob → Run (Slob × Option Ptr) → Type 0
Searches s (ok (s', some b)) = Unit {0}
Searches s (ok (s', none)) = s' ≡ s
Searches s bug = ⊥
Searches s out_of_fuel = ⊥

-- What a page that is added gives: a block, and no BUG_ON.
abbrev pub GivesBlock : Run (Slob × Option Ptr) → Type 0
GivesBlock (ok (s', some b)) = Unit {0}
GivesBlock (ok (s', none)) = ⊥
GivesBlock bug = ⊥
GivesBlock out_of_fuel = ⊥

-- Whatever a thread does next returns.
pub record ServesAll (page_to_nid : ℕ → ℕ) (s : System) : Type 0 where
  pub searches : (a : Ask) → Searches s.slob (search page_to_nid s.slob a)
  pub adds : (i : ℕ) (a : Ask) (b : Ptr) → s.pc i ≡ has_page a b → GivesBlock (add_page s.slob a b)
  pub frees : All (λ y. (s' : Slob) × (slob_free s.slob y.block y.size ≡ ok s')) s.live

SearchOutcome-Searches :
    (s : Slob) (bs : ℕ → Blocks) (n : ℕ) (r : Run (Slob × Option Ptr))
    → SearchOutcome s bs n r
    → Searches s r
SearchOutcome-Searches s bs n (ok (s', some b)) h = tt
SearchOutcome-Searches s bs n (ok (s', none)) h = h
SearchOutcome-Searches s bs n bug h = h
SearchOutcome-Searches s bs n out_of_fuel h = h

PageOutcome-GivesBlock :
    (s : Slob) (bs : ℕ → Blocks) (n page : ℕ) (r : Run (Slob × Option Ptr))
    → PageOutcome s bs n page r
    → GivesBlock r
PageOutcome-GivesBlock s bs n page (ok (s', some b)) h = tt
PageOutcome-GivesBlock s bs n page (ok (s', none)) h = h
PageOutcome-GivesBlock s bs n page bug h = h
PageOutcome-GivesBlock s bs n page out_of_fuel h = h

IsSafe-ServesAll : (page_to_nid : ℕ → ℕ) (s : System) → IsSafe s → ServesAll page_to_nid s
IsSafe-ServesAll page_to_nid s h =
    let sound = h.sound in
    record {
      searches = λ a. SearchOutcome-Searches s.slob sound.blocks (slob_units_of a.size) _ (
          search_pages-Outcome page_to_nid s.slob sound.blocks a.size a.align a.nid
            (slob_list a.size) sound.heap a.some_size 0 (s.slob.lists (slob_list a.size))
            (sound.heap.listed (slob_list a.size)));
      adds = λ i a b e.
          PageOutcome-GivesBlock s.slob sound.blocks (slob_units_of a.size) b _
            (page_gives s h i a b e);
      frees =
          All-map _ _
            (λ y l.
              FreedHeap-returns s.slob sound.blocks (page_of y.block) y.block (units y) _
                (freed (together s) sound y l))
            s.live sound.live;
    }

-- On a heap, whatever steps any number of threads make, in any order: a search for room ends and
-- changes nothing where it finds none; a thread that has got a new page gets a block from it, and
-- no BUG_ON, whatever the others have done since its search; and each block can be freed.
pub Reach-ServesAll :
    {page_to_nid : ℕ → ℕ} {s : Slob} {t : System} (bs : ℕ → Blocks)
    → IsHeap s bs
    → Reach page_to_nid s t
    → ServesAll page_to_nid t
Reach-ServesAll {page_to_nid} {t} bs heap r =
    IsSafe-ServesAll page_to_nid t (Reach-IsSafe bs heap r)

-- The blocks that a step is not about.
abbrev pub untouched : {page_to_nid : ℕ → ℕ} {s t : System} → Step page_to_nid s t → List Live
untouched {s} (write front y back m at o) = front ++ back
untouched {s} (free front y back at e) = front ++ back
untouched {s} _ = s.live

abbrev pub Keeps : System → System → Live → Type 0
Keeps s t y = (x : ℕ) → holds y x ≡ true → t.slob.mem x ≡ s.slob.mem x

module _ (s : System) (h : IsSafe s) where
  open h use {sound}

  block-Keeps :
      (a : Ask) (s' : Slob) (b : Ptr)
      → Allocated s.slob sound.blocks b (slob_units_of a.size) s'
      → (y : Live) → IsLive s.slob sound.blocks y
      → (x : ℕ) → holds y x ≡ true
      → (cleared a.gfp a.size s' b).mem x ≡ s.slob.mem x
  block-Keeps a s' b al =
      allocated-same s.slob (cleared a.gfp a.size s' b) sound.blocks b a.size a.some_size
        (cleared-Allocated s.slob sound.blocks a.size a.gfp b s' al)

  Step-Keeps :
      {page_to_nid : ℕ → ℕ} {t : System} (st : Step page_to_nid s t)
      → All (Keeps s t) (untouched st)
  Step-Keeps {page_to_nid} (find i a {s'} {b} at e) =
      All-map _ _ (block-Keeps a s' b (found s h page_to_nid a e).0) s.live sound.live
  Step-Keeps {page_to_nid} (miss i a at e) =
      All-map _ _ (λ y l x k. ap (λ z. z.mem x) (not_found s h page_to_nid a e)) s.live sound.live
  Step-Keeps (no_page i a at) = All-map _ _ (λ y l x k. refl) s.live sound.live
  Step-Keeps (get_page i a b at new) = All-map _ _ (λ y l x k. refl) s.live sound.live
  Step-Keeps (add i a b {s'} {c} at e) =
      All-map _ _ (block-Keeps a s' c (added s h i a b at e).0) s.live sound.live
  Step-Keeps (write front y back m at o) =
      Step-Same (together s) sound (Client.write front y back m at o)
  Step-Keeps (free front y back at e) = Step-Same (together s) sound (Client.free front y back at e)

-- On a heap, whatever steps any number of threads have made, in any order: the next step of any of
-- them leaves the content of all blocks but the one that it allocates, writes or frees.
pub Reach-Keeps :
    {page_to_nid : ℕ → ℕ} {s : Slob} {t u : System} (bs : ℕ → Blocks)
    → IsHeap s bs
    → Reach page_to_nid s t
    → (st : Step page_to_nid t u) → All (Keeps t u) (untouched st)
Reach-Keeps {t} bs heap r st = Step-Keeps t (Reach-IsSafe bs heap r) st
