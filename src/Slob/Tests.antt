-- ===== src/Slob/Tests.antt =====
-- Runs of the allocator, and its theorems at concrete states.
mod Objects
mod Clients
pub mod Threads
mod Users
use cs444_operating_systems.Prelude.{
  ℕ, ◌%◌, ◌*◌, ◌^◌, ◌≤◌, ◌≡◌, refl, inr, true, false, [], ◌∷◌, none, some, arith, ◌<◌, ◌⊎◌,
  if◌then◌else◌, ◌==◌,
}
use cs444_operating_systems.Prelude.Int.{pos}
use cs444_operating_systems.Slob.Block.{set_slob, slob_units, slob_next, slob_last}
use cs444_operating_systems.Slob.BlockLaws.{set_slob_roundtrip}
use cs444_operating_systems.Slob.Segment.{Blocks}
use cs444_operating_systems.Slob.State.{
  set_page, set_slob_page_free, clear_slob_page_free, Slob, small,
}
use cs444_operating_systems.Slob.PageAlloc.{
  finish?, first_fit, page_fuel, slob_page_alloc, best_fit, consider, carve, delta_at,
}
use cs444_operating_systems.Slob.PageAlloc.Correct.{IsPage, Outcome, slob_page_alloc_lem}
use cs444_operating_systems.Slob.PageAlloc.FirstFit.{FirstOutcome, first_fit_lem}
use cs444_operating_systems.Slob.PageAlloc.Aligned.{slob_page_alloc-aligned}
use cs444_operating_systems.Slob.Cover.{covers, total}
use cs444_operating_systems.Slob.Heap.{IsHeap}
use cs444_operating_systems.Slob.Free.{slob_free}
use cs444_operating_systems.Slob.Free.Correct.{IsInUse}
use cs444_operating_systems.Slob.Free.Outcome.{FreeOutcome, slob_free_lem}
use cs444_operating_systems.Slob.Free.Heap.{HeapAfter, slob_free-IsHeap}
use cs444_operating_systems.Slob.RoundTrip.{Restored, slob_free-slob_page_alloc}
use cs444_operating_systems.Slob.Alloc.{Gfp, PageAllocator, new_page, slob_alloc}
use cs444_operating_systems.Slob.Alloc.NewPage.{new_page-IsHeap, new_page-IsPage, new_page-free}
use cs444_operating_systems.Slob.Alloc.Correct.{GivesFresh, ZeroedOutcome, slob_alloc_lem}
use cs444_operating_systems.Slob.Kmalloc.{Config}
use cs444_operating_systems.Slob.Amounts.{
  sys_get_slob_amt_free, sys_get_slob_amt_total, amt_free-le-amt_total,
}

abbrev pub empty : Slob
empty = record {
  mem = λ x. pos 0;
  page = λ i. record { freelist = 0; units = 0; is_free = false; is_slab = false };
  lists = λ k. [];
  reclaim = none;
  released = [];
}

pub empty-IsHeap : IsHeap empty (λ i. [])
empty-IsHeap = record { pages = λ i slab. absurd (cc); listed = λ k. tt; null = refl }

-- Page 1 is the only one, and all of it is free.
abbrev one_page : Slob
one_page = new_page empty small 2048

abbrev whole : Blocks
whole = (2048, 2048) ∷ []

one_page-IsPage : IsPage one_page.mem 1 (one_page.page 1) whole
one_page-IsPage = new_page-IsPage empty (λ i. []) small 1 2048 empty-IsHeap refl refl (omega arith)

one_page-free : (one_page.page 1).is_free ≡ true
one_page-free = new_page-free empty (λ i. []) small 1 2048 empty-IsHeap refl refl (omega arith)

-- Page 1 is the only one, and all of it is in use.
abbrev full_page : Slob
full_page = record empty {
  page = λ i. record { freelist = 0; units = 0; is_free = false; is_slab = true };
}

full_page-IsPage : IsPage full_page.mem 1 (full_page.page 1) []
unfolding total
full_page-IsPage = record { chain = λ f. absurd (cc); counted = refl; listed = refl }

full_page-IsHeap :
    IsHeap
      (record full_page { page = λ i. if i == 1 then full_page.page 1 else empty.page 1 })
      (λ i. [])
unfolding total
full_page-IsHeap = record {
  pages = λ i slab. record {
    chain = λ f. absurd (ground arith);
    counted = ground arith;
    listed = ground arith;
  };
  listed = λ k. tt;
  null = refl;
}

in_use : IsInUse 1 2048 50 []
unfolding covers
in_use = record {
  some_unit = omega arith;
  low = omega arith;
  high = omega arith;
  in_use = λ x i. refl;
}

-- What 100 bytes leave of the page.
abbrev less_100 : Slob
less_100 =
    set_page (record one_page { mem = set_slob one_page.mem 2098 1998 4096 }) 1
      (record (one_page.page 1) { freelist = 2098; units = 1998 })

alloc_100 : slob_page_alloc one_page 1 100 4 ≡ some (less_100, some 2048)
unfolding slob_page_alloc best_fit carve consider clear_slob_page_free new_page set_slob_page_free
    set_slob slob_units slob_next slob_last delta_at
alloc_100 = refl

slob_page_alloc_lem_example : Outcome one_page 1 50 4 whole (slob_page_alloc one_page 1 100 4)
slob_page_alloc_lem_example =
    slob_page_alloc_lem one_page 1 100 4 whole one_page-IsPage one_page-free (omega arith)

slob_page_alloc-aligned_example : ◌≡◌ {A = ℕ} ((2 * 2048) % (2 * 2 ^ 1)) 0
slob_page_alloc-aligned_example =
    slob_page_alloc-aligned one_page 1 100 1 whole less_100 2048 one_page-IsPage one_page-free
      (omega arith) alloc_100

slob_free_lem_example : FreeOutcome full_page 1 2048 50 [] (slob_free full_page 2048 100)
slob_free_lem_example =
    slob_free_lem full_page 2048 100 [] full_page-IsPage in_use (omega arith) refl

slob_free-slob_page_alloc_example : Restored 1 whole (slob_free less_100 2048 100)
slob_free-slob_page_alloc_example =
    slob_free-slob_page_alloc one_page 1 100 4 whole less_100 2048 one_page-IsPage one_page-free
      (omega arith) alloc_100 refl

-- A page allocator that answers with page 1.
abbrev page_one : PageAllocator
page_one gfp order nid = some 2048

abbrev plain : Gfp
plain = record { is_zero = true; is_comp = false }

page_one-fresh : GivesFresh empty (some 2048)
page_one-fresh b e = ground arith

abbrev zeroing : Gfp
zeroing = record plain { is_zero = true }

slob_alloc_lem_example :
    ZeroedOutcome empty
      (λ i. [])
      99
      zeroing
      (some 2048)
      (slob_alloc (λ i. 0) page_one empty 99 zeroing 4 none)
slob_alloc_lem_example =
    slob_alloc_lem (λ i. 0) page_one empty (λ i. []) 99 zeroing 4 none empty-IsHeap (omega arith)
      (omega arith) (inr (2, refl, omega arith)) page_one-fresh

abbrev config : Config
config = record {
  minalign = 8;
  allowed = λ g. g;
  get_order = λ n. 0;
  compound_order = λ i. 0;
  page_to_nid = λ i. 0;
}

first_fit_lem_example :
    FirstOutcome one_page 1 50 4 whole (
      finish? one_page 1 50 (first_fit page_fuel one_page.mem 50 4 none (one_page.page 1).freelist))
first_fit_lem_example =
    first_fit_lem one_page 1 100 4 whole one_page-IsPage one_page-free (omega arith)
