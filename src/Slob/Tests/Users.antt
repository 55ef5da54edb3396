-- ===== src/Slob/Tests/Users.antt =====
-- A user that calls `kmalloc` twice and writes (CS444_project4_46/slob.c).
use cs444_operating_systems.Prelude.{◌≡◌, refl, inr, false, none, some, [], ◌∷◌, arith, Option}
use cs444_operating_systems.Slob.Block.{Ptr, set_slob, slob_units, slob_last}
use cs444_operating_systems.Slob.State.{
  Slob, Run, ok, bug, out_of_fuel, set_slob_page_free, slob_list,
}
use cs444_operating_systems.Slob.PageAlloc.{slob_page_alloc, best_fit, consider, delta_at, carve}
use cs444_operating_systems.Slob.Alloc.{slob_alloc, search_pages, from_new_page, new_page}
use cs444_operating_systems.Slob.Alloc.Correct.{GivesFresh}
use cs444_operating_systems.Slob.Kmalloc.{do_kmalloc_node, store_size}
use cs444_operating_systems.Slob.Kmalloc.User.{User, Request, request, here, later, kmallocs}
use cs444_operating_systems.Slob.Kmalloc.User.Promise.{IsServed, Steps-IsServed}
use cs444_operating_systems.Slob.Tests.{empty, empty-IsHeap, page_one, page_one-fresh, config}

abbrev first : Request config empty
first = record {
  alloc = page_one;
  size = 100;
  gfp = record { is_zero = false; is_comp = false };
  nid = none;
  some_size = omega arith;
  small = omega arith;
  fresh = page_one-fresh;
}

abbrev slob_of : Run (Slob × Option Ptr) → Slob
slob_of (ok (s, b)) = s
slob_of bug = empty
slob_of out_of_fuel = empty

first_block : request config first ≡ ok (slob_of (request config first), some 2052)
unfolding do_kmalloc_node store_size slob_alloc search_pages from_new_page slob_page_alloc best_fit
    slob_last new_page set_slob_page_free set_slob consider delta_at slob_units carve
first_block = refl

abbrev one_block : User
one_block = record {
  slob = slob_of (request config first);
  held = record { block = 2052; size = 100 } ∷ [];
}

no_page-fresh : GivesFresh one_block.slob none
no_page-fresh b e = absurd (cc)

-- Then 60 bytes, without a page to spare.
abbrev second : Request config one_block.slob
second = record {
  alloc = λ gfp order nid. none;
  size = 60;
  gfp = record { is_zero = false; is_comp = false };
  nid = none;
  some_size = omega arith;
  small = omega arith;
  fresh = no_page-fresh;
}

second_block : request config second ≡ ok (slob_of (request config second), some 2108)
unfolding do_kmalloc_node store_size slob_alloc search_pages from_new_page slob_page_alloc best_fit
    slob_last new_page set_slob_page_free set_slob consider delta_at slob_units carve slob_list
second_block = refl

abbrev two_blocks : User
two_blocks = record {
  slob = slob_of (request config second);
  held = record { block = 2108; size = 60 } ∷ one_block.held;
}

Steps-IsServed_example : IsServed config two_blocks
Steps-IsServed_example =
    Steps-IsServed config 4 empty (λ i. []) refl (omega arith) (inr (3, refl, omega arith))
      empty-IsHeap (later (later here (kmallocs first first_block)) (kmallocs second second_block))
