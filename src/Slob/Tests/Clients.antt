-- ===== src/Slob/Tests/Clients.antt =====
-- A client of the allocator (CS444_project4_46/slob.c).
use cs444_operating_systems.Prelude.{◌≡◌, refl, inr, false, Option, none, some, [], ◌∷◌, arith}
use cs444_operating_systems.Slob.Block.{Ptr}
use cs444_operating_systems.Slob.State.{Slob, Run, ok, bug, out_of_fuel}
use cs444_operating_systems.Slob.Tests.{empty, page_one, page_one-fresh}
use cs444_operating_systems.Slob.Block.{set_slob, slob_units, slob_last}
use cs444_operating_systems.Slob.PageAlloc.{slob_page_alloc, best_fit, consider, delta_at, carve}
use cs444_operating_systems.Slob.State.{set_slob_page_free, slob_list}
use cs444_operating_systems.Slob.Alloc.Correct.{GivesFresh}
use cs444_operating_systems.Slob.Client.Promise.{fresh_client}
use cs444_operating_systems.Slob.Alloc.{slob_alloc, search_pages, from_new_page, new_page}
use cs444_operating_systems.Slob.Client.{Client, Call, make, Step, allocate, Steps, here, later}
use cs444_operating_systems.Slob.Free.{slob_free}

abbrev ask : Call empty
ask = record {
  page_to_nid = λ i. 0;
  alloc = page_one;
  size = 100;
  gfp = record { is_zero = false; is_comp = false };
  align = 4;
  nid = none;
  some_size = omega arith;
  small = omega arith;
  divides = inr (2, refl, omega arith);
  fresh = page_one-fresh;
}

abbrev slob_of : Run (Slob × Option Ptr) → Slob
slob_of (ok (s, b)) = s
slob_of bug = empty
slob_of out_of_fuel = empty

made_100 : make ask ≡ ok (slob_of (make ask), some 2048)
unfolding slob_alloc search_pages from_new_page slob_page_alloc best_fit slob_last new_page
    set_slob_page_free set_slob consider delta_at slob_units carve
made_100 = refl

abbrev one_block : Client
one_block = record { slob = slob_of (make ask); live = record { block = 2048; size = 100 } ∷ [] }

one_block-Steps : Steps (fresh_client empty) one_block
one_block-Steps = later here (allocate ask made_100)

no_page-fresh : GivesFresh one_block.slob none
no_page-fresh b e = absurd (cc)

-- Then 60 bytes, without a page to spare.
abbrev ask_60 : Call one_block.slob
ask_60 = record {
  page_to_nid = λ i. 0;
  alloc = λ gfp order nid. none;
  size = 60;
  gfp = record { is_zero = false; is_comp = false };
  align = 4;
  nid = none;
  some_size = omega arith;
  small = omega arith;
  divides = inr (2, refl, omega arith);
  fresh = no_page-fresh;
}

made_60 : make ask_60 ≡ ok (slob_of (make ask_60), some 2098)
unfolding slob_alloc search_pages from_new_page slob_page_alloc best_fit slob_last new_page
    set_slob_page_free set_slob consider delta_at slob_units carve slob_list
made_60 = refl

abbrev two_blocks : Client
two_blocks = record {
  slob = slob_of (make ask_60);
  live = record { block = 2098; size = 60 } ∷ one_block.live;
}

abbrev second : Step one_block two_blocks
second = allocate ask_60 made_60

abbrev freed_of : Run Slob → Slob
freed_of (ok s) = s
freed_of bug = empty
freed_of out_of_fuel = empty

-- The block is freed again.
abbrev none_left : Client
none_left = record { slob = freed_of (slob_free one_block.slob 2048 100); live = [] }

freed_100 : slob_free one_block.slob 2048 100 ≡ ok none_left.slob
unfolding slob_free slob_alloc search_pages from_new_page slob_page_alloc best_fit slob_last
    new_page set_slob_page_free set_slob consider delta_at slob_units
freed_100 = refl
