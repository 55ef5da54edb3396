-- ===== src/SharedList/Count.antt =====
-- Where a thread of Concurrency3/prob2_conc3.c stands, as weights.
use cs444_operating_systems.Prelude.{ℕ}
use cs444_operating_systems.SharedList.{
  Pc, insert_in, inserting, insert_out, search_in, searching, search_out, delete_wait_inserters,
  delete_wait_deleters, deleting, delete_post_searchers, delete_post_inserters,
  delete_post_deleters,
}

-- Which threads hold `icounter`: on the way in, and on the way out.
abbrev pub entering : Pc → ℕ
entering (insert_in v) = 1
entering _ = 0

abbrev pub leaving : Pc → ℕ
leaving insert_out = 1
leaving _ = 0

-- Which have taken `inserter_mut`, or found it taken by an inserter.
abbrev pub inserters : Pc → ℕ
inserters (inserting w) = 1
inserters insert_out = 1
inserters _ = 0

-- The same of searchers.
abbrev pub search_entering : Pc → ℕ
search_entering (search_in v) = 1
search_entering _ = 0

abbrev pub search_leaving : Pc → ℕ
search_leaving search_out = 1
search_leaving _ = 0

abbrev pub searchers : Pc → ℕ
searchers (searching w) = 1
searchers search_out = 1
searchers _ = 0

-- Which deleters hold `searcher_mut`, `inserter_mut`, `deleter_mut`.
abbrev pub hold_searcher_mut : Pc → ℕ
hold_searcher_mut (delete_wait_inserters v) = 1
hold_searcher_mut (delete_wait_deleters v) = 1
hold_searcher_mut (deleting v) = 1
hold_searcher_mut delete_post_searchers = 1
hold_searcher_mut _ = 0

abbrev pub hold_inserter_mut : Pc → ℕ
hold_inserter_mut (delete_wait_deleters v) = 1
hold_inserter_mut (deleting v) = 1
hold_inserter_mut delete_post_searchers = 1
hold_inserter_mut delete_post_inserters = 1
hold_inserter_mut _ = 0

abbrev pub hold_deleter_mut : Pc → ℕ
hold_deleter_mut (deleting v) = 1
hold_deleter_mut delete_post_searchers = 1
hold_deleter_mut delete_post_inserters = 1
hold_deleter_mut delete_post_deleters = 1
hold_deleter_mut _ = 0
