-- ===== src/SharedList/Locks.antt =====
-- What the semaphores and counters of Concurrency3/prob2_conc3.c count.
use cs444_operating_systems.Prelude.{ℕ, ◌+◌, ◌-◌, ◌<◌, ◌≡◌, ◌≢◌, arith}
use cs444_operating_systems.SharedList.{
  Pc, Shared, Move, insert_call, insert_first_in, insert_next_in, insert_leave, insert_last_out,
  insert_next_out, search_call, search_first_in, search_next_in, search_leave, search_last_out,
  search_next_out, delete_call, delete_no_inserters, delete_no_deleters,
}
use cs444_operating_systems.Prelude.Sums.{Moved}
use cs444_operating_systems.SharedList.Count.{
  entering, leaving, inserters, search_entering, search_leaving, searchers, hold_searcher_mut,
  hold_inserter_mut, hold_deleter_mut,
}

-- The semaphores and counters against the threads; `1 - n` is 0 where a thread is in.
pub record IsLocked (s : Shared) (count : (Pc → ℕ) → ℕ) : Type 0 where
  pub icounter_held : s.icounter + (count entering + count leaving) ≡ 1
  pub insert_counted : s.insert_counter ≡ count entering + count inserters
  pub inserter_mut_held : s.inserter_mut + count hold_inserter_mut ≡ 1 - count inserters
  pub scounter_held : s.scounter + (count search_entering + count search_leaving) ≡ 1
  pub search_counted : s.search_counter ≡ count search_entering + count searchers
  pub searcher_mut_held : s.searcher_mut + count hold_searcher_mut ≡ 1 - count searchers
  pub deleter_mut_held : s.deleter_mut + count hold_deleter_mut ≡ 1

-- What a move found before it.
abbrev Guard : {s t : Shared} {p q : Pc} → Move s p t q → Type 0
Guard {s} (insert_call v h) = 0 < s.icounter
Guard {s} (insert_first_in e h) = (s.insert_counter ≡ 1) × (0 < s.inserter_mut)
Guard {s} (insert_next_in d) = s.insert_counter ≢ 1
Guard {s} (insert_leave h) = 0 < s.icounter
Guard {s} (insert_last_out e) = s.insert_counter ≡ 1
Guard {s} (insert_next_out d) = s.insert_counter ≢ 1
Guard {s} (search_call v h) = 0 < s.scounter
Guard {s} (search_first_in e h) = (s.search_counter ≡ 1) × (0 < s.searcher_mut)
Guard {s} (search_next_in d) = s.search_counter ≢ 1
Guard {s} (search_leave h) = 0 < s.scounter
Guard {s} (search_last_out e) = s.search_counter ≡ 1
Guard {s} (search_next_out d) = s.search_counter ≢ 1
Guard {s} (delete_call v h) = 0 < s.searcher_mut
Guard {s} (delete_no_inserters h) = 0 < s.inserter_mut
Guard {s} (delete_no_deleters h) = 0 < s.deleter_mut
Guard _ = Unit

guard : {s t : Shared} {p q : Pc} (mv : Move s p t q) → Guard mv
guard (insert_call v h) = h
guard (insert_first_in e h) = (e, h)
guard (insert_next_in d) = d
guard (insert_leave h) = h
guard (insert_last_out e) = e
guard (insert_next_out d) = d
guard (search_call v h) = h
guard (search_first_in e h) = (e, h)
guard (search_next_in d) = d
guard (search_leave h) = h
guard (search_last_out e) = e
guard (search_next_out d) = d
guard (delete_call v h) = h
guard (delete_no_inserters h) = h
guard (delete_no_deleters h) = h
guard _ = tt

module _ {s : Shared} {count : (Pc → ℕ) → ℕ} (count' : (Pc → ℕ) → ℕ) (h : IsLocked s count) where
  keeps_icounter :
      {t : Shared} {p q : Pc}
      → Moved count count' p q
      → Move s p t q
      → t.icounter + (count' entering + count' leaving) ≡ 1
  keeps_icounter c (insert_call v g) =
      let a0 = c.moved entering in
      let b0 = c.has entering in
      let a1 = c.moved leaving in let b1 = c.has leaving in let k0 = h.icounter_held in omega arith
  keeps_icounter c mv =
      let a0 = c.moved entering in
      let b0 = c.has entering in
      let a1 = c.moved leaving in
      let b1 = c.has leaving in let k0 = h.icounter_held in let g = guard mv in omega arith

  keeps_scounter :
      {t : Shared} {p q : Pc}
      → Moved count count' p q
      → Move s p t q
      → t.scounter + (count' search_entering + count' search_leaving) ≡ 1
  keeps_scounter c (insert_call v g) =
      let a0 = c.moved search_entering in
      let b0 = c.has search_entering in
      let a1 = c.moved search_leaving in
      let b1 = c.has search_leaving in let k0 = h.scounter_held in omega arith
  keeps_scounter c mv =
      let a0 = c.moved search_entering in
      let b0 = c.has search_entering in
      let a1 = c.moved search_leaving in
      let b1 = c.has search_leaving in let k0 = h.scounter_held in let g = guard mv in omega arith

  keeps_insert_counter :
      {t : Shared} {p q : Pc}
      → Moved count count' p q
      → Move s p t q
      → t.insert_counter ≡ count' entering + count' inserters
  keeps_insert_counter c (insert_call v g) =
      let a0 = c.moved entering in
      let b0 = c.has entering in
      let a1 = c.moved inserters in
      let b1 = c.has inserters in let k0 = h.insert_counted in omega arith
  keeps_insert_counter c mv =
      let a0 = c.moved entering in
      let b0 = c.has entering in
      let a1 = c.moved inserters in
      let b1 = c.has inserters in let k0 = h.insert_counted in let g = guard mv in omega arith

  keeps_search_counter :
      {t : Shared} {p q : Pc}
      → Moved count count' p q
      → Move s p t q
      → t.search_counter ≡ count' search_entering + count' searchers
  keeps_search_counter c (insert_call v g) =
      let a0 = c.moved search_entering in
      let b0 = c.has search_entering in
      let a1 = c.moved searchers in
      let b1 = c.has searchers in let k0 = h.search_counted in omega arith
  keeps_search_counter c mv =
      let a0 = c.moved search_entering in
      let b0 = c.has search_entering in
      let a1 = c.moved searchers in
      let b1 = c.has searchers in let k0 = h.search_counted in let g = guard mv in omega arith

  keeps_deleter_mut :
      {t : Shared} {p q : Pc}
      → Moved count count' p q
      → Move s p t q
      → t.deleter_mut + count' hold_deleter_mut ≡ 1
  keeps_deleter_mut c (insert_call v g) =
      let a0 = c.moved hold_deleter_mut in
      let b0 = c.has hold_deleter_mut in let k0 = h.deleter_mut_held in omega arith
  keeps_deleter_mut c mv =
      let a0 = c.moved hold_deleter_mut in
      let b0 = c.has hold_deleter_mut in
      let k0 = h.deleter_mut_held in let g = guard mv in omega arith

  keeps_inserter_mut :
      {t : Shared} {p q : Pc}
      → Moved count count' p q
      → Move s p t q
      → t.inserter_mut + count' hold_inserter_mut ≡ 1 - count' inserters
  keeps_inserter_mut c (insert_call v g) =
      let a0 = c.moved hold_inserter_mut in
      let b0 = c.has hold_inserter_mut in
      let a1 = c.moved inserters in
      let b1 = c.has inserters in
      let a2 = c.moved entering in
      let b2 = c.has entering in
      let k0 = h.inserter_mut_held in
      let k1 = h.insert_counted in let k2 = h.icounter_held in omega arith
  keeps_inserter_mut c mv =
      let a0 = c.moved hold_inserter_mut in
      let b0 = c.has hold_inserter_mut in
      let a1 = c.moved inserters in
      let b1 = c.has inserters in
      let a2 = c.moved entering in
      let b2 = c.has entering in
      let k0 = h.inserter_mut_held in
      let k1 = h.insert_counted in let k2 = h.icounter_held in let g = guard mv in omega arith

  keeps_searcher_mut :
      {t : Shared} {p q : Pc}
      → Moved count count' p q
      → Move s p t q
      → t.searcher_mut + count' hold_searcher_mut ≡ 1 - count' searchers
  keeps_searcher_mut c (insert_call v g) =
      let a0 = c.moved hold_searcher_mut in
      let b0 = c.has hold_searcher_mut in
      let a1 = c.moved searchers in
      let b1 = c.has searchers in
      let a2 = c.moved search_entering in
      let b2 = c.has search_entering in
      let k0 = h.searcher_mut_held in
      let k1 = h.search_counted in let k2 = h.scounter_held in omega arith
  keeps_searcher_mut c mv =
      let a0 = c.moved hold_searcher_mut in
      let b0 = c.has hold_searcher_mut in
      let a1 = c.moved searchers in
      let b1 = c.has searchers in
      let a2 = c.moved search_entering in
      let b2 = c.has search_entering in
      let k0 = h.searcher_mut_held in
      let k1 = h.search_counted in let k2 = h.scounter_held in let g = guard mv in omega arith

  pub keeps : {t : Shared} {p q : Pc} → Moved count count' p q → Move s p t q → IsLocked t count'
  keeps c mv = record {
    icounter_held = keeps_icounter c mv;
    insert_counted = keeps_insert_counter c mv;
    inserter_mut_held = keeps_inserter_mut c mv;
    scounter_held = keeps_scounter c mv;
    search_counted = keeps_search_counter c mv;
    searcher_mut_held = keeps_searcher_mut c mv;
    deleter_mut_held = keeps_deleter_mut c mv;
  }
