-- ===== src/SharedList/Ready.antt =====
-- What a thread of Concurrency3/prob2_conc3.c waits for.
use cs444_operating_systems.Prelude.{ℕ, ◌<◌, ◌≡◌, ◌≢◌, Bool-cases, inl, inr, arith, ◌==◌, ◌⊎◌}
use cs444_operating_systems.SharedList.{
  Pc, inserter, insert_in, inserting, insert_out, searcher, search_in, searching, search_out,
  deleter, delete_wait_inserters, delete_wait_deleters, deleting, delete_post_searchers,
  delete_post_inserters, delete_post_deleters, Shared,
}
use cs444_operating_systems.SharedList.Store.{goes_on, done}
use cs444_operating_systems.SharedList.Count.{
  entering, leaving, inserters, search_entering, search_leaving, searchers, hold_searcher_mut,
  hold_inserter_mut, hold_deleter_mut,
}

-- What the next wait of a thread needs is there.
abbrev pub Ready : Shared → Pc → Type 0
Ready s inserter = 0 < s.icounter
Ready s (insert_in v) = (s.insert_counter ≡ 1) → 0 < s.inserter_mut
Ready s (inserting done) = 0 < s.icounter
Ready s searcher = 0 < s.scounter
Ready s (search_in v) = (s.search_counter ≡ 1) → 0 < s.searcher_mut
Ready s (searching done) = 0 < s.scounter
Ready s deleter = 0 < s.searcher_mut
Ready s (delete_wait_inserters v) = 0 < s.inserter_mut
Ready s (delete_wait_deleters v) = 0 < s.deleter_mut
Ready s _ = Unit

pub is_one : (k : ℕ) → (k ≡ 1) ⊎ (k ≢ 1)
is_one k = elim (Bool-cases (k == 1)) [ inl e ↦ inl (ground arith) | inr e ↦ inr (ground arith) ]

-- Who finds what he needs, group by group.
pub hold_deleter_mut-Ready : (s : Shared) (p : Pc) → 0 < hold_deleter_mut p → Ready s p
hold_deleter_mut-Ready s (deleting v) h = tt
hold_deleter_mut-Ready s delete_post_searchers h = tt
hold_deleter_mut-Ready s delete_post_inserters h = tt
hold_deleter_mut-Ready s delete_post_deleters h = tt
hold_deleter_mut-Ready s _ h = absurd (omega arith)

pub hold_inserter_mut-Ready :
    (s : Shared) (p : Pc) → 0 < s.deleter_mut → 0 < hold_inserter_mut p → Ready s p
hold_inserter_mut-Ready s (delete_wait_deleters v) d h = d
hold_inserter_mut-Ready s (deleting v) d h = tt
hold_inserter_mut-Ready s delete_post_searchers d h = tt
hold_inserter_mut-Ready s delete_post_inserters d h = tt
hold_inserter_mut-Ready s _ d h = absurd (omega arith)

pub hold_searcher_mut-Ready :
    (s : Shared) (p : Pc)
    → 0 < s.deleter_mut
    → 0 < s.inserter_mut
    → 0 < hold_searcher_mut p
    → Ready s p
hold_searcher_mut-Ready s (delete_wait_inserters v) d i h = i
hold_searcher_mut-Ready s (delete_wait_deleters v) d i h = d
hold_searcher_mut-Ready s (deleting v) d i h = tt
hold_searcher_mut-Ready s delete_post_searchers d i h = tt
hold_searcher_mut-Ready s _ d i h = absurd (omega arith)

pub entering-Ready :
    (s : Shared) (p : Pc) → (s.insert_counter ≡ 1 → 0 < s.inserter_mut) → 0 < entering p → Ready s p
entering-Ready s (insert_in v) m h = m
entering-Ready s _ m h = absurd (omega arith)

pub search_entering-Ready :
    (s : Shared) (p : Pc)
    → (s.search_counter ≡ 1 → 0 < s.searcher_mut)
    → 0 < search_entering p
    → Ready s p
search_entering-Ready s (search_in v) m h = m
search_entering-Ready s _ m h = absurd (omega arith)

pub leaving-Ready : (s : Shared) (p : Pc) → 0 < leaving p → Ready s p
leaving-Ready s insert_out h = tt
leaving-Ready s _ h = absurd (omega arith)

pub search_leaving-Ready : (s : Shared) (p : Pc) → 0 < search_leaving p → Ready s p
search_leaving-Ready s search_out h = tt
search_leaving-Ready s _ h = absurd (omega arith)

pub inserters-Ready : (s : Shared) (p : Pc) → 0 < s.icounter → 0 < inserters p → Ready s p
inserters-Ready s (inserting (goes_on w)) c h = tt
inserters-Ready s (inserting done) c h = c
inserters-Ready s insert_out c h = tt
inserters-Ready s _ c h = absurd (omega arith)

pub searchers-Ready : (s : Shared) (p : Pc) → 0 < s.scounter → 0 < searchers p → Ready s p
searchers-Ready s (searching (goes_on w)) c h = tt
searchers-Ready s (searching done) c h = c
searchers-Ready s search_out c h = tt
searchers-Ready s _ c h = absurd (omega arith)

-- Every semaphore is free.
pub record AllFree (s : Shared) : Type 0 where
  pub searcher_free : 0 < s.searcher_mut
  pub inserter_free : 0 < s.inserter_mut
  pub deleter_free : 0 < s.deleter_mut
  pub scounter_free : 0 < s.scounter
  pub icounter_free : 0 < s.icounter

pub AllFree-Ready : (s : Shared) (p : Pc) → AllFree s → Ready s p
AllFree-Ready s inserter f = f.icounter_free
AllFree-Ready s (insert_in v) f = λ e. f.inserter_free
AllFree-Ready s (inserting (goes_on w)) f = tt
AllFree-Ready s (inserting done) f = f.icounter_free
AllFree-Ready s insert_out f = tt
AllFree-Ready s searcher f = f.scounter_free
AllFree-Ready s (search_in v) f = λ e. f.searcher_free
AllFree-Ready s (searching (goes_on w)) f = tt
AllFree-Ready s (searching done) f = f.scounter_free
AllFree-Ready s search_out f = tt
AllFree-Ready s deleter f = f.searcher_free
AllFree-Ready s (delete_wait_inserters v) f = f.inserter_free
AllFree-Ready s (delete_wait_deleters v) f = f.deleter_free
AllFree-Ready s _ f = tt
