-- ===== src/SharedList.antt =====
-- Concurrency3/prob2_conc3.c: searchers, inserters and deleters share a list.
-- A semaphore is its count. `sem_trywait` followed by `sem_wait` where it fails is one wait. A
-- thread's step is at most one wait that succeeds, with the counting and the posts that follow, or
-- one access to the list; the loop of `delete`, which runs alone, is one step. The two `int`
-- counters count threads, so that they neither overflow nor fall below 0. Printing, sleeping and
-- the choice of the random value are left out.
pub mod Store
pub mod Count
pub mod Locks
pub mod Exclusion
pub mod Ready
pub mod Progress
pub mod Races
pub mod Chain
pub mod Append
pub mod Remove
pub mod Delete
mod Tests
use cs444_operating_systems.Prelude.{
  ℕ, ◌+◌, ◌-◌, ◌<◌, ◌≡◌, ◌≢◌, Bool, true, false, Option, none, some, ◌==◌, if◌then◌else◌,
}
use cs444_operating_systems.SharedList.Store.{
  Memory, Work, Next, goes_on, done, Access, delete_loop, insert_test, search_start,
}

pub record Shared : Type 0 where
  pub inserter_mut : ℕ
  pub searcher_mut : ℕ
  pub deleter_mut : ℕ
  pub scounter : ℕ
  pub icounter : ℕ
  pub search_counter : ℕ
  pub insert_counter : ℕ
  pub memory : Memory

-- Where a thread stands. `inserting` and `searching` say what the thread does next to the
-- list, or that it is done; the states before and after them count it in and out.
pub data Pc : Type 0 where
  inserter : Pc
  insert_in : (v : ℕ) → Pc
  inserting : Next → Pc
  insert_out : Pc
  searcher : Pc
  search_in : (v : ℕ) → Pc
  searching : Next → Pc
  search_out : Pc
  deleter : Pc
  delete_wait_inserters : (v : ℕ) → Pc
  delete_wait_deleters : (v : ℕ) → Pc
  deleting : (v : ℕ) → Pc
  delete_post_searchers : Pc
  delete_post_inserters : Pc
  delete_post_deleters : Pc

-- One step of a thread.
pub data Move (s : Shared) : Pc → Shared → Pc → Type 0 where
  insert_call :
      (v : ℕ)
      → 0 < s.icounter
      → Move s inserter
          (record s { icounter = s.icounter - 1; insert_counter = s.insert_counter + 1 })
          (insert_in v)
  insert_first_in :
      {v : ℕ}
      → s.insert_counter ≡ 1
      → 0 < s.inserter_mut
      → Move s
          (insert_in v)
          (record s { inserter_mut = s.inserter_mut - 1; icounter = s.icounter + 1 })
          (inserting (goes_on (insert_test v)))
  insert_next_in :
      {v : ℕ}
      → s.insert_counter ≢ 1
      → Move s
          (insert_in v)
          (record s { icounter = s.icounter + 1 })
          (inserting (goes_on (insert_test v)))
  insert_access :
      {w : Work} {m : Memory} {x : Next}
      → Access s.memory w m x
      → Move s (inserting (goes_on w)) (record s { memory = m }) (inserting x)
  insert_leave :
      0 < s.icounter → Move s (inserting done) (record s { icounter = s.icounter - 1 }) insert_out
  insert_last_out :
      s.insert_counter ≡ 1
      → Move s insert_out
          (record s {
            insert_counter = s.insert_counter - 1;
            inserter_mut = s.inserter_mut + 1;
            icounter = s.icounter + 1;
          })
          inserter
  insert_next_out :
      s.insert_counter ≢ 1
      → Move s insert_out
          (record s { insert_counter = s.insert_counter - 1; icounter = s.icounter + 1 })
          inserter
  search_call :
      (v : ℕ)
      → 0 < s.scounter
      → Move s searcher
          (record s { scounter = s.scounter - 1; search_counter = s.search_counter + 1 })
          (search_in v)
  search_first_in :
      {v : ℕ}
      → s.search_counter ≡ 1
      → 0 < s.searcher_mut
      → Move s
          (search_in v)
          (record s { searcher_mut = s.searcher_mut - 1; scounter = s.scounter + 1 })
          (searching (goes_on (search_start v)))
  search_next_in :
      {v : ℕ}
      → s.search_counter ≢ 1
      → Move s
          (search_in v)
          (record s { scounter = s.scounter + 1 })
          (searching (goes_on (search_start v)))
  search_access :
      {w : Work} {m : Memory} {x : Next}
      → Access s.memory w m x
      → Move s (searching (goes_on w)) (record s { memory = m }) (searching x)
  search_leave :
      0 < s.scounter → Move s (searching done) (record s { scounter = s.scounter - 1 }) search_out
  search_last_out :
      s.search_counter ≡ 1
      → Move s search_out
          (record s {
            search_counter = s.search_counter - 1;
            searcher_mut = s.searcher_mut + 1;
            scounter = s.scounter + 1;
          })
          searcher
  search_next_out :
      s.search_counter ≢ 1
      → Move s search_out
          (record s { search_counter = s.search_counter - 1; scounter = s.scounter + 1 })
          searcher
  delete_call :
      (v : ℕ)
      → 0 < s.searcher_mut
      → Move s deleter (record s { searcher_mut = s.searcher_mut - 1 }) (delete_wait_inserters v)
  delete_no_inserters :
      {v : ℕ}
      → 0 < s.inserter_mut
      → Move s
          (delete_wait_inserters v)
          (record s { inserter_mut = s.inserter_mut - 1 })
          (delete_wait_deleters v)
  delete_no_deleters :
      {v : ℕ}
      → 0 < s.deleter_mut
      → Move s (delete_wait_deleters v) (record s { deleter_mut = s.deleter_mut - 1 }) (deleting v)
  delete_list :
      {v : ℕ} {m : Memory} (fuel : ℕ)
      → delete_loop fuel s.memory v none s.memory.head ≡ some m
      → Move s (deleting v) (record s { memory = m }) delete_post_searchers
  post_searchers :
      Move s delete_post_searchers
        (record s { searcher_mut = s.searcher_mut + 1 })
        delete_post_inserters
  post_inserters :
      Move s delete_post_inserters
        (record s { inserter_mut = s.inserter_mut + 1 })
        delete_post_deleters
  post_deleters : Move s delete_post_deleters (record s { deleter_mut = s.deleter_mut + 1 }) deleter

pub record System : Type 0 where
  pub shared : Shared
  pub pc : ℕ → Pc

abbrev pub update : (ℕ → Pc) → ℕ → Pc → ℕ → Pc
update f i p j = if j == i then p else f j

pub data Step (n : ℕ) (s : System) : System → Type 0 where
  pick :
      (i : ℕ) {m : Shared} {p : Pc}
      → i < n
      → Move s.shared (s.pc i) m p
      → Step n s (record { shared = m; pc = update s.pc i p })

-- The threads of `main` are inserters, searchers and deleters, in their loops.
pub data Role : Type 0 where
  inserts searches deletes : Role

abbrev pub loop_head : Role → Pc
loop_head inserts = inserter
loop_head searches = searcher
loop_head deletes = deleter

-- `main`, with an empty list. (The source leaves `head->head` unset.)
abbrev pub start : (ℕ → Role) → System
start roles = record {
  shared = record {
    inserter_mut = 1;
    searcher_mut = 1;
    deleter_mut = 1;
    scounter = 1;
    icounter = 1;
    search_counter = 0;
    insert_counter = 0;
    memory = record {
      head = none;
      node = λ a. record { value = none; link = none };
      in_use = λ a. false;
    };
  };
  pc = λ i. loop_head (roles i);
}

pub data Reach (n : ℕ) (roles : ℕ → Role) : System → Type 0 where
  init : Reach n roles (start roles)
  later : {s t : System} → Reach n roles s → Step n s t → Reach n roles t
