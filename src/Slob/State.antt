-- ===== src/Slob/State.antt =====
-- CS444_project4_46/slob.c: the state that the allocator keeps. A page is named by its number:
-- `virt_to_page` of the unit `b` is the page `b / 2048`. A list of pages (`struct list_head`) is
-- the list of its entries' numbers, from the head's `next` on.
use cs444_operating_systems.Prelude.{
  ℕ, ◌+◌, ◌/◌, Bool, true, false, Option, none, some, List, ◌^◌, [], ◌∷◌, ◌==◌, ltb, if◌then◌else◌,
}
use cs444_operating_systems.Slob.Block.{Ptr, Mem, page_units}

-- The fields of `struct page` that the allocator uses; `is_free` is the flag PageSlobFree, and
-- `is_slab` the flag PageSlab.
pub record Page : Type 0 where
  pub freelist : Ptr
  pub units : ℕ
  pub is_free : Bool
  pub is_slab : Bool

-- The lists free_slob_small, free_slob_medium and free_slob_large.
pub data Size : Type 0 where
  small medium large : Size

-- `reclaim` is the counter `reclaimed_slab` of `current->reclaim_state`, where that is not NULL, and
-- `released` holds what was handed to the page allocator's `free_pages`: an address and an order.
pub record Slob : Type 0 where
  pub mem : Mem
  pub page : ℕ → Page
  pub lists : Size → List ℕ
  pub reclaim : Option ℕ
  pub released : List (Ptr × ℕ)

-- A call that returns, one that stops at a BUG_ON, and one whose loop has not ended on its fuel.
pub data Run {ℓ} (A : Type ℓ) : Type ℓ where
  ok : A → Run A
  bug : Run A
  out_of_fuel : Run A

abbrev pub set_page : Slob → ℕ → Page → Slob
set_page s sp pg = record s { page = λ i. if sp == i then pg else s.page i }

-- virt_to_page
abbrev pub page_of : Ptr → ℕ
page_of b = b / page_units

-- list_del: a page has one link `lru`, so it is on at most one list, and there once.
abbrev pub remove : ℕ → List ℕ → List ℕ
remove sp [] = []
remove sp (i ∷ l) = let rest = remove sp l in if i == sp then rest else i ∷ rest

-- SLOB_BREAK1, SLOB_BREAK2
abbrev pub slob_break1 : ℕ
slob_break1 = 256

abbrev pub slob_break2 : ℕ
slob_break2 = 1024

-- The list that `slob_alloc` and `slob_free` choose for a size.
unfoldable pub slob_list : ℕ → Size
slob_list size =
    if ltb size slob_break1 then small else if ltb size slob_break2 then medium else large

abbrev pub push : Size → ℕ → (Size → List ℕ) → Size → List ℕ
push small sp lists small = sp ∷ lists small
push medium sp lists medium = sp ∷ lists medium
push large sp lists large = sp ∷ lists large
push _ sp lists k = lists k

unfoldable pub set_slob_page_free : Slob → ℕ → Size → Slob
set_slob_page_free s sp list =
    set_page (record s { lists = push list sp s.lists }) sp (record (s.page sp) { is_free = true })

-- `list_del` takes the page from the one list that it is on.
unfoldable pub clear_slob_page_free : Slob → ℕ → Slob
clear_slob_page_free s sp =
    set_page (record s { lists = λ k. remove sp (s.lists k) }) sp
      (record (s.page sp) { is_free = false })

abbrev pub reclaimed : ℕ → Option ℕ → Option ℕ
reclaimed order none = none
reclaimed order (some n) = some (n + 2 ^ order)

unfoldable pub slob_free_pages : Slob → Ptr → (order : ℕ) → Slob
slob_free_pages s b order = record s {
  reclaim = reclaimed order s.reclaim;
  released = (b, order) ∷ s.released;
}
