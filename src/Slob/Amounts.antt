-- ===== src/Slob/Amounts.antt =====
-- CS444_project4_46/slob.c, the system calls `sys_get_slob_amt_total` and `sys_get_slob_amt_free`,
-- whose quotient Frag_Test/frag_test.c prints.
use cs444_operating_systems.Prelude.{
  ℕ, ◌+◌, ◌*◌, ◌≤◌, ◌≡◌, ap, List, [], ◌∷◌, arith, All, true, ◌++◌, length, length-append,
}
use cs444_operating_systems.Slob.Block.{page_units}
use cs444_operating_systems.Slob.Segment.{Blocks}
use cs444_operating_systems.Slob.State.{Slob, small, medium, large}
use cs444_operating_systems.Slob.Cover.{total, total_range}
use cs444_operating_systems.Slob.PageAlloc.Correct.{IsPage}
use cs444_operating_systems.Slob.Heap.{OnList, IsHeap}

-- One `list_for_each_entry` with `num_pages++`.
unfoldable pub count_pages : ℕ → List ℕ → ℕ
count_pages n [] = n
count_pages n (sp ∷ l) = count_pages (n + 1) l

-- One with `mem_free += sp->units`.
unfoldable pub add_units : Slob → ℕ → List ℕ → ℕ
add_units s n [] = n
add_units s n (sp ∷ l) = add_units s (n + (s.page sp).units) l

unfoldable pub sys_get_slob_amt_total : Slob → ℕ
unfolding count_pages
sys_get_slob_amt_total s =
    let n = count_pages 0 (s.lists small) in
    let n' = count_pages n (s.lists medium) in count_pages n' (s.lists large) * page_units

unfoldable pub sys_get_slob_amt_free : Slob → ℕ
unfolding add_units
sys_get_slob_amt_free s =
    let n = add_units s 0 (s.lists small) in
    let n' = add_units s n (s.lists medium) in add_units s n' (s.lists large)

-- A well-formed page on a list has free units, and at most a page of them.
units_bounds :
    (s : Slob) (sp : ℕ) (bs : Blocks)
    → IsPage s.mem sp (s.page sp) bs
    → (s.page sp).is_free ≡ true
    → (1 ≤ (s.page sp).units) × ((s.page sp).units ≤ 2048)
unfolding total
units_bounds s sp [] page free = let h = page.listed in absurd (cc)
units_bounds s sp ((a, n) ∷ bs) page free =
    let chain = page.chain free in
    let range =
      total_range s.mem (sp * 2048) (sp * 2048 + 2049) (s.page sp).freelist (sp * 2048 + 2048)
        ((a, n) ∷ bs) chain in
    omega (arith, page.counted, chain.2, range)

module _ (s : Slob) (bs : ℕ → Blocks) (heap : IsHeap s bs) where
  list_bounds :
      (l : List ℕ) (n u : ℕ)
      → All (OnList s) l
      → n ≤ u
      → u ≤ n * 2048
      → (count_pages n l ≤ add_units s u l) × (add_units s u l ≤ count_pages n l * 2048)
  unfolding count_pages add_units
  list_bounds [] n u h low high = (low, high)
  list_bounds (sp ∷ l) n u h low high =
      let (one, page) = units_bounds s sp (bs sp) (heap.pages sp (h.0.slab)) h.0.free in
      list_bounds l (n + 1) (u + (s.page sp).units) h.1 (omega arith) (omega arith)

-- On a heap the free units that the system call reports are at most those of the pages that the
-- other one counts, and at least one for each of these pages.
pub amt_free-le-amt_total :
    (s : Slob) (bs : ℕ → Blocks)
    → IsHeap s bs
    → (sys_get_slob_amt_free s ≤ sys_get_slob_amt_total s)
      × (sys_get_slob_amt_total s ≤ sys_get_slob_amt_free s * 2048)
unfolding sys_get_slob_amt_total sys_get_slob_amt_free
amt_free-le-amt_total s bs heap =
    let first =
      list_bounds s bs heap (s.lists small) 0 0 (heap.listed small) (omega arith) (omega arith) in
    let second = list_bounds s bs heap (s.lists medium) _ _ (heap.listed medium) first.0 first.1 in
    let third = list_bounds s bs heap (s.lists large) _ _ (heap.listed large) second.0 second.1 in
    (third.1, omega (arith, third.0))

-- The pages on the allocator's lists.
abbrev pub listed_pages : Slob → List ℕ
listed_pages s = s.lists small ++ s.lists medium ++ s.lists large

-- The free units of a list of pages, where `bs i` are the free blocks of page `i`.
abbrev pub free_units : (ℕ → Blocks) → List ℕ → ℕ
free_units bs [] = 0
free_units bs (sp ∷ l) = total (bs sp) + free_units bs l

free_units-append :
    (bs : ℕ → Blocks) (l r : List ℕ) → free_units bs (l ++ r) ≡ free_units bs l + free_units bs r
free_units-append bs [] r = omega arith
free_units-append bs (sp ∷ l) r = omega (arith, free_units-append bs l r)

count_pages-length : (n : ℕ) (l : List ℕ) → count_pages n l ≡ n + length l
unfolding count_pages
count_pages-length n [] = omega arith
count_pages-length n (sp ∷ l) = omega (arith, count_pages-length (n + 1) l)

-- Two amounts that describe an allocator: the units of the free blocks of the pages on its lists,
-- and all units of these pages; the first is at most the second, and has a unit for each page.
pub record IsMeasured (s : Slob) (free_memory total_memory : ℕ) : Type 0 where
  pub blocks : ℕ → Blocks
  pub heap : IsHeap s blocks
  pub free : free_memory ≡ free_units blocks (listed_pages s)
  pub whole : total_memory ≡ length (listed_pages s) * page_units
  pub low : free_memory ≤ total_memory
  pub high : total_memory ≤ free_memory * 2048

module _ (s : Slob) (bs : ℕ → Blocks) (heap : IsHeap s bs) where
  add_units-free_units :
      (l : List ℕ) (n : ℕ) → All (OnList s) l → add_units s n l ≡ n + free_units bs l
  unfolding add_units
  add_units-free_units [] n on = omega arith
  add_units-free_units (sp ∷ l) n on =
      let page = heap.pages sp on.0.slab in
      omega (arith, page.counted, add_units-free_units l (n + (s.page sp).units) on.1)

  -- What the two system calls report of a heap.
  pub amounts-IsMeasured : IsMeasured s (sys_get_slob_amt_free s) (sys_get_slob_amt_total s)
  unfolding sys_get_slob_amt_total sys_get_slob_amt_free
  amounts-IsMeasured =
      let (low, high) = amt_free-le-amt_total s bs heap in
      let a = s.lists small in
      let b = s.lists medium in
      let c = s.lists large in
      let free : add_units s (add_units s (add_units s 0 a) b) c ≡ free_units bs (a ++ b ++ c) =
        omega (
          arith,
          add_units-free_units a 0 (heap.listed small),
          add_units-free_units b (add_units s 0 a) (heap.listed medium),
          add_units-free_units c (add_units s (add_units s 0 a) b) (heap.listed large),
          free_units-append bs (a ++ b) c,
          free_units-append bs a b,
        ) in
      let pages : count_pages (count_pages (count_pages 0 a) b) c ≡ length (a ++ b ++ c) = omega (
        arith,
        count_pages-length 0 a,
        count_pages-length (count_pages 0 a) b,
        count_pages-length (count_pages (count_pages 0 a) b) c,
        length-append (a ++ b) c,
        length-append a b,
      ) in
      record {
        blocks = bs;
        heap = heap;
        free = free;
        whole = ap (λ n. n * page_units) pages;
        low = low;
        high = high;
      }
