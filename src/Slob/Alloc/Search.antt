-- ===== src/Slob/Alloc/Search.antt =====
-- The loop of `slob_alloc` over the pages of a list.
use cs444_operating_systems.Prelude.{
  ℕ, suc, ◌+◌, ◌-◌, ◌/◌, ◌≤◌, ◌≡◌, refl, sym, inl, inr, true, false, List, [], ◌∷◌, Option, none,
  some, arith, ◌==◌, ltb, All, Bool-cases, ==-refl, ◌∙◌, ◌&&◌, ◌||◌, not, All-append, All-map,
  All-take, All-drop, take, drop,
}
use cs444_operating_systems.Slob.Block.{Ptr, slob_units_of}
use cs444_operating_systems.Slob.Segment.{Blocks}
use cs444_operating_systems.Slob.State.{
  Slob, Size, Run, ok, bug, out_of_fuel, small, medium, large, page_of,
}
use cs444_operating_systems.Slob.Cover.{inside, covers}
use cs444_operating_systems.Slob.PageAlloc.{slob_page_alloc}
use cs444_operating_systems.Slob.PageAlloc.Correct.{Taken, Outcome, slob_page_alloc_lem}
use cs444_operating_systems.Slob.Free.Correct.{IsInUse}
use cs444_operating_systems.Slob.Heap.{
  OnList, IsHeap, update, IsPage-range, IsHeap-Taken, slab-Taken,
}
use cs444_operating_systems.Slob.Alloc.{Node, wrong_node, search_pages, restart, set_list}

-- The `units` from `b` on have been allocated: they were not in use on any page of the heap, they
-- are no longer free, nothing else has become free or in use there, and what was in use keeps its
-- content.
pub record Allocated (s : Slob) (bs : ℕ → Blocks) (b units : ℕ) (s' : Slob) : Type 0 where
  pub blocks : ℕ → Blocks
  pub heap : IsHeap s' blocks
  pub slab : (s'.page (page_of b)).is_slab ≡ true
  pub in_use : IsInUse (page_of b) b units (blocks (page_of b))
  pub fewer :
      (i x : ℕ)
      → (s.page i).is_slab ≡ true
      → covers (blocks i) x ≡ (covers (bs i) x && not (inside b units x))
  pub apart :
      (i x : ℕ)
      → (s.page i).is_slab ≡ true
      → x / 2048 ≡ i
      → covers (bs i) x ≡ false
      → (inside b units x ≡ false) × (s'.mem x ≡ s.mem x)
  -- No page is given up.
  pub slabs : (i : ℕ) → (s.page i).is_slab ≡ true → (s'.page i).is_slab ≡ true
  -- A new page has the block on it, and is free besides.
  pub whole :
      (i x : ℕ)
      → (s.page i).is_slab ≡ false
      → (s'.page i).is_slab ≡ true
      → x / 2048 ≡ i
      → (page_of b ≡ i) × (covers (blocks i) x ≡ not (inside b units x))

module _ (s s' : Slob) (bs : ℕ → Blocks) (sp units b : ℕ) (heap : IsHeap s bs)
    (slab : (s.page sp).is_slab ≡ true) (some_unit : 1 ≤ units)
    (t : Taken s sp units (bs sp) b s') where
  range : (x : ℕ) → covers (bs sp) x ≡ true → x / 2048 ≡ sp
  range x c = IsPage-range s.mem sp (s.page sp) (bs sp) x (heap.pages sp slab) c

  block_range : (x : ℕ) → inside b units x ≡ true → x / 2048 ≡ sp
  block_range x i = range x (t.were_free x i)

  pub start_page : page_of b ≡ sp
  start_page = block_range b (ground arith)

  Taken-IsInUse : IsInUse sp b units t.left
  Taken-IsInUse = record {
    some_unit = some_unit;
    low = omega (arith, start_page);
    high = omega (arith, block_range (b + units - 1) (ground arith), start_page);
    in_use = λ x i. ground (arith, t.taken x);
  }

  Taken-fewer :
      (i x : ℕ)
      → (s.page i).is_slab ≡ true
      → covers (update bs sp t.left i) x ≡ (covers (bs i) x && not (inside b units x))
  Taken-fewer i x f = elim (Bool-cases (sp == i)) [
    | inl e ↦ let e' : i ≡ sp = ground arith in rw (e', ==-refl sp) (t.taken x)
    | inr e ↦
        rw e
          (ground (arith, block_range x, IsPage-range s.mem i (s.page i) (bs i) x (heap.pages i f)))
  ]

  Taken-apart :
      (i x : ℕ)
      → (s.page i).is_slab ≡ true
      → x / 2048 ≡ i
      → covers (bs i) x ≡ false
      → (inside b units x ≡ false) × (s'.mem x ≡ s.mem x)
  Taken-apart i x f h c = elim (Bool-cases (covers (bs sp) x)) [
    | inl in_sp ↦
        let e : sp ≡ i = sym (range x in_sp) ∙ h in
        let c' : covers (bs sp) x ≡ false = rw e c in absurd (cc)
    | inr out ↦ (ground (arith, t.were_free x), t.same_mem x out)
  ]

  -- A block taken from a page of the heap is allocated.
  pub Taken-Allocated : Allocated s bs b units s'
  Taken-Allocated = record {
    blocks = update bs sp t.left;
    heap = IsHeap-Taken s s' bs sp units b heap slab t;
    slab = rw start_page (slab-Taken s s' bs sp units b heap slab t sp ∙ slab);
    in_use = rw (start_page, ==-refl sp) Taken-IsInUse;
    fewer = Taken-fewer;
    apart = Taken-apart;
    slabs = λ i h. slab-Taken s s' bs sp units b heap slab t i ∙ h;
    whole = λ i x old new h. absurd (let same = slab-Taken s s' bs sp units b heap slab t i in cc);
  }

set_list-All {ℓ} :
    (P : ℕ → Type ℓ) (lists : Size → List ℕ) (k : Size) (l : List ℕ)
    → ((j : Size) → All P (lists j))
    → All P l
    → (j : Size) → All P (set_list lists k l j)
set_list-All P lists small l h hl small = hl
set_list-All P lists small l h hl medium = h medium
set_list-All P lists small l h hl large = h large
set_list-All P lists medium l h hl small = h small
set_list-All P lists medium l h hl medium = hl
set_list-All P lists medium l h hl large = h large
set_list-All P lists large l h hl small = h small
set_list-All P lists large l h hl medium = h medium
set_list-All P lists large l h hl large = hl

-- Starting a list elsewhere keeps a heap.
restart-IsHeap :
    (s : Slob) (bs : ℕ → Blocks) (k : Size) (n : ℕ) → IsHeap s bs → IsHeap (restart s k n) bs
unfolding restart
restart-IsHeap s bs k n h =
    let l = s.lists k in
    let turned =
      All-append (OnList s) (drop n l) (take n l) (All-drop (OnList s) n l (h.listed k))
        (All-take (OnList s) n l (h.listed k)) in
    record {
      pages = h.pages;
      listed = λ j.
          All-map _ _ (λ i o. record { slab = o.slab; free = o.free }) _
            (set_list-All (OnList s) s.lists k _ h.listed turned j);
      null = h.null;
    }

restart-Allocated :
    (s : Slob) (bs : ℕ → Blocks) (b units : ℕ) (s' : Slob) (k : Size) (n : ℕ)
    → Allocated s bs b units s'
    → Allocated s bs b units (restart s' k n)
unfolding restart
restart-Allocated s bs b units s' k n a = record {
  blocks = a.blocks;
  heap = restart-IsHeap s' a.blocks k n a.heap;
  slab = a.slab;
  in_use = a.in_use;
  fewer = a.fewer;
  apart = a.apart;
  slabs = a.slabs;
  whole = a.whole;
}

-- The result of the loop: a block on a page of the heap, or none and no change.
abbrev pub SearchOutcome : Slob → (ℕ → Blocks) → ℕ → Run (Slob × Option Ptr) → Type 0
SearchOutcome s bs units (ok (s', none)) = s' ≡ s
SearchOutcome s bs units (ok (s', some b)) =
    Allocated s bs b units s' × ((s.page (page_of b)).is_slab ≡ true)
SearchOutcome s bs units bug = ⊥
SearchOutcome s bs units out_of_fuel = ⊥

module _ (page_to_nid : ℕ → ℕ) (s : Slob) (bs : ℕ → Blocks) (size align : ℕ) (nid : Node) (k : Size)
    (heap : IsHeap s bs) (some_size : 1 ≤ size) where
  -- One page: a block is taken from it, or the loop goes on.
  search_page :
      (n sp : ℕ) (rest : List ℕ)
      → OnList s sp
      → SearchOutcome s bs
          (slob_units_of size)
          (search_pages page_to_nid s size align nid k (suc n) rest)
      → SearchOutcome s bs
          (slob_units_of size)
          (search_pages page_to_nid s size align nid k n (sp ∷ rest))
  unfolding search_pages
  search_page n sp rest o next =
      elim (Bool-cases
        (wrong_node page_to_nid nid sp || ltb (s.page sp).units (slob_units_of size))) [
          | inl skip ↦ rw skip next
          | inr room ↦ rw room (
              tried (slob_page_alloc s sp size align) (
                slob_page_alloc_lem s sp size align (bs sp) (heap.pages sp o.slab) o.free
                  some_size))
        ]
    where
      tried :
          (r : Option (Slob × Option Ptr))
          → Outcome s sp (slob_units_of size) align (bs sp) r
          → SearchOutcome s bs (slob_units_of size) (elim r [
            | none ↦ out_of_fuel
            | some (s', none) ↦ search_pages page_to_nid s' size align nid k (suc n) rest
            | some (s', some b) ↦ ok (restart s' k n, some b)
          ])
      tried none h = absurd h
      tried (some (s', none)) h = rw h.0 next
      tried (some (s', some b)) h = (
        restart-Allocated s bs b (slob_units_of size) s' k n
            (Taken-Allocated s s' bs sp (slob_units_of size) b heap o.slab (omega arith) h.0),
        rw (start_page s s' bs sp (slob_units_of size) b heap o.slab (omega arith) h.0) o.slab,
      )

  -- The loop over the pages of a list.
  pub search_pages-Outcome :
      (n : ℕ) (l : List ℕ)
      → All (OnList s) l
      → SearchOutcome s bs (slob_units_of size) (search_pages page_to_nid s size align nid k n l)
  search_pages-Outcome n [] h = unfold search_pages in refl
  search_pages-Outcome n (sp ∷ rest) h =
      search_page n sp rest h.0 (search_pages-Outcome (suc n) rest h.1)
