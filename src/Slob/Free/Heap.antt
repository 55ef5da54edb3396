-- ===== src/Slob/Free/Heap.antt =====
-- `slob_free` keeps the invariant of the allocator, and undoes an allocation.
use cs444_operating_systems.Prelude.{
  ℕ, ◌+◌, ◌≤◌, ◌≡◌, ◌⊎◌, sym, ◌≢◌, inl, inr, true, false, arith, ◌==◌, All, Bool-cases, ==-refl,
  ◌∙◌, ap, All-map,
}
use cs444_operating_systems.Slob.Block.{slob_units_of}
use cs444_operating_systems.Slob.Segment.{Blocks}
use cs444_operating_systems.Slob.State.{Slob, Size, Run, ok, bug, out_of_fuel, page_of, remove}
use cs444_operating_systems.Slob.Cover.{covers, total}
use cs444_operating_systems.Slob.PageAlloc.Correct.{IsPage}
use cs444_operating_systems.Slob.Heap.{
  OnList, IsHeap, update, IsPage-range, IsPage-frame, All-remove, push-All,
}
use cs444_operating_systems.Slob.Free.{zero_or_null, slob_free}
use cs444_operating_systems.Slob.Free.Correct.{IsInUse}
use cs444_operating_systems.Slob.Free.Outcome.{Freed, Returned, FreeOutcome, slob_free_lem}

module _ (s s' : Slob) (bs : ℕ → Blocks) (sp units b : ℕ) (heap : IsHeap s bs)
    (slab : (s.page sp).is_slab ≡ true) (same_page : (i : ℕ) → i ≢ sp → s'.page i ≡ s.page i) where
  not_null : 0 ≢ sp
  not_null e = let h = heap.null in let g : (s.page 0).is_slab ≡ true = rw e slab in cc

  OnList-other : (i : ℕ) → OnList s i → i ≢ sp → OnList s' i
  OnList-other i o ne = record {
    slab = ap (λ pg. pg.is_slab) (same_page i ne) ∙ o.slab;
    free = ap (λ pg. pg.is_free) (same_page i ne) ∙ o.free;
  }

  -- A page that has gone back is not one of the heap's any more.
  Returned-IsHeap : Returned s sp b s' → IsHeap s' bs
  Returned-IsHeap r = record {
    pages = λ i f.
        let ne : i ≢ sp =
          λ e. (let g : (s'.page sp).is_slab ≡ true = rw (sym e) f in let h = r.not_slab in cc) in
        let old = heap.pages i (sym (ap (λ pg. pg.is_slab) (same_page i ne)) ∙ f) in
        rw (same_page i ne)
          (IsPage-frame s.mem s'.mem i (s.page i) (bs i) (λ x c. ap (λ m. m x) r.same_mem) old);
    listed = λ k. rw (r.lists k) (elim (Bool-cases (s.page sp).is_free) [
      | inl free ↦ rw free (
          All-map _ _ (λ i (o, ne). OnList-other i o ne) (remove sp (s.lists k))
            (All-remove (OnList s) sp (s.lists k) (heap.listed k)))
      | inr full ↦ rw full (
          All-map _ _
            (λ i o.
              OnList-other i o
                (λ e. let g : (s.page sp).is_free ≡ true = rw (sym e) (o.free) in cc))
            (s.lists k) (heap.listed k))
    ]);
    null = ap (λ pg. pg.is_slab) (same_page 0 not_null) ∙ heap.null;
  }

  module _ (u : IsInUse sp b units (bs sp)) (f : Freed s sp b units (bs sp) s') where
    Freed-OnList : (i : ℕ) → OnList s i → OnList s' i
    Freed-OnList i o = elim (Bool-cases (i == sp)) [
      | inl e ↦
          let e' : i ≡ sp = ground arith in
          rw e' (record { slab = f.same_slab ∙ slab; free = f.is_free })
      | inr e ↦ OnList-other i o (ground arith)
    ]

    Freed-listed : (k : Size) → All (OnList s') (s'.lists k)
    Freed-listed k =
        let old : (j : Size) → All (OnList s') (s.lists j) =
          λ j. All-map _ _ Freed-OnList (s.lists j) (heap.listed j) in
        elim f.lists [
          | inl same ↦ rw (same k) (old k)
          | inr (j, pushed) ↦ rw (pushed k) (
              push-All (OnList s') s.lists j sp old
                (record { slab = f.same_slab ∙ slab; free = f.is_free }) k)
        ]

    other_page :
        (i x : ℕ)
        → i ≢ sp
        → IsPage s.mem i (s.page i) (bs i)
        → covers (bs i) x ≡ true
        → s'.mem x ≡ s.mem x
    other_page i x ne page c =
        let at = IsPage-range s.mem i (s.page i) (bs i) x page c in
        f.same_mem x
          (ground (arith, IsPage-range s.mem sp (s.page sp) (bs sp) x (heap.pages sp slab)))
          (ground (arith, u.low, u.high))

    Freed-IsHeap : IsHeap s' (update bs sp f.blocks)
    Freed-IsHeap = record {
      pages = λ i slab'. elim (Bool-cases (sp == i)) [
        | inl e ↦ let e' : i ≡ sp = ground arith in rw (e', ==-refl sp) f.page
        | inr e ↦
            let ne : i ≢ sp = ground arith in
            let old = heap.pages i (sym (ap (λ pg. pg.is_slab) (same_page i ne)) ∙ slab') in
            rw (e, same_page i ne)
              (IsPage-frame s.mem s'.mem i (s.page i) (bs i) (λ x c. other_page i x ne old c) old)
      ];
      listed = Freed-listed;
      null = ap (λ pg. pg.is_slab) (same_page 0 not_null) ∙ heap.null;
    }

-- The heap after `slob_free`.
abbrev pub HeapAfter : Run Slob → Type 0
HeapAfter (ok s') = (bs : ℕ → Blocks) × IsHeap s' bs
HeapAfter bug = ⊥
HeapAfter out_of_fuel = ⊥

-- The heap after `slob_free` in full: its free units are those before and the block's, or, where
-- that is the whole page, the page has gone.
abbrev pub FreedHeap : Slob → (ℕ → Blocks) → (sp b units : ℕ) → Run Slob → Type 0
FreedHeap s bs sp b units (ok s') =
    ((total (bs sp) + units ≡ 2048) × Returned s sp b s' × IsHeap s' bs)
    ⊎ ((f : Freed s sp b units (bs sp) s') × (total (bs sp) + units ≢ 2048)
        × IsHeap s' (update bs sp f.blocks))
FreedHeap s bs sp b units bug = ⊥
FreedHeap s bs sp b units out_of_fuel = ⊥

FreeOutcome-FreedHeap :
    (s : Slob) (bs : ℕ → Blocks) (sp units b : ℕ) (r : Run Slob)
    → IsHeap s bs
    → (s.page sp).is_slab ≡ true
    → IsInUse sp b units (bs sp)
    → FreeOutcome s sp b units (bs sp) r
    → FreedHeap s bs sp b units r
FreeOutcome-FreedHeap s bs sp units b bug heap slab u h = h
FreeOutcome-FreedHeap s bs sp units b out_of_fuel heap slab u h = h
FreeOutcome-FreedHeap s bs sp units b (ok s') heap slab u (inl (all, r)) =
    inl (all, r, Returned-IsHeap s s' bs sp units b heap slab r.same_page r)
FreeOutcome-FreedHeap s bs sp units b (ok s') heap slab u (inr (some_left, f)) =
    inr (f, some_left, Freed-IsHeap s s' bs sp units b heap slab f.same_page u f)

pub slob_free-FreedHeap :
    (s : Slob) (bs : ℕ → Blocks) (b size : ℕ)
    → IsHeap s bs
    → (s.page (page_of b)).is_slab ≡ true
    → IsInUse (page_of b) b (slob_units_of size) (bs (page_of b))
    → 1 ≤ size
    → zero_or_null b ≡ false
    → FreedHeap s bs (page_of b) b (slob_units_of size) (slob_free s b size)
slob_free-FreedHeap s bs b size heap slab u some_size not_null =
    FreeOutcome-FreedHeap s bs (page_of b) (slob_units_of size) b (slob_free s b size) heap slab u
      (slob_free_lem s b size (bs (page_of b)) (heap.pages (page_of b) slab) u some_size not_null)

FreedHeap-HeapAfter :
    (s : Slob) (bs : ℕ → Blocks) (sp b units : ℕ) (r : Run Slob)
    → FreedHeap s bs sp b units r
    → HeapAfter r
FreedHeap-HeapAfter s bs sp b units bug h = h
FreedHeap-HeapAfter s bs sp b units out_of_fuel h = h
FreedHeap-HeapAfter s bs sp b units (ok s') (inl (all, r, heap)) = (bs, heap)
FreedHeap-HeapAfter s bs sp b units (ok s') (inr (f, some_left, heap)) =
    (update bs sp f.blocks, heap)

-- `slob_free` of a block in use on a page of the heap returns, and leaves a heap.
pub slob_free-IsHeap :
    (s : Slob) (bs : ℕ → Blocks) (b size : ℕ)
    → IsHeap s bs
    → (s.page (page_of b)).is_slab ≡ true
    → IsInUse (page_of b) b (slob_units_of size) (bs (page_of b))
    → 1 ≤ size
    → zero_or_null b ≡ false
    → HeapAfter (slob_free s b size)
slob_free-IsHeap s bs b size heap slab u some_size not_null =
    FreedHeap-HeapAfter s bs (page_of b) b (slob_units_of size) (slob_free s b size)
      (slob_free-FreedHeap s bs b size heap slab u some_size not_null)
