-- ===== src/Slob/RoundTrip.antt =====
-- `slob_free` undoes `slob_page_alloc` (CS444_project4_46/slob.c).
use cs444_operating_systems.Prelude.{
  ℕ, ◌+◌, ◌-◌, ◌/◌, ◌≤◌, ◌≡◌, ◌⊎◌, inl, inr, true, false, some, arith,
}
use cs444_operating_systems.Slob.Block.{Ptr, slob_units_of}
use cs444_operating_systems.Slob.Segment.{Blocks}
use cs444_operating_systems.Slob.State.{Slob, Run, ok, bug, out_of_fuel, page_of}
use cs444_operating_systems.Slob.Cover.{inside, covers, total}
use cs444_operating_systems.Slob.PageAlloc.{slob_page_alloc}
use cs444_operating_systems.Slob.PageAlloc.Correct.{IsPage, Taken, Outcome, slob_page_alloc_lem}
use cs444_operating_systems.Slob.Heap.{IsPage-range}
use cs444_operating_systems.Slob.Free.{zero_or_null, slob_free}
use cs444_operating_systems.Slob.Free.Correct.{IsInUse}
use cs444_operating_systems.Slob.Free.Outcome.{FreeOutcome, slob_free_lem}

-- Page `sp` has the free units of `bs` again, or has gone back to the page allocator, if they are
-- all of it.
abbrev pub Restored : (sp : ℕ) → Blocks → Run Slob → Type 0
Restored sp bs (ok s) =
    ((total bs ≡ 2048) × ((s.page sp).is_slab ≡ false))
    ⊎ ((cs : Blocks) × IsPage s.mem sp (s.page sp) cs × ((x : ℕ) → covers cs x ≡ covers bs x))
Restored sp bs bug = ⊥
Restored sp bs out_of_fuel = ⊥

module _ (s : Slob) (sp size : ℕ) (bs : Blocks) (s' : Slob) (b : Ptr)
    (page : IsPage s.mem sp (s.page sp) bs) (some_size : 1 ≤ size)
    (t : Taken s sp (slob_units_of size) bs b s') where
  in_page : (x : ℕ) → inside b (slob_units_of size) x ≡ true → x / 2048 ≡ sp
  in_page x i = IsPage-range s.mem sp (s.page sp) bs x page (t.were_free x i)

  start_page : page_of b ≡ sp
  start_page = in_page b (ground arith)

  in_use : IsInUse sp b (slob_units_of size) t.left
  in_use = record {
    some_unit = omega arith;
    low = omega (arith, start_page);
    high = omega (arith, in_page (b + slob_units_of size - 1) (ground arith), start_page);
    in_use = λ x i. ground (arith, t.taken x);
  }

  FreeOutcome-Restored :
      (r : Run Slob) → FreeOutcome s' sp b (slob_units_of size) t.left r → Restored sp bs r
  FreeOutcome-Restored bug h = h
  FreeOutcome-Restored out_of_fuel h = h
  FreeOutcome-Restored (ok s'') (inl (all, r)) = inl (omega (arith, t.fewer), r.not_slab)
  FreeOutcome-Restored (ok s'') (inr (some_left, f)) =
      inr (f.blocks, f.page, λ x. ground (arith, f.freed x, t.taken x, t.were_free x))

  free_taken : zero_or_null b ≡ false → Restored sp bs (slob_free s' b size)
  free_taken not_null = FreeOutcome-Restored (slob_free s' b size) (
      rw start_page at (
        slob_free_lem s' b size t.left (rw start_page t.page) (rw start_page in_use) some_size
          not_null))

-- Freeing the block that `slob_page_alloc` returned gives the page the free units that it had, or
-- the page goes back to the page allocator, where those are all of it.
pub slob_free-slob_page_alloc :
    (s : Slob) (sp size align : ℕ) (bs : Blocks) (s' : Slob) (b : Ptr)
    → IsPage s.mem sp (s.page sp) bs
    → (s.page sp).is_free ≡ true
    → 1 ≤ size
    → slob_page_alloc s sp size align ≡ some (s', some b)
    → zero_or_null b ≡ false
    → Restored sp bs (slob_free s' b size)
slob_free-slob_page_alloc s sp size align bs s' b page free some_size e not_null =
    let h : Outcome s sp (slob_units_of size) align bs (some (s', some b)) =
      rw e at (slob_page_alloc_lem s sp size align bs page free some_size) in
    free_taken s sp size bs s' b page some_size h.0 not_null
