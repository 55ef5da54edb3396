-- ===== src/Slob/Free/Outcome.antt =====
-- `slob_free` on a block in use, on every branch.
use cs444_operating_systems.Prelude.{
  ℕ, ◌+◌, ◌*◌, ◌≤◌, ◌≡◌, refl, sym, ◌≢◌, ◌⊎◌, inl, inr, true, false, [], ◌∷◌, arith, if◌then◌else◌,
  ◌==◌, ltb, Bool-cases, ltb→lt, ==-refl, ◌∙◌, ◌||◌, not,
}
use cs444_operating_systems.Slob.Block.{slob_next, slob_units_of, page_base, page_units}
use cs444_operating_systems.Slob.BlockLaws.{Fits, set_slob-outside}
use cs444_operating_systems.Slob.Segment.{Blocks, Header-set_slob}
use cs444_operating_systems.Slob.State.{
  Slob, Size, push, remove, Run, ok, bug, out_of_fuel, page_of, set_page, set_slob_page_free,
  clear_slob_page_free, slob_list, slob_free_pages,
}
use cs444_operating_systems.Slob.Cover.{inside, covers, total, is_empty}
use cs444_operating_systems.Slob.PageAlloc.Correct.{IsPage}
use cs444_operating_systems.Slob.Free.{
  zero_or_null, free_before, join_next, join_prev, reinsert, first_free, release_page, slob_free,
  free_fuel,
}
use cs444_operating_systems.Slob.Free.Correct.{
  IsInUse, Inserted, insert_front, place, insert_behind,
}

-- Page `sp` has the units from `b` on free too. No other page changes, and no unit is written that
-- was not free and is not freed.
pub record Freed (s : Slob) (sp b units : ℕ) (bs : Blocks) (s' : Slob) : Type 0 where
  pub blocks : Blocks
  pub page : IsPage s'.mem sp (s'.page sp) blocks
  pub freed : (x : ℕ) → covers blocks x ≡ (covers bs x || inside b units x)
  pub more : total blocks ≡ total bs + units
  pub same_mem : (x : ℕ) → covers bs x ≡ false → inside b units x ≡ false → s'.mem x ≡ s.mem x
  pub same_page : (i : ℕ) → i ≢ sp → s'.page i ≡ s.page i
  pub kept : s'.released ≡ s.released
  pub same_slab : (s'.page sp).is_slab ≡ (s.page sp).is_slab
  pub is_free : (s'.page sp).is_free ≡ true
  pub lists :
      ((k : Size) → s'.lists k ≡ s.lists k)
      ⊎ ((j : Size) × ((k : Size) → s'.lists k ≡ push j sp s.lists k))

-- Page `sp` has gone back to the page allocator.
pub record Returned (s : Slob) (sp b : ℕ) (s' : Slob) : Type 0 where
  pub handed : s'.released ≡ (b, 0) ∷ s.released
  pub not_slab : (s'.page sp).is_slab ≡ false
  pub not_free : (s'.page sp).is_free ≡ false
  pub same_mem : s'.mem ≡ s.mem
  pub lists :
      (k : Size) → s'.lists k ≡ (if (s.page sp).is_free then remove sp (s.lists k) else s.lists k)
  pub same_page : (i : ℕ) → i ≢ sp → s'.page i ≡ s.page i

abbrev pub FreeOutcome : Slob → (sp b units : ℕ) → Blocks → Run Slob → Type 0
FreeOutcome s sp b units bs (ok s') =
    ((total bs + units ≡ 2048) × Returned s sp b s')
    ⊎ ((total bs + units ≢ 2048) × Freed s sp b units bs s')
FreeOutcome s sp b units bs bug = ⊥
FreeOutcome s sp b units bs out_of_fuel = ⊥

not_empty : (bs : Blocks) → 1 ≤ total bs → is_empty bs ≡ false
unfolding total
not_empty [] h = absurd (omega arith)
not_empty (x ∷ bs) h = refl

module _ (s : Slob) (sp b units : ℕ) where
  release_page-Returned : Returned s sp b (release_page s sp b)
  unfolding release_page clear_slob_page_free slob_free_pages
  release_page-Returned = record {
    handed = ground arith;
    not_slab = ground arith;
    not_free = ground arith;
    same_mem = ground arith;
    lists = λ k. ground arith;
    same_page = λ i ne. ground arith;
  }

  first_free-Freed :
      (size : ℕ) → IsInUse sp b units [] → Freed s sp b units [] (first_free s sp b units size)
  unfolding first_free set_slob_page_free covers total
  first_free-Freed size u =
      let top : page_base (b + page_units) ≡ sp * 2048 + 2048 =
        omega (arith, u.some_unit, u.low, u.high) in
      let f : Fits sp b units (page_base (b + page_units)) = record {
        low = u.low;
        high = u.high;
        some_unit = u.some_unit;
        behind = omega (arith, u.some_unit, u.low, u.high);
        near = omega (arith, top);
      } in
      let h = Header-set_slob s.mem f in
      record {
        blocks = (b, units) ∷ [];
        page = record {
          chain = λ free. rw (==-refl sp) (
            refl,
            u.low,
            u.some_unit,
            omega (arith, u.high),
            record { units = h.units; next = refl; short = h.short },
            (h.next ∙ top, omega (arith, u.high)),
          );
          counted = ground arith;
          listed = ground arith;
        };
        freed = λ x. ground arith;
        more = omega arith;
        same_mem = λ x o i. set_slob-outside f s.mem x (ground arith);
        same_page = λ i ne. ground arith;
        kept = refl;
        same_slab = ground arith;
        is_free = ground arith;
        lists = inr (slob_list size, λ k. refl);
      }

  full_page-Freed :
      (size : ℕ) (bs : Blocks)
      → not (is_empty bs) ≡ false
      → IsInUse sp b units bs
      → Freed s sp b units bs (first_free s sp b units size)
  full_page-Freed size [] e u = first_free-Freed size u
  full_page-Freed size (x ∷ bs) e u = absurd (cc)

  -- A state with the new free list, the new count and no other change.
  Inserted-Freed :
      (bs : Blocks) (s' : Slob)
      → Inserted s.mem s'.mem sp b units bs (s'.page sp).freelist
      → 1 ≤ units
      → (s'.page sp).units ≡ total bs + units
      → (s'.page sp).is_free ≡ true
      → ((i : ℕ) → i ≢ sp → s'.page i ≡ s.page i)
      → s'.released ≡ s.released
      → (s'.page sp).is_slab ≡ (s.page sp).is_slab
      → ((k : Size) → s'.lists k ≡ s.lists k)
      → Freed s sp b units bs s'
  Inserted-Freed bs s' ins some_unit counted free same kept slab lists = record {
    blocks = ins.blocks;
    page = record {
      chain = λ f. ins.list;
      counted = omega (arith, ins.more);
      listed = rw (not_empty ins.blocks (omega (arith, ins.more))) free;
    };
    freed = ins.added;
    more = ins.more;
    same_mem = ins.same;
    same_page = same;
    kept = kept;
    same_slab = slab;
    is_free = free;
    lists = inl lists;
  }

  -- The block is linked into the list of a page that is partially free, whose count is new already.
  reinsert-Freed :
      (bs : Blocks)
      → IsPage s.mem sp (s.page sp) bs
      → (s.page sp).is_free ≡ true
      → IsInUse sp b units bs
      → let pg = s.page sp in
        (s' : Slob) × (reinsert free_fuel
            (set_page s sp (record pg { units = pg.units + units }))
            sp
            b
            units
          ≡ ok s')
        × Freed s sp b units bs s'
  unfolding reinsert
  reinsert-Freed [] page free u = absurd (cc (page.listed))
  reinsert-Freed ((a, n) ∷ bs) page free u =
      let first : (s.page sp).freelist ≡ a = (page.chain free).0 in
      let s₁ : Slob = set_page s sp (record (s.page sp) { units = (s.page sp).units + units }) in
      elim (Bool-cases (ltb b a)) [
        | inl front ↦
            let ins =
              insert_front s.mem sp (s.page sp).freelist b units a n bs (page.chain free) u
                (ltb→lt b a front) in
            let s' : Slob =
              set_page (record s₁ { mem = (free_before s.mem (s.page sp).freelist b units).0 }) sp
                (record (s₁.page sp) {
                  freelist = (free_before s.mem (s.page sp).freelist b units).1;
                }) in
            (
              s',
              ground arith,
              Inserted-Freed ((a, n) ∷ bs) s' (rw (==-refl sp) ins) u.some_unit
                  (ground (arith, page.counted)) (ground arith) (λ i ne. ground arith) refl
                  (ground arith) (λ k. refl),
            )
        | inr behind ↦
            let l : a ≤ b = ground arith in
            let at = place s.mem sp (s.page sp).freelist b units a n bs (page.chain free) u l in
            let ins =
              insert_behind s.mem sp (s.page sp).freelist b units a n bs (page.chain free) u l in
            let s' : Slob = record s₁ {
              mem = join_prev (join_next s.mem at.prev (slob_next s.mem at.prev) b units) at.prev b;
            } in
            (
              s',
              rw (==-refl sp, first, behind, at.result),
              Inserted-Freed ((a, n) ∷ bs) s' (rw (==-refl sp) ins) u.some_unit
                  (ground (arith, page.counted)) (ground arith) (λ i ne. ground arith) refl
                  (ground arith) (λ k. refl),
            )
      ]

-- `slob_free` of a block in use of a positive size returns. If all units of the page are free now,
-- the page has gone to the page allocator; else they are free on the page's list.
pub slob_free_lem :
    (s : Slob) (b size : ℕ) (bs : Blocks)
    → IsPage s.mem (page_of b) (s.page (page_of b)) bs
    → IsInUse (page_of b) b (slob_units_of size) bs
    → 1 ≤ size
    → zero_or_null b ≡ false
    → FreeOutcome s (page_of b) b (slob_units_of size) bs (slob_free s b size)
unfolding slob_free
slob_free_lem s b size bs page u some_size not_null =
    let sp : ℕ = page_of b in
    let units : ℕ = slob_units_of size in
    let positive : (size == 0) ≡ false = ground arith in
    rw (not_null, positive)
      (elim (Bool-cases ((s.page sp).units + units == 2048)) [
        | inl all ↦ rw all (inl (ground (arith, page.counted), release_page-Returned s sp b units))
        | inr some_left ↦ rw some_left (elim (Bool-cases ((s.page sp).is_free)) [
          | inl free ↦
              let (s', e, f) = reinsert-Freed s sp b units bs page free u in
              rw (e, free) (inr (ground (arith, page.counted), f))
          | inr full ↦ rw full (
              inr (
                ground (arith, page.counted),
                full_page-Freed s sp b units size bs (sym page.listed ∙ full) u,
              ))
        ])
      ])
