-- ===== src/Slob/Alloc/NewPage.antt =====
-- `slob_alloc` on a new page.
use native.Mathlib.Nat.{mul-add-div_right, div-eq_of_lt}
use cs444_operating_systems.Prelude.{
  ℕ, ◌+◌, ◌-◌, ◌*◌, ◌/◌, ◌^◌, ◌≤◌, ◌≡◌, refl, sym, subst, ◌≢◌, inl, inr, true, false, [], ◌∷◌,
  arith, ◌==◌, Bool-cases, ==-refl, ◌∙◌, ◌&&◌, not, ap, All-map,
}
use native.Mathlib.Decide.{ℕ_discrete}
use cs444_operating_systems.Slob.Block.{page_units}
use cs444_operating_systems.Slob.BlockLaws.{Fits, set_slob-outside}
use cs444_operating_systems.Slob.Segment.{Blocks, Header-set_slob}
use cs444_operating_systems.Slob.State.{Slob, Size, page_of, push, set_slob_page_free}
use cs444_operating_systems.Slob.Cover.{inside, covers, total}
use cs444_operating_systems.Prelude.Bits.{pow_positive}
use cs444_operating_systems.Slob.PageAlloc.{align_up, delta_at}
use cs444_operating_systems.Slob.PageAlloc.Align.{align_up-multiple, pow-divides}
use cs444_operating_systems.Slob.PageAlloc.Correct.{IsPage, Taken}
use cs444_operating_systems.Slob.Heap.{
  OnList, IsHeap, update, IsPage-range, IsPage-frame, push-All, slab-Taken,
}
use cs444_operating_systems.Slob.Alloc.{new_page}
use cs444_operating_systems.Slob.Alloc.Search.{Allocated, Taken-Allocated, start_page}

-- A multiple of a power of two is aligned already.
align_up-mul : (j k : ℕ) → align_up (j * 2 ^ k) (2 ^ k) ≡ j * 2 ^ k
align_up-mul j k =
    let some_bytes = pow_positive k in
    align_up-multiple k (j * 2 ^ k)
    ∙ rw
        (
          mul-add-div_right some_bytes j (2 ^ k - 1),
          div-eq_of_lt {n = 2 ^ k - 1} {m = 2 ^ k} (omega (arith, some_bytes)),
        )
        (omega arith)

-- A page's start needs no units in front of it, for an alignment that divides the page size.
pub delta_at-page : (sp k : ℕ) → k ≤ 12 → delta_at (2 ^ k) (sp * 2048) ≡ 0
unfolding delta_at
delta_at-page sp k high = elim (Bool-cases (2 ^ k == 0)) [
  | inl none_asked ↦ rw none_asked
  | inr asked ↦
      let (j, e) = pow-divides k 12 high in
      let multiple : 2 * (sp * 2048) ≡ sp * j * 2 ^ k = omega (arith, ap (λ t. sp * t) e) in
      rw (asked, multiple, align_up-mul (sp * j) k) (omega (arith, multiple))
]

-- The page `sp` that starts at `b` is not one of the heap's.
module _ (s : Slob) (bs : ℕ → Blocks) (k : Size) (sp b : ℕ) (heap : IsHeap s bs)
    (start : b ≡ sp * 2048) (unknown : (s.page sp).is_slab ≡ false) (not_null : 1 ≤ sp) where
  abbrev pub s₁ : Slob
  s₁ = new_page s k b

  abbrev pub bs₁ : ℕ → Blocks
  bs₁ = update bs sp ((b, 2048) ∷ [])

  page_b : page_of b ≡ sp
  page_b = omega arith

  f : Fits sp b page_units (b + page_units)
  f = record {
    low = omega arith;
    high = omega arith;
    some_unit = omega arith;
    behind = omega arith;
    near = omega arith;
  }

  pub new_page-IsPage : IsPage s₁.mem sp (s₁.page sp) ((b, 2048) ∷ [])
  unfolding new_page set_slob_page_free total
  new_page-IsPage =
      let h = Header-set_slob s.mem f in
      rw (page_b, ==-refl sp)
        (record {
          chain = λ free. (
            refl,
            omega arith,
            omega arith,
            omega arith,
            record { units = h.units; next = refl; short = h.short },
            (h.next ∙ ap (λ t. t + 2048) start, omega arith),
          );
          counted = refl;
          listed = refl;
        })

  new_page-other : (i : ℕ) → i ≢ sp → s₁.page i ≡ s.page i
  unfolding new_page set_slob_page_free
  new_page-other i ne = ground (arith, page_b)

  new_page-slab : (s₁.page sp).is_slab ≡ true
  unfolding new_page set_slob_page_free
  new_page-slab = ground (arith, page_b)

  pub new_page-free : (s₁.page sp).is_free ≡ true
  unfolding new_page set_slob_page_free
  new_page-free = ground (arith, page_b)

  new_page-mem : (x : ℕ) → x / 2048 ≢ sp → s₁.mem x ≡ s.mem x
  unfolding new_page set_slob_page_free
  new_page-mem x ne = set_slob-outside f s.mem x (ground arith)

  new_page-lists : (j : Size) → s₁.lists j ≡ push k sp s.lists j
  unfolding new_page set_slob_page_free
  new_page-lists j = rw page_b

  known : (i : ℕ) → (s.page i).is_slab ≡ true → i ≢ sp
  known i slab e = let slab' : (s.page sp).is_slab ≡ true = rw (sym e) slab in cc

  still_listed : (i : ℕ) → OnList s i → OnList s₁ i
  still_listed i o = record {
    slab = ap (λ pg. pg.is_slab) (new_page-other i (known i o.slab)) ∙ o.slab;
    free = ap (λ pg. pg.is_free) (new_page-other i (known i o.slab)) ∙ o.free;
  }

  pub new_page-IsHeap : IsHeap s₁ bs₁
  new_page-IsHeap = record {
    pages = λ i slab. elim (Bool-cases (sp == i)) [
      | inl e ↦ let e' : i ≡ sp = ground arith in rw (e', ==-refl sp) new_page-IsPage
      | inr e ↦
          let old =
            heap.pages i (sym (ap (λ pg. pg.is_slab) (new_page-other i (ground arith))) ∙ slab) in
          rw (e, new_page-other i (ground arith))
            (IsPage-frame s.mem s₁.mem i (s.page i) (bs i)
              (λ x c.
                new_page-mem x (ground (arith, IsPage-range s.mem i (s.page i) (bs i) x old c)))
              old)
    ];
    listed = λ j. rw (new_page-lists j) (
        push-All (OnList s₁) s.lists k sp
          (λ l. All-map _ _ still_listed (s.lists l) (heap.listed l))
          (record { slab = new_page-slab; free = new_page-free }) j);
    null = ap (λ pg. pg.is_slab) (new_page-other 0 (omega arith)) ∙ heap.null;
  }

  -- All of its units are free.
  new_page-covers : (x : ℕ) → x / 2048 ≡ sp → covers (bs₁ sp) x ≡ true
  unfolding covers
  new_page-covers x h = rw (==-refl sp) (ground arith)

  -- What is allocated from the new page is on it.
  pub new_page-start :
      (units c : ℕ) (s' : Slob) → Taken s₁ sp units (bs₁ sp) c s' → 1 ≤ units → page_of c ≡ sp
  new_page-start units c s' t some_unit =
      start_page s₁ s' bs₁ sp units c new_page-IsHeap new_page-slab some_unit t

  -- What is allocated from the new page is allocated with respect to the heap before.
  pub new_page-Allocated :
      (units c : ℕ) (s' : Slob)
      → (t : Taken s₁ sp units (bs₁ sp) c s') → 1 ≤ units
      → Allocated s bs c units s'
  new_page-Allocated units c s' t some_unit =
      let a = Taken-Allocated s₁ s' bs₁ sp units c new_page-IsHeap new_page-slab some_unit t in
      let slab₁ : (i : ℕ) → (s.page i).is_slab ≡ true → (s₁.page i).is_slab ≡ true =
        λ i slab. ap (λ pg. pg.is_slab) (new_page-other i (known i slab)) ∙ slab in
      let old : (i : ℕ) → (s.page i).is_slab ≡ true → bs₁ i ≡ bs i =
        λ i slab. let ne = known i slab in ground arith in
      record {
        blocks = a.blocks;
        heap = a.heap;
        slab = a.slab;
        in_use = a.in_use;
        fewer = λ i x slab.
            subst (λ l. covers (a.blocks i) x ≡ (covers l x && not (inside c units x))) (old i slab)
              (a.fewer i x (slab₁ i slab));
        apart = λ i x slab h o.
            let (out, same) = a.apart i x (slab₁ i slab) h (rw (old i slab) o) in
            (out, same ∙ new_page-mem x (λ e. known i slab (sym h ∙ e)));
        slabs = λ i slab. a.slabs i (slab₁ i slab);
        whole = λ i x old new h. elim (ℕ_discrete i sp) [
          | no other ↦
              let same : (s'.page i).is_slab ≡ (s.page i).is_slab =
                slab-Taken s₁ s' bs₁ sp units c new_page-IsHeap new_page-slab t i
                ∙ ap (λ pg. pg.is_slab) (new_page-other i other) in
              absurd (cc)
          | yes here ↦ (
            start_page s₁ s' bs₁ sp units c new_page-IsHeap new_page-slab some_unit t ∙ sym here,
            rw here (a.fewer sp x new_page-slab ∙ rw (new_page-covers x (h ∙ here)) refl),
          )
        ];
      }
