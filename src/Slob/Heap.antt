-- ===== src/Slob/Heap.antt =====
-- The invariant of the whole allocator (CS444_project4_46/slob.c): every page that it holds is well
-- formed, and its lists hold pages that are partially free.
use cs444_operating_systems.Prelude.{
  ℕ, ◌+◌, ◌*◌, ◌/◌, ◌≡◌, refl, sym, ◌≢◌, inl, inr, Bool, true, false, List, [], ◌∷◌, arith,
  if◌then◌else◌, ◌==◌, All, Bool-cases, ==-refl, ◌∙◌, ap, All-map,
}
use cs444_operating_systems.Slob.Block.{Ptr, Mem, slob_next}
use cs444_operating_systems.Slob.Segment.{Blocks, Header, Seg, Header-frame}
use cs444_operating_systems.Slob.State.{Slob, Page, Size, small, medium, large, remove, push}
use cs444_operating_systems.Slob.Cover.{covers, covers_range}
use cs444_operating_systems.Slob.PageAlloc.Correct.{IsPage, Taken}

-- A page on a list.
pub record OnList (s : Slob) (i : ℕ) : Type 0 where
  pub slab : (s.page i).is_slab ≡ true
  pub free : (s.page i).is_free ≡ true

-- `bs i` are the free blocks of page `i`.
pub record IsHeap (s : Slob) (bs : ℕ → Blocks) : Type 0 where
  pub pages : (i : ℕ) → (s.page i).is_slab ≡ true → IsPage s.mem i (s.page i) (bs i)
  pub listed : (k : Size) → All (OnList s) (s.lists k)
  -- The page at NULL is none of them.
  pub null : (s.page 0).is_slab ≡ false

abbrev pub update : (ℕ → Blocks) → ℕ → Blocks → ℕ → Blocks
update bs sp cs i = if sp == i then cs else bs i

-- A free list is unchanged where the memory of its own blocks is.
Seg-frame_cover :
    (m m' : Mem) (lo hi : ℕ) (p r : Ptr) (bs : Blocks)
    → ((x : ℕ) → covers bs x ≡ true → m' x ≡ m x)
    → Seg m lo hi p bs r
    → Seg m' lo hi p bs r
unfolding covers
Seg-frame_cover m m' lo hi p r [] same s = s
Seg-frame_cover m m' lo hi p r ((a, n) ∷ bs) same (e, low, some_unit, high, h, rest) =
    let h' : Header m' a n (slob_next m a) =
      Header-frame (λ x l k. same x (ground arith)) some_unit h in
    (
      e,
      low,
      some_unit,
      high,
      record { units = h'.units; next = refl; short = h'.short },
      rw h'.next (
          Seg-frame_cover m m' (a + n + 1) hi (slob_next m a) r bs (λ x c. same x (ground arith))
            rest),
    )

pub IsPage-frame :
    (m m' : Mem) (g : ℕ) (pg : Page) (bs : Blocks)
    → ((x : ℕ) → covers bs x ≡ true → m' x ≡ m x)
    → IsPage m g pg bs
    → IsPage m' g pg bs
IsPage-frame m m' g pg bs same page = record {
  chain = λ f.
      Seg-frame_cover m m' (g * 2048) (g * 2048 + 2049) pg.freelist (g * 2048 + 2048) bs same
        (page.chain f);
  counted = page.counted;
  listed = page.listed;
}

-- The free units of a page lie in the page.
pub IsPage-range :
    (m : Mem) (g : ℕ) (pg : Page) (bs : Blocks) (x : ℕ)
    → IsPage m g pg bs
    → covers bs x ≡ true
    → x / 2048 ≡ g
unfolding covers
IsPage-range m g pg [] x page c = absurd (cc)
IsPage-range m g pg ((a, n) ∷ bs) x page c =
    let range =
      covers_range m (g * 2048) (g * 2048 + 2049) pg.freelist (g * 2048 + 2048) ((a, n) ∷ bs) x
        (page.chain page.listed) (unfold covers in c) in
    omega (arith, range)

pub All-remove {ℓ} :
    (P : ℕ → Type ℓ) (sp : ℕ) (l : List ℕ) → All P l → All (λ i. P i × (i ≢ sp)) (remove sp l)
All-remove P sp [] h = tt
All-remove P sp (i ∷ l) h = elim (Bool-cases (i == sp)) [
  | inl e ↦ rw e (All-remove P sp l h.1)
  | inr e ↦ rw e ((h.0, ground arith), All-remove P sp l h.1)
]

pub push-All {ℓ} :
    (P : ℕ → Type ℓ) (lists : Size → List ℕ) (k : Size) (sp : ℕ)
    → ((j : Size) → All P (lists j))
    → P sp
    → (j : Size) → All P (push k sp lists j)
push-All P lists small sp h hl small = (hl, h small)
push-All P lists small sp h hl medium = h medium
push-All P lists small sp h hl large = h large
push-All P lists medium sp h hl small = h small
push-All P lists medium sp h hl medium = (hl, h medium)
push-All P lists medium sp h hl large = h large
push-All P lists large sp h hl small = h small
push-All P lists large sp h hl medium = h medium
push-All P lists large sp h hl large = (hl, h large)

module _ (s s' : Slob) (bs : ℕ → Blocks) (sp units b : ℕ) (heap : IsHeap s bs)
    (slab : (s.page sp).is_slab ≡ true) (t : Taken s sp units (bs sp) b s') where
  -- Other pages keep their flag, and so does this one.
  pub slab-Taken : (i : ℕ) → (s'.page i).is_slab ≡ (s.page i).is_slab
  slab-Taken i = elim (Bool-cases (i == sp)) [
    | inl e ↦ let e' : i ≡ sp = ground arith in rw e' t.same_slab
    | inr e ↦ ap (λ pg. pg.is_slab) (t.same_page i (ground arith))
  ]

  OnList-other : (i : ℕ) → OnList s i → i ≢ sp → OnList s' i
  OnList-other i o ne = record {
    slab = slab-Taken i ∙ o.slab;
    free = ap (λ pg. pg.is_free) (t.same_page i ne) ∙ o.free;
  }

  listed-Taken :
      (free : Bool) → (s'.page sp).is_free ≡ free → (k : Size) → All (OnList s') (s'.lists k)
  listed-Taken true f k =
      rw (t.lists k, f)
        (All-map _ _
          (λ i o. elim (Bool-cases (i == sp)) [
            | inl e ↦
                let e' : i ≡ sp = ground arith in
                rw e' (record { slab = slab-Taken sp ∙ slab; free = f })
            | inr e ↦ OnList-other i o (ground arith)
          ])
          (s.lists k) (heap.listed k))
  listed-Taken false f k =
      rw (t.lists k, f)
        (All-map _ _ (λ i (o, ne). OnList-other i o ne) (remove sp (s.lists k))
          (All-remove (OnList s) sp (s.lists k) (heap.listed k)))

  in_sp : (x : ℕ) → covers (bs sp) x ≡ true → x / 2048 ≡ sp
  in_sp x c = IsPage-range s.mem sp (s.page sp) (bs sp) x (heap.pages sp slab) c

  pages-Taken :
      (i : ℕ) → (s'.page i).is_slab ≡ true → IsPage s'.mem i (s'.page i) (update bs sp t.left i)
  pages-Taken i f = elim (Bool-cases (sp == i)) [
    | inl e ↦ let e' : i ≡ sp = ground arith in rw (e', ==-refl sp) t.page
    | inr e ↦
        let ne : i ≢ sp = ground arith in
        let old = heap.pages i (sym (slab-Taken i) ∙ f) in
        rw (e, t.same_page i ne)
          (IsPage-frame s.mem s'.mem i (s.page i) (bs i)
            (λ x c.
              t.same_mem x (ground (arith, in_sp x, IsPage-range s.mem i (s.page i) (bs i) x old)))
            old)
  ]

  -- Taking a block from a page of the heap leaves a heap.
  pub IsHeap-Taken : IsHeap s' (update bs sp t.left)
  IsHeap-Taken = record {
    pages = pages-Taken;
    listed = listed-Taken _ refl;
    null = slab-Taken 0 ∙ heap.null;
  }
