-- ===== src/Slob/PageAlloc/Relink.antt =====
-- `relink` and `take_units` of `slob_page_alloc` on a free list.
use cs444_operating_systems.Prelude.{
  ℕ, ◌+◌, ◌-◌, ◌*◌, ◌≤◌, ◌<◌, ◌≡◌, refl, sym, subst, ◌⊎◌, inl, inr, false, [], ◌∷◌, ◌++◌, none,
  some, arith, if◌then◌else◌, ◌==◌, Bool-cases, ◌∙◌,
}
use cs444_operating_systems.Slob.Block.{Ptr, Mem, set_slob, slob_next}
use cs444_operating_systems.Slob.BlockLaws.{Fits, set_slob-outside}
use cs444_operating_systems.Slob.Segment.{
  Blocks, Header, Seg, Header-frame, Header-set_slob, Seg-frame, Seg-widen, Seg-first, Seg-append,
}
use cs444_operating_systems.Slob.Cover.{covers}
use cs444_operating_systems.Slob.PageAlloc.{relink, take_units}
use cs444_operating_systems.Slob.PageAlloc.Best.{last_ptr}

last_ptr-some : (b : Ptr) (bs : Blocks) → (y : Ptr) × (last_ptr (some b) bs ≡ some y)
last_ptr-some b [] = (b, refl)
last_ptr-some b ((a, n) ∷ bs) = last_ptr-some a bs

-- `m'` differs from `m` at most from `lo` on and below `hi`.
abbrev pub SameOutside : (lo hi : ℕ) → Mem → Mem → Type 0
SameOutside lo hi m m' = (x : ℕ) → (x < lo) ⊎ (hi ≤ x) → m' x ≡ m x

-- `m'` differs from `m` at most inside the blocks `bs`.
abbrev pub SameUncovered : Blocks → Mem → Mem → Type 0
SameUncovered bs m m' = (x : ℕ) → covers bs x ≡ false → m' x ≡ m x

-- The blocks `bs` lead to `q`, and nothing else of the page has changed.
abbrev pub Relinked : Mem → (lo mid : ℕ) → Blocks → Ptr → Mem × Ptr → Type 0
Relinked m lo mid bs q (m', p') =
    Seg m' lo mid p' bs q
    × ((x : ℕ) → (x < lo) ⊎ (mid ≤ x + 1) → m' x ≡ m x)
    × SameUncovered bs m m'

-- Relinking the last block of a list, or the list's head, leads the list to `q`.
pub relink-Seg :
    (m : Mem) (g lo mid : ℕ) (p a q : Ptr) (bs : Blocks)
    → g * 2048 ≤ lo
    → mid ≤ g * 2048 + 2049
    → mid ≤ q + 1
    → q ≤ g * 2048 + 2048
    → Seg m lo mid p bs a
    → Relinked m lo mid bs q (relink m p (last_ptr none bs) q)
unfolding relink covers
relink-Seg m g lo mid p a q [] h₁ h₂ h₃ h₄ (e, w) = ((refl, w), λ x o. refl, λ x o. refl)
relink-Seg m g lo mid p a q ((b, n) ∷ []) h₁ h₂ h₃ h₄ (e, low, some_unit, high, h, (e', w)) =
    rw h.units (
      let f : Fits g b n q = record {
        low = omega arith;
        high = omega arith;
        some_unit = some_unit;
        behind = omega arith;
        near = h₄;
      } in
      let h' = Header-set_slob m f in
      (
        (
          e,
          low,
          some_unit,
          high,
          record { units = h'.units; next = refl; short = h'.short },
          (h'.next, w),
        ),
        λ x o. set_slob-outside f m x (ground arith),
        λ x o. set_slob-outside f m x (ground arith),
      ))
relink-Seg m g lo mid p a q ((b, n) ∷ (c, k) ∷ bs) h₁ h₂ h₃ h₄ (e, low, some_unit, high, h, rest) =
    let (y, last) = last_ptr-some c bs in
    let ih : Relinked m (b + n + 1) mid ((c, k) ∷ bs) q (relink m (slob_next m b) (some y) q) =
      subst (λ o. Relinked m (b + n + 1) mid ((c, k) ∷ bs) q (relink m (slob_next m b) o q)) last
        (relink-Seg m g (b + n + 1) mid (slob_next m b) a q ((c, k) ∷ bs) (omega arith) h₂ h₃ h₄
          rest) in
    let h' : Header (relink m p (some y) q).0 b n (slob_next m b) =
      Header-frame (λ x l j. ih.1 x (inl (omega arith))) some_unit h in
    subst (λ o. Relinked m lo mid ((b, n) ∷ (c, k) ∷ bs) q (relink m p o q)) (sym last)
      (
        (
          e,
          low,
          some_unit,
          high,
          record { units = h'.units; next = refl; short = h'.short },
          rw h'.next ih.0,
        ),
        λ x o. ih.1 x (ground arith),
        λ x o. ih.2 x (ground arith),
      )

-- What is left of a block at `c` once `units` of its `avail` units are taken.
abbrev pub rest_of : (c avail units : ℕ) → Blocks
rest_of c avail units = if avail == units then [] else (c + units, avail - units) ∷ []

-- The page after a change between `lo` and `hi`, inside the blocks `old`: its free list is `bs`.
abbrev pub Becomes : Mem → (g lo hi : ℕ) → (old bs : Blocks) → Mem × Ptr → Type 0
Becomes m g lo hi old bs (m', p') =
    Seg m' lo (g * 2048 + 2049) p' bs (g * 2048 + 2048)
    × SameOutside lo hi m m'
    × SameUncovered old m m'

module _ (m : Mem) (g lo mid : ℕ) (p c₀ c avail units q : ℕ) (bs post : Blocks)
    (in_page : g * 2048 ≤ lo) (front : Seg m lo mid p bs c₀) (before : mid ≤ c + 1) (above : lo ≤ c)
    (h : Header m c avail q) (some_unit : 1 ≤ units) (room : units ≤ avail)
    (ends : c + avail ≤ g * 2048 + 2048)
    (back : Seg m (c + avail + 1) (g * 2048 + 2049) q post (g * 2048 + 2048)) where
  after : (c + avail + 1 ≤ q + 1) × (q ≤ g * 2048 + 2048)
  after = Seg-first m (c + avail + 1) (g * 2048 + 2049) q (g * 2048 + 2048) post back (omega arith)

  take_all :
      Becomes m g lo (c + avail) ((c, avail) ∷ bs) (bs ++ post) (relink m p (last_ptr none bs) q)
  unfolding covers
  take_all =
      let r =
        relink-Seg m g lo mid p c₀ q bs in_page (omega arith) (omega (arith, after)) after.1
          front in
      let m' = (relink m p (last_ptr none bs) q).0 in
      let p' = (relink m p (last_ptr none bs) q).1 in
      let back' =
        Seg-frame m m' (c + avail + 1) (g * 2048 + 2049) q (g * 2048 + 2048) post
          (λ x l k. r.1 x (inr (omega arith))) back in
      (
        Seg-append m' lo mid (g * 2048 + 2049) p' q (g * 2048 + 2048) bs post r.0 (
            Seg-widen m' (c + avail + 1) mid (g * 2048 + 2049) (g * 2048 + 2049) q (g * 2048 + 2048)
              post (omega arith) (omega arith) back'),
        λ x o. r.1 x (ground arith),
        λ x o. r.2 x (ground arith),
      )

  take_some :
      units < avail
      → let r = relink m p (last_ptr none bs) (c + units) in
        Becomes m g lo
          (c + avail)
          ((c, avail) ∷ bs)
          (bs ++ (c + units, avail - units) ∷ post)
          (set_slob r.0 (c + units) (avail - units) q, r.1)
  unfolding covers
  take_some less =
      let t : ℕ = c + units in
      let r =
        relink-Seg m g lo mid p c₀ t bs in_page (omega arith) (omega arith) (omega arith) front in
      let m₁ = (relink m p (last_ptr none bs) t).0 in
      let p' = (relink m p (last_ptr none bs) t).1 in
      let f : Fits g t (avail - units) q = record {
        low = omega arith;
        high = omega arith;
        some_unit = omega arith;
        behind = omega (arith, after);
        near = after.1;
      } in
      let m' = set_slob m₁ t (avail - units) q in
      let h' = Header-set_slob m₁ f in
      let front' =
        Seg-frame m₁ m' lo mid p' t bs (λ x l k. set_slob-outside f m₁ x (inl (omega arith))) r.0 in
      let back' =
        Seg-frame m m' (c + avail + 1) (g * 2048 + 2049) q (g * 2048 + 2048) post
          (λ x l k. set_slob-outside f m₁ x (inr (omega arith)) ∙ r.1 x (inr (omega arith))) back in
      (
        Seg-append m' lo mid (g * 2048 + 2049) p' t (g * 2048 + 2048) bs _ front' (
          refl,
          omega arith,
          omega arith,
          omega arith,
          record { units = h'.units; next = refl; short = h'.short },
          rw h'.next (
              Seg-widen m' (c + avail + 1) (t + (avail - units) + 1) (g * 2048 + 2049)
                (g * 2048 + 2049) q (g * 2048 + 2048) post (omega arith) (omega arith) back'),
        ),
        λ x o. set_slob-outside f m₁ x (ground arith) ∙ r.1 x (ground arith),
        λ x o. set_slob-outside f m₁ x (ground arith) ∙ r.2 x (ground arith),
      )

  -- Taking units of a block leaves the list without them.
  pub take_units-Becomes :
      Becomes m g lo
        (c + avail)
        ((c, avail) ∷ bs)
        (bs ++ (rest_of c avail units ++ post))
        (take_units m p (last_ptr none bs) c avail units)
  unfolding take_units
  take_units-Becomes = elim (Bool-cases (avail == units)) [
    | inl all ↦ rw (all, h.next) take_all
    | inr less ↦ rw (less, h.next) (take_some (ground arith))
  ]
