-- ===== src/Slob/PageAlloc/Carve.antt =====
-- `carve` of `slob_page_alloc`: the block is taken out of the free list, and the unaligned head
-- and the rest behind it stay.
use mathlib.Core.List.{append_assoc}
use cs444_operating_systems.Prelude.{
  ℕ, ◌+◌, ◌-◌, ◌*◌, ◌≤◌, ◌≡◌, refl, sym, subst, inl, inr, true, false, [], ◌∷◌, ◌++◌, none, some,
  arith, if◌then◌else◌, ◌==◌, Bool-cases, ◌∙◌,
}
use cs444_operating_systems.Slob.Block.{Ptr, Mem, set_slob, slob_units, slob_next}
use cs444_operating_systems.Slob.BlockLaws.{Fits, set_slob-outside}
use cs444_operating_systems.Slob.Segment.{
  Blocks, Header, Seg, Header-frame, Header-set_slob, Seg-frame, Seg-widen, Seg-range, Seg-first,
  Seg-append, Seg-split,
}
use cs444_operating_systems.Slob.Cover.{covers, covers-append}
use cs444_operating_systems.Slob.PageAlloc.{Candidate, carve, take_units}
use cs444_operating_systems.Slob.PageAlloc.Best.{last_ptr, last_ptr-snoc}
use cs444_operating_systems.Slob.PageAlloc.Relink.{
  rest_of, Becomes, SameOutside, take_units-Becomes,
}

-- The units of a block in front of the aligned address.
abbrev pub head_of : (c delta : ℕ) → Blocks
head_of c delta = if delta == 0 then [] else (c, delta) ∷ []

-- What the block `c` of `n` units leaves on the free list.
abbrev pub left_of : (c n delta units : ℕ) → Blocks
left_of c n delta units = head_of c delta ++ rest_of (c + delta) (n - delta) units

module _ (m : Mem) (g lo : ℕ) (p units n : ℕ) (b : Candidate) (front back : Blocks)
    (in_page : g * 2048 ≤ lo)
    (free_list : Seg m lo (g * 2048 + 2049) p (front ++ (b.cur, n) ∷ back) (g * 2048 + 2048))
    (prev : b.prev ≡ last_ptr none front) (some_unit : 1 ≤ units) (room : units + b.delta ≤ n) where
  parts :
      Seg m lo b.cur p front b.cur
      × Seg m b.cur (g * 2048 + 2049) b.cur ((b.cur, n) ∷ back) (g * 2048 + 2048)
  parts = Seg-split m lo (g * 2048 + 2049) p (g * 2048 + 2048) front b.cur n back free_list

  next : Ptr
  next = slob_next m b.cur

  h : Header m b.cur n (slob_next m b.cur)
  h = parts.1.4

  carve_whole :
      Becomes m g lo
        (b.cur + n)
        ((b.cur, n) ∷ front)
        (front ++ (rest_of b.cur n units ++ back))
        (take_units m p b.prev b.cur n units)
  carve_whole = rw prev (
      take_units-Becomes m g lo b.cur p b.cur b.cur n units (slob_next m b.cur) front back in_page
        parts.0 (omega arith) (Seg-range m lo b.cur p b.cur front parts.0) h some_unit (omega arith)
        (omega (arith, parts.1.3)) parts.1.5)

  -- The block is first split at the aligned address `t`.
  module _ (t : ℕ) (ahead : t ≡ b.cur + b.delta) (split_head : 1 ≤ b.delta) where
    abbrev split₁ : Mem
    split₁ = set_slob m t (n - b.delta) (slob_next m b.cur)

    abbrev split₂ : Mem
    split₂ = set_slob split₁ b.cur b.delta t

    after : (b.cur + n + 1 ≤ slob_next m b.cur + 1) × (slob_next m b.cur ≤ g * 2048 + 2048)
    after =
        Seg-first m (b.cur + n + 1) (g * 2048 + 2049) (slob_next m b.cur) (g * 2048 + 2048) back
          parts.1.5 (omega arith)

    low : lo ≤ b.cur
    low = Seg-range m lo b.cur p b.cur front parts.0

    fits₁ : Fits g t (n - b.delta) (slob_next m b.cur)
    fits₁ = record {
      low = omega (arith, low);
      high = omega (arith, parts.1.3);
      some_unit = omega arith;
      behind = omega (arith, after);
      near = after.1;
    }

    fits₂ : Fits g b.cur b.delta t
    fits₂ = record {
      low = omega (arith, low);
      high = omega (arith, parts.1.3);
      some_unit = split_head;
      behind = omega arith;
      near = omega (arith, parts.1.3);
    }

    same₂ : SameOutside b.cur (b.cur + n) m split₂
    same₂ x o =
        set_slob-outside fits₂ split₁ x (ground arith) ∙ set_slob-outside fits₁ m x (ground arith)

    front₂ : Seg split₂ lo (t + 1) p (front ++ (b.cur, b.delta) ∷ []) t
    front₂ =
        let h₂ = Header-set_slob split₁ fits₂ in
        Seg-append split₂ lo b.cur (t + 1) p b.cur t front ((b.cur, b.delta) ∷ [])
          (Seg-frame m split₂ lo b.cur p b.cur front (λ x l k. same₂ x (inl (omega arith))) parts.0)
          (
            refl,
            omega arith,
            split_head,
            omega arith,
            record { units = h₂.units; next = refl; short = h₂.short },
            (h₂.next, omega arith),
          )

    header₂ : Header split₂ t (n - b.delta) (slob_next m b.cur)
    header₂ =
        Header-frame (λ x l k. set_slob-outside fits₂ split₁ x (inr (omega arith))) (omega arith)
          (Header-set_slob m fits₁)

    back₂ :
        Seg split₂
          (t + (n - b.delta) + 1)
          (g * 2048 + 2049)
          (slob_next m b.cur)
          back
          (g * 2048 + 2048)
    back₂ =
        Seg-frame m split₂ (t + (n - b.delta) + 1) (g * 2048 + 2049) (slob_next m b.cur)
          (g * 2048 + 2048) back (λ x l k. same₂ x (inr (omega arith)))
          (Seg-widen m (b.cur + n + 1) (t + (n - b.delta) + 1) (g * 2048 + 2049) (g * 2048 + 2049)
            (slob_next m b.cur) (g * 2048 + 2048) back (omega arith) (omega arith) parts.1.5)

    tail₂ :
        Becomes split₂ g lo
          (t + (n - b.delta))
          ((t, n - b.delta) ∷ (front ++ (b.cur, b.delta) ∷ []))
          ((front ++ (b.cur, b.delta) ∷ []) ++ (rest_of t (n - b.delta) units ++ back))
          (take_units split₂ p
            (last_ptr none (front ++ (b.cur, b.delta) ∷ []))
            t
            (n - b.delta)
            units)
    tail₂ =
        take_units-Becomes split₂ g lo (t + 1) p t t (n - b.delta) units (slob_next m b.cur)
          (front ++ (b.cur, b.delta) ∷ []) back in_page front₂ (omega arith) (omega (arith, low))
          header₂ some_unit (omega arith) (omega (arith, parts.1.3)) back₂

    carve_tail :
        Becomes m g lo
          (b.cur + n)
          ((b.cur, n) ∷ front)
          (front ++ (b.cur, b.delta) ∷ (rest_of t (n - b.delta) units ++ back))
          (take_units split₂ p (some b.cur) t (slob_units split₂ t) units)
    unfolding covers
    carve_tail =
        let rest = rest_of t (n - b.delta) units ++ back in
        let moved : Becomes split₂ g lo (t + (n - b.delta))
            ((t, n - b.delta) ∷ (front ++ (b.cur, b.delta) ∷ []))
            ((front ++ (b.cur, b.delta) ∷ []) ++ rest)
            (take_units split₂ p (some b.cur) t (n - b.delta) units) =
          subst
            (λ o.
              Becomes split₂ g lo (t + (n - b.delta))
                ((t, n - b.delta) ∷ (front ++ (b.cur, b.delta) ∷ []))
                ((front ++ (b.cur, b.delta) ∷ []) ++ rest)
                (take_units split₂ p o t (n - b.delta) units))
            (last_ptr-snoc none front b.cur b.delta) tail₂ in
        rw header₂.units (
          rw append_assoc at moved.0,
          λ x o. moved.1 x (ground (arith, low)) ∙ same₂ x (ground (arith, low)),
          λ x o.
              moved.2 x (ground (arith, covers-append front ((b.cur, b.delta) ∷ []) x))
              ∙ same₂ x (ground arith),
        )

  left_of_none : (b.delta == 0) ≡ true → left_of b.cur n b.delta units ≡ rest_of b.cur n units
  left_of_none e = ground arith

  left_of_some :
      (t : ℕ)
      → t ≡ b.cur + b.delta
      → (b.delta == 0) ≡ false
      → left_of b.cur n b.delta units ≡ (b.cur, b.delta) ∷ rest_of t (n - b.delta) units
  left_of_some t e f = ground arith

  -- The result of `carve` leaves `rest` in the place of the block.
  abbrev Carved : Blocks → Type 0
  Carved rest =
      Becomes m g lo (b.cur + n) ((b.cur, n) ∷ front) (front ++ (rest ++ back))
        ((carve m p units b).0, (carve m p units b).1)
      × ((carve m p units b).2 ≡ b.cur + b.delta)

  -- The list, the block and the writes after `carve`.
  pub carve-Becomes :
      (1 ≤ b.delta → b.aligned ≡ b.cur + b.delta) → Carved (left_of b.cur n b.delta units)
  unfolding carve
  carve-Becomes ahead = elim (Bool-cases (b.delta == 0)) [
    | inl e ↦ subst Carved (sym (left_of_none e)) (rw (e, h.units) (carve_whole, ground arith))
    | inr e ↦
        let t_eq = ahead (ground arith) in
        subst Carved (sym (left_of_some b.aligned t_eq e))
          (rw (e, h.units) (carve_tail b.aligned t_eq (ground arith), t_eq))
  ]
