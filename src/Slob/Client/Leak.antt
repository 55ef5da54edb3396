-- ===== src/Slob/Client/Leak.antt =====
-- No unit of a page is lost, and no page is kept for nothing (CS444_project4_46/slob.c).
use cs444_operating_systems.Prelude.{
  ℕ, ◌+◌, ◌*◌, ◌/◌, ◌≤◌, ◌<◌, ◌≡◌, ◌≢◌, refl, sym, subst, ◌∙◌, ap, Bool, true, false, List, [], ◌∷◌,
  ◌++◌, inl, inr, arith, All, Bool-cases, ◌||◌, ◌==◌, ==-refl, ne→==,
}
use native.Mathlib.Decide.{ℕ_discrete}
use cs444_operating_systems.Slob.Block.{Ptr, slob_units_of}
use cs444_operating_systems.Slob.Alloc.Search.{Allocated}
use cs444_operating_systems.Slob.Segment.{Blocks}
use cs444_operating_systems.Slob.State.{Slob, ok, page_of}
use cs444_operating_systems.Slob.Cover.{covers}
use cs444_operating_systems.Slob.Heap.{IsHeap, update}
use cs444_operating_systems.Slob.Free.Heap.{FreedHeap}
use cs444_operating_systems.Slob.Client.{
  Live, holds, Client, Step, allocate, refused, write, free, Steps, here, later,
}
use cs444_operating_systems.Slob.Client.Count.{count-le, count-some, page-count}
use cs444_operating_systems.Slob.Client.Sound.{units, IsLive, IsSound, blocks_after, holds-range}
use cs444_operating_systems.Slob.Client.Safe.{
  allocated, not_served, here-IsLive, freed_ok, Freed-IsSound, Allocated-IsSound, Step-IsSound,
}
use cs444_operating_systems.Slob.Client.Promise.{fresh_client, fresh_client-IsSound}

-- Some block has the unit.
abbrev pub held : List Live → ℕ → Bool
held [] x = false
held (y ∷ ys) x = holds y x || held ys x

-- Some block is on the page.
abbrev pub occupied : List Live → ℕ → Bool
occupied [] i = false
occupied (y ∷ ys) i = (page_of y.block == i) || occupied ys i

pub record NoLeak (k : Client) (bs : ℕ → Blocks) : Type 0 where
  pub accounted :
      (i x : ℕ)
      → (k.slob.page i).is_slab ≡ true
      → x / 2048 ≡ i
      → (covers (bs i) x || held k.live x) ≡ true
  pub used : (i : ℕ) → (k.slob.page i).is_slab ≡ true → occupied k.live i ≡ true

held-middle :
    (front : List Live) (y : Live) (back : List Live) (x : ℕ)
    → held (front ++ y ∷ back) x ≡ (holds y x || held (front ++ back) x)
held-middle [] y back x = refl
held-middle (z ∷ front) y back x = let h = held-middle front y back x in ground arith

occupied-middle :
    (front : List Live) (y : Live) (back : List Live) (i : ℕ)
    → occupied (front ++ y ∷ back) i ≡ ((page_of y.block == i) || occupied (front ++ back) i)
occupied-middle [] y back i = refl
occupied-middle (z ∷ front) y back i = let h = occupied-middle front y back i in ground arith

update-at : (bs : ℕ → Blocks) (sp : ℕ) (cs : Blocks) → update bs sp cs sp ≡ cs
update-at bs sp cs = rw (==-refl sp) refl

-- The page of a unit that a block has is occupied.
held-occupied :
    (s : Slob) (bs : ℕ → Blocks) (ys : List Live) (x : ℕ)
    → All (IsLive s bs) ys
    → held ys x ≡ true
    → occupied ys (x / 2048) ≡ true
held-occupied s bs [] x l h = h
held-occupied s bs (y ∷ ys) x l h = elim (Bool-cases (holds y x)) [
  | inl ours ↦ let at = holds-range y l.0 x ours in rw (at, ==-refl (page_of y.block)) refl
  | inr other ↦ let rest = held-occupied s bs ys x l.1 (ground arith) in ground arith
]

module _ (k : Client) (sound : IsSound k) (none_lost : NoLeak k sound.blocks) where
  open sound use {blocks, heap, live, apart}
  open none_lost use {accounted, used}

  -- A block freed, on a page that is not wholly free then.
  module _ (front : List Live) (y : Live) (back : List Live) (at : k.live ≡ front ++ y ∷ back)
      (s' : Slob) where
    before :
        (i x : ℕ)
        → (k.slob.page i).is_slab ≡ true
        → x / 2048 ≡ i
        → (covers (blocks i) x || (holds y x || held (front ++ back) x)) ≡ true
    before i x slab h =
        subst (λ b. (covers (blocks i) x || b) ≡ true) (held-middle front y back x)
          (subst (λ l. (covers (blocks i) x || held l x) ≡ true) at (accounted i x slab h))

    before_used :
        (i : ℕ)
        → (k.slob.page i).is_slab ≡ true
        → ((page_of y.block == i) || occupied (front ++ back) i) ≡ true
    before_used i slab =
        sym (occupied-middle front y back i) ∙ subst (λ l. occupied l i ≡ true) at (used i slab)

    abbrev sp : ℕ
    sp = page_of y.block

    ly : IsLive k.slob blocks y
    ly = (here-IsLive k sound front y back at).0

    -- A unit of the block is not on another page.
    not_here : (i x : ℕ) → x / 2048 ≡ i → i ≢ sp → holds y x ≡ false
    not_here i x h other = elim (Bool-cases (holds y x)) [
      | inr out ↦ out
      | inl ours ↦ absurd (other (sym h ∙ holds-range y ly x ours))
    ]

    Freed-NoLeak :
        (h : FreedHeap k.slob blocks sp y.block (units y) (ok s'))
        → All (IsLive s' (blocks_after k.slob blocks y s' h)) (front ++ back)
        → NoLeak (record { slob = s'; live = front ++ back }) (blocks_after k.slob blocks y s' h)
    Freed-NoLeak (inl (all, r, heap')) rest = record {
      accounted = λ i x slab h.
          let other = gone i slab in
          let old = before i x (was_slab i slab) h in
          let out = not_here i x h other in ground arith;
      used = λ i slab.
          let other : (sp == i) ≡ false = ne→== sp i (λ e. gone i slab (sym e)) in
          let old = before_used i (was_slab i slab) in ground arith;
    }
      where
        gone : (i : ℕ) → (s'.page i).is_slab ≡ true → i ≢ sp
        gone i slab e =
            let h : (s'.page sp).is_slab ≡ true = subst (λ j. (s'.page j).is_slab ≡ true) e slab in
            let g = r.not_slab in cc

        was_slab : (i : ℕ) → (s'.page i).is_slab ≡ true → (k.slob.page i).is_slab ≡ true
        was_slab i slab = sym (ap (λ pg. pg.is_slab) (r.same_page i (gone i slab))) ∙ slab
    Freed-NoLeak (inr (f, some_left, heap')) rest = record {
      accounted = account;
      used = λ i slab. elim (ℕ_discrete i sp) [
        | yes same ↦ rw same (on_page left.0 left.1 left.2 left.3)
        | no other ↦
            let old = before_used i (was_slab i slab) in
            let apart : (sp == i) ≡ false = ne→== sp i (λ e. other (sym e)) in ground arith
      ];
    }
      where
        was_slab : (i : ℕ) → (s'.page i).is_slab ≡ true → (k.slob.page i).is_slab ≡ true
        was_slab i slab = elim (ℕ_discrete i sp) [
          | yes same ↦ rw same ly.slab
          | no other ↦ sym (ap (λ pg. pg.is_slab) (f.same_page i other)) ∙ slab
        ]

        account :
            (i x : ℕ)
            → (s'.page i).is_slab ≡ true
            → x / 2048 ≡ i
            → (covers (update blocks sp f.blocks i) x || held (front ++ back) x) ≡ true
        account i x slab h = elim (ℕ_discrete i sp) [
          | yes same ↦
              let old = before sp x ly.slab (h ∙ same) in
              rw (same, ==-refl sp) (let e = f.freed x in ground arith)
          | no other ↦
              let old = before i x (was_slab i slab) h in
              let out = not_here i x h other in rw (ne→== sp i (λ e. other (sym e))) (ground arith)
        ]

        on_page :
            (x : ℕ)
            → sp * 2048 ≤ x
            → x < sp * 2048 + 2048
            → covers f.blocks x ≡ false
            → occupied (front ++ back) sp ≡ true
        on_page x low high out =
            let at_sp : x / 2048 ≡ sp = omega arith in
            let a =
              subst (λ bs. (covers bs x || held (front ++ back) x) ≡ true)
                (update-at blocks sp f.blocks) (account sp x (f.same_slab ∙ ly.slab) at_sp) in
            subst (λ i. occupied (front ++ back) i ≡ true) at_sp
              (held-occupied s' _ (front ++ back) x rest (ground arith))

        left : (x : ℕ) × (sp * 2048 ≤ x) × (x < sp * 2048 + 2048) × (covers f.blocks x ≡ false)
        left = count-some (sp * 2048) 2048 (covers f.blocks) (
            let e = page-count s'.mem sp (s'.page sp) f.blocks f.page in
            let most = count-le (sp * 2048) 2048 (covers f.blocks) in omega (arith, f.more))

  pub Allocated-NoLeak :
      (s' : Slob) (b : Ptr) (size : ℕ)
      → (a : Allocated k.slob blocks b (slob_units_of size) s')
      → NoLeak (record { slob = s'; live = record { block = b; size = size } ∷ k.live }) a.blocks
  Allocated-NoLeak s' b size a = record {
    accounted = λ i x slab h. elim (Bool-cases (k.slob.page i).is_slab) [
      | inl old ↦ let e = a.fewer i x old in let was = accounted i x old h in ground arith
      | inr new ↦ let e = (a.whole i x new slab h).1 in ground arith
    ];
    used = λ i slab. elim (Bool-cases (k.slob.page i).is_slab) [
      | inl old ↦ rw (used i old) (ground arith)
      | inr new ↦ let e = (a.whole i (i * 2048) new slab (omega arith)).0 in rw (e, ==-refl i) refl
    ];
  }

  pub Step-NoLeak : {l : Client} (st : Step k l) → NoLeak l (Step-IsSound k sound st).blocks
  unfolding Step-IsSound Freed-IsSound Allocated-IsSound
  Step-NoLeak (allocate {s'} {b} c e) = Allocated-NoLeak s' b c.size (allocated k sound c e)
  Step-NoLeak (refused {s'} c e) =
      subst (λ s. NoLeak (record { slob = s; live = k.live }) blocks) (sym (not_served k sound c e))
        (record { accounted = accounted; used = used })
  Step-NoLeak (write front y back m at outside) = record { accounted = accounted; used = used }
  Step-NoLeak (free {s'} front y back at e) =
      Freed-NoLeak front y back at s' (freed_ok k sound front y back at e)
        (Freed-IsSound k sound front y back at s' (freed_ok k sound front y back at e)).live

-- A sound client of an allocator that has lost nothing.
pub record IsTight (k : Client) : Type 0 where
  pub sound : IsSound k
  pub none_lost : NoLeak k sound.blocks

-- From an allocator that holds no page, whatever a client allocates, writes and frees: every unit of
-- a page that the allocator holds is on its free list or in a block of the client, and every such
-- page has a block of the client on it.
pub Steps-IsTight :
    {s : Slob} {k : Client} (bs : ℕ → Blocks)
    → IsHeap s bs
    → ((i : ℕ) → (s.page i).is_slab ≡ false)
    → Steps (fresh_client s) k
    → IsTight k
unfolding fresh_client-IsSound
Steps-IsTight bs heap unused here = record {
  sound = fresh_client-IsSound _ bs heap;
  none_lost = record {
    accounted = λ i x slab h. absurd (let no_slab = unused i in cc);
    used = λ i slab. absurd (let no_slab = unused i in cc);
  };
}
Steps-IsTight bs heap unused (later {l} steps step) =
    let before = Steps-IsTight bs heap unused steps in
    record {
      sound = Step-IsSound l before.sound step;
      none_lost = Step-NoLeak l before.sound before.none_lost step;
    }

-- So a client that has freed all blocks it was given leaves the allocator without a page.
pub Steps-released :
    {s : Slob} {k : Client} (bs : ℕ → Blocks)
    → IsHeap s bs
    → ((i : ℕ) → (s.page i).is_slab ≡ false)
    → Steps (fresh_client s) k
    → k.live ≡ []
    → (i : ℕ) → (k.slob.page i).is_slab ≡ false
Steps-released {k} bs heap unused steps all_freed i = elim (Bool-cases (k.slob.page i).is_slab) [
  | inr gone ↦ gone
  | inl slab ↦
      let u =
        subst (λ l. occupied l i ≡ true) all_freed
          ((Steps-IsTight bs heap unused steps).none_lost.used i slab) in
      absurd (cc)
]
