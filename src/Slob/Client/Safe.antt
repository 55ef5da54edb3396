-- ===== src/Slob/Client/Safe.antt =====
-- What the allocator promises a client, over any sequence of calls (CS444_project4_46/slob.c).
use cs444_operating_systems.Prelude.{
  ℕ, ◌≤◌, ◌≡◌, ◌≢◌, sym, subst, ap, true, false, inl, inr, List, [], ◌∷◌, ◌++◌, none, some, arith,
  All, All-map,
}
use cs444_operating_systems.Slob.Block.{Ptr, slob_units_of}
use cs444_operating_systems.Slob.State.{Slob, ok, page_of}
use cs444_operating_systems.Slob.Heap.{IsHeap}
use cs444_operating_systems.Slob.Free.{slob_free}
use cs444_operating_systems.Slob.Free.Heap.{FreedHeap, slob_free-FreedHeap}
use cs444_operating_systems.Slob.Alloc.Search.{Allocated}
use cs444_operating_systems.Slob.Alloc.Correct.{ZeroedOutcome, slob_alloc_lem, write-IsHeap}
use cs444_operating_systems.Slob.Client.{
  Live, holds, Client, Call, make, Step, allocate, refused, write, free,
}
use cs444_operating_systems.Slob.Client.Sound.{
  units, IsLive, Apart, Apart-sym, AllApart, IsSound, new_block-IsLive, allocated-IsLive,
  allocated-Apart, allocated-same, blocks_after, freed-IsLive, freed-same,
}

pub All-zip {ℓ} :
    {A : Type ℓ} (P Q R : A → Type 0)
    → ((x : A) → P x → Q x → R x)
    → (xs : List A) → All P xs
    → All Q xs
    → All R xs
All-zip P Q R f [] p q = tt
All-zip P Q R f (x ∷ xs) p q = (f x p.0 q.0, All-zip P Q R f xs p.1 q.1)

pub All-middle {ℓ} :
    {A : Type ℓ} (P : A → Type 0) (front : List A) (y : A) (back : List A)
    → All P (front ++ y ∷ back)
    → P y × All P (front ++ back)
All-middle P [] y back h = h
All-middle P (z ∷ front) y back h =
    let rest = All-middle P front y back h.1 in (rest.0, (h.0, rest.1))

AllApart-middle :
    (front : List Live) (y : Live) (back : List Live)
    → AllApart (front ++ y ∷ back)
    → All (Apart y) (front ++ back) × AllApart (front ++ back)
AllApart-middle [] y back h = h
AllApart-middle (z ∷ front) y back h =
    let rest = AllApart-middle front y back h.1 in
    let (zy, others) = All-middle (Apart z) front y back h.0 in
    ((Apart-sym z y zy, rest.0), (others, rest.1))

module _ (k : Client) where
  -- The blocks that a step is not about.
  abbrev pub others : {l : Client} → Step k l → List Live
  others (allocate c e) = k.live
  others (refused c e) = k.live
  others (write front y back m at outside) = front ++ back
  others (free front y back at e) = front ++ back

  abbrev pub Same : Client → Live → Type 0
  Same l z = (x : ℕ) → holds z x ≡ true → l.slob.mem x ≡ k.slob.mem x

module _ (k : Client) (sound : IsSound k) where
  open sound use {blocks, heap, live, apart}

  pub made :
      (c : Call k.slob)
      → ZeroedOutcome k.slob blocks c.size c.gfp
          (c.alloc (record (c.gfp) { is_zero = false }) 0 c.nid)
          (make c)
  made c =
      slob_alloc_lem c.page_to_nid c.alloc k.slob blocks c.size c.gfp c.align c.nid heap c.some_size
        c.small c.divides c.fresh

  pub allocated :
      (c : Call k.slob) {s' : Slob} {b : Ptr}
      → make c ≡ ok (s', some b)
      → Allocated k.slob blocks b (slob_units_of c.size) s'
  allocated c e =
      (subst
        (ZeroedOutcome k.slob blocks c.size c.gfp
          (c.alloc (record (c.gfp) { is_zero = false }) 0 c.nid))
        e (made c)).0

  pub not_served : (c : Call k.slob) {s' : Slob} → make c ≡ ok (s', none) → s' ≡ k.slob
  not_served c e =
      (subst
        (ZeroedOutcome k.slob blocks c.size c.gfp
          (c.alloc (record (c.gfp) { is_zero = false }) 0 c.nid))
        e (made c)).0

  pub freed :
      (y : Live)
      → IsLive k.slob blocks y
      → FreedHeap k.slob blocks
          (page_of y.block)
          y.block
          (units y)
          (slob_free k.slob y.block y.size)
  freed y l =
      let page_ne_zero : page_of y.block ≢ 0 = λ e.
        (let h : (k.slob.page 0).is_slab ≡ true = rw (sym e) l.slab in let g = heap.null in cc) in
      slob_free-FreedHeap k.slob blocks y.block y.size heap l.slab l.in_use l.some_size
        (ground (arith, page_ne_zero))

  -- Each step keeps it.
  module _ (front : List Live) (y : Live) (back : List Live) (at : k.live ≡ front ++ y ∷ back) where
    pub here-IsLive : IsLive k.slob blocks y × All (IsLive k.slob blocks) (front ++ back)
    here-IsLive =
        All-middle (IsLive k.slob blocks) front y back (subst (All (IsLive k.slob blocks)) at live)

    pub here-Apart : All (Apart y) (front ++ back) × AllApart (front ++ back)
    here-Apart = AllApart-middle front y back (subst AllApart at apart)

    unfoldable pub Freed-IsSound :
        (s' : Slob)
        → FreedHeap k.slob blocks (page_of y.block) y.block (units y) (ok s')
        → IsSound (record { slob = s'; live = front ++ back })
    Freed-IsSound s' h = record {
      blocks = blocks_after k.slob blocks y s' h;
      heap = heap_after s' h;
      live =
          All-zip (IsLive k.slob blocks) (Apart y) (IsLive s' (blocks_after k.slob blocks y s' h))
            (λ z l a. freed-IsLive k.slob blocks y z heap here-IsLive.0 l a s' h) (front ++ back)
            here-IsLive.1 here-Apart.0;
      apart = here-Apart.1;
    }
      where
        heap_after :
            (s' : Slob)
            → (h : FreedHeap k.slob blocks (page_of y.block) y.block (units y) (ok s'))
            → IsHeap s' (blocks_after k.slob blocks y s' h)
        heap_after s' (inl (all, r, heap')) = heap'
        heap_after s' (inr (f, some_left, heap')) = heap'

    -- The result of the free, known to be `ok s'`.
    pub freed_ok :
        {s' : Slob}
        → slob_free k.slob y.block y.size ≡ ok s'
        → FreedHeap k.slob blocks (page_of y.block) y.block (units y) (ok s')
    freed_ok e =
        subst (FreedHeap k.slob blocks (page_of y.block) y.block (units y)) e
          (freed y here-IsLive.0)

  -- So does an allocation, however it is made.
  unfoldable pub Allocated-IsSound :
      (s' : Slob) (b size : ℕ)
      → 1 ≤ size
      → Allocated k.slob blocks b (slob_units_of size) s'
      → IsSound (record { slob = s'; live = record { block = b; size = size } ∷ k.live })
  Allocated-IsSound s' b size some_size a = record {
    blocks = a.blocks;
    heap = a.heap;
    live = (
      new_block-IsLive k.slob s' blocks b size some_size a,
      All-map _ _ (allocated-IsLive k.slob s' blocks b size some_size a) k.live live,
    );
    apart = (All-map _ _ (allocated-Apart k.slob s' blocks b size some_size a) k.live live, apart);
  }

  unfoldable pub Step-IsSound : {l : Client} → Step k l → IsSound l
  Step-IsSound (allocate {s'} {b} c e) = Allocated-IsSound s' b c.size c.some_size (allocated c e)
  Step-IsSound (refused {s'} c e) = record {
    blocks = blocks;
    heap = subst (λ s. IsHeap s blocks) (sym (not_served c e)) heap;
    live = subst (λ s. All (IsLive s blocks) k.live) (sym (not_served c e)) live;
    apart = apart;
  }
  Step-IsSound (write front y back m at outside) = record {
    blocks = blocks;
    heap =
        write-IsHeap k.slob blocks y.block (units y) m (here-IsLive front y back at).0.in_use
          outside heap;
    live =
        All-map _ _ (λ z l. record { slab = l.slab; in_use = l.in_use; some_size = l.some_size })
          k.live live;
    apart = apart;
  }
  Step-IsSound (free {s'} front y back at e) =
      Freed-IsSound front y back at s' (freed_ok front y back at e)

  pub Step-Same : {l : Client} (st : Step k l) → All (Same k l) (others k st)
  Step-Same (allocate {s'} {b} c e) =
      All-map _ _ (allocated-same k.slob s' blocks b c.size c.some_size (allocated c e)) k.live live
  Step-Same (refused {s'} c e) =
      All-map _ _ (λ z l x h. ap (λ s. s.mem x) (not_served c e)) k.live live
  Step-Same (write front y back m at outside) =
      All-map _ _ (λ z a x h. outside x (Apart-sym y z a x h)) (front ++ back)
        (here-Apart front y back at).0
  Step-Same (free {s'} front y back at e) =
      All-zip (IsLive k.slob blocks) (Apart y) _
        (λ z l a.
          freed-same k.slob blocks y z heap (here-IsLive front y back at).0 l a s'
            (freed_ok front y back at e))
        (front ++ back) (here-IsLive front y back at).1 (here-Apart front y back at).0
