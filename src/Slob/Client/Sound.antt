-- ===== src/Slob/Client/Sound.antt =====
-- The blocks of a client are in use, and apart from one another (CS444_project4_46/slob.c).
use cs444_operating_systems.Prelude.{
  ℕ, ◌+◌, ◌*◌, ◌/◌, ◌≤◌, ◌≡◌, refl, sym, subst, ==-refl, ne→==, ◌∙◌, ap, ◌≢◌, inl, inr, true, false,
  List, [], ◌∷◌, arith, All, Bool-cases,
}
use native.Mathlib.Decide.{ℕ_discrete}
use cs444_operating_systems.Slob.Block.{slob_units_of}
use cs444_operating_systems.Slob.Segment.{Blocks}
use cs444_operating_systems.Slob.State.{Slob, ok, page_of}
use cs444_operating_systems.Slob.Cover.{covers, total}
use cs444_operating_systems.Slob.Heap.{IsHeap, update, IsPage-range}
use cs444_operating_systems.Slob.Free.Correct.{IsInUse}
use cs444_operating_systems.Slob.Free.Outcome.{Freed}
use cs444_operating_systems.Slob.Free.Heap.{FreedHeap}
use cs444_operating_systems.Slob.Alloc.Search.{Allocated}
use cs444_operating_systems.Slob.Client.{Live, holds, Client}
use cs444_operating_systems.Slob.Client.Count.{page-count, count-apart}

abbrev pub units : Live → ℕ
units y = slob_units_of y.size

-- A block that is in use, on a page of the heap.
pub record IsLive (s : Slob) (bs : ℕ → Blocks) (y : Live) : Type 0 where
  pub slab : (s.page (page_of y.block)).is_slab ≡ true
  pub in_use : IsInUse (page_of y.block) y.block (units y) (bs (page_of y.block))
  pub some_size : 1 ≤ y.size

-- No unit is in both.
abbrev pub Apart : Live → Live → Type 0
Apart y z = (x : ℕ) → holds y x ≡ true → holds z x ≡ false

abbrev pub AllApart : List Live → Type 0
AllApart [] = Unit
AllApart (y ∷ ys) = All (Apart y) ys × AllApart ys

pub record IsSound (k : Client) : Type 0 where
  pub blocks : ℕ → Blocks
  pub heap : IsHeap k.slob blocks
  pub live : All (IsLive k.slob blocks) k.live
  pub apart : AllApart k.live

pub Apart-sym : (y z : Live) → Apart y z → Apart z y
Apart-sym y z h x i = elim (Bool-cases (holds y x)) [
  | inr out ↦ out
  | inl here ↦ let o = h x here in absurd (cc)
]

pub holds-range :
    {s : Slob} {bs : ℕ → Blocks} (y : Live)
    → IsLive s bs y
    → (x : ℕ) → holds y x ≡ true
    → x / 2048 ≡ page_of y.block
holds-range y l x h = ground (arith, l.in_use.low, l.in_use.high)

holds-free :
    {s : Slob} {bs : ℕ → Blocks} (y : Live)
    → IsLive s bs y
    → (x : ℕ) → holds y x ≡ true
    → covers (bs (page_of y.block)) x ≡ false
holds-free y l x h = l.in_use.in_use x h

-- A block is in use as long as its units are not on the free list of its page.
IsLive-keep :
    {s s' : Slob} {bs bs' : ℕ → Blocks} (y : Live)
    → IsLive s bs y
    → (s'.page (page_of y.block)).is_slab ≡ true
    → ((x : ℕ) → holds y x ≡ true → covers (bs' (page_of y.block)) x ≡ false)
    → IsLive s' bs' y
IsLive-keep y l slab free = record {
  slab = slab;
  in_use = record {
    some_unit = l.in_use.some_unit;
    low = l.in_use.low;
    high = l.in_use.high;
    in_use = free;
  };
  some_size = l.some_size;
}

-- An allocation.
module _ (s s' : Slob) (bs : ℕ → Blocks) (b size : ℕ) (some_size : 1 ≤ size)
    (a : Allocated s bs b (slob_units_of size) s') where
  pub new_block-IsLive : IsLive s' a.blocks (record { block = b; size = size })
  new_block-IsLive = record { slab = a.slab; in_use = a.in_use; some_size = some_size }

  pub allocated-IsLive : (y : Live) → IsLive s bs y → IsLive s' a.blocks y
  allocated-IsLive y l =
      IsLive-keep y l (a.slabs (page_of y.block) l.slab)
        (λ x h. a.fewer (page_of y.block) x l.slab ∙ rw (holds-free y l x h) refl)

  pub allocated-Apart : (y : Live) → IsLive s bs y → Apart (record { block = b; size = size }) y
  allocated-Apart y l =
      Apart-sym y (record { block = b; size = size })
        (λ x h. (a.apart (page_of y.block) x l.slab (holds-range y l x h) (holds-free y l x h)).0)

  -- The blocks that are there keep their content.
  pub allocated-same : (y : Live) → IsLive s bs y → (x : ℕ) → holds y x ≡ true → s'.mem x ≡ s.mem x
  allocated-same y l x h =
      (a.apart (page_of y.block) x l.slab (holds-range y l x h) (holds-free y l x h)).1

-- The free blocks after a free.
abbrev pub blocks_after :
    (s : Slob) (bs : ℕ → Blocks) (y : Live) (s' : Slob)
    → FreedHeap s bs (page_of y.block) y.block (units y) (ok s')
    → ℕ
    → Blocks
blocks_after s bs y s' (inl _) = bs
blocks_after s bs y s' (inr (f, _, _)) = update bs (page_of y.block) f.blocks

-- A free. The free units of a page and two blocks that are apart fit the page together.
module _ (s : Slob) (bs : ℕ → Blocks) (y z : Live) (heap : IsHeap s bs) (ly : IsLive s bs y)
    (lz : IsLive s bs z) (apart : Apart y z) where
  abbrev sp : ℕ
  sp = page_of y.block

  room : page_of z.block ≡ sp → total (bs sp) + units y + units z ≤ 2048
  room same =
      count-apart (sp * 2048) 2048 (bs sp) y.block (units y) z.block (units z)
        (page-count s.mem sp (s.page sp) (bs sp) (heap.pages sp ly.slab))
        (ly.in_use.low, ly.in_use.high)
        (omega (arith, lz.in_use.low), omega (arith, lz.in_use.high)) (holds-free y ly)
        (λ x h. subst (λ i. covers (bs i) x ≡ false) same (holds-free z lz x h)) apart

  -- If the page goes back, the other block was not on it.
  elsewhere : total (bs sp) + units y ≡ 2048 → page_of z.block ≢ sp
  elsewhere all same = absurd (omega (arith, room same, lz.in_use.some_unit))

  -- The other block has no unit that is free on the page of the one that is freed.
  not_free : (x : ℕ) → holds z x ≡ true → covers (bs sp) x ≡ false
  not_free x h = elim (Bool-cases (covers (bs sp) x)) [
    | inr out ↦ out
    | inl c ↦
        let here = IsPage-range s.mem sp (s.page sp) (bs sp) x (heap.pages sp ly.slab) c in
        let same = sym (holds-range z lz x h) ∙ here in
        let out = subst (λ i. covers (bs i) x ≡ false) same (holds-free z lz x h) in absurd (cc)
  ]

  module _ (s' : Slob) (f : Freed s sp y.block (units y) (bs sp) s') where
    kept_slab : (s'.page (page_of z.block)).is_slab ≡ true
    kept_slab = elim (ℕ_discrete (page_of z.block) sp) [
      | yes same ↦ rw same (f.same_slab ∙ ly.slab)
      | no other ↦ ap (λ pg. pg.is_slab) (f.same_page (page_of z.block) other) ∙ lz.slab
    ]

    kept_use :
        (x : ℕ) → holds z x ≡ true → covers (update bs sp f.blocks (page_of z.block)) x ≡ false
    kept_use x h = elim (ℕ_discrete (page_of z.block) sp) [
      | yes same ↦ rw (same, ==-refl sp) (f.freed x ∙ rw (not_free x h) (Apart-sym y z apart x h))
      | no other ↦ rw (ne→== sp (page_of z.block) (λ e. other (sym e))) (holds-free z lz x h)
    ]

  pub freed-IsLive :
      (s' : Slob)
      → (h : FreedHeap s bs sp y.block (units y) (ok s')) → IsLive s' (blocks_after s bs y s' h) z
  freed-IsLive s' (inl (all, r, heap')) =
      IsLive-keep z lz
        (ap (λ pg. pg.is_slab) (r.same_page (page_of z.block) (elsewhere all)) ∙ lz.slab)
        (holds-free z lz)
  freed-IsLive s' (inr (f, some_left, heap')) = IsLive-keep z lz (kept_slab s' f) (kept_use s' f)

  pub freed-same :
      (s' : Slob)
      → FreedHeap s bs sp y.block (units y) (ok s')
      → (x : ℕ) → holds z x ≡ true
      → s'.mem x ≡ s.mem x
  freed-same s' (inl (all, r, heap')) x h = ap (λ m. m x) r.same_mem
  freed-same s' (inr (f, some_left, heap')) x h =
      f.same_mem x (not_free x h) (Apart-sym y z apart x h)
