-- ===== src/Slob/Kmalloc/User/Header.antt =====
-- The header in front of what `kmalloc` gives (CS444_project4_46/slob.c).
use cs444_operating_systems.Prelude.{
  ℕ, ◌+◌, ◌-◌, ◌*◌, ◌/◌, ◌≤◌, ◌<◌, ◌≡◌, ◌≢◌, refl, sym, ◌∙◌, ap, true, false, Option, none, some,
  List, [], ◌∷◌, ◌++◌, arith, All, ltb, lt→ltb, ◌==◌,
}
use cs444_operating_systems.Slob.Block.{Ptr, Mem, slob_units_of}
use cs444_operating_systems.Slob.Segment.{Blocks}
use cs444_operating_systems.Slob.State.{Slob, Run, ok, bug, out_of_fuel, page_of}
use cs444_operating_systems.Slob.Heap.{IsHeap}
use cs444_operating_systems.Slob.Free.{slob_free, zero_or_null}
use cs444_operating_systems.Slob.Alloc.{slob_alloc}
use cs444_operating_systems.Slob.Kmalloc.{
  Config, store_size, load_size, header, with_header, do_kmalloc_node, kfree, ksize,
}
use cs444_operating_systems.Slob.Client.{Live, holds}
use cs444_operating_systems.Slob.Client.Sound.{IsLive}
use cs444_operating_systems.Slob.Kmalloc.User.{Held, Request, request, below, below_all}

pub All-insert {ℓ} :
    {A : Type ℓ} (P : A → Type 0) (front : List A) (y : A) (back : List A)
    → P y
    → All P (front ++ back)
    → All P (front ++ y ∷ back)
All-insert P [] y back p h = (p, h)
All-insert P (z ∷ front) y back p h = (h.0, All-insert P front y back p h.1)

pub load_size-frame :
    (m m' : Mem) (b : Ptr) → m' b ≡ m b → m' (b + 1) ≡ m (b + 1) → load_size m' b ≡ load_size m b
unfolding load_size
load_size-frame m m' b e e' = rw (e, e')

module _ (c : Config) where
  pub below_all-append :
      (xs ys : List Held) → below_all c (xs ++ ys) ≡ below_all c xs ++ below_all c ys
  below_all-append [] ys = refl
  below_all-append (x ∷ xs) ys = ap (λ l. below c x ∷ l) (below_all-append xs ys)

  pub All-below :
      (P : Live → Type 0) (ys : List Held) → All P (below_all c ys) → All (λ y. P (below c y)) ys
  All-below P [] h = tt
  All-below P (y ∷ ys) h = (h.0, All-below P ys h.1)

-- `minalign` is at least 4 bytes, so that the header fits in front of the payload.
module _ (c : Config) (a : ℕ) (even : c.minalign ≡ 2 * a) (wide : 2 ≤ a) where
  pub record HasHeader (s : Slob) (y : Held) : Type 0 where
    pub behind : header c y.block + a ≡ y.block
    pub known : load_size s.mem (header c y.block) ≡ y.size
    pub some_size : 1 ≤ y.size
    pub small : y.size + c.minalign < 4096

  pub HasHeader-keep :
      {s s' : Slob} (y : Held)
      → HasHeader s y
      → ((x : ℕ) → holds (below c y) x ≡ true → s'.mem x ≡ s.mem x)
      → HasHeader s' y
  HasHeader-keep {s} {s'} y h same = record {
    behind = h.behind;
    known =
        load_size-frame s.mem s'.mem (header c y.block)
          (same (header c y.block) (ground (arith, h.some_size)))
          (same (header c y.block + 1) (ground (arith, h.some_size)))
        ∙ h.known;
    some_size = h.some_size;
    small = h.small;
  }

  -- What a call of `kmalloc` that gives a block has done.
  pub record Made (s : Slob) (r : Request c s) (s' : Slob) (b : Ptr) : Type 0 where
    pub made_slob : Slob
    pub made_at : Ptr
    pub made_run :
        slob_alloc c.page_to_nid r.alloc s (r.size + c.minalign) (c.allowed r.gfp) c.minalign r.nid
        ≡ ok (made_slob, some made_at)
    pub made_header : s' ≡ record made_slob { mem = store_size made_slob.mem made_at r.size }
    pub made_block : b ≡ made_at + a

  pub request-with_header :
      (s : Slob) (r : Request c s)
      → request c r
        ≡ with_header c r.size (
            slob_alloc c.page_to_nid r.alloc s
              (r.size + c.minalign)
              (c.allowed r.gfp)
              c.minalign
              r.nid)
  unfolding do_kmalloc_node
  request-with_header s r =
      let in_page : ltb r.size (4096 - c.minalign) ≡ true =
        lt→ltb r.size (4096 - c.minalign) (omega (arith, r.small)) in
      let positive : (r.size == 0) ≡ false = ground (arith, r.some_size) in rw (in_page, positive)

  pub request-Made :
      (s : Slob) (r : Request c s) (s' : Slob) (b : Ptr)
      → request c r ≡ ok (s', some b)
      → Made s r s' b
  request-Made s r s' b e =
      go
        (slob_alloc c.page_to_nid r.alloc s (r.size + c.minalign) (c.allowed r.gfp) c.minalign
          r.nid)
        refl (sym (request-with_header s r) ∙ e)
    where
      go :
          (res : Run (Slob × Option Ptr))
          → slob_alloc c.page_to_nid r.alloc s
              (r.size + c.minalign)
              (c.allowed r.gfp)
              c.minalign
              r.nid
            ≡ res
          → with_header c r.size res ≡ ok (s', some b)
          → Made s r s' b
      go bug e1 e2 = absurd (cc)
      go out_of_fuel e1 e2 = absurd (cc)
      go (ok (s0, none)) e1 e2 = absurd (cc)
      go (ok (s0, some m)) e1 e2 =
          let at : m + c.minalign / 2 ≡ b = cc in
          record {
            made_slob = s0;
            made_at = m;
            made_run = e1;
            made_header = cc;
            made_block = omega arith;
          }

  -- A call that gives nothing changes nothing in the list of blocks below.
  pub request-refused :
      (s : Slob) (r : Request c s) (s' : Slob)
      → request c r ≡ ok (s', none)
      → slob_alloc c.page_to_nid r.alloc s (r.size + c.minalign) (c.allowed r.gfp) c.minalign r.nid
        ≡ ok (s', none)
  request-refused s r s' e =
      go
        (slob_alloc c.page_to_nid r.alloc s (r.size + c.minalign) (c.allowed r.gfp) c.minalign
          r.nid)
        refl (sym (request-with_header s r) ∙ e)
    where
      go :
          (res : Run (Slob × Option Ptr))
          → slob_alloc c.page_to_nid r.alloc s
              (r.size + c.minalign)
              (c.allowed r.gfp)
              c.minalign
              r.nid
            ≡ res
          → with_header c r.size res ≡ ok (s', none)
          → slob_alloc c.page_to_nid r.alloc s
              (r.size + c.minalign)
              (c.allowed r.gfp)
              c.minalign
              r.nid
            ≡ ok (s', none)
      go bug e1 e2 = absurd (cc)
      go out_of_fuel e1 e2 = absurd (cc)
      go (ok (s0, none)) e1 e2 = e1 ∙ e2
      go (ok (s0, some m)) e1 e2 = absurd (cc)

  -- `kfree` finds the block of the allocator, with its size, and `ksize` the size.
  module _ (s : Slob) (bs : ℕ → Blocks) (y : Held) (h : HasHeader s y) (heap : IsHeap s bs)
      (l : IsLive s bs (below c y)) where
    same_page : page_of y.block ≡ page_of (header c y.block)
    same_page = omega (arith, h.behind, l.in_use.low, l.in_use.high, h.some_size)

    page_ne_zero : page_of (header c y.block) ≢ 0
    page_ne_zero e =
        let k : (s.page 0).is_slab ≡ true = rw (sym e) l.slab in let g = heap.null in absurd (cc)

    pub kfree-below : kfree c s y.block ≡ slob_free s (header c y.block) (y.size + c.minalign)
    unfolding kfree
    kfree-below =
        let nn : zero_or_null y.block ≡ false = ground (arith, page_ne_zero, same_page) in
        rw (nn, same_page, l.slab, h.known)

    pub ksize-below : ksize c s y.block ≡ ok (slob_units_of y.size * 2)
    unfolding ksize
    ksize-below =
        let n0 : (y.block == 0) ≡ false = ground (arith, page_ne_zero, same_page) in
        let n8 : (y.block == 8) ≡ false = ground (arith, page_ne_zero, same_page) in
        rw (n0, n8, same_page, l.slab, h.known)
