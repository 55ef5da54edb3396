-- ===== src/Slob/Threads/Sound.antt =====
-- What threads in the allocator keep (CS444_project4_46/slob.c).
use cs444_operating_systems.Prelude.{
  ℕ, ◌*◌, ◌≤◌, ◌≡◌, ◌≢◌, sym, ◌∙◌, ap, subst, true, false, ◌⊎◌, inl, inr, none, some, ◌∷◌, arith,
  Bool-cases, ◌==◌, eq→==,
}
use cs444_operating_systems.Prelude.Sums.{update}
use cs444_operating_systems.Slob.Block.{Ptr, slob_units_of}
use cs444_operating_systems.Slob.Segment.{Blocks}
use cs444_operating_systems.Slob.State.{Slob, ok, page_of, slob_list}
use cs444_operating_systems.Slob.Heap.{IsHeap}
use cs444_operating_systems.Slob.Free.Heap.{FreedHeap}
use cs444_operating_systems.Slob.Alloc.{cleared}
use cs444_operating_systems.Slob.Alloc.Search.{Allocated, SearchOutcome, search_pages-Outcome}
use cs444_operating_systems.Slob.Alloc.Correct.{PageOutcome, fresh_Outcome, cleared-Allocated}
use cs444_operating_systems.Slob.Client.{Live, Client}
use cs444_operating_systems.Slob.Client as Client
use cs444_operating_systems.Slob.Client.Sound.{IsSound}
use cs444_operating_systems.Slob.Client.Safe.{
  Step-IsSound, Allocated-IsSound, here-IsLive, freed_ok,
}
use cs444_operating_systems.Slob.Threads.{
  Ask, Pc, outside, searched, has_page, System, live_block, search, add_page, IsNew, Step, find,
  miss, no_page, get_page, add, write, free, start, Reach, init, later,
}

-- The threads together are a client of the allocator.
abbrev pub together : System → Client
together s = record { slob = s.slob; live = s.live }

-- A page that is not the allocator's.
pub record IsOutside (s : Slob) (b : Ptr) : Type 0 where
  pub start : b ≡ page_of b * 2048
  pub unknown : (s.page (page_of b)).is_slab ≡ false
  pub not_null : 1 ≤ page_of b

-- The blocks of all threads are sound, and each new page is one thread's alone.
pub record IsSafe (s : System) : Type 0 where
  pub sound : IsSound (together s)
  pub pending : (i : ℕ) (a : Ask) (b : Ptr) → s.pc i ≡ has_page a b → IsOutside s.slob b
  pub distinct :
      (i j : ℕ) (a c : Ask) (b d : Ptr)
      → i ≢ j
      → s.pc i ≡ has_page a b
      → s.pc j ≡ has_page c d
      → page_of b ≢ page_of d

-- The page of an allocated block is the only one that the allocator may have got.
Allocated-unknown :
    {s s' : Slob} {bs : ℕ → Blocks} {c u : ℕ}
    → Allocated s bs c u s'
    → (p : ℕ) → (s.page p).is_slab ≡ false
    → page_of c ≢ p
    → (s'.page p).is_slab ≡ false
Allocated-unknown {s'} a p old other = elim (Bool-cases (s'.page p).is_slab) [
  | inr out ↦ out
  | inl new ↦ absurd (other (a.whole p (p * 2048) old new (omega arith)).0)
]

FreedHeap-unknown :
    {s s' : Slob} {bs : ℕ → Blocks} {sp b u : ℕ}
    → FreedHeap s bs sp b u (ok s')
    → (s.page sp).is_slab ≡ true
    → (p : ℕ) → (s.page p).is_slab ≡ false
    → (s'.page p).is_slab ≡ false
FreedHeap-unknown {s} {s'} {bs} {sp} {b} {u} h slab p old =
    let other : p ≢ sp =
      λ e. absurd (let k = subst (λ j. (s.page j).is_slab ≡ false) e old in cc) in
    keep h other
  where
    keep : FreedHeap s bs sp b u (ok s') → p ≢ sp → (s'.page p).is_slab ≡ false
    keep (inl (all, r, heap)) other = ap (λ pg. pg.is_slab) (r.same_page p other) ∙ old
    keep (inr (f, some_left, heap)) other = ap (λ pg. pg.is_slab) (f.same_page p other) ∙ old

pub update-cases :
    (f : ℕ → Pc) (i j : ℕ) (q r : Pc)
    → update f i q j ≡ r
    → ((j ≡ i) × (q ≡ r)) ⊎ ((j ≢ i) × (f j ≡ r))
update-cases f i j q r e = elim (Bool-cases (j == i)) [
  | inl same ↦ inl (ground arith, ground arith)
  | inr other ↦ inr ((λ k. absurd (let t = eq→== j i k in cc)), ground arith)
]

-- A thread with a page stays with it unless it is the one that goes on.
module _ (s : System) (h : IsSafe s) where
  open h use {sound, pending, distinct}

  -- Where a thread goes on to somewhere without a page, and all pages stay outside.
  goes-IsSafe :
      (t : Client) (i : ℕ) (q : Pc)
      → IsSound t
      → ((a : Ask) (b : Ptr) → q ≢ has_page a b)
      → ((j : ℕ) (a : Ask) (b : Ptr) → j ≢ i → s.pc j ≡ has_page a b → IsOutside t.slob b)
      → IsSafe (record { slob = t.slob; live = t.live; pc = update s.pc i q })
  goes-IsSafe t i q sound' none_here others = record {
    sound = sound';
    pending = λ j a b e. elim (update-cases s.pc i j q (has_page a b) e) [
      | inl (same, k) ↦ absurd (none_here a b k)
      | inr (other, k) ↦ others j a b other k
    ];
    distinct = λ j j' a c b d ne e e'. elim (update-cases s.pc i j q (has_page a b) e) [
      | inl (same, k) ↦ absurd (none_here a b k)
      | inr (other, k) ↦ elim (update-cases s.pc i j' q (has_page c d) e') [
        | inl (same, k') ↦ absurd (none_here c d k')
        | inr (other', k') ↦ distinct j j' a c b d ne k k'
      ]
    ];
  }

  -- Where no thread goes on in `slob_alloc`.
  stays-IsSafe :
      (t : Client)
      → IsSound t
      → ((p : ℕ) → (s.slob.page p).is_slab ≡ false → (t.slob.page p).is_slab ≡ false)
      → IsSafe (record { slob = t.slob; live = t.live; pc = s.pc })
  stays-IsSafe t sound' keep = record {
    sound = sound';
    pending = λ j a b e.
        let o = pending j a b e in
        record { start = o.start; unknown = keep (page_of b) o.unknown; not_null = o.not_null };
    distinct = distinct;
  }

  outside-ne-has_page : (a : Ask) (b : Ptr) → outside ≢ has_page a b
  outside-ne-has_page a b e = absurd (cc)

  searched-ne-has_page : (a' a : Ask) (b : Ptr) → searched a' ≢ has_page a b
  searched-ne-has_page a' a b e = absurd (cc)

  -- Where a thread gets a page that nobody has.
  gets-IsSafe :
      (i : ℕ) (a : Ask) (b : Ptr)
      → IsNew s b
      → IsSafe (record s { pc = update s.pc i (has_page a b) })
  gets-IsSafe i a b new = record {
    sound = sound;
    pending = λ j a' b' e. elim (update-cases s.pc i j (has_page a b) (has_page a' b') e) [
      | inl (same, k) ↦
          let page : b ≡ b' = cc in
          subst (IsOutside s.slob) page
            (record { start = new.start; unknown = new.unknown; not_null = new.not_null })
      | inr (other, k) ↦ pending j a' b' k
    ];
    distinct = λ j j' a1 a2 b1 b2 ne e e' eq.
        elim (update-cases s.pc i j (has_page a b) (has_page a1 b1) e) [
          | inl (same, k) ↦
              let page : b ≡ b1 = cc in
              elim (update-cases s.pc i j' (has_page a b) (has_page a2 b2) e') [
                | inl (same', k') ↦ ne (same ∙ sym same')
                | inr (other', k') ↦ new.nobody j' a2 b2 k' (sym eq ∙ ap page_of (sym page))
              ]
          | inr (other, k) ↦ elim (update-cases s.pc i j' (has_page a b) (has_page a2 b2) e') [
            | inl (same', k') ↦
                let page : b ≡ b2 = cc in new.nobody j a1 b1 k (eq ∙ ap page_of (sym page))
            | inr (other', k') ↦ distinct j j' a1 a2 b1 b2 ne k k' eq
          ]
        ];
  }

  -- A search that gives a block.
  pub found :
      (page_to_nid : ℕ → ℕ) (a : Ask) {s' : Slob} {b : Ptr}
      → search page_to_nid s.slob a ≡ ok (s', some b)
      → Allocated s.slob sound.blocks b (slob_units_of a.size) s'
        × ((s.slob.page (page_of b)).is_slab ≡ true)
  found page_to_nid a e = subst (SearchOutcome s.slob sound.blocks (slob_units_of a.size)) e (
      search_pages-Outcome page_to_nid s.slob sound.blocks a.size a.align a.nid (slob_list a.size)
        sound.heap a.some_size 0 (s.slob.lists (slob_list a.size))
        (sound.heap.listed (slob_list a.size)))

  pub not_found :
      (page_to_nid : ℕ → ℕ) (a : Ask) {s' : Slob}
      → search page_to_nid s.slob a ≡ ok (s', none)
      → s' ≡ s.slob
  not_found page_to_nid a e = subst (SearchOutcome s.slob sound.blocks (slob_units_of a.size)) e (
      search_pages-Outcome page_to_nid s.slob sound.blocks a.size a.align a.nid (slob_list a.size)
        sound.heap a.some_size 0 (s.slob.lists (slob_list a.size))
        (sound.heap.listed (slob_list a.size)))

  -- A page that is added.
  pub page_gives :
      (i : ℕ) (a : Ask) (b : Ptr)
      → s.pc i ≡ has_page a b
      → PageOutcome s.slob sound.blocks (slob_units_of a.size) b (add_page s.slob a b)
  page_gives i a b e =
      let o = pending i a b e in
      fresh_Outcome s.slob sound.blocks a.size a.align sound.heap a.some_size a.small a.divides
        (slob_list a.size) b (o.start, o.unknown, o.not_null)

  pub added :
      (i : ℕ) (a : Ask) (b : Ptr) {s' : Slob} {c : Ptr}
      → s.pc i ≡ has_page a b
      → add_page s.slob a b ≡ ok (s', some c)
      → Allocated s.slob sound.blocks c (slob_units_of a.size) s' × (page_of c ≡ page_of b)
  added i a b at e =
      subst (PageOutcome s.slob sound.blocks (slob_units_of a.size) b) e (page_gives i a b at)

  -- What is allocated and cleared is sound.
  with_block :
      (a : Ask) (s' : Slob) (b : Ptr)
      → Allocated s.slob sound.blocks b (slob_units_of a.size) s'
      → IsSound (record { slob = cleared a.gfp a.size s' b; live = live_block a b ∷ s.live })
  with_block a s' b al =
      Allocated-IsSound (together s) sound (cleared a.gfp a.size s' b) b a.size a.some_size
        (cleared-Allocated s.slob sound.blocks a.size a.gfp b s' al)

  unknown_after :
      (a : Ask) (s' : Slob) (b : Ptr)
      → Allocated s.slob sound.blocks b (slob_units_of a.size) s'
      → (p : ℕ) → (s.slob.page p).is_slab ≡ false
      → page_of b ≢ p
      → ((cleared a.gfp a.size s' b).page p).is_slab ≡ false
  unknown_after a s' b al =
      Allocated-unknown (cleared-Allocated s.slob sound.blocks a.size a.gfp b s' al)

  pub Step-IsSafe : {page_to_nid : ℕ → ℕ} {t : System} → Step page_to_nid s t → IsSafe t
  Step-IsSafe {page_to_nid} (find i a {s'} {b} at e) =
      let al = found page_to_nid a e in
      stays-IsSafe _ (with_block a s' b al.0) (λ p old. unknown_after a s' b al.0 p old (λ k.
        let slab = al.1 in
        let k' = subst (λ j. (s.slob.page j).is_slab ≡ false) (sym k) old in absurd (cc)))
  Step-IsSafe {page_to_nid} (miss i a {s'} at e) =
      let same = not_found page_to_nid a e in
      goes-IsSafe (record { slob = s'; live = s.live }) i (searched a)
        (subst (λ x. IsSound (record { slob = x; live = s.live })) (sym same) sound)
        (searched-ne-has_page a)
        (λ j a' b other k. subst (λ x. IsOutside x b) (sym same) (pending j a' b k))
  Step-IsSafe (no_page i a at) =
      goes-IsSafe (together s) i outside sound outside-ne-has_page
        (λ j a' b other k. pending j a' b k)
  Step-IsSafe (get_page i a b at new) = gets-IsSafe i a b new
  Step-IsSafe (add i a b {s'} {c} at e) =
      let al = added i a b at e in
      goes-IsSafe (record { slob = cleared a.gfp a.size s' c; live = live_block a c ∷ s.live }) i
        outside (with_block a s' c al.0) outside-ne-has_page
        (λ j a' b' other k.
          let o = pending j a' b' k in
          record {
            start = o.start;
            unknown =
                unknown_after a s' c al.0 (page_of b') o.unknown
                  (λ same. distinct j i a' a b' b other k at (sym same ∙ al.1));
            not_null = o.not_null;
          })
  Step-IsSafe (write front y back m at outside_y) =
      stays-IsSafe _ (Step-IsSound (together s) sound (Client.write front y back m at outside_y))
        (λ p old. old)
  Step-IsSafe (free front y back {s'} at e) =
      stays-IsSafe _ (Step-IsSound (together s) sound (Client.free front y back at e)) (
        FreedHeap-unknown (freed_ok (together s) sound front y back at e)
          (here-IsLive (together s) sound front y back at).0.slab)

pub start-IsSafe : (s : Slob) (bs : ℕ → Blocks) → IsHeap s bs → IsSafe (start s)
start-IsSafe s bs heap = record {
  sound = record { blocks = bs; heap = heap; live = tt; apart = tt };
  pending = λ i a b e. absurd (cc);
  distinct = λ i j a c b d ne e e' eq. absurd (cc);
}

-- On a heap, whatever steps any number of threads make, in any order: the blocks of all threads are
-- in use, each on one page of the heap, and no two of them share a unit; the allocator has a heap;
-- and a new page that a thread has got and not added yet is not the allocator's, nor another
-- thread's.
pub Reach-IsSafe :
    {page_to_nid : ℕ → ℕ} {s : Slob} {t : System} (bs : ℕ → Blocks)
    → IsHeap s bs
    → Reach page_to_nid s t
    → IsSafe t
Reach-IsSafe {s} bs heap init = start-IsSafe s bs heap
Reach-IsSafe bs heap (later {t} r step) = Step-IsSafe t (Reach-IsSafe bs heap r) step
