-- ===== src/Slob/PageAlloc/FirstFit.antt =====
-- The other branch of `slob_page_alloc`, first fit, which USE_BEST_FIT turns off
-- (CS444_project4_46/slob.c).
use mathlib.Core.List.{append_assoc, append-nil}
use cs444_operating_systems.Prelude.{
  ℕ, ◌+◌, ◌-◌, ◌*◌, ◌≤◌, ◌<◌, ◌≡◌, refl, sym, subst, inl, inr, true, false, [], ◌∷◌, ◌++◌, Option,
  none, some, arith, leb, All, All-append, Bool-cases, leb→le,
}
use cs444_operating_systems.Slob.Block.{Ptr, slob_units_of}
use cs444_operating_systems.Slob.Segment.{Blocks}
use cs444_operating_systems.Slob.State.{Slob}
use cs444_operating_systems.Slob.Cover.{length_range}
use cs444_operating_systems.Slob.PageAlloc.{
  Candidate, consider, delta_at, aligned_at, finish, finish?, first_fit, page_fuel,
}
use cs444_operating_systems.Slob.PageAlloc.Scan.{pick_first, first_fit-pick_first}
use cs444_operating_systems.Slob.PageAlloc.Best.{last_ptr, last_ptr-snoc, need, Fits}
use cs444_operating_systems.Slob.PageAlloc.Correct.{IsPage, Taken, carved, finish-Taken}

abbrev pub NoRoom : (units align : ℕ) → Blocks → Type 0
NoRoom units align bs = All (λ x. x.1 < need units align x.0) bs

-- The first block with room, or none where no block has room.
abbrev pub First : (units align : ℕ) → Blocks → Option Candidate → Type 0
First units align bs none = NoRoom units align bs
First units align bs (some b) = (c : Fits units align bs b) × NoRoom units align c.front

module _ (units align : ℕ) (prev : Option Ptr) (a n : ℕ) (cs : Blocks) where
  abbrev found : Candidate
  found = record {
    prev = prev;
    cur = a;
    aligned = aligned_at align a;
    delta = delta_at align a;
    diff = n - (units + delta_at align a);
  }

  consider-found :
      leb (units + delta_at align a) n ≡ true → consider units align prev a n none ≡ some found
  unfolding consider
  consider-found room = rw room

  consider-skip :
      leb (units + delta_at align a) n ≡ false → consider units align prev a n none ≡ none
  unfolding consider
  consider-skip full = rw full

  pick_first-found :
      leb (units + delta_at align a) n ≡ true
      → pick_first units align prev ((a, n) ∷ cs) ≡ some found
  unfolding pick_first
  pick_first-found room = let e = consider-found room in ground (arith, e)

  pick_first-skip :
      leb (units + delta_at align a) n ≡ false
      → pick_first units align prev ((a, n) ∷ cs) ≡ pick_first units align (some a) cs
  unfolding pick_first
  pick_first-skip full = let e = consider-skip full in ground (arith, e)

pick_first-First :
    (units align : ℕ) (bs cs : Blocks)
    → NoRoom units align bs
    → First units align (bs ++ cs) (pick_first units align (last_ptr none bs) cs)
unfolding pick_first
pick_first-First units align bs [] h = rw append-nil h
pick_first-First units align bs ((a, n) ∷ cs) h =
    elim (Bool-cases (leb (units + delta_at align a) n)) [
      | inl room ↦
          subst (First units align (bs ++ (a, n) ∷ cs))
            (sym (pick_first-found units align (last_ptr none bs) a n cs room))
            (
              record {
                front = bs;
                size = n;
                back = cs;
                split = refl;
                prev = refl;
                delta = refl;
                aligned = refl;
                room = leb→le _ n room;
              },
              h,
            )
      | inr full ↦
          let small : n < need units align a = ground (arith, full) in
          let rest =
            pick_first-First units align (bs ++ (a, n) ∷ []) cs
              (All-append _ bs ((a, n) ∷ []) h (small, tt)) in
          subst (First units align (bs ++ (a, n) ∷ cs))
            (sym (pick_first-skip units align (last_ptr none bs) a n cs full))
            (subst (λ x. First units align x (pick_first units align (some a) cs))
              (append_assoc bs ((a, n) ∷ []) cs) (rw last_ptr-snoc at rest))
    ]

-- A block of the free units, at the first place with room; or NULL and no change, and then no block
-- has room.
abbrev pub FirstOutcome : Slob → (sp units align : ℕ) → Blocks → Option (Slob × Option Ptr) → Type 0
FirstOutcome s sp units align bs none = ⊥
FirstOutcome s sp units align bs (some (s', none)) = (s' ≡ s) × NoRoom units align bs
FirstOutcome s sp units align bs (some (s', some b)) =
    Taken s sp units bs b s'
    × (c : Candidate) × First units align bs (some c)
    × (b ≡ c.cur + c.delta)

finish-FirstOutcome :
    (s : Slob) (sp units align : ℕ) (bs : Blocks)
    → IsPage s.mem sp (s.page sp) bs
    → (s.page sp).is_free ≡ true
    → 1 ≤ units
    → (found : Option Candidate) → First units align bs found
    → FirstOutcome s sp units align bs (some (finish s sp units found))
finish-FirstOutcome s sp units align bs page free some_unit none f = (refl, f)
finish-FirstOutcome s sp units align bs page free some_unit (some b) f =
    let start_eq = (carved s sp units align bs page free some_unit b f.0).1 in
    rw start_eq (finish-Taken s sp units align bs page free some_unit b f.0, b, f, refl)

-- Where USE_BEST_FIT is off, on a page that is on a list and for a positive size, the first-fit
-- loop ends; its result is a block in the first place with room, with the same effect on the page
-- as in best fit, or NULL where no block has room.
pub first_fit_lem :
    (s : Slob) (sp size align : ℕ) (bs : Blocks)
    → IsPage s.mem sp (s.page sp) bs
    → (s.page sp).is_free ≡ true
    → 1 ≤ size
    → FirstOutcome s sp (slob_units_of size) align bs (
        finish? s sp
          (slob_units_of size)
          (first_fit page_fuel s.mem (slob_units_of size) align none (s.page sp).freelist))
first_fit_lem s sp size align [] page free some_size = absurd (cc (page.listed))
first_fit_lem s sp size align ((a, n) ∷ bs) page free some_size =
    let chain = page.chain free in
    let short =
      length_range s.mem (sp * 2048) (sp * 2048 + 2049) (s.page sp).freelist (sp * 2048 + 2048)
        ((a, n) ∷ bs) chain in
    rw
      (first_fit-pick_first page_fuel s.mem sp (sp * 2048) (slob_units_of size) align none
        (s.page sp).freelist a n bs (omega arith) (omega arith) chain)
      (finish-FirstOutcome s sp (slob_units_of size) align ((a, n) ∷ bs) page free (omega arith) _
        (pick_first-First (slob_units_of size) align [] ((a, n) ∷ bs) tt))
