-- ===== src/Slob/Tests/Threads.antt =====
-- Two threads that need a page at the same time (CS444_project4_46/slob.c).
use cs444_operating_systems.Prelude.{
  ℕ, ◌≡◌, ◌≢◌, refl, inl, inr, false, true, none, some, [], arith, All, Option, ◌∷◌,
}
use cs444_operating_systems.Prelude.Sums.{update}
use cs444_operating_systems.Slob.Block.{Ptr, set_slob, slob_units, slob_last}
use cs444_operating_systems.Slob.PageAlloc.{slob_page_alloc, best_fit, consider, delta_at, carve}
use cs444_operating_systems.Slob.State.{
  Slob, Run, ok, bug, out_of_fuel, set_slob_page_free, page_of,
}
use cs444_operating_systems.Slob.Alloc.{new_page, search_pages, cleared}
use cs444_operating_systems.Slob.Tests.{empty, empty-IsHeap}
use cs444_operating_systems.Slob.Threads.{
  Ask, outside, searched, has_page, System, search, add_page, miss, get_page, add, Reach, init,
  later,
}
use cs444_operating_systems.Slob.Client.Leak.{IsTight}
use cs444_operating_systems.Slob.Threads.Tight.{Reach-IsTight}
use cs444_operating_systems.Slob.Threads.Sound.{together, IsSafe, update-cases, Reach-IsSafe}
use cs444_operating_systems.Slob.Threads.Safe.{ServesAll, Reach-ServesAll, Keeps, Reach-Keeps}

abbrev pub any_node : ℕ → ℕ
any_node p = 0

abbrev ask : Ask
ask = record {
  size = 100;
  gfp = record { is_zero = true; is_comp = false };
  align = 4;
  nid = none;
  some_size = omega arith;
  small = omega arith;
  divides = inr (2, refl, omega arith);
}

nothing_found : search any_node empty ask ≡ ok (empty, none)
unfolding search_pages
nothing_found = refl

abbrev both_searched : System
both_searched = record {
  slob = empty;
  live = [];
  pc = update (update (λ i. outside) 0 (searched ask)) 1 (searched ask);
}

both_searched-Reach : Reach any_node empty both_searched
both_searched-Reach =
    later (later init (miss 0 ask refl nothing_found)) (miss 1 ask refl nothing_found)

abbrev first_page : System
first_page = record both_searched { pc = update both_searched.pc 0 (has_page ask 2048) }

both_searched-none : (j : ℕ) (a : Ask) (c : Ptr) → both_searched.pc j ≢ has_page a c
both_searched-none j a c e =
    elim (update-cases (update (λ i. outside) 0 (searched ask)) 1 j (searched ask) (has_page a c)
      e) [
        | inl (same, k) ↦ absurd (cc)
        | inr (other, k) ↦ elim (update-cases (λ i. outside) 0 j (searched ask) (has_page a c) k) [
          | inl (same, l) ↦ absurd (cc)
          | inr (other', l) ↦ absurd (cc)
        ]
      ]

first_page-Reach : Reach any_node empty first_page
first_page-Reach = later both_searched-Reach (
    get_page 0 ask 2048 refl (record {
      start = refl;
      unknown = refl;
      not_null = omega arith;
      nobody = λ j a c e. absurd (both_searched-none j a c e);
    }))

abbrev two_pages : System
two_pages = record first_page { pc = update first_page.pc 1 (has_page ask 4096) }

first_page-only : (j : ℕ) (a : Ask) (c : Ptr) → first_page.pc j ≡ has_page a c → page_of c ≢ 2
first_page-only j a c e =
    elim (update-cases both_searched.pc 0 j (has_page ask 2048) (has_page a c) e) [
      | inl (same, k) ↦ (let page : 2048 ≡ c = cc in λ q. absurd (omega arith))
      | inr (other, k) ↦ absurd (both_searched-none j a c k)
    ]

two_pages-Reach : Reach any_node empty two_pages
two_pages-Reach = later first_page-Reach (
    get_page 1 ask 4096 refl
      (record { start = refl; unknown = refl; not_null = omega arith; nobody = first_page-only }))

Reach-IsSafe_example : IsSafe two_pages
Reach-IsSafe_example = Reach-IsSafe (λ i. []) empty-IsHeap two_pages-Reach

Reach-ServesAll_example : ServesAll any_node two_pages
Reach-ServesAll_example = Reach-ServesAll (λ i. []) empty-IsHeap two_pages-Reach

abbrev slob_of : Run (Slob × Option Ptr) → Slob
slob_of (ok (s, b)) = s
slob_of bug = empty
slob_of out_of_fuel = empty

-- Thread 1 adds its page first.
added_4096 : add_page empty ask 4096 ≡ ok (slob_of (add_page empty ask 4096), some 4096)
unfolding slob_page_alloc best_fit slob_last new_page set_slob_page_free set_slob consider delta_at
    slob_units carve
added_4096 = refl

abbrev pub one_added : System
one_added = record {
  slob = cleared ask.gfp 100 (slob_of (add_page empty ask 4096)) 4096;
  live = record { block = 4096; size = 100 } ∷ [];
  pc = update two_pages.pc 1 outside;
}

pub one_added-Reach : Reach any_node empty one_added
one_added-Reach = later two_pages-Reach (add 1 ask 4096 refl added_4096)

added_2048 :
    add_page one_added.slob ask 2048 ≡ ok (slob_of (add_page one_added.slob ask 2048), some 2048)
unfolding slob_page_alloc best_fit slob_last new_page set_slob_page_free set_slob consider delta_at
    slob_units carve
added_2048 = refl

abbrev pub both_added : System
both_added = record {
  slob = cleared ask.gfp 100 (slob_of (add_page one_added.slob ask 2048)) 2048;
  live = record { block = 2048; size = 100 } ∷ record { block = 4096; size = 100 } ∷ [];
  pc = update one_added.pc 0 outside;
}

pub both_added-Reach : Reach any_node empty both_added
both_added-Reach = later one_added-Reach (add 0 ask 2048 refl added_2048)

Reach-Keeps_example : All (Keeps one_added both_added) (record { block = 4096; size = 100 } ∷ [])
Reach-Keeps_example =
    Reach-Keeps (λ i. []) empty-IsHeap one_added-Reach (add 0 ask 2048 refl added_2048)

unused : (i : ℕ) → (empty.page i).is_slab ≡ false
unused i = refl

Reach-IsTight_example : IsTight (together both_added)
Reach-IsTight_example = Reach-IsTight (λ i. []) empty-IsHeap unused both_added-Reach
