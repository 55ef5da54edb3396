-- ===== src/FragTest/Runs.antt =====
-- Runs of CS444_project4_46/Frag_Test/frag_test.c.
use cs444_operating_systems.Prelude.{
  ℕ, zero, suc, ◌+◌, ◌*◌, ◌/◌, ◌^◌, ◌≡◌, refl, ap, [], ◌∷◌, arith, ◌-◌,
}
use cs444_operating_systems.Prelude.Int.{ℤ, pos, negsuc}
use cs444_operating_systems.Slob.Block.{set_slob, slob_units, slob_last}
use cs444_operating_systems.Slob.PageAlloc.{slob_page_alloc, best_fit, consider, delta_at, carve}
use cs444_operating_systems.Slob.State.{set_slob_page_free, slob_list}
use cs444_operating_systems.Slob.Alloc.{new_page}
use cs444_operating_systems.Slob.Amounts.{
  sys_get_slob_amt_free, sys_get_slob_amt_total, add_units, count_pages,
}
use cs444_operating_systems.Slob.Threads.{System, Reach}
use cs444_operating_systems.Slob.Tests.{empty, empty-IsHeap}
use cs444_operating_systems.Slob.Tests.Threads.{
  any_node, one_added, both_added, one_added-Reach, both_added-Reach,
}
use cs444_operating_systems.FragTest.{to_u32, Floats, main}
use cs444_operating_systems.FragTest.Correct.{IsQuiet, Prints, main_lem}

-- The allocator before and after the first sleep: another thread adds a page in it.
abbrev phase : ℕ → System
phase zero = one_added
phase (suc n) = both_added

abbrev system : ℕ → System
system t = phase (t / 2)

phase-Reach : (n : ℕ) → Reach any_node empty (phase n)
phase-Reach zero = one_added-Reach
phase-Reach (suc n) = both_added-Reach

-- Quotients as pairs
abbrev pairs : Floats
pairs = record { Float = ℕ × ℕ; to_float = λ n. (n, 1); divide = λ x y. (x.0, y.0) }

-- A number as an argument
abbrev atoi : ℤ → ℤ
atoi n = n

-- The phase changes with every second system call.
same_phase : IsQuiet (λ t. (system t).slob)
same_phase i =
    let before : (4 * i + 1) / 2 ≡ 4 * i / 2 = omega arith in
    let after : (4 * i + 3) / 2 ≡ (4 * i + 2) / 2 = omega arith in
    (ap (λ n. (phase n).slob) before, ap (λ n. (phase n).slob) after)

main_lem_example :
    Prints pairs
      (λ t. (system t).slob)
      atoi
      (pos 3 ∷ [])
      (main pairs (λ t. (system t).slob) atoi (2 ^ 32) (pos 3 ∷ []))
main_lem_example =
    main_lem pairs any_node empty (λ i. []) system empty-IsHeap (λ t. phase-Reach (t / 2))
      same_phase atoi (2 ^ 32) (pos 3 ∷ []) (omega arith)

-- A block of 50 units is taken from each page.
amounts_before :
    (sys_get_slob_amt_free one_added.slob ≡ 1998) × (sys_get_slob_amt_total one_added.slob ≡ 2048)
unfolding sys_get_slob_amt_free sys_get_slob_amt_total add_units count_pages slob_page_alloc
    best_fit slob_last new_page set_slob_page_free set_slob consider delta_at slob_units carve
    slob_list
amounts_before = (refl, refl)

amounts_after :
    (sys_get_slob_amt_free both_added.slob ≡ 3996) × (sys_get_slob_amt_total both_added.slob ≡ 4096)
unfolding sys_get_slob_amt_free sys_get_slob_amt_total add_units count_pages slob_page_alloc
    best_fit slob_last new_page set_slob_page_free set_slob consider delta_at slob_units carve
    slob_list
amounts_after = (refl, refl)

-- -1 is the most rounds of all.
minus_one : to_u32 (negsuc 0) ≡ 2 ^ 32 - 1
minus_one = refl
