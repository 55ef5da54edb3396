-- ===== src/Sharing/Tests.antt =====
-- A run of five threads, of which the fourth blocks (Concurrency3/prob1_conc3.c).
use cs444_operating_systems.Prelude.{ℕ, ◌≡◌, refl, arith}
use cs444_operating_systems.Sharing.{
  activate, blocked, wait_mutex, must_block, go_in, wait_again, pick, start, System, Steps, here,
  later, update, post_mutex, inside, leave, leaving,
}
use cs444_operating_systems.Sharing.Blocked.{Steps-blocked}
use cs444_operating_systems.Sharing.Limit.{WithinLimit, Steps-WithinLimit, CanMove, Steps-CanMove}

-- A thread takes the mutex.
abbrev took : ℕ → System → System
took i s = record { shared = record (s.shared) { mutex = 0 }; pc = update s.pc i inside }

-- A thread goes in, and posts the mutex.
abbrev went_in : ℕ → System → System
went_in i s = record { shared = activate s.shared; pc = update s.pc i leave }

abbrev three_in : System
three_in = went_in 2 (took 2 (went_in 1 (took 1 (went_in 0 (took 0 start)))))

three_in-Steps : Steps 5 start three_in
unfolding activate
three_in-Steps =
    later
      (later
        (later
          (later
            (later (later here (pick 0 (omega arith) (wait_mutex (omega arith))))
              (pick 0 (omega arith) (go_in refl)))
            (pick 1 (omega arith) (wait_mutex (omega arith))))
          (pick 1 (omega arith) (go_in refl)))
        (pick 2 (omega arith) (wait_mutex (omega arith))))
      (pick 2 (omega arith) (go_in refl))

abbrev fourth_blocks : System
fourth_blocks = record {
  shared = post_mutex (took 3 three_in).shared;
  pc = update (took 3 three_in).pc 3 blocked;
}

fourth_blocks-Steps : Steps 5 start fourth_blocks
unfolding activate
fourth_blocks-Steps =
    later (later three_in-Steps (pick 3 (omega arith) (wait_mutex (omega arith))))
      (pick 3 (omega arith) (must_block refl))

abbrev first_leaves : System
first_leaves = record {
  shared = record (fourth_blocks.shared) { mutex = 0 };
  pc = update fourth_blocks.pc 0 leaving;
}

first_leaves-Steps : Steps 5 fourth_blocks first_leaves
unfolding activate
first_leaves-Steps = later here (pick 0 (omega arith) (wait_again (omega arith)))

Steps-blocked_example : first_leaves.pc 3 ≡ blocked
Steps-blocked_example = Steps-blocked 3 fourth_blocks-Steps refl first_leaves-Steps

Steps-WithinLimit_example : WithinLimit 5 fourth_blocks
Steps-WithinLimit_example = Steps-WithinLimit (omega arith) fourth_blocks-Steps

Steps-CanMove_example : CanMove 5 fourth_blocks
Steps-CanMove_example = Steps-CanMove (omega arith) fourth_blocks-Steps
