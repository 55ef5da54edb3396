-- ===== src/Dining/Tests.antt =====
-- Runs of the philosophers (Concurrency2/concurrency2.c).
use cs444_operating_systems.Prelude.{◌≡◌, ◌≢◌, refl, some, arith}
use cs444_operating_systems.Dining.{
  num_philosophers, get_right, get_left, eat, finish_think, lock_right, lock_left, pick, init,
  later, right_fork, left_fork, update, Table, Reach, start,
}
use cs444_operating_systems.Dining.Safety.{neighbour, Reach-exclusion}
use cs444_operating_systems.Dining.Eats.{Steps, Reach-eat}

-- Seat 4 has locked its first fork, which is fork 0.
abbrev waiting : Table
waiting = record {
  forks = update start.forks 0 (some 4);
  pc = update (update start.pc 4 get_right) 4 get_left;
}

waiting-Reach : Reach num_philosophers waiting
unfolding right_fork
waiting-Reach =
    later (later init (pick 4 (omega arith) finish_think)) (pick 4 (omega arith) (lock_right refl))

abbrev one_eats : Table
one_eats = record { forks = update waiting.forks 4 (some 4); pc = update waiting.pc 4 eat }

one_eats-Reach : Reach num_philosophers one_eats
unfolding left_fork
one_eats-Reach = later waiting-Reach (pick 4 (omega arith) (lock_left refl))

Reach-exclusion_example :
    (one_eats.forks (right_fork num_philosophers 4) ≡ some 4)
    × (one_eats.forks (left_fork num_philosophers 4) ≡ some 4)
    × (one_eats.pc (neighbour num_philosophers 4) ≢ eat)
Reach-exclusion_example = Reach-exclusion (omega arith) one_eats-Reach 4 (omega arith) refl

Reach-eat_example : (t : Table) × Steps num_philosophers waiting t × (t.pc 2 ≡ eat)
Reach-eat_example = Reach-eat (omega arith) waiting-Reach 2 (omega arith)
