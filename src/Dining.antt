-- ===== src/Dining.antt =====
-- Concurrency2/concurrency2.c: the dining philosophers.
-- `n` stands for NUM_PHILOSOPHERS. A mutex is the seat of the philosopher that holds it. What is
-- shared is the forks; `print_lock` is held around a `printf` only, and is left out with it, and so
-- is the time slept. A step of a philosopher is what happens between two calls on a fork.
pub mod Safety
pub mod Progress
pub mod Eats
mod Tests
use cs444_operating_systems.Prelude.{
  ℕ, ◌+◌, ◌<◌, ◌≡◌, Bool, true, false, Option, none, some, ◌==◌, if◌then◌else◌,
}

abbrev pub num_philosophers : ℕ
num_philosophers = 5

-- The forks of a seat; the last philosopher takes them in the other order.
unfoldable pub right_fork : (n seat_num : ℕ) → ℕ
right_fork n seat_num = if seat_num + 1 == n then 0 else seat_num

unfoldable pub left_fork : (n seat_num : ℕ) → ℕ
left_fork n seat_num = if seat_num + 1 == n then seat_num else seat_num + 1

abbrev pub update {ℓ} : {A : Type ℓ} → (ℕ → A) → ℕ → A → ℕ → A
update f i a j = if j == i then a else f j

-- Where a philosopher stands in `philosopher_action`.
pub data Pc : Type 0 where
  think : Pc  -- in `think`
  get_right : Pc  -- in `get_forks`, before the lock of the right fork
  get_left : Pc  -- in `get_forks`, before the lock of the left fork
  eat : Pc  -- in `eat`, or before the first unlock of `put_forks`
  put_left : Pc  -- in `put_forks`, before the unlock of the left fork

abbrev pub Forks : Type 0
Forks = ℕ → Option ℕ

-- One step of the philosopher on `seat`.
pub data Move (n seat : ℕ) (forks : Forks) : Pc → Forks → Pc → Type 0 where
  finish_think : Move n seat forks think forks get_right
  lock_right :
      forks (right_fork n seat) ≡ none
      → Move n seat forks get_right (update forks (right_fork n seat) (some seat)) get_left
  lock_left :
      forks (left_fork n seat) ≡ none
      → Move n seat forks get_left (update forks (left_fork n seat) (some seat)) eat
  unlock_right : Move n seat forks eat (update forks (right_fork n seat) none) put_left
  unlock_left : Move n seat forks put_left (update forks (left_fork n seat) none) think

pub record Table : Type 0 where
  pub forks : Forks
  pub pc : ℕ → Pc

pub data Step (n : ℕ) (s : Table) : Table → Type 0 where
  pick :
      (seat : ℕ) {forks : Forks} {p : Pc}
      → seat < n
      → Move n seat s.forks (s.pc seat) forks p
      → Step n s (record { forks = forks; pc = update s.pc seat p })

-- `main`: every mutex is free, and every philosopher thinks.
abbrev pub start : Table
start = record { forks = λ f. none; pc = λ i. think }

pub data Reach (n : ℕ) : Table → Type 0 where
  init : Reach n start
  later : {s t : Table} → Reach n s → Step n s t → Reach n t
