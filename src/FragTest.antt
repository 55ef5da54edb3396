-- ===== src/FragTest.antt =====
-- CS444_project4_46/Frag_Test/frag_test.c: the program that prints the fragmentation of the
-- allocator. Each of its two system calls reads the allocator at the time it is made: the parameter
-- `kernel t` is the allocator at the t-th call, and what other programs do in between (most of it in
-- the `sleep`) is in the sequence. Of `float` the conversion and the quotient are parameters, of the
-- C library `atoi`. C leaves open which call of a quotient comes first; here it is the left one.
-- The print of a round is the record `Round`; the `%d` of its number shows the same 32 bits.
pub mod Correct
mod Runs
use cs444_operating_systems.Prelude.{
  ℕ, zero, suc, ◌+◌, ◌-◌, ◌%◌, ◌^◌, Option, none, some, List, [], ◌∷◌, ltb, if◌then◌else◌,
}
use mathlib.Core.Option
use cs444_operating_systems.Prelude.Int.{ℤ, pos, negsuc}
use cs444_operating_systems.Slob.State.{Slob}
use cs444_operating_systems.Slob.Amounts.{sys_get_slob_amt_free, sys_get_slob_amt_total}

-- DEF_NUM_TESTS
abbrev pub def_num_tests : ℤ
def_num_tests = pos 10

-- The conversion of an `int` to `unsigned int`, which the test `i < num_tests` makes.
abbrev pub to_u32 : ℤ → ℕ
to_u32 (pos n) = n % 2 ^ 32
to_u32 (negsuc n) = 2 ^ 32 - 1 - n % 2 ^ 32

pub record Floats : Type 1 where
  pub Float : Type 0
  pub to_float : ℕ → Float
  pub divide : Float → Float → Float

pub record Round (f : Floats) : Type 0 where
  pub number : ℕ
  pub fragmentation : f.Float
  pub free_memory : ℕ
  pub total_memory : ℕ

pub data Outcome (f : Floats) : Type 0 where
  -- exit(1) after the usage line
  usage : Outcome f
  -- The number of the line "Running %d frag tests...", and the rounds
  printed : (running : ℤ) → List (Round f) → Outcome f

-- The number of tests, from the arguments after the program's name.
abbrev pub num_tests_of : {Text : Type 0} → (Text → ℤ) → List Text → Option ℤ
num_tests_of atoi [] = some def_num_tests
num_tests_of atoi (n ∷ []) = some (atoi n)
num_tests_of atoi (n ∷ m ∷ rest) = none

module _ (f : Floats) (kernel : ℕ → Slob) where
  -- One round, whose first system call is the t-th.
  abbrev pub round : (i t : ℕ) → Round f
  round i t = record {
    number = (i + 1) % 2 ^ 32;
    fragmentation =
        f.divide (f.to_float (sys_get_slob_amt_free (kernel t)))
          (f.to_float (sys_get_slob_amt_total (kernel (t + 1))));
    free_memory = sys_get_slob_amt_free (kernel (t + 2));
    total_memory = sys_get_slob_amt_total (kernel (t + 3));
  }

  -- The loop; `none` is out of fuel.
  unfoldable pub rounds : (fuel i num_tests t : ℕ) → Option (List (Round f))
  rounds zero i num_tests t = none
  rounds (suc fuel) i num_tests t =
      let rest = rounds fuel ((i + 1) % 2 ^ 32) num_tests (t + 4) in
      if ltb i num_tests then Option.map (λ ts. round i t ∷ ts) rest else some []

  -- `none` is the wrong number of arguments.
  abbrev pub with_num_tests : (fuel : ℕ) → Option ℤ → Option (Outcome f)
  with_num_tests fuel none = some usage
  with_num_tests fuel (some n) = Option.map (printed n) (rounds fuel 0 (to_u32 n) 0)

  unfoldable pub main : {Text : Type 0} → (Text → ℤ) → (fuel : ℕ) → List Text → Option (Outcome f)
  main atoi fuel args = with_num_tests fuel (num_tests_of atoi args)
