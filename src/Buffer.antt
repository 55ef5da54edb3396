-- ===== src/Buffer.antt =====
-- Concurrency1/concurrency.c, and its copy CS444_project1_46/concurrency.c: producers and consumers.
-- A round is what a producer or a consumer does while it holds `mutex`; rounds do not overlap, since
-- the mutex is locked at the start and unlocked at the end of each. Printing and sleeping are left
-- out. The processor's answers and the twister's numbers are parameters.
pub mod Stack
pub mod Rdrand
pub mod Threads
pub mod Inside
pub mod Linear
pub mod AtRest
pub mod Served
mod Tests
use cs444_operating_systems.Prelude.{
  ℕ, ◌+◌, ◌-◌, ◌%◌, ◌^◌, Bool, true, false, Option, none, some, List, [], ◌∷◌, leb, ◌==◌,
  if◌then◌else◌,
}

abbrev pub max_buffer_size : ℕ
max_buffer_size = 32

-- `struct Data`
pub record Item : Type 0 where
  pub value : ℕ
  pub wait_time : ℕ

pub record Buffer : Type 0 where
  pub buffer : ℕ → Item
  pub num_items : ℕ

-- `buffer[i] = data`
unfoldable pub set : (ℕ → Item) → ℕ → Item → ℕ → Item
set b i item j = if j == i then item else b j

-- A round of a producer, with the item that it generates: false where the buffer is full.
unfoldable pub producer : Buffer → Item → Buffer × Bool
unfolding set
producer b item =
    if leb max_buffer_size b.num_items
    then (b, false)
    else (record { buffer = set b.buffer b.num_items item; num_items = b.num_items + 1 }, true)

-- A round of a consumer: none where the buffer is empty.
unfoldable pub consumer : Buffer → Buffer × Option Item
consumer b =
    if b.num_items == 0
    then (b, none)
    else (record b { num_items = b.num_items - 1 }, some (b.buffer (b.num_items - 1)))

pub data Round : Type 0 where
  produce : Item → Round
  consume : Round

-- What a round shows to its thread.
pub data Answer : Type 0 where
  added : Bool → Answer
  removed : Option Item → Answer

abbrev pub round : Buffer → Round → Buffer × Answer
round b (produce item) = let r = producer b item in (r.0, added r.1)
round b consume = let r = consumer b in (r.0, removed r.1)

-- The rounds of all threads, in the order in which they get the mutex.
abbrev pub rounds : Buffer → List Round → Buffer × List Answer
rounds b [] = (b, [])
rounds b (r ∷ rs) = let one = round b r in let rest = rounds one.0 rs in (rest.0, one.1 ∷ rest.1)

-- `rdrand` for 0 ≤ min ≤ max: an `unsigned int` remainder, or the twister's, cut to an int's width.
-- `has_rdrand` is the bit of `cpuid`, `tmp` the processor's number.
unfoldable pub rdrand : (has_rdrand : Bool) (tmp genrand_int32 min max : ℕ) → ℕ
rdrand has_rdrand tmp genrand_int32 min max =
    if has_rdrand
    then (tmp % (max - min + 1) + min) % 2 ^ 32
    else (genrand_int32 % (max - min + 1) + min) % 2 ^ 32
