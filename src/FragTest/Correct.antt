-- ===== src/FragTest/Correct.antt =====
-- What Frag_Test/frag_test.c prints (CS444_project4_46).
use cs444_operating_systems.Prelude.{
  ℕ, zero, suc, ◌+◌, ◌-◌, ◌*◌, ◌/◌, ◌%◌, ◌^◌, ◌≤◌, ◌<◌, ◌≡◌, refl, ◌∙◌, ap, true, Option, some,
  List, [], ◌∷◌, arith, ltb, lt→ltb, Bool-cases, inl, inr, length,
}
use mathlib.Core.Option
use cs444_operating_systems.Prelude.Int.{ℤ, pos, negsuc}
use cs444_operating_systems.Slob.Segment.{Blocks}
use cs444_operating_systems.Slob.State.{Slob}
use cs444_operating_systems.Slob.Heap.{IsHeap}
use cs444_operating_systems.Slob.Amounts.{
  sys_get_slob_amt_free, sys_get_slob_amt_total, IsMeasured, amounts-IsMeasured,
}
use cs444_operating_systems.Slob.Threads.{System, Reach}
use cs444_operating_systems.Slob.Threads.Sound.{Reach-IsSafe}
use cs444_operating_systems.FragTest.{
  to_u32, Floats, Round, Outcome, usage, printed, round, rounds, with_num_tests, main,
}

-- A round: its number; the quotient of the two amounts of the allocator as it is before the sleep;
-- and the two amounts of the allocator as it is after it.
pub record IsReport (f : Floats) (kernel : ℕ → Slob) (i : ℕ) (r : Round f) : Type 0 where
  pub numbered : r.number ≡ i + 1
  pub free_at_start : ℕ
  pub total_at_start : ℕ
  pub before : IsMeasured (kernel (4 * i)) free_at_start total_at_start
  pub quotient : r.fragmentation ≡ f.divide (f.to_float free_at_start) (f.to_float total_at_start)
  pub after : IsMeasured (kernel (4 * i + 2)) r.free_memory r.total_memory

abbrev pub AreReports : (f : Floats) → (ℕ → Slob) → ℕ → List (Round f) → Type 0
AreReports f kernel i [] = Unit
AreReports f kernel i (r ∷ rs) = IsReport f kernel i r × AreReports f kernel (i + 1) rs

-- Nothing changes the allocator between the two system calls in front of the sleep, nor between
-- the two behind it.
abbrev pub IsQuiet : (ℕ → Slob) → Type 0
IsQuiet kernel =
    (i : ℕ) → (kernel (4 * i + 1) ≡ kernel (4 * i)) × (kernel (4 * i + 3) ≡ kernel (4 * i + 2))

-- A number below 2^32 that differs from an integer by a multiple of 2^32.
abbrev pub IsUnsigned : ℤ → ℕ → Type 0
IsUnsigned (pos n) r = (r < 2 ^ 32) × ((k : ℕ) × (n ≡ r + k * 2 ^ 32))
IsUnsigned (negsuc m) r = (r < 2 ^ 32) × ((k : ℕ) × (r + suc m ≡ k * 2 ^ 32))

-- The line with the number, and as many rounds as it is as an unsigned number.
pub record Runs (f : Floats) (kernel : ℕ → Slob) (n : ℤ) (out : Option (Outcome f)) : Type 0 where
  pub lines : List (Round f)
  pub has_lines : out ≡ some (printed n lines)
  pub counted : IsUnsigned n (length lines)
  pub reports : AreReports f kernel 0 lines

-- Ten rounds, as many as the argument says, or the usage.
abbrev pub Prints :
    (f : Floats)
    → (ℕ → Slob)
    → {Text : Type 0} → (Text → ℤ)
    → List Text
    → Option (Outcome f)
    → Type 0
Prints f kernel atoi [] out = Runs f kernel (pos 10) out
Prints f kernel atoi (n ∷ []) out = Runs f kernel (atoi n) out
Prints f kernel atoi (n ∷ m ∷ rest) out = out ≡ some usage

to_u32-IsUnsigned : (n : ℤ) → IsUnsigned n (to_u32 n)
to_u32-IsUnsigned (pos n) = (omega arith, (n / 2 ^ 32, omega arith))
to_u32-IsUnsigned (negsuc m) = (omega arith, (m / 2 ^ 32 + 1, omega arith))

to_u32-range : (n : ℤ) → to_u32 n < 2 ^ 32
to_u32-range (pos n) = omega arith
to_u32-range (negsuc n) = omega arith

module _ (f : Floats) (kernel : ℕ → Slob) (bs : ℕ → ℕ → Blocks)
    (heaps : (t : ℕ) → IsHeap (kernel t) (bs t)) (quiet : IsQuiet kernel) where
  round-IsReport : (i : ℕ) → i + 1 < 2 ^ 32 → IsReport f kernel i (round f kernel i (4 * i))
  round-IsReport i small =
      let (q1, q3) = quiet i in
      record {
        numbered = omega (arith, small);
        free_at_start = sys_get_slob_amt_free (kernel (4 * i));
        total_at_start = sys_get_slob_amt_total (kernel (4 * i));
        before = amounts-IsMeasured (kernel (4 * i)) (bs (4 * i)) (heaps (4 * i));
        quotient = rw q1 refl;
        after =
            rw q3 (amounts-IsMeasured (kernel (4 * i + 2)) (bs (4 * i + 2)) (heaps (4 * i + 2)));
      }

  rounds-more :
      (fuel i n : ℕ)
      → n < 2 ^ 32
      → i < n
      → rounds f kernel (suc fuel) i n (4 * i)
        ≡ Option.map
            (λ ts. round f kernel i (4 * i) ∷ ts)
            (rounds f kernel fuel (i + 1) n (4 * (i + 1)))
  unfolding rounds
  rounds-more fuel i n small lt =
      let more : ltb i n ≡ true = lt→ltb i n lt in
      let next : (i + 1) % 2 ^ 32 ≡ i + 1 = omega (arith, lt, small) in
      let later : 4 * i + 4 ≡ 4 * (i + 1) = omega arith in rw (more, next, later)

  rounds_lem :
      (fuel i n : ℕ)
      → n < 2 ^ 32
      → i ≤ n
      → n < i + fuel
      → (rs : List (Round f)) × (rounds f kernel fuel i n (4 * i) ≡ some rs)
        × (length rs ≡ n - i)
        × AreReports f kernel i rs
  unfolding rounds
  rounds_lem zero i n small le enough = absurd (omega (arith, le, enough))
  rounds_lem (suc fuel) i n small le enough = elim (Bool-cases (ltb i n)) [
    | inl more ↦
        let lt : i < n = ground (arith, more) in
        let (rs, e, n_rs, reports) =
          rounds_lem fuel (i + 1) n small (omega (arith, lt)) (omega (arith, enough)) in
        (
          round f kernel i (4 * i) ∷ rs,
          rounds-more fuel i n small lt ∙ ap (Option.map (λ ts. round f kernel i (4 * i) ∷ ts)) e,
          omega (arith, n_rs, lt),
          (round-IsReport i (omega (arith, lt, small)), reports),
        )
    | inr done ↦ let ge : i ≡ n = ground (arith, done, le) in ([], rw done, omega (arith, ge), tt)
  ]

-- Where the steps of threads in the allocator have led from a heap to what each system call finds,
-- and nothing changes the allocator between the two calls in front of a round's sleep, nor between
-- the two behind it, and with fuel 2^32: without an argument the program runs ten rounds, with one
-- as many as the argument is as an unsigned number (the one below 2^32 that differs from it by a
-- multiple of 2^32), after a line with the argument, or 10, as it is. Each round prints its number;
-- the quotient of the free units of the pages on the allocator's lists by all units of these pages,
-- as they are before the sleep; and the two amounts as they are after it; each time the free amount
-- is at most the total and at least a 2048th of it. With more arguments it prints the usage only.
pub main_lem :
    (f : Floats) (page_to_nid : ℕ → ℕ) (s : Slob) (bs : ℕ → Blocks) (system : ℕ → System)
    → IsHeap s bs
    → ((t : ℕ) → Reach page_to_nid s (system t))
    → IsQuiet (λ t. (system t).slob)
    → {Text : Type 0} (atoi : Text → ℤ) (fuel : ℕ) (args : List Text) → 2 ^ 32 ≤ fuel
    → Prints f (λ t. (system t).slob) atoi args (main f (λ t. (system t).slob) atoi fuel args)
unfolding main
main_lem f page_to_nid s bs system heap reached quiet {Text} atoi fuel args enough = go args
  where
    kernel : ℕ → Slob
    kernel t = (system t).slob

    runs : (n : ℤ) → Runs f kernel n (with_num_tests f kernel fuel (some n))
    runs n =
        let safe = λ (t : ℕ). Reach-IsSafe bs heap (reached t) in
        let (rs, e, n_rs, reports) =
          rounds_lem f kernel (λ t. (safe t).sound.blocks) (λ t. (safe t).sound.heap) quiet fuel 0
            (to_u32 n) (to_u32-range n) (omega arith) (omega (arith, to_u32-range n, enough)) in
        let whole : length rs ≡ to_u32 n = omega (arith, n_rs) in
        record {
          lines = rs;
          has_lines = rw e refl;
          counted = rw whole (to_u32-IsUnsigned n);
          reports = reports;
        }

    go : (args : List Text) → Prints f kernel atoi args (main f kernel atoi fuel args)
    go [] = runs (pos 10)
    go (n ∷ []) = runs (atoi n)
    go (n ∷ m ∷ rest) = refl
